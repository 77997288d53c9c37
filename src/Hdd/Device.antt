-- ===== src/Hdd/Device.antt =====
-- The registers of soc/firmware/include/hdd_hal.h that hdd_hal.c reads and writes, and its clock, over a
-- state `H` of the hardware.
use flux_ripper.Base.{ℕ, ◌==◌, if◌then◌else◌}
use flux_ripper.Wait.{Clock}

-- `HDD_*`
pub data HddReg : Type 0 where
  ctrl status0 cmd0 target0 health0 status1 cmd1 target1 health1 : HddReg
  discover_ctrl discover_status detect_ctrl detect_status detect_result detect_scores : HddReg
  sector_ctrl sector_status sector_addr sector_data encode_result geometry_a geometry_b : HddReg
  esdi_cmd_ctrl esdi_cmd_status esdi_config_a esdi_config_b : HddReg
  -- Those of hdd_dual_hal.c.
  drive_mux seek_queue cyl_pos0 cyl_pos1 : HddReg

-- `HDD0_CYL_POS` and `HDD1_CYL_POS`
abbrev pub cyl_pos_of : ℕ → HddReg
cyl_pos_of drive = if drive == 0 then HddReg.cyl_pos0 else HddReg.cyl_pos1

-- `HDD_STATUS(drv)` and its kin.
abbrev pub status_of : ℕ → HddReg
status_of drive = if drive == 0 then HddReg.status0 else HddReg.status1

abbrev pub cmd_of : ℕ → HddReg
cmd_of drive = if drive == 0 then HddReg.cmd0 else HddReg.cmd1

abbrev pub target_of : ℕ → HddReg
target_of drive = if drive == 0 then HddReg.target0 else HddReg.target1

abbrev pub health_of : ℕ → HddReg
health_of drive = if drive == 0 then HddReg.health0 else HddReg.health1

pub record HddIo (H : Type 0) : Type 0 where
  pub read_reg : HddReg → H → ℕ × H
  pub write_reg : HddReg → ℕ → H → H
  pub clock : Clock H
