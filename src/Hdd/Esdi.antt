-- ===== src/Hdd/Esdi.antt =====
-- The ESDI commands of soc/firmware/src/hdd_hal.c.
use flux_ripper.Base.{
  ℕ, ◌*◌, ◌/◌, ◌%◌, ◌^◌, Bool, true, false, not, ◌&&◌, ◌||◌, ◌==◌, ltb, if◌then◌else◌, bit_and,
  bit_or, any_bit,
}
use flux_ripper.Wait.{Verdict, undecided, settled}
use flux_ripper.Act.{Outcome, returns, fails, pure, check, modify, ◌>>=◌, ◌>>◌}
use flux_ripper.Wd.Device.{HalRet, hal_not_supported}
use flux_ripper.Hdd.Device.{HddReg, HddIo}
use flux_ripper.Hdd.State.{
  hal_invalid, hal_hardware, Geometry, EsdiConfig, Hdd, valid_drive, field, drive_at, put_profile,
}
use flux_ripper.Hdd.Seek.{Call, read_reg, write_reg, poll, check_initialized, enter, select_drive}

-- `wait_esdi_cmd_done`, which is `hdd_esdi_wait`: bits 1 and 2 of the status.
abbrev pub judge_esdi : ℕ → Verdict (Outcome HalRet (Unit {0}))
judge_esdi status =
    if any_bit status (2 ^ 1)
    then settled (if any_bit status (2 ^ 2) then fails hal_hardware else returns tt)
    else undecided

-- The configuration in the two registers.
unfoldable pub config_from : ℕ → ℕ → EsdiConfig
config_from a b =
    let cylinders = field a 0 16 in
    let heads = field b 8 8 in
    let sectors = field b 0 8 in
    record {
      cylinders = cylinders;
      heads = heads;
      sectors_per_track = sectors;
      total_sectors = cylinders * heads * sectors % 2 ^ 32;
      transfer_rate = field a 24 2;
      soft_sectored = any_bit a (2 ^ 21);
      fixed_drive = any_bit a (2 ^ 22);
      valid = true;
    }

-- The geometry that a configuration with no zero in it replaces.
unfoldable pub adopt_config : EsdiConfig → Geometry → Geometry
adopt_config c g =
    if ltb 0 (c.cylinders) && ltb 0 (c.heads) && ltb 0 (c.sectors_per_track)
    then record g {
      cylinders = c.cylinders;
      heads = c.heads;
      sectors = c.sectors_per_track;
      total_sectors = c.total_sectors;
      capacity_mb = c.total_sectors * 512 % 2 ^ 32 / (1024 * 1024);
      from_esdi_config = true;
    }
    else g

module _ {H : Type 0} where
  abbrev pub store_config : ℕ → EsdiConfig → Hdd H → Hdd H
  store_config drive c s =
      let p = (drive_at s drive).profile in
      put_profile drive (record p { esdi_config = c; geometry = adopt_config c (p.geometry) }) s

module _ {H : Type 0} (hw : HddIo H) where
  unfoldable pub wait_esdi_done : ℕ → ℕ → Call hw (Unit {0})
  wait_esdi_done fuel timeout = poll hw HddReg.esdi_cmd_status judge_esdi timeout 1 fuel

  abbrev pub check_esdi : ℕ → Call hw (Unit {0})
  check_esdi drive s =
      check ((drive_at s drive).profile.detection.drive_type == 4) hal_not_supported s

  -- `hdd_esdi_get_config`, where `wanted` says that the pointer is not NULL. The drive is valid where it
  -- is selected, so that the code of the selection, which is dropped, is HAL_OK.
  unfoldable pub esdi_get_config : ℕ → ℕ → Bool → Call hw EsdiConfig
  esdi_get_config fuel drive wanted = do
    check_initialized hw
    check (valid_drive drive && wanted) hal_invalid
    check_esdi drive
    select_drive hw drive
    write_reg hw HddReg.esdi_cmd_ctrl (bit_or (2 ^ 0) (bit_and (0x09 * 2 ^ 8) 0xFF00))
    wait_esdi_done fuel 1000
    status ← read_reg hw HddReg.esdi_cmd_status
    check (any_bit status (2 ^ 3)) hal_hardware
    a ← read_reg hw HddReg.esdi_config_a
    b ← read_reg hw HddReg.esdi_config_b
    modify (store_config drive (config_from a b))
    pure (config_from a b)

  -- `hdd_esdi_command`; its parameter is not used.
  unfoldable pub esdi_command : ℕ → ℕ → Call hw (Unit {0})
  esdi_command drive opcode = do
    enter hw drive
    check_esdi drive
    select_drive hw drive
    write_reg hw HddReg.esdi_cmd_ctrl (bit_or (2 ^ 0) (bit_and (opcode * 2 ^ 8) 0xFF00))

  -- `hdd_esdi_config_valid`
  unfoldable pub esdi_config_valid : ℕ → Hdd H → Bool
  esdi_config_valid drive s =
      if not (s.initialized) || not (valid_drive drive)
      then false
      else (drive_at s drive).profile.esdi_config.valid
