-- ===== src/Wd/Device.antt =====
-- What the controller emulation calls below itself: the memory-mapped registers of the WD block and
-- the hard disk layer of soc/firmware/include/hdd_hal.h, over an abstract state `H` of the hardware.
use flux_ripper.Base.{ℕ, Bool, Option, List}

-- The registers that wd_emu.c touches.
pub data WdReg : Type 0 where
  config geometry status_cmd ctrl buffer_addr buffer_data irq_mask irq_status : WdReg
  buffer_status valid_bitmap dirty_bitmap : WdReg

-- `HAL_OK` and the errors that wd_emu.c names; `hal_other` is any other code of the layer below.
pub data HalRet : Type 0 where
  hal_ok hal_already_init hal_param hal_not_supported hal_cmd hal_timeout : HalRet
  hal_other : ℕ → HalRet

-- The geometry in a drive profile whose `valid` flag is set.
pub record HddProfile : Type 0 where
  pub valid : Bool
  pub cylinders : ℕ
  pub heads : ℕ
  pub sectors : ℕ

-- `hdd_get_status`: ready and seeking.
pub record HddStatus : Type 0 where
  pub ready : Bool
  pub seeking : Bool

pub record WdHal (H : Type 0) : Type 0 where
  pub reg_read : WdReg → H → ℕ × H
  pub reg_write : WdReg → ℕ → H → H
  -- The 256 words at the buffer address that the IDENTIFY block is stored to.
  pub store_identify : List ℕ → H → H
  -- The bytes that follow a string literal in memory, where a copy runs past it: the literal and an
  -- offset from its end.
  pub past_literal : List ℕ → ℕ → ℕ
  pub hdd_hal_init : H → HalRet × H
  pub hdd_get_profile : ℕ → H → Option HddProfile × H
  pub hdd_select_drive : ℕ → H → H
  pub hdd_recalibrate : ℕ → H → HalRet × H
  pub hdd_seek : ℕ → ℕ → H → HalRet × H
  -- drive, cylinder, head, sector
  pub hdd_read_sector : ℕ → ℕ → ℕ → ℕ → H → HalRet × H
  pub hdd_is_ready : ℕ → H → Bool × H
  pub hdd_get_status : ℕ → H → Option HddStatus × H
