-- ===== src/Msc/Device.antt =====
-- The drives as the mass-storage layer sees them: what it calls of fluxripper_hal.h, hdd_hal.h and
-- hdd_metadata.h, over an abstract state `H` of the hardware. A query reads the state and a command
-- also returns the next one. `hal_hdd_*`, `hal_write_sectors` and the constants `TRACKS_*` have no
-- definition in the repository, so they are parameters here.
use flux_ripper.Base.{ℕ, Bool, Option, List}

-- `HAL_ERR_*`
pub data HalError : Type 0 where
  invalid timeout not_ready no_disk write_prot overflow hardware mode : HalError

pub data HalStatus : Type 0 where
  hal_ok : HalStatus
  hal_err : HalError → HalStatus

-- `drive_profile_t`, the fields that this layer reads.
pub record DriveProfile : Type 0 where
  pub form_factor : ℕ
  pub density : ℕ
  pub tracks : ℕ
  pub encoding : ℕ
  pub valid : Bool

-- `hdd_metadata_t`, the fields that this layer reads; a string is its characters up to the NUL.
pub record HddMetadata : Type 0 where
  pub signature : ℕ
  pub vendor : List ℕ
  pub model : List ℕ
  pub max_cylinder : ℕ
  pub heads : ℕ
  pub spt_outer : ℕ

pub record DriveHal (H : Type 0) : Type 0 where
  pub tracks_40 : ℕ
  pub tracks_77 : ℕ
  pub tracks_80 : ℕ
  pub disk_present : H → ℕ → Bool
  pub write_protected : H → ℕ → Bool
  pub get_profile : H → ℕ → Option DriveProfile
  pub hdd_is_ready : H → ℕ → Bool
  pub hdd_total_sectors : H → ℕ → Option ℕ
  pub meta_read : H → ℕ → Option HddMetadata × H
  pub motor_on : H → ℕ → HalStatus × H
  pub motor_off : H → ℕ → HalStatus × H
  pub read_sectors : H → ℕ → ℕ → ℕ → HalStatus × List ℕ × H
  pub hdd_read_sectors : H → ℕ → ℕ → ℕ → HalStatus × List ℕ × H
  pub write_sectors : H → ℕ → ℕ → List ℕ → ℕ → HalStatus × H
  pub hdd_write_sectors : H → ℕ → ℕ → List ℕ → ℕ → HalStatus × H
