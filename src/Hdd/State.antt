-- ===== src/Hdd/State.antt =====
-- The state of soc/firmware/src/hdd_hal.c: a profile, a position and a flag for each drive.
use flux_ripper.Base.{ℕ, ◌*◌, ◌/◌, ◌%◌, ◌^◌, Bool, false, ◌==◌, ltb, if◌then◌else◌, any_bit, List}
use flux_ripper.Wd.Device.{HalRet, hal_other}
use flux_ripper.Hdd.Device.{HddReg, HddIo}

-- `HAL_ERR_INVALID`, `HAL_ERR_NOT_READY` and `HAL_ERR_HARDWARE`: -1, -3 and -7.
abbrev pub hal_invalid : HalRet
hal_invalid = hal_other 1

abbrev pub hal_not_ready : HalRet
hal_not_ready = hal_other 3

abbrev pub hal_hardware : HalRet
hal_hardware = hal_other 7

-- `hdd_detection_t`; the types are the numbers of their enumerations.
pub record Detection : Type 0 where
  pub drive_type : ℕ
  pub phy_mode : ℕ
  pub rate : ℕ
  pub confidence : ℕ
  pub was_forced : Bool
  pub score_floppy : ℕ
  pub score_hdd : ℕ
  pub score_st506 : ℕ
  pub score_esdi : ℕ
  pub score_mfm : ℕ
  pub score_rll : ℕ

-- `hdd_geometry_t`
pub record Geometry : Type 0 where
  pub cylinders : ℕ
  pub heads : ℕ
  pub sectors : ℕ
  pub sector_size : ℕ
  pub interleave : ℕ
  pub skew : ℕ
  pub total_sectors : ℕ
  pub capacity_mb : ℕ
  pub from_esdi_config : Bool

-- `hdd_health_t`
pub record Health : Type 0 where
  pub rpm : ℕ
  pub rpm_variance : ℕ
  pub seek_avg_ms : ℕ
  pub seek_max_ms : ℕ
  pub signal_quality : ℕ
  pub error_rate : ℕ
  pub ready : Bool
  pub spinning : Bool

-- `esdi_config_t`
pub record EsdiConfig : Type 0 where
  pub cylinders : ℕ
  pub heads : ℕ
  pub sectors_per_track : ℕ
  pub total_sectors : ℕ
  pub transfer_rate : ℕ
  pub soft_sectored : Bool
  pub fixed_drive : Bool
  pub valid : Bool

-- `hdd_profile_t`
pub record Profile : Type 0 where
  pub detection : Detection
  pub geometry : Geometry
  pub health : Health
  pub esdi_config : EsdiConfig
  pub valid : Bool

-- `hdd_drive_state_t`
pub record DriveState : Type 0 where
  pub profile : Profile
  pub current_cylinder : ℕ
  pub current_head : ℕ
  pub detection_done : Bool

-- `hdd_state`, the hardware, and the words that the calls have stored at the buffers of their callers, in
-- their order.
pub record Hdd (H : Type 0) : Type 0 where
  pub initialized : Bool
  pub active_drive : ℕ
  pub drive0 : DriveState
  pub drive1 : DriveState
  pub io : H
  pub stored : List ℕ

abbrev pub valid_drive : ℕ → Bool
valid_drive drive = ltb drive 2

-- What `memset` leaves of a profile.
abbrev pub no_detection : Detection
no_detection = record {
  drive_type = 0;
  phy_mode = 0;
  rate = 0;
  confidence = 0;
  was_forced = false;
  score_floppy = 0;
  score_hdd = 0;
  score_st506 = 0;
  score_esdi = 0;
  score_mfm = 0;
  score_rll = 0;
}

abbrev pub no_geometry : Geometry
no_geometry = record {
  cylinders = 0;
  heads = 0;
  sectors = 0;
  sector_size = 0;
  interleave = 0;
  skew = 0;
  total_sectors = 0;
  capacity_mb = 0;
  from_esdi_config = false;
}

abbrev pub no_profile : Profile
no_profile = record {
  detection = no_detection;
  geometry = no_geometry;
  health = record {
    rpm = 0;
    rpm_variance = 0;
    seek_avg_ms = 0;
    seek_max_ms = 0;
    signal_quality = 0;
    error_rate = 0;
    ready = false;
    spinning = false;
  };
  esdi_config = record {
    cylinders = 0;
    heads = 0;
    sectors_per_track = 0;
    total_sectors = 0;
    transfer_rate = 0;
    soft_sectored = false;
    fixed_drive = false;
    valid = false;
  };
  valid = false;
}

abbrev pub fresh_drive : DriveState
fresh_drive = record {
  profile = no_profile;
  current_cylinder = 0;
  current_head = 0;
  detection_done = false;
}

-- `(x & MASK) >> SHIFT` of a field of `w` bits.
abbrev pub field : ℕ → ℕ → ℕ → ℕ
field x shift width = x / 2 ^ shift % 2 ^ width

module _ {H : Type 0} where
  -- `hdd_state.drive[drive]`; the drive is 0 or 1.
  abbrev pub drive_at : Hdd H → ℕ → DriveState
  drive_at s drive = if drive == 0 then s.drive0 else s.drive1

  abbrev pub put_drive : ℕ → DriveState → Hdd H → Hdd H
  put_drive drive d s = if drive == 0 then record s { drive0 = d } else record s { drive1 = d }

  abbrev pub put_profile : ℕ → Profile → Hdd H → Hdd H
  put_profile drive p s = put_drive drive (record (drive_at s drive) { profile = p }) s

module _ {H : Type 0} (hw : HddIo H) where
  abbrev pub poke : HddReg → ℕ → Hdd H → Hdd H
  poke r v s = record s { io = hw.write_reg r v s.io }

  abbrev pub peek : HddReg → Hdd H → ℕ × Hdd H
  peek r s = let (v, h) = hw.read_reg r s.io in (v, record s { io = h })

-- `unpack_detection`
unfoldable pub unpack_detection : ℕ → ℕ → Detection
unpack_detection result scores = record {
  drive_type = field result 0 3;
  confidence = field result 4 4;
  phy_mode = field result 8 2;
  rate = field result 12 3;
  was_forced = any_bit result (2 ^ 15);
  score_floppy = field scores 0 8;
  score_hdd = field scores 8 8;
  score_st506 = field scores 16 8;
  score_esdi = field scores 24 8;
  score_mfm = 0;
  score_rll = 0;
}

-- `unpack_geometry`, from the registers GEOMETRY_A, GEOMETRY_B and ENCODE_RESULT.
unfoldable pub geometry_from : ℕ → ℕ → ℕ → Geometry
geometry_from a b encode =
    let cylinders = field a 16 16 in
    let heads = field a 0 4 in
    let sectors = field b 0 8 in
    let total = cylinders * heads * sectors % 2 ^ 32 in
    record {
      cylinders = cylinders;
      heads = heads;
      sectors = sectors;
      interleave = field b 8 8;
      skew = field b 16 8;
      sector_size = 512;
      from_esdi_config = any_bit encode (2 ^ 7);
      total_sectors = total;
      capacity_mb = total * 512 % 2 ^ 32 / (1024 * 1024);
    }

-- `unpack_health`, from the registers HEALTH and STATUS of the drive.
unfoldable pub health_from : ℕ → ℕ → Health
health_from health status = record {
  rpm = field health 0 16;
  rpm_variance = field health 16 16;
  seek_avg_ms = 0;
  seek_max_ms = 0;
  signal_quality = 0;
  error_rate = 0;
  ready = any_bit status 1;
  spinning = any_bit status 1;
}
