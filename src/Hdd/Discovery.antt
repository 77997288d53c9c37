-- ===== src/Hdd/Discovery.antt =====
-- Detection of the interface, discovery of the geometry and the settings of the decoder in
-- soc/firmware/src/hdd_hal.c. What a caller points to is an `Option`: `none` is NULL.
use flux_ripper.Base.{
  ℕ, ◌+◌, ◌*◌, ◌%◌, ◌^◌, Bool, true, not, ◌&&◌, ◌==◌, if◌then◌else◌, bit_and, bit_or, any_bit,
  Option, none, some,
}
use flux_ripper.Wait.{Verdict, undecided, settled}
use flux_ripper.Act.{Outcome, returns, fails, pure, fail, check, gets, modify, ◌>>=◌, ◌>>◌}
use flux_ripper.Wd.Device.{HalRet}
use flux_ripper.Hdd.Device.{HddReg, status_of, health_of, HddIo}
use flux_ripper.Hdd.State.{
  hal_invalid, hal_hardware, Detection, Geometry, Health, Profile, DriveState, Hdd, valid_drive,
  drive_at, put_drive, put_profile, unpack_detection, geometry_from, health_from,
}
use flux_ripper.Hdd.Seek.{and_not32, Call, read_reg, write_reg, poll, check_initialized, enter}

-- `wait_detection_done`: bits 1 and 2 of the status.
abbrev pub judge_detection : ℕ → Verdict (Outcome HalRet (Unit {0}))
judge_detection status =
    if any_bit status (2 ^ 1)
    then settled (returns tt)
    else if any_bit status (2 ^ 2)
    then settled (fails hal_hardware)
    else undecided

-- `wait_discovery_done`: bit 1 of the status.
abbrev pub judge_discovery : ℕ → Verdict (Outcome HalRet (Unit {0}))
judge_discovery status = if any_bit status (2 ^ 1) then settled (returns tt) else undecided

abbrev pub force_type : ℕ → DriveState → DriveState
force_type type d =
    let p = record (d.profile) {
      detection = record (d.profile.detection) { drive_type = type; was_forced = true };
    } in
    record d { profile = p; detection_done = true }

module _ {H : Type 0} where
  -- The profile with a detection kept.
  abbrev pub put_detection : ℕ → Detection → Hdd H → Hdd H
  put_detection drive d s =
      let p = record ((drive_at s drive).profile) { detection = d } in
      put_drive drive (record (drive_at s drive) { profile = p; detection_done = true }) s

module _ {H : Type 0} (hw : HddIo H) where
  unfoldable pub wait_detection_done : ℕ → ℕ → Call hw (Unit {0})
  wait_detection_done timeout fuel = poll hw HddReg.detect_status judge_detection timeout 10 fuel

  unfoldable pub wait_discovery_done : ℕ → ℕ → Call hw (Unit {0})
  wait_discovery_done timeout fuel = poll hw HddReg.discover_status judge_discovery timeout 50 fuel

  -- `if (ret != HAL_OK) { ...write the abort...; return ret; }`
  unfoldable pub abort_after :
      Option (Outcome HalRet (Unit {0}) × Hdd H)
      → HddReg
      → Option (Outcome HalRet (Unit {0}) × Hdd H)
  abort_after none r = none
  abort_after (some (returns a, s)) r = some (returns a, s)
  abort_after (some (fails e, s)) r = (write_reg hw r (2 ^ 1) >> fail e) s

  abbrev pub or_abort : Call hw (Unit {0}) → HddReg → Call hw (Unit {0})
  or_abort m r s = abort_after (m s) r

  -- `hdd_detect_interface`; the value is what is stored at `result`, which is not NULL if `wanted`.
  unfoldable pub detect_interface : ℕ → ℕ → Bool → Call hw Detection
  unfolding wait_detection_done
  detect_interface fuel drive wanted = do
    check_initialized hw
    check (valid_drive drive && wanted) hal_invalid
    write_reg hw HddReg.detect_ctrl (if drive == 1 then 2 ^ 0 + 2 ^ 8 else 2 ^ 0)
    or_abort (wait_detection_done 2000 fuel) HddReg.detect_ctrl
    result ← read_reg hw HddReg.detect_result
    scores ← read_reg hw HddReg.detect_scores
    modify (put_detection drive (unpack_detection result scores))
    pure (unpack_detection result scores)

  -- `hdd_force_interface`
  unfoldable pub force_interface : ℕ → ℕ → Call hw (Unit {0})
  force_interface fuel type = do
    check_initialized hw
    let ctrl = bit_or (2 ^ 8) (bit_and (type * 2 ^ 4 % 2 ^ 32) 0x70)
    write_reg hw HddReg.detect_ctrl ctrl
    write_reg hw HddReg.detect_ctrl (bit_or ctrl (2 ^ 0))
    wait_detection_done 100 fuel
    modify
        λ s. record s { drive0 = force_type type (s.drive0); drive1 = force_type type (s.drive1) }

  -- `unpack_geometry` and `unpack_health`, with their reads.
  abbrev pub read_geometry : Call hw Geometry
  read_geometry = do
    a ← read_reg hw HddReg.geometry_a
    b ← read_reg hw HddReg.geometry_b
    encode ← read_reg hw HddReg.encode_result
    pure (geometry_from a b encode)

  abbrev pub read_health : ℕ → Call hw Health
  read_health drive = do
    health ← read_reg hw (health_of drive)
    status ← read_reg hw (status_of drive)
    pure (health_from health status)

  -- The first half of `hdd_discover`: detection, if it was not done.
  unfoldable pub detect_first : ℕ → ℕ → Call hw (Unit {0})
  detect_first fuel drive s =
      let detect : Call hw (Unit {0}) = detect_interface fuel drive true >>= λ _. pure tt in
      if (drive_at s drive).detection_done then pure tt s else detect s

  -- A floppy drive is refused; the PHY follows the detection.
  abbrev pub check_type : ℕ → Call hw (Unit {0})
  check_type drive s =
      check (not ((drive_at s drive).profile.detection.drive_type == 1)) hal_invalid s

  abbrev pub set_phy : ℕ → Call hw (Unit {0})
  set_phy drive = do
    ctrl ← read_reg hw HddReg.ctrl
    phy ← gets λ s. (drive_at s drive).profile.detection.phy_mode
    write_reg hw HddReg.ctrl (if phy == 2 then bit_or ctrl (2 ^ 5) else and_not32 ctrl (2 ^ 5))

  -- `hdd_discover`, with the profile that the caller points to; the value is that profile in the end.
  -- Its ESDI configuration is the caller's.
  unfoldable pub discover : ℕ → ℕ → Option Profile → Call hw Profile
  discover fuel drive none = do check_initialized hw; fail hal_invalid
  discover fuel drive (some caller) = do
    enter hw drive
    detect_first fuel drive
    check_type drive
    set_phy drive
    write_reg hw HddReg.discover_ctrl (if drive == 1 then 2 ^ 0 + 2 ^ 2 + 2 ^ 8 else 2 ^ 0 + 2 ^ 2)
    or_abort (wait_discovery_done 60000 fuel) HddReg.discover_ctrl
    geometry ← read_geometry
    health ← read_health drive
    detection ← gets λ s. (drive_at s drive).profile.detection
    let profile : Profile = record caller {
      geometry = geometry;
      health = health;
      detection = detection;
      valid = true;
    }
    modify (put_profile drive profile)
    pure profile

  -- `hdd_get_profile`, where `wanted` says that the pointer is not NULL.
  unfoldable pub get_profile : ℕ → Bool → Call hw Profile
  get_profile drive wanted = do
    check_initialized hw
    check (valid_drive drive && wanted) hal_invalid
    gets λ s. (drive_at s drive).profile

  -- `hdd_get_health`
  unfoldable pub get_health : ℕ → Bool → Call hw Health
  get_health drive wanted = do
    check_initialized hw
    check (valid_drive drive && wanted) hal_invalid
    read_health drive

  -- `hdd_set_rate`, `hdd_set_encoding` and `hdd_set_termination`: fields of the control register.
  abbrev pub update_ctrl : (ℕ → ℕ) → Call hw (Unit {0})
  update_ctrl f = do
    check_initialized hw
    ctrl ← read_reg hw HddReg.ctrl
    write_reg hw HddReg.ctrl (f ctrl)

  unfoldable pub set_rate : ℕ → Call hw (Unit {0})
  set_rate rate =
      update_ctrl λ ctrl. bit_or (and_not32 ctrl 0x18) (bit_and (rate * 2 ^ 3 % 2 ^ 32) 0x18)

  unfoldable pub set_encoding : ℕ → Call hw (Unit {0})
  set_encoding encoding =
      update_ctrl λ ctrl. bit_or (and_not32 ctrl 0x6) (bit_and (encoding * 2 % 2 ^ 32) 0x6)

  unfoldable pub set_termination : Bool → Call hw (Unit {0})
  set_termination enable =
      update_ctrl λ ctrl. if enable then bit_or ctrl (2 ^ 5) else and_not32 ctrl (2 ^ 5)
