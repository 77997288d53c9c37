-- ===== src/Hdd/Cable/Both.antt =====
-- Both drives of soc/firmware/src/hdd_dual_hal.c in one call, their status and their paths.
use flux_ripper.Base.{
  ℕ, zero, suc, ◌+◌, ◌-◌, ◌%◌, ◌^◌, Bool, ◌&&◌, ◌==◌, ltb, if◌then◌else◌, bit_or, any_bit, Option,
  none, some,
}
use flux_ripper.Act.{Outcome, pure, check, modify, ◌>>=◌, ◌>>◌}
use flux_ripper.Wd.Device.{HalRet}
use flux_ripper.Hdd.Device.{HddReg, status_of, cmd_of, target_of, cyl_pos_of, HddIo}
use flux_ripper.Hdd.State.{hal_invalid, valid_drive}
use flux_ripper.Hdd.Seek.{and_not32, hdd_clock, wait_seek_done}
use flux_ripper.Hdd.Cable.{
  Cable, CableCall, read_cable, reg_read, reg_write, below, select_cable, drive_enabled,
  set_drive_enabled,
}

-- The distance of two cylinders as the code has it: the difference as a signed number of 16 bits, negated if
-- it is below zero, where the lowest number stays below zero and makes no steps.
unfoldable pub steps_between : ℕ → ℕ → ℕ
steps_between target current =
    let d = (target + 2 ^ 16 - current % 2 ^ 16) % 2 ^ 16 in
    if ltb d (2 ^ 15) then d else if d == 2 ^ 15 then 0 else 2 ^ 16 - d

module _ {H : Type 0} where
  -- A call whose code is dropped.
  unfoldable pub ignored : {A : Type 0} → Option (Outcome HalRet A × Cable H) → Cable H → Cable H
  ignored none s = s
  ignored (some (o, s')) s = s'

module _ {H : Type 0} (hw : HddIo H) where
  abbrev pub select_anyway : ℕ → CableCall hw (Unit {0})
  select_anyway drive = modify λ s. ignored (select_cable hw drive s) s

  abbrev pub if_enabled : ℕ → CableCall hw (Unit {0}) → CableCall hw (Unit {0})
  if_enabled drive m s = let (e, s') = drive_enabled hw drive s in if e then m s' else pure tt s'

  -- A phase of `hdd_seek_dual_sequential`.
  unfoldable pub seek_phase : ℕ → ℕ → ℕ → CableCall hw (Unit {0})
  unfolding ignored
  seek_phase fuel drive cylinder = if_enabled drive do
    select_cable hw drive
    reg_write hw (target_of drive) cylinder
    reg_write hw (cmd_of drive) 1
    below hw (wait_seek_done hw drive 5000 fuel)
    reg_write hw (cyl_pos_of drive) cylinder

  -- `hdd_seek_dual_sequential`
  unfoldable pub seek_sequential : ℕ → ℕ → ℕ → CableCall hw (Unit {0})
  seek_sequential fuel cylinder0 cylinder1 =
      seek_phase fuel 0 cylinder0 >> seek_phase fuel 1 cylinder1

  -- The part of a round of `hdd_seek_dual_interleaved` for one drive, with its steps left.
  unfoldable pub step_drive : ℕ → ℕ → Cable H → ℕ × Cable H
  unfolding ignored
  step_drive drive n s =
      let (e, s1) = drive_enabled hw drive s in
      if n == 0
      then (0, s)
      else if e
      then (n - 1, ignored (select_cable hw drive s1) s1)
      else (n, s1)

  -- The loop of `hdd_seek_dual_interleaved`, on fuel.
  unfoldable pub interleave : ℕ → ℕ → ℕ → CableCall hw (Unit {0})
  unfolding step_drive
  interleave zero n0 n1 s = none
  interleave (suc fuel) n0 n1 s =
      let (m0, s1) = step_drive 0 n0 s in
      let (m1, s2) = step_drive 1 n1 s1 in
      let rest = interleave fuel m0 m1 s2 in if (n0 == 0) && (n1 == 0) then pure tt s else rest

  -- `hdd_seek_dual_interleaved`
  unfoldable pub seek_interleaved : ℕ → ℕ → ℕ → CableCall hw (Unit {0})
  seek_interleaved fuel cylinder0 cylinder1 = do
    current0 ← reg_read hw HddReg.cyl_pos0
    current1 ← reg_read hw HddReg.cyl_pos1
    interleave fuel (steps_between cylinder0 current0) (steps_between cylinder1 current1)
    seek_sequential fuel cylinder0 cylinder1

  -- `hdd_get_status_fresh`: ready, seeking, track 0, index, and the cylinder.
  unfoldable pub get_status_fresh : ℕ → CableCall hw (Bool × Bool × Bool × Bool × ℕ)
  get_status_fresh drive = do
    check (valid_drive drive) hal_invalid
    select_cable hw drive
    status ← reg_read hw (status_of drive)
    cylinder ← reg_read hw (cyl_pos_of drive)
    pure (
      any_bit status 1,
      any_bit status (2 ^ 8),
      any_bit status (2 ^ 2),
      any_bit status (2 ^ 4),
      cylinder % 2 ^ 16,
    )

  -- `hdd_get_status_cached`: ready, and the cylinder.
  unfoldable pub get_status_cached : ℕ → CableCall hw (Bool × ℕ)
  get_status_cached drive = do
    check (valid_drive drive) hal_invalid
    status ← reg_read hw (status_of drive)
    cylinder ← reg_read hw (cyl_pos_of drive)
    pure (any_bit status 1, cylinder % 2 ^ 16)

  -- The look at one drive in `hdd_detect_drives`: the other is disabled.
  unfoldable pub look_at : ℕ → CableCall hw Bool
  unfolding ignored
  look_at drive = do
    set_drive_enabled hw 0 (drive == 0)
    set_drive_enabled hw 1 (drive == 1)
    select_anyway drive
    modify λ s. record s { hdd = (hdd_clock hw).delay_ms 100 (s.hdd) }
    status ← reg_read hw (status_of drive)
    pure (any_bit status 1)

  -- `hdd_detect_drives`: which drives are there.
  unfoldable pub detect_drives : CableCall hw (Bool × Bool)
  unfolding ignored
  detect_drives = do
    present0 ← look_at 0
    present1 ← look_at 1
    set_drive_enabled hw 0 present0
    set_drive_enabled hw 1 present1
    if present0 then select_anyway 0 else if present1 then select_anyway 1 else pure tt
    pure (present0, present1)

  -- `hdd_select_data_path` and `hdd_get_data_path`
  unfoldable pub select_data_path : ℕ → CableCall hw (Unit {0})
  select_data_path drive = do
    check (valid_drive drive) hal_invalid
    ctrl ← reg_read hw HddReg.ctrl
    reg_write hw HddReg.ctrl
        (bit_or (and_not32 ctrl (2 ^ 8 + 2 ^ 9)) (if drive == 0 then 2 ^ 8 else 2 ^ 9))

  unfoldable pub get_data_path : Cable H → ℕ × Cable H
  get_data_path s =
      let (ctrl, s') = read_cable hw HddReg.ctrl s in (if any_bit ctrl (2 ^ 9) then 1 else 0, s')

  -- `hdd_select_full`
  unfoldable pub select_full : ℕ → CableCall hw (Unit {0})
  select_full drive = select_cable hw drive >> select_data_path drive

  -- A phase of `hdd_recalibrate_both`.
  unfoldable pub recalibrate_phase : ℕ → ℕ → CableCall hw (Unit {0})
  unfolding ignored
  recalibrate_phase fuel drive = if_enabled drive do
    select_anyway drive
    reg_write hw (cmd_of drive) (2 ^ 1)
    below hw (wait_seek_done hw drive 10000 fuel)
    reg_write hw (cyl_pos_of drive) 0

  -- `hdd_recalibrate_both`
  unfoldable pub recalibrate_both : ℕ → CableCall hw (Unit {0})
  recalibrate_both fuel = recalibrate_phase fuel 0 >> recalibrate_phase fuel 1

  -- `hdd_get_topology_info`: the number of drives.
  unfoldable pub topology_info : CableCall hw ℕ
  topology_info = do
    (present0, present1) ← detect_drives
    pure ((if present0 then 1 else 0) + (if present1 then 1 else 0))
