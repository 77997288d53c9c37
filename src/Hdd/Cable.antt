-- ===== src/Hdd/Cable.antt =====
-- soc/firmware/src/hdd_dual_hal.c: two drives on one control cable. Its waits of some microseconds, which
-- count down a variable, change nothing and are left out.
pub mod Both
pub mod Stuck
pub mod Ending
use flux_ripper.Base.{
  ℕ, zero, suc, ◌+◌, ◌-◌, ◌*◌, ◌/◌, ◌%◌, ◌^◌, Bool, true, false, not, ◌&&◌, ◌||◌, ◌==◌, ltb,
  if◌then◌else◌, bit_or, any_bit, Option, none, some,
}
use flux_ripper.Act.{
  Outcome, returns, fails, Act, pure, fail, check, gets, modify, step, ◌>>=◌, ◌>>◌,
}
use flux_ripper.Wd.Device.{HalRet}
use flux_ripper.Hdd.Device.{HddReg, status_of, cmd_of, target_of, cyl_pos_of, HddIo}
use flux_ripper.Hdd.State.{hal_invalid, hal_not_ready, Hdd, valid_drive}
use flux_ripper.Hdd.Seek.{and_not32, read, hdd_clock, wait_seek_done, select_drive}

-- `drive_seek_state_t`
pub record SeekState : Type 0 where
  pub target_cylinder : ℕ
  pub seek_pending : Bool
  pub seek_active : Bool

-- `dual_state`, and the state of the layer below.
pub record Cable (H : Type 0) : Type 0 where
  pub current_ds : ℕ
  pub seek0 : SeekState
  pub seek1 : SeekState
  pub cable_busy : Bool
  pub hdd : Hdd H

module _ {H : Type 0} where
  -- `dual_state.seek[drive]`; the drive is 0 or 1.
  abbrev pub seek_at : Cable H → ℕ → SeekState
  seek_at s drive = if drive == 0 then s.seek0 else s.seek1

  abbrev pub put_seek : ℕ → SeekState → Cable H → Cable H
  put_seek drive q s = if drive == 0 then record s { seek0 = q } else record s { seek1 = q }

  -- A function of the layer below.
  unfoldable pub lifted :
      {A : Type 0}
      → Option (Outcome HalRet A × Hdd H)
      → Cable H
      → Option (Outcome HalRet A × Cable H)
  lifted none s = none
  lifted (some (o, h)) s = some (o, record s { hdd = h })

  -- A Boolean of the state decides between two functions.
  abbrev pub choose :
      {A : Type 0}
      → (Cable H → Bool)
      → Act HalRet (Cable H) A
      → Act HalRet (Cable H) A
      → Act HalRet (Cable H) A
  choose b m k s = if b s then m s else k s

  -- `dual_state.cable_busy = false; dual_state.seek[drive].seek_active = false;`
  abbrev pub release : ℕ → Cable H → Cable H
  release drive s =
      put_seek drive (record (seek_at s drive) { seek_active = false })
        (record s { cable_busy = false })

  -- A value is returned as it is, and before that the cable is released.
  unfoldable pub release_after :
      ℕ
      → Option (Outcome HalRet (Unit {0}) × Cable H)
      → Option (Outcome HalRet (Unit {0}) × Cable H)
  release_after drive none = none
  release_after drive (some (o, s)) = some (o, release drive s)

-- `drive_enabled` and `set_drive_enabled`: bits 1 and 2 of the mux register.
abbrev pub enable_bit : ℕ → ℕ
enable_bit drive = if drive == 0 then 2 ^ 1 else 2 ^ 2

module _ {H : Type 0} where
  abbrev pub mark_active : ℕ → ℕ → Cable H → Cable H
  mark_active drive cylinder s =
      put_seek drive (record (seek_at s drive) { seek_active = true; target_cylinder = cylinder })
        (record s { cable_busy = true })

module _ {H : Type 0} (hw : HddIo H) where
  abbrev pub CableCall : Type 0 → Type 0
  CableCall A = Act HalRet (Cable H) A

  abbrev pub read_cable : HddReg → Cable H → ℕ × Cable H
  read_cable r s = let (v, h) = read hw r (s.hdd) in (v, record s { hdd = h })

  abbrev pub reg_read : HddReg → CableCall ℕ
  reg_read r = step (read_cable r)

  abbrev pub reg_write : HddReg → ℕ → CableCall (Unit {0})
  reg_write r v = modify λ s. record s { hdd = record (s.hdd) { io = hw.write_reg r v s.hdd.io } }

  abbrev pub below : {A : Type 0} → Act HalRet (Hdd H) A → CableCall A
  below m s = lifted (m (s.hdd)) s

  -- `select_control_cable_drive`
  unfoldable pub select_cable : ℕ → CableCall (Unit {0})
  select_cable drive s =
      let change : CableCall (Unit {0}) = do
        mux ← reg_read HddReg.drive_mux
        reg_write HddReg.drive_mux (if drive == 0 then and_not32 mux 1 else bit_or mux 1)
        modify λ s. record s { current_ds = drive }
        below (select_drive hw drive)
      in if drive == s.current_ds then pure tt s else change s

  unfoldable pub drive_enabled : ℕ → Cable H → Bool × Cable H
  drive_enabled drive s =
      let (mux, s') = read_cable HddReg.drive_mux s in (any_bit mux (enable_bit drive), s')

  unfoldable pub set_drive_enabled : ℕ → Bool → CableCall (Unit {0})
  set_drive_enabled drive enable = do
    mux ← reg_read HddReg.drive_mux
    reg_write HddReg.drive_mux
        (if enable then bit_or mux (enable_bit drive) else and_not32 mux (enable_bit drive))

  -- The end of `shared_cable_seek` where it waits: the cable is released however the seek ends.
  unfoldable pub finish_seek : ℕ → ℕ → ℕ → CableCall (Unit {0})
  finish_seek fuel drive cylinder =
      let waits : CableCall (Unit {0}) =
        λ s. release_after drive (below (wait_seek_done hw drive 5000 fuel) s) in
      waits >> reg_write (cyl_pos_of drive) cylinder

  -- `shared_cable_seek`
  unfoldable pub shared_cable_seek : ℕ → ℕ → ℕ → Bool → CableCall (Unit {0})
  unfolding select_cable finish_seek
  shared_cable_seek fuel drive cylinder waits = do
    check (valid_drive drive) hal_invalid
    select_cable drive
    modify (mark_active drive cylinder)
    status ← reg_read (status_of drive)
    if any_bit status 1 then pure tt else (modify (release drive) >> fail hal_not_ready)
    reg_write (target_of drive) cylinder
    reg_write (cmd_of drive) 1
    if waits then finish_seek fuel drive cylinder else pure tt

  -- `hdd_queue_seek`: bits 0 and 1 of the queue register.
  unfoldable pub queue_seek : ℕ → ℕ → CableCall (Unit {0})
  queue_seek drive cylinder = do
    check (valid_drive drive) hal_invalid
    modify λ s.
        put_seek drive
          (record (seek_at s drive) { target_cylinder = cylinder; seek_pending = true }) s
    queue ← reg_read HddReg.seek_queue
    reg_write HddReg.seek_queue (bit_or queue (if drive == 0 then 2 ^ 0 else 2 ^ 1))

  -- A round of the loop of `hdd_execute_pending_seek` that finds a seek.
  unfoldable pub execute_seek : ℕ → CableCall (Unit {0})
  execute_seek drive = do
    modify λ s. put_seek drive (record (seek_at s drive) { seek_pending = false }) s
    queue ← reg_read HddReg.seek_queue
    reg_write HddReg.seek_queue (and_not32 queue (if drive == 0 then 2 ^ 0 else 2 ^ 1))
    target ← gets λ s. (seek_at s drive).target_cylinder
    shared_cable_seek 0 drive target false

  -- `hdd_execute_pending_seek`: the first drive with a pending seek.
  unfoldable pub execute_pending_seek : CableCall (Unit {0})
  execute_pending_seek =
      choose (λ s. s.seek0.seek_pending) (execute_seek 0)
        (choose (λ s. s.seek1.seek_pending) (execute_seek 1) (pure tt))

  -- `hdd_seek_smart`
  unfoldable pub seek_smart : ℕ → ℕ → ℕ → CableCall (Unit {0})
  seek_smart fuel drive cylinder =
      check (valid_drive drive) hal_invalid
      >> choose (λ s. s.cable_busy && not (s.current_ds == drive)) (queue_seek drive cylinder)
          (shared_cable_seek fuel drive cylinder true)
