-- ===== src/Hdd/Seek.antt =====
-- The operations of soc/firmware/src/hdd_hal.c that start the layer, choose a drive, move its heads and
-- report where they are.
use flux_ripper.Base.{
  ℕ, ◌+◌, ◌-◌, ◌*◌, ◌^◌, Bool, true, false, not, ◌&&◌, ◌||◌, ◌==◌, ltb, if◌then◌else◌, bit_and,
  bit_or, any_bit,
}
use flux_ripper.Wait.{Clock, Verdict, undecided, settled, wait}
use flux_ripper.Act.{Outcome, returns, fails, Act, pure, check, modify, step, ◌>>=◌, ◌>>◌}
use flux_ripper.Wd.Device.{HalRet, hal_timeout}
use flux_ripper.Hdd.Device.{HddReg, status_of, cmd_of, target_of, HddIo}
use flux_ripper.Hdd.State.{
  hal_invalid, hal_not_ready, hal_hardware, Hdd, valid_drive, fresh_drive, field, drive_at,
  put_drive,
}

-- `x & ~m` on 32 bits.
abbrev pub and_not32 : ℕ → ℕ → ℕ
and_not32 x m = bit_and x (2 ^ 32 - 1 - m)

-- `wait_seek_done`: bits 9 and 10 of the status.
abbrev pub judge_seek : ℕ → Verdict (Outcome HalRet (Unit {0}))
judge_seek status =
    if any_bit status (2 ^ 9)
    then settled (returns tt)
    else if any_bit status (2 ^ 10)
    then settled (fails hal_hardware)
    else undecided

-- The loop of `hdd_recalibrate`: seek done at track 0, or an error.
abbrev pub judge_recalibrate : ℕ → Verdict (Outcome HalRet (Unit {0}))
judge_recalibrate status =
    if any_bit status (2 ^ 9) && any_bit status (2 ^ 2)
    then settled (returns tt)
    else if any_bit status (2 ^ 10)
    then settled (fails hal_hardware)
    else undecided

module _ {H : Type 0} where
  abbrev pub put_cylinder : ℕ → ℕ → Hdd H → Hdd H
  put_cylinder drive cylinder s =
      put_drive drive (record (drive_at s drive) { current_cylinder = cylinder }) s

module _ {H : Type 0} (hw : HddIo H) where
  -- A function of the layer.
  abbrev pub Call : Type 0 → Type 0
  Call A = Act HalRet (Hdd H) A

  -- The clock, seen from the state.
  abbrev pub hdd_clock : Clock (Hdd H)
  hdd_clock = record {
    get_time_ms = λ s. let (t, h) = hw.clock.get_time_ms s.io in (t, record s { io = h });
    delay_ms = λ n s. record s { io = hw.clock.delay_ms n s.io };
  }

  abbrev pub read : HddReg → Hdd H → ℕ × Hdd H
  read r s = let (v, h) = hw.read_reg r s.io in (v, record s { io = h })

  -- `hdd_read_reg` and `hdd_write_reg`
  abbrev pub read_reg : HddReg → Call ℕ
  read_reg r = step (read r)

  abbrev pub write_reg : HddReg → ℕ → Call (Unit {0})
  write_reg r v = modify λ s. record s { io = hw.write_reg r v s.io }

  -- A loop that reads a register and judges it, with its timeout and pause.
  abbrev pub poll : HddReg → (ℕ → Verdict (Outcome HalRet (Unit {0}))) → ℕ → ℕ → ℕ → Call (Unit {0})
  poll r judge timeout pause fuel =
      wait hdd_clock (λ s. let (v, s') = read r s in (judge v, s')) (fails hal_timeout) timeout
        pause fuel

  -- `if (!hdd_state.initialized) return HAL_ERR_NOT_READY;`
  abbrev pub check_initialized : Call (Unit {0})
  check_initialized s = check (s.initialized) hal_not_ready s

  -- The first lines of most functions.
  abbrev pub enter : ℕ → Call (Unit {0})
  enter drive = check_initialized >> check (valid_drive drive) hal_invalid

  unfoldable pub wait_seek_done : ℕ → ℕ → ℕ → Call (Unit {0})
  wait_seek_done drive timeout fuel = poll (status_of drive) judge_seek timeout 1 fuel

  -- `hdd_hal_init`
  unfoldable pub hal_init : Call (Unit {0})
  hal_init s =
      let init : Call (Unit {0}) = do
        write_reg HddReg.ctrl 0
        write_reg HddReg.detect_ctrl 0
        modify (hdd_clock.delay_ms 10)
        modify λ s. record s {
          initialized = true;
          active_drive = 0;
          drive0 = fresh_drive;
          drive1 = fresh_drive;
        }
        write_reg HddReg.ctrl 1
      in if s.initialized then pure tt s else init s

  -- `hdd_select_drive`: bits 8 and 9 of the control register.
  unfoldable pub select_drive : ℕ → Call (Unit {0})
  select_drive drive = do
    enter drive
    ctrl ← read_reg HddReg.ctrl
    write_reg HddReg.ctrl
        (bit_or (and_not32 ctrl (2 ^ 8 + 2 ^ 9)) (if drive == 0 then 2 ^ 8 else 2 ^ 9))
    modify λ s. record s { active_drive = drive }

  -- `hdd_seek`
  unfoldable pub seek : ℕ → ℕ → ℕ → Call (Unit {0})
  seek fuel drive cylinder = do
    enter drive
    status ← read_reg (status_of drive)
    check (any_bit status 1) hal_not_ready
    write_reg (target_of drive) cylinder
    write_reg (cmd_of drive) 1
    wait_seek_done drive 5000 fuel
    modify (put_cylinder drive cylinder)

  -- `hdd_select_head`
  unfoldable pub select_head : ℕ → ℕ → Call (Unit {0})
  select_head drive head = do
    check_initialized
    check (valid_drive drive && ltb head 16) hal_invalid
    write_reg (cmd_of drive) (bit_and (head * 2 ^ 4) 0xF0)
    modify λ s. put_drive drive (record (drive_at s drive) { current_head = head }) s

  -- `hdd_recalibrate`
  unfoldable pub recalibrate : ℕ → ℕ → Call (Unit {0})
  recalibrate fuel drive = do
    enter drive
    write_reg (cmd_of drive) (2 ^ 1)
    poll (status_of drive) judge_recalibrate 10000 10 fuel
    modify (put_cylinder drive 0)

  -- `hdd_is_ready`
  unfoldable pub is_ready : ℕ → Hdd H → Bool × Hdd H
  is_ready drive s =
      let (status, s') = read (status_of drive) s in
      if not (s.initialized) || not (valid_drive drive) then (false, s) else (any_bit status 1, s')

  -- `hdd_get_cylinder`, read from the status register.
  unfoldable pub get_cylinder : ℕ → Hdd H → ℕ × Hdd H
  get_cylinder drive s =
      let (status, s') = read (status_of drive) s in
      if not (valid_drive drive) then (0, s) else (field status 16 16, s')

  -- `hdd_get_head`
  unfoldable pub get_head : ℕ → Hdd H → ℕ
  get_head drive s = if not (valid_drive drive) then 0 else (drive_at s drive).current_head

  -- `hdd_get_status`: ready, the cylinder, and seeking.
  unfoldable pub get_status : ℕ → Call (Bool × ℕ × Bool)
  get_status drive = do
    enter drive
    status ← read_reg (status_of drive)
    pure (any_bit status 1, field status 16 16, any_bit status (2 ^ 8))
