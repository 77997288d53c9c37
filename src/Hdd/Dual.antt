-- ===== src/Hdd/Dual.antt =====
-- Both drives at once in soc/firmware/src/hdd_hal.c.
use flux_ripper.Base.{ℕ, ◌^◌, Bool, false, not, ◌&&◌, ◌||◌, if◌then◌else◌, any_bit}
use flux_ripper.Wait.{Verdict, undecided, settled, wait}
use flux_ripper.Act.{Outcome, returns, fails, pure, check, modify, step, ◌>>=◌, ◌>>◌}
use flux_ripper.Wd.Device.{HalRet, hal_timeout}
use flux_ripper.Hdd.Device.{HddReg, HddIo}
use flux_ripper.Hdd.State.{hal_not_ready, hal_hardware, Hdd, field}
use flux_ripper.Hdd.Seek.{Call, hdd_clock, read, write_reg, check_initialized, put_cylinder}

-- One round of `hdd_wait_seeks`: an error on a drive, both at rest, or neither.
abbrev pub judge_both : ℕ × ℕ → Verdict (Outcome HalRet (ℕ × ℕ))
judge_both (v0, v1) =
    if any_bit v0 (2 ^ 10) || any_bit v1 (2 ^ 10)
    then settled (fails hal_hardware)
    else if not (any_bit v0 (2 ^ 8)) && not (any_bit v1 (2 ^ 8))
    then settled (returns (v0, v1))
    else undecided

module _ {H : Type 0} (hw : HddIo H) where
  -- The status of each drive.
  abbrev pub both_status : Hdd H → (ℕ × ℕ) × Hdd H
  both_status s =
      let (v0, s0) = read hw HddReg.status0 s in
      let (v1, s1) = read hw HddReg.status1 s0 in ((v0, v1), s1)

  -- `hdd_seek_both`: both seeks are started, and nothing is waited for.
  unfoldable pub seek_both : ℕ → ℕ → Call hw (Unit {0})
  seek_both cylinder0 cylinder1 = do
    check_initialized hw
    (v0, v1) ← step both_status
    check (any_bit v0 1 && any_bit v1 1) hal_not_ready
    write_reg hw HddReg.target0 cylinder0
    write_reg hw HddReg.target1 cylinder1
    write_reg hw HddReg.cmd0 1
    write_reg hw HddReg.cmd1 1

  unfoldable pub wait_both : ℕ → ℕ → Call hw (ℕ × ℕ)
  wait_both fuel timeout =
      wait (hdd_clock hw) (λ s. let (v, s') = both_status s in (judge_both v, s'))
        (fails hal_timeout) timeout 1 fuel

  -- `hdd_wait_seeks`
  unfoldable pub wait_seeks : ℕ → ℕ → Call hw (Unit {0})
  wait_seeks fuel timeout = do
    check_initialized hw
    (v0, v1) ← wait_both fuel timeout
    modify λ s. put_cylinder 1 (field v1 16 16) (put_cylinder 0 (field v0 16 16) s)

  -- `hdd_any_seeking`
  unfoldable pub any_seeking : Hdd H → Bool × Hdd H
  any_seeking s =
      let ((v0, v1), s') = both_status s in
      if s.initialized then (any_bit v0 (2 ^ 8) || any_bit v1 (2 ^ 8), s') else (false, s)

  -- `hdd_get_dual_status`: ready and the cylinder of each drive, for pointers that are not NULL.
  unfoldable pub get_dual_status : Call hw (Bool × Bool × ℕ × ℕ)
  get_dual_status = do
    check_initialized hw
    (v0, v1) ← step both_status
    pure (any_bit v0 1, any_bit v1 1, field v0 16 16, field v1 16 16)
