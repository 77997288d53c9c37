-- ===== src/Wd/Setup/Bounded.antt =====
-- The polling loop of the track buffer flush.
use flux_ripper.Base.{ℕ, zero, suc, ◌^◌, ◌<◌, ◌≡◌, Bool, false, arith, any_bit, bit_or}
use flux_ripper.Wd.Device.{WdReg, hal_ok, WdHal}
use flux_ripper.Wd.State.{Wd}
use flux_ripper.Wd.Setup.{wait_flush, flush_buffer}

module _ {H : Type 0} (hal : WdHal H) where
  -- The hardware after `i` reads of the control register, and what read `i` finds in the flush bit.
  unfoldable pub polled : ℕ → H → H
  polled zero h = h
  polled (suc i) h = polled i ((hal.reg_read WdReg.ctrl h).1)

  abbrev pub flushing : ℕ → H → Bool
  flushing i h = any_bit ((hal.reg_read WdReg.ctrl (polled i h)).0) (2 ^ 8)

  -- `REG32(WD_CTRL) |= BIT(8);`
  abbrev pub set_flush : H → H
  set_flush h =
      let (v, h') = hal.reg_read WdReg.ctrl h in hal.reg_write WdReg.ctrl (bit_or v (2 ^ 8)) h'

  wait_flush_ends :
      (n i : ℕ) (h : H) → i < n → flushing i h ≡ false → (wait_flush hal n h).0 ≡ hal_ok
  unfolding wait_flush polled
  wait_flush_ends zero i h l e = absurd (omega arith)
  wait_flush_ends (suc n) zero h l e = ground arith
  wait_flush_ends (suc n) (suc i) h l e =
      let rest = wait_flush_ends n i ((hal.reg_read WdReg.ctrl h).1) (omega arith) e in ground arith

  -- A flush succeeds if the hardware clears the flush bit within the first thousand reads after the
  -- bit was set, however long it takes in that time.
  pub flush_buffer_ends :
      (i : ℕ) (w : Wd H)
      → i < 1000
      → flushing i (set_flush w.hw) ≡ false
      → (flush_buffer hal w).0 ≡ hal_ok
  unfolding flush_buffer
  flush_buffer_ends i w l e = wait_flush_ends 1000 i _ l e
