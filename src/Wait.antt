-- ===== src/Wait.antt =====
-- Waiting with a timeout, `while ((get_time_ms() - start) < timeout) { ...; delay_ms(pause); }`: the loop
-- that soc/firmware/src/hdd_hal.c and soc/firmware/src/hdd_metadata.c write out at each place. It runs on
-- fuel; `none` means that the fuel ran out.
use flux_ripper.Base.{
  ℕ, zero, suc, ◌+◌, ◌-◌, ◌*◌, ◌/◌, ◌%◌, ◌^◌, ◌≤◌, ◌<◌, ◌≡◌, ◌≢◌, ltb, if◌then◌else◌, Option, none,
  some, arith, subst, sym,
}

-- The clock and the delay of the firmware, over a state of the hardware.
pub record Clock (H : Type 0) : Type 0 where
  pub get_time_ms : H → ℕ × H
  pub delay_ms : ℕ → H → H

-- What a round of the loop finds.
pub data Verdict {ℓ} (A : Type ℓ) : Type ℓ where
  undecided : Verdict A
  settled : A → Verdict A

module _ {H A : Type 0} (clock : Clock H) (look : H → Verdict A × H) (late : A)
    (timeout pause : ℕ) where
  -- The rounds of the loop.
  unfoldable pub wait_from : ℕ → ℕ → H → Option (A × H)
  wait_from start zero h = none
  wait_from start (suc fuel) h =
      let (t, h1) = clock.get_time_ms h in
      let (v, h2) = look h1 in
      let rest = wait_from start fuel (clock.delay_ms pause h2) in
      let found : Option (A × H) = elim v [ undecided ↦ rest | settled a ↦ some (a, h2) ] in
      if ltb ((t + 2 ^ 32 - start) % 2 ^ 32) timeout then found else some (late, h1)

  -- With the start taken.
  unfoldable pub wait : ℕ → H → Option (A × H)
  unfolding wait_from
  wait fuel h = let (start, h1) = clock.get_time_ms h in wait_from start fuel h1

-- A clock whose reading is that of a millisecond counter `now`, modulo 2 ^ 32: the counter does not go
-- back, a delay takes as long as it says, and no step takes a second more than that.
pub record IsClock {H : Type 0} (clock : Clock H) (now : H → ℕ) : Type 0 where
  pub reads : (h : H) → (clock.get_time_ms h).0 ≡ now h % 2 ^ 32
  pub reads_after : (h : H) → now h ≤ now (clock.get_time_ms h).1
  pub reads_soon : (h : H) → now (clock.get_time_ms h).1 ≤ now h + 1000
  pub delays : (n : ℕ) (h : H) → now h + n ≤ now (clock.delay_ms n h)
  pub delays_soon : (n : ℕ) (h : H) → now (clock.delay_ms n h) ≤ now h + n + 1000

module _ {H A : Type 0} (clock : Clock H) (now : H → ℕ) (law : IsClock clock now)
    (look : H → Verdict A × H) (after : (h : H) → now h ≤ now (look h).1)
    (soon : (h : H) → now (look h).1 ≤ now h + 1000) (late : A) (timeout pause : ℕ)
    (pauses : 0 < pause) (short : timeout + pause < 2 ^ 31) where
  wait_from_ends :
      (start fuel : ℕ) (h : H)
      → start ≤ now h
      → now h < start + timeout + pause + 4000
      → start + timeout ≤ now h + fuel
      → wait_from clock look late timeout pause (start % 2 ^ 32) (suc fuel) h ≢ none
  unfolding wait_from
  wait_from_ends start zero h p q r = ground (arith, law.reads h)
  wait_from_ends start (suc fuel) h p q r =
      let h1 = (clock.get_time_ms h).1 in
      let h2 = (look h1).1 in
      let rest = wait_from_ends start fuel (clock.delay_ms pause h2) in
      ground (
        arith,
        law.reads h,
        law.reads_after h,
        law.reads_soon h,
        after h1,
        soon h1,
        law.delays pause h2,
        law.delays_soon pause h2,
        rest,
      )

  -- As many rounds as the timeout has milliseconds, and one more, are enough.
  pub wait_ends :
      (fuel : ℕ) (h : H) → timeout < fuel → wait clock look late timeout pause fuel h ≢ none
  unfolding wait
  wait_ends zero h p = absurd (omega arith)
  wait_ends (suc fuel) h p =
      let h1 = (clock.get_time_ms h).1 in
      subst (λ s. wait_from clock look late timeout pause s (suc fuel) h1 ≢ none)
        (sym (law.reads h))
        (wait_from_ends (now h) fuel (clock.get_time_ms h).1 (law.reads_after h)
          (omega (arith, law.reads_soon h)) (omega (arith, law.reads_after h)))

-- A clock in milliseconds whose counter `now` and whose delays are in microseconds.
pub record IsFineClock {H : Type 0} (clock : Clock H) (now : H → ℕ) : Type 0 where
  pub reads : (h : H) → (clock.get_time_ms h).0 ≡ now h / 1000 % 2 ^ 32
  pub reads_after : (h : H) → now h ≤ now (clock.get_time_ms h).1
  pub reads_soon : (h : H) → now (clock.get_time_ms h).1 ≤ now h + 1000000
  pub delays : (n : ℕ) (h : H) → now h + n ≤ now (clock.delay_ms n h)
  pub delays_soon : (n : ℕ) (h : H) → now (clock.delay_ms n h) ≤ now h + n + 1000000

module _ {H A : Type 0} (clock : Clock H) (now : H → ℕ) (law : IsFineClock clock now)
    (look : H → Verdict A × H) (after : (h : H) → now h ≤ now (look h).1)
    (soon : (h : H) → now (look h).1 ≤ now h + 1000000) (late : A) (timeout pause : ℕ)
    (pauses : 0 < pause) (short : timeout + pause < 2 ^ 31) where
  wait_from_ends_fine :
      (start fuel : ℕ) (h : H)
      → start ≤ now h
      → now h < start + timeout * 1000 + pause + 4000000
      → start + timeout * 1000 + 1000 ≤ now h + fuel
      → wait_from clock look late timeout pause (start / 1000 % 2 ^ 32) (suc fuel) h ≢ none
  unfolding wait_from
  wait_from_ends_fine start zero h p q r = ground (arith, law.reads h)
  wait_from_ends_fine start (suc fuel) h p q r =
      let h1 = (clock.get_time_ms h).1 in
      let h2 = (look h1).1 in
      let rest = wait_from_ends_fine start fuel (clock.delay_ms pause h2) in
      ground (
        arith,
        law.reads h,
        law.reads_after h,
        law.reads_soon h,
        after h1,
        soon h1,
        law.delays pause h2,
        law.delays_soon pause h2,
        rest,
      )

  -- As many rounds as the timeout has microseconds, and a thousand more, are enough.
  pub wait_ends_fine :
      (fuel : ℕ) (h : H)
      → timeout * 1000 + 1000 < fuel
      → wait clock look late timeout pause fuel h ≢ none
  unfolding wait
  wait_ends_fine zero h p = absurd (omega arith)
  wait_ends_fine (suc fuel) h p =
      let h1 = (clock.get_time_ms h).1 in
      subst (λ s. wait_from clock look late timeout pause s (suc fuel) h1 ≢ none)
        (sym (law.reads h))
        (wait_from_ends_fine (now h) fuel (clock.get_time_ms h).1 (law.reads_after h)
          (omega (arith, law.reads_soon h)) (omega (arith, law.reads_after h)))
