-- ===== src/Wd/Flags.antt =====
-- What each operation that writes the status byte leaves of BSY, DRQ and ERR.
use flux_ripper.Base.{
  ℕ, ◌+◌, ◌≡◌, refl, Bool, true, false, ◌||◌, arith, bit_or, any_bit, and_not8, any_bit-bit_or,
  any_bit-bit_and, any_bit-none,
}
use flux_ripper.Wd.State.{bsy, rdy, sc, drq, err}

pub record Shows (s : ℕ) (busy asks fails : Bool) : Type 0 where
  pub shows_busy : any_bit s bsy ≡ busy
  pub shows_asks : any_bit s drq ≡ asks
  pub shows_fails : any_bit s err ≡ fails

ruleset masks = (any_bit-bit_or, any_bit-bit_and, any_bit-none)

or_true : (b : Bool) → (b || true) ≡ true
or_true b = ground arith

or_false : (b : Bool) → (b || false) ≡ b
or_false b = ground arith

pub set_error-Shows : (s : ℕ) → Shows (and_not8 (bit_or s err) (bsy + drq)) false false true
unfolding any_bit
set_error-Shows s = record {
  shows_busy = simp masks refl;
  shows_asks = simp masks refl;
  shows_fails = simp masks (or_true (any_bit s err));
}

pub complete_command-Shows :
    (s : ℕ) → Shows (bit_or (and_not8 s (bsy + drq)) (rdy + sc)) false false (any_bit s err)
unfolding any_bit
complete_command-Shows s = record {
  shows_busy = simp masks refl;
  shows_asks = simp masks refl;
  shows_fails = simp masks (or_false (any_bit s err));
}

pub ask_data-Shows : (s : ℕ) → Shows (bit_or (and_not8 s bsy) drq) false true (any_bit s err)
unfolding any_bit
ask_data-Shows s = record {
  shows_busy = simp masks refl;
  shows_asks = simp masks (or_true (any_bit s drq));
  shows_fails = simp masks (or_false (any_bit s err));
}

pub write_data-Shows : (s : ℕ) → Shows (bit_or (and_not8 s drq) bsy) true false (any_bit s err)
unfolding any_bit
write_data-Shows s = record {
  shows_busy = simp masks (or_true (any_bit s bsy));
  shows_asks = simp masks refl;
  shows_fails = simp masks (or_false (any_bit s err));
}

pub accept-Shows : (s : ℕ) → Shows (and_not8 (bit_or s bsy) (drq + err)) true false false
unfolding any_bit
accept-Shows s = record {
  shows_busy = simp masks (or_true (any_bit s bsy));
  shows_asks = simp masks refl;
  shows_fails = simp masks refl;
}

pub abort_command-Shows :
    (s : ℕ) → Shows (bit_or (bit_or (and_not8 s (bsy + drq)) rdy) err) false false true
unfolding any_bit
abort_command-Shows s = record {
  shows_busy = simp masks refl;
  shows_asks = simp masks refl;
  shows_fails = simp masks (or_true (any_bit s err || false));
}
