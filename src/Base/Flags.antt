-- ===== src/Base/Flags.antt =====
-- Tests of a word against a mask, `(x & m) != 0`, and what `|` and `&` do to them.
use Prim.Native.Nat.{ℕ, zero, suc, ◌-◌, ◌/◌, ◌%◌, ◌≤◌, ◌<◌, min, max, bit_and, bit_or}
use mathlib.Core.Path.{◌≡◌, refl}
use mathlib.Core.Bool.{Bool, false, not, ◌||◌}
use native.Mathlib.Omega.{arith}
use flux_ripper.Base.Tests.{◌==◌}
use flux_ripper.Base.Bits.{bit_and-digit, bit_or-digit, bit_and-half, bit_or-half, bit_and-zero}

unfoldable pub any_bit : ℕ → ℕ → Bool
any_bit x mask = not (bit_and x mask == 0)

-- `x & ~mask` on a byte.
abbrev pub and_not8 : ℕ → ℕ → ℕ
and_not8 x mask = bit_and x (255 - mask)

-- One digit of the tests: the low bits first.
any_bit-digit :
    (x m : ℕ) → any_bit x m ≡ (any_bit (x / 2) (m / 2) || not (min (x % 2) (m % 2) == 0))
unfolding any_bit
any_bit-digit x m = ground (arith, bit_and-digit x m)

pub any_bit-none : (x : ℕ) → any_bit x 0 ≡ false
unfolding any_bit
any_bit-none x = ground (arith, bit_and-zero x x (omega arith))

-- The low digit, whichever digits the words end in.
low_or :
    (a b c : ℕ) (p q : Bool)
    → a < 2
    → b < 2
    → c < 2
    → ((p || q) || not (min (max a b) c == 0))
      ≡ ((p || not (min a c == 0)) || (q || not (min b c == 0)))
low_or a b c p q h h' h'' = ground arith

low_and :
    (a b c : ℕ) (p : Bool)
    → a < 2
    → b < 2
    → c < 2
    → (p || not (min (min a b) c == 0)) ≡ (p || not (min a (min b c) == 0))
low_and a b c p h h' h'' = ground arith

any_bit-bit_or_fuel : (f x y m : ℕ) → m ≤ f → any_bit (bit_or x y) m ≡ (any_bit x m || any_bit y m)
any_bit-bit_or_fuel zero x y zero p =
    rw (any_bit-none (bit_or x y), any_bit-none x, any_bit-none y) refl
any_bit-bit_or_fuel zero x y (suc m) p = absurd (omega arith)
any_bit-bit_or_fuel (suc f) x y m p =
    let rest = any_bit-bit_or_fuel f (x / 2) (y / 2) (m / 2) (omega arith) in
    let low : bit_or x y % 2 ≡ max (x % 2) (y % 2) = omega (arith, bit_or-digit x y) in
    rw
      (
        any_bit-digit (bit_or x y) m,
        any_bit-digit x m,
        any_bit-digit y m,
        bit_or-half x y,
        rest,
        low,
      )
      (low_or (x % 2) (y % 2) (m % 2) _ _ (omega arith) (omega arith) (omega arith))

any_bit-bit_and_fuel : (f x a m : ℕ) → m ≤ f → any_bit (bit_and x a) m ≡ any_bit x (bit_and a m)
any_bit-bit_and_fuel zero x a zero p =
    rw (any_bit-none (bit_and x a), bit_and-zero a a (omega arith), any_bit-none x) refl
any_bit-bit_and_fuel zero x a (suc m) p = absurd (omega arith)
any_bit-bit_and_fuel (suc f) x a m p =
    let rest = any_bit-bit_and_fuel f (x / 2) (a / 2) (m / 2) (omega arith) in
    let low : bit_and x a % 2 ≡ min (x % 2) (a % 2) = omega (arith, bit_and-digit x a) in
    let low' : bit_and a m % 2 ≡ min (a % 2) (m % 2) = omega (arith, bit_and-digit a m) in
    rw
      (
        any_bit-digit (bit_and x a) m,
        any_bit-digit x (bit_and a m),
        bit_and-half x a,
        bit_and-half a m,
        rest,
        low,
        low',
      )
      (low_and (x % 2) (a % 2) (m % 2) _ (omega arith) (omega arith) (omega arith))

pub any_bit-bit_or : (x y m : ℕ) → any_bit (bit_or x y) m ≡ (any_bit x m || any_bit y m)
any_bit-bit_or x y m = any_bit-bit_or_fuel m x y m (omega arith)

pub any_bit-bit_and : (x a m : ℕ) → any_bit (bit_and x a) m ≡ any_bit x (bit_and a m)
any_bit-bit_and x a m = any_bit-bit_and_fuel m x a m (omega arith)
