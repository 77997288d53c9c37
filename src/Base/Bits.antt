-- ===== src/Base/Bits.antt =====
-- Single bits of machine words: what `|`, `&` with a mask and the test `x & (1 << k)` do to each
-- bit, at every width.
use Prim.Native.Nat.{
  ℕ, zero, suc, ◌+◌, ◌*◌, ◌/◌, ◌%◌, ◌^◌, ◌≤◌, ◌<◌, min, max, bit_and, bit_or, digits,
  bit_and-bitwise, bit_or-bitwise,
}
use mathlib.Core.Path.{◌≡◌, refl, subst}
use native.Mathlib.Nat.{pow-suc}
use native.Mathlib.Omega.{arith}

-- Bit `k` of `x`.
abbrev pub bit : ℕ → ℕ → ℕ
bit x zero = x % 2
bit x (suc k) = bit (x / 2) k

-- The digit recursion behind the native operations does not depend on its fuel.
module _ (base : ℕ → ℕ) (join : ℕ → ℕ → ℕ) where
  digits-fuel_irrelevant :
      (f g x y : ℕ) → x ≤ f → x ≤ g → digits base join f x y ≡ digits base join g x y
  digits-fuel_irrelevant zero zero x y p q = refl
  digits-fuel_irrelevant zero (suc g) zero y p q = refl
  digits-fuel_irrelevant zero (suc g) (suc x) y p q = absurd (omega arith)
  digits-fuel_irrelevant (suc f) zero zero y p q = refl
  digits-fuel_irrelevant (suc f) zero (suc x) y p q = absurd (omega arith)
  digits-fuel_irrelevant (suc f) (suc g) zero y p q = refl
  digits-fuel_irrelevant (suc f) (suc g) (suc x) y p q =
      rw (digits-fuel_irrelevant f g (suc x / 2) (y / 2) (omega arith) (omega arith))

pub bit_or-digit : (x y : ℕ) → bit_or x y ≡ bit_or (x / 2) (y / 2) * 2 + max (x % 2) (y % 2)
bit_or-digit zero y = omega (arith, bit_or-bitwise 0 y, bit_or-bitwise 0 (y / 2))
bit_or-digit (suc x) y = omega (
  arith,
  bit_or-bitwise (suc x) y,
  bit_or-bitwise (suc x / 2) (y / 2),
  digits-fuel_irrelevant (λ b. b) max x (suc x / 2) (suc x / 2) (y / 2) (omega arith) (omega arith),
)

pub bit_and-digit : (x y : ℕ) → bit_and x y ≡ bit_and (x / 2) (y / 2) * 2 + min (x % 2) (y % 2)
bit_and-digit zero y = omega (arith, bit_and-bitwise 0 y, bit_and-bitwise 0 (y / 2))
bit_and-digit (suc x) y = omega (
  arith,
  bit_and-bitwise (suc x) y,
  bit_and-bitwise (suc x / 2) (y / 2),
  digits-fuel_irrelevant (λ b. 0) min x (suc x / 2) (suc x / 2) (y / 2) (omega arith) (omega arith),
)

pub bit_or-half : (x y : ℕ) → bit_or x y / 2 ≡ bit_or (x / 2) (y / 2)
bit_or-half x y = omega (arith, bit_or-digit x y)

pub bit_and-half : (x y : ℕ) → bit_and x y / 2 ≡ bit_and (x / 2) (y / 2)
bit_and-half x y = omega (arith, bit_and-digit x y)

pub bit-bit_or : (x y k : ℕ) → bit (bit_or x y) k ≡ max (bit x k) (bit y k)
bit-bit_or x y zero = omega (arith, bit_or-digit x y)
bit-bit_or x y (suc k) = rw (bit_or-half x y) (bit-bit_or (x / 2) (y / 2) k)

pub bit-bit_and : (x y k : ℕ) → bit (bit_and x y) k ≡ min (bit x k) (bit y k)
bit-bit_and x y zero = omega (arith, bit_and-digit x y)
bit-bit_and x y (suc k) = rw (bit_and-half x y) (bit-bit_and (x / 2) (y / 2) k)

pub bit-lt : (x k : ℕ) → bit x k < 2
bit-lt x zero = omega arith
bit-lt x (suc k) = bit-lt (x / 2) k

-- `x & (1 << k)` is the bit at its place.
pub bit_and-zero : (f x : ℕ) → x ≤ f → bit_and x 0 ≡ 0
bit_and-zero zero zero p = refl
bit_and-zero zero (suc x) p = absurd (omega arith)
bit_and-zero (suc f) x p = omega (arith, bit_and-digit x 0, bit_and-zero f (x / 2) (omega arith))

pub bit_and-double : (x m : ℕ) → bit_and x (m * 2) ≡ bit_and (x / 2) m * 2
bit_and-double x m =
    let halved : m * 2 / 2 ≡ m = omega arith in
    let even : (m * 2) % 2 ≡ 0 = omega arith in
    rw (bit_and-digit x (m * 2), halved, even) (omega arith)

pub bit_and-pow : (x k : ℕ) → bit_and x (2 ^ k) ≡ bit x k * 2 ^ k
bit_and-pow x zero = omega (arith, bit_and-digit x 1, bit_and-zero (x / 2) (x / 2) (omega arith))
bit_and-pow x (suc k) = rw (pow-suc, bit_and-double x (2 ^ k), bit_and-pow (x / 2) k) (omega arith)

-- `x & m` for a mask `m` of low ones is a remainder; each mask is one digit longer.
mask-extend :
    (x m p : ℕ) → bit_and (x / 2) m ≡ x / 2 % p → bit_and x (m * 2 + 1) ≡ x / 2 % p * 2 + x % 2
mask-extend x m p h =
    let halved : (m * 2 + 1) / 2 ≡ m = omega arith in
    let odd : (m * 2 + 1) % 2 ≡ 1 = omega arith in
    rw (bit_and-digit x (m * 2 + 1), halved, odd, h) (omega arith)

bit_and-mask1 : (x : ℕ) → bit_and x 1 ≡ x % 2
bit_and-mask1 x = omega (arith, bit_and-digit x 1, bit_and-zero (x / 2) (x / 2) (omega arith))

bit_and-mask3 : (x : ℕ) → bit_and x 3 ≡ x % 4
bit_and-mask3 x = omega (arith, mask-extend x 1 2 (bit_and-mask1 (x / 2)))

bit_and-mask7 : (x : ℕ) → bit_and x 7 ≡ x % 8
bit_and-mask7 x = omega (arith, mask-extend x 3 4 (bit_and-mask3 (x / 2)))

pub bit_and-nibble : (x : ℕ) → bit_and x 15 ≡ x % 16
bit_and-nibble x = omega (arith, mask-extend x 7 8 (bit_and-mask7 (x / 2)))

bit_and-mask31 : (x : ℕ) → bit_and x 31 ≡ x % 32
bit_and-mask31 x = omega (arith, mask-extend x 15 16 (bit_and-nibble (x / 2)))

bit_and-mask63 : (x : ℕ) → bit_and x 63 ≡ x % 64
bit_and-mask63 x = omega (arith, mask-extend x 31 32 (bit_and-mask31 (x / 2)))

bit_and-mask127 : (x : ℕ) → bit_and x 127 ≡ x % 128
bit_and-mask127 x = omega (arith, mask-extend x 63 64 (bit_and-mask63 (x / 2)))

pub bit_and-byte : (x : ℕ) → bit_and x 255 ≡ x % 256
bit_and-byte x = omega (arith, mask-extend x 127 128 (bit_and-mask127 (x / 2)))

bit_and-le_fuel : (f x y : ℕ) → x ≤ f → bit_and x y ≤ y
bit_and-le_fuel zero zero y p = omega (arith, bit_and-bitwise 0 y)
bit_and-le_fuel zero (suc x) y p = absurd (omega arith)
bit_and-le_fuel (suc f) x y p =
    omega (arith, bit_and-digit x y, bit_and-le_fuel f (x / 2) (y / 2) (omega arith))

pub bit_and-le : (x y : ℕ) → bit_and x y ≤ y
bit_and-le x y = bit_and-le_fuel x x y (omega arith)

bit_or-none : (f x : ℕ) → x ≤ f → bit_or x 0 ≡ x
bit_or-none zero zero p = refl
bit_or-none zero (suc x) p = absurd (omega arith)
bit_or-none (suc f) zero p = refl
bit_or-none (suc f) (suc x) p =
    omega (arith, bit_or-digit (suc x) 0, bit_or-none f (suc x / 2) (omega arith))

-- `(q << k) | r` is a sum where `r` fits in `k` bits.
pub bit_or-shift : (k q r : ℕ) → r < 2 ^ k → bit_or (q * 2 ^ k) r ≡ q * 2 ^ k + r
bit_or-shift zero q r h =
    let r_zero : r ≡ 0 = omega arith in
    let q_one : q * 1 ≡ q = omega arith in
    rw (r_zero, q_one, bit_or-none q q (omega arith)) (omega arith)
bit_or-shift (suc k) q r h =
    let p = 2 ^ k in
    let power : 2 ^ suc k ≡ p * 2 = pow-suc 2 k in
    let below : r < p * 2 = subst (λ (t : ℕ). r < t) power h in
    let half : q * (p * 2) / 2 ≡ q * p = omega arith in
    let even : q * (p * 2) % 2 ≡ 0 = omega arith in
    rw (power, bit_or-digit (q * (p * 2)) r, half, even, bit_or-shift k q (r / 2) (omega arith))
      (omega arith)

bit_or_comm_fuel : (f x y : ℕ) → x + y ≤ f → bit_or x y ≡ bit_or y x
bit_or_comm_fuel zero zero zero p = refl
bit_or_comm_fuel zero zero (suc y) p = absurd (omega arith)
bit_or_comm_fuel zero (suc x) y p = absurd (omega arith)
bit_or_comm_fuel (suc f) zero zero p = refl
bit_or_comm_fuel (suc f) zero (suc y) p = omega (
  arith,
  bit_or-digit 0 (suc y),
  bit_or-digit (suc y) 0,
  bit_or_comm_fuel f 0 (suc y / 2) (omega arith),
)
bit_or_comm_fuel (suc f) (suc x) y p = omega (
  arith,
  bit_or-digit (suc x) y,
  bit_or-digit y (suc x),
  bit_or_comm_fuel f (suc x / 2) (y / 2) (omega arith),
)

pub bit_or_comm : (x y : ℕ) → bit_or x y ≡ bit_or y x
bit_or_comm x y = bit_or_comm_fuel (x + y) x y (omega arith)

-- `x & 0xFF00` is a multiple of 256.
pub high_byte : ℕ → ℕ
high_byte x = bit_and (x / 2 / 2 / 2 / 2 / 2 / 2 / 2 / 2) 255

pub bit_and-high : (x : ℕ) → bit_and x 0xFF00 ≡ high_byte x * 256
unfolding high_byte
bit_and-high x =
    let a = x / 2 in
    let b = a / 2 in
    let c = b / 2 in
    let d = c / 2 in
    omega (
      arith,
      bit_and-double x 0x7F80,
      bit_and-double a 0x3FC0,
      bit_and-double b 0x1FE0,
      bit_and-double c 0x0FF0,
      bit_and-double d 0x07F8,
      bit_and-double (d / 2) 0x03FC,
      bit_and-double (d / 2 / 2) 0x01FE,
      bit_and-double (d / 2 / 2 / 2) 0x00FF,
    )
