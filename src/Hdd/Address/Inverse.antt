-- ===== src/Hdd/Address/Inverse.antt =====
-- Block addresses and places of soc/firmware/src/hdd_hal.c are inverse to each other.
use native.Mathlib.Nat.{
  mul-add-div_right, div-eq_of_lt, mul-add-mod_self_right, mod-eq_of_lt, mul-le-mul_right,
  mul-le-mul, div-add-mod', mod-lt, div-lt_iff_lt-mul,
}
use flux_ripper.Base.{
  ℕ, suc, ◌+◌, ◌-◌, ◌*◌, ◌/◌, ◌%◌, ◌^◌, ◌≤◌, ◌<◌, ◌≡◌, sym, ap, ◌∙◌, subst, arith,
}
use flux_ripper.Hdd.State.{Geometry}
use flux_ripper.Hdd.Address.{Place, chs_to_lba, lba_to_chs}

-- A geometry without zeros, in the types of its fields.
pub record IsLaidOut (g : Geometry) : Type 0 where
  pub cylinders_fit : g.cylinders < 2 ^ 16
  pub heads_positive : 0 < g.heads
  pub heads_fit : g.heads < 2 ^ 8
  pub sectors_positive : 0 < g.sectors
  pub sectors_fit : g.sectors < 2 ^ 8

-- A place on a drive of the geometry.
pub record IsPlace (g : Geometry) (p : Place) : Type 0 where
  pub cylinder_fits : p.cylinder < g.cylinders
  pub head_fits : p.head < g.heads
  pub sector_positive : 0 < p.sector
  pub sector_fits : p.sector ≤ g.sectors

-- A number of two digits, the second to the base `k`.
quotient : (a b k : ℕ) → b < k → (a * k + b) / k ≡ a
quotient a b k p =
    let positive : 0 < k = omega arith in
    omega (arith, mul-add-div_right positive a b, div-eq_of_lt p)

remainder : (a b k : ℕ) → b < k → (a * k + b) % k ≡ b
remainder a b k p = mul-add-mod_self_right a k b ∙ mod-eq_of_lt p

two_digits-lt : (a b n k : ℕ) → a < n → b < k → a * k + b < n * k
two_digits-lt a b n k p q =
    let wide : suc a * k ≤ n * k = mul-le-mul_right k p in
    let row : suc a * k ≡ a * k + k = omega arith in omega arith

pub product-fits : (c h s : ℕ) → c < 2 ^ 16 → h < 2 ^ 8 → s < 2 ^ 8 → c * h * s < 2 ^ 32
product-fits c h s p q r =
    let c' : c ≤ 65535 = omega arith in
    let h' : h ≤ 255 = omega arith in
    let s' : s ≤ 255 = omega arith in omega (arith, mul-le-mul (mul-le-mul c' h') s')

-- The address of a place does not wrap around, and is below the number of sectors of the drive.
chs_to_lba_plain :
    (g : Geometry) (p : Place)
    → IsLaidOut g
    → IsPlace g p
    → (chs_to_lba g p ≡ (p.cylinder * g.heads + p.head) * g.sectors + (p.sector - 1))
      × (chs_to_lba g p < g.cylinders * g.heads * g.sectors)
unfolding chs_to_lba
chs_to_lba_plain g p l q =
    let track = two_digits-lt p.cylinder p.head g.cylinders g.heads q.cylinder_fits q.head_fits in
    let all =
      two_digits-lt (p.cylinder * g.heads + p.head) (p.sector - 1) (g.cylinders * g.heads) g.sectors
        track (omega (arith, q.sector_positive, q.sector_fits)) in
    let fits =
      product-fits g.cylinders g.heads g.sectors l.cylinders_fit l.heads_fit l.sectors_fit in
    ground (arith, all, fits, q.sector_positive, l.heads_positive, l.sectors_positive)

-- The place that the division of an address gives.
lba_to_chs-digits :
    (g : Geometry) (p : Place) (lba : ℕ)
    → IsLaidOut g
    → IsPlace g p
    → lba ≡ (p.cylinder * g.heads + p.head) * g.sectors + (p.sector - 1)
    → lba_to_chs g lba ≡ p
unfolding lba_to_chs
lba_to_chs-digits g p lba l q e =
    let low : p.sector - 1 < g.sectors = omega (arith, q.sector_positive, q.sector_fits) in
    let track : lba / g.sectors ≡ p.cylinder * g.heads + p.head =
      ap (◌/ g.sectors) e ∙ quotient (p.cylinder * g.heads + p.head) (p.sector - 1) g.sectors low in
    let sector : lba % g.sectors ≡ p.sector - 1 =
      ap (◌% g.sectors) e
      ∙ remainder (p.cylinder * g.heads + p.head) (p.sector - 1) g.sectors low in
    let cylinder : lba / g.sectors / g.heads ≡ p.cylinder =
      ap (◌/ g.heads) track ∙ quotient p.cylinder p.head g.heads q.head_fits in
    let head : lba / g.sectors % g.heads ≡ p.head =
      ap (◌% g.heads) track ∙ remainder p.cylinder p.head g.heads q.head_fits in
    ground (
      arith, cylinder, head, sector, l.cylinders_fit, l.heads_fit, l.sectors_fit, l.heads_positive,
      l.sectors_positive, q.cylinder_fits, q.head_fits, q.sector_positive, q.sector_fits,
    )

-- On a drive whose geometry has no zeros, the address of a place is below the number of sectors of the
-- drive, and the place is found again from it.
pub lba_to_chs-chs_to_lba :
    (g : Geometry) (p : Place)
    → IsLaidOut g
    → IsPlace g p
    → (chs_to_lba g p < g.cylinders * g.heads * g.sectors) × (lba_to_chs g (chs_to_lba g p) ≡ p)
lba_to_chs-chs_to_lba g p l q =
    let plain = chs_to_lba_plain g p l q in (plain.1, lba_to_chs-digits g p _ l q plain.0)

-- On a drive whose geometry has no zeros, an address below the number of its sectors has a place on the
-- drive, and is the address of that place.
pub chs_to_lba-lba_to_chs :
    (g : Geometry) (lba : ℕ)
    → IsLaidOut g
    → lba < g.cylinders * g.heads * g.sectors
    → IsPlace g (lba_to_chs g lba) × (chs_to_lba g (lba_to_chs g lba) ≡ lba)
chs_to_lba-lba_to_chs g lba l p =
    let track : lba / g.sectors < g.cylinders * g.heads =
      (div-lt_iff_lt-mul l.sectors_positive).1 p in
    let cylinder : lba / g.sectors / g.heads < g.cylinders =
      (div-lt_iff_lt-mul l.heads_positive).1 track in
    let place : Place = record {
      cylinder = lba / g.sectors / g.heads;
      head = lba / g.sectors % g.heads;
      sector = lba % g.sectors + 1;
    } in
    let fits : IsPlace g place = record {
      cylinder_fits = cylinder;
      head_fits = mod-lt (lba / g.sectors) l.heads_positive;
      sector_positive = omega arith;
      sector_fits = omega (arith, mod-lt lba l.sectors_positive);
    } in
    let again : lba % g.sectors + 1 - 1 ≡ lba % g.sectors = omega arith in
    let digits : lba ≡ (place.cylinder * g.heads + place.head) * g.sectors + (place.sector - 1) =
      sym (
        ap (λ t. (lba / g.sectors / g.heads * g.heads + lba / g.sectors % g.heads) * g.sectors + t)
          again
        ∙ ap (λ t. t * g.sectors + lba % g.sectors) (div-add-mod' (lba / g.sectors) g.heads)
        ∙ div-add-mod' lba g.sectors) in
    let same = sym (lba_to_chs-digits g place lba l fits digits) in
    (
      subst (IsPlace g) same fits,
      ap (chs_to_lba g) (sym same) ∙ (chs_to_lba_plain g place l fits).0 ∙ sym digits,
    )
