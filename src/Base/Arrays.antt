-- ===== src/Base/Arrays.antt =====
-- A C array of four elements, such as those indexed by a LUN, and one of two.
use Prim.Native.Nat.{ℕ, zero, suc, ◌<◌}
use mathlib.Core.Path.{◌≡◌, refl}
use mathlib.Core.Logic.{◌≢◌}
use native.Mathlib.Omega.{arith}

pub record Four {ℓ} (A : Type ℓ) : Type ℓ where
  pub at0 : A
  pub at1 : A
  pub at2 : A
  pub at3 : A

module _ {ℓ} {A : Type ℓ} where
  -- Every use is guarded by `i < 4`.
  abbrev pub at : Four A → ℕ → A
  at t zero = t.at0
  at t (suc zero) = t.at1
  at t (suc (suc zero)) = t.at2
  at t (suc (suc (suc _))) = t.at3

  abbrev pub put : Four A → ℕ → A → Four A
  put t zero v = record t { at0 = v }
  put t (suc zero) v = record t { at1 = v }
  put t (suc (suc zero)) v = record t { at2 = v }
  put t (suc (suc (suc _))) v = record t { at3 = v }

  abbrev pub four : A → Four A
  four v = record { at0 = v; at1 = v; at2 = v; at3 = v }

  pub at-put_self : (t : Four A) (i : ℕ) (v : A) → at (put t i v) i ≡ v
  at-put_self t zero v = refl
  at-put_self t (suc zero) v = refl
  at-put_self t (suc (suc zero)) v = refl
  at-put_self t (suc (suc (suc _))) v = refl

  pub at-put_ne : (t : Four A) (i j : ℕ) (v : A) → i < 4 → j < 4 → i ≢ j → at (put t i v) j ≡ at t j
  at-put_ne t zero zero v p q h = absurd (h refl)
  at-put_ne t zero (suc zero) v p q h = refl
  at-put_ne t zero (suc (suc zero)) v p q h = refl
  at-put_ne t zero (suc (suc (suc _))) v p q h = refl
  at-put_ne t (suc zero) zero v p q h = refl
  at-put_ne t (suc zero) (suc zero) v p q h = absurd (h refl)
  at-put_ne t (suc zero) (suc (suc zero)) v p q h = refl
  at-put_ne t (suc zero) (suc (suc (suc _))) v p q h = refl
  at-put_ne t (suc (suc zero)) zero v p q h = refl
  at-put_ne t (suc (suc zero)) (suc zero) v p q h = refl
  at-put_ne t (suc (suc zero)) (suc (suc zero)) v p q h = absurd (h refl)
  at-put_ne t (suc (suc zero)) (suc (suc (suc _))) v p q h = refl
  at-put_ne t (suc (suc (suc _))) zero v p q h = refl
  at-put_ne t (suc (suc (suc _))) (suc zero) v p q h = refl
  at-put_ne t (suc (suc (suc _))) (suc (suc zero)) v p q h = refl
  at-put_ne t (suc (suc (suc i))) (suc (suc (suc j))) v p q h = absurd (omega arith)

-- A statement about each of the four, with its index.
abbrev pub Each {ℓ κ} : {A : Type ℓ} → (ℕ → A → Type κ) → Four A → Type κ
Each P t = P 0 t.at0 × P 1 t.at1 × P 2 t.at2 × P 3 t.at3

pub Each-at {ℓ κ} :
    {A : Type ℓ} (P : ℕ → A → Type κ) (t : Four A) (i : ℕ) → Each P t → i < 4 → P i (at t i)
Each-at P t zero h p = h.0
Each-at P t (suc zero) h p = h.1
Each-at P t (suc (suc zero)) h p = h.2
Each-at P t (suc (suc (suc zero))) h p = h.3
Each-at P t (suc (suc (suc (suc i)))) h p = absurd (omega arith)

pub Each-put {ℓ κ} :
    {A : Type ℓ} (P : ℕ → A → Type κ) (t : Four A) (i : ℕ) (v : A)
    → Each P t
    → i < 4
    → P i v
    → Each P (put t i v)
Each-put P t zero v h p q = (q, h.1, h.2, h.3)
Each-put P t (suc zero) v h p q = (h.0, q, h.2, h.3)
Each-put P t (suc (suc zero)) v h p q = (h.0, h.1, q, h.3)
Each-put P t (suc (suc (suc zero))) v h p q = (h.0, h.1, h.2, q)
Each-put P t (suc (suc (suc (suc i)))) v h p q = absurd (omega arith)

module _ {ℓ} {A : Type ℓ} where
  pub put-at : (t : Four A) (i : ℕ) → put t i (at t i) ≡ t
  put-at t zero = refl
  put-at t (suc zero) = refl
  put-at t (suc (suc zero)) = refl
  put-at t (suc (suc (suc _))) = refl
