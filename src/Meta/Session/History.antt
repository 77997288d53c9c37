-- ===== src/Meta/Session/History.antt =====
-- The history of sessions as a list, and a session as the words that the hardware returns.
use flux_ripper.Base.{
  ℕ, zero, suc, ◌+◌, ◌*◌, ◌/◌, ◌%◌, ◌^◌, ◌<◌, ◌≡◌, refl, ap, ◌∙◌, arith, bit_or, bit_or-shift,
  bit_or_comm, List, [], ◌∷◌, length, get_or, take,
}
use flux_ripper.Meta.State.{Session, Metadata, no_session}
use flux_ripper.Meta.Session.{store, shift, add_session, session_from, word0, word1, word2, word3}

module _ {A : Type 0} where
  -- The loop keeps the first element, and puts a copy of it before the rest.
  shift-cons :
      (d : A) (n : ℕ) (x : A) (xs : List A)
      → shift d (suc n) (x ∷ xs) ≡ x ∷ store 0 x (shift d n xs)
  unfolding store shift
  shift-cons d zero x xs = refl
  shift-cons d (suc n) x xs = shift-cons d n x (store (suc n) (get_or xs n d) xs)

  store-shift :
      (d : A) (n : ℕ) (y : A) (xs : List A)
      → length xs ≡ suc n
      → store 0 y (shift d n xs) ≡ y ∷ take n xs
  unfolding store shift
  store-shift d n y [] e = absurd (omega (arith, e))
  store-shift d zero y (x ∷ []) e = refl
  store-shift d zero y (x ∷ x' ∷ xs) e = absurd (omega (arith, e))
  store-shift d (suc n) y (x ∷ xs) e =
      ap (store 0 y) (shift-cons d n x xs)
      ∙ ap (λ r. y ∷ r) (store-shift d n x xs (omega (arith, e)))

-- A session that is added to a history of sixteen comes first, and the first fifteen stay behind it in their
-- order: the loop that moves them down loses none but the last.
pub add_session_queues :
    (now kind duration errors warnings : ℕ) (m : Metadata)
    → length m.sessions ≡ 16
    → (s : Session) × ((add_session now kind duration errors warnings m).sessions
        ≡ s ∷ take 15 m.sessions)
      × (s.timestamp ≡ now)
      × (s.kind ≡ kind % 2 ^ 8)
      × (s.duration_sec ≡ duration)
      × (s.errors ≡ errors)
      × (s.warnings ≡ warnings)
unfolding add_session
add_session_queues now kind duration errors warnings m e =
    let s : Session = record {
      timestamp = now;
      kind = kind % 2 ^ 8;
      duration_sec = duration;
      errors = errors;
      warnings = warnings;
    } in
    (s, store-shift no_session 15 s m.sessions e, refl, refl, refl, refl, refl)

-- A session in the types of its fields.
pub record IsSession (s : Session) : Type 0 where
  pub timestamp_fits : s.timestamp < 2 ^ 64
  pub kind_fits : s.kind < 2 ^ 8
  pub duration_fits : s.duration_sec < 2 ^ 32
  pub errors_fit : s.errors < 2 ^ 16
  pub warnings_fit : s.warnings < 2 ^ 8

-- `(d2 >> 8) | ((d3 & 0xFF) << 24)`, of 24 bits and of 8.
join-bit_or : (q r : ℕ) → r < 2 ^ 24 → bit_or r (q * 2 ^ 24) ≡ q * 2 ^ 24 + r
join-bit_or q r p = bit_or_comm r (q * 2 ^ 24) ∙ bit_or-shift 24 q r p

-- A session in the types of its fields is read back from the four words of its packed structure.
pub session_from-words :
    (s : Session) → IsSession s → session_from (word0 s) (word1 s) (word2 s) (word3 s) ≡ s
unfolding session_from word0 word1 word2 word3
session_from-words s p =
    let low : word2 s / 2 ^ 8 ≡ s.duration_sec % 2 ^ 24 = omega (arith, p.kind_fits) in
    let high : word3 s % 2 ^ 8 ≡ s.duration_sec / 2 ^ 24 = omega (arith, p.duration_fits) in
    let joined = join-bit_or (s.duration_sec / 2 ^ 24) (s.duration_sec % 2 ^ 24) (omega arith) in
    let time : word1 s * 2 ^ 32 + word0 s ≡ s.timestamp = omega arith in
    let kind : word2 s % 2 ^ 8 ≡ s.kind = omega (arith, p.kind_fits) in
    let duration : bit_or (word2 s / 2 ^ 8) (word3 s % 2 ^ 8 * 2 ^ 24) ≡ s.duration_sec =
      rw (low, high, joined) (omega arith) in
    let errors : word3 s / 2 ^ 8 % 2 ^ 16 ≡ s.errors =
      omega (arith, p.duration_fits, p.errors_fit) in
    let warnings : word3 s / 2 ^ 24 % 2 ^ 8 ≡ s.warnings =
      omega (arith, p.duration_fits, p.errors_fit, p.warnings_fit) in
    λ i. record {
      timestamp = time i;
      kind = kind i;
      duration_sec = duration i;
      errors = errors i;
      warnings = warnings i;
    }
