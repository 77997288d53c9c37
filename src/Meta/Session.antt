-- ===== src/Meta/Session.antt =====
-- The diagnostic history in soc/firmware/src/hdd_metadata.c: sixteen sessions, the latest first.
pub mod History
use flux_ripper.Base.{
  ℕ, zero, suc, ◌+◌, ◌-◌, ◌*◌, ◌/◌, ◌%◌, ◌^◌, ◌<◌, ◌≡◌, refl, ap, ◌∙◌, arith, Bool, true, any_bit,
  bit_or, ltb, if◌then◌else◌, bit_and, List, [], ◌∷◌, ◌++◌, length, get_or, take,
}
use flux_ripper.Meta.State.{Session, Metadata, no_session}

module _ {A : Type 0} where
  -- `xs[i] = a`
  unfoldable pub store : ℕ → A → List A → List A
  store i a [] = []
  store zero a (x ∷ xs) = a ∷ xs
  store (suc i) a (x ∷ xs) = x ∷ store i a xs

  -- `for (int i = n; i > 0; i--) xs[i] = xs[i - 1];`, where `d` is never read.
  unfoldable pub shift : A → ℕ → List A → List A
  unfolding store
  shift d zero xs = xs
  shift d (suc n) xs = shift d n (store (suc n) (get_or xs n d) xs)

-- `meta_add_session`, at the time `now`.
unfoldable pub add_session : ℕ → ℕ → ℕ → ℕ → ℕ → Metadata → Metadata
unfolding store shift
add_session now kind duration errors warnings m =
    let new : Session = record {
      timestamp = now;
      kind = kind % 2 ^ 8;
      duration_sec = duration;
      errors = errors;
      warnings = warnings;
    } in
    record m { sessions = store 0 new (shift no_session 15 m.sessions); dirty = true }

-- `meta_update_stats`, at the time `now`.
unfoldable pub update_stats : ℕ → ℕ → ℕ → Metadata → Metadata
update_stats now sectors_read errors m = record m {
  session_count = (m.session_count + 1) % 2 ^ 32;
  read_count = (m.read_count + sectors_read) % 2 ^ 32;
  error_count = (m.error_count + errors) % 2 ^ 32;
  timestamp = now;
  flags = if ltb 0 errors then bit_or m.flags 0x0008 else m.flags;
  dirty = true;
}

-- The session in the four data registers, as `meta_read` unpacks it.
unfoldable pub session_from : ℕ → ℕ → ℕ → ℕ → Session
session_from d0 d1 d2 d3 = record {
  timestamp = d1 * 2 ^ 32 + d0;
  kind = d2 % 2 ^ 8;
  duration_sec = bit_or (d2 / 2 ^ 8) (d3 % 2 ^ 8 * 2 ^ 24);
  errors = d3 / 2 ^ 8 % 2 ^ 16;
  warnings = d3 / 2 ^ 24 % 2 ^ 8;
}

-- The words of a packed `diag_session_t`: its 16 bytes in the order of its fields.
unfoldable pub word0 : Session → ℕ
word0 s = s.timestamp % 2 ^ 32

unfoldable pub word1 : Session → ℕ
word1 s = s.timestamp / 2 ^ 32

unfoldable pub word2 : Session → ℕ
word2 s = s.kind + s.duration_sec % 2 ^ 24 * 2 ^ 8

unfoldable pub word3 : Session → ℕ
word3 s = s.duration_sec / 2 ^ 24 + s.errors * 2 ^ 8 + s.warnings * 2 ^ 24
