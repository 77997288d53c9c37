-- ===== src/Meta/Label/Bounded.antt =====
-- The arrays of the metadata keep their sizes, and their strings their ends.
use flux_ripper.Base.{
  ℕ, zero, suc, ◌+◌, ◌-◌, ◌≤◌, ◌<◌, ◌≡◌, refl, ap, ◌∙◌, arith, Bool, Option, none, some, List, [],
  ◌∷◌, ◌++◌, length, take, replicate, get_or, length-append, length-take, length-replicate,
}
use flux_ripper.Meta.State.{Metadata, no_session, no_metadata}
use flux_ripper.Meta.Session.{store, shift, add_session, update_stats}
use flux_ripper.Meta.Label.{
  filled, fill_if, set_notes, set_identity, set_identity_extended, set_flags,
}

abbrev nul : ℕ
nul = 0

-- A string in an array of `suc n` characters: the last of them is NUL.
pub record IsText (n : ℕ) (xs : List ℕ) : Type 0 where
  pub size : length xs ≡ suc n
  pub ended : get_or xs n 1 ≡ 0

get_or-zeros : (k n : ℕ) → n < k → get_or (replicate k nul) n 1 ≡ 0
get_or-zeros zero n p = absurd (omega arith)
get_or-zeros (suc k) zero p = refl
get_or-zeros (suc k) (suc n) p = get_or-zeros k n (omega arith)

-- Beyond a text that is not too long there are zeros.
get_or-behind :
    (xs : List ℕ) (k n : ℕ)
    → length xs ≤ n
    → n < length xs + k
    → get_or (xs ++ replicate k nul) n 1 ≡ 0
get_or-behind [] k n p q = get_or-zeros k n (omega arith)
get_or-behind (x ∷ xs) k zero p q = absurd (omega arith)
get_or-behind (x ∷ xs) k (suc n) p q = get_or-behind xs k n (omega arith) (omega arith)

filled-IsText : (n : ℕ) (text : List ℕ) → IsText n (filled n text)
unfolding filled
filled-IsText n text =
    let cut = length-take n text in
    let zeros : ℕ = suc n - length (take n text) in
    record {
      size =
          length-append (take n text) (replicate zeros nul)
          ∙ omega (arith, cut, length-replicate zeros nul);
      ended = get_or-behind (take n text) zeros n (omega (arith, cut)) (omega (arith, cut));
    }

fill_if-IsText :
    (n : ℕ) (text : Option (List ℕ)) (old : List ℕ) → IsText n old → IsText n (fill_if n text old)
fill_if-IsText n none old p = p
fill_if-IsText n (some text) old p = filled-IsText n text

zeros-IsText : (n : ℕ) → IsText n (replicate (suc n) nul)
zeros-IsText n = record {
  size = length-replicate (suc n) nul;
  ended = get_or-zeros (suc n) n (omega arith);
}

-- Metadata whose arrays have their sizes and whose strings end.
pub record IsFramed (m : Metadata) : Type 0 where
  pub history_size : length m.sessions ≡ 16
  pub notes_end : IsText 63 (m.user_notes)
  pub vendor_ends : IsText 15 (m.identity.vendor)
  pub model_ends : IsText 23 (m.identity.model)
  pub serial_ends : IsText 19 (m.identity.serial)
  pub date_code_ends : IsText 7 (m.identity.date_code)
  pub revision_ends : IsText 7 (m.identity.revision)

-- What a caller does to metadata in memory.
pub data Edit : Type 0 where
  adds : ℕ → ℕ → ℕ → ℕ → ℕ → Edit
  counts : ℕ → ℕ → ℕ → Edit
  notes : Option (List ℕ) → Edit
  names : Option (List ℕ) → Option (List ℕ) → Option (List ℕ) → Edit
  dates : Option (List ℕ) → Option (List ℕ) → Edit
  marks : ℕ → Bool → Edit

unfoldable pub edit : Edit → Metadata → Metadata
unfolding add_session update_stats set_notes set_identity set_identity_extended set_flags
edit (adds now kind duration errors warnings) m = add_session now kind duration errors warnings m
edit (counts now sectors errors) m = update_stats now sectors errors m
edit (notes text) m = set_notes text m
edit (names vendor model serial) m = set_identity vendor model serial m
edit (dates date_code revision) m = set_identity_extended date_code revision m
edit (marks flags clear) m = set_flags flags clear m

unfoldable pub edits : List Edit → Metadata → Metadata
unfolding edit
edits [] m = m
edits (e ∷ es) m = edits es (edit e m)

length-store : {A : Type 0} (i : ℕ) (a : A) (xs : List A) → length (store i a xs) ≡ length xs
unfolding store
length-store i a [] = refl
length-store zero a (x ∷ xs) = refl
length-store (suc i) a (x ∷ xs) = ap suc (length-store i a xs)

length-shift : {A : Type 0} (d : A) (n : ℕ) (xs : List A) → length (shift d n xs) ≡ length xs
unfolding shift
length-shift d zero xs = refl
length-shift d (suc n) xs =
    length-shift d n (store (suc n) (get_or xs n d) xs) ∙ length-store (suc n) (get_or xs n d) xs

edit-IsFramed : (e : Edit) (m : Metadata) → IsFramed m → IsFramed (edit e m)
unfolding edit add_session update_stats set_notes set_identity set_identity_extended set_flags
edit-IsFramed (adds now kind duration errors warnings) m p = record {
  history_size =
      length-store 0 _ (shift no_session 15 m.sessions)
      ∙ length-shift no_session 15 m.sessions
      ∙ p.history_size;
  notes_end = p.notes_end;
  vendor_ends = p.vendor_ends;
  model_ends = p.model_ends;
  serial_ends = p.serial_ends;
  date_code_ends = p.date_code_ends;
  revision_ends = p.revision_ends;
}
edit-IsFramed (counts now sectors errors) m p = record {
  history_size = p.history_size;
  notes_end = p.notes_end;
  vendor_ends = p.vendor_ends;
  model_ends = p.model_ends;
  serial_ends = p.serial_ends;
  date_code_ends = p.date_code_ends;
  revision_ends = p.revision_ends;
}
edit-IsFramed (notes none) m p = record {
  history_size = p.history_size;
  notes_end = zeros-IsText 63;
  vendor_ends = p.vendor_ends;
  model_ends = p.model_ends;
  serial_ends = p.serial_ends;
  date_code_ends = p.date_code_ends;
  revision_ends = p.revision_ends;
}
edit-IsFramed (notes (some text)) m p = record {
  history_size = p.history_size;
  notes_end = filled-IsText 63 text;
  vendor_ends = p.vendor_ends;
  model_ends = p.model_ends;
  serial_ends = p.serial_ends;
  date_code_ends = p.date_code_ends;
  revision_ends = p.revision_ends;
}
edit-IsFramed (names vendor model serial) m p = record {
  history_size = p.history_size;
  notes_end = p.notes_end;
  vendor_ends = fill_if-IsText 15 vendor _ p.vendor_ends;
  model_ends = fill_if-IsText 23 model _ p.model_ends;
  serial_ends = fill_if-IsText 19 serial _ p.serial_ends;
  date_code_ends = p.date_code_ends;
  revision_ends = p.revision_ends;
}
edit-IsFramed (dates date_code revision) m p = record {
  history_size = p.history_size;
  notes_end = p.notes_end;
  vendor_ends = p.vendor_ends;
  model_ends = p.model_ends;
  serial_ends = p.serial_ends;
  date_code_ends = fill_if-IsText 7 date_code _ p.date_code_ends;
  revision_ends = fill_if-IsText 7 revision _ p.revision_ends;
}
edit-IsFramed (marks flags clear) m p = record {
  history_size = p.history_size;
  notes_end = p.notes_end;
  vendor_ends = p.vendor_ends;
  model_ends = p.model_ends;
  serial_ends = p.serial_ends;
  date_code_ends = p.date_code_ends;
  revision_ends = p.revision_ends;
}

no_metadata-IsFramed : IsFramed no_metadata
no_metadata-IsFramed = record {
  history_size = refl;
  notes_end = zeros-IsText 63;
  vendor_ends = zeros-IsText 15;
  model_ends = zeros-IsText 23;
  serial_ends = zeros-IsText 19;
  date_code_ends = zeros-IsText 7;
  revision_ends = zeros-IsText 7;
}

edits-keeps : (es : List Edit) (m : Metadata) → IsFramed m → IsFramed (edits es m)
unfolding edits
edits-keeps [] m p = p
edits-keeps (e ∷ es) m p = edits-keeps es (edit e m) (edit-IsFramed e m p)

-- Whatever is done to cleared metadata in memory, the history has sixteen sessions, and the notes and each
-- field of the identity fill their array and end in a NUL.
pub edits-IsFramed : (es : List Edit) → IsFramed (edits es no_metadata)
edits-IsFramed es = edits-keeps es no_metadata no_metadata-IsFramed
