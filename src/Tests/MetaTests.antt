-- ===== src/Tests/MetaTests.antt =====
-- The metadata at a drive that carries metadata and answers at once; the hardware's state is its clock in
-- microseconds.
use flux_ripper.Base.{
  ℕ, ◌+◌, ◌/◌, ◌%◌, ◌^◌, ◌≡◌, refl, true, false, none, some, List, [], ◌∷◌, length, take, get_or,
  replicate, arith,
}
use flux_ripper.Act.{returns}
use flux_ripper.Act.Triples.{Ended}
use flux_ripper.Meta.State.{Session, DriveMeta, Meta, no_metadata, meta_at}
use flux_ripper.Meta.Session.{add_session, session_from, word0, word1, word2, word3}
use flux_ripper.Meta.Session.History.{add_session_queues, session_from-words}
use flux_ripper.Meta.Uuid.{generate_uuid, uuid_to_string}
use flux_ripper.Meta.Uuid.Version.{generate_uuid_marks}
use flux_ripper.Meta.Label.Bounded.{
  IsFramed, Edit, adds, notes, names, marks, edits, edits-IsFramed,
}
use flux_ripper.Meta.Storage.{
  MetaReg, MetaIo, default_config, meta_init, meta_read, meta_write, meta_erase, get_defect_list,
}
use flux_ripper.Meta.Storage.Ending.{IsTimed}
use flux_ripper.Meta.Storage.Cached.{IsRead, meta_read_keeps, meta_write-erase_cache}
use flux_ripper.Meta.Storage.Located.{get_defect_list-init}

-- Done, with a valid signature.
abbrev reads : MetaReg → ℕ
reads MetaReg.ctrl = 0xA00
reads _ = 7

abbrev card : MetaIo ℕ
card = record {
  read_reg = λ r h. (reads r, h);
  write_reg = λ r v h. h;
  get_time_ms = λ h. (h / 1000 % 2 ^ 32, h);
  delay_us = λ n h. h + n;
  hdd_select = λ d h. h;
}

card-IsTimed : IsTimed card (λ h. h)
card-IsTimed = record {
  clocked = record {
    reads = λ h. refl;
    reads_after = λ h. omega arith;
    reads_soon = λ h. omega arith;
    delays = λ n h. omega arith;
    delays_soon = λ n h. omega arith;
  };
  reads_after = λ r h. omega arith;
  reads_soon = λ r h. omega arith;
}

abbrev opened : DriveMeta
opened = record { initialized = true; config = default_config; cache = no_metadata }

abbrev ready : Meta ℕ
ready = record { meta0 = opened; meta1 = record opened { initialized = false }; io = 0 }

abbrev imaging : Session
imaging = record {
  timestamp = 1764000000;
  kind = 3;
  duration_sec = 90000000;
  errors = 513;
  warnings = 200;
}

add_session_queues_example :
    (s : Session) × ((add_session 1764000000 3 60 0 1 no_metadata).sessions
      ≡ s ∷ take 15 (no_metadata.sessions))
    × (s.timestamp ≡ 1764000000)
    × (s.kind ≡ 3)
    × (s.duration_sec ≡ 60)
    × (s.errors ≡ 0)
    × (s.warnings ≡ 1)
add_session_queues_example = add_session_queues 1764000000 3 60 0 1 no_metadata refl

session_from-words_example :
    session_from (word0 imaging) (word1 imaging) (word2 imaging) (word3 imaging) ≡ imaging
session_from-words_example = session_from-words imaging (record {
  timestamp_fits = omega arith;
  kind_fits = omega arith;
  duration_fits = omega arith;
  errors_fit = omega arith;
  warnings_fit = omega arith;
})

generate_uuid_marks_example :
    ((generate_uuid (1 ∷ 2 ∷ []) 5).data3 / 2 ^ 12 ≡ 4)
    × (get_or ((generate_uuid (1 ∷ 2 ∷ []) 5).data4) 0 0 / 2 ^ 6 ≡ 2)
    × (length ((generate_uuid (1 ∷ 2 ∷ []) 5).data4) ≡ 8)
    × (length (uuid_to_string (generate_uuid (1 ∷ 2 ∷ []) 5)) ≡ 36)
    × (get_or (uuid_to_string (generate_uuid (1 ∷ 2 ∷ []) 5)) 14 0 ≡ 52)
generate_uuid_marks_example = generate_uuid_marks (1 ∷ 2 ∷ []) 5

-- A note that is too long, and a vendor.
abbrev labelling : List Edit
labelling =
    adds 1 2 3 4 5
    ∷ notes (some (replicate 100 65))
    ∷ names (some (83 ∷ 84 ∷ [])) none none
    ∷ marks 2 false
    ∷ []

edits-IsFramed_example : IsFramed (edits labelling no_metadata)
edits-IsFramed_example = edits-IsFramed labelling

meta_read_keeps_example :
    Ended
      (IsRead card 0 opened no_metadata)
      (λ s. meta_at s 0 ≡ opened)
      (meta_read card 5001001 0 (some no_metadata) ready)
meta_read_keeps_example =
    meta_read_keeps card (λ h. h) card-IsTimed 5001001 0 no_metadata ready (omega arith)

meta_write-erase_cache_example :
    Ended
      (λ _ s. meta_at s 0 ≡ opened)
      (λ s. meta_at s 0 ≡ opened)
      (meta_write card 10001001 0 (some no_metadata) ready)
    × Ended
        (λ _ s. meta_at s 0 ≡ opened)
        (λ s. meta_at s 0 ≡ opened)
        (meta_erase card 10001001 0 ready)
meta_write-erase_cache_example =
    meta_write-erase_cache card (λ h. h) card-IsTimed 10001001 0 no_metadata ready (omega arith)

get_defect_list-init_example :
    (s : Meta ℕ) × (meta_init card 1 none ready ≡ some (returns tt, s))
    × (get_defect_list 1 s ≡ some (0, 1, 1, 4))
    × (meta_at s 0 ≡ opened)
get_defect_list-init_example = get_defect_list-init card 1 none ready (omega arith)
