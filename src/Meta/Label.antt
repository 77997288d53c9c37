-- ===== src/Meta/Label.antt =====
-- Labels, notes and flags of the metadata in soc/firmware/src/hdd_metadata.c.
pub mod Bounded
use flux_ripper.Base.{
  ℕ, suc, ◌+◌, ◌-◌, ◌^◌, Bool, true, if◌then◌else◌, bit_and, bit_or, Option, none, some, List, [],
  ◌++◌, length, take, replicate,
}
use flux_ripper.Meta.State.{Identity, Metadata}

-- `memset(a, 0, sizeof(a)); strncpy(a, text, sizeof(a) - 1);` for an array of `suc n` characters; the text is
-- without its NUL.
unfoldable pub filled : ℕ → List ℕ → List ℕ
filled n text = take n text ++ replicate (suc n - length (take n text)) 0

-- `x & ~m` on 16 bits.
abbrev pub and_not16 : ℕ → ℕ → ℕ
and_not16 x m = bit_and x (2 ^ 16 - 1 - m)

-- `meta_set_notes`; `none` is NULL.
unfoldable pub set_notes : Option (List ℕ) → Metadata → Metadata
unfolding filled
set_notes none m = record m {
  user_notes = replicate 64 0;
  flags = and_not16 m.flags 0x0010;
  dirty = true;
}
set_notes (some text) m = record m {
  user_notes = filled 63 text;
  flags = bit_or m.flags 0x0010;
  dirty = true;
}

-- A field of the identity: NULL leaves it.
abbrev pub fill_if : ℕ → Option (List ℕ) → List ℕ → List ℕ
fill_if n none old = old
fill_if n (some text) old = filled n text

-- `meta_set_identity`
unfoldable pub set_identity :
    Option (List ℕ) → Option (List ℕ) → Option (List ℕ) → Metadata → Metadata
set_identity vendor model serial m =
    let i = m.identity in
    record m {
      identity = record i {
        vendor = fill_if 15 vendor i.vendor;
        model = fill_if 23 model i.model;
        serial = fill_if 19 serial i.serial;
      };
      dirty = true;
    }

-- `meta_set_identity_extended`
unfoldable pub set_identity_extended : Option (List ℕ) → Option (List ℕ) → Metadata → Metadata
set_identity_extended date_code revision m =
    let i = m.identity in
    record m {
      identity = record i {
        date_code = fill_if 7 date_code i.date_code;
        revision = fill_if 7 revision i.revision;
      };
      dirty = true;
    }

-- `meta_set_flags`
unfoldable pub set_flags : ℕ → Bool → Metadata → Metadata
set_flags flags clear m = record m {
  flags = if clear then and_not16 m.flags flags else bit_or m.flags flags;
  dirty = true;
}
