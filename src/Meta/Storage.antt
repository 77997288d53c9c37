-- ===== src/Meta/Storage.antt =====
-- The operations of soc/firmware/src/hdd_metadata.c on a drive, through the metadata registers.
pub mod Ending
pub mod Cached
pub mod Located
use flux_ripper.Base.{
  ℕ, zero, suc, ◌+◌, ◌-◌, ◌*◌, ◌/◌, ◌%◌, ◌^◌, Bool, true, false, not, ◌&&◌, ◌||◌, ◌==◌, ltb,
  if◌then◌else◌, bit_and, bit_or, any_bit, Option, none, some, List, [], ◌∷◌, ◌++◌, get_or,
  replicate,
}
use flux_ripper.Wait.{Clock, Verdict, undecided, settled, wait}
use flux_ripper.Act.{
  Outcome, returns, fails, Act, pure, fail, check, gets, modify, step, ◌>>=◌, ◌>>◌,
}
use flux_ripper.Meta.State.{
  Uuid, Session, Metadata, MetaConfig, DriveMeta, Meta, no_session, no_metadata, meta_at, put_meta,
}
use flux_ripper.Meta.Session.{session_from}
use flux_ripper.Meta.Uuid.{generate_uuid}

-- `META_REG_*`; the registers of the fingerprint and of a session have their numbers.
pub data MetaReg : Type 0 where
  ctrl config cyl_head sector guid0 guid1 guid2 guid3 timestamp_lo timestamp_hi flags : MetaReg
  session_count read_count error_count diag_idx : MetaReg
  fingerprint diag_data : ℕ → MetaReg

pub record MetaIo (H : Type 0) : Type 0 where
  pub read_reg : MetaReg → H → ℕ × H
  pub write_reg : MetaReg → ℕ → H → H
  pub get_time_ms : H → ℕ × H
  pub delay_us : ℕ → H → H
  pub hdd_select : ℕ → H → H

-- `meta_error_t`, by its numbers; the hardware's own codes are below 16.
abbrev pub no_signature : ℕ
no_signature = 5

abbrev pub timeout : ℕ
timeout = 9

abbrev pub invalid_drive : ℕ
invalid_drive = 10

abbrev pub not_initialized : ℕ
not_initialized = 11

-- `METADATA_SIGNATURE`
abbrev pub signature_flxr : ℕ
signature_flxr = 0x464C5852

-- The four bytes of a word in memory, and back.
unfoldable pub word_from : ℕ → List ℕ → ℕ
word_from i bs =
    get_or bs i 0
    + get_or bs (i + 1) 0 * 2 ^ 8
    + get_or bs (i + 2) 0 * 2 ^ 16
    + get_or bs (i + 3) 0 * 2 ^ 24

unfoldable pub bytes_of : ℕ → List ℕ
bytes_of v = v % 2 ^ 8 ∷ v / 2 ^ 8 % 2 ^ 8 ∷ v / 2 ^ 16 % 2 ^ 8 ∷ v / 2 ^ 24 % 2 ^ 8 ∷ []

-- The location that `meta_init` takes without a configuration.
abbrev pub default_config : MetaConfig
default_config = record {
  cylinder = 0;
  head = 1;
  start_sector = 1;
  enabled = true;
  auto_write = true;
  generate_guid_on_first = true;
}

abbrev pub config_or : Option MetaConfig → MetaConfig
config_or none = default_config
config_or (some c) = c

-- A `meta_error_t` that the callers compare with META_OK, which is 0.
abbrev pub outcome_of : ℕ → Outcome ℕ (Unit {0})
outcome_of code = if code == 0 then returns tt else fails code

-- One round of `wait_for_completion`: bits 8 to 10, and the error in bits 12 to 15. With the error bit and
-- the code 0 the C function returns META_OK, and its callers go on.
abbrev pub judge_ctrl : ℕ → Verdict (Outcome ℕ (Unit {0}))
judge_ctrl status =
    if any_bit status (2 ^ 9)
    then settled
        (if any_bit status (2 ^ 10) then outcome_of (status / 2 ^ 12 % 2 ^ 4) else returns tt)
    else if not (any_bit status (2 ^ 8))
    then settled (fails timeout)
    else undecided

module _ {H : Type 0} where
  -- `memcpy(&g_meta.cache[drive], meta, ...)`
  abbrev pub put_cache : ℕ → Metadata → Meta H → Meta H
  put_cache drive m s = put_meta drive (record (meta_at s drive) { cache = m }) s

module _ {H : Type 0} (hw : MetaIo H) where
  abbrev pub MetaCall : Type 0 → Type 0
  MetaCall A = Act ℕ (Meta H) A

  -- The clock, with its delay in microseconds.
  abbrev pub meta_clock : Clock (Meta H)
  meta_clock = record {
    get_time_ms = λ s. let (t, h) = hw.get_time_ms s.io in (t, record s { io = h });
    delay_ms = λ n s. record s { io = hw.delay_us n s.io };
  }

  abbrev pub read : MetaReg → Meta H → ℕ × Meta H
  read r s = let (v, h) = hw.read_reg r s.io in (v, record s { io = h })

  -- `meta_reg_read` and `meta_reg_write`
  abbrev pub reg_read : MetaReg → MetaCall ℕ
  reg_read r = step (read r)

  abbrev pub reg_write : MetaReg → ℕ → MetaCall (Unit {0})
  reg_write r v = modify λ s. record s { io = hw.write_reg r v s.io }

  -- `wait_for_completion`
  unfoldable pub wait_for_completion : ℕ → ℕ → MetaCall (Unit {0})
  wait_for_completion limit fuel =
      wait meta_clock (λ s. let (v, s') = read MetaReg.ctrl s in (judge_ctrl v, s')) (fails timeout)
        limit 100 fuel

  -- `meta_init`; `none` is NULL.
  unfoldable pub meta_init : ℕ → Option MetaConfig → MetaCall (Unit {0})
  meta_init drive given = do
    check (ltb drive 2) invalid_drive
    let c : MetaConfig = config_or given
    reg_write MetaReg.config (
        (if c.enabled then 1 else 0)
        + (if c.auto_write then 2 else 0)
        + (if c.generate_guid_on_first then 4 else 0))
    reg_write MetaReg.cyl_head (bit_or (c.head * 2 ^ 16) c.cylinder)
    reg_write MetaReg.sector (c.start_sector)
    modify (put_meta drive (record { initialized = true; config = c; cache = no_metadata }))

  -- The first lines of the operations on a drive.
  abbrev pub enter_drive : ℕ → MetaCall (Unit {0})
  enter_drive drive s =
      (check (ltb drive 2) invalid_drive >> check ((meta_at s drive).initialized) not_initialized) s

  abbrev pub select : ℕ → MetaCall (Unit {0})
  select drive = modify λ s. record s { io = hw.hdd_select drive s.io }

  -- The loop over the words of the fingerprint, from word `i`.
  unfoldable pub read_fingerprint : ℕ → ℕ → MetaCall (List ℕ)
  read_fingerprint zero i = pure []
  read_fingerprint (suc n) i = do
    w ← reg_read (MetaReg.fingerprint i)
    rest ← read_fingerprint n (i + 1)
    pure (bytes_of w ++ rest)

  -- The loop over the sessions, from session `i`.
  unfoldable pub read_sessions : ℕ → ℕ → MetaCall (List Session)
  read_sessions zero i = pure []
  read_sessions (suc n) i = do
    reg_write MetaReg.diag_idx i
    modify (meta_clock.delay_ms 10)
    d0 ← reg_read (MetaReg.diag_data 0)
    d1 ← reg_read (MetaReg.diag_data 1)
    d2 ← reg_read (MetaReg.diag_data 2)
    d3 ← reg_read (MetaReg.diag_data 3)
    rest ← read_sessions n (i + 1)
    pure (session_from d0 d1 d2 d3 ∷ rest)

  abbrev pub read_guid : MetaCall Uuid
  read_guid = do
    g0 ← reg_read MetaReg.guid0
    g1 ← reg_read MetaReg.guid1
    g2 ← reg_read MetaReg.guid2
    g3 ← reg_read MetaReg.guid3
    let u : Uuid = record {
      data1 = g0;
      data2 = g1 / 2 ^ 16;
      data3 = g1 % 2 ^ 16;
      data4 = bytes_of g2 ++ bytes_of g3;
    }
    pure u

  -- The timestamp, the flags and the three counters.
  abbrev pub read_header : Metadata → MetaCall Metadata
  read_header m = do
    hi ← reg_read MetaReg.timestamp_hi
    lo ← reg_read MetaReg.timestamp_lo
    f ← reg_read MetaReg.flags
    sessions ← reg_read MetaReg.session_count
    reads ← reg_read MetaReg.read_count
    errors ← reg_read MetaReg.error_count
    let m' : Metadata = record m {
      timestamp = bit_or (hi * 2 ^ 32) lo;
      flags = f % 2 ^ 16;
      session_count = sessions;
      read_count = reads;
      error_count = errors;
    }
    pure m'

  -- `meta_read`, with the metadata that the caller points to; the value is that metadata in the end.
  unfoldable pub meta_read : ℕ → ℕ → Option Metadata → MetaCall Metadata
  meta_read fuel drive none = do enter_drive drive; fail invalid_drive
  meta_read fuel drive (some caller) = do
    enter_drive drive
    select drive
    reg_write MetaReg.ctrl 1
    wait_for_completion 5000 fuel
    status ← reg_read MetaReg.ctrl
    check (any_bit status (2 ^ 11)) no_signature
    guid ← read_guid
    m ← read_header (record caller { signature = signature_flxr; version = 1; guid = guid })
    words ← read_fingerprint 8 0
    sessions ← read_sessions 16 0
    let m' : Metadata = record m {
      fingerprint = words;
      sessions = sessions;
      valid = true;
      dirty = false;
    }
    modify (put_cache drive m')
    pure m'

  -- The loop that writes the words of the fingerprint, from word `i`.
  unfoldable pub write_fingerprint : List ℕ → ℕ → ℕ → MetaCall (Unit {0})
  write_fingerprint bs zero i = pure tt
  write_fingerprint bs (suc n) i =
      reg_write (MetaReg.fingerprint i) (word_from (i * 4) bs) >> write_fingerprint bs n (i + 1)

  -- `meta_write`; `none` is NULL.
  unfoldable pub meta_write : ℕ → ℕ → Option Metadata → MetaCall (Unit {0})
  meta_write fuel drive none = do enter_drive drive; fail invalid_drive
  meta_write fuel drive (some m) = do
    enter_drive drive
    select drive
    reg_write MetaReg.guid0 (m.guid.data1)
    reg_write MetaReg.guid1 (bit_or (m.guid.data2 * 2 ^ 16) (m.guid.data3))
    reg_write MetaReg.guid2 (word_from 0 (m.guid.data4))
    reg_write MetaReg.guid3 (word_from 4 (m.guid.data4))
    reg_write MetaReg.timestamp_lo (m.timestamp % 2 ^ 32)
    reg_write MetaReg.timestamp_hi (m.timestamp / 2 ^ 32)
    reg_write MetaReg.flags (m.flags)
    reg_write MetaReg.session_count (m.session_count)
    reg_write MetaReg.read_count (m.read_count)
    reg_write MetaReg.error_count (m.error_count)
    write_fingerprint (m.fingerprint) 8 0
    reg_write MetaReg.ctrl 2
    wait_for_completion 10000 fuel
    modify (put_cache drive m)

  -- `meta_erase`
  unfoldable pub meta_erase : ℕ → ℕ → MetaCall (Unit {0})
  meta_erase fuel drive = do
    enter_drive drive
    select drive
    reg_write MetaReg.ctrl 4
    wait_for_completion 10000 fuel
    modify (put_cache drive no_metadata)

-- `meta_create_new`, at the time `now`, for pointers that are not NULL.
unfoldable pub create_new : ℕ → List ℕ → Metadata
create_new now print = record no_metadata {
  signature = signature_flxr;
  version = 1;
  fingerprint = print;
  timestamp = now;
  guid = generate_uuid print now;
  valid = true;
  dirty = true;
}

-- `meta_get_defect_list`: the cylinder, the head, the first sector and the number of sectors.
unfoldable pub get_defect_list : {H : Type 0} → ℕ → Meta H → Option (ℕ × ℕ × ℕ × ℕ)
get_defect_list drive s =
    if not (ltb drive 2)
      || not ((meta_at s drive).initialized)
      || not ((meta_at s drive).config.enabled)
    then none
    else some (
      (meta_at s drive).config.cylinder,
      (meta_at s drive).config.head,
      (meta_at s drive).config.start_sector,
      4,
    )
