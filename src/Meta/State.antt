-- ===== src/Meta/State.antt =====
-- The data of soc/firmware/include/hdd_metadata.h and the statics of soc/firmware/src/hdd_metadata.c. Bytes
-- and characters are numbers, and arrays are lists of them.
use flux_ripper.Base.{ℕ, ◌==◌, if◌then◌else◌, Bool, false, List, replicate}

-- `uuid_t`; the array `data4` has 8 bytes.
pub record Uuid : Type 0 where
  pub data1 : ℕ
  pub data2 : ℕ
  pub data3 : ℕ
  pub data4 : List ℕ

-- `diag_session_t`; `type` is `kind`.
pub record Session : Type 0 where
  pub timestamp : ℕ
  pub kind : ℕ
  pub duration_sec : ℕ
  pub errors : ℕ
  pub warnings : ℕ

-- `drive_identity_t`, without its padding: arrays of 16, 24, 20, 8 and 8 characters.
pub record Identity : Type 0 where
  pub vendor : List ℕ
  pub model : List ℕ
  pub serial : List ℕ
  pub date_code : List ℕ
  pub revision : List ℕ

-- `hdd_metadata_t`; the fingerprint is its 32 bytes, and there are 16 sessions and 64 characters of notes.
pub record Metadata : Type 0 where
  pub signature : ℕ
  pub version : ℕ
  pub guid : Uuid
  pub timestamp : ℕ
  pub flags : ℕ
  pub identity : Identity
  pub fingerprint : List ℕ
  pub session_count : ℕ
  pub read_count : ℕ
  pub error_count : ℕ
  pub sessions : List Session
  pub user_notes : List ℕ
  pub valid : Bool
  pub dirty : Bool

-- `meta_config_t`
pub record MetaConfig : Type 0 where
  pub cylinder : ℕ
  pub head : ℕ
  pub start_sector : ℕ
  pub enabled : Bool
  pub auto_write : Bool
  pub generate_guid_on_first : Bool

-- What `g_meta` has for one drive.
pub record DriveMeta : Type 0 where
  pub initialized : Bool
  pub config : MetaConfig
  pub cache : Metadata

-- `g_meta`, and the hardware.
pub record Meta (H : Type 0) : Type 0 where
  pub meta0 : DriveMeta
  pub meta1 : DriveMeta
  pub io : H

-- What `memset` leaves.
abbrev pub no_session : Session
no_session = record { timestamp = 0; kind = 0; duration_sec = 0; errors = 0; warnings = 0 }

abbrev pub no_metadata : Metadata
no_metadata = record {
  signature = 0;
  version = 0;
  guid = record { data1 = 0; data2 = 0; data3 = 0; data4 = replicate 8 0 };
  timestamp = 0;
  flags = 0;
  identity = record {
    vendor = replicate 16 0;
    model = replicate 24 0;
    serial = replicate 20 0;
    date_code = replicate 8 0;
    revision = replicate 8 0;
  };
  fingerprint = replicate 32 0;
  session_count = 0;
  read_count = 0;
  error_count = 0;
  sessions = replicate 16 no_session;
  user_notes = replicate 64 0;
  valid = false;
  dirty = false;
}

module _ {H : Type 0} where
  -- `g_meta.x[drive]`; the drive is 0 or 1.
  abbrev pub meta_at : Meta H → ℕ → DriveMeta
  meta_at s drive = if drive == 0 then s.meta0 else s.meta1

  abbrev pub put_meta : ℕ → DriveMeta → Meta H → Meta H
  put_meta drive d s = if drive == 0 then record s { meta0 = d } else record s { meta1 = d }
