-- ===== src/Meta.antt =====
-- soc/firmware/src/hdd_metadata.c: the metadata that FluxRipper keeps on hidden sectors of a hard disk. The
-- data (State), diagnostic sessions (Session), identifiers (Uuid), labels and notes (Label), and the
-- operations on the drive (Storage).
pub mod State
pub mod Session
pub mod Uuid
pub mod Label
pub mod Storage
