-- ===== src/Msc/Hal/Transfer.antt =====
-- Sector transfers: which accesses reach a drive, and how they are accounted for.
use flux_ripper.Base.{
  ℕ, ◌+◌, ◌%◌, ◌^◌, ◌≤◌, ◌<◌, ◌≡◌, ◌≢◌, Bool, true, false, arith, if◌then◌else◌, List, at,
  at-put_self,
}
use flux_ripper.Msc.Device.{DriveHal, hal_ok}
use flux_ripper.Msc.Lun.{no_drive, fdd, MscStatus, ok, read_error, write_error, LunConfig}
use flux_ripper.Msc.State.{Msc}
use flux_ripper.Msc.Hal.{msc_read, msc_write, get_last_error, get_stats}

-- The access that the firmware means to allow: media present and the blocks inside the unit.
pub record IsAllowed (cfg : LunConfig) (lba count : ℕ) : Type 0 where
  pub present : cfg.present ≡ true
  pub inside : lba + count ≤ cfg.capacity

abbrev pub is_ok : MscStatus → Bool
is_ok ok = true
is_ok _ = false

abbrev pub is_read_error : MscStatus → Bool
is_read_error read_error = true
is_read_error _ = false

module _ {H : Type 0} (hal : DriveHal H) where
  -- A read that returns MSC_OK was of an allowed range, if the sum of its bounds does not wrap.
  pub msc_read-IsAllowed :
      (lun lba count : ℕ) (m : Msc H)
      → lba + count < 2 ^ 32
      → (msc_read hal lun lba count m).0 ≡ ok
      → IsAllowed (at m.luns lun) lba count × (lun < 4)
  unfolding msc_read
  msc_read-IsAllowed lun lba count m p h = ground arith

  -- A write that returns MSC_OK was of an allowed range and not to a write-protected unit, provided that
  -- `lba + count` is below 2 ^ 32, where the range check, which adds in 32 bits, does not wrap.
  pub msc_write-IsAllowed :
      (lun lba : ℕ) (bytes : List ℕ) (count : ℕ) (m : Msc H)
      → lba + count < 2 ^ 32
      → (msc_write hal lun lba bytes count m).0 ≡ ok
      → IsAllowed (at m.luns lun) lba count × (lun < 4) × ((at m.luns lun).readonly ≡ false)
  unfolding msc_write
  msc_write-IsAllowed lun lba bytes count m p h = ground arith

  -- A refused read changes nothing but the last error: the drives, the units, the counters and the
  -- registers are as before.
  pub msc_read_refused :
      (lun lba count : ℕ) (m : Msc H)
      → (msc_read hal lun lba count m).0 ≢ ok
      → (msc_read hal lun lba count m).0 ≢ read_error
      → let (_, _, m') = msc_read hal lun lba count m in
        m' ≡ record m { last_error = m'.last_error }
  unfolding msc_read
  msc_read_refused lun lba count m p q = ground arith

  -- A write that is refused changes nothing but the last error.
  pub msc_write_refused :
      (lun lba : ℕ) (bytes : List ℕ) (count : ℕ) (m : Msc H)
      → (msc_write hal lun lba bytes count m).0 ≢ ok
      → (msc_write hal lun lba bytes count m).0 ≢ write_error
      → let (_, m') = msc_write hal lun lba bytes count m in
        m' ≡ record m { last_error = m'.last_error }
  unfolding msc_write
  msc_write_refused lun lba bytes count m p q = ground arith

  -- The status of a read of a unit with a drive is what `msc_hal_get_last_error` returns then.
  pub get_last_error-msc_read :
      (lun lba count : ℕ) (m : Msc H)
      → lun < 4
      → (at m.luns lun).lun_type ≢ no_drive
      → get_last_error hal lun (msc_read hal lun lba count m).2 ≡ (msc_read hal lun lba count m).0
  unfolding msc_read get_last_error
  get_last_error-msc_read lun lba count m p t = ground (arith, at-put_self m.last_error lun)

  -- The range check adds in 32 bits: a floppy read whose bounds add up to 2 ^ 32 is handed to the
  -- drive and succeeds if the drive says so, however small the unit is.
  pub msc_read_wraps :
      (lun lba count : ℕ) (m : Msc H)
      → lun < 4
      → (at m.luns lun).present ≡ true
      → (at m.luns lun).lun_type ≡ fdd
      → lba + count ≡ 2 ^ 32
      → (hal.read_sectors m.dev (at m.luns lun).drive_index lba count).0 ≡ hal_ok
      → (msc_read hal lun lba count m).0 ≡ ok
  unfolding msc_read
  msc_read_wraps lun lba count m p q t w r = ground arith

  -- Sectors are counted as read exactly when the drive delivers them, and failures as errors.
  pub get_stats-msc_read :
      (lun lba count : ℕ) (m : Msc H)
      → lun < 4
      → let (status, _, m') = msc_read hal lun lba count m in
        let (reads, writes, errors) = get_stats hal lun m in
        get_stats hal lun m' ≡ (
          (if is_ok status then (reads + count) % 2 ^ 32 else reads),
          writes,
          (if is_read_error status then (errors + 1) % 2 ^ 32 else errors),
        )
  unfolding msc_read get_stats
  get_stats-msc_read lun lba count m p =
      ground (arith, at-put_self m.read_count lun, at-put_self m.error_count lun)
