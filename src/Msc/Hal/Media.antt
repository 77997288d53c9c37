-- ===== src/Msc/Hal/Media.antt =====
-- What becomes of a media change that the interrupt handler reports to the MSC HAL.
use flux_ripper.Base.{ℕ, zero, suc, ◌<◌, ◌≡◌, false, arith, leb}
use flux_ripper.Msc.Device.{DriveHal}
use flux_ripper.Msc.Lun.{lun_to_drive}
use flux_ripper.Msc.State.{Msc}
use flux_ripper.Msc.Hal.{media_changed, notify_media_changed}
use flux_ripper.Msc.Hal.Invariant.{IsConfigured}

module _ {H : Type 0} (hal : DriveHal H) where
  -- A change notified for a configured unit is reported by the next query for a hard disk, and is
  -- lost for a floppy, where the rescan of the drive clears the flag again. A second query reports
  -- nothing in either case.
  pub media_changed-notify :
      (lun : ℕ) (m : Msc H)
      → lun < 4
      → IsConfigured m
      → let (seen, m') = media_changed hal lun (notify_media_changed hal lun m) in
        (seen ≡ leb 2 lun) × ((media_changed hal lun m').0 ≡ false)
  unfolding media_changed notify_media_changed lun_to_drive
  media_changed-notify zero m p h = ground (arith, h.0.kind)
  media_changed-notify (suc zero) m p h = ground (arith, h.1.kind)
  media_changed-notify (suc (suc zero)) m p h = ground (arith, h.2.kind)
  media_changed-notify (suc (suc (suc zero))) m p h = ground (arith, h.3.kind)
  media_changed-notify (suc (suc (suc (suc lun)))) m p h = absurd (omega arith)
