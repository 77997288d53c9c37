-- ===== src/Msc/Irq.antt =====
-- The interrupt handler `msc_config_irq_handler` of soc/firmware/src/msc_config.c, which calls back
-- into the MSC HAL.
pub mod Lost
use flux_ripper.Base.{ℕ, ◌/◌, ◌^◌, Bool, if◌then◌else◌, bit_and}
use flux_ripper.Msc.Regs.{MscReg, MscDrive, drive_no, fdd0, fdd1, hdd0, hdd1, reg_read}
use flux_ripper.Msc.Config.{any_bit, int_clear}
use flux_ripper.Msc.Device.{DriveHal}
use flux_ripper.Msc.State.{Msc}
use flux_ripper.Msc.Hal.{notify_media_changed}

module _ {H : Type 0} (hal : DriveHal H) where
  -- One of the four blocks `if (active & (1 << drive))`; the drive's LUN has its number.
  unfoldable pub serve : ℕ → MscDrive → Msc H → Msc H
  unfolding notify_media_changed int_clear
  serve active d m =
      let notified = notify_media_changed hal (drive_no d) m in
      if any_bit active (2 ^ drive_no d)
      then record notified { regs = int_clear d notified.regs }
      else m

  -- `msc_config_irq_handler`
  unfoldable pub irq_handler : Msc H → Msc H
  unfolding reg_read
  irq_handler m =
      let int_ctrl = reg_read MscReg.int_ctrl m.regs in
      let pending = bit_and (int_ctrl / 16) 15 in
      let enabled = bit_and int_ctrl 15 in
      let active = bit_and pending enabled in
      serve active hdd1 (serve active hdd0 (serve active fdd1 (serve active fdd0 m)))
