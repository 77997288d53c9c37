-- ===== src/Tests/Drives.antt =====
-- A concrete set of drives: two 1.44 MB floppies, the second write-protected, and two hard disks of
-- 41820 blocks. The state counts the writes.
use flux_ripper.Base.{ℕ, ◌+◌, ◌==◌, true, none, some, [], ◌∷◌}
use flux_ripper.Msc.Regs.{MscRegs}
use flux_ripper.Msc.Device.{DriveProfile, DriveHal, hal_ok}
use flux_ripper.Msc.State.{Msc, init, blank}

abbrev pub floppy_profile : DriveProfile
floppy_profile = record { form_factor = 1; density = 1; tracks = 80; encoding = 2; valid = true }

abbrev pub drives : DriveHal ℕ
drives = record {
  tracks_40 = 40;
  tracks_77 = 77;
  tracks_80 = 80;
  disk_present = λ h d. true;
  write_protected = λ h d. d == 1;
  get_profile = λ h d. some floppy_profile;
  hdd_is_ready = λ h d. true;
  hdd_total_sectors = λ h d. some 41820;
  meta_read = λ h d. (none, h);
  motor_on = λ h d. (hal_ok, h);
  motor_off = λ h d. (hal_ok, h);
  read_sectors = λ h d lba count. (hal_ok, lba ∷ [], h);
  hdd_read_sectors = λ h d lba count. (hal_ok, lba ∷ [], h);
  write_sectors = λ h d lba bytes count. (hal_ok, h + 1);
  hdd_write_sectors = λ h d lba bytes count. (hal_ok, h + 1);
}

-- The register block after reset, with one media change latched.
abbrev pub power_on : MscRegs
power_on = record {
  reg_ctrl = 0;
  reg_fdd0_geometry = 0x00120b40;
  reg_fdd1_geometry = 0x00120b40;
  reg_hdd0_cap_lo = 0;
  reg_hdd0_cap_hi = 0;
  reg_hdd1_cap_lo = 0;
  reg_hdd1_cap_hi = 0;
  reg_drive_status = 0;
  media_changed_latch = 5;
  int_enable = 3;
  global_int_enable = 1;
  drive_present = 15;
}

abbrev pub powered : Msc ℕ
powered = blank drives power_on 0

abbrev pub started : Msc ℕ
started = init drives powered
