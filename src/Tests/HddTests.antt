-- ===== src/Tests/HddTests.antt =====
-- The hard disk layer at two drives of 615 cylinders, 4 heads and 17 sectors that are always ready, over
-- hardware whose state is its clock in milliseconds.
use flux_ripper.Base.{
  ℕ, ◌+◌, ◌*◌, ◌%◌, ◌^◌, ◌<◌, ◌≡◌, ◌≢◌, refl, true, false, none, some, arith, any_bit,
}
use flux_ripper.Wait.{wait, wait_from}
use flux_ripper.Act.{returns, resume}
use flux_ripper.Wd.Device.{hal_ok, WdHal}
use flux_ripper.Wd.State.{drq, error_idnf, generic, WdPhase, Wd}
use flux_ripper.Wd.Command.{decode, process_command}
use flux_ripper.Wd.Command.Linked.{linked, process_command_unread}
use flux_ripper.Hdd.Device.{HddReg, HddIo}
use flux_ripper.Hdd.State.{
  Geometry, unpack_detection, geometry_from, health_from, Profile, no_profile, fresh_drive, Hdd,
}
use flux_ripper.Hdd.Seek.{hal_init}
use flux_ripper.Hdd.Discovery.{
  discover, detect_first, detect_interface, wait_detection_done, wait_discovery_done, abort_after,
}
use flux_ripper.Hdd.Address.{Place, chs_to_lba, lba_to_chs}
use flux_ripper.Hdd.Address.Inverse.{IsPlace, lba_to_chs-chs_to_lba}
use flux_ripper.Hdd.Ending.{IsTimed}
use flux_ripper.Hdd.Calls.{init, ready, seeks, discovers, call}
use flux_ripper.Hdd.Calls.Total.{timeout_of, call_returns}
use flux_ripper.Hdd.Calls.Sound.{IsSound}
use flux_ripper.Hdd.Calls.Sound.Reached.{
  power_on, Reached, at_power_on, after, Reached-IsSound, lba_to_chs-Reached,
}

-- Ready, seek done, detected as MFM; the geometry; all done at once.
abbrev reads : HddReg → ℕ
reads HddReg.status0 = 0x201
reads HddReg.status1 = 0x201
reads HddReg.detect_status = 2
reads HddReg.detect_result = 2
reads HddReg.discover_status = 2
reads HddReg.sector_status = 2
reads HddReg.sector_data = 0xE5E5E5E5
reads HddReg.geometry_a = 615 * 2 ^ 16 + 4
reads HddReg.geometry_b = 17
reads _ = 0

abbrev pub disks : HddIo ℕ
disks = record {
  read_reg = λ r h. (reads r, h);
  write_reg = λ r v h. h;
  clock = record { get_time_ms = λ h. (h % 2 ^ 32, h); delay_ms = λ n h. h + n };
}

pub disks-IsTimed : IsTimed disks (λ h. h)
disks-IsTimed = record {
  clocked = record {
    reads = λ h. refl;
    reads_after = λ h. omega arith;
    reads_soon = λ h. omega arith;
    delays = λ n h. omega arith;
    delays_soon = λ n h. omega arith;
  };
  reads_after = λ r h. omega arith;
  reads_soon = λ r h. omega arith;
}

abbrev off : Hdd ℕ
off = power_on 0

-- After `hdd_hal_init` and the discovery of drive 0.
abbrev started : Hdd ℕ
started = record off { initialized = true; io = 10 }

abbrev st225_geometry : Geometry
st225_geometry = record {
  cylinders = 615;
  heads = 4;
  sectors = 17;
  sector_size = 512;
  interleave = 0;
  skew = 0;
  total_sectors = 41820;
  capacity_mb = 20;
  from_esdi_config = false;
}

abbrev found_profile : Profile
found_profile = record no_profile {
  detection = record (no_profile.detection) { drive_type = 2 };
  geometry = st225_geometry;
  health = record (no_profile.health) { ready = true; spinning = true };
  valid = true;
}

abbrev pub found : Hdd ℕ
found = record started {
  drive0 = record fresh_drive { profile = found_profile; detection_done = true };
}

started_run : call disks 60001 init off ≡ some (returns tt, started)
unfolding call hal_init resume
started_run = refl

found_run : call disks 60001 (discovers 0 (some no_profile)) started ≡ some (returns tt, found)
unfolding call discover detect_first detect_interface wait_detection_done wait_discovery_done
    abort_after wait wait_from resume any_bit unpack_detection geometry_from health_from
found_run = refl

found-Reached : Reached disks found
found-Reached =
    after 60001 (discovers 0 (some no_profile)) (returns tt) started found
      (after 60001 init (returns tt) off started (at_power_on 0) started_run) found_run

Reached-IsSound_example : IsSound found
Reached-IsSound_example = Reached-IsSound disks found found-Reached

lba_to_chs-Reached_example :
    IsPlace st225_geometry (lba_to_chs st225_geometry 41819)
    × (chs_to_lba st225_geometry (lba_to_chs st225_geometry 41819) ≡ 41819)
lba_to_chs-Reached_example =
    lba_to_chs-Reached disks found 0 41819 found-Reached (omega arith) (omega arith) (omega arith)

abbrev last_place : Place
last_place = record { cylinder = 614; head = 3; sector = 17 }

lba_to_chs-chs_to_lba_example :
    (chs_to_lba st225_geometry last_place < 41820)
    × (lba_to_chs st225_geometry (chs_to_lba st225_geometry last_place) ≡ last_place)
lba_to_chs-chs_to_lba_example =
    lba_to_chs-chs_to_lba st225_geometry last_place
      (record {
        cylinders_fit = omega arith;
        heads_positive = omega arith;
        heads_fit = omega arith;
        sectors_positive = omega arith;
        sectors_fit = omega arith;
      })
      (record {
        cylinder_fits = omega arith;
        head_fits = omega arith;
        sector_positive = omega arith;
        sector_fits = omega arith;
      })

call_returns_example : call disks 60001 (seeks 0 300) found ≢ none
unfolding timeout_of
call_returns_example =
    call_returns disks (λ h. h) disks-IsTimed 60001 (seeks 0 300) found (omega arith) (omega arith)
      (omega arith)

-- The controller of the PC over these disks: its registers read 0.
abbrev controller : WdHal (Hdd ℕ)
controller = record {
  reg_read = λ r s. (0, s);
  reg_write = λ r v s. s;
  store_identify = λ block s. s;
  past_literal = λ literal i. 0;
  hdd_hal_init = λ s. (hal_ok, s);
  hdd_get_profile = λ d s. (none, s);
  hdd_select_drive = λ d s. s;
  hdd_recalibrate = λ d s. (hal_ok, s);
  hdd_seek = λ d c s. (hal_ok, s);
  hdd_read_sector = λ d c h n s. (hal_ok, s);
  hdd_is_ready = λ d s. (true, s);
  hdd_get_status = λ d s. (none, s);
}

-- Cylinder 3, head 3, sector 17 of drive 0, with two sectors asked for.
abbrev asking : Wd (Hdd ℕ)
asking = record {
  phase = WdPhase.idle;
  status = 0x50;
  error_reg = 0;
  command_reg = 0;
  drive = 0;
  head = 3;
  cylinder = 3;
  sector = 17;
  sector_count = 2;
  bytes_pending = 0;
  irq_pending = false;
  cfg = record {
    variant = generic;
    features = 0x1FF;
    step_rate = 0;
    head_settle = 0;
    irq_enabled = true;
    buffer_enabled = true;
  };
  diag_result = record {
    code = 1;
    drive0_ok = true;
    drive1_ok = true;
    controller_ok = true;
    buffer_ok = true;
    error_count = 0;
  };
  geometry0 = record { cylinders = 615; heads = 4; sectors = 17; valid = true };
  geometry1 = record { cylinders = 615; heads = 4; sectors = 17; valid = false };
  buffer_offset = 0;
  hw = found;
}

process_command_unread_example :
    ((process_command (linked controller disks 5001) 0x20 asking).0 ≢ hal_ok)
    × ((process_command (linked controller disks 5001) 0x20 asking).1.error_reg ≡ error_idnf)
    × (any_bit ((process_command (linked controller disks 5001) 0x20 asking).1.status) drq ≡ false)
unfolding decode
process_command_unread_example = process_command_unread controller disks 5001 0x20 asking refl
