-- ===== src/Tests/CableTests.antt =====
-- Two drives on one cable, over the disks of HddTests.
use flux_ripper.Base.{ℕ, ◌≡◌, ◌≢◌, refl, true, false, none, some, arith, any_bit}
use flux_ripper.Act.{returns, resume}
use flux_ripper.Hdd.Cable.{
  SeekState, Cable, select_cable, queue_seek, shared_cable_seek, execute_seek, execute_pending_seek,
  seek_smart,
}
use flux_ripper.Hdd.Cable.Both.{steps_between, seek_sequential, recalibrate_both, seek_interleaved}
use flux_ripper.Hdd.Cable.Stuck.{seek_smart-execute, seek_interleaved_hangs}
use flux_ripper.Hdd.Cable.Ending.{seeks_return}
use flux_ripper.Tests.HddTests.{disks, disks-IsTimed, found}

abbrev queued : SeekState
queued = record { target_cylinder = 100; seek_pending = true; seek_active = false }

abbrev resting : SeekState
resting = record { target_cylinder = 0; seek_pending = false; seek_active = false }

-- A seek of drive 0 to cylinder 100 is queued.
abbrev waiting : Cable ℕ
waiting = record {
  current_ds = 0;
  seek0 = queued;
  seek1 = resting;
  cable_busy = false;
  hdd = found;
}

abbrev held : Cable ℕ
held = record waiting {
  seek0 = record { target_cylinder = 100; seek_pending = false; seek_active = true };
  cable_busy = true;
}

held_run : execute_pending_seek disks waiting ≡ some (returns tt, held)
unfolding execute_pending_seek execute_seek shared_cable_seek select_cable resume any_bit
held_run = refl

seek_smart-execute_example : seek_smart disks 5001 1 7 held ≡ queue_seek disks 1 7 held
seek_smart-execute_example = seek_smart-execute disks 5001 7 waiting held refl held_run

seek_interleaved_hangs_example : seek_interleaved disks 1000 100 0 waiting ≡ none
unfolding steps_between any_bit
seek_interleaved_hangs_example =
    seek_interleaved_hangs disks 1000 100 0 waiting (λ h. refl) (λ e. absurd (omega (arith, e)))

seeks_return_example :
    (seek_smart disks 10001 1 5 waiting ≢ none)
    × (execute_pending_seek disks waiting ≢ none)
    × (seek_sequential disks 10001 5 6 waiting ≢ none)
    × (recalibrate_both disks 10001 waiting ≢ none)
seeks_return_example = seeks_return disks (λ h. h) disks-IsTimed 10001 1 5 6 waiting (omega arith)
