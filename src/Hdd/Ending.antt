-- ===== src/Hdd/Ending.antt =====
-- Every function of soc/firmware/src/hdd_hal.c returns, on hardware whose clock runs.
use flux_ripper.Base.{
  ℕ, zero, suc, ◌+◌, ◌%◌, ◌^◌, ◌≤◌, ◌<◌, ◌≢◌, refl, Bool, true, Option, none, some, arith,
}
use flux_ripper.Wait.{IsClock, Verdict, wait_ends}
use flux_ripper.Act.{
  Outcome, returns, fails, fail, ◌>>◌, Ends, bind-Ends, check-Ends, pure-Ends, step-Ends,
  modify-Ends, gets-Ends, fail-Ends, if-Ends, ◌>>-ends◌,
}
use flux_ripper.Wd.Device.{HalRet, hal_timeout}
use flux_ripper.Hdd.Device.{HddReg, status_of, HddIo}
use flux_ripper.Hdd.State.{hal_not_ready, Profile, Hdd, drive_at}
use flux_ripper.Hdd.Address.{Place, lba_to_chs}
use flux_ripper.Hdd.Seek.{
  Call, hdd_clock, read, poll, write_reg, check_initialized, enter, judge_seek, judge_recalibrate,
  wait_seek_done, select_drive, seek, select_head, recalibrate,
}
use flux_ripper.Hdd.Discovery.{
  judge_detection, judge_discovery, abort_after, or_abort, wait_detection_done, wait_discovery_done,
  detect_interface, force_interface, detect_first, discover,
}
use flux_ripper.Hdd.Read.{judge_data, wait_data, read_sector, read_sectors, read_lba}
use flux_ripper.Hdd.Esdi.{judge_esdi, wait_esdi_done, esdi_get_config, esdi_command}
use flux_ripper.Hdd.Dual.{both_status, judge_both, wait_both, wait_seeks}

-- The clock of the hardware runs, and reading a register takes less than a second.
pub record IsTimed {H : Type 0} (hw : HddIo H) (now : H → ℕ) : Type 0 where
  pub clocked : IsClock (hw.clock) now
  pub reads_after : (r : HddReg) (h : H) → now h ≤ now (hw.read_reg r h).1
  pub reads_soon : (r : HddReg) (h : H) → now (hw.read_reg r h).1 ≤ now h + 500

module _ {H : Type 0} (hw : HddIo H) (now : H → ℕ) (law : IsTimed hw now) where
  hdd_clock-IsClock : IsClock (hdd_clock hw) (λ s. now s.io)
  hdd_clock-IsClock = record {
    reads = λ s. law.clocked.reads (s.io);
    reads_after = λ s. law.clocked.reads_after (s.io);
    reads_soon = λ s. law.clocked.reads_soon (s.io);
    delays = λ n s. law.clocked.delays n (s.io);
    delays_soon = λ n s. law.clocked.delays_soon n (s.io);
  }

  pub poll-Ends :
      (r : HddReg) (judge : ℕ → Verdict (Outcome HalRet (Unit {0}))) (timeout pause fuel : ℕ)
      → 0 < pause
      → timeout + pause < 2 ^ 31
      → timeout < fuel
      → Ends (poll hw r judge timeout pause fuel)
  poll-Ends r judge timeout pause fuel p q l s =
      wait_ends (hdd_clock hw) (λ s. now s.io) hdd_clock-IsClock
        (λ s. let (v, s') = read hw r s in (judge v, s')) (λ s. law.reads_after r (s.io))
        (λ s. omega (arith, law.reads_soon r (s.io))) (fails hal_timeout) timeout pause p q fuel s l

  pub init-Ends : Ends (check_initialized hw)
  init-Ends s = check-Ends (s.initialized) hal_not_ready s

  pub enter-Ends : (d : ℕ) → Ends (enter hw d)
  enter-Ends d = init-Ends >>-ends check-Ends _ _

  both_times :
      (s : Hdd H)
      → (now (s.io) ≤ now ((both_status hw s).1.io))
        × (now ((both_status hw s).1.io) ≤ now (s.io) + 1000)
  both_times s =
      let h = (hw.read_reg HddReg.status0 s.io).1 in
      (
        omega (arith, law.reads_after HddReg.status0 (s.io), law.reads_after HddReg.status1 h),
        omega (arith, law.reads_soon HddReg.status0 (s.io), law.reads_soon HddReg.status1 h),
      )

  data-Ends : (fuel : ℕ) → 1000 < fuel → Ends (wait_data hw fuel)
  unfolding wait_data
  data-Ends fuel l s =
      wait_ends (hdd_clock hw) (λ s. now s.io) hdd_clock-IsClock
        (λ s. let (v, s') = read hw HddReg.sector_status s in (judge_data v, s'))
        (λ s. law.reads_after HddReg.sector_status (s.io))
        (λ s. omega (arith, law.reads_soon HddReg.sector_status (s.io))) (returns tt) 1000 1
        (omega arith) (omega arith) fuel s l

  both-Ends :
      (fuel timeout : ℕ) → timeout < 2 ^ 30 → timeout < fuel → Ends (wait_both hw fuel timeout)
  unfolding wait_both
  both-Ends fuel timeout p l s =
      wait_ends (hdd_clock hw) (λ s. now s.io) hdd_clock-IsClock
        (λ s. let (v, s') = both_status hw s in (judge_both v, s'))
        (λ s. omega (arith, both_times s)) (λ s. omega (arith, both_times s)) (fails hal_timeout)
        timeout 1 (omega arith) (omega arith) fuel s l

  pub seek-Ends : (fuel d c : ℕ) → 5000 < fuel → Ends (seek hw fuel d c)
  unfolding seek wait_seek_done
  seek-Ends fuel d c l =
      let polls = poll-Ends (status_of d) judge_seek 5000 1 fuel (omega arith) (omega arith) l in
      enter-Ends d
      >>-ends bind-Ends (step-Ends _) λ status.
        check-Ends _ _
        >>-ends modify-Ends _
        >>-ends modify-Ends _
        >>-ends polls
        >>-ends modify-Ends _

  pub recalibrate-Ends : (fuel d : ℕ) → 10000 < fuel → Ends (recalibrate hw fuel d)
  unfolding recalibrate
  recalibrate-Ends fuel d l =
      let polls =
        poll-Ends (status_of d) judge_recalibrate 10000 10 fuel (omega arith) (omega arith) l in
      enter-Ends d >>-ends modify-Ends _ >>-ends polls >>-ends modify-Ends _

  pub select_drive-Ends : (d : ℕ) → Ends (select_drive hw d)
  unfolding select_drive
  select_drive-Ends d =
      enter-Ends d >>-ends bind-Ends (step-Ends _) λ _. modify-Ends _ >>-ends modify-Ends _

  pub select_head-Ends : (d h : ℕ) → Ends (select_head hw d h)
  unfolding select_head
  select_head-Ends d h =
      init-Ends >>-ends check-Ends _ _ >>-ends modify-Ends _ >>-ends modify-Ends _

  abort_ends :
      (r : Option (Outcome HalRet (Unit {0}) × Hdd H)) (a : HddReg)
      → r ≢ none
      → abort_after hw r a ≢ none
  unfolding abort_after
  abort_ends none a n = absurd (n refl)
  abort_ends (some (returns u, s)) a n = n
  abort_ends (some (fails e, s)) a n =
      let ends : Ends (write_reg hw a (2 ^ 1) >> fail e) = modify-Ends _ >>-ends fail-Ends e in
      ends s

  or_abort-Ends : (m : Call hw (Unit {0})) (a : HddReg) → Ends m → Ends (or_abort hw m a)
  or_abort-Ends m a p s = abort_ends (m s) a (p s)

  wait_detection-Ends :
      (timeout fuel : ℕ)
      → timeout < 10000
      → timeout < fuel
      → Ends (wait_detection_done hw timeout fuel)
  unfolding wait_detection_done
  wait_detection-Ends timeout fuel p l =
      poll-Ends HddReg.detect_status judge_detection timeout 10 fuel (omega arith) (omega arith) l

  pub detect-Ends : (fuel d : ℕ) (w : Bool) → 2000 < fuel → Ends (detect_interface hw fuel d w)
  unfolding detect_interface
  detect-Ends fuel d w l =
      let waits = wait_detection-Ends 2000 fuel (omega arith) l in
      init-Ends
      >>-ends check-Ends _ _
      >>-ends modify-Ends _
      >>-ends or_abort-Ends (wait_detection_done hw 2000 fuel) HddReg.detect_ctrl waits
      >>-ends bind-Ends (step-Ends _)
          λ _. bind-Ends (step-Ends _) λ _. modify-Ends _ >>-ends pure-Ends _

  pub force-Ends : (fuel t : ℕ) → 2000 < fuel → Ends (force_interface hw fuel t)
  unfolding force_interface
  force-Ends fuel t l =
      let waits = wait_detection-Ends 100 fuel (omega arith) (omega arith) in
      init-Ends >>-ends modify-Ends _ >>-ends modify-Ends _ >>-ends waits >>-ends modify-Ends _

  pub discover-Ends : (fuel d : ℕ) (p : Option Profile) → 60000 < fuel → Ends (discover hw fuel d p)
  unfolding discover detect_first wait_discovery_done
  discover-Ends fuel d none l = init-Ends >>-ends fail-Ends _
  discover-Ends fuel d (some p) l =
      let polls =
        poll-Ends HddReg.discover_status judge_discovery 60000 50 fuel (omega arith) (omega arith)
          l in
      let detects = bind-Ends (detect-Ends fuel d true (omega arith)) λ _. pure-Ends _ in
      let reads =
        bind-Ends (step-Ends _)
          λ _. bind-Ends (step-Ends _) λ _. bind-Ends (step-Ends _) λ _. pure-Ends _ in
      enter-Ends d
      >>-ends if-Ends _ _ _ (pure-Ends tt) detects
      >>-ends (λ s. check-Ends _ _ s)
      >>-ends bind-Ends (step-Ends _) (λ _. bind-Ends (gets-Ends _) λ _. modify-Ends _)
      >>-ends modify-Ends _
      >>-ends or_abort-Ends _ _ polls
      >>-ends bind-Ends reads λ _.
        bind-Ends (bind-Ends (step-Ends _) λ _. bind-Ends (step-Ends _) λ _. pure-Ends _)
          λ _. bind-Ends (gets-Ends _) λ _. modify-Ends _ >>-ends pure-Ends _

  pub read_sector-Ends :
      (fuel d : ℕ) (p : Place) (b : Bool) → 5000 < fuel → Ends (read_sector hw fuel d p b)
  unfolding read_sector wait_data
  read_sector-Ends fuel d p b l =
      let polls : Ends (wait_data hw fuel) = data-Ends fuel (omega arith) in
      init-Ends
      >>-ends check-Ends _ _
      >>-ends if-Ends _ _ _ (pure-Ends tt) (select_drive-Ends d)
      >>-ends if-Ends _ _ _ (pure-Ends tt) (seek-Ends fuel d (p.cylinder) l)
      >>-ends select_head-Ends d (p.head)
      >>-ends modify-Ends _
      >>-ends modify-Ends _
      >>-ends polls
      >>-ends bind-Ends (step-Ends _) λ _. check-Ends _ _ >>-ends modify-Ends _

  read_sectors-Ends : (fuel d n lba : ℕ) → 5000 < fuel → Ends (read_sectors hw fuel d n lba)
  unfolding read_sectors
  read_sectors-Ends fuel d zero lba l s = pure-Ends tt s
  read_sectors-Ends fuel d (suc n) lba l s =
      let p = lba_to_chs ((drive_at s d).profile.geometry) (lba % 2 ^ 32) in
      (read_sector-Ends fuel d p true l >>-ends read_sectors-Ends fuel d n (lba + 1) l) s

  pub read_lba-Ends :
      (fuel d lba n : ℕ) (b : Bool) → 5000 < fuel → Ends (read_lba hw fuel d lba n b)
  unfolding read_lba
  read_lba-Ends fuel d lba n b l =
      init-Ends
      >>-ends check-Ends _ _
      >>-ends (λ s. check-Ends _ _ s)
      >>-ends check-Ends _ _
      >>-ends read_sectors-Ends fuel d n lba l

  pub esdi-Ends :
      (fuel timeout : ℕ) → timeout < 2 ^ 30 → timeout < fuel → Ends (wait_esdi_done hw fuel timeout)
  unfolding wait_esdi_done
  esdi-Ends fuel timeout p l =
      poll-Ends HddReg.esdi_cmd_status judge_esdi timeout 1 fuel (omega arith) (omega arith) l

  pub esdi_get_config-Ends :
      (fuel d : ℕ) (w : Bool) → 1000 < fuel → Ends (esdi_get_config hw fuel d w)
  unfolding esdi_get_config
  esdi_get_config-Ends fuel d w l =
      init-Ends
      >>-ends check-Ends _ _
      >>-ends (λ s. check-Ends _ _ s)
      >>-ends select_drive-Ends d
      >>-ends modify-Ends _
      >>-ends esdi-Ends fuel 1000 (omega arith) l
      >>-ends bind-Ends (step-Ends _) λ _.
        check-Ends _ _
        >>-ends bind-Ends (step-Ends _)
            λ _. bind-Ends (step-Ends _) λ _. modify-Ends _ >>-ends pure-Ends _

  pub esdi_command-Ends : (d o : ℕ) → Ends (esdi_command hw d o)
  unfolding esdi_command
  esdi_command-Ends d o =
      enter-Ends d >>-ends (λ s. check-Ends _ _ s) >>-ends select_drive-Ends d >>-ends modify-Ends _

  pub wait_seeks-Ends :
      (fuel timeout : ℕ) → timeout < 2 ^ 30 → timeout < fuel → Ends (wait_seeks hw fuel timeout)
  unfolding wait_seeks
  wait_seeks-Ends fuel timeout p l =
      init-Ends >>-ends bind-Ends (both-Ends fuel timeout p l) λ _. modify-Ends _
