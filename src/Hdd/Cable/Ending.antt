-- ===== src/Hdd/Cable/Ending.antt =====
-- The seeks of soc/firmware/src/hdd_dual_hal.c that return.
use flux_ripper.Base.{
  ℕ, ◌^◌, ◌<◌, ◌≢◌, refl, arith, Bool, true, false, if◌then◌else◌, Option, none, some,
}
use flux_ripper.Act.{
  Act, Outcome, pure, ◌>>◌, Ends, bind-Ends, check-Ends, pure-Ends, step-Ends, modify-Ends,
  gets-Ends, fail-Ends, if-Ends, ◌>>-ends◌,
}
use flux_ripper.Wd.Device.{HalRet}
use flux_ripper.Hdd.Device.{status_of, cmd_of, cyl_pos_of, HddIo}
use flux_ripper.Hdd.State.{hal_not_ready, Hdd}
use flux_ripper.Hdd.Seek.{judge_seek, wait_seek_done, select_drive}
use flux_ripper.Hdd.Ending.{IsTimed, poll-Ends, select_drive-Ends}
use flux_ripper.Hdd.Cable.{
  Cable, release_after, lifted, CableCall, below, reg_write, select_cable, drive_enabled,
  finish_seek, shared_cable_seek, queue_seek, execute_seek, execute_pending_seek, seek_smart,
}
use flux_ripper.Hdd.Cable.Both.{
  select_anyway, if_enabled, seek_phase, seek_sequential, recalibrate_phase, recalibrate_both,
}

module _ {H : Type 0} (hw : HddIo H) (now : H → ℕ) (law : IsTimed hw now) where
  lifted_ends :
      {A : Type 0} (r : Option (Outcome HalRet A × Hdd H)) (s : Cable H)
      → r ≢ none
      → lifted r s ≢ none
  unfolding lifted
  lifted_ends none s n = absurd (n refl)
  lifted_ends (some (o, h)) s n = ground arith

  below-Ends : {A : Type 0} (m : Act HalRet (Hdd H) A) → Ends m → Ends (below hw m)
  below-Ends m p s = lifted_ends (m (s.hdd)) s (p (s.hdd))

  release_ends :
      (drive : ℕ) (r : Option (Outcome HalRet (Unit {0}) × Cable H))
      → r ≢ none
      → release_after drive r ≢ none
  unfolding release_after
  release_ends drive none n = absurd (n refl)
  release_ends drive (some (o, s)) n = ground arith

  wait-Ends :
      (drive timeout fuel : ℕ)
      → timeout < 20000
      → timeout < fuel
      → Ends (wait_seek_done hw drive timeout fuel)
  unfolding wait_seek_done
  wait-Ends drive timeout fuel p l =
      poll-Ends hw now law (status_of drive) judge_seek timeout 1 fuel (omega arith) (omega arith) l

  select_cable-Ends : (drive : ℕ) → Ends (select_cable hw drive)
  unfolding select_cable
  select_cable-Ends drive = if-Ends _ _ _ (pure-Ends tt) (
      bind-Ends (step-Ends _) λ _.
        modify-Ends _
        >>-ends modify-Ends _
        >>-ends below-Ends (select_drive hw drive) (select_drive-Ends hw now law drive))

  finish_seek-Ends :
      (fuel drive cylinder : ℕ) → 5000 < fuel → Ends (finish_seek hw fuel drive cylinder)
  unfolding finish_seek
  finish_seek-Ends fuel drive cylinder l =
      (λ s. release_ends drive _ (
        below-Ends (wait_seek_done hw drive 5000 fuel) (wait-Ends drive 5000 fuel (omega arith) l)
          s))
      >>-ends modify-Ends _

  choice-Ends :
      (b : Bool) (m k : CableCall hw (Unit {0})) → Ends m → Ends k → Ends (if b then m else k)
  choice-Ends true m k p q = p
  choice-Ends false m k p q = q

  shared-Ends :
      (fuel drive cylinder : ℕ) (waits : Bool)
      → Ends (if waits then finish_seek hw fuel drive cylinder else pure tt)
      → Ends (shared_cable_seek hw fuel drive cylinder waits)
  unfolding shared_cable_seek
  shared-Ends fuel drive cylinder waits p =
      check-Ends _ _
      >>-ends select_cable-Ends drive
      >>-ends modify-Ends _
      >>-ends bind-Ends (step-Ends _) λ _.
        choice-Ends _ _ _ (pure-Ends tt) (modify-Ends _ >>-ends fail-Ends hal_not_ready)
        >>-ends modify-Ends _
        >>-ends modify-Ends _
        >>-ends p

  queue_seek-Ends : (drive cylinder : ℕ) → Ends (queue_seek hw drive cylinder)
  unfolding queue_seek
  queue_seek-Ends drive cylinder =
      check-Ends _ _ >>-ends modify-Ends _ >>-ends bind-Ends (step-Ends _) λ _. modify-Ends _

  execute_seek-Ends : (drive : ℕ) → Ends (execute_seek hw drive)
  unfolding execute_seek
  execute_seek-Ends drive =
      modify-Ends _
      >>-ends bind-Ends (step-Ends _) λ _.
        modify-Ends _
        >>-ends bind-Ends (gets-Ends _) λ target. shared-Ends 0 drive target false (pure-Ends tt)

  seek_smart-Ends :
      (fuel drive cylinder : ℕ) → 5000 < fuel → Ends (seek_smart hw fuel drive cylinder)
  unfolding seek_smart
  seek_smart-Ends fuel drive cylinder l =
      check-Ends _ _
      >>-ends if-Ends _ _ _ (queue_seek-Ends drive cylinder)
          (shared-Ends fuel drive cylinder true (finish_seek-Ends fuel drive cylinder l))

  if_Ends :
      (b : Bool) (m : CableCall hw (Unit {0})) (s : Cable H)
      → Ends m
      → (if b then m s else pure tt s) ≢ none
  if_Ends true m s p = p s
  if_Ends false m s p = pure-Ends tt s

  enabled-Ends : (drive : ℕ) (m : CableCall hw (Unit {0})) → Ends m → Ends (if_enabled hw drive m)
  enabled-Ends drive m p s =
      if_Ends ((drive_enabled hw drive s).0) m ((drive_enabled hw drive s).1) p

  seek_phase-Ends :
      (fuel drive cylinder : ℕ) → 5000 < fuel → Ends (seek_phase hw fuel drive cylinder)
  unfolding seek_phase
  seek_phase-Ends fuel drive cylinder l = enabled-Ends drive _ (
      select_cable-Ends drive
      >>-ends modify-Ends _
      >>-ends modify-Ends _
      >>-ends below-Ends (wait_seek_done hw drive 5000 fuel)
          (wait-Ends drive 5000 fuel (omega arith) l)
      >>-ends modify-Ends _)

  recalibrate_phase-Ends : (fuel drive : ℕ) → 10000 < fuel → Ends (recalibrate_phase hw fuel drive)
  unfolding recalibrate_phase
  recalibrate_phase-Ends fuel drive l =
      let phase : CableCall hw (Unit {0}) = do
        select_anyway hw drive
        reg_write hw (cmd_of drive) (2 ^ 1)
        below hw (wait_seek_done hw drive 10000 fuel)
        reg_write hw (cyl_pos_of drive) 0
      in let ends : Ends phase =
          modify-Ends _
          >>-ends modify-Ends _
          >>-ends below-Ends (wait_seek_done hw drive 10000 fuel)
              (wait-Ends drive 10000 fuel (omega arith) l)
          >>-ends modify-Ends _ in
        enabled-Ends drive _ ends

  -- On hardware whose clock runs, and with more rounds for each wait than the longest timeout has
  -- milliseconds, the seek that may be queued, the start of a queued seek, the seeks of both drives one after
  -- the other, and the recalibration of both return.
  pub seeks_return :
      (fuel drive c0 c1 : ℕ) (s : Cable H)
      → 10000 < fuel
      → (seek_smart hw fuel drive c0 s ≢ none)
        × (execute_pending_seek hw s ≢ none)
        × (seek_sequential hw fuel c0 c1 s ≢ none)
        × (recalibrate_both hw fuel s ≢ none)
  unfolding execute_pending_seek seek_sequential recalibrate_both
  seeks_return fuel drive c0 c1 s l =
      let five : 5000 < fuel = omega arith in
      (
        seek_smart-Ends fuel drive c0 five s,
        if-Ends (λ s. s.seek0.seek_pending) _ _ (execute_seek-Ends 0)
            (if-Ends (λ s. s.seek1.seek_pending) _ _ (execute_seek-Ends 1) (pure-Ends tt)) s,
        (seek_phase-Ends fuel 0 c0 five >>-ends seek_phase-Ends fuel 1 c1 five) s,
        (recalibrate_phase-Ends fuel 0 l >>-ends recalibrate_phase-Ends fuel 1 l) s,
      )
