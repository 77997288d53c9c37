-- ===== src/Hdd/Cable/Stuck.antt =====
-- Two ways in which soc/firmware/src/hdd_dual_hal.c gets stuck.
use flux_ripper.Base.{
  ℕ, ◌≡◌, ◌≢◌, arith, refl, sym, ap, ◌∙◌, subst, zero, suc, Bool, true, false, ◌==◌, if◌then◌else◌,
  any_bit, Option, none, some,
}
use flux_ripper.Act.{Outcome, returns, fails, resume, pure, fail, modify, ◌>>◌}
use flux_ripper.Act.Triples.{
  Post, Triple, bind-Triple, ◌>>-keeps◌, if-Triple, check-Triple, pure-Triple, fail-Triple,
  step-Triple, modify-Triple,
}
use flux_ripper.Wd.Device.{HalRet}
use flux_ripper.Hdd.Device.{HddReg, HddIo}
use flux_ripper.Hdd.State.{hal_not_ready, Hdd}
use flux_ripper.Hdd.Seek.{select_drive}
use flux_ripper.Hdd.Cable.{
  Cable, release, lifted, choose, read_cable, reg_write, select_cable, drive_enabled, queue_seek,
  execute_seek, execute_pending_seek, shared_cable_seek, seek_smart, mark_active,
}
use flux_ripper.Hdd.Cable.Both.{
  steps_between, step_drive, interleave, seek_sequential, seek_interleaved,
}

abbrev Any : {H : Type 0} → Cable H → Type 0
Any s = Unit {0}

module _ {H : Type 0} (hw : HddIo H) (drive : ℕ) where
  -- The drive is on the cable, and the cable is held.
  abbrev On : Cable H → Type 0
  On s = s.current_ds ≡ drive

  abbrev Held : Cable H → Type 0
  Held s = (s.current_ds ≡ drive) × (s.cable_busy ≡ true)

  lifted-Post :
      {A : Type 0} (r : Option (Outcome HalRet A × Hdd H)) (s : Cable H)
      → s.current_ds ≡ drive
      → Post (λ _. On) Any (lifted r s)
  unfolding Post lifted
  lifted-Post none s p = tt
  lifted-Post (some (returns a, h)) s p = p
  lifted-Post (some (fails e, h)) s p = tt

  select_cable-Triple : Triple Any (select_cable hw drive) (λ _. On) Any
  unfolding select_cable
  select_cable-Triple =
      if-Triple (λ s. drive == s.current_ds) (pure tt) _ (pure-Triple tt λ s (_, e). ground arith)
        (bind-Triple (λ _. Any) (step-Triple _ λ s _. tt)
          λ _.
            modify-Triple {Q = Any} _ (λ s _. tt)
            >>-keeps bind-Triple (λ _. On) (modify-Triple _ λ s _. refl)
                λ _. record { holds = λ s p. lifted-Post (select_drive hw drive s.hdd) s p })

  hold-Triple :
      (cylinder : ℕ) → Triple {E = HalRet} On (modify (mark_active drive cylinder)) (λ _. Held) Any
  hold-Triple cylinder = modify-Triple _ λ s p. held s p
    where
      held : (s : Cable H) → On s → Held (mark_active drive cylinder s)
      held s p = ground arith

  write-Held : (r : HddReg) (v : ℕ) → Triple Held (reg_write hw r v) (λ _. Held) Any
  write-Held r v = modify-Triple _ λ s p. p

  -- A seek that does not wait holds the cable when it returns without an error.
  start-Held :
      (fuel cylinder : ℕ)
      → Triple Any (shared_cable_seek hw fuel drive cylinder false) (λ _. Held) Any
  unfolding shared_cable_seek
  start-Held fuel cylinder =
      check-Triple _ _ (λ s p. p)
      >>-keeps bind-Triple (λ _. On) select_cable-Triple
          λ _.
            bind-Triple (λ _. Held) (hold-Triple cylinder)
              λ _.
                bind-Triple (λ _. Held) (step-Triple _ λ s p. p)
                  λ status.
                    bind-Triple (λ _. Held) (ready (any_bit status 1))
                      λ _. write-Held _ _ >>-keeps write-Held _ _ >>-keeps pure-Triple tt λ s p. p
    where
      ready :
          (b : Bool)
          → Triple {E = HalRet} Held
              (if b then pure tt else (modify (release drive) >> fail hal_not_ready))
              (λ _. Held)
              Any
      ready true = pure-Triple tt λ s p. p
      ready false = bind-Triple (λ _. Any) (modify-Triple _ λ s p. tt) λ _. fail-Triple _ λ s p. p

module _ {H : Type 0} (hw : HddIo H) where
  execute_seek-Held : Triple Any (execute_seek hw 0) (λ _. Held hw 0) Any
  unfolding execute_seek
  execute_seek-Held =
      bind-Triple (λ _. Any) (modify-Triple _ λ s p. tt)
        λ _.
          bind-Triple (λ _. Any) (step-Triple _ λ s p. tt)
            λ _.
              bind-Triple (λ _. Any) (modify-Triple _ λ s p. tt)
                λ _.
                  bind-Triple (λ _. Any) (step-Triple _ λ s p. tt)
                    λ target. start-Held hw 0 0 target

  queues :
      (fuel cylinder : ℕ) (s : Cable H)
      → Held hw 0 s
      → seek_smart hw fuel 1 cylinder s ≡ queue_seek hw 1 cylinder s
  unfolding seek_smart resume
  queues fuel cylinder s (on, busy) = ground (arith, on, busy)

  -- A seek of drive 0 that `hdd_execute_pending_seek` has started, without an error, holds the cable in the
  -- state that is left, whether or not the drive arrives: from there `hdd_seek_smart` does for drive 1 what
  -- `hdd_queue_seek` does, and seeks nothing.
  pub seek_smart-execute :
      (fuel cylinder : ℕ) (s s' : Cable H)
      → s.seek0.seek_pending ≡ true
      → execute_pending_seek hw s ≡ some (returns tt, s')
      → seek_smart hw fuel 1 cylinder s' ≡ queue_seek hw 1 cylinder s'
  unfolding execute_pending_seek Post
  seek_smart-execute fuel cylinder s s' p e =
      let held = execute_seek-Held.holds s tt in
      let others = choose (λ s. s.seek1.seek_pending) (execute_seek hw 1) (pure tt) s in
      let run : execute_seek hw 0 s ≡ some (returns tt, s') =
        sym (ap (λ b. if b then execute_seek hw 0 s else others) p) ∙ e in
      queues fuel cylinder s' (subst (Post (λ _. Held hw 0) Any) run held)

  idle-step_drive :
      (n : ℕ) (s : Cable H)
      → ((h : H) → any_bit (hw.read_reg HddReg.drive_mux h).0 2 ≡ false)
      → (step_drive hw 0 (suc n) s).0 ≡ suc n
  unfolding step_drive drive_enabled
  idle-step_drive n s off = ground (arith, off (s.hdd.io))

  idle-interleave :
      (fuel n0 n1 : ℕ) (s : Cable H)
      → ((h : H) → any_bit (hw.read_reg HddReg.drive_mux h).0 2 ≡ false)
      → interleave hw fuel (suc n0) n1 s ≡ none
  unfolding interleave
  idle-interleave zero n0 n1 s off = refl
  idle-interleave (suc fuel) n0 n1 s off =
      let r0 = step_drive hw 0 (suc n0) s in
      let r1 = step_drive hw 1 n1 r0.1 in
      let rest : interleave hw fuel r0.0 r1.0 r1.1 ≡ none =
        subst (λ m. interleave hw fuel m r1.0 r1.1 ≡ none) (sym (idle-step_drive n0 s off))
          (idle-interleave fuel n0 r1.0 r1.1 off) in
      ground (arith, rest)

  -- `hdd_seek_dual_interleaved` does not return, however many rounds its loop gets, if drive 0 reads as
  -- disabled and is at another cylinder than the one asked for, and not 32768 cylinders from it.
  pub seek_interleaved_hangs :
      (fuel cylinder0 cylinder1 : ℕ) (s : Cable H)
      → ((h : H) → any_bit (hw.read_reg HddReg.drive_mux h).0 2 ≡ false)
      → steps_between cylinder0 ((hw.read_reg HddReg.cyl_pos0 s.hdd.io).0) ≢ 0
      → seek_interleaved hw fuel cylinder0 cylinder1 s ≡ none
  unfolding seek_interleaved resume
  seek_interleaved_hangs fuel cylinder0 cylinder1 s off far =
      let (v0, s1) = read_cable hw HddReg.cyl_pos0 s in
      let (v1, s2) = read_cable hw HddReg.cyl_pos1 s1 in
      let n1 = steps_between cylinder1 v1 in
      let hangs : (n0 : ℕ) → n0 ≢ 0 → interleave hw fuel n0 n1 s2 ≡ none = hang n1 s2 in
      ap (λ r. resume r (λ _. seek_sequential hw fuel cylinder0 cylinder1))
        (hangs (steps_between cylinder0 v0) far)
    where
      hang : (n1 : ℕ) (s2 : Cable H) (n0 : ℕ) → n0 ≢ 0 → interleave hw fuel n0 n1 s2 ≡ none
      hang n1 s2 zero q = absurd (q refl)
      hang n1 s2 (suc n0) q = idle-interleave fuel n0 n1 s2 off
