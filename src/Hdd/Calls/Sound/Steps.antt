-- ===== src/Hdd/Calls/Sound/Steps.antt =====
-- Each function of soc/firmware/src/hdd_hal.c keeps the state sound.
use flux_ripper.Base.{
  ℕ, zero, suc, ◌+◌, ◌/◌, ◌%◌, ◌^◌, ◌<◌, ◌≡◌, arith, Bool, true, ◌&&◌, ◌==◌, ltb,
}
use flux_ripper.Wait.{Verdict}
use flux_ripper.Act.{Outcome, returns, fails, pure, check, modify}
use flux_ripper.Act.Triples.{
  Triple, weaken_left, bind-Triple, ◌>>-keeps◌, if-Triple, check-Triple, tested-Triple, pure-Triple,
  step-Triple, modify-Triple,
}
use flux_ripper.Wd.Device.{HalRet, hal_timeout}
use flux_ripper.Hdd.Device.{HddReg, status_of, HddIo}
use flux_ripper.Hdd.State.{
  hal_invalid, hal_not_ready, DriveState, Hdd, valid_drive, drive_at, put_drive,
}
use flux_ripper.Hdd.Address.{Place, lba_to_chs}
use flux_ripper.Hdd.Seek.{
  Call, read_reg, write_reg, poll, check_initialized, enter, judge_seek, judge_recalibrate,
  put_cylinder, wait_seek_done, hal_init, select_drive, seek, select_head, recalibrate,
}
use flux_ripper.Hdd.Read.{
  size_of, judge_data, wait_data, copy_words, read_sector, read_sectors, read_lba,
}
use flux_ripper.Hdd.Framing.{init-Triple, enter-Triple, write-Triple, read-Triple, poll-Triple}
use flux_ripper.Hdd.Calls.Sound.{
  IsDrive, Sound, fresh_drive-IsDrive, Sound-io, drive_at-IsDrive, put_drive-Sound,
}

abbrev pub same : {H : Type 0} (s : Hdd H) → Sound s → Sound s
same s p = p

module _ {H : Type 0} (hw : HddIo H) where
  abbrev pub Keeps : {A : Type 0} → Call hw A → Type 0
  Keeps m = Triple Sound m (λ _. Sound) Sound

  pub init-Keeps : Keeps (check_initialized hw)
  init-Keeps = init-Triple hw Sound Sound Sound-io same

  pub enter-Keeps : (drive : ℕ) → Keeps (enter hw drive)
  enter-Keeps = enter-Triple hw Sound Sound Sound-io same

  pub write-Keeps : (r : HddReg) (v : ℕ) → Keeps (write_reg hw r v)
  write-Keeps = write-Triple hw Sound Sound Sound-io same

  pub read-Keeps : (r : HddReg) → Keeps (read_reg hw r)
  read-Keeps = read-Triple hw Sound Sound Sound-io same

  pub check-Keeps : (b : Bool) (e : HalRet) → Keeps (check b e)
  check-Keeps b e = check-Triple b e same

  pub poll-Keeps :
      (r : HddReg) (judge : ℕ → Verdict (Outcome HalRet (Unit {0}))) (timeout pause fuel : ℕ)
      → Keeps (poll hw r judge timeout pause fuel)
  poll-Keeps r judge = poll-Triple hw Sound Sound Sound-io same r judge (fails hal_timeout)

  -- A change of a drive that leaves its geometry and gives no head out of range.
  pub put-Keeps :
      (drive : ℕ) (f : DriveState → DriveState)
      → ((d : DriveState) → IsDrive d → IsDrive (f d))
      → Keeps (modify λ s. put_drive drive (f (drive_at s drive)) s)
  put-Keeps drive f q =
      modify-Triple _
        λ s p. put_drive-Sound drive (f (drive_at s drive)) s (q _ (drive_at-IsDrive drive s p)) p

  pub hal_init-Keeps : Keeps (hal_init hw)
  unfolding hal_init
  hal_init-Keeps =
      if-Triple (λ s. s.initialized) (pure tt) _ (weaken_left (pure-Triple tt same))
        (weaken_left (
          write-Keeps HddReg.ctrl 0
          >>-keeps write-Keeps HddReg.detect_ctrl 0
          >>-keeps modify-Triple _ (λ s p. Sound-io (hw.clock.delay_ms 10 s.io) s p)
          >>-keeps modify-Triple _ (λ s p. record {
            active_fits = omega arith;
            sound0 = fresh_drive-IsDrive;
            sound1 = fresh_drive-IsDrive;
          })
          >>-keeps write-Keeps HddReg.ctrl 1))

  pub select_drive-Keeps : (drive : ℕ) → Keeps (select_drive hw drive)
  unfolding select_drive
  select_drive-Keeps drive =
      bind-Triple (λ _ s. Sound s × (valid_drive drive ≡ true))
        (init-Keeps >>-keeps tested-Triple (valid_drive drive) hal_invalid same)
        λ _.
          bind-Triple (λ _ s. Sound s × (valid_drive drive ≡ true))
            (step-Triple _ λ s (p, e). (Sound-io _ s p, e))
            λ _.
              bind-Triple (λ _ s. Sound s × (valid_drive drive ≡ true))
                (modify-Triple _ λ s (p, e). (Sound-io _ s p, e))
                λ _. modify-Triple _ λ s (p, e). record {
                  active_fits = ground arith;
                  sound0 = p.sound0;
                  sound1 = p.sound1;
                }

  put_cylinder-Keeps : (drive c : ℕ) → Keeps (modify (put_cylinder drive c))
  put_cylinder-Keeps drive c =
      put-Keeps drive (λ d. record d { current_cylinder = c })
        λ d p. record { geometry_counted = p.geometry_counted; head_fits = p.head_fits }

  pub seek-Keeps : (fuel drive c : ℕ) → Keeps (seek hw fuel drive c)
  unfolding seek wait_seek_done
  seek-Keeps fuel drive c =
      enter-Keeps drive
      >>-keeps bind-Triple (λ _. Sound) (read-Keeps (status_of drive))
          λ _.
            check-Keeps _ _
            >>-keeps write-Keeps _ _
            >>-keeps write-Keeps _ _
            >>-keeps poll-Keeps (status_of drive) judge_seek 5000 1 fuel
            >>-keeps put_cylinder-Keeps drive c

  pub recalibrate-Keeps : (fuel drive : ℕ) → Keeps (recalibrate hw fuel drive)
  unfolding recalibrate
  recalibrate-Keeps fuel drive =
      enter-Keeps drive
      >>-keeps write-Keeps _ _
      >>-keeps poll-Keeps (status_of drive) judge_recalibrate 10000 10 fuel
      >>-keeps put_cylinder-Keeps drive 0

  pub select_head-Keeps : (drive head : ℕ) → Keeps (select_head hw drive head)
  unfolding select_head
  select_head-Keeps drive head =
      let fits : (valid_drive drive && ltb head 16) ≡ true → head < 16 = λ e. ground arith in
      init-Keeps
      >>-keeps bind-Triple (λ _ s. Sound s × ((valid_drive drive && ltb head 16) ≡ true))
          (tested-Triple _ _ same)
          λ _.
            bind-Triple (λ _ s. Sound s × ((valid_drive drive && ltb head 16) ≡ true))
              (modify-Triple _ λ s (p, e). (Sound-io _ s p, e))
              λ _. modify-Triple _ λ s (p, e).
                put_drive-Sound drive _ s
                  (record {
                    geometry_counted = (drive_at-IsDrive drive s p).geometry_counted;
                    head_fits = fits e;
                  })
                  p

  copy_words-Sound : (n : ℕ) (s : Hdd H) → Sound s → Sound (copy_words hw n s)
  unfolding copy_words
  copy_words-Sound zero s p = p
  copy_words-Sound (suc n) s p =
      copy_words-Sound n _
        (record { active_fits = p.active_fits; sound0 = p.sound0; sound1 = p.sound1 })

  pub read_sector-Keeps :
      (fuel drive : ℕ) (x : Place) (b : Bool) → Keeps (read_sector hw fuel drive x b)
  unfolding read_sector wait_data
  read_sector-Keeps fuel drive x b =
      init-Keeps
      >>-keeps check-Keeps _ _
      >>-keeps if-Triple (λ s. s.active_drive == drive) (pure tt) (select_drive hw drive)
          (weaken_left (pure-Triple tt same)) (weaken_left (select_drive-Keeps drive))
      >>-keeps if-Triple (λ s. (drive_at s drive).current_cylinder == x.cylinder) (pure tt)
          (seek hw fuel drive (x.cylinder)) (weaken_left (pure-Triple tt same))
          (weaken_left (seek-Keeps fuel drive (x.cylinder)))
      >>-keeps select_head-Keeps drive (x.head)
      >>-keeps write-Keeps _ _
      >>-keeps write-Keeps _ _
      >>-keeps poll-Triple hw Sound Sound Sound-io same HddReg.sector_status judge_data (returns tt)
          1000 1 fuel
      >>-keeps bind-Triple (λ _. Sound) (read-Keeps HddReg.sector_status)
          λ _.
            check-Keeps _ _ >>-keeps modify-Triple _ λ s. copy_words-Sound (size_of drive s / 4) s

  read_sectors-Keeps : (fuel drive n lba : ℕ) → Keeps (read_sectors hw fuel drive n lba)
  unfolding read_sectors
  read_sectors-Keeps fuel drive zero lba = pure-Triple tt same
  read_sectors-Keeps fuel drive (suc n) lba = record {
    holds = λ s.
        (read_sector-Keeps fuel drive
              (lba_to_chs ((drive_at s drive).profile.geometry) (lba % 2 ^ 32)) true
            >>-keeps read_sectors-Keeps fuel drive n (lba + 1)).holds
          s;
  }

  pub read_lba-Keeps : (fuel drive lba n : ℕ) (b : Bool) → Keeps (read_lba hw fuel drive lba n b)
  unfolding read_lba
  read_lba-Keeps fuel drive lba n b =
      init-Keeps
      >>-keeps check-Keeps _ _
      >>-keeps record {
        holds = λ s. (check-Keeps ((drive_at s drive).profile.valid) hal_not_ready).holds s;
      }
      >>-keeps check-Keeps _ _
      >>-keeps read_sectors-Keeps fuel drive n lba
