-- ===== src/Hdd/Calls/Sound/Finding.antt =====
-- Detection, discovery and the ESDI commands of soc/firmware/src/hdd_hal.c keep the state sound.
use flux_ripper.Base.{ℕ, Bool, true, not, ◌==◌, Option, none, some}
use flux_ripper.Act.{Outcome, returns, fails, pure, resume}
use flux_ripper.Act.Triples.{
  Post, Triple, ends-Post, weaken_left, bind-Triple, ◌>>-keeps◌, if-Triple, pure-Triple,
  fail-Triple, step-Triple, modify-Triple, wait-Triple,
}
use flux_ripper.Wd.Device.{HalRet, hal_timeout, hal_not_supported}
use flux_ripper.Hdd.Device.{HddReg, HddIo}
use flux_ripper.Hdd.State.{hal_invalid, Detection, Geometry, Profile, DriveState, Hdd, drive_at}
use flux_ripper.Hdd.Seek.{Call, hdd_clock, put_cylinder}
use flux_ripper.Hdd.Calls.Sound.{
  IsCounted, IsDrive, Sound, Sound-io, drive_at-IsDrive, put_drive-Sound,
}
use flux_ripper.Hdd.Discovery.{
  judge_detection, judge_discovery, abort_after, or_abort, wait_detection_done, wait_discovery_done,
  put_detection, force_type, detect_interface, force_interface, read_geometry, detect_first,
  discover,
}
use flux_ripper.Hdd.Esdi.{
  judge_esdi, config_from, store_config, check_esdi, wait_esdi_done, esdi_get_config, esdi_command,
}
use flux_ripper.Hdd.Dual.{both_status, judge_both, wait_both, wait_seeks}
use flux_ripper.Hdd.Calls.Sound.{geometry_from-IsCounted, adopt_config-IsCounted, put_profile-Sound}
use flux_ripper.Hdd.Calls.Sound.Steps.{
  Keeps, same, init-Keeps, enter-Keeps, write-Keeps, read-Keeps, check-Keeps, poll-Keeps,
  select_drive-Keeps,
}

module _ {H : Type 0} (hw : HddIo H) where
  abort-Post :
      (r : Option (Outcome HalRet (Unit {0}) × Hdd H)) (a : HddReg)
      → Post (λ _. Sound) Sound r
      → Post (λ _. Sound) Sound (abort_after hw r a)
  unfolding Post abort_after resume
  abort-Post none a p = tt
  abort-Post (some (returns u, s)) a p = p
  abort-Post (some (fails e, s)) a p = Sound-io _ s p

  or_abort-Keeps : (m : Call hw (Unit {0})) (a : HddReg) → Keeps hw m → Keeps hw (or_abort hw m a)
  or_abort-Keeps m a p = record { holds = λ s h. abort-Post (m s) a (p.holds s h) }

  wait_detection-Keeps : (timeout fuel : ℕ) → Keeps hw (wait_detection_done hw timeout fuel)
  unfolding wait_detection_done
  wait_detection-Keeps timeout fuel =
      poll-Keeps hw HddReg.detect_status judge_detection timeout 10 fuel

  put_detection-Sound :
      (drive : ℕ) (d : Detection) (s : Hdd H) → Sound s → Sound (put_detection drive d s)
  put_detection-Sound drive d s p =
      let q = drive_at-IsDrive drive s p in
      put_drive-Sound drive _ s
        (record { geometry_counted = q.geometry_counted; head_fits = q.head_fits }) p

  pub detect-Keeps : (fuel drive : ℕ) (w : Bool) → Keeps hw (detect_interface hw fuel drive w)
  unfolding detect_interface
  detect-Keeps fuel drive w =
      init-Keeps hw
      >>-keeps check-Keeps hw _ _
      >>-keeps write-Keeps hw _ _
      >>-keeps or_abort-Keeps (wait_detection_done hw 2000 fuel) HddReg.detect_ctrl
          (wait_detection-Keeps 2000 fuel)
      >>-keeps bind-Triple (λ _. Sound) (read-Keeps hw HddReg.detect_result)
          λ _.
            bind-Triple (λ _. Sound) (read-Keeps hw HddReg.detect_scores)
              λ _. modify-Triple _ (put_detection-Sound drive _) >>-keeps pure-Triple _ same

  force_type-IsDrive : (type : ℕ) (d : DriveState) → IsDrive d → IsDrive (force_type type d)
  force_type-IsDrive type d p = record {
    geometry_counted = p.geometry_counted;
    head_fits = p.head_fits;
  }

  pub force-Keeps : (fuel type : ℕ) → Keeps hw (force_interface hw fuel type)
  unfolding force_interface
  force-Keeps fuel type =
      init-Keeps hw
      >>-keeps write-Keeps hw _ _
      >>-keeps write-Keeps hw _ _
      >>-keeps wait_detection-Keeps 100 fuel
      >>-keeps modify-Triple _ λ s p. record {
        active_fits = p.active_fits;
        sound0 = force_type-IsDrive type (s.drive0) p.sound0;
        sound1 = force_type-IsDrive type (s.drive1) p.sound1;
      }

  -- What is read for a profile is counted.
  abbrev Counted : Geometry → Hdd H → Type 0
  Counted g s = Sound s × IsCounted g

  geometry-Triple : Triple Sound (read_geometry hw) Counted Sound
  geometry-Triple =
      bind-Triple (λ _. Sound) (read-Keeps hw HddReg.geometry_a)
        λ a.
          bind-Triple (λ _. Sound) (read-Keeps hw HddReg.geometry_b)
            λ b.
              bind-Triple (λ _. Sound) (read-Keeps hw HddReg.encode_result)
                λ e. pure-Triple _ λ s p. (p, geometry_from-IsCounted a b e)

  Counted-io : (g : Geometry) (h : H) (s : Hdd H) → Counted g s → Counted g (record s { io = h })
  Counted-io g h s (p, c) = (Sound-io h s p, c)

  pub discover-Keeps : (fuel drive : ℕ) (p : Option Profile) → Keeps hw (discover hw fuel drive p)
  unfolding discover detect_first wait_discovery_done
  discover-Keeps fuel drive none = init-Keeps hw >>-keeps fail-Triple _ same
  discover-Keeps fuel drive (some caller) =
      enter-Keeps hw drive
      >>-keeps if-Triple (λ s. (drive_at s drive).detection_done) (pure tt) _
          (weaken_left (pure-Triple tt same))
          (weaken_left
            (bind-Triple (λ _. Sound) (detect-Keeps fuel drive true) λ _. pure-Triple tt same))
      >>-keeps record {
        holds = λ s.
            (check-Keeps hw (not ((drive_at s drive).profile.detection.drive_type == 1))
                hal_invalid).holds
              s;
      }
      >>-keeps bind-Triple (λ _. Sound) (read-Keeps hw HddReg.ctrl)
          (λ _. bind-Triple (λ _. Sound) (step-Triple _ same) λ _. write-Keeps hw _ _)
      >>-keeps write-Keeps hw _ _
      >>-keeps or_abort-Keeps (wait_discovery_done hw 60000 fuel) HddReg.discover_ctrl
          (poll-Keeps hw HddReg.discover_status judge_discovery 60000 50 fuel)
      >>-keeps bind-Triple Counted geometry-Triple λ g.
        bind-Triple (λ _. Counted g)
          (bind-Triple (λ _. Counted g) (step-Triple _ λ s. Counted-io g _ s)
            λ _.
              bind-Triple (λ _. Counted g) (step-Triple _ λ s. Counted-io g _ s)
                λ _. pure-Triple _ λ s c. c)
          λ _.
            bind-Triple (λ _. Counted g) (step-Triple _ λ s c. c)
              λ _.
                bind-Triple (λ _. Sound)
                  (modify-Triple _ λ s (p, c). put_profile-Sound drive _ s c p)
                  λ _. pure-Triple _ same

  pub esdi-Keeps : (fuel timeout : ℕ) → Keeps hw (wait_esdi_done hw fuel timeout)
  unfolding wait_esdi_done
  esdi-Keeps fuel timeout = poll-Keeps hw HddReg.esdi_cmd_status judge_esdi timeout 1 fuel

  check_esdi-Keeps : (drive : ℕ) → Keeps hw (check_esdi hw drive)
  check_esdi-Keeps drive = record {
    holds = λ s.
        (check-Keeps hw ((drive_at s drive).profile.detection.drive_type == 4)
            hal_not_supported).holds
          s;
  }

  store_config-Sound :
      (drive a b : ℕ) (s : Hdd H) → Sound s → Sound (store_config drive (config_from a b) s)
  store_config-Sound drive a b s p =
      put_profile-Sound drive _ s
        (adopt_config-IsCounted a b _ (drive_at-IsDrive drive s p).geometry_counted) p

  pub esdi_get_config-Keeps :
      (fuel drive : ℕ) (w : Bool) → Keeps hw (esdi_get_config hw fuel drive w)
  unfolding esdi_get_config
  esdi_get_config-Keeps fuel drive w =
      init-Keeps hw
      >>-keeps check-Keeps hw _ _
      >>-keeps check_esdi-Keeps drive
      >>-keeps select_drive-Keeps hw drive
      >>-keeps write-Keeps hw _ _
      >>-keeps esdi-Keeps fuel 1000
      >>-keeps bind-Triple (λ _. Sound) (read-Keeps hw HddReg.esdi_cmd_status)
          λ _.
            check-Keeps hw _ _
            >>-keeps bind-Triple (λ _. Sound) (read-Keeps hw HddReg.esdi_config_a)
                λ a.
                  bind-Triple (λ _. Sound) (read-Keeps hw HddReg.esdi_config_b)
                    λ b. modify-Triple _ (store_config-Sound drive a b) >>-keeps pure-Triple _ same

  pub esdi_command-Keeps : (drive opcode : ℕ) → Keeps hw (esdi_command hw drive opcode)
  unfolding esdi_command
  esdi_command-Keeps drive opcode =
      enter-Keeps hw drive
      >>-keeps check_esdi-Keeps drive
      >>-keeps select_drive-Keeps hw drive
      >>-keeps write-Keeps hw _ _

  put_cylinder-Sound : (drive c : ℕ) (s : Hdd H) → Sound s → Sound (put_cylinder drive c s)
  put_cylinder-Sound drive c s p =
      let q = drive_at-IsDrive drive s p in
      put_drive-Sound drive _ s
        (record { geometry_counted = q.geometry_counted; head_fits = q.head_fits }) p

  pub wait_seeks-Keeps : (fuel timeout : ℕ) → Keeps hw (wait_seeks hw fuel timeout)
  unfolding wait_seeks wait_both
  wait_seeks-Keeps fuel timeout =
      init-Keeps hw
      >>-keeps bind-Triple (λ _. Sound)
          (wait-Triple Sound (λ _. Sound) Sound (hdd_clock hw)
            (λ s. let (v, s') = both_status hw s in (judge_both v, s')) (fails hal_timeout)
            (λ s. Sound-io _ s) (λ t s. Sound-io _ s) (λ s. Sound-io _ s)
            (λ o s p. ends-Post (λ _. Sound) Sound o s (λ _. p) p) timeout 1 fuel)
          λ _. modify-Triple _ λ s p. put_cylinder-Sound 1 _ _ (put_cylinder-Sound 0 _ s p)
