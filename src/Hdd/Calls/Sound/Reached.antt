-- ===== src/Hdd/Calls/Sound/Reached.antt =====
-- The states of soc/firmware/src/hdd_hal.c that its calls reach, and what holds in them.
use flux_ripper.Base.{
  ℕ, ◌<◌, ◌≡◌, subst, arith, Bool, true, false, not, ◌||◌, if◌then◌else◌, some, [],
}
use flux_ripper.Act.{Outcome, returns, fails}
use flux_ripper.Act.Triples.{Post, bind-Triple, ◌>>-keeps◌, pure-Triple, step-Triple}
use flux_ripper.Wd.Device.{HalRet}
use flux_ripper.Hdd.Device.{HddReg, status_of, health_of, HddIo}
use flux_ripper.Hdd.State.{Hdd, valid_drive, fresh_drive, drive_at}
use flux_ripper.Hdd.Address.{chs_to_lba, lba_to_chs}
use flux_ripper.Hdd.Address.Inverse.{IsPlace, chs_to_lba-lba_to_chs}
use flux_ripper.Hdd.Seek.{Call, is_ready, get_cylinder, get_status}
use flux_ripper.Hdd.Discovery.{
  get_profile, get_health, update_ctrl, set_rate, set_encoding, set_termination,
}
use flux_ripper.Hdd.Dual.{seek_both, any_seeking, get_dual_status}
use flux_ripper.Hdd.Calls.{
  HddCall, init, both_status, select, ready, cylinder, status, profile, health, detect, force,
  recalibrates, rate, encoding, esdi_wait, waits, termination, seeks, heads, esdi, both, discovers,
  sector, blocks, config, any_busy, forget, call,
}
use flux_ripper.Hdd.Calls.Sound.{IsSound, Sound, fresh_drive-IsDrive, Sound-io, drive_at-IsDrive}
use flux_ripper.Hdd.Calls.Sound.Steps.{
  Keeps, same, init-Keeps, enter-Keeps, write-Keeps, read-Keeps, check-Keeps, hal_init-Keeps,
  select_drive-Keeps, seek-Keeps, recalibrate-Keeps, select_head-Keeps, read_sector-Keeps,
  read_lba-Keeps,
}
use flux_ripper.Hdd.Calls.Sound.Finding.{
  detect-Keeps, force-Keeps, discover-Keeps, esdi-Keeps, esdi_get_config-Keeps, esdi_command-Keeps,
  wait_seeks-Keeps,
}

-- The state at power-on: `hdd_state` with its initialiser.
abbrev pub power_on : {H : Type 0} → H → Hdd H
power_on h = record {
  initialized = false;
  active_drive = 0;
  drive0 = fresh_drive;
  drive1 = fresh_drive;
  io = h;
  stored = [];
}

module _ {H : Type 0} (hw : HddIo H) where
  -- A state after some calls, each with as many rounds for its loops as it needs.
  pub data Reached : Hdd H → Type 0 where
    at_power_on : (h : H) → Reached (power_on h)
    after :
        (fuel : ℕ) (c : HddCall) (o : Outcome HalRet (Unit {0})) (s s' : Hdd H)
        → Reached s
        → call hw fuel c s ≡ some (o, s')
        → Reached s'

  forget-Keeps : {A : Type 0} (m : Call hw A) → Keeps hw m → Keeps hw (forget hw m)
  forget-Keeps m p = bind-Triple (λ _. Sound) p λ _. pure-Triple tt same

  ctrl-Keeps : (f : ℕ → ℕ) → Keeps hw (update_ctrl hw f)
  ctrl-Keeps f =
      init-Keeps hw
      >>-keeps bind-Triple (λ _. Sound) (read-Keeps hw HddReg.ctrl) λ _. write-Keeps hw _ _

  if_sound :
      {A : Type 0} (b : Bool) (r t : A × Hdd H)
      → Sound r.1
      → Sound t.1
      → Sound (if b then r else t).1
  if_sound true r t p q = p
  if_sound false r t p q = q

  call-Keeps : (fuel : ℕ) (c : HddCall) → Keeps hw (call hw fuel c)
  unfolding call get_status get_profile get_health set_rate set_encoding set_termination seek_both
      get_dual_status is_ready get_cylinder any_seeking
  call-Keeps fuel init = hal_init-Keeps hw
  call-Keeps fuel both_status = forget-Keeps _ (
      init-Keeps hw
      >>-keeps bind-Triple (λ _. Sound) (step-Triple _ (λ s. Sound-io _ s)) λ _. pure-Triple _ same)
  call-Keeps fuel (select d) = select_drive-Keeps hw d
  call-Keeps fuel (ready d) = forget-Keeps _ (
      step-Triple _
        (λ s p. if_sound (not (s.initialized) || not (valid_drive d)) _ _ p (Sound-io _ s p)))
  call-Keeps fuel (cylinder d) =
      forget-Keeps _ (step-Triple _ (λ s p. if_sound (not (valid_drive d)) _ _ p (Sound-io _ s p)))
  call-Keeps fuel (status d) = forget-Keeps _ (
      enter-Keeps hw d
      >>-keeps bind-Triple (λ _. Sound) (read-Keeps hw (status_of d)) λ _. pure-Triple _ same)
  call-Keeps fuel (profile d w) =
      forget-Keeps _ (init-Keeps hw >>-keeps check-Keeps hw _ _ >>-keeps step-Triple _ same)
  call-Keeps fuel (health d w) = forget-Keeps _ (
      init-Keeps hw
      >>-keeps check-Keeps hw _ _
      >>-keeps bind-Triple (λ _. Sound) (read-Keeps hw (health_of d))
          λ _. bind-Triple (λ _. Sound) (read-Keeps hw (status_of d)) λ _. pure-Triple _ same)
  call-Keeps fuel (detect d w) = forget-Keeps _ (detect-Keeps hw fuel d w)
  call-Keeps fuel (force t) = force-Keeps hw fuel t
  call-Keeps fuel (recalibrates d) = recalibrate-Keeps hw fuel d
  call-Keeps fuel (rate r) = ctrl-Keeps _
  call-Keeps fuel (encoding e) = ctrl-Keeps _
  call-Keeps fuel (esdi_wait t) = esdi-Keeps hw fuel t
  call-Keeps fuel (waits t) = wait_seeks-Keeps hw fuel t
  call-Keeps fuel (termination b) = ctrl-Keeps _
  call-Keeps fuel (seeks d c) = seek-Keeps hw fuel d c
  call-Keeps fuel (heads d h) = select_head-Keeps hw d h
  call-Keeps fuel (esdi d o) = esdi_command-Keeps hw d o
  call-Keeps fuel (both c0 c1) =
      init-Keeps hw
      >>-keeps bind-Triple (λ _. Sound) (step-Triple _ (λ s. Sound-io _ s))
          λ _.
            check-Keeps hw _ _
            >>-keeps write-Keeps hw _ _
            >>-keeps write-Keeps hw _ _
            >>-keeps write-Keeps hw _ _
            >>-keeps write-Keeps hw _ _
  call-Keeps fuel (discovers d p') = forget-Keeps _ (discover-Keeps hw fuel d p')
  call-Keeps fuel (sector d x b) = read_sector-Keeps hw fuel d x b
  call-Keeps fuel (blocks d n c b) = read_lba-Keeps hw fuel d n c b
  call-Keeps fuel (config d w) = forget-Keeps _ (esdi_get_config-Keeps hw fuel d w)
  call-Keeps fuel any_busy =
      forget-Keeps _ (step-Triple _ (λ s p. if_sound (s.initialized) _ _ (Sound-io _ s p) p))

  post_sound :
      (o : Outcome HalRet (Unit {0})) (s : Hdd H) → Post (λ _. Sound) Sound (some (o, s)) → Sound s
  unfolding Post
  post_sound (returns u) s p = p
  post_sound (fails e) s p = p

  -- In every state that calls reach, the active drive is 0 or 1, the head of each drive is below 16, and the
  -- geometry of each drive is in the types of its fields, with the product of its three numbers for its
  -- total.
  pub Reached-IsSound : (s : Hdd H) → Reached s → IsSound s
  Reached-IsSound _ (at_power_on h) = record {
    active_fits = omega arith;
    sound0 = fresh_drive-IsDrive;
    sound1 = fresh_drive-IsDrive;
  }
  Reached-IsSound s' (after fuel c o s _ r e) =
      post_sound o s'
        (subst (Post (λ _. Sound) Sound) e ((call-Keeps fuel c).holds s (Reached-IsSound s r)))

  -- In every state that calls reach, an address below the total of a drive whose geometry has heads and
  -- sectors has a place on that drive, and is the address of that place.
  pub lba_to_chs-Reached :
      (s : Hdd H) (drive lba : ℕ)
      → Reached s
      → 0 < (drive_at s drive).profile.geometry.heads
      → 0 < (drive_at s drive).profile.geometry.sectors
      → lba < (drive_at s drive).profile.geometry.total_sectors
      → IsPlace
          ((drive_at s drive).profile.geometry)
          (lba_to_chs ((drive_at s drive).profile.geometry) lba)
        × (chs_to_lba
              ((drive_at s drive).profile.geometry)
              (lba_to_chs ((drive_at s drive).profile.geometry) lba)
            ≡ lba)
  lba_to_chs-Reached s drive lba r h n l =
      let c = (drive_at-IsDrive drive s (Reached-IsSound s r)).geometry_counted in
      chs_to_lba-lba_to_chs _ lba
        (record {
          cylinders_fit = c.cylinders_fit;
          heads_positive = h;
          heads_fit = c.heads_fit;
          sectors_positive = n;
          sectors_fit = c.sectors_fit;
        })
        (subst (λ t. lba < t) c.counted l)
