-- ===== src/Msc/Hal/Invariant.antt =====
-- What holds of the logical units after `msc_hal_init`, whatever is called afterwards.
pub mod Steps
use flux_ripper.Base.{
  ℕ, zero, suc, ◌+◌, ◌-◌, ◌≤◌, ◌<◌, ◌≡◌, refl, ap, sym, ◌∙◌, Bool, true, false, arith, ltb, leb,
  List, [], ◌∷◌, Option, none, some, if◌then◌else◌, Bool-cases, ◌⊎◌, inl, inr, Four, at, put, Each,
  Each-at, Each-put,
}
use flux_ripper.Msc.Device.{DriveHal, DriveProfile, HalStatus, hal_ok, hal_err}
use flux_ripper.Msc.Lun.{
  LunType, no_drive, fdd, hdd, MscStatus, max_luns, LunConfig, lun_to_drive, calculate_fdd_capacity,
  valid_profile,
}
use flux_ripper.Msc.Lun.Capacity.{calculate_fdd_capacity_bounds}
use flux_ripper.Msc.State.{Msc, fdd_lun_config, configure_fdd_lun, configure_hdd_lun, init}
use flux_ripper.Msc.Hal.{
  is_ready, is_write_protected, media_changed, notify_media_changed, read_done, msc_read,
  write_done, msc_write, start_stop, prevent_removal, refresh_lun,
}

-- A unit stands for the drive that `lun_to_drive` gives, has 512-byte blocks, and is a removable
-- floppy of a sensible size or a fixed writable disk.
pub record IsUnit (lun : ℕ) (cfg : LunConfig) : Type 0 where
  pub kind : cfg.lun_type ≡ (lun_to_drive lun).0
  pub index : cfg.drive_index ≡ (lun_to_drive lun).1
  pub blocks : cfg.block_size ≡ 512
  pub floppy :
      cfg.lun_type ≡ fdd → (cfg.removable ≡ true) × (720 ≤ cfg.capacity) × (cfg.capacity ≤ 5760)
  pub fixed : cfg.lun_type ≡ hdd → (cfg.removable ≡ false) × (cfg.readonly ≡ false)

abbrev pub IsConfigured : {H : Type 0} → Msc H → Type 0
IsConfigured m = Each IsUnit m.luns

module _ {H : Type 0} (hal : DriveHal H) where
  fdd_capacity_bounds :
      (h : H) (index : ℕ)
      → (720 ≤ (fdd_lun_config hal h index).capacity)
        × ((fdd_lun_config hal h index).capacity ≤ 5760)
  unfolding fdd_lun_config
  fdd_capacity_bounds h index = grind (arith, calculate_fdd_capacity_bounds hal)

  pub fdd_lun_config-IsUnit :
      (h : H) (lun index : ℕ)
      → lun_to_drive lun ≡ (fdd, index)
      → IsUnit lun (fdd_lun_config hal h index)
  unfolding fdd_lun_config
  fdd_lun_config-IsUnit h lun index q = record {
    kind = ap (λ t. t.0) (sym q);
    index = ap (λ t. t.1) (sym q);
    blocks = refl;
    floppy = λ _. (refl, (fdd_capacity_bounds h index).0, (fdd_capacity_bounds h index).1);
    fixed = λ e. cc;
  }

  pub configure_fdd_lun-IsConfigured :
      (lun index : ℕ) (m : Msc H)
      → lun < 4
      → lun_to_drive lun ≡ (fdd, index)
      → IsConfigured m
      → IsConfigured (configure_fdd_lun hal lun index m)
  unfolding configure_fdd_lun
  configure_fdd_lun-IsConfigured lun index m p q h =
      Each-put IsUnit m.luns lun (fdd_lun_config hal m.dev index) h p
        (fdd_lun_config-IsUnit m.dev lun index q)

  hdd-IsUnit :
      (lun : ℕ) (cfg : LunConfig)
      → lun_to_drive lun ≡ (hdd, cfg.drive_index)
      → cfg.lun_type ≡ hdd
      → cfg.block_size ≡ 512
      → cfg.removable ≡ false
      → cfg.readonly ≡ false
      → IsUnit lun cfg
  hdd-IsUnit lun cfg q t b r w = record {
    kind = t ∙ ap (λ t. t.0) (sym q);
    index = ap (λ t. t.1) (sym q);
    blocks = b;
    floppy = λ e. cc;
    fixed = λ _. (r, w);
  }

  pub configure_hdd_lun-IsConfigured :
      (lun index : ℕ) (m : Msc H)
      → lun < 4
      → lun_to_drive lun ≡ (hdd, index)
      → IsConfigured m
      → IsConfigured (configure_hdd_lun hal lun index m)
  unfolding configure_hdd_lun
  configure_hdd_lun-IsConfigured lun index m p q h =
      Each-put IsUnit m.luns lun _ h p (hdd-IsUnit lun _ q refl refl refl refl)

  -- `msc_hal_init` sets up two floppies and two hard disks, whatever the state before.
  pub init-IsConfigured : (m : Msc H) → IsConfigured (init hal m)
  unfolding init lun_to_drive
  init-IsConfigured m = (
    fdd_lun_config-IsUnit m.dev 0 0 refl,
    fdd_lun_config-IsUnit m.dev 1 1 refl,
    hdd-IsUnit 2 _ refl refl refl refl refl,
    hdd-IsUnit 3 _ refl refl refl refl refl,
  )
