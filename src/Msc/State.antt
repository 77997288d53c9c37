-- ===== src/Msc/State.antt =====
-- soc/firmware/src/msc_hal.c: the state of the mass-storage layer, the detection of its units
-- (`configure_fdd_lun`, `configure_hdd_lun`) and `msc_hal_init`.
use flux_ripper.Base.{
  ℕ, ◌%◌, ◌^◌, Bool, true, false, none, some, List, ◌==◌, if◌then◌else◌, codes, Four, put, four,
}
use flux_ripper.Msc.Regs.{MscDrive, fdd0, fdd1, hdd0, hdd1, MscRegs}
use flux_ripper.Msc.Config
use flux_ripper.Msc.Device.{DriveHal}
use flux_ripper.Msc.Lun.{
  fdd, hdd, MscStatus, ok, max_luns, LunConfig, blank_lun, dens_dd, dens_hd, dens_ed,
  calculate_fdd_capacity, build_fdd_product_id, valid_profile, build_hdd_product_id,
}

-- `msc_state`, the per-LUN statistics, the configuration registers, and the drives.
pub record Msc (H : Type 0) : Type 0 where
  pub initialized : Bool
  pub lun_count : ℕ
  pub luns : Four LunConfig
  pub read_count : Four ℕ
  pub write_count : Four ℕ
  pub error_count : Four ℕ
  pub last_error : Four MscStatus
  pub regs : MscRegs
  pub dev : H

abbrev pub fdd_drive : ℕ → MscDrive
fdd_drive index = if index == 0 then fdd0 else fdd1

abbrev pub hdd_drive : ℕ → MscDrive
hdd_drive index = if index == 0 then hdd0 else hdd1

-- The `switch` on the density at the end of `configure_fdd_lun`.
abbrev pub register_spt : ℕ → ℕ
register_spt density =
    if density == dens_dd
    then 9
    else if density == dens_hd
    then 18
    else if density == dens_ed
    then 36
    else 18

abbrev pub default_fdd_product : ℕ → List ℕ
default_fdd_product index =
    if index == 0 then codes "FluxRipper FDD A" else codes "FluxRipper FDD B"

module _ {H : Type 0} (hal : DriveHal H) where
  open hal use {
    disk_present, write_protected, hdd_is_ready, hdd_total_sectors, meta_read, motor_on, motor_off,
    read_sectors, hdd_read_sectors, write_sectors, hdd_write_sectors,
  }

  -- The unit that `configure_fdd_lun` fills in: every field is assigned.
  unfoldable pub fdd_lun_config : H → ℕ → LunConfig
  unfolding valid_profile
  fdd_lun_config h index =
      let present = disk_present h index in
      let profile = valid_profile hal h index in
      record {
        lun_type = fdd;
        drive_index = index;
        present = present;
        removable = true;
        readonly = write_protected h index;
        changed = false;
        capacity =
            if present
            then elim profile [ none ↦ 2880 | some p ↦ calculate_fdd_capacity hal p ]
            else 2880;
        block_size = 512;
        vendor = codes "FluxRip";
        product =
            if present
            then elim profile [
              | none ↦ default_fdd_product index
              | some p ↦ build_fdd_product_id hal p
            ]
            else default_fdd_product index;
        revision = codes "1.00";
      }

  -- The register writes of `configure_fdd_lun`.
  unfoldable pub fdd_lun_regs : H → ℕ → LunConfig → MscRegs → MscRegs
  unfolding valid_profile Config.set_fdd_params Config.set_ready Config.set_write_protect
  fdd_lun_regs h index cfg r =
      let drive = fdd_drive index in
      let r1 : MscRegs =
        if cfg.present
        then elim (valid_profile hal h index) [
          | none ↦ r
          | some p ↦
              Config.set_fdd_params drive (cfg.capacity % 2 ^ 16) p.tracks 2
                (register_spt p.density) r
        ]
        else r in
      Config.set_write_protect drive cfg.readonly (Config.set_ready drive cfg.present r1)

  -- `configure_fdd_lun`
  unfoldable pub configure_fdd_lun : ℕ → ℕ → Msc H → Msc H
  unfolding fdd_lun_config fdd_lun_regs
  configure_fdd_lun lun index m =
      let cfg = fdd_lun_config m.dev index in
      record m { luns = put m.luns lun cfg; regs = fdd_lun_regs m.dev index cfg m.regs }

  -- `configure_hdd_lun`
  unfoldable pub configure_hdd_lun : ℕ → ℕ → Msc H → Msc H
  unfolding build_hdd_product_id Config.set_hdd_capacity Config.set_ready
  configure_hdd_lun lun index m =
      let present = hdd_is_ready m.dev index in
      let capacity : ℕ =
        if present
        then elim (hdd_total_sectors m.dev index) [ none ↦ 0 | some sectors ↦ sectors ]
        else 0 in
      let (metadata, dev) = meta_read m.dev index in
      let (vendor, product) = build_hdd_product_id metadata index in
      let drive = hdd_drive index in
      record m {
        luns = put m.luns lun (record {
          lun_type = hdd;
          drive_index = index;
          present = present;
          removable = false;
          readonly = false;
          changed = false;
          capacity = capacity;
          block_size = 512;
          vendor = vendor;
          product = product;
          revision = codes "1.00";
        });
        regs = Config.set_ready drive present (Config.set_hdd_capacity drive capacity m.regs);
        dev = dev;
      }

  -- The statics of the file before any call: zero-initialised.
  unfoldable pub blank : MscRegs → H → Msc H
  blank r h = record {
    initialized = false;
    lun_count = 0;
    luns = four blank_lun;
    read_count = four 0;
    write_count = four 0;
    error_count = four 0;
    last_error = four ok;
    regs = r;
    dev = h;
  }

  -- `msc_hal_init`; it returns MSC_OK always.
  unfoldable pub init : Msc H → Msc H
  unfolding blank configure_fdd_lun configure_hdd_lun Config.config_init Config.validate
      Config.int_enable Config.int_global_enable
  init m =
      let m0 = blank (Config.config_init m.regs) m.dev in
      let m1 = configure_fdd_lun 1 1 (configure_fdd_lun 0 0 m0) in
      let m2 = configure_hdd_lun 3 1 (configure_hdd_lun 2 0 m1) in
      let r1 = Config.int_enable fdd0 true (Config.validate m2.regs) in
      let r2 = Config.int_enable hdd0 false (Config.int_enable fdd1 true r1) in
      let r3 = Config.int_global_enable true (Config.int_enable hdd1 false r2) in
      record m2 { regs = r3; lun_count = max_luns; initialized = true }
