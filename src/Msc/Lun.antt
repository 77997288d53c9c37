-- ===== src/Msc/Lun.antt =====
-- Logical units: the types of soc/firmware/include/msc_hal.h and the pure functions of
-- soc/firmware/src/msc_hal.c (drive mapping, floppy capacity, identification strings).
pub mod Capacity
use flux_ripper.Base.{
  ℕ, ◌+◌, ◌-◌, ◌*◌, ◌/◌, ◌^◌, Bool, true, false, ◌&&◌, not, Option, none, some, List, [], ◌∷◌, ◌++◌,
  ltb, ◌==◌, if◌then◌else◌, take, codes, decimal,
}
use flux_ripper.Msc.Device.{DriveProfile, HddMetadata, DriveHal}

-- `MSC_LUN_TYPE_*`
pub data LunType : Type 0 where
  no_drive fdd hdd : LunType

-- `MSC_OK` and `MSC_ERR_*`
pub data MscStatus : Type 0 where
  ok no_media not_ready write_prot lba_range read_error write_error invalid_lun : MscStatus

abbrev pub max_luns : ℕ
max_luns = 4

abbrev pub max_fdds : ℕ
max_fdds = 2

abbrev pub sector_size : ℕ
sector_size = 512

-- `msc_lun_config_t`
pub record LunConfig : Type 0 where
  pub lun_type : LunType
  pub drive_index : ℕ
  pub present : Bool
  pub removable : Bool
  pub readonly : Bool
  pub changed : Bool
  pub capacity : ℕ
  pub block_size : ℕ
  pub vendor : List ℕ
  pub product : List ℕ
  pub revision : List ℕ

-- What `memset` leaves.
abbrev pub blank_lun : LunConfig
blank_lun = record {
  lun_type = no_drive;
  drive_index = 0;
  present = false;
  removable = false;
  readonly = false;
  changed = false;
  capacity = 0;
  block_size = 0;
  vendor = [];
  product = [];
  revision = [];
}

-- `lun_to_drive`
unfoldable pub lun_to_drive : ℕ → LunType × ℕ
lun_to_drive lun =
    if ltb lun max_fdds
    then (fdd, lun)
    else if ltb lun max_luns
    then (hdd, lun - max_fdds)
    else (no_drive, 0)

-- `FF_*` and `DENS_*` of fluxripper_hal.h
abbrev pub ff_3_5 : ℕ
ff_3_5 = 1

abbrev pub ff_5_25 : ℕ
ff_5_25 = 2

abbrev pub ff_8 : ℕ
ff_8 = 3

abbrev pub dens_dd : ℕ
dens_dd = 0

abbrev pub dens_hd : ℕ
dens_hd = 1

abbrev pub dens_ed : ℕ
dens_ed = 2

module _ {H : Type 0} (hal : DriveHal H) where
  open hal use {tracks_40, tracks_77, tracks_80, get_profile}

  -- The first and the last `switch` on `profile->tracks`.
  unfoldable pub profile_cylinders : DriveProfile → ℕ
  profile_cylinders p =
      if p.tracks == tracks_40
      then 40
      else if p.tracks == tracks_80
      then 80
      else if p.tracks == tracks_77
      then 77
      else 80

  -- The `switch` on `profile->density` of `calculate_fdd_capacity`.
  unfoldable pub sectors_per_track : DriveProfile → ℕ
  sectors_per_track p =
      if p.density == dens_dd
      then (if p.form_factor == ff_5_25 then 9 else if p.form_factor == ff_8 then 26 else 9)
      else if p.density == dens_hd
      then (if p.form_factor == ff_5_25 then 15 else 18)
      else if p.density == dens_ed
      then 36
      else if p.form_factor == ff_3_5
      then 18
      else 9

  -- `calculate_fdd_capacity`
  unfoldable pub calculate_fdd_capacity : DriveProfile → ℕ
  unfolding profile_cylinders sectors_per_track
  calculate_fdd_capacity p = profile_cylinders p * 2 * sectors_per_track p

  -- `build_fdd_product_id`; `snprintf` into 17 bytes keeps 16 characters.
  unfoldable pub build_fdd_product_id : DriveProfile → List ℕ
  unfolding profile_cylinders decimal
  build_fdd_product_id p =
      let ff_str : List ℕ =
        if p.form_factor == ff_3_5
        then codes "3.5\""
        else if p.form_factor == ff_5_25
        then codes "5.25\""
        else if p.form_factor == ff_8
        then codes "8\""
        else codes "?\"" in
      let dens_str : List ℕ =
        if p.density == dens_dd
        then codes "DD"
        else if p.density == dens_hd
        then codes "HD"
        else if p.density == dens_ed
        then codes "ED"
        else codes "??" in
      let enc_str : List ℕ =
        if p.encoding == 1
        then codes "FM"
        else if p.encoding == 2
        then codes "MFM"
        else if p.encoding == 3
        then codes "GCR"
        else if p.encoding == 4
        then codes "GCR"
        else codes "???" in
      take 16
        (ff_str ++ 32 ∷ dens_str ++ 32 ∷ decimal 10 (profile_cylinders p) ++ codes "T " ++ enc_str)

  -- `hal_get_profile(...) == HAL_OK && profile.valid`
  unfoldable pub valid_profile : H → ℕ → Option DriveProfile
  valid_profile h drive = elim (get_profile h drive) [
    | none ↦ none
    | some p ↦ if p.valid then some p else none
  ]

-- `s[0] != '\0' && s[0] != 0xFF`, with char unsigned as on the target.
unfoldable pub is_set : List ℕ → Bool
is_set [] = false
is_set (c ∷ s) = not (c == 0xff)

-- `METADATA_SIGNATURE`
abbrev pub metadata_signature : ℕ
metadata_signature = 0x464c5852

-- "FluxRipper HDD %d"
abbrev pub generic_product : ℕ → List ℕ
generic_product drive = take 16 (codes "FluxRipper HDD " ++ decimal 10 drive)

-- `build_hdd_product_id`: vendor and product from what `meta_read` returned. The product of the
-- geometry is exact below 2 ^ 31, the range of the source's int.
unfoldable pub build_hdd_product_id : Option HddMetadata → ℕ → List ℕ × List ℕ
unfolding is_set decimal
build_hdd_product_id none drive = (codes "FluxRip", generic_product drive)
build_hdd_product_id (some m) drive =
    let bytes = m.max_cylinder * m.heads * m.spt_outer * 512 in
    let vendor : List ℕ = if is_set m.vendor then take 8 m.vendor else codes "FluxRip" in
    let product : List ℕ =
      if is_set m.model
      then take 16 m.model
      else if ltb 0 m.max_cylinder
      then take 16 (codes "HDD " ++ decimal 10 (bytes / 2 ^ 20) ++ codes "MB")
      else generic_product drive in
    if m.signature == metadata_signature
    then (vendor, product)
    else (codes "FluxRip", generic_product drive)
