-- ===== src/Msc/Hal.antt =====
-- soc/firmware/src/msc_hal.c: the operations. Each returns what the C function returns beside the next
-- state; the state and the detection of the units stand in Msc/State.antt.
pub mod Invariant
pub mod Transfer
pub mod Media
use flux_ripper.Base.{
  ℕ, zero, suc, ◌+◌, ◌-◌, ◌%◌, ◌^◌, Bool, true, false, ◌&&◌, not, Option, none, some, List, [], ltb,
  leb, ◌==◌, if◌then◌else◌, codes, Four, at, put, four,
}
use flux_ripper.Msc.Regs.{MscDrive, fdd0, fdd1, hdd0, hdd1, MscRegs}
use flux_ripper.Msc.Config
use flux_ripper.Msc.Device.{DriveProfile, DriveHal, HalStatus, hal_ok, hal_err}
use flux_ripper.Msc.Lun.{
  LunType, no_drive, fdd, hdd, MscStatus, ok, no_media, write_prot, lba_range, read_error,
  write_error, invalid_lun, max_luns, max_fdds, LunConfig, blank_lun, dens_dd, dens_hd, dens_ed,
  calculate_fdd_capacity, build_fdd_product_id, valid_profile, build_hdd_product_id,
}
use flux_ripper.Msc.State.{Msc, configure_fdd_lun, configure_hdd_lun}

module _ {H : Type 0} (hal : DriveHal H) where
  open hal use {
    disk_present, write_protected, hdd_is_ready, hdd_total_sectors, meta_read, motor_on, motor_off,
    read_sectors, hdd_read_sectors, write_sectors, hdd_write_sectors,
  }

  -- `msc_hal_get_lun_config`; `none` is MSC_ERR_INVALID_LUN, with the target left as it was.
  unfoldable pub get_lun_config : ℕ → Msc H → Option LunConfig
  get_lun_config lun m = if leb max_luns lun then none else some (at m.luns lun)

  abbrev pub set_lun : ℕ → LunConfig → Msc H → Msc H
  set_lun lun cfg m = record m { luns = put m.luns lun cfg }

  -- What `msc_hal_is_ready` reads for a unit of each type.
  abbrev pub scan_present : H → LunConfig → Bool
  scan_present h cfg = elim cfg.lun_type [
    | fdd ↦ disk_present h cfg.drive_index
    | hdd ↦ hdd_is_ready h cfg.drive_index
    | no_drive ↦ cfg.present
  ]

  -- `msc_hal_is_ready`
  unfoldable pub is_ready : ℕ → Msc H → Bool × Msc H
  is_ready lun m =
      let cfg = at m.luns lun in
      let present = scan_present m.dev cfg in
      if leb max_luns lun
      then (false, m)
      else (present, set_lun lun (record cfg { present = present }) m)

  abbrev pub scan_readonly : H → LunConfig → Bool
  scan_readonly h cfg = elim cfg.lun_type [
    | fdd ↦ write_protected h cfg.drive_index
    | _ ↦ cfg.readonly
  ]

  -- `msc_hal_is_write_protected`
  unfoldable pub is_write_protected : ℕ → Msc H → Bool × Msc H
  is_write_protected lun m =
      let cfg = at m.luns lun in
      let readonly = scan_readonly m.dev cfg in
      if leb max_luns lun
      then (true, m)
      else (readonly, set_lun lun (record cfg { readonly = readonly }) m)

  -- `msc_hal_media_changed`: the flag is cleared as it is read.
  unfoldable pub media_changed : ℕ → Msc H → Bool × Msc H
  media_changed lun m =
      let cfg = at m.luns lun in
      if leb max_luns lun
      then (false, m)
      else (cfg.changed, set_lun lun (record cfg { changed = false }) m)

  -- `msc_hal_notify_media_changed`
  unfoldable pub notify_media_changed : ℕ → Msc H → Msc H
  unfolding configure_fdd_lun
  notify_media_changed lun m =
      let cfg = at m.luns lun in
      let flagged = set_lun lun (record cfg { changed = true }) m in
      if leb max_luns lun then m else elim cfg.lun_type [
        | fdd ↦
            if ltb lun max_fdds then configure_fdd_lun hal lun cfg.drive_index flagged else flagged
        | _ ↦ flagged
      ]

  abbrev pub fail : ℕ → MscStatus → Msc H → MscStatus × Msc H
  fail lun e m = (e, record m { last_error = put m.last_error lun e })

  -- `ret` of the drive, counted: the end of `msc_hal_read_sectors`.
  unfoldable pub read_done : ℕ → ℕ → HalStatus → Msc H → MscStatus × Msc H
  read_done lun count hal_ok m = (
    ok,
    record m {
      read_count = put m.read_count lun ((at m.read_count lun + count) % 2 ^ 32);
      last_error = put m.last_error lun ok;
    },
  )
  read_done lun count (hal_err e) m = (
    read_error,
    record m {
      error_count = put m.error_count lun ((at m.error_count lun + 1) % 2 ^ 32);
      last_error = put m.last_error lun read_error;
    },
  )

  -- `msc_hal_read_sectors`: the status, the bytes that the drive put into the buffer, the state.
  unfoldable pub msc_read : ℕ → ℕ → ℕ → Msc H → MscStatus × List ℕ × Msc H
  unfolding read_done
  msc_read lun lba count m =
      let cfg = at m.luns lun in
      let routed : MscStatus × List ℕ × Msc H = elim cfg.lun_type [
        | fdd ↦
            let (ret, bytes, h) = read_sectors m.dev cfg.drive_index lba count in
            let (status, m') = read_done lun count ret (record m { dev = h }) in (status, bytes, m')
        | hdd ↦
            let (ret, bytes, h) = hdd_read_sectors m.dev cfg.drive_index lba count in
            let (status, m') = read_done lun count ret (record m { dev = h }) in (status, bytes, m')
        | no_drive ↦ (invalid_lun, [], m)
      ] in
      if leb max_luns lun
      then (invalid_lun, [], m)
      else if not cfg.present
      then (no_media, [], (fail lun no_media m).1)
      else if ltb cfg.capacity ((lba + count) % 2 ^ 32)
      then (lba_range, [], (fail lun lba_range m).1)
      else routed

  -- The end of `msc_hal_write_sectors`.
  unfoldable pub write_done : ℕ → ℕ → HalStatus → Msc H → MscStatus × Msc H
  write_done lun count hal_ok m = (
    ok,
    record m {
      write_count = put m.write_count lun ((at m.write_count lun + count) % 2 ^ 32);
      last_error = put m.last_error lun ok;
    },
  )
  write_done lun count (hal_err e) m = (
    write_error,
    record m {
      error_count = put m.error_count lun ((at m.error_count lun + 1) % 2 ^ 32);
      last_error = put m.last_error lun write_error;
    },
  )

  -- `msc_hal_write_sectors`
  unfoldable pub msc_write : ℕ → ℕ → List ℕ → ℕ → Msc H → MscStatus × Msc H
  unfolding write_done
  msc_write lun lba bytes count m =
      let cfg = at m.luns lun in
      let routed : MscStatus × Msc H = elim cfg.lun_type [
        | fdd ↦
            let (ret, h) = write_sectors m.dev cfg.drive_index lba bytes count in
            write_done lun count ret (record m { dev = h })
        | hdd ↦
            let (ret, h) = hdd_write_sectors m.dev cfg.drive_index lba bytes count in
            write_done lun count ret (record m { dev = h })
        | no_drive ↦ (invalid_lun, m)
      ] in
      if leb max_luns lun
      then (invalid_lun, m)
      else if not cfg.present
      then fail lun no_media m
      else if cfg.readonly
      then fail lun write_prot m
      else if ltb cfg.capacity ((lba + count) % 2 ^ 32)
      then fail lun lba_range m
      else routed

  -- `msc_hal_start_stop`; the drive's return value and `eject` are not used.
  unfoldable pub start_stop : ℕ → Bool → Bool → Msc H → MscStatus × Msc H
  start_stop lun start eject m =
      let cfg = at m.luns lun in
      if leb max_luns lun then (invalid_lun, m) else elim cfg.lun_type [
        | fdd ↦
            if start
            then (ok, record m { dev = (motor_on m.dev cfg.drive_index).1 })
            else (ok, record m { dev = (motor_off m.dev cfg.drive_index).1 })
        | _ ↦ (ok, m)
      ]

  -- `msc_hal_prevent_removal`: not implemented, always MSC_OK.
  unfoldable pub prevent_removal : ℕ → Bool → Msc H → MscStatus × Msc H
  prevent_removal lun prevent m = (ok, m)

  -- `msc_hal_get_capacity`: the last LBA and the block size; `none` is MSC_ERR_INVALID_LUN.
  unfoldable pub get_capacity : ℕ → Msc H → Option (ℕ × ℕ)
  get_capacity lun m =
      let cfg = at m.luns lun in
      if leb max_luns lun
      then none
      else some (if ltb 0 cfg.capacity then cfg.capacity - 1 else 0, cfg.block_size)

  abbrev pub same_bool : Bool → Bool → Bool
  same_bool true b = b
  same_bool false b = not b

  -- The detection that `msc_hal_refresh_lun` repeats.
  unfoldable pub rescan : ℕ → Msc H → Msc H
  unfolding configure_fdd_lun configure_hdd_lun
  rescan lun m =
      let cfg = at m.luns lun in
      elim cfg.lun_type [
        | fdd ↦ configure_fdd_lun hal lun cfg.drive_index m
        | hdd ↦ configure_hdd_lun hal lun cfg.drive_index m
        | no_drive ↦ m
      ]

  -- `msc_hal_refresh_lun`
  unfoldable pub refresh_lun : ℕ → Msc H → MscStatus × Msc H
  refresh_lun lun m =
      let rescanned = rescan lun m in
      let cfg = at rescanned.luns lun in
      if leb max_luns lun
      then (invalid_lun, m)
      else if same_bool cfg.present (at m.luns lun).present
      then (ok, rescanned)
      else (ok, set_lun lun (record cfg { changed = true }) rescanned)

  -- `msc_hal_get_last_error` and `msc_hal_get_stats` (reads, writes, errors).
  unfoldable pub get_last_error : ℕ → Msc H → MscStatus
  get_last_error lun m = if leb max_luns lun then invalid_lun else at m.last_error lun

  unfoldable pub get_stats : ℕ → Msc H → ℕ × ℕ × ℕ
  get_stats lun m =
      if leb max_luns lun
      then (0, 0, 0)
      else (at m.read_count lun, at m.write_count lun, at m.error_count lun)
