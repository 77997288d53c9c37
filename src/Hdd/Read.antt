-- ===== src/Hdd/Read.antt =====
-- Reading sectors in soc/firmware/src/hdd_hal.c.
pub mod Stored
pub mod Placed
pub mod Blocks
use flux_ripper.Base.{
  ℕ, zero, suc, ◌+◌, ◌-◌, ◌*◌, ◌/◌, ◌%◌, ◌^◌, Bool, true, false, not, ◌&&◌, ◌||◌, ◌==◌, ltb,
  if◌then◌else◌, bit_and, bit_or, any_bit, Option, none, some, List, [], ◌∷◌, ◌++◌,
}
use flux_ripper.Wait.{Verdict, undecided, settled, wait}
use flux_ripper.Act.{
  Outcome, returns, fails, Act, pure, fail, check, gets, modify, step, ◌>>=◌, ◌>>◌,
}
use flux_ripper.Wd.Device.{HalRet, hal_ok, hal_not_supported, hal_timeout}
use flux_ripper.Hdd.Device.{HddReg, status_of, cmd_of, target_of, health_of, HddIo}
use flux_ripper.Hdd.State.{
  hal_invalid, hal_not_ready, hal_hardware, Detection, Geometry, Health, EsdiConfig, Profile,
  DriveState, Hdd, valid_drive, fresh_drive, field, drive_at, put_drive, put_profile,
  unpack_detection, geometry_from, health_from,
}
use flux_ripper.Hdd.Seek.{
  and_not32, Call, hdd_clock, read, read_reg, write_reg, poll, check_initialized, enter,
  put_cylinder, seek, select_drive, select_head,
}
use flux_ripper.Hdd.Address.{Place, lba_to_chs}

-- The loop that waits for the data; that it is late shows in the read that follows.
abbrev pub judge_data : ℕ → Verdict (Outcome HalRet (Unit {0}))
judge_data status = if any_bit status (2 ^ 1) then settled (returns tt) else undecided

module _ {H : Type 0} where
  -- The bytes of a sector, 512 where the profile has none.
  abbrev pub size_of : ℕ → Hdd H → ℕ
  size_of drive s =
      let size = (drive_at s drive).profile.geometry.sector_size in if size == 0 then 512 else size

module _ {H : Type 0} (hw : HddIo H) where
  -- The loop that copies `n` words of the sector buffer.
  unfoldable pub copy_words : ℕ → Hdd H → Hdd H
  copy_words zero s = s
  copy_words (suc n) s =
      let (v, h) = hw.read_reg HddReg.sector_data s.io in
      copy_words n (record s { io = h; stored = s.stored ++ (v ∷ []) })

  abbrev pub select_if : ℕ → Call hw (Unit {0})
  select_if drive s = if s.active_drive == drive then pure tt s else select_drive hw drive s

  abbrev pub seek_if : ℕ → ℕ → ℕ → Call hw (Unit {0})
  seek_if fuel drive cylinder s =
      if (drive_at s drive).current_cylinder == cylinder
      then pure tt s
      else seek hw fuel drive cylinder s

  unfoldable pub wait_data : ℕ → Call hw (Unit {0})
  wait_data fuel =
      wait (hdd_clock hw) (λ s. let (v, s') = read hw HddReg.sector_status s in (judge_data v, s'))
        (returns tt) 1000 1 fuel

  -- `hdd_read_sector`, where `has_buffer` says that the buffer is not NULL.
  unfoldable pub read_sector : ℕ → ℕ → Place → Bool → Call hw (Unit {0})
  read_sector fuel drive p has_buffer = do
    check_initialized hw
    check (valid_drive drive && has_buffer) hal_invalid
    select_if drive
    seek_if fuel drive (p.cylinder)
    select_head hw drive (p.head)
    write_reg hw HddReg.sector_addr (p.sector)
    write_reg hw HddReg.sector_ctrl (2 ^ 0)
    wait_data fuel
    status ← read_reg hw HddReg.sector_status
    check (any_bit status (2 ^ 1)) hal_timeout
    modify λ s. copy_words (size_of drive s / 4) s

  -- The loop of `hdd_read_lba`: `n` sectors are left, the next has the address `lba`.
  unfoldable pub read_sectors : ℕ → ℕ → ℕ → ℕ → Call hw (Unit {0})
  read_sectors fuel drive zero lba s = pure tt s
  read_sectors fuel drive (suc n) lba s =
      let rest = read_sectors fuel drive n (lba + 1) in
      (read_sector fuel drive (lba_to_chs ((drive_at s drive).profile.geometry) (lba % 2 ^ 32)) true
          >> rest)
        s

  abbrev pub check_valid : ℕ → Call hw (Unit {0})
  check_valid drive s = check ((drive_at s drive).profile.valid) hal_not_ready s

  -- `hdd_read_lba`
  unfoldable pub read_lba : ℕ → ℕ → ℕ → ℕ → Bool → Call hw (Unit {0})
  read_lba fuel drive lba count has_buffer = do
    check_initialized hw
    check (valid_drive drive) hal_not_ready
    check_valid drive
    check (has_buffer && not (count == 0)) hal_invalid
    read_sectors fuel drive count lba
