-- ===== src/Msc/Lun/Capacity.antt =====
-- The floppy capacities that the firmware computes.
use flux_ripper.Base.{◌≤◌, arith}
use flux_ripper.Msc.Device.{DriveProfile, DriveHal}
use flux_ripper.Msc.Lun.{profile_cylinders, sectors_per_track, calculate_fdd_capacity}

module _ {H : Type 0} (hal : DriveHal H) where
  open hal use {tracks_40, tracks_77, tracks_80}

  profile_cylinders_bounds :
      (p : DriveProfile) → (40 ≤ profile_cylinders hal p) × (profile_cylinders hal p ≤ 80)
  unfolding profile_cylinders
  profile_cylinders_bounds p = ground arith

  sectors_per_track_bounds :
      (p : DriveProfile) → (9 ≤ sectors_per_track hal p) × (sectors_per_track hal p ≤ 36)
  unfolding sectors_per_track
  sectors_per_track_bounds p = ground arith

  -- Whatever the profile says, a floppy has between 720 and 5760 sectors, so that the count fits
  -- the 16 bits it is cast to for the geometry register.
  pub calculate_fdd_capacity_bounds :
      (p : DriveProfile)
      → (720 ≤ calculate_fdd_capacity hal p) × (calculate_fdd_capacity hal p ≤ 5760)
  unfolding calculate_fdd_capacity
  calculate_fdd_capacity_bounds p =
      grind (arith, profile_cylinders_bounds p, sectors_per_track_bounds p)
