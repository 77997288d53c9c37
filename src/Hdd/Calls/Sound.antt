-- ===== src/Hdd/Calls/Sound.antt =====
-- What every sequence of calls of soc/firmware/src/hdd_hal.c keeps of its state.
pub mod Steps
pub mod Finding
pub mod Reached
use native.Mathlib.Nat.{mod-lt, mod-eq_of_lt}
use flux_ripper.Base.{
  ℕ, zero, suc, ◌+◌, ◌-◌, ◌*◌, ◌/◌, ◌%◌, ◌^◌, ◌<◌, ◌≡◌, refl, sym, arith, Bool, true, false, ◌&&◌,
  ◌||◌, not, ◌==◌, ltb, if◌then◌else◌, Option, none, some, List, [], ◌∷◌, any_bit, bit_or, bit_and,
}
use flux_ripper.Act.{
  Outcome, returns, fails, Act, pure, fail, check, gets, modify, step, ◌>>=◌, ◌>>◌,
}
use flux_ripper.Act.Triples.{
  Post, Triple, ends-Post, weaken_left, widen, bind-Triple, ◌>>-keeps◌, if-Triple, check-Triple,
  pure-Triple, fail-Triple, step-Triple, modify-Triple, wait-Triple,
}
use flux_ripper.Wd.Device.{HalRet, hal_timeout, hal_not_supported}
use flux_ripper.Hdd.Device.{HddReg, status_of, cmd_of, target_of, health_of, HddIo}
use flux_ripper.Hdd.State.{
  hal_invalid, hal_not_ready, Detection, Geometry, EsdiConfig, Profile, DriveState, Hdd,
  valid_drive, fresh_drive, no_geometry, field, drive_at, put_drive, put_profile, geometry_from,
}
use flux_ripper.Hdd.Esdi.{config_from, adopt_config}
use flux_ripper.Hdd.Address.Inverse.{product-fits}

-- The geometry is in the types of its fields, and its total is the product.
pub record IsCounted (g : Geometry) : Type 0 where
  pub cylinders_fit : g.cylinders < 2 ^ 16
  pub heads_fit : g.heads < 2 ^ 8
  pub sectors_fit : g.sectors < 2 ^ 8
  pub counted : g.total_sectors ≡ g.cylinders * g.heads * g.sectors

pub record IsDrive (d : DriveState) : Type 0 where
  pub geometry_counted : IsCounted (d.profile.geometry)
  pub head_fits : d.current_head < 16

pub record IsSound {H : Type 0} (s : Hdd H) : Type 0 where
  pub active_fits : s.active_drive < 2
  pub sound0 : IsDrive (s.drive0)
  pub sound1 : IsDrive (s.drive1)

fresh_drive-IsDrive : IsDrive fresh_drive
fresh_drive-IsDrive = record {
  geometry_counted = record {
    cylinders_fit = omega arith;
    heads_fit = omega arith;
    sectors_fit = omega arith;
    counted = refl;
  };
  head_fits = omega arith;
}

-- The two places where a geometry is made: discovery and the ESDI configuration.
total-counted : (c h s : ℕ) → c < 2 ^ 16 → h < 2 ^ 8 → s < 2 ^ 8 → c * h * s % 2 ^ 32 ≡ c * h * s
total-counted c h s p q r = mod-eq_of_lt (product-fits c h s p q r)

pub geometry_from-IsCounted : (a b e : ℕ) → IsCounted (geometry_from a b e)
unfolding geometry_from
geometry_from-IsCounted a b e =
    let c : field a 16 16 < 2 ^ 16 = omega arith in
    let h : field a 0 4 < 2 ^ 8 = omega arith in
    let n : field b 0 8 < 2 ^ 8 = omega arith in
    record {
      cylinders_fit = c;
      heads_fit = h;
      sectors_fit = n;
      counted = total-counted _ _ _ c h n;
    }

pub adopt_config-IsCounted :
    (a b : ℕ) (g : Geometry) → IsCounted g → IsCounted (adopt_config (config_from a b) g)
unfolding adopt_config config_from
adopt_config-IsCounted a b g p =
    let c : field a 0 16 < 2 ^ 16 = omega arith in
    let h : field b 8 8 < 2 ^ 8 = omega arith in
    let n : field b 0 8 < 2 ^ 8 = omega arith in
    if_counted _ _ _
      (record {
        cylinders_fit = c;
        heads_fit = h;
        sectors_fit = n;
        counted = total-counted _ _ _ c h n;
      })
      p
  where
    if_counted :
        (b : Bool) (g g' : Geometry) → IsCounted g → IsCounted g' → IsCounted (if b then g else g')
    if_counted true g g' p q = p
    if_counted false g g' p q = q

module _ {H : Type 0} where
  abbrev pub Sound : Hdd H → Type 0
  Sound = IsSound

  pub Sound-io : (h : H) (s : Hdd H) → Sound s → Sound (record s { io = h })
  Sound-io h s p = record { active_fits = p.active_fits; sound0 = p.sound0; sound1 = p.sound1 }

  pub drive_at-IsDrive : (drive : ℕ) (s : Hdd H) → Sound s → IsDrive (drive_at s drive)
  drive_at-IsDrive drive s p = pick (drive == 0)
    where
      pick : (b : Bool) → IsDrive (if b then s.drive0 else s.drive1)
      pick true = p.sound0
      pick false = p.sound1

  pub put_drive-Sound :
      (drive : ℕ) (d : DriveState) (s : Hdd H) → IsDrive d → Sound s → Sound (put_drive drive d s)
  put_drive-Sound drive d s q p = pick (drive == 0)
    where
      pick : (b : Bool) → Sound (if b then record s { drive0 = d } else record s { drive1 = d })
      pick true = record { active_fits = p.active_fits; sound0 = q; sound1 = p.sound1 }
      pick false = record { active_fits = p.active_fits; sound0 = p.sound0; sound1 = q }

  -- A profile with a geometry that is counted.
  pub put_profile-Sound :
      (drive : ℕ) (f : Profile) (s : Hdd H)
      → IsCounted (f.geometry)
      → Sound s
      → Sound (put_profile drive f s)
  put_profile-Sound drive f s q p =
      put_drive-Sound drive _ s
        (record { geometry_counted = q; head_fits = (drive_at-IsDrive drive s p).head_fits }) p
