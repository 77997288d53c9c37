-- ===== src/Hdd/Read/Blocks.antt =====
-- `hdd_read_lba` of soc/firmware/src/hdd_hal.c: a run of sectors.
use flux_ripper.Base.{
  ℕ, zero, suc, ◌+◌, ◌%◌, ◌^◌, ◌<◌, ◌≡◌, refl, sym, subst, arith, Bool, true, List, [], ◌++◌,
}
use mathlib.Core.List.{append-nil, append_assoc}
use flux_ripper.Act.Triples.{
  Post, Triple, widen, bind-Triple, pure-Triple, ◌>>-keeps◌, check-Triple, exists-Triple,
}
use flux_ripper.Hdd.Device.{HddIo}
use flux_ripper.Hdd.State.{hal_not_ready, Profile, Hdd, valid_drive, drive_at}
use flux_ripper.Hdd.Address.{Place, lba_to_chs}
use flux_ripper.Hdd.Seek.{Call}
use flux_ripper.Hdd.Framing.{init-Triple}
use flux_ripper.Hdd.Read.{read_sector, read_sectors, read_lba}
use flux_ripper.Hdd.Read.Stored.{words_of, IsSector, IsReading, IsAt}
use flux_ripper.Hdd.Read.Placed.{Got, read_sector-Triple}

-- The place of a 32-bit block address.
abbrev pub place_of : Profile → ℕ → Place
place_of prof lba = lba_to_chs prof.geometry (lba % 2 ^ 32)

module _ {H : Type 0} (hw : HddIo H) (drive : ℕ) (prof : Profile) where
  -- The list `ys` is the sectors of `count` addresses from `lba` on, one after the other, as the hardware gave them.
  unfoldable pub IsRun : ℕ → ℕ → List ℕ → Type 0
  IsRun lba zero ys = ys ≡ []
  IsRun lba (suc k) ys =
      (ws : List ℕ) × (rest : List ℕ) × IsSector hw drive (place_of prof lba) (words_of prof) ws
      × IsRun (lba + 1) k rest
      × (ys ≡ ws ++ rest)

  -- The heads are at the last of `count` sectors, if there is one.
  unfoldable pub IsAtLast : ℕ → ℕ → Hdd H → Type 0
  IsAtLast lba zero s = Unit {0}
  IsAtLast lba (suc k) s = IsAt drive (place_of prof (lba + k)) s

  -- After `count` sectors behind `xs`, and after an error before that.
  abbrev pub Done : List ℕ → ℕ → ℕ → Hdd H → Type 0
  Done xs lba count s =
      (ys : List ℕ) × IsRun lba count ys × IsReading drive prof (xs ++ ys) s × IsAtLast lba count s

  abbrev pub Stopped : List ℕ → ℕ → ℕ → Hdd H → Type 0
  Stopped xs lba count s =
      (j : ℕ) × (j < count) × (ys : List ℕ) × IsRun lba j ys × IsReading drive prof (xs ++ ys) s

  abbrev Sector : ℕ → Type 0
  Sector lba = (ws : List ℕ) × IsSector hw drive (place_of prof lba) (words_of prof) ws

  Done-one :
      (xs : List ℕ) (lba : ℕ) (x : Sector lba) (s : Hdd H)
      → IsReading drive prof (xs ++ x.0) s
      → IsAt drive (place_of prof lba) s
      → Done xs lba 1 s
  unfolding IsRun IsAtLast
  Done-one xs lba (ws, i) s r a = (
    ws,
    (ws, [], i, refl, sym (append-nil ws)),
    r,
    subst (λ l. IsAt drive (place_of prof l) s) (omega arith) a,
  )

  Done-more :
      (xs : List ℕ) (lba k : ℕ) (x : Sector lba) (s : Hdd H)
      → Done (xs ++ x.0) (lba + 1) (suc k) s
      → Done xs lba (suc (suc k)) s
  unfolding IsRun IsAtLast
  Done-more xs lba k (ws, i) s (ys, run, r, a) = (
    ws ++ ys,
    (ws, ys, i, run, refl),
    subst (λ l. IsReading drive prof l s) (append_assoc xs ws ys) r,
    subst (λ l. IsAt drive (place_of prof l) s) (omega arith) a,
  )

  Stopped-more :
      (xs : List ℕ) (lba k : ℕ) (x : Sector lba) (s : Hdd H)
      → Stopped (xs ++ x.0) (lba + 1) k s
      → Stopped xs lba (suc k) s
  unfolding IsRun
  Stopped-more xs lba k (ws, i) s (j, l, ys, run, r) = (
    suc j,
    omega arith,
    ws ++ ys,
    (ws, ys, i, run, refl),
    subst (λ l. IsReading drive prof l s) (append_assoc xs ws ys) r,
  )

  Stopped-at_once :
      (xs : List ℕ) (lba k : ℕ) (s : Hdd H) → IsReading drive prof xs s → Stopped xs lba (suc k) s
  unfolding IsRun
  Stopped-at_once xs lba k s r =
      (0, omega arith, [], refl, subst (λ l. IsReading drive prof l s) (sym (append-nil xs)) r)

  -- The sector at an address, its place taken from the profile in the state.
  abbrev next_sector : ℕ → ℕ → Call hw (Unit {0})
  next_sector fuel lba s =
      read_sector hw fuel drive (place_of ((drive_at s drive).profile) lba) true s

  next_sector-Triple :
      (xs : List ℕ) (fuel lba : ℕ)
      → Triple
          (IsReading drive prof xs)
          (next_sector fuel lba)
          (λ _. Got hw drive prof xs (place_of prof lba))
          (IsReading drive prof xs)
  next_sector-Triple xs fuel lba = record {
    holds = λ s r.
        subst
          (λ (p : Profile).
            Post (λ _. Got hw drive prof xs (place_of p lba)) (IsReading drive prof xs)
              (next_sector fuel lba s))
          r.keeps
          ((read_sector-Triple hw drive prof xs fuel (place_of ((drive_at s drive).profile) lba)
              true).holds
            s r);
  }

  read_sectors-Triple :
      (fuel count lba : ℕ) (xs : List ℕ)
      → Triple
          (IsReading drive prof xs)
          (read_sectors hw fuel drive (suc count) lba)
          (λ _. Done xs lba (suc count))
          (Stopped xs lba (suc count))
  unfolding read_sectors
  read_sectors-Triple fuel zero lba xs =
      bind-Triple (λ _. Done xs lba 1)
        (widen (λ _ s (x, r, a). Done-one xs lba x s r a) (Stopped-at_once xs lba 0)
          (next_sector-Triple xs fuel lba))
        (λ _. pure-Triple tt λ s d. d)
  read_sectors-Triple fuel (suc k) lba xs =
      bind-Triple (λ _ s. (x : Sector lba) × IsReading drive prof (xs ++ x.0) s)
        (widen (λ _ s (x, r, a). (x, r)) (Stopped-at_once xs lba (suc k))
          (next_sector-Triple xs fuel lba))
        (λ _. exists-Triple λ x.
          widen (λ _. Done-more xs lba k x) (Stopped-more xs lba (suc k) x)
            (read_sectors-Triple fuel k (lba + 1) (xs ++ x.0)))

module _ {H : Type 0} (hw : HddIo H) where
  pub read_lba-Post :
      (fuel drive lba count : ℕ) (has_buffer : Bool) (s : Hdd H)
      → s.initialized ≡ true
      → 0 < count
      → Post
          (λ _. Done hw drive ((drive_at s drive).profile) (s.stored) lba count)
          (Stopped hw drive ((drive_at s drive).profile) (s.stored) lba count)
          (read_lba hw fuel drive lba count has_buffer s)
  unfolding read_lba
  read_lba-Post fuel drive lba zero has_buffer s e p = absurd (omega arith)
  read_lba-Post fuel drive lba (suc k) has_buffer s e p =
      let prof = (drive_at s drive).profile in
      let start = IsReading drive prof (s.stored) in
      let stop = Stopped-at_once hw drive prof (s.stored) lba k in
      let blind : (h : H) (t : Hdd H)
          → IsReading drive prof (s.stored) t
          → IsReading drive prof (s.stored) (record t { io = h }) =
        λ h t r. record { started = r.started; keeps = r.keeps; stores = r.stores } in
      let reads =
        init-Triple hw start (Stopped hw drive prof (s.stored) lba (suc k)) blind stop
        >>-keeps check-Triple (valid_drive drive) hal_not_ready stop
        >>-keeps record {
          holds = λ s. (check-Triple ((drive_at s drive).profile.valid) hal_not_ready stop).holds s;
        }
        >>-keeps check-Triple _ _ stop
        >>-keeps read_sectors-Triple hw drive prof fuel k lba (s.stored) in
      reads.holds s (record { started = e; keeps = refl; stores = refl })
