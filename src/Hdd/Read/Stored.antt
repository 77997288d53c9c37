-- ===== src/Hdd/Read/Stored.antt =====
-- What the reads of soc/firmware/src/hdd_hal.c ask of the hardware, what they store, and where they leave the
-- drive.
use flux_ripper.Base.{
  ℕ, zero, suc, ◌*◌, ◌/◌, ◌^◌, ◌≡◌, refl, sym, ap, ◌∙◌, arith, true, ◌==◌, if◌then◌else◌, bit_and,
  any_bit, List, [], ◌∷◌, ◌++◌, length,
}
use mathlib.Core.List.{append_assoc, append-nil}
use flux_ripper.Hdd.Device.{HddReg, cmd_of, HddIo}
use flux_ripper.Hdd.State.{Profile, DriveState, Hdd, drive_at, put_drive}
use flux_ripper.Hdd.Address.{Place}
use flux_ripper.Hdd.Read.{copy_words}

-- The words of a sector.
abbrev pub words_of : Profile → ℕ
words_of p = (if p.geometry.sector_size == 0 then 512 else p.geometry.sector_size) / 4

module _ {H : Type 0} (hw : HddIo H) where
  -- `n` words that the data register gives in a row, and the hardware after them.
  unfoldable pub take_words : ℕ → H → List ℕ × H
  take_words zero h = ([], h)
  take_words (suc n) h =
      let (v, h1) = hw.read_reg HddReg.sector_data h in
      let (vs, h2) = take_words n h1 in (v ∷ vs, h2)

  -- From one state of the hardware to another with readings of the clock, delays and looks at the status
  -- of the sector buffer only.
  pub data Waited (h : H) : H → Type 0 where
    at_once : Waited h h
    timed : (h1 : H) → Waited h h1 → Waited h (hw.clock.get_time_ms h1).1
    delayed : (n : ℕ) (h1 : H) → Waited h h1 → Waited h (hw.clock.delay_ms n h1)
    looked : (h1 : H) → Waited h h1 → Waited h (hw.read_reg HddReg.sector_status h1).1

  -- The writes that start the reading of a sector: the head, the number of the sector, the start bit.
  abbrev pub select : ℕ → Place → H → H
  select drive p h = hw.write_reg (cmd_of drive) (bit_and (p.head * 2 ^ 4) 0xF0) h

  abbrev pub ask : ℕ → Place → H → H
  ask drive p h =
      hw.write_reg HddReg.sector_ctrl 1
        (hw.write_reg HddReg.sector_addr (p.sector) (select drive p h))

  -- The list `ws` is the sector at the place `p`, as the hardware gave it: it was asked for the head and the
  -- number of the sector and waited for, its status then showed data, and `ws` are the `n` words
  -- that the data register gave next.
  pub record IsSector (drive : ℕ) (p : Place) (n : ℕ) (ws : List ℕ) : Type 0 where
    pub before : H
    pub ready : H
    pub waited : Waited (ask drive p before) ready
    pub shown : any_bit ((hw.read_reg HddReg.sector_status ready).0) (2 ^ 1) ≡ true
    pub taken : ws ≡ (take_words n ((hw.read_reg HddReg.sector_status ready).1)).0
    pub size : length ws ≡ n

  pub length-take_words : (n : ℕ) (h : H) → length ((take_words n h).0) ≡ n
  unfolding take_words
  length-take_words zero h = refl
  length-take_words (suc n) h = ap suc (length-take_words n ((hw.read_reg HddReg.sector_data h).1))

  -- The copying loop stores the words that the data register gives.
  pub copy_words-take_words :
      (n : ℕ) (s : Hdd H)
      → copy_words hw n s
        ≡ record s { io = (take_words n (s.io)).1; stored = s.stored ++ (take_words n (s.io)).0 }
  unfolding copy_words take_words
  copy_words-take_words zero s = ap (λ l. record s { stored = l }) (sym (append-nil (s.stored)))
  copy_words-take_words (suc n) s =
      let (v, h) = hw.read_reg HddReg.sector_data s.io in
      copy_words-take_words n (record s { io = h; stored = s.stored ++ (v ∷ []) })
      ∙ ap (λ l. record s { io = (take_words n h).1; stored = l })
          (append_assoc (s.stored) (v ∷ []) ((take_words n h).0))

module _ {H : Type 0} where
  -- The layer is started, the drive has the profile, and `xs` is stored.
  pub record IsReading (drive : ℕ) (p : Profile) (xs : List ℕ) (s : Hdd H) : Type 0 where
    pub started : s.initialized ≡ true
    pub keeps : (drive_at s drive).profile ≡ p
    pub stores : s.stored ≡ xs

  -- The drive is selected and its heads are at the place.
  pub record IsAt (drive : ℕ) (p : Place) (s : Hdd H) : Type 0 where
    pub selected : s.active_drive ≡ drive
    pub at_cylinder : (drive_at s drive).current_cylinder ≡ p.cylinder
    pub at_head : (drive_at s drive).current_head ≡ p.head

  -- What a change of a drive's own state leaves.
  pub put_drive_leaves :
      (drive : ℕ) (d : DriveState) (s : Hdd H)
      → ((put_drive drive d s).initialized ≡ s.initialized)
        × (drive_at (put_drive drive d s) drive ≡ d)
        × ((put_drive drive d s).stored ≡ s.stored)
        × ((put_drive drive d s).active_drive ≡ s.active_drive)
        × ((put_drive drive d s).io ≡ s.io)
  put_drive_leaves drive d s = ground arith

  pub put_drive-IsReading :
      (drive : ℕ) (p : Profile) (xs : List ℕ) (d : DriveState) (s : Hdd H)
      → d.profile ≡ (drive_at s drive).profile
      → IsReading drive p xs s
      → IsReading drive p xs (put_drive drive d s)
  put_drive-IsReading drive p xs d s e r =
      let leaves = put_drive_leaves drive d s in
      record {
        started = leaves.0 ∙ r.started;
        keeps = ap (λ x. x.profile) leaves.1 ∙ e ∙ r.keeps;
        stores = leaves.2 ∙ r.stores;
      }
