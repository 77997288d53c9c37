-- ===== src/Wd/Port/Transfer.antt =====
-- The data-out phase: how many words it takes, which sectors it visits, and what it asks of the hardware.
pub mod Commands
use flux_ripper.Base.{
  ℕ, zero, suc, ◌+◌, ◌-◌, ◌*◌, ◌/◌, ◌%◌, ◌^◌, ◌≤◌, ◌<◌, ◌≡◌, ◌≢◌, refl, sym, ap, ◌∙◌, subst, Bool,
  true, false, not, ◌&&◌, ◌||◌, ◌==◌, ltb, leb, if◌then◌else◌, arith, any_bit, bit_or, bit_and,
  and_not8,
}
use native.Mathlib.Numerals.{unary_clauses}
use flux_ripper.Wd.Device.{WdReg, WdHal}
use flux_ripper.Wd.State.{
  bsy, rdy, sc, drq, err, WdPhase, DriveGeometry, Wd, geometry_at, complete_command,
}
use flux_ripper.Wd.Flags.{complete_command-Shows}
use flux_ripper.Wd.Port.{Place, place, next_place, sector_taken, next_sector, read_data}

-- The block number of a place in a geometry.
unfoldable pub block_no : DriveGeometry → Place → ℕ
block_no g p = (p.at_cylinder * g.heads + p.at_head) * g.sectors + (p.at_sector - 1)

-- A place inside a geometry that the 8-bit registers hold.
pub record IsPlaced (g : DriveGeometry) (p : Place) : Type 0 where
  pub from_one : 0 < p.at_sector
  pub in_track : p.at_sector ≤ g.sectors
  pub in_byte : g.sectors < 255
  pub in_cylinder : p.at_head < g.heads
  pub head_byte : g.heads < 256

-- The controller offers a whole sector in the data-out phase, as READ SECTORS and IDENTIFY leave it.
pub record IsOffering {H : Type 0} (w : Wd H) : Type 0 where
  pub offers : w.phase ≡ WdPhase.data_out
  pub asks : any_bit w.status drq ≡ true
  pub whole : w.bytes_pending ≡ 512
  pub from_start : w.buffer_offset ≡ 0

-- The controller offers words of a sector: `d` is the drive and `g` its geometry, `p` the place in the
-- task file, `count` the sector count register, `m` the words of this sector that were taken, and `h` the
-- state of the hardware.
pub record IsSending {H : Type 0} (w : Wd H) (d : ℕ) (g : DriveGeometry) (p : Place) (count m : ℕ)
    (h : H) : Type 0 where
  pub sends : w.phase ≡ WdPhase.data_out
  pub asks : any_bit w.status drq ≡ true
  pub counts : w.sector_count ≡ count
  pub holds : w.bytes_pending ≡ 512 - 2 * m
  pub at_offset : w.buffer_offset ≡ 2 * m
  pub of_drive : w.drive ≡ d
  pub in_geometry : geometry_at w w.drive ≡ g
  pub in_place : place w ≡ p
  pub hardware : w.hw ≡ h

-- The transfer is over, with the hardware in the state `h`.
pub record IsFinished {H : Type 0} (w : Wd H) (h : H) : Type 0 where
  pub rests : w.phase ≡ WdPhase.idle
  pub silent : any_bit w.status drq ≡ false
  pub free : any_bit w.status bsy ≡ false
  pub none_left : w.sector_count ≡ 0
  pub hardware : w.hw ≡ h

next_row : (a s : ℕ) → (a + 1) * s ≡ a * s + s
next_row a s = omega arith

-- Advancing goes to the next block, where the cylinder register does not wrap.
next_place-block_no :
    (g : DriveGeometry) (p : Place)
    → IsPlaced g p
    → p.at_cylinder + 1 < 2 ^ 16
    → block_no g (next_place g p) ≡ block_no g p + 1
unfolding next_place block_no
next_place-block_no g p i q =
    let e = next_row (p.at_cylinder * g.heads + p.at_head) g.sectors in
    let f = next_row p.at_cylinder g.heads in
    let h = ap (λ (a : ℕ). a * g.sectors) f in ground arith

next_place-IsPlaced : (g : DriveGeometry) (p : Place) → IsPlaced g p → IsPlaced g (next_place g p)
unfolding next_place
next_place-IsPlaced g p i = ground arith

next_place-cylinder :
    (g : DriveGeometry) (p : Place) → (next_place g p).at_cylinder ≤ p.at_cylinder + 1
unfolding next_place
next_place-cylinder g p = ground arith

-- `k` advances.
unfoldable pub places : ℕ → DriveGeometry → Place → Place
places zero g p = p
places (suc k) g p = next_place g (places k g p)

pub places-lem :
    (k : ℕ) (g : DriveGeometry) (p : Place)
    → IsPlaced g p
    → p.at_cylinder + k < 2 ^ 16
    → IsPlaced g (places k g p)
      × (block_no g (places k g p) ≡ block_no g p + k)
      × ((places k g p).at_cylinder ≤ p.at_cylinder + k)
unfolding places
places-lem zero g p i q = (i, omega arith, omega arith)
places-lem (suc k) g p i q =
    let (j, e, b) = places-lem k g p i (omega arith) in
    let q' = places k g p in
    (
      next_place-IsPlaced g q' j,
      omega (arith, e, next_place-block_no g q' j (omega arith)),
      omega (arith, b, next_place-cylinder g q'),
    )

-- The sectors that a count register asks for: 0 stands for 256.
abbrev pub total : ℕ → ℕ
total count = if count == 0 then 256 else count

module _ {H : Type 0} (hal : WdHal H) where
  -- What a read of the buffer at an offset gives, and the hardware after it.
  abbrev pub buffer_word : ℕ → H → ℕ × H
  buffer_word offset h = hal.reg_read WdReg.buffer_data (hal.reg_write WdReg.buffer_addr offset h)

  -- The hardware after the first `m` words of the buffer were read in order.
  unfoldable pub drained : ℕ → H → H
  drained zero h = h
  drained (suc m) h = (buffer_word (2 * m) (drained m h)).1

  -- The hardware after a sector at a place was read to the buffer.
  abbrev pub fetch : ℕ → Place → H → H
  fetch d p h = (hal.hdd_read_sector d p.at_cylinder p.at_head p.at_sector h).1

  -- The hardware after `k` times a whole buffer was taken and the sector of the next place was read.
  unfoldable pub fetched : ℕ → DriveGeometry → Place → ℕ → H → H
  fetched d g p zero h = h
  fetched d g p (suc k) h = fetch d (places (suc k) g p) (drained 256 (fetched d g p k h))

  -- The state after `n` reads of the data port.
  unfoldable pub read_words : ℕ → Wd H → Wd H
  read_words zero w = w
  read_words (suc n) w = (read_data hal (read_words n w)).1

  read_words-add : (m n : ℕ) (w : Wd H) → read_words (m + n) w ≡ read_words m (read_words n w)
  unfolding read_words
  read_words-add zero n w = let e : 0 + n ≡ n = omega arith in ap (λ k. read_words k w) e
  read_words-add (suc m) n w =
      let e : suc m + n ≡ suc (m + n) = omega arith in
      ap (λ k. read_words k w) e ∙ ap (λ v. (read_data hal v).1) (read_words-add m n w)

  -- Words that do not end the sector.
  word :
      (w : Wd H) (d : ℕ) (g : DriveGeometry) (p : Place) (c m : ℕ) (h : H)
      → IsSending w d g p c m h
      → m < 255
      → IsSending ((read_data hal w).1) d g p c (suc m) (buffer_word (2 * m) h).1
  unfolding read_data
  word w d g p c m h s q = ground arith

  pub words :
      (m : ℕ) (w : Wd H) (d : ℕ) (g : DriveGeometry) (p : Place) (c : ℕ) (h : H)
      → IsSending w d g p c 0 h
      → m < 256
      → IsSending (read_words m w) d g p c m (drained m h)
  unfolding read_words drained
  words zero w d g p c h s q = s
  words (suc m) w d g p c h s q =
      word _ d g p c m _ (words m w d g p c h s (omega arith)) (omega arith)

  last_word :
      (w : Wd H) (d : ℕ) (g : DriveGeometry) (p : Place) (c : ℕ) (h : H)
      → IsSending w d g p c 255 h
      → c < 256
      → c ≢ 1
      → IsSending
          ((read_data hal w).1)
          d
          g
          (next_place g p)
          ((c + 255) % 256)
          0
          (fetch d (next_place g p) (buffer_word 510 h).1)
  unfolding read_data sector_taken next_sector
  last_word w d g p c h s q r = ground arith

  -- The end of the last sector.
  end_word :
      (w : Wd H) (d : ℕ) (g : DriveGeometry) (p : Place) (h : H)
      → IsSending w d g p 1 255 h
      → IsFinished ((read_data hal w).1) (buffer_word 510 h).1
  unfolding read_data sector_taken complete_command
  end_word w d g p h s = let c = complete_command-Shows w.status in ground arith

  -- A whole sector that is not the last, and one that is.
  pub sector :
      (w : Wd H) (d : ℕ) (g : DriveGeometry) (p : Place) (c : ℕ) (h : H)
      → IsSending w d g p c 0 h
      → c < 256
      → c ≢ 1
      → IsSending
          (read_words 256 w)
          d
          g
          (next_place g p)
          ((c + 255) % 256)
          0
          (fetch d (next_place g p) (drained 256 h))
  unfolding read_words drained
  sector w d g p c h s q r =
      last_word (read_words 255 w) d g p c _ (words 255 w d g p c h s (omega arith)) q r

  last_sector :
      (w : Wd H) (d : ℕ) (g : DriveGeometry) (p : Place) (h : H)
      → IsSending w d g p 1 0 h
      → IsFinished (read_words 256 w) (drained 256 h)
  unfolding read_words drained
  last_sector w d g p h s =
      end_word (read_words 255 w) d g p _ (words 255 w d g p 1 h s (omega arith))

  -- After 256 words for each of `k` sectors, fewer than the count asks for, the controller offers the
  -- sector `k` advances further.
  pub sectors :
      (k : ℕ) (w : Wd H) (d : ℕ) (g : DriveGeometry) (p : Place) (c : ℕ) (h : H)
      → IsSending w d g p c 0 h
      → c < 256
      → k < total c
      → IsSending
          (read_words (k * 256) w)
          d
          g
          (places k g p)
          ((total c - k) % 256)
          0
          (fetched d g p k h)
  unfolding read_words places fetched
  sectors zero w d g p c h s q r = let e : (total c - 0) % 256 ≡ c = ground arith in rw e s
  sectors (suc k) w d g p c h s q r =
      let s' = sectors k w d g p c h s q (ground arith) in
      let n = (total c - k) % 256 in
      let t =
        sector (read_words (k * 256) w) d g (places k g p) n _ s' (omega arith) (ground arith) in
      let e : (n + 255) % 256 ≡ (total c - suc k) % 256 = ground arith in
      let f : suc k * 256 ≡ 256 + k * 256 = omega arith in
      rw (f, read_words-add 256 (k * 256) w, sym e) t

  -- And `m` words more of that sector.
  pub within :
      (k m : ℕ) (w : Wd H) (d : ℕ) (g : DriveGeometry) (p : Place) (c : ℕ) (h : H)
      → IsSending w d g p c 0 h
      → c < 256
      → k < total c
      → m < 256
      → IsSending
          (read_words (m + k * 256) w)
          d
          g
          (places k g p)
          ((total c - k) % 256)
          m
          (drained m (fetched d g p k h))
  within k m w d g p c h s q r l = rw (read_words-add m (k * 256) w) (
      words m (read_words (k * 256) w) d g (places k g p) ((total c - k) % 256) _
        (sectors k w d g p c h s q r) l)

  -- The whole transfer takes 256 words for each sector and leaves the controller idle.
  pub all_sectors :
      (w : Wd H) (d : ℕ) (g : DriveGeometry) (p : Place) (c : ℕ) (h : H)
      → IsSending w d g p c 0 h
      → c < 256
      → IsFinished (read_words (total c * 256) w) (drained 256 (fetched d g p (total c - 1) h))
  all_sectors w d g p c h s q =
      let k = total c - 1 in
      let s' = sectors k w d g p c h s q (ground arith) in
      let e : (total c - k) % 256 ≡ 1 = ground arith in
      let f : total c * 256 ≡ 256 + k * 256 = ground arith in
      rw (f, read_words-add 256 (k * 256) w)
        (last_sector _ d g (places k g p) _ (
          subst (λ n. IsSending (read_words (k * 256) w) d g (places k g p) n 0 (fetched d g p k h))
            e s'))

  -- The word that a read of the data port gives.
  pub word_value :
      (w : Wd H) (d : ℕ) (g : DriveGeometry) (p : Place) (c m : ℕ) (h : H)
      → IsSending w d g p c m h
      → (read_data hal w).0 ≡ (buffer_word (2 * m) h).0 % 2 ^ 16
  unfolding read_data
  word_value w d g p c m h s = ground arith
