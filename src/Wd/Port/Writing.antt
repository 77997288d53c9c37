-- ===== src/Wd/Port/Writing.antt =====
-- The data phases in which the host sends words: WRITE SECTORS and FORMAT TRACK.
use flux_ripper.Base.{
  ℕ, suc, ◌+◌, ◌-◌, ◌*◌, ◌<◌, ◌≡◌, ◌≢◌, refl, ap, ◌∙◌, subst, true, false, List, [], ◌∷◌, length,
  arith, any_bit, bit_or, and_not8,
}
use flux_ripper.Wd.Device.{WdReg, hal_ok, WdHal}
use flux_ripper.Wd.State.{bsy, drq, err, WdPhase, Wd, complete_command}
use flux_ripper.Wd.Flags.{ask_data-Shows, write_data-Shows, complete_command-Shows}
use flux_ripper.Wd.Command.{
  write_sectors, format_track, decode, exec_write_sectors, exec_format_track, execute,
  process_command,
}
use flux_ripper.Wd.Port.{Place, place, write_data, poll}

-- The controller takes words of a sector: `m` were taken, the count and the place are unchanged, and the
-- hardware is in the state `h`.
pub record IsTaking {H : Type 0} (w : Wd H) (p : Place) (count m : ℕ) (h : H) : Type 0 where
  pub takes : w.phase ≡ WdPhase.data_in
  pub asks : any_bit w.status drq ≡ true
  pub counts : w.sector_count ≡ count
  pub in_place : place w ≡ p
  pub holds : w.bytes_pending ≡ 512 - 2 * m
  pub at_offset : w.buffer_offset ≡ 2 * m
  pub hardware : w.hw ≡ h

-- The sector has been handed to the hardware, which is in the state `h`.
pub record IsWritten {H : Type 0} (w : Wd H) (p : Place) (count : ℕ) (h : H) : Type 0 where
  pub written : w.phase ≡ WdPhase.write
  pub silent : any_bit w.status drq ≡ false
  pub works : any_bit w.status bsy ≡ true
  pub count_left : w.sector_count ≡ count
  pub same_place : place w ≡ p
  pub hardware : w.hw ≡ h

module _ {H : Type 0} (hal : WdHal H) where
  -- The state after words written to the data port.
  unfoldable pub write_words : List ℕ → Wd H → Wd H
  write_words [] w = w
  write_words (v ∷ vs) w = write_words vs (write_data hal v w)

  -- The hardware after words were stored to the buffer in order, from word `m`.
  unfoldable pub filled : List ℕ → ℕ → H → H
  filled [] m h = h
  filled (v ∷ vs) m h =
      filled vs (suc m)
        (hal.reg_write WdReg.buffer_data v (hal.reg_write WdReg.buffer_addr (2 * m) h))

  refused : (v : ℕ) (w : Wd H) → w.phase ≢ WdPhase.data_in → write_data hal v w ≡ w
  unfolding write_data
  refused v w n = ground arith

  all_refused : (vs : List ℕ) (w : Wd H) → w.phase ≢ WdPhase.data_in → write_words vs w ≡ w
  unfolding write_words
  all_refused [] w n = refl
  all_refused (v ∷ vs) w n = ap (λ u. write_words vs u) (refused v w n) ∙ all_refused vs w n

  formats :
      (cmd : ℕ) (w : Wd H)
      → decode cmd ≡ format_track
      → (process_command hal cmd w).1.phase ≡ WdPhase.format
  unfolding process_command execute exec_format_track
  formats cmd w d = ground arith

  format_asks :
      (cmd : ℕ) (w : Wd H)
      → decode cmd ≡ format_track
      → any_bit ((process_command hal cmd w).1.status) drq ≡ true
  unfolding process_command execute exec_format_track
  format_asks cmd w d =
      let s = ask_data-Shows (and_not8 (bit_or w.status bsy) (drq + err)) in ground arith

  -- FORMAT TRACK raises DRQ for its interleave table, but the words that the host then sends, however
  -- many, are dropped: no byte is counted, and DRQ stays set.
  pub format_drops_data :
      (cmd : ℕ) (vs : List ℕ) (w : Wd H)
      → decode cmd ≡ format_track
      → let w' = (process_command hal cmd w).1 in
        (write_words vs w' ≡ w') × (any_bit w'.status drq ≡ true)
  format_drops_data cmd vs w d =
      let e = formats cmd w d in (all_refused vs _ (ground arith), format_asks cmd w d)

  takes_word :
      (v : ℕ) (w : Wd H) (p : Place) (c m : ℕ) (h : H)
      → IsTaking w p c m h
      → m < 255
      → IsTaking
          (write_data hal v w)
          p
          c
          (suc m)
          (hal.reg_write WdReg.buffer_data v (hal.reg_write WdReg.buffer_addr (2 * m) h))
  unfolding write_data
  takes_word v w p c m h s q = ground arith

  takes_last :
      (v : ℕ) (w : Wd H) (p : Place) (c m : ℕ) (h : H)
      → IsTaking w p c m h
      → m ≡ 255
      → IsWritten
          (write_data hal v w)
          p
          c
          (hal.reg_write WdReg.buffer_data v (hal.reg_write WdReg.buffer_addr (2 * m) h))
  unfolding write_data
  takes_last v w p c m h s q = let e = write_data-Shows w.status in ground arith

  takes_some :
      (vs : List ℕ) (w : Wd H) (p : Place) (c m : ℕ) (h : H)
      → IsTaking w p c m h
      → m + length vs < 256
      → IsTaking (write_words vs w) p c (m + length vs) (filled vs m h)
  unfolding write_words filled
  takes_some [] w p c m h s q =
      let e : m ≡ m + 0 = omega arith in subst (λ n. IsTaking w p c n h) e s
  takes_some (v ∷ vs) w p c m h s q =
      let h' = hal.reg_write WdReg.buffer_data v (hal.reg_write WdReg.buffer_addr (2 * m) h) in
      let e : suc m + length vs ≡ m + length (v ∷ vs) = omega arith in
      subst (λ n. IsTaking (write_words vs (write_data hal v w)) p c n (filled vs (suc m) h')) e
        (takes_some vs (write_data hal v w) p c (suc m) h' (takes_word v w p c m h s (omega arith))
          (omega arith))

  takes_rest :
      (vs : List ℕ) (w : Wd H) (p : Place) (c m : ℕ) (h : H)
      → IsTaking w p c m h
      → m < 256
      → m + length vs ≡ 256
      → IsWritten (write_words vs w) p c (filled vs m h)
  unfolding write_words filled
  takes_rest [] w p c m h s q r = absurd (omega arith)
  takes_rest (v ∷ []) w p c m h s q r = takes_last v w p c m h s (omega arith)
  takes_rest (v ∷ u ∷ us) w p c m h s q r =
      takes_rest (u ∷ us) (write_data hal v w) p c (suc m) _
        (takes_word v w p c m h s (omega arith)) (omega arith) (omega arith)

  write_sectors-IsTaking :
      (cmd : ℕ) (w : Wd H)
      → decode cmd ≡ write_sectors
      → (process_command hal cmd w).0 ≡ hal_ok
      → IsTaking
          (process_command hal cmd w).1
          (place w)
          w.sector_count
          0
          (hal.reg_write WdReg.status_cmd cmd w.hw)
  unfolding process_command execute exec_write_sectors
  write_sectors-IsTaking cmd w d r =
      let s = ask_data-Shows (and_not8 (bit_or w.status bsy) (drq + err)) in ground arith

  -- An accepted WRITE SECTORS takes the 256 words of one sector, no fewer and no more: after any lesser number
  -- of words it is in the data-in phase with DRQ set, and after 256 it works with BSY set and DRQ clear.
  -- After the command byte, each word was stored to the buffer at its offset, in order, and nothing else was
  -- written. The count and the place are unchanged.
  pub write_sectors-IsWritten :
      (cmd : ℕ) (us vs : List ℕ) (w : Wd H)
      → decode cmd ≡ write_sectors
      → length us < 256
      → length vs ≡ 256
      → (process_command hal cmd w).0 ≡ hal_ok
      → let w' = (process_command hal cmd w).1 in
        let h = hal.reg_write WdReg.status_cmd cmd w.hw in
        IsTaking (write_words us w') (place w) w.sector_count (length us) (filled us 0 h)
        × IsWritten (write_words vs w') (place w) w.sector_count (filled vs 0 h)
  write_sectors-IsWritten cmd us vs w d l n r =
      let s = write_sectors-IsTaking cmd w d r in
      let e : 0 + length us ≡ length us = omega arith in
      let w' = (process_command hal cmd w).1 in
      let h = hal.reg_write WdReg.status_cmd cmd w.hw in
      (
        subst (λ k. IsTaking (write_words us w') (place w) w.sector_count k (filled us 0 h)) e
            (takes_some us _ (place w) w.sector_count 0 _ s (omega arith)),
        takes_rest vs _ (place w) w.sector_count 0 _ s (omega arith) (omega arith),
      )

  poll_ends :
      (w : Wd H) (p : Place) (c : ℕ) (h : H)
      → IsWritten w p c h
      → any_bit ((hal.reg_read WdReg.status_cmd w.hw).0) bsy ≡ false
      → let w' = (poll hal w).1 in
        (w'.phase ≡ WdPhase.idle)
        × (w'.sector_count ≡ c)
        × (place w' ≡ p)
        × (any_bit w'.status drq ≡ false)
  unfolding poll complete_command
  poll_ends w p c k s h = let e = complete_command-Shows w.status in ground arith

  -- After an accepted WRITE SECTORS, its first 256 words and the end of the hardware's work, the poll
  -- ends the command whatever the sector count asked for: the controller is idle without DRQ, with
  -- the count and the place unchanged.
  pub write_sectors_stops :
      (cmd : ℕ) (vs : List ℕ) (w : Wd H)
      → decode cmd ≡ write_sectors
      → length vs ≡ 256
      → (process_command hal cmd w).0 ≡ hal_ok
      → any_bit
          ((hal.reg_read WdReg.status_cmd ((write_words vs (process_command hal cmd w).1).hw)).0)
          bsy
        ≡ false
      → let w' = (poll hal (write_words vs (process_command hal cmd w).1)).1 in
        (w'.phase ≡ WdPhase.idle)
        × (w'.sector_count ≡ w.sector_count)
        × (place w' ≡ place w)
        × (any_bit w'.status drq ≡ false)
  write_sectors_stops cmd vs w d n r h =
      poll_ends _ _ _ _ (write_sectors-IsWritten cmd [] vs w d (omega arith) n r).1 h
