-- ===== src/Wd/Port/Transfer/Commands.antt =====
-- The data phase in which the host reads words, from the command to the last word.
use flux_ripper.Base.{
  ℕ, ◌+◌, ◌-◌, ◌*◌, ◌/◌, ◌%◌, ◌^◌, ◌<◌, ◌≡◌, ◌≢◌, sym, true, arith, any_bit, bit_or, and_not8, ap,
  ◌∙◌, subst,
}
use flux_ripper.Wd.Device.{WdReg, hal_ok, WdHal}
use flux_ripper.Wd.State.{bsy, drq, err, WdPhase, Wd, geometry_at}
use flux_ripper.Wd.Flags.{ask_data-Shows}
use flux_ripper.Wd.Command.{
  read_sectors, identify, decode, identify_block, exec_read_sectors, exec_identify, execute,
  process_command,
}
use flux_ripper.Wd.Port.{place, next_place, read_data}
use flux_ripper.Wd.Port.Transfer.{
  block_no, IsPlaced, IsOffering, IsSending, IsFinished, places-lem, total, read_words, buffer_word,
  drained, fetch, fetched, sector, within, all_sectors, word_value,
}

offers_sector :
    {H : Type 0} (w : Wd H)
    → IsOffering w
    → IsSending w w.drive (geometry_at w w.drive) (place w) w.sector_count 0 w.hw
offers_sector w o = ground arith

module _ {H : Type 0} (hal : WdHal H) where
  -- From a state in which the data phase starts, as IDENTIFY leaves it (and READ SECTORS, over a disk layer that
  -- does not refuse its buffer), with a sector
  -- count below 256, the geometry of fewer than 255 sectors, the place inside it, and a cylinder register that
  -- does not wrap in `k` steps: after `k` whole sectors, fewer than the count (0 standing for 256), and `m` words,
  -- fewer than 256, of the one that follows, the task file names the block `k` after the one it named at
  -- the start, and DRQ is set. The hardware was asked for exactly this, in order: `k` times the 256 words of
  -- the buffer and then the sector of the next block, and last `m` words of the buffer from its start. The next
  -- read of the data port gives the word of the buffer that follows.
  pub data_port_walks :
      (k m : ℕ) (w : Wd H)
      → IsOffering w
      → w.sector_count < 256
      → k < total w.sector_count
      → m < 256
      → IsPlaced (geometry_at w w.drive) (place w)
      → w.cylinder + k < 2 ^ 16
      → let w' = read_words hal (m + k * 256) w in
        let g = geometry_at w w.drive in
        (block_no g (place w') ≡ block_no g (place w) + k)
        × IsPlaced g (place w')
        × (any_bit w'.status drq ≡ true)
        × (w'.hw ≡ drained hal m (fetched hal w.drive g (place w) k w.hw))
        × ((read_data hal w').0 ≡ (buffer_word hal (2 * m) w'.hw).0 % 2 ^ 16)
  data_port_walks k m w o q r l i f =
      let g = geometry_at w w.drive in
      let s = within hal k m w w.drive g (place w) w.sector_count w.hw (offers_sector w o) q r l in
      let (j, e, _) = places-lem k g (place w) i f in
      let v = word_value hal _ _ _ _ _ m _ s in
      (
        ap (λ p. block_no g p) s.in_place ∙ e,
        subst (λ p. IsPlaced g p) (sym s.in_place) j,
        s.asks,
        s.hardware,
        subst
            (λ h.
              (read_data hal (read_words hal (m + k * 256) w)).0
              ≡ (buffer_word hal (2 * m) h).0 % 2 ^ 16)
            (sym s.hardware) v,
      )

  -- A data phase that starts with the sector count `c`, below 256, takes 256 words for each of `c` sectors, 0
  -- standing for 256, no fewer and no more: after any lesser number of words the phase is still data-out with DRQ
  -- set, and after all of them the controller is idle with neither BSY nor DRQ and the count at 0, the
  -- hardware having been asked for `c` whole buffers and, between two of them, for the sector of the next
  -- place.
  pub data_port_finishes :
      (n : ℕ) (w : Wd H)
      → IsOffering w
      → w.sector_count < 256
      → n < total w.sector_count * 256
      → let w' = read_words hal n w in
        let g = geometry_at w w.drive in
        let count = total w.sector_count in
        (w'.phase ≡ WdPhase.data_out)
        × (any_bit w'.status drq ≡ true)
        × IsFinished
            (read_words hal (count * 256) w)
            (drained hal 256 (fetched hal w.drive g (place w) (count - 1) w.hw))
  data_port_finishes n w o q r =
      let g = geometry_at w w.drive in
      let start = offers_sector w o in
      let s =
        within hal (n / 256) (n % 256) w w.drive g (place w) w.sector_count w.hw start q
          (omega arith) (omega arith) in
      let e : n % 256 + n / 256 * 256 ≡ n = omega arith in
      (
        subst (λ i. (read_words hal i w).phase ≡ WdPhase.data_out) e s.sends,
        subst (λ i. any_bit ((read_words hal i w).status) drq ≡ true) e s.asks,
        all_sectors hal w w.drive g (place w) w.sector_count w.hw start q,
      )

  -- READ SECTORS, where it is accepted, and IDENTIFY start a data phase.
  pub read_sectors-IsOffering :
      (cmd : ℕ) (w : Wd H)
      → decode cmd ≡ read_sectors
      → (process_command hal cmd w).0 ≡ hal_ok
      → IsOffering (process_command hal cmd w).1
  unfolding process_command execute exec_read_sectors
  read_sectors-IsOffering cmd w d r =
      let s = ask_data-Shows (and_not8 (bit_or w.status bsy) (drq + err)) in ground arith

  identify-IsSending :
      (cmd : ℕ) (w : Wd H)
      → decode cmd ≡ identify
      → (process_command hal cmd w).0 ≡ hal_ok
      → let g = geometry_at w w.drive in
        IsSending
          (process_command hal cmd w).1
          w.drive
          g
          (place w)
          w.sector_count
          0
          (hal.store_identify (identify_block hal g) (hal.reg_write WdReg.status_cmd cmd w.hw))
  unfolding process_command execute exec_identify
  identify-IsSending cmd w d r =
      let s = ask_data-Shows (and_not8 (bit_or w.status bsy) (drq + err)) in ground arith

  pub identify-IsOffering :
      (cmd : ℕ) (w : Wd H)
      → decode cmd ≡ identify
      → (process_command hal cmd w).0 ≡ hal_ok
      → IsOffering (process_command hal cmd w).1
  identify-IsOffering cmd w d r =
      let s = identify-IsSending cmd w d r in
      record { offers = s.sends; asks = s.asks; whole = s.holds; from_start = s.at_offset }

  -- An accepted IDENTIFY offers its 256 words, but with a sector count other than 1 (and below 256) it does not end there. With the last of
  -- them the task file goes on to the next place, the count goes down by one, and the hardware is asked for
  -- the sector of that place, whether it can read it or not; DRQ stays set and all of the buffer is
  -- offered from its start.
  pub identify_overruns :
      (cmd : ℕ) (w : Wd H)
      → decode cmd ≡ identify
      → w.sector_count < 256
      → w.sector_count ≢ 1
      → (process_command hal cmd w).0 ≡ hal_ok
      → let g = geometry_at w w.drive in
        let p = next_place g (place w) in
        IsSending
          (read_words hal 256 (process_command hal cmd w).1)
          w.drive
          g
          p
          ((w.sector_count + 255) % 256)
          0
          (fetch hal w.drive p (
            drained hal 256 (
              hal.store_identify (identify_block hal g) (hal.reg_write WdReg.status_cmd cmd w.hw))))
  identify_overruns cmd w d q n r =
      sector hal _ _ _ _ w.sector_count _ (identify-IsSending cmd w d r) q n
