-- ===== src/Msc/Irq/Lost.antt =====
-- After the handler has served an interrupt no further one is raised.
use flux_ripper.Base.{
  ℕ, ◌+◌, ◌*◌, ◌/◌, ◌^◌, ◌<◌, ◌≡◌, ◌≢◌, refl, ap, true, arith, Bool-cases, ◌⊎◌, inl, inr, bit,
  bit_and, bit_and-pow, bit_and-nibble, bit_and-le,
}
use flux_ripper.Msc.Regs.{
  MscDrive, drive_no, fdd0, fdd1, hdd0, hdd1, MscRegs, HasWidths, irq_media_change,
}
use flux_ripper.Msc.Config.{any_bit, int_clear}
use flux_ripper.Msc.Device.{DriveHal}
use flux_ripper.Msc.State.{Msc}
use flux_ripper.Msc.Hal.{notify_media_changed}
use flux_ripper.Msc.Irq.{serve, irq_handler}

-- `MSC_REG_INT_CTRL` is written with the bit to clear alone: the enables are cleared too.
int_clear-disables :
    (d : MscDrive) (r : MscRegs)
    → ((int_clear d r).int_enable ≡ 0) × ((int_clear d r).global_int_enable ≡ 0)
unfolding int_clear
int_clear-disables fdd0 r = (refl, refl)
int_clear-disables fdd1 r = (refl, refl)
int_clear-disables hdd0 r = (refl, refl)
int_clear-disables hdd1 r = (refl, refl)

-- No interrupt source is enabled.
abbrev IsSilent : {H : Type 0} → Msc H → Type 0
IsSilent m = (m.regs.int_enable ≡ 0) × (m.regs.global_int_enable ≡ 0)

nonzero_has_bit :
    (a : ℕ) → a < 16 → a ≢ 0 → (bit a 0 ≡ 1) ⊎ ((bit a 1 ≡ 1) ⊎ ((bit a 2 ≡ 1) ⊎ (bit a 3 ≡ 1)))
nonzero_has_bit a p h = omega arith

any_bit_of_bit : (a k : ℕ) → 0 < 2 ^ k → bit a k ≡ 1 → any_bit a (2 ^ k) ≡ true
any_bit_of_bit a k q e = ground (arith, bit_and-pow a k, ap (λ (b : ℕ). b * 2 ^ k) e)

raised-active :
    (r : MscRegs) → irq_media_change r ≡ true → bit_and r.media_changed_latch r.int_enable ≢ 0
unfolding irq_media_change
raised-active r e = ground arith

module _ {H : Type 0} (hal : DriveHal H) where
  notify-enables :
      (lun : ℕ) (m : Msc H)
      → ((notify_media_changed hal lun m).regs.int_enable ≡ m.regs.int_enable)
        × ((notify_media_changed hal lun m).regs.global_int_enable ≡ m.regs.global_int_enable)
  unfolding notify_media_changed
  notify-enables lun m = ground arith

  serve_silences :
      (a : ℕ) (d : MscDrive) (m : Msc H)
      → any_bit a (2 ^ drive_no d) ≡ true
      → IsSilent (serve hal a d m)
  unfolding serve
  serve_silences a d m e =
      rw e (int_clear-disables d (notify_media_changed hal (drive_no d) m).regs)

  serve_keeps_IsSilent :
      (a : ℕ) (d : MscDrive) (m : Msc H) → IsSilent m → IsSilent (serve hal a d m)
  unfolding serve
  serve_keeps_IsSilent a d m s = elim (Bool-cases (any_bit a (2 ^ drive_no d))) [
    | inl e ↦ rw e (int_clear-disables d (notify_media_changed hal (drive_no d) m).regs)
    | inr e ↦ rw e s
  ]

  serve_all_silences :
      (a : ℕ) (m : Msc H)
      → a < 16
      → a ≢ 0
      → IsSilent (serve hal a hdd1 (serve hal a hdd0 (serve hal a fdd1 (serve hal a fdd0 m))))
  serve_all_silences a m p h = elim (nonzero_has_bit a p h) [
    | inl e ↦ serve_keeps_IsSilent a hdd1 _ (
        serve_keeps_IsSilent a hdd0 _ (
          serve_keeps_IsSilent a fdd1 _
            (serve_silences a fdd0 m (any_bit_of_bit a 0 (omega arith) e))))
    | inr (inl e) ↦ serve_keeps_IsSilent a hdd1 _ (
        serve_keeps_IsSilent a hdd0 _
          (serve_silences a fdd1 _ (any_bit_of_bit a 1 (omega arith) e)))
    | inr (inr (inl e)) ↦
        serve_keeps_IsSilent a hdd1 _ (serve_silences a hdd0 _ (any_bit_of_bit a 2 (omega arith) e))
    | inr (inr (inr e)) ↦ serve_silences a hdd1 _ (any_bit_of_bit a 3 (omega arith) e)
  ]

  -- Called for a raised interrupt, the handler leaves every interrupt of the block disabled, the
  -- global one included: later media changes raise none.
  pub irq_handler_silences :
      (m : Msc H)
      → HasWidths m.regs
      → irq_media_change m.regs ≡ true
      → let r = (irq_handler hal m).regs in (r.int_enable ≡ 0) × (r.global_int_enable ≡ 0)
  unfolding irq_handler
  irq_handler_silences m w e =
      let r = m.regs in
      let word = r.global_int_enable * 256 + r.media_changed_latch * 16 + r.int_enable in
      let pending : bit_and (word / 16) 15 ≡ r.media_changed_latch =
        omega (arith, bit_and-nibble (word / 16), w) in
      let enabled : bit_and word 15 ≡ r.int_enable = omega (arith, bit_and-nibble word, w) in
      rw (pending, enabled)
        (serve_all_silences (bit_and r.media_changed_latch r.int_enable) m
          (omega (arith, bit_and-le r.media_changed_latch r.int_enable, w)) (raised-active r e))
