-- ===== src/Wd/Status.antt =====
-- soc/firmware/src/wd_emu.c: the queries of the firmware about the controller.
use flux_ripper.Base.{
  ℕ, ◌/◌, ◌%◌, ◌^◌, ◌≡◌, refl, ◌∙◌, Bool, true, false, not, ◌||◌, ltb, if◌then◌else◌, Option, none,
  some, bit_and, any_bit, any_bit-bit_or, any_bit-bit_and, any_bit-none, arith,
}
use flux_ripper.Wd.Device.{WdReg, HddStatus, WdHal}
use flux_ripper.Wd.State.{rdy, sc, drq, DriveGeometry, Wd, geometry_at}
use flux_ripper.Wd.Setup.{assign_bits, update_status}
use flux_ripper.Wd.Port.{read_data}

-- `wd_buffer_status_t`
pub record BufferStatus : Type 0 where
  pub current_track : ℕ
  pub current_head : ℕ
  pub buffer_state : ℕ
  pub valid_bitmap : ℕ
  pub dirty_bitmap : ℕ
  pub fill_count : ℕ
  pub flush_count : ℕ

or_false : (b : Bool) → (b || false) ≡ b
or_false b = ground arith

or_false_twice : (b : Bool) → ((b || false) || false) ≡ b
or_false_twice b = ground arith

module _ {H : Type 0} (hal : WdHal H) where
  -- `wd_get_geometry`, for pointers that are not NULL.
  unfoldable pub get_geometry : ℕ → Wd H → Option DriveGeometry
  get_geometry drive w = if ltb 1 drive then none else some (geometry_at w drive)

  -- `wd_get_state`: the controller's state after its status has been refreshed.
  unfoldable pub get_state : Wd H → Wd H
  unfolding update_status
  get_state w = update_status hal w

  -- `wd_get_status`
  unfoldable pub get_status : Wd H → ℕ × Wd H
  unfolding update_status
  get_status w = let w' = update_status hal w in (w'.status, w')

  -- `wd_get_buffer_status`
  unfoldable pub get_buffer_status : Wd H → BufferStatus × Wd H
  get_buffer_status w =
      let (v, h1) = hal.reg_read WdReg.buffer_status w.hw in
      let (valid, h2) = hal.reg_read WdReg.valid_bitmap h1 in
      let (dirty, h3) = hal.reg_read WdReg.dirty_bitmap h2 in
      (
        record {
          current_track = bit_and (v / 2 ^ 16) 0xFFFF;
          current_head = bit_and (v / 2 ^ 12) 0x0F;
          buffer_state = bit_and (v / 2 ^ 8) 0x03;
          valid_bitmap = valid;
          dirty_bitmap = dirty;
          fill_count = 0;
          flush_count = 0;
        },
        record w { hw = h3 },
      )

  ruleset masks = (any_bit-bit_or, any_bit-bit_and, any_bit-none)

  assign_bits_keeps_drq :
      (ready settled : Bool) (s : ℕ)
      → any_bit (assign_bits hal settled sc (assign_bits hal ready rdy s)) drq ≡ any_bit s drq
  unfolding any_bit
  assign_bits_keeps_drq true true s = simp masks (or_false_twice (any_bit s drq))
  assign_bits_keeps_drq true false s = simp masks (or_false (any_bit s drq))
  assign_bits_keeps_drq false true s = simp masks (or_false (any_bit s drq))
  assign_bits_keeps_drq false false s = simp masks refl

  refreshed :
      (w : Wd H)
      → any_bit ((hal.reg_read WdReg.status_cmd w.hw).0 % 256) drq ≡ false
      → any_bit ((get_status w).1.status) drq ≡ false
  unfolding get_status update_status
  refreshed w e = byte ((hal.hdd_get_status w.drive ((hal.reg_read WdReg.status_cmd w.hw).1)).0)
    where
      raw : ℕ
      raw = (hal.reg_read WdReg.status_cmd w.hw).0 % 256

      byte :
          (found : Option HddStatus)
          → any_bit
              (elim found as (λ x. ℕ) [
                | none ↦ raw
                | some d ↦ assign_bits hal (not d.seeking) sc (assign_bits hal d.ready rdy raw)
              ])
              drq
            ≡ false
      byte none = e
      byte (some d) = assign_bits_keeps_drq d.ready (not d.seeking) raw ∙ e

  -- The query of the status takes BSY, DRQ and ERR from the hardware register. Where that has DRQ
  -- clear, a transfer in progress stalls: the data port gives 0 from then on and counts nothing.
  pub get_status_stalls :
      (w : Wd H)
      → any_bit ((hal.reg_read WdReg.status_cmd w.hw).0 % 256) drq ≡ false
      → let w' = (get_status w).1 in
        (read_data hal w' ≡ (0, w')) × (w'.phase ≡ w.phase) × (w'.bytes_pending ≡ w.bytes_pending)
  unfolding read_data get_status update_status
  get_status_stalls w e = let r = refreshed w e in ground arith
