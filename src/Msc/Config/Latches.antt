-- ===== src/Msc/Config/Latches.antt =====
-- What the read-modify-write functions of msc_config.c do to the write-1-to-clear latches of the
-- register block, and to the ready and write-protect bits beside them.
use flux_ripper.Base.{
  ℕ, ◌+◌, ◌-◌, ◌*◌, ◌/◌, ◌%◌, ◌^◌, ◌<◌, ◌≡◌, ◌∙◌, Bool, true, false, arith, bit, bit-bit_or,
  bit-bit_and, bit-lt,
}
use flux_ripper.Msc.Regs.{
  MscDrive, drive_no, fdd0, fdd1, hdd0, hdd1, MscRegs, HasWidths, clear_latches,
}
use flux_ripper.Msc.Config.{
  assign_bits, set_ready, set_write_protect, int_enable, int_global_enable,
}

-- A word that repeats the latches at [7:4] clears them all.
clear_latches_all :
    (latch w : ℕ)
    → bit w 4 ≡ bit latch 0
    → bit w 5 ≡ bit latch 1
    → bit w 6 ≡ bit latch 2
    → bit w 7 ≡ bit latch 3
    → clear_latches latch w ≡ 0
unfolding clear_latches
clear_latches_all latch w h0 h1 h2 h3 = ground arith

-- The bits of a word put together as the block does it: `high` above eight bits, the latches, and
-- four low bits.
read_bits :
    (high latch low : ℕ)
    → latch < 16
    → low < 16
    → let w = high * 256 + latch * 16 + low in
      (bit w 4 ≡ bit latch 0)
      × (bit w 5 ≡ bit latch 1)
      × (bit w 6 ≡ bit latch 2)
      × (bit w 7 ≡ bit latch 3)
read_bits high latch low p q = omega arith

-- A mask without the bits [7:4], and its complement in 32 bits.
abbrev SkipsBit : ℕ → ℕ → Type 0
SkipsBit mask k = (bit mask k ≡ 0) × (bit (2 ^ 32 - 1 - mask) k ≡ 1)

abbrev SkipsLatches : ℕ → Type 0
SkipsLatches mask = SkipsBit mask 4 × SkipsBit mask 5 × SkipsBit mask 6 × SkipsBit mask 7

assign_bits-bit :
    (on : Bool) (mask x k : ℕ) → SkipsBit mask k → bit (assign_bits on mask x) k ≡ bit x k
assign_bits-bit true mask x k h = omega (arith, bit-bit_or x mask k)
assign_bits-bit false mask x k h = omega (arith, bit-bit_and x (2 ^ 32 - 1 - mask) k, bit-lt x k)

-- Writing back what was read, one bit outside [7:4] aside, clears every latch.
write_back_clears :
    (on : Bool) (mask high latch low : ℕ)
    → SkipsLatches mask
    → latch < 16
    → low < 16
    → clear_latches latch (assign_bits on mask (high * 256 + latch * 16 + low)) ≡ 0
write_back_clears on mask high latch low skips p q =
    let w = high * 256 + latch * 16 + low in
    let reads = read_bits high latch low p q in
    clear_latches_all latch (assign_bits on mask w) (assign_bits-bit on mask w 4 skips.0 ∙ reads.0)
      (assign_bits-bit on mask w 5 skips.1 ∙ reads.1)
      (assign_bits-bit on mask w 6 skips.2 ∙ reads.2)
      (assign_bits-bit on mask w 7 skips.3 ∙ reads.3)

ready-SkipsLatches : (d : MscDrive) → SkipsLatches (2 ^ drive_no d)
ready-SkipsLatches fdd0 = omega arith
ready-SkipsLatches fdd1 = omega arith
ready-SkipsLatches hdd0 = omega arith
ready-SkipsLatches hdd1 = omega arith

protect-SkipsLatches : (d : MscDrive) → SkipsLatches (2 ^ (8 + drive_no d))
protect-SkipsLatches fdd0 = omega arith
protect-SkipsLatches fdd1 = omega arith
protect-SkipsLatches hdd0 = omega arith
protect-SkipsLatches hdd1 = omega arith

set_ready-latches :
    (d : MscDrive) (ready : Bool) (r : MscRegs)
    → HasWidths r
    → (set_ready d ready r).media_changed_latch ≡ 0
unfolding set_ready
set_ready-latches d ready r h =
    write_back_clears ready (2 ^ drive_no d) (r.reg_drive_status / 256 % 16) r.media_changed_latch
      (r.reg_drive_status % 16) (ready-SkipsLatches d) h.latch_width (omega arith)

set_write_protect-latches :
    (d : MscDrive) (wp : Bool) (r : MscRegs)
    → HasWidths r
    → (set_write_protect d wp r).media_changed_latch ≡ 0
unfolding set_write_protect
set_write_protect-latches d wp r h =
    write_back_clears wp (2 ^ (8 + drive_no d)) (r.reg_drive_status / 256 % 16)
      r.media_changed_latch (r.reg_drive_status % 16) (protect-SkipsLatches d) h.latch_width
      (omega arith)

int_enable-latches :
    (d : MscDrive) (on : Bool) (r : MscRegs)
    → HasWidths r
    → (int_enable d on r).media_changed_latch ≡ 0
unfolding int_enable
int_enable-latches d on r h =
    write_back_clears on (2 ^ drive_no d) r.global_int_enable r.media_changed_latch r.int_enable
      (ready-SkipsLatches d) h.latch_width h.enable_width

int_global_enable-latches :
    (on : Bool) (r : MscRegs) → HasWidths r → (int_global_enable on r).media_changed_latch ≡ 0
unfolding int_global_enable
int_global_enable-latches on r h =
    write_back_clears on 256 r.global_int_enable r.media_changed_latch r.int_enable (omega arith)
      h.latch_width h.enable_width

-- Setting the ready or the write-protect bit of any drive, and enabling or disabling any interrupt,
-- discards the pending media changes of all four drives.
pub update_drops_changes :
    (d : MscDrive) (on : Bool) (r : MscRegs)
    → HasWidths r
    → ((set_ready d on r).media_changed_latch ≡ 0)
      × ((set_write_protect d on r).media_changed_latch ≡ 0)
      × ((int_enable d on r).media_changed_latch ≡ 0)
      × ((int_global_enable on r).media_changed_latch ≡ 0)
update_drops_changes d on r h = (
  set_ready-latches d on r h,
  set_write_protect-latches d on r h,
  int_enable-latches d on r h,
  int_global_enable-latches on r h,
)
