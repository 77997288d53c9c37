-- ===== src/Msc/Regs.antt =====
-- The register block that msc_config.c drives: rtl/usb/msc_config_regs.v, at the level of whole
-- 32-bit reads and writes, with the register offsets of soc/firmware/include/msc_config.h.
use flux_ripper.Base.{
  ℕ, ◌+◌, ◌*◌, ◌/◌, ◌%◌, ◌^◌, ◌<◌, Bool, ◌&&◌, not, ◌==◌, if◌then◌else◌, bit, bit_and, bit_or,
}

-- `MSC_REG_*`
pub data MscReg : Type 0 where
  ctrl status int_ctrl fdd0_geometry fdd1_geometry : MscReg
  hdd0_cap_lo hdd0_cap_hi hdd1_cap_lo hdd1_cap_hi drive_status : MscReg

-- `msc_drive_t`
pub data MscDrive : Type 0 where
  fdd0 fdd1 hdd0 hdd1 : MscDrive

abbrev pub drive_no : MscDrive → ℕ
drive_no fdd0 = 0
drive_no fdd1 = 1
drive_no hdd0 = 2
drive_no hdd1 = 3

pub record MscRegs : Type 0 where
  pub reg_ctrl : ℕ
  pub reg_fdd0_geometry : ℕ
  pub reg_fdd1_geometry : ℕ
  pub reg_hdd0_cap_lo : ℕ
  pub reg_hdd0_cap_hi : ℕ
  pub reg_hdd1_cap_lo : ℕ
  pub reg_hdd1_cap_hi : ℕ
  pub reg_drive_status : ℕ
  pub media_changed_latch : ℕ  -- four bits
  pub int_enable : ℕ  -- four bits
  pub global_int_enable : ℕ  -- one bit
  pub drive_present : ℕ  -- an input of four bits

-- A latch bit that a written 1 clears.
abbrev pub keep_latch : ℕ → ℕ → ℕ → ℕ
keep_latch latch w i = if bit w (4 + i) == 1 then 0 else bit latch i

-- The four lines `if (s_axi_wdata[4 + i]) media_changed_latch[i] <= 1'b0`.
unfoldable pub clear_latches : ℕ → ℕ → ℕ
clear_latches latch w =
    keep_latch latch w 0
    + 2 * keep_latch latch w 1
    + 4 * keep_latch latch w 2
    + 8 * keep_latch latch w 3

-- `case (write_addr)` with all byte strobes set; a write to STATUS is answered with SLVERR.
unfoldable pub reg_write : MscReg → ℕ → MscRegs → MscRegs
unfolding clear_latches
reg_write ctrl w r = record r { reg_ctrl = w }
reg_write status w r = r
reg_write int_ctrl w r = record r {
  int_enable = w % 16;
  media_changed_latch = clear_latches r.media_changed_latch w;
  global_int_enable = w / 256 % 2;
}
reg_write fdd0_geometry w r = record r { reg_fdd0_geometry = w }
reg_write fdd1_geometry w r = record r { reg_fdd1_geometry = w }
reg_write hdd0_cap_lo w r = record r { reg_hdd0_cap_lo = w }
reg_write hdd0_cap_hi w r = record r { reg_hdd0_cap_hi = w }
reg_write hdd1_cap_lo w r = record r { reg_hdd1_cap_lo = w }
reg_write hdd1_cap_hi w r = record r { reg_hdd1_cap_hi = w }
reg_write drive_status w r = record r {
  reg_drive_status = r.reg_drive_status / 2 ^ 16 * 2 ^ 16 + w % 2 ^ 16;
  media_changed_latch = clear_latches r.media_changed_latch w;
}

-- `case (s_axi_araddr)`
unfoldable pub reg_read : MscReg → MscRegs → ℕ
reg_read ctrl r = r.reg_ctrl
reg_read status r = r.media_changed_latch * 16 + r.drive_present
reg_read int_ctrl r = r.global_int_enable * 256 + r.media_changed_latch * 16 + r.int_enable
reg_read fdd0_geometry r = r.reg_fdd0_geometry
reg_read fdd1_geometry r = r.reg_fdd1_geometry
reg_read hdd0_cap_lo r = r.reg_hdd0_cap_lo
reg_read hdd0_cap_hi r = r.reg_hdd0_cap_hi
reg_read hdd1_cap_lo r = r.reg_hdd1_cap_lo
reg_read hdd1_cap_hi r = r.reg_hdd1_cap_hi
reg_read drive_status r =
    r.reg_drive_status / 256 % 16 * 256 + r.media_changed_latch * 16 + r.reg_drive_status % 16

-- The rising edge of a drive's media change line sets its latch.
unfoldable pub media_edge : MscDrive → MscRegs → MscRegs
media_edge d r = record r { media_changed_latch = bit_or r.media_changed_latch (2 ^ drive_no d) }

-- `irq_media_change`
unfoldable pub irq_media_change : MscRegs → Bool
irq_media_change r =
    r.global_int_enable == 1 && not (bit_and r.media_changed_latch r.int_enable == 0)

-- The widths that the hardware gives to the small registers.
pub record HasWidths (r : MscRegs) : Type 0 where
  pub latch_width : r.media_changed_latch < 16
  pub enable_width : r.int_enable < 16
  pub global_width : r.global_int_enable < 2
