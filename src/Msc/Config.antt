-- ===== src/Msc/Config.antt =====
-- soc/firmware/src/msc_config.c over the register block. The interrupt handler calls the MSC HAL,
-- and stands in Msc/Irq.antt.
pub mod Latches
pub mod Geometry
use flux_ripper.Base.{
  ℕ, ◌+◌, ◌-◌, ◌*◌, ◌/◌, ◌%◌, ◌^◌, Bool, not, ◌==◌, leb, if◌then◌else◌, bit_and, bit_or,
}
use flux_ripper.Msc.Regs.{
  MscReg, MscDrive, drive_no, fdd0, fdd1, hdd0, hdd1, MscRegs, reg_write, reg_read,
}

-- `x & ~mask` on a uint32_t.
abbrev pub and_not32 : ℕ → ℕ → ℕ
and_not32 x mask = bit_and x (2 ^ 32 - 1 - mask)

-- `(x & mask) != 0`
abbrev pub any_bit : ℕ → ℕ → Bool
any_bit x mask = not (bit_and x mask == 0)

-- `(spt << 28) | (heads << 24) | (tracks << 16) | sectors` on a uint32_t.
unfoldable pub pack_geometry : ℕ → ℕ → ℕ → ℕ → ℕ
pack_geometry sectors tracks heads spt =
    bit_or (bit_or (bit_or (spt * 2 ^ 28 % 2 ^ 32) (heads * 2 ^ 24)) (tracks * 2 ^ 16)) sectors

-- `msc_config_init`. The 18 is shifted as an int: its high bit does not fit the register.
unfoldable pub config_init : MscRegs → MscRegs
unfolding reg_write pack_geometry
config_init r0 =
    let r1 = reg_write MscReg.ctrl 0 r0 in
    let default_fdd = pack_geometry 2880 80 2 18 in
    let r2 = reg_write MscReg.fdd0_geometry default_fdd r1 in
    let r3 = reg_write MscReg.fdd1_geometry default_fdd r2 in
    let r4 = reg_write MscReg.hdd0_cap_lo 0 r3 in
    let r5 = reg_write MscReg.hdd0_cap_hi 0 r4 in
    let r6 = reg_write MscReg.hdd1_cap_lo 0 r5 in
    let r7 = reg_write MscReg.hdd1_cap_hi 0 r6 in reg_write MscReg.drive_status 0 r7

-- `msc_fdd_geometry_t`
pub record FddGeometry : Type 0 where
  pub sectors : ℕ
  pub tracks : ℕ
  pub heads : ℕ
  pub spt : ℕ

-- `msc_config_set_fdd_params`
unfoldable pub set_fdd_params : MscDrive → ℕ → ℕ → ℕ → ℕ → MscRegs → MscRegs
unfolding reg_write pack_geometry
set_fdd_params d sectors tracks heads spt r =
    let value = pack_geometry sectors tracks (bit_and heads 15) (bit_and spt 15) in
    elim d [
      | fdd0 ↦ reg_write MscReg.fdd0_geometry value r
      | fdd1 ↦ reg_write MscReg.fdd1_geometry value r
      | _ ↦ r
    ]

-- `msc_config_set_fdd_geometry`, called with a geometry that is there.
unfoldable pub set_fdd_geometry : MscDrive → FddGeometry → MscRegs → MscRegs
unfolding set_fdd_params
set_fdd_geometry d g r = set_fdd_params d g.sectors g.tracks g.heads g.spt r

-- `msc_config_set_hdd_capacity`
unfoldable pub set_hdd_capacity : MscDrive → ℕ → MscRegs → MscRegs
unfolding reg_write
set_hdd_capacity d sectors r =
    let lo = sectors % 2 ^ 32 in
    let hi = sectors / 2 ^ 32 % 2 ^ 32 in
    elim d [
      | hdd0 ↦ reg_write MscReg.hdd0_cap_hi hi (reg_write MscReg.hdd0_cap_lo lo r)
      | hdd1 ↦ reg_write MscReg.hdd1_cap_hi hi (reg_write MscReg.hdd1_cap_lo lo r)
      | _ ↦ r
    ]

-- `if (on) x |= mask; else x &= ~mask;`
abbrev pub assign_bits : Bool → ℕ → ℕ → ℕ
assign_bits on mask x = if on then bit_or x mask else and_not32 x mask

-- `msc_config_set_ready`
unfoldable pub set_ready : MscDrive → Bool → MscRegs → MscRegs
unfolding reg_write reg_read
set_ready d ready r =
    let status = reg_read MscReg.drive_status r in
    reg_write MscReg.drive_status (assign_bits ready (2 ^ drive_no d) status) r

-- `msc_config_set_write_protect`
unfoldable pub set_write_protect : MscDrive → Bool → MscRegs → MscRegs
unfolding reg_write reg_read
set_write_protect d wp r =
    let status = reg_read MscReg.drive_status r in
    reg_write MscReg.drive_status (assign_bits wp (2 ^ (8 + drive_no d)) status) r

-- `msc_config_validate`
unfoldable pub validate : MscRegs → MscRegs
unfolding reg_write reg_read
validate r = reg_write MscReg.ctrl (bit_or (reg_read MscReg.ctrl r) 1) r

-- `msc_config_invalidate`
unfoldable pub invalidate : MscRegs → MscRegs
unfolding reg_write reg_read
invalidate r = reg_write MscReg.ctrl (and_not32 (reg_read MscReg.ctrl r) 1) r

-- `msc_config_media_changed`
unfoldable pub config_media_changed : MscDrive → MscRegs → Bool
unfolding reg_read
config_media_changed d r = any_bit (reg_read MscReg.drive_status r) (2 ^ (4 + drive_no d))

-- `msc_config_clear_media_changed`
unfoldable pub clear_media_changed : MscDrive → MscRegs → MscRegs
unfolding reg_write
clear_media_changed d r = reg_write MscReg.drive_status (2 ^ (4 + drive_no d)) r

-- `msc_config_drive_present`
unfoldable pub config_drive_present : MscDrive → MscRegs → Bool
unfolding reg_read
config_drive_present d r = any_bit (reg_read MscReg.status r) (2 ^ drive_no d)

-- `msc_config_int_global_enable`
unfoldable pub int_global_enable : Bool → MscRegs → MscRegs
unfolding reg_write reg_read
int_global_enable on r =
    reg_write MscReg.int_ctrl (assign_bits on 256 (reg_read MscReg.int_ctrl r)) r

-- `msc_config_int_enable`
unfoldable pub int_enable : MscDrive → Bool → MscRegs → MscRegs
unfolding reg_write reg_read
int_enable d on r =
    reg_write MscReg.int_ctrl (assign_bits on (2 ^ drive_no d) (reg_read MscReg.int_ctrl r)) r

-- `msc_config_int_pending`
unfoldable pub int_pending : MscDrive → MscRegs → Bool
unfolding reg_read
int_pending d r = any_bit (reg_read MscReg.int_ctrl r) (2 ^ (4 + drive_no d))

-- `msc_config_int_clear`
unfoldable pub int_clear : MscDrive → MscRegs → MscRegs
unfolding reg_write
int_clear d r = reg_write MscReg.int_ctrl (2 ^ (4 + drive_no d)) r
