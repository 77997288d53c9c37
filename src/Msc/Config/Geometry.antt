-- ===== src/Msc/Config/Geometry.antt =====
-- What the hardware reads back of the geometry and capacity that the firmware writes.
use flux_ripper.Base.{ℕ, ◌+◌, ◌*◌, ◌/◌, ◌%◌, ◌^◌, ◌<◌, ◌≡◌, arith}
use flux_ripper.Msc.Regs.{MscDrive, fdd0, hdd0, hdd1, MscRegs}
use flux_ripper.Msc.Config.{set_hdd_capacity}

-- The geometry register of a floppy drive.
abbrev pub geometry_of : MscDrive → MscRegs → ℕ
geometry_of fdd0 r = r.reg_fdd0_geometry
geometry_of _ r = r.reg_fdd1_geometry

-- The four fields of msc_config.h: sectors, tracks, heads, sectors per track.
abbrev pub HoldsGeometry : ℕ → ℕ → ℕ → ℕ → ℕ → Type 0
HoldsGeometry word sectors tracks heads spt =
    (word % 2 ^ 16 ≡ sectors)
    × (word / 2 ^ 16 % 256 ≡ tracks)
    × (word / 2 ^ 24 % 16 ≡ heads)
    × (word / 2 ^ 28 ≡ spt)

-- The two capacity registers of a hard disk hold the 64-bit count, and the other disk's stay.
pub set_hdd_capacity-join :
    (sectors : ℕ) (r : MscRegs)
    → sectors < 2 ^ 64
    → let r0 = set_hdd_capacity hdd0 sectors r in
      let r1 = set_hdd_capacity hdd1 sectors r in
      (r0.reg_hdd0_cap_hi * 2 ^ 32 + r0.reg_hdd0_cap_lo ≡ sectors)
      × (r0.reg_hdd1_cap_lo ≡ r.reg_hdd1_cap_lo)
      × (r1.reg_hdd1_cap_hi * 2 ^ 32 + r1.reg_hdd1_cap_lo ≡ sectors)
      × (r1.reg_hdd0_cap_lo ≡ r.reg_hdd0_cap_lo)
unfolding set_hdd_capacity
set_hdd_capacity-join sectors r h = omega arith
