-- ===== src/Hdd/Address.antt =====
-- Block addresses in soc/firmware/src/hdd_hal.c: a sector by its cylinder, head and number, from 1.
pub mod Inverse
use flux_ripper.Base.{
  ℕ, zero, suc, ◌+◌, ◌-◌, ◌*◌, ◌/◌, ◌%◌, ◌^◌, Bool, true, false, not, ◌&&◌, ◌||◌, ◌==◌, ltb,
  if◌then◌else◌, bit_and, bit_or, any_bit, Option, none, some, List, [], ◌∷◌, ◌++◌,
}
use flux_ripper.Hdd.State.{Geometry}

-- Where a sector is, in the types of the C code: 16, 8 and 8 bits.
pub record Place : Type 0 where
  pub cylinder : ℕ
  pub head : ℕ
  pub sector : ℕ

-- `hdd_chs_to_lba`, on 32 bits.
unfoldable pub chs_to_lba : Geometry → Place → ℕ
chs_to_lba g p =
    if (g.heads == 0) || (g.sectors == 0)
    then 0
    else ((p.cylinder * g.heads + p.head) * g.sectors + (p.sector + 2 ^ 32 - 1)) % 2 ^ 32

-- `hdd_lba_to_chs`
unfoldable pub lba_to_chs : Geometry → ℕ → Place
lba_to_chs g lba =
    let track = lba / g.sectors in
    if (g.heads == 0) || (g.sectors == 0)
    then record { cylinder = 0; head = 0; sector = 1 }
    else record {
      cylinder = track / g.heads % 2 ^ 16;
      head = track % g.heads % 2 ^ 8;
      sector = (lba % g.sectors + 1) % 2 ^ 8;
    }
