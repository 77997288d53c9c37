-- ===== src/Scsi/Dispatch/Data.antt =====
-- The data phase of SCSI commands: what a host is told of a unit, and which blocks it can reach.
use flux_ripper.Base.{
  ℕ, ◌+◌, ◌-◌, ◌*◌, ◌^◌, ◌<◌, ◌≡◌, ◌≢◌, refl, subst, ◌⊎◌, true, false, arith, ltb, leb, List, ◌++◌,
  at, at-put_self, if◌then◌else◌, bit_and, length, take, take-overwrite, overwrite, min,
  length-append, length-take, length-replicate, replicate, [], some,
}
use flux_ripper.Msc.Device.{DriveHal}
use flux_ripper.Msc.Lun.{LunConfig, lba_range}
use flux_ripper.Msc.State.{Msc}
use flux_ripper.Msc.Hal
use flux_ripper.Msc.Hal.Transfer.{IsAllowed, msc_read-IsAllowed}
use flux_ripper.Scsi.State.{done, failed, Call, set_sense}
use flux_ripper.Scsi.Cdb.{byte, get_be32, get_be16, put_be32, get_be32-put_be32}
use flux_ripper.Scsi.Commands
use flux_ripper.Scsi.Commands.{padded, inquiry_bytes}

length-padded : (n : ℕ) (s : List ℕ) → length (padded n s) ≡ n
length-padded n s = omega (
  arith,
  length-take n (s ++ replicate n 32),
  length-append s (replicate n 32),
  length-replicate {A = ℕ} n 32,
)

length-inquiry_bytes : (q : ℕ) (config : LunConfig) → length (inquiry_bytes q config) ≡ 36
unfolding inquiry_bytes
length-inquiry_bytes q config = omega (
  arith,
  length-append (padded 8 config.vendor) (padded 16 config.product ++ padded 4 config.revision),
  length-append (padded 16 config.product) (padded 4 config.revision),
  length-padded 8 config.vendor,
  length-padded 16 config.product,
  length-padded 4 config.revision,
)

take-inquiry_bytes :
    (q : ℕ) (config : LunConfig) (buf : List ℕ)
    → take 36 (overwrite (inquiry_bytes q config) buf) ≡ inquiry_bytes q config
take-inquiry_bytes q config buf =
    let bytes = inquiry_bytes q config in
    subst (λ n. take n (overwrite bytes buf) ≡ bytes) (length-inquiry_bytes q config)
      (take-overwrite bytes buf)

clip-min : (a b : ℕ) → (if ltb a b then a else b) ≡ min a b
clip-min a b = ground arith

module _ {H : Type 0} (hal : DriveHal H) where
  dev-is_ready : (lun : ℕ) (m : Msc H) → (Hal.is_ready hal lun m).1.dev ≡ m.dev
  unfolding Hal.is_ready
  dev-is_ready lun m = ground arith

  dev-is_write_protected : (lun : ℕ) (m : Msc H) → (Hal.is_write_protected hal lun m).1.dev ≡ m.dev
  unfolding Hal.is_write_protected
  dev-is_write_protected lun m = ground arith

  get_capacity-is_ready :
      (lun : ℕ) (m : Msc H)
      → lun < 4
      → 0 < (at m.luns lun).capacity
      → let cfg = at m.luns lun in
        Hal.get_capacity hal lun (Hal.is_ready hal lun m).1
        ≡ some (cfg.capacity - 1, cfg.block_size)
  unfolding Hal.is_ready Hal.get_capacity
  get_capacity-is_ready lun m p q = ground (arith, at-put_self m.luns lun)

  report_capacity-some :
      (lun last_lba block_size : ℕ) (c : Call H)
      → Hal.get_capacity hal lun c.scsi.msc ≡ some (last_lba, block_size)
      → Commands.report_capacity hal lun c
        ≡ Commands.answer done 8 true
            (record c { buf = overwrite (put_be32 last_lba ++ put_be32 block_size) c.buf; len = 8 })
  unfolding Commands.report_capacity
  report_capacity-some lun last_lba block_size c e = rw (e, Commands.report_capacity)

  msc_read-out_of_range :
      (lun lba count : ℕ) (m : Msc H)
      → lun < 4
      → (Hal.is_ready hal lun m).0 ≡ true
      → (at m.luns lun).capacity < lba + count
      → lba + count < 2 ^ 32
      → let (status, _, m') = Hal.msc_read hal lun lba count (Hal.is_ready hal lun m).1 in
        (status ≡ lba_range) × (m'.dev ≡ m.dev)
  unfolding Hal.msc_read Hal.is_ready
  msc_read-out_of_range lun lba count m p r far small = ground (arith, at-put_self m.luns lun)

  -- READ CAPACITY of a ready unit with blocks reports the last block and the block size, which the
  -- host reads big-endian.
  pub read_capacity_10_reports :
      (lun : ℕ) (c : Call H)
      → lun < 4
      → (Hal.is_ready hal lun c.scsi.msc).0 ≡ true
      → 0 < (at c.scsi.msc.luns lun).capacity
      → (at c.scsi.msc.luns lun).capacity < 2 ^ 32
      → (at c.scsi.msc.luns lun).block_size < 2 ^ 16
      → let cfg = at c.scsi.msc.luns lun in
        let (ret, c') = Commands.cmd_read_capacity_10 hal lun c in
        (ret ≡ done)
        × (c'.result.data_len ≡ 8)
        × (get_be32 c'.buf 0 + 1 ≡ cfg.capacity)
        × (get_be32 c'.buf 4 ≡ cfg.block_size)
  unfolding Commands.cmd_read_capacity_10 get_be32 put_be32
  read_capacity_10_reports lun c p r q s t =
      let cfg = at c.scsi.msc.luns lun in
      let c' = Commands.with_msc (Hal.is_ready hal lun c.scsi.msc).1 c in
      let found = get_capacity-is_ready lun c.scsi.msc p q in
      rw (r, report_capacity-some lun (cfg.capacity - 1) cfg.block_size c' found)
        (
          refl,
          refl,
          omega (arith, get_be32-put_be32 (cfg.capacity - 1) [] (omega arith)),
          get_be32-put_be32 cfg.block_size [] (omega arith),
        )

  -- A READ(10) that succeeds transfers nothing, or whole blocks inside a unit that has its medium, provided
  -- that the sum of its first block and its count is below 2 ^ 32, where the range check, which adds in 32
  -- bits, does not wrap.
  pub read_10-IsAllowed :
      (lun : ℕ) (cdb : List ℕ) (c : Call H)
      → get_be32 cdb 2 + get_be16 cdb 7 < 2 ^ 32
      → (Commands.cmd_read_10 hal lun cdb c).0 ≡ done
      → let lba = get_be32 cdb 2 in
        let count = get_be16 cdb 7 in
        let unit = at (Hal.is_ready hal lun c.scsi.msc).1.luns lun in
        ((Commands.cmd_read_10 hal lun cdb c).1.result.data_len ≡ count * 512)
        × ((count ≡ 0) ⊎ IsAllowed unit lba count)
  unfolding Commands.cmd_read_10 Commands.read_result
  read_10-IsAllowed lun cdb c p r = ground (
    arith,
    msc_read-IsAllowed hal lun (get_be32 cdb 2) (get_be16 cdb 7)
        (Hal.is_ready hal lun c.scsi.msc).1,
  )

  -- A WRITE(10) to a unit that reads as write-protected reaches no drive, and fails unless it
  -- writes nothing.
  pub write_10_protected :
      (lun : ℕ) (cdb : List ℕ) (c : Call H)
      → (Hal.is_write_protected hal lun (Hal.is_ready hal lun c.scsi.msc).1).0 ≡ true
      → let (ret, c') = Commands.cmd_write_10 hal lun cdb c in
        (c'.scsi.msc.dev ≡ c.scsi.msc.dev) × ((ret ≡ failed) ⊎ (get_be16 cdb 7 ≡ 0))
  unfolding Commands.cmd_write_10 set_sense
  write_10_protected lun cdb c h = ground (
    arith,
    dev-is_ready lun c.scsi.msc,
    dev-is_write_protected lun (Hal.is_ready hal lun c.scsi.msc).1,
  )

  -- A READ(10) beyond the end of a ready unit reports ILLEGAL REQUEST, LBA OUT OF RANGE, and reaches
  -- no drive.
  pub read_10_out_of_range :
      (lun : ℕ) (cdb : List ℕ) (c : Call H)
      → lun < 4
      → get_be16 cdb 7 ≢ 0
      → (Hal.is_ready hal lun c.scsi.msc).0 ≡ true
      → (at c.scsi.msc.luns lun).capacity < get_be32 cdb 2 + get_be16 cdb 7
      → get_be32 cdb 2 + get_be16 cdb 7 < 2 ^ 32
      → let (ret, c') = Commands.cmd_read_10 hal lun cdb c in
        (ret ≡ failed)
        × ((at c'.scsi.sense lun).sense_key ≡ 5)
        × ((at c'.scsi.sense lun).asc ≡ 0x21)
        × (c'.scsi.msc.dev ≡ c.scsi.msc.dev)
  unfolding Commands.cmd_read_10 Commands.read_result set_sense
  read_10_out_of_range lun cdb c p z r far small = ground (
    arith,
    dev-is_ready lun c.scsi.msc,
    msc_read-out_of_range lun (get_be32 cdb 2) (get_be16 cdb 7) c.scsi.msc p r far small,
    at-put_self c.scsi.sense lun,
  )

  -- INQUIRY without EVPD puts the 36 bytes of the standard response at the start of the buffer, and
  -- returns as many of them as the host allows.
  pub inquiry_standard :
      (uninit : LunConfig) (lun : ℕ) (cdb : List ℕ) (c : Call H)
      → lun < 4
      → bit_and (byte cdb 1) 1 ≡ 0
      → let cfg = at c.scsi.msc.luns lun in
        let (ret, c') = Commands.cmd_inquiry hal uninit lun cdb c in
        (ret ≡ done)
        × (c'.len ≡ min (get_be16 cdb 3) 36)
        × (c'.result.data_len ≡ c'.len)
        × (take 36 c'.buf ≡ inquiry_bytes (if cfg.present then 0x00 else 0x20) cfg)
  unfolding Commands.cmd_inquiry Hal.get_lun_config
  inquiry_standard uninit lun cdb c p e =
      let cfg = at c.scsi.msc.luns lun in
      let here : leb 4 lun ≡ false = ground arith in
      rw (here, e)
        (
          refl,
          clip-min (get_be16 cdb 3) 36,
          refl,
          take-inquiry_bytes (if cfg.present then 0x00 else 0x20) cfg c.buf,
        )
