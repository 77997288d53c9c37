-- ===== src/Meta/Storage/Located.antt =====
-- Where soc/firmware/src/hdd_metadata.c keeps the metadata.
use flux_ripper.Base.{
  ℕ, ◌+◌, ◌*◌, ◌^◌, ◌-◌, bit_or, ◌<◌, ◌≡◌, arith, true, if◌then◌else◌, Option, none, some,
}
use flux_ripper.Act.{returns, resume}
use flux_ripper.Meta.State.{MetaConfig, DriveMeta, Meta, no_metadata, meta_at, put_meta}
use flux_ripper.Meta.Storage.{MetaReg, MetaIo, config_or, meta_init, get_defect_list}

module _ {H : Type 0} (hw : MetaIo H) where
  -- `meta_init` of drive 0 or 1 succeeds and leaves the other drive alone. The defect list of the drive then
  -- has the cylinder, the head and the sector of the configuration that was given, or of the default, with
  -- four sectors, if that configuration is enabled, and is refused if not. A head or a sector of 0xFF is
  -- reported as 0xFF: the default that the header file promises for it is not put in its place.
  pub get_defect_list-init :
      (drive : ℕ) (given : Option MetaConfig) (s : Meta H)
      → drive < 2
      → (s' : Meta H) × (meta_init hw drive given s ≡ some (returns tt, s'))
        × (get_defect_list drive s' ≡ (
            if (config_or given).enabled
            then some (
              (config_or given).cylinder,
              (config_or given).head,
              (config_or given).start_sector,
              4,
            )
            else none))
        × (meta_at s' (1 - drive) ≡ meta_at s (1 - drive))
  unfolding meta_init get_defect_list resume
  get_defect_list-init drive given s p =
      let c = config_or given in
      let word =
        (if c.enabled then 1 else 0)
        + (if c.auto_write then 2 else 0)
        + (if c.generate_guid_on_first then 4 else 0) in
      let h1 = hw.write_reg MetaReg.config word s.io in
      let h2 = hw.write_reg MetaReg.cyl_head (bit_or (c.head * 2 ^ 16) c.cylinder) h1 in
      let h3 = hw.write_reg MetaReg.sector (c.start_sector) h2 in
      let d : DriveMeta = record { initialized = true; config = c; cache = no_metadata } in
      (put_meta drive d (record s { io = h3 }), ground arith, ground arith, ground arith)
