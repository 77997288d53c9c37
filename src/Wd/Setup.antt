-- ===== src/Wd/Setup.antt =====
-- Set-up in soc/firmware/src/wd_emu.c: track buffer, reset and start-up, variant, features, geometry,
-- interrupts and the status that is refreshed from the hardware.
pub mod Bounded
use flux_ripper.Base.{
  ℕ, zero, suc, ◌+◌, ◌-◌, ◌*◌, ◌/◌, ◌%◌, ◌^◌, Bool, true, false, not, ◌==◌, ltb, if◌then◌else◌,
  bit_and, bit_or, and_not8, any_bit, Option, none, some,
}
use flux_ripper.Wd.Device.{
  WdReg, HalRet, hal_ok, hal_already_init, hal_param, hal_timeout, HddProfile, HddStatus, WdHal,
}
use flux_ripper.Wd.State.{
  bsy, rdy, sc, drq, err, error_abrt, WdVariant, variant_no, default_features, WdPhase, idle, error,
  WdConfig, DriveGeometry, Wd, put_geometry, poke,
}

module _ {H : Type 0} (hal : WdHal H) where
  -- `wd_invalidate_buffer`: bit 9 of the control register is set and cleared.
  unfoldable pub invalidate_buffer : Wd H → Wd H
  invalidate_buffer w =
      let (v, h) = hal.reg_read WdReg.ctrl w.hw in
      let h1 = hal.reg_write WdReg.ctrl (bit_or v (2 ^ 9)) h in
      let (v', h2) = hal.reg_read WdReg.ctrl h1 in
      record w { hw = hal.reg_write WdReg.ctrl (bit_and v' (2 ^ 32 - 1 - 2 ^ 9)) h2 }

  -- The polling loop of `wd_flush_buffer`, with the rounds left.
  unfoldable pub wait_flush : ℕ → H → HalRet × H
  wait_flush zero h = (hal_timeout, h)
  wait_flush (suc n) h =
      let (v, h') = hal.reg_read WdReg.ctrl h in
      let rest = wait_flush n h' in if any_bit v (2 ^ 8) then rest else (hal_ok, h')

  -- `wd_flush_buffer`
  unfoldable pub flush_buffer : Wd H → HalRet × Wd H
  flush_buffer w =
      let (v, h) = hal.reg_read WdReg.ctrl w.hw in
      let (ret, h') = wait_flush 1000 (hal.reg_write WdReg.ctrl (bit_or v (2 ^ 8)) h) in
      (ret, record w { hw = h' })

  -- `wd_reset`
  unfoldable pub reset : Wd H → Wd H
  unfolding invalidate_buffer
  reset w = invalidate_buffer (record w {
    phase = idle;
    status = bit_or rdy sc;
    error_reg = 0;
    command_reg = 0;
    bytes_pending = 0;
    irq_pending = false;
    buffer_offset = 0;
    diag_result = record (w.diag_result) { code = 0x01; error_count = 0 };
  })

  -- One round of the loop of `wd_init` over the drives.
  unfoldable pub adopt_profile : ℕ → Wd H → Wd H
  adopt_profile drive w =
      let (profile, h) = hal.hdd_get_profile drive w.hw in
      let w' = record w { hw = h } in
      elim profile [
        | none ↦ w'
        | some p ↦
            if p.valid
            then put_geometry drive
                (record {
                  cylinders = p.cylinders;
                  heads = p.heads;
                  sectors = p.sectors;
                  valid = true;
                })
                w'
            else w'
      ]

  abbrev pub may_start : HalRet → Bool
  may_start hal_ok = true
  may_start hal_already_init = true
  may_start _ = false

  -- `wd_init`
  unfoldable pub init : Wd H → HalRet × Wd H
  unfolding reset adopt_profile
  init w =
      let (ret, h) = hal.hdd_hal_init w.hw in
      let w' = record w { hw = h } in
      if may_start ret then (hal_ok, adopt_profile 1 (adopt_profile 0 (reset w'))) else (ret, w')

  abbrev pub write_config : Wd H → Wd H
  write_config w =
      poke hal WdReg.config (bit_or (variant_no w.cfg.variant) (w.cfg.features * 256 % 2 ^ 32)) w

  -- `wd_set_variant`
  unfoldable pub set_variant : WdVariant → Wd H → Wd H
  unfolding default_features
  set_variant v w =
      write_config
        (record w { cfg = record (w.cfg) { variant = v; features = default_features v } })

  -- `wd_set_features`
  unfoldable pub set_features : ℕ → Wd H → Wd H
  set_features f w = write_config (record w { cfg = record (w.cfg) { features = f } })

  -- `wd_feature_enabled`
  abbrev pub feature_enabled : ℕ → Wd H → Bool
  feature_enabled f w = any_bit w.cfg.features f

  -- `wd_set_geometry`
  unfoldable pub set_geometry : ℕ → ℕ → ℕ → ℕ → Wd H → HalRet × Wd H
  set_geometry drive cylinders heads sectors w =
      let word = bit_or (bit_or (cylinders * 2 ^ 16) (heads * 2 ^ 8)) sectors in
      let g : DriveGeometry = record {
        cylinders = cylinders;
        heads = heads;
        sectors = sectors;
        valid = true;
      } in
      if ltb 1 drive
      then (hal_param, w)
      else (hal_ok, poke hal WdReg.geometry word (put_geometry drive g w))

  -- `wd_set_irq_enable`
  unfoldable pub set_irq_enable : Bool → Wd H → Wd H
  set_irq_enable on w =
      poke hal WdReg.irq_mask (if on then 2 ^ 32 - 1 else 0)
        (record w { cfg = record (w.cfg) { irq_enabled = on } })

  -- `wd_irq_ack`
  unfoldable pub irq_ack : Wd H → Wd H
  irq_ack w = poke hal WdReg.irq_status (2 ^ 32 - 1) (record w { irq_pending = false })

  -- `wd_set_config`
  unfoldable pub set_config : WdConfig → Wd H → Wd H
  unfolding set_irq_enable
  set_config c w = set_irq_enable c.irq_enabled (write_config (record w { cfg = c }))

  -- `if (on) status |= mask; else status &= ~mask;`
  abbrev pub assign_bits : Bool → ℕ → ℕ → ℕ
  assign_bits on mask x = if on then bit_or x mask else and_not8 x mask

  -- `wd_update_status`
  unfoldable pub update_status : Wd H → Wd H
  update_status w =
      let (v, h) = hal.reg_read WdReg.status_cmd w.hw in
      let (found, h') = hal.hdd_get_status w.drive h in
      let raw = v % 256 in
      record w {
        hw = h';
        status = elim found [
          | none ↦ raw
          | some d ↦ assign_bits (not d.seeking) sc (assign_bits d.ready rdy raw)
        ];
      }

  -- `wd_abort_command`
  unfoldable pub abort_command : Wd H → Wd H
  abort_command w = record w {
    status = bit_or (bit_or (and_not8 w.status (bsy + drq)) rdy) err;
    error_reg = error_abrt;
    phase = idle;
  }

  -- `wd_is_busy` and `wd_drq_pending`
  abbrev pub is_busy : Wd H → Bool
  is_busy w = any_bit w.status bsy

  abbrev pub drq_pending : Wd H → Bool
  drq_pending w = any_bit w.status drq
