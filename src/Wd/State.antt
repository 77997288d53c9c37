-- ===== src/Wd/State.antt =====
-- The state of soc/firmware/src/wd_emu.c and the status transitions that its operations share.
use flux_ripper.Base.{ℕ, ◌+◌, Bool, true, ◌==◌, if◌then◌else◌, bit_or, and_not8}
use flux_ripper.Wd.Device.{WdReg, WdHal}

-- `WD_STATUS_*` and `WD_ERROR_*`
abbrev pub bsy : ℕ
bsy = 0x80

abbrev pub rdy : ℕ
rdy = 0x40

abbrev pub sc : ℕ
sc = 0x10

abbrev pub drq : ℕ
drq = 0x08

abbrev pub err : ℕ
err = 0x01

abbrev pub error_idnf : ℕ
error_idnf = 0x10

abbrev pub error_abrt : ℕ
error_abrt = 0x04

abbrev pub error_tk0nf : ℕ
error_tk0nf = 0x02

-- `wd_variant_t`
pub data WdVariant : Type 0 where
  wd1003 wd1006 wd1007 generic : WdVariant

abbrev pub variant_no : WdVariant → ℕ
variant_no wd1003 = 0
variant_no wd1006 = 1
variant_no wd1007 = 2
variant_no generic = 3

-- `wd_feature_t`
abbrev pub feat_read_write_long : ℕ
feat_read_write_long = 0x08

abbrev pub feat_set_get_params : ℕ
feat_set_get_params = 0x10

abbrev pub feat_get_diag : ℕ
feat_get_diag = 0x20

abbrev pub feat_get_id : ℕ
feat_get_id = 0x40

-- `wd_variant_default_features`, each set written as its sum of `WD_FEAT_*`.
unfoldable pub default_features : WdVariant → ℕ
default_features wd1003 = 0
default_features wd1006 = 0x01 + 0x10 + 0x20 + 0x02
default_features wd1007 = 0x01 + 0x10 + 0x20 + 0x40 + 0x80 + 0x02 + 0x08
default_features generic = 0x01 + 0x10 + 0x20 + 0x40 + 0x80 + 0x02 + 0x08 + 0x100 + 0x04

-- `wd_state_t`
pub data WdPhase : Type 0 where
  idle command data_in data_out drq_wait seek read write verify format diag complete error : WdPhase

-- `wd_config_t`
pub record WdConfig : Type 0 where
  pub variant : WdVariant
  pub features : ℕ
  pub step_rate : ℕ
  pub head_settle : ℕ
  pub irq_enabled : Bool
  pub buffer_enabled : Bool

-- `wd_diag_result_t`
pub record WdDiag : Type 0 where
  pub code : ℕ
  pub drive0_ok : Bool
  pub drive1_ok : Bool
  pub controller_ok : Bool
  pub buffer_ok : Bool
  pub error_count : ℕ

-- An element of `g_drive_geometry`.
pub record DriveGeometry : Type 0 where
  pub cylinders : ℕ
  pub heads : ℕ
  pub sectors : ℕ
  pub valid : Bool

-- The statics of the file: `g_wd_state` (its `state` is `phase`), `g_wd_config`, `g_diag_result`,
-- `g_drive_geometry`, `g_buffer_offset`; and the hardware.
pub record Wd (H : Type 0) : Type 0 where
  pub phase : WdPhase
  pub status : ℕ
  pub error_reg : ℕ
  pub command_reg : ℕ
  pub drive : ℕ
  pub head : ℕ
  pub cylinder : ℕ
  pub sector : ℕ
  pub sector_count : ℕ
  pub bytes_pending : ℕ
  pub irq_pending : Bool
  pub cfg : WdConfig
  pub diag_result : WdDiag
  pub geometry0 : DriveGeometry
  pub geometry1 : DriveGeometry
  pub buffer_offset : ℕ
  pub hw : H

-- `g_drive_geometry[drive]`; the drive is 0 or 1.
abbrev pub geometry_at : {H : Type 0} → Wd H → ℕ → DriveGeometry
geometry_at w drive = if drive == 0 then w.geometry0 else w.geometry1

abbrev pub put_geometry : {H : Type 0} → ℕ → DriveGeometry → Wd H → Wd H
put_geometry drive g w =
    if drive == 0 then record w { geometry0 = g } else record w { geometry1 = g }

module _ {H : Type 0} (hal : WdHal H) where
  -- `REG32(r) = v`
  abbrev pub poke : WdReg → ℕ → Wd H → Wd H
  poke r v w = record w { hw = hal.reg_write r v w.hw }

module _ {H : Type 0} where
  -- `if (g_wd_config.irq_enabled) g_wd_state.irq_pending = true;`
  abbrev pub raise_irq : Wd H → Wd H
  raise_irq w = record w { irq_pending = if w.cfg.irq_enabled then true else w.irq_pending }

  -- `wd_set_error`
  unfoldable pub set_error : ℕ → Wd H → Wd H
  set_error e w = raise_irq (record w {
    error_reg = e;
    status = and_not8 (bit_or w.status err) (bsy + drq);
    phase = error;
  })

  -- `wd_complete_command`
  unfoldable pub complete_command : Wd H → Wd H
  complete_command w =
      raise_irq
        (record w { status = bit_or (and_not8 w.status (bsy + drq)) (rdy + sc); phase = idle })

  -- `g_wd_state.status &= ~WD_STATUS_BSY; g_wd_state.status |= WD_STATUS_DRQ;`
  abbrev pub ask_data : Wd H → Wd H
  ask_data w = record w { status = bit_or (and_not8 w.status bsy) drq }
