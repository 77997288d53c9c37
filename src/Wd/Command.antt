-- ===== src/Wd/Command.antt =====
-- soc/firmware/src/wd_emu.c: the command set, from the byte in the command register to the state that
-- the command leaves the controller in.
pub mod Outcome
pub mod Linked
use flux_ripper.Base.{
  ℕ, zero, suc, ◌+◌, ◌-◌, ◌*◌, ◌/◌, ◌%◌, ◌^◌, Bool, true, false, not, ◌||◌, ◌==◌, ltb,
  if◌then◌else◌, bit_and, bit_or, and_not8, any_bit, List, [], ◌∷◌, ◌++◌, Option, none, some,
  replicate, codes,
}
use flux_ripper.Wd.Device.{WdReg, HalRet, hal_ok, hal_param, hal_not_supported, hal_cmd, WdHal}
use flux_ripper.Wd.State.{
  bsy, drq, err, error_idnf, error_abrt, error_tk0nf, feat_read_write_long, feat_set_get_params,
  feat_get_diag, feat_get_id, WdPhase, DriveGeometry, WdDiag, Wd, geometry_at, raise_irq, set_error,
  complete_command, ask_data, poke,
}
use flux_ripper.Wd.Setup.{feature_enabled, set_geometry}

-- The command byte as `wd_process_command` reads it.
pub data WdCommand : Type 0 where
  restore read_sectors read_long write_sectors write_long verify format_track seek : WdCommand
  exec_diag set_params identify unknown : WdCommand

-- The `switch` of `wd_process_command`.
abbrev pub decode_one : ℕ → WdCommand
decode_one cmd =
    if cmd == 0x20 || cmd == 0x21
    then read_sectors
    else if cmd == 0x22 || cmd == 0x23
    then read_long
    else if cmd == 0x30 || cmd == 0x31
    then write_sectors
    else if cmd == 0x32 || cmd == 0x33
    then write_long
    else if cmd == 0x40 || cmd == 0x41
    then verify
    else if cmd == 0x50
    then format_track
    else if cmd == 0x90
    then exec_diag
    else if cmd == 0x91
    then set_params
    else if cmd == 0xEC
    then identify
    else unknown

-- The decoding of `wd_process_command`: two classes by the high nibble, then the `switch`.
unfoldable pub decode : ℕ → WdCommand
decode cmd =
    if bit_and cmd 0xF0 == 0x10
    then restore
    else if bit_and cmd 0xF0 == 0x70
    then seek
    else decode_one cmd

-- Bytes as the little-endian 16-bit words that a copy stores.
abbrev pub words : List ℕ → List ℕ
words [] = []
words (x ∷ []) = x ∷ []
words (x ∷ y ∷ xs) = (x + y * 256) ∷ words xs

-- The NUL at the end of a literal and the bytes behind it, `n` in all.
abbrev pub beyond : (ℕ → ℕ) → ℕ → List ℕ
beyond past zero = []
beyond past (suc n) = beyond past n ++ past n ∷ []

module _ {H : Type 0} (hal : WdHal H) where
  -- `memcpy(dst, literal, n)` with `extra` bytes more than the literal and its NUL have.
  abbrev pub copied : List ℕ → ℕ → List ℕ
  copied literal extra = words (literal ++ 0 ∷ beyond (hal.past_literal literal) extra)

  -- The block that `wd_exec_identify` builds.
  unfoldable pub identify_block : DriveGeometry → List ℕ
  identify_block g =
      (0x0040 ∷ g.cylinders ∷ 0 ∷ g.heads ∷ 0 ∷ 0 ∷ g.sectors ∷ 0 ∷ 0 ∷ 0 ∷ [])
      ++ copied (codes "FLUXRIPPER0001  ") 3
      ++ replicate 3 0
      ++ words (codes "1.00    ")
      ++ copied (codes "FluxRipper WD Emulation         ") 7
      ++ 1 ∷ 0 ∷ 0x0200 ∷ replicate 206 0

  abbrev pub bump : Bool → WdDiag → WdDiag
  bump ok d = if ok then d else record d { error_count = d.error_count + 1 }

  -- `wd_run_diagnostics`: the result, which is also stored.
  unfoldable pub run_diagnostics : Wd H → WdDiag × Wd H
  run_diagnostics w =
      let (ready0, h0) = hal.hdd_is_ready 0 w.hw in
      let (ready1, h1) = hal.hdd_is_ready 1 h0 in
      let h2 = hal.reg_write WdReg.buffer_data 0xA5A5 (hal.reg_write WdReg.buffer_addr 0 h1) in
      let (back, h3) = hal.reg_read WdReg.buffer_data (hal.reg_write WdReg.buffer_addr 0 h2) in
      let same = back == 0xA5A5 in
      let code0 = if ready0 then 0x01 else bit_or 0x01 0x80 in
      let code1 = if ready1 then code0 else bit_or code0 0x40 in
      let d : WdDiag = record {
        code = if same then code1 else 0x03;
        drive0_ok = ready0;
        drive1_ok = ready1;
        controller_ok = true;
        buffer_ok = same;
        error_count =
            (if ready0 then 0 else 1) + (if ready1 then 0 else 1) + (if same then 0 else 1);
      } in
      (d, record w { diag_result = d; hw = h3 })

  -- `if (ret != HAL_OK) { wd_set_error(e); return ret; } return HAL_OK;` after a call of the layer below.
  abbrev pub or_error : ℕ → HalRet → Wd H → HalRet × Wd H
  or_error e hal_ok w = (hal_ok, w)
  or_error e ret w = (ret, set_error e w)

  -- `wd_exec_restore`
  unfoldable pub exec_restore : Wd H → HalRet × Wd H
  unfolding set_error
  exec_restore w =
      let (ret, h) = hal.hdd_recalibrate w.drive w.hw in
      or_error error_tk0nf ret (record w { phase = WdPhase.seek; cylinder = 0; hw = h })

  -- `wd_exec_seek`
  unfoldable pub exec_seek : Wd H → HalRet × Wd H
  unfolding set_error
  exec_seek w =
      let (ret, h) = hal.hdd_seek w.drive w.cylinder w.hw in
      or_error error_idnf ret (record w { phase = WdPhase.seek; hw = h })

  -- The guard of the read and write commands.
  abbrev pub bad_sector : Wd H → Bool
  bad_sector w = w.sector == 0 || ltb ((geometry_at w w.drive).sectors) w.sector

  -- The end of `wd_exec_read_sectors`, with the sector in the buffer.
  abbrev pub offer_sector : HalRet → Wd H → HalRet × Wd H
  offer_sector hal_ok w = (hal_ok, raise_irq (record (ask_data w) { phase = WdPhase.data_out }))
  offer_sector ret w = (ret, set_error error_idnf w)

  -- `wd_exec_read_sectors`
  unfoldable pub exec_read_sectors : Wd H → HalRet × Wd H
  unfolding set_error
  exec_read_sectors w =
      let (ret, h) = hal.hdd_read_sector w.drive w.cylinder w.head w.sector w.hw in
      if bad_sector w
      then (hal_param, set_error error_idnf w)
      else offer_sector ret
          (record w { phase = WdPhase.read; buffer_offset = 0; bytes_pending = 512; hw = h })

  -- `wd_exec_write_sectors`
  unfoldable pub exec_write_sectors : Wd H → HalRet × Wd H
  unfolding set_error
  exec_write_sectors w = if bad_sector w then (hal_param, set_error error_idnf w) else (
    hal_ok,
    ask_data (record w { phase = WdPhase.data_in; buffer_offset = 0; bytes_pending = 512 }),
  )

  -- `wd_exec_verify`
  abbrev pub exec_verify : Wd H → HalRet × Wd H
  exec_verify w = (hal_ok, record w { phase = WdPhase.verify })

  -- `wd_exec_format_track`
  unfoldable pub exec_format_track : Wd H → HalRet × Wd H
  exec_format_track w = (
    hal_ok,
    record (ask_data w) { phase = WdPhase.format; bytes_pending = 512; buffer_offset = 0 },
  )

  -- `wd_exec_diagnostics`
  unfoldable pub exec_diagnostics : Wd H → HalRet × Wd H
  unfolding run_diagnostics complete_command
  exec_diagnostics w =
      let (d, w') = run_diagnostics (record w { phase = WdPhase.diag }) in
      (hal_ok, complete_command (record w' { error_reg = d.code }))

  -- `wd_exec_set_params`
  unfoldable pub exec_set_params : Wd H → HalRet × Wd H
  unfolding set_geometry complete_command
  exec_set_params w = (
    hal_ok,
    complete_command (set_geometry hal w.drive w.cylinder ((w.head + 1) % 256) w.sector_count w).1,
  )

  -- `wd_exec_identify`
  unfoldable pub exec_identify : Wd H → HalRet × Wd H
  unfolding identify_block
  exec_identify w =
      let block = identify_block (geometry_at w w.drive) in
      (
        hal_ok,
        raise_irq (
            ask_data (record w {
              phase = WdPhase.data_out;
              buffer_offset = 0;
              bytes_pending = 512;
              hw = hal.store_identify block w.hw;
            })),
      )

  -- `if (!wd_feature_enabled(f)) { wd_set_error(WD_ERROR_ABRT); return HAL_ERR_NOT_SUPPORTED; }`
  abbrev pub gated : ℕ → (Wd H → HalRet × Wd H) → Wd H → HalRet × Wd H
  gated f exec w =
      if feature_enabled hal f w then exec w else (hal_not_supported, set_error error_abrt w)

  -- The call that `wd_process_command` makes for a decoded command.
  unfoldable pub execute : WdCommand → Wd H → HalRet × Wd H
  unfolding exec_restore exec_seek exec_read_sectors exec_write_sectors exec_format_track
      exec_diagnostics exec_set_params exec_identify set_error
  execute restore w = exec_restore w
  execute seek w = exec_seek w
  execute read_sectors w = exec_read_sectors w
  execute read_long w = gated feat_read_write_long exec_read_sectors w
  execute write_sectors w = exec_write_sectors w
  execute write_long w = gated feat_read_write_long exec_write_sectors w
  execute verify w = exec_verify w
  execute format_track w = exec_format_track w
  execute exec_diag w = gated feat_get_diag exec_diagnostics w
  execute set_params w = gated feat_set_get_params exec_set_params w
  execute identify w = gated feat_get_id exec_identify w
  execute unknown w = (hal_cmd, set_error error_abrt w)

  -- The state in which a command is decoded: BSY, no DRQ, no ERR, and the byte passed to the hardware.
  abbrev pub accept : ℕ → Wd H → Wd H
  accept cmd w = poke hal WdReg.status_cmd cmd (record w {
    command_reg = cmd;
    status = and_not8 (bit_or w.status bsy) (drq + err);
    error_reg = 0;
    phase = WdPhase.command;
  })

  -- `wd_process_command`
  unfoldable pub process_command : ℕ → Wd H → HalRet × Wd H
  unfolding decode execute
  process_command cmd w = execute (decode cmd) (accept cmd w)
