-- ===== src/Wd/Command/Outcome.antt =====
-- How a command ends: accepted, refused or failed.
use flux_ripper.Base.{ℕ, ◌≡◌, ◌≢◌, Bool, true, false, not, ◌&&◌, ◌==◌, arith, any_bit}
use flux_ripper.Wd.Device.{WdReg, HalRet, hal_ok, WdHal}
use flux_ripper.Wd.State.{
  err, error_abrt, feat_read_write_long, feat_set_get_params, feat_get_diag, feat_get_id, WdPhase,
  Wd, set_error, complete_command,
}
use flux_ripper.Wd.Setup.{set_geometry}
use flux_ripper.Wd.Flags.{
  set_error-Shows, complete_command-Shows, ask_data-Shows, accept-Shows, Shows,
}
use flux_ripper.Wd.Command.{
  WdCommand, restore, read_sectors, read_long, write_sectors, write_long, verify, format_track,
  seek, exec_diag, set_params, identify, unknown, decode, exec_restore, exec_seek,
  exec_read_sectors, exec_write_sectors, exec_format_track, exec_diagnostics, exec_set_params,
  exec_identify, execute, process_command, run_diagnostics,
}

-- The commands that a controller with these features has.
unfoldable pub supports : ℕ → WdCommand → Bool
supports f read_long = any_bit f feat_read_write_long
supports f write_long = any_bit f feat_read_write_long
supports f exec_diag = any_bit f feat_get_diag
supports f set_params = any_bit f feat_set_get_params
supports f identify = any_bit f feat_get_id
supports f unknown = false
supports f _ = true

abbrev pub is_ok : HalRet → Bool
is_ok hal_ok = true
is_ok _ = false

abbrev pub in_error : WdPhase → Bool
in_error WdPhase.error = true
in_error _ = false

-- The return value, the phase and ERR tell the same of a command.
pub record Ends {H : Type 0} (ret : HalRet) (w : Wd H) : Type 0 where
  pub told_status : any_bit w.status err ≡ not (is_ok ret)
  pub told_phase : in_error w.phase ≡ not (is_ok ret)

module _ {H : Type 0} (hal : WdHal H) where
  execute-Ends :
      (c : WdCommand) (w : Wd H)
      → Shows w.status true false false
      → Ends (execute hal c w).0 (execute hal c w).1
  unfolding execute exec_restore exec_seek exec_read_sectors exec_write_sectors exec_format_track
      exec_diagnostics exec_set_params exec_identify set_error complete_command run_diagnostics
      set_geometry
  execute-Ends restore w s = let e = set_error-Shows w.status in ground arith
  execute-Ends seek w s = let e = set_error-Shows w.status in ground arith
  execute-Ends read_sectors w s =
      let e = set_error-Shows w.status in let d = ask_data-Shows w.status in ground arith
  execute-Ends read_long w s =
      let e = set_error-Shows w.status in let d = ask_data-Shows w.status in ground arith
  execute-Ends write_sectors w s =
      let e = set_error-Shows w.status in let d = ask_data-Shows w.status in ground arith
  execute-Ends write_long w s =
      let e = set_error-Shows w.status in let d = ask_data-Shows w.status in ground arith
  execute-Ends verify w s = ground arith
  execute-Ends format_track w s = let d = ask_data-Shows w.status in ground arith
  execute-Ends exec_diag w s =
      let e = set_error-Shows w.status in let c = complete_command-Shows w.status in ground arith
  execute-Ends set_params w s =
      let e = set_error-Shows w.status in let c = complete_command-Shows w.status in ground arith
  execute-Ends identify w s =
      let e = set_error-Shows w.status in let d = ask_data-Shows w.status in ground arith
  execute-Ends unknown w s = let e = set_error-Shows w.status in ground arith

  -- For every command byte and every state, the return value, the phase and ERR agree: HAL_OK exactly
  -- where ERR is clear, and an error exactly where ERR is set and the phase is the error phase.
  pub process_command-Ends :
      (cmd : ℕ) (w : Wd H) → Ends (process_command hal cmd w).0 (process_command hal cmd w).1
  unfolding process_command
  process_command-Ends cmd w = execute-Ends (decode cmd) _ (accept-Shows w.status)

  -- A command byte that the controller's features do not support fails with ABRT, and neither the
  -- drives, the task file, the geometry nor a transfer is touched: the hardware has seen only the write
  -- of the command register.
  pub process_command_unsupported :
      (cmd : ℕ) (w : Wd H)
      → supports w.cfg.features (decode cmd) ≡ false
      → let (ret, w') = process_command hal cmd w in
        (w' ≡ record w {
          phase = WdPhase.error;
          status = w'.status;
          error_reg = error_abrt;
          command_reg = cmd;
          irq_pending = w'.irq_pending;
          hw = hal.reg_write WdReg.status_cmd cmd w.hw;
        })
        × (is_ok ret ≡ false)
  unfolding process_command execute supports set_error
  process_command_unsupported cmd w n = ground arith

  -- A supported command never ends with ABRT in the error register.
  pub process_command_supported :
      (cmd : ℕ) (w : Wd H)
      → supports w.cfg.features (decode cmd) ≡ true
      → (process_command hal cmd w).1.error_reg ≢ error_abrt
  unfolding process_command execute exec_restore exec_seek exec_read_sectors exec_write_sectors
      exec_format_track exec_diagnostics exec_set_params exec_identify set_error complete_command
      run_diagnostics set_geometry supports
  process_command_supported cmd w y = ground arith

  -- The diagnostics give code 1 exactly where both drives are ready and the buffer returns its test
  -- word, count each fault once, and are read in the error register after the command.
  pub exec_diagnostics_reports :
      (w : Wd H)
      → let (ret, w') = exec_diagnostics hal w in
        let d = w'.diag_result in
        ((d.code == 1) ≡ (d.drive0_ok && d.drive1_ok && d.buffer_ok))
        × (w'.error_reg ≡ d.code)
        × ((d.error_count == 0) ≡ (d.code == 1))
        × (ret ≡ hal_ok)
        × (w'.phase ≡ WdPhase.idle)
  unfolding exec_diagnostics run_diagnostics complete_command
  exec_diagnostics_reports w = ground arith
