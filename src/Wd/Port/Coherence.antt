-- ===== src/Wd/Port/Coherence.antt =====
-- What the status register shows in each phase, and that each operation keeps it so.
pub mod Calls
use flux_ripper.Base.{
  ℕ, zero, suc, ◌+◌, ◌-◌, ◌*◌, ◌/◌, ◌%◌, ◌^◌, ◌≤◌, ◌<◌, ◌≡◌, refl, Bool, true, false, not, ◌&&◌,
  ◌||◌, ◌==◌, ltb, leb, if◌then◌else◌, arith, bit_and, bit_or, any_bit, and_not8, any_bit-bit_or,
  any_bit-bit_and, any_bit-none,
}
use flux_ripper.Wd.Device.{WdReg, HalRet, WdHal}
use flux_ripper.Wd.State.{bsy, rdy, sc, drq, err, WdPhase, Wd, set_error, complete_command}
use flux_ripper.Wd.Flags.{
  Shows, set_error-Shows, complete_command-Shows, ask_data-Shows, write_data-Shows, accept-Shows,
  abort_command-Shows,
}
use flux_ripper.Wd.Setup.{set_geometry, irq_ack, reset, invalidate_buffer, abort_command}
use flux_ripper.Wd.Command.{
  run_diagnostics, WdCommand, restore, read_sectors, read_long, write_sectors, write_long, verify,
  format_track, seek, exec_diag, set_params, identify, unknown, decode, exec_restore, exec_seek,
  exec_read_sectors, exec_write_sectors, exec_format_track, exec_diagnostics, exec_set_params,
  exec_identify, execute, process_command,
}
use flux_ripper.Wd.Port.{
  port_of, WdPort, sector_taken, next_sector, next_place, read_port, store_port, read_data,
  write_data, read_reg, write_reg, poll,
}

-- The phases between two calls in which the controller works, moves data, or rests.
abbrev pub is_working : WdPhase → Bool
is_working WdPhase.seek = true
is_working WdPhase.verify = true
is_working WdPhase.write = true
is_working _ = false

abbrev pub is_transfer : WdPhase → Bool
is_transfer WdPhase.data_in = true
is_transfer WdPhase.data_out = true
is_transfer WdPhase.format = true
is_transfer _ = false

abbrev pub is_error : WdPhase → Bool
is_error WdPhase.error = true
is_error _ = false

abbrev pub is_rest : WdPhase → Bool
is_rest WdPhase.idle = true
is_rest p = is_error p

-- The phases that a call may leave the controller in.
abbrev pub is_settled : WdPhase → Bool
is_settled p = is_working p || is_transfer p || is_rest p

pub record IsCoherent {H : Type 0} (w : Wd H) : Type 0 where
  pub settled : is_settled w.phase ≡ true
  -- BSY while the hardware works, DRQ while words are moved, never both; ERR after a failure.
  pub busy : any_bit w.status bsy ≡ is_working w.phase
  pub asks : any_bit w.status drq ≡ is_transfer w.phase
  pub fails : is_error w.phase ≡ true → any_bit w.status err ≡ true
  -- The words of a sector are counted down while the buffer offset counts up.
  pub level : is_transfer w.phase ≡ true → w.buffer_offset + w.bytes_pending ≡ 512
  pub left : is_transfer w.phase ≡ true → 0 < w.bytes_pending
  pub even : is_transfer w.phase ≡ true → w.bytes_pending % 2 ≡ 0

module _ {H : Type 0} where
  set_error-IsCoherent : (e : ℕ) (w : Wd H) → IsCoherent (set_error e w)
  unfolding set_error
  set_error-IsCoherent e w = let s = set_error-Shows w.status in ground arith

  complete_command-IsCoherent : (w : Wd H) → IsCoherent (complete_command w)
  unfolding complete_command
  complete_command-IsCoherent w = let s = complete_command-Shows w.status in ground arith

module _ {H : Type 0} (hal : WdHal H) where
  execute-IsCoherent :
      (c : WdCommand) (w : Wd H) → Shows w.status true false false → IsCoherent (execute hal c w).1
  unfolding execute exec_restore exec_seek exec_read_sectors exec_write_sectors exec_format_track
      exec_diagnostics exec_set_params exec_identify set_error complete_command run_diagnostics
      set_geometry
  execute-IsCoherent restore w s = let e = set_error-Shows w.status in ground arith
  execute-IsCoherent seek w s = let e = set_error-Shows w.status in ground arith
  execute-IsCoherent read_sectors w s =
      let e = set_error-Shows w.status in let d = ask_data-Shows w.status in ground arith
  execute-IsCoherent read_long w s =
      let e = set_error-Shows w.status in let d = ask_data-Shows w.status in ground arith
  execute-IsCoherent write_sectors w s =
      let e = set_error-Shows w.status in let d = ask_data-Shows w.status in ground arith
  execute-IsCoherent write_long w s =
      let e = set_error-Shows w.status in let d = ask_data-Shows w.status in ground arith
  execute-IsCoherent verify w s = ground arith
  execute-IsCoherent format_track w s = let d = ask_data-Shows w.status in ground arith
  execute-IsCoherent exec_diag w s =
      let e = set_error-Shows w.status in let c = complete_command-Shows w.status in ground arith
  execute-IsCoherent set_params w s =
      let e = set_error-Shows w.status in let c = complete_command-Shows w.status in ground arith
  execute-IsCoherent identify w s =
      let e = set_error-Shows w.status in let d = ask_data-Shows w.status in ground arith
  execute-IsCoherent unknown w s = let e = set_error-Shows w.status in ground arith

  -- Any command, from any state.
  pub process_command-IsCoherent : (cmd : ℕ) (w : Wd H) → IsCoherent (process_command hal cmd w).1
  unfolding process_command
  process_command-IsCoherent cmd w = execute-IsCoherent (decode cmd) _ (accept-Shows w.status)

  pub read_data-IsCoherent : (w : Wd H) → IsCoherent w → IsCoherent (read_data hal w).1
  unfolding read_data sector_taken next_sector next_place complete_command
  read_data-IsCoherent w i = let c = complete_command-Shows w.status in ground arith

  pub write_data-IsCoherent : (v : ℕ) (w : Wd H) → IsCoherent w → IsCoherent (write_data hal v w)
  unfolding write_data
  write_data-IsCoherent v w i = let c = write_data-Shows w.status in ground arith

  pub read_reg-IsCoherent : (reg : ℕ) (w : Wd H) → IsCoherent w → IsCoherent (read_reg hal reg w).1
  unfolding read_reg read_port irq_ack
  read_reg-IsCoherent reg w i = let c = read_data-IsCoherent w i in ground arith

  pub write_reg-IsCoherent :
      (reg v : ℕ) (w : Wd H) → IsCoherent w → IsCoherent (write_reg hal reg v w)
  unfolding write_reg store_port
  write_reg-IsCoherent reg v w i =
      let c = process_command-IsCoherent v w in let d = write_data-IsCoherent v w i in ground arith

  pub poll-IsCoherent : (w : Wd H) → IsCoherent w → IsCoherent (poll hal w).1
  unfolding poll complete_command
  poll-IsCoherent w i = let c = complete_command-Shows w.status in ground arith

  pub reset-IsCoherent : (w : Wd H) → IsCoherent (reset hal w)
  unfolding reset invalidate_buffer any_bit
  reset-IsCoherent w = ground arith

  pub abort_command-IsCoherent : (w : Wd H) → IsCoherent (abort_command hal w)
  unfolding abort_command
  abort_command-IsCoherent w = let a = abort_command-Shows w.status in ground arith
