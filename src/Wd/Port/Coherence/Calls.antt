-- ===== src/Wd/Port/Coherence/Calls.antt =====
-- The calls that the host side makes of the controller, in any order.
use flux_ripper.Base.{ℕ, Bool, List, [], ◌∷◌, arith}
use flux_ripper.Wd.Device.{WdHal}
use flux_ripper.Wd.State.{WdVariant, WdConfig, Wd}
use flux_ripper.Wd.Setup.{
  set_variant, set_features, set_geometry, set_irq_enable, set_config, irq_ack, abort_command,
  reset,
}
use flux_ripper.Wd.Port.{read_reg, write_reg, poll}
use flux_ripper.Wd.Port.Coherence.{
  IsCoherent, read_reg-IsCoherent, write_reg-IsCoherent, poll-IsCoherent, reset-IsCoherent,
  abort_command-IsCoherent,
}

-- One call of the interface of soc/firmware/include/wd_emu.h with its arguments. The data port is
-- register 0.
pub data WdCall : Type 0 where
  call_read_reg : ℕ → WdCall
  call_write_reg : ℕ → ℕ → WdCall
  call_poll call_reset call_abort call_irq_ack : WdCall
  call_set_variant : WdVariant → WdCall
  call_set_features : ℕ → WdCall
  call_set_geometry : ℕ → ℕ → ℕ → ℕ → WdCall
  call_set_irq_enable : Bool → WdCall
  call_set_config : WdConfig → WdCall

module _ {H : Type 0} (hal : WdHal H) where
  -- The state after a call.
  unfoldable pub wd_call : WdCall → Wd H → Wd H
  wd_call (call_read_reg reg) w = (read_reg hal reg w).1
  wd_call (call_write_reg reg v) w = write_reg hal reg v w
  wd_call call_poll w = (poll hal w).1
  wd_call call_reset w = reset hal w
  wd_call call_abort w = abort_command hal w
  wd_call call_irq_ack w = irq_ack hal w
  wd_call (call_set_variant v) w = set_variant hal v w
  wd_call (call_set_features f) w = set_features hal f w
  wd_call (call_set_geometry d c h s) w = (set_geometry hal d c h s w).1
  wd_call (call_set_irq_enable on) w = set_irq_enable hal on w
  wd_call (call_set_config c) w = set_config hal c w

  unfoldable pub wd_calls : List WdCall → Wd H → Wd H
  wd_calls [] w = w
  wd_calls (c ∷ cs) w = wd_calls cs (wd_call c w)

  wd_call-IsCoherent : (c : WdCall) (w : Wd H) → IsCoherent w → IsCoherent (wd_call c w)
  unfolding wd_call irq_ack set_variant set_features set_geometry set_irq_enable set_config
  wd_call-IsCoherent (call_read_reg reg) w i = read_reg-IsCoherent hal reg w i
  wd_call-IsCoherent (call_write_reg reg v) w i = write_reg-IsCoherent hal reg v w i
  wd_call-IsCoherent call_poll w i = poll-IsCoherent hal w i
  wd_call-IsCoherent call_reset w i = reset-IsCoherent hal w
  wd_call-IsCoherent call_abort w i = abort_command-IsCoherent hal w
  wd_call-IsCoherent call_irq_ack w i = ground arith
  wd_call-IsCoherent (call_set_variant v) w i = ground arith
  wd_call-IsCoherent (call_set_features f) w i = ground arith
  wd_call-IsCoherent (call_set_geometry d c h s) w i = ground arith
  wd_call-IsCoherent (call_set_irq_enable on) w i = ground arith
  wd_call-IsCoherent (call_set_config c) w i = ground arith

  calls-IsCoherent : (cs : List WdCall) (w : Wd H) → IsCoherent w → IsCoherent (wd_calls cs w)
  unfolding wd_calls
  calls-IsCoherent [] w i = i
  calls-IsCoherent (c ∷ cs) w i = calls-IsCoherent cs (wd_call c w) (wd_call-IsCoherent c w i)

  -- After a reset and any calls of the register interface and the configuration, in any order, the
  -- status register agrees with the phase: BSY exactly while the hardware works, DRQ exactly while
  -- words are due, ERR after a failure, and a transfer's byte count and offset add up to a sector.
  pub reset-calls-IsCoherent :
      (cs : List WdCall) (w : Wd H) → IsCoherent (wd_calls cs (reset hal w))
  reset-calls-IsCoherent cs w = calls-IsCoherent cs (reset hal w) (reset-IsCoherent hal w)
