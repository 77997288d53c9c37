-- ===== src/Raw.antt =====
-- soc/firmware/src/raw_mode.c: raw flux capture, its state and counters (State) and the command protocol
-- of soc/firmware/include/raw_protocol.h (Command).
pub mod State
pub mod Command
