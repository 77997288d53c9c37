-- ===== src/Wd.antt =====
-- soc/firmware/src/wd_emu.c: the emulated WD1003/1006/1007 hard disk controller. What it calls
-- (Device), its state (State), reset and configuration (Setup), the commands (Command), the host's
-- ports (Port) and the firmware's queries (Status). Flags is about the status byte.
pub mod Device
pub mod State
pub mod Setup
pub mod Flags
pub mod Command
pub mod Port
pub mod Status
