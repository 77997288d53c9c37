-- ===== src/Hdd.antt =====
-- soc/firmware/src/hdd_hal.c: the layer of the two ST-506 or ESDI hard disks. The registers (Device), the
-- state (State), block addresses (Address), and the operations: detection and discovery (Discovery), moving
-- the heads (Seek), reading (Read), ESDI commands (Esdi), and both drives at once (Dual). Cable has
-- soc/firmware/src/hdd_dual_hal.c; Calls has all the functions as one type; Framing, Ending and Reading have
-- what they keep, that they return, and what they read.
pub mod Device
pub mod State
pub mod Seek
pub mod Discovery
pub mod Esdi
pub mod Address
pub mod Read
pub mod Dual
pub mod Framing
pub mod Calls
pub mod Ending
pub mod Reading
pub mod Cable
