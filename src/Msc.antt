-- ===== src/Msc.antt =====
-- The USB mass-storage side of the firmware: the configuration registers (Regs), the functions of
-- soc/firmware/src/msc_config.c over them (Config), the drives below (Device), and the logical
-- units of soc/firmware/src/msc_hal.c (Lun, Hal).
pub mod Regs
pub mod Config
pub mod Device
pub mod Lun
pub mod State
pub mod Hal
pub mod Irq
