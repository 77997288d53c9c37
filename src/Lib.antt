-- ===== src/Lib.antt =====
-- FluxRipper firmware: the USB mass-storage stack, the hard disk controller emulation, the hard disk layer,
-- the drive metadata, and raw capture.
--
-- FluxRipper is a floppy and hard disk controller on an FPGA. Its firmware (soc/firmware) presents the
-- attached drives to a PC in three ways, which are modelled here, handler by handler, as functions on
-- explicit states.
--
-- The mass-storage stack has three layers. A SCSI command arrives with its LUN at
-- `scsi_process_command` (soc/firmware/src/scsi_handler.c), which keeps the sense data of each unit and
-- calls the unit layer (soc/firmware/src/msc_hal.c). That layer detects two floppies and two hard
-- disks as LUNs 0 to 3, checks and routes transfers, counts them, and reports the units to the gateware
-- through the register block of rtl/usb/msc_config_regs.v by way of soc/firmware/src/msc_config.c,
-- whose interrupt handler notifies the unit layer of media changes.
--
--   Scsi.State, Scsi.Cdb      the sense data and result of scsi_handler.c, big-endian fields
--   Scsi.Commands             the `scsi_cmd_*` handlers, one function each
--   Scsi.Dispatch             `scsi_process_command`
--   Msc.Lun, Msc.State        the types of msc_hal.c, floppy capacity, identification, `msc_hal_init`
--   Msc.Hal                   the other `msc_hal_*` operations
--   Msc.Regs, Msc.Config      the register block; the `msc_config_*` operations on it
--   Msc.Irq                   `msc_config_irq_handler`
--   Msc.Device                the drives below, a record of functions over a state of their own
--
-- The controller emulation (soc/firmware/src/wd_emu.c) plays a WD1003, WD1006 or WD1007: the host writes
-- a task file, gives a command, and moves the sectors word by word through the data port.
--
--   Wd.State, Wd.Setup        the controller's statics; reset, variants, geometry, interrupts, flush
--   Wd.Command                `wd_process_command` and the `wd_exec_*` functions
--   Wd.Port                   `wd_read_reg`, `wd_write_reg`, `wd_read_data`, `wd_write_data`, `wd_poll`
--   Wd.Status                 the queries about the state, the status and the buffer
--   Wd.Device                 the registers and the hard disk layer below, a record of functions
--
-- The hard disk layer (soc/firmware/src/hdd_hal.c) drives two ST-506 or ESDI disks through registers: it
-- detects and discovers them, moves their heads, and reads sectors and runs of blocks. Its functions wait
-- for the hardware in loops with a timeout. The controller emulation stands on it.
--
--   Wait, Act                 the loops with a timeout; functions that return a code, and reasoning about them
--   Hdd.Device, Hdd.State     the registers and the clock; profiles and positions
--   Hdd.Seek, Hdd.Discovery   start, selection, seeks; detection, discovery, decoder settings
--   Hdd.Address, Hdd.Read     block addresses; `hdd_read_sector`, `hdd_read_lba`
--   Hdd.Esdi, Hdd.Dual        ESDI commands; both drives at once
--   Hdd.Cable                 two drives on one control cable (soc/firmware/src/hdd_dual_hal.c)
--   Hdd.Calls                 all the functions as one type, and the states that they reach
--   Wd.Command.Linked         the controller emulation over this layer
--
-- The metadata (soc/firmware/src/hdd_metadata.c) are kept on hidden sectors of a hard disk: an identifier, a
-- fingerprint, labels, counters, and the last sixteen diagnostic sessions.
--
--   Meta.State, Meta.Session  the structures; the history and the counters
--   Meta.Uuid, Meta.Label     identifiers; labels, notes and flags
--   Meta.Storage              `meta_init`, `meta_read`, `meta_write`, `meta_erase`
--
-- Raw capture (soc/firmware/src/raw_mode.c) answers the packets of raw_protocol.h and counts flux words.
--
--   Raw.State, Raw.Command    the capture and its counters; the protocol's handlers
--
-- The USB logger (soc/firmware/src/usb_logger_hal.c) reads records from a hardware buffer: UsbLog.
--
-- Operations return the next state beside the C function's result; numbers are natural numbers, with
-- the wrap-around of the C types written out. The four units are a record with four places, since the
-- code checks a LUN against 4 before it indexes. The children of a module hold its properties.
--
-- The loop of `wd_flush_buffer` has the 1000 rounds of the source. The loops with a timeout run on fuel, one
-- round each: with a clock that runs, a round for each millisecond of the timeout and one more are enough
-- in the hard disk layer, whose delays are in milliseconds, and a round for each microsecond and a thousand
-- more in the metadata. Decimal printing takes ten digits, enough for 32-bit numbers.
--
-- What stands below these parts (soc/firmware/src/fluxripper_hal.c, the registers and the clock, and the
-- gateware) is a parameter without hypotheses unless a theorem names one: `IsTimed` says that the clock
-- runs, delays last as long as they say, and no read takes very long. Constants that the sources use and no
-- file defines (TRACKS_40, TRACKS_77, TRACKS_80) are fields of that parameter.
--
-- Not modelled: NULL pointers given by a caller, but where a definition has an argument for them; the names
-- and summaries that are printed; the IDENTIFY structures that wd_emu.c builds from a drive's metadata; the
-- floppy layer, diagnostics and power, the PCAP export of the USB logger, the command lines, and the other
-- gateware. The reserved bytes of a raw response stay as they were in the buffer, and are left out.

pub mod Act
pub mod Base
pub mod Hdd
pub mod Meta
pub mod Msc
pub mod Raw
pub mod Scsi
pub mod Tests
pub mod UsbLog
pub mod Wait
pub mod Wd
