-- ===== src/Scsi.antt =====
-- soc/firmware/src/scsi_handler.c: SCSI commands of the USB mass-storage transport, over the MSC
-- HAL. State and sense data (State), CDB fields (Cdb), the command handlers (Commands) and the
-- dispatcher (Dispatch); what is proved of them stands in the modules below.
pub mod State
pub mod Cdb
pub mod Commands
pub mod Dispatch
