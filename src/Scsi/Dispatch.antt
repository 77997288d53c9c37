-- ===== src/Scsi/Dispatch.antt =====
-- `scsi_process_command` of soc/firmware/src/scsi_handler.c, for pointers that are not NULL.
pub mod Outcome
pub mod Sense
pub mod Data
use flux_ripper.Base.{ℕ, Bool, leb, ◌==◌, if◌then◌else◌, List}
use flux_ripper.Msc.Device.{DriveHal}
use flux_ripper.Msc.Lun.{LunConfig, max_luns}
use flux_ripper.Scsi.State.{
  sense_illegal_request, asc_invalid_command, asc_invalid_field_in_cdb, Ret, Call, set_sense,
}
use flux_ripper.Scsi.Cdb.{byte}
use flux_ripper.Scsi.Commands

-- The opcodes that the `switch` knows.
pub data Opcode : Type 0 where
  test_unit_ready request_sense inquiry mode_sense_6 start_stop_unit prevent_allow_removal : Opcode
  read_format_capacities read_capacity_10 read_10 write_10 verify_10 unsupported : Opcode

-- `switch (opcode)`
unfoldable pub decode_opcode : ℕ → Opcode
decode_opcode op =
    if op == 0x00
    then test_unit_ready
    else if op == 0x03
    then request_sense
    else if op == 0x12
    then inquiry
    else if op == 0x1a
    then mode_sense_6
    else if op == 0x1b
    then start_stop_unit
    else if op == 0x1e
    then prevent_allow_removal
    else if op == 0x23
    then read_format_capacities
    else if op == 0x25
    then read_capacity_10
    else if op == 0x28
    then read_10
    else if op == 0x2a
    then write_10
    else if op == 0x2f
    then verify_10
    else unsupported

module _ {H : Type 0} (hal : DriveHal H) (uninit : LunConfig) where
  -- The cases of the `switch`.
  unfoldable pub run_command : Opcode → ℕ → List ℕ → Call H → Ret × Call H
  run_command test_unit_ready lun cdb c = Commands.cmd_test_unit_ready hal lun c
  run_command request_sense lun cdb c = Commands.cmd_request_sense hal lun c
  run_command inquiry lun cdb c = Commands.cmd_inquiry hal uninit lun cdb c
  run_command mode_sense_6 lun cdb c = Commands.cmd_mode_sense_6 hal lun cdb c
  run_command start_stop_unit lun cdb c = Commands.cmd_start_stop_unit hal lun cdb c
  run_command prevent_allow_removal lun cdb c = Commands.cmd_prevent_allow_removal hal lun cdb c
  run_command read_format_capacities lun cdb c = Commands.cmd_read_format_capacities hal lun c
  run_command read_capacity_10 lun cdb c = Commands.cmd_read_capacity_10 hal lun c
  run_command read_10 lun cdb c = Commands.cmd_read_10 hal lun cdb c
  run_command write_10 lun cdb c = Commands.cmd_write_10 hal lun cdb c
  run_command verify_10 lun cdb c = Commands.cmd_verify_10 hal lun cdb c
  run_command unsupported lun cdb c =
      Commands.refuse lun sense_illegal_request asc_invalid_command c

  -- `scsi_process_command`; a LUN that is not there is reported in the sense data of LUN 0.
  unfoldable pub process_command : ℕ → List ℕ → Call H → Ret × Call H
  process_command lun cdb c =
      if leb max_luns lun
      then Commands.refuse 0 sense_illegal_request asc_invalid_field_in_cdb c
      else run_command (decode_opcode (byte cdb 0)) lun cdb c
