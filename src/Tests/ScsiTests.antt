-- ===== src/Tests/ScsiTests.antt =====
-- SCSI commands on the drives of Tests/Drives.antt.
use flux_ripper.Base.{ℕ, ◌+◌, ◌<◌, ◌≡◌, refl, ◌⊎◌, false, arith, List, [], ◌∷◌, at, replicate}
use flux_ripper.Msc.State.{init}
use flux_ripper.Msc.Hal
use flux_ripper.Msc.Hal.Transfer.{IsAllowed}
use flux_ripper.Msc.Lun.{blank_lun}
use flux_ripper.Scsi.State.{done, failed, Call, handler_init, set_sense}
use flux_ripper.Scsi.Cdb.{get_be32, get_be16}
use flux_ripper.Scsi.Commands
use flux_ripper.Scsi.Commands.{inquiry_bytes}
use flux_ripper.Scsi.Dispatch.{process_command}
use flux_ripper.Scsi.Dispatch.Outcome.{process_command_explains, process_command_isolates}
use flux_ripper.Scsi.Dispatch.Sense.{Reports, request_sense-set_sense}
use flux_ripper.Scsi.Dispatch.Data.{read_capacity_10_reports, read_10-IsAllowed, write_10_protected}
use flux_ripper.Tests.Drives.{drives, started}

abbrev idle : Call ℕ
idle = record {
  scsi = handler_init started;
  buf = [];
  len = 512;
  result = record { status = done; data_len = 0; data_in = false };
}

-- READ(10) of `count` blocks (below 256) from `lba` (below 2 ^ 16).
abbrev read_cdb : ℕ → ℕ → ℕ → List ℕ
read_cdb hi lo count = 0x28 ∷ 0 ∷ 0 ∷ 0 ∷ hi ∷ lo ∷ 0 ∷ 0 ∷ count ∷ 0 ∷ replicate 6 0

process_command_explains_example :
    let (ret, c) = process_command drives blank_lun 2 (read_cdb 255 255 1) idle in
    (c.result.status ≡ ret) × ((ret ≡ done) ⊎ (0 < (at c.scsi.sense 2).sense_key))
process_command_explains_example =
    process_command_explains drives blank_lun 2 (read_cdb 255 255 1) idle

process_command_isolates_example :
    at (process_command drives blank_lun 2 (read_cdb 255 255 1) idle).1.scsi.sense 3
    ≡ at idle.scsi.sense 3
process_command_isolates_example =
    process_command_isolates drives blank_lun 2 (read_cdb 255 255 1) idle 3 (omega arith)
      (omega arith)

request_sense-set_sense_example :
    let c0 = record idle { scsi = set_sense 1 3 0x11 4 idle.scsi } in
    let (r1, c1) = Commands.cmd_request_sense drives 1 c0 in
    let (r2, c2) = Commands.cmd_request_sense drives 1 c1 in
    (r1 ≡ done)
    × Reports c1.buf 3 0x11 4
    × (c1.result.data_len ≡ 18)
    × (r2 ≡ done)
    × Reports c2.buf 0 0 0
request_sense-set_sense_example = request_sense-set_sense drives 1 3 0x11 4 idle (omega arith)

read_capacity_10_reports_example :
    let (ret, c) = Commands.cmd_read_capacity_10 drives 2 idle in
    (ret ≡ done)
    × (c.result.data_len ≡ 8)
    × (get_be32 c.buf 0 + 1 ≡ 41820)
    × (get_be32 c.buf 4 ≡ 512)
unfolding handler_init init Hal.is_ready
read_capacity_10_reports_example =
    read_capacity_10_reports drives 2 idle (omega arith) refl (omega arith) (omega arith)
      (omega arith)

read_10-IsAllowed_example :
    ((Commands.cmd_read_10 drives 2 (read_cdb 1 0 8) idle).1.result.data_len ≡ 4096)
    × ((get_be16 (read_cdb 1 0 8) 7 ≡ 0)
        ⊎ IsAllowed (at (Hal.is_ready drives 2 idle.scsi.msc).1.luns 2) 256 8)
unfolding handler_init init Hal.is_ready Hal.msc_read Commands.cmd_read_10 Commands.read_result
    get_be32 get_be16
read_10-IsAllowed_example = read_10-IsAllowed drives 2 (read_cdb 1 0 8) idle (omega arith) refl

write_10_protected_example :
    let (ret, c) = Commands.cmd_write_10 drives 1 (read_cdb 1 0 8) idle in
    (c.scsi.msc.dev ≡ 0) × ((ret ≡ failed) ⊎ (get_be16 (read_cdb 1 0 8) 7 ≡ 0))
unfolding handler_init init Hal.is_ready Hal.is_write_protected
write_10_protected_example = write_10_protected drives 1 (read_cdb 1 0 8) idle refl

abbrev inquiry_cdb : List ℕ
inquiry_cdb = 0x12 ∷ 0 ∷ 0 ∷ 0 ∷ 36 ∷ replicate 11 0
