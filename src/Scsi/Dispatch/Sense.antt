-- ===== src/Scsi/Dispatch/Sense.antt =====
-- Sense data and unit attention as the host sees them over several commands.
use flux_ripper.Base.{ℕ, ◌<◌, ◌≡◌, true, false, arith, List, at, at-put_self, min}
use flux_ripper.Msc.Device.{DriveHal}
use flux_ripper.Scsi.State.{
  done, failed, Call, set_sense, set_unit_attention, unit_attention_pending,
}
use flux_ripper.Scsi.Cdb.{byte}
use flux_ripper.Scsi.Commands

-- The key, the code and the qualifier in the bytes of a sense response.
abbrev pub Reports : List ℕ → ℕ → ℕ → ℕ → Type 0
Reports buf key asc ascq = (byte buf 2 ≡ key) × (byte buf 12 ≡ asc) × (byte buf 13 ≡ ascq)

module _ {H : Type 0} (hal : DriveHal H) where
  -- REQUEST SENSE returns the sense data that were set last, at most 18 bytes of them, and a second
  -- one returns NO SENSE.
  pub request_sense-set_sense :
      (lun key asc ascq : ℕ) (c : Call H)
      → lun < 4
      → let c0 = record c { scsi = set_sense lun key asc ascq c.scsi } in
        let (r1, c1) = Commands.cmd_request_sense hal lun c0 in
        let (r2, c2) = Commands.cmd_request_sense hal lun c1 in
        (r1 ≡ done)
        × Reports c1.buf key asc ascq
        × (c1.result.data_len ≡ min c.len 18)
        × (r2 ≡ done)
        × Reports c2.buf 0 0 0
  unfolding Commands.cmd_request_sense set_sense
  request_sense-set_sense lun key asc ascq c p = ground (arith, at-put_self c.scsi.sense lun)

  -- A pending unit attention makes TEST UNIT READY fail once, with that key, and is not pending
  -- any more.
  pub unit_attention_once :
      (lun asc ascq : ℕ) (c : Call H)
      → lun < 4
      → let c0 = record c { scsi = set_unit_attention lun asc ascq c.scsi } in
        let (r1, c1) = Commands.cmd_test_unit_ready hal lun c0 in
        (r1 ≡ failed)
        × ((at c1.scsi.sense lun).sense_key ≡ 6)
        × (unit_attention_pending lun c0.scsi ≡ true)
        × (unit_attention_pending lun c1.scsi ≡ false)
  unfolding Commands.cmd_test_unit_ready set_unit_attention unit_attention_pending
  unit_attention_once lun asc ascq c p =
      ground (arith, at-put_self c.scsi.unit_attention lun, at-put_self c.scsi.sense lun)
