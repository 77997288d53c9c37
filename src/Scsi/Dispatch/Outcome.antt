-- ===== src/Scsi/Dispatch/Outcome.antt =====
-- What every SCSI command leaves behind: the status that it returns, and sense data that explain it.
use flux_ripper.Base.{
  ℕ, ◌<◌, ◌≡◌, ◌≢◌, ◌∙◌, ap, arith, leb, List, at, put, at-put_self, at-put_ne, put-at,
  if◌then◌else◌, Bool-cases, ◌⊎◌, inl, inr,
}
use flux_ripper.Msc.Device.{DriveHal}
use flux_ripper.Msc.Lun.{LunConfig}
use flux_ripper.Scsi.State.{Ret, done, failed, Call, set_sense}
use flux_ripper.Scsi.Cdb.{byte}
use flux_ripper.Scsi.Commands
use flux_ripper.Scsi.Dispatch.{Opcode, decode_opcode, run_command, process_command}

-- The status agrees with the returned value, a failure has a sense key, and only the sense data of
-- one LUN differ.
pub record Outcome {H : Type 0} (lun : ℕ) (c : Call H) (out : Ret × Call H) : Type 0 where
  pub status : out.1.result.status ≡ out.0
  pub explained : out.0 ≡ failed → 0 < (at out.1.scsi.sense lun).sense_key
  pub framed : out.1.scsi.sense ≡ put c.scsi.sense lun (at out.1.scsi.sense lun)

module _ {H : Type 0} (hal : DriveHal H) where
  test_unit_ready-Outcome :
      (lun : ℕ) (c : Call H) → lun < 4 → Outcome lun c (Commands.cmd_test_unit_ready hal lun c)
  unfolding Commands.cmd_test_unit_ready
  test_unit_ready-Outcome lun c p =
      ground (arith, at-put_self c.scsi.sense lun, put-at c.scsi.sense lun)

  request_sense-Outcome :
      (lun : ℕ) (c : Call H) → lun < 4 → Outcome lun c (Commands.cmd_request_sense hal lun c)
  unfolding Commands.cmd_request_sense
  request_sense-Outcome lun c p =
      ground (arith, at-put_self c.scsi.sense lun, put-at c.scsi.sense lun)

  inquiry-Outcome :
      (uninit : LunConfig) (lun : ℕ) (cdb : List ℕ) (c : Call H)
      → lun < 4
      → Outcome lun c (Commands.cmd_inquiry hal uninit lun cdb c)
  unfolding Commands.cmd_inquiry
  inquiry-Outcome uninit lun cdb c p =
      ground (arith, at-put_self c.scsi.sense lun, put-at c.scsi.sense lun)

  mode_sense_6-Outcome :
      (lun : ℕ) (cdb : List ℕ) (c : Call H)
      → Outcome lun c (Commands.cmd_mode_sense_6 hal lun cdb c)
  unfolding Commands.cmd_mode_sense_6
  mode_sense_6-Outcome lun cdb c = ground (arith, put-at c.scsi.sense lun)

  start_stop_unit-Outcome :
      (lun : ℕ) (cdb : List ℕ) (c : Call H)
      → Outcome lun c (Commands.cmd_start_stop_unit hal lun cdb c)
  unfolding Commands.cmd_start_stop_unit
  start_stop_unit-Outcome lun cdb c = ground (arith, put-at c.scsi.sense lun)

  prevent_allow_removal-Outcome :
      (lun : ℕ) (cdb : List ℕ) (c : Call H)
      → Outcome lun c (Commands.cmd_prevent_allow_removal hal lun cdb c)
  unfolding Commands.cmd_prevent_allow_removal
  prevent_allow_removal-Outcome lun cdb c = ground (arith, put-at c.scsi.sense lun)

  read_format_capacities-Outcome :
      (lun : ℕ) (c : Call H)
      → lun < 4
      → Outcome lun c (Commands.cmd_read_format_capacities hal lun c)
  unfolding Commands.cmd_read_format_capacities
  read_format_capacities-Outcome lun c p =
      ground (arith, at-put_self c.scsi.sense lun, put-at c.scsi.sense lun)

  read_capacity_10-Outcome :
      (lun : ℕ) (c : Call H) → lun < 4 → Outcome lun c (Commands.cmd_read_capacity_10 hal lun c)
  unfolding Commands.cmd_read_capacity_10 Commands.report_capacity
  read_capacity_10-Outcome lun c p =
      ground (arith, at-put_self c.scsi.sense lun, put-at c.scsi.sense lun)

  read_10-Outcome :
      (lun : ℕ) (cdb : List ℕ) (c : Call H)
      → lun < 4
      → Outcome lun c (Commands.cmd_read_10 hal lun cdb c)
  unfolding Commands.cmd_read_10 Commands.read_result set_sense
  read_10-Outcome lun cdb c p =
      ground (arith, at-put_self c.scsi.sense lun, put-at c.scsi.sense lun)

  write_10-Outcome :
      (lun : ℕ) (cdb : List ℕ) (c : Call H)
      → lun < 4
      → Outcome lun c (Commands.cmd_write_10 hal lun cdb c)
  unfolding Commands.cmd_write_10 Commands.write_result set_sense
  write_10-Outcome lun cdb c p =
      ground (arith, at-put_self c.scsi.sense lun, put-at c.scsi.sense lun)

  verify_10-Outcome :
      (lun : ℕ) (cdb : List ℕ) (c : Call H)
      → lun < 4
      → Outcome lun c (Commands.cmd_verify_10 hal lun cdb c)
  unfolding Commands.cmd_verify_10
  verify_10-Outcome lun cdb c p =
      ground (arith, at-put_self c.scsi.sense lun, put-at c.scsi.sense lun)

  unsupported-Outcome :
      (lun key asc : ℕ) (c : Call H)
      → lun < 4
      → 0 < key
      → Outcome lun c (Commands.refuse lun key asc c)
  unfolding set_sense
  unsupported-Outcome lun key asc c p q =
      ground (arith, at-put_self c.scsi.sense lun, put-at c.scsi.sense lun)

  module _ (uninit : LunConfig) where
    run_command-Outcome :
        (op : Opcode) (lun : ℕ) (cdb : List ℕ) (c : Call H)
        → lun < 4
        → Outcome lun c (run_command hal uninit op lun cdb c)
    unfolding run_command
    run_command-Outcome Opcode.test_unit_ready lun cdb c p = test_unit_ready-Outcome lun c p
    run_command-Outcome Opcode.request_sense lun cdb c p = request_sense-Outcome lun c p
    run_command-Outcome Opcode.inquiry lun cdb c p = inquiry-Outcome uninit lun cdb c p
    run_command-Outcome Opcode.mode_sense_6 lun cdb c p = mode_sense_6-Outcome lun cdb c
    run_command-Outcome Opcode.start_stop_unit lun cdb c p = start_stop_unit-Outcome lun cdb c
    run_command-Outcome Opcode.prevent_allow_removal lun cdb c p =
        prevent_allow_removal-Outcome lun cdb c
    run_command-Outcome Opcode.read_format_capacities lun cdb c p =
        read_format_capacities-Outcome lun c p
    run_command-Outcome Opcode.read_capacity_10 lun cdb c p = read_capacity_10-Outcome lun c p
    run_command-Outcome Opcode.read_10 lun cdb c p = read_10-Outcome lun cdb c p
    run_command-Outcome Opcode.write_10 lun cdb c p = write_10-Outcome lun cdb c p
    run_command-Outcome Opcode.verify_10 lun cdb c p = verify_10-Outcome lun cdb c p
    run_command-Outcome Opcode.unsupported lun cdb c p =
        unsupported-Outcome lun 5 0x20 c p (omega arith)

    -- The LUN whose sense data a command for `lun` may change: 0 for one that is not there.
    abbrev pub sense_target : ℕ → ℕ
    sense_target lun = if leb 4 lun then 0 else lun

    sense_target-lt : (lun : ℕ) → sense_target lun < 4
    sense_target-lt lun = ground arith

    process_command-Outcome :
        (lun : ℕ) (cdb : List ℕ) (c : Call H)
        → Outcome (sense_target lun) c (process_command hal uninit lun cdb c)
    unfolding process_command
    process_command-Outcome lun cdb c = elim (Bool-cases (leb 4 lun)) [
      | inl e ↦ rw e (unsupported-Outcome 0 5 0x24 c (omega arith) (omega arith))
      | inr e ↦ rw e (run_command-Outcome (decode_opcode (byte cdb 0)) lun cdb c (ground arith))
    ]

    -- Whatever the command, the LUN and the state: the reported status is the returned value, and
    -- the command succeeds or leaves a sense key other than NO SENSE in its LUN (in LUN 0, if the
    -- LUN is not there).
    pub process_command_explains :
        (lun : ℕ) (cdb : List ℕ) (c : Call H)
        → let (ret, c') = process_command hal uninit lun cdb c in
          (c'.result.status ≡ ret)
          × ((ret ≡ done) ⊎ (0 < (at c'.scsi.sense (sense_target lun)).sense_key))
    process_command_explains lun cdb c = explain (process_command-Outcome lun cdb c)
      where
        explain :
            {out : Ret × Call H}
            → Outcome (sense_target lun) c out
            → (out.1.result.status ≡ out.0)
              × ((out.0 ≡ done) ⊎ (0 < (at out.1.scsi.sense (sense_target lun)).sense_key))
        explain o = ground (arith, o.status, o.explained)

    -- A command changes the sense data of no LUN but its own (LUN 0, if that is not there).
    pub process_command_isolates :
        (lun : ℕ) (cdb : List ℕ) (c : Call H) (j : ℕ)
        → j < 4
        → sense_target lun ≢ j
        → at (process_command hal uninit lun cdb c).1.scsi.sense j ≡ at c.scsi.sense j
    process_command_isolates lun cdb c j p ne =
        let out = process_command hal uninit lun cdb c in
        let o = process_command-Outcome lun cdb c in
        let t = sense_target lun in
        ap (λ s. at s j) o.framed
        ∙ at-put_ne c.scsi.sense t j (at out.1.scsi.sense t) (sense_target-lt lun) p ne
