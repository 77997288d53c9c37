-- ===== src/Scsi/State.antt =====
-- The state of soc/firmware/src/scsi_handler.c, its sense data, and the constants of
-- soc/firmware/include/scsi_handler.h.
use flux_ripper.Base.{
  ℕ, Bool, true, false, leb, if◌then◌else◌, List, [], ◌∷◌, Four, at, put, four, overwrite,
}
use flux_ripper.Msc.Lun.{max_luns}
use flux_ripper.Msc.State.{Msc}

-- Sense keys, additional sense codes, response lengths.
abbrev pub sense_not_ready : ℕ
sense_not_ready = 0x02

abbrev pub sense_medium_error : ℕ
sense_medium_error = 0x03

abbrev pub sense_illegal_request : ℕ
sense_illegal_request = 0x05

abbrev pub sense_unit_attention : ℕ
sense_unit_attention = 0x06

abbrev pub sense_data_protect : ℕ
sense_data_protect = 0x07

abbrev pub asc_no_additional_info : ℕ
asc_no_additional_info = 0x00

abbrev pub asc_invalid_command : ℕ
asc_invalid_command = 0x20

abbrev pub asc_lba_out_of_range : ℕ
asc_lba_out_of_range = 0x21

abbrev pub asc_invalid_field_in_cdb : ℕ
asc_invalid_field_in_cdb = 0x24

abbrev pub asc_write_protected : ℕ
asc_write_protected = 0x27

abbrev pub asc_not_ready_to_ready : ℕ
asc_not_ready_to_ready = 0x28

abbrev pub asc_medium_not_present : ℕ
asc_medium_not_present = 0x3a

abbrev pub ascq_no_additional_info : ℕ
ascq_no_additional_info = 0x00

-- `scsi_sense_data_t`
pub record SenseData : Type 0 where
  pub response_code : ℕ
  pub segment_number : ℕ
  pub sense_key : ℕ
  pub information : Four ℕ
  pub add_sense_len : ℕ
  pub cmd_specific : Four ℕ
  pub asc : ℕ
  pub ascq : ℕ
  pub fru_code : ℕ
  pub sense_key_specific0 : ℕ
  pub sense_key_specific1 : ℕ
  pub sense_key_specific2 : ℕ

-- What `init_sense_data` leaves.
abbrev pub no_sense : SenseData
no_sense = record {
  response_code = 0x70;
  segment_number = 0;
  sense_key = 0;
  information = four 0;
  add_sense_len = 10;
  cmd_specific = four 0;
  asc = 0;
  ascq = 0;
  fru_code = 0;
  sense_key_specific0 = 0;
  sense_key_specific1 = 0;
  sense_key_specific2 = 0;
}

-- `scsi_handler_state_t` with the per-LUN sense data, over the state of the MSC HAL.
pub record Scsi (H : Type 0) : Type 0 where
  pub initialized : Bool
  pub last_lun : ℕ
  pub last_sense_key : ℕ
  pub last_asc : ℕ
  pub last_ascq : ℕ
  pub unit_attention : Four Bool
  pub sense : Four SenseData
  pub msc : Msc H

-- What a function returns: 0 or -1.
pub data Ret : Type 0 where
  done failed : Ret

-- `scsi_result_t`
pub record ScsiResult : Type 0 where
  pub status : Ret
  pub data_len : ℕ
  pub data_in : Bool

-- What a command works on: the handler's state, and the buffer, its length and the result of the
-- caller.
pub record Call (H : Type 0) : Type 0 where
  pub scsi : Scsi H
  pub buf : List ℕ
  pub len : ℕ
  pub result : ScsiResult

-- The bytes of the packed structure.
unfoldable pub sense_bytes : SenseData → List ℕ
sense_bytes d =
    d.response_code ∷ d.segment_number ∷ d.sense_key ∷ d.information.at0 ∷ d.information.at1
    ∷ d.information.at2 ∷ d.information.at3 ∷ d.add_sense_len ∷ d.cmd_specific.at0
    ∷ d.cmd_specific.at1 ∷ d.cmd_specific.at2 ∷ d.cmd_specific.at3 ∷ d.asc ∷ d.ascq ∷ d.fru_code
    ∷ d.sense_key_specific0 ∷ d.sense_key_specific1 ∷ d.sense_key_specific2 ∷ []

module _ {H : Type 0} where
  -- `scsi_handler_init`
  unfoldable pub handler_init : Msc H → Scsi H
  handler_init m = record {
    initialized = true;
    last_lun = 0;
    last_sense_key = 0;
    last_asc = 0;
    last_ascq = 0;
    unit_attention = four false;
    sense = four no_sense;
    msc = m;
  }

  -- `scsi_handler_reset`
  unfoldable pub handler_reset : Scsi H → Scsi H
  handler_reset s = record s { unit_attention = four true; sense = four no_sense }

  -- `scsi_set_sense`
  unfoldable pub set_sense : ℕ → ℕ → ℕ → ℕ → Scsi H → Scsi H
  set_sense lun key asc ascq s = if leb max_luns lun then s else record s {
    sense = put s.sense lun (record (at s.sense lun) { sense_key = key; asc = asc; ascq = ascq });
    last_lun = lun;
    last_sense_key = key;
    last_asc = asc;
    last_ascq = ascq;
  }

  -- `scsi_clear_sense`
  unfoldable pub clear_sense : ℕ → Scsi H → Scsi H
  clear_sense lun s = if leb max_luns lun then s else record s { sense = put s.sense lun no_sense }

  -- `scsi_build_sense_response` into a buffer that is there: the length and the buffer.
  unfoldable pub build_sense_response : ℕ → List ℕ → Scsi H → ℕ × List ℕ
  unfolding sense_bytes
  build_sense_response lun buf s =
      if leb max_luns lun then (0, buf) else (18, overwrite (sense_bytes (at s.sense lun)) buf)

  -- `scsi_set_unit_attention`
  unfoldable pub set_unit_attention : ℕ → ℕ → ℕ → Scsi H → Scsi H
  unfolding set_sense
  set_unit_attention lun asc ascq s =
      let flagged = record s { unit_attention = put s.unit_attention lun true } in
      if leb max_luns lun then s else set_sense lun sense_unit_attention asc ascq flagged

  -- `scsi_unit_attention_pending`
  unfoldable pub unit_attention_pending : ℕ → Scsi H → Bool
  unit_attention_pending lun s = if leb max_luns lun then false else at s.unit_attention lun
