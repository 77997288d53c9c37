-- ===== src/Tests/RawTests.antt =====
-- The raw protocol at a drive set whose state counts the calls.
use flux_ripper.Base.{ℕ, ◌+◌, ◌*◌, ◌^◌, ◌≡◌, refl, true, false, none, some, [], ◌∷◌, any_bit}
use flux_ripper.Raw.State.{RawHal, Raw}
use flux_ripper.Raw.Command.{RawCmd, capture_data, data_size, process_raw}
use flux_ripper.Raw.Command.Protocol.{
  is_done, is_rsp_ok, flagged, process_raw_frames, fluxes, capture_reports,
}

abbrev counting : RawHal ℕ
counting = record {
  disk_present = λ h d. true;
  write_protected = λ h d. false;
  track0 = λ h d. true;
  hdd_is_ready = λ h d. true;
  hdd_total_sectors = λ h d. some 41820;
  select_drive = λ h d. h + 1;
  motor_on = λ h d. h + 1;
  motor_off = λ h d. h + 1;
  seek = λ h d t. (none, h + 1);
}

abbrev packet : ℕ → ℕ → RawCmd
packet op p = record {
  signature = 0x46525751;
  opcode = op;
  param1 = p;
  param2 = 0;
  param3 = 0;
  param4 = 0;
}

abbrev fresh : Raw ℕ
fresh = record {
  initialized = false;
  capture_active = false;
  selected_drive = 0;
  is_fdd = true;
  current_track = 0;
  last_command = 0;
  last_error = 0;
  sample_count = 7;
  index_count = 7;
  overflow_count = 7;
  start_time = 0;
  dev = 0;
}

process_raw_frames_example :
    let (ret, rsp, r) = process_raw counting (packet 0x01 0) fresh in
    (rsp.rsp_opcode ≡ 0x01)
    × (rsp.data_len ≡ data_size rsp.payload)
    × (rsp.response_len ≡ 8 + rsp.data_len)
    × (is_rsp_ok rsp.rsp_status ≡ is_done ret)
process_raw_frames_example = process_raw_frames counting (packet 0x01 0) fresh

capture_reports_example :
    (process_raw counting (packet 0x11 0) (
      fluxes counting
        (2 ^ 31 ∷ 5 ∷ 3 * 2 ^ 30 ∷ [])
        ((process_raw counting (packet 0x10 0) fresh).2))).1.payload
    ≡ capture_data (record { samples = 3; indices = 2; overflows = 1; duration_us = 0 })
unfolding flagged any_bit
capture_reports_example =
    capture_reports counting (packet 0x10 0) (packet 0x11 0) (2 ^ 31 ∷ 5 ∷ 3 * 2 ^ 30 ∷ []) fresh
      refl refl refl refl refl
