-- ===== src/Raw/Command.antt =====
-- `raw_mode_process_command` and its handlers, for pointers that are not NULL. A response is the header
-- and the data that a handler assigns; reserved bytes that it leaves alone are not part of it.
pub mod Protocol
use flux_ripper.Base.{
  ℕ, ◌+◌, ◌-◌, Bool, true, false, not, ◌==◌, leb, ltb, if◌then◌else◌, Option, none, some, bit_or,
}
use flux_ripper.Raw.State.{RawHal, Raw, CaptureInfo, begin_capture, capture_info}

-- `raw_cmd_packet_t`
pub record RawCmd : Type 0 where
  pub signature : ℕ
  pub opcode : ℕ
  pub param1 : ℕ
  pub param2 : ℕ
  pub param3 : ℕ
  pub param4 : ℕ

-- `RAW_RSP_*`, those that are sent.
pub data RspStatus : Type 0 where
  rsp_ok invalid_cmd invalid_param not_ready busy : RspStatus

-- `raw_info_data_t`
pub record RawInfo : Type 0 where
  pub device_id : ℕ
  pub fw_version : ℕ
  pub hw_version : ℕ
  pub max_luns : ℕ
  pub max_fdds : ℕ
  pub max_hdds : ℕ
  pub status_flags : ℕ
  pub selected : ℕ
  pub drive_type : ℕ
  pub track : ℕ
  pub capacity : ℕ

-- `raw_drive_profile_t` and `raw_fdd_geometry_t`
pub record RawProfile : Type 0 where
  pub drive_num : ℕ
  pub drive_type : ℕ
  pub disk_in : Bool
  pub protected : Bool
  pub at_track0 : Bool
  pub track : ℕ
  pub capacity : ℕ
  pub block_size : ℕ
  pub tracks : ℕ
  pub heads : ℕ
  pub sectors : ℕ

-- The data behind a header.
pub data Payload : Type 0 where
  no_data : Payload
  info_data : RawInfo → Payload
  capture_data : CaptureInfo → Payload
  -- frequency, locked, lock count, error count
  pll_data : ℕ → ℕ → ℕ → ℕ → Payload
  -- amplitude, noise, bit error rate, jitter, overflow
  signal_data : ℕ → ℕ → ℕ → ℕ → ℕ → Payload
  profile_data : RawProfile → Payload

-- The size of the packed structures.
unfoldable pub data_size : Payload → ℕ
data_size no_data = 0
data_size (info_data i) = 24
data_size (capture_data i) = 16
data_size (pll_data f l c e) = 8
data_size (signal_data a n b j o) = 12
data_size (profile_data p) = 16 + 4

-- `raw_rsp_header_t` with its data, and `*response_len`.
pub record Response : Type 0 where
  pub rsp_status : RspStatus
  pub rsp_opcode : ℕ
  pub data_len : ℕ
  pub payload : Payload
  pub response_len : ℕ

-- 0, -1, or what the layer below returned.
pub data RawRet : Type 0 where
  done failed : RawRet
  hal_error : ℕ → RawRet

-- `build_response_header` and the length.
abbrev pub respond : RspStatus → ℕ → ℕ → Payload → ℕ → Response
respond s op n p len = record {
  rsp_status = s;
  rsp_opcode = op;
  data_len = n;
  payload = p;
  response_len = len;
}

abbrev pub plain : RspStatus → ℕ → Response
plain s op = respond s op 0 no_data 8

-- `if (b) flags |= mask;`
abbrev pub flag_if : Bool → ℕ → ℕ → ℕ
flag_if b mask flags = if b then bit_or flags mask else flags

abbrev pub total_or_0 : Option ℕ → ℕ
total_or_0 none = 0
total_or_0 (some n) = n

module _ {H : Type 0} (hal : RawHal H) where
  -- `raw_cmd_nop`
  abbrev pub cmd_nop : Raw H → RawRet × Response × Raw H
  cmd_nop r = (done, plain rsp_ok 0x00, r)

  -- `raw_cmd_get_info`
  unfoldable pub cmd_get_info : Raw H → RawRet × Response × Raw H
  cmd_get_info r =
      let flags : ℕ =
        if r.is_fdd
        then flag_if (hal.write_protected r.dev r.selected_drive) 2
            (flag_if (hal.disk_present r.dev r.selected_drive) 1 0)
        else flag_if (hal.hdd_is_ready r.dev r.selected_drive) 4 0 in
      let info : RawInfo = record {
        device_id = 0x464C5558;
        fw_version = 0x0100;
        hw_version = 0x0100;
        max_luns = 4;
        max_fdds = 2;
        max_hdds = 2;
        status_flags = flag_if r.capture_active 8 flags;
        selected = r.selected_drive;
        drive_type = if r.is_fdd then 0 else 1;
        track = r.current_track;
        capacity =
            if r.is_fdd then 2880 else total_or_0 (hal.hdd_total_sectors r.dev r.selected_drive);
      } in
      (done, respond rsp_ok 0x01 24 (info_data info) (8 + 24), r)

  -- `raw_cmd_select_drive`
  unfoldable pub cmd_select_drive : ℕ → Raw H → RawRet × Response × Raw H
  cmd_select_drive drive r =
      let fdd = ltb drive 2 in
      let r' = record r { selected_drive = drive; is_fdd = fdd } in
      if leb 4 drive then (failed, plain invalid_param 0x02, r) else (
        done,
        plain rsp_ok 0x02,
        if fdd then record r' { dev = hal.select_drive r.dev drive } else r',
      )

  -- `raw_cmd_motor_ctrl`
  unfoldable pub cmd_motor_ctrl : ℕ → Raw H → RawRet × Response × Raw H
  cmd_motor_ctrl on r =
      let h : H =
        if on == 0
        then hal.motor_off r.dev r.selected_drive
        else hal.motor_on r.dev r.selected_drive in
      (done, plain rsp_ok 0x03, if r.is_fdd then record r { dev = h } else r)

  -- The end of `raw_cmd_seek`, by what `hal_seek` returned.
  abbrev pub seek_result : ℕ → Option ℕ → Raw H → RawRet × Response × Raw H
  seek_result track none r = (done, plain rsp_ok 0x05, record r { current_track = track })
  seek_result track (some e) r = (hal_error e, plain not_ready 0x05, r)

  -- `raw_cmd_seek`
  unfoldable pub cmd_seek : ℕ → Raw H → RawRet × Response × Raw H
  cmd_seek track r =
      let (ret, h) = hal.seek r.dev r.selected_drive track in
      if not r.is_fdd
      then (failed, plain invalid_cmd 0x05, r)
      else seek_result track ret (record r { dev = h })

  -- `raw_cmd_capture_start`
  unfoldable pub cmd_capture_start : Raw H → RawRet × Response × Raw H
  cmd_capture_start r =
      if r.capture_active
      then (failed, plain busy 0x10, r)
      else (done, plain rsp_ok 0x10, begin_capture r)

  -- `raw_cmd_capture_stop`
  unfoldable pub cmd_capture_stop : Raw H → RawRet × Response × Raw H
  unfolding capture_info
  cmd_capture_stop r = if not r.capture_active then (done, plain rsp_ok 0x11, r) else (
    done,
    respond rsp_ok 0x11 16 (capture_data (capture_info r)) (8 + 16),
    record r { capture_active = false },
  )

  -- `raw_cmd_get_pll_status` and `raw_cmd_get_signal_qual`, which answer with examples.
  abbrev pub cmd_get_pll_status : Raw H → RawRet × Response × Raw H
  cmd_get_pll_status r = (done, respond rsp_ok 0x30 8 (pll_data 500 1 0 0) (8 + 8), r)

  abbrev pub cmd_get_signal_qual : Raw H → RawRet × Response × Raw H
  cmd_get_signal_qual r = (done, respond rsp_ok 0x31 12 (signal_data 800 50 0 25 0) (8 + 12), r)

  -- `raw_cmd_get_drive_profile`
  unfoldable pub cmd_get_drive_profile : Raw H → RawRet × Response × Raw H
  cmd_get_drive_profile r =
      let d = r.selected_drive in
      let profile : RawProfile =
        if r.is_fdd
        then record {
          drive_num = d;
          drive_type = 0;
          disk_in = hal.disk_present r.dev d;
          protected = hal.write_protected r.dev d;
          at_track0 = hal.track0 r.dev d;
          track = r.current_track;
          capacity = 2880;
          block_size = 512;
          tracks = 80;
          heads = 2;
          sectors = 18;
        }
        else record {
          drive_num = d;
          drive_type = 1;
          disk_in = hal.hdd_is_ready r.dev d;
          protected = false;
          at_track0 = false;
          track = 0;
          capacity = total_or_0 (hal.hdd_total_sectors r.dev d);
          block_size = 512;
          tracks = 0;
          heads = 0;
          sectors = 0;
        } in
      (done, respond rsp_ok 0x40 (16 + 4) (profile_data profile) (8 + 16 + 4), r)

  -- The `switch` of `raw_mode_process_command`.
  unfoldable pub run_raw : RawCmd → Raw H → RawRet × Response × Raw H
  unfolding cmd_get_info cmd_select_drive cmd_motor_ctrl cmd_seek cmd_capture_start cmd_capture_stop
      cmd_get_drive_profile
  run_raw cmd r =
      let op = cmd.opcode in
      if op == 0x00
      then cmd_nop r
      else if op == 0x01
      then cmd_get_info r
      else if op == 0x02
      then cmd_select_drive cmd.param1 r
      else if op == 0x03
      then cmd_motor_ctrl cmd.param1 r
      else if op == 0x05
      then cmd_seek cmd.param1 r
      else if op == 0x10
      then cmd_capture_start r
      else if op == 0x11
      then cmd_capture_stop r
      else if op == 0x30
      then cmd_get_pll_status r
      else if op == 0x31
      then cmd_get_signal_qual r
      else if op == 0x40
      then cmd_get_drive_profile r
      else (failed, plain invalid_cmd op, r)

  -- `raw_mode_process_command`
  unfoldable pub process_raw : RawCmd → Raw H → RawRet × Response × Raw H
  unfolding run_raw
  process_raw cmd r =
      if cmd.signature == 0x46525751
      then run_raw cmd (record r { last_command = cmd.opcode })
      else (failed, plain invalid_cmd cmd.opcode, r)
