-- ===== src/Raw/State.antt =====
-- The state of soc/firmware/src/raw_mode.c and the operations on the capture.
use flux_ripper.Base.{ℕ, ◌+◌, ◌-◌, ◌%◌, ◌^◌, Bool, true, false, if◌then◌else◌, any_bit, Option}

-- The floppy and hard disk functions that raw_mode.c calls, over a state of the hardware. A seek returns
-- `none` for HAL_OK and an error code otherwise.
pub record RawHal (H : Type 0) : Type 0 where
  pub disk_present : H → ℕ → Bool
  pub write_protected : H → ℕ → Bool
  pub track0 : H → ℕ → Bool
  pub hdd_is_ready : H → ℕ → Bool
  pub hdd_total_sectors : H → ℕ → Option ℕ
  pub select_drive : H → ℕ → H
  pub motor_on : H → ℕ → H
  pub motor_off : H → ℕ → H
  pub seek : H → ℕ → ℕ → Option ℕ × H

-- `raw_mode_state_t` with the capture statistics, and the hardware.
pub record Raw (H : Type 0) : Type 0 where
  pub initialized : Bool
  pub capture_active : Bool
  pub selected_drive : ℕ
  pub is_fdd : Bool
  pub current_track : ℕ
  pub last_command : ℕ
  pub last_error : ℕ
  pub sample_count : ℕ
  pub index_count : ℕ
  pub overflow_count : ℕ
  pub start_time : ℕ
  pub dev : H

-- `raw_capture_info_t`
pub record CaptureInfo : Type 0 where
  pub samples : ℕ
  pub indices : ℕ
  pub overflows : ℕ
  pub duration_us : ℕ

-- `get_timestamp_us`, which is not implemented yet.
abbrev pub timestamp_us : ℕ
timestamp_us = 0

-- `if (word & flag) count++;`
abbrev pub count_if : Bool → ℕ → ℕ
count_if b n = if b then (n + 1) % 2 ^ 32 else n

module _ {H : Type 0} where
  -- `raw_mode_init`
  unfoldable pub raw_init : Raw H → Raw H
  raw_init r = record {
    initialized = true;
    capture_active = false;
    selected_drive = 0;
    is_fdd = true;
    current_track = 0;
    last_command = 0;
    last_error = 0;
    sample_count = 0;
    index_count = 0;
    overflow_count = 0;
    start_time = 0;
    dev = r.dev;
  }

  -- The statistics that a capture starts with, and the flag.
  abbrev pub begin_capture : Raw H → Raw H
  begin_capture r = record r {
    capture_active = true;
    sample_count = 0;
    index_count = 0;
    overflow_count = 0;
    start_time = timestamp_us;
  }

  -- `raw_mode_capture_start`: whether it returns 0.
  unfoldable pub capture_start : Raw H → Bool × Raw H
  capture_start r = if r.capture_active then (false, r) else (true, begin_capture r)

  -- `raw_mode_capture_stop`
  unfoldable pub capture_stop : Raw H → Raw H
  capture_stop r = record r { capture_active = false }

  -- `raw_mode_get_capture_info`
  unfoldable pub capture_info : Raw H → CaptureInfo
  capture_info r = record {
    samples = r.sample_count;
    indices = r.index_count;
    overflows = r.overflow_count;
    duration_us = (timestamp_us + 2 ^ 32 - r.start_time) % 2 ^ 32;
  }

  -- `raw_mode_process_flux`
  unfoldable pub process_flux : ℕ → Raw H → Raw H
  process_flux word r = record r {
    sample_count = (r.sample_count + 1) % 2 ^ 32;
    index_count = count_if (any_bit word (2 ^ 31)) r.index_count;
    overflow_count = count_if (any_bit word (2 ^ 30)) r.overflow_count;
  }

module _ {H : Type 0} (hal : RawHal H) where
  -- `raw_mode_reset`
  unfoldable pub raw_reset : Raw H → Raw H
  unfolding capture_stop
  raw_reset r =
      let r1 = if r.capture_active then capture_stop r else r in
      let r2 =
        if r1.is_fdd then record r1 { dev = hal.motor_off r1.dev r1.selected_drive } else r1 in
      record r2 { capture_active = false }
