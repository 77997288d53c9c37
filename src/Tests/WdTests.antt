-- ===== src/Tests/WdTests.antt =====
-- The controller's theorems at a drive of 615 cylinders, 4 heads and 17 sectors, and hardware that
-- counts its register writes and sector reads.
use flux_ripper.Base.{
  ℕ, ◌+◌, ◌*◌, ◌/◌, ◌%◌, ◌^◌, ◌≡◌, refl, true, false, none, List, [], ◌∷◌, replicate,
  length-replicate, any_bit, arith,
}
use flux_ripper.Wd.Device.{WdReg, hal_ok, WdHal}
use flux_ripper.Wd.State.{generic, WdPhase, Wd}
use flux_ripper.Wd.Setup.{reset}
use flux_ripper.Wd.Command.{decode, exec_write_sectors, exec_identify, execute, process_command}
use flux_ripper.Wd.Command.Outcome.{Ends, process_command-Ends}
use flux_ripper.Wd.Port.{place, next_place, read_data}
use flux_ripper.Wd.Port.Coherence.{IsCoherent}
use flux_ripper.Wd.Port.Coherence.Calls.{
  WdCall, call_read_reg, call_write_reg, call_poll, wd_calls, reset-calls-IsCoherent,
}
use flux_ripper.Wd.Port.TaskFile.{program, program_sets}
use flux_ripper.Wd.Port.Transfer.{
  block_no, IsPlaced, IsSending, IsFinished, read_words, buffer_word, drained, fetch, fetched,
}
use flux_ripper.Wd.Port.Transfer.Commands.{
  identify-IsOffering, data_port_walks, data_port_finishes, identify_overruns,
}
use flux_ripper.Wd.Port.Writing.{IsTaking, IsWritten, write_words, filled, write_sectors-IsWritten}

-- The hardware finishes at once: status and control read 0, and the buffer returns its test word.
abbrev reads : WdReg → ℕ
reads WdReg.buffer_data = 0xA5A5
reads _ = 0

abbrev st225 : WdHal ℕ
st225 = record {
  reg_read = λ r h. (reads r, h);
  reg_write = λ r v h. h + 1;
  store_identify = λ block h. h + 1;
  past_literal = λ literal i. 0;
  hdd_hal_init = λ h. (hal_ok, h);
  hdd_get_profile = λ d h. (none, h);
  hdd_select_drive = λ d h. h;
  hdd_recalibrate = λ d h. (hal_ok, h);
  hdd_seek = λ d c h. (hal_ok, h);
  hdd_read_sector = λ d c hd s h. (hal_ok, h + 1);
  hdd_is_ready = λ d h. (true, h);
  hdd_get_status = λ d h. (none, h);
}

-- Ready at cylinder 3, head 3, the last sector but one of the track, with two sectors asked for.
abbrev prepared : ℕ → Wd ℕ
prepared features = record {
  phase = WdPhase.idle;
  status = 0x50;
  error_reg = 0;
  command_reg = 0;
  drive = 0;
  head = 3;
  cylinder = 3;
  sector = 17;
  sector_count = 2;
  bytes_pending = 0;
  irq_pending = false;
  cfg = record {
    variant = generic;
    features = features;
    step_rate = 0;
    head_settle = 0;
    irq_enabled = true;
    buffer_enabled = true;
  };
  diag_result = record {
    code = 1;
    drive0_ok = true;
    drive1_ok = true;
    controller_ok = true;
    buffer_ok = true;
    error_count = 0;
  };
  geometry0 = record { cylinders = 615; heads = 4; sectors = 17; valid = true };
  geometry1 = record { cylinders = 615; heads = 4; sectors = 17; valid = false };
  buffer_offset = 0;
  hw = 0;
}

abbrev full : Wd ℕ
full = prepared 0x1FF

abbrev bare : Wd ℕ
bare = prepared 0

abbrev after : ℕ → Wd ℕ
after cmd = (process_command st225 cmd full).1

host_calls : List WdCall
host_calls = call_write_reg 7 0x20 ∷ call_read_reg 0 ∷ call_write_reg 7 0x50 ∷ call_poll ∷ []

reset-calls-IsCoherent_example : IsCoherent (wd_calls st225 host_calls (reset st225 full))
reset-calls-IsCoherent_example = reset-calls-IsCoherent st225 host_calls full

process_command-Ends_example : Ends (process_command st225 0x20 full).0 (after 0x20)
process_command-Ends_example = process_command-Ends st225 0x20 full

full-IsPlaced : IsPlaced full.geometry0 (place full)
full-IsPlaced = ground arith

-- IDENTIFY with two sectors in the count register.
data_port_walks_example :
    let w = after 0xEC in
    let w' = read_words st225 (3 + 1 * 256) w in
    (block_no w.geometry0 (place w') ≡ block_no w.geometry0 (place w) + 1)
    × IsPlaced w.geometry0 (place w')
    × (any_bit w'.status 8 ≡ true)
    × (w'.hw ≡ drained st225 3 (fetched st225 0 w.geometry0 (place w) 1 w.hw))
    × ((read_data st225 w').0 ≡ (buffer_word st225 6 w'.hw).0 % 2 ^ 16)
unfolding decode process_command execute exec_identify any_bit
data_port_walks_example =
    data_port_walks st225 1 3 (after 0xEC) (identify-IsOffering st225 0xEC full refl refl)
      (omega arith) (omega arith) (omega arith) full-IsPlaced (omega arith)

data_port_finishes_example :
    let w = after 0xEC in
    let w' = read_words st225 511 w in
    (w'.phase ≡ WdPhase.data_out)
    × (any_bit w'.status 8 ≡ true)
    × IsFinished
        (read_words st225 512 w)
        (drained st225 256 (fetched st225 0 w.geometry0 (place w) 1 w.hw))
unfolding decode process_command execute exec_identify any_bit
data_port_finishes_example =
    data_port_finishes st225 511 (after 0xEC) (identify-IsOffering st225 0xEC full refl refl)
      (omega arith) (omega arith)

identify_overruns_example :
    let p = next_place full.geometry0 (place full) in
    IsSending
      (read_words st225 256 (after 0xEC))
      0
      full.geometry0
      p
      1
      0
      (fetch st225 0 p (drained st225 256 2))
unfolding decode process_command execute exec_identify any_bit
identify_overruns_example = identify_overruns st225 0xEC full refl (omega arith) (omega arith) refl

write_sectors-IsWritten_example :
    IsTaking
      (write_words st225 (7 ∷ []) (after 0x30))
      (place full)
      full.sector_count
      1
      (filled st225 (7 ∷ []) 0 1)
    × IsWritten
        (write_words st225 (replicate 256 7) (after 0x30))
        (place full)
        full.sector_count
        (filled st225 (replicate 256 7) 0 1)
unfolding decode process_command execute exec_write_sectors
write_sectors-IsWritten_example =
    write_sectors-IsWritten st225 0x30 (7 ∷ []) (replicate 256 7) full refl (omega arith)
      (length-replicate {A = ℕ} 256 7) refl

program_sets_example :
    let w' = program st225 2 5 0x34 0x01 0xB3 full in
    (w'.sector_count ≡ 2)
    × (w'.sector ≡ 5)
    × (w'.cylinder ≡ 308)
    × (w'.drive ≡ 0xB3 / 16 % 2)
    × (w'.head ≡ 0xB3 % 16)
unfolding any_bit
program_sets_example = program_sets st225 2 5 0x34 0x01 0xB3 full refl (omega arith)
