-- ===== src/Raw/Command/Protocol.antt =====
-- Responses of the raw protocol, and what a capture reports.
use flux_ripper.Base.{
  ℕ, ◌+◌, ◌%◌, ◌^◌, ◌≡◌, ◌<◌, Bool, true, false, ltb, if◌then◌else◌, List, [], ◌∷◌, length, any_bit,
  arith,
}
use flux_ripper.Raw.State.{RawHal, Raw, raw_init, begin_capture, capture_info, process_flux}
use flux_ripper.Raw.Command.{
  RawCmd, RspStatus, rsp_ok, data_size, RawRet, done, capture_data, cmd_get_info, cmd_select_drive,
  cmd_motor_ctrl, cmd_seek, cmd_capture_start, cmd_capture_stop, cmd_get_drive_profile, run_raw,
  process_raw,
}

abbrev pub is_done : RawRet → Bool
is_done done = true
is_done _ = false

abbrev pub is_rsp_ok : RspStatus → Bool
is_rsp_ok rsp_ok = true
is_rsp_ok _ = false

-- Flux words that are counted where a flag is set.
unfoldable pub flagged : ℕ → List ℕ → ℕ
flagged flag [] = 0
flagged flag (w ∷ ws) = (if any_bit w flag then 1 else 0) + flagged flag ws

module _ {H : Type 0} (hal : RawHal H) where
  -- Every response repeats the opcode, announces in its header the size of the data that follow, has
  -- the length of header and data, and says OK exactly where the command returns 0.
  pub process_raw_frames :
      (cmd : RawCmd) (r : Raw H)
      → let (ret, rsp, r') = process_raw hal cmd r in
        (rsp.rsp_opcode ≡ cmd.opcode)
        × (rsp.data_len ≡ data_size rsp.payload)
        × (rsp.response_len ≡ 8 + rsp.data_len)
        × (is_rsp_ok rsp.rsp_status ≡ is_done ret)
  unfolding process_raw run_raw cmd_get_info cmd_select_drive cmd_motor_ctrl cmd_seek
      cmd_capture_start cmd_capture_stop cmd_get_drive_profile data_size
  process_raw_frames cmd r = ground arith

  -- The drive that the protocol works on is one of four, and a floppy exactly where it is 0 or 1.
  pub record IsSelected (r : Raw H) : Type 0 where
    pub one_of_four : r.selected_drive < 4
    pub floppy : r.is_fdd ≡ ltb r.selected_drive 2

  unfoldable pub process_all : List RawCmd → Raw H → Raw H
  process_all [] r = r
  process_all (cmd ∷ cmds) r = process_all cmds ((process_raw hal cmd r).2)

  process_raw-IsSelected :
      (cmd : RawCmd) (r : Raw H) → IsSelected r → IsSelected ((process_raw hal cmd r).2)
  unfolding process_raw run_raw cmd_get_info cmd_select_drive cmd_motor_ctrl cmd_seek
      cmd_capture_start cmd_capture_stop cmd_get_drive_profile
  process_raw-IsSelected cmd r i = ground arith

  process_all-IsSelected :
      (cmds : List RawCmd) (r : Raw H) → IsSelected r → IsSelected (process_all cmds r)
  unfolding process_all
  process_all-IsSelected [] r i = i
  process_all-IsSelected (cmd ∷ cmds) r i =
      process_all-IsSelected cmds _ (process_raw-IsSelected cmd r i)

  -- Whatever commands follow the initialisation, valid or not, the selected drive is one of the four
  -- and its kind is the one of its number.
  pub raw_init-IsSelected :
      (cmds : List RawCmd) (r : Raw H) → IsSelected (process_all cmds (raw_init r))
  unfolding raw_init
  raw_init-IsSelected cmds r = process_all-IsSelected cmds (raw_init r) (ground arith)

  unfoldable pub fluxes : List ℕ → Raw H → Raw H
  fluxes [] r = r
  fluxes (w ∷ ws) r = fluxes ws (process_flux w r)

  -- The counters after flux words, modulo their width.
  record HasCounted (r r' : Raw H) (ws : List ℕ) : Type 0 where
    counted : r'.sample_count ≡ (r.sample_count + length ws) % 2 ^ 32
    indexed : r'.index_count ≡ (r.index_count + flagged (2 ^ 31) ws) % 2 ^ 32
    overflowed : r'.overflow_count ≡ (r.overflow_count + flagged (2 ^ 30) ws) % 2 ^ 32
    still_active : r'.capture_active ≡ r.capture_active
    same_start : r'.start_time ≡ r.start_time

  step_sample : (w : ℕ) (r : Raw H) → (process_flux w r).sample_count < 2 ^ 32
  unfolding process_flux
  step_sample w r = omega arith

  step_index :
      (w : ℕ) (r : Raw H) → r.index_count < 2 ^ 32 → (process_flux w r).index_count < 2 ^ 32
  unfolding process_flux
  step_index w r q = ground arith

  step_overflow :
      (w : ℕ) (r : Raw H) → r.overflow_count < 2 ^ 32 → (process_flux w r).overflow_count < 2 ^ 32
  unfolding process_flux
  step_overflow w r q = ground arith

  joined :
      (w : ℕ) (ws : List ℕ) (r r' : Raw H)
      → r.sample_count < 2 ^ 32
      → r.index_count < 2 ^ 32
      → r.overflow_count < 2 ^ 32
      → HasCounted (process_flux w r) r' ws
      → HasCounted r r' (w ∷ ws)
  unfolding process_flux flagged
  joined w ws r r' p q s h = ground arith

  fluxes-HasCounted :
      (ws : List ℕ) (r : Raw H)
      → r.sample_count < 2 ^ 32
      → r.index_count < 2 ^ 32
      → r.overflow_count < 2 ^ 32
      → HasCounted r (fluxes ws r) ws
  unfolding fluxes flagged
  fluxes-HasCounted [] r p q s = ground arith
  fluxes-HasCounted (w ∷ ws) r p q s =
      let rest =
        fluxes-HasCounted ws (process_flux w r) (step_sample w r) (step_index w r q)
          (step_overflow w r s) in
      joined w ws r _ p q s rest

  started :
      (start : RawCmd) (r : Raw H)
      → r.capture_active ≡ false
      → start.signature ≡ 0x46525751
      → start.opcode ≡ 0x10
      → (process_raw hal start r).2 ≡ begin_capture (record r { last_command = start.opcode })
  unfolding process_raw run_raw cmd_capture_start
  started start r a s o = ground arith

  stopped :
      (stop : RawCmd) (r : Raw H) (ws : List ℕ) (r' : Raw H)
      → stop.signature ≡ 0x46525751
      → stop.opcode ≡ 0x11
      → HasCounted (begin_capture r) r' ws
      → (process_raw hal stop r').1.payload
        ≡ capture_data (record {
          samples = length ws % 2 ^ 32;
          indices = flagged (2 ^ 31) ws % 2 ^ 32;
          overflows = flagged (2 ^ 30) ws % 2 ^ 32;
          duration_us = 0;
        })
  unfolding process_raw run_raw cmd_capture_stop capture_info
  stopped stop r ws r' t e h = ground arith

  -- A capture that is started when none is active, flux words, and its stop: the answer to the stop
  -- gives the number of words, of index marks and of overflows among them, modulo 2 ^ 32.
  pub capture_reports :
      (start stop : RawCmd) (ws : List ℕ) (r : Raw H)
      → r.capture_active ≡ false
      → start.signature ≡ 0x46525751
      → start.opcode ≡ 0x10
      → stop.signature ≡ 0x46525751
      → stop.opcode ≡ 0x11
      → (process_raw hal stop (fluxes ws ((process_raw hal start r).2))).1.payload
        ≡ capture_data (record {
          samples = length ws % 2 ^ 32;
          indices = flagged (2 ^ 31) ws % 2 ^ 32;
          overflows = flagged (2 ^ 30) ws % 2 ^ 32;
          duration_us = 0;
        })
  capture_reports start stop ws r a s o t e =
      let noted : Raw H = record r { last_command = start.opcode } in
      let h =
        fluxes-HasCounted ws (begin_capture noted) (omega arith) (omega arith) (omega arith) in
      rw (started start r a s o) (stopped stop noted ws _ t e h)
