-- ===== src/UsbLog/Bounded.antt =====
-- The records of soc/firmware/src/usb_logger_hal.c fit their structure.
use flux_ripper.Base.{
  ℕ, zero, suc, ◌^◌, ◌≤◌, ◌<◌, ◌≡◌, refl, ap, arith, ltb, leb, if◌then◌else◌, any_bit, bit_and-pow,
  List, length,
}
use flux_ripper.Act.{Ends, bind-Ends, check-Ends, pure-Ends, step-Ends, ◌>>-ends◌}
use flux_ripper.Act.Triples.{
  Ended, Post-Ended, Triple, frame, bind-Triple, ◌>>-keeps◌, check-Triple, pure-Triple, step-Triple,
}
use flux_ripper.UsbLog.{
  LogReg, not_ready, LogIo, UsbLog, LogRecord, decode_record, reg_read, ready, read_byte,
  read_bytes, read_record,
}

-- The payload is within the 66 bytes of its array and as long as it says, and the record was sent exactly
-- if its type is one of 4 to 7: the flag is the upper bit of the type.
pub record IsBounded (r : LogRecord) : Type 0 where
  pub payload_fits : r.payload_size ≤ 66
  pub payload_full : length r.payload ≡ r.payload_size
  pub pid_fits : r.pid < 16
  pub sent_by_type : r.is_tx ≡ leb 4 r.rec_type

decode_record-IsBounded :
    (header ticks n : ℕ) (bytes : List ℕ)
    → header < 2 ^ 8
    → n ≤ 66
    → length bytes ≡ n
    → IsBounded (decode_record header ticks n bytes)
unfolding decode_record any_bit
decode_record-IsBounded header ticks n bytes h p l = record {
  payload_fits = p;
  payload_full = l;
  pid_fits = omega arith;
  sent_by_type = let top = bit_and-pow header 7 in ground arith;
}

module _ {H : Type 0} (hw : LogIo H) where
  ready-Ends : Ends (ready hw)
  ready-Ends s = check-Ends (s.initialized) not_ready s

  byte-Ends : Ends (read_byte hw)
  byte-Ends = bind-Ends (step-Ends _) λ v. pure-Ends _

  bytes-Ends : (n : ℕ) → Ends (read_bytes hw n)
  unfolding read_bytes
  bytes-Ends zero = pure-Ends _
  bytes-Ends (suc n) = bind-Ends byte-Ends λ b. bind-Ends (bytes-Ends n) λ rest. pure-Ends _

  record-Ends : Ends (read_record hw)
  unfolding read_record
  record-Ends =
      ready-Ends
      >>-ends bind-Ends (step-Ends _) λ wr. bind-Ends (step-Ends _) λ rd.
        check-Ends _ _
        >>-ends bind-Ends byte-Ends λ h. bind-Ends byte-Ends λ t0. bind-Ends byte-Ends λ t1.
          bind-Ends byte-Ends λ t2.
            bind-Ends byte-Ends
              λ t3. bind-Ends byte-Ends λ n. bind-Ends (bytes-Ends _) λ bytes. pure-Ends _

  abbrev Any : UsbLog H → Type 0
  Any s = Unit {0}

  ready-keeps : Triple Any (ready hw) (λ _. Any) Any
  ready-keeps = record {
    holds = λ s h. (check-Triple {P = Any} (s.initialized) not_ready (λ t k. tt)).holds s h;
  }

  reg-keeps : (r : LogReg) → Triple Any (reg_read hw r) (λ _. Any) Any
  reg-keeps r = step-Triple _ (λ s h. tt)

  byte-small : Triple Any (read_byte hw) (λ v s. v < 2 ^ 8) Any
  byte-small =
      bind-Triple (λ _. Any) (reg-keeps LogReg.buffer_data) λ v. pure-Triple _ (λ s h. omega arith)

  byte-keeps : (F : Type 0) → Triple (λ _. F) (read_byte hw) (λ _ _. F) Any
  byte-keeps F = bind-Triple (λ _ _. F) (step-Triple _ (λ s h. h)) λ v. pure-Triple _ (λ s h. h)

  bytes-length : (n : ℕ) → Triple Any (read_bytes hw n) (λ l s. length l ≡ n) Any
  unfolding read_bytes
  bytes-length zero = pure-Triple _ (λ s h. refl)
  bytes-length (suc n) =
      bind-Triple (λ _. Any) (byte-keeps (Unit {0}))
        λ b.
          bind-Triple (λ l s. length l ≡ n) (bytes-length n) λ rest. pure-Triple _ (λ s h. ap suc h)

  -- The payload, with a fact of the header.
  payload-keeps :
      (F : Type 0) (n : ℕ) → Triple (λ _. F) (read_bytes hw n) (λ l s. (length l ≡ n) × F) Any
  payload-keeps F n = record { holds = λ s f. (frame F (bytes-length n)).holds s (tt, f) }

  size_fits : (n : ℕ) → (if ltb 66 n then 66 else n) ≤ 66
  size_fits n = ground arith

  record-Post : Triple Any (read_record hw) (λ r s. IsBounded r) Any
  unfolding read_record
  record-Post =
      ready-keeps
      >>-keeps bind-Triple (λ _. Any) (reg-keeps LogReg.write_ptr)
          λ wr.
            bind-Triple (λ _. Any) (reg-keeps LogReg.read_ptr)
              λ rd.
                check-Triple _ _ (λ s h. tt)
                >>-keeps bind-Triple (λ v s. v < 2 ^ 8) byte-small
                    λ header.
                      let F : Type 0 = header < 2 ^ 8 in
                      let byte = byte-keeps F in
                      bind-Triple (λ _ _. F) byte
                        λ t0.
                          bind-Triple (λ _ _. F) byte
                            λ t1.
                              bind-Triple (λ _ _. F) byte
                                λ t2.
                                  bind-Triple (λ _ _. F) byte
                                    λ t3.
                                      bind-Triple (λ _ _. F) byte
                                        λ n.
                                          let size : ℕ = if ltb 66 n then 66 else n in
                                          bind-Triple (λ l s. (length l ≡ size) × F)
                                            (payload-keeps F size)
                                            λ bytes. pure-Triple _ (λ s (l, p).
                                              decode_record-IsBounded header _ size bytes p
                                                (size_fits n) l)

  -- `usblog_read_record` returns, whatever the registers read. Where it gives a record, its length is at most
  -- 66, the bytes stored in the payload are as many as the length says, the packet's identifier is below 16,
  -- and the flag of a sent packet is the upper bit of the record's type: it is set exactly for types 4 to 7.
  pub read_record-IsBounded :
      (s : UsbLog H) → Ended (λ r _. IsBounded r) (λ _. Unit {0}) (read_record hw s)
  read_record-IsBounded s = Post-Ended _ _ _ (record-Ends s) (record-Post.holds s tt)
