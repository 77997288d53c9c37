-- ===== src/Tests/UsbLogTests.antt =====
-- The USB logger of soc/firmware/src/usb_logger_hal.c on a concrete buffer.
use flux_ripper.Base.{ℕ, ◌≡◌, refl, true, false, any_bit, some, List, [], ◌∷◌}
use flux_ripper.Act.{Outcome, returns}
use flux_ripper.Act.Triples.{Ended}
use flux_ripper.UsbLog.{
  LogReg, write_ptr, buffer_data, LogIo, UsbLog, read_bytes, read_record, decode_record,
}
use flux_ripper.UsbLog.Bounded.{IsBounded, read_record-IsBounded}

-- A buffer of bytes, behind which the data register reads 0; the pointers differ.
abbrev read_log : LogReg → List ℕ → ℕ × List ℕ
read_log write_ptr h = (9, h)
read_log buffer_data [] = (0, [])
read_log buffer_data (b ∷ bs) = (b, bs)
read_log _ h = (0, h)

abbrev log_bytes : LogIo (List ℕ)
log_bytes = record { read_reg = read_log; write_reg = λ r v h. h }

abbrev logged : UsbLog (List ℕ)
logged = record {
  initialized = true;
  size = 8192;
  capture_start = 0;
  io = 0x09 ∷ 120 ∷ 0 ∷ 0 ∷ 0 ∷ 2 ∷ 0x83 ∷ 0x05 ∷ 7 ∷ [];
}

-- An IN token of endpoint 11.
read_token :
    read_record log_bytes logged
    ≡ some (
      returns record {
        rec_type = 0;
        pid = 9;
        endpoint = 11;
        direction = 0;
        is_tx = false;
        timestamp_us = 2;
        payload_size = 2;
        payload = 0x83 ∷ 0x05 ∷ [];
      },
      record logged { io = 7 ∷ [] },
    )
unfolding read_record read_bytes decode_record any_bit flux_ripper.Act.resume
read_token = refl

read_record-IsBounded_example :
    Ended (λ r _. IsBounded r) (λ _. Unit {0}) (read_record log_bytes logged)
read_record-IsBounded_example = read_record-IsBounded log_bytes logged
