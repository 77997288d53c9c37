-- ===== src/UsbLog.antt =====
-- soc/firmware/src/usb_logger_hal.c: the logger of USB transactions, its control, its filter and its record
-- reader. The pointers that callers give are not NULL.
pub mod Bounded
use flux_ripper.Base.{
  ℕ, zero, suc, ◌+◌, ◌-◌, ◌*◌, ◌/◌, ◌%◌, ◌^◌, Bool, true, false, not, ◌&&◌, ◌==◌, ltb, leb,
  if◌then◌else◌, bit_and, bit_or, any_bit, Option, none, some, List, [], ◌∷◌, get_or,
}
use flux_ripper.Act.{
  Outcome, returns, fails, Act, pure, fail, check, gets, modify, step, ◌>>=◌, ◌>>◌,
}

-- `REG_*`
pub data LogReg : Type 0 where
  control status filter write_ptr read_ptr trans_count buffer_data buffer_size trigger : LogReg

-- `USBLOG_ERR_NOT_READY` and `USBLOG_ERR_EMPTY`
pub data LogError : Type 0 where
  not_ready empty : LogError

pub record LogIo (H : Type 0) : Type 0 where
  pub read_reg : LogReg → H → ℕ × H
  pub write_reg : LogReg → ℕ → H → H

-- The statics of the file, and the hardware.
pub record UsbLog (H : Type 0) : Type 0 where
  pub initialized : Bool
  pub size : ℕ
  pub capture_start : ℕ
  pub io : H

-- `usblog_filter_t`
pub record Filter : Type 0 where
  pub ep_mask : ℕ
  pub filter_dir : Bool
  pub dir_in : Bool
  pub capture_tokens : Bool
  pub capture_data : Bool
  pub capture_hs : Bool

-- `usblog_status_t`
pub record LogStatus : Type 0 where
  pub enabled : Bool
  pub triggered : Bool
  pub overflow : Bool
  pub wrapped : Bool
  pub write_at : ℕ
  pub read_at : ℕ
  pub transactions : ℕ
  pub bytes_used : ℕ
  pub bytes_free : ℕ

-- `usblog_record_t`; the payload is the bytes that are stored in it.
pub record LogRecord : Type 0 where
  pub rec_type : ℕ
  pub pid : ℕ
  pub endpoint : ℕ
  pub direction : ℕ
  pub is_tx : Bool
  pub timestamp_us : ℕ
  pub payload_size : ℕ
  pub payload : List ℕ

-- The word of a filter, and back.
unfoldable pub filter_word : Filter → ℕ
filter_word f =
    let r0 = bit_and f.ep_mask 0x0F in
    let r1 =
      if f.filter_dir then bit_or (bit_or r0 (2 ^ 4)) (if f.dir_in then 2 ^ 5 else 0) else r0 in
    let r2 = if f.capture_tokens then bit_or r1 (2 ^ 6) else r1 in
    let r3 = if f.capture_data then bit_or r2 (2 ^ 7) else r2 in
    if f.capture_hs then bit_or r3 (2 ^ 8) else r3

unfoldable pub filter_from : ℕ → Filter
filter_from reg = record {
  ep_mask = bit_and reg 0x0F;
  filter_dir = any_bit reg (2 ^ 4);
  dir_in = any_bit reg (2 ^ 5);
  capture_tokens = any_bit reg (2 ^ 6);
  capture_data = any_bit reg (2 ^ 7);
  capture_hs = any_bit reg (2 ^ 8);
}

-- What `usblog_init` asks for.
abbrev pub all_packets : Filter
all_packets = record {
  ep_mask = 0x0F;
  filter_dir = false;
  dir_in = false;
  capture_tokens = true;
  capture_data = true;
  capture_hs = true;
}

-- The bytes in the buffer, on 32 bits.
unfoldable pub used : ℕ → ℕ → ℕ → ℕ
used size wr rd = if leb rd wr then wr - rd else (size + 2 ^ 32 - rd + wr) % 2 ^ 32

-- The fields of a record, from its header, its timestamp in ticks and its payload.
unfoldable pub decode_record : ℕ → ℕ → ℕ → List ℕ → LogRecord
decode_record header ticks size bytes =
    let kind = header / 2 ^ 5 % 2 ^ 3 in
    record {
      rec_type = kind;
      direction = header / 2 ^ 4 % 2;
      pid = header % 2 ^ 4;
      is_tx = any_bit header 0x80;
      endpoint =
          if (kind == 0) && leb 2 size
          then bit_or (bit_and (get_or bytes 1 0) 0x07 * 2) (get_or bytes 0 0 / 2 ^ 7 % 2)
          else 0;
      timestamp_us = ticks / 60;
      payload_size = size;
      payload = bytes;
    }

module _ {H : Type 0} (hw : LogIo H) where
  abbrev pub LogCall : Type 0 → Type 0
  LogCall A = Act LogError (UsbLog H) A

  -- `USBLOG_REG(r)`
  abbrev pub reg_read : LogReg → LogCall ℕ
  reg_read r = step λ s. let (v, h) = hw.read_reg r s.io in (v, record s { io = h })

  abbrev pub reg_write : LogReg → ℕ → LogCall (Unit {0})
  reg_write r v = modify λ s. record s { io = hw.write_reg r v s.io }

  abbrev pub ready : LogCall (Unit {0})
  ready s = check (s.initialized) not_ready s

  -- `usblog_set_filter` and `usblog_get_filter`
  unfoldable pub set_filter : Filter → LogCall (Unit {0})
  set_filter f = do ready; reg_write LogReg.filter (filter_word f)

  unfoldable pub get_filter : LogCall Filter
  get_filter = do ready; reg ← reg_read LogReg.filter; pure (filter_from reg)

  -- A call whose code is dropped.
  unfoldable pub dropped : Option (Outcome LogError (Unit {0}) × UsbLog H) → UsbLog H → UsbLog H
  dropped none s = s
  dropped (some (o, s')) s = s'

  -- `usblog_init`
  unfoldable pub usblog_init : LogCall (Unit {0})
  unfolding dropped set_filter
  usblog_init = do
    n ← reg_read LogReg.buffer_size
    modify λ s. record s { size = if n == 0 then 8192 else n }
    reg_write LogReg.control (2 ^ 1)
    reg_write LogReg.control 0
    modify λ s. dropped (set_filter all_packets s) s
    modify λ s. record s { initialized = true }

  -- `usblog_start`, with the packet of an enabled trigger.
  unfoldable pub usblog_start : Option ℕ → LogCall (Unit {0})
  usblog_start chosen = do
    ready
    reg_write LogReg.trigger (elim chosen [ none ↦ 0 | some pid ↦ bit_or pid (2 ^ 8) ])
    at ← reg_read LogReg.write_ptr
    modify λ s. record s { capture_start = at }
    reg_write LogReg.control 1

  -- `usblog_stop`, `usblog_clear` and `usblog_rewind`
  unfoldable pub usblog_stop : LogCall (Unit {0})
  usblog_stop = do ready; reg_write LogReg.control 0

  unfoldable pub usblog_clear : LogCall (Unit {0})
  usblog_clear = do
    ready
    reg_write LogReg.control 0
    reg_write LogReg.control (2 ^ 1)
    reg_write LogReg.control 0
    modify λ s. record s { capture_start = 0 }

  unfoldable pub usblog_rewind : LogCall (Unit {0})
  usblog_rewind = do ready; start ← gets λ s. s.capture_start; reg_write LogReg.read_ptr start

  -- `usblog_get_status`
  unfoldable pub get_status : LogCall LogStatus
  get_status = do
    ready
    ctrl ← reg_read LogReg.control
    stat ← reg_read LogReg.status
    wr ← reg_read LogReg.write_ptr
    rd ← reg_read LogReg.read_ptr
    n ← reg_read LogReg.trans_count
    size ← gets λ s. s.size
    let st : LogStatus = record {
      enabled = any_bit ctrl 1;
      triggered = any_bit stat 1;
      overflow = any_bit stat 2;
      wrapped = any_bit stat 4;
      write_at = wr;
      read_at = rd;
      transactions = n;
      bytes_used = used size wr rd;
      bytes_free = (size + 2 ^ 32 - used size wr rd) % 2 ^ 32;
    }
    pure st

  abbrev pub read_byte : LogCall ℕ
  read_byte = do v ← reg_read LogReg.buffer_data; pure (v % 2 ^ 8)

  -- The loop over the payload.
  unfoldable pub read_bytes : ℕ → LogCall (List ℕ)
  read_bytes zero = pure []
  read_bytes (suc n) = do b ← read_byte; rest ← read_bytes n; pure (b ∷ rest)

  -- `usblog_read_record`
  unfoldable pub read_record : LogCall LogRecord
  read_record = do
    ready
    wr ← reg_read LogReg.write_ptr
    rd ← reg_read LogReg.read_ptr
    check (not (wr == rd)) empty
    header ← read_byte
    t0 ← read_byte
    t1 ← read_byte
    t2 ← read_byte
    t3 ← read_byte
    n ← read_byte
    let size : ℕ = if ltb 66 n then 66 else n
    bytes ← read_bytes size
    pure (decode_record header (t0 + t1 * 2 ^ 8 + t2 * 2 ^ 16 + t3 * 2 ^ 24) size bytes)

  -- The end of `usblog_peek_record`: the read pointer is put back however the reading ended.
  unfoldable pub put_back :
      ℕ
      → Option (Outcome LogError LogRecord × UsbLog H)
      → Option (Outcome LogError LogRecord × UsbLog H)
  put_back at none = none
  put_back at (some (o, s)) = some (o, record s { io = hw.write_reg LogReg.read_ptr at s.io })

  -- `usblog_peek_record`
  unfoldable pub peek_record : LogCall LogRecord
  peek_record = do ready; saved ← reg_read LogReg.read_ptr; λ s. put_back saved (read_record s)
