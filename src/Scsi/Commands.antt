-- ===== src/Scsi/Commands.antt =====
-- The command handlers of soc/firmware/src/scsi_handler.c. A handler returns 0 (`done`) or -1
-- (`failed`) beside the state, the buffer, its length and the result; the parts of the result that a
-- path does not assign stay as the caller had them.
use flux_ripper.Base.{
  ℕ, ◌+◌, ◌*◌, ◌/◌, ◌%◌, ◌^◌, Bool, true, false, not, none, some, List, [], ◌∷◌, ◌++◌, ltb, ◌==◌,
  if◌then◌else◌, at, put, take, replicate, overwrite, bit_and, ◌-◌,
}
use flux_ripper.Msc.Device.{DriveHal}
use flux_ripper.Msc.Lun.{LunConfig, MscStatus, ok, write_prot, lba_range, sector_size}
use flux_ripper.Msc.State.{Msc}
use flux_ripper.Msc.Hal
use flux_ripper.Scsi.State.{
  sense_not_ready, sense_medium_error, sense_illegal_request, sense_unit_attention,
  sense_data_protect, asc_no_additional_info, asc_lba_out_of_range, asc_invalid_field_in_cdb,
  asc_write_protected, asc_not_ready_to_ready, asc_medium_not_present, ascq_no_additional_info, Ret,
  done, failed, Call, set_sense, clear_sense, build_sense_response,
}
use flux_ripper.Scsi.Cdb.{byte, get_be32, get_be16, put_be32}

-- `memset` and `memcpy` of a string into a field of `width` bytes: padded with spaces.
abbrev pub padded : ℕ → List ℕ → List ℕ
padded width s = take width (s ++ replicate width 32)

-- The 36 bytes of a standard INQUIRY.
unfoldable pub inquiry_bytes : ℕ → LunConfig → List ℕ
inquiry_bytes qualifier config =
    qualifier
    ∷ (if config.removable then 0x80 else 0x00)
    ∷ 0x06
    ∷ 0x02
    ∷ (36 - 5)
    ∷ 0
    ∷ 0
    ∷ 0
    ∷ (padded 8 config.vendor ++ (padded 16 config.product ++ padded 4 config.revision))

module _ {H : Type 0} where
  abbrev pub with_msc : Msc H → Call H → Call H
  with_msc m c = record c { scsi = record (c.scsi) { msc = m } }

  -- `result->status = status; result->data_len = data_len; result->data_in = data_in;`
  abbrev pub answer : Ret → ℕ → Bool → Call H → Ret × Call H
  answer r n i c = (r, record c { result = record { status = r; data_len = n; data_in = i } })

  abbrev pub sensed : ℕ → ℕ → ℕ → Call H → Call H
  sensed lun key asc c = record c { scsi = set_sense lun key asc ascq_no_additional_info c.scsi }

  -- An error that sets the sense data, the status, and a data length of 0.
  abbrev pub refuse : ℕ → ℕ → ℕ → Call H → Ret × Call H
  refuse lun key asc c = answer failed 0 c.result.data_in (sensed lun key asc c)

  -- An error that sets the sense data and the status alone.
  abbrev pub refuse_write : ℕ → ℕ → ℕ → Call H → Ret × Call H
  refuse_write lun key asc c =
      answer failed c.result.data_len c.result.data_in (sensed lun key asc c)

module _ {H : Type 0} (hal : DriveHal H) where
  -- `scsi_cmd_test_unit_ready`
  unfoldable pub cmd_test_unit_ready : ℕ → Call H → Ret × Call H
  unfolding set_sense clear_sense
  cmd_test_unit_ready lun c =
      let s = c.scsi in
      let noted = record s { unit_attention = put s.unit_attention lun false } in
      let (ready, m1) = Hal.is_ready hal lun s.msc in
      let c1 = with_msc m1 c in
      let (changed, m2) = Hal.media_changed hal lun m1 in
      let c2 = with_msc m2 c in
      if at s.unit_attention lun
      then answer failed 0 false
          (sensed lun sense_unit_attention asc_not_ready_to_ready (record c { scsi = noted }))
      else if not ready
      then answer failed 0 false (sensed lun sense_not_ready asc_medium_not_present c1)
      else if changed
      then answer failed 0 false (sensed lun sense_unit_attention asc_not_ready_to_ready c2)
      else answer done 0 false (record c2 { scsi = clear_sense lun c2.scsi })

  -- `scsi_cmd_request_sense`
  unfoldable pub cmd_request_sense : ℕ → Call H → Ret × Call H
  unfolding build_sense_response clear_sense
  cmd_request_sense lun c =
      let (sense_len, buf) = build_sense_response lun c.buf c.scsi in
      let len : ℕ = if ltb sense_len c.len then sense_len else c.len in
      answer done len true (record c { scsi = clear_sense lun c.scsi; buf = buf; len = len })

  -- `scsi_cmd_inquiry`; `uninit` is what the local variable `config` holds where no unit fills it.
  unfoldable pub cmd_inquiry : LunConfig → ℕ → List ℕ → Call H → Ret × Call H
  unfolding inquiry_bytes set_sense
  cmd_inquiry uninit lun cdb c =
      let evpd = bit_and (byte cdb 1) 1 in
      let alloc_len = get_be16 cdb 3 in
      let bytes : List ℕ = elim (Hal.get_lun_config hal lun c.scsi.msc) [
        | none ↦ inquiry_bytes 0x60 uninit
        | some config ↦ inquiry_bytes (if config.present then 0x00 else 0x20) config
      ] in
      let len : ℕ = if ltb alloc_len 36 then alloc_len else 36 in
      if not (evpd == 0)
      then refuse lun sense_illegal_request asc_invalid_field_in_cdb c
      else answer done len true (record c { buf = overwrite bytes c.buf; len = len })

  -- `scsi_cmd_mode_sense_6`
  unfoldable pub cmd_mode_sense_6 : ℕ → List ℕ → Call H → Ret × Call H
  cmd_mode_sense_6 lun cdb c =
      let alloc_len = byte cdb 4 in
      let (protected, m) = Hal.is_write_protected hal lun c.scsi.msc in
      let bytes : List ℕ = (4 - 1) ∷ 0 ∷ (if protected then 0x80 else 0x00) ∷ 0 ∷ [] in
      let len : ℕ = if ltb alloc_len 4 then alloc_len else 4 in
      answer done len true (record (with_msc m c) { buf = overwrite bytes c.buf; len = len })

  -- `scsi_cmd_start_stop_unit`
  unfoldable pub cmd_start_stop_unit : ℕ → List ℕ → Call H → Ret × Call H
  cmd_start_stop_unit lun cdb c =
      let start = not (bit_and (byte cdb 4) 1 == 0) in
      let loej = not (bit_and (byte cdb 4) 2 == 0) in
      answer done 0 false (with_msc (Hal.start_stop hal lun start loej c.scsi.msc).1 c)

  -- `scsi_cmd_prevent_allow_removal`
  unfoldable pub cmd_prevent_allow_removal : ℕ → List ℕ → Call H → Ret × Call H
  cmd_prevent_allow_removal lun cdb c =
      let prevent = not (bit_and (byte cdb 4) 1 == 0) in
      answer done 0 false (with_msc (Hal.prevent_removal hal lun prevent c.scsi.msc).1 c)

  -- `scsi_cmd_read_format_capacities`
  unfoldable pub cmd_read_format_capacities : ℕ → Call H → Ret × Call H
  unfolding set_sense
  cmd_read_format_capacities lun c = elim (Hal.get_capacity hal lun c.scsi.msc) [
    | none ↦ refuse lun sense_not_ready asc_medium_not_present c
    | some (last_lba, block_size) ↦
        let size : List ℕ =
          bit_and (block_size / 2 ^ 16) 255
          ∷ bit_and (block_size / 2 ^ 8) 255
          ∷ bit_and block_size 255
          ∷ [] in
        let bytes : List ℕ = 0 ∷ 0 ∷ 0 ∷ 8 ∷ (put_be32 ((last_lba + 1) % 2 ^ 32) ++ 2 ∷ size) in
        answer done 12 true (record c { buf = overwrite bytes c.buf; len = 12 })
  ]

  -- The answer to READ CAPACITY for a unit that is ready.
  unfoldable pub report_capacity : ℕ → Call H → Ret × Call H
  unfolding set_sense
  report_capacity lun c = elim (Hal.get_capacity hal lun c.scsi.msc) [
    | none ↦ refuse lun sense_not_ready asc_medium_not_present c
    | some (last_lba, block_size) ↦
        answer done 8 true
          (record c { buf = overwrite (put_be32 last_lba ++ put_be32 block_size) c.buf; len = 8 })
  ]

  -- `scsi_cmd_read_capacity_10`
  unfoldable pub cmd_read_capacity_10 : ℕ → Call H → Ret × Call H
  cmd_read_capacity_10 lun c =
      let (ready, m) = Hal.is_ready hal lun c.scsi.msc in
      if not ready
      then refuse lun sense_not_ready asc_medium_not_present (with_msc m c)
      else report_capacity lun (with_msc m c)

  -- The end of `scsi_cmd_read_10`, by what `msc_hal_read_sectors` returned.
  unfoldable pub read_result : ℕ → ℕ → MscStatus → Call H → Ret × Call H
  unfolding set_sense
  read_result lun count ok c =
      let len = count * sector_size in answer done len true (record c { len = len })
  read_result lun count lba_range c = refuse lun sense_illegal_request asc_lba_out_of_range c
  read_result lun count _ c = refuse lun sense_medium_error asc_no_additional_info c

  -- `scsi_cmd_read_10`
  unfoldable pub cmd_read_10 : ℕ → List ℕ → Call H → Ret × Call H
  cmd_read_10 lun cdb c =
      let lba = get_be32 cdb 2 in
      let count = get_be16 cdb 7 in
      let (ready, m) = Hal.is_ready hal lun c.scsi.msc in
      let (status, bytes, m') = Hal.msc_read hal lun lba count m in
      if count == 0
      then answer done 0 true c
      else if not ready
      then refuse lun sense_not_ready asc_medium_not_present (with_msc m c)
      else read_result lun count status (record (with_msc m' c) { buf = overwrite bytes c.buf })

  -- The end of `scsi_cmd_write_10`, by what `msc_hal_write_sectors` returned.
  unfoldable pub write_result : ℕ → MscStatus → Call H → Ret × Call H
  unfolding set_sense
  write_result lun ok c = answer done 0 false c
  write_result lun lba_range c = refuse_write lun sense_illegal_request asc_lba_out_of_range c
  write_result lun write_prot c = refuse_write lun sense_data_protect asc_write_protected c
  write_result lun _ c = refuse_write lun sense_medium_error asc_no_additional_info c

  -- `scsi_cmd_write_10`
  unfoldable pub cmd_write_10 : ℕ → List ℕ → Call H → Ret × Call H
  cmd_write_10 lun cdb c =
      let lba = get_be32 cdb 2 in
      let count = get_be16 cdb 7 in
      let (ready, m1) = Hal.is_ready hal lun c.scsi.msc in
      let (protected, m2) = Hal.is_write_protected hal lun m1 in
      let (status, m3) = Hal.msc_write hal lun lba c.buf count m2 in
      if count == 0
      then answer done 0 false c
      else if not ready
      then refuse_write lun sense_not_ready asc_medium_not_present (with_msc m1 c)
      else if protected
      then refuse_write lun sense_data_protect asc_write_protected (with_msc m2 c)
      else write_result lun status (with_msc m3 c)

  -- `scsi_cmd_verify_10`
  unfoldable pub cmd_verify_10 : ℕ → List ℕ → Call H → Ret × Call H
  unfolding set_sense
  cmd_verify_10 lun cdb c =
      let (ready, m) = Hal.is_ready hal lun c.scsi.msc in
      if not ready
      then refuse_write lun sense_not_ready asc_medium_not_present (with_msc m c)
      else answer done 0 false (with_msc m c)
