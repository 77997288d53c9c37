-- ===== src/Wd/Port.antt =====
-- soc/firmware/src/wd_emu.c: what the host sees. The task file registers, the data port, and the poll
-- that notices the end of a command that the hardware finishes.
pub mod Coherence
pub mod TaskFile
pub mod Transfer
pub mod Writing
use flux_ripper.Base.{
  ℕ, zero, suc, ◌+◌, ◌-◌, ◌*◌, ◌/◌, ◌%◌, ◌^◌, Bool, true, false, not, ◌&&◌, ◌==◌, ltb, leb,
  if◌then◌else◌, bit_and, bit_or, and_not8, any_bit,
}
use flux_ripper.Wd.Device.{WdReg, HalRet, WdHal}
use flux_ripper.Wd.State.{bsy, drq, WdPhase, DriveGeometry, Wd, geometry_at, complete_command, poke}
use flux_ripper.Wd.Setup.{irq_ack, is_busy, drq_pending}
use flux_ripper.Wd.Command.{process_command}

-- The task file by its register number.
pub data WdPort : Type 0 where
  data_port error_port count_port sector_port cyl_low_port cyl_high_port sdh_port command_port
        no_port :
      WdPort

-- The labels of the `switch` in `wd_read_reg` and `wd_write_reg`.
unfoldable pub port_of : ℕ → WdPort
port_of reg =
    if reg == 0
    then data_port
    else if reg == 1
    then error_port
    else if reg == 2
    then count_port
    else if reg == 3
    then sector_port
    else if reg == 4
    then cyl_low_port
    else if reg == 5
    then cyl_high_port
    else if reg == 6
    then sdh_port
    else if reg == 7
    then command_port
    else no_port

abbrev pub is_data_out : WdPhase → Bool
is_data_out WdPhase.data_out = true
is_data_out _ = false

abbrev pub is_data_in : WdPhase → Bool
is_data_in WdPhase.data_in = true
is_data_in _ = false

-- The phases that `wd_poll` leaves alone.
abbrev pub is_waiting : WdPhase → Bool
is_waiting WdPhase.idle = true
is_waiting WdPhase.data_in = true
is_waiting WdPhase.data_out = true
is_waiting _ = false

-- The cylinder, head and sector registers.
pub record Place : Type 0 where
  pub at_cylinder : ℕ
  pub at_head : ℕ
  pub at_sector : ℕ

-- `advance to next` of `wd_read_data`; `sector` and `head` are 8 bits, `cylinder` 16.
unfoldable pub next_place : DriveGeometry → Place → Place
next_place g p =
    let sector = (p.at_sector + 1) % 256 in
    let head = (p.at_head + 1) % 256 in
    if ltb g.sectors sector
    then (if leb g.heads head
        then record { at_cylinder = (p.at_cylinder + 1) % 2 ^ 16; at_head = 0; at_sector = 1 }
        else record { at_cylinder = p.at_cylinder; at_head = head; at_sector = 1 })
    else record { at_cylinder = p.at_cylinder; at_head = p.at_head; at_sector = sector }

module _ {H : Type 0} where
  abbrev pub place : Wd H → Place
  place w = record { at_cylinder = w.cylinder; at_head = w.head; at_sector = w.sector }

  -- The registers after a sector that is not the last.
  unfoldable pub next_sector : Wd H → Wd H
  unfolding next_place
  next_sector w =
      let p = next_place (geometry_at w w.drive) (place w) in
      record w { cylinder = p.at_cylinder; head = p.at_head; sector = p.at_sector }

module _ {H : Type 0} (hal : WdHal H) where
  -- The sector that `wd_read_data` fetches; the result of the read is not looked at.
  abbrev pub refill : Wd H → Wd H
  refill w = record w {
    bytes_pending = 512;
    buffer_offset = 0;
    hw = (hal.hdd_read_sector w.drive w.cylinder w.head w.sector w.hw).1;
  }

  -- `if (g_wd_state.bytes_pending == 0)` of `wd_read_data`: a sector has been taken.
  unfoldable pub sector_taken : Wd H → Wd H
  unfolding complete_command next_sector
  sector_taken w =
      let count = (w.sector_count + 255) % 256 in
      let w' = record w { sector_count = count } in
      if count == 0 then complete_command w' else refill (next_sector w')

  -- `g_buffer_offset += 2; g_wd_state.bytes_pending -= 2;`, both 16 bits.
  abbrev pub word_done : Wd H → Wd H
  word_done w = record w {
    buffer_offset = (w.buffer_offset + 2) % 2 ^ 16;
    bytes_pending = (w.bytes_pending + 2 ^ 16 - 2) % 2 ^ 16;
  }

  -- `wd_read_data`
  unfoldable pub read_data : Wd H → ℕ × Wd H
  unfolding sector_taken
  read_data w =
      let (v, h) =
        hal.reg_read WdReg.buffer_data (hal.reg_write WdReg.buffer_addr w.buffer_offset w.hw) in
      let w' = word_done (record w { hw = h }) in
      if is_data_out w.phase && any_bit w.status drq
      then (v % 2 ^ 16, if w'.bytes_pending == 0 then sector_taken w' else w')
      else (0, w)

  -- `wd_write_data`
  unfoldable pub write_data : ℕ → Wd H → Wd H
  write_data v w =
      let h =
        hal.reg_write WdReg.buffer_data v (hal.reg_write WdReg.buffer_addr w.buffer_offset w.hw) in
      let w' = word_done (record w { hw = h }) in
      if is_data_in w.phase && any_bit w.status drq
      then (if w'.bytes_pending == 0
          then record w' { status = bit_or (and_not8 w.status drq) bsy; phase = WdPhase.write }
          else w')
      else w

  -- The `switch` of `wd_read_reg`.
  unfoldable pub read_port : WdPort → Wd H → ℕ × Wd H
  unfolding read_data irq_ack
  read_port data_port w = let (v, w') = read_data w in (v % 256, w')
  read_port error_port w = (w.error_reg, w)
  read_port count_port w = (w.sector_count, w)
  read_port sector_port w = (w.sector, w)
  read_port cyl_low_port w = (bit_and w.cylinder 0xFF, w)
  read_port cyl_high_port w = (bit_and (w.cylinder / 2 ^ 8) 0xFF, w)
  read_port sdh_port w = (bit_or (bit_or (2 * 2 ^ 5) (w.drive * 2 ^ 4)) (bit_and w.head 0x0F), w)
  read_port command_port w = let w' = irq_ack hal w in (w'.status, w')
  read_port no_port w = (0xFF, w)

  -- `wd_read_reg`
  unfoldable pub read_reg : ℕ → Wd H → ℕ × Wd H
  unfolding read_port port_of
  read_reg reg w = read_port (port_of reg) w

  -- The `switch` of `wd_write_reg`.
  unfoldable pub store_port : WdPort → ℕ → Wd H → Wd H
  unfolding write_data process_command
  store_port data_port v w = write_data v w
  store_port error_port v w = w
  store_port count_port v w = record w { sector_count = v }
  store_port sector_port v w = record w { sector = v }
  store_port cyl_low_port v w = record w { cylinder = bit_or (bit_and w.cylinder 0xFF00) v }
  store_port cyl_high_port v w = record w {
    cylinder = bit_or (bit_and w.cylinder 0x00FF) (v * 2 ^ 8);
  }
  store_port sdh_port v w =
      let drive = bit_and (v / 2 ^ 4) 0x01 in
      record w { drive = drive; head = bit_and v 0x0F; hw = hal.hdd_select_drive drive w.hw }
  store_port command_port v w = (process_command hal v w).1
  store_port no_port v w = w

  -- `wd_write_reg`
  unfoldable pub write_reg : ℕ → ℕ → Wd H → Wd H
  unfolding store_port port_of
  write_reg reg v w = if is_busy hal w && not (reg == 7) then w else store_port (port_of reg) v w

  -- `wd_poll`
  unfoldable pub poll : Wd H → Bool × Wd H
  unfolding complete_command
  poll w =
      let (v, h) = hal.reg_read WdReg.status_cmd w.hw in
      let w' = record w { hw = h } in
      if any_bit v bsy
      then (false, w')
      else (true, if is_waiting w.phase then w' else complete_command w')
