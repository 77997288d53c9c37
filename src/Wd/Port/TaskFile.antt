-- ===== src/Wd/Port/TaskFile.antt =====
-- The task file registers as the host programs them before a command.
use flux_ripper.Base.{
  ℕ, ◌+◌, ◌-◌, ◌*◌, ◌/◌, ◌%◌, ◌^◌, ◌<◌, ◌≡◌, true, false, arith, bit_or, bit_and, any_bit,
  bit_and-byte, bit_and-nibble, bit_and-high, bit_or_comm, bit_or-shift, high_byte, bit_and-pow,
}
use flux_ripper.Wd.Device.{hal_ok, WdHal}
use flux_ripper.Wd.State.{
  bsy, WdPhase, Wd, geometry_at, complete_command, set_error, feat_set_get_params,
}
use flux_ripper.Wd.Setup.{set_geometry}
use flux_ripper.Wd.Command.{set_params, decode, exec_set_params, execute, process_command}
use flux_ripper.Wd.Port.{port_of, store_port, write_reg}

set_low : (c lo : ℕ) → lo < 256 → bit_or (bit_and c 0xFF00) lo ≡ high_byte c * 256 + lo
set_low c lo h = rw (bit_and-high c) (bit_or-shift 8 (high_byte c) lo h)

set_high : (c hi : ℕ) → bit_or (bit_and c 0x00FF) (hi * 2 ^ 8) ≡ hi * 256 + c % 256
set_high c hi =
    rw (bit_or_comm (bit_and c 255) (hi * 2 ^ 8), bit_and-byte c)
      (bit_or-shift 8 hi (c % 256) (omega arith))

-- The registers after a host's writes of count, sector, cylinder and SDH.
module _ {H : Type 0} (hal : WdHal H) where
  abbrev pub program : (n s lo hi sdh : ℕ) → Wd H → Wd H
  program n s lo hi sdh w =
      write_reg hal 6 sdh
        (write_reg hal 5 hi (write_reg hal 4 lo (write_reg hal 3 s (write_reg hal 2 n w))))

  -- Writing the task file of a controller that is not busy, byte by byte, sets the count, the sector,
  -- the 16-bit cylinder, and the drive and head of SDH, whatever they were.
  pub program_sets :
      (n s lo hi sdh : ℕ) (w : Wd H)
      → any_bit w.status bsy ≡ false
      → lo < 256
      → let w' = program n s lo hi sdh w in
        (w'.sector_count ≡ n)
        × (w'.sector ≡ s)
        × (w'.cylinder ≡ hi * 256 + lo)
        × (w'.drive ≡ sdh / 16 % 2)
        × (w'.head ≡ sdh % 16)
  unfolding write_reg store_port port_of
  program_sets n s lo hi sdh w b l =
      let a = set_low w.cylinder lo l in
      let c = set_high (bit_or (bit_and w.cylinder 0xFF00) lo) hi in
      let d = bit_and-pow (sdh / 2 ^ 4) 0 in let e = bit_and-nibble sdh in ground arith

  -- SET PARAMETERS gives the selected drive the cylinders, heads and sectors of the task file, ends
  -- idle without an error, and leaves the other drive's geometry as it was.
  pub set_params-geometry :
      (cmd : ℕ) (w : Wd H)
      → decode cmd ≡ set_params
      → any_bit w.cfg.features feat_set_get_params ≡ true
      → w.drive < 2
      → let (ret, w') = process_command hal cmd w in
        (ret ≡ hal_ok)
        × (w'.phase ≡ WdPhase.idle)
        × (geometry_at w' w.drive ≡ record {
          cylinders = w.cylinder;
          heads = (w.head + 1) % 256;
          sectors = w.sector_count;
          valid = true;
        })
        × (geometry_at w' (1 - w.drive) ≡ geometry_at w (1 - w.drive))
  unfolding process_command execute exec_set_params set_geometry complete_command set_error
  set_params-geometry cmd w d f l = ground arith
