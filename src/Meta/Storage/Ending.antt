-- ===== src/Meta/Storage/Ending.antt =====
-- The operations of soc/firmware/src/hdd_metadata.c on a drive return, on hardware whose clock runs.
use flux_ripper.Base.{ℕ, zero, suc, ◌+◌, ◌*◌, ◌^◌, ◌≤◌, ◌<◌, arith, Option, none, some, List, []}
use flux_ripper.Wait.{IsFineClock, wait_ends_fine}
use flux_ripper.Act.{
  fails, Ends, bind-Ends, check-Ends, pure-Ends, step-Ends, modify-Ends, fail-Ends, ◌>>-ends◌,
}
use flux_ripper.Meta.State.{Metadata}
use flux_ripper.Meta.Storage.{
  MetaReg, MetaIo, timeout, signature_flxr, judge_ctrl, meta_clock, read, wait_for_completion,
  enter_drive, read_fingerprint, read_sessions, read_guid, read_header, meta_read,
  write_fingerprint, meta_write, meta_erase,
}

-- The clock of the hardware runs, in microseconds, and reading a register takes less than a second.
pub record IsTimed {H : Type 0} (hw : MetaIo H) (now : H → ℕ) : Type 0 where
  pub clocked :
      IsFineClock {H = H} (record { get_time_ms = hw.get_time_ms; delay_ms = hw.delay_us }) now
  pub reads_after : (r : MetaReg) (h : H) → now h ≤ now (hw.read_reg r h).1
  pub reads_soon : (r : MetaReg) (h : H) → now (hw.read_reg r h).1 ≤ now h + 1000000

module _ {H : Type 0} (hw : MetaIo H) (now : H → ℕ) (law : IsTimed hw now) where
  meta_clock-IsFineClock : IsFineClock (meta_clock hw) (λ s. now s.io)
  meta_clock-IsFineClock = record {
    reads = λ s. law.clocked.reads (s.io);
    reads_after = λ s. law.clocked.reads_after (s.io);
    reads_soon = λ s. law.clocked.reads_soon (s.io);
    delays = λ n s. law.clocked.delays n (s.io);
    delays_soon = λ n s. law.clocked.delays_soon n (s.io);
  }

  wait-Ends :
      (limit fuel : ℕ)
      → limit < 2 ^ 30
      → limit * 1000 + 1000 < fuel
      → Ends (wait_for_completion hw limit fuel)
  unfolding wait_for_completion
  wait-Ends limit fuel p l s =
      wait_ends_fine (meta_clock hw) (λ s. now s.io) meta_clock-IsFineClock
        (λ s. let (v, s') = read hw MetaReg.ctrl s in (judge_ctrl v, s'))
        (λ s. law.reads_after MetaReg.ctrl (s.io)) (λ s. law.reads_soon MetaReg.ctrl (s.io))
        (fails timeout) limit 100 (omega arith) (omega arith) fuel s l

  enter-Ends : (drive : ℕ) → Ends (enter_drive hw drive)
  enter-Ends drive s = (check-Ends _ _ >>-ends check-Ends _ _) s

  fingerprint-Ends : (n i : ℕ) → Ends (read_fingerprint hw n i)
  unfolding read_fingerprint
  fingerprint-Ends zero i = pure-Ends []
  fingerprint-Ends (suc n) i =
      bind-Ends (step-Ends _) λ _. bind-Ends (fingerprint-Ends n (i + 1)) λ _. pure-Ends _

  sessions-Ends : (n i : ℕ) → Ends (read_sessions hw n i)
  unfolding read_sessions
  sessions-Ends zero i = pure-Ends []
  sessions-Ends (suc n) i =
      modify-Ends _
      >>-ends modify-Ends _
      >>-ends bind-Ends (step-Ends _) λ _. bind-Ends (step-Ends _) λ _.
        bind-Ends (step-Ends _)
          λ _. bind-Ends (step-Ends _) λ _. bind-Ends (sessions-Ends n (i + 1)) λ _. pure-Ends _

  guid-Ends : Ends (read_guid hw)
  guid-Ends = bind-Ends (step-Ends _) λ _.
      bind-Ends (step-Ends _)
        λ _. bind-Ends (step-Ends _) λ _. bind-Ends (step-Ends _) λ _. pure-Ends _

  header-Ends : (m : Metadata) → Ends (read_header hw m)
  header-Ends m = bind-Ends (step-Ends _) λ _. bind-Ends (step-Ends _) λ _.
      bind-Ends (step-Ends _) λ _.
        bind-Ends (step-Ends _)
          λ _. bind-Ends (step-Ends _) λ _. bind-Ends (step-Ends _) λ _. pure-Ends _

  pub meta_read-Ends :
      (fuel drive : ℕ) (caller : Option Metadata)
      → 5001000 < fuel
      → Ends (meta_read hw fuel drive caller)
  unfolding meta_read
  meta_read-Ends fuel drive none l = enter-Ends drive >>-ends fail-Ends _
  meta_read-Ends fuel drive (some m) l =
      enter-Ends drive
      >>-ends modify-Ends _
      >>-ends modify-Ends _
      >>-ends wait-Ends 5000 fuel (omega arith) (omega arith)
      >>-ends bind-Ends (step-Ends _) λ _.
        check-Ends _ _
        >>-ends bind-Ends guid-Ends λ g.
          bind-Ends (header-Ends (record m { signature = signature_flxr; version = 1; guid = g }))
            λ _.
              bind-Ends (fingerprint-Ends 8 0)
                λ _. bind-Ends (sessions-Ends 16 0) λ _. modify-Ends _ >>-ends pure-Ends _

  write_fingerprint-Ends : (bs : List ℕ) (n i : ℕ) → Ends (write_fingerprint hw bs n i)
  unfolding write_fingerprint
  write_fingerprint-Ends bs zero i = pure-Ends tt
  write_fingerprint-Ends bs (suc n) i = modify-Ends _ >>-ends write_fingerprint-Ends bs n (i + 1)

  pub meta_write-Ends :
      (fuel drive : ℕ) (m : Option Metadata) → 10001000 < fuel → Ends (meta_write hw fuel drive m)
  unfolding meta_write
  meta_write-Ends fuel drive none l = enter-Ends drive >>-ends fail-Ends _
  meta_write-Ends fuel drive (some m) l =
      enter-Ends drive
      >>-ends modify-Ends _
      >>-ends modify-Ends _
      >>-ends modify-Ends _
      >>-ends modify-Ends _
      >>-ends modify-Ends _
      >>-ends modify-Ends _
      >>-ends modify-Ends _
      >>-ends modify-Ends _
      >>-ends modify-Ends _
      >>-ends modify-Ends _
      >>-ends modify-Ends _
      >>-ends write_fingerprint-Ends (m.fingerprint) 8 0
      >>-ends modify-Ends _
      >>-ends wait-Ends 10000 fuel (omega arith) (omega arith)
      >>-ends modify-Ends _

  pub meta_erase-Ends : (fuel drive : ℕ) → 10001000 < fuel → Ends (meta_erase hw fuel drive)
  unfolding meta_erase
  meta_erase-Ends fuel drive l =
      enter-Ends drive
      >>-ends modify-Ends _
      >>-ends modify-Ends _
      >>-ends wait-Ends 10000 fuel (omega arith) (omega arith)
      >>-ends modify-Ends _
