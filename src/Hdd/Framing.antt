-- ===== src/Hdd/Framing.antt =====
-- The steps of soc/firmware/src/hdd_hal.c that touch the hardware only keep what is said of the rest.
use flux_ripper.Base.{ℕ}
use flux_ripper.Wait.{Verdict, wait}
use flux_ripper.Act.{Outcome}
use flux_ripper.Act.Triples.{
  Triple, ends-Post, check-Triple, step-Triple, modify-Triple, wait-Triple, ◌>>-keeps◌,
}
use flux_ripper.Wd.Device.{HalRet}
use flux_ripper.Hdd.Device.{HddReg, HddIo}
use flux_ripper.Hdd.State.{hal_invalid, hal_not_ready, Hdd, valid_drive}
use flux_ripper.Hdd.Seek.{hdd_clock, read, read_reg, write_reg, check_initialized, enter}

module _ {H : Type 0} (hw : HddIo H) (P R : Hdd H → Type 0)
    (blind : (h : H) (s : Hdd H) → P s → P (record s { io = h }))
    (falls : (s : Hdd H) → P s → R s) where
  pub init-Triple : Triple P (check_initialized hw) (λ _. P) R
  init-Triple = record {
    holds = λ s r. (check-Triple {P = P} {R = R} (s.initialized) hal_not_ready falls).holds s r;
  }

  pub enter-Triple : (drive : ℕ) → Triple P (enter hw drive) (λ _. P) R
  enter-Triple drive = init-Triple >>-keeps check-Triple (valid_drive drive) hal_invalid falls

  pub write-Triple : (r : HddReg) (v : ℕ) → Triple P (write_reg hw r v) (λ _. P) R
  write-Triple r v = modify-Triple _ (λ s. blind (hw.write_reg r v s.io) s)

  pub read-Triple : (r : HddReg) → Triple P (read_reg hw r) (λ _. P) R
  read-Triple r = step-Triple _ (λ s. blind (hw.read_reg r s.io).1 s)

  pub poll-Triple :
      (r : HddReg) (judge : ℕ → Verdict (Outcome HalRet (Unit {0})))
      (late : Outcome HalRet (Unit {0})) (timeout pause fuel : ℕ)
      → Triple P
          (wait
            (hdd_clock hw)
            (λ s. let (v, s') = read hw r s in (judge v, s'))
            late
            timeout
            pause
            fuel)
          (λ _. P)
          R
  poll-Triple r judge late timeout pause fuel =
      wait-Triple P (λ _. P) R (hdd_clock hw) (λ s. let (v, s') = read hw r s in (judge v, s')) late
        (λ s. blind (hw.clock.get_time_ms s.io).1 s) (λ t s. blind (hw.clock.delay_ms t s.io) s)
        (λ s. blind (hw.read_reg r s.io).1 s)
        (λ o s p. ends-Post (λ _. P) R o s (λ _. p) (falls s p)) timeout pause fuel
