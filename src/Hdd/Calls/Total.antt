-- ===== src/Hdd/Calls/Total.antt =====
-- Every call of soc/firmware/src/hdd_hal.c returns.
use flux_ripper.Base.{ℕ, ◌^◌, ◌<◌, ◌≢◌, none, arith}
use flux_ripper.Act.{
  Ends, bind-Ends, check-Ends, pure-Ends, step-Ends, modify-Ends, gets-Ends, if-Ends, ◌>>-ends◌,
}
use flux_ripper.Hdd.Device.{HddIo}
use flux_ripper.Hdd.State.{Hdd}
use flux_ripper.Hdd.Seek.{Call, hal_init, get_status}
use flux_ripper.Hdd.Discovery.{get_profile, get_health, set_rate, set_encoding, set_termination}
use flux_ripper.Hdd.Dual.{seek_both, get_dual_status}
use flux_ripper.Hdd.Ending.{
  IsTimed, init-Ends, enter-Ends, seek-Ends, recalibrate-Ends, select_drive-Ends, select_head-Ends,
  detect-Ends, force-Ends, discover-Ends, read_sector-Ends, read_lba-Ends, esdi-Ends,
  esdi_get_config-Ends, esdi_command-Ends, wait_seeks-Ends,
}
use flux_ripper.Hdd.Calls.{
  HddCall, init, both_status, select, ready, cylinder, status, profile, health, detect, force,
  recalibrates, rate, encoding, esdi_wait, waits, termination, seeks, heads, esdi, both, discovers,
  sector, blocks, config, any_busy, forget, call,
}

-- The timeout that the caller gives.
unfoldable pub timeout_of : HddCall → ℕ
timeout_of (esdi_wait t) = t
timeout_of (waits t) = t
timeout_of _ = 0

module _ {H : Type 0} (hw : HddIo H) (now : H → ℕ) (law : IsTimed hw now) where
  forget-Ends : {A : Type 0} (m : Call hw A) → Ends m → Ends (forget hw m)
  forget-Ends m p = bind-Ends p λ _. pure-Ends tt

  hal_init-Ends : Ends (hal_init hw)
  unfolding hal_init
  hal_init-Ends = if-Ends _ _ _ (pure-Ends tt) (
      modify-Ends _
      >>-ends modify-Ends _
      >>-ends modify-Ends _
      >>-ends modify-Ends _
      >>-ends modify-Ends _)

  call-Ends :
      (fuel : ℕ) (c : HddCall)
      → 60000 < fuel
      → timeout_of c < 2 ^ 30
      → timeout_of c < fuel
      → Ends (call hw fuel c)
  unfolding timeout_of call get_status get_profile get_health set_rate set_encoding set_termination
      seek_both get_dual_status
  call-Ends fuel init l p q = hal_init-Ends
  call-Ends fuel both_status l p q =
      forget-Ends _ (init-Ends hw now law >>-ends bind-Ends (step-Ends _) λ _. pure-Ends _)
  call-Ends fuel (select d) l p q = select_drive-Ends hw now law d
  call-Ends fuel (ready d) l p q = forget-Ends _ (step-Ends _)
  call-Ends fuel (cylinder d) l p q = forget-Ends _ (step-Ends _)
  call-Ends fuel (status d) l p q =
      forget-Ends _ (enter-Ends hw now law d >>-ends bind-Ends (step-Ends _) λ _. pure-Ends _)
  call-Ends fuel (profile d w) l p q =
      forget-Ends _ (init-Ends hw now law >>-ends check-Ends _ _ >>-ends gets-Ends _)
  call-Ends fuel (health d w) l p q = forget-Ends _ (
      init-Ends hw now law
      >>-ends check-Ends _ _
      >>-ends bind-Ends (step-Ends _) λ _. bind-Ends (step-Ends _) λ _. pure-Ends _)
  call-Ends fuel (detect d w) l p q = forget-Ends _ (detect-Ends hw now law fuel d w (omega arith))
  call-Ends fuel (force t) l p q = force-Ends hw now law fuel t (omega arith)
  call-Ends fuel (recalibrates d) l p q = recalibrate-Ends hw now law fuel d (omega arith)
  call-Ends fuel (rate r) l p q =
      init-Ends hw now law >>-ends bind-Ends (step-Ends _) λ _. modify-Ends _
  call-Ends fuel (encoding e) l p q =
      init-Ends hw now law >>-ends bind-Ends (step-Ends _) λ _. modify-Ends _
  call-Ends fuel (esdi_wait t) l p q = esdi-Ends hw now law fuel t p q
  call-Ends fuel (waits t) l p q = wait_seeks-Ends hw now law fuel t p q
  call-Ends fuel (termination b) l p q =
      init-Ends hw now law >>-ends bind-Ends (step-Ends _) λ _. modify-Ends _
  call-Ends fuel (seeks d c) l p q = seek-Ends hw now law fuel d c (omega arith)
  call-Ends fuel (heads d h) l p q = select_head-Ends hw now law d h
  call-Ends fuel (esdi d o) l p q = esdi_command-Ends hw now law d o
  call-Ends fuel (both c0 c1) l p q =
      init-Ends hw now law
      >>-ends bind-Ends (step-Ends _) λ _.
        check-Ends _ _
        >>-ends modify-Ends _
        >>-ends modify-Ends _
        >>-ends modify-Ends _
        >>-ends modify-Ends _
  call-Ends fuel (discovers d p') l p q = forget-Ends _ (discover-Ends hw now law fuel d p' l)
  call-Ends fuel (sector d x b) l p q = read_sector-Ends hw now law fuel d x b (omega arith)
  call-Ends fuel (blocks d n c b) l p q = read_lba-Ends hw now law fuel d n c b (omega arith)
  call-Ends fuel (config d w) l p q =
      forget-Ends _ (esdi_get_config-Ends hw now law fuel d w (omega arith))
  call-Ends fuel any_busy l p q = forget-Ends _ (step-Ends _)

  -- Every function returns, on whatever state, if its loops get more rounds than the longest timeout has
  -- milliseconds, a timeout that the caller gives is below 2 ^ 30, and on hardware whose clock runs.
  pub call_returns :
      (fuel : ℕ) (c : HddCall) (s : Hdd H)
      → 60000 < fuel
      → timeout_of c < 2 ^ 30
      → timeout_of c < fuel
      → call hw fuel c s ≢ none
  call_returns fuel c s l p q = call-Ends fuel c l p q s
