-- ===== src/Hdd/Calls/Guarded.antt =====
-- Before `hdd_hal_init` the functions of soc/firmware/src/hdd_hal.c leave the hardware alone.
use flux_ripper.Base.{Bool, true, false}
use flux_ripper.Act.{Outcome, returns, fails}
use flux_ripper.Wd.Device.{HalRet}
use flux_ripper.Hdd.Device.{HddIo}
use flux_ripper.Hdd.State.{hal_not_ready, Hdd}
use flux_ripper.Hdd.Seek.{is_ready}
use flux_ripper.Hdd.Dual.{any_seeking}
use flux_ripper.Hdd.Calls.{HddCall, init, ready, cylinder, esdi_wait, any_busy}

-- The functions that look whether the layer is started: all but the one that starts it, the reading of the
-- cylinder and the wait for an ESDI command.
unfoldable pub guarded : HddCall → Bool
guarded init = false
guarded (cylinder d) = false
guarded (esdi_wait t) = false
guarded _ = true

-- How they end: the two that return a Boolean have no error code, the others return HAL_ERR_NOT_READY.
unfoldable pub refusal : HddCall → Outcome HalRet (Unit {0})
refusal (ready d) = returns tt
refusal any_busy = returns tt
refusal _ = fails hal_not_ready

module _ {H : Type 0} (hw : HddIo H) where
  -- The Boolean of the two that return one.
  unfoldable pub answers : HddCall → Hdd H → Bool
  answers (ready d) s = (is_ready hw d s).0
  answers any_busy s = (any_seeking hw s).0
  answers _ s = false
