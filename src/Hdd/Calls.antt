-- ===== src/Hdd/Calls.antt =====
-- The functions of soc/firmware/src/hdd_hal.c as one type of calls: what the rest of the firmware can ask
-- of the layer.
pub mod Total
pub mod Guarded
pub mod Sound
use flux_ripper.Base.{ℕ, Bool, true, false, Option, none, some}
use flux_ripper.Act.{Act, Outcome, returns, fails, pure, step, ◌>>=◌, ◌>>◌, Ends}
use flux_ripper.Hdd.Device.{HddIo}
use flux_ripper.Hdd.State.{Profile, Hdd}
use flux_ripper.Hdd.Address.{Place}
use flux_ripper.Hdd.Seek.{
  Call, hal_init, select_drive, seek, select_head, recalibrate, is_ready, get_cylinder, get_status,
}
use flux_ripper.Hdd.Discovery.{
  detect_interface, force_interface, discover, get_profile, get_health, set_rate, set_encoding,
  set_termination,
}
use flux_ripper.Hdd.Read.{read_sector, read_lba}
use flux_ripper.Hdd.Esdi.{wait_esdi_done, esdi_get_config, esdi_command}
use flux_ripper.Hdd.Dual.{seek_both, wait_seeks, any_seeking, get_dual_status}

pub data HddCall : Type 0 where
  init both_status : HddCall
  select ready cylinder status : ℕ → HddCall
  profile health detect : ℕ → Bool → HddCall
  force recalibrates rate encoding esdi_wait waits : ℕ → HddCall
  termination : Bool → HddCall
  seeks heads esdi both : ℕ → ℕ → HddCall
  discovers : ℕ → Option Profile → HddCall
  sector : ℕ → Place → Bool → HddCall
  blocks : ℕ → ℕ → ℕ → Bool → HddCall
  config : ℕ → Bool → HddCall
  any_busy : HddCall

module _ {H : Type 0} (hw : HddIo H) where
  -- A function whose value is dropped.
  abbrev pub forget : {A : Type 0} → Call hw A → Call hw (Unit {0})
  forget m = m >>= λ _. pure tt

  unfoldable pub call : ℕ → HddCall → Call hw (Unit {0})
  call fuel init = hal_init hw
  call fuel (select d) = select_drive hw d
  call fuel (ready d) = forget (step (is_ready hw d))
  call fuel (cylinder d) = forget (step (get_cylinder hw d))
  call fuel (status d) = forget (get_status hw d)
  call fuel (profile d w) = forget (get_profile hw d w)
  call fuel (health d w) = forget (get_health hw d w)
  call fuel (detect d w) = forget (detect_interface hw fuel d w)
  call fuel (force t) = force_interface hw fuel t
  call fuel (recalibrates d) = recalibrate hw fuel d
  call fuel (rate r) = set_rate hw r
  call fuel (encoding e) = set_encoding hw e
  call fuel (esdi_wait t) = wait_esdi_done hw fuel t
  call fuel (waits t) = wait_seeks hw fuel t
  call fuel (termination b) = set_termination hw b
  call fuel (seeks d c) = seek hw fuel d c
  call fuel (heads d h) = select_head hw d h
  call fuel (esdi d o) = esdi_command hw d o
  call fuel (both c0 c1) = seek_both hw c0 c1
  call fuel (discovers d p) = forget (discover hw fuel d p)
  call fuel (sector d p b) = read_sector hw fuel d p b
  call fuel (blocks d l n b) = read_lba hw fuel d l n b
  call fuel (config d w) = forget (esdi_get_config hw fuel d w)
  call fuel any_busy = forget (step (any_seeking hw))
  call fuel both_status = forget (get_dual_status hw)
