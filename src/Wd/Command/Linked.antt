-- ===== src/Wd/Command/Linked.antt =====
-- READ SECTORS of soc/firmware/src/wd_emu.c over the reads of soc/firmware/src/hdd_hal.c.
use flux_ripper.Base.{
  ℕ, ◌≡◌, ◌≢◌, arith, subst, sym, any_bit, Bool, true, false, Option, none, some, if◌then◌else◌,
}
use flux_ripper.Act.{Outcome, returns, fails, resume}
use flux_ripper.Wd.Device.{HalRet, hal_ok, hal_timeout, WdHal}
use flux_ripper.Wd.State.{drq, error_idnf, WdPhase, Wd, set_error}
use flux_ripper.Wd.Flags.{set_error-Shows}
use flux_ripper.Wd.Command.{
  read_sectors, decode, bad_sector, offer_sector, exec_read_sectors, execute, accept,
  process_command,
}
use flux_ripper.Hdd.Device.{HddIo}
use flux_ripper.Hdd.State.{hal_invalid, hal_not_ready, Hdd}
use flux_ripper.Hdd.Read.{read_sector}

-- The code that a function returns; `hal_timeout` stands for a loop without rounds left, which a read into
-- NULL does not reach.
unfoldable pub returned : {S : Type 0} → Option (Outcome HalRet (Unit {0}) × S) → S → HalRet × S
returned none s = (hal_timeout, s)
returned (some (returns u, s')) s = (hal_ok, s')
returned (some (fails e, s')) s = (e, s')

module _ {H : Type 0} (hal : WdHal (Hdd H)) (hw : HddIo H) (fuel : ℕ) where
  -- `hdd_read_sector(..., NULL)` of the layer below, as the controller emulation calls it.
  abbrev pub null_read : ℕ → ℕ → ℕ → ℕ → Hdd H → Option (Outcome HalRet (Unit {0}) × Hdd H)
  null_read drive c h n =
      read_sector hw fuel drive (record { cylinder = c; head = h; sector = n }) false

  -- The controller emulation over the layer.
  abbrev pub linked : WdHal (Hdd H)
  linked = record hal { hdd_read_sector = λ drive c h n s. returned (null_read drive c h n s) s }

  null_read_fails :
      (drive c h n : ℕ) (s : Hdd H)
      → returned (null_read drive c h n s) s
        ≡ (if s.initialized then hal_invalid else hal_not_ready, s)
  unfolding read_sector resume returned
  null_read_fails drive c h n s = ground arith

  -- A command that failed to find its sector.
  abbrev Unread : HalRet × Wd (Hdd H) → Type 0
  Unread (ret, w) = (ret ≢ hal_ok) × (w.error_reg ≡ error_idnf) × (any_bit (w.status) drq ≡ false)

  offer_sector-Unread :
      (b : Bool) (w : Wd (Hdd H))
      → Unread (offer_sector linked (if b then hal_invalid else hal_not_ready) w)
  unfolding set_error
  offer_sector-Unread true w = let e = set_error-Shows w.status in ground arith
  offer_sector-Unread false w = let e = set_error-Shows w.status in ground arith

  if_Unread :
      (b : Bool) (r r' : HalRet × Wd (Hdd H)) → Unread r → Unread r' → Unread (if b then r else r')
  if_Unread true r r' p q = p
  if_Unread false r r' p q = q

  exec_read_sectors-Unread : (w : Wd (Hdd H)) → Unread (exec_read_sectors linked w)
  unfolding exec_read_sectors set_error
  exec_read_sectors-Unread w =
      let e = set_error-Shows w.status in
      let found : HalRet × Hdd H → HalRet × Wd (Hdd H) = λ r.
        offer_sector linked (r.0)
          (record w { phase = WdPhase.read; buffer_offset = 0; bytes_pending = 512; hw = r.1 }) in
      if_Unread (bad_sector linked w) _ _ (ground arith) (
        subst (λ r. Unread (found r))
          (sym (null_read_fails w.drive w.cylinder w.head w.sector w.hw))
          (offer_sector-Unread (w.hw.initialized) _))

  -- The commands READ SECTORS never succeed over the hard disk layer, whatever the drive, the geometry and
  -- the task file: the controller passes NULL for a buffer, which the layer refuses. The command ends with
  -- IDNF in the error register, and no data is offered.
  pub process_command_unread :
      (cmd : ℕ) (w : Wd (Hdd H))
      → decode cmd ≡ read_sectors
      → ((process_command linked cmd w).0 ≢ hal_ok)
        × ((process_command linked cmd w).1.error_reg ≡ error_idnf)
        × (any_bit ((process_command linked cmd w).1.status) drq ≡ false)
  unfolding process_command execute
  process_command_unread cmd w e =
      let w1 : Wd (Hdd H) = accept linked cmd w in
      subst (λ c. Unread (execute linked c w1)) (sym e) (exec_read_sectors-Unread w1)
