-- ===== src/Msc/Hal/Invariant/Steps.antt =====
-- Every operation of msc_hal.c keeps the logical units configured, so any run of them does.
use flux_ripper.Base.{
  ℕ, ◌<◌, ◌≡◌, refl, sym, subst, ◌∙◌, Bool, true, false, arith, ltb, leb, List, [], ◌∷◌,
  if◌then◌else◌, Bool-cases, ◌⊎◌, inl, inr, at, Each, Each-at, Each-put,
}
use flux_ripper.Msc.Device.{DriveHal}
use flux_ripper.Msc.Lun.{LunType, no_drive, fdd, hdd, LunConfig, lun_to_drive}
use flux_ripper.Msc.State.{Msc, configure_fdd_lun, init}
use flux_ripper.Msc.Hal.{
  scan_readonly, is_ready, is_write_protected, media_changed, notify_media_changed, set_lun,
  msc_read, msc_write, start_stop, rescan, refresh_lun, same_bool,
}
use flux_ripper.Msc.Hal.Invariant.{
  IsUnit, IsConfigured, init-IsConfigured, configure_fdd_lun-IsConfigured,
  configure_hdd_lun-IsConfigured,
}

-- A call of the interface that may change the state.
pub data MscCall : Type 0 where
  query_ready query_protected query_changed notify refresh : ℕ → MscCall
  read : (lun lba count : ℕ) → MscCall
  write : (lun lba : ℕ) → List ℕ → (count : ℕ) → MscCall
  start_or_stop : (lun : ℕ) → (start eject : Bool) → MscCall

LunType-cases : (t : LunType) → (t ≡ no_drive) ⊎ ((t ≡ fdd) ⊎ (t ≡ hdd))
LunType-cases no_drive = inl refl
LunType-cases fdd = inr (inl refl)
LunType-cases hdd = inr (inr refl)

-- The drive of a configured unit.
IsUnit-drive :
    {lun : ℕ} {cfg : LunConfig} (t : LunType)
    → IsUnit lun cfg
    → cfg.lun_type ≡ t
    → lun_to_drive lun ≡ (t, cfg.drive_index)
IsUnit-drive t u e = λ i. ((sym u.kind ∙ e) i, sym u.index i)

module _ {H : Type 0} (hal : DriveHal H) where
  unfoldable pub call : MscCall → Msc H → Msc H
  unfolding is_ready is_write_protected media_changed notify_media_changed msc_read msc_write
      start_stop refresh_lun rescan
  call (query_ready lun) m = (is_ready hal lun m).1
  call (query_protected lun) m = (is_write_protected hal lun m).1
  call (query_changed lun) m = (media_changed hal lun m).1
  call (notify lun) m = notify_media_changed hal lun m
  call (refresh lun) m = (refresh_lun hal lun m).1
  call (read lun lba count) m = (msc_read hal lun lba count m).2
  call (write lun lba bytes count) m = (msc_write hal lun lba bytes count m).1
  call (start_or_stop lun start eject) m = (start_stop hal lun start eject m).1

  unfoldable pub calls : List MscCall → Msc H → Msc H
  unfolding call
  calls [] m = m
  calls (c ∷ cs) m = calls cs (call c m)

  leb→lt : (lun : ℕ) → leb 4 lun ≡ false → lun < 4
  leb→lt lun e = ground arith

  -- Replacing a unit by one that differs in `present`, `changed` or a floppy's `readonly`.
  set_lun-IsConfigured :
      (lun : ℕ) (cfg : LunConfig) (m : Msc H)
      → lun < 4
      → (IsUnit lun (at m.luns lun) → IsUnit lun cfg)
      → IsConfigured m
      → IsConfigured (set_lun hal lun cfg m)
  set_lun-IsConfigured lun cfg m p keep h =
      Each-put IsUnit m.luns lun cfg h p (keep (Each-at IsUnit m.luns lun h p))

  is_ready-IsConfigured :
      (lun : ℕ) (m : Msc H) → IsConfigured m → IsConfigured (is_ready hal lun m).1
  unfolding is_ready
  is_ready-IsConfigured lun m h = elim (Bool-cases (leb 4 lun)) [
    | inl e ↦ rw e h
    | inr e ↦ rw e (
        set_lun-IsConfigured lun _ m (leb→lt lun e)
          (λ u. record {
            kind = u.kind;
            index = u.index;
            blocks = u.blocks;
            floppy = u.floppy;
            fixed = u.fixed;
          })
          h)
  ]

  media_changed-IsConfigured :
      (lun : ℕ) (m : Msc H) → IsConfigured m → IsConfigured (media_changed hal lun m).1
  unfolding media_changed
  media_changed-IsConfigured lun m h = elim (Bool-cases (leb 4 lun)) [
    | inl e ↦ rw e h
    | inr e ↦ rw e (
        set_lun-IsConfigured lun _ m (leb→lt lun e)
          (λ u. record {
            kind = u.kind;
            index = u.index;
            blocks = u.blocks;
            floppy = u.floppy;
            fixed = u.fixed;
          })
          h)
  ]

  scan_readonly-fixed :
      (h : H) (cfg : LunConfig) → cfg.lun_type ≡ hdd → scan_readonly hal h cfg ≡ cfg.readonly
  scan_readonly-fixed h cfg e = ground arith

  is_write_protected-IsConfigured :
      (lun : ℕ) (m : Msc H) → IsConfigured m → IsConfigured (is_write_protected hal lun m).1
  unfolding is_write_protected
  is_write_protected-IsConfigured lun m h = elim (Bool-cases (leb 4 lun)) [
    | inl e ↦ rw e h
    | inr e ↦ rw e (
        set_lun-IsConfigured lun _ m (leb→lt lun e)
          (λ u. record {
            kind = u.kind;
            index = u.index;
            blocks = u.blocks;
            floppy = u.floppy;
            fixed =
                λ t. ((u.fixed t).0, scan_readonly-fixed m.dev (at m.luns lun) t ∙ (u.fixed t).1);
          })
          h)
  ]

  luns-msc_read : (lun lba count : ℕ) (m : Msc H) → (msc_read hal lun lba count m).2.luns ≡ m.luns
  unfolding msc_read
  luns-msc_read lun lba count m = ground arith

  luns-msc_write :
      (lun lba : ℕ) (bytes : List ℕ) (count : ℕ) (m : Msc H)
      → (msc_write hal lun lba bytes count m).1.luns ≡ m.luns
  unfolding msc_write
  luns-msc_write lun lba bytes count m = ground arith

  luns-start_stop :
      (lun : ℕ) (start eject : Bool) (m : Msc H)
      → (start_stop hal lun start eject m).1.luns ≡ m.luns
  unfolding start_stop
  luns-start_stop lun start eject m = ground arith

  flagged-IsConfigured :
      (lun : ℕ) (m : Msc H)
      → lun < 4
      → IsConfigured m
      → IsConfigured (set_lun hal lun (record (at m.luns lun) { changed = true }) m)
  flagged-IsConfigured lun m p h =
      set_lun-IsConfigured lun _ m p
        (λ u. record {
          kind = u.kind;
          index = u.index;
          blocks = u.blocks;
          floppy = u.floppy;
          fixed = u.fixed;
        })
        h

  if-IsConfigured :
      (b : Bool) (m n : Msc H) → IsConfigured m → IsConfigured n → IsConfigured (if b then m else n)
  if-IsConfigured true m n h k = h
  if-IsConfigured false m n h k = k

  notify_media_changed-IsConfigured :
      (lun : ℕ) (m : Msc H) → IsConfigured m → IsConfigured (notify_media_changed hal lun m)
  unfolding notify_media_changed
  notify_media_changed-IsConfigured lun m h = elim (Bool-cases (leb 4 lun)) [
    | inl e ↦ rw e h
    | inr e ↦
        let p = leb→lt lun e in
        let flagged = flagged-IsConfigured lun m p h in
        elim (LunType-cases (at m.luns lun).lun_type) [
          | inl t ↦ rw (e, t) flagged
          | inr (inl t) ↦
              let q = IsUnit-drive fdd (Each-at IsUnit m.luns lun h p) t in
              let m' = set_lun hal lun (record (at m.luns lun) { changed = true }) m in
              let index = (at m.luns lun).drive_index in
              rw (e, t)
                (if-IsConfigured (ltb lun 2) (configure_fdd_lun hal lun index m') m'
                  (configure_fdd_lun-IsConfigured hal lun index m' p q flagged) flagged)
          | inr (inr t) ↦ rw (e, t) flagged
        ]
  ]

  rescan-IsConfigured :
      (lun : ℕ) (m : Msc H) → lun < 4 → IsConfigured m → IsConfigured (rescan hal lun m)
  unfolding rescan
  rescan-IsConfigured lun m p h =
      let index = (at m.luns lun).drive_index in
      let unit = Each-at IsUnit m.luns lun h p in
      elim (LunType-cases (at m.luns lun).lun_type) [
        | inl t ↦ rw (t, rescan) h
        | inr (inl t) ↦
            rw (t, rescan)
              (configure_fdd_lun-IsConfigured hal lun index m p (IsUnit-drive fdd unit t) h)
        | inr (inr t) ↦
            rw (t, rescan)
              (configure_hdd_lun-IsConfigured hal lun index m p (IsUnit-drive hdd unit t) h)
      ]

  refresh_lun-IsConfigured :
      (lun : ℕ) (m : Msc H) → IsConfigured m → IsConfigured (refresh_lun hal lun m).1
  unfolding refresh_lun
  refresh_lun-IsConfigured lun m h = elim (Bool-cases (leb 4 lun)) [
    | inl e ↦ rw e h
    | inr e ↦
        let m' = rescan hal lun m in
        let h' = rescan-IsConfigured lun m (leb→lt lun e) h in
        elim (Bool-cases (same_bool hal (at m'.luns lun).present (at m.luns lun).present)) [
          | inl s ↦ rw (e, s) h'
          | inr s ↦ rw (e, s) (flagged-IsConfigured lun m' (leb→lt lun e) h')
        ]
  ]

  -- A call of any operation keeps the units configured.
  call-IsConfigured : (c : MscCall) (m : Msc H) → IsConfigured m → IsConfigured (call c m)
  unfolding call
  call-IsConfigured (query_ready lun) m h = is_ready-IsConfigured lun m h
  call-IsConfigured (query_protected lun) m h = is_write_protected-IsConfigured lun m h
  call-IsConfigured (query_changed lun) m h = media_changed-IsConfigured lun m h
  call-IsConfigured (notify lun) m h = notify_media_changed-IsConfigured lun m h
  call-IsConfigured (refresh lun) m h = refresh_lun-IsConfigured lun m h
  call-IsConfigured (read lun lba count) m h =
      subst (Each IsUnit) (sym (luns-msc_read lun lba count m)) h
  call-IsConfigured (write lun lba bytes count) m h =
      subst (Each IsUnit) (sym (luns-msc_write lun lba bytes count m)) h
  call-IsConfigured (start_or_stop lun start eject) m h =
      subst (Each IsUnit) (sym (luns-start_stop lun start eject m)) h

  calls-IsConfigured : (cs : List MscCall) (m : Msc H) → IsConfigured m → IsConfigured (calls cs m)
  unfolding calls
  calls-IsConfigured [] m h = h
  calls-IsConfigured (c ∷ cs) m h = calls-IsConfigured cs (call c m) (call-IsConfigured c m h)

  -- After `msc_hal_init`, any sequence of calls leaves the four units configured.
  pub init-calls-IsConfigured :
      (cs : List MscCall) (m : Msc H) → IsConfigured (calls cs (init hal m))
  init-calls-IsConfigured cs m = calls-IsConfigured cs (init hal m) (init-IsConfigured hal m)
