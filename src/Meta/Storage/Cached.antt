-- ===== src/Meta/Storage/Cached.antt =====
-- What the operations of soc/firmware/src/hdd_metadata.c on a drive leave in memory.
use flux_ripper.Base.{
  ℕ, zero, suc, ◌+◌, ◌<◌, ◌≡◌, refl, ap, ◌∙◌, arith, true, false, ltb, some, List, [], length,
}
use flux_ripper.Act.{fails, modify}
use flux_ripper.Act.Triples.{
  Ended, Post-Ended, Triple, ends-Post, frame, bind-Triple, ◌>>-keeps◌, check-Triple, pure-Triple,
  step-Triple, modify-Triple, wait-Triple,
}
use flux_ripper.Meta.State.{Session, Metadata, DriveMeta, Meta, no_metadata, meta_at, put_meta}
use flux_ripper.Meta.Storage.{
  MetaReg, MetaIo, timeout, invalid_drive, not_initialized, signature_flxr, judge_ctrl, MetaCall,
  meta_clock, read, reg_read, reg_write, wait_for_completion, enter_drive, select, put_cache,
  read_fingerprint, read_sessions, read_guid, read_header, meta_read, write_fingerprint, meta_write,
  meta_erase,
}
use flux_ripper.Meta.Storage.Ending.{IsTimed, meta_read-Ends, meta_write-Ends, meta_erase-Ends}

-- The identity and the notes are those of the metadata that the caller gave.
pub record IsOf (m m' : Metadata) : Type 0 where
  pub identity_stays : m'.identity ≡ m.identity
  pub notes_stay : m'.user_notes ≡ m.user_notes

module _ {H : Type 0} (hw : MetaIo H) (drive : ℕ) (d : DriveMeta) where
  -- The drive's own state is as it was.
  abbrev Same : Meta H → Type 0
  Same s = meta_at s drive ≡ d

  abbrev Kept : {A : Type 0} → MetaCall hw A → Type 0
  Kept m = Triple Same m (λ _. Same) Same

  -- The cache has the metadata.
  abbrev Cached : Metadata → Meta H → Type 0
  Cached m s = meta_at s drive ≡ record d { cache = m }

  same : (s : Meta H) → Same s → Same s
  same s p = p

  enter-Kept : Kept (enter_drive hw drive)
  enter-Kept = record {
    holds = λ s p.
        (check-Triple (ltb drive 2) invalid_drive same
            >>-keeps check-Triple ((meta_at s drive).initialized) not_initialized same).holds
          s p;
  }

  write-Kept : (r : MetaReg) (v : ℕ) → Kept (reg_write hw r v)
  write-Kept r v = modify-Triple _ (λ s p. p)

  delay-Kept : (n : ℕ) → Kept (modify ((meta_clock hw).delay_ms n))
  delay-Kept n = modify-Triple _ (λ s p. p)

  read-Kept : (r : MetaReg) → Kept (reg_read hw r)
  read-Kept r = step-Triple _ (λ s p. p)

  select-Kept : Kept (select hw drive)
  select-Kept = modify-Triple _ (λ s p. p)

  wait-Kept : (limit fuel : ℕ) → Kept (wait_for_completion hw limit fuel)
  unfolding wait_for_completion
  wait-Kept limit fuel =
      wait-Triple Same (λ _. Same) Same (meta_clock hw)
        (λ s. let (v, s') = read hw MetaReg.ctrl s in (judge_ctrl v, s')) (fails timeout) (λ s p. p)
        (λ n s p. p) (λ s p. p) (λ o s p. ends-Post (λ _. Same) Same o s (λ _. p) p) limit 100 fuel

  put_cache-Cached : (m : Metadata) (s : Meta H) → Same s → Cached m (put_cache drive m s)
  put_cache-Cached m s p =
      let cached : DriveMeta → DriveMeta = λ x. record x { cache = m } in
      put (cached (meta_at s drive)) ∙ ap cached p
    where
      put : (e : DriveMeta) → meta_at (put_meta drive e s) drive ≡ e
      put e = ground arith

  fingerprint-Kept : (n i : ℕ) → Kept (read_fingerprint hw n i)
  unfolding read_fingerprint
  fingerprint-Kept zero i = pure-Triple [] same
  fingerprint-Kept (suc n) i =
      bind-Triple (λ _. Same) (read-Kept (MetaReg.fingerprint i))
        λ _. bind-Triple (λ _. Same) (fingerprint-Kept n (i + 1)) λ _. pure-Triple _ same

  -- As many sessions are read as are asked for.
  abbrev Counted : ℕ → List Session → Meta H → Type 0
  Counted n xs s = Same s × (length xs ≡ n)

  sessions-Counted : (n i : ℕ) → Triple Same (read_sessions hw n i) (Counted n) Same
  unfolding read_sessions
  sessions-Counted zero i = pure-Triple [] λ s p. (p, refl)
  sessions-Counted (suc n) i =
      write-Kept MetaReg.diag_idx i
      >>-keeps delay-Kept 10
      >>-keeps bind-Triple (λ _. Same) (read-Kept (MetaReg.diag_data 0))
          λ _.
            bind-Triple (λ _. Same) (read-Kept (MetaReg.diag_data 1))
              λ _.
                bind-Triple (λ _. Same) (read-Kept (MetaReg.diag_data 2))
                  λ _.
                    bind-Triple (λ _. Same) (read-Kept (MetaReg.diag_data 3))
                      λ _.
                        bind-Triple (Counted n) (sessions-Counted n (i + 1))
                          λ xs. pure-Triple _ λ s (p, l). (p, ap suc l)

  guid-Kept : Kept (read_guid hw)
  guid-Kept =
      bind-Triple (λ _. Same) (read-Kept MetaReg.guid0)
        λ _.
          bind-Triple (λ _. Same) (read-Kept MetaReg.guid1)
            λ _.
              bind-Triple (λ _. Same) (read-Kept MetaReg.guid2)
                λ _. bind-Triple (λ _. Same) (read-Kept MetaReg.guid3) λ _. pure-Triple _ same

  abbrev Rest : Metadata → Metadata → Meta H → Type 0
  Rest m m' s = Same s × IsOf m m'

  header-Rest :
      (caller m : Metadata) → IsOf caller m → Triple Same (read_header hw m) (Rest caller) Same
  header-Rest caller m f =
      bind-Triple (λ _. Same) (read-Kept MetaReg.timestamp_hi)
        λ _.
          bind-Triple (λ _. Same) (read-Kept MetaReg.timestamp_lo)
            λ _.
              bind-Triple (λ _. Same) (read-Kept MetaReg.flags)
                λ _.
                  bind-Triple (λ _. Same) (read-Kept MetaReg.session_count)
                    λ _.
                      bind-Triple (λ _. Same) (read-Kept MetaReg.read_count)
                        λ _.
                          bind-Triple (λ _. Same) (read-Kept MetaReg.error_count)
                            λ _. pure-Triple _ λ s p. (
                              p,
                              record {
                                identity_stays = f.identity_stays;
                                notes_stay = f.notes_stay;
                              },
                            )

  -- What `meta_read` gives: the caller's identity and notes, sixteen sessions, and a copy in the cache.
  pub record IsRead (caller m : Metadata) (s : Meta H) : Type 0 where
    pub cached : Cached m s
    pub is_valid : m.valid ≡ true
    pub history_size : length m.sessions ≡ 16
    pub stays : IsOf caller m

  meta_read-Triple :
      (fuel : ℕ) (caller : Metadata)
      → Triple Same (meta_read hw fuel drive (some caller)) (IsRead caller) Same
  unfolding meta_read
  meta_read-Triple fuel caller =
      enter-Kept
      >>-keeps select-Kept
      >>-keeps write-Kept MetaReg.ctrl 1
      >>-keeps wait-Kept 5000 fuel
      >>-keeps bind-Triple (λ _. Same) (read-Kept MetaReg.ctrl)
          λ _.
            check-Triple _ _ same
            >>-keeps bind-Triple (λ _. Same) guid-Kept
                λ g.
                  bind-Triple (Rest caller)
                    (header-Rest caller
                      (record caller { signature = signature_flxr; version = 1; guid = g })
                      (record { identity_stays = refl; notes_stay = refl }))
                    λ m.
                      bind-Triple (λ _. Rest caller m)
                        (frame (IsOf caller m) (fingerprint-Kept 8 0))
                        λ words.
                          bind-Triple (λ xs s. Counted 16 xs s × IsOf caller m)
                            (frame (IsOf caller m) (sessions-Counted 16 0))
                            λ xs.
                              bind-Triple
                                (λ _ s.
                                  IsRead caller
                                    (record m {
                                      fingerprint = words;
                                      sessions = xs;
                                      valid = true;
                                      dirty = false;
                                    })
                                    s)
                                (modify-Triple _ λ s (p, f). read_all m words xs s p f)
                                λ _. pure-Triple _ λ s p. p
    where
      read_all :
          (m : Metadata) (words : List ℕ) (xs : List Session) (s : Meta H)
          → Counted 16 xs s
          → IsOf caller m
          → IsRead caller
              (record m { fingerprint = words; sessions = xs; valid = true; dirty = false })
              (put_cache drive
                (record m { fingerprint = words; sessions = xs; valid = true; dirty = false })
                s)
      read_all m words xs s (p, l) f = record {
        cached =
            put_cache-Cached
              (record m { fingerprint = words; sessions = xs; valid = true; dirty = false }) s p;
        is_valid = refl;
        history_size = l;
        stays = record { identity_stays = f.identity_stays; notes_stay = f.notes_stay };
      }

  write_fingerprint-Kept : (bs : List ℕ) (n i : ℕ) → Kept (write_fingerprint hw bs n i)
  unfolding write_fingerprint
  write_fingerprint-Kept bs zero i = pure-Triple tt same
  write_fingerprint-Kept bs (suc n) i = write-Kept _ _ >>-keeps write_fingerprint-Kept bs n (i + 1)

  meta_write-Triple :
      (fuel : ℕ) (m : Metadata)
      → Triple Same (meta_write hw fuel drive (some m)) (λ _. Cached m) Same
  unfolding meta_write
  meta_write-Triple fuel m =
      enter-Kept
      >>-keeps select-Kept
      >>-keeps write-Kept _ _
      >>-keeps write-Kept _ _
      >>-keeps write-Kept _ _
      >>-keeps write-Kept _ _
      >>-keeps write-Kept _ _
      >>-keeps write-Kept _ _
      >>-keeps write-Kept _ _
      >>-keeps write-Kept _ _
      >>-keeps write-Kept _ _
      >>-keeps write-Kept _ _
      >>-keeps write_fingerprint-Kept (m.fingerprint) 8 0
      >>-keeps write-Kept _ _
      >>-keeps wait-Kept 10000 fuel
      >>-keeps modify-Triple _ (put_cache-Cached m)

  meta_erase-Triple :
      (fuel : ℕ) → Triple Same (meta_erase hw fuel drive) (λ _. Cached no_metadata) Same
  unfolding meta_erase
  meta_erase-Triple fuel =
      enter-Kept
      >>-keeps select-Kept
      >>-keeps write-Kept _ _
      >>-keeps wait-Kept 10000 fuel
      >>-keeps modify-Triple _ (put_cache-Cached no_metadata)

module _ {H : Type 0} (hw : MetaIo H) (now : H → ℕ) (law : IsTimed hw now) where
  -- `meta_read` into metadata of the caller returns, on hardware whose clock runs and with a round for its
  -- loop for each microsecond of the timeout and a thousand more. Where it succeeds (also where the
  -- hardware reports an error with the code 0, which is META_OK), what it gives is valid, has sixteen sessions and is copied to the cache, but has the identity and the notes that the caller's
  -- metadata had before. Where it fails, the drive's state is as it was.
  pub meta_read_keeps :
      (fuel drive : ℕ) (caller : Metadata) (s : Meta H)
      → 5001000 < fuel
      → Ended
          (IsRead hw drive (meta_at s drive) caller)
          (λ s'. meta_at s' drive ≡ meta_at s drive)
          (meta_read hw fuel drive (some caller) s)
  meta_read_keeps fuel drive caller s l =
      Post-Ended _ _ _ (meta_read-Ends hw now law fuel drive (some caller) l s)
        ((meta_read-Triple hw drive (meta_at s drive) fuel caller).holds s refl)

  -- `meta_write` and `meta_erase` return, on hardware whose clock runs and with a round for their loop for
  -- each microsecond of the timeout and a thousand more. Where they succeed (also where the hardware reports
  -- an error with the code 0, which is META_OK), the cache has what was written,
  -- or is cleared, and where they fail, the drive's state is as it was.
  pub meta_write-erase_cache :
      (fuel drive : ℕ) (m : Metadata) (s : Meta H)
      → 10001000 < fuel
      → Ended
          (λ _ s'. meta_at s' drive ≡ record (meta_at s drive) { cache = m })
          (λ s'. meta_at s' drive ≡ meta_at s drive)
          (meta_write hw fuel drive (some m) s)
        × Ended
            (λ _ s'. meta_at s' drive ≡ record (meta_at s drive) { cache = no_metadata })
            (λ s'. meta_at s' drive ≡ meta_at s drive)
            (meta_erase hw fuel drive s)
  meta_write-erase_cache fuel drive m s l = (
    Post-Ended _ _ _ (meta_write-Ends hw now law fuel drive (some m) l s)
        ((meta_write-Triple hw drive (meta_at s drive) fuel m).holds s refl),
    Post-Ended _ _ _ (meta_erase-Ends hw now law fuel drive l s)
        ((meta_erase-Triple hw drive (meta_at s drive) fuel).holds s refl),
  )
