-- ===== src/Hdd/Read/Placed.antt =====
-- The reads of soc/firmware/src/hdd_hal.c, statement by statement: what they store and where they leave the
-- drive.
use flux_ripper.Base.{
  ℕ, ◌/◌, ◌^◌, ◌≡◌, refl, sym, ap, ◌∙◌, subst, arith, Bool, true, any_bit, ◌==◌, List, ◌++◌,
}
use flux_ripper.Act.{returns, pure}
use flux_ripper.Act.Triples.{
  Triple, weaken_left, bind-Triple, ◌>>-keeps◌, if-Triple, check-Triple, pure-Triple, modify-Triple,
  step-Triple, tested-Triple, wait-Triple, ends-Post,
}
use flux_ripper.Hdd.Device.{HddReg, status_of, HddIo}
use flux_ripper.Hdd.State.{Profile, Hdd, drive_at}
use flux_ripper.Hdd.Address.{Place}
use flux_ripper.Hdd.Seek.{
  judge_seek, hdd_clock, read, read_reg, write_reg, put_cylinder, wait_seek_done, select_drive,
  seek, select_head,
}
use flux_ripper.Hdd.Read.{
  size_of, judge_data, select_if, seek_if, wait_data, copy_words, read_sector,
}
use flux_ripper.Hdd.Framing.{init-Triple, enter-Triple, write-Triple, read-Triple, poll-Triple}
use flux_ripper.Hdd.Read.Stored.{
  words_of, take_words, length-take_words, copy_words-take_words, Waited, at_once, timed, delayed,
  looked, select, ask, IsSector, IsReading, IsAt, put_drive_leaves, put_drive-IsReading,
}

module _ {H : Type 0} (hw : HddIo H) (drive : ℕ) (prof : Profile) (xs : List ℕ) where
  -- What is as before, `xs` being stored.
  abbrev Same : Hdd H → Type 0
  Same = IsReading drive prof xs

  abbrev Selected : Hdd H → Type 0
  Selected s = Same s × (s.active_drive ≡ drive)

  abbrev Sought : ℕ → Hdd H → Type 0
  Sought c s = Same s × (s.active_drive ≡ drive) × ((drive_at s drive).current_cylinder ≡ c)

  abbrev pub Placed : Place → Hdd H → Type 0
  Placed p s = Same s × IsAt drive p s

  Same-io : (h : H) (s : Hdd H) → Same s → Same (record s { io = h })
  Same-io h s r = record { started = r.started; keeps = r.keeps; stores = r.stores }

  Selected-io : (h : H) (s : Hdd H) → Selected s → Selected (record s { io = h })
  Selected-io h s (r, e) = (Same-io h s r, e)

  Placed-io : (p : Place) (h : H) (s : Hdd H) → Placed p s → Placed p (record s { io = h })
  Placed-io p h s (r, a) = (
    Same-io h s r,
    record { selected = a.selected; at_cylinder = a.at_cylinder; at_head = a.at_head },
  )

  select-Triple : Triple Same (select_drive hw drive) (λ _. Selected) Same
  unfolding select_drive
  select-Triple =
      enter-Triple hw Same Same Same-io (λ _ r. r) drive
      >>-keeps bind-Triple (λ _. Same) (read-Triple hw Same Same Same-io (λ _ r. r) HddReg.ctrl)
          λ _.
            write-Triple hw Same Same Same-io (λ _ r. r) HddReg.ctrl _
            >>-keeps modify-Triple _
                λ s r. (record { started = r.started; keeps = r.keeps; stores = r.stores }, refl)

  select_if-Triple : Triple Same (select_if hw drive) (λ _. Selected) Same
  select_if-Triple =
      if-Triple (λ s. s.active_drive == drive) (pure tt) (select_drive hw drive)
        (pure-Triple tt λ s (r, e). (r, ground arith)) (weaken_left select-Triple)

  seek-Triple : (fuel c : ℕ) → Triple Selected (seek hw fuel drive c) (λ _. Sought c) Same
  unfolding seek wait_seek_done
  seek-Triple fuel c =
      enter-Triple hw Selected Same Selected-io (λ _ r. r.0) drive
      >>-keeps bind-Triple (λ _. Selected)
          (read-Triple hw Selected Same Selected-io (λ _ r. r.0) (status_of drive))
          λ _.
            check-Triple _ _ (λ _ r. r.0)
            >>-keeps write-Triple hw Selected Same Selected-io (λ _ r. r.0) _ _
            >>-keeps write-Triple hw Selected Same Selected-io (λ _ r. r.0) _ _
            >>-keeps poll-Triple hw Selected Same Selected-io (λ _ r. r.0) (status_of drive)
                judge_seek _ 5000 1 fuel
            >>-keeps modify-Triple (put_cylinder drive c) λ s (r, e). seeks c s r e
    where
      seeks :
          (c : ℕ) (s : Hdd H) → Same s → s.active_drive ≡ drive → Sought c (put_cylinder drive c s)
      seeks c s r e =
          let d = record (drive_at s drive) { current_cylinder = c } in
          let leaves = put_drive_leaves drive d s in
          (
            put_drive-IsReading drive prof xs d s refl r,
            leaves.3 ∙ e,
            ap (λ x. x.current_cylinder) leaves.1,
          )

  seek_if-Triple : (fuel c : ℕ) → Triple Selected (seek_if hw fuel drive c) (λ _. Sought c) Same
  seek_if-Triple fuel c =
      if-Triple (λ s. (drive_at s drive).current_cylinder == c) (pure tt) (seek hw fuel drive c)
        (pure-Triple tt λ s (r, e). (r.0, r.1, ground arith)) (weaken_left (seek-Triple fuel c))

  Sought-io : (c : ℕ) (h : H) (s : Hdd H) → Sought c s → Sought c (record s { io = h })
  Sought-io c h s (r, e, e') = (Same-io h s r, e, e')

  -- The head was selected on the hardware too, and the sector was asked for and waited for.
  abbrev Headed : Place → Hdd H → Type 0
  Headed p s = Placed p s × (h : H) × (s.io ≡ select hw drive p h)

  abbrev Asked : Place → Hdd H → Type 0
  Asked p s = Placed p s × (h : H) × Waited hw (ask hw drive p h) (s.io)

  abbrev Looked : Place → ℕ → Hdd H → Type 0
  Looked p status s =
      Placed p s
      × (h : H) × (a : H) × Waited hw (ask hw drive p h) a
      × (status ≡ (hw.read_reg HddReg.sector_status a).0)
      × (s.io ≡ (hw.read_reg HddReg.sector_status a).1)

  -- A sector was read and stored.
  abbrev pub Got : Place → Hdd H → Type 0
  Got p s =
      (x : (ws : List ℕ) × IsSector hw drive p (words_of prof) ws) × IsReading drive prof
        (xs ++ x.0) s
      × IsAt drive p s

  head-Triple :
      (p : Place) → Triple (Sought p.cylinder) (select_head hw drive p.head) (λ _. Headed p) Same
  unfolding select_head
  head-Triple p =
      init-Triple hw (Sought (p.cylinder)) Same (Sought-io (p.cylinder)) (λ _ r. r.0)
      >>-keeps check-Triple _ _ (λ _ r. r.0)
      >>-keeps bind-Triple (λ _ s. Sought (p.cylinder) s × (h : H) × (s.io ≡ select hw drive p h))
          (modify-Triple _ λ s r. (Sought-io (p.cylinder) _ s r, s.io, refl))
          λ _. modify-Triple _ λ s ((r, e, c), h, i).
            let d = record (drive_at s drive) { current_head = p.head } in
            let leaves = put_drive_leaves drive d s in
            (
              (
                put_drive-IsReading drive prof xs d s refl r,
                record {
                  selected = leaves.3 ∙ e;
                  at_cylinder = ap (λ x. x.current_cylinder) leaves.1 ∙ c;
                  at_head = ap (λ x. x.current_head) leaves.1;
                },
              ),
              h,
              leaves.4 ∙ i,
            )

  abbrev Addressed : Place → Hdd H → Type 0
  Addressed p s =
      Placed p s
      × (h : H) × (s.io ≡ hw.write_reg HddReg.sector_addr (p.sector) (select hw drive p h))

  address-Triple :
      (p : Place)
      → Triple (Headed p) (write_reg hw HddReg.sector_addr p.sector) (λ _. Addressed p) Same
  address-Triple p =
      modify-Triple _
        λ s (r, h, i). (Placed-io p _ s r, h, ap (hw.write_reg HddReg.sector_addr (p.sector)) i)

  ask-Triple :
      (p : Place)
      → Triple (Addressed p) (write_reg hw HddReg.sector_ctrl (2 ^ 0)) (λ _. Asked p) Same
  ask-Triple p = modify-Triple _ λ s (r, h, i). (
    Placed-io p _ s r,
    h,
    subst (λ k. Waited hw (ask hw drive p h) k) (sym (ap (hw.write_reg HddReg.sector_ctrl 1) i))
        at_once,
  )

  wait-Asked : (p : Place) (fuel : ℕ) → Triple (Asked p) (wait_data hw fuel) (λ _. Asked p) Same
  unfolding wait_data
  wait-Asked p fuel =
      wait-Triple (Asked p) (λ _. Asked p) Same (hdd_clock hw)
        (λ s. let (v, s') = read hw HddReg.sector_status s in (judge_data v, s')) (returns tt)
        (λ s (r, h, w). (Placed-io p _ s r, h, timed _ w))
        (λ n s (r, h, w). (Placed-io p _ s r, h, delayed n _ w))
        (λ s (r, h, w). (Placed-io p _ s r, h, looked _ w))
        (λ o s q. ends-Post (λ _. Asked p) Same o s (λ _. q) q.0.0) 1000 1 fuel

  look-Triple : (p : Place) → Triple (Asked p) (read_reg hw HddReg.sector_status) (Looked p) Same
  look-Triple p = step-Triple _ λ s (r, h, w). (Placed-io p _ s r, h, s.io, w, refl, refl)

  -- The words of the sector are stored.
  copies :
      (p : Place) (status : ℕ) (s : Hdd H)
      → Looked p status s
      → any_bit status (2 ^ 1) ≡ true
      → Got p (copy_words hw (size_of drive s / 4) s)
  copies p status s ((r, at), h, a, w, v, i) e =
      let n = size_of drive s / 4 in
      let size : n ≡ words_of prof = ap words_of r.keeps in
      let ws = (take_words hw (words_of prof) (s.io)).0 in
      let sector : IsSector hw drive p (words_of prof) ws = record {
        before = h;
        ready = a;
        waited = w;
        shown = subst (λ x. any_bit x (2 ^ 1) ≡ true) v e;
        taken = ap (λ x. (take_words hw (words_of prof) x).0) i;
        size = length-take_words hw (words_of prof) (s.io);
      } in
      let t : Hdd H = record s {
        io = (take_words hw (words_of prof) (s.io)).1;
        stored = s.stored ++ ws;
      } in
      let copied : copy_words hw n s ≡ t =
        ap (λ k. copy_words hw k s) size ∙ copy_words-take_words hw (words_of prof) s in
      subst (Got p) (sym copied) (
        (ws, sector),
        record { started = r.started; keeps = r.keeps; stores = ap (λ l. l ++ ws) r.stores },
        record { selected = at.selected; at_cylinder = at.at_cylinder; at_head = at.at_head },
      )

  -- A sector is read: its words are stored, and the heads are at its place. An error stores nothing.
  pub read_sector-Triple :
      (fuel : ℕ) (p : Place) (b : Bool)
      → Triple Same (read_sector hw fuel drive p b) (λ _. Got p) Same
  unfolding read_sector
  read_sector-Triple fuel p b =
      init-Triple hw Same Same Same-io (λ _ r. r)
      >>-keeps check-Triple _ _ (λ _ r. r)
      >>-keeps bind-Triple (λ _. Selected) select_if-Triple
          λ _.
            bind-Triple (λ _. Sought (p.cylinder)) (seek_if-Triple fuel (p.cylinder))
              λ _.
                bind-Triple (λ _. Headed p) (head-Triple p)
                  λ _.
                    bind-Triple (λ _. Addressed p) (address-Triple p)
                      λ _.
                        bind-Triple (λ _. Asked p) (ask-Triple p)
                          λ _.
                            bind-Triple (λ _. Asked p) (wait-Asked p fuel)
                              λ _. bind-Triple (Looked p) (look-Triple p) λ v.
                                bind-Triple (λ _ s. Looked p v s × (any_bit v (2 ^ 1) ≡ true))
                                  (tested-Triple _ _ (λ _ q. q.0.0))
                                  λ _. modify-Triple _ λ s (q, e). copies p v s q e
