-- ===== src/Act/Triples.antt =====
-- What holds where a function of the firmware returns: its end, a value or an error, and the state.
use flux_ripper.Base.{
  ℕ, zero, suc, ◌≡◌, ◌≢◌, refl, ◌%◌, ◌+◌, ◌-◌, ◌^◌, Bool, true, false, ltb, if◌then◌else◌, Option,
  none, some,
}
use flux_ripper.Wait.{Clock, Verdict, undecided, settled, wait_from, wait}
use flux_ripper.Act.{
  Act, Outcome, returns, fails, pure, fail, check, modify, step, resume, ◌>>=◌, ◌>>◌,
}

module _ {E S A : Type 0} where
  -- `Q` after a value, `R` after an error; a loop that is out of fuel says nothing.
  unfoldable pub Post : (A → S → Type 0) → (S → Type 0) → Option (Outcome E A × S) → Type 0
  Post Q R none = Unit {0}
  Post Q R (some (returns a, s)) = Q a s
  Post Q R (some (fails e, s)) = R s

  -- The same of a function that does return.
  unfoldable pub Ended : (A → S → Type 0) → (S → Type 0) → Option (Outcome E A × S) → Type 0
  Ended Q R none = ⊥
  Ended Q R (some (returns a, s)) = Q a s
  Ended Q R (some (fails e, s)) = R s

  pub Post-Ended :
      (Q : A → S → Type 0) (R : S → Type 0) (r : Option (Outcome E A × S))
      → r ≢ none
      → Post Q R r
      → Ended Q R r
  unfolding Post Ended
  Post-Ended Q R none n p = n refl
  Post-Ended Q R (some (returns a, s)) n p = p
  Post-Ended Q R (some (fails e, s)) n p = p

  -- `P` before.
  pub record Triple (P : S → Type 0) (m : Act E S A) (Q : A → S → Type 0) (R : S → Type 0)
      : Type 0 where
    pub holds : (s : S) → P s → Post Q R (m s)

module _ {E S : Type 0} where
  resume-Post :
      {A B : Type 0} (Q : A → S → Type 0) (T : B → S → Type 0) (R : S → Type 0)
      (r : Option (Outcome E A × S)) (f : A → Act E S B)
      → Post Q R r
      → ((a : A) → Triple (Q a) (f a) T R)
      → Post T R (resume r f)
  unfolding Post resume
  resume-Post Q T R none f p q = tt
  resume-Post Q T R (some (returns a, s)) f p q = (q a).holds s p
  resume-Post Q T R (some (fails e, s)) f p q = p

  pub bind-Triple :
      {A B : Type 0} {P : S → Type 0} (Q : A → S → Type 0) {T : B → S → Type 0} {R : S → Type 0}
      {m : Act E S A} {f : A → Act E S B}
      → Triple P m Q R
      → ((a : A) → Triple (Q a) (f a) T R)
      → Triple P (m >>= f) T R
  bind-Triple Q {T = T} {R = R} {m = m} {f = f} p q = record {
    holds = λ s h. resume-Post Q T R (m s) f (p.holds s h) q;
  }

  -- Two statements, the first without a value, with the same condition between them as before.
  infixr 5 ◌>>-keeps◌
  pub ◌>>-keeps◌ :
      {B : Type 0} {P : S → Type 0} {T : B → S → Type 0} {R : S → Type 0} {m : Act E S (Unit {0})}
      {k : Act E S B}
      → Triple P m (λ _. P) R
      → Triple P k T R
      → Triple P (m >> k) T R
  ◌>>-keeps◌ {P = P} p q = bind-Triple (λ _. P) p (λ _. q)

  if_Post :
      {A : Type 0} (Q : A → S → Type 0) (R : S → Type 0) (b : Bool) (r t : Option (Outcome E A × S))
      → (b ≡ true → Post Q R r)
      → (b ≡ false → Post Q R t)
      → Post Q R (if b then r else t)
  if_Post Q R true r t p q = p refl
  if_Post Q R false r t p q = q refl

  pub if-Triple :
      {A : Type 0} {P : S → Type 0} {Q : A → S → Type 0} {R : S → Type 0} (b : S → Bool)
      (m k : Act E S A)
      → Triple (λ s. P s × (b s ≡ true)) m Q R
      → Triple (λ s. P s × (b s ≡ false)) k Q R
      → Triple P (λ s. if b s then m s else k s) Q R
  if-Triple {Q = Q} {R = R} b m k p q = record {
    holds = λ s h. if_Post Q R (b s) (m s) (k s) (λ e. p.holds s (h, e)) (λ e. q.holds s (h, e));
  }

  -- A condition that is not needed.
  pub weaken_left :
      {A : Type 0} {P P' : S → Type 0} {m : Act E S A} {Q : A → S → Type 0} {R : S → Type 0}
      → Triple P m Q R
      → Triple (λ s. P s × P' s) m Q R
  weaken_left p = record { holds = λ s (h, _). p.holds s h }

  widen-Post :
      {A : Type 0} (Q Q' : A → S → Type 0) (R R' : S → Type 0) (r : Option (Outcome E A × S))
      → ((a : A) (s : S) → Q a s → Q' a s)
      → ((s : S) → R s → R' s)
      → Post Q R r
      → Post Q' R' r
  unfolding Post
  widen-Post Q Q' R R' none f g p = tt
  widen-Post Q Q' R R' (some (returns a, s)) f g p = f a s p
  widen-Post Q Q' R R' (some (fails e, s)) f g p = g s p

  pub widen :
      {A : Type 0} {P : S → Type 0} {m : Act E S A} {Q Q' : A → S → Type 0} {R R' : S → Type 0}
      → ((a : A) (s : S) → Q a s → Q' a s)
      → ((s : S) → R s → R' s)
      → Triple P m Q R
      → Triple P m Q' R'
  widen {m = m} {Q = Q} {Q' = Q'} {R = R} {R' = R'} f g p = record {
    holds = λ s h. widen-Post Q Q' R R' (m s) f g (p.holds s h);
  }

  -- A condition that holds of something.
  pub exists-Triple :
      {A X : Type 0} {P : X → S → Type 0} {m : Act E S A} {Q : A → S → Type 0} {R : S → Type 0}
      → ((x : X) → Triple (P x) m Q R)
      → Triple (λ s. (x : X) × P x s) m Q R
  exists-Triple p = record { holds = λ s (x, h). (p x).holds s h }

  -- A fact that is not about the state.
  pub frame :
      {A : Type 0} (F : Type 0) {P : S → Type 0} {m : Act E S A} {Q : A → S → Type 0}
      {R : S → Type 0}
      → Triple P m Q R
      → Triple (λ s. P s × F) m (λ a s. Q a s × F) R
  frame F {R = R} p = record {
    holds = λ s (h, f). (widen (λ a s q. (q, f)) (λ s r. r) p).holds s h;
  }

  pub check-Triple :
      {P : S → Type 0} {R : S → Type 0} (b : Bool) (e : E)
      → ((s : S) → P s → R s)
      → Triple P (check b e) (λ _. P) R
  unfolding Post
  check-Triple b e q = record { holds = λ s h. if_Post _ _ b _ _ (λ _. h) (λ _. q s h) }

  -- With what was tested.
  pub tested-Triple :
      {P : S → Type 0} {R : S → Type 0} (b : Bool) (e : E)
      → ((s : S) → P s → R s)
      → Triple P (check b e) (λ _ s. P s × (b ≡ true)) R
  unfolding Post
  tested-Triple b e q = record { holds = λ s h. if_Post _ _ b _ _ (λ t. (h, t)) (λ _. q s h) }

  pub fail-Triple :
      {A : Type 0} {P : S → Type 0} {Q : A → S → Type 0} {R : S → Type 0} (e : E)
      → ((s : S) → P s → R s)
      → Triple P (fail e) Q R
  unfolding Post
  fail-Triple e q = record { holds = q }

  -- However a function ends.
  pub ends-Post :
      {A : Type 0} (Q : A → S → Type 0) (R : S → Type 0) (o : Outcome E A) (s : S)
      → ((a : A) → Q a s)
      → R s
      → Post Q R (some (o, s))
  unfolding Post
  ends-Post Q R (returns a) s q r = q a
  ends-Post Q R (fails e) s q r = r

  pub pure-Triple :
      {A : Type 0} {P : S → Type 0} {Q : A → S → Type 0} {R : S → Type 0} (a : A)
      → ((s : S) → P s → Q a s)
      → Triple {E = E} P (pure a) Q R
  unfolding Post
  pure-Triple a q = record { holds = q }

  pub step-Triple :
      {A : Type 0} {P : S → Type 0} {Q : A → S → Type 0} {R : S → Type 0} (f : S → A × S)
      → ((s : S) → P s → Q (f s).0 (f s).1)
      → Triple {E = E} P (step f) Q R
  unfolding Post
  step-Triple f q = record { holds = q }

  pub modify-Triple :
      {P : S → Type 0} {Q : S → Type 0} {R : S → Type 0} (f : S → S)
      → ((s : S) → P s → Q (f s))
      → Triple {E = E} P (modify f) (λ _. Q) R
  unfolding Post
  modify-Triple f q = record { holds = q }

  -- The loops of `Wait` keep what the clock and a round keep.
  module _ {A : Type 0} (P : S → Type 0) (Q : A → S → Type 0) (R : S → Type 0) (clock : Clock S)
      (look : S → Verdict (Outcome E A) × S) (late : Outcome E A)
      (reads : (s : S) → P s → P (clock.get_time_ms s).1)
      (delays : (n : ℕ) (s : S) → P s → P (clock.delay_ms n s))
      (looks : (s : S) → P s → P (look s).1)
      (finds : (o : Outcome E A) (s : S) → P s → Post {E = E} Q R (some (o, s))) where
    wait_from-Post :
        (timeout pause start fuel : ℕ) (s : S)
        → P s
        → Post Q R (wait_from clock look late timeout pause start fuel s)
    unfolding Post wait_from
    wait_from-Post timeout pause start zero s p = tt
    wait_from-Post timeout pause start (suc fuel) s p =
        let s1 = (clock.get_time_ms s).1 in
        let s2 = (look s1).1 in
        let p2 = looks s1 (reads s p) in
        let rest =
          wait_from-Post timeout pause start fuel (clock.delay_ms pause s2) (delays pause s2 p2) in
        let next = wait_from clock look late timeout pause start fuel (clock.delay_ms pause s2) in
        if_Post Q R (ltb (((clock.get_time_ms s).0 + 2 ^ 32 - start) % 2 ^ 32) timeout)
          (elim ((look s1).0) [ undecided ↦ next | settled o ↦ some (o, s2) ]) (some (late, s1))
          (λ _. settle (look s1).0 s2 next p2 rest) (λ _. finds late s1 (reads s p))
      where
        settle :
            (v : Verdict (Outcome E A)) (s2 : S) (r : Option (Outcome E A × S))
            → P s2
            → Post Q R r
            → Post Q R (elim v [ undecided ↦ r | settled o ↦ some (o, s2) ])
        settle undecided s2 r p q = q
        settle (settled o) s2 r p q = finds o s2 p

    pub wait-Triple :
        (timeout pause fuel : ℕ) → Triple P (wait clock look late timeout pause fuel) Q R
    unfolding wait
    wait-Triple timeout pause fuel = record {
      holds = λ s p. wait_from-Post timeout pause _ fuel (clock.get_time_ms s).1 (reads s p);
    }
