-- ===== src/Act.antt =====
-- Functions of the firmware that return a status code, over their state `S`: a statement goes on with a
-- value or returns from the function early with a code, and `none` means that the fuel of a loop ran out.

pub mod Triples
use flux_ripper.Base.{ℕ, arith, refl, ◌≢◌, Bool, true, false, if◌then◌else◌, Option, none, some}

pub data Outcome {ℓ} (E : Type 0) (A : Type ℓ) : Type ℓ where
  returns : A → Outcome E A
  fails : E → Outcome E A

abbrev pub Act : Type 0 → Type 0 → Type 0 → Type 0
Act E S A = S → Option (Outcome E A × S)

module _ {E S : Type 0} where
  abbrev pub pure : {A : Type 0} → A → Act E S A
  pure a s = some (returns a, s)

  -- `return code;`
  abbrev pub fail : {A : Type 0} → E → Act E S A
  fail e s = some (fails e, s)

  -- `if (!b) return code;`
  abbrev pub check : Bool → E → Act E S (Unit {0})
  check b e s = if b then some (returns tt, s) else some (fails e, s)

  abbrev pub gets : {A : Type 0} → (S → A) → Act E S A
  gets f s = some (returns (f s), s)

  abbrev pub modify : (S → S) → Act E S (Unit {0})
  modify f s = some (returns tt, f s)

  -- A step of the state that yields a value.
  abbrev pub step : {A : Type 0} → (S → A × S) → Act E S A
  step f s = let (a, s') = f s in some (returns a, s')

  -- What follows a statement.
  unfoldable pub resume :
      {A B : Type 0} → Option (Outcome E A × S) → (A → Act E S B) → Option (Outcome E B × S)
  resume none f = none
  resume (some (returns a, s)) f = f a s
  resume (some (fails e, s)) f = some (fails e, s)

  infixl 5 ◌>>=◌ ◌>>◌
  abbrev pub ◌>>=◌ : {A B : Type 0} → Act E S A → (A → Act E S B) → Act E S B
  (m >>= f) s = resume (m s) f

  abbrev pub ◌>>◌ : {B : Type 0} → Act E S (Unit {0}) → Act E S B → Act E S B
  m >> k = m >>= λ _. k

  -- The function returns, from whatever state.
  abbrev pub Ends : {A : Type 0} → Act E S A → Type 0
  Ends m = (s : S) → m s ≢ none

  resume-Ends :
      {A B : Type 0} (r : Option (Outcome E A × S)) (f : A → Act E S B)
      → r ≢ none
      → ((a : A) → Ends (f a))
      → resume r f ≢ none
  unfolding resume
  resume-Ends none f n q = absurd (n refl)
  resume-Ends (some (returns a, s)) f n q = q a s
  resume-Ends (some (fails e, s)) f n q = ground arith

  pub bind-Ends :
      {A B : Type 0} {m : Act E S A} {f : A → Act E S B}
      → Ends m
      → ((a : A) → Ends (f a))
      → Ends (m >>= f)
  bind-Ends {m = m} {f = f} p q s = resume-Ends (m s) f (p s) q

  pub check-Ends : (b : Bool) (e : E) → Ends (check b e)
  check-Ends b e s = ground arith

  pub pure-Ends : {A : Type 0} (a : A) → Ends (pure a)
  pure-Ends a s = ground arith

  pub step-Ends : {A : Type 0} (f : S → A × S) → Ends (step f)
  step-Ends f s = ground arith

  pub gets-Ends : {A : Type 0} (f : S → A) → Ends (gets f)
  gets-Ends f s = ground arith

  pub modify-Ends : (f : S → S) → Ends (modify f)
  modify-Ends f s = ground arith

  pub fail-Ends : {A : Type 0} (e : E) → Ends {A = A} (fail e)
  fail-Ends e s = ground arith

  if_ends :
      {A : Type 0} (b : Bool) (r t : Option (Outcome E A × S))
      → r ≢ none
      → t ≢ none
      → (if b then r else t) ≢ none
  if_ends true r t p q = p
  if_ends false r t p q = q

  pub if-Ends :
      {A : Type 0} (b : S → Bool) (m k : Act E S A)
      → Ends m
      → Ends k
      → Ends (λ s. if b s then m s else k s)
  if-Ends b m k p q s = if_ends (b s) (m s) (k s) (p s) (q s)

  -- Two statements, the first without a value.
  infixr 5 ◌>>-ends◌
  pub ◌>>-ends◌ :
      {B : Type 0} {m : Act E S (Unit {0})} {k : Act E S B} → Ends m → Ends k → Ends (m >> k)
  p >>-ends q = bind-Ends p (λ _. q)
