-- ===== src/Container/Actions/Outcomes.antt =====
-- internal/container: what holds of the state behind a call, by its result.
use lstk.Prelude.{if◌then◌else◌, Result, ok, err, if-cases, Bool, ◌≡◌, true, false}
use lstk.Container.Actions.{follow, Action}

-- `P` is what a success guarantees, `Q` what a failure does.
pub data Ends {E S A : Type 0} (P : A → S → Type 0) (Q : E → S → Type 0)
    : Result E A × S → Type 0 where
  returns : (a : A) (s : S) → P a s → Ends P Q (ok a, s)
  fails : (e : E) (s : S) → Q e s → Ends P Q (err e, s)

module _ {E S : Type 0} where
  -- The rule for a call and what follows it.
  pub follow-Ends :
      {A B : Type 0} {P : A → S → Type 0} {R : B → S → Type 0} {Q : E → S → Type 0}
      (f : A → Action E S B) (r : Result E A × S)
      → Ends P Q r
      → ((a : A) (s : S) → P a s → Ends R Q (f a s))
      → Ends R Q (follow f r)
  follow-Ends f (ok a, s) (returns _ _ p) next = next a s p
  follow-Ends f (err e, s) (fails _ _ q) next = fails e s q

  -- A weaker guarantee.
  pub weaken :
      {A : Type 0} {P R : A → S → Type 0} {Q T : E → S → Type 0} (r : Result E A × S)
      → Ends P Q r
      → ((a : A) (s : S) → P a s → R a s)
      → ((e : E) (s : S) → Q e s → T e s)
      → Ends R T r
  weaken (ok a, s) (returns _ _ p) good bad = returns a s (good a s p)
  weaken (err e, s) (fails _ _ q) good bad = fails e s (bad e s q)

  -- The rule for two branches.
  pub if-Ends :
      {A : Type 0} {P : A → S → Type 0} {Q : E → S → Type 0} (b : Bool) (x y : Action E S A) (s : S)
      → (b ≡ true → Ends P Q (x s))
      → (b ≡ false → Ends P Q (y s))
      → Ends P Q ((if b then x else y) s)
  if-Ends {P = P} {Q = Q} b x y s on off = if-cases (λ (m : Action _ _ _). Ends P Q (m s)) b on off
