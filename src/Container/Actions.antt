-- ===== src/Container/Actions.antt =====
-- internal/container: a Go function that works on the world outside, or fails. What it did before it
-- failed stays done.
pub mod Outcomes
use lstk.Prelude.{Option, some, none, Bool, if◌then◌else◌, Result, ok, err}

abbrev pub Action : Type 0 → Type 0 → Type 0 → Type 0
Action E S A = S → Result E A × S

module _ {E S : Type 0} where
  abbrev pub pure : {A : Type 0} → A → Action E S A
  pure a s = (ok a, s)

  abbrev pub fail : {A : Type 0} → E → Action E S A
  fail e s = (err e, s)

  -- What comes behind a call and its `if err != nil { return err }`.
  abbrev pub follow : {A B : Type 0} → (A → Action E S B) → Result E A × S → Result E B × S
  follow f (ok a, s) = f a s
  follow f (err e, s) = (err e, s)

  infixl 5 ◌>>=◌ ◌>>◌
  abbrev pub ◌>>=◌ : {A B : Type 0} → Action E S A → (A → Action E S B) → Action E S B
  ◌>>=◌ m f s = follow f (m s)

  abbrev pub ◌>>◌ : {A B : Type 0} → Action E S A → Action E S B → Action E S B
  m >> k = m >>= λ _. k

  -- A question to the world, and a change of it.
  abbrev pub gets : {A : Type 0} → (S → A) → Action E S A
  gets f s = (ok (f s), s)

  abbrev pub modify : (S → S) → Action E S (Unit {0})
  modify f s = (ok tt, f s)

  abbrev pub perform : {A : Type 0} → (S → A × S) → Action E S A
  perform f s = let (a, s') = f s in (ok a, s')

  -- `if err != nil` behind a call: of the world, where `none` stands for the error, and of a function
  -- that changes nothing.
  abbrev pub or_fail : {A : Type 0} → E → Option A → Action E S A
  or_fail e none = fail e
  or_fail e (some a) = pure a

  abbrev pub unless : Bool → E → Action E S (Unit {0})
  unless done e = if done then pure tt else fail e

  abbrev pub lift : {F A : Type 0} → (F → E) → Result F A → Action E S A
  lift f (ok a) = pure a
  lift f (err e) = fail (f e)
