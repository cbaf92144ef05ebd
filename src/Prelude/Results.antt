-- ===== src/Prelude/Results.antt =====
-- A Go function that returns a value or an error, and a chain of such calls.
use mathlib.Core.Path.{◌≡◌, refl}
use mathlib.Core.Bool.{Bool, true, false}

pub data Result {ℓ κ} (E : Type ℓ) (A : Type κ) : Type (ℓ ⊔ κ) where
  ok : A → Result E A
  err : E → Result E A

-- `if !passed { return nil, problem }`
abbrev pub guard {ε} : {E : Type ε} → Bool → E → Result E (Unit {0})
guard false problem = err problem
guard true problem = ok tt

-- The code behind a call and its `if err != nil { return nil, err }`.
abbrev pub ◌>>=◌ {ε κ μ} :
    {E : Type ε} {X : Type κ} {Y : Type μ} → Result E X → (X → Result E Y) → Result E Y
err problem >>= rest = err problem
ok x >>= rest = rest x

abbrev pub ◌>>◌ {ε μ} : {E : Type ε} {Y : Type μ} → Result E (Unit {0}) → Result E Y → Result E Y
checked >> rest = checked >>= λ done. rest

infixl 5 ◌>>◌ ◌>>=◌
-- Inversion of a chain that succeeded: so did its first call and what follows on the value.
pub >>=-eq-ok {ε κ μ} :
    {E : Type ε} {X : Type κ} {Y : Type μ} (call : Result E X) (rest : X → Result E Y) {y : Y}
    → (call >>= rest) ≡ ok y
    → (x : X) × (call ≡ ok x) × (rest x ≡ ok y)
>>=-eq-ok (err problem) rest h = cc
>>=-eq-ok (ok x) rest h = (x, refl, h)

pub guard-eq-ok {ℓ} : {E : Type ℓ} (b : Bool) (e : E) {u : Unit {0}} → guard b e ≡ ok u → b ≡ true
guard-eq-ok true e h = refl
guard-eq-ok false e h = cc

pub ok-injective {ℓ κ} :
    {E : Type ℓ} {A : Type κ} {a b : A} → ◌≡◌ {A = Result E A} (ok a) (ok b) → a ≡ b
ok-injective h = cc
