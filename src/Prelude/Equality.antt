-- ===== src/Prelude/Equality.antt =====
-- Go's `==` on the values that the program compares.
use Prim.Native.Nat.{ℕ}
use mathlib.Core.Path.{◌≡◌}
use mathlib.Core.Logic.{◌↔◌}
use mathlib.Core.Bool.{Bool, true}
use lstk.Prelude.Tests.{nat_beq, nat_beq_iff}

-- A type whose values Go can compare.
pub record Comparable {κ} (X : Type κ) : Type κ where
  pub equals : X → X → Bool
  pub equals_iff : (x y : X) → (equals x y ≡ true) ↔ (x ≡ y)

instance abbrev pub nat_eq : Comparable ℕ
nat_eq = record { equals = nat_beq; equals_iff = nat_beq_iff }

abbrev pub ◌==◌ {κ} : {X : Type κ} ⦃c : Comparable X⦄ → X → X → Bool
◌==◌ ⦃c⦄ x y = c.equals x y

infix 50 ◌==◌
