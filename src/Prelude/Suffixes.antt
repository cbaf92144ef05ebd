-- ===== src/Prelude/Suffixes.antt =====
-- The last elements of a list.
use Prim.Native.Nat.{ℕ, zero, suc, ◌+◌, ◌-◌, ◌≤◌, ◌<◌}
use mathlib.Core.Path.{◌≡◌, refl, ap, sym, ◌∙◌, subst}
use mathlib.Core.List.{List, [], ◌∷◌, ◌++◌, append_assoc}
use mathlib.Core.Logic.{◌⊎◌, inl, inr}
use lstk.Prelude.Lists.{length, take, drop, length-append, take-append-drop}
use native.Mathlib.Omega.{arith}

le_cases : (m n : ℕ) → (m ≤ n) ⊎ (n < m)
le_cases m n = omega arith

module _ {ℓ} {A : Type ℓ} where
  abbrev pub last : ℕ → List A → List A
  last n xs = drop (length xs - n) xs

  pub length-drop : (n : ℕ) (xs : List A) → length (drop n xs) ≡ length xs - n
  length-drop zero xs = omega arith
  length-drop (suc n) [] = omega arith
  length-drop (suc n) (x ∷ xs) = omega (arith, length-drop n xs)

  pub length-last : (n : ℕ) (xs : List A) → length (last n xs) ≤ n
  length-last n xs = omega (arith, length-drop (length xs - n) xs)

  drop-append_front : (xs ys : List A) (k n : ℕ) → k ≡ length xs + n → drop k (xs ++ ys) ≡ drop n ys
  drop-append_front [] ys k n h = subst (λ m. drop m ys ≡ drop n ys) {x = n} (omega (arith, h)) refl
  drop-append_front (x ∷ xs) ys zero n h = absurd (omega (arith, h))
  drop-append_front (x ∷ xs) ys (suc k) n h = drop-append_front xs ys k n (omega (arith, h))

  -- A suffix that is long enough decides what is last.
  pub last-append : (n : ℕ) (xs ys : List A) → n ≤ length ys → last n (xs ++ ys) ≡ last n ys
  last-append n xs ys h =
      drop-append_front xs ys (length (xs ++ ys) - n) (length ys - n)
        (omega (arith, h, length-append xs ys))

  pub last-short : (n : ℕ) (xs : List A) → length xs ≤ n → last n xs ≡ xs
  last-short n xs h = subst (λ k. drop k xs ≡ xs) {x = 0} (omega arith) refl

  -- Cutting first what is too old anyway changes nothing.
  pub last-last-append : (n : ℕ) (xs ys : List A) → last n (last n xs ++ ys) ≡ last n (xs ++ ys)
  last-last-append n xs ys = elim (le_cases (length xs) n) [
    | inl h ↦ ap (λ z. last n (z ++ ys)) (last-short n xs h)
    | inr h ↦ sym (
        ap (λ z. last n z)
          (ap (λ z. z ++ ys) (sym (take-append-drop (length xs - n) xs))
            ∙ append_assoc (take (length xs - n) xs) (last n xs) ys)
        ∙ last-append n (take (length xs - n) xs) (last n xs ++ ys)
            (omega (arith, length-append (last n xs) ys, length-drop (length xs - n) xs)))
  ]

  drop-append_within :
      (k j : ℕ) (xs ys : List A) → k ≡ j → k ≤ length xs → drop k (xs ++ ys) ≡ drop j xs ++ ys
  drop-append_within zero zero xs ys e h = refl
  drop-append_within zero (suc j) xs ys e h = absurd (omega (arith, e))
  drop-append_within (suc k) zero xs ys e h = absurd (omega (arith, e))
  drop-append_within (suc k) (suc j) [] ys e h = absurd (omega (arith, h))
  drop-append_within (suc k) (suc j) (x ∷ xs) ys e h =
      drop-append_within k j xs ys (omega (arith, e)) (omega (arith, h))

  -- What is last when a short list is appended.
  pub last-append_short :
      (n m : ℕ) (xs ys : List A) → n ≡ m + length ys → last n (xs ++ ys) ≡ last m xs ++ ys
  last-append_short n m xs ys e =
      drop-append_within (length (xs ++ ys) - n) (length xs - m) xs ys
        (omega (arith, e, length-append xs ys)) (omega (arith, e, length-append xs ys))
