-- ===== src/Text/Search.antt =====
-- Searching and cutting: `HasPrefix`, `Contains`, `Cut`, `Split`, `LastIndex`, `TrimSpace`, `Join`.
use lstk.Prelude.{
  ◌-◌, length, leb, drop, ℕ, ◌≡◌, refl, Bool, true, false, ◌&&◌, ◌||◌, Option, none, some, List, [],
  ◌∷◌, ◌++◌, arith, ◌==◌, nat_eq, any, if◌then◌else◌,
}
use lstk.Text.Basic.{Text, is_space, text_beq}

-- `strings.HasPrefix(s, p)`
unfoldable pub has_prefix : Text → Text → Bool
has_prefix s [] = true
has_prefix [] (d ∷ p) = false
has_prefix (c ∷ s) (d ∷ p) = c == d && has_prefix s p

-- `strings.Contains(s, sub)`
unfoldable pub contains : Text → Text → Bool
unfolding has_prefix
contains [] sub = has_prefix [] sub
contains (c ∷ s) sub = has_prefix (c ∷ s) sub || contains s sub

-- `strings.ContainsAny(s, chars)`
abbrev pub contains_char : Text → ℕ → Bool
contains_char s c = any (λ x. x == c) s

abbrev pub contains_any : Text → Text → Bool
contains_any s chars = any (λ c. contains_char chars c) s

-- `strings.Cut(s, sep)` at a one-character separator; `none` if it is absent.
unfoldable pub cut : Text → ℕ → Option (Text × Text)
cut [] sep = none
cut (c ∷ s) sep =
    if c == sep
    then some ([], s)
    else elim (cut s sep) [ none ↦ none | some (before, after) ↦ some (c ∷ before, after) ]

-- The text before the first occurrence of `sub` (the first result of `strings.Cut`).
unfoldable pub before_sub : Text → Text → Text
unfolding has_prefix
before_sub [] sub = []
before_sub (c ∷ s) sub =
    let rest = before_sub s sub in if has_prefix (c ∷ s) sub then [] else c ∷ rest

-- The text on both sides of the last occurrence (`strings.LastIndex` and two slices).
unfoldable pub cut_last : Text → ℕ → Option (Text × Text)
cut_last [] sep = none
cut_last (c ∷ s) sep = elim (cut_last s sep) [
  | some (before, after) ↦ some (c ∷ before, after)
  | none ↦ if c == sep then some ([], s) else none
]

abbrev pub cons_head : ℕ → List Text → List Text
cons_head c [] = (c ∷ []) ∷ []
cons_head c (p ∷ ps) = (c ∷ p) ∷ ps

-- `strings.Split(s, sep)` at a one-character separator.
unfoldable pub split : Text → ℕ → List Text
split [] sep = [] ∷ []
split (c ∷ s) sep = let rest = split s sep in if c == sep then [] ∷ rest else cons_head c rest

-- `strings.Join(parts, sep)`
unfoldable pub join : List Text → Text → Text
join [] sep = []
join (p ∷ []) sep = p
join (p ∷ q ∷ ps) sep = p ++ (sep ++ join (q ∷ ps) sep)

-- `strings.TrimLeft` and `strings.TrimRight` of the characters that pass a test.
unfoldable pub trim_left : (ℕ → Bool) → Text → Text
trim_left p [] = []
trim_left p (c ∷ s) = let rest = trim_left p s in if p c then rest else c ∷ s

unfoldable pub trim_right : (ℕ → Bool) → Text → Text
trim_right p [] = []
trim_right p (c ∷ s) = elim (trim_right p s) [ [] ↦ if p c then [] else c ∷ [] | d ∷ t ↦ c ∷ d ∷ t ]

unfoldable pub trim_space : Text → Text
unfolding trim_left trim_right is_space
trim_space s = trim_right is_space (trim_left is_space s)

pub has_prefix-append : (p s : Text) → has_prefix (p ++ s) p ≡ true
unfolding has_prefix
has_prefix-append [] s = refl
has_prefix-append (c ∷ p) s = ground (arith, has_prefix-append p s)

-- No separator, no cut.
pub cut-absent : (s : Text) (sep : ℕ) → contains_char s sep ≡ false → cut s sep ≡ none
unfolding cut
cut-absent [] sep h = refl
cut-absent (c ∷ s) sep h = ground (arith, cut-absent s sep)

pub cut-append :
    (s t : Text) (sep : ℕ) → contains_char s sep ≡ false → cut (s ++ sep ∷ t) sep ≡ some (s, t)
unfolding cut
cut-append [] t sep h = ground arith
cut-append (c ∷ s) t sep h = ground (arith, cut-append s t sep)

pub cut_last-absent : (s : Text) (sep : ℕ) → contains_char s sep ≡ false → cut_last s sep ≡ none
unfolding cut_last
cut_last-absent [] sep h = refl
cut_last-absent (c ∷ s) sep h = ground (arith, cut_last-absent s sep)

pub cut_last-append :
    (s t : Text) (sep : ℕ) → contains_char t sep ≡ false → cut_last (s ++ sep ∷ t) sep ≡ some (s, t)
unfolding cut_last
cut_last-append [] t sep h = ground (arith, cut_last-absent t sep)
cut_last-append (c ∷ s) t sep h = ground (arith, cut_last-append s t sep)

-- `strings.Index(s, sub)` and the text on both sides of that occurrence.
abbrev skip_char : ℕ → Option (Text × Text) → Option (Text × Text)
skip_char c none = none
skip_char c (some (before, after)) = some (c ∷ before, after)

unfoldable pub cut_sub : Text → Text → Option (Text × Text)
unfolding has_prefix
cut_sub [] sub = if has_prefix [] sub then some ([], []) else none
cut_sub (c ∷ s) sub =
    let rest = cut_sub s sub in
    if has_prefix (c ∷ s) sub then some ([], drop (length sub) (c ∷ s)) else skip_char c rest

-- `strings.HasSuffix(s, p)`
unfoldable pub has_suffix : Text → Text → Bool
has_suffix s p = leb (length p) (length s) && text_beq (drop (length s - length p) s) p
