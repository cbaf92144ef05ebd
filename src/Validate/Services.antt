-- ===== src/Validate/Services.antt =====
-- internal/validate/validate.go: what ServiceList returns.
use mathlib.Core.Path.{subst}
use lstk.Prelude.{
  if◌then◌else◌, Bool, inr, ◌==◌, inl, ◌⊎◌, ok, map, ℕ, ◌≡◌, refl, true, false, List, [], ◌∷◌,
  arith, nat_eq, all, All,
}
use lstk.Text.Basic.{Text, is_space}
use lstk.Text.Search.{split, cons_head, trim_right, trim_space}
use lstk.Validate.{
  service_list_matches, service_list, service_list_run, Phase, before, inside, behind, is_empty,
  regex_space, word_char,
}

-- A service name: one or more letters, digits, underscores and hyphens.
abbrev pub IsService : Text → Type 0
IsService s = (is_empty s ≡ false) × (all word_char s ≡ true)

word_char-space : (c : ℕ) → word_char c ≡ true → is_space c ≡ false
unfolding is_space word_char
word_char-space c h = ground arith

regex_space-space : (c : ℕ) → regex_space c ≡ true → is_space c ≡ true
unfolding is_space regex_space
regex_space-space c h = ground arith

trim_right-word :
    (c : ℕ) (s : Text)
    → is_space c ≡ false
    → trim_right is_space (c ∷ s) ≡ c ∷ trim_right is_space s
unfolding trim_right
trim_right-word c s h = ground arith

trim_right-space :
    (c : ℕ) (s : Text)
    → is_space c ≡ true
    → trim_right is_space s ≡ []
    → trim_right is_space (c ∷ s) ≡ []
unfolding trim_right
trim_right-space c s h e = rw (e, h)

-- What the first part of a split is, for a list that the automaton accepts from a state.
abbrev FirstPart : Phase → Text → Type 0
FirstPart before h = IsService (trim_space h)
FirstPart inside h = all word_char (trim_right is_space h) ≡ true
FirstPart behind h = trim_right is_space h ≡ []

abbrev Parts : Phase → List Text → Type 0
Parts phase [] = ⊥
Parts phase (h ∷ rest) = FirstPart phase h × All (λ p. IsService (trim_space p)) rest

before-space :
    (c : ℕ) (parts : List Text)
    → regex_space c ≡ true
    → Parts before parts
    → Parts before (cons_head c parts)
unfolding trim_space
before-space c [] e v = elim v [ ]
before-space c (h ∷ rest) e v = ground (arith, regex_space-space c)

before-word :
    (c : ℕ) (parts : List Text)
    → word_char c ≡ true
    → Parts inside parts
    → Parts before (cons_head c parts)
unfolding trim_space
before-word c [] e v = elim v [ ]
before-word c (h ∷ rest) e v = ground (arith, word_char-space c, trim_right-word c h)

inside-word :
    (c : ℕ) (parts : List Text)
    → word_char c ≡ true
    → Parts inside parts
    → Parts inside (cons_head c parts)
inside-word c [] e v = elim v [ ]
inside-word c (h ∷ rest) e v = ground (arith, word_char-space c, trim_right-word c h)

inside-space :
    (c : ℕ) (parts : List Text)
    → regex_space c ≡ true
    → Parts behind parts
    → Parts inside (cons_head c parts)
inside-space c [] e v = elim v [ ]
inside-space c (h ∷ rest) e v =
    let t : trim_right is_space (c ∷ h) ≡ [] = trim_right-space c h (regex_space-space c e) v.0 in
    (rw t, v.1)

behind-space :
    (c : ℕ) (parts : List Text)
    → regex_space c ≡ true
    → Parts behind parts
    → Parts behind (cons_head c parts)
behind-space c [] e v = elim v [ ]
behind-space c (h ∷ rest) e v = (trim_right-space c h (regex_space-space c e) v.0, v.1)

next-inside : (parts : List Text) → Parts before parts → Parts inside ([] ∷ parts)
unfolding trim_right
next-inside [] v = elim v [ ]
next-inside (h ∷ rest) v = (refl, v)

next-behind : (parts : List Text) → Parts before parts → Parts behind ([] ∷ parts)
unfolding trim_right
next-behind [] v = elim v [ ]
next-behind (h ∷ rest) v = (refl, v)

split_comma : (c : ℕ) (s : Text) → (c == b',') ≡ true → split (c ∷ s) b',' ≡ [] ∷ split s b','
unfolding split
split_comma c s h = rw h

split_other :
    (c : ℕ) (s : Text) → (c == b',') ≡ false → split (c ∷ s) b',' ≡ cons_head c (split s b',')
unfolding split
split_other c s h = rw h

space-comma : (c : ℕ) → regex_space c ≡ true → (c == b',') ≡ false
unfolding regex_space
space-comma c h = ground arith

word-comma : (c : ℕ) → word_char c ≡ true → (c == b',') ≡ false
unfolding word_char
word-comma c h = ground arith

-- Which branch of a ladder of tests made it true.
branch_of_two :
    (a b x y : Bool)
    → (if a then x else if b then y else false) ≡ true
    → ((a ≡ true) × (x ≡ true)) ⊎ ((b ≡ true) × (y ≡ true))
branch_of_two true b x y h = inl (refl, h)
branch_of_two false true x y h = inr (refl, h)
branch_of_two false false x y h = cc

branch_of_three :
    (a b c x y z : Bool)
    → (if a then x else if b then y else if c then z else false) ≡ true
    → ((a ≡ true) × (x ≡ true)) ⊎ (((b ≡ true) × (y ≡ true)) ⊎ ((c ≡ true) × (z ≡ true)))
branch_of_three true b c x y z h = inl (refl, h)
branch_of_three false b c x y z h = inr (branch_of_two b c y z h)

-- The transitions out of each state.
run_before :
    (c : ℕ) (s : Text)
    → service_list_run before (c ∷ s) ≡ true
    → ((regex_space c ≡ true) × (service_list_run before s ≡ true))
      ⊎ ((word_char c ≡ true) × (service_list_run inside s ≡ true))
unfolding service_list_run
run_before c s h = branch_of_two _ _ _ _ h

run_inside :
    (c : ℕ) (s : Text)
    → service_list_run inside (c ∷ s) ≡ true
    → ((word_char c ≡ true) × (service_list_run inside s ≡ true))
      ⊎ (((regex_space c ≡ true) × (service_list_run behind s ≡ true))
          ⊎ (((c == b',') ≡ true) × (service_list_run before s ≡ true)))
unfolding service_list_run
run_inside c s h = branch_of_three _ _ _ _ _ _ h

run_behind :
    (c : ℕ) (s : Text)
    → service_list_run behind (c ∷ s) ≡ true
    → ((regex_space c ≡ true) × (service_list_run behind s ≡ true))
      ⊎ (((c == b',') ≡ true) × (service_list_run before s ≡ true))
unfolding service_list_run
run_behind c s h = branch_of_two _ _ _ _ h

-- The parts of a list that the automaton accepts are service names, up to white space around them.
service_list_run-Parts :
    (phase : Phase) (s : Text) → service_list_run phase s ≡ true → Parts phase (split s b',')
unfolding service_list_run split trim_right
service_list_run-Parts before [] h = cc
service_list_run-Parts inside [] h = (refl, tt)
service_list_run-Parts behind [] h = (refl, tt)
service_list_run-Parts before (c ∷ s) h = elim (run_before c s h) [
  | inl (e, r) ↦
      rw (split_other c s (space-comma c e))
        (before-space c _ e (service_list_run-Parts before s r))
  | inr (e, r) ↦
      rw (split_other c s (word-comma c e)) (before-word c _ e (service_list_run-Parts inside s r))
]
service_list_run-Parts inside (c ∷ s) h = elim (run_inside c s h) [
  | inl (e, r) ↦
      rw (split_other c s (word-comma c e)) (inside-word c _ e (service_list_run-Parts inside s r))
  | inr (inl (e, r)) ↦
      rw (split_other c s (space-comma c e))
        (inside-space c _ e (service_list_run-Parts behind s r))
  | inr (inr (e, r)) ↦ rw (split_comma c s e) (next-inside _ (service_list_run-Parts before s r))
]
service_list_run-Parts behind (c ∷ s) h = elim (run_behind c s h) [
  | inl (e, r) ↦
      rw (split_other c s (space-comma c e))
        (behind-space c _ e (service_list_run-Parts behind s r))
  | inr (e, r) ↦ rw (split_comma c s e) (next-behind _ (service_list_run-Parts before s r))
]

All-map :
    (parts : List Text)
    → All (λ p. IsService (trim_space p)) parts
    → All IsService (map trim_space parts)
All-map [] _ = tt
All-map (p ∷ parts) (h, t) = (h, All-map parts t)

Parts-services : (parts : List Text) → Parts before parts → All IsService (map trim_space parts)
Parts-services [] v = elim v [ ]
Parts-services (p ∷ parts) (h, t) = (h, All-map parts t)

-- An accepted list yields service names only: none is empty, and none holds a comma, white space or
-- any other character that is no letter, digit, underscore or hyphen.
service_list_services :
    (value : Text) {services : List Text}
    → service_list value ≡ ok services
    → All IsService services
unfolding service_list service_list_matches
service_list_services [] {services} h =
    let e : [] ≡ services = ground arith in subst (All IsService) e tt
service_list_services (c ∷ s) {services} h =
    let r : service_list_run before (c ∷ s) ≡ true = ground arith in
    let e : map trim_space (split (c ∷ s) b',') ≡ services = ground (arith, r) in
    subst (All IsService) e (Parts-services _ (service_list_run-Parts before (c ∷ s) r))
