-- ===== src/Ui/Keys.antt =====
-- internal/ui/app.go: which option of a prompt a key chooses, `resolveOption`, and how the choice is
-- shown, `formatResolvedInput`. What unicode and strings know of letters is a parameter.
pub mod Laws
use lstk.Prelude.{
  ℕ, zero, suc, ◌+◌, ◌-◌, ◌≤◌, ◌<◌, ◌≡◌, refl, sym, ap, ◌∙◌, ◌≢◌, ◌↔◌, ◌⊎◌, inl, inr, Bool, true,
  false, not, ◌&&◌, ◌||◌, Option, none, some, List, [], ◌∷◌, ◌++◌, map, arith, ltb, leb, ◌==◌,
  nat_eq, all, any, All, if◌then◌else◌, Bool-cases, Result, ok, err, ◌>>=◌, ◌>>◌, guard, subst,
  Option-cases, if-cases,
}
use lstk.Text.Basic.{Text, codes, text_eq, text_beq_iff}
use lstk.Ui.Prompt.{InputOption, InputRequest, key_any, format_prompt}
use lstk.Text.Search.{split}

-- `tea.KeyMsg`: its type, as far as it is looked at, and what `String` returns.
pub data KeyType : Type 0 where
  key_up key_down key_enter key_other : KeyType

pub record KeyMsg : Type 0 where
  pub type : KeyType
  pub name : Text

-- `unicode.IsLetter`, `strings.ToUpper` and `strings.EqualFold`.
pub record Letters : Type 0 where
  pub is_letter : ℕ → Bool
  pub to_upper : Text → Text
  pub equal_fold : Text → Text → Bool

abbrev pub is_enter : KeyType → Bool
is_enter key_enter = true
is_enter _ = false

module _ (letters : Letters) where
  -- `hasLetters`
  abbrev pub has_letters : Text → Bool
  has_letters = any letters.is_letter

  -- The cases of the `switch` in `resolveOption` that return at once; its third case does not hold
  -- where one of the first two does.
  unfoldable pub chooses : KeyMsg → InputOption → Bool
  chooses key opt =
      opt.key == key_any
      || (is_enter key.type && opt.key == codes "enter")
      || (not (is_enter key.type) && letters.equal_fold key.name opt.key)

  -- Its third case, a default by an uppercase label.
  unfoldable pub is_default_option : KeyMsg → InputOption → Bool
  is_default_option key opt =
      is_enter key.type
      && not (opt.label == [])
      && has_letters opt.label
      && opt.label == letters.to_upper opt.label

  abbrev pub first_default : KeyMsg → Option InputOption → InputOption → Option InputOption
  first_default key (some d) opt = some d
  first_default key none opt = if is_default_option key opt then some opt else none

  -- The loop, with `uppercaseDefault`.
  unfoldable pub resolve_options :
      KeyMsg → Option InputOption → List InputOption → Option InputOption
  resolve_options key default [] = default
  resolve_options key default (opt ∷ options) =
      let rest = resolve_options key (first_default key default opt) options in
      if chooses key opt then some opt else rest

  -- `resolveOption`
  unfoldable pub resolve_option : List InputOption → KeyMsg → Option InputOption
  unfolding resolve_options
  resolve_option options key = resolve_options key none options

-- `formatResolvedInput`
unfoldable pub label_for : Text → Text → List InputOption → Text
label_for selected key [] = selected
label_for selected key (opt ∷ options) =
    label_for (if opt.key == key && not (opt.label == []) then opt.label else selected) key options

abbrev pub first_line : List Text → Text
first_line [] = []
first_line (line ∷ lines) = line

abbrev pub shown_prompt : InputRequest → Text
shown_prompt req = if req.vertical then req.prompt else format_prompt req.prompt req.options

unfoldable pub format_resolved_input : InputRequest → Text → Text
unfolding label_for
format_resolved_input req key =
    if label_for key key req.options == []
      || not (any (λ opt. not (opt.label == [])) req.options)
      || key == key_any
    then first_line (split (shown_prompt req) 10)
    else first_line (split (shown_prompt req) 10) ++ b' ' ∷ label_for key key req.options
