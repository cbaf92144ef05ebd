-- ===== src/Ui/Keys/Laws.antt =====
-- internal/ui/app.go: what `resolveOption` returns.
use lstk.Prelude.{
  ◌≡◌, ◌⊎◌, inl, Bool, true, Option, none, some, List, [], ◌∷◌, arith, ◌==◌, nat_eq, any,
}
use lstk.Text.Basic.{text_beq_refl, Text, text_eq}
use lstk.Ui.Prompt.{InputOption}
use lstk.Ui.Keys.{KeyMsg, Letters, first_default, resolve_options, resolve_option}

-- One of the options has the key.
abbrev pub has_key : Text → List InputOption → Bool
has_key k = any (λ opt. opt.key == k)

module _ (letters : Letters) (key : KeyMsg) where
  resolve_options-has_key :
      (default : Option InputOption) (options : List InputOption) (found : InputOption)
      → resolve_options letters key default options ≡ some found
      → (default ≡ some found) ⊎ (has_key found.key options ≡ true)
  unfolding resolve_options
  resolve_options-has_key default [] found e = inl e
  resolve_options-has_key none (opt ∷ options) found e = ground (
    arith,
    resolve_options-has_key (first_default letters key none opt) options found,
    text_beq_refl opt.key,
  )
  resolve_options-has_key (some d) (opt ∷ options) found e =
      ground (arith, resolve_options-has_key (some d) options found, text_beq_refl opt.key)

  -- What is chosen is one of the options.
  pub resolve_option-has_key :
      (options : List InputOption) {opt : InputOption}
      → resolve_option letters options key ≡ some opt
      → has_key opt.key options ≡ true
  unfolding resolve_option
  resolve_option-has_key options {opt} e =
      ground (arith, resolve_options-has_key none options opt e)
