-- ===== src/Container/Switch/Laws.antt =====
-- internal/container/emulator_type.go: a type that cannot be applied leaves the config alone.
use lstk.Container.Switch.{
  not_created, image_pinned, no_block, several_blocks, not_set, not_read, another_runs, SwitchError,
}
use lstk.Prelude.{Bool, Option, Result, List, ◌≡◌, true, false, none, some, [], ◌∷◌, nat_eq}
use lstk.Text.Basic.{Text, text_eq}
use lstk.Container.Actions.Outcomes.{Ends}
use lstk.Container.Outside.{Emulators, ConfigStore}
use lstk.Config.Containers.{ContainerConfig}

abbrev pub first_type : List ContainerConfig → Option Text
first_type [] = none
first_type (c ∷ containers) = some c.type

-- Whether an error is a refusal, and no failure of the config file.
abbrev pub is_refusal : SwitchError → Bool
is_refusal (another_runs port) = true
is_refusal no_block = true
is_refusal image_pinned = true
is_refusal (several_blocks n) = true
is_refusal not_created = false
is_refusal not_set = false
is_refusal not_read = false

-- A config that a success returns: one with the requested type first, which needed no change, or the
-- one that is read right behind the type was set with success.
pub data HasSwitched {S : Type 0} (store : ConfigStore S) (requested : Text) (before : S)
    (containers : List ContainerConfig) : S → Type 0 where
  was_set :
      first_type containers ≡ some requested → HasSwitched store requested before containers before
  is_set :
      (s : S)
      → (store.set_emulator_type s requested).0 ≡ true
      → store.read_config (store.set_emulator_type s requested).1 ≡ some containers
      → HasSwitched store requested before containers (store.set_emulator_type s requested).1

module _ {S : Type 0} (outside : Emulators S) (store : ConfigStore S) where
  -- A success has the type in place, a refusal has changed nothing.
  abbrev pub Applies : Text → S → Result SwitchError (List ContainerConfig) × S → Type 0
  Applies requested s r =
      Ends (HasSwitched store requested s) (λ e s'. is_refusal e ≡ true → s ≡ s') r

  -- A step that may refuse and changes nothing.
  abbrev pub Checks : S → Result SwitchError (Unit {0}) × S → Type 0
  Checks s r = Ends (λ u s'. s ≡ s') (λ e s'. s ≡ s') r
