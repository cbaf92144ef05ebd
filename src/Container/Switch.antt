-- ===== src/Container/Switch.antt =====
-- internal/container/emulator_type.go: `ApplyEmulatorType` and `rejectIfConflictingEmulatorRunning`.
-- The messages are left out.
pub mod Laws
use lstk.Config.Emulators.{known_image_repos, emulator_type_for_image}
use lstk.Prelude.{
  length, err, if◌then◌else◌, Bool, leb, Option, ℕ, Result, List, ok, [], ◌∷◌, some, none, ◌==◌,
  ◌||◌, nat_eq,
}
use lstk.Text.Basic.{Text, text_eq}
use lstk.Container.Actions.{◌>>=◌, ◌>>◌, or_fail, unless, gets, perform, pure, fail, Action}
use lstk.Container.Outside.{Emulators, ConfigStore, RunningContainer}
use lstk.Config.Containers.{ConfigError, ContainerConfig}
use lstk.Config.Containers

pub data SwitchError : Type 0 where
  another_runs : Text → SwitchError
  no_block image_pinned : SwitchError
  several_blocks : ℕ → SwitchError
  not_created not_set not_read : SwitchError

-- A block with a type and nothing else.
abbrev pub probe : Text → ContainerConfig
probe type = record {
  type = type;
  tag = [];
  port = [];
  custom_image = [];
  custom_name = [];
  volume = [];
  volumes = [];
  expose_ports = [];
  env = [];
}

module _ {S : Type 0} (outside : Emulators S) (store : ConfigStore S) where
  -- `rejectIfConflictingEmulatorRunning`
  abbrev pub judge_found : Text → Option (Option RunningContainer) → Action SwitchError S (Unit {0})
  judge_found requested none = pure tt
  judge_found requested (some none) = pure tt
  judge_found requested (some (some found)) =
      let type = emulator_type_for_image found.image in
      if type == [] || type == requested then pure tt else fail (another_runs found.bound_port)

  abbrev pub scan_port : Text → Result ConfigError Text → Action SwitchError S (Unit {0})
  scan_port requested (err e) = pure tt
  scan_port requested (ok port) = do
    scanned ← gets (λ s. outside.find_running s known_image_repos port)
    judge_found requested scanned

  unfoldable pub reject_if_conflicting : Text → Action SwitchError S (Unit {0})
  reject_if_conflicting requested =
      scan_port requested (Containers.container_port_of (probe requested))

  -- `SetEmulatorType` and the config that is read then.
  abbrev pub set_and_read : Text → Action SwitchError S (List ContainerConfig)
  set_and_read requested = do
    set' ← perform (λ s. store.set_emulator_type s requested)
    unless set' not_set
    found ← gets store.read_config
    or_fail not_read found

  -- A first run.
  unfoldable pub create_config : Text → Action SwitchError S (List ContainerConfig)
  unfolding reject_if_conflicting
  create_config requested = do
    reject_if_conflicting requested
    created ← perform store.ensure_created
    unless created not_created
    set_and_read requested

  -- A config that is there already.
  unfoldable pub switch_config :
      Text → List ContainerConfig → Action SwitchError S (List ContainerConfig)
  unfolding reject_if_conflicting
  switch_config requested [] = fail no_block
  switch_config requested (c ∷ containers) = do
    unless (leb (length (c ∷ containers)) 1) (several_blocks (length (c ∷ containers)))
    if c.type == requested then pure (c ∷ containers) else (do
      reject_if_conflicting requested
      unless (c.custom_image == []) image_pinned
      set_and_read requested)

  -- `ApplyEmulatorType`
  unfoldable pub apply_emulator_type :
      Text → List ContainerConfig → Bool → Action SwitchError S (List ContainerConfig)
  unfolding create_config switch_config
  apply_emulator_type requested containers first_run =
      if first_run then create_config requested else switch_config requested containers
