-- ===== src/Container/Running.antt =====
-- internal/container/running.go and stop.go: which container runs for a block of the config, and
-- stopping it. The messages and the telemetry are left out.
pub mod Laws
use lstk.Config.Emulators.{known_image_repos_for_type}
use lstk.Prelude.{none, not, some, ◌∷◌, [], ◌==◌, if◌then◌else◌, List, Bool, Option, ok}
use lstk.Container.Actions.{◌>>=◌, ◌>>◌, or_fail, unless, lift, gets, perform, pure, fail, Action}
use lstk.Container.Outside.{Emulators, RunningContainer}
use lstk.Config.Containers.{ContainerConfig, ConfigError}
use lstk.Config.Containers
use lstk.Text.Basic.{Text, text_eq}

pub data RunningError : Type 0 where
  no_runtime : RunningError
  unknown_state unscanned not_running not_stopped : Text → RunningError
  no_port : ConfigError → RunningError

-- The name of what was found; the empty text stands for nothing.
abbrev pub found_name : Option RunningContainer → Text
found_name none = []
found_name (some found) = found.name

module _ {S : Type 0} (outside : Emulators S) where
  -- `ResolveRunningContainerName`
  abbrev pub scan : ContainerConfig → Text → Action RunningError S Text
  scan c port = do
    scanned ← gets (λ s. outside.find_running s (known_image_repos_for_type c.type) port)
    found ← or_fail (unscanned (Containers.name c)) scanned
    pure (found_name found)

  abbrev pub scanned_name : ContainerConfig → Bool → Action RunningError S Text
  scanned_name c running =
      if running
      then pure (Containers.name c)
      else (do port ← lift no_port (Containers.container_port_of c); scan c port)

  unfoldable pub resolve_running_container_name : ContainerConfig → Action RunningError S Text
  resolve_running_container_name c = do
    checked ← gets (λ s. outside.is_running s (Containers.name c))
    running ← or_fail (unknown_state (Containers.name c)) checked
    scanned_name c running

  -- `RunningEmulators`
  unfoldable pub running_emulators :
      List ContainerConfig → Action RunningError S (List ContainerConfig)
  unfolding resolve_running_container_name
  running_emulators [] = pure []
  running_emulators (c ∷ containers) =
      let rest = running_emulators containers in
      do
        name ← resolve_running_container_name c
        others ← rest
        pure (if not (name == []) then c ∷ others else others)

  -- The body of the loop of `Stop`.
  abbrev pub stop_named : ContainerConfig → Text → Action RunningError S (Unit {0})
  stop_named c name = if name == [] then fail (not_running (Containers.name c)) else (do
    stopped ← perform (λ s. outside.stop_container s name)
    unless stopped (not_stopped name))

  unfoldable pub stop_all : List ContainerConfig → Action RunningError S (Unit {0})
  unfolding resolve_running_container_name
  stop_all [] = pure tt
  stop_all (c ∷ containers) =
      let rest = stop_all containers in
      do name ← resolve_running_container_name c; stop_named c name; rest

  -- `Stop`
  unfoldable pub stop : List ContainerConfig → Action RunningError S (Unit {0})
  unfolding stop_all
  stop containers = do
    healthy' ← gets outside.runtime_healthy
    unless healthy' no_runtime
    stop_all containers
