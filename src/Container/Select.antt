-- ===== src/Container/Select.antt =====
-- internal/container/start.go: which containers a start has to start: `selectContainersToStart` and
-- `healLeftoverContainer`. The messages and the telemetry are left out.
pub mod Laws
pub mod Ready
use lstk.Container.OptionalPorts.{required_host_ports, drop_busy_optional_ports}
use lstk.Container.Gateway.{is_none}
use lstk.Config.Emulators.{known_image_repos, emulator_type_for_image}
use lstk.Text.Basic.{text_eq, Text}
use lstk.Ports.{PortMapping}
use lstk.Prelude.{
  ◌==◌, ◌&&◌, [], none, not, some, if◌then◌else◌, ◌||◌, ◌∷◌, true, List, Option, Bool, ok,
}
use lstk.Container.Actions.{or_fail, unless, ◌>>=◌, ◌>>◌, gets, perform, pure, fail, Action}
use lstk.Container.Outside.{
  running_elsewhere, emulator_mismatch, leftover_stuck, scan_failed, foreign_container, port_in_use,
  required_port_in_use, status_unknown, RunningContainer, ContainerBrief, StartError, Container,
  Outside,
}
use lstk.Ports.Available.{is_free, check_available}

-- Whether lstk may remove a container that holds a name it needs.
unfoldable pub removable : ContainerBrief → Bool
removable brief = brief.managed || (brief.auto_remove && not brief.created)

abbrev pub with_ports : List PortMapping → Container → Container
with_ports ports c = record {
  image = c.image;
  name = c.name;
  emulator = c.emulator;
  port = c.port;
  container_port = c.container_port;
  bind_host = c.bind_host;
  health_path = c.health_path;
  env = c.env;
  tag = c.tag;
  product_name = c.product_name;
  binds = c.binds;
  extra_ports = ports;
}

module _ {S : Type 0} (outside : Outside S) where
  -- `healLeftoverContainer`
  unfoldable pub heal_leftover : Container → ContainerBrief → Action StartError S (Unit {0})
  unfolding removable
  heal_leftover c brief = if not (removable brief) then fail (foreign_container c.name) else (do
    removed ← perform (λ s. outside.remove_container s c.name)
    unless removed (leftover_stuck c.name))

  -- The ports that the container needs, on its own host port's being free.
  abbrev pub publish : Container → Option Text → Action StartError S (Option Container)
  publish c (some port) = fail (required_port_in_use port)
  publish c none = gets (λ s.
      some
        (with_ports (drop_busy_optional_ports (is_free (outside.port_free s)) c.extra_ports).0 c))

  -- What answers on the container's port: a LocalStack, which is used, or something else.
  abbrev pub occupied : Container → Option Text → Action StartError S (Option Container)
  occupied c (some version) = pure none
  occupied c none = fail (port_in_use c.port)

  -- Behind the check of the container's own port.
  abbrev pub on_edge : Container → Option Text → Action StartError S (Option Container)
  on_edge c (some port) = do info ← gets (λ s. outside.local_stack_info s c.port); occupied c info
  on_edge c none = do
    conflict ← gets (λ s. check_available (outside.port_free s) (required_host_ports c.extra_ports))
    publish c conflict

  unfoldable pub claim_ports : Container → Action StartError S (Option Container)
  claim_ports c = do
    busy ← gets (λ s. check_available (outside.port_free s) (c.port ∷ []))
    on_edge c busy

  -- What `FindRunningByImage` found.
  unfoldable pub judge_running :
      Container → Option RunningContainer → Action StartError S (Option Container)
  unfolding claim_ports
  judge_running c none = claim_ports c
  judge_running c (some found) =
      let type = emulator_type_for_image found.image in
      if not (type == []) && not (type == c.emulator)
      then fail (emulator_mismatch found.bound_port)
      else if not (found.bound_port == c.port)
      then fail (running_elsewhere found.bound_port)
      else pure none

  -- The body of the loop of `selectContainersToStart`: the container to start, unless one runs.
  abbrev pub inspected : Container → ContainerBrief → Action StartError S (Option Container)
  inspected c brief = if brief.running then pure none else (do
    if brief.exists then heal_leftover c brief else pure tt
    scanned ← gets (λ s. outside.find_running_by_image s known_image_repos c.container_port)
    found ← or_fail (scan_failed c.name) scanned
    judge_running c found)

  unfoldable pub select_one : Container → Action StartError S (Option Container)
  unfolding heal_leftover judge_running
  select_one c = do
    seen ← gets (λ s. outside.inspect_brief s c.name)
    brief ← or_fail (status_unknown c.name) seen
    inspected c brief

  abbrev pub prepend_some : Option Container → List Container → List Container
  prepend_some none containers = containers
  prepend_some (some c) containers = c ∷ containers

  -- `selectContainersToStart`
  unfoldable pub select_containers : List Container → Action StartError S (List Container)
  unfolding select_one
  select_containers [] = pure []
  select_containers (c ∷ containers) =
      let rest = select_containers containers in
      select_one c >>= λ chosen. rest >>= λ others. pure (prepend_some chosen others)
