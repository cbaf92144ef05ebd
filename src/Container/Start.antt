-- ===== src/Container/Start.antt =====
-- internal/container/start.go: `startOnce` and `Start`. The messages, the telemetry and the setup
-- behind a start (`runPostStartSetups`) are left out.
pub mod Errors
pub mod Laws
use lstk.Container.Build.{Settings, build_containers}
use lstk.Auth.{relogin, World, get_token, TokenStorage, LoginError}
use lstk.Container.Expose.{merge_expose_ports}
use lstk.Config.ExposePorts.{exposed_ports}
use lstk.Config.Emulators.{self_validates_license, emulator_snowflake}
use lstk.Env.{env_value}
use lstk.Ports.{PortMapping}
use lstk.Container.HostEnv.{container_env, EmulatorEnv}
use lstk.Text.Search.{trim_space, cut}
use lstk.Container.Gateway.{
  bind_host, service_port_range, parse_gateway_listen, extra_gateway_ports, container_env_value,
  GatewayEntry,
}
use lstk.Config.Volumes.{VolumeMount}
use lstk.Text.Basic.{text_eq, codes, Text}
use lstk.Prelude.{
  true, length, ◌&&◌, ◌||◌, leb, false, ◌++◌, ◌==◌, [], not, none, ◌∷◌, if◌then◌else◌, err, Bool,
  Result, some, List, Option, ok,
}
use lstk.Container.Actions.{lift, unless, ◌>>=◌, ◌>>◌, gets, perform, modify, pure, fail, Action}
use lstk.Container.Outside.{
  unsupported_configuration, not_authenticated, runtime_not_healthy, LicenseError,
  volume_dir_failed, bad_gateway, missing_source, Container, bad_config, BindMount, StartError,
  Outside,
}
use lstk.Container.Select.{select_containers}
use lstk.Container.Pulls.{pull_images}
use lstk.Container.Licenses.{is_pinned, rejection, pre_pull, from_images}
use lstk.Container.Retry.{start_with_license_retry}
use lstk.Config.Containers.{bad_expose_port, extra_volumes, volume_dir, ContainerConfig}
use lstk.Config.Containers

-- `resolvedPinnedVersion`
unfoldable pub resolved_pinned_version : List Container → Text
resolved_pinned_version [] = []
resolved_pinned_version (c ∷ containers) =
    let rest = resolved_pinned_version containers in
    if not (self_validates_license c.emulator) && is_pinned c then c.tag else rest

-- The part of the world that internal/auth works on, the token given by the environment, and what a
-- login would come to.
pub record Session (S T : Type 0) : Type 0 where
  pub auth_token : Text
  pub login : S → Result LoginError Text
  pub read : S → World T
  pub write : S → World T → S

module _ {S : Type 0} (outside : Outside S) (is_addr : Text → Bool) (o : Settings) where
  -- `startOnce`, behind the choice of the containers; the result is the version.
  unfoldable pub start_chosen : Text → Bool → List Container → Action StartError S Text
  unfolding resolved_pinned_version
  start_chosen token force [] = pure []
  start_chosen token force (c ∷ containers) = do
    (later, before) ← pre_pull outside token force (c ∷ containers)
    pulled ← pull_images outside o.interactive (c ∷ containers)
    (version, behind) ← from_images outside token later
    start_with_license_retry outside o.license_file token (before || behind) (c ∷ containers)
    pure (if version == [] then resolved_pinned_version (c ∷ containers) else version)

  unfoldable pub start_once : Text → Bool → List ContainerConfig → Action StartError S Text
  unfolding build_containers start_chosen
  start_once token force configs = do
    containers ← build_containers outside is_addr o token configs
    chosen ← select_containers outside containers
    start_chosen token force chosen

  -- `checkSingleContainer`
  abbrev pub check_single : List ContainerConfig → Action StartError S (Unit {0})
  check_single configs =
      unless (leb (length configs) 1) (unsupported_configuration (length configs))

  module _ {T : Type 0} (storage : TokenStorage T) (session : Session S T) where
    -- `GetToken` and `Relogin` of internal/auth, on their part of the world.
    unfoldable pub authenticate : Action StartError S Text
    authenticate s =
        let (r, w) =
          get_token storage session.auth_token o.interactive (session.login s) (session.read s) in
        lift not_authenticated r (session.write s w)

    unfoldable pub authenticate_again : Action StartError S Text
    authenticate_again s =
        let (r, w) =
          relogin storage o.interactive (not (o.license_file == [])) (session.login s)
            (session.read s) in
        lift not_authenticated r (session.write s w)

    -- What follows a rejection of the license.
    abbrev pub on_rejection :
        List ContainerConfig → StartError → Option LicenseError → Action StartError S Text
    on_rejection configs e none = fail e
    on_rejection configs e (some verdict) =
        if o.interactive
        then (do
          again ← perform (λ s. outside.prompt_relogin s verdict)
          if again then (do token ← authenticate_again; start_once token true configs) else fail e)
        else fail e

    unfoldable pub after_attempt :
        List ContainerConfig → Result StartError Text × S → Result StartError Text × S
    unfolding authenticate_again start_once rejection
    after_attempt configs (ok version, s) = (ok version, s)
    after_attempt configs (err e, s) = on_rejection configs e (rejection e) s

    -- `Start`
    unfoldable pub start : List ContainerConfig → Action StartError S Text
    unfolding authenticate after_attempt
    start configs = do
      check_single configs
      healthy' ← gets outside.is_healthy
      unless healthy' runtime_not_healthy
      token ← authenticate
      λ s. after_attempt configs (start_once token false configs s)
