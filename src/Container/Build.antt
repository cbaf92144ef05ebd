-- ===== src/Container/Build.antt =====
-- internal/container/start.go: how `startOnce` makes a container of a block of the config. The messages
-- are left out.
pub mod Laws
pub mod Errors
use lstk.Auth.{relogin, World, get_token, TokenStorage, LoginError}
use lstk.Container.Expose.{merge_expose_ports}
use lstk.Config.ExposePorts.{exposed_ports}
use lstk.Config.Emulators.{self_validates_license, emulator_snowflake}
use lstk.Env.{env_value}
use lstk.Ports.{PortMapping}
use lstk.Container.HostEnv.{container_env, EmulatorEnv}
use lstk.Text.Search.{trim_space, cut}
use lstk.Container.Gateway.{
  bind_host, service_port_range, parse_gateway_listen, extra_gateway_ports, container_env_value,
  GatewayEntry,
}
use lstk.Config.Volumes.{VolumeMount}
use lstk.Text.Basic.{text_eq, codes, Text}
use lstk.Prelude.{
  true, length, ◌&&◌, ◌||◌, leb, false, ◌++◌, ◌==◌, [], not, none, ◌∷◌, if◌then◌else◌, err, Bool,
  Result, some, List, Option, ok,
}
use lstk.Container.Actions.{lift, unless, ◌>>=◌, ◌>>◌, gets, perform, modify, pure, fail, Action}
use lstk.Container.Outside.{
  unsupported_configuration, not_authenticated, runtime_not_healthy, LicenseError,
  volume_dir_failed, bad_gateway, missing_source, Container, bad_config, BindMount, StartError,
  Outside,
}
use lstk.Container.Select.{select_containers}
use lstk.Container.Pulls.{pull_images}
use lstk.Container.Licenses.{is_pinned, rejection, pre_pull, from_images}
use lstk.Container.Retry.{start_with_license_retry}
use lstk.Config.Containers.{bad_expose_port, extra_volumes, volume_dir, ContainerConfig}
use lstk.Config.Containers

-- The options of a start, and what lstk reads of its surroundings.
pub record Settings : Type 0 where
  pub home : Option Text
  pub cache : Option Text
  pub config_dir : Text
  pub profiles : List (Text × List (Text × Text))
  pub host_env : List Text
  pub agent_identity : Text
  pub version : Text
  pub persist : Bool
  pub socket_path : Text
  pub license_file : Text
  pub interactive : Bool

-- The part of the container's port in front of the protocol.
abbrev pub before_slash : Text → Option (Text × Text) → Text
before_slash port none = port
before_slash port (some (before, after)) = before

abbrev pub primary_port : Text → Text
primary_port container_port = before_slash container_port (cut container_port b'/')

abbrev pub bind_of : VolumeMount → BindMount
bind_of m = record { host_path = m.source; container_path = m.target; read_only = m.read_only }

abbrev pub socket_binds : Text → List BindMount
socket_binds path =
    if not (path == [])
    then record {
      host_path = path;
      container_path = codes "/var/run/docker.sock";
      read_only = false;
    }
      ∷ []
    else []

-- What the environment of the emulator is assembled from.
abbrev pub env_sources :
    Settings → Text → ContainerConfig → List Text → List GatewayEntry → EmulatorEnv
env_sources o token c resolved gateway = record {
  resolved = resolved;
  token = token;
  gateway_listen = container_env_value gateway;
  container_name = Containers.name c;
  port = c.port;
  is_snowflake = c.type == emulator_snowflake;
  host = o.host_env;
  agent_identity = o.agent_identity;
  version = o.version;
  persist = o.persist;
  socket_path = o.socket_path;
}

-- The ports that lstk publishes besides the edge port.
abbrev pub own_extra_ports : List GatewayEntry → Text → Text → List PortMapping
own_extra_ports gateway listen container_port =
    extra_gateway_ports gateway (primary_port container_port) (trim_space listen == [])
    ++ service_port_range

module _ {S : Type 0} (outside : Outside S) (is_addr : Text → Bool) (o : Settings) where
  -- The loop over the extra mounts.
  unfoldable pub bind_sources : List VolumeMount → Action StartError S (List BindMount)
  bind_sources [] = pure []
  bind_sources (m ∷ mounts) =
      let rest = bind_sources mounts in
      do
        present ← gets (λ s. outside.path_exists s m.source)
        unless present (missing_source m.source)
        binds ← rest
        pure (bind_of m ∷ binds)

  -- The mounts of a container whose volume's directory is `dir`.
  abbrev pub own_binds : Text → List BindMount
  own_binds dir =
      socket_binds o.socket_path
      ++ record { host_path = dir; container_path = codes "/var/lib/localstack"; read_only = false }
        ∷ []

  abbrev pub mount_extra : Text → List VolumeMount → Action StartError S (List BindMount)
  mount_extra dir extra = do binds ← bind_sources extra; pure (own_binds dir ++ binds)

  -- The directory is made if it is not there.
  abbrev pub mount_all : ContainerConfig → Text → Action StartError S (List BindMount)
  mount_all c dir = do
    made ← perform (λ s. outside.make_dirs s dir)
    unless made (volume_dir_failed dir)
    extra ← lift bad_config (extra_volumes o.home o.cache o.config_dir c)
    mount_extra dir extra

  unfoldable pub volume_binds : ContainerConfig → Action StartError S (List BindMount)
  unfolding bind_sources
  volume_binds c = do
    dir ← lift bad_config (volume_dir o.home o.cache o.config_dir c)
    mount_all c dir

  -- The body of the loop of `startOnce` over the blocks of the config.
  unfoldable pub build_container : Text → ContainerConfig → Action StartError S Container
  unfolding volume_binds
  build_container token c = do
    image ← lift bad_config (Containers.image c)
    health ← lift bad_config (Containers.health_path c)
    product ← lift bad_config (Containers.product_name c)
    container_port ← lift bad_config (Containers.container_port_of c)
    resolved ← lift bad_config (Containers.resolved_env o.profiles c.env)
    gateway ←
        lift bad_gateway
          (parse_gateway_listen is_addr (env_value resolved (codes "GATEWAY_LISTEN")))
    binds ← volume_binds c
    exposed ← lift (λ e. bad_config (bad_expose_port e)) (exposed_ports c.expose_ports)
    pure (record {
      image = image;
      name = Containers.name c;
      emulator = c.type;
      port = c.port;
      container_port = container_port;
      bind_host = bind_host gateway;
      health_path = health;
      env = container_env (env_sources o token c resolved gateway);
      tag = c.tag;
      product_name = product;
      binds = binds;
      extra_ports =
          (merge_expose_ports
            (own_extra_ports gateway (env_value resolved (codes "GATEWAY_LISTEN")) container_port)
            (primary_port container_port) c.port exposed).0;
    })

  unfoldable pub build_containers :
      Text → List ContainerConfig → Action StartError S (List Container)
  unfolding build_container
  build_containers token [] = pure []
  build_containers token (c ∷ configs) =
      let rest = build_containers token configs in
      do built ← build_container token c; others ← rest; pure (built ∷ others)
