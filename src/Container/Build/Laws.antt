-- ===== src/Container/Build/Laws.antt =====
-- internal/container/start.go: what `startOnce` makes of a block of the config.
use lstk.Container.Build.{own_extra_ports, primary_port, Settings}
use lstk.Container.Expose.{edge_spec}
use lstk.Container.Expose.Laws.{IsMerged}
use lstk.Container.Gateway.{GatewayEntry, parse_gateway_listen}
use lstk.Container.HostEnv.{auth_token_key}
use lstk.Env.{env_value}
use lstk.Prelude.{List, Bool, ok, ◌≡◌}
use lstk.Text.Basic.{codes, Text, text_eq}
use lstk.Container.Outside.{Container, Outside}
use lstk.Config.Containers.{ContainerConfig}
use lstk.Config.Containers

-- A container that fits its block: it is named as the block says and is told so in its environment,
-- as it is told the token, and it publishes lstk's own ports, which follow from the gateway that the
-- block's environment asks for, and behind them ports that are apart from those and each other.
pub record IsBuilt (is_addr : Text → Bool) (o : Settings) (token : Text) (c : ContainerConfig)
    (built : Container) : Type 0 where
  pub name_eq : built.name ≡ Containers.name c
  pub image_eq : Containers.image c ≡ ok built.image
  pub own_name : env_value built.env (codes "MAIN_CONTAINER_NAME") ≡ built.name
  pub own_token : env_value built.env auth_token_key ≡ token
  pub resolved : List Text
  pub resolved_eq : Containers.resolved_env o.profiles c.env ≡ ok resolved
  pub gateway : List GatewayEntry
  pub gateway_eq :
      parse_gateway_listen is_addr (env_value resolved (codes "GATEWAY_LISTEN")) ≡ ok gateway
  pub merged :
      IsMerged
        (own_extra_ports gateway (env_value resolved (codes "GATEWAY_LISTEN")) built.container_port)
        (edge_spec (primary_port built.container_port) c.port)
        built.extra_ports
