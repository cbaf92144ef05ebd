-- ===== src/Container/Outside.antt =====
-- internal/container/start.go: the world that a start works on, an interface: the container runtime
-- (`Runtime` of internal/runtime/runtime.go), the platform's license server, the cached license
-- file, and the user at the terminal.
use lstk.Container.Gateway.{GatewayError}
use lstk.Config.Containers.{ConfigError, ContainerConfig}
use lstk.Auth.{AuthError}
use lstk.Ports.{PortMapping}
use lstk.Container.Startup.{Ending, StartFailure}
use lstk.Prelude.{ℕ, Bool, Option, List, nat_eq}
use lstk.Text.Basic.{Text, text_eq}

-- `BindMount`, `ContainerConfig` of internal/runtime/runtime.go.
pub record BindMount : Type 0 where
  pub host_path : Text
  pub container_path : Text
  pub read_only : Bool

pub record Container : Type 0 where
  pub image : Text
  pub name : Text
  pub emulator : Text
  pub port : Text
  pub container_port : Text
  pub bind_host : Text
  pub health_path : Text
  pub env : List Text
  pub tag : Text
  pub product_name : Text
  pub binds : List BindMount
  pub extra_ports : List PortMapping

-- `ContainerBrief`, `RunningContainer`
pub record ContainerBrief : Type 0 where
  pub exists : Bool
  pub running : Bool
  pub created : Bool
  pub auto_remove : Bool
  pub image : Text
  pub managed : Bool

pub record RunningContainer : Type 0 where
  pub name : Text
  pub image : Text
  pub bound_port : Text

-- internal/api/client.go: `LicenseRequest` and `LicenseError`, without the machine and the message.
pub record LicenseRequest : Type 0 where
  pub product : Text
  pub version : Text
  pub token : Text

pub record LicenseError : Type 0 where
  pub status : ℕ
  pub detail : Text
  pub is_unsupported_tag : Bool

-- What the license server's client returns: a license with its raw bytes, an answer that is an
-- error, or a request that failed.
pub data LicenseReply : Type 0 where
  granted : Text → LicenseReply
  denied : LicenseError → LicenseReply
  unreachable : LicenseReply

-- How a pull ended: done, abandoned by the user for the local image, canceled with the whole start,
-- or failed.
pub data Pull : Type 0 where
  pull_done pull_skipped pull_canceled : Pull
  pull_failed : Text → Pull

-- How a container's start went: refused by the daemon, or watched until the monitor returned, with
-- the logs of the container.
pub data Launch : Type 0 where
  not_started : Text → Launch
  watched : Ending → Text → Launch

-- `none` stands for a call that failed.
pub record Outside (S : Type 0) : Type 0 where
  pub context_done : S → Bool
  pub is_healthy : S → Bool
  pub inspect_brief : S → Text → Option ContainerBrief
  pub find_running_by_image : S → List Text → Text → Option (Option RunningContainer)
  pub port_free : S → Text → Bool
  pub local_stack_info : S → Text → Option Text
  pub remove_container : S → Text → Bool × S
  pub image_exists : S → Text → Option Bool
  pub image_version : S → Text → Option Text
  -- The flag says whether the user may abandon the pull.
  pub pull_image : S → Text → Bool → Pull × S
  pub get_license : S → LicenseRequest → LicenseReply × S
  pub license_exists : S → Bool
  pub write_license : S → Text → Bool × S
  pub remove_license : S → Bool × S
  pub launch : S → Container → Launch × S
  pub prompt_relogin : S → LicenseError → Bool × S
  pub make_dirs : S → Text → Bool × S
  pub path_exists : S → Text → Bool

-- What the commands on running emulators need.
pub record Emulators (S : Type 0) : Type 0 where
  pub runtime_healthy : S → Bool
  pub is_running : S → Text → Option Bool
  pub find_running : S → List Text → Text → Option (Option RunningContainer)
  pub stop_container : S → Text → Bool × S

-- The config file: it is created unless it is there, its type is set, and it is read.
pub record ConfigStore (S : Type 0) : Type 0 where
  pub ensure_created : S → Bool × S
  pub set_emulator_type : S → Text → Bool × S
  pub read_config : S → Option (List ContainerConfig)

-- Why a start fails.
pub data StartError : Type 0 where
  unsupported_configuration : ℕ → StartError
  runtime_not_healthy context_over license_not_covered : StartError
  license_rejected : Text → Text → LicenseError → StartError
  license_startup : Text → StartError
  image_version_unknown image_check_failed remove_failed pull_refused : Text → StartError
  status_unknown scan_failed : Text → StartError
  emulator_mismatch running_elsewhere port_in_use required_port_in_use : Text → StartError
  foreign_container leftover_stuck : Text → StartError
  not_launched : Text → StartError
  aborted startup_failed : StartFailure → StartError
  not_authenticated : AuthError → StartError
  bad_config : ConfigError → StartError
  bad_gateway : GatewayError → StartError
  volume_dir_failed missing_source : Text → StartError
