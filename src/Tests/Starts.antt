-- ===== src/Tests/Starts.antt =====
-- A start on a machine with a container left over from a failed start, the image of the emulator,
-- and a license file.
use lstk.Container.Build.{Settings}
use lstk.Container.Startup.{healthy}
use lstk.Container.Select.{select_containers}
use lstk.Container.Select.Laws.{select_containers-Leaves, Leaves}
use lstk.Auth.Files.{TokenFile}
use lstk.Ports.{PortMapping}
use lstk.Prelude.{◌==◌, not, Bool, if◌then◌else◌, ok, [], ◌∷◌, none, some, true, false}
use lstk.Text.Basic.{Text, codes, text_eq}
use lstk.Container.Outside.{
  watched, denied, pull_failed, pull_skipped, ContainerBrief, Outside, Container, LicenseError,
}
use lstk.Container.Start.{Session}

-- Whether the container that was left over and the license file are there.
record Machine : Type 0 where
  left_over : Bool
  licensed : Bool

abbrev leftover_brief : ContainerBrief
leftover_brief = record {
  exists = true;
  running = false;
  created = true;
  auto_remove = true;
  image = codes "localstack/localstack-pro:latest";
  managed = true;
}

abbrev no_container : ContainerBrief
no_container = record {
  exists = false;
  running = false;
  created = false;
  auto_remove = false;
  image = [];
  managed = false;
}

abbrev expired : LicenseError
expired = record { status = 403; detail = codes "license expired"; is_unsupported_tag = false }

abbrev machine : Outside Machine
machine = record {
  context_done = λ s. false;
  is_healthy = λ s. true;
  inspect_brief = λ s name. if s.left_over then some leftover_brief else some no_container;
  find_running_by_image = λ s repos port. some none;
  port_free = λ s port. not (port == codes "443");
  local_stack_info = λ s port. none;
  remove_container = λ s name. (true, record { left_over = false; licensed = s.licensed });
  image_exists = λ s image. some true;
  image_version = λ s image. some (codes "2026.3.0");
  pull_image =
      λ s image skippable. (if skippable then pull_skipped else pull_failed (codes "offline"), s);
  get_license = λ s request. (denied expired, s);
  license_exists = λ s. s.licensed;
  write_license = λ s bytes. (true, record { left_over = s.left_over; licensed = true });
  remove_license = λ s. (true, record { left_over = s.left_over; licensed = false });
  launch = λ s c. (watched healthy [], s);
  prompt_relogin = λ s e. (true, s);
  make_dirs = λ s dir. (true, s);
  path_exists = λ s path. true;
}

abbrev site : Machine
site = record { left_over = true; licensed = true }

abbrev settings : Settings
settings = record {
  home = some (codes "/home/u");
  cache = some (codes "/home/u/.cache");
  config_dir = codes "/home/u/.lstk";
  profiles = [];
  host_env = codes "CI=true" ∷ [];
  agent_identity = [];
  version = codes "1.0.0";
  persist = false;
  socket_path = codes "/var/run/docker.sock";
  license_file = codes "/home/u/.lstk/license.json";
  interactive = true;
}

abbrev session : Session Machine TokenFile
session = record {
  auth_token = codes "ls-token";
  login = λ s. ok (codes "ls-new");
  read = λ s. record {
    store = record { content = none; usable = true };
    license = s.licensed;
    license_removable = true;
  };
  write = λ s w. record { left_over = s.left_over; licensed = w.license };
}

abbrev https : PortMapping
https = record {
  container_port = codes "443";
  host_port = codes "443";
  protocol = [];
  optional = true;
}

abbrev emulator : Container
emulator = record {
  image = codes "localstack/localstack-pro:latest";
  name = codes "localstack-aws";
  emulator = codes "aws";
  port = codes "4566";
  container_port = codes "4566/tcp";
  bind_host = codes "127.0.0.1";
  health_path = codes "/_localstack/health";
  env = [];
  tag = codes "latest";
  product_name = codes "localstack-pro";
  binds = [];
  extra_ports = https ∷ [];
}

abbrev any_address : Text → Bool
any_address host = true

select_containers-Leaves_example :
    Leaves machine site (select_containers machine (emulator ∷ []) site)
select_containers-Leaves_example = select_containers-Leaves machine (emulator ∷ []) site
