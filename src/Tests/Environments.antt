-- ===== src/Tests/Environments.antt =====
-- Environments with hostile entries.
use lstk.Env.Sam.{sam_build_env-isolated}
use lstk.Env.Aws.{exec_env-pair, secret, access}
use lstk.Env.Credentials.{exec_env-account}
use lstk.Text.Search.{has_prefix, cut}
use lstk.Container.HostEnv.Laws.{container_env-IsOwn, IsOwn}
use lstk.Env.{exec_env, sam_build_env, env_has_key, ExecOptions, env_value}
use lstk.Container.HostEnv.{
  judge_value, critical_container_var, judge, EmulatorEnv, filter_host_env,
}
use lstk.Prelude.{◌≡◌, refl, true, List, [], ◌∷◌, nat_eq}
use lstk.Text.Basic.{text_beq, Text, codes, text_eq}

abbrev ambient : List Text
ambient =
    codes "AWS_ACCESS_KEY_ID=AKIA"
    ∷ codes "AWS_SESSION_TOKEN=t"
    ∷ codes "AWS_PROFILE=prod"
    ∷ codes "HOME=/root"
    ∷ []

abbrev account_options : ExecOptions
account_options = record {
  endpoint_url = codes "http://localhost:4566";
  account = codes "000000000001";
  use_profile = true;
  account_selected = true;
}

exec_env-pair_example :
    env_has_key (exec_env ambient account_options) access
    ≡ env_has_key (exec_env ambient account_options) secret
exec_env-pair_example = exec_env-pair ambient account_options

exec_env-account_example :
    env_value (exec_env ambient account_options) access ≡ codes "000000000001"
exec_env-account_example = exec_env-account ambient account_options refl (cc)

abbrev sam_env : List Text
sam_env =
    sam_build_env ambient (codes "http://localhost:4566") (codes "000000000000") (codes "us-east-1")

sam_build_env-isolated_example :
    (env_value sam_env (codes "AWS_ENDPOINT_URL") ≡ codes "http://localhost:4566")
    × (env_value sam_env (codes "AWS_ACCESS_KEY_ID") ≡ codes "000000000000")
    × (env_value sam_env (codes "AWS_SECRET_ACCESS_KEY") ≡ codes "test")
    × (env_value sam_env (codes "AWS_REGION") ≡ codes "us-east-1")
    × (env_value sam_env (codes "AWS_DEFAULT_REGION") ≡ codes "us-east-1")
    × (env_value sam_env (codes "AWS_PROFILE") ≡ [])
    × (env_value sam_env (codes "AWS_DEFAULT_PROFILE") ≡ [])
    × (env_value sam_env (codes "AWS_SESSION_TOKEN") ≡ [])
    × (env_value sam_env (codes "HOME") ≡ env_value ambient (codes "HOME"))
unfolding text_beq
sam_build_env-isolated_example =
    sam_build_env-isolated ambient (codes "http://localhost:4566") (codes "000000000000")
      (codes "us-east-1") (codes "HOME") refl refl

abbrev hostile_host : List Text
hostile_host =
    codes "LOCALSTACK_AUTH_TOKEN=other"
    ∷ codes "LOCALSTACK_PATH=/tmp"
    ∷ codes "GATEWAY_LISTEN=:1"
    ∷ codes "LOCALSTACK_DEBUG=1"
    ∷ []

abbrev emulator : EmulatorEnv
emulator = record {
  resolved = codes "MAIN_CONTAINER_NAME=mine" ∷ codes "LOCALSTACK_AUTH_TOKEN=profile" ∷ [];
  token = codes "resolved";
  gateway_listen = codes ":4566,:443";
  container_name = codes "localstack-aws";
  port = codes "4566";
  is_snowflake = true;
  host = hostile_host;
  agent_identity = codes "agent";
  version = codes "1";
  persist = true;
  socket_path = codes "/var/run/docker.sock";
}

container_env-IsOwn_example : IsOwn emulator
container_env-IsOwn_example = container_env-IsOwn emulator

forwarded_only_debug : filter_host_env hostile_host ≡ (
  codes "LOCALSTACK_DEBUG=1" ∷ [],
  record { name = codes "LOCALSTACK_PATH"; overrides = codes "PATH" } ∷ [],
)
unfolding filter_host_env judge cut text_beq has_prefix judge_value critical_container_var
forwarded_only_debug = refl
