-- ===== src/Container/HostEnv.antt =====
-- internal/container/start.go: the environment of the emulator, and what of the host's goes into
-- it: `filterHostEnv`, `criticalContainerVar`, `agentEnv`, the assembly in `startOnce`.
pub mod Laws
use lstk.Env.{env_has_key, entry}
use lstk.Text.Search.{contains_any, has_prefix, cut}
use lstk.Prelude.{
  length, drop, ℕ, zero, suc, ◌+◌, ◌-◌, ◌≤◌, ◌<◌, ◌≡◌, refl, sym, ap, ◌∙◌, ◌≢◌, ◌↔◌, ◌⊎◌, inl, inr,
  Bool, true, false, not, ◌&&◌, ◌||◌, Option, none, some, List, [], ◌∷◌, ◌++◌, map, arith, ltb, leb,
  ◌==◌, nat_eq, all, any, All, if◌then◌else◌, Bool-cases, Result, ok, err, ◌>>=◌,
}
use lstk.Text.Basic.{Text, codes, text_eq, text_beq_iff}

-- `criticalContainerVar`
abbrev pub critical_names : List Text
critical_names =
    codes "PATH"
    ∷ codes "HOME"
    ∷ codes "IFS"
    ∷ codes "BASH_ENV"
    ∷ codes "LD_PRELOAD"
    ∷ codes "LD_LIBRARY_PATH"
    ∷ codes "PYTHONPATH"
    ∷ codes "PYTHONHOME"
    ∷ []

unfoldable pub critical_container_var : Text → Bool
critical_container_var name = any (λ n. n == name) critical_names

abbrev pub localstack_prefix : Text
localstack_prefix = codes "LOCALSTACK_"

abbrev pub auth_token_key : Text
auth_token_key = codes "LOCALSTACK_AUTH_TOKEN"

-- `droppedHostEnv`
pub record DroppedHostEnv : Type 0 where
  pub name : Text
  pub overrides : Text

-- What the body of the loop does with an entry.
pub data Verdict : Type 0 where
  skipped : Verdict
  dropped : DroppedHostEnv → Verdict
  forwarded : Verdict

-- `strings.TrimPrefix(s, p)`
abbrev pub trim_prefix : Text → Text → Text
trim_prefix s p = if has_prefix s p then drop (length p) s else s

-- The checks that follow the first two `continue`s.
unfoldable pub judge_value : Text → Text → Verdict
judge_value key value =
    let name = trim_prefix key localstack_prefix in
    if contains_any value (10 ∷ 13 ∷ [])
    then dropped (record { name = key; overrides = [] })
    else if not (name == key) && critical_container_var name
    then dropped (record { name = key; overrides = name })
    else forwarded

unfoldable pub judge : Option (Text × Text) → Verdict
judge none = skipped
judge (some (key, value)) =
    if not (key == codes "CI") && not (has_prefix key localstack_prefix)
    then skipped
    else if key == auth_token_key
    then skipped
    else judge_value key value

-- `filterHostEnv`
abbrev pub keep_judged :
    Verdict → Text → List Text × List DroppedHostEnv → List Text × List DroppedHostEnv
keep_judged skipped e (out, drops) = (out, drops)
keep_judged (dropped d) e (out, drops) = (out, d ∷ drops)
keep_judged forwarded e (out, drops) = (e ∷ out, drops)

unfoldable pub filter_host_env : List Text → List Text × List DroppedHostEnv
filter_host_env [] = ([], [])
filter_host_env (e ∷ env) = keep_judged (judge (cut e b'=')) e (filter_host_env env)

-- `agentEnv`, of the identity of a calling agent and lstk's version.
unfoldable pub agent_env : Text → Text → List Text
agent_env identity version =
    (if not (identity == []) then entry (codes "AI_AGENT") identity ∷ [] else [])
    ++ entry (codes "LOCALSTACK_CLIENT_NAME") (codes "lstk")
      ∷ entry (codes "LOCALSTACK_CLIENT_VERSION") version
      ∷ []

-- What `startOnce` assembles the environment of one emulator from.
pub record EmulatorEnv : Type 0 where
  pub resolved : List Text
  pub token : Text
  pub gateway_listen : Text
  pub container_name : Text
  pub port : Text
  pub is_snowflake : Bool
  pub host : List Text
  pub agent_identity : Text
  pub version : Text
  pub persist : Bool
  pub socket_path : Text

-- internal/endpoint/endpoint.go
abbrev pub hostname : Text
hostname = codes "localhost.localstack.cloud"

-- `snowflake.S3Endpoint`
abbrev pub s3_endpoint : Text → Text
s3_endpoint port = codes "s3." ++ (hostname ++ b':' ∷ port)

-- The entries of lstk that follow those of the profiles.
abbrev pub own_env : EmulatorEnv → List Text
own_env o =
    entry auth_token_key o.token
    ∷ entry (codes "GATEWAY_LISTEN") o.gateway_listen
    ∷ entry (codes "MAIN_CONTAINER_NAME") o.container_name
    ∷ entry (codes "LOCALSTACK_HOST") (hostname ++ b':' ∷ o.port)
    ∷ []

abbrev pub snowflake_env : EmulatorEnv → List Text
snowflake_env o =
    if o.is_snowflake && not (env_has_key o.resolved (codes "SF_S3_ENDPOINT"))
    then entry (codes "SF_S3_ENDPOINT") (s3_endpoint o.port) ∷ []
    else []

abbrev pub persist_env : EmulatorEnv → List Text
persist_env o = if o.persist then codes "LOCALSTACK_PERSISTENCE=1" ∷ [] else []

abbrev pub socket_env : EmulatorEnv → List Text
socket_env o =
    if not (o.socket_path == [])
    then entry (codes "DOCKER_HOST") (codes "unix:///var/run/docker.sock") ∷ []
    else []

unfoldable pub container_env : EmulatorEnv → List Text
unfolding agent_env
container_env o =
    (((((o.resolved ++ own_env o) ++ snowflake_env o) ++ (filter_host_env o.host).0)
        ++ agent_env o.agent_identity o.version)
      ++ persist_env o)
    ++ socket_env o
