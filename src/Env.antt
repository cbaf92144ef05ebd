-- ===== src/Env.antt =====
-- Environments of child processes, lists of `KEY=value` entries: internal/awscli/exec.go,
-- internal/iac/sam/cli/env.go and the readers of internal/container/start.go.
pub mod Laws
pub mod Aws
pub mod Credentials
pub mod Sam
use lstk.Prelude.{
  ◌≡◌, Bool, true, false, not, ◌||◌, Option, none, some, List, [], ◌∷◌, ◌++◌, ◌==◌, any, keep,
  length, drop, if◌then◌else◌,
}
use lstk.Text.Basic.{Text, codes, text_eq}
use lstk.Text.Search.{has_prefix, cut}

abbrev pub prefix_of : Text → Text
prefix_of key = key ++ b'=' ∷ []

abbrev pub entry : Text → Text → Text
entry key value = key ++ b'=' ∷ value

-- internal/container/start.go: `envHasKey`, `envValue`. The last entry of a key counts, as it does
-- for a child process.
unfoldable pub env_has_key : List Text → Text → Bool
env_has_key [] key = false
env_has_key (e ∷ env) key = has_prefix e (prefix_of key) || env_has_key env key

-- `value` is what the loop has found so far.
unfoldable pub env_value_loop : Text → List Text → Text → Text
env_value_loop prefix [] value = value
env_value_loop prefix (e ∷ env) value =
    env_value_loop prefix env (if has_prefix e prefix then drop (length prefix) e else value)

unfoldable pub env_value : List Text → Text → Text
unfolding env_value_loop
env_value env key = env_value_loop (prefix_of key) env []

-- internal/awscli/exec.go: `setIfAbsent`, `remove`, `set`.
unfoldable pub set_if_absent : List Text → Text → Text → List Text
set_if_absent env key value = if env_has_key env key then env else env ++ entry key value ∷ []

unfoldable pub remove : List Text → Text → List Text
remove [] key = []
remove (e ∷ env) key =
    let rest = remove env key in if not (has_prefix e (prefix_of key)) then e ∷ rest else rest

unfoldable pub set : List Text → Text → Text → List Text
set env key value = remove env key ++ entry key value ∷ []

pub record ExecOptions : Type 0 where
  pub endpoint_url : Text
  pub account : Text
  pub use_profile : Bool
  pub account_selected : Bool

-- The `localstack` profile of internal/awsconfig.
abbrev pub profile_name : Text
profile_name = codes "localstack"

-- `BuildEnv`
unfoldable pub build_env : List Text → Text → List Text
build_env base account =
    let keyed =
      if account == []
      then set_if_absent base (codes "AWS_ACCESS_KEY_ID") (codes "test")
      else set base (codes "AWS_ACCESS_KEY_ID") account in
    let secret = set_if_absent keyed (codes "AWS_SECRET_ACCESS_KEY") (codes "test") in
    let region = set_if_absent secret (codes "AWS_DEFAULT_REGION") (codes "us-east-1") in
    remove region (codes "AWS_SESSION_TOKEN")

-- The environment with the profile selected and ambient selections dropped.
abbrev pub profile_env : List Text → List Text
profile_env base =
    remove (remove (set base (codes "AWS_PROFILE") profile_name) (codes "AWS_DEFAULT_PROFILE"))
      (codes "AWS_SESSION_TOKEN")

-- `execEnv`
unfoldable pub exec_env : List Text → ExecOptions → List Text
exec_env base opts =
    let credentials =
      if opts.account_selected
      then set_if_absent (set (profile_env base) (codes "AWS_ACCESS_KEY_ID") opts.account)
          (codes "AWS_SECRET_ACCESS_KEY") (codes "test")
      else remove (remove (profile_env base) (codes "AWS_ACCESS_KEY_ID"))
          (codes "AWS_SECRET_ACCESS_KEY") in
    set_if_absent (if opts.use_profile then credentials else build_env base opts.account)
      (codes "PYTHONUNBUFFERED") (codes "1")

-- internal/awscli/exec.go, `Exec`: the arguments of the child process.
unfoldable pub aws_args : ExecOptions → List Text → List Text
aws_args opts args =
    if opts.endpoint_url == [] then args else codes "--endpoint-url" ∷ opts.endpoint_url ∷ args

-- internal/iac/sam/cli/env.go
abbrev pub stripped_keys : List Text
stripped_keys = codes "AWS_PROFILE" ∷ codes "AWS_DEFAULT_PROFILE" ∷ codes "AWS_SESSION_TOKEN" ∷ []

abbrev pub managed : Text → Text → Text → List (Text × Text)
managed endpoint_url account region =
    (codes "AWS_ENDPOINT_URL", endpoint_url)
    ∷ (codes "AWS_ACCESS_KEY_ID", account)
    ∷ (codes "AWS_SECRET_ACCESS_KEY", codes "test")
    ∷ (codes "AWS_REGION", region)
    ∷ (codes "AWS_DEFAULT_REGION", region)
    ∷ []

abbrev pub is_managed : List (Text × Text) → Text → Bool
is_managed entries key = any (λ m. m.0 == key) entries || any (λ k. k == key) stripped_keys

-- Whether an entry is skipped: one without `=` is not.
abbrev pub is_skipped : List (Text × Text) → Option (Text × Text) → Bool
is_skipped entries none = false
is_skipped entries (some (key, value)) = is_managed entries key

-- The loop over the ambient environment.
unfoldable pub strip : List (Text × Text) → List Text → List Text
strip entries [] = []
strip entries (e ∷ base) =
    let rest = strip entries base in if is_skipped entries (cut e b'=') then rest else e ∷ rest

unfoldable pub append_managed : List (Text × Text) → List Text
append_managed [] = []
append_managed ((key, value) ∷ entries) =
    let rest = append_managed entries in if value == [] then rest else entry key value ∷ rest

unfoldable pub sam_build_env : List Text → Text → Text → Text → List Text
unfolding strip append_managed
sam_build_env base endpoint_url account region =
    let entries = managed endpoint_url account region in
    strip entries base ++ append_managed entries
