-- ===== src/Container/HostEnv/Laws.antt =====
-- internal/container/start.go: neither the host nor a profile can replace what lstk has resolved.
use lstk.Env.Laws.{has_prefix-cut, env_has_key-append, env_value_loop-append, key_is, IsKey}
use lstk.Container.HostEnv.{
  skipped, s3_endpoint, dropped, snowflake_env, keep_judged, persist_env, socket_env,
  DroppedHostEnv, own_env, Verdict, container_env, agent_env, EmulatorEnv, auth_token_key,
  localstack_prefix, forwarded, filter_host_env, judge,
}
use lstk.Env.{entry, env_value, env_has_key, prefix_of, env_value_loop}
use lstk.Text.Search.{cut, has_prefix}
use lstk.Prelude.{
  ◌≡◌, refl, sym, ◌∙◌, inl, inr, Bool, true, false, not, ◌&&◌, ◌||◌, Option, none, some, List, [],
  ◌∷◌, ◌++◌, arith, ◌==◌, nat_eq, if◌then◌else◌, Bool-cases,
}
use lstk.Text.Basic.{text_beq, Text, codes, text_eq, text_beq_iff}

-- The keys that may come from the host.
abbrev pub forwardable : Text → Bool
forwardable j = (j == codes "CI" || has_prefix j localstack_prefix) && not (j == auth_token_key)

judge-forwardable :
    (o : Option (Text × Text)) (j : Text)
    → judge o ≡ forwarded
    → key_is o j ≡ true
    → forwardable j ≡ true
unfolding judge
judge-forwardable none j h k = cc
judge-forwardable (some (key, value)) j h k = rw (sym ((text_beq_iff key j).0 k)) (ground arith)

env_value_loop-absent :
    (env : List Text) (k v : Text)
    → env_has_key env k ≡ false
    → env_value_loop (prefix_of k) env v ≡ v
unfolding env_value_loop env_has_key
env_value_loop-absent [] k v h = refl
env_value_loop-absent (e ∷ env) k v h =
    let p : has_prefix e (prefix_of k) ≡ false = ground arith in
    let q : env_has_key env k ≡ false = ground arith in rw p (env_value_loop-absent env k v q)

-- Entries that are not of a key do not change what it reads.
pub env_value-append_absent :
    (env more : List Text) (k : Text)
    → env_has_key more k ≡ false
    → env_value (env ++ more) k ≡ env_value env k
unfolding env_value
env_value-append_absent env more k h =
    rw (env_value_loop-append (prefix_of k) env more []) (env_value_loop-absent more k _ h)

keep_judged-absent :
    (v : Verdict) (e : Text) (r : List Text × List DroppedHostEnv) (j : Text)
    → (v ≡ forwarded → has_prefix e (prefix_of j) ≡ false)
    → env_has_key r.0 j ≡ false
    → env_has_key (keep_judged v e r).0 j ≡ false
unfolding env_has_key
keep_judged-absent skipped e (out, drops) j f h = h
keep_judged-absent (dropped d) e (out, drops) j f h = h
keep_judged-absent forwarded e (out, drops) j f h = rw (f refl) h

-- The host's entries that are forwarded are of forwardable keys only.
filter_host_env-absent :
    (env : List Text) (j : Text)
    → IsKey j
    → forwardable j ≡ false
    → env_has_key (filter_host_env env).0 j ≡ false
unfolding filter_host_env
filter_host_env-absent [] j hj f = unfold env_has_key in refl
filter_host_env-absent (e ∷ env) j hj f =
    keep_judged-absent (judge (cut e b'=')) e (filter_host_env env) j
      (λ g. elim (Bool-cases (has_prefix e (prefix_of j))) [
        | inr q ↦ q
        | inl q ↦
            let w : forwardable j ≡ true =
              judge-forwardable (cut e b'=') j g (sym (has_prefix-cut e j hj) ∙ q) in
            cc
      ])
      (filter_host_env-absent env j hj f)

-- An optional part without the key.
if-absent :
    (b : Bool) (env : List Text) (j : Text)
    → env_has_key env j ≡ false
    → env_has_key (if b then env else []) j ≡ false
if-absent true env j h = h
if-absent false env j h = unfold env_has_key in refl

-- A key that none of the parts after lstk's own has.
abbrev IsOwnKey : EmulatorEnv → Text → Type 0
IsOwnKey o j =
    IsKey j
    × (forwardable j ≡ false)
    × ((x : Text) → env_has_key (entry (codes "SF_S3_ENDPOINT") x ∷ []) j ≡ false)
    × ((x : Text) → env_has_key (entry (codes "AI_AGENT") x ∷ []) j ≡ false)
    × ((x y : Text)
        → env_has_key
            (entry (codes "LOCALSTACK_CLIENT_NAME") x
              ∷ entry (codes "LOCALSTACK_CLIENT_VERSION") y
              ∷ [])
            j
          ≡ false)
    × (env_has_key (codes "LOCALSTACK_PERSISTENCE=1" ∷ []) j ≡ false)
    × ((x : Text) → env_has_key (entry (codes "DOCKER_HOST") x ∷ []) j ≡ false)

agent_env-absent :
    (o : EmulatorEnv) (j : Text)
    → IsOwnKey o j
    → env_has_key (agent_env o.agent_identity o.version) j ≡ false
unfolding agent_env
agent_env-absent o j (_, _, _, agent, client, _, _) =
    env_has_key-append
      (if not (o.agent_identity == []) then entry (codes "AI_AGENT") o.agent_identity ∷ [] else [])
      (entry (codes "LOCALSTACK_CLIENT_NAME") (codes "lstk")
        ∷ entry (codes "LOCALSTACK_CLIENT_VERSION") o.version
        ∷ [])
      j
    ∙ rw
        (
          client (codes "lstk") o.version,
          if-absent (not (o.agent_identity == [])) (entry (codes "AI_AGENT") o.agent_identity ∷ [])
              j (agent o.agent_identity),
        )
        refl

container_env-own :
    (o : EmulatorEnv) (j : Text)
    → IsOwnKey o j
    → env_value (container_env o) j ≡ env_value (o.resolved ++ own_env o) j
unfolding container_env
container_env-own o j (k, f, snow, agent, client, persist, socket) =
    env_value-append_absent _ (socket_env o) j
      (if-absent (not (o.socket_path == [])) _ j (socket (codes "unix:///var/run/docker.sock")))
    ∙ (env_value-append_absent _ (persist_env o) j (if-absent o.persist _ j persist)
        ∙ (env_value-append_absent _ (agent_env o.agent_identity o.version) j
              (agent_env-absent o j (k, f, snow, agent, client, persist, socket))
            ∙ (env_value-append_absent _ (filter_host_env o.host).0 j
                  (filter_host_env-absent o.host j k f)
                ∙ env_value-append_absent _ (snowflake_env o) j (
                    if-absent
                      (o.is_snowflake && not (env_has_key o.resolved (codes "SF_S3_ENDPOINT"))) _ j
                      (snow (s3_endpoint o.port))))))

-- What the emulator reads of the entries that lstk decides.
pub record IsOwn (o : EmulatorEnv) : Type 0 where
  pub token_eq : env_value (container_env o) auth_token_key ≡ o.token
  pub gateway_eq : env_value (container_env o) (codes "GATEWAY_LISTEN") ≡ o.gateway_listen
  pub name_eq : env_value (container_env o) (codes "MAIN_CONTAINER_NAME") ≡ o.container_name

token-IsOwnKey : (o : EmulatorEnv) → IsOwnKey o auth_token_key
unfolding env_has_key has_prefix text_beq
token-IsOwnKey o = (refl, refl, λ x. refl, λ x. refl, λ x y. refl, refl, λ x. refl)

gateway-IsOwnKey : (o : EmulatorEnv) → IsOwnKey o (codes "GATEWAY_LISTEN")
unfolding env_has_key has_prefix text_beq
gateway-IsOwnKey o = (refl, refl, λ x. refl, λ x. refl, λ x y. refl, refl, λ x. refl)

name-IsOwnKey : (o : EmulatorEnv) → IsOwnKey o (codes "MAIN_CONTAINER_NAME")
unfolding env_has_key has_prefix text_beq
name-IsOwnKey o = (refl, refl, λ x. refl, λ x. refl, λ x y. refl, refl, λ x. refl)

own_env-value :
    (o : EmulatorEnv) (j : Text)
    → env_value (o.resolved ++ own_env o) j
      ≡ env_value_loop (prefix_of j) (own_env o) (env_value o.resolved j)
unfolding env_value
own_env-value o j = env_value_loop-append (prefix_of j) o.resolved (own_env o) []

own_env-token :
    (o : EmulatorEnv) (v : Text) → env_value_loop (prefix_of auth_token_key) (own_env o) v ≡ o.token
unfolding env_value_loop has_prefix
own_env-token o v = refl

own_env-gateway :
    (o : EmulatorEnv) (v : Text)
    → env_value_loop (prefix_of (codes "GATEWAY_LISTEN")) (own_env o) v ≡ o.gateway_listen
unfolding env_value_loop has_prefix
own_env-gateway o v = refl

own_env-name :
    (o : EmulatorEnv) (v : Text)
    → env_value_loop (prefix_of (codes "MAIN_CONTAINER_NAME")) (own_env o) v ≡ o.container_name
unfolding env_value_loop has_prefix
own_env-name o v = refl

-- Whatever the `[env.*]` profiles and the host's environment hold, in the list that lstk passes to the
-- container the variables of the token, the gateway and the container name have the values that lstk
-- has resolved. What the image's entrypoint makes of the list is not looked at.
pub container_env-IsOwn : (o : EmulatorEnv) → IsOwn o
container_env-IsOwn o = record {
  token_eq =
      container_env-own o auth_token_key (token-IsOwnKey o)
      ∙ (own_env-value o auth_token_key ∙ own_env-token o _);
  gateway_eq =
      container_env-own o (codes "GATEWAY_LISTEN") (gateway-IsOwnKey o)
      ∙ (own_env-value o (codes "GATEWAY_LISTEN") ∙ own_env-gateway o _);
  name_eq =
      container_env-own o (codes "MAIN_CONTAINER_NAME") (name-IsOwnKey o)
      ∙ (own_env-value o (codes "MAIN_CONTAINER_NAME") ∙ own_env-name o _);
}
