-- ===== src/Env/Aws.antt =====
-- internal/awscli/exec.go: which credentials the AWS CLI sees.
use lstk.Env.Laws.{env_has_key-set, env_has_key-set_if_absent, env_has_key-remove, IsKey}
use lstk.Prelude.{
  false, arith, if◌then◌else◌, ◌≡◌, refl, inl, inr, not, ◌&&◌, ◌||◌, List, [], nat_eq, Bool-cases,
}
use lstk.Text.Basic.{text_beq, Text, codes, text_eq}
use lstk.Env.{
  set, ExecOptions, exec_env, remove, set_if_absent, profile_env, env_has_key, build_env,
}

abbrev pub access : Text
access = codes "AWS_ACCESS_KEY_ID"

abbrev pub secret : Text
secret = codes "AWS_SECRET_ACCESS_KEY"

abbrev pub session : Text
session = codes "AWS_SESSION_TOKEN"

abbrev pub profile : Text
profile = codes "AWS_PROFILE"

-- Whether a key is present after each branch of `execEnv`, for the keys at hand.
build_env-key :
    (base : List Text) (account j : Text)
    → IsKey j
    → env_has_key (build_env base account) j ≡ (
        not (text_beq session j)
        && (text_beq (codes "AWS_DEFAULT_REGION") j
            || (text_beq secret j || (text_beq access j || env_has_key base j))))
unfolding build_env
build_env-key base account j hj = elim (Bool-cases (text_beq account [])) [
  | inl e ↦ rw (
    e,
    env_has_key-remove _ session j refl hj,
    env_has_key-set_if_absent _ (codes "AWS_DEFAULT_REGION") j _ refl hj,
    env_has_key-set_if_absent _ secret j _ refl hj,
    env_has_key-set_if_absent _ access j _ refl hj,
  )
  | inr e ↦ rw (
    e,
    env_has_key-remove _ session j refl hj,
    env_has_key-set_if_absent _ (codes "AWS_DEFAULT_REGION") j _ refl hj,
    env_has_key-set_if_absent _ secret j _ refl hj,
    env_has_key-set _ access j _ refl hj,
  )
]

abbrev pub python : Text
python = codes "PYTHONUNBUFFERED"

abbrev pub default_profile : Text
default_profile = codes "AWS_DEFAULT_PROFILE"

pub profile_env-key :
    (base : List Text) (j : Text)
    → IsKey j
    → env_has_key (profile_env base) j ≡ (
        not (text_beq session j)
        && (not (text_beq default_profile j) && (text_beq profile j || env_has_key base j)))
profile_env-key base j hj = rw (
  env_has_key-remove _ session j refl hj,
  env_has_key-remove _ default_profile j refl hj,
  env_has_key-set base profile j _ refl hj,
)

-- The credentials that the branch for a profile with an account, and for one without, adds.
pub with_account-key :
    (base : List Text) (account j : Text)
    → IsKey j
    → env_has_key (set_if_absent (set (profile_env base) access account) secret (codes "test")) j
      ≡ (text_beq secret j || (text_beq access j || env_has_key (profile_env base) j))
with_account-key base account j hj =
    rw (env_has_key-set_if_absent _ secret j _ refl hj, env_has_key-set _ access j _ refl hj)

pub without_account-key :
    (base : List Text) (j : Text)
    → IsKey j
    → env_has_key (remove (remove (profile_env base) access) secret) j
      ≡ (not (text_beq secret j) && (not (text_beq access j) && env_has_key (profile_env base) j))
without_account-key base j hj =
    rw (env_has_key-remove _ secret j refl hj, env_has_key-remove _ access j refl hj)

abbrev pub credentials : List Text → ExecOptions → List Text
credentials base opts =
    if opts.use_profile
    then if opts.account_selected
      then set_if_absent (set (profile_env base) access opts.account) secret (codes "test")
      else remove (remove (profile_env base) access) secret
    else build_env base opts.account

pub exec_env-key :
    (base : List Text) (opts : ExecOptions) (j : Text)
    → IsKey j
    → text_beq python j ≡ false
    → env_has_key (exec_env base opts) j ≡ env_has_key (credentials base opts) j
unfolding exec_env
exec_env-key base opts j hj e = rw (env_has_key-set_if_absent _ python j _ refl hj, e)

-- Whatever the ambient environment, the one of the AWS CLI has an entry for an access key id exactly
-- when it has one for a secret key. An ambient entry that is empty counts.
pub exec_env-pair :
    (base : List Text) (opts : ExecOptions)
    → env_has_key (exec_env base opts) access ≡ env_has_key (exec_env base opts) secret
unfolding text_beq
exec_env-pair base opts =
    rw (exec_env-key base opts access refl refl, exec_env-key base opts secret refl refl)
      (ground (
        arith,
        build_env-key base opts.account access refl,
        build_env-key base opts.account secret refl,
        with_account-key base opts.account access refl,
        with_account-key base opts.account secret refl,
        without_account-key base access refl,
        without_account-key base secret refl,
      ))
