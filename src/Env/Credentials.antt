-- ===== src/Env/Credentials.antt =====
-- internal/awscli/exec.go: which account the AWS CLI sees.
use lstk.Env.Aws.{access, secret, session, python, credentials}
use lstk.Env.Laws.{env_value-set, env_value-set_if_absent, env_value-remove, IsKey}
use lstk.Prelude.{◌≢◌, false, arith, ◌≡◌, refl, not, ◌&&◌, List, [], nat_eq}
use lstk.Text.Basic.{text_beq_iff, text_beq, Text, codes, text_eq}
use lstk.Env.{env_value, set, ExecOptions, exec_env, set_if_absent, profile_env, build_env}

exec_env-value :
    (base : List Text) (opts : ExecOptions) (j : Text)
    → IsKey j
    → text_beq python j ≡ false
    → env_value (exec_env base opts) j ≡ env_value (credentials base opts) j
unfolding exec_env
exec_env-value base opts j hj e = env_value-set_if_absent _ python j _ refl hj e

with_account-access :
    (base : List Text) (account : Text)
    → env_value (set_if_absent (set (profile_env base) access account) secret (codes "test")) access
      ≡ account
unfolding text_beq
with_account-access base account = rw (
  env_value-set_if_absent _ secret access (codes "test") refl refl refl,
  env_value-set _ access access account refl refl,
)

build_env-access :
    (base : List Text) (account : Text)
    → text_beq account [] ≡ false
    → env_value (build_env base account) access ≡ account
unfolding build_env text_beq
build_env-access base account e = rw (
  e,
  env_value-remove _ session access refl refl refl,
  env_value-set_if_absent _ (codes "AWS_DEFAULT_REGION") access (codes "us-east-1") refl refl refl,
  env_value-set_if_absent _ secret access (codes "test") refl refl refl,
  env_value-set _ access access account refl refl,
)

-- Unless the profile supplies the credentials, the resolved account is the access key id that the
-- AWS CLI sends, from which LocalStack derives the account, whatever was set before.
pub exec_env-account :
    (base : List Text) (opts : ExecOptions)
    → (opts.use_profile && not opts.account_selected) ≡ false
    → opts.account ≢ []
    → env_value (exec_env base opts) access ≡ opts.account
exec_env-account base opts h ne =
    let e : text_beq opts.account [] ≡ false = ground (arith, text_beq_iff opts.account []) in
    rw (exec_env-value base opts access refl (unfold text_beq in refl))
      (ground (arith, build_env-access base opts.account e, with_account-access base opts.account))
