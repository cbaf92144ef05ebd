-- ===== src/Auth/Login.antt =====
-- internal/auth/login.go: the device login. The platform's answers and the user's are parameters; what
-- is emitted and the browser are left out.
use lstk.Text.Search.{trim_right}
use lstk.Prelude.{
  guard-eq-ok, ap, ◌∙◌, [], guard, none, some, Option, if◌then◌else◌, >>=-eq-ok, Bool, true, false,
  Result, ok, err, ◌==◌, ◌++◌, ◌≡◌, ◌>>=◌, ◌>>◌, refl, nat_eq,
}
use lstk.Text.Basic.{Text, codes, text_eq}

-- `api.AuthRequest`
pub record AuthRequest : Type 0 where
  pub id : Text
  pub code : Text
  pub exchange_token : Text

-- The requests of `api.PlatformAPI` that a login makes, an error being none of their results.
pub record Platform : Type 0 where
  pub create_auth_request : Option AuthRequest
  pub check_auth_request_confirmed : Text → Text → Option Bool
  pub exchange_auth_request : Text → Text → Option Text
  pub get_license_token : Text → Option Text

-- What ends the wait: an answer, which is cancelled or not, or the context.
pub data Waited : Type 0 where
  responded : Bool → Waited
  context_done : Waited

pub data LoginFailure : Type 0 where
  create_failed canceled context_error check_failed not_confirmed exchange_failed token_failed :
      LoginFailure

abbrev pub or_failure : {A : Type 0} → LoginFailure → Option A → Result LoginFailure A
or_failure e none = err e
or_failure e (some a) = ok a

-- `buildAuthURL`; `url.Values.Encode` of the code is a parameter.
unfoldable pub build_auth_url : (Text → Text) → Text → Text → Text → Text
build_auth_url encode web_app_url id code =
    let auth_url = trim_right (λ c. c == b'/') web_app_url ++ (codes "/auth/request/" ++ id) in
    if code == [] then auth_url else auth_url ++ (codes "?" ++ encode code)

module _ (platform : Platform) where
  -- `completeAuth`
  unfoldable pub complete_auth : AuthRequest → Result LoginFailure Text
  complete_auth r = do
    confirmed ←
        or_failure check_failed (platform.check_auth_request_confirmed r.id r.exchange_token)
    guard confirmed not_confirmed
    bearer ← or_failure exchange_failed (platform.exchange_auth_request r.id r.exchange_token)
    or_failure token_failed (platform.get_license_token bearer)

  -- The `select` of `Login`.
  abbrev pub after_wait : AuthRequest → Waited → Result LoginFailure Text
  after_wait r (responded true) = err canceled
  after_wait r (responded false) = complete_auth r
  after_wait r context_done = err context_error

  -- `Login`
  unfoldable pub device_login : Waited → Result LoginFailure Text
  unfolding complete_auth
  device_login waited = do
    r ← or_failure create_failed platform.create_auth_request
    after_wait r waited

  -- What stands behind a token.
  pub record IsLicensed (waited : Waited) (token : Text) : Type 0 where
    pub request : AuthRequest
    pub created : platform.create_auth_request ≡ some request
    pub answered : waited ≡ responded false
    pub confirmed :
        platform.check_auth_request_confirmed request.id request.exchange_token ≡ some true
    pub bearer : Text
    pub exchanged : platform.exchange_auth_request request.id request.exchange_token ≡ some bearer
    pub licensed : platform.get_license_token bearer ≡ some token

  or_failure-eq-ok :
      {A : Type 0} (e : LoginFailure) (o : Option A) {a : A} → or_failure e o ≡ ok a → o ≡ some a
  or_failure-eq-ok e none h = cc
  or_failure-eq-ok e (some a) h = cc

  after_wait-answered :
      (r : AuthRequest) (waited : Waited) {token : Text}
      → after_wait r waited ≡ ok token
      → (waited ≡ responded false) × (complete_auth r ≡ ok token)
  after_wait-answered r (responded true) h = cc
  after_wait-answered r (responded false) h = (refl, h)
  after_wait-answered r context_done h = cc

  -- A login that returns a token was answered by the user, confirmed on the platform, and the token is
  -- the license token for what the request was exchanged for.
  pub device_login-IsLicensed :
      (waited : Waited) {token : Text} → device_login waited ≡ ok token → IsLicensed waited token
  unfolding device_login complete_auth
  device_login-IsLicensed waited h =
      let (r, created, h₁) =
        >>=-eq-ok (or_failure create_failed platform.create_auth_request) _ h in
      let (answered, h₂) = after_wait-answered r waited h₁ in
      let (b, checked, h₃) =
        >>=-eq-ok
          (or_failure check_failed (platform.check_auth_request_confirmed r.id r.exchange_token)) _
          h₂ in
      let (u, confirmed, h₄) = >>=-eq-ok (guard b not_confirmed) _ h₃ in
      let (bearer, exchanged, h₅) =
        >>=-eq-ok
          (or_failure exchange_failed (platform.exchange_auth_request r.id r.exchange_token)) _
          h₄ in
      record {
        request = r;
        created = or_failure-eq-ok create_failed _ created;
        answered = answered;
        confirmed =
            or_failure-eq-ok check_failed _ checked
            ∙ ap some (guard-eq-ok b not_confirmed confirmed);
        bearer = bearer;
        exchanged = or_failure-eq-ok exchange_failed _ exchanged;
        licensed = or_failure-eq-ok token_failed _ h₅;
      }
