-- ===== src/Auth.antt =====
-- internal/auth: which token lstk uses, logging in and out (auth.go), and the storage of the token
-- (the interface of token_storage.go, the implementation of file_token_storage.go).
-- The messages that are emitted are left out.
pub mod Files
pub mod Keyring
pub mod Login
pub mod Sessions
use lstk.Text.Search.{trim_space}
use lstk.Prelude.{
  ℕ, zero, suc, ◌+◌, ◌-◌, ◌≤◌, ◌<◌, ◌≡◌, refl, sym, ap, ◌∙◌, ◌≢◌, ◌↔◌, ◌⊎◌, inl, inr, Bool, true,
  false, not, ◌&&◌, ◌||◌, Option, none, some, List, [], ◌∷◌, ◌++◌, map, arith, ltb, leb, ◌==◌,
  nat_eq, all, any, All, if◌then◌else◌, Bool-cases, Result, ok, err, ◌>>=◌,
}
use lstk.Text.Basic.{Text, codes, text_eq, text_beq_iff}

pub data StorageError : Type 0 where
  token_not_found storage_failed : StorageError

-- `AuthTokenStorage`, on a state of its own.
pub record TokenStorage {ℓ} (S : Type ℓ) : Type ℓ where
  pub get_auth_token : S → Result StorageError Text
  pub set_auth_token : S → Text → Result StorageError (Unit {0}) × S
  pub delete_auth_token : S → Result StorageError (Unit {0}) × S

-- What clients rely on: a token that was stored is read back (the file trims it), and none is left
-- behind a deletion.
pub record IsStorage {ℓ} {S : Type ℓ} (storage : TokenStorage S) : Type ℓ where
  pub get-set :
      (s : S) (token : Text)
      → trim_space token ≡ token
      → (storage.set_auth_token s token).0 ≡ ok tt
      → storage.get_auth_token (storage.set_auth_token s token).1 ≡ ok token
  pub get-delete :
      (s : S)
      → (storage.delete_auth_token s).0 ≡ ok tt
      → storage.get_auth_token (storage.delete_auth_token s).1 ≡ err token_not_found

-- What the platform answers to a login.
pub data LoginError : Type 0 where
  login_canceled login_rejected : LoginError

pub data AuthError : Type 0 where
  authentication_required not_logged_in : AuthError
  login_failed : LoginError → AuthError
  read_failed delete_failed : StorageError → AuthError

-- The stored token, whether a license is cached, and whether its file could be removed. That a
-- removal fails is not looked at.
pub record World {ℓ} (S : Type ℓ) : Type ℓ where
  pub store : S
  pub license : Bool
  pub license_removable : Bool

abbrev pub or_empty : Result StorageError Text → Text
or_empty (err e) = []
or_empty (ok token) = token

module _ {ℓ} {S : Type ℓ} (storage : TokenStorage S) where
  -- `ResolveToken`
  unfoldable pub resolve_token : Text → S → Text
  resolve_token auth_token s =
      if not (auth_token == []) then auth_token else or_empty (storage.get_auth_token s)

  unfoldable pub login_and_store :
      Result LoginError Text → World S → Result AuthError Text × World S
  login_and_store (err e) w = (err (login_failed e), w)
  login_and_store (ok token) w = (
    ok token,
    record {
      store = (storage.set_auth_token w.store token).1;
      license = w.license;
      license_removable = w.license_removable;
    },
  )

  unfoldable pub get_token :
      Text → Bool → Result LoginError Text → World S → Result AuthError Text × World S
  unfolding resolve_token login_and_store
  get_token auth_token allow_login login w =
      let token = resolve_token auth_token w.store in
      if not (token == [])
      then (ok token, w)
      else if not allow_login
      then (err authentication_required, w)
      else login_and_store login w

  -- `has_license_path` is whether `licenseFilePath` is not empty.
  abbrev pub license_left : Bool → World S → Bool
  license_left has_license_path w =
      if has_license_path && w.license_removable then false else w.license

  abbrev pub discard : Bool → World S → World S
  discard has_license_path w = record {
    store = (storage.delete_auth_token w.store).1;
    license = license_left has_license_path w;
    license_removable = w.license_removable;
  }

  unfoldable pub relogin :
      Bool → Bool → Result LoginError Text → World S → Result AuthError Text × World S
  unfolding login_and_store
  relogin allow_login has_license_path login w =
      if not allow_login
      then (err authentication_required, w)
      else login_and_store login (discard has_license_path w)

  abbrev pub nothing_stored : Text → StorageError → Result AuthError (Unit {0})
  nothing_stored auth_token token_not_found =
      if not (auth_token == []) then ok tt else err not_logged_in
  nothing_stored auth_token storage_failed =
      if not (auth_token == []) then ok tt else err (read_failed storage_failed)

  abbrev pub after_delete :
      Bool → World S → Result StorageError (Unit {0}) × S → Result AuthError (Unit {0}) × World S
  after_delete has_license_path w (err e, s) = (
    err (delete_failed e),
    record { store = s; license = w.license; license_removable = w.license_removable },
  )
  after_delete has_license_path w (ok u, s) = (
    ok tt,
    record {
      store = s;
      license = license_left has_license_path w;
      license_removable = w.license_removable;
    },
  )

  abbrev pub after_get :
      Text → Bool → World S → Result StorageError Text → Result AuthError (Unit {0}) × World S
  after_get auth_token has_license_path w (err e) = (nothing_stored auth_token e, w)
  after_get auth_token has_license_path w (ok token) =
      after_delete has_license_path w (storage.delete_auth_token w.store)

  unfoldable pub logout : Text → Bool → World S → Result AuthError (Unit {0}) × World S
  logout auth_token has_license_path w =
      after_get auth_token has_license_path w (storage.get_auth_token w.store)
