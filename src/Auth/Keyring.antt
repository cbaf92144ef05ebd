-- ===== src/Auth/Keyring.antt =====
-- internal/auth/token_storage.go: `systemTokenStorage`, the system's keyring with the token file behind
-- it. The keyring is a parameter.
use lstk.Auth.{token_not_found, TokenStorage, IsStorage, StorageError}
use lstk.Text.Search.{trim_space}
use lstk.Prelude.{refl, if◌then◌else◌, ◌≡◌, Result, ok, err, Bool}
use lstk.Text.Basic.{Text}

pub data KeyringError : Type 0 where
  not_found unavailable : KeyringError

-- `keyringer`, on a state of its own, for lstk's service and user.
pub record Keyring {ℓ} (K : Type ℓ) : Type ℓ where
  pub get : K → Result KeyringError Text
  pub set : K → Text → Result KeyringError (Unit {0}) × K
  pub delete : K → Result KeyringError (Unit {0}) × K

-- `systemTokenStorage` without its logger.
module _ {ℓ κ} {K : Type ℓ} {F : Type κ} (keyring : Keyring K) (file : TokenStorage F) where
  abbrev pub or_file_get : F → Result KeyringError Text → Result StorageError Text
  or_file_get f (ok token) = ok token
  or_file_get f (err e) = file.get_auth_token f

  -- `GetAuthToken`
  abbrev pub system_get : K × F → Result StorageError Text
  system_get (k, f) = or_file_get f (keyring.get k)

  -- `SetAuthToken`
  abbrev pub or_file_set :
      F → Text → Result KeyringError (Unit {0}) × K → Result StorageError (Unit {0}) × (K × F)
  or_file_set f token (ok u, k) = (ok tt, (k, f))
  or_file_set f token (err e, k) =
      ((file.set_auth_token f token).0, (k, (file.set_auth_token f token).1))

  abbrev pub system_set : K × F → Text → Result StorageError (Unit {0}) × (K × F)
  system_set (k, f) token = or_file_set f token (keyring.set k token)

  -- `DeleteAuthToken`
  abbrev pub system_delete : K × F → Result StorageError (Unit {0}) × (K × F)
  system_delete (k, f) =
      ((file.delete_auth_token f).0, ((keyring.delete k).1, (file.delete_auth_token f).1))

  abbrev pub system_storage : TokenStorage (K × F)
  system_storage = record {
    get_auth_token = system_get;
    set_auth_token = system_set;
    delete_auth_token = system_delete;
  }

  -- What the keyring answers, or else what the file would.
  abbrev pub keyring_or :
      Result KeyringError Text → Result StorageError Text → Result StorageError Text
  keyring_or (ok token) rest = ok token
  keyring_or (err e) rest = rest

  module _ (file_laws : IsStorage file) where
    or_file-keyring_or :
        (f : F) (answer : Result KeyringError Text) (rest : Result StorageError Text)
        → file.get_auth_token f ≡ rest
        → or_file_get f answer ≡ keyring_or answer rest
    or_file-keyring_or f (ok token) rest h = refl
    or_file-keyring_or f (err e) rest h = h

    -- Behind a deletion that reports success, a token is found if and only if the keyring still answers
    -- with one, which it does where it can be read and not deleted from.
    pub system_delete-get :
        (s : K × F)
        → (system_delete s).0 ≡ ok tt
        → system_get (system_delete s).1
          ≡ keyring_or (keyring.get (keyring.delete s.0).1) (err token_not_found)
    system_delete-get (k, f) h = or_file-keyring_or _ _ _ (file_laws.get-delete f h)

    set_reads :
        (f : F) (token : Text) (r : Result KeyringError (Unit {0}) × K)
        → trim_space token ≡ token
        → (r.0 ≡ ok tt → keyring.get r.1 ≡ ok token)
        → (or_file_set f token r).0 ≡ ok tt
        → system_get (or_file_set f token r).1 ≡ keyring_or (keyring.get r.1) (ok token)
    set_reads f token (ok u, k) trimmed stored h = rw (stored refl) refl
    set_reads f token (err e, k) trimmed stored h =
        or_file-keyring_or _ _ _ (file_laws.get-set f token trimmed h)

    -- Over a keyring that reads back what it stored, a token whose storage reports success is read
    -- back, unless the keyring has refused it and still answers with another.
    system_set-get :
        (get-set : (k : K) (token : Text)
          → (keyring.set k token).0 ≡ ok tt
          → keyring.get (keyring.set k token).1 ≡ ok token)
        (s : K × F) (token : Text)
        → trim_space token ≡ token
        → (system_set s token).0 ≡ ok tt
        → system_get (system_set s token).1
          ≡ keyring_or (keyring.get (keyring.set s.0 token).1) (ok token)
    system_set-get get-set (k, f) token trimmed h =
        set_reads f token (keyring.set k token) trimmed (get-set k token) h

-- `NewTokenStorage`, where the config directory is known: whether the file is forced decides which of
-- the two is used.
pub data StorageChoice : Type 0 where
  file_only keyring_first : StorageChoice

abbrev pub new_token_storage : Bool → StorageChoice
new_token_storage force = if force then file_only else keyring_first
