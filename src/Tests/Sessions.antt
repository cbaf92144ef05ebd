-- ===== src/Tests/Sessions.antt =====
-- Logging out of and in again to a file.
use lstk.Auth.Login.{
  complete_auth, responded, Platform, device_login, device_login-IsLicensed, IsLicensed,
}
use lstk.Auth.Keyring.{
  Keyring, KeyringError, unavailable, not_found, system_storage, system_get, system_delete,
  system_delete-get,
}
use lstk.Auth.{TokenStorage}
use lstk.Auth.Sessions.{relogin-get_token}
use lstk.Text.Search.{trim_space}
use lstk.Auth.Files.{file_storage-IsStorage, TokenFile, file_storage}
use lstk.Auth.{relogin, logout, login_rejected, resolve_token, World, get_token}
use lstk.Prelude.{
  none, ◌==◌, Bool, Option, Result, ◌≡◌, refl, false, true, false, some, [], nat_eq, ok, err,
}
use lstk.Text.Basic.{Text, text_beq, codes, text_eq}

abbrev logged_in : World TokenFile
logged_in = record {
  store = record { content = some (codes "ls-old\n"); usable = true };
  license = true;
  license_removable = true;
}

old_token : resolve_token file_storage [] logged_in.store ≡ codes "ls-old"
unfolding resolve_token text_beq trim_space
old_token = refl

logout_test : (logout file_storage [] true logged_in).0 ≡ ok tt
unfolding trim_space logout
logout_test = refl

relogin-get_token_example :
    (get_token file_storage [] false
        (err login_rejected)
        (relogin file_storage true true (ok (codes "ls-new")) logged_in).1
      ≡ (ok (codes "ls-new"), (relogin file_storage true true (ok (codes "ls-new")) logged_in).1))
    × ((relogin file_storage true true (ok (codes "ls-new")) logged_in).1.license ≡ false)
unfolding trim_space
relogin-get_token_example =
    relogin-get_token file_storage file_storage-IsStorage true false (codes "ls-new")
      (err login_rejected) logged_in (λ e. cc) refl refl

-- A keyring that is a cell; one that is locked can be read, but not written or deleted from.
abbrev cell_get : Bool × Option Text → Result KeyringError Text
cell_get (locked, none) = err not_found
cell_get (locked, some token) = ok token

abbrev cell_set : Bool × Option Text → Text → Result KeyringError (Unit {0}) × (Bool × Option Text)
cell_set (true, o) token = (err unavailable, (true, o))
cell_set (false, o) token = (ok tt, (false, some token))

abbrev cell_delete : Bool × Option Text → Result KeyringError (Unit {0}) × (Bool × Option Text)
cell_delete (true, o) = (err unavailable, (true, o))
cell_delete (false, none) = (err not_found, (false, none))
cell_delete (false, some token) = (ok tt, (false, none))

abbrev cell : Keyring (Bool × Option Text)
cell = record { get = cell_get; set = cell_set; delete = cell_delete }

abbrev storage : TokenStorage ((Bool × Option Text) × TokenFile)
storage = system_storage cell file_storage

abbrev stores : (Bool × Option Text) × TokenFile
stores = ((true, some (codes "ls-old")), record { content = none; usable = true })

-- The locked keyring still has the token, although the deletion reports success.
system_delete-get_example :
    system_get cell file_storage (system_delete cell file_storage stores).1 ≡ ok (codes "ls-old")
system_delete-get_example = system_delete-get cell file_storage file_storage-IsStorage stores refl

-- So logging out does.
logout_keeps :
    resolve_token storage []
      (logout storage [] true
        (record { store = stores; license = true; license_removable = true })).1.store
    ≡ codes "ls-old"
unfolding logout resolve_token text_beq
logout_keeps = refl

abbrev platform : Platform
platform = record {
  create_auth_request =
      some (record { id = codes "1"; code = codes "AB"; exchange_token = codes "x" });
  check_auth_request_confirmed = λ id token. some (id == codes "1");
  exchange_auth_request = λ id token. some (codes "bearer");
  get_license_token = λ bearer. some (codes "ls-token");
}

logs_in : device_login platform (responded false) ≡ ok (codes "ls-token")
unfolding device_login complete_auth text_beq
logs_in = refl

device_login-IsLicensed_example : IsLicensed platform (responded false) (codes "ls-token")
device_login-IsLicensed_example = device_login-IsLicensed platform (responded false) logs_in
