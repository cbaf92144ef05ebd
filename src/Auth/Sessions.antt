-- ===== src/Auth/Sessions.antt =====
-- internal/auth/auth.go: what logging in again leaves behind.
use lstk.Text.Search.{trim_space}
use lstk.Auth.{World, LoginError, relogin, get_token, IsStorage, TokenStorage}
use lstk.Prelude.{
  ◌&&◌, ◌≡◌, refl, ◌≢◌, Bool, true, false, [], arith, nat_eq, if◌then◌else◌, Result, ok,
}
use lstk.Text.Basic.{text_beq, Text, text_eq, text_beq_iff}

module _ {ℓ} {S : Type ℓ} (storage : TokenStorage S) (laws : IsStorage storage) where
  -- After logging in again with a token that can be stored, that token is what lstk uses, without
  -- another login and whatever was stored before; the cached license is gone if its
  -- path is known and its file could be removed.
  pub relogin-get_token :
      (has_license_path allow_login : Bool) (token : Text) (next_login : Result LoginError Text)
      (w : World S)
      → token ≢ []
      → trim_space token ≡ token
      → (storage.set_auth_token (storage.delete_auth_token w.store).1 token).0 ≡ ok tt
      → (get_token storage [] allow_login next_login
            (relogin storage true has_license_path (ok token) w).1
          ≡ (ok token, (relogin storage true has_license_path (ok token) w).1))
        × ((relogin storage true has_license_path (ok token) w).1.license
            ≡ (if has_license_path && w.license_removable then false else w.license))
  unfolding get_token relogin text_beq
  relogin-get_token has_license_path allow_login token next_login w n t h =
      let stored = laws.get-set (storage.delete_auth_token w.store).1 token t h in
      let filled : text_beq token [] ≡ false = ground (arith, text_beq_iff token [], n) in
      (rw (stored, filled) refl, refl)
