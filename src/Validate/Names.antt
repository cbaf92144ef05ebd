-- ===== src/Validate/Names.antt =====
-- internal/validate/validate.go: exactly which names and tokens are accepted.
use lstk.Prelude.{
  ℕ, ◌≤◌, ◌≡◌, ◌↔◌, refl, true, false, none, [], ◌∷◌, arith, ◌==◌, nat_eq, all, any, all_excludes,
  all_mono,
}
use lstk.Text.Basic.{Text, codes, is_alnum, is_digit, is_control, is_space, byte_len}
use lstk.Text.Search.{contains_char, contains_any}
use lstk.Validate.{
  is_empty, denied_control, contains_control_chars, pod_char, pod_name, shell_meta_chars,
  container_char, container_name, container_name_matches, aws_account_id, auth_token,
  auth_token_scan,
}

container_char-control : (c : ℕ) → container_char c ≡ true → denied_control c ≡ false
unfolding is_control
container_char-control c h = ground arith

container_char-percent : (c : ℕ) → container_char c ≡ true → (c == b'%') ≡ false
container_char-percent c h = ground arith

container_char-embedded : (c : ℕ) → container_char c ≡ true → contains_char (codes "/?#") c ≡ false
container_char-embedded c h = ground arith

container_char-metachars :
    (c : ℕ) → container_char c ≡ true → contains_char shell_meta_chars c ≡ false
container_char-metachars c h = ground arith

-- Text of allowed characters passes every deny-check.
record PassesDenials (value : Text) : Type 0 where
  control : contains_control_chars value ≡ false
  percent : contains_char value b'%' ≡ false
  embedded : contains_any value (codes "/?#") ≡ false
  metachars : contains_any value shell_meta_chars ≡ false

container_text-PassesDenials :
    (value : Text) → all container_char value ≡ true → PassesDenials value
unfolding contains_control_chars
container_text-PassesDenials value h = record {
  control = all_excludes container_char denied_control container_char-control value h;
  percent = all_excludes container_char (λ c. c == b'%') container_char-percent value h;
  embedded = all_excludes container_char _ container_char-embedded value h;
  metachars = all_excludes container_char _ container_char-metachars value h;
}

-- What a pod name has to be: neither empty nor longer than 128 bytes, and of letters, digits,
-- underscores and hyphens.
pub record IsPodName (value : Text) : Type 0 where
  pub nonempty : is_empty value ≡ false
  pub fits : byte_len value ≤ 128
  pub allowed : all pod_char value ≡ true

pod_char-container_char : (c : ℕ) → pod_char c ≡ true → container_char c ≡ true
pod_char-container_char c h = ground arith

-- A pod name is accepted exactly when it is one: the deny-checks in front of the allow-list refuse
-- nothing more.
pub pod_name_iff : (value : Text) → (pod_name value ≡ none) ↔ IsPodName value
unfolding pod_name
pod_name_iff value = (
  λ h. record { nonempty = ground arith; fits = ground arith; allowed = ground arith },
  λ v.
      let d : PassesDenials value =
        container_text-PassesDenials value
          (all_mono pod_char container_char pod_char-container_char value v.allowed) in
      rw (v.nonempty, d.control, d.percent, d.embedded, d.metachars)
        (ground (arith, v.fits, v.allowed)),
)

-- What a container name has to be: at most 128 bytes, a letter or digit first, then letters,
-- digits, underscores, dots and hyphens.
pub record IsContainerName (value : Text) : Type 0 where
  pub matches : container_name_matches value ≡ true
  pub fits : byte_len value ≤ 128

alnum-container_char : (c : ℕ) → is_alnum c ≡ true → container_char c ≡ true
alnum-container_char c h = ground arith

container_name_matches_chars :
    (value : Text) → container_name_matches value ≡ true → all container_char value ≡ true
unfolding container_name_matches
container_name_matches_chars [] h = refl
container_name_matches_chars (c ∷ s) h = ground (arith, alnum-container_char c)

container_name_matches_nonempty :
    (value : Text) → container_name_matches value ≡ true → is_empty value ≡ false
unfolding container_name_matches
container_name_matches_nonempty [] h = cc
container_name_matches_nonempty (c ∷ s) h = refl

-- A container name is accepted exactly when it is one.
pub container_name_iff : (value : Text) → (container_name value ≡ none) ↔ IsContainerName value
unfolding container_name
container_name_iff value = (
  λ h. record { matches = ground arith; fits = ground arith },
  λ v.
      let d : PassesDenials value =
        container_text-PassesDenials value (container_name_matches_chars value v.matches) in
      let n : is_empty value ≡ false = container_name_matches_nonempty value v.matches in
      rw (n, d.control, d.percent, d.embedded, d.metachars, v.matches) (ground (arith, v.fits)),
)

digit-control : (c : ℕ) → is_digit c ≡ true → denied_control c ≡ false
unfolding is_control
digit-control c h = ground arith

-- An account id is accepted exactly when it is twelve digits.
aws_account_id_iff :
    (value : Text)
    → (aws_account_id value ≡ none) ↔ ((all is_digit value ≡ true) × (byte_len value ≡ 12))
unfolding aws_account_id contains_control_chars byte_len
aws_account_id_iff [] = ground arith
aws_account_id_iff (c ∷ s) = (
  λ h. (ground arith, ground arith),
  λ v.
      let d : any denied_control (c ∷ s) ≡ false =
        all_excludes is_digit denied_control digit-control (c ∷ s) v.0 in
      rw d (ground (arith, v.0, v.1)),
)

auth_token_scan_iff :
    (value : Text)
    → (auth_token_scan value ≡ none)
      ↔ ((any is_control value ≡ false) × (any is_space value ≡ false))
unfolding auth_token_scan
auth_token_scan_iff [] = ground arith
auth_token_scan_iff (r ∷ value) = ground (arith, auth_token_scan_iff value)

-- A token is accepted exactly when no rune of it is a control character or white space and it has
-- at most 1024 bytes.
auth_token_iff :
    (value : Text)
    → (auth_token value ≡ none)
      ↔ ((any is_control value ≡ false) × (any is_space value ≡ false) × (byte_len value ≤ 1024))
unfolding auth_token byte_len
auth_token_iff [] = ground arith
auth_token_iff (c ∷ s) = ground (arith, auth_token_scan_iff (c ∷ s))
