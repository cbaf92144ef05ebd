-- ===== src/Snapshot/Destination/Pods.antt =====
-- internal/snapshot/destination.go: references to pods are read back from their print, and only
-- valid names and versions are accepted.
use lstk.Prelude.{
  ◌^◌, all_excludes, ℕ, zero, suc, ◌<◌, ◌≡◌, refl, ◌∙◌, Bool, true, false, Option, some, [], ◌∷◌,
  ◌++◌, arith, ◌==◌, nat_eq, ok,
}
use lstk.Text.Basic.{Text, codes, text_eq}
use lstk.Text.Decimal.{parse_uint-itoa, all_digits-itoa, itoa}
use lstk.Text.Search.{cut_last-append, cut_last-absent, has_prefix, contains_char}
use lstk.Snapshot.Destination.{parse_source, Stat}
use lstk.Snapshot.Reference.{
  version_of, Destination, R, parse_remote, pod, Url, pod_colon, scheme_of, split_pod_ref,
  validate_pod_name, parse_pod_ref, pod_ref,
}
use lstk.Text.Basic.{is_digit, codes, to_lower, lower, Text}
use lstk.Validate
use lstk.Validate.Names.{IsPodName, pod_name_iff}

colon_free : (c : ℕ) → Validate.pod_char c ≡ true → (c == b':') ≡ false
colon_free c h = ground arith

digit_colon_free : (c : ℕ) → is_digit c ≡ true → (c == b':') ≡ false
digit_colon_free c h = ground arith

pod_name-colon : (name : Text) → IsPodName name → contains_char name b':' ≡ false
pod_name-colon name v = all_excludes Validate.pod_char (λ c. c == b':') colon_free name v.allowed

itoa-colon : (n : ℕ) → contains_char (itoa n) b':' ≡ false
itoa-colon n = all_excludes is_digit (λ c. c == b':') digit_colon_free (itoa n) (all_digits-itoa n)

-- The text behind `pod:` in a reference.
abbrev pub pod_body : Text → ℕ → Text
pod_body name zero = name
pod_body name (suc v) = name ++ b':' ∷ itoa (suc v)

split_pod_ref-pod_body :
    (name display : Text) (version : ℕ)
    → IsPodName name
    → version < 2 ^ 31
    → split_pod_ref (pod_body name version) display ≡ ok (name, version)
unfolding split_pod_ref
split_pod_ref-pod_body name display zero v h =
    rw (cut_last-absent name b':' (pod_name-colon name v), split_pod_ref)
split_pod_ref-pod_body name display (suc n) v h =
    rw (cut_last-append name (itoa (suc n)) b':' (itoa-colon (suc n)), split_pod_ref)
      (rw (parse_uint-itoa 31 (suc n) h, version_of))

validate_pod_name-IsPodName : (name : Text) → IsPodName name → validate_pod_name name ≡ ok tt
unfolding validate_pod_name
validate_pod_name-IsPodName name v = rw ((pod_name_iff name).1 v, validate_pod_name)

parse_pod_ref-pod_body :
    (name : Text) (version : ℕ)
    → IsPodName name
    → version < 2 ^ 31
    → parse_pod_ref (codes "pod:" ++ pod_body name version) true
      ≡ ok (record { kind = pod; value = name; version = version })
unfolding parse_pod_ref
parse_pod_ref-pod_body name version v h =
    rw (split_pod_ref-pod_body name _ version v h, validate_pod_name-IsPodName name v)
      (ground arith)

slash_free : (c : ℕ) → Validate.pod_char c ≡ true → (lower c == b'/') ≡ false
unfolding lower
slash_free c h = ground arith

scheme_of-pod :
    (c : ℕ) (s : Text) → (lower c == b'/') ≡ false → scheme_of (codes "pod:" ++ c ∷ s) ≡ pod_colon
unfolding scheme_of to_lower has_prefix
scheme_of-pod c s h = rw h

scheme_of-pod_body :
    (name : Text) (version : ℕ)
    → IsPodName name
    → scheme_of (codes "pod:" ++ pod_body name version) ≡ pod_colon
scheme_of-pod_body [] version v = cc (v.nonempty)
scheme_of-pod_body (c ∷ s) zero v = scheme_of-pod c s (slash_free c (ground (arith, v.allowed)))
scheme_of-pod_body (c ∷ s) (suc n) v = scheme_of-pod c _ (slash_free c (ground (arith, v.allowed)))

pod_ref-pod_body :
    (name : Text) (version : ℕ) → pod_ref name version ≡ codes "pod:" ++ pod_body name version
unfolding pod_ref
pod_ref-pod_body name zero = refl
pod_ref-pod_body name (suc n) = refl

-- A reference with a scheme is what the branch for its scheme returns.
pub parse_source_remote :
    (stat : Text → Stat) (parse_url : Text → Option Url) (cwd home : Text) (c : ℕ) (ref : Text)
    {r : R Destination}
    → parse_remote parse_url (c ∷ ref) true ≡ some r
    → parse_source stat parse_url cwd home (c ∷ ref) ≡ r
unfolding parse_source
parse_source_remote stat parse_url cwd home c ref e = rw (e, parse_source)

pub parse_remote-pod :
    (parse_url : Text → Option Url) (ref : Text) (allow_version : Bool)
    → scheme_of ref ≡ pod_colon
    → parse_remote parse_url ref allow_version ≡ some (parse_pod_ref ref allow_version)
unfolding parse_remote
parse_remote-pod parse_url ref allow_version e = rw (e, parse_remote)

module _ (stat : Text → Stat) (parse_url : Text → Option Url) (cwd home : Text) where
  -- The reference that is printed for a valid pod name and a version below 2^31 is read back as that
  -- name and version (version 0 stands for the latest), whatever the file system holds.
  pub parse_source-pod_ref :
      (name : Text) (version : ℕ)
      → IsPodName name
      → version < 2 ^ 31
      → parse_source stat parse_url cwd home (pod_ref name version)
        ≡ ok (record { kind = pod; value = name; version = version })
  parse_source-pod_ref name version v h = rw (pod_ref-pod_body name version) (
      parse_source_remote stat parse_url cwd home _ _
        (parse_remote-pod parse_url _ true (scheme_of-pod_body name version v))
      ∙ parse_pod_ref-pod_body name version v h)
