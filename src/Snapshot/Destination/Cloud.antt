-- ===== src/Snapshot/Destination/Cloud.antt =====
-- internal/snapshot/destination.go: what the commands accept that work on cloud snapshots only.
use lstk.Snapshot.Destination.Pods.{parse_source_remote}
use lstk.Text.Decimal.{parse_uint-lt, parse_uint}
use lstk.Text.Search.{contains, has_prefix, cut_last}
use lstk.Text.Basic.{codes, to_lower, Text}
use lstk.Snapshot.Destination.{parse_source, require_pod, parse_cloud_only, Stat}
use lstk.Snapshot.Reference.{
  version_of, other_scheme, oras, s3_scheme, pod_colon, pod_slashes, remote_branch, parse_s3,
  Scheme, path, s3, R, Url, scheme_of, parse_remote, pod, validate_pod_name, Destination,
  split_pod_ref, parse_pod_ref,
}
use lstk.Prelude.{
  ap, ◌∙◌, sym, [], ◌∷◌, subst, ◌≢◌, ◌⊎◌, guard-eq-ok, drop, ◌||◌, >>=-eq-ok, Option-cases, guard,
  true, false, Bool, Bool-cases, inl, inr, ℕ, zero, suc, ◌<◌, ◌^◌, ◌≡◌, refl, arith, Option, none,
  some, ok, ◌==◌, nat_eq, not, ◌&&◌,
}
use lstk.Validate.Names.{IsPodName, pod_name_iff}

-- An accepted cloud reference: a pod with a valid name and a version that fits 31 bits, which is 0
-- (the latest) unless versions are allowed.
pub record IsCloudRef (allow_version : Bool) (d : Destination) : Type 0 where
  pub is_pod : d.kind ≡ pod
  pub named : IsPodName d.value
  pub bounded : d.version < 2 ^ 31
  pub latest : allow_version ≡ false → d.version ≡ 0

version_of-lt :
    (name suffix display n : Text) (parsed : Option ℕ) (v : ℕ)
    → ((m : ℕ) → parsed ≡ some m → m < 2 ^ 31)
    → version_of name suffix display parsed ≡ ok (n, v)
    → v < 2 ^ 31
version_of-lt name suffix display n none v lt h = cc
version_of-lt name suffix display n (some zero) v lt h = cc
version_of-lt name suffix display n (some (suc m)) v lt h = ground (arith, lt (suc m) refl)

split_pod_ref-lt :
    (raw display name : Text) (version : ℕ)
    → split_pod_ref raw display ≡ ok (name, version)
    → version < 2 ^ 31
unfolding split_pod_ref
split_pod_ref-lt raw display name version h = elim (Option-cases (cut_last raw b':')) [
  | inl e ↦ ground (arith, e)
  | inr (parts, e) ↦
      version_of-lt parts.0 parts.1 display name (parse_uint 31 parts.1) version
        (λ m p. parse_uint-lt 31 parts.1 p) (rw (e, split_pod_ref) at h)
]

validate_pod_name-ok : (name : Text) → validate_pod_name name ≡ ok tt → IsPodName name
unfolding validate_pod_name
validate_pod_name-ok name h = (pod_name_iff name).0 (ground arith)

accepted_pod :
    {allow_version : Bool} {d : Destination} (name : Text) (version : ℕ)
    → version < 2 ^ 31
    → IsPodName name
    → (version == 0 || allow_version) ≡ true
    → ◌≡◌ {A = R Destination} (ok (record { kind = pod; value = name; version = version })) (ok d)
    → IsCloudRef allow_version d
accepted_pod {allow_version} {d} name version lt valid allowed h =
    let e : record { kind = pod; value = name; version = version } ≡ d = cc in
    subst (IsCloudRef allow_version) e
      (record { is_pod = refl; named = valid; bounded = lt; latest = λ f. ground (arith, f) })

-- Every pod reference that is accepted is a valid one.
pub parse_pod_ref-IsCloudRef :
    (ref : Text) (allow_version : Bool) {d : Destination}
    → parse_pod_ref ref allow_version ≡ ok d
    → IsCloudRef allow_version d
unfolding parse_pod_ref
parse_pod_ref-IsCloudRef ref allow_version {d} h =
    let ((name, version), split, h₁) = >>=-eq-ok (split_pod_ref (drop 4 ref) ref) _ h in
    let (u, valid, h₂) = >>=-eq-ok (validate_pod_name name) _ h₁ in
    let (v, allowed, h₃) = >>=-eq-ok (guard (version == 0 || allow_version) _) _ h₂ in
    accepted_pod name version (split_pod_ref-lt (drop 4 ref) ref name version split)
      (validate_pod_name-ok name valid) (guard-eq-ok _ _ allowed) h₃

abbrev is_local : Text → Bool
is_local ref =
    not (has_prefix (to_lower ref) (codes "pod:")) && not (contains (to_lower ref) (codes "://"))

not_path : (ref : Text) → is_local ref ≡ false → scheme_of ref ≢ path
unfolding scheme_of
not_path ref h = ground arith

parse_s3-kind :
    (parse_url : Text → Option Url) (ref : Text) {d : Destination}
    → parse_s3 parse_url ref ≡ ok d
    → d.kind ≡ s3
unfolding parse_s3
parse_s3-kind parse_url ref h = ground arith

-- What ParseSource returns for a reference with a scheme.
remote_branch-ok :
    (parse_url : Text → Option Url) (ref : Text) (scheme : Scheme) {r : R Destination}
    {d : Destination}
    → remote_branch parse_url ref true scheme ≡ some r
    → r ≡ ok d
    → IsCloudRef true d ⊎ (d.kind ≡ s3)
remote_branch-ok parse_url ref pod_slashes e h = cc
remote_branch-ok parse_url ref pod_colon e h = inl (parse_pod_ref-IsCloudRef ref true (cc))
remote_branch-ok parse_url ref s3_scheme {d = d} e h =
    inr (parse_s3-kind parse_url ref {d = d} (cc))
remote_branch-ok parse_url ref oras e h = cc
remote_branch-ok parse_url ref other_scheme e h = cc
remote_branch-ok parse_url ref path e h = cc

remote_branch-none :
    (parse_url : Text → Option Url) (ref : Text) (allow_version : Bool) (scheme : Scheme)
    → remote_branch parse_url ref allow_version scheme ≡ none
    → scheme ≡ path
remote_branch-none parse_url ref allow_version pod_slashes e = cc
remote_branch-none parse_url ref allow_version pod_colon e = cc
remote_branch-none parse_url ref allow_version s3_scheme e = cc
remote_branch-none parse_url ref allow_version oras e = cc
remote_branch-none parse_url ref allow_version other_scheme e = cc
remote_branch-none parse_url ref allow_version path e = refl

module _ (stat : Text → Stat) (parse_url : Text → Option Url) (cwd home : Text) where
  parse_source-ok :
      (ref : Text) {d : Destination}
      → scheme_of ref ≢ path
      → parse_source stat parse_url cwd home ref ≡ ok d
      → IsCloudRef true d ⊎ (d.kind ≡ s3)
  unfolding parse_source parse_remote
  parse_source-ok [] no_path h = cc
  parse_source-ok (c ∷ ref) no_path h =
      elim (Option-cases (parse_remote parse_url (c ∷ ref) true)) [
        | inl e ↦ absurd (no_path (remote_branch-none parse_url (c ∷ ref) true _ e))
        | inr (r, e) ↦
            remote_branch-ok parse_url (c ∷ ref) _ e
              (sym (parse_source_remote stat parse_url cwd home c ref e) ∙ h)
      ]

  require_pod-IsCloudRef :
      (ref : Text) (allow_version : Bool) (d : Destination) {r : Destination}
      → IsCloudRef true d ⊎ (d.kind ≡ s3)
      → require_pod stat parse_url cwd home ref allow_version d ≡ ok r
      → (d ≡ r) × IsCloudRef allow_version r
  unfolding require_pod
  require_pod-IsCloudRef ref allow_version d (inr s) h = ground (arith, s)
  require_pod-IsCloudRef ref allow_version d {r} (inl v) h =
      let e : d ≡ r = ground (arith, v.is_pod) in
      (
        e,
        subst (IsCloudRef allow_version) e (record {
          is_pod = v.is_pod;
          named = v.named;
          bounded = v.bounded;
          latest = λ f. ground (arith, f, v.is_pod);
        }),
      )

  -- A command that works on cloud snapshots only accepts nothing but what ParseSource makes of the
  -- reference, with its version, and only pods with a valid name and a version below 2^31, which is
  -- 0 where the command cannot honour one.
  pub parse_cloud_only-IsCloudRef :
      (ref : Text) (allow_version : Bool) {d : Destination}
      → parse_cloud_only stat parse_url cwd home ref allow_version ≡ ok d
      → (parse_source stat parse_url cwd home ref ≡ ok d) × IsCloudRef allow_version d
  unfolding parse_cloud_only
  parse_cloud_only-IsCloudRef ref allow_version {d} h = elim (Bool-cases (is_local ref)) [
    | inl e ↦ ground (arith, e)
    | inr e ↦
        let (r, parsed, kept) =
          >>=-eq-ok (parse_source stat parse_url cwd home ref)
            (require_pod stat parse_url cwd home ref allow_version)
            (rw (e, parse_cloud_only) at h) in
        let (same, valid) =
          require_pod-IsCloudRef ref allow_version r (parse_source-ok ref (not_path ref e) parsed)
            kept in
        (parsed ∙ ap ok same, valid)
  ]
