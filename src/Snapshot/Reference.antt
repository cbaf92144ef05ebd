-- ===== src/Snapshot/Reference.antt =====
-- internal/snapshot/destination.go: references to snapshots, read by their schemes. `net/url.Parse` is a
-- parameter. An error is its kind with the values that its message shows.
use lstk.Prelude.{
  ℕ, zero, suc, Bool, ◌||◌, Option, none, some, List, [], ◌∷◌, ◌++◌, ◌==◌, nat_eq, any, drop,
  if◌then◌else◌, Result, ok, err, ◌>>=◌, ◌>>◌, guard,
}
use lstk.Text.Basic.{equal_fold, Text, codes, text_eq, to_lower}
use lstk.Text.Search.{before_sub, has_prefix, contains, cut_last}
use lstk.Text.Decimal.{itoa, parse_uint}
use lstk.Text.Paths.{split_ext, ext}
use lstk.Validate

pub data DestinationKind : Type 0 where
  local pod s3 : DestinationKind

pub record Destination : Type 0 where
  pub kind : DestinationKind
  pub value : Text
  pub version : ℕ

pub data DestinationError : Type 0 where
  ref_required remote_not_supported credentials_in_s3_url : DestinationError
  versions_remote_unsupported missing_bucket invalid_s3_url : DestinationError
  double_slash : Text → DestinationError
  invalid_version : Text → Text → DestinationError
  invalid_pod_name : Text → Validate.Error → DestinationError
  version_not_supported : Text → ℕ → DestinationError
  unknown_scheme home_not_set local_file path_is_directory : Text → DestinationError
  file_not_found parent_missing parent_check parent_not_directory : Text → DestinationError

abbrev pub R : Type 0 → Type 0
R A = Result DestinationError A

-- `url.Parse` as parseS3 uses it: the host and the keys of the query.
pub record Url : Type 0 where
  pub host : Text
  pub query_keys : List Text

abbrev pub snapshot_ext : Text
snapshot_ext = codes ".snapshot"

abbrev pub legacy_snapshot_ext : Text
legacy_snapshot_ext = codes ".zip"

unfoldable pub with_snapshot_ext : Text → Text
with_snapshot_ext path =
    if equal_fold (ext path) snapshot_ext then path else (split_ext path).0 ++ snapshot_ext

unfoldable pub is_s3_ref : Text → Bool
is_s3_ref ref = has_prefix (to_lower ref) (codes "s3://")

unfoldable pub validate_pod_name : Text → R (Unit {0})
validate_pod_name name = elim (Validate.pod_name name) [
  | none ↦ ok tt
  | some e ↦ err (invalid_pod_name name e)
]

-- `PodRef`: version 0 stands for the latest one.
unfoldable pub pod_ref : Text → ℕ → Text
pod_ref name zero = codes "pod:" ++ name
pod_ref name (suc v) = codes "pod:" ++ (name ++ b':' ∷ itoa (suc v))

abbrev pub version_of : Text → Text → Text → Option ℕ → R (Text × ℕ)
version_of name suffix display_ref none = err (invalid_version suffix display_ref)
version_of name suffix display_ref (some zero) = err (invalid_version suffix display_ref)
version_of name suffix display_ref (some (suc v)) = ok (name, suc v)

unfoldable pub split_pod_ref : Text → Text → R (Text × ℕ)
split_pod_ref raw display_ref = elim (cut_last raw b':') [
  | none ↦ ok (raw, 0)
  | some (name, suffix) ↦ version_of name suffix display_ref (parse_uint 31 suffix)
]

unfoldable pub validate_remote_pod_name : Text → R (Unit {0})
unfolding split_pod_ref validate_pod_name
validate_remote_pod_name name = do
  (_, version) ← split_pod_ref name name
  guard (version == 0) (version_not_supported name version)
  validate_pod_name name

-- `ref` begins with `pod:`, in any case.
unfoldable pub parse_pod_ref : Text → Bool → R Destination
unfolding split_pod_ref validate_pod_name
parse_pod_ref ref allow_version = do
  (name, version) ← split_pod_ref (drop 4 ref) ref
  validate_pod_name name
  guard (version == 0 || allow_version) (version_not_supported name version)
  ok (record { kind = pod; value = name; version = version })

abbrev pub credential_keys : List Text
credential_keys = codes "access_key_id" ∷ codes "secret_access_key" ∷ codes "session_token" ∷ []

-- What a reference is, by its prefix. The tests are those of the `switch` statements of ParseSource
-- and ParseDestination, which are the same.
pub data Scheme : Type 0 where
  pod_slashes pod_colon s3_scheme oras other_scheme path : Scheme

unfoldable pub scheme_of : Text → Scheme
scheme_of ref =
    let lower = to_lower ref in
    if has_prefix lower (codes "pod://")
    then pod_slashes
    else if has_prefix lower (codes "pod:")
    then pod_colon
    else if has_prefix lower (codes "s3://")
    then s3_scheme
    else if has_prefix lower (codes "oras://")
    then oras
    else if contains lower (codes "://")
    then other_scheme
    else path

module _ (parse_url : Text → Option Url) where
  unfoldable pub parse_s3 : Text → R Destination
  parse_s3 ref = elim (parse_url ref) [
    | none ↦ err invalid_s3_url
    | some u ↦
        if u.host == []
        then err missing_bucket
        else if any (λ k. any (λ q. q == k) u.query_keys) credential_keys
        then err credentials_in_s3_url
        else ok (record { kind = s3; value = ref; version = 0 })
  ]

  -- The branches of the `switch`; `none` for a path.
  abbrev pub remote_branch : Text → Bool → Scheme → Option (R Destination)
  remote_branch ref allow_version pod_slashes = some (err (double_slash ref))
  remote_branch ref allow_version pod_colon = some (parse_pod_ref ref allow_version)
  remote_branch ref allow_version s3_scheme = some (parse_s3 ref)
  remote_branch ref allow_version oras = some (err remote_not_supported)
  remote_branch ref allow_version other_scheme =
      some (err (unknown_scheme (before_sub ref (codes "://"))))
  remote_branch ref allow_version path = none

  unfoldable pub parse_remote : Text → Bool → Option (R Destination)
  parse_remote ref allow_version = remote_branch ref allow_version (scheme_of ref)
