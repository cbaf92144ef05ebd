-- ===== src/Snapshot/Destination.antt =====
-- internal/snapshot/destination.go: the references by which users name snapshots, local paths among
-- them. The file system is a function `stat`, and the working directory, the home directory and the
-- generated name are arguments.
pub mod Pods
pub mod Cloud
pub mod Files
use lstk.Snapshot.Reference.{
  Destination, DestinationError, DestinationKind, R, Scheme, Url, credential_keys,
  credentials_in_s3_url, double_slash, file_not_found, home_not_set, invalid_pod_name,
  invalid_s3_url, invalid_version, is_s3_ref, legacy_snapshot_ext, local, local_file,
  missing_bucket, oras, other_scheme, parent_check, parent_missing, parent_not_directory,
  parse_pod_ref, parse_remote, parse_s3, path, path_is_directory, pod, pod_colon, pod_ref,
  pod_slashes, ref_required, remote_branch, remote_not_supported, s3, s3_scheme, scheme_of,
  snapshot_ext, split_pod_ref, unknown_scheme, validate_pod_name, validate_remote_pod_name,
  version_not_supported, versions_remote_unsupported, with_snapshot_ext,
}
use lstk.Prelude.{
  ℕ, zero, suc, ◌+◌, Bool, true, false, not, ◌&&◌, ◌||◌, Option, none, some, List, [], ◌∷◌, ◌++◌,
  ◌==◌, nat_eq, any, drop, if◌then◌else◌, Result, ok, err, ◌>>=◌, ◌>>◌, guard,
}
use lstk.Text.Basic.{equal_fold, Text, codes, text_eq, to_lower}
use lstk.Text.Search.{before_sub, has_prefix, contains, cut_last, trim_left}
use lstk.Text.Decimal.{itoa, parse_uint}
use lstk.Text.Paths.{abs_path, join_path, split_ext, ext, dir}
use lstk.Validate

-- `os.Stat`: no such entry, another failure, a directory, or anything else.
pub data Stat : Type 0 where
  missing failed directory file : Stat

-- A leading `~`.
abbrev pub has_tilde : Text → Bool
has_tilde ref = ref == codes "~" || has_prefix ref (codes "~/") || has_prefix ref (codes "~\\")

unfoldable pub expand_home : Text → Text → R Text
expand_home home ref =
    if has_tilde ref
    then if home == []
      then err (home_not_set ref)
      else ok (join_path home (trim_left (λ c. c == b'/' || c == b'\\') (drop 1 ref)))
    else ok ref

abbrev pub candidates : Text → List Text
candidates abs = abs ∷ (abs ++ snapshot_ext) ∷ (abs ++ legacy_snapshot_ext) ∷ []

module _ (stat : Text → Stat) where
  -- The loop of resolveSourcePath: the directory seen first is remembered.
  unfoldable pub resolve_loop : List Text → Option Text → Text → R Text
  resolve_loop [] none abs = err (file_not_found abs)
  resolve_loop [] (some dir_hit) abs = err (path_is_directory dir_hit)
  resolve_loop (candidate ∷ rest) dir_hit abs = elim (stat candidate) [
    | missing ↦ resolve_loop rest dir_hit abs
    | failed ↦ resolve_loop rest dir_hit abs
    | directory ↦ resolve_loop rest (elim dir_hit [ none ↦ some candidate | some d ↦ some d ]) abs
    | file ↦ ok candidate
  ]

  unfoldable pub resolve_source_path : Text → R Text
  unfolding resolve_loop
  resolve_source_path abs = resolve_loop (candidates abs) none abs

  -- The last part of ParseDestination, on an absolute path.
  unfoldable pub check_target : Text → R Destination
  check_target abs = elim (stat (dir abs)) [
    | missing ↦ err (parent_missing (dir abs))
    | failed ↦ err (parent_check (dir abs))
    | file ↦ err (parent_not_directory (dir abs))
    | directory ↦ elim (stat abs) [
      | directory ↦ err (path_is_directory abs)
      | _ ↦ ok (record { kind = local; value = with_snapshot_ext abs; version = 0 })
    ]
  ]

module _ (stat : Text → Stat) (parse_url : Text → Option Url) (cwd home : Text) where
  abbrev source_path : Text → R Destination
  source_path ref = do
    expanded ← expand_home home ref
    resolved ← resolve_source_path stat (abs_path cwd expanded)
    ok (record { kind = local; value = resolved; version = 0 })

  unfoldable pub parse_source : Text → R Destination
  parse_source [] = err ref_required
  parse_source (c ∷ ref) = elim (parse_remote parse_url (c ∷ ref) true) [
    | some r ↦ r
    | none ↦ source_path (c ∷ ref)
  ]

  abbrev target_path : Text → R Destination
  target_path dest = do expanded ← expand_home home dest; check_target stat (abs_path cwd expanded)

  -- `generated` is the name `./snapshot-<time>-<random>`.
  unfoldable pub parse_destination : Text → Text → R Destination
  parse_destination generated [] = target_path generated
  parse_destination generated (c ∷ dest) = elim (parse_remote parse_url (c ∷ dest) false) [
    | some r ↦ r
    | none ↦ target_path (c ∷ dest)
  ]

  -- The checks behind ParseSource.
  unfoldable pub require_pod : Text → Bool → Destination → R Destination
  require_pod ref allow_version d = elim d.kind [
    | s3 ↦ err remote_not_supported
    | _ ↦
        if not (d.version == 0) && not allow_version
        then err (version_not_supported ref d.version)
        else ok d
  ]

  unfoldable pub parse_cloud_only : Text → Bool → R Destination
  parse_cloud_only ref allow_version =
      let lower = to_lower ref in
      if not (has_prefix lower (codes "pod:")) && not (contains lower (codes "://"))
      then err (local_file (with_snapshot_ext (abs_path cwd ref)))
      else (do d ← parse_source ref; require_pod ref allow_version d)

  unfoldable pub parse_removable : Text → R Destination
  parse_removable ref = parse_cloud_only ref false

  unfoldable pub parse_showable : Text → R Destination
  parse_showable ref = parse_cloud_only ref true

  unfoldable pub parse_versionable : Text → R Destination
  parse_versionable ref =
      if is_s3_ref ref then err versions_remote_unsupported else parse_cloud_only ref false
