-- ===== src/Config/Volumes.antt =====
-- internal/config/containers.go: bind mounts. The home directory is an argument, `none` if it cannot
-- be determined, and so is the directory against which relative sources are resolved.
pub mod Laws
use lstk.Text.Search.{split, has_prefix}
use lstk.Text.Paths.{join_path, is_abs}
use lstk.Prelude.{
  guard, drop, ℕ, zero, suc, ◌+◌, ◌-◌, ◌≤◌, ◌<◌, ◌≡◌, refl, sym, ap, ◌∙◌, ◌≢◌, ◌↔◌, ◌⊎◌, inl, inr,
  Bool, true, false, not, ◌&&◌, ◌||◌, Option, none, some, List, [], ◌∷◌, ◌++◌, map, arith, ltb, leb,
  ◌==◌, nat_eq, all, any, All, if◌then◌else◌, Bool-cases, Result, ok, err, ◌>>=◌, ◌>>◌,
}
use lstk.Text.Basic.{is_upper, is_lower, Text, codes, text_eq, text_beq_iff}

pub data VolumeError : Type 0 where
  bad_spec : VolumeError
  source_empty target_empty no_home : VolumeError
  target_relative : Text → VolumeError

pub record VolumeMount : Type 0 where
  pub source : Text
  pub target : Text
  pub read_only : Bool

abbrev pub persistence_target : Text
persistence_target = codes "/var/lib/localstack"

abbrev pub is_drive_letter : ℕ → Bool
is_drive_letter b = is_lower b || is_upper b

-- Whether the first two parts are a drive letter and the rest of its path.
abbrev pub is_drive : List Text → Bool
is_drive ((d ∷ []) ∷ p ∷ rest) =
    is_drive_letter d && (has_prefix p (codes "\\") || has_prefix p (codes "/"))
is_drive _ = false

abbrev pub join_drive : List Text → List Text
join_drive (d ∷ p ∷ rest) = (d ++ b':' ∷ p) ∷ rest
join_drive parts = parts

-- The `switch` on the number of parts.
abbrev pub fields_of : List Text → Result VolumeError (Text × Text × Text)
fields_of (source ∷ target ∷ []) = ok (source, target, [])
fields_of (source ∷ target ∷ opts ∷ []) = ok (source, target, opts)
fields_of _ = err bad_spec

-- `splitVolumeSpec`
unfoldable pub split_volume_spec : Text → Bool → Result VolumeError (Text × Text × Text)
split_volume_spec spec windows =
    let parts = split spec b':' in
    fields_of (if windows && is_drive parts then join_drive parts else parts)

-- `resolveHostPath`
abbrev pub under_home : Option Text → Text → Result VolumeError Text
under_home none host_path = err no_home
under_home (some home) host_path = ok (join_path home (drop 1 host_path))

unfoldable pub expand_tilde : Option Text → Text → Result VolumeError Text
expand_tilde home host_path =
    if host_path == codes "~" || has_prefix host_path (codes "~/")
    then under_home home host_path
    else ok host_path

unfoldable pub resolve_host_path : Option Text → Text → Text → Result VolumeError Text
unfolding expand_tilde
resolve_host_path home config_dir host_path = do
  expanded ← expand_tilde home host_path
  ok (if is_abs expanded then expanded else join_path config_dir expanded)

-- `parseVolume`, on Unix.
unfoldable pub parse_volume : Option Text → Text → Text → Result VolumeError VolumeMount
unfolding split_volume_spec resolve_host_path
parse_volume home config_dir spec = do
  (source, target, opts) ← split_volume_spec spec false
  guard (not (source == [])) source_empty
  guard (not (target == [])) target_empty
  guard (is_abs target) (target_relative target)
  resolved ← resolve_host_path home config_dir source
  ok (record {
    source = resolved;
    target = target;
    read_only = any (λ opt. opt == codes "ro") (split opts b',');
  })

-- `parsedVolumes`
unfoldable pub parsed_volumes :
    Option Text → Text → List Text → Result VolumeError (List VolumeMount)
parsed_volumes home config_dir [] = ok []
parsed_volumes home config_dir (spec ∷ volumes) = do
  m ← parse_volume home config_dir spec
  mounts ← parsed_volumes home config_dir volumes
  ok (m ∷ mounts)

-- The loop of `ExtraVolumes`.
unfoldable pub without_persistence : List VolumeMount → List VolumeMount
without_persistence [] = []
without_persistence (m ∷ mounts) =
    let rest = without_persistence mounts in
    if m.target == persistence_target then rest else m ∷ rest

-- The loop of `VolumeDir`.
unfoldable pub persistence_source : List VolumeMount → Option Text
persistence_source [] = none
persistence_source (m ∷ mounts) =
    let rest = persistence_source mounts in
    if m.target == persistence_target then some m.source else rest

-- The loop of `validateVolumes`, from the source found so far.
unfoldable pub check_persistence : List VolumeMount → Text → Option Text
check_persistence [] source = some source
check_persistence (m ∷ mounts) source =
    let same = check_persistence mounts source in
    let next = check_persistence mounts m.source in
    if m.target == persistence_target then (if m.read_only then none else next) else same
