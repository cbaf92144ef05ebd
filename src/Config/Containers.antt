-- ===== src/Config/Containers.antt =====
-- internal/config/containers.go: a `[[containers]]` block of the config file.
pub mod Laws
pub mod Valid
use lstk.Config.ExposePorts.{exposed_ports, PortError}
use lstk.Text.Search.{cut_last, contains_char}
use lstk.Config.Emulators.{
  default_port, emulator_azure, emulator_snowflake, known_images, emulator_health_paths,
  docker_registry, emulator_aws, find_text, product_of,
}
use lstk.Text.Decimal.{atoi, pos, negsuc, ℤ}
use lstk.Env.{entry}
use lstk.Text.Paths.{join_path}
use lstk.Config.Volumes.{
  VolumeError, check_persistence, without_persistence, persistence_source, parsed_volumes,
  VolumeMount, resolve_host_path,
}
use lstk.Validate
use lstk.Prelude.{
  guard, drop, take, ℕ, zero, suc, ◌+◌, ◌-◌, ◌≤◌, ◌<◌, ◌≡◌, refl, sym, ap, ◌∙◌, ◌≢◌, ◌↔◌, ◌⊎◌, inl,
  inr, Bool, true, false, not, ◌&&◌, ◌||◌, Option, none, some, List, [], ◌∷◌, ◌++◌, map, arith, ltb,
  leb, ◌==◌, nat_eq, all, any, All, if◌then◌else◌, Bool-cases, Result, ok, err, ◌>>=◌, ◌>>◌,
}
use lstk.Text.Basic.{
  to_upper, in_range, is_digit, byte_len, is_alnum, Text, codes, text_eq, text_beq_iff,
}

pub record ContainerConfig : Type 0 where
  pub type : Text
  pub tag : Text
  pub port : Text
  pub custom_image : Text
  pub custom_name : Text
  pub volume : Text
  pub volumes : List Text
  pub expose_ports : List Text
  pub env : List Text

pub data ConfigError : Type 0 where
  unsupported_tag port_required port_not_number port_out_of_range : ConfigError
  persistence_read_only persistence_twice no_cache_dir : ConfigError
  bad_container_name : Validate.Error → ConfigError
  bad_expose_port : PortError → ConfigError
  bad_volume : VolumeError → ConfigError
  unknown_environment not_supported : Text → ConfigError

-- An error of another component, put among those of the config.
abbrev pub as_config {ℓ} :
    {E : Type 0} {A : Type ℓ} → (E → ConfigError) → Result E A → Result ConfigError A
as_config f (ok a) = ok a
as_config f (err e) = err (f e)

-- `^(\d{4}\.)0([1-9].*)$` and the replacement; `.` is any character but a newline.
abbrev pub is_padded_month : Text → Bool
is_padded_month (a ∷ b ∷ c ∷ d ∷ dot ∷ zero_digit ∷ m ∷ rest) =
    all is_digit (a ∷ b ∷ c ∷ d ∷ [])
    && dot == b'.'
    && zero_digit == b'0'
    && in_range b'1' b'9' m
    && not (contains_char rest 10)
is_padded_month _ = false

unfoldable pub normalize_tag : Text → Text
normalize_tag tag = if is_padded_month tag then take 5 tag ++ drop 6 tag else tag

-- `^[a-zA-Z0-9_][a-zA-Z0-9._-]*$`
abbrev pub tag_char : ℕ → Bool
tag_char c = is_alnum c || c == b'.' || c == b'_' || c == b'-'

unfoldable pub valid_tag : Text → Bool
valid_tag [] = false
valid_tag (c ∷ s) = (is_alnum c || c == b'_') && all tag_char s

unfoldable pub validate_tag : Text → Result ConfigError (Unit {0})
unfolding valid_tag
validate_tag tag =
    if tag == []
    then ok tt
    else if ltb 128 (byte_len tag) || not (valid_tag tag)
    then err unsupported_tag
    else ok tt

-- `imageHasTag`, on what follows the last slash.
abbrev pub last_segment : Text → Option (Text × Text) → Text
last_segment image none = image
last_segment image (some (before, after)) = after

unfoldable pub image_has_tag : Text → Bool
image_has_tag image = contains_char (last_segment image (cut_last image b'/')) b':'

abbrev pub tag_or_latest : Text → Text
tag_or_latest tag = if tag == [] then codes "latest" else tag

-- `ProductName`
abbrev pub or_unsupported : Text → Option Text → Result ConfigError Text
or_unsupported t none = err (not_supported t)
or_unsupported t (some name) = ok name

unfoldable pub product_name : ContainerConfig → Result ConfigError Text
product_name c = or_unsupported c.type (product_of known_images c.type)

-- `Image`
unfoldable pub image : ContainerConfig → Result ConfigError Text
unfolding image_has_tag product_name
image c =
    if not (c.custom_image == [])
    then ok (
        if image_has_tag c.custom_image
        then c.custom_image
        else c.custom_image ++ b':' ∷ tag_or_latest c.tag)
    else (do
      product ← product_name c
      ok (docker_registry ++ b'/' ∷ (product ++ b':' ∷ tag_or_latest c.tag)))

-- `defaultName`, `Name`
unfoldable pub default_name : ContainerConfig → Text
default_name c =
    if c.tag == [] || c.tag == codes "latest"
    then codes "localstack-" ++ c.type
    else codes "localstack-" ++ (c.type ++ b'-' ∷ c.tag)

unfoldable pub name : ContainerConfig → Text
unfolding default_name
name c = if not (c.custom_name == []) then c.custom_name else default_name c

unfoldable pub health_path : ContainerConfig → Result ConfigError Text
health_path c = or_unsupported c.type (find_text emulator_health_paths c.type)

-- `ContainerPort`
unfoldable pub container_port_of : ContainerConfig → Result ConfigError Text
container_port_of c =
    if c.type == emulator_aws || c.type == emulator_snowflake || c.type == emulator_azure
    then ok (default_port ++ codes "/tcp")
    else err (not_supported c.type)

-- `ResolvedEnv`; a profile is a list of its variables, in the order in which Go's map yields them.
abbrev pub find_profile : List (Text × List (Text × Text)) → Text → Option (List (Text × Text))
find_profile [] name = none
find_profile ((n, vars) ∷ envs) name = if n == name then some vars else find_profile envs name

abbrev pub profile_entries : List (Text × Text) → List Text
profile_entries [] = []
profile_entries ((k, v) ∷ vars) = entry (to_upper k) v ∷ profile_entries vars

unfoldable pub resolved_env :
    List (Text × List (Text × Text)) → List Text → Result ConfigError (List Text)
resolved_env envs [] = ok []
resolved_env envs (n ∷ names) = elim (find_profile envs n) [
  | none ↦ err (unknown_environment n)
  | some vars ↦ (do rest ← resolved_env envs names; ok (profile_entries vars ++ rest))
]

module _ (home cache : Option Text) (config_dir : Text) where
  -- `ExtraVolumes`
  unfoldable pub extra_volumes : ContainerConfig → Result ConfigError (List VolumeMount)
  extra_volumes c = do
    mounts ← as_config bad_volume (parsed_volumes home config_dir c.volumes)
    ok (without_persistence mounts)

  -- `VolumeDir`
  abbrev pub default_volume_dir : ContainerConfig → Option Text → Result ConfigError Text
  default_volume_dir c none = err no_cache_dir
  default_volume_dir c (some dir) =
      ok (join_path (join_path (join_path dir (codes "lstk")) (codes "volume")) (default_name c))

  abbrev pub legacy_volume_dir : ContainerConfig → Option Text → Result ConfigError Text
  legacy_volume_dir c (some source) = ok source
  legacy_volume_dir c none =
      if not (c.volume == []) then ok c.volume else default_volume_dir c cache

  unfoldable pub volume_dir : ContainerConfig → Result ConfigError Text
  volume_dir c = do
    mounts ← as_config bad_volume (parsed_volumes home config_dir c.volumes)
    legacy_volume_dir c (persistence_source mounts)

  -- The end of `validateVolumes`, on the last persistence source (empty if there is none).
  abbrev pub check_conflict : ContainerConfig → Option Text → Result ConfigError (Unit {0})
  check_conflict c none = err persistence_read_only
  check_conflict c (some source) =
      if not (c.volume == []) && not (source == [])
      then (do
        resolved ← as_config bad_volume (resolve_host_path home config_dir c.volume)
        guard (resolved == source) persistence_twice)
      else ok tt

  unfoldable pub validate_volumes : ContainerConfig → Result ConfigError (Unit {0})
  validate_volumes c = do
    mounts ← as_config bad_volume (parsed_volumes home config_dir c.volumes)
    check_conflict c (check_persistence mounts [])

  abbrev pub check_name : Option Validate.Error → Result ConfigError (Unit {0})
  check_name none = ok tt
  check_name (some e) = err (bad_container_name e)

  abbrev pub check_port : Option ℤ → Result ConfigError (Unit {0})
  check_port none = err port_not_number
  check_port (some (negsuc n)) = err port_out_of_range
  check_port (some (pos n)) = guard (leb 1 n && leb n 65535) port_out_of_range

  -- `Validate`
  unfoldable pub validate : ContainerConfig → Result ConfigError (Unit {0})
  unfolding validate_volumes
  validate c = do
    validate_tag c.tag
    if not (c.custom_name == []) then check_name (Validate.container_name c.custom_name) else ok tt
    guard (not (c.port == [])) port_required
    check_port (atoi c.port)
    _ ← as_config bad_expose_port (exposed_ports c.expose_ports)
    validate_volumes c
