-- ===== src/Container/Licenses.antt =====
-- The license check in front of a start: `validateLicense`, `tryPrePullLicenseValidation`,
-- `validateLicensesFromImages` of internal/container/start.go, and the classification of the
-- server's answer in `GetLicense` of internal/api/client.go.
pub mod Laws
use lstk.Text.Search.{contains, trim_space}
use lstk.Config.Emulators.{self_validates_license}
use lstk.Config.Containers.{normalize_tag}
use lstk.Container.Outside.{
  LicenseError, license_rejected, denied, context_over, image_version_unknown, unreachable, granted,
  StartError, LicenseReply, Outside, Container,
}
use lstk.Text.Basic.{text_eq, codes, Text}
use lstk.Prelude.{
  nat_eq, ◌&&◌, none, ◌∷◌, some, [], ◌||◌, not, false, if◌then◌else◌, ◌==◌, Option, List, Bool, ℕ,
  ok,
}
use lstk.Container.Actions.{modify, gets, perform, fail, pure, Action, ◌>>=◌, ◌>>◌}

-- internal/api/client.go, `GetLicense`: the answer with this status and body; `decodes` is whether
-- the body is a license.
unfoldable pub license_reply : ℕ → Text → Bool → LicenseReply
license_reply status body decodes =
    if status == 200
    then (if decodes then granted body else unreachable)
    else denied (record {
      status = status;
      detail = trim_space body;
      is_unsupported_tag =
          status == 400 && contains (trim_space body) (codes "licensing.license.format");
    })

-- `isDefinitiveLicenseRejection`
unfoldable pub is_definitive_license_rejection : ℕ → Bool
is_definitive_license_rejection status = status == 400 || status == 401 || status == 403

-- `errors.As(err, &rejErr)`
unfoldable pub rejection : StartError → Option LicenseError
rejection (license_rejected product version e) = some e
rejection _ = none

abbrev pub is_pinned : Container → Bool
is_pinned c = not (c.tag == []) && not (c.tag == codes "latest")

abbrev pub with_tag : Text → Container → Container
with_tag tag c = record {
  image = c.image;
  name = c.name;
  emulator = c.emulator;
  port = c.port;
  container_port = c.container_port;
  bind_host = c.bind_host;
  health_path = c.health_path;
  env = c.env;
  tag = tag;
  product_name = c.product_name;
  binds = c.binds;
  extra_ports = c.extra_ports;
}

-- Whether a pinned image is known to be present.
abbrev pub is_local : Option Bool → Bool
is_local none = false
is_local (some b) = b

module _ {S : Type 0} (outside : Outside S) where
  -- What `validateLicense` makes of the answer; the result says whether the license file was written.
  -- A license without bytes is not written.
  unfoldable pub store_license : Text → Action StartError S Bool
  store_license [] = pure false
  store_license (b ∷ bytes) = perform (λ s. outside.write_license s (b ∷ bytes))

  unfoldable pub judge_license : Container → LicenseReply → Action StartError S Bool
  unfolding store_license is_definitive_license_rejection
  judge_license c (granted bytes) = store_license bytes
  judge_license c unreachable = do
    over ← gets outside.context_done
    if over then fail context_over else pure false
  judge_license c (denied e) = do
    over ← gets outside.context_done
    if over
        then fail context_over
        else if e.is_unsupported_tag
        then pure false
        else if not (is_definitive_license_rejection e.status)
        then pure false
        else (perform outside.remove_license >> fail (license_rejected c.product_name c.tag e))

  -- `validateLicense`
  unfoldable pub validate_license : Text → Container → Action StartError S Bool
  unfolding judge_license
  validate_license token c = do
    reply ← perform (λ s.
        outside.get_license s
          (record { product = c.product_name; version = normalize_tag c.tag; token = token }))
    judge_license c reply

  -- `tryPrePullLicenseValidation`: the containers left for later, and whether the file was written.
  unfoldable pub pre_pull :
      Text → Bool → List Container → Action StartError S (List Container × Bool)
  unfolding validate_license
  pre_pull token force [] = pure ([], false)
  pre_pull token force (c ∷ containers) =
      let rest = pre_pull token force containers in
      if self_validates_license c.emulator
      then rest
      else if is_pinned c
      then (do
        present ← gets (λ s. not force && is_local (outside.image_exists s c.image))
        wrote ← if present then pure false else validate_license token c
        (later, refreshed) ← rest
        pure (later, wrote || refreshed))
      else (do (later, refreshed) ← rest; pure (c ∷ later, refreshed))

  abbrev pub or_unknown : Text → Option Text → Action StartError S Text
  or_unknown image none = fail (image_version_unknown image)
  or_unknown image (some v) = pure v

  -- `validateLicensesFromImages`: the version of the first container that is validated (empty if
  -- there is none), and whether the file was written.
  unfoldable pub from_images : Text → List Container → Action StartError S (Text × Bool)
  unfolding validate_license
  from_images token [] = pure ([], false)
  from_images token (c ∷ containers) =
      let rest = from_images token containers in
      if self_validates_license c.emulator then rest else (do
        found ← gets (λ s. outside.image_version s c.image)
        v ← or_unknown c.image found
        wrote ← validate_license token (with_tag v c)
        (version, refreshed) ← rest
        pure (if v == [] then version else v, wrote || refreshed))
