-- ===== src/Config/Emulators.antt =====
-- internal/config/containers.go: the types of emulators and their images. A type is a text, since
-- the config file may hold any.
pub mod Laws
use lstk.Text.Search.{cut}
use lstk.Prelude.{
  ℕ, zero, suc, ◌+◌, ◌-◌, ◌≤◌, ◌<◌, ◌≡◌, refl, sym, ap, ◌∙◌, ◌≢◌, ◌↔◌, ◌⊎◌, inl, inr, Bool, true,
  false, not, ◌&&◌, ◌||◌, Option, none, some, List, [], ◌∷◌, ◌++◌, map, arith, ltb, leb, ◌==◌,
  nat_eq, all, any, All, if◌then◌else◌, Bool-cases, Result, ok, err, ◌>>=◌,
}
use lstk.Text.Basic.{Text, codes, text_eq, text_beq_iff}

abbrev pub emulator_aws : Text
emulator_aws = codes "aws"

abbrev pub emulator_snowflake : Text
emulator_snowflake = codes "snowflake"

abbrev pub emulator_azure : Text
emulator_azure = codes "azure"

abbrev pub default_port : Text
default_port = codes "4566"

abbrev pub docker_registry : Text
docker_registry = codes "localstack"

-- Go's lookup in a map literal.
abbrev pub find_text : List (Text × Text) → Text → Option Text
find_text [] k = none
find_text ((j, v) ∷ table) k = if j == k then some v else find_text table k

abbrev pub emulator_display_names : List (Text × Text)
emulator_display_names =
    (emulator_aws, codes "AWS")
    ∷ (emulator_snowflake, codes "Snowflake")
    ∷ (emulator_azure, codes "Azure")
    ∷ []

unfoldable pub short_name : Text → Text
short_name e = elim (find_text emulator_display_names e) [ none ↦ e | some name ↦ name ]

unfoldable pub display_name : Text → Text
unfolding short_name
display_name e = codes "LocalStack " ++ (short_name e ++ codes " Emulator")

unfoldable pub self_validates_license : Text → Bool
self_validates_license e = e == emulator_snowflake || e == emulator_azure

abbrev pub emulator_health_paths : List (Text × Text)
emulator_health_paths =
    (emulator_aws, codes "/_localstack/health")
    ∷ (emulator_snowflake, codes "/_localstack/health")
    ∷ (emulator_azure, codes "/_localstack/health")
    ∷ []

pub record KnownImage : Type 0 where
  pub emulator : Text
  pub product_name : Text
  pub is_default : Bool

abbrev pub known_images : List KnownImage
known_images =
    record { emulator = emulator_aws; product_name = codes "localstack-pro"; is_default = true }
    ∷ record { emulator = emulator_aws; product_name = codes "localstack"; is_default = false }
    ∷ record { emulator = emulator_snowflake; product_name = codes "snowflake"; is_default = true }
    ∷ record {
      emulator = emulator_azure;
      product_name = codes "localstack-azure";
      is_default = true;
    }
    ∷ []

abbrev pub repo_of : KnownImage → Text
repo_of e = docker_registry ++ b'/' ∷ e.product_name

-- The part of an image before its first colon.
abbrev pub before_colon : Text → Option (Text × Text) → Text
before_colon image none = image
before_colon image (some (repo, rest)) = repo

unfoldable pub type_of_repo : List KnownImage → Text → Text
type_of_repo [] repo = []
type_of_repo (e ∷ images) repo = if repo_of e == repo then e.emulator else type_of_repo images repo

-- `EmulatorTypeForImage`; the empty type if the image is unknown.
unfoldable pub emulator_type_for_image : Text → Text
unfolding type_of_repo
emulator_type_for_image image = type_of_repo known_images (before_colon image (cut image b':'))

unfoldable pub known_image_repos : List Text
known_image_repos = map repo_of known_images

unfoldable pub repos_for_type : List KnownImage → Text → List Text
repos_for_type [] t = []
repos_for_type (e ∷ images) t =
    let rest = repos_for_type images t in if e.emulator == t then repo_of e ∷ rest else rest

unfoldable pub known_image_repos_for_type : Text → List Text
unfolding repos_for_type
known_image_repos_for_type t = repos_for_type known_images t

-- The loop of `ProductName`.
unfoldable pub product_of : List KnownImage → Text → Option Text
product_of [] t = none
product_of (e ∷ images) t =
    if e.is_default && e.emulator == t then some e.product_name else product_of images t
