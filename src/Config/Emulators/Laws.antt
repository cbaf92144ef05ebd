-- ===== src/Config/Emulators/Laws.antt =====
-- internal/config/containers.go: the image of a type is recognised as that type.
use lstk.Text.Search.{cut}
use lstk.Config.Emulators.{
  emulator_azure, emulator_snowflake, docker_registry, emulator_type_for_image, emulator_aws,
  known_images, product_of,
}
use lstk.Prelude.{◌≡◌, refl, ◌⊎◌, inl, inr, some, ◌∷◌, ◌++◌, arith, nat_eq}
use lstk.Text.Basic.{text_beq, Text, codes, text_eq, text_beq_iff}

-- The types that have a default image.
pub product_of-cases :
    (t : Text) {p : Text}
    → product_of known_images t ≡ some p
    → ((t ≡ emulator_aws) × (p ≡ codes "localstack-pro"))
      ⊎ (((t ≡ emulator_snowflake) × (p ≡ codes "snowflake"))
          ⊎ ((t ≡ emulator_azure) × (p ≡ codes "localstack-azure")))
unfolding product_of
product_of-cases t h = ground (
  arith,
  text_beq_iff emulator_aws t,
  text_beq_iff emulator_snowflake t,
  text_beq_iff emulator_azure t,
)

pub emulator_type_for_image-product :
    (t tag : Text) {p : Text}
    → product_of known_images t ≡ some p
    → emulator_type_for_image (docker_registry ++ b'/' ∷ (p ++ b':' ∷ tag)) ≡ t
unfolding emulator_type_for_image cut text_beq
emulator_type_for_image-product t tag h = elim (product_of-cases t h) [
  | inl (e, q) ↦ rw (e, q) refl
  | inr (inl (e, q)) ↦ rw (e, q) refl
  | inr (inr (e, q)) ↦ rw (e, q) refl
]
