-- ===== src/Config/Containers/Laws.antt =====
-- internal/config/containers.go: images and tags.
use lstk.Config.Emulators.Laws.{emulator_type_for_image-product}
use lstk.Config.Emulators.{known_images, product_of, emulator_type_for_image, docker_registry}
use lstk.Text.Search.{cut_last, cut_last-absent, contains_char}
use lstk.Config.Containers.{
  tag_or_latest, product_name, ContainerConfig, image_has_tag, is_padded_month, validate_tag,
  normalize_tag, valid_tag, image, tag_char,
}
use lstk.Prelude.{
  >>=-eq-ok, ok-injective, append_assoc, drop, all_excludes, take, ℕ, ◌≡◌, refl, sym, inl, inr,
  true, false, [], ◌∷◌, ◌++◌, arith, ◌==◌, nat_eq, if◌then◌else◌, Bool-cases, ok, subst,
  Option-cases, if-cases,
}
use lstk.Text.Basic.{text_beq_refl, text_beq, Text, text_eq}

is_padded_month-normal :
    (tag : Text) → is_padded_month tag ≡ true → is_padded_month (take 5 tag ++ drop 6 tag) ≡ false
is_padded_month-normal (a ∷ b ∷ c ∷ d ∷ e ∷ f ∷ m ∷ r ∷ rest) h = ground (arith, h)
is_padded_month-normal (a ∷ b ∷ c ∷ d ∷ e ∷ f ∷ m ∷ []) h = refl
is_padded_month-normal (a ∷ b ∷ c ∷ d ∷ e ∷ f ∷ []) h = cc
is_padded_month-normal (a ∷ b ∷ c ∷ d ∷ e ∷ []) h = cc
is_padded_month-normal (a ∷ b ∷ c ∷ d ∷ []) h = cc
is_padded_month-normal (a ∷ b ∷ c ∷ []) h = cc
is_padded_month-normal (a ∷ b ∷ []) h = cc
is_padded_month-normal (a ∷ []) h = cc
is_padded_month-normal [] h = cc

-- Normalising a tag twice is normalising it once: no padded month is left.
pub normalize_tag_idem : (tag : Text) → normalize_tag (normalize_tag tag) ≡ normalize_tag tag
unfolding normalize_tag
normalize_tag_idem tag = elim (Bool-cases (is_padded_month tag)) [
  | inl p ↦ rw (p, is_padded_month-normal tag p) refl
  | inr n ↦ rw (n, n) refl
]

-- An image that lstk derives from the type of a block is recognised as one of that type, whatever
-- the tag.
emulator_type_for_image-image :
    (c : ContainerConfig) {i : Text}
    → c.custom_image ≡ []
    → image c ≡ ok i
    → emulator_type_for_image i ≡ c.type
unfolding image product_name
emulator_type_for_image-image c {i} e h = elim (Option-cases (product_of known_images c.type)) [
  | inl n ↦ absurd (ground (arith, e, n, text_beq_refl []))
  | inr (p, q) ↦
      subst (λ x. emulator_type_for_image x ≡ c.type)
        {x = docker_registry ++ b'/' ∷ (p ++ b':' ∷ tag_or_latest c.tag)}
        (ground (arith, e, q, text_beq_refl []))
        (emulator_type_for_image-product c.type (tag_or_latest c.tag) q)
]

image_has_tag-cons : (c : ℕ) (s : Text) → image_has_tag s ≡ true → image_has_tag (c ∷ s) ≡ true
unfolding image_has_tag cut_last
image_has_tag-cons c s h = elim (Option-cases (cut_last s b'/')) [
  | inl n ↦ ground (arith, n, h)
  | inr ((before, after), e) ↦ ground (arith, e, h)
]

-- A tag without a slash, behind a colon, is the tag of an image.
image_has_tag-append :
    (i tag : Text) → contains_char tag b'/' ≡ false → image_has_tag (i ++ b':' ∷ tag) ≡ true
image_has_tag-append [] tag h =
    unfold image_has_tag in rw (cut_last-absent (b':' ∷ tag) b'/' (ground (arith, h))) refl
image_has_tag-append (c ∷ i) tag h =
    image_has_tag-cons c (i ++ b':' ∷ tag) (image_has_tag-append i tag h)

tag_char-slash : (c : ℕ) → tag_char c ≡ true → (c == b'/') ≡ false
tag_char-slash c h = ground arith

valid_tag-slash : (tag : Text) → valid_tag tag ≡ true → contains_char tag b'/' ≡ false
unfolding valid_tag
valid_tag-slash [] h = cc
valid_tag-slash (c ∷ s) h =
    all_excludes tag_char (λ x. x == b'/') tag_char-slash (c ∷ s) (ground (arith, h))

tag_or_latest-slash :
    (tag : Text) → validate_tag tag ≡ ok tt → contains_char (tag_or_latest tag) b'/' ≡ false
unfolding validate_tag
tag_or_latest-slash tag v =
    if-cases (λ t. contains_char t b'/' ≡ false) (text_beq tag []) (λ _. refl)
      (λ n. valid_tag-slash tag (ground (arith, n, v)))

-- The image of a block whose tag is valid carries a tag, so that the daemon never picks one.
pub image_has_tag-image :
    (c : ContainerConfig) {i : Text}
    → validate_tag c.tag ≡ ok tt
    → image c ≡ ok i
    → image_has_tag i ≡ true
unfolding image
image_has_tag-image c {i} v h = elim (Bool-cases (text_beq c.custom_image [])) [
  | inr n ↦
      subst (λ x. image_has_tag x ≡ true)
        {x = if image_has_tag c.custom_image
          then c.custom_image
          else c.custom_image ++ b':' ∷ tag_or_latest c.tag}
        (ok-injective (rw n at h))
        (if-cases (λ x. image_has_tag x ≡ true) (image_has_tag c.custom_image) (λ t. t)
          (λ _. image_has_tag-append c.custom_image _ (tag_or_latest-slash c.tag v)))
  | inl e ↦
      let (product, _, h₁) = >>=-eq-ok (product_name c) _ (rw e at h) in
      subst (λ x. image_has_tag x ≡ true)
        {x = docker_registry ++ b'/' ∷ (product ++ b':' ∷ tag_or_latest c.tag)} (ok-injective h₁)
        (has_product product)
]
  where
    has_product :
        (product : Text)
        → image_has_tag (docker_registry ++ b'/' ∷ (product ++ b':' ∷ tag_or_latest c.tag)) ≡ true
    has_product product =
        rw (sym (append_assoc docker_registry (b'/' ∷ product) (b':' ∷ tag_or_latest c.tag)))
          (image_has_tag-append (docker_registry ++ b'/' ∷ product) _ (tag_or_latest-slash c.tag v))
