-- ===== src/Container/Pulls/Laws.antt =====
-- internal/container/start.go: what is started behind `pullImages` has its image.
use lstk.Container.Licenses.{is_pinned}
use lstk.Container.Pulls.{pull_image, use_image, pull_one, pull_images, judge_pull}
use lstk.Text.Basic.{Text}
use lstk.Prelude.{
  none, ◌&&◌, sym, subst, Option, some, true, ◌≡◌, ◌∷◌, [], Bool, ◌≢◌, false, List, refl, arith,
}
use lstk.Container.Actions.{◌>>=◌, pure, fail, or_fail}
use lstk.Container.Actions.Outcomes.{Ends, returns, fails, follow-Ends, if-Ends, weaken}
use lstk.Container.Outside.{
  pull_canceled, pull_done, pull_skipped, image_check_failed, pull_failed, remove_failed, Pull,
  Container, Outside,
}

module _ {S : Type 0} (outside : Outside S) where
  -- Where the images that were not pulled come from: each was there before its pull, if any, began.
  pub data Sources : S → List Container → List (Text × Bool) → S → Type 0 where
    none_left : (s : S) → Sources s [] [] s
    was_pulled :
        (c : Container) (containers : List Container) (s s₁ s' : S) (pulled : List (Text × Bool))
        → Sources s₁ containers pulled s'
        → Sources s (c ∷ containers) ((c.name, true) ∷ pulled) s'
    was_local :
        (c : Container) (containers : List Container) (s s₁ s' : S) (pulled : List (Text × Bool))
        → outside.image_exists (outside.remove_container s c.name).1 c.image ≡ some true
        → Sources s₁ containers pulled s'
        → Sources s (c ∷ containers) ((c.name, false) ∷ pulled) s'

module _ {S : Type 0} (outside : Outside S)
    -- Only a pull that the user may abandon is abandoned.
    (no_skip : (s : S) (image : Text) → (outside.pull_image s image false).0 ≢ pull_skipped) where
  -- The pull itself: a local image is used only if there is one.
  judge_pull-local :
      (image : Text) (local_exists : Bool) (end' : Pull) (s : S)
      → (local_exists ≡ false → end' ≢ pull_skipped)
      → Ends
          (λ used s'. used ≡ true → local_exists ≡ true)
          (λ e s'. Unit {0})
          (judge_pull image local_exists end' s)
  unfolding judge_pull
  judge_pull-local image local_exists pull_done s h = returns _ _ (λ e. cc)
  judge_pull-local image true pull_skipped s h = returns _ _ (λ e. refl)
  judge_pull-local image false pull_skipped s h = elim (h refl refl) [ ]
  judge_pull-local image local_exists pull_canceled s h = fails _ _ tt
  judge_pull-local image true (pull_failed text) s h = returns _ _ (λ e. refl)
  judge_pull-local image false (pull_failed text) s h = fails _ _ tt

  pull_image-local :
      (interactive : Bool) (image : Text) (local_exists : Bool) (s : S)
      → Ends
          (λ used s'. used ≡ true → local_exists ≡ true)
          (λ e s'. Unit {0})
          (pull_image outside interactive image local_exists s)
  unfolding pull_image
  pull_image-local interactive image true s = judge_pull-local image true _ _ (λ e. cc)
  pull_image-local interactive image false s =
      judge_pull-local image false _ _ (λ e. no_skip s image)

  found-local :
      (interactive : Bool) (c : Container) (found : Option Bool) (s : S)
      → Ends
          (λ was_pulled s'. was_pulled ≡ false → found ≡ some true)
          (λ e s'. Unit {0})
          ((or_fail (image_check_failed c.image) found >>= use_image outside interactive c) s)
  unfolding pull_one
  found-local interactive c none s = fails _ _ tt
  found-local interactive c (some exists) s =
      if-Ends (exists && is_pinned c) (pure false) _ s (λ h. returns _ _ (λ e. ground (arith, h)))
        (λ h.
          follow-Ends _ _ (pull_image-local interactive c.image exists s)
            (λ used s₁ local'. returns _ _ (λ e. ground (arith, local', e))))

  pull_one-local :
      (interactive : Bool) (c : Container) (s : S)
      → Ends
          (λ was_pulled s'.
            was_pulled ≡ false
            → outside.image_exists (outside.remove_container s c.name).1 c.image ≡ some true)
          (λ e s'. Unit {0})
          (pull_one outside interactive c s)
  unfolding pull_one
  pull_one-local interactive c s =
      let s₁ = (outside.remove_container s c.name).1 in
      follow-Ends {P = λ u s'. s₁ ≡ s'} _ _
        (if-Ends (outside.remove_container s c.name).0 (pure tt) (fail (remove_failed c.name)) s₁
          (λ h. returns _ _ refl) (λ h. fails _ _ tt))
        (λ u s₂ e.
          weaken _ (found-local interactive c _ s₂)
            (λ was s' h'.
              subst (λ x. was ≡ false → outside.image_exists x c.image ≡ some true) (sym e) h')
            (λ e' s' t. tt))

  source :
      (c : Container) (containers : List Container) (s s₁ s' : S) (was : Bool)
      (pulled : List (Text × Bool))
      → (was ≡ false
          → outside.image_exists (outside.remove_container s c.name).1 c.image ≡ some true)
      → Sources outside s₁ containers pulled s'
      → Sources outside s (c ∷ containers) ((c.name, was) ∷ pulled) s'
  source c containers s s₁ s' true pulled h rest = was_pulled c containers s s₁ s' pulled rest
  source c containers s s₁ s' false pulled h rest =
      was_local c containers s s₁ s' pulled (h refl) rest

  -- Behind `pullImages`, each image was pulled or was there before.
  pull_images-Sources :
      (interactive : Bool) (containers : List Container) (s : S)
      → Ends
          (λ pulled s'. Sources outside s containers pulled s')
          (λ e s'. Unit {0})
          (pull_images outside interactive containers s)
  unfolding pull_images
  pull_images-Sources interactive [] s = returns _ _ (none_left s)
  pull_images-Sources interactive (c ∷ containers) s =
      follow-Ends _ _ (pull_one-local interactive c s) (λ was s₁ h.
        follow-Ends _ _ (pull_images-Sources interactive containers s₁)
          (λ others s₂ rest. returns _ _ (source c containers s s₁ s₂ was others h rest)))
