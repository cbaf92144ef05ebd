-- ===== src/Container/Pulls.antt =====
-- internal/container/start.go: `pullImages`, `pullImage`. The messages and the telemetry are left
-- out; the user's skip of a pull is one of the ways in which the pull of the world ends.
pub mod Laws
use lstk.Container.Licenses.{is_pinned}
use lstk.Text.Basic.{Text}
use lstk.Prelude.{not, if◌then◌else◌, [], true, false, ◌∷◌, ◌&&◌, List, Bool, ok}
use lstk.Container.Actions.{◌>>=◌, ◌>>◌, gets, perform, pure, fail, Action, or_fail, unless}
use lstk.Container.Outside.{
  pull_canceled, pull_skipped, pull_done, pull_refused, pull_failed, context_over,
  image_check_failed, remove_failed, Pull, StartError, Container, Outside,
}

module _ {S : Type 0} where
  -- What `pullImage` makes of the end of the pull: whether the local image is used.
  unfoldable pub judge_pull : Text → Bool → Pull → Action StartError S Bool
  judge_pull image local_exists pull_done = pure false
  judge_pull image local_exists pull_skipped = pure true
  judge_pull image local_exists pull_canceled = fail context_over
  judge_pull image local_exists (pull_failed text) =
      if local_exists then pure true else fail (pull_refused text)

module _ {S : Type 0} (outside : Outside S) where
  -- `pullImage`
  unfoldable pub pull_image : Bool → Text → Bool → Action StartError S Bool
  unfolding judge_pull
  pull_image interactive image local_exists = do
    end' ← perform (λ s. outside.pull_image s image (local_exists && interactive))
    judge_pull image local_exists end'

  -- The body of the loop of `pullImages`: whether the image was pulled.
  abbrev pub use_image : Bool → Container → Bool → Action StartError S Bool
  use_image interactive c exists =
      if exists && is_pinned c
      then pure false
      else (do used_local ← pull_image interactive c.image exists; pure (not used_local))

  unfoldable pub pull_one : Bool → Container → Action StartError S Bool
  unfolding pull_image
  pull_one interactive c = do
    removed ← perform (λ s. outside.remove_container s c.name)
    unless removed (remove_failed c.name)
    found ← gets (λ s. outside.image_exists s c.image)
    exists ← or_fail (image_check_failed c.image) found
    use_image interactive c exists

  -- `pullImages`; the map `pulled` is an association list.
  unfoldable pub pull_images : Bool → List Container → Action StartError S (List (Text × Bool))
  unfolding pull_one
  pull_images interactive [] = pure []
  pull_images interactive (c ∷ containers) =
      let rest = pull_images interactive containers in
      pull_one interactive c >>= λ was_pulled.
      rest >>= λ others. pure ((c.name, was_pulled) ∷ others)
