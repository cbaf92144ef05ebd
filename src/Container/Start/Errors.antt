-- ===== src/Container/Start/Errors.antt =====
-- internal/container/start.go: the errors of the steps in front of a start.
use lstk.Config.Emulators.{emulator_type_for_image}
use lstk.Container.Retry.{stale_license}
use lstk.Container.Licenses.{is_pinned, rejection}
use lstk.Container.Select.{
  removable, publish, on_edge, occupied, heal_leftover, judge_running, select_containers,
  select_one,
}
use lstk.Config.Emulators.{known_image_repos}
use lstk.Prelude.{
  true, ◌==◌, false, not, err, [], ◌&&◌, some, ◌∷◌, Option, Result, none, List, Bool, ok, refl, ◌≡◌,
}
use lstk.Text.Basic.{Text, text_eq}
use lstk.Container.Actions.{◌>>=◌, pure, fail, Action, or_fail, unless, lift}
use lstk.Container.Actions.Outcomes.{returns, fails, follow-Ends, if-Ends}
use lstk.Container.Outside.{
  scan_failed, image_check_failed, pull_canceled, pull_skipped, leftover_stuck, pull_done,
  pull_failed, remove_failed, Pull, RunningContainer, ContainerBrief, Container, StartError,
  Outside,
}
use lstk.Container.Pulls.{judge_pull, pull_image, pull_images, pull_one, use_image}
use lstk.Container.Retry.Laws.{Settles, other}

module _ {S : Type 0} (outside : Outside S) where
  pub unless-Settles :
      (done : Bool) (e : StartError) (s : S)
      → rejection e ≡ none
      → stale_license e ≡ none
      → Settles outside (unless done e s)
  unless-Settles done e s h h' =
      if-Ends done (pure tt) (fail e) s (λ _. returns _ _ tt) (λ _. fails _ _ (other _ _ h h'))

  or_fail-Settles :
      {A B : Type 0} (e : StartError) (found : Option A) (f : A → Action StartError S B) (s : S)
      → rejection e ≡ none
      → stale_license e ≡ none
      → ((a : A) → Settles outside (f a s))
      → Settles outside ((or_fail e found >>= f) s)
  or_fail-Settles e none f s h h' next = fails _ _ (other _ _ h h')
  or_fail-Settles e (some a) f s h h' next = next a

  pub lift-Settles :
      {E A B : Type 0} (f : E → StartError) (r : Result E A) (k : A → Action StartError S B) (s : S)
      → ((e : E) → (rejection (f e) ≡ none) × (stale_license (f e) ≡ none))
      → ((a : A) → Settles outside (k a s))
      → Settles outside ((lift f r >>= k) s)
  lift-Settles f (ok a) k s plain next = next a
  lift-Settles f (err e) k s plain next = fails _ _ (other _ _ (plain e).0 (plain e).1)

  occupied-Settles :
      (c : Container) (info : Option Text) (s : S) → Settles outside (occupied outside c info s)
  unfolding rejection stale_license
  occupied-Settles c none s = fails _ _ (other _ _ refl refl)
  occupied-Settles c (some version) s = returns _ _ tt

  publish-Settles :
      (c : Container) (conflict : Option Text) (s : S)
      → Settles outside (publish outside c conflict s)
  unfolding rejection stale_license
  publish-Settles c none s = returns _ _ tt
  publish-Settles c (some port) s = fails _ _ (other _ _ refl refl)

  on_edge-Settles :
      (c : Container) (busy : Option Text) (s : S) → Settles outside (on_edge outside c busy s)
  on_edge-Settles c none s = publish-Settles c _ s
  on_edge-Settles c (some port) s = occupied-Settles c _ s

  judge_running-Settles :
      (c : Container) (found : Option RunningContainer) (s : S)
      → Settles outside (judge_running outside c found s)
  unfolding judge_running rejection stale_license
  judge_running-Settles c none s = on_edge-Settles c _ s
  judge_running-Settles c (some found) s =
      let type = emulator_type_for_image found.image in
      if-Ends (not (type == []) && not (type == c.emulator)) _ _ s
        (λ h. fails _ _ (other _ _ refl refl))
        (λ h.
          if-Ends (not (found.bound_port == c.port)) _ _ s (λ h'. fails _ _ (other _ _ refl refl))
            (λ h'. returns _ _ tt))

  heal_leftover-Settles :
      (c : Container) (brief : ContainerBrief) (s : S)
      → Settles outside (heal_leftover outside c brief s)
  unfolding heal_leftover rejection stale_license
  heal_leftover-Settles c brief s =
      if-Ends (not (removable brief)) _ _ s (λ h. fails _ _ (other _ _ refl refl))
        (λ h. unless-Settles _ (leftover_stuck c.name) _ refl refl)

  select_one-Settles : (c : Container) (s : S) → Settles outside (select_one outside c s)
  unfolding select_one rejection stale_license
  select_one-Settles c s =
      or_fail-Settles _ (outside.inspect_brief s c.name) _ s refl refl (λ brief.
        if-Ends brief.running (pure none) _ s (λ e. returns _ _ tt)
          (λ e.
            follow-Ends _ _
              (if-Ends brief.exists (heal_leftover outside c brief) (pure tt) s
                (λ e'. heal_leftover-Settles c brief s) (λ e'. returns _ _ tt))
              (λ u s₁ t.
                or_fail-Settles (scan_failed c.name)
                  (outside.find_running_by_image s₁ known_image_repos c.container_port)
                  (judge_running outside c) s₁ refl refl
                  (λ found. judge_running-Settles c found s₁))))

  pub select_containers-Settles :
      (containers : List Container) (s : S)
      → Settles outside (select_containers outside containers s)
  unfolding select_containers
  select_containers-Settles [] s = returns _ _ tt
  select_containers-Settles (c ∷ containers) s =
      follow-Ends _ _ (select_one-Settles c s) (λ chosen s₁ t.
        follow-Ends _ _ (select_containers-Settles containers s₁) (λ others s₂ t'. returns _ _ tt))

  judge_pull-Settles :
      (image : Text) (there : Bool) (end' : Pull) (s : S)
      → Settles outside (judge_pull image there end' s)
  unfolding judge_pull rejection stale_license
  judge_pull-Settles image there pull_done s = returns _ _ tt
  judge_pull-Settles image there pull_skipped s = returns _ _ tt
  judge_pull-Settles image there pull_canceled s = fails _ _ (other _ _ refl refl)
  judge_pull-Settles image true (pull_failed text) s = returns _ _ tt
  judge_pull-Settles image false (pull_failed text) s = fails _ _ (other _ _ refl refl)

  pull_image-Settles :
      (interactive : Bool) (image : Text) (there : Bool) (s : S)
      → Settles outside (pull_image outside interactive image there s)
  unfolding pull_image
  pull_image-Settles interactive image there s = judge_pull-Settles image there _ _

  use_image-Settles :
      (interactive : Bool) (c : Container) (there : Bool) (s : S)
      → Settles outside (use_image outside interactive c there s)
  use_image-Settles interactive c there s =
      if-Ends (there && is_pinned c) (pure false) _ s (λ h. returns _ _ tt)
        (λ h.
          follow-Ends _ _ (pull_image-Settles interactive c.image there s)
            (λ used s₂ t. returns _ _ tt))

  pull_one-Settles :
      (interactive : Bool) (c : Container) (s : S)
      → Settles outside (pull_one outside interactive c s)
  unfolding pull_one rejection stale_license
  pull_one-Settles interactive c s =
      follow-Ends _ _
        (unless-Settles (outside.remove_container s c.name).0 (remove_failed c.name) _ refl refl)
        (λ u s₁ t.
          or_fail-Settles (image_check_failed c.image) (outside.image_exists s₁ c.image)
            (use_image outside interactive c) s₁ refl refl
            (λ there. use_image-Settles interactive c there s₁))

  pub pull_images-Settles :
      (interactive : Bool) (containers : List Container) (s : S)
      → Settles outside (pull_images outside interactive containers s)
  unfolding pull_images
  pull_images-Settles interactive [] s = returns _ _ tt
  pull_images-Settles interactive (c ∷ containers) s =
      follow-Ends _ _ (pull_one-Settles interactive c s) (λ was s₁ t.
        follow-Ends _ _ (pull_images-Settles interactive containers s₁)
          (λ others s₂ t'. returns _ _ tt))
