-- ===== src/Container/Start/Laws.antt =====
-- internal/container/start.go: the errors of a whole start.
use lstk.Container.Build.{Settings}
use lstk.Container.Licenses.Laws.{pre_pull-floating}
use lstk.Container.Build.Errors.{build_containers-Settles}
use lstk.Container.Start.Errors.{pull_images-Settles, select_containers-Settles}
use lstk.Container.Start.{start_once, start_chosen}
use lstk.Container.Outside.{unsupported_configuration}
use lstk.Prelude.{[], ◌||◌, none, some, none, some, ◌∷◌, List, Bool}
use lstk.Text.Basic.{Text, text_eq}
use lstk.Container.Actions.Outcomes.{returns, follow-Ends, weaken}
use lstk.Container.Outside.{unsupported_configuration, Container, Outside}
use lstk.Container.Retry.Laws.{
  start_with_license_retry-Settles, from_images-Settles, BlocksOne-IsFinal, Settles,
}
use lstk.Config.Containers.{ContainerConfig}

module _ {S : Type 0} (outside : Outside S) (is_addr : Text → Bool) (o : Settings) where
  start_chosen-Settles :
      (token : Text) (force : Bool) (containers : List Container) (s : S)
      → Settles outside (start_chosen outside is_addr o token force containers s)
  unfolding start_chosen
  start_chosen-Settles token force [] s = returns _ _ tt
  start_chosen-Settles token force (c ∷ containers) s =
      follow-Ends _ _
        (weaken _ (pre_pull-floating outside token force (c ∷ containers) s) (λ a s' t. tt)
          (BlocksOne-IsFinal outside (c ∷ containers)))
        (λ before s₁ t.
          follow-Ends _ _ (pull_images-Settles outside o.interactive (c ∷ containers) s₁)
            (λ pulled s₂ t.
              follow-Ends _ _ (from_images-Settles outside token before.0 s₂) (λ behind s₃ t.
                follow-Ends _ _
                  (start_with_license_retry-Settles outside o.license_file token
                    (before.1 || behind.1) (c ∷ containers) s₃)
                  (λ u s₄ t. returns _ _ tt))))

  -- `startOnce` returns only final errors: a rejection of the license only on a verdict, behind
  -- the removal of the cached license, and never the error that asks for another start.
  pub start_once-Settles :
      (token : Text) (force : Bool) (configs : List ContainerConfig) (s : S)
      → Settles outside (start_once outside is_addr o token force configs s)
  unfolding start_once
  start_once-Settles token force configs s =
      follow-Ends _ _ (build_containers-Settles outside is_addr o token configs s)
        (λ containers s₁ t.
          follow-Ends _ _ (select_containers-Settles outside containers s₁)
            (λ chosen s₂ t'. start_chosen-Settles token force chosen s₂))
