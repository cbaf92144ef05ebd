-- ===== src/Container/Select/Laws.antt =====
-- internal/container/start.go: what the choice of containers does to the world.
use lstk.Container.Select.Ready.{nothing, judge_running-Judges, Chosen}
use lstk.Text.Basic.{Text}
use lstk.Container.Select.{
  inspected, removable, judge_running, heal_leftover, select_containers, select_one,
}
use lstk.Prelude.{
  refl, subst, none, not-injective, not, [], true, false, some, ◌∷◌, ◌≡◌, List, Option, Result,
}
use lstk.Container.Actions.{◌>>=◌, pure, fail, or_fail}
use lstk.Container.Actions.Outcomes.{Ends, returns, fails, follow-Ends, if-Ends, weaken}
use lstk.Container.Outside.{
  leftover_stuck, foreign_container, status_unknown, scan_failed, RunningContainer, StartError,
  ContainerBrief, Container, Outside,
}

-- The changes of the world that consist in removing containers, each of which lstk saw by its name
-- not running and may remove.
pub data Removals {S : Type 0} (outside : Outside S) : S → S → Type 0 where
  unchanged : (s : S) → Removals outside s s
  removal :
      (s : S) (name : Text) (brief : ContainerBrief) (s' : S)
      → outside.inspect_brief s name ≡ some brief
      → brief.running ≡ false
      → removable brief ≡ true
      → Removals outside (outside.remove_container s name).1 s'
      → Removals outside s s'

module _ {S : Type 0} (outside : Outside S) where
  pub Removals-trans :
      (s s₁ s₂ : S) → Removals outside s s₁ → Removals outside s₁ s₂ → Removals outside s s₂
  Removals-trans _ s₁ s₂ (unchanged s) later = later
  Removals-trans _ s₁ s₂ (removal s name brief s' seen stopped may first) later =
      removal s name brief s₂ seen stopped may (Removals-trans _ s₁ s₂ first later)

  -- What a run over containers leaves, whatever its result.
  abbrev pub Leaves : {A : Type 0} → S → Result StartError A × S → Type 0
  Leaves s r = Ends (λ a s'. Removals outside s s') (λ e s'. Removals outside s s') r

  heal_leftover-Leaves :
      (c : Container) (brief : ContainerBrief) (s : S)
      → outside.inspect_brief s c.name ≡ some brief
      → brief.running ≡ false
      → Leaves s (heal_leftover outside c brief s)
  unfolding heal_leftover
  heal_leftover-Leaves c brief s seen stopped =
      if-Ends (not (removable brief)) (fail (foreign_container c.name)) _ s
        (λ h. fails _ _ (unchanged s))
        (λ h.
          let removed = removal s c.name brief _ seen stopped (not-injective h) (unchanged _) in
          if-Ends (outside.remove_container s c.name).0 (pure tt) (fail (leftover_stuck c.name)) _
            (λ h'. returns _ _ removed) (λ h'. fails _ _ removed))

  -- The states and the choice behind one container.
  abbrev pub Selects : Container → S → Result StartError (Option Container) × S → Type 0
  Selects c s r =
      Ends (λ chosen s'. Removals outside s s' × Chosen outside c s' chosen)
        (λ e s'. Removals outside s s') r

  scan-Selects :
      (c : Container) (scanned : Option (Option RunningContainer)) (s s₁ : S)
      → Removals outside s s₁
      → Selects c s
          ((or_fail (scan_failed c.name) scanned >>= λ found. judge_running outside c found) s₁)
  scan-Selects c none s s₁ before = fails _ _ before
  scan-Selects c (some found) s s₁ before =
      weaken _ (judge_running-Judges outside c found s₁)
        (λ chosen s' h. (subst (λ x. Removals outside s x) h.0 before, h.1))
        (λ e s' h. subst (λ x. Removals outside s x) h before)

  inspected-Selects :
      (c : Container) (seen : Option ContainerBrief) (s : S)
      → outside.inspect_brief s c.name ≡ seen
      → Selects c s ((or_fail (status_unknown c.name) seen >>= inspected outside c) s)
  inspected-Selects c none s h = fails _ _ (unchanged s)
  inspected-Selects c (some brief) s h =
      if-Ends brief.running (pure none) _ s (λ e. returns _ _ (unchanged s, nothing))
        (λ e.
          follow-Ends _ _
            (if-Ends brief.exists (heal_leftover outside c brief) (pure tt) s
              (λ e'. heal_leftover-Leaves c brief s h e) (λ e'. returns _ _ (unchanged s)))
            (λ u s₁ before. scan-Selects c _ s s₁ before))

  pub select_one-Selects : (c : Container) (s : S) → Selects c s (select_one outside c s)
  unfolding select_one
  select_one-Selects c s = inspected-Selects c _ s refl

  -- `selectContainersToStart` changes the world only by removing containers that do not run and that
  -- lstk may remove.
  pub select_containers-Leaves :
      (containers : List Container) (s : S) → Leaves s (select_containers outside containers s)
  unfolding select_containers
  select_containers-Leaves [] s = returns _ _ (unchanged s)
  select_containers-Leaves (c ∷ containers) s =
      follow-Ends _ _ (select_one-Selects c s) (λ chosen s₁ first.
        follow-Ends _ _
          (weaken _ (select_containers-Leaves containers s₁)
            (λ a s' h. Removals-trans s s₁ s' first.0 h)
            (λ e s' h. Removals-trans s s₁ s' first.0 h))
          (λ others s₂ h. returns _ _ h))
