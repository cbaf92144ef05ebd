-- ===== src/Container/Running/Laws.antt =====
-- internal/container/stop.go: `Stop` stops the containers of the config's blocks and no others.
use lstk.Config.Emulators.{known_image_repos_for_type}
use lstk.Container.Running.{
  not_stopped, not_running, no_runtime, stop, scanned_name, scan, found_name, stop_named,
  unknown_state, no_port, RunningError, unscanned, stop_all, resolve_running_container_name,
}
use lstk.Prelude.{
  ◌==◌, err, inr, inl, subst, Bool, ◌⊎◌, Result, List, Option, ok, refl, ◌≡◌, true, false, none,
  some, [], ◌∷◌,
}
use lstk.Text.Basic.{text_beq, text_beq_iff, Text, text_eq}
use lstk.Container.Actions.{◌>>=◌, ◌>>◌, or_fail, lift, pure, fail}
use lstk.Container.Actions.Outcomes.{Ends, returns, fails, follow-Ends, if-Ends, weaken}
use lstk.Container.Outside.{Emulators, RunningContainer}
use lstk.Config.Containers.{ConfigError, ContainerConfig}
use lstk.Config.Containers

-- Whether a container runs for a block: it has the block's name, or an image of the block's type and
-- the block's port.
pub data RunsFor {S : Type 0} (outside : Emulators S) (c : ContainerConfig) (s : S)
    : Text → Type 0 where
  by_name :
      outside.is_running s (Containers.name c) ≡ some true → RunsFor outside c s (Containers.name c)
  by_image :
      (port : Text) (found : RunningContainer)
      → outside.is_running s (Containers.name c) ≡ some false
      → Containers.container_port_of c ≡ ok port
      → outside.find_running s (known_image_repos_for_type c.type) port ≡ some (some found)
      → RunsFor outside c s found.name

-- A container of each block was stopped, in order, each with success.
pub data Stopped {S : Type 0} (outside : Emulators S) : List ContainerConfig → S → S → Type 0 where
  all_stopped : (s : S) → Stopped outside [] s s
  one_stopped :
      (c : ContainerConfig) (containers : List ContainerConfig) (s : S) (name : Text) (s' : S)
      → RunsFor outside c s name
      → (outside.stop_container s name).0 ≡ true
      → Stopped outside containers (outside.stop_container s name).1 s'
      → Stopped outside (c ∷ containers) s s'

-- The containers of a first part of the blocks were stopped, and perhaps one more was asked to and
-- did not.
pub data Interrupted {S : Type 0} (outside : Emulators S)
    : List ContainerConfig → S → S → Type 0 where
  at_once : (containers : List ContainerConfig) (s : S) → Interrupted outside containers s s
  refused :
      (c : ContainerConfig) (containers : List ContainerConfig) (s : S) (name : Text)
      → RunsFor outside c s name
      → (outside.stop_container s name).0 ≡ false
      → Interrupted outside (c ∷ containers) s (outside.stop_container s name).1
  later :
      (c : ContainerConfig) (containers : List ContainerConfig) (s : S) (name : Text) (s' : S)
      → RunsFor outside c s name
      → (outside.stop_container s name).0 ≡ true
      → Interrupted outside containers (outside.stop_container s name).1 s'
      → Interrupted outside (c ∷ containers) s s'

module _ {S : Type 0} (outside : Emulators S) where
  -- A lookup that changes nothing: a container that runs for the block, or none.
  abbrev pub Looks : ContainerConfig → S → Result RunningError Text × S → Type 0
  Looks c s r =
      Ends (λ name s'. (s ≡ s') × ((name ≡ []) ⊎ RunsFor outside c s name)) (λ e s'. s ≡ s') r

  scanned-Looks :
      (c : ContainerConfig) (s : S) (port : Text) (scanned : Option (Option RunningContainer))
      → outside.is_running s (Containers.name c) ≡ some false
      → Containers.container_port_of c ≡ ok port
      → outside.find_running s (known_image_repos_for_type c.type) port ≡ scanned
      → Looks c s
          ((or_fail (unscanned (Containers.name c)) scanned >>= λ found. pure (found_name found)) s)
  scanned-Looks c s port none h p e = fails _ _ refl
  scanned-Looks c s port (some none) h p e = returns _ _ (refl, inl refl)
  scanned-Looks c s port (some (some found)) h p e =
      returns _ _ (refl, inr (by_image port found h p e))

  ported-Looks :
      (c : ContainerConfig) (s : S) (port : Result ConfigError Text)
      → outside.is_running s (Containers.name c) ≡ some false
      → Containers.container_port_of c ≡ port
      → Looks c s ((lift no_port port >>= scan outside c) s)
  ported-Looks c s (err e) h p = fails _ _ refl
  ported-Looks c s (ok port) h p = scanned-Looks c s port _ h p refl

  checked-Looks :
      (c : ContainerConfig) (s : S) (checked : Option Bool)
      → outside.is_running s (Containers.name c) ≡ checked
      → Looks c s
          ((or_fail (unknown_state (Containers.name c)) checked >>= scanned_name outside c) s)
  checked-Looks c s none h = fails _ _ refl
  checked-Looks c s (some true) h = returns _ _ (refl, inr (by_name h))
  checked-Looks c s (some false) h = ported-Looks c s _ h refl

  resolve-Looks :
      (c : ContainerConfig) (s : S) → Looks c s (resolve_running_container_name outside c s)
  unfolding resolve_running_container_name
  resolve-Looks c s = checked-Looks c s _ refl

  runs_for :
      (c : ContainerConfig) (s : S) (name : Text)
      → (name ≡ []) ⊎ RunsFor outside c s name
      → (name == []) ≡ false
      → RunsFor outside c s name
  runs_for c s name (inl z) e = let w : text_beq name [] ≡ true = (text_beq_iff name []).1 z in cc
  runs_for c s name (inr r) e = r

  named-Stopped :
      (c : ContainerConfig) (containers : List ContainerConfig) (s : S)
      → ((s₁ : S)
          → Ends
              (λ u s'. Stopped outside containers s₁ s')
              (λ e s'. Interrupted outside containers s₁ s')
              (stop_all outside containers s₁))
      → (name : Text) → (name ≡ []) ⊎ RunsFor outside c s name
      → Ends
          (λ u s'. Stopped outside (c ∷ containers) s s')
          (λ e s'. Interrupted outside (c ∷ containers) s s')
          ((stop_named outside c name >> stop_all outside containers) s)
  named-Stopped c containers s rest name h =
      follow-Ends
        {P = λ u s₁.
          RunsFor outside c s name
          × (s₁ ≡ (outside.stop_container s name).1)
          × ((outside.stop_container s name).0 ≡ true)}
        _ _
        (if-Ends (name == []) (fail (not_running (Containers.name c))) _ s
          (λ e. fails _ _ (at_once (c ∷ containers) s))
          (λ e.
            let runs = runs_for c s name h e in
            if-Ends (outside.stop_container s name).0 (pure tt) (fail (not_stopped name)) _
              (λ a. returns _ _ (runs, refl, a))
              (λ a. fails _ _ (refused c containers s name runs a))))
        (λ u s₁ r.
          weaken _ (rest s₁)
            (λ v s' t.
              one_stopped c containers s name s' r.0 r.2
                (subst (λ x. Stopped outside containers x s') r.1 t))
            (λ e s' t.
              later c containers s name s' r.0 r.2
                (subst (λ x. Interrupted outside containers x s') r.1 t)))

  stop_all-Stopped :
      (containers : List ContainerConfig) (s : S)
      → Ends
          (λ u s'. Stopped outside containers s s')
          (λ e s'. Interrupted outside containers s s')
          (stop_all outside containers s)
  unfolding stop_all
  stop_all-Stopped [] s = returns _ _ (all_stopped s)
  stop_all-Stopped (c ∷ containers) s =
      follow-Ends _ _
        (weaken _ (resolve-Looks c s) (λ name s' h. h)
          (λ e s' h.
            subst (λ x. Interrupted outside (c ∷ containers) s x) h (at_once (c ∷ containers) s)))
        (λ name s₁ h.
          subst
            (λ x.
              Ends (λ u s'. Stopped outside (c ∷ containers) s s')
                (λ e s'. Interrupted outside (c ∷ containers) s s')
                ((stop_named outside c name >> stop_all outside containers) x))
            h.0 (named-Stopped c containers s (stop_all-Stopped containers) name h.1))

  -- `Stop`, when it succeeds, has stopped for each block, in order and each with success, a container
  -- that runs for it, by its name or by an image of its type on its port. When it fails, it has done
  -- so for some of the first blocks, and perhaps asked one more container that did not stop. It does
  -- nothing else.
  pub stop-Stopped :
      (containers : List ContainerConfig) (s : S)
      → Ends
          (λ u s'. Stopped outside containers s s')
          (λ e s'. Interrupted outside containers s s')
          (stop outside containers s)
  unfolding stop
  stop-Stopped containers s =
      follow-Ends {P = λ u s₁. s ≡ s₁} _ _
        (if-Ends (outside.runtime_healthy s) (pure tt) (fail no_runtime) s (λ h. returns _ _ refl)
          (λ h. fails _ _ (at_once containers s)))
        (λ u s₁ e.
          subst
            (λ x.
              Ends (λ u s'. Stopped outside containers s s')
                (λ e s'. Interrupted outside containers s s') (stop_all outside containers x))
            e (stop_all-Stopped containers s))
