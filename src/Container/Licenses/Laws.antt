-- ===== src/Container/Licenses/Laws.antt =====
-- internal/container/start.go: the license check in front of a start blocks it only on a verdict.
use lstk.Text.Basic.{Text}
use lstk.Config.Emulators.{self_validates_license}
use lstk.Container.Licenses.{
  is_local, validate_license, pre_pull, is_pinned, is_definitive_license_rejection, judge_license,
}
use lstk.Container.Outside.{
  unreachable, denied, granted, license_rejected, LicenseReply, context_over, StartError, Container,
  LicenseError, Outside,
}
use lstk.Container.Actions.{perform, gets, fail, pure}
use lstk.Container.Actions.Outcomes.{follow-Ends, weaken, fails, returns, Ends, if-Ends}
use lstk.Prelude.{
  All, ◌||◌, ◌&&◌, not, not-injective, [], true, if◌then◌else◌, ◌∷◌, false, ◌≡◌, List, ok, arith,
  refl, Bool,
}
use lstk.Container.Actions.{◌>>=◌, ◌>>◌, Action}

-- A verdict of the server on the license itself.
pub record IsVerdict (e : LicenseError) : Type 0 where
  pub supported_tag : e.is_unsupported_tag ≡ false
  pub definitive : is_definitive_license_rejection e.status ≡ true

-- How a check of a container can fail: the start is over, or the server has rejected the license and
-- the removal of the cached one was the last step, whether or not it succeeded (a failure is only
-- logged).
pub data Blocks {S : Type 0} (outside : Outside S) (c : Container) : StartError → S → Type 0 where
  over : (s : S) → outside.context_done s ≡ true → Blocks outside c context_over s
  rejected :
      (e : LicenseError) (s : S)
      → IsVerdict e
      → Blocks outside c (license_rejected c.product_name c.tag e) (outside.remove_license s).1

-- A check of one of the containers failed.
pub data BlocksOne {S : Type 0} (outside : Outside S)
    : List Container → StartError → S → Type 0 where
  here :
      (c : Container) (containers : List Container) (e : StartError) (s : S)
      → Blocks outside c e s
      → BlocksOne outside (c ∷ containers) e s
  there :
      (c : Container) (containers : List Container) (e : StartError) (s : S)
      → BlocksOne outside containers e s
      → BlocksOne outside (c ∷ containers) e s

-- Containers whose license is checked once their image is there.
abbrev pub floating : List Container → List Container
floating [] = []
floating (c ∷ containers) =
    let rest = floating containers in
    if self_validates_license c.emulator then rest else if is_pinned c then rest else c ∷ rest

module _ {S : Type 0} (outside : Outside S) where
  judge_license-Blocks :
      (c : Container) (reply : LicenseReply) (s : S)
      → Ends (λ wrote s'. Unit {0}) (Blocks outside c) (judge_license outside c reply s)
  unfolding judge_license
  judge_license-Blocks c (granted []) s = returns _ _ tt
  judge_license-Blocks c (granted (b ∷ bytes)) s = returns _ _ tt
  judge_license-Blocks c unreachable s =
      if-Ends (outside.context_done s) (fail context_over) (pure false) s
        (λ h. fails _ _ (over s h)) (λ h. returns _ _ tt)
  judge_license-Blocks c (denied e) s =
      let reject =
        perform outside.remove_license >> fail (license_rejected c.product_name c.tag e) in
      let later = if not (is_definitive_license_rejection e.status) then pure false else reject in
      let judged = if e.is_unsupported_tag then pure false else later in
      if-Ends (outside.context_done s) (fail context_over) judged s (λ h. fails _ _ (over s h))
        (λ h₁.
          if-Ends e.is_unsupported_tag (pure false) later s (λ h. returns _ _ tt)
            (λ h₂.
              if-Ends (not (is_definitive_license_rejection e.status)) (pure false) reject s
                (λ h. returns _ _ tt)
                (λ h₃.
                  fails _ _
                    (rejected e s (record { supported_tag = h₂; definitive = not-injective h₃ })))))

  -- `validateLicense` stops a start only when the whole start is over, or on a verdict.
  pub validate_license-Blocks :
      (token : Text) (c : Container) (s : S)
      → Ends (λ wrote s'. Unit {0}) (Blocks outside c) (validate_license outside token c s)
  unfolding validate_license
  validate_license-Blocks token c s = judge_license-Blocks c _ _

  pub pre_pull-floating :
      (token : Text) (force : Bool) (containers : List Container) (s : S)
      → Ends
          (λ (done : List Container × Bool) s'. done.0 ≡ floating containers)
          (BlocksOne outside containers)
          (pre_pull outside token force containers s)
  unfolding pre_pull
  pre_pull-floating token force [] s = returns _ _ refl
  pre_pull-floating token force (c ∷ containers) s =
      let rest = pre_pull outside token force containers in
      let check : Action StartError S (List Container × Bool) = (do
        present ← gets (λ s. not force && is_local (outside.image_exists s c.image))
        wrote ← if present then pure false else validate_license outside token c
        (later, refreshed) ← rest
        pure (later, wrote || refreshed)) in
      let keep : Action StartError S (List Container × Bool) = (do
        (later, refreshed) ← rest
        pure (c ∷ later, refreshed)) in
      let Q = BlocksOne outside (c ∷ containers) in
      let more : (s₁ : S)
          → Ends (λ (done : List Container × Bool) s'. done.0 ≡ floating containers) Q (rest s₁) =
        λ s₁.
          weaken (rest s₁) (pre_pull-floating token force containers s₁) (λ d s' h. h)
            (λ e s' h. there c containers e s' h) in
      if-Ends (self_validates_license c.emulator) rest (if is_pinned c then check else keep) s
        (λ e. weaken (rest s) (more s) (λ d s' h. cc) (λ e' s' h. h))
        (λ e.
          if-Ends (is_pinned c) check keep s
            (λ e'.
              follow-Ends _ _
                (if-Ends (not force && is_local (outside.image_exists s c.image)) (pure false)
                  (validate_license outside token c) s (λ h. returns _ _ tt)
                  (λ h.
                    weaken _ (validate_license-Blocks token c s) (λ d s' h'. tt)
                      (λ e' s' h'. here c containers e' s' h')))
                (λ wrote s₁ u. follow-Ends _ _ (more s₁) (λ done s₂ h. returns _ _ cc)))
            (λ e'. follow-Ends _ _ (more s) (λ done s₁ h. returns _ _ cc)))

module _ {S : Type 0} (outside : Outside S) where
  -- When every image that is not floating is there already, the check in front of the pull does
  -- nothing, so it works offline.
  pre_pull-local :
      (token : Text) (containers : List Container) (s : S)
      → All (λ c. is_pinned c ≡ true → is_local (outside.image_exists s c.image) ≡ true) containers
      → pre_pull outside token false containers s ≡ (ok (floating containers, false), s)
  unfolding pre_pull
  pre_pull-local token [] s h = refl
  pre_pull-local token (c ∷ containers) s (present, h) =
      ground (arith, present, pre_pull-local token containers s h)
