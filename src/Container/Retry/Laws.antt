-- ===== src/Container/Retry/Laws.antt =====
-- internal/container/start.go: a start is repeated at most once.
use lstk.Config.Emulators.{self_validates_license}
use lstk.Container.Startup.{healthy, failed_with, StartFailure}
use lstk.Container.Licenses.Laws.{
  IsVerdict, rejected, there, over, here, validate_license-Blocks, Blocks, BlocksOne,
  pre_pull-floating,
}
use lstk.Text.Basic.{Text}
use lstk.Container.Licenses.{rejection, with_tag, or_unknown, validate_license, from_images}
use lstk.Container.Retry.{
  after_first, refresh_and_start, recover, start_with_license_retry, stale_license,
  start_containers, classify, judge_launch,
}
use lstk.Prelude.{
  some, [], true, ◌∷◌, err, none, Option, Bool, List, false, Result, ok, refl, arith, ◌≡◌,
}
use lstk.Container.Actions.{◌>>=◌, Action}
use lstk.Container.Actions.Outcomes.{Ends, returns, fails, follow-Ends, if-Ends, weaken}
use lstk.Container.Outside.{
  license_rejected, LicenseError, watched, not_started, Launch, Container, StartError, Outside,
}

-- A state that the removal of the cached license leaves, whether or not it succeeds (a failure is only
-- logged), but for what the user was asked since.
pub data IsDropped {S : Type 0} (outside : Outside S) : S → Type 0 where
  dropped : (s : S) → IsDropped outside (outside.remove_license s).1
  asked :
      (s : S) (e : LicenseError)
      → IsDropped outside s
      → IsDropped outside (outside.prompt_relogin s e).1

-- The errors that reach the caller: a verdict on the license, behind the removal of the cached one, or one
-- that asks neither for another login nor for another start.
pub data IsFinal {S : Type 0} (outside : Outside S) : StartError → S → Type 0 where
  verdict :
      (product version : Text) (e : LicenseError) (s : S)
      → IsVerdict e
      → IsDropped outside s
      → IsFinal outside (license_rejected product version e) s
  other :
      (e : StartError) (s : S) → rejection e ≡ none → stale_license e ≡ none → IsFinal outside e s

-- A run whose error, if it fails, is final.
abbrev pub Settles :
    {S : Type 0} (outside : Outside S) {A : Type 0} → Result StartError A × S → Type 0
Settles outside r = Ends (λ a s'. Unit {0}) (IsFinal outside) r

classify-unrejected :
    (candidate : Bool) (c : Container) (failure : StartFailure) (logs : Text)
    → rejection (classify candidate c failure logs) ≡ none
unfolding classify rejection
classify-unrejected candidate c failure logs = ground arith

classify-settled :
    (c : Container) (failure : StartFailure) (logs : Text)
    → stale_license (classify false c failure logs) ≡ none
unfolding classify stale_license
classify-settled c failure logs = ground arith

judge_launch-Settles :
    {S : Type 0} (outside : Outside S) (c : Container) (launched : Launch) (s : S)
    → Settles outside (judge_launch false c launched s)
unfolding judge_launch stale_license rejection
judge_launch-Settles outside c (not_started text) s = fails _ _ (other _ _ refl refl)
judge_launch-Settles outside c (watched healthy logs) s = returns _ _ tt
judge_launch-Settles outside c (watched (failed_with failure) logs) s =
    fails _ _
      (other _ _ (classify-unrejected false c failure logs) (classify-settled c failure logs))

-- The first start may ask for another one, but says nothing of the license.
abbrev pub Attempts : {S A : Type 0} → Result StartError A × S → Type 0
Attempts r = Ends (λ a s'. Unit {0}) (λ e s'. rejection e ≡ none) r

judge_launch-Attempts :
    {S : Type 0} (candidate : Bool) (c : Container) (launched : Launch) (s : S)
    → Attempts (judge_launch candidate c launched s)
unfolding judge_launch rejection
judge_launch-Attempts candidate c (not_started text) s = fails _ _ refl
judge_launch-Attempts candidate c (watched healthy logs) s = returns _ _ tt
judge_launch-Attempts candidate c (watched (failed_with failure) logs) s =
    fails _ _ (classify-unrejected candidate c failure logs)

module _ {S : Type 0} (outside : Outside S) where
  start_containers-Settles :
      (containers : List Container) (s : S)
      → Settles outside (start_containers outside false containers s)
  unfolding start_containers
  start_containers-Settles [] s = returns _ _ tt
  start_containers-Settles (c ∷ containers) s =
      follow-Ends _ _ (judge_launch-Settles outside c _ _)
        (λ u s₁ h. start_containers-Settles containers s₁)

  start_containers-Attempts :
      (candidate : Bool) (containers : List Container) (s : S)
      → Attempts (start_containers outside candidate containers s)
  unfolding start_containers
  start_containers-Attempts candidate [] s = returns _ _ tt
  start_containers-Attempts candidate (c ∷ containers) s =
      follow-Ends _ _ (judge_launch-Attempts candidate c _ _)
        (λ u s₁ h. start_containers-Attempts candidate containers s₁)

  pub Blocks-IsFinal :
      (c : Container) (e : StartError) (s : S) → Blocks outside c e s → IsFinal outside e s
  unfolding stale_license rejection
  Blocks-IsFinal c _ _ (over s h) = other _ _ refl refl
  Blocks-IsFinal c _ _ (rejected e s v) = verdict _ _ e _ v (dropped s)

  pub BlocksOne-IsFinal :
      (containers : List Container) (e : StartError) (s : S)
      → BlocksOne outside containers e s
      → IsFinal outside e s
  BlocksOne-IsFinal _ _ _ (here c containers e s h) = Blocks-IsFinal c e s h
  BlocksOne-IsFinal _ _ _ (there c containers e s h) = BlocksOne-IsFinal containers e s h

  validate-Settles :
      (token : Text) (c : Container) (s : S) → Settles outside (validate_license outside token c s)
  validate-Settles token c s =
      weaken _ (validate_license-Blocks outside token c s) (λ a s' t. tt) (Blocks-IsFinal c)

  from_image-Settles :
      {B : Type 0} (image : Text) (found : Option Text) (f : Text → Action StartError S B) (s : S)
      → ((v : Text) (s : S) → Settles outside (f v s))
      → Settles outside ((or_unknown outside image found >>= f) s)
  unfolding stale_license rejection
  from_image-Settles image none f s h = fails _ _ (other _ _ refl refl)
  from_image-Settles image (some v) f s h = h v s

  pub from_images-Settles :
      (token : Text) (containers : List Container) (s : S)
      → Settles outside (from_images outside token containers s)
  unfolding from_images
  from_images-Settles token [] s = returns _ _ tt
  from_images-Settles token (c ∷ containers) s =
      if-Ends (self_validates_license c.emulator) _ _ s
        (λ e. from_images-Settles token containers s)
        (λ e. from_image-Settles c.image _ _ s (λ v s₁.
          follow-Ends _ _ (validate-Settles token (with_tag v c) s₁) (λ wrote s₂ t.
            follow-Ends _ _ (from_images-Settles token containers s₂) (λ r s₃ t'. returns _ _ tt))))

  refresh_and_start-Settles :
      (file token : Text) (containers : List Container) (s : S)
      → Settles outside (refresh_and_start outside file token containers s)
  unfolding refresh_and_start
  refresh_and_start-Settles file token containers s =
      follow-Ends _ _
        (weaken _ (pre_pull-floating outside token true containers _) (λ a s' t. tt)
          (BlocksOne-IsFinal containers))
        (λ r s₁ t.
          follow-Ends _ _ (from_images-Settles token r.0 s₁)
            (λ v s₂ t'. start_containers-Settles _ s₂))

  after_first-Settles :
      (file token : Text) (containers : List Container) (e : StartError) (stale : Option Text)
      (s : S)
      → stale_license e ≡ stale
      → rejection e ≡ none
      → Settles outside (after_first outside file token containers e stale s)
  after_first-Settles file token containers e none s h h' = fails _ _ (other _ _ h' h)
  after_first-Settles file token containers e (some logs) s h h' =
      refresh_and_start-Settles file token containers s

  recover-Settles :
      (file token : Text) (containers : List Container) (r : Result StartError (Unit {0}) × S)
      → Attempts r
      → Settles outside (recover outside file token containers r)
  unfolding recover
  recover-Settles file token containers (ok u, s) h = returns _ _ tt
  recover-Settles file token containers (err e, s) (fails _ _ h) =
      after_first-Settles file token containers e _ s refl h

  -- `startWithLicenseRetry` returns only final errors: never the one that asks for another start, so
  -- the start behind a stale license is not repeated again, and a rejection of the license only on a
  -- verdict, behind the removal of the cached license.
  pub start_with_license_retry-Settles :
      (file token : Text) (refreshed : Bool) (containers : List Container) (s : S)
      → Settles outside (start_with_license_retry outside file token refreshed containers s)
  unfolding start_with_license_retry
  start_with_license_retry-Settles file token refreshed containers s =
      recover-Settles file token _ _ (start_containers-Attempts _ _ s)
