-- ===== src/Update/Notify.antt =====
-- internal/update/update.go and notify.go: whether there is a newer version, and what is done about it.
-- Messages are left out.
pub mod Laws
use lstk.Prelude.{
  Bool, false, not, ◌&&◌, ◌||◌, Option, none, some, List, [], ◌∷◌, ◌==◌, nat_eq, if◌then◌else◌,
  Result, ok, err,
}
use lstk.Text.Basic.{Text, codes, text_eq}

-- `normalizeVersion`
abbrev pub normalize_version : Text → Text
normalize_version [] = []
normalize_version (c ∷ v) = if c == b'v' then v else c ∷ v

abbrev pub is_dev : Text → Bool
is_dev v = v == codes "dev"

-- What `fetchLatestVersion` returns, an error being none.
-- `checkQuietlyWithVersion`: the latest version, and whether it is another one.
abbrev pub after_fetch : Text → Option Text → Text × Bool
after_fetch current none = ([], false)
after_fetch current (some latest) =
    (latest, not (normalize_version current == normalize_version latest))

unfoldable pub check_quietly : Text → Option Text → Text × Bool
check_quietly current fetched = if is_dev current then ([], false) else after_fetch current fetched

pub data UpdateFailure : Type 0 where
  check_failed update_failed : UpdateFailure

-- `Check`
abbrev pub fetched_or : Text → Option Text → Result UpdateFailure (Text × Bool)
fetched_or current none = err check_failed
fetched_or current (some latest) = ok (after_fetch current (some latest))

unfoldable pub check : Text → Option Text → Result UpdateFailure (Text × Bool)
check current fetched = if is_dev current then ok ([], false) else fetched_or current fetched

-- What the user answers, or that the context is done.
pub data PromptOutcome : Type 0 where
  gave_up : PromptOutcome
  selected : Text → PromptOutcome

-- `NotifyOptions`
pub record NotifyOptions : Type 0 where
  pub update_prompt : Bool
  pub skipped_version : Text
  pub can_persist : Bool

-- What is done to the installation and the config: the update to a version, by `applyUpdate`, and a
-- version that is recorded as skipped.
pub data Deed : Type 0 where
  applied : Text → Deed
  skip_saved : Text → Deed

-- `Update`: its result, and what it does; `works` is whether `applyUpdate` succeeds.
abbrev pub after_update_check :
    Bool → Bool → Result UpdateFailure (Text × Bool) → Result UpdateFailure (Unit {0}) × List Deed
after_update_check works check_only (err e) = (err e, [])
after_update_check works check_only (ok (latest, available)) =
    if not available || check_only
    then (ok tt, [])
    else (if works then ok tt else err update_failed, applied latest ∷ [])

unfoldable pub update_lstk :
    Bool → Bool → Text → Option Text → Result UpdateFailure (Unit {0}) × List Deed
unfolding check
update_lstk works check_only current fetched =
    after_update_check works check_only (check current fetched)

-- `promptAndUpdate`: whether lstk exits, and what is done.
abbrev pub prompt_and_update : Bool → Bool → Text → PromptOutcome → Bool × List Deed
prompt_and_update works can_persist latest gave_up = (false, [])
prompt_and_update works can_persist latest (selected key) =
    if key == codes "u"
    then (works, applied latest ∷ [])
    else if key == codes "s"
    then (false, if can_persist then skip_saved latest ∷ [] else [])
    else (false, [])

-- `notifyUpdateWithVersion`
unfoldable pub notify_update :
    Bool → NotifyOptions → Text → Option Text → PromptOutcome → Bool × List Deed
unfolding check_quietly
notify_update works opts current fetched outcome =
    let (latest, available) = check_quietly current fetched in
    if not available
    then (false, [])
    else if not (opts.skipped_version == [])
        && normalize_version opts.skipped_version == normalize_version latest
    then (false, [])
    else if not opts.update_prompt
    then (false, [])
    else prompt_and_update works opts.can_persist latest outcome
