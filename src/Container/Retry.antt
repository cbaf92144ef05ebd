-- ===== src/Container/Retry.antt =====
-- internal/container/start.go: `startContainers`, and the second start behind a stale license in
-- `startWithLicenseRetry`. The messages and the telemetry are left out.
pub mod Laws
pub mod Mounts
use lstk.Text.Search.{contains}
use lstk.Config.Emulators.{self_validates_license}
use lstk.Container.Startup.{
  healthy, status_check_failed, canceled, failed_with, context_error, startup_timeout,
  container_exited, StartFailure,
}
use lstk.Text.Basic.{text_eq, to_lower, codes, Text}
use lstk.Prelude.{
  any, none, ◌++◌, [], ◌==◌, false, some, not, err, ◌∷◌, ◌&&◌, Result, true, if◌then◌else◌, Option,
  List, Bool, ok,
}
use lstk.Container.Actions.{◌>>=◌, ◌>>◌, gets, perform, modify, pure, fail, Action}
use lstk.Container.Outside.{
  watched, not_launched, startup_failed, not_started, license_not_covered, aborted, license_startup,
  Launch, BindMount, StartError, Container, Outside,
}
use lstk.Container.Licenses.{pre_pull, from_images}

-- `logsIndicateLicenseFailure`
unfoldable pub logs_indicate_license_failure : Text → Bool
logs_indicate_license_failure logs =
    let l = to_lower logs in
    contains l (codes "license")
    && any (λ marker. contains l marker)
        (codes "fail"
          ∷ codes "invalid"
          ∷ codes "expired"
          ∷ codes "error"
          ∷ codes "could not"
          ∷ codes "unable"
          ∷ [])

abbrev pub not_covered : Container → Text → Bool
not_covered c logs =
    self_validates_license c.emulator && contains logs (codes "not covered by your license")

-- `errors.Is(err, context.Canceled)` and the like, and `errors.As(err, &exitErr)`.
abbrev pub is_abort : StartFailure → Bool
is_abort context_error = true
is_abort canceled = true
is_abort status_check_failed = false
is_abort (container_exited code) = false
is_abort (startup_timeout stopped) = false

abbrev pub is_exit : StartFailure → Bool
is_exit (container_exited code) = true
is_exit context_error = false
is_exit canceled = false
is_exit status_check_failed = false
is_exit (startup_timeout stopped) = false

-- `handleFailure`, what it returns.
unfoldable pub handle_failure : Container → StartFailure → Text → StartError
handle_failure c failure logs =
    if not_covered c logs then license_not_covered else startup_failed failure

-- The error of a container that was watched; `candidate` is `licenseRetryCandidate`.
unfoldable pub classify : Bool → Container → StartFailure → Text → StartError
unfolding handle_failure logs_indicate_license_failure
classify candidate c failure logs =
    if is_abort failure
    then aborted failure
    else if candidate
        && (not (not_covered c logs) && (is_exit failure && logs_indicate_license_failure logs))
    then license_startup logs
    else handle_failure c failure logs

module _ {S : Type 0} where
  unfoldable pub judge_launch : Bool → Container → Launch → Action StartError S (Unit {0})
  unfolding classify
  judge_launch candidate c (not_started text) = fail (not_launched text)
  judge_launch candidate c (watched healthy logs) = pure tt
  judge_launch candidate c (watched (failed_with failure) logs) =
      fail (classify candidate c failure logs)

-- The text that a `licenseStartupError` carries.
unfoldable pub stale_license : StartError → Option Text
stale_license (license_startup logs) = some logs
stale_license _ = none

abbrev pub with_binds : List BindMount → Container → Container
with_binds binds c = record {
  image = c.image;
  name = c.name;
  emulator = c.emulator;
  port = c.port;
  container_port = c.container_port;
  bind_host = c.bind_host;
  health_path = c.health_path;
  env = c.env;
  tag = c.tag;
  product_name = c.product_name;
  binds = binds;
  extra_ports = c.extra_ports;
}

abbrev pub license_mount_path : Text
license_mount_path = codes "/etc/localstack/conf.d/license.json"

abbrev pub license_mount : Text → BindMount
license_mount file = record {
  host_path = file;
  container_path = license_mount_path;
  read_only = true;
}

-- The loop of `mountCachedLicense`, and `stripLicenseMount`.
unfoldable pub mount_license : Text → List Container → List Container
mount_license file [] = []
mount_license file (c ∷ containers) =
    with_binds (c.binds ++ license_mount file ∷ []) c ∷ mount_license file containers

unfoldable pub without_license : List BindMount → List BindMount
without_license [] = []
without_license (b ∷ binds) =
    let rest = without_license binds in
    if b.container_path == license_mount_path then rest else b ∷ rest

unfoldable pub strip_license : List Container → List Container
unfolding without_license
strip_license [] = []
strip_license (c ∷ containers) = with_binds (without_license c.binds) c ∷ strip_license containers

module _ {S : Type 0} (outside : Outside S) where
  -- `startContainers`
  unfoldable pub start_containers : Bool → List Container → Action StartError S (Unit {0})
  unfolding judge_launch
  start_containers candidate [] = pure tt
  start_containers candidate (c ∷ containers) =
      let rest = start_containers candidate containers in
      perform (λ s. outside.launch s c) >>= λ launched. judge_launch candidate c launched >> rest

  -- `mountCachedLicense`, which changes the containers in place.
  unfoldable pub mount_cached_license :
      Text → List Container → Action StartError S (List Container × Bool)
  unfolding mount_license
  mount_cached_license file containers = do
    cached ← gets outside.license_exists
    pure (if cached then (mount_license file containers, true) else (containers, false))

  -- The second start.
  unfoldable pub refresh_and_start : Text → Text → List Container → Action StartError S (Unit {0})
  unfolding start_containers mount_cached_license strip_license
  refresh_and_start file token containers = do
    removed ← perform outside.remove_license
    (later, refreshed) ← pre_pull outside token true containers
    (version, again) ← from_images outside token later
    (mounted, cached) ← mount_cached_license file (strip_license containers)
    start_containers false mounted

  abbrev pub after_first :
      Text → Text → List Container → StartError → Option Text → Action StartError S (Unit {0})
  after_first file token containers e none = fail e
  after_first file token containers e (some logs) = refresh_and_start file token containers

  unfoldable pub recover :
      Text
      → Text
      → List Container
      → Result StartError (Unit {0}) × S
      → Result StartError (Unit {0}) × S
  unfolding refresh_and_start stale_license
  recover file token containers (ok u, s) = (ok u, s)
  recover file token containers (err e, s) = after_first file token containers e (stale_license e) s

  -- `startWithLicenseRetry`; `refreshed` is `licenseRefreshed`.
  unfoldable pub start_with_license_retry :
      Text → Text → Bool → List Container → Action StartError S (Unit {0})
  unfolding recover
  start_with_license_retry file token refreshed containers = do
    (mounted, cached) ← mount_cached_license file containers
    λ s. recover file token mounted (start_containers (cached && not refreshed) mounted s)
