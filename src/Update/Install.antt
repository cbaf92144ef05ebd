-- ===== src/Update/Install.antt =====
-- internal/update/github.go and install_method.go: how lstk was installed, and the update of a program
-- that was downloaded. The requests, the digest and the file system are parameters.
pub mod Laws
use lstk.Prelude.{
  ok-injective, if-cases, subst, All, guard-eq-ok, >>=-eq-ok, ℕ, ◌≡◌, sym, ap, ◌∙◌, Bool, not,
  Option, none, some, List, [], ◌∷◌, ◌++◌, arith, ◌==◌, nat_eq, if◌then◌else◌, Result, ok, err,
  ◌>>=◌, ◌>>◌, guard,
}
use lstk.Text.Basic.{Text, codes, text_eq, text_beq_iff}
use lstk.Update.Notify.{normalize_version}
use lstk.Update.Checksums.{
  IsEntry, parse_checksums-IsEntry, ManifestError, parse_checksums, lookup_sum, Sums,
}
use lstk.Update.Extract.{ArchiveEntry, Write, ExtractError, extract_and_replace}
use lstk.Text.Paths.{clean}
use lstk.Text.Search.{split}

pub data InstallMethod : Type 0 where
  install_binary install_homebrew install_npm : InstallMethod

-- `classifyPath`; `strings.ToLower` is a parameter.
unfoldable pub classify_segments : (Text → Text) → List Text → InstallMethod
classify_segments to_lower [] = install_binary
classify_segments to_lower (seg ∷ segments) =
    let rest = classify_segments to_lower segments in
    if to_lower seg == codes "caskroom"
    then install_homebrew
    else if to_lower seg == codes "node_modules"
    then install_npm
    else rest

unfoldable pub classify_path : (Text → Text) → Text → InstallMethod
unfolding classify_segments
classify_path to_lower resolved = classify_segments to_lower (split (clean resolved) b'/')

-- `buildAssetName` for Unix.
abbrev pub build_asset_name : Text → Text → Text → Text
build_asset_name ver goos goarch =
    codes "lstk_" ++ (ver ++ (b'_' ∷ goos ++ (b'_' ∷ goarch ++ codes ".tar.gz")))

-- What a request returns: a status with a body, or an error.
pub data Answer : Type 0 where
  no_answer : Answer
  answered : ℕ → Text → Answer

pub data InstallError : Type 0 where
  request_failed no_checksums download_failed no_entry no_executable write_failed : InstallError
  checksum_mismatch : InstallError
  bad_manifest extraction_failed : InstallError

-- What the update asks of the network, of the file system and of the libraries.
pub record Release : Type 0 where
  pub fetch : Text → Answer
  -- The lines of a body, as far as it is read, and whether that failed.
  pub scan : Text → List Text × Bool
  pub sha256_hex : Text → Text
  pub decode : Text → Option (List ArchiveEntry)
  pub download_base : Text
  pub executable : Option Text
  pub temp_file : Bool
  pub extract_dir : Option Text
  pub permitted : Write → Bool
  pub replaced : Bool

abbrev pub release_url : Release → Text → Text → Text
release_url r tag name = r.download_base ++ (b'/' ∷ tag ++ (b'/' ∷ name))

abbrev pub or_bad_manifest : Result ManifestError Sums → Result InstallError Sums
or_bad_manifest (err e) = err bad_manifest
or_bad_manifest (ok sums) = ok sums

abbrev pub body_of : Answer → Result InstallError Text
body_of no_answer = err request_failed
body_of (answered status body) = if status == 200 then ok body else err download_failed

abbrev pub or_install : {A : Type 0} → InstallError → Option A → Result InstallError A
or_install e none = err e
or_install e (some a) = ok a

abbrev pub extracted : Result ExtractError Text → Result InstallError Text
extracted (err e) = err extraction_failed
extracted (ok binary) = ok binary

module _ (r : Release) where
  -- `fetchChecksums`
  abbrev pub parsed_sums : Text → Result InstallError Sums
  parsed_sums body = or_bad_manifest (parse_checksums (r.scan body).0 (r.scan body).1)

  abbrev pub checksums_of : Answer → Result InstallError Sums
  checksums_of no_answer = err request_failed
  checksums_of (answered status body) =
      if status == 404
      then err no_checksums
      else if not (status == 200)
      then err download_failed
      else parsed_sums body

  unfoldable pub fetch_checksums : Text → Result InstallError Sums
  fetch_checksums tag = checksums_of (r.fetch (release_url r tag (codes "checksums.txt")))

  -- `update`: what the executable holds behind it.
  unfoldable pub update_binary : Text → Text → Text → Result InstallError Text
  unfolding fetch_checksums
  update_binary tag goos goarch = do
    sums ← fetch_checksums tag
    expected ←
        or_install no_entry (lookup_sum (build_asset_name (normalize_version tag) goos goarch) sums)
    archive ←
        body_of (r.fetch (release_url r tag (build_asset_name (normalize_version tag) goos goarch)))
    exe ← or_install no_executable r.executable
    guard r.temp_file write_failed
    guard (r.sha256_hex archive == expected) checksum_mismatch
    dest ← or_install extraction_failed r.extract_dir
    extracted (extract_and_replace r.permitted dest (r.decode archive) r.replaced)
