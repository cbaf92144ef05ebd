-- ===== src/Update/Install/Laws.antt =====
-- internal/update/github.go: what an executable that is replaced holds.
use lstk.Update.Install.{
  extraction_failed, checksum_mismatch, write_failed, no_executable, release_url, no_entry,
  build_asset_name, or_install, checksums_of, body_of, extracted, update_binary, parsed_sums,
  Answer, InstallError, or_bad_manifest, fetch_checksums, Release,
}
use lstk.Update.Install.{answered, no_answer}
use lstk.Prelude.{
  refl, ok-injective, if-cases, subst, All, guard-eq-ok, >>=-eq-ok, ◌≡◌, sym, ap, ◌∙◌, Bool, not,
  Option, none, some, List, arith, ◌==◌, nat_eq, Result, ok, err, guard,
}
use lstk.Text.Basic.{Text, codes, text_eq, text_beq_iff}
use lstk.Update.Notify.{normalize_version}
use lstk.Update.Checksums.{
  IsEntry, parse_checksums-IsEntry, ManifestError, parse_checksums, lookup_sum, Sums,
}
use lstk.Update.Extract.{ExtractError, extract_and_replace}

module _ (r : Release) where
  -- What stands behind an executable that is replaced.
  pub record IsVerified (tag goos goarch binary : Text) : Type 0 where
    pub sums : Sums
    pub fetched : fetch_checksums r tag ≡ ok sums
    pub entries : All IsEntry sums
    pub archive : Text
    pub listed :
        lookup_sum (build_asset_name (normalize_version tag) goos goarch) sums
        ≡ some (r.sha256_hex archive)
    pub downloaded :
        r.fetch (release_url r tag (build_asset_name (normalize_version tag) goos goarch))
        ≡ answered 200 archive
    pub dest : Text
    pub unpacked : extract_and_replace r.permitted dest (r.decode archive) r.replaced ≡ ok binary

  manifest-IsEntry :
      (lines : List Text) (failed : Bool) (x : Result ManifestError Sums) {sums : Sums}
      → parse_checksums lines failed ≡ x
      → or_bad_manifest x ≡ ok sums
      → All IsEntry sums
  manifest-IsEntry lines failed (err e) p h = cc
  manifest-IsEntry lines failed (ok found) p h =
      subst (All IsEntry) (ok-injective h) (parse_checksums-IsEntry lines failed p)

  parsed_sums-IsEntry :
      (body : Text) {sums : Sums} → parsed_sums r body ≡ ok sums → All IsEntry sums
  parsed_sums-IsEntry body h =
      manifest-IsEntry (r.scan body).0 (r.scan body).1
        (parse_checksums (r.scan body).0 (r.scan body).1) refl h

  checksums_of-IsEntry : (a : Answer) {sums : Sums} → checksums_of r a ≡ ok sums → All IsEntry sums
  checksums_of-IsEntry no_answer h = cc
  checksums_of-IsEntry (answered status body) {sums} h =
      if-cases (λ x. x ≡ ok sums → All IsEntry sums) (status == 404) (λ e h. cc)
        (λ e h.
          if-cases (λ x. x ≡ ok sums → All IsEntry sums) (not (status == 200)) (λ f h. cc)
            (λ f h. parsed_sums-IsEntry body h) h)
        h

  or_install-eq-ok :
      {A : Type 0} (e : InstallError) (o : Option A) {a : A} → or_install e o ≡ ok a → o ≡ some a
  or_install-eq-ok e none h = cc
  or_install-eq-ok e (some a) h = cc

  body_of-eq-ok : (a : Answer) {body : Text} → body_of a ≡ ok body → a ≡ answered 200 body
  body_of-eq-ok no_answer h = cc
  body_of-eq-ok (answered status body) h = ground (arith, h)

  extracted-eq-ok : (x : Result ExtractError Text) {b : Text} → extracted x ≡ ok b → x ≡ ok b
  extracted-eq-ok (err e) h = cc
  extracted-eq-ok (ok binary) h = cc

  -- An update that succeeds leaves in the executable what is unpacked from an archive that was
  -- downloaded whole for this version and platform, and whose digest is the one that the manifest of
  -- the release names for it; all digests of the manifest have 64 hexadecimal digits.
  pub update_binary-IsVerified :
      (tag goos goarch : Text) {binary : Text}
      → update_binary r tag goos goarch ≡ ok binary
      → IsVerified tag goos goarch binary
  unfolding update_binary
  update_binary-IsVerified tag goos goarch h =
      let (sums, fetched, h₁) = >>=-eq-ok (fetch_checksums r tag) _ h in
      let (expected, listed, h₂) =
        >>=-eq-ok
          (or_install no_entry
            (lookup_sum (build_asset_name (normalize_version tag) goos goarch) sums))
          _ h₁ in
      let (archive, got, h₃) =
        >>=-eq-ok
          (body_of
            (r.fetch (release_url r tag (build_asset_name (normalize_version tag) goos goarch))))
          _ h₂ in
      let (exe, resolved, h₄) = >>=-eq-ok (or_install no_executable r.executable) _ h₃ in
      let (u, written, h₅) = >>=-eq-ok (guard r.temp_file write_failed) _ h₄ in
      let (v, matched, h₆) =
        >>=-eq-ok (guard (r.sha256_hex archive == expected) checksum_mismatch) _ h₅ in
      let (dest, made, h₇) = >>=-eq-ok (or_install extraction_failed r.extract_dir) _ h₆ in
      let same : r.sha256_hex archive ≡ expected =
        (text_beq_iff (r.sha256_hex archive) expected).0
          (guard-eq-ok _ checksum_mismatch matched) in
      record {
        sums = sums;
        fetched = fetched;
        entries =
            checksums_of-IsEntry (r.fetch (release_url r tag (codes "checksums.txt"))) fetched;
        archive = archive;
        listed = or_install-eq-ok no_entry _ listed ∙ ap some (sym same);
        downloaded = body_of-eq-ok _ got;
        dest = dest;
        unpacked = extracted-eq-ok _ h₇;
      }
