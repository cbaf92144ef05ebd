-- ===== src/Update/Checksums.antt =====
-- internal/update/checksum.go: the manifest of checksums of a release.
use lstk.Prelude.{
  >>=-eq-ok, length, ok-injective, ℕ, ◌≡◌, ◌≢◌, Bool, true, not, ◌&&◌, ◌||◌, Option, none, some,
  List, [], ◌∷◌, ◌++◌, arith, ◌==◌, nat_eq, all, All, if◌then◌else◌, Result, ok, err, ◌>>=◌, ◌>>◌,
  guard, subst, if-cases,
}
use lstk.Text.Basic.{to_lower, is_space, in_range, Text, text_eq, text_beq_iff}
use lstk.Text.Search.{trim_space}

-- `strings.Fields`: the field that has begun, and those behind it.
abbrev pub end_field : Text → List Text → List Text
end_field [] fields = fields
end_field (c ∷ s) fields = (c ∷ s) ∷ fields

unfoldable pub fields_from : Text → Text → List Text
fields_from begun [] = end_field begun []
fields_from begun (c ∷ s) =
    let inside = fields_from (begun ++ c ∷ []) s in
    let outside = fields_from [] s in if is_space c then end_field begun outside else inside

abbrev pub fields : Text → List Text
fields = fields_from []

abbrev pub is_hex : ℕ → Bool
is_hex c = in_range b'0' b'9' c || in_range b'a' b'f' c

-- `isSHA256Hex`
unfoldable pub is_sha256_hex : Text → Bool
is_sha256_hex s = length s == 64 && all is_hex s

abbrev pub without_star : Text → Text
without_star [] = []
without_star (c ∷ s) = if c == b'*' then s else c ∷ s

pub data ManifestError : Type 0 where
  malformed invalid_digest empty_filename : ManifestError
  read_failed manifest_empty : ManifestError

-- The map from names to digests, the newest entry first.
abbrev pub Sums : Type 0
Sums = List (Text × Text)

-- A line, cut into its fields.
abbrev pub manifest_entry : Text → Text → Result ManifestError (Text × Text)
manifest_entry sum name =
    if not (is_sha256_hex sum)
    then err invalid_digest
    else if name == []
    then err empty_filename
    else ok (name, sum)

abbrev pub parse_fields : List Text → Result ManifestError (Text × Text)
parse_fields (sum ∷ name ∷ []) = manifest_entry (to_lower sum) (without_star name)
parse_fields [] = err malformed
parse_fields (f ∷ []) = err malformed
parse_fields (f ∷ g ∷ h ∷ more) = err malformed

-- The loop over the lines that the scanner delivers.
unfoldable pub parse_lines : List Text → Sums → Result ManifestError Sums
parse_lines [] sums = ok sums
parse_lines (line ∷ lines) sums =
    let rest = parse_lines lines sums in
    if trim_space line == []
    then rest
    else (parse_fields (fields (trim_space line)) >>= λ e. parse_lines lines (e ∷ sums))

-- `parseChecksums`; `failed` is whether the scanner ended with an error.
abbrev pub non_empty : Sums → Result ManifestError Sums
non_empty [] = err manifest_empty
non_empty (e ∷ sums) = ok (e ∷ sums)

unfoldable pub parse_checksums : List Text → Bool → Result ManifestError Sums
unfolding parse_lines is_sha256_hex
parse_checksums lines failed = do
  sums ← parse_lines lines []
  guard (not failed) read_failed
  non_empty sums

unfoldable pub lookup_sum : Text → Sums → Option Text
lookup_sum name [] = none
lookup_sum name ((n, sum) ∷ sums) =
    let rest = lookup_sum name sums in if n == name then some sum else rest

-- An entry of the manifest.
abbrev pub IsEntry : Text × Text → Type 0
IsEntry (name, sum) = (is_sha256_hex sum ≡ true) × (name ≢ [])

manifest_entry-IsEntry :
    (sum name : Text) {e : Text × Text} → manifest_entry sum name ≡ ok e → IsEntry e
manifest_entry-IsEntry sum name h = ground (arith, h, text_beq_iff name [])

parse_fields-IsEntry : (fs : List Text) {e : Text × Text} → parse_fields fs ≡ ok e → IsEntry e
parse_fields-IsEntry (sum ∷ name ∷ []) h =
    manifest_entry-IsEntry (to_lower sum) (without_star name) h
parse_fields-IsEntry [] h = cc
parse_fields-IsEntry (f ∷ []) h = cc
parse_fields-IsEntry (f ∷ g ∷ i ∷ more) h = cc

parse_lines-IsEntry :
    (lines : List Text) (sums : Sums) {found : Sums}
    → All IsEntry sums
    → parse_lines lines sums ≡ ok found
    → All IsEntry found
unfolding parse_lines
parse_lines-IsEntry [] sums k h = subst (All IsEntry) (ok-injective h) k
parse_lines-IsEntry (line ∷ lines) sums {found} k h =
    if-cases (λ r. r ≡ ok found → All IsEntry found) (trim_space line == [])
      (λ e h. parse_lines-IsEntry lines sums k h)
      (λ e h.
        let (en, parsed, rest) = >>=-eq-ok (parse_fields (fields (trim_space line))) _ h in
        parse_lines-IsEntry lines (en ∷ sums) (parse_fields-IsEntry _ parsed, k) rest)
      h

non_empty-IsEntry :
    (found : Sums) {sums : Sums} → All IsEntry found → non_empty found ≡ ok sums → All IsEntry sums
non_empty-IsEntry [] k h = cc
non_empty-IsEntry (e ∷ found) k h = subst (All IsEntry) (ok-injective h) k

-- Every entry of a manifest that is accepted has a file name and 64 hexadecimal digits in lower case.
pub parse_checksums-IsEntry :
    (lines : List Text) (failed : Bool) {sums : Sums}
    → parse_checksums lines failed ≡ ok sums
    → All IsEntry sums
unfolding parse_checksums
parse_checksums-IsEntry lines failed h =
    let (found, parsed, h₁) = >>=-eq-ok (parse_lines lines []) _ h in
    let (u, whole, h₂) = >>=-eq-ok (guard (not failed) read_failed) _ h₁ in
    let entries : All IsEntry found = parse_lines-IsEntry lines [] tt parsed in
    non_empty-IsEntry found entries h₂
