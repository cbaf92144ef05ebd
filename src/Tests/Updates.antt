-- ===== src/Tests/Updates.antt =====
-- An update to a release.
use lstk.Update.Checksums.{fields_from, parse_checksums, lookup_sum}
use lstk.Text.Search.{cut_last, trim_space, split, join, has_prefix}
use lstk.Text.Paths.{dir, join_path}
use lstk.Prelude.{
  ℕ, zero, suc, ◌≡◌, refl, true, false, some, List, [], ◌∷◌, ◌++◌, ◌==◌, nat_eq, All, if◌then◌else◌,
  ok, err,
}
use lstk.Text.Basic.{text_beq, to_lower, Text, codes, text_eq}
use lstk.Update.Install.Laws.{IsVerified, update_binary-IsVerified}
use lstk.Update.Install.{Answer, fetch_checksums, Release, answered, no_answer, update_binary}
use lstk.Update.Extract.{
  perform_all, write_file, escapes_destination, extract_and_replace, safe_path, make_dir,
  ArchiveEntry, regular, extract_entries, Write,
}
use lstk.Update.Extract.Laws.{extract_entries-StaysIn, StaysIn}
use lstk.Update.Notify.{NotifyOptions, selected, notify_update, applied}
use lstk.Update.Notify.Laws.{notify_update-IsWanted, IsWanted}
use lstk.Update.LineWriter.{write_pieces, shown, lines_of, concat, write_pieces-lines_of}
use lstk.Text.Basic.{codes}

abbrev zeros : ℕ → Text
zeros zero = []
zeros (suc n) = b'0' ∷ zeros n

abbrev contents : List ArchiveEntry
contents = record { name = codes "lstk"; kind = regular; content = codes "new" } ∷ []

-- A server with one release, whose manifest has one line.
abbrev served : Text → Answer
served url =
    if url == codes "https://dl/v1.2.0/checksums.txt"
    then answered 200 (codes "manifest")
    else if url == codes "https://dl/v1.2.0/lstk_1.2.0_linux_amd64.tar.gz"
    then answered 200 (codes "archive")
    else no_answer

abbrev release : Release
release = record {
  fetch = served;
  scan = λ body. ((zeros 64 ++ codes "  lstk_1.2.0_linux_amd64.tar.gz") ∷ [], false);
  sha256_hex = λ body. zeros 64;
  decode = λ body. some contents;
  download_base = codes "https://dl";
  executable = some (codes "/usr/bin/lstk");
  temp_file = true;
  extract_dir = some (codes "/tmp/x");
  permitted = λ w. true;
  replaced = true;
}

update_succeeds :
    update_binary release (codes "v1.2.0") (codes "linux") (codes "amd64") ≡ ok (codes "new")
unfolding update_binary fetch_checksums text_beq parse_checksums trim_space fields_from to_lower
    lookup_sum extract_and_replace has_prefix join_path join split
update_succeeds = refl

update_binary-IsVerified_example :
    IsVerified release (codes "v1.2.0") (codes "linux") (codes "amd64") (codes "new")
update_binary-IsVerified_example =
    update_binary-IsVerified release (codes "v1.2.0") (codes "linux") (codes "amd64")
      update_succeeds

abbrev unpacked_writes : List Write
unpacked_writes = make_dir (codes "/tmp/x") ∷ write_file (codes "/tmp/x/lstk") (codes "new") ∷ []

-- The program, and behind it an entry that climbs out of the directory.
abbrev hostile : List ArchiveEntry
hostile =
    contents ++ record { name = codes "a/../../etc"; kind = regular; content = codes "x" } ∷ []

unpacks :
    extract_entries (λ w. true) (codes "/tmp/x") hostile
    ≡ (unpacked_writes, err escapes_destination)
unfolding extract_entries perform_all has_prefix join_path join split text_beq dir cut_last
unpacks = refl

extract_entries-StaysIn_example :
    All (StaysIn (codes "/tmp/x")) (extract_entries (λ w. true) (codes "/tmp/x") hostile).0
extract_entries-StaysIn_example = extract_entries-StaysIn (λ w. true) (codes "/tmp/x") hostile

-- An entry that climbs out of the directory.
escape_refused : safe_path (codes "/tmp/x") (codes "a/../../etc") ≡ err escapes_destination
unfolding safe_path has_prefix join_path join split text_beq
escape_refused = refl

abbrev opts : NotifyOptions
opts = record { update_prompt = true; skipped_version = codes "v1.1.0"; can_persist = true }

notify_update-IsWanted_example :
    All
      (IsWanted opts (codes "1.0.0") (some (codes "v1.2.0")))
      (notify_update true opts (codes "1.0.0") (some (codes "v1.2.0")) (selected (codes "u"))).1
    × ((notify_update true opts (codes "1.0.0") (some (codes "v1.2.0")) (selected (codes "u"))).0
          ≡ true
        → (true ≡ true)
          × (v : Text) × ((notify_update true opts
                (codes "1.0.0")
                (some (codes "v1.2.0"))
                (selected (codes "u"))).1
              ≡ applied v ∷ []))
notify_update-IsWanted_example =
    notify_update-IsWanted true opts (codes "1.0.0") (some (codes "v1.2.0")) (selected (codes "u"))

write_pieces-lines_of_example :
    write_pieces (record { buf = [] }) (codes "up" ∷ codes "dated\n\nok" ∷ [])
    ≡ shown (lines_of (concat (codes "up" ∷ codes "dated\n\nok" ∷ [])))
write_pieces-lines_of_example = write_pieces-lines_of (codes "up" ∷ codes "dated\n\nok" ∷ [])
