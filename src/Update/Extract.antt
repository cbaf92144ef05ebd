-- ===== src/Update/Extract.antt =====
-- internal/update/extract.go: the entries of a release's archive are unpacked into a directory, and the
-- program is replaced. Decoding the archive is a parameter.
pub mod Laws
use lstk.Prelude.{
  Bool, true, false, not, ◌||◌, Option, none, some, List, [], ◌∷◌, ◌++◌, map, ◌==◌, nat_eq, all,
  if◌then◌else◌, Result, ok, err, ◌>>=◌, ◌>>◌, guard,
}
use lstk.Text.Basic.{Text, codes, text_eq}
use lstk.Text.Paths.{is_abs, clean, clean_stack, reversed, join_path, dir}
use lstk.Text.Search.{split, join, has_prefix}

-- The elements of a path that `filepath.Clean` keeps.
abbrev pub elements : Text → List Text
elements path = reversed (clean_stack (is_abs path) [] (split path b'/')) []

-- `filepath.Rel` on Unix: what is left of the two paths behind their common elements.
unfoldable pub behind_common : List Text → List Text → List Text × List Text
behind_common [] target = ([], target)
behind_common (b ∷ base) [] = (b ∷ base, [])
behind_common (b ∷ base) (t ∷ target) =
    let rest = behind_common base target in if b == t then rest else (b ∷ base, t ∷ target)

abbrev pub ups : List Text → List Text
ups = map (λ e. codes "..")

abbrev pub rel_of : List Text × List Text → Option Text
rel_of ([], []) = some (codes ".")
rel_of ([], t ∷ target) = some (join (t ∷ target) (codes "/"))
rel_of (b ∷ base, target) =
    if b == codes ".." then none else some (join (ups (b ∷ base) ++ target) (codes "/"))

abbrev pub same_root : Bool → Bool → Bool
same_root true b = b
same_root false b = not b

unfoldable pub rel : Text → Text → Option Text
unfolding behind_common
rel base target =
    if same_root (is_abs base) (is_abs target)
    then rel_of (behind_common (elements base) (elements target))
    else none

pub data ExtractError : Type 0 where
  absolute_path escapes_destination binary_not_found : ExtractError
  -- A call of the operating system that failed.
  io_failed : ExtractError

-- `safePath`
abbrev pub judge_rel : Text → Option Text → Result ExtractError Text
judge_rel target none = err escapes_destination
judge_rel target (some r) =
    if r == codes ".." || has_prefix r (codes "../") then err escapes_destination else ok target

unfoldable pub safe_path : Text → Text → Result ExtractError Text
unfolding rel
safe_path dest name =
    if is_abs name
    then err absolute_path
    else judge_rel (join_path dest (clean name)) (rel dest (join_path dest (clean name)))

-- The entries that are unpacked, and those of other kinds, which a tar archive may have.
pub data EntryKind : Type 0 where
  directory regular other : EntryKind

pub record ArchiveEntry : Type 0 where
  pub name : Text
  pub kind : EntryKind
  pub content : Text

-- What the operating system does with a path and its contents: make the directory, with its parents;
-- make the file's directory and write it. Whether it succeeds is a parameter; a write that fails may
-- have left a part of its file, and counts as done.
pub data Write : Type 0 where
  make_dir : Text → Write
  write_file : Text → Text → Write

abbrev pub writes_for : Text → ArchiveEntry → EntryKind → List Write
writes_for target e directory = make_dir target ∷ []
writes_for target e regular = make_dir (dir target) ∷ write_file target e.content ∷ []
writes_for target e other = []

module _ (permitted : Write → Bool) where
  -- What is written stays there behind an error.
  abbrev pub Unpacking : Type 0
  Unpacking = List Write × Result ExtractError (Unit {0})

  unfoldable pub perform_all : List Write → Unpacking
  perform_all [] = ([], ok tt)
  perform_all (w ∷ writes) =
      let (more, r) = perform_all writes in
      if permitted w then (w ∷ more, r) else (w ∷ [], err io_failed)

  abbrev pub unpack : ArchiveEntry → Result ExtractError Text → Unpacking
  unpack e (err x) = ([], err x)
  unpack e (ok target) = perform_all (writes_for target e e.kind)

  abbrev pub then_unpack : Unpacking → Unpacking → Unpacking
  then_unpack (writes, err x) rest = (writes, err x)
  then_unpack (writes, ok u) (more, r) = (writes ++ more, r)

  -- The loop of `extractTarGz` and of `extractZip`: what they write, and their error.
  unfoldable pub extract_entries : Text → List ArchiveEntry → Unpacking
  unfolding safe_path perform_all
  extract_entries dest [] = ([], ok tt)
  extract_entries dest (e ∷ entries) =
      then_unpack (unpack e (safe_path dest e.name)) (extract_entries dest entries)

-- The file at a path behind these writes: the last one wins.
unfoldable pub file_at : Text → List Write → Option Text
file_at path [] = none
file_at path (make_dir p ∷ writes) = file_at path writes
file_at path (write_file p content ∷ writes) = elim (file_at path writes) [
  | some later ↦ some later
  | none ↦ if p == path then some content else none
]

-- `extractAndReplace` for Unix: what the executable holds behind it. `entries` is what the archive
-- decodes to, or none if that fails.
abbrev pub decoded : Option (List ArchiveEntry) → Result ExtractError (List ArchiveEntry)
decoded none = err io_failed
decoded (some entries) = ok entries

abbrev pub found_binary : Option Text → Result ExtractError Text
found_binary none = err binary_not_found
found_binary (some content) = ok content

unfoldable pub extract_and_replace :
    (Write → Bool) → Text → Option (List ArchiveEntry) → Bool → Result ExtractError Text
unfolding extract_entries file_at
extract_and_replace permitted dest entries replaced = do
  es ← decoded entries
  (extract_entries permitted dest es).1
  binary ←
      found_binary (file_at (join_path dest (codes "lstk")) (extract_entries permitted dest es).0)
  guard replaced io_failed
  ok binary
