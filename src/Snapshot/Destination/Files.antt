-- ===== src/Snapshot/Destination/Files.antt =====
-- internal/snapshot/destination.go: which local file a reference names.
use lstk.Text.Search.{cut_last-append}
use lstk.Text.Paths.{ext, split_ext, dir}
use lstk.Snapshot.Destination.{
  file, directory, candidates, resolve_loop, resolve_source_path, check_target, Stat,
}
use lstk.Snapshot.Reference.{
  snapshot_ext, local, file_not_found, Destination, path_is_directory, R, with_snapshot_ext,
}
use lstk.Prelude.{
  ◌≡◌, refl, ◌≢◌, ◌↔◌, ◌⊎◌, inl, inr, true, Option, none, some, List, [], ◌∷◌, ◌++◌, arith, nat_eq,
  Bool-cases, ok, err,
}
use lstk.Text.Basic.{equal_fold, Text, codes, text_eq}

split_ext-snapshot : (base : Text) → split_ext (base ++ snapshot_ext) ≡ (base, snapshot_ext)
unfolding split_ext
split_ext-snapshot base = rw (cut_last-append base (codes "snapshot") b'.' refl, split_ext)

ext-snapshot : (base : Text) → equal_fold (split_ext (base ++ snapshot_ext)).1 snapshot_ext ≡ true
unfolding equal_fold
ext-snapshot base = rw (split_ext-snapshot base) refl

with_snapshot_ext-snapshot :
    (base : Text) → with_snapshot_ext (base ++ snapshot_ext) ≡ base ++ snapshot_ext
unfolding with_snapshot_ext
with_snapshot_ext-snapshot base = rw (ext-snapshot base)

with_snapshot_ext-eq :
    (path : Text)
    → (equal_fold (ext path) snapshot_ext ≡ true) × (with_snapshot_ext path ≡ path)
      ⊎ (with_snapshot_ext path ≡ (split_ext path).0 ++ snapshot_ext)
unfolding with_snapshot_ext
with_snapshot_ext-eq path = elim (Bool-cases (equal_fold (ext path) snapshot_ext)) [
  | inl e ↦ inl (e, rw e)
  | inr e ↦ inr (rw e)
]

-- Saving to a path names a file with the extension `.snapshot`, in any case, and the extension is
-- put once: normalising the name again changes nothing.
with_snapshot_ext_idem :
    (path : Text)
    → (equal_fold (ext (with_snapshot_ext path)) snapshot_ext ≡ true)
      × (with_snapshot_ext (with_snapshot_ext path) ≡ with_snapshot_ext path)
with_snapshot_ext_idem path = elim (with_snapshot_ext-eq path) [
  | inl (e, w) ↦ rw (w, w) (e, refl)
  | inr w ↦ rw w (ext-snapshot _, with_snapshot_ext-snapshot _)
]

module _ (stat : Text → Stat) where
  -- The first candidate that is a file, and the first that is a directory.
  unfoldable pub first_file : List Text → Option Text
  first_file [] = none
  first_file (c ∷ cs) = elim (stat c) [ file ↦ some c | _ ↦ first_file cs ]

  unfoldable pub first_directory : List Text → Option Text
  first_directory [] = none
  first_directory (c ∷ cs) = elim (stat c) [ directory ↦ some c | _ ↦ first_directory cs ]

  -- The file that is found, else the directory that stands in its place, else nothing.
  abbrev pub outcome : Text → Option Text → Option Text → R Text
  outcome abs (some f) hit = ok f
  outcome abs none (some d) = err (path_is_directory d)
  outcome abs none none = err (file_not_found abs)

  abbrev or_first : Option Text → Option Text → Option Text
  or_first (some d) other = some d
  or_first none other = other

  resolve_loop-outcome :
      (cs : List Text) (hit : Option Text) (abs : Text)
      → resolve_loop stat cs hit abs
        ≡ outcome abs (first_file cs) (or_first hit (first_directory cs))
  unfolding resolve_loop first_file first_directory
  resolve_loop-outcome [] none abs = refl
  resolve_loop-outcome [] (some d) abs = refl
  resolve_loop-outcome (c ∷ cs) none abs =
      ground (arith, resolve_loop-outcome cs none abs, resolve_loop-outcome cs (some c) abs)
  resolve_loop-outcome (c ∷ cs) (some d) abs = ground (arith, resolve_loop-outcome cs (some d) abs)

  -- Loading resolves a path to the first file among the path itself, the path with `.snapshot` and
  -- the path with `.zip`. A directory is reported only if none of them is a file, and then it is the
  -- first directory among them; if there is none either, the file is reported as not found.
  resolve_source_path-outcome :
      (abs : Text)
      → resolve_source_path stat abs
        ≡ outcome abs (first_file (candidates abs)) (first_directory (candidates abs))
  unfolding resolve_source_path
  resolve_source_path-outcome abs = resolve_loop-outcome (candidates abs) none abs

  -- A path is accepted as a target exactly when its parent is a directory and it is none itself; the
  -- target is then that path with the extension `.snapshot`.
  pub check_target_iff :
      (abs : Text) (d : Destination)
      → (check_target stat abs ≡ ok d) ↔ (
          (stat (dir abs) ≡ directory)
          × (stat abs ≢ directory)
          × (d ≡ record { kind = local; value = with_snapshot_ext abs; version = 0 }))
  unfolding check_target
  check_target_iff abs d = ground arith
