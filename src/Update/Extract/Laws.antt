-- ===== src/Update/Extract/Laws.antt =====
-- internal/update/extract.go: nothing is written outside the directory.
use lstk.Text.Paths.{dir, is_abs, clean, join_path}
use lstk.Prelude.{
  err, inr, inl, ◌⊎◌, Result, All-append, ◌≡◌, refl, Bool, Option, none, some, List, [], ◌∷◌, ◌++◌,
  arith, ◌==◌, nat_eq, All, ok, subst, if-cases,
}
use lstk.Text.Basic.{text_beq, Text, codes, text_eq, text_beq_iff}
use lstk.Update.Extract.{
  unpack, then_unpack, ExtractError, Unpacking, same_root, writes_for, ups, EntryKind, perform_all,
  Write, ArchiveEntry, extract_entries, rel, rel_of, judge_rel, behind_common, safe_path, elements,
  make_dir, write_file, directory, regular, other,
}
use lstk.Text.Search.{join, has_prefix}

behind_common-prefix :
    (base target rest : List Text) → behind_common base target ≡ ([], rest) → target ≡ base ++ rest
unfolding behind_common
behind_common-prefix [] target rest h = ground (arith, h)
behind_common-prefix (b ∷ base) [] rest h = cc
behind_common-prefix (b ∷ base) (t ∷ target) rest h =
    ground (arith, h, behind_common-prefix base target rest, text_beq_iff b t)

-- A path that climbs is refused.
climbing_refused :
    (target : Text) (base rest : List Text) {t : Text}
    → judge_rel target (some (join (codes ".." ∷ ups base ++ rest) (codes "/"))) ≡ ok t
    → ⊥
unfolding join has_prefix text_beq
climbing_refused target [] [] h = cc
climbing_refused target [] (x ∷ rest) h = cc
climbing_refused target (b ∷ base) rest h = cc

climbs_refused :
    (target : Text) (b : Text) (base rest : List Text) {t : Text}
    → judge_rel target (rel_of (b ∷ base, rest)) ≡ ok t
    → ⊥
climbs_refused target b base rest {t} h =
    if-cases (λ o. judge_rel target o ≡ ok t → ⊥) (b == codes "..") (λ e h. cc)
      (λ e h. climbing_refused target base rest h) h

judge_rel-target :
    (target : Text) (o : Option Text) {t : Text} → judge_rel target o ≡ ok t → target ≡ t
judge_rel-target target none h = cc
judge_rel-target target (some r) h = ground (arith, h)

-- The elements of a path begin with those of the directory.
abbrev pub IsInside : Text → Text → Type 0
IsInside dest target = (rest : List Text) × (elements target ≡ elements dest ++ rest)

judged :
    (target : Text) (base elems : List Text) (p : List Text × List Text) {t : Text}
    → behind_common base elems ≡ p
    → judge_rel target (rel_of p) ≡ ok t
    → (rest : List Text) × (elems ≡ base ++ rest)
judged target base elems ([], rest) e h = (rest, behind_common-prefix base elems rest e)
judged target base elems (b ∷ left, rest) e h = absurd (climbs_refused target b left rest h)

-- A path that `safePath` returns lies in the directory: its elements are those of the directory and
-- more.
pub safe_path-IsInside :
    (dest name : Text) {target : Text} → safe_path dest name ≡ ok target → IsInside dest target
unfolding safe_path rel
safe_path-IsInside dest name {target} h =
    let path = join_path dest (clean name) in
    if-cases (λ r. r ≡ ok target → IsInside dest target) (is_abs name) (λ e h. cc)
      (λ e h.
        let same : path ≡ target = judge_rel-target path (rel dest path) h in
        subst (IsInside dest) same (
          if-cases (λ o. judge_rel path o ≡ ok target → IsInside dest path)
            (same_root (is_abs dest) (is_abs path))
            (λ f h.
              judged path (elements dest) (elements path)
                (behind_common (elements dest) (elements path)) refl h)
            (λ f h. cc) h))
      h

-- What is written lies in the directory, or is the directory of a file that does.
abbrev pub StaysIn : Text → Write → Type 0
StaysIn dest (make_dir path) =
    IsInside dest path ⊎ ((file : Text) × IsInside dest file × (path ≡ dir file))
StaysIn dest (write_file path content) = IsInside dest path

writes_for-StaysIn :
    (dest target : Text) (e : ArchiveEntry) (kind : EntryKind)
    → IsInside dest target
    → All (StaysIn dest) (writes_for target e kind)
writes_for-StaysIn dest target e directory h = (inl h, tt)
writes_for-StaysIn dest target e regular h = (inr (target, h, refl), (h, tt))
writes_for-StaysIn dest target e other h = tt

module _ (permitted : Write → Bool) where
  perform_all-All :
      (P : Write → Type 0) (writes : List Write)
      → All P writes
      → All P (perform_all permitted writes).0
  unfolding perform_all
  perform_all-All P [] h = tt
  perform_all-All P (w ∷ writes) (h, hs) =
      if-cases (λ (r : Unpacking permitted). All P r.0) (permitted w)
        (λ e. (h, perform_all-All P writes hs)) (λ e. (h, tt))

  unpack-StaysIn :
      (dest : Text) (e : ArchiveEntry) (target : Result ExtractError Text)
      → safe_path dest e.name ≡ target
      → All (StaysIn dest) (unpack permitted e target).0
  unpack-StaysIn dest e (err x) h = tt
  unpack-StaysIn dest e (ok target) h =
      perform_all-All (StaysIn dest) _
        (writes_for-StaysIn dest target e e.kind (safe_path-IsInside dest e.name h))

  then_unpack-All :
      (P : Write → Type 0) (first rest : Unpacking permitted)
      → All P first.0
      → All P rest.0
      → All P (then_unpack permitted first rest).0
  then_unpack-All P (writes, err x) rest h k = h
  then_unpack-All P (writes, ok u) (more, r) h k = All-append P writes more h k

  -- Whatever an archive contains, and also where the extraction fails, every file that is written
  -- lies in the directory, and every directory that is made lies in it or is the one of such a file.
  pub extract_entries-StaysIn :
      (dest : Text) (entries : List ArchiveEntry)
      → All (StaysIn dest) (extract_entries permitted dest entries).0
  unfolding extract_entries
  extract_entries-StaysIn dest [] = tt
  extract_entries-StaysIn dest (e ∷ entries) =
      then_unpack-All (StaysIn dest) _ _ (unpack-StaysIn dest e _ refl)
        (extract_entries-StaysIn dest entries)
