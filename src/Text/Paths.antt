-- ===== src/Text/Paths.antt =====
-- Go's `path/filepath` on Unix: `IsAbs`, `Clean`, `Join`, `Abs`, `Ext`, `Dir`.
use lstk.Prelude.{
  refl, ◌≡◌, ◌||◌, ◌≡◌, Bool, true, false, none, some, List, [], ◌∷◌, ◌++◌, ◌==◌, if◌then◌else◌,
}
use lstk.Text.Basic.{text_beq, Text, codes, text_eq}
use lstk.Text.Search.{split, join, cut_last, contains_char, has_prefix}

abbrev pub is_abs : Text → Bool
is_abs path = has_prefix path (codes "/")

-- The element `..`: it drops the one before it, except above the root and behind another `..`.
abbrev clean_up : Bool → List Text → List Text
clean_up true [] = []
clean_up false [] = codes ".." ∷ []
clean_up rooted (e ∷ stack) = if e == codes ".." then codes ".." ∷ e ∷ stack else stack

-- One element of a path, put on a stack of those before it, the last one on top.
unfoldable pub clean_step : Bool → List Text → Text → List Text
clean_step rooted stack element =
    if element == [] || element == codes "."
    then stack
    else if element == codes ".."
    then clean_up rooted stack
    else element ∷ stack

unfoldable pub clean_stack : Bool → List Text → List Text → List Text
unfolding clean_step
clean_stack rooted stack [] = stack
clean_stack rooted stack (e ∷ es) = clean_stack rooted (clean_step rooted stack e) es

abbrev pub reversed : List Text → List Text → List Text
reversed [] out = out
reversed (e ∷ es) out = reversed es (e ∷ out)

abbrev or_dot : Text → Text
or_dot [] = codes "."
or_dot (c ∷ s) = c ∷ s

-- `filepath.Clean`
unfoldable pub clean : Text → Text
unfolding clean_stack
clean path =
    let rooted = is_abs path in
    let body = join (reversed (clean_stack rooted [] (split path b'/')) []) (codes "/") in
    if rooted then b'/' ∷ body else or_dot body

-- `filepath.Join` of two elements; empty elements are ignored.
unfoldable pub join_path : Text → Text → Text
unfolding clean
join_path [] [] = []
join_path [] (c ∷ s) = clean (c ∷ s)
join_path (c ∷ s) [] = clean (c ∷ s)
join_path (c ∷ s) (d ∷ t) = clean ((c ∷ s) ++ b'/' ∷ d ∷ t)

-- `filepath.Abs`, where the working directory is known.
unfoldable pub abs_path : Text → Text → Text
unfolding join_path
abs_path cwd path = if is_abs path then clean path else join_path cwd path

-- The text before the extension and the extension, with its dot: the part of the last element from
-- its last dot on.
unfoldable pub split_ext : Text → Text × Text
split_ext path = elim (cut_last path b'.') [
  | none ↦ (path, [])
  | some (base, after) ↦ if contains_char after b'/' then (path, []) else (base, b'.' ∷ after)
]

-- `filepath.Ext`
abbrev pub ext : Text → Text
ext path = (split_ext path).1

-- `filepath.Dir`
unfoldable pub dir : Text → Text
unfolding clean
dir path = elim (cut_last path b'/') [
  | none ↦ codes "."
  | some (before, after) ↦ clean (before ++ b'/' ∷ [])
]

clean_test : clean (codes "/a//b/./../c/") ≡ codes "/a/c"
unfolding clean has_prefix join split text_beq
clean_test = refl

dir_test : dir (codes "/a/b.zip") ≡ codes "/a"
unfolding dir cut_last has_prefix join split text_beq
dir_test = refl
