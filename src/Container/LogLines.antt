-- ===== src/Container/LogLines.antt =====
-- internal/container/logs.go: `readBoundedLine` and `trimEOL`, on bytes as numbers. What the buffered
-- reader returns, a slice and why it ends there, is an argument.
pub mod Laws
use lstk.Prelude.{
  ◌+◌, take, ◌++◌, ◌||◌, length, if◌then◌else◌, true, ◌-◌, Option, false, Bool, ℕ, List, [], ◌∷◌,
  none, some, ◌==◌, nat_eq, leb, ltb,
}

-- How a slice of the reader ends: with a newline, because the reader's buffer is full, or with the
-- stream.
pub data SliceEnd : Type 0 where
  at_newline buffer_full stream_over : SliceEnd

-- A list without its last element, if that is `c`.
abbrev kept_before : ℕ → Option (List ℕ) → Option (List ℕ)
kept_before x none = none
kept_before x (some xs) = some (x ∷ xs)

unfoldable pub strip_last : ℕ → List ℕ → Option (List ℕ)
strip_last c [] = none
strip_last c (x ∷ []) = if x == c then some [] else none
strip_last c (x ∷ y ∷ ys) = kept_before x (strip_last c (y ∷ ys))

-- `trimEOL`
abbrev pub strip_return : List ℕ → Option (List ℕ) → List ℕ
strip_return b none = b
strip_return b (some b') = b'

abbrev pub strip_newline : List ℕ → Option (List ℕ) → List ℕ
strip_newline b none = b
strip_newline b (some b') = strip_return b' (strip_last 13 b')

unfoldable pub trim_eol : List ℕ → List ℕ
unfolding strip_last
trim_eol b = strip_newline b (strip_last 10 b)

-- The line so far: what is kept of it, how many bytes are not, and whether anything was read.
pub record BoundedLine : Type 0 where
  pub line : List ℕ
  pub truncated : ℕ
  pub was_read : Bool

-- The body of the loop, on a chunk without its end of line.
unfoldable pub take_chunk : ℕ → List ℕ → Bool → BoundedLine → BoundedLine
take_chunk max chunk newline l =
    let room = max - length l.line in
    let found = l.was_read || ltb 0 (length chunk) || newline in
    if ltb 0 room
    then (if leb (length chunk) room
        then record { line = l.line ++ chunk; truncated = l.truncated; was_read = found }
        else record {
          line = l.line ++ take room chunk;
          truncated = l.truncated + (length chunk - room);
          was_read = found;
        })
    else record { line = l.line; truncated = l.truncated + length chunk; was_read = found }

-- The loop: over the slices up to the first that does not end with a full buffer.
unfoldable pub read_slices : ℕ → List (List ℕ × SliceEnd) → BoundedLine → BoundedLine
unfolding take_chunk trim_eol
read_slices max [] l = l
read_slices max ((chunk, buffer_full) ∷ slices) l =
    read_slices max slices (take_chunk max chunk false l)
read_slices max ((chunk, at_newline) ∷ slices) l = take_chunk max (trim_eol chunk) true l
read_slices max ((chunk, stream_over) ∷ slices) l = take_chunk max chunk false l

-- `readBoundedLine`
unfoldable pub read_bounded_line : ℕ → List (List ℕ × SliceEnd) → BoundedLine
unfolding read_slices
read_bounded_line max slices =
    read_slices max slices (record { line = []; truncated = 0; was_read = false })
