-- ===== src/Container/LogStream/Laws.antt =====
-- internal/container/logs.go: the lines that a stream holds are all read, however it is sliced, and
-- `Logs` emits the last of them that survive the filter.
use lstk.Prelude.{
  append_assoc, append-nil, last, length, take, ℕ, zero, suc, ◌-◌, ◌<◌, ◌≡◌, refl, sym, ap, ◌∙◌,
  Bool, true, false, ◌||◌, Option, none, some, List, [], ◌∷◌, ◌++◌, map, arith, ltb, nat_eq,
  if◌then◌else◌, ok,
}
use mathlib.Core.List.{map-append}
use lstk.Text.Basic.{Text, codes, text_eq}
use lstk.Container.LogLines.{
  at_newline, buffer_full, stream_over, BoundedLine, take_chunk, read_slices, read_bounded_line,
  trim_eol,
}
use lstk.Container.LogLines.Laws.{without_eol, whole_line, IsCut, read_bounded_line-IsCut}
use lstk.Container.LogStream.{Slices, behind_line, line_read, read_on, read_lines}
use lstk.Container.Logs.{RawLine, surviving}
use lstk.Container.Logs.Laws.{emit_filtered_backlog-last}
use lstk.Container.LogStream.{
  backlog_stream, parse_tail_limit, logs, logs_for, for_each_log_line, then_follow,
}

-- The lines of a stream; `seen` is what was seen of the line that has begun, if `begun`.
abbrev pub whole_lines : List ℕ → Bool → Slices → List (List ℕ)
whole_lines seen begun [] = if begun then seen ∷ [] else []
whole_lines seen begun ((chunk, buffer_full) ∷ slices) =
    whole_lines (seen ++ chunk) (begun || ltb 0 (length chunk)) slices
whole_lines seen begun ((chunk, at_newline) ∷ slices) =
    (seen ++ without_eol chunk) ∷ whole_lines [] false slices
whole_lines seen begun ((chunk, stream_over) ∷ slices) =
    if begun || ltb 0 (length chunk) then (seen ++ chunk) ∷ [] else []

-- A line cut at the bound, with the number of bytes behind it.
abbrev pub cut_line : ℕ → List ℕ → RawLine
cut_line max s = (take max s, length s - max)

-- Whether the slices have a line.
abbrev has_line : Slices → Bool
has_line [] = false
has_line ((chunk, buffer_full) ∷ slices) = ltb 0 (length chunk) || has_line slices
has_line ((chunk, at_newline) ∷ slices) = true
has_line ((chunk, stream_over) ∷ slices) = ltb 0 (length chunk)

take_chunk_read :
    (max : ℕ) (chunk : List ℕ) (newline : Bool) (l : BoundedLine)
    → (take_chunk max chunk newline l).was_read ≡ (l.was_read || ltb 0 (length chunk) || newline)
unfolding take_chunk
take_chunk_read max chunk newline l = ground arith

read_slices_read :
    (max : ℕ) (slices : Slices) (l : BoundedLine)
    → (read_slices max slices l).was_read ≡ (l.was_read || has_line slices)
unfolding read_slices
read_slices_read max [] l = ground arith
read_slices_read max ((chunk, buffer_full) ∷ slices) l = ground (
  arith,
  read_slices_read max slices (take_chunk max chunk false l),
  take_chunk_read max chunk false l,
)
read_slices_read max ((chunk, at_newline) ∷ slices) l =
    ground (arith, take_chunk_read max (trim_eol chunk) true l)
read_slices_read max ((chunk, stream_over) ∷ slices) l =
    ground (arith, take_chunk_read max chunk false l)

abbrev lines_behind : Option Slices → List (List ℕ)
lines_behind none = []
lines_behind (some slices) = whole_lines [] false slices

-- The first line, and those behind it.
whole_lines_first :
    (seen : List ℕ) (begun : Bool) (slices : Slices)
    → whole_lines seen begun slices
      ≡ (if begun || has_line slices then (seen ++ whole_line slices) ∷ [] else [])
        ++ lines_behind (behind_line slices)
unfolding behind_line
whole_lines_first seen true [] = ap (λ s. s ∷ []) (sym (append-nil seen))
whole_lines_first seen false [] = refl
whole_lines_first seen begun ((chunk, buffer_full) ∷ slices) = ground (
  arith,
  whole_lines_first (seen ++ chunk) (begun || ltb 0 (length chunk)) slices,
  append_assoc seen chunk (whole_line slices),
)
whole_lines_first seen begun ((chunk, at_newline) ∷ slices) = ground arith
whole_lines_first seen begun ((chunk, stream_over) ∷ slices) = ground arith

behind_line_shorter :
    (slices : Slices) {rest : Slices} → behind_line slices ≡ some rest → length rest < length slices
unfolding behind_line
behind_line_shorter [] h = cc
behind_line_shorter ((chunk, buffer_full) ∷ slices) h = omega (arith, behind_line_shorter slices h)
behind_line_shorter ((chunk, at_newline) ∷ slices) h = ground (arith, h)
behind_line_shorter ((chunk, stream_over) ∷ slices) h = cc

first_line_read :
    (max : ℕ) (s : List ℕ) (l : BoundedLine) (b : Bool)
    → l.was_read ≡ b
    → IsCut max s l
    → line_read l ≡ map (cut_line max) (if b then s ∷ [] else [])
first_line_read max s l true e h = ground (arith, e, h.line_eq, h.truncated_eq)
first_line_read max s l false e h = rw e refl

module _ (max : ℕ) where
  read_on-whole_lines :
      (fuel : ℕ) (lines : List RawLine) (first all_of : List (List ℕ)) (o : Option Slices)
      → lines ≡ map (cut_line max) first
      → all_of ≡ first ++ lines_behind o
      → ((rest : Slices)
          → o ≡ some rest
          → read_lines max fuel rest ≡ some (map (cut_line max) (whole_lines [] false rest)))
      → read_on lines o (read_lines max fuel) ≡ some (map (cut_line max) all_of)
  read_on-whole_lines fuel lines first all_of none e f h =
      ap some (e ∙ ap (map (cut_line max)) (sym (f ∙ append-nil first)))
  read_on-whole_lines fuel lines first all_of (some rest) e f h =
      rw (read_on, h rest refl)
        (ap some (
          ap (λ z. z ++ map (cut_line max) (whole_lines [] false rest)) e
          ∙ sym (map-append (cut_line max) first (whole_lines [] false rest))
          ∙ ap (map (cut_line max)) (sym f)))

  -- However the reader slices the stream, and with more fuel than there are slices, the loop ends and
  -- reads each line, in order, cut at the bound, with the number of bytes behind it. A line is what
  -- its slices hold, without the newline and a carriage return before it in the same slice.
  pub read_lines-whole_lines :
      (fuel : ℕ) (slices : Slices)
      → length slices < fuel
      → read_lines max fuel slices ≡ some (map (cut_line max) (whole_lines [] false slices))
  unfolding read_lines
  read_lines-whole_lines zero slices h = absurd (omega (arith, h))
  read_lines-whole_lines (suc fuel) slices h =
      read_on-whole_lines fuel (line_read (read_bounded_line max slices))
        (if has_line slices then whole_line slices ∷ [] else []) (whole_lines [] false slices)
        (behind_line slices)
        (first_line_read max (whole_line slices) (read_bounded_line max slices) (has_line slices)
          (read_slices_read max slices (record { line = []; truncated = 0; was_read = false }))
          (read_bounded_line-IsCut max slices))
        (whole_lines_first [] false slices)
        (λ rest e.
          read_lines-whole_lines fuel rest (omega (arith, h, behind_line_shorter slices e)))

module _ {E : Type 0} (stream_logs : Bool → Text → Slices × Option E) (history : List RawLine)
    (all_lines : backlog_stream stream_logs none ≡ ok history)
    (last_lines : (k : ℕ) → backlog_stream stream_logs (some k) ≡ ok (last k history)) where
  -- Where the runtime gives the whole log and its last k lines, `Logs` with a limit, neither verbose
  -- nor following, emits the last of the lines that survive the filter, up to that limit.
  pub logs-last :
      (tail : Text) (limit : ℕ)
      → parse_tail_limit tail ≡ some limit
      → logs stream_logs false tail false ≡ some (last limit (surviving history), none)
  unfolding logs
  logs-last tail limit h =
      ap (logs_for stream_logs false tail false) h
      ∙ ap
          (λ o.
            then_follow stream_logs false o (for_each_log_line stream_logs true (codes "0") false))
          (emit_filtered_backlog-last (backlog_stream stream_logs) history all_lines last_lines
            limit)
