-- ===== src/Container/LogStream.antt =====
-- internal/container/logs.go: `Logs` and `forEachLogLine`, from the slices that the buffered reader
-- delivers to the lines that are emitted. What the runtime streams is a parameter.
pub mod Laws
use lstk.Prelude.{
  ◌*◌, length, ℕ, zero, suc, Bool, true, false, ◌||◌, Option, none, some, List, [], ◌∷◌, ◌++◌, map,
  ◌==◌, nat_eq, if◌then◌else◌, Result, ok, err,
}
use lstk.Text.Basic.{Text, codes, text_eq}
use lstk.Container.LogLines.{
  SliceEnd, at_newline, buffer_full, stream_over, BoundedLine, read_bounded_line,
}
use lstk.Container.Logs.{LogLine, RawLine, printed, surviving, emit_filtered_backlog}
use lstk.Text.Decimal.{ℤ, pos, negsuc, atoi, itoa}

abbrev pub Slices : Type 0
Slices = List (List ℕ × SliceEnd)

-- The slices behind the line that is read, or none if the stream is over.
unfoldable pub behind_line : Slices → Option Slices
behind_line [] = none
behind_line ((chunk, buffer_full) ∷ slices) = behind_line slices
behind_line ((chunk, at_newline) ∷ slices) = some slices
behind_line ((chunk, stream_over) ∷ slices) = none

-- `if ok`
abbrev pub line_read : BoundedLine → List RawLine
line_read l = if l.was_read then (l.line, l.truncated) ∷ [] else []

-- The loop of `forEachLogLine` with fuel: the lines that it reads; `none` if the fuel runs out.
abbrev pub read_on :
    List RawLine → Option Slices → (Slices → Option (List RawLine)) → Option (List RawLine)
read_on lines none loop = some lines
read_on lines (some slices) loop = elim (loop slices) [
  | none ↦ none
  | some more ↦ some (lines ++ more)
]

unfoldable pub read_lines : ℕ → ℕ → Slices → Option (List RawLine)
unfolding behind_line read_bounded_line
read_lines max zero slices = none
read_lines max (suc fuel) slices =
    read_on (line_read (read_bounded_line max slices)) (behind_line slices) (read_lines max fuel)

-- `maxLogLineBytes`
abbrev pub max_log_line_bytes : ℕ
max_log_line_bytes = 8 * 1024

-- What the loop passes on.
abbrev pub emitted_lines : Bool → List RawLine → List LogLine
emitted_lines verbose lines = if verbose then map printed lines else surviving lines

-- `parseTailLimit`
abbrev pub not_negative : Option ℤ → Option ℕ
not_negative none = none
not_negative (some (pos n)) = some n
not_negative (some (negsuc n)) = none

unfoldable pub parse_tail_limit : Text → Option ℕ
parse_tail_limit tail = if tail == [] || tail == codes "all" then none else not_negative (atoi tail)

-- `tailAll` or a number, as the runtime is given it.
abbrev pub tail_text : Option ℕ → Text
tail_text none = codes "all"
tail_text (some n) = itoa n

-- `StreamLogs` of the runtime, whether to follow and from where: the slices of what it writes, and the
-- error with which it ends, if it does.
module _ {E : Type 0} (stream_logs : Bool → Text → Slices × Option E) where
  abbrev pub fuel_for : Slices → ℕ
  fuel_for slices = suc (length slices)

  abbrev pub lines_streamed : Bool → Text → Option (List RawLine)
  lines_streamed follow tail =
      let (slices, e) = stream_logs follow tail in
      read_lines max_log_line_bytes (fuel_for slices) slices

  -- `forEachLogLine`: the lines that are passed on, and the error, which is that of the runtime.
  unfoldable pub for_each_log_line : Bool → Text → Bool → Option (List LogLine × Option E)
  unfolding read_lines
  for_each_log_line follow tail verbose = elim (lines_streamed follow tail) [
    | none ↦ none
    | some lines ↦ some (emitted_lines verbose lines, (stream_logs follow tail).1)
  ]

  -- What `emitFilteredBacklog` gets of a stream that it does not follow. The first case does not
  -- arise: the fuel is one more than there are slices.
  abbrev pub backlog_result : Option (List RawLine) → Option E → Result E (List RawLine)
  backlog_result none e = ok []
  backlog_result (some lines) none = ok lines
  backlog_result (some lines) (some e) = err e

  abbrev pub backlog_stream : Option ℕ → Result E (List RawLine)
  backlog_stream tail =
      backlog_result (lines_streamed false (tail_text tail)) (stream_logs false (tail_text tail)).1

  -- `Logs` for a container that was found: the lines that are emitted, and the error.
  abbrev pub then_follow :
      Bool
      → Option (Result E (List LogLine))
      → Option (List LogLine × Option E)
      → Option (List LogLine × Option E)
  then_follow follow none rest = none
  then_follow follow (some (err e)) rest = some ([], some e)
  then_follow false (some (ok lines)) rest = some (lines, none)
  then_follow true (some (ok lines)) none = none
  then_follow true (some (ok lines)) (some (more, e)) = some (lines ++ more, e)

  abbrev pub logs_for : Bool → Text → Bool → Option ℕ → Option (List LogLine × Option E)
  logs_for follow tail verbose none = for_each_log_line follow tail verbose
  logs_for follow tail verbose (some limit) =
      if verbose
      then for_each_log_line follow tail verbose
      else then_follow follow (emit_filtered_backlog backlog_stream 7 limit)
          (for_each_log_line true (codes "0") verbose)

  unfoldable pub logs : Bool → Text → Bool → Option (List LogLine × Option E)
  unfolding for_each_log_line parse_tail_limit
  logs follow tail verbose = logs_for follow tail verbose (parse_tail_limit tail)
