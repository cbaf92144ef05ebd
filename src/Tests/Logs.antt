-- ===== src/Tests/Logs.antt =====
-- A log whose newest line is one that lstk does not print.
use lstk.Text.Decimal.{atoi}
use lstk.Container.LogTail.Laws.{write_all-last}
use lstk.Container.Logs.Laws.{emit_filtered_backlog-last}
use lstk.Container.LogStream.Laws.{read_lines-whole_lines, whole_lines, cut_line}
use lstk.Container.LogStream.{read_lines, parse_tail_limit}
use lstk.Container.LogLines.{
  stream_over, read_bounded_line, read_slices, take_chunk, trim_eol, strip_last, SliceEnd,
  at_newline, buffer_full,
}
use lstk.Container.Logs.{RawLine, emit_filtered_backlog, surviving}
use lstk.Container.LogTail.{write_all, new_log_tail}
use lstk.Text.Basic.{text_beq, codes}
use lstk.Prelude.{
  arith, false, map, ok, refl, ◌≡◌, last, length, some, none, [], ◌∷◌, ℕ, List, Option, Result, ◌≤◌,
}

abbrev history : List RawLine
history =
    (
      codes "2026-03-16T17:56:00.810  INFO --- [  MainThread] l.p.c.extensions.plugins   : loaded",
      0,
    )
    ∷ (codes "2026-03-16T17:56:01.110  WARN --- [  MainThread] l.utils.bootstrap   : slow", 12)
    ∷ (
      codes "2026-03-16T17:56:02.310  INFO --- [  MainThread] localstack.request.http   : GET /",
      0,
    )
    ∷ []

abbrev logs_of : Option ℕ → Result (Unit {0}) (List RawLine)
logs_of none = ok history
logs_of (some k) = ok (last k history)

emit_filtered_backlog-last_example :
    emit_filtered_backlog logs_of 7 1 ≡ some (ok (last 1 (surviving history)))
emit_filtered_backlog-last_example = emit_filtered_backlog-last logs_of history refl (λ k. refl) 1

write_all-last_example :
    ((write_all (new_log_tail 4) (codes "abc" ∷ codes "de" ∷ [])).buf ≡ codes "bcde")
    × (length (write_all (new_log_tail 4) (codes "abc" ∷ codes "de" ∷ [])).buf ≤ 4)
write_all-last_example = write_all-last 4 (codes "abc" ∷ codes "de" ∷ [])

abbrev slices : List (List ℕ × SliceEnd)
slices = (codes "abc", buffer_full) ∷ (codes "def\r\n", at_newline) ∷ []

abbrev stream : List (List ℕ × SliceEnd)
stream = (codes "abcdef\r\n", at_newline) ∷ (codes "gh", stream_over) ∷ []

read_lines-whole_lines_example :
    read_lines 4 3 stream ≡ some (map (cut_line 4) (whole_lines [] false stream))
read_lines-whole_lines_example = read_lines-whole_lines 4 3 stream (omega arith)

read_lines_test :
    map (cut_line 4) (whole_lines [] false stream) ≡ (codes "abcd", 2) ∷ (codes "gh", 0) ∷ []
unfolding trim_eol strip_last
read_lines_test = refl

parse_tail_limit_test : parse_tail_limit (codes "17") ≡ some 17
unfolding parse_tail_limit text_beq atoi
parse_tail_limit_test = refl

parse_tail_limit_negative : parse_tail_limit (codes "-3") ≡ none
unfolding parse_tail_limit text_beq atoi
parse_tail_limit_negative = refl

read_bounded_line_test : (read_bounded_line 4 slices).line ≡ codes "abcd"
unfolding read_bounded_line read_slices take_chunk trim_eol strip_last
read_bounded_line_test = refl

read_bounded_line_rest : (read_bounded_line 4 slices).truncated ≡ 2
unfolding read_bounded_line read_slices take_chunk trim_eol strip_last
read_bounded_line_rest = refl
