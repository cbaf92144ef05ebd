-- ===== src/Container/Logs.antt =====
-- internal/container: the lines of an emulator's log that lstk prints: logfilter.go, and of logs.go
-- the ring of lines and `emitFilteredBacklog`. A line is its text, cut at a bound, and how many bytes
-- were cut off it.
pub mod Laws
pub mod Rings
pub mod Emission
use lstk.Text.Search.{contains, cut_sub, cut_last, has_suffix, trim_space}
use lstk.Text.Decimal.{itoa}
use lstk.Text.Basic.{Text, codes, text_eq}
use lstk.Prelude.{
  nat_eq, ◌^◌, true, leb, err, zero, ◌++◌, none, ◌%◌, ◌+◌, suc, ◌==◌, some, ◌||◌, Result, length,
  ltb, ◌∷◌, ◌*◌, [], if◌then◌else◌, false, Option, Bool, ℕ, List, ok,
}

-- `output.LogLevel`
pub data LogLevel : Type 0 where
  level_unknown level_debug level_info level_warn level_error : LogLevel

-- internal/container/logfilter.go, `parseLogLine`
abbrev pub level_of_word : Text → LogLevel
level_of_word word =
    if word == codes "DEBUG"
    then level_debug
    else if word == codes "INFO"
    then level_info
    else if word == codes "WARN"
    then level_warn
    else if word == codes "ERROR"
    then level_error
    else level_unknown

abbrev pub level_behind : Option (Text × Text) → LogLevel
level_behind none = level_unknown
level_behind (some (before, word)) = level_of_word word

abbrev pub logger_in : Option (Text × Text) → Text
logger_in none = []
logger_in (some (before, after)) = trim_space before

abbrev pub logger_behind : Option (Text × Text) → Text
logger_behind none = []
logger_behind (some (thread, after)) = logger_in (cut_sub (trim_space after) (codes " : "))

abbrev pub parse_parts : Option (Text × Text) → LogLevel × Text
parse_parts none = (level_unknown, [])
parse_parts (some (prefix, rest)) =
    (level_behind (cut_last (trim_space prefix) b' '), logger_behind (cut_sub rest (codes "]")))

unfoldable pub parse_log_line : Text → LogLevel × Text
parse_log_line line = parse_parts (cut_sub line (codes " --- ["))

-- `shouldFilter`
unfoldable pub should_filter : Text → Bool
unfolding parse_log_line
should_filter line =
    contains line (codes "Docker not available")
    || (parse_log_line line).1 == codes "localstack.request.http"
    || (parse_log_line line).1 == codes "l.aws.handlers.internal"
    || has_suffix (parse_log_line line).1 (codes ".provider")

-- internal/container/logs.go
pub record LogLine : Type 0 where
  pub text : Text
  pub level : LogLevel

abbrev pub RawLine : Type 0
RawLine = Text × ℕ

abbrev pub printed : RawLine → LogLine
printed (line, truncated) = record {
  text =
      if ltb 0 truncated
      then line ++ (codes " … (" ++ (itoa truncated ++ codes " more bytes truncated)"))
      else line;
  level = (parse_log_line line).0;
}

-- What `forEachLogLine` passes on when it is not verbose.
unfoldable pub surviving : List RawLine → List LogLine
surviving [] = []
surviving ((line, truncated) ∷ lines) =
    let rest = surviving lines in
    if should_filter line then rest else printed (line, truncated) ∷ rest

-- `lineRing`
pub record LineRing : Type 0 where
  pub buf : List LogLine
  pub next : ℕ
  pub full : Bool

abbrev pub no_line : LogLine
no_line = record { text = []; level = level_unknown }

unfoldable pub blank_lines : ℕ → List LogLine
blank_lines zero = []
blank_lines (suc n) = no_line ∷ blank_lines n

abbrev pub new_line_ring : ℕ → LineRing
new_line_ring n = record { buf = blank_lines n; next = 0; full = false }

unfoldable pub set_at : ℕ → LogLine → List LogLine → List LogLine
set_at i x [] = []
set_at zero x (y ∷ ys) = x ∷ ys
set_at (suc i) x (y ∷ ys) = y ∷ set_at i x ys

unfoldable pub add : LogLine → LineRing → LineRing
unfolding set_at
add x r = if length r.buf == 0 then r else record {
  buf = set_at r.next x r.buf;
  next = (r.next + 1) % length r.buf;
  full = if (r.next + 1) % length r.buf == 0 then true else r.full;
}

unfoldable pub add_all : List LogLine → LineRing → LineRing
unfolding add
add_all [] r = r
add_all (x ∷ xs) r = add_all xs (add x r)

abbrev pub ring_len : LineRing → ℕ
ring_len r = if r.full then length r.buf else r.next

abbrev pub reset : LineRing → LineRing
reset r = record { buf = r.buf; next = 0; full = false }

abbrev pub line_at : ℕ → List LogLine → LogLine
line_at i [] = no_line
line_at zero (x ∷ xs) = x
line_at (suc i) (x ∷ xs) = line_at i xs

-- The loop of `emit`, from the index `i` on, over `n` lines.
unfoldable pub emit_loop : ℕ → ℕ → ℕ → List LogLine → List LogLine
emit_loop start zero i buf = []
emit_loop start (suc n) i buf =
    line_at ((start + i) % length buf) buf ∷ emit_loop start n (suc i) buf

unfoldable pub emitted : LineRing → List LogLine
unfolding emit_loop
emitted r = emit_loop (if r.full then r.next else 0) (ring_len r) 0 r.buf

-- 64-bit integers: those from 2^63 on stand for negative numbers.
abbrev pub times_factor : ℕ → ℕ
times_factor fetch = (fetch * 8) % 2 ^ 64

unfoldable pub is_unbounded : ℕ → Bool
is_unbounded fetch = fetch == 0 || leb (2 ^ 63) fetch || ltb 100000 fetch

abbrev pub tail_arg : ℕ → Option ℕ
tail_arg fetch = if is_unbounded fetch then none else some fetch

-- What follows a read of the log; `again` is the loop from the next round on.
abbrev pub after_read :
    {E : Type 0}
    → (LineRing → Option (Result E (List LogLine)))
    → ℕ
    → ℕ
    → LineRing
    → Result E (List RawLine)
    → Option (Result E (List LogLine))
after_read again limit fetch ring (err e) = some (err e)
after_read again limit fetch ring (ok lines) =
    let filled = add_all (surviving lines) (reset ring) in
    if is_unbounded fetch || ring_len filled == limit || ltb (length lines) fetch
    then some (ok (emitted filled))
    else again filled

-- The runtime's log: its last lines, or all of it.
module _ {E : Type 0} (stream : Option ℕ → Result E (List RawLine)) where
  -- The loop of `emitFilteredBacklog`, each round of which takes one unit of fuel; `none` if it runs
  -- out.
  unfoldable pub backlog_loop : ℕ → ℕ → ℕ → LineRing → Option (Result E (List LogLine))
  backlog_loop zero limit fetch ring = none
  backlog_loop (suc fuel) limit fetch ring =
      after_read (backlog_loop fuel limit (times_factor fetch)) limit fetch ring
        (stream (tail_arg fetch))

  -- `emitFilteredBacklog`: the lines that it emits.
  unfoldable pub emit_filtered_backlog : ℕ → ℕ → Option (Result E (List LogLine))
  unfolding backlog_loop
  emit_filtered_backlog fuel limit =
      if limit == 0
      then some (ok [])
      else backlog_loop fuel limit (times_factor limit) (new_line_ring limit)
