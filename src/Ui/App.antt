-- ===== src/Ui/App.antt =====
-- internal/ui/app.go: the state of the terminal UI and `Update`, which takes a message to a new state
-- and the commands that it returns.
pub mod Lines
use lstk.Ui.Progress.{PullProgress, new_pull_progress}
use lstk.Ui.Spinner.{Spinner, new_spinner}
use lstk.Ui.Prompt.{InputRequest, InputPrompt, InputResponse, new_input_prompt}
use lstk.Prelude.{
  last, ℕ, zero, suc, Bool, true, false, Option, none, some, List, [], ◌∷◌, ◌++◌, nat_eq,
  if◌then◌else◌,
}
use lstk.Text.Basic.{Text, codes, text_eq}
use lstk.Ui.Messages.{answer, skip_pull, Command, MessageEvent, LogLineEvent, ErrorEvent}

pub record StyledLine : Type 0 where
  pub text : Text
  pub secondary : Bool
  pub message : Option MessageEvent
  pub log_line : Option LogLineEvent

abbrev pub plain_line : Text → StyledLine
plain_line text = record { text = text; secondary = false; message = none; log_line = none }

abbrev pub secondary_line : Text → StyledLine
secondary_line text = record { text = text; secondary = true; message = none; log_line = none }

-- `a.err`
pub data RunError : Type 0 where
  canceled : RunError
  run_failed : Text → RunError

-- The header is the emulator's name that it shows, and `cancel` whether it is not nil.
pub record App : Type 0 where
  pub header : Text
  pub input_prompt : InputPrompt
  pub spinner : Spinner
  pub pull_progress : PullProgress
  pub error_display : Option ErrorEvent
  pub lines : List StyledLine
  pub buffered_lines : List StyledLine
  pub deferred_output : Text
  pub width : ℕ
  pub has_cancel : Bool
  pub pending_input : Option InputRequest
  pub pull_skip : Option (Option ℕ)
  pub error : Option RunError
  pub quitting : Bool
  pub hide_header : Bool
  pub show_header_on_auth : Bool
  pub header_loading : Bool
  pub header_frame : ℕ

-- `maxLines`
abbrev pub max_lines : ℕ
max_lines = 200

abbrev pub header_dot_frame : ℕ → Text
header_dot_frame zero = codes "LocalStack ."
header_dot_frame (suc zero) = codes "LocalStack .."
header_dot_frame (suc (suc n)) = codes "LocalStack ..."

-- `AppOption`
pub data AppOption : Type 0 where
  without_header with_header_loading with_header_after_auth : AppOption

abbrev pub apply_option : AppOption → App → App
apply_option without_header a = record a { hide_header = true }
apply_option with_header_loading a = record a { header_loading = true }
apply_option with_header_after_auth a = record a {
  hide_header = true;
  show_header_on_auth = true;
  header_loading = true;
}

unfoldable pub apply_options : List AppOption → App → App
apply_options [] a = a
apply_options (opt ∷ options) a = apply_options options (apply_option opt a)

abbrev pub blank_app : Text → Bool → App
blank_app name has_cancel = record {
  header = name;
  input_prompt = new_input_prompt;
  spinner = new_spinner;
  pull_progress = new_pull_progress;
  error_display = none;
  lines = [];
  buffered_lines = [];
  deferred_output = [];
  width = 0;
  has_cancel = has_cancel;
  pending_input = none;
  pull_skip = none;
  error = none;
  quitting = false;
  hide_header = false;
  show_header_on_auth = false;
  header_loading = false;
  header_frame = 0;
}

-- `NewApp`
unfoldable pub new_app : Text → Bool → List AppOption → App
unfolding apply_options
new_app name has_cancel options =
    let a = apply_options options (blank_app name has_cancel) in
    if a.header_loading then record a { header = header_dot_frame 0 } else a

-- `appendLine`
abbrev pub append_line : List StyledLine → StyledLine → List StyledLine
append_line lines line = last max_lines (lines ++ line ∷ [])

-- `addLine`
unfoldable pub add_line : StyledLine → App → App
add_line line a =
    if a.spinner.pending_stop
    then record a { buffered_lines = append_line a.buffered_lines line }
    else record a { lines = append_line a.lines line }

unfoldable pub add_lines : List StyledLine → App → App
unfolding add_line
add_lines [] a = a
add_lines (line ∷ lines) a = add_lines lines (add_line line a)

-- A line that is shown at once, also while others wait.
abbrev pub push_line : StyledLine → App → App
push_line line a = record a { lines = append_line a.lines line }

unfoldable pub push_lines : List StyledLine → App → App
push_lines [] a = a
push_lines (line ∷ lines) a = push_lines lines (push_line line a)

-- `flushBufferedLines`
unfoldable pub append_all : List StyledLine → List StyledLine → List StyledLine
append_all lines [] = lines
append_all lines (line ∷ buffered) = append_all (append_line lines line) buffered

unfoldable pub flush_buffered_lines : App → App
unfolding append_all
flush_buffered_lines a = record a {
  lines = append_all a.lines a.buffered_lines;
  buffered_lines = [];
}

-- `sendInputResponseCmd` and `sendPullSkipCmd`
abbrev pub send_input_response : Option ℕ → InputResponse → List Command
send_input_response none r = []
send_input_response (some ch) r = answer ch r ∷ []

abbrev pub send_pull_skip : Option ℕ → List Command
send_pull_skip none = []
send_pull_skip (some ch) = skip_pull ch ∷ []
