-- ===== src/Ui/Run.antt =====
-- internal/ui/app.go: the cases of `Update` that show lines, those that end the run, and `Update`.
pub mod Laws
pub mod Answers
pub mod Pending
pub mod Answered
use lstk.Text.Search.{split}
use lstk.Ui.Spinner.{set_text, force_stop}
use lstk.Ui.Keys.{Letters}
use lstk.Ui.Progress.{set_progress, ProgressEvent, show_progress, hide_progress, PullProgress}
use lstk.Ui.App.{
  push_lines, secondary_line, plain_line, run_failed, add_lines, StyledLine, flush_buffered_lines,
  add_line, App,
}
use lstk.Ui.Messages.{
  Command, ErrorEvent, Message, auth_complete, auth_event, container_status, deferred_event,
  draw_progress, error_event, header_label, header_tick, input_dismissed, input_requested, key_msg,
  log_line, message_event, min_duration_elapsed, other_event, progress_event, progress_frame,
  pull_skippable, quit, resource_summary, run_done, run_err, spin, spinner_event, spinner_tick,
  success_event, table_event, window_size,
}
use lstk.Ui.Update.{
  update_error, update_elapsed, update_spinner, pull_skip_hint, dismiss_pending,
  update_input_requested, update_auth_complete, update_header_label, update_header_tick, update_key,
}
use lstk.Prelude.{
  Bool, true, ◌||◌, Option, none, some, List, [], ◌∷◌, ◌++◌, map, ◌==◌, nat_eq, if◌then◌else◌,
}
use lstk.Text.Basic.{Text, codes, text_eq}

-- The case of `output.AuthEvent`, but for styles.
abbrev pub auth_lines : Text → Text → Text → List StyledLine
auth_lines preamble url code =
    (if preamble == [] then [] else secondary_line (codes "> " ++ preamble) ∷ [])
    ++ ((if url == []
          then []
          else plain_line (codes "Opening browser to login...")
            ∷ secondary_line (codes "Browser didn't open? Visit " ++ url)
            ∷ [])
        ++ (if code == []
            then []
            else plain_line [] ∷ plain_line (codes "One-time code: " ++ code) ∷ plain_line [] ∷ []))

-- The case of `output.ContainerStatusEvent`.
abbrev pub hide_visible : PullProgress → PullProgress
hide_visible p = if p.visible then hide_progress else p

abbrev pub add_formatted : Option Text → App → App
add_formatted none a = a
add_formatted (some line) a = add_line (plain_line line) a

unfoldable pub update_status : App → Text → Option Text → App
unfolding add_line
update_status a phase line =
    if phase == codes "pulling"
    then record a { pull_progress = show_progress }
    else add_formatted line (record a { pull_progress = hide_visible a.pull_progress })

-- The cases of the lines that a formatted event has: `rest` is how the lines behind the first look.
abbrev pub block_lines : (Text → StyledLine) → (Text → StyledLine) → List Text → List StyledLine
block_lines head rest [] = []
block_lines head rest (line ∷ lines) = head line ∷ map rest lines

abbrev pub add_block : (Text → StyledLine) → (Text → StyledLine) → Option Text → App → App
add_block head rest none a = a
add_block head rest (some text) a = add_lines (block_lines head rest (split text 10)) a

-- The case of `output.DeferredEvent`.
abbrev pub defer : Option Text → App → App
defer none a = a
defer (some styled) a = record a {
  deferred_output = if a.deferred_output == [] then styled else a.deferred_output ++ 10 ∷ styled;
}

-- The cases of the end of the run.
unfoldable pub update_run_done : App → App × List Command
update_run_done a =
    if a.spinner.pending_stop || a.header_loading
    then (record a { quitting = true }, [])
    else (a, quit ∷ [])

abbrev pub error_event_of : Text → ErrorEvent
error_event_of title = record { title = title; summary = []; detail = [] }

unfoldable pub update_run_err : App → Text → Bool → App
unfolding flush_buffered_lines
update_run_err a e silent =
    let stopped =
      flush_buffered_lines
        (record a { error = some (run_failed e); spinner = force_stop a.spinner }) in
    if silent then stopped else record stopped { error_display = some (error_event_of e) }

abbrev pub update_progress : App → ProgressEvent → App × List Command
update_progress a e =
    if a.pull_progress.visible
    then (record a { pull_progress = set_progress e a.pull_progress }, draw_progress ∷ [])
    else (a, [])

-- `Update`
unfoldable pub update : Letters → App → Message → App × List Command
unfolding update_key update_header_tick update_header_label update_auth_complete
update letters a (key_msg key) = update_key letters a key
update letters a (window_size w) = (record a { width = w }, [])
update letters a header_tick = update_header_tick a
update letters a (header_label label) = update_header_label a label
update letters a auth_complete = (update_auth_complete a, [])
update letters a (input_requested req) = (update_input_requested letters a req, [])
update letters a (input_dismissed ch) = (dismiss_pending a ch a.pending_input, [])
update letters a (pull_skippable ch) =
    (record a { pull_skip = some ch; spinner = set_text pull_skip_hint a.spinner }, [])
update letters a spinner_tick = (a, if a.spinner.visible then spin ∷ [] else [])
update letters a (spinner_event active text duration now) =
    update_spinner a active text duration now
update letters a min_duration_elapsed = update_elapsed a
update letters a (error_event e) = (update_error a e, [])
update letters a (message_event e text) =
    (add_line (record (plain_line text) { message = some e }) a, [])
update letters a (auth_event preamble url code) = (push_lines (auth_lines preamble url code) a, [])
update letters a (log_line e) = (add_line (record (plain_line []) { log_line = some e }) a, [])
update letters a (container_status phase container line) = (update_status a phase line, [])
update letters a (progress_event e) = update_progress a e
update letters a progress_frame = (a, if a.pull_progress.visible then draw_progress ∷ [] else [])
update letters a run_done = update_run_done a
update letters a (run_err e silent) = (update_run_err a e silent, quit ∷ [])
update letters a (table_event text) = (add_block secondary_line plain_line text a, [])
update letters a (resource_summary text) =
    (add_lines (plain_line [] ∷ plain_line text ∷ plain_line [] ∷ []) a, [])
update letters a (success_event text) = (add_block plain_line secondary_line text a, [])
update letters a (deferred_event text) = (defer text a, [])
update letters a (other_event text) = (add_block plain_line plain_line text a, [])

-- A run of the program: the messages in the order in which they arrive.
unfoldable pub run : Letters → App → List Message → App × List Command
unfolding update
run letters a [] = (a, [])
run letters a (message ∷ messages) =
    let (a', commands) = update letters a message in
    let (a'', more) = run letters a' messages in (a'', commands ++ more)
