-- ===== src/Ui/Coherent/Cases.antt =====
-- internal/ui/app.go: the other cases of `Update` keep the terminal UI coherent.
use lstk.Ui.Coherent.{add_line-IsCoherent, flush-IsCoherent, LeavesCoherent, IsCoherent}
use lstk.Ui.Spinner.{min_duration_over, Spinner, force_stop, stop_spinner, start_spinner}
use lstk.Ui.Messages.{ErrorEvent}
use lstk.Ui.Run.{error_event_of, hide_visible, add_formatted, update_status, defer, update_run_err}
use lstk.Ui.Keys.{Letters}
use lstk.Ui.Update.{
  stopping, after_stop, same_channel, dismiss_pending, update_spinner, update_error, update_elapsed,
  update_input_requested,
}
use lstk.Ui.App.{run_failed, plain_line, flush_buffered_lines, App}
use lstk.Ui.Prompt.{InputRequest}
use lstk.Prelude.{Bool, ℕ, ◌||◌, ◌==◌, if-cases, true, false, Option, none, some, arith, nat_eq}
use lstk.Text.Basic.{codes, Text, text_eq}

pub dismiss_pending-IsCoherent :
    (a : App) (ch : Option ℕ) (o : Option InputRequest)
    → IsCoherent a
    → IsCoherent (dismiss_pending a ch o)
dismiss_pending-IsCoherent a ch none h = h
dismiss_pending-IsCoherent a ch (some req) h =
    if-cases IsCoherent (same_channel req.response_ch ch) (λ e. ground arith) (λ e. h)

pub update_input_requested-IsCoherent :
    (letters : Letters) (a : App) (req : InputRequest)
    → IsCoherent a
    → IsCoherent (update_input_requested letters a req)
unfolding update_input_requested
update_input_requested-IsCoherent letters a req h = ground arith

pub after_stop-IsCoherent :
    (a : App) (s : Spinner) (remaining : Option ℕ)
    → IsCoherent a
    → IsCoherent (after_stop a (s, remaining)).0
after_stop-IsCoherent a s remaining h =
    let stopped : IsCoherent (stopping a s) = record {
      shows = h.shows;
      selected = h.selected;
      lines_bounded = h.lines_bounded;
      buffer_bounded = h.buffer_bounded;
    } in
    if-cases LeavesCoherent s.pending_stop (λ e. stopped)
      (λ e. flush-IsCoherent (stopping a s) stopped)

pub update_spinner-IsCoherent :
    (a : App) (active : Bool) (text : Text) (duration now : ℕ)
    → IsCoherent a
    → IsCoherent (update_spinner a active text duration now).0
unfolding update_spinner start_spinner stop_spinner
update_spinner-IsCoherent a true text duration now h = ground arith
update_spinner-IsCoherent a false text duration now h =
    after_stop-IsCoherent a (stop_spinner now a.spinner).0 (stop_spinner now a.spinner).1 h

pub update_elapsed-IsCoherent : (a : App) → IsCoherent a → IsCoherent (update_elapsed a).0
unfolding update_elapsed
update_elapsed-IsCoherent a h =
    flush-IsCoherent (record a { spinner = min_duration_over a.spinner }) (ground arith)

pub update_error-IsCoherent :
    (a : App) (e : ErrorEvent) → IsCoherent a → IsCoherent (update_error a e)
unfolding update_error
update_error-IsCoherent a e h =
    flush-IsCoherent
      (record a {
        hide_header = a.header_loading || a.hide_header;
        header_loading = false;
        error_display = some e;
        spinner = force_stop a.spinner;
      })
      (ground arith)

pub display-IsCoherent :
    (a : App) (e : ErrorEvent) → IsCoherent a → IsCoherent (record a { error_display = some e })
display-IsCoherent a e h = record {
  shows = h.shows;
  selected = h.selected;
  lines_bounded = h.lines_bounded;
  buffer_bounded = h.buffer_bounded;
}

pub update_run_err-IsCoherent :
    (a : App) (e : Text) (silent : Bool) → IsCoherent a → IsCoherent (update_run_err a e silent)
unfolding update_run_err
update_run_err-IsCoherent a e silent h =
    let stopped : App = record a { error = some (run_failed e); spinner = force_stop a.spinner } in
    let flushed : IsCoherent (flush_buffered_lines stopped) =
      flush-IsCoherent stopped (ground arith) in
    if-cases IsCoherent silent (λ s. flushed)
      (λ s. display-IsCoherent (flush_buffered_lines stopped) (error_event_of e) flushed)

pub add_formatted-IsCoherent :
    (line : Option Text) (a : App) → IsCoherent a → IsCoherent (add_formatted line a)
add_formatted-IsCoherent none a h = h
add_formatted-IsCoherent (some line) a h = add_line-IsCoherent (plain_line line) a h

pub update_status-IsCoherent :
    (a : App) (phase : Text) (line : Option Text)
    → IsCoherent a
    → IsCoherent (update_status a phase line)
unfolding update_status
update_status-IsCoherent a phase line h =
    if-cases IsCoherent (phase == codes "pulling") (λ e. ground arith)
      (λ e.
        add_formatted-IsCoherent line (record a { pull_progress = hide_visible a.pull_progress })
          (ground arith))

pub defer-IsCoherent : (text : Option Text) (a : App) → IsCoherent a → IsCoherent (defer text a)
defer-IsCoherent none a h = h
defer-IsCoherent (some text) a h = ground arith
