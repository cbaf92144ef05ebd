-- ===== src/Ui/Coherent.antt =====
-- internal/ui/app.go: what holds of the terminal UI between two messages, and of its lines.
pub mod Keys
pub mod Cases
use lstk.Ui.Spinner.{min_duration_over, Spinner, force_stop, stop_spinner, start_spinner}
use lstk.Ui.Messages.{
  auth_event, message_event, error_event, spinner_event, input_dismissed, input_requested, key_msg,
  ErrorEvent, Message, Command,
}
use lstk.Ui.Keys.{key_other}
use lstk.Ui.Run.{
  error_event_of, hide_visible, update_run_done, run, add_formatted, update_status, update, defer,
  update_run_err, add_block,
}
use lstk.Ui.Keys.{
  key_enter, key_down, key_up, resolve_option, format_resolved_input, KeyMsg, KeyType, Letters,
}
use lstk.Ui.Update.{
  stopping, after_stop, update_auth_complete, same_channel, update_header_label, update_header_tick,
  dismiss_pending, update_spinner, update_error, update_elapsed, update_input_requested,
  skip_or_prompt, choose_inline, prompt_key, update_key, choose_or_stay, enter_row, option_at,
  resolve_row, choose_row, interrupt, handle_vertical_prompt_key,
}
use lstk.Ui.App.{
  run_failed, blank_app, with_header_loading, without_header, AppOption, apply_options, new_app,
  plain_line, push_line, add_lines, push_lines, append_line, max_lines, StyledLine,
  flush_buffered_lines, add_line, App, append_all,
}
use lstk.Ui.Prompt.{select_next, select_previous, InputOption, InputRequest, InputPrompt}
use lstk.Ui.App.{without_header, with_header_loading, with_header_after_auth}
use lstk.Ui.Messages.{
  key_msg, input_requested, input_dismissed, spinner_event, min_duration_elapsed, error_event,
  message_event, auth_event, log_line, container_status, run_err, table_event, resource_summary,
  success_event, deferred_event, other_event, window_size,
}
use lstk.Prelude.{
  refl, Bool, ℕ, ◌||◌, ◌==◌, if-cases, length-last, length, ◌≤◌, ◌<◌, ◌≡◌, ◌⊎◌, true, false, Option,
  none, some, List, [], ◌∷◌, ◌++◌, arith, nat_eq,
}
use lstk.Text.Basic.{codes, Text, text_eq}

-- The prompt component is set visible with the request that waits for an answer, and hidden if none
-- does. Whether a visible spinner is drawn in its place is up to `View`.
abbrev pub Shows : InputPrompt → Option InputRequest → Type 0
Shows p none = p.visible ≡ false
Shows p (some req) =
    (p.visible ≡ true)
    × (p.prompt ≡ req.prompt)
    × (p.options ≡ req.options)
    × (p.vertical ≡ req.vertical)

-- The selected row is one of the options, or the first, which stands for none if there are no options.
abbrev pub IsSelected : InputPrompt → Type 0
IsSelected p = (p.selected_index ≡ 0) ⊎ (p.selected_index < length p.options)

pub record IsCoherent (a : App) : Type 0 where
  pub shows : Shows a.input_prompt a.pending_input
  pub selected : IsSelected a.input_prompt
  pub lines_bounded : length a.lines ≤ max_lines
  pub buffer_bounded : length a.buffered_lines ≤ max_lines

append_all_bounded :
    (lines buffered : List StyledLine)
    → length lines ≤ max_lines
    → length (append_all lines buffered) ≤ max_lines
unfolding append_all
append_all_bounded lines [] h = h
append_all_bounded lines (line ∷ buffered) h =
    append_all_bounded (append_line lines line) buffered
      (length-last max_lines (lines ++ line ∷ []))

pub flush-IsCoherent : (a : App) → IsCoherent a → IsCoherent (flush_buffered_lines a)
unfolding flush_buffered_lines
flush-IsCoherent a h = ground (arith, append_all_bounded a.lines a.buffered_lines)

pub add_line-IsCoherent :
    (line : StyledLine) (a : App) → IsCoherent a → IsCoherent (add_line line a)
unfolding add_line
add_line-IsCoherent line a h = ground (
  arith,
  length-last max_lines (a.lines ++ line ∷ []),
  length-last max_lines (a.buffered_lines ++ line ∷ []),
)

pub add_lines-IsCoherent :
    (lines : List StyledLine) (a : App) → IsCoherent a → IsCoherent (add_lines lines a)
unfolding add_lines
add_lines-IsCoherent [] a h = h
add_lines-IsCoherent (line ∷ lines) a h =
    add_lines-IsCoherent lines (add_line line a) (add_line-IsCoherent line a h)

pub push_line-IsCoherent :
    (line : StyledLine) (a : App) → IsCoherent a → IsCoherent (push_line line a)
push_line-IsCoherent line a h = record {
  shows = h.shows;
  selected = h.selected;
  lines_bounded = length-last max_lines (a.lines ++ line ∷ []);
  buffer_bounded = h.buffer_bounded;
}

pub push_lines-IsCoherent :
    (lines : List StyledLine) (a : App) → IsCoherent a → IsCoherent (push_lines lines a)
unfolding push_lines
push_lines-IsCoherent [] a h = h
push_lines-IsCoherent (line ∷ lines) a h =
    push_lines-IsCoherent lines (push_line line a) (push_line-IsCoherent line a h)

pub add_block-IsCoherent :
    (head rest : Text → StyledLine) (text : Option Text) (a : App)
    → IsCoherent a
    → IsCoherent (add_block head rest text a)
add_block-IsCoherent head rest none a h = h
add_block-IsCoherent head rest (some text) a h = add_lines-IsCoherent _ a h

abbrev pub LeavesCoherent : App × List Command → Type 0
LeavesCoherent r = IsCoherent r.0
