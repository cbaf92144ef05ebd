-- ===== src/Ui/Update.antt =====
-- internal/ui/app.go: `Update`, a case of its `switch` at a time.
use lstk.Ui.Progress.{hide_progress}
use lstk.Ui.Spinner.{stop_spinner, set_text, force_stop, start_spinner, Spinner, min_duration_over}
use lstk.Ui.Prompt.{
  format_prompt_event, select_next, show_prompt, select_previous, hide_prompt, new_input_prompt,
  InputOption, InputRequest,
}
use lstk.Ui.Keys.{
  key_enter, key_down, key_up, format_resolved_input, resolve_option, KeyMsg, KeyType, Letters,
}
use lstk.Ui.App.{
  send_pull_skip, send_input_response, plain_line, append_line, header_dot_frame,
  flush_buffered_lines, App,
}
use lstk.Ui.Messages.{tick_header, spin, quit, cancel_run, ErrorEvent, elapse_in, Command}
use lstk.Ui.App.{canceled}
use lstk.Ui.Keys.{key_other}
use lstk.Prelude.{
  ◌%◌, ℕ, zero, suc, ◌+◌, Bool, true, false, ◌||◌, Option, none, some, List, [], ◌∷◌, ◌++◌, ◌==◌,
  nat_eq, if◌then◌else◌,
}
use lstk.Text.Basic.{Text, codes, text_eq}

-- The keys that end the program.
abbrev pub cancel_command : App → List Command
cancel_command a = if a.has_cancel then cancel_run ∷ [] else []

abbrev pub interrupt : App → Option InputRequest → App × List Command
interrupt a none = (record a { error = some canceled }, cancel_command a ++ quit ∷ [])
interrupt a (some req) = (
  record a {
    pending_input = none;
    input_prompt = hide_prompt a.input_prompt;
    error = some canceled;
  },
  cancel_command a
      ++ (send_input_response req.response_ch (record { selected_key = []; cancelled = true })
          ++ quit ∷ []),
)

-- A key that chooses an option, of a vertical prompt and of one in a line.
abbrev pub choose_row : App → InputRequest → InputOption → App × List Command
choose_row a req opt = (
  record a {
    lines = append_line a.lines (plain_line (format_resolved_input req opt.key));
    pending_input = none;
    input_prompt = hide_prompt a.input_prompt;
  },
  send_input_response req.response_ch (record { selected_key = opt.key; cancelled = false }),
)

abbrev pub choose_inline : App → InputRequest → InputOption → App × List Command
choose_inline a req opt = (
  record a {
    pending_input = none;
    input_prompt = new_input_prompt;
    spinner = set_text [] a.spinner;
  },
  send_input_response req.response_ch (record { selected_key = opt.key; cancelled = false }),
)

abbrev pub choose_or_stay :
    App → (InputOption → App × List Command) → Option InputOption → App × List Command
choose_or_stay a choose none = (a, [])
choose_or_stay a choose (some opt) = choose opt

abbrev pub option_at : List InputOption → ℕ → Option InputOption
option_at [] i = none
option_at (opt ∷ options) zero = some opt
option_at (opt ∷ options) (suc i) = option_at options i

module _ (letters : Letters) where
  -- `handleVerticalPromptKey`
  abbrev pub resolve_row : App → InputRequest → KeyMsg → App × List Command
  resolve_row a req key =
      choose_or_stay a (choose_row a req) (resolve_option letters req.options key)

  abbrev pub enter_row : App → InputRequest → KeyMsg → Option InputOption → App × List Command
  enter_row a req key none = resolve_row a req key
  enter_row a req key (some opt) = choose_row a req opt

  unfoldable pub handle_vertical_prompt_key :
      KeyType → App → InputRequest → KeyMsg → App × List Command
  handle_vertical_prompt_key key_up a req key =
      (record a { input_prompt = select_previous a.input_prompt }, [])
  handle_vertical_prompt_key key_down a req key =
      (record a { input_prompt = select_next a.input_prompt }, [])
  handle_vertical_prompt_key key_enter a req key =
      enter_row a req key (option_at req.options a.input_prompt.selected_index)
  handle_vertical_prompt_key key_other a req key = resolve_row a req key

  abbrev pub prompt_key : App → KeyMsg → Option InputRequest → App × List Command
  prompt_key a key none = (a, [])
  prompt_key a key (some req) =
      if req.vertical
      then handle_vertical_prompt_key key.type a req key
      else choose_or_stay a (choose_inline a req) (resolve_option letters req.options key)

  abbrev pub skip_or_prompt : App → KeyMsg → Option (Option ℕ) → App × List Command
  skip_or_prompt a key none = prompt_key a key a.pending_input
  skip_or_prompt a key (some ch) =
      if key.name == codes "esc"
      then (record a { pull_skip = none; spinner = set_text [] a.spinner }, send_pull_skip ch)
      else prompt_key a key a.pending_input

  -- The case of `tea.KeyMsg`.
  unfoldable pub update_key : App → KeyMsg → App × List Command
  unfolding handle_vertical_prompt_key
  update_key a key =
      if key.name == codes "ctrl+c" || key.name == codes "q"
      then interrupt a a.pending_input
      else skip_or_prompt a key a.pull_skip

-- The cases of the header.
abbrev pub next_frame : App → ℕ → App
next_frame a frame = record a { header_frame = frame; header = header_dot_frame frame }

unfoldable pub update_header_tick : App → App × List Command
update_header_tick a =
    if a.header_loading
    then (next_frame a ((a.header_frame + 1) % 3), tick_header ∷ [])
    else (a, [])

abbrev pub quit_if : Bool → List Command
quit_if b = if b then quit ∷ [] else []

unfoldable pub update_header_label : App → Text → App × List Command
update_header_label a label =
    (record a { header_loading = false; header = label }, quit_if a.quitting)

unfoldable pub update_auth_complete : App → App
update_auth_complete a =
    if a.show_header_on_auth
    then record a {
      hide_header = false;
      show_header_on_auth = false;
      lines = [];
      buffered_lines = [];
    }
    else a

-- The cases of the prompts.
unfoldable pub update_input_requested : Letters → App → InputRequest → App
update_input_requested letters a req = record a {
  pending_input = some req;
  input_prompt = show_prompt req;
  spinner =
      if a.spinner.visible
      then set_text (format_prompt_event letters.to_upper req) a.spinner
      else a.spinner;
}

-- Two channels are the same, nil included.
abbrev pub same_channel : Option ℕ → Option ℕ → Bool
same_channel none none = true
same_channel (some m) (some n) = m == n
same_channel _ _ = false

abbrev pub dismiss_pending : App → Option ℕ → Option InputRequest → App
dismiss_pending a ch none = a
dismiss_pending a ch (some req) =
    if same_channel req.response_ch ch
    then record a {
      pending_input = none;
      input_prompt = hide_prompt a.input_prompt;
      spinner = set_text [] a.spinner;
    }
    else a

-- The cases of the spinner.
abbrev pub pull_skip_hint : Text
pull_skip_hint = codes "Pulling new version… (press ESC to keep current version)"

abbrev pub stopping : App → Spinner → App
stopping a s = record a {
  pull_skip = none;
  pull_progress = if a.pull_progress.visible then hide_progress else a.pull_progress;
  spinner = s;
}

abbrev pub elapse_commands : Option ℕ → List Command
elapse_commands none = []
elapse_commands (some remaining) = elapse_in remaining ∷ []

abbrev pub after_stop : App → Spinner × Option ℕ → App × List Command
after_stop a (s, remaining) =
    if s.pending_stop then (stopping a s, elapse_commands remaining) else (
      flush_buffered_lines (stopping a s),
      if a.quitting then quit ∷ [] else elapse_commands remaining,
    )

unfoldable pub update_spinner : App → Bool → Text → ℕ → ℕ → App × List Command
unfolding flush_buffered_lines
update_spinner a true text duration now =
    (record a { spinner = start_spinner text duration now a.spinner }, spin ∷ [])
update_spinner a false text duration now = after_stop a (stop_spinner now a.spinner)

unfoldable pub update_elapsed : App → App × List Command
unfolding flush_buffered_lines
update_elapsed a =
    (flush_buffered_lines (record a { spinner = min_duration_over a.spinner }), quit_if a.quitting)

-- The case of `output.ErrorEvent`.
unfoldable pub update_error : App → ErrorEvent → App
unfolding flush_buffered_lines
update_error a e = flush_buffered_lines (record a {
  hide_header = a.header_loading || a.hide_header;
  header_loading = false;
  error_display = some e;
  spinner = force_stop a.spinner;
})
