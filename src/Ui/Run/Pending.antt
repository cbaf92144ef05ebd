-- ===== src/Ui/Run/Pending.antt =====
-- internal/ui/app.go: what each message makes of the request that waits, and the answers it sends.
use lstk.Ui.Run.Answers.{update_key-Answers, answer_count, is_answer, IsAnswer, Answers}
use lstk.Ui.Spinner.{stop_spinner, Spinner}
use lstk.Ui.Run.{update_run_err, update_run_done, update, add_block, update_status}
use lstk.Ui.Prompt.{InputRequest}
use lstk.Ui.App.{push_line, StyledLine, add_lines, add_line, push_lines, flush_buffered_lines, App}
use lstk.Ui.Messages.{
  message_event, error_event, auth_event, log_line, container_status, run_err, table_event,
  resource_summary, success_event, deferred_event, other_event, window_size, header_tick,
  header_label, auth_complete, pull_skippable, spinner_tick, progress_event, progress_frame,
  run_done, key_msg, input_dismissed, spinner_event, min_duration_elapsed,
}
use lstk.Ui.Update.{update_input_requested}
use lstk.Prelude.{
  ◌∙◌, if◌then◌else◌, Bool, false, ℕ, ◌≡◌, refl, inl, inr, true, ◌||◌, Option, none, some, List, [],
  ◌∷◌, arith, nat_eq, All, if-cases,
}
use lstk.Text.Basic.{Text, text_eq}
use lstk.Ui.Keys.{Letters}
use lstk.Ui.Messages.{
  message_event, error_event, spinner_event, input_dismissed, key_msg, input_requested, Message,
  Command, quit, spin, draw_progress,
}
use lstk.Ui.Update.{
  update_spinner, update_error, update_elapsed, update_auth_complete, update_header_label,
  update_header_tick, after_stop, same_channel, dismiss_pending,
}

-- A message that sends no answer and leaves the request alone.
abbrev Keeps : App → App × List Command → Type 0
Keeps a r = All (IsAnswer a) r.1 × (answer_count r.1 ≡ 0) × (r.0.pending_input ≡ a.pending_input)

add_line_pending : (line : StyledLine) (a : App) → (add_line line a).pending_input ≡ a.pending_input
unfolding add_line
add_line_pending line a = ground arith

add_lines_pending :
    (lines : List StyledLine) (a : App) → (add_lines lines a).pending_input ≡ a.pending_input
unfolding add_lines
add_lines_pending [] a = refl
add_lines_pending (line ∷ lines) a =
    add_lines_pending lines (add_line line a) ∙ add_line_pending line a

push_lines_pending :
    (lines : List StyledLine) (a : App) → (push_lines lines a).pending_input ≡ a.pending_input
unfolding push_lines
push_lines_pending [] a = refl
push_lines_pending (line ∷ lines) a = push_lines_pending lines (push_line line a)

add_block_pending :
    (head rest : Text → StyledLine) (text : Option Text) (a : App)
    → (add_block head rest text a).pending_input ≡ a.pending_input
add_block_pending head rest none a = refl
add_block_pending head rest (some text) a = add_lines_pending _ a

after_stop-Keeps :
    (a : App) (s : Spinner) (remaining : Option ℕ) → Keeps a (after_stop a (s, remaining))
unfolding flush_buffered_lines
after_stop-Keeps a s none =
    if-cases (Keeps a) s.pending_stop (λ e. (tt, refl, refl))
      (λ e.
        if-cases
          (λ l. All (IsAnswer a) l × (answer_count l ≡ 0) × (a.pending_input ≡ a.pending_input))
          a.quitting (λ q. ((tt, tt), refl, refl)) (λ q. (tt, refl, refl)))
after_stop-Keeps a s (some n) =
    if-cases (Keeps a) s.pending_stop (λ e. ((tt, tt), refl, refl))
      (λ e.
        if-cases
          (λ l. All (IsAnswer a) l × (answer_count l ≡ 0) × (a.pending_input ≡ a.pending_input))
          a.quitting (λ q. ((tt, tt), refl, refl)) (λ q. ((tt, tt), refl, refl)))

update_status_pending :
    (a : App) (phase : Text) (line : Option Text)
    → (update_status a phase line).pending_input ≡ a.pending_input
unfolding update_status
update_status_pending a phase none = ground arith
update_status_pending a phase (some line) = ground arith

dismiss_pending-Answers :
    (a : App) (ch : Option ℕ) (o : Option InputRequest) → Answers a (dismiss_pending a ch o, [])
dismiss_pending-Answers a ch none = (tt, inl (refl, refl))
dismiss_pending-Answers a ch (some req) =
    if-cases (λ b. Answers a (b, [])) (same_channel req.response_ch ch)
      (λ e. (tt, inr (omega arith, refl))) (λ e. (tt, inl (refl, refl)))

-- A command that is no answer.
quiet_if :
    (a : App) (test : Bool) (c : Command)
    → IsAnswer a c
    → is_answer c ≡ false
    → let commands = if test then c ∷ [] else [] in
      All (IsAnswer a) commands × (answer_count commands ≡ 0)
quiet_if a true c h s = ((h, tt), ground (arith, s))
quiet_if a false c h s = (tt, refl)

-- Every message but a new request.
abbrev pub AnswersUnless : App → Message → App × List Command → Type 0
AnswersUnless a (input_requested req) r = (r.1 ≡ []) × (r.0.pending_input ≡ some req)
AnswersUnless a _ r = Answers a r

pub update-Answers :
    (letters : Letters) (a : App) (message : Message)
    → AnswersUnless a message (update letters a message)
unfolding update update_header_tick update_header_label update_auth_complete update_run_done
    update_elapsed update_error update_run_err update_spinner flush_buffered_lines
    update_input_requested
update-Answers letters a (key_msg key) = update_key-Answers letters a key
update-Answers letters a (input_requested req) = (refl, refl)
update-Answers letters a (input_dismissed ch) = dismiss_pending-Answers a ch a.pending_input
update-Answers letters a (spinner_event true text duration now) = ((tt, tt), inl (refl, refl))
update-Answers letters a (spinner_event false text duration now) =
    let (quiet, count, kept) =
      after_stop-Keeps a (stop_spinner now a.spinner).0 (stop_spinner now a.spinner).1 in
    (quiet, inl (count, kept))
update-Answers letters a min_duration_elapsed =
    (let (quiet, count) = quiet_if a a.quitting quit tt refl in (quiet, inl (count, refl)))
update-Answers letters a (error_event e) = (tt, inl (refl, refl))
update-Answers letters a (message_event e text) = (tt, inl (refl, (add_line_pending _ a)))
update-Answers letters a (auth_event preamble url code) = (tt, inl (refl, (push_lines_pending _ a)))
update-Answers letters a (log_line e) = (tt, inl (refl, (add_line_pending _ a)))
update-Answers letters a (container_status phase container line) =
    (tt, inl (refl, (update_status_pending a phase line)))
update-Answers letters a (run_err e silent) =
    if-cases (λ b. Answers a (b, quit ∷ [])) silent (λ e. ((tt, tt), inl (refl, refl)))
      (λ e. ((tt, tt), inl (refl, refl)))
update-Answers letters a (table_event text) = (tt, inl (refl, (add_block_pending _ _ text a)))
update-Answers letters a (resource_summary text) = (tt, inl (refl, (add_lines_pending _ a)))
update-Answers letters a (success_event text) = (tt, inl (refl, (add_block_pending _ _ text a)))
update-Answers letters a (deferred_event none) = (tt, inl (refl, refl))
update-Answers letters a (deferred_event (some text)) = (tt, inl (refl, refl))
update-Answers letters a (other_event text) = (tt, inl (refl, (add_block_pending _ _ text a)))
update-Answers letters a (window_size w) = (tt, inl (refl, refl))
update-Answers letters a header_tick =
    if-cases (Answers a) a.header_loading (λ e. ((tt, tt), inl (refl, refl)))
      (λ e. (tt, inl (refl, refl)))
update-Answers letters a (header_label l) =
    (let (quiet, count) = quiet_if a a.quitting quit tt refl in (quiet, inl (count, refl)))
update-Answers letters a auth_complete =
    if-cases (λ b. Answers a (b, [])) a.show_header_on_auth (λ e. (tt, inl (refl, refl)))
      (λ e. (tt, inl (refl, refl)))
update-Answers letters a (pull_skippable ch) = (tt, inl (refl, refl))
update-Answers letters a spinner_tick =
    (let (quiet, count) = quiet_if a a.spinner.visible spin tt refl in (quiet, inl (count, refl)))
update-Answers letters a (progress_event e) =
    if-cases (Answers a) a.pull_progress.visible (λ e. ((tt, tt), inl (refl, refl)))
      (λ e. (tt, inl (refl, refl)))
update-Answers letters a progress_frame =
    (let (quiet, count) = quiet_if a a.pull_progress.visible draw_progress tt refl in
      (quiet, inl (count, refl)))
update-Answers letters a run_done =
    if-cases (Answers a) (a.spinner.pending_stop || a.header_loading) (λ e. (tt, inl (refl, refl)))
      (λ e. ((tt, tt), inl (refl, refl)))
