-- ===== src/Ui/Run/Laws.antt =====
-- internal/ui/app.go: what holds of the terminal UI after any messages.
use lstk.Ui.Coherent.{add_lines-IsCoherent, add_block-IsCoherent}
use lstk.Ui.Coherent.Cases.{
  defer-IsCoherent, update_run_err-IsCoherent, update_status-IsCoherent, update_error-IsCoherent,
  update_elapsed-IsCoherent, update_spinner-IsCoherent, dismiss_pending-IsCoherent,
  update_input_requested-IsCoherent,
}
use lstk.Ui.Coherent.Keys.{update_key-IsCoherent}
use lstk.Ui.Coherent.{add_block-IsCoherent, push_lines-IsCoherent, add_line-IsCoherent, IsCoherent}
use lstk.Ui.Messages.{
  auth_event, message_event, error_event, spinner_event, input_dismissed, input_requested, key_msg,
  Message,
}
use lstk.Ui.Run.{update_run_done, run, update}
use lstk.Ui.Keys.{Letters}
use lstk.Ui.Update.{update_auth_complete, update_header_label, update_header_tick}
use lstk.Ui.App.{
  blank_app, with_header_loading, without_header, AppOption, apply_options, new_app, App,
}
use lstk.Ui.App.{without_header, with_header_loading, with_header_after_auth}
use lstk.Ui.Messages.{
  key_msg, input_requested, input_dismissed, spinner_event, min_duration_elapsed, error_event,
  message_event, auth_event, log_line, container_status, run_err, table_event, resource_summary,
  success_event, deferred_event, other_event, window_size,
}
use lstk.Prelude.{Bool, if-cases, List, [], ◌∷◌, arith, nat_eq}
use lstk.Text.Basic.{Text, text_eq}

update-IsCoherent :
    (letters : Letters) (a : App) (message : Message)
    → IsCoherent a
    → IsCoherent (update letters a message).0
unfolding update update_header_tick update_header_label update_auth_complete update_run_done
update-IsCoherent letters a (key_msg key) h = update_key-IsCoherent letters a key h
update-IsCoherent letters a (input_requested req) h =
    update_input_requested-IsCoherent letters a req h
update-IsCoherent letters a (input_dismissed ch) h =
    dismiss_pending-IsCoherent a ch a.pending_input h
update-IsCoherent letters a (spinner_event active text duration now) h =
    update_spinner-IsCoherent a active text duration now h
update-IsCoherent letters a min_duration_elapsed h = update_elapsed-IsCoherent a h
update-IsCoherent letters a (error_event e) h = update_error-IsCoherent a e h
update-IsCoherent letters a (message_event e text) h = add_line-IsCoherent _ a h
update-IsCoherent letters a (auth_event preamble url code) h = push_lines-IsCoherent _ a h
update-IsCoherent letters a (log_line e) h = add_line-IsCoherent _ a h
update-IsCoherent letters a (container_status phase container line) h =
    update_status-IsCoherent a phase line h
update-IsCoherent letters a (run_err e silent) h = update_run_err-IsCoherent a e silent h
update-IsCoherent letters a (table_event text) h = add_block-IsCoherent _ _ text a h
update-IsCoherent letters a (resource_summary text) h = add_lines-IsCoherent _ a h
update-IsCoherent letters a (success_event text) h = add_block-IsCoherent _ _ text a h
update-IsCoherent letters a (deferred_event text) h = defer-IsCoherent text a h
update-IsCoherent letters a (other_event text) h = add_block-IsCoherent _ _ text a h
update-IsCoherent letters a (window_size w) h = ground arith
update-IsCoherent letters a _ h = ground arith

run_from-IsCoherent :
    (letters : Letters) (messages : List Message) (a : App)
    → IsCoherent a
    → IsCoherent (run letters a messages).0
unfolding run
run_from-IsCoherent letters [] a h = h
run_from-IsCoherent letters (message ∷ messages) a h =
    run_from-IsCoherent letters messages (update letters a message).0
      (update-IsCoherent letters a message h)

apply_options-IsCoherent :
    (options : List AppOption) (a : App) → IsCoherent a → IsCoherent (apply_options options a)
unfolding apply_options
apply_options-IsCoherent [] a h = h
apply_options-IsCoherent (without_header ∷ options) a h =
    apply_options-IsCoherent options _ (ground arith)
apply_options-IsCoherent (with_header_loading ∷ options) a h =
    apply_options-IsCoherent options _ (ground arith)
apply_options-IsCoherent (with_header_after_auth ∷ options) a h =
    apply_options-IsCoherent options _ (ground arith)

-- Whatever messages arrive after the start, in whatever order, the prompt component is set visible
-- exactly while a request waits for an answer, with its text and its options (a visible spinner may
-- be drawn in its place); the selected row is one of the options, unless there are none; and at most
-- 200 lines are kept, and at most 200 wait.
pub run-IsCoherent :
    (letters : Letters) (name : Text) (has_cancel : Bool) (options : List AppOption)
    (messages : List Message)
    → IsCoherent (run letters (new_app name has_cancel options) messages).0
unfolding new_app
run-IsCoherent letters name has_cancel options messages =
    let started : IsCoherent (apply_options options (blank_app name has_cancel)) =
      apply_options-IsCoherent options (blank_app name has_cancel) (ground arith) in
    run_from-IsCoherent letters messages (new_app name has_cancel options) (
      if-cases IsCoherent (apply_options options (blank_app name has_cancel)).header_loading
        (λ e. ground (arith, started)) (λ e. started))
