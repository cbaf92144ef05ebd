-- ===== src/Tests/Terminal.antt =====
-- A prompt in the terminal UI while a spinner ends.
use lstk.Ui.Spinner.{new_spinner}
use lstk.Ui.Update.{update_key}
use lstk.Ui.App.{max_lines, plain_line, add_lines, flush_buffered_lines, App, new_app}
use lstk.Ui.Prompt.{default_no, show_prompt, confirm, InputRequest}
use lstk.Ui.Run.{run, update}
use lstk.Prelude.{
  last, ◌+◌, ◌≤◌, ◌≡◌, refl, inr, true, false, ◌||◌, some, List, [], ◌∷◌, ◌++◌, arith, nat_eq, All,
}
use lstk.Text.Basic.{text_beq, is_upper, is_lower, codes, text_eq}
use lstk.Ui.Run.Laws.{run-IsCoherent}
use lstk.Ui.Run.Answered.{
  waiting_over, run-answers_over, update-IsAnswer, answers_over, requests_over,
}
use lstk.Ui.Run.Answers.{IsAnswer}
use lstk.Ui.App.Lines.{flush-add_lines}
use lstk.Ui.Coherent.{IsCoherent}
use lstk.Ui.Messages.{answer, Message, key_msg, input_requested, spinner_event, run_done}
use lstk.Ui.Keys.{is_default_option, chooses, Letters, resolve_option, KeyMsg, key_enter}
use lstk.Text.Basic.{to_upper, equal_fold}

abbrev ascii : Letters
ascii = record {
  is_letter = λ c. is_lower c || is_upper c;
  to_upper = to_upper;
  equal_fold = equal_fold;
}

abbrev reset_prompt : InputRequest
reset_prompt = confirm (codes "Reset emulator state?") default_no (some 7)

abbrev enter_key : KeyMsg
enter_key = record { type = key_enter; name = codes "enter" }

-- A spinner that starts and is stopped within its least duration, a prompt, and the enter key.
abbrev history : List Message
history =
    spinner_event true (codes "Working") 400 0
    ∷ spinner_event false [] 0 100
    ∷ input_requested reset_prompt
    ∷ key_msg enter_key
    ∷ run_done
    ∷ []

abbrev start : App
start = new_app (codes "LocalStack") true []

run-IsCoherent_example : IsCoherent (run ascii start history).0
run-IsCoherent_example = run-IsCoherent ascii (codes "LocalStack") true [] history

run-answers_over_example :
    answers_over 7 (run ascii start history).1
      + waiting_over 7 (run ascii start history).0.pending_input
    ≤ requests_over 7 history
run-answers_over_example = run-answers_over 7 ascii (codes "LocalStack") true [] history

abbrev asked : App
asked = record start { pending_input = some reset_prompt; input_prompt = show_prompt reset_prompt }

update-IsAnswer_example : All (IsAnswer asked) (update ascii asked (key_msg enter_key)).1
update-IsAnswer_example = update-IsAnswer ascii asked (key_msg enter_key)

-- The default of a destructive action is no.
enter_refuses :
    (update ascii asked (key_msg enter_key)).1
    ≡ answer 7 (record { selected_key = codes "n"; cancelled = false }) ∷ []
unfolding update update_key resolve_option chooses is_default_option confirm new_app to_upper
    equal_fold text_beq
enter_refuses = refl

abbrev waits : App
waits = record start {
  spinner = record new_spinner { visible = true; pending_stop = true };
  lines = plain_line (codes "first") ∷ [];
  buffered_lines = plain_line (codes "second") ∷ [];
}

flush-add_lines_example :
    (flush_buffered_lines (add_lines (plain_line (codes "third") ∷ []) waits)).lines
    ≡ last max_lines ((waits.lines ++ waits.buffered_lines) ++ plain_line (codes "third") ∷ [])
unfolding new_app
flush-add_lines_example =
    flush-add_lines (plain_line (codes "third") ∷ []) waits (ground arith) (inr refl)
