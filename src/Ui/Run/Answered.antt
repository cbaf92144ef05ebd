-- ===== src/Ui/Run/Answered.antt =====
-- internal/ui/app.go: no request is answered twice, whatever messages arrive.
use lstk.Ui.Run.Pending.{update-Answers}
use lstk.Ui.Run.Answers.{answer_count, IsAnswer, Answers}
use lstk.Ui.Run.{run, update}
use lstk.Ui.Prompt.{InputRequest}
use lstk.Ui.App.{
  with_header_loading, blank_app, without_header, apply_options, AppOption, new_app, App,
}
use lstk.Ui.App.{without_header, with_header_loading, with_header_after_auth}
use lstk.Prelude.{
  sym, subst, ap, ◌+◌, if◌then◌else◌, ◌++◌, ◌≤◌, Bool, ℕ, ◌≡◌, refl, ◌⊎◌, inl, inr, Option, none,
  some, List, [], ◌∷◌, arith, ◌==◌, nat_eq, All, if-cases,
}
use lstk.Text.Basic.{Text, text_eq}
use lstk.Ui.Keys.{Letters}
use lstk.Ui.Messages.{input_requested, Message, Command, answer}

-- The answers over a channel, the requests for them, and whether one still waits.
abbrev pub answers_over : ℕ → List Command → ℕ
answers_over ch [] = 0
answers_over ch (answer c r ∷ commands) = (if c == ch then 1 else 0) + answers_over ch commands
answers_over ch (_ ∷ commands) = answers_over ch commands

abbrev uses_channel : ℕ → Option ℕ → ℕ
uses_channel ch none = 0
uses_channel ch (some c) = if c == ch then 1 else 0

abbrev pub waiting_over : ℕ → Option InputRequest → ℕ
waiting_over ch none = 0
waiting_over ch (some req) = uses_channel ch req.response_ch

abbrev requested_by : ℕ → Message → ℕ
requested_by ch (input_requested req) = uses_channel ch req.response_ch
requested_by ch _ = 0

abbrev pub requests_over : ℕ → List Message → ℕ
requests_over ch [] = 0
requests_over ch (message ∷ messages) = requested_by ch message + requests_over ch messages

answers_over-append :
    (ch : ℕ) (cs ds : List Command)
    → answers_over ch (cs ++ ds) ≡ answers_over ch cs + answers_over ch ds
answers_over-append ch [] ds = omega arith
answers_over-append ch (c ∷ cs) ds = ground (arith, answers_over-append ch cs ds)

answers_over-le : (ch : ℕ) (cs : List Command) → answers_over ch cs ≤ answer_count cs
answers_over-le ch [] = omega arith
answers_over-le ch (c ∷ cs) = ground (arith, answers_over-le ch cs)

-- Who does not wait over the channel is not answered over it.
answers_over-waiting :
    (ch : ℕ) (a : App) (cs : List Command)
    → All (IsAnswer a) cs
    → (waiting_over ch a.pending_input ≡ 1) ⊎ (answers_over ch cs ≡ 0)
answers_over-waiting ch a [] h = inr refl
answers_over-waiting ch a (answer c r ∷ cs) ((req, e, f, g), h) =
    ground (arith, e, f, answers_over-waiting ch a cs h)
answers_over-waiting ch a (c ∷ cs) (_, h) = answers_over-waiting ch a cs h

Answers-over :
    (ch : ℕ) (a : App) (r : App × List Command)
    → Answers a r
    → answers_over ch r.1 + waiting_over ch r.0.pending_input ≤ waiting_over ch a.pending_input
Answers-over ch a r (all, inl (none_sent, kept)) =
    rw kept (omega (arith, answers_over-le ch r.1, none_sent))
Answers-over ch a r (all, inr (once, gone)) =
    rw gone (omega (arith, answers_over-le ch r.1, once, answers_over-waiting ch a r.1 all))

update_over :
    (ch : ℕ) (letters : Letters) (a : App) (message : Message)
    → answers_over ch (update letters a message).1
        + waiting_over ch (update letters a message).0.pending_input
      ≤ waiting_over ch a.pending_input + requested_by ch message
update_over ch letters a (input_requested req) =
    let (silent, waits) = update-Answers letters a (input_requested req) in
    rw (silent, waits) (omega arith)
update_over ch letters a message =
    omega (arith, Answers-over ch a (update letters a message) (update-Answers letters a message))

run_over :
    (ch : ℕ) (letters : Letters) (messages : List Message) (a : App)
    → answers_over ch (run letters a messages).1
        + waiting_over ch (run letters a messages).0.pending_input
      ≤ waiting_over ch a.pending_input + requests_over ch messages
unfolding run
run_over ch letters [] a = omega arith
run_over ch letters (message ∷ messages) a =
    let b : App = (update letters a message).0 in
    omega (
      arith,
      update_over ch letters a message,
      run_over ch letters messages b,
      answers_over-append ch (update letters a message).1 (run letters b messages).1,
    )

apply_options_pending :
    (options : List AppOption) (a : App) → (apply_options options a).pending_input ≡ a.pending_input
unfolding apply_options
apply_options_pending [] a = refl
apply_options_pending (without_header ∷ options) a = apply_options_pending options _
apply_options_pending (with_header_loading ∷ options) a = apply_options_pending options _
apply_options_pending (with_header_after_auth ∷ options) a = apply_options_pending options _

new_app_pending :
    (name : Text) (has_cancel : Bool) (options : List AppOption)
    → (new_app name has_cancel options).pending_input ≡ none
unfolding new_app
new_app_pending name has_cancel options =
    let none_yet = apply_options_pending options (blank_app name has_cancel) in
    if-cases (λ (a : App). a.pending_input ≡ none)
      (apply_options options (blank_app name has_cancel)).header_loading (λ e. none_yet)
      (λ e. none_yet)

-- Whatever messages arrive after the start, over no channel are there more answers than requests, and
-- while the last request for it still waits, fewer.
pub run-answers_over :
    (ch : ℕ) (letters : Letters) (name : Text) (has_cancel : Bool) (options : List AppOption)
    (messages : List Message)
    → let (a, commands) = run letters (new_app name has_cancel options) messages in
      answers_over ch commands + waiting_over ch a.pending_input ≤ requests_over ch messages
run-answers_over ch letters name has_cancel options messages = omega (
  arith,
  run_over ch letters messages (new_app name has_cancel options),
  ap (waiting_over ch) (new_app_pending name has_cancel options),
)

-- Every answer that a message makes the UI send goes to the request that waits, over its channel, and
-- names one of its options or that the user gave up.
pub update-IsAnswer :
    (letters : Letters) (a : App) (message : Message)
    → All (IsAnswer a) (update letters a message).1
update-IsAnswer letters a (input_requested req) =
    subst (All (IsAnswer a)) (sym (update-Answers letters a (input_requested req)).0) tt
update-IsAnswer letters a message = (update-Answers letters a message).0
