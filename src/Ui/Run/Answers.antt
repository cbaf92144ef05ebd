-- ===== src/Ui/Run/Answers.antt =====
-- internal/ui/app.go: the answers that the terminal UI sends to the code that asked.
use lstk.Ui.Prompt.{InputResponse, InputRequest, InputOption}
use lstk.Ui.App.{send_input_response, send_pull_skip, App}
use lstk.Prelude.{
  keep, if◌then◌else◌, ◌++◌, ◌≤◌, Bool, length, false, ℕ, zero, suc, ◌≡◌, refl, sym, ◌⊎◌, inl, inr,
  true, ◌||◌, Option, none, some, List, [], ◌∷◌, arith, ◌==◌, nat_eq, All, subst, Option-cases,
  if-cases,
}
use lstk.Text.Basic.{text_beq_refl, codes, text_eq}
use lstk.Ui.Keys.{resolve_option, KeyType, Letters, KeyMsg, key_up, key_down, key_enter, key_other}
use lstk.Ui.Keys.Laws.{has_key, resolve_option-has_key}
use lstk.Ui.Messages.{
  Command, answer, quit, cancel_run, spin, tick_header, draw_progress, skip_pull, elapse_in,
}
use lstk.Ui.Update.{
  choose_inline, enter_row, choose_or_stay, prompt_key, interrupt, choose_row, option_at,
  skip_or_prompt, handle_vertical_prompt_key, update_key,
}

-- An answer to the request that waits in `a`: one of its options, or that the user gave up.
abbrev pub IsAnswer : App → Command → Type 0
IsAnswer a (answer ch r) =
    (req : InputRequest) × (a.pending_input ≡ some req)
    × (req.response_ch ≡ some ch)
    × ((r.cancelled ≡ true) ⊎ (has_key r.selected_key req.options ≡ true))
IsAnswer a quit = Unit
IsAnswer a cancel_run = Unit
IsAnswer a spin = Unit
IsAnswer a tick_header = Unit
IsAnswer a draw_progress = Unit
IsAnswer a (skip_pull ch) = Unit
IsAnswer a (elapse_in n) = Unit

abbrev pub is_answer : Command → Bool
is_answer (answer ch r) = true
is_answer _ = false

abbrev pub answer_count : List Command → ℕ
answer_count commands = length (keep is_answer commands)

-- At most one answer is sent, and none to a request that still waits.
abbrev pub IsSpent : App → App × List Command → Type 0
IsSpent a r =
    ((answer_count r.1 ≡ 0) × (r.0.pending_input ≡ a.pending_input))
    ⊎ ((answer_count r.1 ≤ 1) × (r.0.pending_input ≡ none))

abbrev pub Answers : App → App × List Command → Type 0
Answers a r = All (IsAnswer a) r.1 × IsSpent a r

send_count : (o : Option ℕ) (r : InputResponse) → answer_count (send_input_response o r) ≤ 1
send_count none r = omega arith
send_count (some ch) r = omega arith

send-Answers :
    (a : App) (req : InputRequest) (o : Option ℕ) (r : InputResponse)
    → a.pending_input ≡ some req
    → req.response_ch ≡ o
    → ((r.cancelled ≡ true) ⊎ (has_key r.selected_key req.options ≡ true))
    → All (IsAnswer a) (send_input_response o r)
send-Answers a req none r e f h = tt
send-Answers a req (some ch) r e f h = ((req, e, f, h), tt)

-- What a key that ends the program sends; `b` is whether there is a function to cancel the run.
abbrev given_up : InputResponse
given_up = record { selected_key = []; cancelled = true }

abbrev ending_commands : Bool → Option ℕ → List Command
ending_commands b o =
    (if b then cancel_run ∷ [] else []) ++ (send_input_response o given_up ++ quit ∷ [])

ending-Answers :
    (a : App) (req : InputRequest) (b : Bool) (o : Option ℕ)
    → a.pending_input ≡ some req
    → req.response_ch ≡ o
    → All (IsAnswer a) (ending_commands b o) × (answer_count (ending_commands b o) ≤ 1)
ending-Answers a req true none e f = ((tt, (tt, tt)), omega arith)
ending-Answers a req false none e f = ((tt, tt), omega arith)
ending-Answers a req true (some ch) e f = ((tt, ((req, e, f, inl refl), (tt, tt))), omega arith)
ending-Answers a req false (some ch) e f = (((req, e, f, inl refl), (tt, tt)), omega arith)

interrupt-Answers :
    (a : App) (o : Option InputRequest) → a.pending_input ≡ o → Answers a (interrupt a o)
interrupt-Answers a none e =
    if-cases (λ l. All (IsAnswer a) (l ++ quit ∷ []) × IsSpent a (a, l ++ quit ∷ [])) a.has_cancel
      (λ b. ((tt, (tt, tt)), inl (refl, refl))) (λ b. ((tt, tt), inl (refl, refl)))
interrupt-Answers a (some req) e =
    let (answers, once) = ending-Answers a req a.has_cancel req.response_ch e refl in
    (answers, inr (once, refl))

resolved-Answers :
    (letters : Letters) (a : App) (req : InputRequest) (key : KeyMsg)
    (choose : InputOption → App × List Command)
    → ((opt : InputOption) → has_key opt.key req.options ≡ true → Answers a (choose opt))
    → Answers a (choose_or_stay a choose (resolve_option letters req.options key))
resolved-Answers letters a req key choose h =
    elim (Option-cases (resolve_option letters req.options key)) [
      | inl e ↦ subst (λ o. Answers a (choose_or_stay a choose o)) (sym e) (tt, inl (refl, refl))
      | inr (opt, e) ↦
          subst (λ o. Answers a (choose_or_stay a choose o)) (sym e)
            (h opt (resolve_option-has_key letters key req.options e))
    ]

choose_row-Answers :
    (a : App) (req : InputRequest) (opt : InputOption)
    → a.pending_input ≡ some req
    → has_key opt.key req.options ≡ true
    → Answers a (choose_row a req opt)
choose_row-Answers a req opt e h =
    (send-Answers a req req.response_ch _ e refl (inr h), inr (send_count req.response_ch _, refl))

option_at-has_key :
    (options : List InputOption) (i : ℕ) (opt : InputOption)
    → option_at options i ≡ some opt
    → has_key opt.key options ≡ true
option_at-has_key [] i opt e = cc
option_at-has_key (o ∷ options) zero opt e = ground (arith, e, text_beq_refl opt.key)
option_at-has_key (o ∷ options) (suc i) opt e = ground (arith, option_at-has_key options i opt e)

vertical-Answers :
    (letters : Letters) (type : KeyType) (a : App) (req : InputRequest) (key : KeyMsg)
    → a.pending_input ≡ some req
    → Answers a (handle_vertical_prompt_key letters type a req key)
unfolding handle_vertical_prompt_key
vertical-Answers letters key_up a req key e = (tt, inl (refl, refl))
vertical-Answers letters key_down a req key e = (tt, inl (refl, refl))
vertical-Answers letters key_other a req key e =
    resolved-Answers letters a req key (choose_row a req)
      (λ opt h. choose_row-Answers a req opt e h)
vertical-Answers letters key_enter a req key e =
    elim (Option-cases (option_at req.options a.input_prompt.selected_index)) [
      | inl f ↦
          subst (λ o. Answers a (enter_row letters a req key o)) (sym f)
            (resolved-Answers letters a req key (choose_row a req)
              (λ opt h. choose_row-Answers a req opt e h))
      | inr (opt, f) ↦
          subst (λ o. Answers a (enter_row letters a req key o)) (sym f)
            (choose_row-Answers a req opt e
              (option_at-has_key req.options a.input_prompt.selected_index opt f))
    ]

prompt_key-Answers :
    (letters : Letters) (a : App) (key : KeyMsg) (o : Option InputRequest)
    → a.pending_input ≡ o
    → Answers a (prompt_key letters a key o)
prompt_key-Answers letters a key none e = (tt, inl (refl, refl))
prompt_key-Answers letters a key (some req) e =
    if-cases (Answers a) req.vertical (λ v. vertical-Answers letters key.type a req key e)
      (λ v. resolved-Answers letters a req key (choose_inline a req) (λ opt h. (
        send-Answers a req req.response_ch _ e refl (inr h),
        inr (send_count req.response_ch _, refl),
      )))

pub update_key-Answers :
    (letters : Letters) (a : App) (key : KeyMsg) → Answers a (update_key letters a key)
unfolding update_key
update_key-Answers letters a key =
    if-cases (Answers a) (key.name == codes "ctrl+c" || key.name == codes "q")
      (λ e. interrupt-Answers a a.pending_input refl)
      (λ e. elim a.pull_skip as (λ o. Answers a (skip_or_prompt letters a key o)) [
        | none ↦ prompt_key-Answers letters a key a.pending_input refl
        | some ch ↦
            if-cases (Answers a) (key.name == codes "esc")
              (λ e. (
                elim ch as (λ c. All (IsAnswer a) (send_pull_skip c)) [
                  | none ↦ tt
                  | some n ↦ (tt, tt)
                ],
                inl (
                  elim ch as (λ c. answer_count (send_pull_skip c) ≡ 0) [
                    | none ↦ refl
                    | some n ↦ refl
                  ],
                  refl,
                ),
              ))
              (λ e. prompt_key-Answers letters a key a.pending_input refl)
      ])
