-- ===== src/Container/Startup/Laws.antt =====
-- internal/container/start.go: what `startupMonitor.await` never does.
use lstk.Text.Decimal.{ℤ}
use lstk.Container.Startup.{
  other_key, context_done, ticked, deadline_passed, exit_reported, responded, prompt_shown, fresh,
  prompt_dismissed, Event, spinner_stopped, select_event, exit_seen, overdue, disarm, dismiss,
  await, watch, running, spinner_started, stop_key, not_running, status_error, ended,
  startup_timeout, cancelled, failed_with, stop_asked, Probe, Response, waiting, close_prompt,
  Progress, Ending, after_check, respond, Effect, Monitor,
}
use lstk.Prelude.{
  if-cases, ◌≡◌, refl, ◌∙◌, Bool, true, false, ◌||◌, Option, none, some, List, [], ◌∷◌, ◌++◌, arith,
  nat_eq, any,
}
use lstk.Text.Basic.{text_eq}

abbrev pub is_stop : Effect → Bool
is_stop stop_asked = true
is_stop _ = false

-- Whether an ending says that the container was to be stopped.
abbrev pub says_stopped : Ending → Bool
says_stopped (failed_with (startup_timeout b)) = b
says_stopped _ = false

-- The container is asked to stop exactly if the error says so, and not at all while `await` waits; a
-- prompt is open only once the deadline has passed; without a terminal nothing is shown or stopped.
pub record IsTidy (interactive : Bool) (stopped : Bool) (m : Monitor) : Type 0 where
  pub stop_eq : any is_stop m.effects ≡ stopped
  pub one_prompt : m.prompt_open ≡ true → m.armed ≡ false
  pub silent : interactive ≡ false → (m.effects ≡ []) × (m.prompt_open ≡ false)

abbrev pub IsTidyProgress : Bool → Progress → Type 0
IsTidyProgress interactive (waiting m) = IsTidy interactive false m
IsTidyProgress interactive (ended e m) = IsTidy interactive (says_stopped e) m

any_stop-append :
    (xs ys : List Effect) → any is_stop (xs ++ ys) ≡ (any is_stop xs || any is_stop ys)
any_stop-append [] ys = refl
any_stop-append (x ∷ xs) ys = ground (arith, any_stop-append xs ys)

after_check-IsTidy :
    (interactive : Bool) (p : Probe) (m : Monitor) (later : Progress)
    → IsTidy interactive false m
    → IsTidyProgress interactive later
    → IsTidyProgress interactive (after_check p m later)
unfolding after_check
after_check-IsTidy interactive (status_error true) m later t l = t
after_check-IsTidy interactive (status_error false) m later t l = t
after_check-IsTidy interactive (not_running o) m later t l = t
after_check-IsTidy interactive (running true) m later t l = t
after_check-IsTidy interactive (running false) m later t l = l

close_prompt-IsTidy :
    (interactive : Bool) (m : Monitor)
    → IsTidy interactive false m
    → IsTidy interactive false (close_prompt m)
close_prompt-IsTidy interactive m t = record {
  stop_eq = t.stop_eq;
  one_prompt = λ e. cc;
  silent = λ e. ((t.silent e).0, refl);
}

-- Prompts are answered in an interactive run only.
respond-IsTidy :
    (r : Response) (m : Monitor)
    → m.prompt_open ≡ false
    → IsTidy true false m
    → IsTidyProgress true (respond r m)
unfolding respond
respond-IsTidy (cancelled true) m c t = t
respond-IsTidy (cancelled false) m c t = t
respond-IsTidy (stop_key p) m c t = after_check-IsTidy true p m _ t (record {
  stop_eq = any_stop-append m.effects (spinner_started ∷ stop_asked ∷ []) ∙ ground (arith);
  one_prompt = t.one_prompt;
  silent = λ e. cc;
})
respond-IsTidy other_key m c t = record {
  stop_eq = any_stop-append m.effects (spinner_started ∷ []) ∙ ground (arith, t.stop_eq);
  one_prompt = λ e. cc;
  silent = λ e. cc;
}

exit_seen-IsTidy :
    (interactive : Bool) (o : Option ℤ) (m : Monitor)
    → IsTidy interactive false m
    → IsTidyProgress interactive (exit_seen o m)
unfolding exit_seen
exit_seen-IsTidy interactive none m t = record {
  stop_eq = t.stop_eq;
  one_prompt = t.one_prompt;
  silent = t.silent;
}
exit_seen-IsTidy interactive (some code) m t = t

disarm-IsTidy :
    (interactive : Bool) (m : Monitor)
    → IsTidy interactive false m
    → IsTidy interactive false (disarm m)
disarm-IsTidy interactive m t = record {
  stop_eq = t.stop_eq;
  one_prompt = λ e. refl;
  silent = t.silent;
}

overdue-IsTidy :
    (interactive : Bool) (m : Monitor)
    → m.armed ≡ false
    → IsTidy interactive false m
    → IsTidyProgress interactive (overdue interactive m)
overdue-IsTidy false m a t = t
overdue-IsTidy true m a t = record {
  stop_eq =
      any_stop-append m.effects (spinner_stopped ∷ prompt_shown ∷ []) ∙ ground (arith, t.stop_eq);
  one_prompt = λ e. a;
  silent = λ e. cc;
}

-- An answer arrives only where a prompt is open, hence in an interactive run.
responded-IsTidy :
    (interactive : Bool) (r : Response) (m : Monitor)
    → m.prompt_open ≡ true
    → IsTidy interactive false m
    → IsTidyProgress interactive (respond r (close_prompt m))
responded-IsTidy true r m o t =
    respond-IsTidy r (close_prompt m) refl (close_prompt-IsTidy true m t)
responded-IsTidy false r m o t =
    let closed : m.prompt_open ≡ false = (t.silent refl).1 in absurd (ground (arith, o, closed))

select_event-IsTidy :
    (interactive : Bool) (event : Event) (m : Monitor)
    → IsTidy interactive false m
    → IsTidyProgress interactive (select_event interactive event m)
unfolding select_event
select_event-IsTidy interactive context_done m t = t
select_event-IsTidy interactive (responded r) m t =
    if-cases (IsTidyProgress interactive) m.prompt_open
      (λ o. (responded-IsTidy interactive r m o t)) (λ _. t)
select_event-IsTidy interactive (exit_reported o) m t =
    if-cases (IsTidyProgress interactive) m.exit_watched (λ w. (exit_seen-IsTidy interactive o m t))
      (λ _. t)
select_event-IsTidy interactive (deadline_passed p) m t =
    if-cases (IsTidyProgress interactive) m.armed
      (λ a.
        (after_check-IsTidy interactive p (disarm m) _ (disarm-IsTidy interactive m t)
          (overdue-IsTidy interactive (disarm m) refl (disarm-IsTidy interactive m t))))
      (λ _. t)
select_event-IsTidy interactive (ticked p) m t = after_check-IsTidy interactive p m (waiting m) t t

watch-IsTidy :
    (interactive : Bool) (events : List Event) (p : Progress)
    → IsTidyProgress interactive p
    → IsTidyProgress interactive (watch interactive events p)
unfolding watch
watch-IsTidy interactive [] (waiting m) t = t
watch-IsTidy interactive [] (ended e m) t = t
watch-IsTidy interactive (event ∷ events) (ended e m) t = t
watch-IsTidy interactive (event ∷ events) (waiting m) t =
    watch-IsTidy interactive events (select_event interactive event m)
      (select_event-IsTidy interactive event m t)

dismiss-IsTidy :
    (interactive : Bool) (p : Progress)
    → IsTidyProgress interactive p
    → IsTidyProgress interactive (dismiss p)
unfolding dismiss
dismiss-IsTidy interactive (waiting m) t = t
dismiss-IsTidy interactive (ended e m) t =
    if-cases (IsTidy interactive (says_stopped e)) m.prompt_open
      (λ o. record {
        stop_eq = any_stop-append m.effects (prompt_dismissed ∷ []) ∙ ground (arith, t.stop_eq);
        one_prompt = t.one_prompt;
        silent = λ q.
            let closed : m.prompt_open ≡ false = (t.silent q).1 in
            absurd (ground (arith, o, closed));
      })
      (λ _. t)

-- However the events of a start fall, the runtime is asked to stop the container exactly when the
-- result is the timeout error that says so (whether it does is not looked at), a prompt is open only after a deadline that has not been set again
-- (so there is one at a time), and a run that is not interactive shows nothing and asks for no stop.
pub await-IsTidy :
    (interactive watched : Bool) (first : Probe) (events : List Event)
    → IsTidyProgress interactive (await interactive watched first events)
unfolding await
await-IsTidy interactive watched first events = dismiss-IsTidy interactive _ (
    watch-IsTidy interactive events _ (
      after_check-IsTidy interactive first (fresh watched) (waiting (fresh watched)) fresh-IsTidy
        fresh-IsTidy))
  where
    fresh-IsTidy : IsTidy interactive false (fresh watched)
    fresh-IsTidy = record { stop_eq = refl; one_prompt = λ e. cc; silent = λ e. (refl, refl) }
