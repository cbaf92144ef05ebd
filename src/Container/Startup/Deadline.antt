-- ===== src/Container/Startup/Deadline.antt =====
-- internal/container/start.go: a start that is not interactive waits no longer than its deadline.
use lstk.Text.Decimal.{ℤ}
use lstk.Container.Startup.{
  context_done, overdue, ticked, running, disarm, exit_reported, not_running, status_error, fresh,
  responded, deadline_passed, waiting, Probe, ended, Monitor, Progress, select_event, dismiss,
  exit_seen, Event, watch, await, after_check,
}
use lstk.Prelude.{
  if-cases, ◌≡◌, refl, ◌⊎◌, inl, inr, Bool, true, false, Option, none, some, List, [], ◌∷◌, arith,
  nat_eq, any,
}
use lstk.Text.Basic.{text_eq}

abbrev pub is_deadline : Event → Bool
is_deadline (deadline_passed p) = true
is_deadline _ = false

abbrev pub is_ended : Progress → Bool
is_ended (waiting m) = false
is_ended (ended e m) = true

-- It has ended, or waits for its deadline without a prompt.
abbrev IsPending : Progress → Type 0
IsPending (waiting m) = (m.armed ≡ true) × (m.prompt_open ≡ false)
IsPending (ended e m) = Unit

after_check-IsPending :
    (p : Probe) (m : Monitor) (later : Progress)
    → IsPending later
    → IsPending (after_check p m later)
unfolding after_check
after_check-IsPending (status_error true) m later l = tt
after_check-IsPending (status_error false) m later l = tt
after_check-IsPending (not_running o) m later l = tt
after_check-IsPending (running true) m later l = tt
after_check-IsPending (running false) m later l = l

exit_seen-IsPending :
    (o : Option ℤ) (m : Monitor) → IsPending (waiting m) → IsPending (exit_seen o m)
unfolding exit_seen
exit_seen-IsPending none m h = h
exit_seen-IsPending (some code) m h = tt

after_check-is_ended :
    (p : Probe) (m : Monitor) (later : Progress)
    → is_ended later ≡ true
    → is_ended (after_check p m later) ≡ true
unfolding after_check
after_check-is_ended (status_error true) m later l = refl
after_check-is_ended (status_error false) m later l = refl
after_check-is_ended (not_running o) m later l = refl
after_check-is_ended (running true) m later l = refl
after_check-is_ended (running false) m later l = l

deadline-is_ended :
    (p : Probe) (m : Monitor)
    → m.armed ≡ true
    → is_ended (select_event false (deadline_passed p) m) ≡ true
unfolding select_event
deadline-is_ended p m a =
    if-cases (λ x. is_ended x ≡ true) m.armed
      (λ _. after_check-is_ended p (disarm m) (overdue false (disarm m)) refl)
      (λ n. absurd (ground (arith, a, n)))

ended-IsPending : (x : Progress) → is_ended x ≡ true → IsPending x
ended-IsPending (waiting m) h = cc
ended-IsPending (ended e m) h = tt

select_event-IsPending :
    (event : Event) (m : Monitor) → IsPending (waiting m) → IsPending (select_event false event m)
unfolding select_event
select_event-IsPending context_done m h = tt
select_event-IsPending (responded r) m h =
    if-cases IsPending m.prompt_open
      (λ o. let closed : m.prompt_open ≡ false = h.1 in absurd (ground (arith, o, closed))) (λ _. h)
select_event-IsPending (exit_reported o) m h =
    if-cases IsPending m.exit_watched (λ _. exit_seen-IsPending o m h) (λ _. h)
select_event-IsPending (deadline_passed p) m h = ended-IsPending _ (deadline-is_ended p m h.0)
select_event-IsPending (ticked p) m h = after_check-IsPending p m (waiting m) h

watch-ended :
    (events : List Event) (x : Progress)
    → is_ended x ≡ true
    → is_ended (watch false events x) ≡ true
unfolding watch
watch-ended [] (ended e m) h = refl
watch-ended (event ∷ events) (ended e m) h = refl
watch-ended [] (waiting m) h = cc
watch-ended (event ∷ events) (waiting m) h = cc

is_deadline-cases :
    (event : Event) → ((p : Probe) × (event ≡ deadline_passed p)) ⊎ (is_deadline event ≡ false)
is_deadline-cases context_done = inr refl
is_deadline-cases (responded r) = inr refl
is_deadline-cases (exit_reported o) = inr refl
is_deadline-cases (deadline_passed p) = inl (p, refl)
is_deadline-cases (ticked p) = inr refl

watch-is_ended :
    (events : List Event) (x : Progress)
    → IsPending x
    → any is_deadline events ≡ true
    → is_ended (watch false events x) ≡ true
unfolding watch
watch-is_ended events (ended e m) h d = watch-ended events (ended e m) refl
watch-is_ended [] (waiting m) h d = cc
watch-is_ended (event ∷ events) (waiting m) h d = elim (is_deadline-cases event) [
  | inl (p, e) ↦
      unfold watch in
      watch-ended events (select_event false event m) (rw e (deadline-is_ended p m h.0))
  | inr n ↦
      unfold watch in
      watch-is_ended events (select_event false event m) (select_event-IsPending event m h)
        (ground (arith, d, n))
]

dismiss-is_ended : (x : Progress) → is_ended x ≡ true → is_ended (dismiss x) ≡ true
unfolding dismiss
dismiss-is_ended (waiting m) h = cc
dismiss-is_ended (ended e m) h = refl

-- Without a terminal, `await` returns at the latest when its deadline passes, whatever happened
-- before: it neither prompts nor sets the deadline again.
pub await-is_ended :
    (watched : Bool) (first : Probe) (events : List Event)
    → any is_deadline events ≡ true
    → is_ended (await false watched first events) ≡ true
unfolding await
await-is_ended watched first events d = dismiss-is_ended _ (
    watch-is_ended events _
      (after_check-IsPending first (fresh watched) (waiting (fresh watched)) (refl, refl)) d)
