-- ===== src/Container/Startup.antt =====
-- internal/container/start.go: `startupMonitor.await`, which watches a container that was just
-- started. What its `select` receives is a sequence of events. An event that looks at the container
-- carries what it finds there.
pub mod Laws
pub mod Deadline
use lstk.Text.Decimal.{negsuc, ℤ}
use lstk.Prelude.{
  ℕ, zero, suc, ◌+◌, ◌-◌, ◌≤◌, ◌<◌, ◌≡◌, refl, sym, ap, ◌∙◌, ◌≢◌, ◌↔◌, ◌⊎◌, inl, inr, Bool, true,
  false, not, ◌&&◌, ◌||◌, Option, none, some, List, [], ◌∷◌, ◌++◌, map, arith, ltb, leb, ◌==◌,
  nat_eq, all, any, All, if◌then◌else◌, Bool-cases, Result, ok, err, ◌>>=◌,
}
use lstk.Text.Basic.{Text, codes, text_eq, text_beq_iff}

-- What `check` finds: the status cannot be read (and whether the context is done by then), the
-- container has stopped (and the exit code, if the runtime delivers it in time), or it runs (and
-- whether the health endpoint answers with 200).
pub data Probe : Type 0 where
  status_error : Bool → Probe
  not_running : Option ℤ → Probe
  running : Bool → Probe

-- The errors that `await` returns.
pub data StartFailure : Type 0 where
  context_error canceled status_check_failed : StartFailure
  container_exited : ℤ → StartFailure
  startup_timeout : Bool → StartFailure

-- Its result: nil or an error.
pub data Ending : Type 0 where
  healthy : Ending
  failed_with : StartFailure → Ending

-- The answer to the prompt: cancelled (and whether the context is done), the key `s`, behind which
-- the container is checked, or another key.
pub data Response : Type 0 where
  cancelled : Bool → Response
  stop_key : Probe → Response
  other_key : Response

pub data Event : Type 0 where
  context_done : Event
  responded : Response → Event
  -- What `exitCh` delivers: an exit code, or none if the wait itself failed.
  exit_reported : Option ℤ → Event
  deadline_passed ticked : Probe → Event

pub data Effect : Type 0 where
  prompt_shown prompt_dismissed stop_asked spinner_started spinner_stopped : Effect

-- Whether `responseCh` and `exitCh` are not nil, whether the deadline is still to come, and what
-- was done.
pub record Monitor : Type 0 where
  pub prompt_open : Bool
  pub exit_watched : Bool
  pub armed : Bool
  pub effects : List Effect

pub data Progress : Type 0 where
  waiting : Monitor → Progress
  ended : Ending → Monitor → Progress

-- `exitedError`: -1 is the unknown code.
abbrev pub exit_code : Bool → Option ℤ → ℤ
exit_code false o = negsuc 0
exit_code true none = negsuc 0
exit_code true (some code) = code

-- `check`, and the `return` behind it; `later` is what follows if it decides nothing.
unfoldable pub after_check : Probe → Monitor → Progress → Progress
after_check (status_error true) m later = ended (failed_with context_error) m
after_check (status_error false) m later = ended (failed_with status_check_failed) m
after_check (not_running o) m later =
    ended (failed_with (container_exited (exit_code m.exit_watched o))) m
after_check (running true) m later = ended healthy m
after_check (running false) m later = later

abbrev pub emit : List Effect → Monitor → Monitor
emit more m = record {
  prompt_open = m.prompt_open;
  exit_watched = m.exit_watched;
  armed = m.armed;
  effects = m.effects ++ more;
}

abbrev pub close_prompt : Monitor → Monitor
close_prompt m = record {
  prompt_open = false;
  exit_watched = m.exit_watched;
  armed = m.armed;
  effects = m.effects;
}

abbrev pub rearm : Monitor → Monitor
rearm m = record {
  prompt_open = m.prompt_open;
  exit_watched = m.exit_watched;
  armed = true;
  effects = m.effects ++ spinner_started ∷ [];
}

abbrev pub disarm : Monitor → Monitor
disarm m = record {
  prompt_open = m.prompt_open;
  exit_watched = m.exit_watched;
  armed = false;
  effects = m.effects;
}

abbrev pub open_prompt : Monitor → Monitor
open_prompt m = record {
  prompt_open = true;
  exit_watched = m.exit_watched;
  armed = m.armed;
  effects = m.effects ++ spinner_stopped ∷ prompt_shown ∷ [];
}

abbrev pub unwatch : Monitor → Monitor
unwatch m = record {
  prompt_open = m.prompt_open;
  exit_watched = false;
  armed = m.armed;
  effects = m.effects;
}

unfoldable pub respond : Response → Monitor → Progress
unfolding after_check
respond (cancelled true) m = ended (failed_with context_error) m
respond (cancelled false) m = ended (failed_with canceled) m
respond (stop_key p) m =
    after_check p m
      (ended (failed_with (startup_timeout true)) (emit (spinner_started ∷ stop_asked ∷ []) m))
respond other_key m = waiting (rearm m)

unfoldable pub exit_seen : Option ℤ → Monitor → Progress
exit_seen none m = waiting (unwatch m)
exit_seen (some code) m = ended (failed_with (container_exited code)) m

-- What follows a deadline at which the container is not ready.
abbrev pub overdue : Bool → Monitor → Progress
overdue interactive m =
    if not interactive
    then ended (failed_with (startup_timeout false)) m
    else waiting (open_prompt m)

-- The cases of the `select`. A channel that is nil and a timer that has fired deliver nothing.
unfoldable pub select_event : Bool → Event → Monitor → Progress
unfolding after_check respond exit_seen
select_event interactive context_done m = ended (failed_with context_error) m
select_event interactive (responded r) m =
    if m.prompt_open then respond r (close_prompt m) else waiting m
select_event interactive (exit_reported o) m = if m.exit_watched then exit_seen o m else waiting m
select_event interactive (deadline_passed p) m =
    if m.armed then after_check p (disarm m) (overdue interactive (disarm m)) else waiting m
select_event interactive (ticked p) m = after_check p m (waiting m)

-- The loop.
unfoldable pub watch : Bool → List Event → Progress → Progress
watch interactive events (ended e m) = ended e m
watch interactive [] (waiting m) = waiting m
watch interactive (event ∷ events) (waiting m) =
    watch interactive events (select_event interactive event m)

-- The deferred dismissal of an open prompt.
unfoldable pub dismiss : Progress → Progress
dismiss (waiting m) = waiting m
dismiss (ended e m) = ended e (if m.prompt_open then emit (prompt_dismissed ∷ []) m else m)

abbrev pub fresh : Bool → Monitor
fresh watched = record { prompt_open = false; exit_watched = watched; armed = true; effects = [] }

-- `await`; `watched` is whether `exitCh` is not nil, `first` what the first check finds.
unfoldable pub await : Bool → Bool → Probe → List Event → Progress
unfolding after_check watch dismiss
await interactive watched first events =
    dismiss (watch interactive events (after_check first (fresh watched) (waiting (fresh watched))))
