-- ===== src/Tests/Startup.antt =====
-- A start on a terminal that the user stops, and one in a script that takes too long.
use lstk.Container.Startup.Laws.{await-IsTidy, IsTidyProgress}
use lstk.Container.Startup.Deadline.{await-is_ended, is_ended}
use lstk.Container.Startup.{
  select_event, stop_asked, spinner_started, prompt_shown, spinner_stopped, stop_key,
  startup_timeout, responded, failed_with, deadline_passed, ended, ticked, running, Event, await,
}
use lstk.Prelude.{◌≡◌, refl, true, false, List, [], ◌∷◌, nat_eq}
use lstk.Text.Basic.{text_eq}

abbrev slow : List Event
slow =
    ticked (running false)
    ∷ deadline_passed (running false)
    ∷ responded (stop_key (running false))
    ∷ []

stopped_by_user :
    await true true (running false) slow
    ≡ ended (failed_with (startup_timeout true)) (record {
      prompt_open = false;
      exit_watched = true;
      armed = false;
      effects = spinner_stopped ∷ prompt_shown ∷ spinner_started ∷ stop_asked ∷ [];
    })
unfolding await select_event
stopped_by_user = refl

await-IsTidy_example : IsTidyProgress true (await true true (running false) slow)
await-IsTidy_example = await-IsTidy true true (running false) slow

await-is_ended_example : is_ended (await false true (running false) slow) ≡ true
await-is_ended_example = await-is_ended true (running false) slow refl
