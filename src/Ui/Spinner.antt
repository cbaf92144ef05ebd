-- ===== src/Ui/Spinner.antt =====
-- internal/ui/components/spinner.go. Times are nanoseconds; the frames that the spinner library draws
-- are left out.
use lstk.Prelude.{[], ℕ, ◌-◌, Bool, true, false, Option, none, some, leb, if◌then◌else◌}
use lstk.Text.Basic.{Text}

pub record Spinner : Type 0 where
  pub text : Text
  pub visible : Bool
  pub started_at : ℕ
  pub min_duration : ℕ
  pub pending_stop : Bool

-- `NewSpinner`
abbrev pub new_spinner : Spinner
new_spinner = record {
  text = [];
  visible = false;
  started_at = 0;
  min_duration = 0;
  pending_stop = false;
}

-- `Start`, at the time `now`.
unfoldable pub start_spinner : Text → ℕ → ℕ → Spinner → Spinner
start_spinner text duration now s = record {
  text = text;
  visible = true;
  started_at = now;
  min_duration = duration;
  pending_stop = false;
}

-- `Stop`: with the time after which the message is due that ends the spinner, if it has to stay.
unfoldable pub stop_spinner : ℕ → Spinner → Spinner × Option ℕ
stop_spinner now s =
    if leb s.min_duration (now - s.started_at)
    then (record s { visible = false; pending_stop = false }, none)
    else (record s { pending_stop = true }, some (s.min_duration - (now - s.started_at)))

-- `ForceStop`
abbrev pub force_stop : Spinner → Spinner
force_stop s = record s { visible = false; pending_stop = false }

-- `HandleMinDurationElapsed`
abbrev pub min_duration_over : Spinner → Spinner
min_duration_over s =
    if s.pending_stop then record s { visible = false; pending_stop = false } else s

-- `SetText`
abbrev pub set_text : Text → Spinner → Spinner
set_text text s = record s { text = text }
