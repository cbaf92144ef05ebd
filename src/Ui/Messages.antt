-- ===== src/Ui/Messages.antt =====
-- internal/ui/app.go: the messages that `Update` receives, as far as it looks at them. The text that
-- output.FormatEventLine or a style gives for an event stands in the message.
use lstk.Prelude.{ℕ, Bool, Option, nat_eq}
use lstk.Text.Basic.{Text, text_eq}
use lstk.Ui.Prompt.{InputRequest, InputResponse}
use lstk.Ui.Progress.{ProgressEvent}
use lstk.Ui.Keys.{KeyMsg}
use lstk.Container.Logs.{LogLevel}

pub data MessageSeverity : Type 0 where
  severity_info severity_success severity_note severity_warning severity_secondary : MessageSeverity

pub record MessageEvent : Type 0 where
  pub severity : MessageSeverity
  pub text : Text

pub record LogLineEvent : Type 0 where
  pub source : Text
  pub line : Text
  pub level : LogLevel

pub record ErrorEvent : Type 0 where
  pub title : Text
  pub summary : Text
  pub detail : Text

pub data Message : Type 0 where
  key_msg : KeyMsg → Message
  window_size : ℕ → Message
  header_tick spinner_tick progress_frame auth_complete min_duration_elapsed run_done : Message
  header_label : Text → Message
  input_requested : InputRequest → Message
  input_dismissed : Option ℕ → Message
  pull_skippable : Option ℕ → Message
  -- Whether it starts, its text and least duration, and the time.
  spinner_event : Bool → Text → ℕ → ℕ → Message
  error_event : ErrorEvent → Message
  -- A message, and what components.RenderMessage makes of it.
  message_event : MessageEvent → Text → Message
  auth_event : Text → Text → Text → Message
  log_line : LogLineEvent → Message
  -- The phase, the container, and the line for it.
  container_status : Text → Text → Option Text → Message
  progress_event : ProgressEvent → Message
  -- An error, and whether it is silent.
  run_err : Text → Bool → Message
  table_event : Option Text → Message
  resource_summary : Text → Message
  -- An event of success or a snapshot's differences.
  success_event : Option Text → Message
  deferred_event : Option Text → Message
  other_event : Option Text → Message

-- What `Update` asks for in return: the commands, and the call of `cancel`.
pub data Command : Type 0 where
  quit cancel_run spin tick_header draw_progress : Command
  answer : ℕ → InputResponse → Command
  skip_pull : ℕ → Command
  elapse_in : ℕ → Command
