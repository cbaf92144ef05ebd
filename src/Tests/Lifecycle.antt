-- ===== src/Tests/Lifecycle.antt =====
-- Stopping an emulator that runs under another name, and switching the config to another one.
use lstk.Tests.Blocks.{block}
use lstk.Container.Outside.{Emulators, ConfigStore, RunningContainer}
use lstk.Container.Running.{stop}
use lstk.Container.Running.Laws.{Stopped, Interrupted, stop-Stopped}
use lstk.Container.Switch.{probe}
use lstk.Container.Actions.Outcomes.{Ends}
use lstk.Config.Containers.{ContainerConfig}
use lstk.Text.Basic.{codes}
use lstk.Prelude.{if◌then◌else◌, some, none, true, false, [], ◌∷◌, Bool, List}

-- Whether the emulator runs, and the config.
record Host : Type 0 where
  up : Bool
  blocks : List ContainerConfig

abbrev other_name : RunningContainer
other_name = record {
  name = codes "my-localstack";
  image = codes "localstack/localstack:latest";
  bound_port = codes "4566";
}

abbrev host : Emulators Host
host = record {
  runtime_healthy = λ s. true;
  is_running = λ s name. some false;
  find_running = λ s repos port. if s.up then some (some other_name) else some none;
  stop_container = λ s name. (true, record { up = false; blocks = s.blocks });
}

abbrev config_file : ConfigStore Host
config_file = record {
  ensure_created = λ s. (true, s);
  set_emulator_type = λ s type. (true, record { up = s.up; blocks = probe type ∷ [] });
  read_config = λ s. some s.blocks;
}

abbrev before_stop : Host
before_stop = record { up = true; blocks = block ∷ [] }

stop-Stopped_example :
    Ends
      (λ u s'. Stopped host (block ∷ []) before_stop s')
      (λ e s'. Interrupted host (block ∷ []) before_stop s')
      (stop host (block ∷ []) before_stop)
stop-Stopped_example = stop-Stopped host (block ∷ []) before_stop
