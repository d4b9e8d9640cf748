-- ===== src/Examples/Layers.antt =====
-- A layer that loads, unloads and closes, and the scheduler.
use dls.Common.{
  ℕ, ◌+◌, ◌*◌, ◌≤◌, ◌<◌, ◌≡◌, Bool, true, none, some, List, [], ◌∷◌, arith, Text, codes, text_eq,
}
use dls.Common.Map.{find}
use dls.CommandManager.{new_manager}
use dls.Waiting.{slept, done}
use dls.Registry.{close, keys_of, Layer, AppData, Process, load, load_app_plugin}
use dls.Registry.Ending.{IsLong, close_ends}
use dls.Registry.Laws.{IsRegistry, load-IsRegistry}
use dls.Scheduler.{next_desired, next_desired-phase}

abbrev pub empty_layer : Layer
empty_layer = record {
  plugins = [];
  command_manager = new_manager (codes "supervisor");
  robot_name = codes "hyq";
  killed = [];
}

pub empty_layer-IsRegistry : IsRegistry empty_layer
empty_layer-IsRegistry = record {
  named = λ name d h. unfold find in ground arith;
  started = λ name d h gone. unfold find in ground arith;
}

abbrev process : Process
process = record {
  pid = 42;
  args = codes "/bin/child" ∷ codes "map" ∷ codes "map" ∷ codes "app_plugin" ∷ codes "hyq" ∷ [];
  detached = true;
}

abbrev mapper : AppData
mapper = record { id = codes "map"; proc = some process }

abbrev loaded_layer : Layer
loaded_layer = (load_app_plugin (some (codes "/bin/child")) 42 (codes "map") empty_layer).0

loaded_layer-IsRegistry : IsRegistry loaded_layer
loaded_layer-IsRegistry = unfold load_app_plugin in (load-IsRegistry_lem)
  where
    load-IsRegistry_lem :
        IsRegistry
          (load
            (codes "app_plugin")
            true
            (some (codes "/bin/child"))
            42
            (codes "map")
            empty_layer).0
    load-IsRegistry_lem =
        (load-IsRegistry (codes "app_plugin") true (some (codes "/bin/child")) 42 (codes "map")
          empty_layer empty_layer-IsRegistry).0

-- The process runs on for longer than the wait.
abbrev pub stubborn : List (Bool × ℕ)
stubborn = (true, 900) ∷ (true, 2100) ∷ []

next_desired-phase_example :
    (k : ℕ) × (next_desired 10 57 20 ≡ 20 + k * 10)
    × (1 ≤ k)
    × (57 ≤ 20 + k * 10)
    × ((j : ℕ) → 1 ≤ j → 57 < 20 + j * 10 → k ≤ j)
next_desired-phase_example = next_desired-phase 10 57 20 (omega arith)

-- one poll a second, for two seconds
abbrev slow_polls : List (Bool × ℕ)
slow_polls = (true, 1000) ∷ (true, 2100) ∷ []

slow_polls-IsLong : IsLong 1000 slow_polls
slow_polls-IsLong = (slept _ _ (omega arith) (slept _ _ (omega arith) done), omega arith)

close_ends_example :
    (s' : Layer) × (close [] (λ key. slow_polls) loaded_layer ≡ some s')
    × ((name : Text) → find name s'.plugins ≡ none)
close_ends_example =
    close_ends [] (λ key. slow_polls) loaded_layer 1000 (omega arith) loaded_layer-IsRegistry
      (unfold load_app_plugin keys_of new_manager in ground arith) (λ name. slow_polls-IsLong)
