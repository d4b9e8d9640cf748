-- ===== src/Examples/Clients.antt =====
-- A periodic app, the topics of a plugin, a service layer and a client of the parameter server.
use dls.Common.{
  ℕ, ◌-◌, ◌*◌, ◌≤◌, ◌≡◌, ◌≢◌, ◌↔◌, refl, Bool, true, false, none, some, List, [], ◌∷◌, arith, Text,
  codes, nat_eq, text_eq, get_elem?,
}
use dls.Common.Map.{find}
use dls.CommandManager.{new_manager}
use dls.Application.States.{Machine, AppState, new_machine}
use dls.PeriodicApp.{Realtime, is_realtime, ChildConfig, StatusMsg}
use dls.PeriodicApp.Timing.{check_rt_at, check_times, InBand, check_times-told}
use dls.PeriodicApp.Frequency.{told}
use dls.Topics.{
  Reader, InputInfo, InputTopicInfo, TopicMonitor, new_topic_monitor, distance, are_topics_sync,
}
use dls.Topics.Sync.{IsReceiving, are_topics_sync-near}
use dls.Window.{ℤ, pos}
use dls.Services.{ServiceLayer, close}
use dls.Services.Closing.{close_defined}
use dls.Parameters.{handle}
use dls.Parameters.Client.{
  ParameterClient, new_client, serve, set, get, set_request, get_request, get-set,
}

abbrev running_machine : Machine
running_machine = record (new_machine 3) {
  state = AppState.run;
  realtime = is_realtime;
  sent = (some AppState.run, true) ∷ [];
}

abbrev running_app : Realtime
running_app = record { sm = running_machine; realtime_prec = true; realtime_curr = true }

-- a period of 5 ms, with a tolerance of a tenth, and two loops of 5 and 6 ms
check_times-told_example :
    let before = check_times (1, 10) (200, 1) (6000000 ∷ []) (running_app, 1000000) in
    (told (check_rt_at (1, 10) (200, 1) 12000000 before).0.sm ≡ some true)
    ↔ InBand (1, 10) (200, 1) (12000000 - 6000000)
check_times-told_example =
    check_times-told 1 10 (200, 1) (6000000 ∷ []) 12000000 1000000 running_app (omega arith)
      (unfold is_realtime in refl) refl

abbrev child_config : ChildConfig
child_config = record {
  spam_threshold = 200;
  enable_wrong_process_frequency = true;
  enable_cpu_usage_too_high = true;
  enable_mem_usage_too_high = true;
  process_cpu_threshold = 80;
  mem_threshold = 50;
}

abbrev slow_status : StatusMsg ℕ
slow_status = record {
  current_frequency = 3;
  desired_frequency = 9;
  realtime = false;
  cpu_usage = (10, 1);
  mem_usage = (70, 1);
}

abbrev no_text : StatusMsg ℕ → ℕ → Text
no_text status event_id = []

abbrev at_seven : ℕ → ℕ × ℕ
at_seven event_id = (7, 8)

abbrev live : Reader
live = record { is_receiving_data = true; topic_to_writer = [] }

abbrev input : Text → ℕ → InputInfo
input topic at = record {
  topic_name = topic;
  latest_period_ms = 2;
  missed_sequence_ids = 0;
  latest_timestamp = at;
  reader = some live;
}

abbrev inputs : List InputInfo
inputs = input (codes "imu") 40 ∷ input (codes "arm") 43 ∷ []

abbrev monitor_of_arm : TopicMonitor
monitor_of_arm = new_topic_monitor 5 [] ((codes "arm", 1) ∷ []) inputs

are_topics_sync-near_example :
    (b : Bool) × (are_topics_sync inputs monitor_of_arm ≡ some b)
    × (b ≡ true
        → (i j : ℕ) (a c : InputInfo) → get_elem? inputs i ≡ some a
        → get_elem? inputs j ≡ some c
        → IsReceiving a
        → IsReceiving c
        → distance a.latest_timestamp c.latest_timestamp ≤ 2 * monitor_of_arm.sync_threshold)
are_topics_sync-near_example =
    are_topics_sync-near inputs monitor_of_arm (ground arith, (ground arith, tt))

abbrev arm_info : InputTopicInfo
arm_info = record {
  topic_name = codes "arm";
  desired_freq = 0;
  current_freq = (0, 1);
  missed_sequence_ids = 0;
}

abbrev inverse : ℕ → ℤ
inverse period = pos (1000 - period)

abbrev busy_layer : ServiceLayer
busy_layer = record {
  services = (codes "map", record { id = codes "map"; proc = none }) ∷ [];
  data_visualizers = [];
  generics = [];
  command_manager = new_manager (codes "services");
  robot_name = codes "hyq";
  killed = [];
}

abbrev no_polls : Text → List (Bool × ℕ)
no_polls key = []

close_defined_example :
    ((close [] no_polls busy_layer ≢ none) ↔ (
      (busy_layer.services ≡ []) × (busy_layer.data_visualizers ≡ []) × (busy_layer.generics ≡ [])))
    × ((close [] no_polls busy_layer ≡ some busy_layer) ↔ (
        (busy_layer.services ≡ [])
        × (busy_layer.data_visualizers ≡ [])
        × (busy_layer.generics ≡ [])))
close_defined_example = close_defined [] no_polls busy_layer

abbrev gain : Text
gain = codes "gain"

get-set_example :
    let (store, answers) = serve handle (set_request gain (codes "3") ∷ get_request gain ∷ []) [] in
    (a : Text × Bool) × (b : Text × Bool) × (c : ParameterClient) × (c' : ParameterClient)
    × (answers ≡ a ∷ b ∷ [])
    × (set gain (codes "3") [] (a ∷ []) new_client ≡ some c)
    × (get gain [] (b ∷ []) c ≡ some (c', codes "3"))
get-set_example = get-set gain (codes "3") [] new_client (unfold find in refl)
