-- ===== src/Examples/Events.antt =====
-- Event notifiers, a listener over a list as its circular buffer, and the queue of an orchestrator.
use dls.Common.{
  true, false, Text, nat_eq, ℕ, ◌+◌, ◌-◌, ◌*◌, ◌<◌, ◌≡◌, refl, some, List, [], ◌∷◌, ◌++◌, arith,
  codes, length, drop, get_elem?, if◌then◌else◌, ltb,
}
use dls.Common.Map.{find}
use dls.Registry.{Process, AppData}
use dls.Registry.Health.{stopped_keys, message, check_app_data, check_app_data-first}
use dls.Log.{RobustEventNotifier, EventLog, process_died, error, new_robust_notifier, notify_robust}
use dls.Log.Spam.{Report, notify_all, Spaced, newest, notify_all-Spaced, notify_robust-fresh}
use dls.Log.Order.{Ordered, compare_events}
use dls.Log.Listener.{CircularBuffer, listen, new_listener, read_events, read_events-newest}
use dls.Log.Orchestrator.{
  OrchestratorBase, collect_times, collect_times-length, events_to_publish, events_to_publish-top,
  Above,
}

abbrev died : ℕ → Report
died now = record {
  event_id = process_died;
  severity = error;
  message = codes "walk is not running";
  now = now;
  stamp = now + 1000;
}

-- Two reports that are 10 apart and a third one, with a threshold of 250.
abbrev reports : List Report
reports = died 100 ∷ died 110 ∷ died 400 ∷ []

two_published :
    length (notify_all reports (new_robust_notifier (codes "supervisor") 250)).base.published ≡ 2
unfolding notify_all new_robust_notifier
two_published = refl

notify_all-Spaced_example :
    Spaced 250 (notify_all reports (new_robust_notifier (codes "supervisor") 250)).base.published
notify_all-Spaced_example = notify_all-Spaced (codes "supervisor") 250 reports (omega arith)

notify_robust-fresh_example :
    let n = notify_all reports (new_robust_notifier (codes "supervisor") 250) in
    let n' = notify_robust process_died error (codes "walk is not running") 420 1420 n in
    (t : ℕ) × (newest process_died n'.base.published ≡ some t) × (420 < t + 250)
notify_robust-fresh_example =
    notify_robust-fresh (died 420) (codes "supervisor") 250 reports (omega arith)

-- A circular buffer with room for two elements.
abbrev two : CircularBuffer EventLog
two = record {
  Carrier = List EventLog;
  empty = [];
  push_back = λ a b. if ltb (length b) 2 then b ++ a ∷ [] else drop 1 (b ++ a ∷ []);
  at = get_elem?;
  capacity = 2;
  contents = λ b. b;
  contents-empty = refl;
  contents-push_back = λ a b. refl;
  at-contents = λ b i. refl;
}

abbrev event : ℕ → ℕ → EventLog
event severity at = record {
  component_name = codes "walk";
  event_id = 5;
  severity = severity;
  msg = [];
  sequence_id = at;
  timestamp = at;
}

abbrev events : List EventLog
events = event 1 10 ∷ event 3 11 ∷ event 2 12 ∷ []

read_events-newest_example :
    let l = listen two events (new_listener two) in
    read_events two 3 l ≡ some (record l { buffer_max_idx = 1 }, (event 3 11 ∷ event 2 12 ∷ [], 2))
read_events-newest_example = read_events-newest two events 3 (omega arith)

abbrev orchestrator : OrchestratorBase two
orchestrator = record {
  event_listener = listen two events (new_listener two);
  idx_read = 0;
  events_priority_queue = event 2 1 ∷ [];
}

collect_times-length_run :
    (o' : OrchestratorBase two) × (collect_times two 3 orchestrator ≡ some o')
    × Ordered o'.events_priority_queue
    × (length o'.events_priority_queue
        ≡ 3 * length (drop (length events - 2) events) + length orchestrator.events_priority_queue)
collect_times-length_run =
    collect_times-length two 3 events orchestrator (omega arith)
      (unfold listen in record { counted = refl; held = refl }) (tt, tt)

abbrev queue : List EventLog
queue = event 3 11 ∷ event 2 12 ∷ event 1 10 ∷ []

events_to_publish-top_run :
    Ordered (events_to_publish 2 queue) × Above (events_to_publish 2 queue) (drop 2 queue)
events_to_publish-top_run = events_to_publish-top 2 queue (unfold compare_events in ground arith)

-- Two processes have stopped.
abbrev gone : Process
gone = record { pid = 7; args = []; detached = true }

abbrev two_gone : List (Text × AppData)
two_gone =
    (codes "map", record { id = codes "map"; proc = some gone })
    ∷ (codes "plan", record { id = codes "plan"; proc = some gone })
    ∷ []

abbrev fresh : RobustEventNotifier
fresh = new_robust_notifier (codes "supervisor") 250

check_app_data-first_run :
    let n' =
      check_app_data true (λ p. false) (λ key. (600, 1600)) (codes "supervisor") two_gone fresh in
    (n'
      ≡ notify_robust process_died error
          (message (codes "supervisor") (codes "map"))
          600
          1600
          fresh)
    × (find process_died n'.last_event_pub_time ≡ some 600)
check_app_data-first_run =
    check_app_data-first (λ p. false) (λ key. (600, 1600)) (codes "supervisor") (codes "map")
      (codes "plan" ∷ []) two_gone fresh (unfold stopped_keys in refl)
      (unfold new_robust_notifier find in refl) (λ other. unfold new_robust_notifier in omega arith)
