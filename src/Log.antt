-- ===== src/Log.antt =====
-- modules/log: the event notifiers of event_logger.cpp and the identifiers of event_config.hpp. An
-- identifier is its value on the wire; a published message is kept in a journal, newest
-- first, with the time of the call on the steady clock; its stamp is the time of the system clock.
-- Times are nanoseconds, and so is the spamming threshold, a floating-point number of milliseconds in the code.
pub mod Spam
pub mod Order
pub mod Listener
pub mod Orchestrator
pub mod Telemetry
use dls.Common.{
  ℕ, ◌+◌, ◌-◌, Bool, true, false, Option, none, some, List, [], ◌∷◌, Text, nat_eq, if◌then◌else◌,
  ltb, not,
}
use dls.Common.Map.{find, assign}

abbrev pub process_died : ℕ
process_died = 0

abbrev pub error : ℕ
error = 2

pub record EventLog : Type 0 where
  pub component_name : Text
  pub event_id : ℕ
  pub severity : ℕ
  pub msg : Text
  pub sequence_id : ℕ
  pub timestamp : ℕ

pub record EventNotifier : Type 0 where
  pub msg : EventLog
  pub published : List (ℕ × EventLog)

-- the constructor
unfoldable pub new_notifier : Text → EventNotifier
new_notifier name = record {
  msg = record {
    component_name = name;
    event_id = 0;
    severity = 0;
    msg = [];
    sequence_id = 0;
    timestamp = 0;
  };
  published = [];
}

-- EventNotifier::notify(event_id, severity, message)
unfoldable pub notify_event : ℕ → ℕ → Text → ℕ → ℕ → EventNotifier → EventNotifier
notify_event event_id severity message now stamp n =
    let m = record n.msg {
      event_id = event_id;
      severity = severity;
      msg = message;
      sequence_id = n.msg.sequence_id + 1;
      timestamp = stamp;
    } in
    record { msg = m; published = (now, m) ∷ n.published }

pub record RobustEventNotifier : Type 0 where
  pub base : EventNotifier
  pub last_event_pub_time : List (ℕ × ℕ)
  pub spamming_threshold : ℕ

unfoldable pub new_robust_notifier : Text → ℕ → RobustEventNotifier
unfolding new_notifier
new_robust_notifier name spamming_threshold = record {
  base = new_notifier name;
  last_event_pub_time = [];
  spamming_threshold = spamming_threshold;
}

-- setSpammingThreshold(spamming_threshold)
unfoldable pub set_spamming_threshold : ℕ → RobustEventNotifier → RobustEventNotifier
set_spamming_threshold spamming_threshold n = record n { spamming_threshold = spamming_threshold }

-- waitForMatch(), over what hasMatched() answers: the milliseconds slept; `none` while it waits
unfoldable pub wait_for_match : List Bool → Option ℕ
wait_for_match [] = none
wait_for_match (matched ∷ polls) =
    let rest = wait_for_match polls in
    if matched then some 0 else elim rest [ none ↦ none | some slept ↦ some (slept + 100) ]

-- RobustEventNotifier::notify(event_id, severity, message)
unfoldable pub notify_robust : ℕ → ℕ → Text → ℕ → ℕ → RobustEventNotifier → RobustEventNotifier
unfolding find assign notify_event
notify_robust event_id severity message now stamp n =
    let last_it = find event_id n.last_event_pub_time in
    let publish : Bool = elim last_it [
      | none ↦ true
      | some last ↦ not (ltb (now - last) n.spamming_threshold)
    ] in
    if publish
    then record n {
      base = notify_event event_id severity message now stamp n.base;
      last_event_pub_time = assign event_id now n.last_event_pub_time;
    }
    else n
