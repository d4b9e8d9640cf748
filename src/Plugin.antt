-- ===== src/Plugin.antt =====
-- modules/plugin/src/periodic_app_plugin.cpp: the activation check and childMonitor of a plugin, over the
-- checks of PeriodicApp, the topic monitor of Topics and the notifier of Log. What the signals' library
-- finds of the inputs and outputs, the texts of numbers and the times of a notification, by its
-- event and its index in a loop, are arguments; so is what Topics and PeriodicApp take as such. An
-- exception is `none`.
pub mod Reports
pub mod Monitor
use dls.Common.{
  ℕ, zero, suc, ◌+◌, Bool, true, false, ◌&&◌, not, Option, none, some, List, [], ◌∷◌, ◌++◌, Text,
  codes, if◌then◌else◌, ◌==◌, nat_eq, text_eq, length,
}
use dls.CommandManager.{◌>>=◌}
use dls.Log.{RobustEventNotifier}
use dls.Window.{ℤ}
use dls.Topics.{
  InputInfo, InputTopicInfo, TopicMonitor, init, inputs_map_size, are_topics_sync,
  check_desired_frequency, get_input_topic_info,
}
use dls.PeriodicApp.{ChildConfig, StatusMsg, notify_if, child_monitor}

abbrev pub missing_input : ℕ
missing_input = 3

abbrev pub inputs_not_synchronized : ℕ
inputs_not_synchronized = 6

abbrev pub wrong_input_frequency : ℕ
wrong_input_frequency = 7

abbrev pub wrong_sequence_id : ℕ
wrong_sequence_id = 8

-- the part of SafetyLayerConfig that childMonitor uses
pub record PluginConfig : Type 0 where
  pub child : ChildConfig
  pub enable_missing_input : Bool
  pub enable_inputs_not_synchronized : Bool
  pub enable_wrong_input_frequency : Bool
  pub enable_wrong_sequence_id : Bool

pub record PeriodicAppPlugin : Type 0 where
  pub id : Text
  pub inputs_map : List (Text × ℕ)
  pub input_info : List InputInfo
  pub topic_monitor : TopicMonitor
  pub initialized : Bool
  pub robust_event_notifier : RobustEventNotifier
  pub missing_inputs : Text
  pub common_outputs : Text
  pub activation_message : Text
  pub input_topic_info : List InputTopicInfo
  pub inputs_synchronized : Bool

-- basicActivationChecks(), which is checkActivation(): areInputsReceivingData() and
-- areOutputsUnique() answer and say what they have found; the second is called after a true alone
unfoldable pub basic_activation_checks :
    Bool × Text → Bool × Text → PeriodicAppPlugin → PeriodicAppPlugin × Bool
basic_activation_checks (receiving, missing) (unique, common) p =
    let common' = if receiving then common else p.common_outputs in
    let message =
      p.activation_message
      ++ (if missing == [] then [] else codes "Missing inputs: " ++ (missing ++ codes "\n")) in
    let message' =
      message
      ++ (if common' == []
          then []
          else codes "There is at list another writer publishing on the topics: "
            ++ (common' ++ codes "\n")) in
    (
      record p {
        missing_inputs = missing;
        common_outputs = common';
        activation_message = message';
      },
      receiving && unique,
    )

module _ (show_nat : ℕ → Text) (show_frequency : ℕ × ℕ → Text) (id : Text)
    (clock : ℕ → ℕ → ℕ × ℕ) where
  abbrev pub sequence_message : InputInfo → Text
  sequence_message info =
      id
      ++ (codes " app detected wrong sequence id from topic "
          ++ (info.topic_name
              ++ (codes " (missed " ++ (show_nat info.missed_sequence_ids ++ codes ")\n"))))

  -- the loop over the inputs that have missed messages
  unfoldable pub report_sequence_ids :
      ℕ → List InputInfo → RobustEventNotifier → RobustEventNotifier
  unfolding notify_if
  report_sequence_ids i [] n = n
  report_sequence_ids i (info ∷ infos) n = report_sequence_ids (suc i) infos (
      notify_if (not (info.missed_sequence_ids == 0)) wrong_sequence_id (sequence_message info)
        (clock wrong_sequence_id i) n)

  abbrev pub frequency_message : InputTopicInfo → Text
  frequency_message info =
      id
      ++ (codes " app detected unexpected input frequency ("
          ++ (show_frequency info.current_freq
              ++ (codes " Hz vs "
                  ++ (show_frequency (info.desired_freq, 1)
                      ++ (codes " Hz) on topic " ++ (info.topic_name ++ codes "\n"))))))

  -- the loop over nominalFrequency, with the topic of each index
  unfoldable pub report_frequencies :
      ℕ → List Bool → List InputTopicInfo → RobustEventNotifier → Option RobustEventNotifier
  unfolding notify_if
  report_frequencies i [] infos n = some n
  report_frequencies i (nominal ∷ rest) [] n =
      let later = report_frequencies (suc i) rest [] n in if nominal then later else none
  report_frequencies i (nominal ∷ rest) (info ∷ infos) n = report_frequencies (suc i) rest infos (
      notify_if (not nominal) wrong_input_frequency (frequency_message info)
        (clock wrong_input_frequency i) n)

  module _ {Frequency : Type 0} (config : PluginConfig) (text : StatusMsg Frequency → ℕ → Text)
      (is_nominal : InputTopicInfo → Bool) (inverse : ℕ → ℤ) where
    -- the notifier after PeriodicApp::childMonitor and the checks before the topic monitor's
    unfoldable pub report_inputs :
        StatusMsg Frequency → PeriodicAppPlugin → Bool × RobustEventNotifier
    unfolding child_monitor report_sequence_ids notify_if
    report_inputs status p =
        let (initialized, n0) =
          child_monitor config.child text (λ e. clock e 0) status
            (p.initialized, p.robust_event_notifier) in
        let n1 =
          if config.enable_wrong_sequence_id then report_sequence_ids 0 p.input_info n0 else n0 in
        (
          initialized,
          notify_if (config.enable_missing_input && not (p.missing_inputs == [])) missing_input
              (id
                ++ (codes " app detected missing input topic " ++ (p.missing_inputs ++ codes "\n")))
              (clock missing_input 0) n1,
        )

    -- the topic monitor, made new where the map of the inputs has changed its size
    unfoldable pub current_monitor : PeriodicAppPlugin → TopicMonitor
    unfolding init inputs_map_size
    current_monitor p =
        if inputs_map_size p.topic_monitor == length p.inputs_map
        then p.topic_monitor
        else init p.inputs_map p.input_info p.topic_monitor

    -- childMonitor()
    unfoldable pub monitor_plugin :
        StatusMsg Frequency → PeriodicAppPlugin → Option PeriodicAppPlugin
    unfolding report_inputs current_monitor get_input_topic_info check_desired_frequency
        report_frequencies are_topics_sync notify_if
    monitor_plugin status p = do
      let (initialized, n2) = report_inputs status p
      (m, infos) ← get_input_topic_info inverse p.input_info (current_monitor p)
      nominal ←
          if config.enable_wrong_input_frequency
          then check_desired_frequency is_nominal m
          else some []
      n3 ← report_frequencies 0 nominal infos n2
      synchronized ← are_topics_sync p.input_info m
      some (record p {
        topic_monitor = m;
        initialized = initialized;
        robust_event_notifier =
            notify_if (config.enable_inputs_not_synchronized && not synchronized)
              inputs_not_synchronized (id ++ codes " app detected not synchronized input topics\n")
              (clock inputs_not_synchronized 0) n3;
        input_topic_info = infos;
        inputs_synchronized = synchronized;
      })
