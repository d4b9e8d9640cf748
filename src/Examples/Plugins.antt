-- ===== src/Examples/Plugins.antt =====
-- A round of a plugin's monitor in which one input has missed messages and another never came.
use dls.Common.{ℕ, ◌≡◌, refl, true, false, Option, none, some, List, [], ◌∷◌, ◌++◌, Text, codes}
use dls.Log.{new_robust_notifier}
use dls.Window.{pos}
use dls.Topics.{InputInfo, are_topics_sync, new_topic_monitor}
use dls.PeriodicApp.{StatusMsg}
use dls.PeriodicApp.Anomalies.{ids}
use dls.Plugin.{PluginConfig, PeriodicAppPlugin, monitor_plugin}
use dls.Plugin.Reports.{AllHold}
use dls.Plugin.Monitor.{AllTold, reasons, monitor_plugin-reports}

abbrev config : PluginConfig
config = record {
  child = record {
    spam_threshold = 200;
    enable_wrong_process_frequency = true;
    enable_cpu_usage_too_high = true;
    enable_mem_usage_too_high = false;
    process_cpu_threshold = 300;
    mem_threshold = 100;
  };
  enable_missing_input = true;
  enable_inputs_not_synchronized = true;
  enable_wrong_input_frequency = true;
  enable_wrong_sequence_id = true;
}

abbrev lidar : InputInfo
lidar = record {
  topic_name = codes "lidar";
  latest_period_ms = 10;
  missed_sequence_ids = 2;
  latest_timestamp = 5;
  reader = none;
}

abbrev plugin : PeriodicAppPlugin
plugin = record {
  id = codes "mapper";
  inputs_map = (codes "lidar", 0) ∷ [];
  input_info = lidar ∷ [];
  topic_monitor = new_topic_monitor 500 [] [] [];
  initialized = false;
  robust_event_notifier = new_robust_notifier (codes "mapper") 250;
  missing_inputs = codes "camera ";
  common_outputs = [];
  activation_message = [];
  input_topic_info = [];
  inputs_synchronized = false;
}

abbrev status : StatusMsg ℕ
status = record {
  current_frequency = 9;
  desired_frequency = 100;
  realtime = false;
  cpu_usage = (10, 1);
  mem_usage = (1, 2);
}

abbrev show : ℕ → Text
show n = n ∷ []

abbrev show_quotient : ℕ × ℕ → Text
show_quotient q = q.0 ∷ q.1 ∷ []

abbrev times : ℕ → ℕ → ℕ × ℕ
times event_id i = (1000, 7)

abbrev run : Option PeriodicAppPlugin
run =
    monitor_plugin show show_quotient (codes "mapper") times config (λ s event_id. [])
      (λ info. true) (λ period. pos 100) status plugin

abbrev or_before : Option PeriodicAppPlugin → PeriodicAppPlugin
or_before none = plugin
or_before (some p) = p

abbrev after : PeriodicAppPlugin
after = or_before run

reported_run : ids after.robust_event_notifier.base.published ≡ 3 ∷ 8 ∷ 2 ∷ []
unfolding monitor_plugin new_topic_monitor new_robust_notifier
reported_run = refl

monitor_plugin-reports_example :
    let rs =
      reasons show show_quotient
        (codes "mapper")
        times
        config
        (λ s event_id. [])
        (λ info. true)
        (λ period. pos 100)
        status
        plugin
        after in
    ((added : List ℕ) × (ids after.robust_event_notifier.base.published
        ≡ added ++ ids plugin.robust_event_notifier.base.published)
      × AllHold rs added)
    × AllTold rs after.robust_event_notifier
    × (are_topics_sync plugin.input_info after.topic_monitor ≡ some after.inputs_synchronized)
monitor_plugin-reports_example =
    monitor_plugin-reports show show_quotient (codes "mapper") times config (λ s event_id. [])
      (λ info. true) (λ period. pos 100) status plugin after
      (unfold monitor_plugin new_topic_monitor new_robust_notifier in refl)
