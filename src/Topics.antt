-- ===== src/Topics.antt =====
-- modules/plugin/src/topic_monitor.cpp: TopicMonitor, which watches the frequency and the
-- synchronisation of a plugin's inputs. A reader is what the code asks of it; the inverse of a period and the
-- test of the tolerance, in floating point, are parameters. A read past the end, an `at` that throws and a
-- null reader that is used give `none`.
pub mod Sync
pub mod Checks
use dls.Common.{
  ℕ, zero, suc, ◌+◌, ◌-◌, Bool, true, false, ◌&&◌, ◌||◌, not, Option, none, some, List, [], ◌∷◌,
  ◌++◌, Text, if◌then◌else◌, ltb, ◌==◌, nat_eq, text_eq, get_elem?, set, length,
}
use dls.Common.Map.{find, contains, assign}
use dls.CommandManager.{◌>>=◌}
use dls.Window.{NumericalMovingWindow, ℤ, new_window, push, mean}

pub record Reader : Type 0 where
  pub is_receiving_data : Bool
  pub topic_to_writer : List (Text × Text)

pub record InputInfo : Type 0 where
  pub topic_name : Text
  pub latest_period_ms : ℕ
  pub missed_sequence_ids : ℕ
  pub latest_timestamp : ℕ
  pub reader : Option Reader  -- a pointer that may be null

pub record InputTopicInfo : Type 0 where
  pub topic_name : Text
  pub desired_freq : ℕ
  pub current_freq : ℕ × ℕ
  pub missed_sequence_ids : ℕ

pub record TopicMonitor : Type 0 where
  pub frequencies_moving_windows : List (Text × NumericalMovingWindow)
  pub inputs_map : List (Text × ℕ)
  pub input_topic_infos : List InputTopicInfo
  pub sync_threshold : ℕ
  pub nodes_specs : List (Text × ℕ)
  pub enable_checks : List Bool

-- init's loop over the inputs
unfoldable pub init_inputs : List (Text × ℕ) → List InputInfo → TopicMonitor → TopicMonitor
unfolding assign new_window find
init_inputs inputs_map [] m = m
init_inputs inputs_map (topic_info ∷ rest) m =
    let topic = topic_info.topic_name in
    let info : InputTopicInfo = record {
      topic_name = topic;
      desired_freq = 0;
      current_freq = (0, 1);
      missed_sequence_ids = 0;
    } in
    let m' : TopicMonitor = record m {
      input_topic_infos = m.input_topic_infos ++ info ∷ [];
      enable_checks = m.enable_checks ++ false ∷ [];
      frequencies_moving_windows = assign topic (new_window 1000) m.frequencies_moving_windows;
    } in
    init_inputs inputs_map rest (if contains topic inputs_map then m' else m)

-- init(inputs_map, input_info)
unfoldable pub init : List (Text × ℕ) → List InputInfo → TopicMonitor → TopicMonitor
unfolding init_inputs
init inputs_map input_info m = init_inputs inputs_map input_info (record m {
  inputs_map = inputs_map;
  input_topic_infos = [];
  enable_checks = [];
  frequencies_moving_windows = [];
})

-- TopicMonitor(ID, max_exceeding_factor, inputs_map, input_info, safety_layer_config)
unfoldable pub new_topic_monitor :
    ℕ → List (Text × ℕ) → List (Text × ℕ) → List InputInfo → TopicMonitor
unfolding init
new_topic_monitor sync_threshold nodes_specs inputs_map input_info =
    init inputs_map input_info (record {
      frequencies_moving_windows = [];
      inputs_map = [];
      input_topic_infos = [];
      sync_threshold = sync_threshold;
      nodes_specs = nodes_specs;
      enable_checks = [];
    })

-- inputsMapSize()
unfoldable pub inputs_map_size : TopicMonitor → ℕ
inputs_map_size m = length m.inputs_map

-- areTopicsSync's search for the reference: the first input whose reader receives data
unfoldable pub reference : List InputInfo → Option (Option InputInfo)
reference [] = some none
reference (input ∷ inputs) = elim input.reader [
  | none ↦ none
  | some reader ↦ if reader.is_receiving_data then some (some input) else reference inputs
]

abbrev pub distance : ℕ → ℕ → ℕ
distance a b = (a - b) + (b - a)

-- areTopicsSync's loop; the reference itself is at no distance from itself
unfoldable pub all_near : ℕ → InputInfo → List InputInfo → Option Bool
all_near threshold input_reference [] = some true
all_near threshold input_reference (input ∷ inputs) = elim input.reader [
  | none ↦ none
  | some reader ↦
      let far = ltb threshold (distance input_reference.latest_timestamp input.latest_timestamp) in
      let rest = all_near threshold input_reference inputs in
      if reader.is_receiving_data && far then some false else rest
]

-- areTopicsSync(input_info)
unfoldable pub are_topics_sync : List InputInfo → TopicMonitor → Option Bool
unfolding reference all_near
are_topics_sync input_info m =
    if ltb 1 (length input_info)
    then elim (reference input_info) [
      | none ↦ none
      | some none ↦ some true
      | some (some input_reference) ↦ all_near m.sync_threshold input_reference input_info
    ]
    else some true

module _ (is_nominal : InputTopicInfo → Bool) where
  -- checkDesiredFrequency's loop; a frequency of 0 is not checked
  unfoldable pub check_infos : List Bool → List InputTopicInfo → Option (List Bool)
  check_infos checks [] = some []
  check_infos [] (info ∷ infos) = none
  check_infos (enabled ∷ checks) (info ∷ infos) = elim (check_infos checks infos) [
    | none ↦ none
    | some rest ↦
        some ((if enabled && ltb 0 info.current_freq.0 then is_nominal info else true) ∷ rest)
  ]

  -- checkDesiredFrequency()
  unfoldable pub check_desired_frequency : TopicMonitor → Option (List Bool)
  unfolding check_infos
  check_desired_frequency m = check_infos m.enable_checks m.input_topic_infos

module _ (inverse : ℕ → ℤ) where
  -- getActualFrequency(input_topic, period_ms), where the topic has its window
  unfoldable pub get_actual_frequency : Text → ℕ → TopicMonitor → Option (TopicMonitor × (ℕ × ℕ))
  unfolding find assign push mean
  get_actual_frequency topic period_ms m = elim (find topic m.frequencies_moving_windows) [
    | none ↦ none
    | some w ↦
        let w' = if ltb 0 period_ms then push (inverse period_ms) w else w in
        some (
          record m { frequencies_moving_windows = assign topic w' m.frequencies_moving_windows },
          mean w',
        )
  ]

  -- getInputTopicInfo's last part: the topic's desired frequency, once its writer is known
  unfoldable pub look_up_desired :
      Text
      → ℕ
      → Option Reader
      → TopicMonitor
      → InputTopicInfo
      → Option (TopicMonitor × InputTopicInfo)
  unfolding find
  look_up_desired topic idx none m info = some (m, info)
  look_up_desired topic idx (some reader) m info = elim (get_elem? m.enable_checks idx) [
    | none ↦ none
    | some true ↦ some (m, info)
    | some false ↦ elim (find topic reader.topic_to_writer) [
      | none ↦ some (m, info)
      | some writer ↦ elim (find writer m.nodes_specs) [
        | none ↦ some (record m { enable_checks = set m.enable_checks idx false }, info)
        | some desired ↦ some (
          record m { enable_checks = set m.enable_checks idx true },
          record info { desired_freq = desired },
        )
      ]
    ]
  ]

  -- getInputTopicInfo's loop body
  unfoldable pub update_info :
      List InputInfo → TopicMonitor → InputTopicInfo → Option (TopicMonitor × InputTopicInfo)
  unfolding find get_actual_frequency look_up_desired
  update_info input_info m info = elim (find info.topic_name m.inputs_map) [
    | none ↦ some (m, info)
    | some idx ↦ do
      item ← get_elem? input_info idx
      (m', frequency) ← get_actual_frequency info.topic_name item.latest_period_ms m
      look_up_desired info.topic_name idx item.reader m'
          (record info { current_freq = frequency; missed_sequence_ids = item.missed_sequence_ids })
  ]

  unfoldable pub update_infos :
      List InputInfo
      → TopicMonitor
      → List InputTopicInfo
      → Option (TopicMonitor × List InputTopicInfo)
  unfolding update_info
  update_infos input_info m [] = some (m, [])
  update_infos input_info m (info ∷ infos) = do
    (m', info') ← update_info input_info m info
    (m'', infos') ← update_infos input_info m' infos
    some (m'', info' ∷ infos')

  -- getInputTopicInfo(input_info)
  unfoldable pub get_input_topic_info :
      List InputInfo → TopicMonitor → Option (TopicMonitor × List InputTopicInfo)
  unfolding update_infos inputs_map_size
  get_input_topic_info input_info m =
      if ltb 0 (inputs_map_size m)
      then (do
        (m', infos) ← update_infos input_info m m.input_topic_infos
        some (record m' { input_topic_infos = infos }, infos))
      else some (m, m.input_topic_infos)
