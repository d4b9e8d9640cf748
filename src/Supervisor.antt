-- ===== src/Supervisor.antt =====
-- modules/supervisor/src/supervisor.cpp, beside the loads of Registry: the monitor of the supervisor,
-- what it knows of the layers, and the text of its command "info". The texts of a usage and of an index,
-- the participants of the DDS domain and the times of a notification are arguments; a usage is a
-- quotient of whole numbers.
pub mod Hardware
pub mod Commands
pub mod Procedure
pub mod Registered
pub mod Ending
use dls.Common.{
  ℕ, zero, suc, ◌+◌, ◌*◌, Bool, true, false, ◌&&◌, ◌||◌, List, [], ◌∷◌, ◌++◌, if◌then◌else◌, ltb,
  leb, ◌==◌, text_eq, take, length, Text, codes,
}
use dls.Command.{with_args}
use dls.CommandManager.{CommandManager, add_command}
use dls.Log.{RobustEventNotifier, notify_robust}
use dls.Registry.{Process, AppData}
use dls.Registry.Health.{check_app_data}

abbrev pub warning : ℕ
warning = 1

abbrev pub cpu_usage_too_high : ℕ
cpu_usage_too_high = 4

abbrev pub mem_usage_too_high : ℕ
mem_usage_too_high = 5

-- the part of SafetyLayerConfig that is used
pub record SafetyLayerConfig : Type 0 where
  pub enable_cpu_usage_too_high : Bool
  pub enable_mem_usage_too_high : Bool
  pub system_cpu_threshold : ℕ
  pub mem_threshold : ℕ

-- usage > threshold
abbrev pub exceeds : ℕ × ℕ → ℕ → Bool
exceeds (numerator, denominator) threshold = ltb (threshold * denominator) numerator

-- s.find(part) != npos
unfoldable pub has_part : Text → Text → Bool
has_part part [] = part == []
has_part part (c ∷ cs) = has_part part cs || take (length part) (c ∷ cs) == part

-- getNumLayers()
unfoldable pub get_num_layers : List Text → ℕ
unfolding has_part
get_num_layers [] = 0
get_num_layers (s ∷ participants) =
    if has_part (codes "Layer") s
    then suc (get_num_layers participants)
    else get_num_layers participants

-- containsLayer(name)
unfoldable pub contains_layer : Text → List Text → Bool
contains_layer name [] = false
contains_layer name (s ∷ participants) = s == name || contains_layer name participants

-- the text that "info" logs, from getAppStates()
unfoldable pub info_lines : List (Text × (Text × Bool)) → Text
info_lines [] = []
info_lines ((key, (state, realtime)) ∷ rest) =
    key
    ++ (codes " "
        ++ (state
            ++ (codes " "
                ++ ((if realtime then codes "RT" else codes "NRT") ++ (10 ∷ info_lines rest)))))

unfoldable pub info : List (Text × (Text × Bool)) → Text
unfolding info_lines
info app_states = 10 ∷ info_lines app_states

module _ (config : SafetyLayerConfig) (show_index : ℕ → Text) (show_usage : ℕ × ℕ → Text)
    (id : Text) where
  unfoldable pub cpu_message : ℕ → ℕ × ℕ → Text
  cpu_message i usage =
      id
      ++ (codes ": overall cpu usage - on core n. "
          ++ (show_index i
              ++ (codes " - is "
                  ++ (show_usage usage
                      ++ (codes "(threshold is "
                          ++ (show_usage (config.system_cpu_threshold, 1) ++ codes ")"))))))

  unfoldable pub mem_message : ℕ × ℕ → Text
  mem_message usage =
      id
      ++ (codes ": overall memory usage is "
          ++ (show_usage usage
              ++ (codes " (threshold is " ++ (show_usage (config.mem_threshold, 1) ++ codes ")"))))

  -- checkHardware's loop over the cores, from the i-th on
  unfoldable pub check_cores :
      (ℕ → ℕ × ℕ) → ℕ → List (ℕ × ℕ) → RobustEventNotifier → RobustEventNotifier
  unfolding notify_robust cpu_message
  check_cores clock i [] n = n
  check_cores clock i (usage ∷ usages) n =
      let told =
        notify_robust cpu_usage_too_high warning (cpu_message i usage) (clock i).0 (clock i).1 n in
      if config.enable_cpu_usage_too_high && exceeds usage config.system_cpu_threshold
      then check_cores clock (suc i) usages told
      else check_cores clock (suc i) usages n

  unfoldable pub check_memory : ℕ × ℕ → ℕ × ℕ → RobustEventNotifier → RobustEventNotifier
  unfolding notify_robust mem_message
  check_memory (now, stamp) mem_usage n =
      if config.enable_mem_usage_too_high && exceeds mem_usage config.mem_threshold
      then notify_robust mem_usage_too_high warning (mem_message mem_usage) now stamp n
      else n

  -- checkHardware(), with what sys_monitor reports
  unfoldable pub check_hardware :
      (ℕ → ℕ × ℕ) → ℕ × ℕ → List (ℕ × ℕ) → ℕ × ℕ → RobustEventNotifier → RobustEventNotifier
  unfolding check_cores check_memory
  check_hardware clock mem_clock cpus_usage mem_usage n =
      check_memory mem_clock mem_usage (check_cores clock 0 cpus_usage n)

  -- monitor()
  unfoldable pub monitor :
      Bool
      → (Process → Bool)
      → (Text → ℕ × ℕ)
      → List (Text × AppData)
      → (ℕ → ℕ × ℕ)
      → ℕ × ℕ
      → List (ℕ × ℕ)
      → ℕ × ℕ
      → RobustEventNotifier
      → RobustEventNotifier
  unfolding check_app_data check_hardware
  monitor enable_died runs app_clock plugins clock mem_clock cpus_usage mem_usage n =
      check_hardware clock mem_clock cpus_usage mem_usage
        (check_app_data enable_died runs app_clock id plugins n)
