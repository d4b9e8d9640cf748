-- ===== src/Registry.antt =====
-- The processes that a layer has launched: the loads and unloads of modules/supervisor/src/supervisor.cpp
-- and of the layers of modules/core_framework/src, which all keep a map from names to AppData. The
-- pid of a new process, the launcher's path (an environment variable) and whether a process runs at
-- each poll are arguments. The command manager of the layer sends the request to shut down.
pub mod Laws
pub mod Requests
pub mod Estimators
pub mod Closing
pub mod Ending
pub mod Handling
pub mod Health
use dls.Common.{
  ℕ, ◌≡◌, refl, Bool, true, false, not, Option, none, some, List, [], ◌∷◌, map, if◌then◌else◌, Text,
  codes, text_eq,
}
use dls.Common.Map.{find, contains, emplace, erase}
use dls.CommandManager.{CommandManager, ◌>>=◌}
use dls.CommandManager.Calls.{call_command}
use dls.Waiting.{Poll, wait}

pub record Process : Type 0 where
  pub pid : ℕ
  pub args : List Text
  pub detached : Bool

pub record AppData : Type 0 where
  pub id : Text
  pub proc : Option Process

pub record Layer : Type 0 where
  pub plugins : List (Text × AppData)
  pub command_manager : CommandManager
  pub robot_name : Text
  pub killed : List ℕ

-- the body that the loads share: `kind` names what the child process is to load
unfoldable pub load : Text → Bool → Option Text → ℕ → Text → Layer → Layer × Bool
unfolding find emplace
load kind detach launcher pid name s =
    if contains name s.plugins then (s, false) else elim launcher [
      | none ↦ (s, false)
      | some path ↦
          let process : Process = record {
            pid = pid;
            args = path ∷ name ∷ name ∷ kind ∷ s.robot_name ∷ [];
            detached = detach;
          } in
          let data_ : AppData = record { id = name; proc = some process } in
          (record s { plugins = emplace name data_ s.plugins }, true)
    ]

-- Supervisor::loadPeriodicAppPlugin, loadPythonPeriodicApp, loadAppPlugin
unfoldable pub load_periodic_app_plugin : Option Text → ℕ → Text → Layer → Layer × Bool
unfolding load
load_periodic_app_plugin launcher pid name s =
    load (codes "periodic_app_plugin") true launcher pid name s

unfoldable pub load_python_periodic_app : Option Text → ℕ → Text → Layer → Layer × Bool
unfolding load
load_python_periodic_app launcher pid name s =
    load (codes "python_periodic_app") true launcher pid name s

unfoldable pub load_app_plugin : Option Text → ℕ → Text → Layer → Layer × Bool
unfolding load
load_app_plugin launcher pid name s = load (codes "app_plugin") true launcher pid name s

-- EstimationLayer::loadEstimator, which does not detach the process
unfoldable pub load_estimator : Option Text → ℕ → Text → Layer → Layer × Bool
unfolding load
load_estimator launcher pid lib_name s = load (codes "estimator") false launcher pid lib_name s

-- what utils::wait polls: the mark `unloaded` is local and stays false
abbrev pub exit_poll : Bool × ℕ → Poll Bool
exit_poll (running, later) = record { stop = false; world = running; later = later }

-- the body that the unloads share; `none` while the wait runs, or where the call or the process is undefined
unfoldable pub unload : List (Text × Text) → List (Bool × ℕ) → Text → Layer → Option (Layer × Bool)
unfolding find erase call_command wait
unload cmds polls name s = elim (find name s.plugins) [
  | none ↦ some (s, false)
  | some data_ ↦ do
    (m, count) ← call_command (codes "shutdown") [] data_.id cmds s.command_manager
    process ← data_.proc
    exited ← wait not 2000 (map exit_poll polls)
    some (
      record s {
        command_manager = m;
        killed = if exited then s.killed else process.pid ∷ s.killed;
        plugins = erase data_.id s.plugins;
      },
      true,
    )
]

-- Supervisor::unloadAppPlugin, unloadPeriodicAppPlugin, EstimationLayer::unloadEstimator
unfoldable pub unload_app_plugin :
    List (Text × Text) → List (Bool × ℕ) → Text → Layer → Option (Layer × Bool)
unfolding unload
unload_app_plugin cmds polls name s = unload cmds polls name s

unfoldable pub unload_periodic_app_plugin :
    List (Text × Text) → List (Bool × ℕ) → Text → Layer → Option (Layer × Bool)
unfolding unload
unload_periodic_app_plugin cmds polls name s = unload cmds polls name s

unfoldable pub unload_estimator :
    List (Text × Text) → List (Bool × ℕ) → Text → Layer → Option (Layer × Bool)
unfolding unload
unload_estimator cmds polls name s = unload cmds polls name s

-- EstimationLayer::close(): the keys are collected first, then unloaded one after another
unfoldable pub keys_of : List (Text × AppData) → List Text
keys_of [] = []
keys_of ((key, data_) ∷ rest) = key ∷ keys_of rest

unfoldable pub unload_keys :
    List (Text × Text) → (Text → List (Bool × ℕ)) → List Text → Layer → Option Layer
unfolding unload_estimator
unload_keys cmds polls [] s = some s
unload_keys cmds polls (key ∷ keys) s = do
  (s', unloaded) ← unload_estimator cmds (polls key) key s
  unload_keys cmds polls keys s'

unfoldable pub close : List (Text × Text) → (Text → List (Bool × ℕ)) → Layer → Option Layer
unfolding unload_keys keys_of
close cmds polls s = unload_keys cmds polls (keys_of s.plugins) s
