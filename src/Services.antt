-- ===== src/Services.antt =====
-- modules/core_framework/src/service_layer.cpp: ServiceLayer, which launches services, data visualizers and
-- generic processes and keeps a map of each. The launches share Registry's body. The functions of its
-- commands are an argument of the constructor.
pub mod Closing
use dls.Common.{
  ℕ, ◌≡◌, refl, Bool, true, false, not, Option, none, some, List, [], ◌∷◌, map, if◌then◌else◌, Text,
  codes, text_eq, length, ◌==◌, nat_eq, ◌&&◌,
}
use dls.Common.Map.{find, contains, erase}
use dls.Command.{with_args, without_args}
use dls.CommandManager.{CommandManager, ◌>>=◌, new_manager, add_command}
use dls.CommandManager.Calls.{call_command}
use dls.Waiting.{wait}
use dls.Registry.{Process, AppData, Layer, load, exit_poll, keys_of}
use dls.Registry.Health.{check_app_data}
use dls.Log.{RobustEventNotifier}

pub record ServiceLayer : Type 0 where
  pub services : List (Text × AppData)
  pub data_visualizers : List (Text × AppData)
  pub generics : List (Text × AppData)
  pub command_manager : CommandManager
  pub robot_name : Text
  pub killed : List ℕ

-- the three maps
pub data Part : Type 0 where
  service : Part
  data_visualizer : Part
  generic : Part

abbrev pub part_of : Part → ServiceLayer → List (Text × AppData)
part_of service s = s.services
part_of data_visualizer s = s.data_visualizers
part_of generic s = s.generics

abbrev pub with_part : Part → List (Text × AppData) → ServiceLayer → ServiceLayer
with_part service m s = record s { services = m }
with_part data_visualizer m s = record s { data_visualizers = m }
with_part generic m s = record s { generics = m }

-- ServiceLayer(ID, robot_name): its commands
unfoldable pub new_service_layer : (Text → List Text → Bool) → Text → Text → ServiceLayer
unfolding new_manager add_command
new_service_layer run id robot_name =
    let add : Text → List (ℕ × ℕ) → CommandManager → CommandManager =
      λ name levels m. add_command with_args name 1 (run name) levels true m in
    let m0 = new_manager id in
    let m1 = add (codes "loadService") ((0, 1) ∷ (1, 1) ∷ []) m0 in
    let m2 = add (codes "unloadService") ((1, 0) ∷ []) m1 in
    let m3 = add (codes "loadDataVisualizer") ((0, 1) ∷ (1, 1) ∷ []) m2 in
    let m4 =
      add_command with_args (codes "unloadDataVisualizer") 0 (run (codes "unloadDataVisualizer"))
        ((1, 0) ∷ []) true m3 in
    let m5 = add (codes "loadProcedure") [] m4 in
    let m6 = add (codes "unloadProcedure") [] m5 in
    let m7 = add (codes "loadGeneric") [] m6 in
    let m8 = add (codes "unloadGeneric") [] m7 in
    record {
      services = [];
      data_visualizers = [];
      generics = [];
      command_manager = m8;
      robot_name = robot_name;
      killed = [];
    }

-- a load into one of the maps; `robot` is the last argument of the child
unfoldable pub load_part :
    Part → Text → Bool → Text → Option Text → ℕ → Text → ServiceLayer → ServiceLayer × Bool
unfolding load
load_part part kind detach robot launcher pid name s =
    let view : Layer = record {
      plugins = part_of part s;
      command_manager = s.command_manager;
      robot_name = robot;
      killed = s.killed;
    } in
    let (view', loaded) = load kind detach launcher pid name view in
    (with_part part view'.plugins s, loaded)

-- loadService(lib_name)
unfoldable pub load_service : Option Text → ℕ → Text → ServiceLayer → ServiceLayer × Bool
unfolding load_part
load_service launcher pid lib_name s =
    load_part service (codes "service") false [] launcher pid lib_name s

-- loadDataVisualizer(lib_name)
unfoldable pub load_data_visualizer : Option Text → ℕ → Text → ServiceLayer → ServiceLayer × Bool
unfolding load_part
load_data_visualizer launcher pid lib_name s =
    load_part data_visualizer (codes "data_visualizer") false s.robot_name launcher pid lib_name s

-- loadGeneric(name)
unfoldable pub load_generic : Option Text → ℕ → Text → ServiceLayer → ServiceLayer × Bool
unfolding load_part
load_generic launcher pid name s =
    load_part generic (codes "generic") true s.robot_name launcher pid name s

-- the body that the unloads share; `none` while the wait runs, or where the call or the process is undefined
unfoldable pub unload_part :
    Part → List (Text × Text) → List (Bool × ℕ) → Text → ServiceLayer → Option (ServiceLayer × Bool)
unfolding find erase call_command wait
unload_part part cmds polls id s = elim (find id (part_of part s)) [
  | none ↦ some (s, false)
  | some data_ ↦ do
    (m, count) ← call_command (codes "shutdown") [] id cmds s.command_manager
    process ← data_.proc
    exited ← wait not 2000 (map exit_poll polls)
    some (
      with_part part (erase id (part_of part s)) (record s {
        command_manager = m;
        killed = if exited then s.killed else process.pid ∷ s.killed;
      }),
      true,
    )
]

-- unloadService(ID), unloadDataVisualizer(ID), unloadGeneric(name)
unfoldable pub unload_service :
    List (Text × Text) → List (Bool × ℕ) → Text → ServiceLayer → Option (ServiceLayer × Bool)
unfolding unload_part
unload_service cmds polls id s = unload_part service cmds polls id s

unfoldable pub unload_data_visualizer :
    List (Text × Text) → List (Bool × ℕ) → Text → ServiceLayer → Option (ServiceLayer × Bool)
unfolding unload_part
unload_data_visualizer cmds polls id s = unload_part data_visualizer cmds polls id s

unfoldable pub unload_generic :
    List (Text × Text) → List (Bool × ℕ) → Text → ServiceLayer → Option (ServiceLayer × Bool)
unfolding unload_part
unload_generic cmds polls name s = unload_part generic cmds polls name s

-- numOfServices(), numOfDataVisualizers()
unfoldable pub num_of_services : ServiceLayer → ℕ
num_of_services s = length s.services

unfoldable pub num_of_data_visualizers : ServiceLayer → ℕ
num_of_data_visualizers s = length s.data_visualizers

-- the functions of the commands "unloadService" and "unloadDataVisualizer": whether the last one has gone
unfoldable pub unload_last_service :
    List (Text × Text) → List (Bool × ℕ) → Text → ServiceLayer → Option (ServiceLayer × Bool)
unfolding unload_service num_of_services
unload_last_service cmds polls id s = do
  (s', unloaded) ← unload_service cmds polls id s
  some (s', unloaded && num_of_services s' == 0)

unfoldable pub unload_last_data_visualizer :
    List (Text × Text) → List (Bool × ℕ) → Text → ServiceLayer → Option (ServiceLayer × Bool)
unfolding unload_data_visualizer num_of_data_visualizers
unload_last_data_visualizer cmds polls id s = do
  (s', unloaded) ← unload_data_visualizer cmds polls id s
  some (s', unloaded && num_of_data_visualizers s' == 0)

-- monitor()
unfoldable pub monitor :
    Bool
    → (Process → Bool)
    → (Part → Text → ℕ × ℕ)
    → Text
    → ServiceLayer
    → RobustEventNotifier
    → RobustEventNotifier
unfolding check_app_data
monitor enable running clock id s n =
    let n1 = check_app_data enable running (clock service) id s.services n in
    let n2 = check_app_data enable running (clock data_visualizer) id s.data_visualizers n1 in
    check_app_data enable running (clock generic) id s.generics n2

-- a loop of close(): the iterator stands on a key, which the map must still hold when it moves on
unfoldable pub close_keys :
    Part
    → List (Text × Text)
    → (Text → List (Bool × ℕ))
    → List Text
    → ServiceLayer
    → Option ServiceLayer
unfolding unload_part find
close_keys part cmds polls [] s = some s
close_keys part cmds polls (key ∷ keys) s = do
  (s', unloaded) ← unload_part part cmds (polls key) key s
  if contains key (part_of part s') then close_keys part cmds polls keys s' else none

-- close()
unfoldable pub close :
    List (Text × Text) → (Text → List (Bool × ℕ)) → ServiceLayer → Option ServiceLayer
unfolding close_keys keys_of
close cmds polls s = do
  s1 ← close_keys service cmds polls (keys_of s.services) s
  s2 ← close_keys data_visualizer cmds polls (keys_of s1.data_visualizers) s1
  close_keys generic cmds polls (keys_of s2.generics) s2
