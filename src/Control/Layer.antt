-- ===== src/Control/Layer.antt =====
-- modules/core_framework/src/control_layer.cpp.in: the maps of controllers and motion generators, their
-- loads and unloads, and the commands that reach these. The pid of a new process, the commands that
-- DDS discovers and whether a process runs at each poll are arguments; `runtime_dir` is the
-- directory that the build fills in. Each critical section is one step.
use dls.Common.{
  ℕ, Bool, true, false, not, ◌&&◌, Option, none, some, List, [], ◌∷◌, ◌++◌, map, if◌then◌else◌,
  Text, codes, text_eq, nat_eq,
}
use dls.Common.Map.{find, contains, emplace, erase}
use dls.CommandManager.{CommandManager, ◌>>=◌, change_level}
use dls.CommandManager.Calls.{call_command}
use dls.Registry.{Process, AppData, exit_poll}
use dls.Waiting.{wait}

pub record ControlLayer : Type 0 where
  pub controllers : List (Text × AppData)
  pub motion_generators : List (Text × AppData)
  pub closing : Bool
  pub command_manager : CommandManager
  pub robot_name : Text
  pub killed : List ℕ

-- boost::process::child of the launcher, detached
unfoldable pub launch : Text → ℕ → Text → Text → Text → Process
launch runtime_dir pid kind name robot = record {
  pid = pid;
  args = (runtime_dir ++ codes "/child_process_launcher") ∷ name ∷ name ∷ kind ∷ robot ∷ [];
  detached = true;
}

-- the controllers' map with a new entry; no process for an external controller
unfoldable pub add_controller : Option Process → Text → ControlLayer → ControlLayer
unfolding emplace
add_controller proc name s = record s {
  controllers = emplace name (record { id = name; proc = proc }) s.controllers;
}

-- loadController(lib_name)
unfoldable pub load_controller : Text → ℕ → Text → ControlLayer → ControlLayer × Bool
unfolding find add_controller launch
load_controller runtime_dir pid lib_name s =
    if s.closing then (s, false) else if contains lib_name s.controllers then (s, false) else (
      add_controller (some (launch runtime_dir pid (codes "controller") lib_name s.robot_name))
          lib_name s,
      true,
    )

-- loadExternalController(lib_name)
unfoldable pub load_external_controller : Text → ControlLayer → ControlLayer × Bool
unfolding find add_controller
load_external_controller lib_name s =
    if s.closing
    then (s, false)
    else if contains lib_name s.controllers
    then (s, false)
    else (add_controller none lib_name s, true)

-- loadPythonController(lib_name): no test of closing_
unfoldable pub load_python_controller : Text → ℕ → Text → ControlLayer → ControlLayer × Bool
unfolding find add_controller launch
load_python_controller runtime_dir pid lib_name s =
    if contains lib_name s.controllers then (s, false) else (
      add_controller
          (some (launch runtime_dir pid (codes "python_periodic_app") lib_name s.robot_name))
          lib_name s,
      true,
    )

-- loadMotionGenerator(lib_name)
unfoldable pub load_motion_generator : Text → ℕ → Text → ControlLayer → ControlLayer × Bool
unfolding find emplace launch
load_motion_generator runtime_dir pid lib_name s =
    if s.closing
    then (s, false)
    else if contains lib_name s.motion_generators
    then (s, false)
    else let process = launch runtime_dir pid (codes "motion_generator") lib_name s.robot_name in
      let data_ : AppData = record { id = lib_name; proc = some process } in
      (record s { motion_generators = emplace lib_name data_ s.motion_generators }, true)

-- unloadController(pData), of an entry that the map has lost; `none` while the wait runs
unfoldable pub unload_controller_data :
    List (Text × Text) → List (Bool × ℕ) → AppData → ControlLayer → Option ControlLayer
unfolding call_command wait
unload_controller_data cmds polls data_ s = elim data_.proc [
  | none ↦ some s
  | some process ↦ do
    (m, count) ← call_command (codes "shutdown") [] data_.id cmds s.command_manager
    exited ← wait not 2000 (map exit_poll polls)
    some (record s {
      command_manager = m;
      killed = if exited then s.killed else process.pid ∷ s.killed;
    })
]

-- unloadMotionGenerator(pData), with the same body
unfoldable pub unload_motion_generator_data :
    List (Text × Text) → List (Bool × ℕ) → AppData → ControlLayer → Option ControlLayer
unfolding unload_controller_data
unload_motion_generator_data cmds polls data_ s = unload_controller_data cmds polls data_ s

-- unloadController(ID)
unfoldable pub unload_controller :
    List (Text × Text) → List (Bool × ℕ) → Text → ControlLayer → Option (ControlLayer × Bool)
unfolding find erase unload_controller_data
unload_controller cmds polls id s = elim (find id s.controllers) [
  | none ↦ some (s, false)
  | some data_ ↦ do
    s' ← unload_controller_data cmds polls data_ (record s { controllers = erase id s.controllers })
    some (s', true)
]

-- unloadExternalController(ID)
unfoldable pub unload_external_controller : Text → ControlLayer → ControlLayer × Bool
unfolding find erase
unload_external_controller id s = elim (find id s.controllers) [
  | none ↦ (s, false)
  | some data_ ↦ elim data_.proc [
    | some process ↦ (s, false)
    | none ↦ (record s { controllers = erase id s.controllers }, true)
  ]
]

-- unloadMotionGenerator(ID)
unfoldable pub unload_motion_generator :
    List (Text × Text) → List (Bool × ℕ) → Text → ControlLayer → Option (ControlLayer × Bool)
unfolding find erase unload_motion_generator_data
unload_motion_generator cmds polls id s = elim (find id s.motion_generators) [
  | none ↦ some (s, false)
  | some data_ ↦ do
    s' ←
        unload_motion_generator_data cmds polls data_
          (record s { motion_generators = erase id s.motion_generators })
    some (s', true)
]

-- the loops of close() over the entries swapped out of the maps
unfoldable pub unload_all :
    List (Text × Text)
    → (Text → List (Bool × ℕ))
    → List (Text × AppData)
    → ControlLayer
    → Option ControlLayer
unfolding unload_controller_data
unload_all cmds polls [] s = some s
unload_all cmds polls ((name, data_) ∷ rest) s = do
  s' ← unload_controller_data cmds (polls name) data_ s
  unload_all cmds polls rest s'

-- close()
unfoldable pub close :
    List (Text × Text) → (Text → List (Bool × ℕ)) → ControlLayer → Option ControlLayer
unfolding unload_all
close cmds polls s = do
  let emptied = record s { closing = true; motion_generators = []; controllers = [] }
  s' ← unload_all cmds polls s.motion_generators emptied
  unload_all cmds polls s.controllers s'

abbrev pub is_empty : List (Text × AppData) → Bool
is_empty [] = true
is_empty (entry ∷ rest) = false

-- the commands of the constructor that change the maps; those that every App has are not among them
-- (Control/Inherited)
pub data Request : Type 0 where
  load_generator : ℕ → Text → Request
  unload_generator : List (Bool × ℕ) → Text → Request
  load : ℕ → Text → Request
  load_python : ℕ → Text → Request
  load_external : Text → Request
  unload : List (Bool × ℕ) → Text → Request
  unload_external : Text → Request

-- the levels at which a command is offered, and those that it leads to
unfoldable pub transitions : Request → List (ℕ × ℕ)
transitions (load_generator pid name) = (0, 1) ∷ (1, 1) ∷ (2, 3) ∷ (3, 3) ∷ []
transitions (unload_generator polls name) = (1, 0) ∷ (3, 2) ∷ []
transitions (load pid name) = (0, 2) ∷ (1, 3) ∷ (2, 2) ∷ (3, 3) ∷ []
transitions (load_python pid name) = (0, 2) ∷ (1, 3) ∷ (2, 2) ∷ (3, 3) ∷ []
transitions (load_external name) = (0, 2) ∷ (1, 3) ∷ (2, 2) ∷ (3, 3) ∷ []
transitions (unload polls name) = (2, 0) ∷ (3, 1) ∷ []
transitions (unload_external name) = (2, 0) ∷ (3, 1) ∷ []

-- the function behind a command: an unload answers true only where it leaves the map empty
unfoldable pub answer :
    Text → List (Text × Text) → Request → ControlLayer → Option (ControlLayer × Bool)
unfolding load_motion_generator unload_motion_generator load_controller load_python_controller
    load_external_controller unload_controller unload_external_controller
answer dir cmds (load_generator pid name) s = some (load_motion_generator dir pid name s)
answer dir cmds (unload_generator polls name) s = do
  (s', unloaded) ← unload_motion_generator cmds polls name s
  some (s', unloaded && is_empty s'.motion_generators)
answer dir cmds (load pid name) s = some (load_controller dir pid name s)
answer dir cmds (load_python pid name) s = some (load_python_controller dir pid name s)
answer dir cmds (load_external name) s = some (load_external_controller name s)
answer dir cmds (unload polls name) s = do
  (s', unloaded) ← unload_controller cmds polls name s
  some (s', unloaded && is_empty s'.controllers)
answer dir cmds (unload_external name) s =
    let (s', unloaded) = unload_external_controller name s in
    some (s', unloaded && is_empty s'.controllers)

-- Command::call: a function that answers true changes the level
unfoldable pub settle : List (ℕ × ℕ) → ControlLayer × Bool → Option ControlLayer
unfolding find change_level
settle levels (s, false) = some s
settle levels (s, true) = do
  next ← find s.command_manager.level levels
  some (record s { command_manager = change_level next s.command_manager })

-- a command at a level where it is offered; at any other it has no reader
unfoldable pub handle : Text → List (Text × Text) → Request → ControlLayer → Option ControlLayer
unfolding find answer transitions settle
handle dir cmds r s =
    if contains s.command_manager.level (transitions r)
    then (do answered ← answer dir cmds r s; settle (transitions r) answered)
    else some s

unfoldable pub handle_all :
    Text → List (Text × Text) → List Request → ControlLayer → Option ControlLayer
unfolding handle
handle_all dir cmds [] s = some s
handle_all dir cmds (r ∷ rs) s = do s' ← handle dir cmds r s; handle_all dir cmds rs s'

-- the names that a command may be called with
abbrev pub name_of : Request → Text
name_of (load_generator pid name) = name
name_of (unload_generator polls name) = name
name_of (load pid name) = name
name_of (load_python pid name) = name
name_of (load_external name) = name
name_of (unload polls name) = name
name_of (unload_external name) = name
