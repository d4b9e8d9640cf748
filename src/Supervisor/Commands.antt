-- ===== src/Supervisor/Commands.antt =====
-- The commands that the constructor of modules/supervisor/src/supervisor.cpp adds, and the calls of
-- these and of the commands that every App has. The transitions of its own commands
-- are empty: they are offered at every level. What the polls of the waits meet, the commands
-- discovered at a call, and what the system answers to a load or unload stand in the request.
use dls.Common.{
  ℕ, ◌≡◌, ◌≢◌, ◌≤◌, ◌<◌, ◌*◌, Bool, true, false, Option, none, some, List, [], ◌∷◌, ◌++◌, length,
  if◌then◌else◌, nat_eq, Text, codes, text_eq, arith, Option-cases, inl, inr, ◌⊎◌,
}
use dls.Command.{Command}
use dls.CommandManager.{◌>>=◌}
use dls.CommandManager.Calls.{call_command}
use dls.CommandManager.Foreign.{call_command-defined}
use dls.CommandManager.Offers.{discovered, wait_command}
use dls.Waiting.{Poll, Reached, Paced, wait-Reached, wait_ends}
use dls.Watcher.{AppStates, wait_state, find_state}
use dls.Registry.{
  Layer, load_periodic_app_plugin, unload_periodic_app_plugin, load_python_periodic_app,
}
use dls.Registry.Requests.{offered, perform}
use dls.Application.Inherited.{AppRequest, inherited}

abbrev pub wrong_process_state : ℕ
wrong_process_state = 1

-- the event that "runProcedure" logs where the wait for the state fails
abbrev pub not_idle : Text → Bool → Option (ℕ × Text)
not_idle type idle =
    if idle
    then none
    else some (wrong_process_state, codes "Procedure " ++ (type ++ codes " not in idle state"))

-- what the system does during a call of "runProcedure": the polls of its two waits, the mark
-- stop_wait at the end of the first, and the commands discovered when "activate" is called
pub record ProcedureRun : Type 0 where
  pub state_polls : List (Poll AppStates)
  pub stop_wait : Bool
  pub command_polls : List (Poll (List (Text × Text)))
  pub cmds : List (Text × Text)

-- the function of "runProcedure", with the event it logs
unfoldable pub run_procedure :
    ProcedureRun → Text → Layer → Option ((Layer × Bool) × Option (ℕ × Text))
unfolding wait_state wait_command call_command
run_procedure r type s = do
  idle ← wait_state type (codes "idle") r.state_polls r.stop_wait
  offers ← wait_command type (codes "activate") 3000 r.command_polls
  (m, count) ←
      if offers
      then call_command (codes "activate") [] type r.cmds s.command_manager
      else some (s.command_manager, 0)
  some ((record s { command_manager = m }, true), not_idle type idle)

-- a call of a command of the supervisor
pub data SupervisorRequest : Type 0 where
  info_request : SupervisorRequest
  procedure_request : ProcedureRun → Text → SupervisorRequest
  load_app_request : ℕ → Text → SupervisorRequest
  unload_app_request : List (Bool × ℕ) → Text → SupervisorRequest
  load_python_request : ℕ → Text → SupervisorRequest

-- a call of any command of the supervisor
pub data SupervisorCall : Type 0 where
  own_call : SupervisorRequest → SupervisorCall
  inherited_call : AppRequest → SupervisorCall

-- the command that a call is of
unfoldable pub command_of : SupervisorRequest → Command
command_of info_request = offered (codes "info") 0 []
command_of (procedure_request r type) = offered (codes "runProcedure") 1 []
command_of (load_app_request pid type) = offered (codes "loadPeriodicAppPlugin") 1 []
command_of (unload_app_request polls type) = offered (codes "unloadPeriodicAppPlugin") 1 []
command_of (load_python_request pid type) = offered (codes "loadPythonPeriodicApp") 1 []

module _ (launcher : Option Text) (cmds : List (Text × Text)) where
  -- the function of the command; "info" logs the text of Supervisor.info and does no more
  unfoldable pub supervisor_answer : SupervisorRequest → Layer → Option (Layer × Bool)
  unfolding run_procedure load_periodic_app_plugin unload_periodic_app_plugin
      load_python_periodic_app
  supervisor_answer info_request s = some (s, true)
  supervisor_answer (procedure_request r type) s = do
    (answered, event) ← run_procedure r type s
    some answered
  supervisor_answer (load_app_request pid type) s =
      some (load_periodic_app_plugin launcher pid type s)
  supervisor_answer (unload_app_request polls type) s = unload_periodic_app_plugin cmds polls type s
  supervisor_answer (load_python_request pid type) s =
      some (load_python_periodic_app launcher pid type s)

  unfoldable pub supervise : SupervisorRequest → Layer → Option Layer
  unfolding perform supervisor_answer command_of
  supervise r s = perform (command_of r) (supervisor_answer r) s

  -- a call of one of these commands, or of a command that every App has: the function of the latter
  -- changes no field of the layer and answers true
  unfoldable pub supervise_call : SupervisorCall → Layer → Option Layer
  unfolding supervise perform inherited
  supervise_call (own_call r) s = supervise r s
  supervise_call (inherited_call r) s = perform (inherited r) (λ t. some (t, true)) s

  unfoldable pub supervise_all : List SupervisorCall → Layer → Option Layer
  unfolding supervise_call
  supervise_all [] s = some s
  supervise_all (c ∷ cs) s = do s' ← supervise_call c s; supervise_all cs s'

-- What a "runProcedure" that is over comes from.
pub run_procedure_lem :
    (r : ProcedureRun) (type : Text) (s s' : Layer) (done : Bool) (event : Option (ℕ × Text))
    → run_procedure r type s ≡ some ((s', done), event)
    → (done ≡ true)
      × (s'.plugins ≡ s.plugins)
      × ((idle : Bool) × (wait_state type (codes "idle") r.state_polls r.stop_wait ≡ some idle)
          × (event ≡ not_idle type idle))
      × ((Reached (discovered type (codes "activate")) 3000 0 r.command_polls
            × ((count : ℕ) × (call_command (codes "activate") [] type r.cmds s.command_manager
                  ≡ some (s'.command_manager, count))))
          ⊎ ((wait_command type (codes "activate") 3000 r.command_polls ≡ some false) × (s' ≡ s)))
unfolding run_procedure
run_procedure_lem r type s s' done event h =
    elim (Option-cases (wait_state type (codes "idle") r.state_polls r.stop_wait)) [
      | inl waits ↦ absurd (ground arith)
      | inr (idle, first) ↦
          elim (Option-cases (wait_command type (codes "activate") 3000 r.command_polls)) [
            | inl waits ↦ absurd (ground arith)
            | inr (true, second) ↦
                elim (Option-cases
                  (call_command (codes "activate") [] type r.cmds s.command_manager)) [
                    | inl undefined ↦ absurd (ground arith)
                    | inr ((m, count), called) ↦ (
                      ground arith,
                      ground arith,
                      (idle, first, ground arith),
                      inl (
                        wait-Reached (discovered type (codes "activate")) 3000 r.command_polls
                            (unfold wait_command in second),
                        (count, ground arith),
                      ),
                    )
                  ]
            | inr (false, second) ↦ (
              ground arith,
              ground arith,
              (idle, first, ground arith),
              inr (second, ground arith),
            )
          ]
    ]

pub run_procedure-ends :
    (r : ProcedureRun) (type : Text) (s : Layer) (period : ℕ)
    → 0 < period
    → Paced (find_state type (codes "idle")) 5000 period 0 r.state_polls
    → Paced (discovered type (codes "activate")) 3000 period 0 r.command_polls
    → 5000 ≤ length r.state_polls * period
    → 3000 ≤ length r.command_polls * period
    → type ≢ []
    → type ≢ s.command_manager.owner
    → run_procedure r type s ≢ none
run_procedure-ends r type s period pos slow slow' enough enough' ne other =
    elim (Option-cases (wait_state type (codes "idle") r.state_polls r.stop_wait)) [
      | inl waits ↦ absurd (
          unfold wait_state in
          ground (
            arith,
            wait_ends (find_state type (codes "idle")) 5000 period r.state_polls pos slow enough,
          ))
      | inr (idle, first) ↦
          elim (Option-cases (wait_command type (codes "activate") 3000 r.command_polls)) [
            | inl waits ↦ absurd (
                wait_ends (discovered type (codes "activate")) 3000 period r.command_polls pos slow'
                  enough' (unfold wait_command in waits))
            | inr (offers, second) ↦
                unfold run_procedure in
                ground (
                  arith,
                  call_command-defined (codes "activate") type r.cmds s.command_manager ne other,
                )
          ]
    ]
