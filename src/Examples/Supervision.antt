-- ===== src/Examples/Supervision.antt =====
-- A supervisor and an estimation layer whose commands are called, a manager that is deleted, and the
-- deviation of a window.
use dls.Common.{
  ℕ, ◌≡◌, ◌≤◌, ◌*◌, ◌-◌, refl, Bool, true, false, Option, none, some, List, [], ◌∷◌, arith, Text,
  codes, if◌then◌else◌, leb, length, ◌⊎◌,
}
use dls.Common.Map
use dls.Command.{Command, with_args, create, activate}
use dls.CommandManager.{CommandManager, new_manager, add_command}
use dls.CommandManager.Watch.{AllLinked}
use dls.CommandManager.Offers.{discovered, get_command, delete_manager, delete_manager-unlinks}
use dls.Waiting.{Missed, Poll, slept, done, Reached}
use dls.Watcher.{AppStates}
use dls.Registry.{Layer}
use dls.Registry.Laws.{IsRegistry}
use dls.Registry.Estimators.{
  EstimatorRequest, load_request, unload_request, handle_estimators, IsEstimation,
}
use dls.Supervisor.Commands.{SupervisorCall, own_call, inherited_call}
use dls.Application.Inherited.{activate_call, where_call}
use dls.Supervisor.Procedure.{StateSeen, run_procedure_activates}
use dls.CommandManager.Foreign.{sent_once}
use dls.Supervisor.Commands.{
  ProcedureRun, run_procedure, procedure_request, load_app_request, unload_app_request,
  supervise_all,
}
use dls.Registry.Ending.{IsLong}
use dls.Registry.Handling.{handle_estimators_ends}
use dls.Supervisor.Ending.{IsLongRequest, supervise_all_ends}
use dls.Window.{pos, negsuc, new_window}
use dls.Window.Statistics.{Operation, pushed, cleared, run, run_newest}
use dls.Window.Deviation.{stddev, spreads, run-stddev}
use dls.Examples.Layers.{empty_layer, empty_layer-IsRegistry}

abbrev state_poll : ℕ → AppStates → Poll AppStates
state_poll later states = record { stop = false; world = states; later = later }

abbrev command_poll : ℕ → List (Text × Text) → Poll (List (Text × Text))
command_poll later cmds = record { stop = false; world = cmds; later = later }

-- The procedure is never idle, and its command is found at the second poll.
abbrev late_run : ProcedureRun
late_run = record {
  state_polls = state_poll 2500 [] ∷ state_poll 5100 [] ∷ [];
  stop_wait = false;
  command_polls =
      command_poll 2500 [] ∷ command_poll 5100 ((codes "activate", codes "walk") ∷ []) ∷ [];
  cmds = (codes "activate", codes "walk") ∷ [];
}

run_procedure_activates_example :
    (s' : Layer) × (event : Option (ℕ × Text)) × (run_procedure late_run (codes "walk") empty_layer
      ≡ some ((s', true), event))
    × StateSeen late_run.state_polls false (codes "walk") event
    × (s'.plugins ≡ empty_layer.plugins)
    × ((Reached (discovered (codes "walk") (codes "activate")) 3000 0 late_run.command_polls
          × (s' ≡ record empty_layer {
            command_manager =
                sent_once
                  (codes "activate")
                  (codes "walk")
                  late_run.cmds
                  empty_layer.command_manager;
          }))
        ⊎ (Missed (discovered (codes "walk") (codes "activate")) 3000 0 late_run.command_polls
            × (s' ≡ empty_layer)))
run_procedure_activates_example =
    run_procedure_activates late_run (codes "walk") empty_layer 2500 (omega arith)
      (slept _ _ (omega arith) (slept _ _ (omega arith) done))
      (slept _ _ (omega arith) (slept _ _ (omega arith) done)) (omega arith) (omega arith)
      (ground arith) (unfold new_manager in ground arith)

-- The process runs on for longer than the wait.
abbrev once : List (Bool × ℕ)
once = (true, 2500) ∷ []

once-IsLong : IsLong 2500 once
once-IsLong = (slept _ _ (omega arith) done, omega arith)

abbrev calls : List SupervisorCall
calls =
    own_call (load_app_request 42 (codes "walk"))
    ∷ inherited_call activate_call
    ∷ own_call (procedure_request late_run (codes "walk"))
    ∷ own_call (load_app_request 43 (codes "trot"))
    ∷ inherited_call where_call
    ∷ own_call (unload_app_request once (codes "walk"))
    ∷ []

late_run-IsLong : IsLongRequest 2500 (procedure_request late_run (codes "walk"))
late_run-IsLong = (
  slept _ _ (omega arith) (slept _ _ (omega arith) done),
  slept _ _ (omega arith) (slept _ _ (omega arith) done),
  omega arith,
  omega arith,
)

supervise_all_ends_example :
    (s' : Layer) × (supervise_all (some (codes "/bin/child")) [] calls empty_layer ≡ some s')
    × IsRegistry s'
    × (s'.command_manager.level ≡ 1)
unfolding new_manager
supervise_all_ends_example =
    supervise_all_ends (some (codes "/bin/child")) [] calls empty_layer 2500 (omega arith)
      (tt, (refl, (late_run-IsLong, (tt, (refl, (once-IsLong, tt)))))) empty_layer-IsRegistry
      (unfold new_manager in ground arith)

abbrev estimation : Layer
estimation = record empty_layer { command_manager = new_manager (codes "estimation") }

estimation-IsEstimation : IsEstimation estimation
estimation-IsEstimation = record {
  level = unfold new_manager in refl;
  named = λ name d h. unfold Map.find in ground arith;
}

abbrev estimator_calls : List EstimatorRequest
estimator_calls =
    unload_request once (codes "pose")
    ∷ load_request 42 (codes "pose")
    ∷ load_request 43 (codes "speed")
    ∷ load_request 44 (codes "pose")
    ∷ unload_request once (codes "pose")
    ∷ []

abbrev estimated : Layer
estimated = elim (handle_estimators (some (codes "/bin/child")) [] estimator_calls estimation) [
  | none ↦ estimation
  | some s ↦ s
]

-- one estimator is left, at level 1, and the other's process has been killed
estimated_left : (estimated.command_manager.level ≡ 1) × (estimated.killed ≡ 42 ∷ [])
unfolding handle_estimators new_manager create
estimated_left = (refl, refl)

estimation-IsRegistry : IsRegistry estimation
estimation-IsRegistry = record {
  named = λ name d h. unfold Map.find in ground arith;
  started = λ name d h gone. unfold Map.find in ground arith;
}

handle_estimators_ends_example :
    (s' : Layer) × (handle_estimators (some (codes "/bin/child")) [] estimator_calls estimation
      ≡ some s')
    × IsEstimation s'
    × IsRegistry s'
handle_estimators_ends_example =
    handle_estimators_ends (some (codes "/bin/child")) [] estimator_calls estimation 2500
      (omega arith) (once-IsLong, (once-IsLong, tt)) estimation-IsEstimation estimation-IsRegistry
      (unfold new_manager in ground arith)

abbrev yes : List Text → Bool
yes args = true

abbrev walker : CommandManager
walker = add_command with_args (codes "stop") 0 yes [] true (new_manager (codes "walk"))

abbrev stop : Command
stop = activate (create with_args (codes "stop") 0 yes [] true)

walker-AllLinked : AllLinked walker
walker-AllLinked name c found = unfold add_command new_manager create Map.find in ground arith

delete_manager-unlinks_example :
    (c' : Command) × (get_command (codes "stop") (delete_manager walker) ≡ some c')
    × (stop.enabled ≡ true → (c'.active ≡ false) × (c'.linked ≡ false))
    × (stop.enabled ≡ false → c' ≡ stop)
    × ((delete_manager walker).trigger_level_watcher ≡ walker.trigger_level_watcher)
delete_manager-unlinks_example =
    delete_manager-unlinks walker (codes "stop") stop walker-AllLinked
      (unfold get_command add_command new_manager in refl)

abbrev pushes : List Operation
pushes = pushed (pos 9) ∷ cleared ∷ pushed (pos 7) ∷ pushed (negsuc 1) ∷ pushed (pos 5) ∷ []

-- with the variance in place of its root
run-stddev_example :
    let w = run pushes (new_window 2) in
    let c = run_newest 2 pushes [] in
    (stddev (λ v. v) (0, 1) w
      ≡ (if leb (length c) 1 then (0, 1) else (spreads c, length c * (length c - 1))))
    × (w.sum * w.sum ≤ w.size_ * w.sum_sq)
run-stddev_example = run-stddev (λ v. v) (0, 1) 2 pushes
