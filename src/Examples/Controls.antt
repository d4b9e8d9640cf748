-- ===== src/Examples/Controls.antt =====
-- A control layer with controllers of several modes, and its commands.
use dls.Common.{
  ℕ, ◌+◌, ◌*◌, ◌<◌, ◌≡◌, ◌↔◌, refl, Bool, true, false, Option, none, some, List, [], ◌∷◌, ◌++◌,
  if◌then◌else◌, length, get_elem?, Text, codes, text_eq, nat_eq, arith, inl, inr, ◌==◌,
}
use dls.Common.Map.{find}
use mathlib.Core.Option
use dls.CommandManager.{new_manager}
use dls.Control.{
  ControlSignal, Reading, GatherLayer, Cycle, torque_mode, impedance_mode, position_mode, gather,
  gather_round,
}
use dls.Control.Torques.{joint_torque}
use dls.Control.Sharing.{AllShared, contributors, any_impedance, from_first}
use dls.Control.Shared.{gather_shared}
use dls.Control.Setpoint.{IsTaken, gather-IsTaken}
use dls.Control.Fault.{any_long, gather_fault}
use dls.Control.Layer.{
  ControlLayer, load_python_controller, Request, load_generator, unload_generator, load,
  load_external, unload, handle_all, close,
}
use dls.Control.Answers.{IsLevelled}
use dls.Control.Ending.{control_close_ends}
use dls.Control.Handling.{handle_all_ends}
use dls.Registry.Ending.{IsLong}
use dls.Waiting.{slept, done}
use dls.Application.Inherited.{activate_call, where_call}
use dls.Control.Closed.{AllStopped}
use dls.Control.Inherited.{
  LayerCall, own_call, inherited_call, handle_calls, level_after, closed_lasts,
}

abbrev signal : ℕ → List ℕ → List ℕ → ControlSignal ℕ
signal mode position torques = record {
  control_mode = mode;
  joints_position = position;
  joints_velocity = 0 ∷ 0 ∷ [];
  joints_torques = torques;
  kp = 1 ∷ 1 ∷ [];
  kd = 0 ∷ 0 ∷ [];
  timestamp = 0;
}

abbrev reading : ℕ → ℕ → List ℕ → List ℕ → Reading ℕ
reading premultiplier mode position torques = record {
  premultiplier = premultiplier;
  msg = signal mode position torques;
}

abbrev before_round : ControlSignal ℕ
before_round = signal torque_mode (7 ∷ 7 ∷ []) (5 ∷ 5 ∷ [])

abbrev shared : List (Reading ℕ)
shared =
    reading 2 torque_mode [] (1 ∷ 2 ∷ [])
    ∷ reading 1 impedance_mode (3 ∷ 4 ∷ []) (10 ∷ 20 ∷ [])
    ∷ reading 1 impedance_mode (9 ∷ 9 ∷ []) (50 ∷ 50 ∷ [])
    ∷ []

shared-AllShared : AllShared shared
shared-AllShared = (inl refl, (inr refl, (inr refl, tt)))

shared_run :
    gather 0 ◌+◌ ◌*◌ shared before_round ≡ some (signal impedance_mode (3 ∷ 4 ∷ []) (12 ∷ 24 ∷ []))
unfolding gather
shared_run = refl

gather_shared_example :
    (out : ControlSignal ℕ) × (gather 0 ◌+◌ ◌*◌ shared before_round ≡ some out)
    × (out.control_mode ≡ (if any_impedance shared then impedance_mode else torque_mode))
    × (out.joints_position
        ≡ from_first (λ m. m.joints_position) shared before_round.joints_position)
    × (out.joints_velocity
        ≡ from_first (λ m. m.joints_velocity) shared before_round.joints_velocity)
    × (out.kp ≡ from_first (λ m. m.kp) shared before_round.kp)
    × (out.kd ≡ from_first (λ m. m.kd) shared before_round.kd)
    × (length out.joints_torques ≡ length before_round.joints_torques)
    × ((i : ℕ)
        → i < length before_round.joints_torques
        → get_elem? out.joints_torques i
          ≡ some (joint_torque 0 ◌+◌ ◌*◌ i (contributors false shared) 0))
gather_shared_example =
    gather_shared 0 ◌+◌ ◌*◌ shared before_round shared-AllShared
      (unfold contributors in omega arith)

abbrev mover : Reading ℕ
mover = reading 1 position_mode (8 ∷ 9 ∷ []) (3 ∷ 3 ∷ [])

gather-IsTaken_example :
    (out : ControlSignal ℕ) × (gather 0 ◌+◌ ◌*◌ (shared ++ mover ∷ shared) before_round ≡ some out)
    × IsTaken 0 mover 2 out
gather-IsTaken_example =
    gather-IsTaken 0 ◌+◌ ◌*◌ shared mover shared before_round shared-AllShared
      (unfold contributors in omega arith) (inl refl)

abbrev too_long : List (Reading ℕ)
too_long = reading 1 torque_mode [] (1 ∷ 2 ∷ 3 ∷ []) ∷ []

gather_fault_example :
    (gather 0 ◌+◌ ◌*◌ too_long before_round ≡ none)
    ↔ (any_long 2 (contributors false too_long) ≡ true)
gather_fault_example = gather_fault 0 ◌+◌ ◌*◌ too_long before_round (inl refl, tt)

abbrev idle : GatherLayer ℕ
idle = record {
  control_signal_msg = before_round;
  published = [];
  delta = 1200 ∷ 1300 ∷ [];
  warnings = 0;
}

abbrev slow : Cycle ℕ
slow = record { stop = false; epoch = 7; readings = []; duration = 1250 }

abbrev after_slow : GatherLayer ℕ
after_slow = record {
  control_signal_msg = signal torque_mode (7 ∷ 7 ∷ []) (0 ∷ 0 ∷ []);
  published = record (signal torque_mode (7 ∷ 7 ∷ []) (0 ∷ 0 ∷ [])) { timestamp = 7000 } ∷ [];
  delta = 1250 ∷ 1200 ∷ 1300 ∷ [];
  warnings = 1;
}

slow_run : gather_round 0 ◌+◌ ◌*◌ ◌∷◌ slow idle ≡ some after_slow
unfolding gather_round
slow_run = refl

abbrev new_layer : ControlLayer
new_layer = record {
  controllers = [];
  motion_generators = [];
  closing = false;
  command_manager = new_manager (codes "control");
  robot_name = codes "hyq";
  killed = [];
}

new_layer-IsLevelled : IsLevelled new_layer
new_layer-IsLevelled = record {
  level = unfold new_manager in refl;
  named_controllers = λ name d h. unfold find in ground arith;
  named_generators = λ name d h. unfold find in ground arith;
}

-- one poll, which sleeps for longer than the wait
abbrev once : List (Bool × ℕ)
once = (true, 2500) ∷ []

once-IsLong : IsLong 2500 once
once-IsLong = (slept _ _ (omega arith) done, omega arith)

abbrev requests : List Request
requests =
    load_generator 11 (codes "walk")
    ∷ load 12 (codes "joints")
    ∷ load_external (codes "arm")
    ∷ unload once (codes "joints")
    ∷ unload_generator once (codes "walk")
    ∷ []

abbrev after_requests : Option ControlLayer
after_requests = handle_all (codes "/opt") [] requests new_layer

levels_run : Option.map (λ s. s.command_manager.level) after_requests ≡ some 2
unfolding handle_all new_manager
levels_run = refl

abbrev or_new : Option ControlLayer → ControlLayer
or_new none = new_layer
or_new (some s) = s

handle_all_ends_example :
    (s' : ControlLayer) × (handle_all (codes "/opt") [] requests new_layer ≡ some s')
    × IsLevelled s'
handle_all_ends_example =
    handle_all_ends (codes "/opt") [] requests new_layer 2500 (omega arith)
      (tt, (tt, (tt, (once-IsLong, (once-IsLong, tt))))) new_layer-IsLevelled
      (unfold new_manager in ground arith)

abbrev loads : List Request
loads =
    load_generator 11 (codes "walk") ∷ load 12 (codes "joints") ∷ load_external (codes "arm") ∷ []

abbrev loaded : ControlLayer
loaded = or_new (handle_all (codes "/opt") [] loads new_layer)

-- the generator ends by itself, and the controller has to be killed
abbrev ends : Text → List (Bool × ℕ)
ends name = if name == codes "walk" then (false, 10) ∷ [] else (true, 3000) ∷ []

abbrev closed : ControlLayer
closed = or_new (close [] ends loaded)

closed_run : closed.killed ≡ 12 ∷ []
unfolding close handle_all new_manager
closed_run = refl

abbrev calls_after : List LayerCall
calls_after =
    inherited_call activate_call
    ∷ own_call (load 14 (codes "late"))
    ∷ inherited_call where_call
    ∷ own_call (load_generator 15 (codes "walk"))
    ∷ []

closed_lasts_example :
    AllStopped ends closed.killed loaded.motion_generators
    × AllStopped ends closed.killed loaded.controllers
    × (closed.motion_generators ≡ [])
    × (closed.controllers ≡ [])
    × ((u : ControlLayer) × (handle_calls (codes "/opt") [] calls_after closed ≡ some u)
        × (u ≡ record closed { command_manager = u.command_manager })
        × (u.command_manager.sent ≡ closed.command_manager.sent)
        × (u.command_manager.level ≡ level_after calls_after closed.command_manager.level))
closed_lasts_example =
    closed_lasts (codes "/opt") [] [] ends calls_after loaded closed
      (unfold close handle_all new_manager in refl) (refl, (refl, (refl, (refl, tt))))

-- both run for as long as they are polled
abbrev lasting : Text → List (Bool × ℕ)
lasting name = (true, 1000) ∷ (true, 2100) ∷ []

control_close_ends_example :
    (t : ControlLayer) × (close [] lasting loaded ≡ some t)
    × AllStopped lasting t.killed loaded.motion_generators
    × AllStopped lasting t.killed loaded.controllers
    × (t.motion_generators ≡ [])
    × (t.controllers ≡ [])
control_close_ends_example =
    control_close_ends [] lasting loaded 1000 (omega arith)
      (unfold handle_all new_manager in ground arith)
      (unfold handle_all new_manager in ground arith)
      (λ name. (slept _ _ (omega arith) (slept _ _ (omega arith) done), omega arith))

-- loadPythonController does not ask whether the layer is closed.
python_after_close : (load_python_controller (codes "/opt") 13 (codes "late") closed).1 ≡ true
unfolding load_python_controller close handle_all new_manager
python_after_close = refl
