-- ===== src/Examples/Machines.antt =====
-- The state machine of an application at concrete states and events.
use dls.Common.{
  ◌≡◌, ◌≢◌, refl, true, false, ◌&&◌, ◌||◌, Option, none, some, ◌∷◌, if◌then◌else◌, arith, pair_eq,
  ◌==◌,
}
use dls.Common.Map.{find, contains}
use dls.StateMachine
use dls.StateMachine.{
  StateMachine, raise_event, is_raised, next_state, next_state_async, run_state, start,
}
use dls.StateMachine.Transitions.{
  target, IsSound, next_state_moves, next_state_pollutes, step-IsSound,
}
use dls.StateMachine.Flags.{raise_event_flags, next_state_async_flags, start_ends, iterate}
use dls.Application.States.{
  AppState, AppEvent, Machine, state_eq, event_eq, new_machine, find-app_table,
}

abbrev started : Machine
started = new_machine 0

new_machine_state : (new_machine 0).state ≡ AppState.initialization
unfolding new_machine
new_machine_state = refl

next_state_moves_example :
    ((next_state AppEvent.initialized 7 started).state ≡ AppState.idle)
    × ((next_state AppEvent.initialized 7 started).desired_state ≡ some AppState.idle)
    × ((next_state AppEvent.initialized 7 started).desired_state_timestamp ≡ 7)
    × ((next_state AppEvent.initialized 7 started).sent
        ≡ (some AppState.idle, started.realtime AppState.idle) ∷ started.sent)
    × ((next_state AppEvent.initialized 7 started).transitions ≡ started.transitions)
    × ((next_state AppEvent.initialized 7 started).async_events ≡ started.async_events)
    × ((next_state AppEvent.initialized 7 started).quit ≡ started.quit)
next_state_moves_example =
    next_state_moves AppEvent.initialized 7 started AppState.idle (unfold new_machine find in refl)

next_state_pollutes_run :
    (raise_event AppEvent.activation_request 9 started ≡ (started, false))
    × ((raise_event AppEvent.activation_request 9
          (next_state AppEvent.activation_request 8 started)).1
        ≡ true)
    × ((raise_event AppEvent.activation_request 9
          (next_state AppEvent.activation_request 8 started)).0.desired_state
        ≡ none)
next_state_pollutes_run =
    next_state_pollutes AppEvent.activation_request 8 9 started (unfold new_machine find in refl)

started-IsSound : IsSound started
started-IsSound = record {
  no_null = λ k null. no_null k.0 k.1 null;
  desired = unfold new_machine in ground arith;
}
  where
    no_null : (s : AppState) (e : AppEvent) → find (s, e) started.transitions ≢ some none
    no_null s e = unfold new_machine in ground (arith, find-app_table s e)

step-IsSound_run :
    IsSound (raise_event AppEvent.quit_request 3 started).0
    × ((t : Option AppState)
        → target started AppEvent.quit_request ≡ some t
        → IsSound (next_state AppEvent.quit_request 3 started))
step-IsSound_run = step-IsSound AppEvent.quit_request 3 started started-IsSound

abbrev idle_machine : Machine
idle_machine = next_state AppEvent.initialized 7 started

raise_event_flags_run :
    ((raise_event AppEvent.quit_request 8 idle_machine).1
      ≡ contains (idle_machine.state, AppEvent.quit_request) idle_machine.transitions)
    × (is_raised AppEvent.quit_request (raise_event AppEvent.quit_request 8 idle_machine).0 ≡ (
        ((raise_event AppEvent.quit_request 8 idle_machine).1
          && AppEvent.quit_request == AppEvent.quit_request)
        || is_raised AppEvent.quit_request idle_machine))
    × ((raise_event AppEvent.quit_request 8 idle_machine).1 ≡ false
        → (raise_event AppEvent.quit_request 8 idle_machine).0 ≡ idle_machine)
raise_event_flags_run = raise_event_flags AppEvent.quit_request AppEvent.quit_request 8 idle_machine

next_state_async_flags_run :
    is_raised AppEvent.quit_request (next_state_async AppEvent.quit_request 9 idle_machine) ≡ (
      if AppEvent.quit_request == AppEvent.quit_request
      then false
      else is_raised AppEvent.quit_request idle_machine)
next_state_async_flags_run =
    next_state_async_flags AppEvent.quit_request AppEvent.quit_request 9 idle_machine

-- An activity that stops the machine in whatever state.
abbrev stopping : AppState → Machine → Machine
stopping s m = StateMachine.stop m

start_ends_run : start 3 stopping started ≡ some (iterate 1 stopping started)
start_ends_run =
    start_ends 1 3 stopping started (omega arith)
      (unfold iterate new_machine run_state StateMachine.stop in refl)
