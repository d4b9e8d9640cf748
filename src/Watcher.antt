-- ===== src/Watcher.antt =====
-- modules/state_machine/src/state_machine_watcher.cpp: the states of the applications, as the messages
-- on the topic of the state machines report them, and the waits for one of them.
use dls.Common.{
  ◌≡◌, refl, Bool, true, false, not, ◌&&◌, Option, none, some, List, [], ◌∷◌, if◌then◌else◌, Text,
  text_eq, ◌==◌, arith, Option-cases, inl, inr,
}
use dls.Common.Map.{find, contains, assign, find-assign}
use dls.Waiting.{Poll, wait, Reached, wait-Reached}

pub record StateMachineMonitor : Type 0 where
  pub app_name : Text
  pub state : Text
  pub realtime : Bool

abbrev pub AppStates : Type 0
AppStates = List (Text × (Text × Bool))

-- the callback of the reader: a new name is entered, the fields of a known one are written
unfoldable pub on_message : StateMachineMonitor → AppStates → AppStates
unfolding find assign
on_message msg app_states = elim (find msg.app_name app_states) [
  | none ↦ assign msg.app_name (msg.state, msg.realtime) app_states
  | some entry ↦ assign msg.app_name (msg.state, msg.realtime) app_states
]

-- findApp(app_name)
unfoldable pub find_app : Text → AppStates → Bool
unfolding find
find_app app_name app_states = contains app_name app_states

-- findState(app_name, state)
unfoldable pub find_state : Text → Text → AppStates → Bool
unfolding find
find_state app_name state app_states = elim (find app_name app_states) [
  | none ↦ false
  | some entry ↦ entry.0 == state
]

-- waitState(app_name, state, stop_wait): the mark stop_wait is read once more at the end
unfoldable pub wait_state : Text → Text → List (Poll AppStates) → Bool → Option Bool
unfolding wait find_state
wait_state app_name state polls stop_wait = elim (wait (find_state app_name state) 5000 polls) [
  | none ↦ none
  | some reached ↦ some (reached && not stop_wait)
]

-- waitApp(app_name, stop_wait)
unfoldable pub wait_app : Text → List (Poll AppStates) → Bool → Option Bool
unfolding wait find_app
wait_app app_name polls stop_wait = elim (wait (find_app app_name) 5000 polls) [
  | none ↦ none
  | some true ↦ some true
  | some false ↦ some stop_wait
]

-- The messages received one after another.
unfoldable pub receive_all : List StateMachineMonitor → AppStates → AppStates
unfolding on_message
receive_all [] app_states = app_states
receive_all (msg ∷ msgs) app_states = receive_all msgs (on_message msg app_states)

-- The last report on an application in a list of messages, or `former`.
abbrev pub last_report :
    Text → List StateMachineMonitor → Option (Text × Bool) → Option (Text × Bool)
last_report app_name [] former = former
last_report app_name (msg ∷ msgs) former =
    last_report app_name msgs
      (if msg.app_name == app_name then some (msg.state, msg.realtime) else former)

find-on_message :
    (name : Text) (msg : StateMachineMonitor) (app_states : AppStates)
    → find name (on_message msg app_states)
      ≡ (if msg.app_name == name then some (msg.state, msg.realtime) else find name app_states)
unfolding on_message
find-on_message name msg app_states =
    ground (arith, find-assign msg.app_name name (msg.state, msg.realtime) app_states)

-- After any messages, in any order, an application is in the state that the last message about it
-- reported, and one that no message was about is as before.
pub find-receive_all :
    (name : Text) (msgs : List StateMachineMonitor) (app_states : AppStates)
    → find name (receive_all msgs app_states) ≡ last_report name msgs (find name app_states)
unfolding receive_all
find-receive_all name [] app_states = refl
find-receive_all name (msg ∷ msgs) app_states =
    rw (find-receive_all name msgs (on_message msg app_states), find-on_message name msg app_states)

-- waitState answers true only where a poll made in time, with no stop asked, saw the application in
-- the state, and no stop is asked at the end either.
pub wait_state_sound :
    (app_name state : Text) (polls : List (Poll AppStates)) (stop_wait : Bool)
    → wait_state app_name state polls stop_wait ≡ some true
    → Reached (find_state app_name state) 5000 0 polls × (stop_wait ≡ false)
unfolding wait_state
wait_state_sound app_name state polls stop_wait h =
    elim (Option-cases (wait (find_state app_name state) 5000 polls)) [
      | inl waiting ↦ ground arith
      | inr (b, over) ↦
          (wait-Reached (find_state app_name state) 5000 polls (ground arith), ground arith)
    ]
