-- ===== src/Application/States.antt =====
-- The states and events of AppStateMachine, and its transition table.
use dls.Common.{
  ℕ, ◌≡◌, ◌↔◌, true, false, Option, none, some, List, [], ◌∷◌, Eq, nat_beq, arith, pair_eq,
}
use dls.Common.Map.{find}
use dls.StateMachine.{StateMachine}
use dls.StateMachine

pub data AppState : Type 0 where
  initialization idle activation deactivation run fail quit : AppState

pub data AppEvent : Type 0 where
  initialized deactivated failed_activation activated failure : AppEvent
  activation_request deactivation_request quit_request stop_activation : AppEvent

-- AppStatus
pub data AppStatus : Type 0 where
  unconstructed initialising running fatal_error e_stop success failed stopped : AppStatus
  breaking_realtime : AppStatus

-- A number for each state and event, by which they are compared.
abbrev pub state_id : AppState → ℕ
state_id AppState.initialization = 0
state_id AppState.idle = 1
state_id AppState.activation = 2
state_id AppState.deactivation = 3
state_id AppState.run = 4
state_id AppState.fail = 5
state_id AppState.quit = 6

abbrev pub event_id : AppEvent → ℕ
event_id AppEvent.initialized = 0
event_id AppEvent.deactivated = 1
event_id AppEvent.failed_activation = 2
event_id AppEvent.activated = 3
event_id AppEvent.failure = 4
event_id AppEvent.activation_request = 5
event_id AppEvent.deactivation_request = 6
event_id AppEvent.quit_request = 7
event_id AppEvent.stop_activation = 8

pub state_beq_iff : (a b : AppState) → (nat_beq (state_id a) (state_id b) ≡ true) ↔ (a ≡ b)
state_beq_iff a b = ground arith

pub event_beq_iff : (a b : AppEvent) → (nat_beq (event_id a) (event_id b) ≡ true) ↔ (a ≡ b)
event_beq_iff a b = ground arith

instance abbrev pub state_eq : Eq AppState
state_eq = record { same = λ a b. nat_beq (state_id a) (state_id b); same_iff = state_beq_iff }

instance abbrev pub event_eq : Eq AppEvent
event_eq = record { same = λ a b. nat_beq (event_id a) (event_id b); same_iff = event_beq_iff }

abbrev pub Machine : Type 0
Machine = StateMachine AppState AppEvent

abbrev pub row : AppState → AppEvent → AppState → (AppState × AppEvent) × Option AppState
row from event to = ((from, event), some to)

-- the map `transitions` of the constructor
unfoldable pub app_table : List ((AppState × AppEvent) × Option AppState)
app_table =
    row AppState.initialization AppEvent.initialized AppState.idle
    ∷ row AppState.idle AppEvent.activation_request AppState.activation
    ∷ row AppState.activation AppEvent.activated AppState.run
    ∷ row AppState.activation AppEvent.failed_activation AppState.idle
    ∷ row AppState.activation AppEvent.stop_activation AppState.idle
    ∷ row AppState.run AppEvent.deactivation_request AppState.deactivation
    ∷ row AppState.run AppEvent.failure AppState.fail
    ∷ row AppState.deactivation AppEvent.deactivated AppState.idle
    ∷ row AppState.fail AppEvent.deactivation_request AppState.deactivation
    ∷ row AppState.idle AppEvent.quit_request AppState.quit
    ∷ row AppState.activation AppEvent.quit_request AppState.quit
    ∷ row AppState.run AppEvent.quit_request AppState.quit
    ∷ row AppState.fail AppEvent.quit_request AppState.quit
    ∷ row AppState.deactivation AppEvent.quit_request AppState.quit
    ∷ []

abbrev pub app_async_events : List AppEvent
app_async_events =
    AppEvent.activation_request ∷ AppEvent.deactivation_request ∷ AppEvent.quit_request ∷ []

-- A machine before init; its state is a placeholder for the null pointer.
abbrev blank : Machine
blank = record {
  state = AppState.initialization;
  desired_state = none;
  desired_state_timestamp = 0;
  quit = false;
  transitions = [];
  async_events = [];
  realtime = λ s. false;
  msg_state = none;
  msg_realtime = false;
  sent = [];
}

-- the constructor: the activity of INITIALIZATION, which init runs, is empty
unfoldable pub new_machine : ℕ → Machine
unfolding app_table StateMachine.init
new_machine now =
    StateMachine.init (λ s m. m) AppState.initialization app_table app_async_events now blank

-- The arrows of the diagram, as a function.
abbrev pub arrow : AppState → AppEvent → Option AppState
arrow AppState.initialization AppEvent.initialized = some AppState.idle
arrow AppState.idle AppEvent.activation_request = some AppState.activation
arrow AppState.idle AppEvent.quit_request = some AppState.quit
arrow AppState.activation AppEvent.activated = some AppState.run
arrow AppState.activation AppEvent.failed_activation = some AppState.idle
arrow AppState.activation AppEvent.stop_activation = some AppState.idle
arrow AppState.activation AppEvent.quit_request = some AppState.quit
arrow AppState.run AppEvent.deactivation_request = some AppState.deactivation
arrow AppState.run AppEvent.failure = some AppState.fail
arrow AppState.run AppEvent.quit_request = some AppState.quit
arrow AppState.deactivation AppEvent.deactivated = some AppState.idle
arrow AppState.deactivation AppEvent.quit_request = some AppState.quit
arrow AppState.fail AppEvent.deactivation_request = some AppState.deactivation
arrow AppState.fail AppEvent.quit_request = some AppState.quit
arrow _ _ = none

pub find-app_table :
    (s : AppState) (e : AppEvent)
    → find (s, e) app_table ≡ elim (arrow s e) [ none ↦ none | some t ↦ some (some t) ]
unfolding app_table find
find-app_table s e = ground arith
