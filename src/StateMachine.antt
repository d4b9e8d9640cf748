-- ===== src/StateMachine.antt =====
-- modules/state_machine: the class StateMachine, generic in its states and events. A State* that is
-- compared and stored is a value of `S`, an Event (compared by its id) a value of `E`; the clock is
-- an argument of each operation that reads it; the messages that the notifier sends are a list,
-- newest first. The machine is modelled from `init` on, where `state` is no null pointer.
pub mod Transitions
pub mod Flags
use dls.Common.{
  ℕ, zero, suc, Bool, true, false, not, ◌||◌, Option, none, some, List, [], ◌∷◌, Eq, pair_eq,
  if◌then◌else◌,
}
use dls.Common.Map.{find, assign}

pub record StateMachine (S E : Type 0) : Type 0 where
  pub state : S
  pub desired_state : Option S  -- a pointer that may be null
  pub desired_state_timestamp : ℕ
  pub quit : Bool
  pub transitions : List ((S × E) × Option S)
  pub async_events : List (E × Bool)
  pub realtime : S → Bool
  pub msg_state : Option S
  pub msg_realtime : Bool
  pub sent : List (Option S × Bool)

-- the loop of init over the asynchronous events
unfoldable pub clear_events {ℓ} :
    {E : Type ℓ} ⦃e : Eq E⦄ → List E → List (E × Bool) → List (E × Bool)
unfolding assign
clear_events [] m = m
clear_events (ev ∷ evs) m = clear_events evs (assign ev false m)

-- async_events[event]: an event that the map lacks is inserted as false
unfoldable pub flag : Option Bool → Bool
flag none = false
flag (some b) = b

module _ {S E : Type 0} ⦃s : Eq S⦄ ⦃e : Eq E⦄ where
  -- notify()
  unfoldable pub notify : StateMachine S E → StateMachine S E
  notify m = record m { sent = (m.msg_state, m.msg_realtime) ∷ m.sent }

  -- notifyState()
  unfoldable pub notify_state : StateMachine S E → StateMachine S E
  unfolding notify
  notify_state m = notify (record m { msg_state = some m.state; msg_realtime = m.realtime m.state })

  -- notifyRT(realtime)
  unfoldable pub notify_rt : Bool → StateMachine S E → StateMachine S E
  unfolding notify
  notify_rt realtime m = notify (record m { msg_realtime = realtime })

  -- initState(state)
  unfoldable pub init_state : S → ℕ → StateMachine S E → StateMachine S E
  unfolding notify_state
  init_state st now m =
      notify_state (record m { state = st; desired_state = some st; desired_state_timestamp = now })

  -- runState(): the activity of the current state, unless the machine has quit
  unfoldable pub run_state :
      (S → StateMachine S E → StateMachine S E) → StateMachine S E → StateMachine S E
  run_state activity m = if not m.quit then activity m.state m else m

  -- init(state, transitions, async_events)
  unfoldable pub init :
      (S → StateMachine S E → StateMachine S E)
      → S
      → List ((S × E) × Option S)
      → List E
      → ℕ
      → StateMachine S E
      → StateMachine S E
  unfolding init_state clear_events run_state
  init activity st table evs now m =
      let m' = init_state st now m in
      run_state activity
        (record m' { transitions = table; async_events = clear_events evs m'.async_events })

  -- start(): the rounds of `while (!quit) runState()`; `none` when the rounds given are used up
  unfoldable pub start :
      ℕ → (S → StateMachine S E → StateMachine S E) → StateMachine S E → Option (StateMachine S E)
  unfolding run_state
  start zero activity m = if m.quit then some m else none
  start (suc n) activity m =
      let rest = start n activity (run_state activity m) in if m.quit then some m else rest

  -- stop()
  unfoldable pub stop : StateMachine S E → StateMachine S E
  stop m = record m { quit = true }

  -- raiseEvent(event): discarded where the table has no entry for the current state
  unfoldable pub raise_event : E → ℕ → StateMachine S E → StateMachine S E × Bool
  unfolding find assign
  raise_event ev now m = elim (find (m.state, ev) m.transitions) [
    | none ↦ (m, false)
    | some target ↦ (
      record m {
        desired_state = target;
        desired_state_timestamp = now;
        async_events = assign ev true m.async_events;
      },
      true,
    )
  ]

  -- consumeEvent(event)
  unfoldable pub consume_event : E → StateMachine S E → StateMachine S E
  unfolding assign
  consume_event ev m = record m { async_events = assign ev false m.async_events }

  -- isRaised(event)
  unfoldable pub is_raised : E → StateMachine S E → Bool
  unfolding find flag
  is_raised ev m = flag (find ev m.async_events)

  unfoldable pub enter : S → ℕ → StateMachine S E → StateMachine S E
  unfolding notify_state
  enter new_state now m = notify_state (record m {
    state = new_state;
    desired_state = some new_state;
    desired_state_timestamp = now;
  })

  -- nextState(const Event&): `transitions[{state, event}]` stores a null pointer for a missing key
  unfoldable pub next_state : E → ℕ → StateMachine S E → StateMachine S E
  unfolding find assign enter
  next_state ev now m = elim (find (m.state, ev) m.transitions) [
    | none ↦ record m { transitions = assign (m.state, ev) none m.transitions }
    | some none ↦ m
    | some (some new_state) ↦ enter new_state now m
  ]

  -- nextState(const AsyncEvent&)
  unfoldable pub next_state_async : E → ℕ → StateMachine S E → StateMachine S E
  unfolding consume_event next_state
  next_state_async ev now m = next_state ev now (consume_event ev m)

  -- transit(const Event&)
  unfoldable pub transit :
      (S → StateMachine S E → StateMachine S E) → E → ℕ → StateMachine S E → StateMachine S E
  unfolding next_state run_state
  transit activity ev now m = run_state activity (next_state ev now m)

  -- transit(const AsyncEvent&)
  unfoldable pub transit_async :
      (S → StateMachine S E → StateMachine S E) → E → ℕ → StateMachine S E → StateMachine S E
  unfolding next_state_async run_state
  transit_async activity ev now m = run_state activity (next_state_async ev now m)

  -- the predicate on which waitAsynchEvent sleeps
  unfoldable pub any_raised : List E → StateMachine S E → Bool
  unfolding is_raised
  any_raised [] m = false
  any_raised (ev ∷ evs) m = is_raised ev m || any_raised evs m
