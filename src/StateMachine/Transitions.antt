-- ===== src/StateMachine/Transitions.antt =====
-- What nextState and raiseEvent do to the state, the desired state and the table.
use dls.Common.{
  ℕ, ◌≡◌, ◌≢◌, true, false, Option, none, some, inl, inr, ◌∷◌, Eq, pair_eq, arith, Option-cases,
}
use dls.Common.Map.{find, assign, find-assign_self}
use dls.StateMachine.{StateMachine, next_state, raise_event}

module _ {S E : Type 0} ⦃s : Eq S⦄ ⦃e : Eq E⦄ where
  -- The table's entry for the current state and an event.
  abbrev pub target : StateMachine S E → E → Option (Option S)
  target m ev = find (m.state, ev) m.transitions

  -- With an entry for the current state the machine moves there, desires that state from now on,
  -- publishes it with its real-time mark, and leaves the table and the flags alone.
  pub next_state_moves :
      (ev : E) (now : ℕ) (m : StateMachine S E) (t : S)
      → target m ev ≡ some (some t)
      → let m' = next_state ev now m in
        (m'.state ≡ t)
        × (m'.desired_state ≡ some t)
        × (m'.desired_state_timestamp ≡ now)
        × (m'.sent ≡ (some t, m.realtime t) ∷ m.sent)
        × (m'.transitions ≡ m.transitions)
        × (m'.async_events ≡ m.async_events)
        × (m'.quit ≡ m.quit)
  unfolding next_state
  next_state_moves ev now m t h = ground arith

  pub next_state-missing :
      (ev : E) (now : ℕ) (m : StateMachine S E)
      → target m ev ≡ none
      → next_state ev now m ≡ record m { transitions = assign (m.state, ev) none m.transitions }
  unfolding next_state
  next_state-missing ev now m h = ground arith

  -- Where the table has no entry, raiseEvent refuses the event and changes nothing. Once nextState
  -- has been called with that event, the key holds a null pointer: the same raiseEvent is accepted,
  -- and the desired state is null.
  pub next_state_pollutes :
      (ev : E) (now later : ℕ) (m : StateMachine S E)
      → target m ev ≡ none
      → (raise_event ev later m ≡ (m, false))
        × ((raise_event ev later (next_state ev now m)).1 ≡ true)
        × ((raise_event ev later (next_state ev now m)).0.desired_state ≡ none)
  unfolding raise_event next_state
  next_state_pollutes ev now later m h =
      ground (arith, find-assign_self (m.state, ev) none m.transitions)

  -- No key of the table holds a null pointer, and the desired state is not null.
  pub record IsSound (m : StateMachine S E) : Type 0 where
    pub no_null : (k : S × E) → find k m.transitions ≢ some none
    pub desired : m.desired_state ≢ none

  raise_event-IsSound :
      (ev : E) (now : ℕ) (m : StateMachine S E) → IsSound m → IsSound (raise_event ev now m).0
  unfolding raise_event
  raise_event-IsSound ev now m h = elim (Option-cases (target m ev)) [
    | inl absent ↦ rw (absent, raise_event) h
    | inr (none, null) ↦ absurd (h.no_null (m.state, ev) null)
    | inr (some t, found) ↦
        rw (found, raise_event) (record { no_null = h.no_null; desired = λ q. cc })
  ]

  -- raiseEvent keeps the machine sound; nextState does when the table has an entry for the event.
  pub step-IsSound :
      (ev : E) (now : ℕ) (m : StateMachine S E)
      → IsSound m
      → IsSound (raise_event ev now m).0
        × ((t : Option S) → target m ev ≡ some t → IsSound (next_state ev now m))
  unfolding next_state
  step-IsSound ev now m h = (raise_event-IsSound ev now m h, λ t found. entered t found)
    where
      entered : (t : Option S) → target m ev ≡ some t → IsSound (next_state ev now m)
      entered none found = absurd (h.no_null (m.state, ev) found)
      entered (some t) found =
          rw (found, next_state) (record { no_null = h.no_null; desired = λ q. cc })
