-- ===== src/StateMachine/Flags.antt =====
-- The flags of the asynchronous events, and the loop of start.
use dls.Common.{
  ℕ, zero, suc, ◌≤◌, ◌≡◌, refl, true, false, ◌||◌, ◌&&◌, some, Eq, pair_eq, ◌==◌, if◌then◌else◌,
  arith,
}
use dls.Common.Map.{contains, find-assign}
use dls.StateMachine.{
  StateMachine, raise_event, is_raised, next_state, next_state_async, run_state, start,
}

module _ {S E : Type 0} ⦃s : Eq S⦄ ⦃e : Eq E⦄ where
  -- raiseEvent raises the flag of its event where the table has an entry for the current state,
  -- and of no other event; a refused event changes nothing at all.
  pub raise_event_flags :
      (ev other : E) (now : ℕ) (m : StateMachine S E)
      → let r = raise_event ev now m in
        (r.1 ≡ contains (m.state, ev) m.transitions)
        × (is_raised other r.0 ≡ ((r.1 && ev == other) || is_raised other m))
        × (r.1 ≡ false → r.0 ≡ m)
  unfolding raise_event is_raised
  raise_event_flags ev other now m = ground (arith, find-assign ev other true m.async_events)

  -- nextState on an asynchronous event lowers the flag of that event and keeps the others,
  -- whether or not the machine can move.
  pub next_state_async_flags :
      (ev other : E) (now : ℕ) (m : StateMachine S E)
      → is_raised other (next_state_async ev now m)
        ≡ (if ev == other then false else is_raised other m)
  unfolding next_state_async is_raised
  next_state_async_flags ev other now m = ground (arith, find-assign ev other false m.async_events)

  pub next_state-is_raised :
      (ev other : E) (now : ℕ) (m : StateMachine S E)
      → is_raised other (next_state ev now m) ≡ is_raised other m
  unfolding next_state is_raised
  next_state-is_raised ev other now m = ground arith

  -- The rounds of the loop without its test.
  unfoldable pub iterate :
      ℕ → (S → StateMachine S E → StateMachine S E) → StateMachine S E → StateMachine S E
  iterate zero activity m = m
  iterate (suc n) activity m = iterate n activity (run_state activity m)

  iterate-quit :
      (k : ℕ) (activity : S → StateMachine S E → StateMachine S E) (m : StateMachine S E)
      → m.quit ≡ true
      → iterate k activity m ≡ m
  unfolding iterate run_state
  iterate-quit zero activity m h = refl
  iterate-quit (suc k) activity m h = ground (arith, iterate-quit k activity m h)

  -- The loop of start ends as soon as a round has set `quit`, with the machine of that round,
  -- however many more rounds would be allowed.
  pub start_ends :
      (k n : ℕ) (activity : S → StateMachine S E → StateMachine S E) (m : StateMachine S E)
      → k ≤ n
      → (iterate k activity m).quit ≡ true
      → start n activity m ≡ some (iterate k activity m)
  unfolding iterate start
  start_ends zero zero activity m le h = ground arith
  start_ends zero (suc n) activity m le h = ground arith
  start_ends (suc k) zero activity m le h = absurd (omega arith)
  start_ends (suc k) (suc n) activity m le h = ground (
    arith,
    iterate-quit (suc k) activity m,
    start_ends k n activity (run_state activity m) (omega arith) h,
  )
