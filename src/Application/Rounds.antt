-- ===== src/Application/Rounds.antt =====
-- The waiting loops of the activities. Other threads raise events between two tests of a loop's
-- condition: a round holds the events raised in it, with their times, and the Boolean that the
-- loop's body computes in it (checkActivation, checkFailure, deactivation). The loops of a periodic
-- app pause at the end of a round: a round holds what is_paused held when isPaused() read it and each
-- time that the wait of pauseExecution() tested it. A loop that uses up the rounds given, or that is
-- in a pause with no unpausing, is still running: `none`.
use dls.Common.{
  ℕ, ◌≡◌, Bool, true, false, not, ◌||◌, Option, none, some, List, [], ◌∷◌, arith, if◌then◌else◌,
  pair_eq,
}
use dls.StateMachine.{raise_event, notify_rt, any_raised}
use dls.Application.States.{AppEvent, Machine, state_eq, event_eq}

pub record Round : Type 0 where
  pub raised : List (AppEvent × ℕ)
  pub outcome : Bool
  pub realtime : Option Bool
  pub pauses : List Bool

-- checkRT(), the first call in a round of PeriodicApp: the mark that it notifies, if it does. The
-- frequency that decides this is a floating-point number; rounds of other loops have none.
unfoldable pub check_rt : Option Bool → Machine → Machine
unfolding notify_rt
check_rt none m = m
check_rt (some realtime) m = notify_rt realtime m

-- The events that other threads raise one after another.
unfoldable pub raise_all : List (AppEvent × ℕ) → Machine → Machine
unfolding raise_event
raise_all [] m = m
raise_all ((ev, now) ∷ evs) m = raise_all evs (raise_event ev now m).0

-- pauseExecution(): the wait is over once one of its tests finds the app not paused
unfoldable pub unpaused : List Bool → Bool
unpaused [] = false
unpaused (paused ∷ tests) = not paused || unpaused tests

-- if (isPaused()) pauseExecution();
-- whether the round gets past it. Rounds of loops without a pause have no such tests.
unfoldable pub pause_over : List Bool → Bool
unfolding unpaused
pause_over [] = true
pause_over (paused ∷ tests) = not paused || unpaused tests

-- while (!flag && !test(m)) { ...; flag = outcome; if (isPaused()) pauseExecution(); }
unfoldable pub loop : (Machine → Bool) → List Round → Bool → Machine → Option (Machine × Bool)
unfolding raise_all check_rt pause_over
loop test [] flag m = if flag || test m then some (m, flag) else none
loop test (r ∷ rs) flag m =
    let next = loop test rs r.outcome (raise_all r.raised (check_rt r.realtime m)) in
    if flag || test m then some (m, flag) else if pause_over r.pauses then next else none

-- waitAsynchEvent(events): the flag plays no part
unfoldable pub wait_asynch_event :
    List AppEvent → List (List (AppEvent × ℕ)) → Machine → Option Machine
unfolding raise_all any_raised
wait_asynch_event evs [] m = if any_raised evs m then some m else none
wait_asynch_event evs (r ∷ rs) m =
    let next = wait_asynch_event evs rs (raise_all r m) in if any_raised evs m then some m else next

-- What raising events leaves alone.
pub record SameRun (m m' : Machine) : Type 0 where
  pub state : m'.state ≡ m.state
  pub quit : m'.quit ≡ m.quit
  pub transitions : m'.transitions ≡ m.transitions

pub raise_event-SameRun :
    (ev : AppEvent) (now : ℕ) (m : Machine) → SameRun m (raise_event ev now m).0
unfolding raise_event
raise_event-SameRun ev now m = ground arith

pub SameRun-trans : {a b c : Machine} → SameRun a b → SameRun b c → SameRun a c
SameRun-trans p q = ground arith

pub raise_all-SameRun : (evs : List (AppEvent × ℕ)) (m : Machine) → SameRun m (raise_all evs m)
unfolding raise_all
raise_all-SameRun [] m = ground arith
raise_all-SameRun ((ev, now) ∷ evs) m =
    SameRun-trans (raise_event-SameRun ev now m) (raise_all-SameRun evs (raise_event ev now m).0)

pub check_rt-SameRun : (realtime : Option Bool) (m : Machine) → SameRun m (check_rt realtime m)
unfolding check_rt
check_rt-SameRun none m = ground arith
check_rt-SameRun (some realtime) m = ground arith

-- A loop that ends leaves the state, the table and the mark `quit` as they were, and ends by its
-- flag or by its test.
pub loop_ends :
    (test : Machine → Bool) (rs : List Round) (flag : Bool) (m : Machine) (r : Machine × Bool)
    → loop test rs flag m ≡ some r
    → SameRun m r.0 × ((r.1 || test r.0) ≡ true)
unfolding loop
loop_ends test [] flag m r h = ground arith
loop_ends test (x ∷ xs) flag m r h =
    let n = check_rt x.realtime m in
    ground (
      arith,
      SameRun-trans (check_rt-SameRun x.realtime m) (raise_all-SameRun x.raised n),
      loop_ends test xs x.outcome (raise_all x.raised n) r,
    )

pub wait_ends :
    (evs : List AppEvent) (rs : List (List (AppEvent × ℕ))) (m m' : Machine)
    → wait_asynch_event evs rs m ≡ some m'
    → SameRun m m' × (any_raised evs m' ≡ true)
unfolding wait_asynch_event
wait_ends evs [] m m' h = ground arith
wait_ends evs (r ∷ rs) m m' h =
    ground (arith, raise_all-SameRun r m, wait_ends evs rs (raise_all r m) m')
