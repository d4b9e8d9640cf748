-- ===== src/Application/Stopping.antt =====
-- stop() called while an activity waits or loops: the wait or loop ends with the request raised. A
-- loop whose round ends in a pause with no unpausing does not.
use dls.Common.{
  ℕ, ◌≡◌, refl, Bool, true, false, some, none, List, [], ◌∷◌, arith, ◌∙◌, text_eq, pair_eq, Option,
}
use dls.StateMachine.{is_raised, any_raised, raise_event}
use dls.Application.States.{AppState, AppEvent, Machine, state_eq, event_eq, arrow, app_table}
use dls.Application.Rounds.{
  Round, SameRun, SameRun-trans, check_rt-SameRun, check_rt, raise_all, pause_over, loop,
  wait_asynch_event,
}
use dls.Application.Activities.{stop_or_quit, deactivate_or_quit, quit_raised}
use dls.Application.Lifecycle.{Surroundings}
use dls.Application.Shutdown.{OnlyQuit, NoneRaised, raise_quit-OnlyQuit, wait-now, loop-now}

-- In some round of a loop the request to quit is raised, and nothing else; the rounds before raise
-- nothing and their outcome is false; and no round up to that one ends in a pause that is not over.
pub data StopComes : List Round → Type 0 where
  stop_here :
      (r : Round) (rest : List Round) (now : ℕ)
      → r.raised ≡ (AppEvent.quit_request, now) ∷ []
      → pause_over r.pauses ≡ true
      → StopComes (r ∷ rest)
  stop_later :
      (r : Round) (rest : List Round)
      → r.raised ≡ []
      → r.outcome ≡ false
      → pause_over r.pauses ≡ true
      → StopComes rest
      → StopComes (r ∷ rest)

-- The same for what is raised during a wait for events.
pub data StopHeard : List (List (AppEvent × ℕ)) → Type 0 where
  heard_here :
      (r : List (AppEvent × ℕ)) (rest : List (List (AppEvent × ℕ))) (now : ℕ)
      → r ≡ (AppEvent.quit_request, now) ∷ []
      → StopHeard (r ∷ rest)
  heard_later :
      (r : List (AppEvent × ℕ)) (rest : List (List (AppEvent × ℕ)))
      → r ≡ []
      → StopHeard rest
      → StopHeard (r ∷ rest)

-- stop() is called during the activity of a state.
abbrev pub StopsDuring : AppState → Surroundings → Type 0
StopsDuring AppState.initialization s = Unit
StopsDuring AppState.quit s = Unit
StopsDuring AppState.idle s = StopHeard s.raises
StopsDuring AppState.fail s = StopHeard s.raises
StopsDuring AppState.activation s = StopComes s.rounds
StopsDuring AppState.run s = StopComes s.rounds
StopsDuring AppState.deactivation s = StopComes s.rounds

-- the machine after the loop or wait in which the request came
pub record IsAsked (m m' : Machine) : Type 0 where
  pub only : OnlyQuit m'
  pub same : SameRun m m'

-- a test that a request to quit satisfies, and that fails where nothing is raised
pub record Hears (test : Machine → Bool) : Type 0 where
  hears : (m : Machine) → is_raised AppEvent.quit_request m ≡ true → test m ≡ true
  deaf : (m : Machine) → NoneRaised m → test m ≡ false

pub stop_or_quit-Hears : Hears stop_or_quit
unfolding stop_or_quit
stop_or_quit-Hears = record {
  hears = λ m h. ground arith;
  deaf = λ m calm. ground (arith, calm AppEvent.stop_activation, calm AppEvent.quit_request);
}

pub deactivate_or_quit-Hears : Hears deactivate_or_quit
unfolding deactivate_or_quit
deactivate_or_quit-Hears = record {
  hears = λ m h. ground arith;
  deaf = λ m calm. ground (arith, calm AppEvent.deactivation_request, calm AppEvent.quit_request);
}

pub quit_raised-Hears : Hears quit_raised
unfolding quit_raised
quit_raised-Hears = record {
  hears = λ m h. h;
  deaf = λ m calm. ground (arith, calm AppEvent.quit_request);
}

check_rt-NoneRaised :
    (realtime : Option Bool) (m : Machine) → NoneRaised m → NoneRaised (check_rt realtime m)
unfolding check_rt is_raised
check_rt-NoneRaised none m calm ev = calm ev
check_rt-NoneRaised (some realtime) m calm ev = ground (arith, calm ev)

-- a round at whose start nothing is raised and whose pause is over
loop-quiet :
    (test : Machine → Bool) (r : Round) (rest : List Round) (m : Machine)
    → test m ≡ false
    → pause_over r.pauses ≡ true
    → r.raised ≡ []
    → r.outcome ≡ false
    → loop test (r ∷ rest) false m ≡ loop test rest false (check_rt r.realtime m)
unfolding loop raise_all
loop-quiet test r rest m quiet over raised outcome = rw (quiet, over, raised, outcome) refl

loop-asked :
    (test : Machine → Bool) (r : Round) (rest : List Round) (now : ℕ) (m : Machine)
    → test m ≡ false
    → pause_over r.pauses ≡ true
    → r.raised ≡ (AppEvent.quit_request, now) ∷ []
    → loop test (r ∷ rest) false m
      ≡ loop test rest r.outcome (raise_event AppEvent.quit_request now (check_rt r.realtime m)).0
unfolding loop raise_all
loop-asked test r rest now m quiet over raised = rw (quiet, over, raised) refl

pub loop-Hears :
    (test : Machine → Bool) (rounds : List Round) (m : Machine)
    → Hears test
    → m.transitions ≡ app_table
    → NoneRaised m
    → arrow m.state AppEvent.quit_request ≡ some AppState.quit
    → StopComes rounds
    → (m' : Machine) × (flag : Bool) × (loop test rounds false m ≡ some (m', flag)) × IsAsked m m'
loop-Hears test rounds m h table calm leads (stop_here r rest now raised over) =
    let n = check_rt r.realtime m in
    let same = check_rt-SameRun r.realtime m in
    let m' = (raise_event AppEvent.quit_request now n).0 in
    let (only, kept) =
      raise_quit-OnlyQuit now n (same.transitions ∙ table) (check_rt-NoneRaised r.realtime m calm)
        (rw (same.state) leads) in
    let ended = loop-now test rest r.outcome m' (h.hears m' only.quitting) in
    (
      m',
      r.outcome,
      loop-asked test r rest now m (h.deaf m calm) over raised ∙ ended,
      record { only = only; same = SameRun-trans same kept },
    )
loop-Hears test rounds m h table calm leads (stop_later r rest raised outcome over later) =
    let n = check_rt r.realtime m in
    let same = check_rt-SameRun r.realtime m in
    let (m', flag, ended, asked) =
      loop-Hears test rest n h (same.transitions ∙ table) (check_rt-NoneRaised r.realtime m calm)
        (rw (same.state) leads) later in
    (
      m',
      flag,
      loop-quiet test r rest m (h.deaf m calm) over raised outcome ∙ ended,
      record { only = asked.only; same = SameRun-trans same asked.same },
    )

pub wait-Hears :
    (evs : List AppEvent) (rounds : List (List (AppEvent × ℕ))) (m : Machine)
    → Hears (any_raised evs)
    → m.transitions ≡ app_table
    → NoneRaised m
    → arrow m.state AppEvent.quit_request ≡ some AppState.quit
    → StopHeard rounds
    → (m' : Machine) × (wait_asynch_event evs rounds m ≡ some m') × IsAsked m m'
unfolding wait_asynch_event raise_all
wait-Hears evs rounds m h table calm leads (heard_here r rest now raised) =
    let m' = (raise_event AppEvent.quit_request now m).0 in
    let (only, same) = raise_quit-OnlyQuit now m table calm leads in
    let quiet = h.deaf m calm in
    let ended = wait-now evs rest m' (h.hears m' only.quitting) in
    (m', rw (quiet, raised) ended, record { only = only; same = same })
wait-Hears evs rounds m h table calm leads (heard_later r rest raised later) =
    let (m', ended, asked) = wait-Hears evs rest m h table calm leads later in
    (m', rw (raised) (ground (arith, h.deaf m calm, ended)), asked)

pub activate_or_quit-Hears :
    Hears (any_raised (AppEvent.activation_request ∷ AppEvent.quit_request ∷ []))
unfolding any_raised
activate_or_quit-Hears = record {
  hears = λ m h. ground arith;
  deaf = λ m calm. ground (arith, calm AppEvent.activation_request, calm AppEvent.quit_request);
}

pub leave_or_quit-Hears :
    Hears (any_raised (AppEvent.deactivation_request ∷ AppEvent.quit_request ∷ []))
unfolding any_raised
leave_or_quit-Hears = record {
  hears = λ m h. ground arith;
  deaf = λ m calm. ground (arith, calm AppEvent.deactivation_request, calm AppEvent.quit_request);
}

-- A round whose pause is not over keeps the loop from ending, whatever is raised in it.
pub loop_paused :
    (test : Machine → Bool) (r : Round) (rest : List Round) (m : Machine)
    → test m ≡ false
    → pause_over r.pauses ≡ false
    → loop test (r ∷ rest) false m ≡ none
unfolding loop
loop_paused test r rest m quiet paused = rw (quiet, paused) refl
