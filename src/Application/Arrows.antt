-- ===== src/Application/Arrows.antt =====
-- The activities of the states against the arrows of the diagram.
use dls.Common.{
  ℕ, ◌≡◌, refl, Bool, true, false, ◌||◌, some, List, if◌then◌else◌, arith, subst, codes,
  Option-cases, Bool-cases, inl, inr, pair_eq,
}
use dls.CommandManager.{◌>>=◌}
use dls.StateMachine.{is_raised, any_raised}
use dls.Application.States.{AppState, AppEvent, Machine, state_eq, event_eq}
use dls.Application.Rounds.{Round, loop, loop_ends, SameRun}
use dls.Application.Activities.{
  App, enable, disable, trigger_level_watcher, go, go_async, go_first, idle, stop_or_quit,
  deactivate_or_quit, quit_raised, activation_end, activation, run, run_layer, deactivation_end,
  deactivation, fail,
}
use dls.Application.Graph.{
  Moved, HasTable, go-Moved, go_async-Moved, SameRun-Moved, go_first-Moved, waited-Moved,
  prepared-Moved,
}

pub idle-Moved :
    (rounds : List (List (AppEvent × ℕ))) (now : ℕ) (a b : App)
    → HasTable a
    → a.sm.state ≡ AppState.idle
    → idle rounds now a ≡ some b
    → Moved a b
unfolding idle
idle-Moved rounds now a b table here h =
    let a' = trigger_level_watcher (enable (codes "activate") a) in
    prepared-Moved {a' = a'} refl (
      waited-Moved AppEvent.activation_request AppEvent.quit_request rounds now a' b
        AppState.activation AppState.quit table (rw here) (rw here) h)

pub fail-Moved :
    (rounds : List (List (AppEvent × ℕ))) (now : ℕ) (a b : App)
    → HasTable a
    → a.sm.state ≡ AppState.fail
    → fail rounds now a ≡ some b
    → Moved a b
unfolding fail
fail-Moved rounds now a b table here h =
    waited-Moved AppEvent.deactivation_request AppEvent.quit_request rounds now a b
      AppState.deactivation AppState.quit table (rw here) (rw here) h

pub run_layer-Moved :
    (rounds : List (List (AppEvent × ℕ))) (now : ℕ) (a b : App)
    → HasTable a
    → a.sm.state ≡ AppState.run
    → run_layer rounds now a ≡ some b
    → Moved a b
unfolding run_layer
run_layer-Moved rounds now a b table here h =
    waited-Moved AppEvent.deactivation_request AppEvent.quit_request rounds now a b
      AppState.deactivation AppState.quit table (rw here) (rw here) h

activation_end-Moved :
    (now : ℕ) (activate : Bool) (a : App)
    → HasTable a
    → a.sm.state ≡ AppState.activation
    → Moved a (activation_end now activate a)
unfolding activation_end
activation_end-Moved now true a table here =
    let b =
      enable (codes "deactivate")
        (disable (codes "stopActivation") (disable (codes "activate") a)) in
    prepared-Moved {a' = trigger_level_watcher b} refl
      (go-Moved AppEvent.activated now (trigger_level_watcher b) AppState.run table (rw here)).0
activation_end-Moved now false a table here =
    elim (Bool-cases (is_raised AppEvent.stop_activation a.sm)) [
      | inl stopped ↦
          let b = trigger_level_watcher (disable (codes "stopActivation") a) in
          rw (stopped, activation_end)
            (prepared-Moved {a' = b} refl
              (go_async-Moved AppEvent.stop_activation now b AppState.idle table (rw here)).0)
      | inr going ↦
          rw (going, activation_end)
            (go_async-Moved AppEvent.quit_request now a AppState.quit table (rw here)).0
    ]

deactivation_end-Moved :
    (now : ℕ) (deactivated : Bool) (a : App)
    → HasTable a
    → a.sm.state ≡ AppState.deactivation
    → Moved a (deactivation_end now deactivated a)
unfolding deactivation_end
deactivation_end-Moved now deactivated a table here =
    elim (Bool-cases (is_raised AppEvent.quit_request a.sm)) [
      | inl quitting ↦
          rw (quitting, deactivation_end)
            (go_async-Moved AppEvent.quit_request now a AppState.quit table (rw here)).0
      | inr going ↦ rw (going, deactivation_end) (ended deactivated)
    ]
  where
    ended :
        (d : Bool)
        → Moved a (
            if d
            then go AppEvent.deactivated now
                (trigger_level_watcher (disable (codes "deactivate") a))
            else go_async AppEvent.quit_request now a)
    ended true =
        let b = trigger_level_watcher (disable (codes "deactivate") a) in
        prepared-Moved {a' = b} refl
          (go-Moved AppEvent.deactivated now b AppState.idle table (rw here)).0
    ended false = (go_async-Moved AppEvent.quit_request now a AppState.quit table (rw here)).0

run_end-Moved :
    (now : ℕ) (failure : Bool) (a : App)
    → HasTable a
    → a.sm.state ≡ AppState.run
    → (failure || deactivate_or_quit a.sm) ≡ true
    → Moved a (
        if failure
        then go AppEvent.failure now a
        else go_first AppEvent.deactivation_request AppEvent.quit_request now a)
unfolding deactivate_or_quit
run_end-Moved now true a table here over =
    (go-Moved AppEvent.failure now a AppState.fail table (rw here)).0
run_end-Moved now false a table here over =
    go_first-Moved AppEvent.deactivation_request AppEvent.quit_request now a AppState.deactivation
      AppState.quit table (rw here) (rw here) (unfold any_raised in ground arith)

-- An activity that runs a loop and then moves.
looped-Moved :
    (test : Machine → Bool) (rounds : List Round) (a b : App) (end : Bool → App → App)
    → ((o : Bool) (m : Machine)
        → SameRun a.sm m
        → (o || test m) ≡ true
        → Moved (record a { sm = m }) (end o (record a { sm = m })))
    → (do (m, o) ← loop test rounds false a.sm; some (end o (record a { sm = m }))) ≡ some b
    → Moved a b
looped-Moved test rounds a b end moves h = elim (Option-cases (loop test rounds false a.sm)) [
  | inl running ↦ ground arith
  | inr ((m, o), over) ↦
      let (same, ended) = loop_ends test rounds false a.sm (m, o) over in
      subst (Moved a) (result m o over)
        (SameRun-Moved {b = record a { sm = m }} same (moves o m same ended))
]
  where
    result :
        (m : Machine) (o : Bool)
        → loop test rounds false a.sm ≡ some (m, o)
        → end o (record a { sm = m }) ≡ b
    result m o over = ground arith

pub activation-Moved :
    (rounds : List Round) (now : ℕ) (a b : App)
    → HasTable a
    → a.sm.state ≡ AppState.activation
    → activation rounds now a ≡ some b
    → Moved a b
unfolding activation
activation-Moved rounds now a b table here h =
    let a' = trigger_level_watcher (enable (codes "stopActivation") a) in
    prepared-Moved {a' = a'} refl (
      looped-Moved stop_or_quit rounds a' b (activation_end now)
        (λ o m same over.
          activation_end-Moved now o (record a' { sm = m }) (ground arith) (ground arith))
        h)

pub deactivation-Moved :
    (rounds : List Round) (now : ℕ) (a b : App)
    → HasTable a
    → a.sm.state ≡ AppState.deactivation
    → deactivation rounds now a ≡ some b
    → Moved a b
unfolding deactivation
deactivation-Moved rounds now a b table here h =
    looped-Moved quit_raised rounds a b (deactivation_end now)
      (λ o m same over.
        deactivation_end-Moved now o (record a { sm = m }) (ground arith) (ground arith))
      h

pub run-Moved :
    (rounds : List Round) (now : ℕ) (a b : App)
    → HasTable a
    → a.sm.state ≡ AppState.run
    → run rounds now a ≡ some b
    → Moved a b
unfolding run
run-Moved rounds now a b table here h =
    looped-Moved deactivate_or_quit rounds a b
      (λ o c.
        if o
        then go AppEvent.failure now c
        else go_first AppEvent.deactivation_request AppEvent.quit_request now c)
      (λ o m same over.
        run_end-Moved now o (record a { sm = m }) (ground arith) (ground arith) over)
      h
