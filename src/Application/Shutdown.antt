-- ===== src/Application/Shutdown.antt =====
-- What an activity does that begins with the request to quit raised: stop() called between two tests.
use dls.Common.{
  ℕ, ◌≡◌, Bool, true, false, some, List, [], ◌∷◌, arith, ◌∙◌, ap, codes, text_eq, pair_eq,
}
use dls.StateMachine.{is_raised, any_raised, raise_event}
use dls.StateMachine.Flags.{raise_event_flags}
use dls.Application.States.{AppState, AppEvent, Machine, state_eq, event_eq, arrow, app_table}
use dls.Application.Rounds.{Round, SameRun, raise_event-SameRun, loop, wait_asynch_event}
use dls.Application.Activities.{
  App, idle, activation, deactivation, run, fail, enable, trigger_level_watcher, go_async, go_first,
  stop_or_quit, deactivate_or_quit, quit_raised, activation_end, deactivation_end,
}
use dls.Application.Monitor.{MonitorConfig}
use dls.Application.Graph.{HasTable, entry, go_async-Moved}
use dls.Application.Lifecycle.{Surroundings, activity, activity_of, main_loop}

-- Of all requests only the one to quit is raised.
pub record OnlyQuit (m : Machine) : Type 0 where
  pub quitting : is_raised AppEvent.quit_request m ≡ true
  pub no_stop : is_raised AppEvent.stop_activation m ≡ false
  pub no_activation : is_raised AppEvent.activation_request m ≡ false
  pub no_deactivation : is_raised AppEvent.deactivation_request m ≡ false

abbrev pub NoneRaised : Machine → Type 0
NoneRaised m = (ev : AppEvent) → is_raised ev m ≡ false

-- The application has reached QUIT, desires it, and has not stopped yet.
abbrev pub AtQuit : App → Type 0
AtQuit c =
    (c.sm.state ≡ AppState.quit) × (c.sm.desired_state ≡ some AppState.quit) × (c.sm.quit ≡ false)

pub raise_quit-OnlyQuit :
    (now : ℕ) (m : Machine)
    → m.transitions ≡ app_table
    → NoneRaised m
    → arrow m.state AppEvent.quit_request ≡ some AppState.quit
    → let m' = (raise_event AppEvent.quit_request now m).0 in OnlyQuit m' × SameRun m m'
raise_quit-OnlyQuit now m table calm leads =
    let found = entry AppEvent.quit_request m AppState.quit table leads in
    let flags = λ (other : AppEvent). raise_event_flags AppEvent.quit_request other now m in
    (
      record {
        quitting = ground (arith, flags AppEvent.quit_request, found);
        no_stop = ground (arith, flags AppEvent.stop_activation, calm AppEvent.stop_activation);
        no_activation =
            ground (arith, flags AppEvent.activation_request, calm AppEvent.activation_request);
        no_deactivation =
            ground (arith, flags AppEvent.deactivation_request, calm AppEvent.deactivation_request);
      },
      raise_event-SameRun AppEvent.quit_request now m,
    )

pub wait-now :
    (evs : List AppEvent) (rounds : List (List (AppEvent × ℕ))) (m : Machine)
    → any_raised evs m ≡ true
    → wait_asynch_event evs rounds m ≡ some m
unfolding wait_asynch_event
wait-now evs [] m h = ground arith
wait-now evs (r ∷ rounds) m h = ground arith

pub loop-now :
    (test : Machine → Bool) (rounds : List Round) (flag : Bool) (m : Machine)
    → test m ≡ true
    → loop test rounds flag m ≡ some (m, flag)
unfolding loop
loop-now test [] flag m h = ground arith
loop-now test (r ∷ rounds) flag m h = ground arith

pub AtQuit-go_async :
    (now : ℕ) (a : App)
    → HasTable a
    → arrow a.sm.state AppEvent.quit_request ≡ some AppState.quit
    → a.sm.quit ≡ false
    → AtQuit (go_async AppEvent.quit_request now a)
AtQuit-go_async now a table leads going =
    let (moved, there) = go_async-Moved AppEvent.quit_request now a AppState.quit table leads in
    (there, moved.settled ∙ ap some there, moved.quit ∙ going)

-- In each state from which an arrow leads to QUIT, the activity ends at its first test and moves there.
pub quits :
    (config : MonitorConfig) (s : Surroundings) (a : App) (st : AppState)
    → a.sm.state ≡ st
    → HasTable a
    → OnlyQuit a.sm
    → a.sm.quit ≡ false
    → arrow st AppEvent.quit_request ≡ some AppState.quit
    → (c : App) × (activity_of config st s a ≡ some c) × AtQuit c
unfolding activity_of
quits config s a AppState.initialization here table only going leads = ground arith
quits config s a AppState.quit here table only going leads = ground arith
quits config s a AppState.idle here table only going leads =
    let b = trigger_level_watcher (enable (codes "activate") a) in
    (
      go_async AppEvent.quit_request s.now b,
      unfold idle go_first any_raised in
          ground (
            arith,
            wait-now (AppEvent.activation_request ∷ AppEvent.quit_request ∷ []) s.raises b.sm,
            only.quitting,
            only.no_activation,
          ),
      AtQuit-go_async s.now b table (rw here) going,
    )
quits config s a AppState.fail here table only going leads = (
  go_async AppEvent.quit_request s.now a,
  unfold fail go_first any_raised in
      ground (
        arith,
        wait-now (AppEvent.deactivation_request ∷ AppEvent.quit_request ∷ []) s.raises a.sm,
        only.quitting,
        only.no_deactivation,
      ),
  AtQuit-go_async s.now a table (rw here) going,
)
quits config s a AppState.run here table only going leads = (
  go_async AppEvent.quit_request s.now a,
  unfold run go_first deactivate_or_quit in
      ground (
        arith,
        loop-now deactivate_or_quit s.rounds false a.sm,
        only.quitting,
        only.no_deactivation,
      ),
  AtQuit-go_async s.now a table (rw here) going,
)
quits config s a AppState.deactivation here table only going leads = (
  go_async AppEvent.quit_request s.now a,
  unfold deactivation deactivation_end quit_raised in
      ground (arith, loop-now quit_raised s.rounds false a.sm, only.quitting),
  AtQuit-go_async s.now a table (rw here) going,
)
quits config s a AppState.activation here table only going leads =
    let b = trigger_level_watcher (enable (codes "stopActivation") a) in
    (
      go_async AppEvent.quit_request s.now b,
      unfold activation activation_end stop_or_quit in
          ground (arith, loop-now stop_or_quit s.rounds false b.sm, only.quitting, only.no_stop),
      AtQuit-go_async s.now b table (rw here) going,
    )

pub main_loop-step :
    (config : MonitorConfig) (s : Surroundings) (rest : List Surroundings) (a c : App)
    → a.sm.quit ≡ false
    → activity_of config a.sm.state s a ≡ some c
    → main_loop config (s ∷ rest) a ≡ main_loop config rest c
unfolding main_loop activity
main_loop-step config s rest a c going done = ground arith
