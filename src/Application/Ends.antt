-- ===== src/Application/Ends.antt =====
-- stop() called before or during any activity, to the end of the loop of start (app.cpp,
-- periodic_app.cpp).
use dls.Common.{ℕ, ◌≡◌, refl, true, false, some, List, ◌∷◌, ◌∙◌, text_eq, pair_eq, inl, inr}
use dls.StateMachine
use dls.StateMachine.{StateMachine, is_raised, any_raised, raise_event, next_state}
use dls.Application.States.{AppState, AppEvent, state_eq, event_eq, arrow}
use dls.Application.Activities.{App, stop}
use dls.Application.Monitor.{MonitorConfig, quit_ends}
use dls.Application.Graph.{HasTable}
use dls.Application.Lifecycle.{Surroundings, activity_of, main_loop, main_loop-quit}
use dls.Application.Shutdown.{NoneRaised, AtQuit, raise_quit-OnlyQuit, quits, main_loop-step}
use dls.Application.Stopping.{StopsDuring}
use dls.Application.Asked.{StillAsked, stops_during}

-- The loop of start ends with its machine stopped in QUIT.
abbrev pub StopsInQuit : MonitorConfig → List Surroundings → App → Type 0
StopsInQuit config rest a =
    (b : App) × (main_loop config rest a ≡ some b)
    × (b.sm.state ≡ AppState.quit)
    × (b.sm.quit ≡ true)

StopsInQuit-AtQuit :
    (config : MonitorConfig) (s : Surroundings) (rest : List Surroundings) (at : ℕ)
    (watched : List ℕ) (c : App)
    → AtQuit c
    → s.monitored ≡ at ∷ watched
    → StopsInQuit config (s ∷ rest) c
StopsInQuit-AtQuit config s rest at watched c (there, settled, going) seen =
    let d : App = record c {
      sm = StateMachine.stop c.sm;
      should_quit = true;
      can_die = true;
      is_paused = false;
    } in
    let over = quit_ends config at watched c there settled in
    let last : (st : AppState) → st ≡ AppState.quit → activity_of config st s c ≡ some d =
      λ st is_quit. rw is_quit (unfold activity_of in rw seen over) in
    (
      d,
      main_loop-step config s rest c d going (last c.sm.state there)
          ∙ main_loop-quit config rest d (unfold StateMachine.stop in refl),
      (unfold StateMachine.stop in there),
      (unfold StateMachine.stop in refl),
    )

StopsInQuit-step :
    (config : MonitorConfig) (s : Surroundings) (rest : List Surroundings) (a c : App)
    → a.sm.quit ≡ false
    → activity_of config a.sm.state s a ≡ some c
    → StopsInQuit config rest c
    → StopsInQuit config (s ∷ rest) a
StopsInQuit-step config s rest a c going over (d, ended, there, stopped) =
    (d, main_loop-step config s rest a c going over ∙ ended, there, stopped)

StopsInQuit-StillAsked :
    (config : MonitorConfig) (s t : Surroundings) (rest : List Surroundings) (at : ℕ)
    (watched : List ℕ) (a : App)
    → StillAsked a
    → t.monitored ≡ at ∷ watched
    → StopsInQuit config (s ∷ t ∷ rest) a
StopsInQuit-StillAsked config s t rest at watched a (only, table, going, leads) seen =
    let (c, over, there) = quits config s a a.sm.state refl table only going leads in
    StopsInQuit-step config s (t ∷ rest) a c going over
      (StopsInQuit-AtQuit config t rest at watched c there seen)

-- stop() is called: before the first test of the activity, or while it waits or loops.
pub data StopCalled (s : Surroundings) (a : App) : App → Type 0 where
  before : (b : App) (now : ℕ) → b ≡ stop now a → StopCalled s a b
  during : (b : App) → b ≡ a → StopsDuring a.sm.state s → StopCalled s a b

-- An application that runs with its own table, in a state from which an arrow leads to QUIT and with
-- no request raised, on which stop() is called before the first test of the activity or while the
-- activity waits or loops, ends the loop of start within three activities, stopped in QUIT. The
-- conditions: up to the end of the round of the call no other request is raised and no round ends
-- in a pause that is not over; the outcomes of the rounds before it do not end the loop (that of
-- its own round is arbitrary); and the monitor makes a round during each of the next two activities.
pub StopCalled-ends :
    (config : MonitorConfig) (s t u : Surroundings) (rest : List Surroundings) (at at' : ℕ)
    (watched watched' : List ℕ) (a b : App)
    → HasTable a
    → NoneRaised a.sm
    → a.sm.quit ≡ false
    → arrow a.sm.state AppEvent.quit_request ≡ some AppState.quit
    → StopCalled s a b
    → t.monitored ≡ at ∷ watched
    → u.monitored ≡ at' ∷ watched'
    → (c : App) × (main_loop config (s ∷ t ∷ u ∷ rest) b ≡ some c)
      × (c.sm.state ≡ AppState.quit)
      × (c.sm.quit ≡ true)
StopCalled-ends config s t u rest at at' watched watched' a b table calm going leads
      (before _ now called) seen seen' =
    let (only, same) = raise_quit-OnlyQuit now a.sm table calm leads in
    let asked : StillAsked (stop now a) =
      unfold stop in (only, same.transitions ∙ table, same.quit ∙ going, rw (same.state) leads) in
    rw called (StopsInQuit-StillAsked config s t (u ∷ rest) at watched (stop now a) asked seen)
StopCalled-ends config s t u rest at at' watched watched' a b table calm going leads
      (during _ called comes) seen seen' =
    let (c, over, outcome) = stops_during config s a a.sm.state refl table calm going leads comes in
    let later : StopsInQuit config (t ∷ u ∷ rest) c = elim outcome [
      | inl there ↦ StopsInQuit-AtQuit config t (u ∷ rest) at watched c there seen
      | inr asked ↦ StopsInQuit-StillAsked config t u rest at' watched' c asked seen'
    ] in
    rw called (StopsInQuit-step config s (t ∷ u ∷ rest) a c going over later)
