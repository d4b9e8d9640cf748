-- ===== src/Examples/Applications.antt =====
-- An application that is constructed, executed, stopped and monitored.
use dls.Common.{◌≡◌, refl, true, false, Option, none, some, [], ◌∷◌, arith, codes}
use dls.StateMachine.{is_raised, raise_event}
use dls.Application.States.{AppState, AppEvent, state_eq, event_eq}
use dls.Application.Activities.{App, new_app, go, go_async}
use dls.Application.Monitor.{MonitorConfig}
use dls.Application.Lifecycle.{
  Surroundings, activity, main_loop, execute, Ended, activity-Ended, execute_ends,
}
use dls.Application.Rounds.{Round, pause_over}
use dls.Application.Shutdown.{NoneRaised}
use dls.Application.Stopping.{stop_here, stop_later}
use dls.Application.Ends.{during, StopCalled-ends}

abbrev config : MonitorConfig
config = record { enable_wrong_process_state = true; monitor_period_ms = 100 }

abbrev calm : Surroundings
calm = record { raises = []; rounds = []; monitored = []; now = 20 }

abbrev watched : Surroundings
watched = record { raises = []; rounds = []; monitored = 40 ∷ []; now = 30 }

abbrev idle_app : App
idle_app = go AppEvent.initialized 1 (new_app (codes "walk") 0)

-- The application fails in the round in which stop() is called, after a pause that somebody ends.
abbrev running_app : App
running_app = go AppEvent.activated 3 (go_async AppEvent.activation_request 2 idle_app)

running_app-NoneRaised : NoneRaised running_app.sm
running_app-NoneRaised ev = unfold is_raised go go_async new_app in ground arith

abbrev quiet_round : Round
quiet_round = record { raised = []; outcome = false; realtime = some true; pauses = false ∷ [] }

abbrev last_round : Round
last_round = record {
  raised = (AppEvent.quit_request, 15) ∷ [];
  outcome = true;
  realtime = some false;
  pauses = true ∷ true ∷ false ∷ [];
}

abbrev failing : Surroundings
failing = record { raises = []; rounds = quiet_round ∷ last_round ∷ []; monitored = []; now = 20 }

StopCalled-ends_example :
    (c : App) × (main_loop config (failing ∷ watched ∷ watched ∷ []) running_app ≡ some c)
    × (c.sm.state ≡ AppState.quit)
    × (c.sm.quit ≡ true)
StopCalled-ends_example =
    StopCalled-ends config failing watched watched [] 40 40 [] [] running_app running_app
      (unfold go go_async new_app in refl) running_app-NoneRaised
      (unfold go go_async new_app in refl) (unfold go go_async new_app in refl)
      (during running_app refl (
        unfold go go_async new_app in
        stop_later quiet_round (last_round ∷ []) refl refl (unfold pause_over in refl)
          (stop_here last_round [] 15 refl (unfold pause_over in refl))))
      refl refl

-- Paused in that round with nobody to end the pause, it runs on.
abbrev paused : Surroundings
paused = record failing {
  rounds = quiet_round ∷ record last_round { pauses = true ∷ true ∷ true ∷ [] } ∷ [];
}

paused-runs : main_loop config (paused ∷ watched ∷ watched ∷ []) running_app ≡ none
unfolding main_loop go go_async new_app
paused-runs = refl

-- The request to quit arrives while the application is idle.
abbrev told : Surroundings
told = record {
  raises = ((AppEvent.quit_request, 15) ∷ []) ∷ [];
  rounds = [];
  monitored = [];
  now = 20;
}

-- The value of an option, or another one.
abbrev value {ℓ} : {A : Type ℓ} → Option A → A → A
value none d = d
value (some a) d = a

abbrev dead_app : App
dead_app = value (execute config (told ∷ watched ∷ []) 1 (new_app (codes "walk") 0)) idle_app

dead_app-reached : execute config (told ∷ watched ∷ []) 1 (new_app (codes "walk") 0) ≡ some dead_app
unfolding execute new_app
dead_app-reached = refl

execute_ends_example : (dead_app.sm.state ≡ AppState.quit) × (dead_app.sm.quit ≡ true)
execute_ends_example =
    execute_ends config (told ∷ watched ∷ []) (codes "walk") 0 1 dead_app dead_app-reached

abbrev moved_app : App
moved_app = value (activity config told idle_app) idle_app

activity-Ended_example : Ended idle_app moved_app
activity-Ended_example =
    activity-Ended config told idle_app moved_app (unfold go new_app in refl)
      (unfold activity go new_app in refl)

-- An application in IDLE that desires ACTIVATION since time 5.
abbrev asked_app : App
asked_app = record idle_app { sm = (raise_event AppEvent.activation_request 5 idle_app.sm).0 }

-- An application in ACTIVATION that has been asked to stop the activation.
abbrev stopping_app : App
stopping_app =
    let a = go AppEvent.activation_request 2 idle_app in
    record a { sm = (raise_event AppEvent.stop_activation 3 a.sm).0 }
