-- ===== src/Application/Stale.antt =====
-- A stop of an activation that comes while the activation succeeds.
use dls.Common.{ℕ, ◌≡◌, true, false, some, List, arith, codes, text_eq, pair_eq}
use dls.StateMachine.{is_raised}
use dls.StateMachine.Flags.{next_state-is_raised}
use dls.Application.States.{AppState, AppEvent, state_eq, event_eq}
use dls.Application.Rounds.{Round}
use dls.Application.Activities.{
  App, activation, activation_end, stop_or_quit, enable, disable, trigger_level_watcher, go,
  go_async,
}
use dls.Application.Graph.{HasTable, go-Moved, go_async-Moved}
use dls.Application.Shutdown.{loop-now}

stops :
    (rounds : List Round) (now : ℕ) (a : App)
    → HasTable a
    → a.sm.state ≡ AppState.activation
    → is_raised AppEvent.stop_activation a.sm ≡ true
    → (b : App) × (activation rounds now a ≡ some b) × (b.sm.state ≡ AppState.idle)
unfolding activation activation_end
stops rounds now a table here raised =
    let a' = trigger_level_watcher (enable (codes "stopActivation") a) in
    let d = trigger_level_watcher (disable (codes "stopActivation") a') in
    (
      go_async AppEvent.stop_activation now d,
      unfold stop_or_quit in ground (arith, loop-now stop_or_quit rounds false a'.sm, raised),
      (go_async-Moved AppEvent.stop_activation now d AppState.idle table (rw here)).1,
    )

-- An activation that succeeds moves to RUN and consumes no request: one to stop the activation, raised
-- during the last check, stays raised. An activation that starts with that request raised moves
-- back to IDLE without a check, whatever its rounds would be.
pub stale_stop :
    (rounds : List Round) (now : ℕ) (a : App)
    → HasTable a
    → a.sm.state ≡ AppState.activation
    → ((activation_end now true a).sm.state ≡ AppState.run)
      × ((ev : AppEvent) → is_raised ev (activation_end now true a).sm ≡ is_raised ev a.sm)
      × (is_raised AppEvent.stop_activation a.sm ≡ true
          → (b : App) × (activation rounds now a ≡ some b) × (b.sm.state ≡ AppState.idle))
unfolding activation_end
stale_stop rounds now a table here =
    let b = trigger_level_watcher (
      enable (codes "deactivate")
        (disable (codes "stopActivation") (disable (codes "activate") a))) in
    (
      (go-Moved AppEvent.activated now b AppState.run table (rw here)).1,
      (λ ev. unfold go in next_state-is_raised AppEvent.activated ev now a.sm),
      λ raised. stops rounds now a table here raised,
    )
