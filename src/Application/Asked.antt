-- ===== src/Application/Asked.antt =====
-- Where an activity leads during which stop() is called (app.cpp, periodic_app.cpp).
use dls.Common.{
  ℕ, ◌≡◌, refl, false, some, [], ◌∷◌, arith, ◌∙◌, codes, text_eq, pair_eq, ◌⊎◌, inl, inr,
  Bool-cases,
}
use dls.StateMachine.Flags.{next_state-is_raised}
use dls.Application.States.{AppState, AppEvent, state_eq, event_eq, arrow}
use dls.Application.Activities.{
  App, idle, activation, deactivation, run, fail, enable, disable, trigger_level_watcher, go,
  go_async, go_first, stop_or_quit, deactivate_or_quit, quit_raised, activation_end,
  deactivation_end,
}
use dls.Application.Monitor.{MonitorConfig}
use dls.Application.Graph.{HasTable, go-Moved}
use dls.Application.Lifecycle.{Surroundings, activity_of}
use dls.Application.Shutdown.{OnlyQuit, NoneRaised, AtQuit, AtQuit-go_async}
use dls.Application.Stopping.{
  StopsDuring, loop-Hears, wait-Hears, stop_or_quit-Hears, deactivate_or_quit-Hears,
  quit_raised-Hears, activate_or_quit-Hears, leave_or_quit-Hears,
}

-- An application that still has the request to quit before it, in a state that an arrow leads from
-- to QUIT.
abbrev pub StillAsked : App → Type 0
StillAsked c =
    OnlyQuit c.sm
    × HasTable c
    × (c.sm.quit ≡ false)
    × (arrow c.sm.state AppEvent.quit_request ≡ some AppState.quit)

OnlyQuit-go : (ev : AppEvent) (now : ℕ) (a : App) → OnlyQuit a.sm → OnlyQuit (go ev now a).sm
unfolding go
OnlyQuit-go ev now a only =
    let kept = λ (other : AppEvent). next_state-is_raised ev other now a.sm in
    record {
      quitting = kept AppEvent.quit_request ∙ only.quitting;
      no_stop = kept AppEvent.stop_activation ∙ only.no_stop;
      no_activation = kept AppEvent.activation_request ∙ only.no_activation;
      no_deactivation = kept AppEvent.deactivation_request ∙ only.no_deactivation;
    }

-- An event of the activity's own moves to a state that an arrow leads from to QUIT.
StillAsked-go :
    (ev : AppEvent) (now : ℕ) (a : App) (t : AppState)
    → HasTable a
    → arrow a.sm.state ev ≡ some t
    → arrow t AppEvent.quit_request ≡ some AppState.quit
    → a.sm.quit ≡ false
    → OnlyQuit a.sm
    → StillAsked (go ev now a)
StillAsked-go ev now a t table along leads going only =
    let (moved, there) = go-Moved ev now a t table along in
    (OnlyQuit-go ev now a only, moved.table, moved.quit ∙ going, rw (there) leads)

-- An activity during which the request comes ends in QUIT, or in a state with the request still raised.
pub stops_during :
    (config : MonitorConfig) (s : Surroundings) (a : App) (st : AppState)
    → a.sm.state ≡ st
    → HasTable a
    → NoneRaised a.sm
    → a.sm.quit ≡ false
    → arrow st AppEvent.quit_request ≡ some AppState.quit
    → StopsDuring st s
    → (c : App) × (activity_of config st s a ≡ some c) × (AtQuit c ⊎ StillAsked c)
unfolding activity_of
stops_during config s a AppState.initialization here table calm going leads comes = ground arith
stops_during config s a AppState.quit here table calm going leads comes = ground arith
stops_during config s a AppState.idle here table calm going leads comes =
    let b = trigger_level_watcher (enable (codes "activate") a) in
    let (m, ended, asked) =
      wait-Hears (AppEvent.activation_request ∷ AppEvent.quit_request ∷ []) s.raises b.sm
        activate_or_quit-Hears table calm (rw here leads) comes in
    let c = record b { sm = m } in
    (
      go_async AppEvent.quit_request s.now c,
      unfold idle go_first in ground (arith, ended, asked.only.quitting, asked.only.no_activation),
      inl (
          AtQuit-go_async s.now c (asked.same.transitions ∙ table)
            (rw (asked.same.state, here) leads) (asked.same.quit ∙ going)),
    )
stops_during config s a AppState.fail here table calm going leads comes =
    let (m, ended, asked) =
      wait-Hears (AppEvent.deactivation_request ∷ AppEvent.quit_request ∷ []) s.raises a.sm
        leave_or_quit-Hears table calm (rw here leads) comes in
    let c = record a { sm = m } in
    (
      go_async AppEvent.quit_request s.now c,
      unfold fail go_first in
          ground (arith, ended, asked.only.quitting, asked.only.no_deactivation),
      inl (
          AtQuit-go_async s.now c (asked.same.transitions ∙ table)
            (rw (asked.same.state, here) leads) (asked.same.quit ∙ going)),
    )
stops_during config s a AppState.deactivation here table calm going leads comes =
    let (m, deactivated, ended, asked) =
      loop-Hears quit_raised s.rounds a.sm quit_raised-Hears table calm (rw here leads) comes in
    let c = record a { sm = m } in
    (
      go_async AppEvent.quit_request s.now c,
      unfold deactivation deactivation_end in ground (arith, ended, asked.only.quitting),
      inl (
          AtQuit-go_async s.now c (asked.same.transitions ∙ table)
            (rw (asked.same.state, here) leads) (asked.same.quit ∙ going)),
    )
stops_during config s a AppState.run here table calm going leads comes =
    let (m, failure, ended, asked) =
      loop-Hears deactivate_or_quit s.rounds a.sm deactivate_or_quit-Hears table calm
        (rw here leads) comes in
    let c = record a { sm = m } in
    elim (Bool-cases failure) [
      | inl failed ↦ (
        go AppEvent.failure s.now c,
        unfold run in ground (arith, ended, failed),
        inr (
            StillAsked-go AppEvent.failure s.now c AppState.fail (asked.same.transitions ∙ table)
              (rw (asked.same.state, here) refl) refl (asked.same.quit ∙ going) asked.only),
      )
      | inr fine ↦ (
        go_async AppEvent.quit_request s.now c,
        unfold run go_first in
            ground (arith, ended, fine, asked.only.quitting, asked.only.no_deactivation),
        inl (
            AtQuit-go_async s.now c (asked.same.transitions ∙ table)
              (rw (asked.same.state, here) leads) (asked.same.quit ∙ going)),
      )
    ]
stops_during config s a AppState.activation here table calm going leads comes =
    let b = trigger_level_watcher (enable (codes "stopActivation") a) in
    let (m, activated, ended, asked) =
      loop-Hears stop_or_quit s.rounds b.sm stop_or_quit-Hears table calm (rw here leads) comes in
    let c = record b { sm = m } in
    let d = trigger_level_watcher (
      enable (codes "deactivate")
        (disable (codes "stopActivation") (disable (codes "activate") c))) in
    elim (Bool-cases activated) [
      | inl succeeded ↦ (
        go AppEvent.activated s.now d,
        unfold activation activation_end in ground (arith, ended, succeeded),
        inr (
            StillAsked-go AppEvent.activated s.now d AppState.run (asked.same.transitions ∙ table)
              (rw (asked.same.state, here) refl) refl (asked.same.quit ∙ going) asked.only),
      )
      | inr failed ↦ (
        go_async AppEvent.quit_request s.now c,
        unfold activation activation_end in
            ground (arith, ended, failed, asked.only.quitting, asked.only.no_stop),
        inl (
            AtQuit-go_async s.now c (asked.same.transitions ∙ table)
              (rw (asked.same.state, here) leads) (asked.same.quit ∙ going)),
      )
    ]
