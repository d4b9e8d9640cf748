-- ===== src/Application/Lifecycle.antt =====
-- The main loop of an application: App::execute and StateMachine::start over the activities.
use dls.Common.{
  ℕ, ◌≡◌, refl, true, false, Option, none, some, List, [], ◌∷◌, if◌then◌else◌, arith, inl, inr,
  Option-cases, Text, ◌∙◌,
}
use dls.CommandManager.{◌>>=◌}
use dls.Application.States.{AppState, AppEvent, state_eq, event_eq}
use dls.Application.Rounds.{Round}
use dls.Application.Activities.{App, idle, activation, deactivation, run, fail, go, new_app}
use dls.Application.Monitor.{MonitorConfig, quit, await_monitor, monitor_round}
use dls.Application.Graph.{Moved, HasTable, go-Moved}
use dls.Application.Arrows.{idle-Moved, activation-Moved, deactivation-Moved, run-Moved, fail-Moved}

-- What happens around the application during one activity: the events that other threads raise, the
-- outcomes of the activity's rounds, the rounds of the monitor, and the time of the transition.
pub record Surroundings : Type 0 where
  pub raises : List (List (AppEvent × ℕ))
  pub rounds : List Round
  pub monitored : List ℕ
  pub now : ℕ

-- AppState::activity() of each state; that of INITIALIZATION is empty
unfoldable pub activity_of : MonitorConfig → AppState → Surroundings → App → Option App
unfolding idle activation deactivation run fail quit
activity_of config AppState.initialization s a = some a
activity_of config AppState.idle s a = idle s.raises s.now a
activity_of config AppState.activation s a = activation s.rounds s.now a
activity_of config AppState.deactivation s a = deactivation s.rounds s.now a
activity_of config AppState.run s a = run s.rounds s.now a
activity_of config AppState.fail s a = fail s.raises s.now a
activity_of config AppState.quit s a = quit config s.monitored a

unfoldable pub activity : MonitorConfig → Surroundings → App → Option App
unfolding activity_of
activity config s a = activity_of config a.sm.state s a

-- while (!quit) runState(), for the surroundings given; `none` while an activity or the loop runs
unfoldable pub main_loop : MonitorConfig → List Surroundings → App → Option App
unfolding activity
main_loop config [] a = if a.sm.quit then some a else none
main_loop config (s ∷ rest) a =
    let next = (do b ← activity config s a; main_loop config rest b) in
    if a.sm.quit then some a else next

-- execute()
unfoldable pub execute : MonitorConfig → List Surroundings → ℕ → App → Option App
unfolding main_loop go
execute config rest now a = main_loop config rest (go AppEvent.initialized now a)

-- What an activity has done when it ends: it has moved along an arrow, or the state is QUIT and the
-- machine is stopped, or (in INITIALIZATION) nothing.
pub data Ended (a b : App) : Type 0 where
  moved : Moved a b → Ended a b
  stopped : a.sm.state ≡ AppState.quit → b.sm.state ≡ AppState.quit → b.sm.quit ≡ true → Ended a b
  idled : a.sm.state ≡ AppState.initialization → b ≡ a → Ended a b

await_monitor-sm :
    (config : MonitorConfig) (rounds : List ℕ) (a b : App)
    → await_monitor config rounds a ≡ some b
    → b.sm ≡ a.sm
unfolding await_monitor monitor_round
await_monitor-sm config [] a b h = ground arith
await_monitor-sm config (now ∷ rest) a b h = ground (
  arith,
  await_monitor-sm config rest a b,
  await_monitor-sm config rest (record a { can_die = true }) b,
)

quit-stopped :
    (config : MonitorConfig) (rounds : List ℕ) (a b : App)
    → quit config rounds a ≡ some b
    → (b.sm.state ≡ a.sm.state) × (b.sm.quit ≡ true)
unfolding quit
quit-stopped config rounds a b h =
    let asked : App = record a { is_paused = false; should_quit = true } in
    elim (Option-cases (await_monitor config rounds asked)) [
      | inl waiting ↦ ground arith
      | inr (c, over) ↦ ground (arith, await_monitor-sm config rounds asked c over)
    ]

-- Each activity that ends has moved an application that runs with its own table along an arrow of that table, with the
-- state reached also desired and the table intact; in QUIT it has stopped the machine instead, and
-- in INITIALIZATION it has changed nothing.
pub activity-Ended :
    (config : MonitorConfig) (s : Surroundings) (a b : App)
    → HasTable a
    → activity config s a ≡ some b
    → Ended a b
unfolding activity
activity-Ended config s a b table h = by_state a.sm.state refl h
  where
    by_state : (st : AppState) → a.sm.state ≡ st → activity_of config st s a ≡ some b → Ended a b
    by_state AppState.initialization here g = idled here (ground arith)
    by_state AppState.idle here g = moved (idle-Moved s.raises s.now a b table here g)
    by_state AppState.activation here g = moved (activation-Moved s.rounds s.now a b table here g)
    by_state AppState.deactivation here g =
        moved (deactivation-Moved s.rounds s.now a b table here g)
    by_state AppState.run here g = moved (run-Moved s.rounds s.now a b table here g)
    by_state AppState.fail here g = moved (fail-Moved s.raises s.now a b table here g)
    by_state AppState.quit here g =
        let (still, over) = quit-stopped config s.monitored a b g in
        stopped here (still ∙ here) over

pub main_loop-quit :
    (config : MonitorConfig) (rest : List Surroundings) (a : App)
    → a.sm.quit ≡ true
    → main_loop config rest a ≡ some a
unfolding main_loop
main_loop-quit config [] a h = ground arith
main_loop-quit config (s ∷ rest) a h = ground arith

main_loop_ends :
    (config : MonitorConfig) (rest : List Surroundings) (a b : App)
    → HasTable a
    → a.sm.quit ≡ false
    → main_loop config rest a ≡ some b
    → (b.sm.state ≡ AppState.quit) × (b.sm.quit ≡ true)
unfolding main_loop
main_loop_ends config [] a b table going h = ground arith
main_loop_ends config (s ∷ rest) a b table going h = elim (Option-cases (activity config s a)) [
  | inl running ↦ ground arith
  | inr (c, over) ↦
      after c (ground arith) (λ t going_on g. main_loop_ends config rest c b t going_on g)
        (activity-Ended config s a c table over)
]
  where
    after :
        (c : App)
        → main_loop config rest c ≡ some b
        → (HasTable c
            → c.sm.quit ≡ false
            → main_loop config rest c ≡ some b
            → (b.sm.state ≡ AppState.quit) × (b.sm.quit ≡ true))
        → Ended a c
        → (b.sm.state ≡ AppState.quit) × (b.sm.quit ≡ true)
    after c g later (moved m) = later m.table (m.quit ∙ going) g
    after c g later (stopped here there over) = ground (arith, main_loop-quit config rest c over)
    after c g later (idled here same) = later (rw (same) table) (ground arith) g

new_app-HasTable : (id : Text) (now : ℕ) → HasTable (new_app id now)
unfolding new_app
new_app-HasTable id now = refl

-- An application that has been constructed and executed ends only in QUIT, with its machine stopped,
-- whatever other threads raise and whatever its rounds compute.
pub execute_ends :
    (config : MonitorConfig) (rest : List Surroundings) (id : Text) (built now : ℕ) (b : App)
    → execute config rest now (new_app id built) ≡ some b
    → (b.sm.state ≡ AppState.quit) × (b.sm.quit ≡ true)
unfolding execute
execute_ends config rest id built now b h =
    let a = new_app id built in
    let (m, idle_now) =
      go-Moved AppEvent.initialized now a AppState.idle (new_app-HasTable id built)
        (unfold new_app in refl) in
    main_loop_ends config rest (go AppEvent.initialized now a) b m.table
      (m.quit ∙ (unfold new_app in refl)) h
