-- ===== src/Application/Monitor.antt =====
-- The monitoring thread (App::monitorApp) and its handshake with App::quit. Times are nanoseconds.
-- Filling in and sending the status message is left out, and so is childMonitor.
use dls.Common.{
  ℕ, ◌*◌, ◌-◌, ◌<◌, ◌≡◌, ◌≢◌, Bool, true, false, not, ◌&&◌, Option, none, some, List, [], ◌∷◌,
  if◌then◌else◌, ltb, arith, ◌==◌, ◌⊎◌, inl, inr, ◌↔◌, Option-cases,
}
use dls.CommandManager.{◌>>=◌}
use dls.StateMachine.{StateMachine}
use dls.StateMachine
use dls.Application.States.{AppState, Machine, state_eq, event_eq, state_beq_iff}
use dls.Application.Activities.{App}

-- the fields of SafetyLayerConfig that the monitor reads
pub record MonitorConfig : Type 0 where
  pub enable_wrong_process_state : Bool
  pub monitor_period_ms : ℕ

abbrev pub ns_per_ms : ℕ
ns_per_ms = 1000000

-- whether WRONG_PROCESS_STATE is notified, with the desired state read
unfoldable pub state_anomaly : MonitorConfig → ℕ → AppState → Machine → Bool
state_anomaly config now desired m =
    config.enable_wrong_process_state
    && not (m.state == desired)
    && ltb (config.monitor_period_ms * ns_per_ms) (now - m.desired_state_timestamp)

pub record Observed : Type 0 where
  pub app : App
  pub anomaly : Bool
  pub ended : Bool

-- the last test of a round: the thread lets the application die and ends
unfoldable pub may_die : AppState → App → Bool
may_die desired a = a.should_quit && a.sm.state == desired && a.sm.state == AppState.quit

-- one round of the loop; `none` is the null pointer in getDesiredStateName()
unfoldable pub monitor_round : MonitorConfig → ℕ → App → Option Observed
unfolding state_anomaly may_die
monitor_round config now a = do
  desired ← a.sm.desired_state
  let over = may_die desired a
  some (record {
    app = if over then record a { can_die = true } else a;
    anomaly = state_anomaly config now desired a.sm;
    ended = over;
  })

-- quit_cv.wait: the rounds that the monitor makes meanwhile, by their times
unfoldable pub await_monitor : MonitorConfig → List ℕ → App → Option App
unfolding monitor_round
await_monitor config [] a = if a.can_die then some a else none
await_monitor config (now ∷ rest) a =
    let later = (do o ← monitor_round config now a; await_monitor config rest o.app) in
    if a.can_die then some a else later

-- quit(), with PeriodicApp::close(), which ends a pause
unfoldable pub quit : MonitorConfig → List ℕ → App → Option App
unfolding await_monitor StateMachine.stop
quit config rounds a = do
  b ← await_monitor config rounds (record a { is_paused = false; should_quit = true })
  some (record b { sm = StateMachine.stop b.sm })

-- The monitor lets an application die only when it has asked for it and both its state and its
-- desired state are QUIT; a round whose desired state is no null pointer changes nothing else.
pub monitor_round-ended :
    (config : MonitorConfig) (now : ℕ) (a : App) (d : AppState)
    → a.sm.desired_state ≡ some d
    → (o : Observed) × (monitor_round config now a ≡ some o)
      × ((o.ended ≡ true)
          ↔ ((a.should_quit ≡ true) × (a.sm.state ≡ AppState.quit) × (d ≡ AppState.quit)))
      × (o.app.sm ≡ a.sm)
      × (o.ended ≡ false → o.app ≡ a)
unfolding monitor_round
monitor_round-ended config now a d h = (
  record {
    app = if may_die d a then record a { can_die = true } else a;
    anomaly = state_anomaly config now d a.sm;
    ended = may_die d a;
  },
  ground arith,
  ground (arith, state_beq_iff a.sm.state d, state_beq_iff a.sm.state AppState.quit),
  ground arith,
  ground arith,
)

-- WRONG_PROCESS_STATE is notified exactly when the check is enabled, the state is not the desired
-- one, and more than the monitor's period has gone by since the desired state was set.
pub monitor_round-anomaly :
    (config : MonitorConfig) (now : ℕ) (a : App) (d : AppState)
    → a.sm.desired_state ≡ some d
    → (o : Observed) × (monitor_round config now a ≡ some o)
      × ((o.anomaly ≡ true) ↔ (
          (config.enable_wrong_process_state ≡ true)
          × (a.sm.state ≢ d)
          × (config.monitor_period_ms * ns_per_ms < now - a.sm.desired_state_timestamp)))
unfolding monitor_round
monitor_round-anomaly config now a d h = (
  record {
    app = if may_die d a then record a { can_die = true } else a;
    anomaly = state_anomaly config now d a.sm;
    ended = may_die d a;
  },
  ground arith,
  ground (arith, state_beq_iff a.sm.state d),
)

await_monitor-can_die :
    (config : MonitorConfig) (rounds : List ℕ) (a : App)
    → a.can_die ≡ true
    → await_monitor config rounds a ≡ some a
unfolding await_monitor
await_monitor-can_die config [] a h = ground arith
await_monitor-can_die config (now ∷ rest) a h = ground arith

-- In QUIT, with QUIT desired, the activity ends in the first round of the monitor, with the machine
-- stopped.
pub quit_ends :
    (config : MonitorConfig) (now : ℕ) (rest : List ℕ) (a : App)
    → a.sm.state ≡ AppState.quit
    → a.sm.desired_state ≡ some AppState.quit
    → quit config (now ∷ rest) a
      ≡ some (record a {
        sm = StateMachine.stop a.sm;
        should_quit = true;
        can_die = true;
        is_paused = false;
      })
unfolding quit
quit_ends config now rest a here wanted = ground (
  arith,
  await_monitor-can_die config rest
      (record a { is_paused = false; should_quit = true; can_die = true }),
)

abbrev pub IsElsewhere : App → Type 0
IsElsewhere a = (a.sm.state ≢ AppState.quit) ⊎ (a.sm.desired_state ≢ some AppState.quit)

await_monitor-waits :
    (config : MonitorConfig) (rounds : List ℕ) (a : App)
    → a.can_die ≡ false
    → IsElsewhere a
    → await_monitor config rounds a ≡ none
unfolding await_monitor
await_monitor-waits config [] a alive h = ground arith
await_monitor-waits config (now ∷ rest) a alive h = elim (Option-cases a.sm.desired_state) [
  | inl null ↦ ground arith
  | inr (d, wanted) ↦ ground (
    arith,
    await_monitor-waits config rest a alive h,
    state_beq_iff a.sm.state d,
    state_beq_iff a.sm.state AppState.quit,
  )
]

-- The activity of QUIT ends only after the monitor has let the application die, or had done so
-- before: never while its state or its desired state is another one.
pub quit_waits :
    (config : MonitorConfig) (rounds : List ℕ) (a : App)
    → a.can_die ≡ false
    → IsElsewhere a
    → quit config rounds a ≡ none
unfolding quit
quit_waits config rounds a alive elsewhere = ground (
  arith,
  await_monitor-waits config rounds (record a { is_paused = false; should_quit = true }) alive
      elsewhere,
)
