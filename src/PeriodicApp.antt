-- ===== src/PeriodicApp.antt =====
-- modules/application/src/periodic_app.cpp, beside its activities in Application: the commands of its
-- constructor, the check of its frequency, the monitor of its child, its pause; and modules/time/src/time.cpp,
-- the factor that slows its clock. What is computed in floating point (whether the frequency is
-- in tolerance, a usage as a quotient of whole numbers, the texts) is an argument; time factors are hundredths.
pub mod Anomalies
pub mod Commands
pub mod Frequency
pub mod Factor
pub mod Timing
use dls.Common.{
  ℕ, zero, suc, ◌+◌, ◌-◌, Bool, true, false, ◌&&◌, ◌||◌, not, Option, none, some, List, [], ◌∷◌,
  Text, codes, if◌then◌else◌, ltb, ◌==◌, nat_eq,
}
use dls.Log.{RobustEventNotifier, notify_robust}
use dls.StateMachine.{notify_rt}
use dls.Application.States.{AppState, Machine, state_eq, event_eq}
use dls.Application.Rounds.{check_rt}
use dls.Application.Activities.{App, new_app, app_command}
use dls.Supervisor.{warning, cpu_usage_too_high, mem_usage_too_high, exceeds}

-- the states made real time
unfoldable pub is_realtime : AppState → Bool
is_realtime AppState.run = true
is_realtime AppState.deactivation = true
is_realtime AppState.initialization = false
is_realtime AppState.idle = false
is_realtime AppState.activation = false
is_realtime AppState.fail = false
is_realtime AppState.quit = false

-- PeriodicApp(ID)
unfoldable pub new_periodic_app : Text → ℕ → App
unfolding new_app app_command
new_periodic_app id now =
    let a = new_app id now in
    let m1 = app_command (codes "pause") ((0, 1) ∷ []) true a.command_manager in
    let m2 = app_command (codes "continue") ((1, 0) ∷ []) true m1 in
    record a { sm = record a.sm { realtime = is_realtime }; command_manager = m2 }

-- the functions of "pause" and "continue", and close()
unfoldable pub pause : App → App
pause a = record a { is_paused = true }

unfoldable pub unpause : App → App
unpause a = record a { is_paused = false }

unfoldable pub close : App → App
unfolding unpause
close a = unpause a

-- pauseExecution(): what is_paused holds each time the wait tests it; `none` while it waits
unfoldable pub pause_execution : List Bool → Option ℕ
pause_execution [] = none
pause_execution (paused ∷ tests) =
    let rest = pause_execution tests in
    if not paused then some 0 else elim rest [ none ↦ none | some n ↦ some (suc n) ]

-- what checkRT keeps from one call to the next
pub record Realtime : Type 0 where
  pub sm : Machine
  pub realtime_prec : Bool
  pub realtime_curr : Bool

-- checkRT(), with what Time::checkFrequency returns
unfoldable pub check_frequency : Bool → Realtime → Realtime
unfolding notify_rt
check_frequency realtime r =
    let expected = r.sm.realtime r.sm.state in
    let same = realtime && expected || not realtime && not expected in
    record {
      sm = if not same || same && not r.realtime_prec then notify_rt realtime r.sm else r.sm;
      realtime_prec = realtime;
      realtime_curr = realtime;
    }

-- the difference of two factors
abbrev pub distance : ℕ → ℕ → ℕ
distance a b = (a - b) + (b - a)

-- newTimeFactor(): whether the factor has changed, and the scheduler's factor after the call
unfoldable pub new_time_factor : ℕ → ℕ → Bool × ℕ
new_time_factor real_time_factor current =
    if ltb 2 (distance real_time_factor current) then (true, real_time_factor) else (false, current)

-- Time: its factor, and the factors that it has sent, newest first
pub record Time : Type 0 where
  pub time_factor : ℕ
  pub sent : List ℕ

-- Time()
unfoldable pub new_time : Time
new_time = record { time_factor = 100; sent = [] }

-- the reader's function
unfoldable pub on_factor : ℕ → Time → Time
on_factor value t = if ltb 100 value then record t { time_factor = value } else t

-- setRealTimeFactor(factor)
unfoldable pub set_real_time_factor : ℕ → Time → Time
set_real_time_factor factor t =
    if ltb factor 100 then t else record { time_factor = factor; sent = factor ∷ t.sent }

abbrev pub wrong_process_frequency : ℕ
wrong_process_frequency = 2

-- the part of SafetyLayerConfig that childMonitor uses
pub record ChildConfig : Type 0 where
  pub spam_threshold : ℕ
  pub enable_wrong_process_frequency : Bool
  pub enable_cpu_usage_too_high : Bool
  pub enable_mem_usage_too_high : Bool
  pub process_cpu_threshold : ℕ
  pub mem_threshold : ℕ

-- the status message that childMonitor fills; frequencies are of the type Frequency
pub record StatusMsg (Frequency : Type 0) : Type 0 where
  pub current_frequency : Frequency
  pub desired_frequency : Frequency
  pub realtime : Bool
  pub cpu_usage : ℕ × ℕ
  pub mem_usage : ℕ × ℕ

-- childMonitor's initialisation: the mark is static, one for all the apps of a process
unfoldable pub set_threshold_once :
    ChildConfig → Bool × RobustEventNotifier → Bool × RobustEventNotifier
set_threshold_once config (initialized, n) =
    if initialized
    then (true, n)
    else (true, record n { spamming_threshold = config.spam_threshold })

-- a notification under a condition
unfoldable pub notify_if : Bool → ℕ → Text → ℕ × ℕ → RobustEventNotifier → RobustEventNotifier
unfolding notify_robust
notify_if condition event_id msg (now, stamp) n =
    if condition then notify_robust event_id warning msg now stamp n else n

module _ {Frequency : Type 0} (config : ChildConfig) where
  abbrev pub slow : StatusMsg Frequency → Bool
  slow status = config.enable_wrong_process_frequency && not status.realtime

  abbrev pub busy : StatusMsg Frequency → Bool
  busy status =
      config.enable_cpu_usage_too_high && exceeds status.cpu_usage config.process_cpu_threshold

  abbrev pub large : StatusMsg Frequency → Bool
  large status = config.enable_mem_usage_too_high && exceeds status.mem_usage config.mem_threshold

  -- the three checks of childMonitor; `text` makes the message of an event from the status
  unfoldable pub check_status :
      (StatusMsg Frequency → ℕ → Text)
      → (ℕ → ℕ × ℕ)
      → StatusMsg Frequency
      → RobustEventNotifier
      → RobustEventNotifier
  unfolding notify_if
  check_status text clock status n =
      let n1 =
        notify_if (slow status) wrong_process_frequency (text status wrong_process_frequency)
          (clock wrong_process_frequency) n in
      let n2 =
        notify_if (busy status) cpu_usage_too_high (text status cpu_usage_too_high)
          (clock cpu_usage_too_high) n1 in
      notify_if (large status) mem_usage_too_high (text status mem_usage_too_high)
        (clock mem_usage_too_high) n2

  -- childMonitor()
  unfoldable pub child_monitor :
      (StatusMsg Frequency → ℕ → Text)
      → (ℕ → ℕ × ℕ)
      → StatusMsg Frequency
      → Bool × RobustEventNotifier
      → Bool × RobustEventNotifier
  unfolding set_threshold_once check_status
  child_monitor text clock status s =
      let (initialized, n) = set_threshold_once config s in
      (initialized, check_status text clock status n)
