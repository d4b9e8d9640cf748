-- ===== src/Scheduler/Attributes.antt =====
-- modules/application/src/sched_utils.cpp: the configuration and the attributes that are handed to
-- sched_setattr. Durations, factors and their products are arguments, a configuration is what
-- yaml-cpp finds under each key, and the answer of the system call is an argument. `none` is an exception.
use dls.Common.{
  ℕ, ◌+◌, ◌-◌, ◌/◌, Bool, Option, none, some, Text, codes, text_eq, if◌then◌else◌, ltb, ◌==◌,
}
use dls.CommandManager.{◌>>=◌}
use dls.Scheduler.{Policy, fifo, deadline, other, set_scheduler_policy}

-- std::chrono and the factors
pub record Durations : Type 1 where
  pub Duration : Type 0
  pub Factor : Type 0
  pub one : Factor
  pub milliseconds : ℕ → Duration
  pub times : Duration → Factor → Duration
  pub nanoseconds : Duration → ℕ

pub record SchedAttr : Type 0 where
  pub sched_policy : Option Policy
  pub sched_priority : ℕ
  pub sched_runtime : ℕ
  pub sched_deadline : ℕ
  pub sched_period : ℕ

module _ (t : Durations) where
  -- what stands in the configuration's file
  pub record Config : Type 0 where
    pub sched_policy : Option Text
    pub period : Option ℕ
    pub runtime_factor : Option t.Factor
    pub deadline_factor : Option t.Factor
    pub sched_priority : Option ℕ

  pub record SchedulerUtils : Type 0 where
    pub attributes : SchedAttr
    pub policy : Text
    pub period : t.Duration
    pub runtime : t.Duration
    pub deadline_ : t.Duration
    pub priority : ℕ
    pub curr_time_factor : t.Factor

  -- the constructor, in memory that holds `memory`: it sets the attributes, the policy and the factor
  unfoldable pub new_scheduler : SchedulerUtils → SchedulerUtils
  new_scheduler memory = record memory {
    attributes = record {
      sched_policy = none;
      sched_priority = 0;
      sched_runtime = 0;
      sched_deadline = 0;
      sched_period = 0;
    };
    policy = codes "SCHED_DEADLINE";
    curr_time_factor = t.one;
  }

  -- the branches of init on the policy
  unfoldable pub init_policy : Config → SchedulerUtils → Option SchedulerUtils
  init_policy c s =
      if s.policy == codes "SCHED_DEADLINE"
      then (do
        runtime_factor ← c.runtime_factor
        deadline_factor ← c.deadline_factor
        some (record s {
          runtime = t.times s.period runtime_factor;
          deadline_ = t.times s.period deadline_factor;
        }))
      else if s.policy == codes "SCHED_FIFO"
      then some
          (record s { priority = elim c.sched_priority [ none ↦ 45 | some priority ↦ priority ] })
      else some s

  -- init(config_scheduler)
  unfoldable pub init : Config → SchedulerUtils → Option SchedulerUtils
  unfolding init_policy
  init c s = do
    period ← c.period
    let policy : Text = elim c.sched_policy [ none ↦ s.policy | some name ↦ name ]
    init_policy c (record s { policy = policy; period = t.milliseconds period })

  -- setSCHED_FIFO(), setSCHED_DEADLINE() and setDefaultSchedulerPolicy(), up to the system call
  unfoldable pub set_fifo : SchedulerUtils → SchedulerUtils
  set_fifo s = record s {
    attributes = record s.attributes { sched_policy = some fifo; sched_priority = s.priority };
  }

  unfoldable pub set_deadline : SchedulerUtils → SchedulerUtils
  set_deadline s = record s {
    attributes = record s.attributes {
      sched_policy = some deadline;
      sched_period = t.nanoseconds (t.times s.period s.curr_time_factor);
      sched_runtime = t.nanoseconds (t.times s.runtime s.curr_time_factor);
      sched_deadline = t.nanoseconds (t.times s.deadline_ s.curr_time_factor);
    };
  }

  unfoldable pub set_default : SchedulerUtils → SchedulerUtils
  set_default s = record s {
    attributes = record s.attributes { sched_policy = some other; sched_priority = 0 };
  }

  -- setSchedulerPolicy(), with the answer of sched_setattr: false ends the process
  unfoldable pub apply_policy : (SchedAttr → Bool) → SchedulerUtils → Option (SchedulerUtils × Bool)
  unfolding set_scheduler_policy set_fifo set_deadline set_default
  apply_policy accepts s = do
    policy ← set_scheduler_policy s.policy
    let s' : SchedulerUtils = elim policy [
      | fifo ↦ set_fifo s
      | deadline ↦ set_deadline s
      | other ↦ set_default s
    ]
    some (s', accepts s'.attributes)

  -- setCurrentTimeFactor(time_factor), setPrioritySCHED_FIFO(priority)
  unfoldable pub set_current_time_factor : t.Factor → SchedulerUtils → SchedulerUtils
  set_current_time_factor time_factor s = record s { curr_time_factor = time_factor }

  unfoldable pub set_priority_fifo : ℕ → SchedulerUtils → SchedulerUtils
  set_priority_fifo priority s = record s { priority = priority }

-- checkOverrun(): the time over and the count, in microseconds
pub record OverrunInfo : Type 0 where
  pub overrun_time : ℕ
  pub count : ℕ

unfoldable pub check_overrun : ℕ → ℕ → ℕ → OverrunInfo → OverrunInfo
check_overrun period now desired_time o =
    if ltb desired_time now
    then record { overrun_time = period + (now - desired_time) / 1000; count = o.count + 1 }
    else record o { overrun_time = 0 }
