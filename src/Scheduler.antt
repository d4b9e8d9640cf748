-- ===== src/Scheduler.antt =====
-- modules/application/src/sched_utils.cpp: the policy dispatch and the end of a periodic loop. Times
-- are nanoseconds. The effective period, a product of floating-point numbers, is an argument.
pub mod Attributes
use dls.Common.{
  ℕ, ◌+◌, ◌-◌, ◌*◌, ◌/◌, ◌%◌, ◌≤◌, ◌<◌, ◌≡◌, ◌||◌, Option, none, some, Text, codes, if◌then◌else◌,
  leb, ltb, ◌==◌, text_eq, arith, inl, inr, Bool-cases,
}
use native.Mathlib.Nat.{div-add-mod, mod-lt, mul_comm, add-mul, mul-add, mul-le-mul_right}

pub data Policy : Type 0 where
  fifo : Policy
  deadline : Policy
  other : Policy

-- setSchedulerPolicy(): which of the three setters runs; `none` is the exception
unfoldable pub set_scheduler_policy : Text → Option Policy
set_scheduler_policy sched_policy =
    if sched_policy == codes "SCHED_FIFO"
    then some fifo
    else if sched_policy == codes "SCHED_DEADLINE"
    then some deadline
    else if sched_policy == codes "SCHED_OTHER"
    then some other
    else none

-- What executeEndLoopTask does: it yields, or it sleeps until a time, the new desired_time, or it throws.
pub data EndOfLoop : Type 0 where
  yielded : EndOfLoop
  sleep_until : ℕ → EndOfLoop
  invalid_argument : EndOfLoop
  nothing : EndOfLoop

-- the desired time after desired_time += effective_period and the test of `now`
unfoldable pub next_desired : ℕ → ℕ → ℕ → ℕ
next_desired effective_period now desired_time =
    let next = desired_time + effective_period in
    if ltb next now then next + effective_period * ((now - next) / effective_period + 1) else next

-- executeEndLoopTask()
unfoldable pub execute_end_loop_task : Text → ℕ → ℕ → ℕ → EndOfLoop
unfolding next_desired
execute_end_loop_task sched_policy effective_period now desired_time =
    if sched_policy == codes "SCHED_DEADLINE"
    then yielded
    else if (sched_policy == codes "SCHED_FIFO") || (sched_policy == codes "SCHED_OTHER")
    then (if leb effective_period 0
        then invalid_argument
        else sleep_until (next_desired effective_period now desired_time))
    else nothing

late-slots : (period q r j : ℕ) → r < period → period + (period * q + r) < j * period → q + 2 ≤ j
late-slots period q r j small later = elim (Bool-cases (ltb j (q + 2))) [
  | inl few ↦
      let most : j * period ≤ (q + 1) * period = mul-le-mul_right period (ground (arith, few)) in
      omega (arith, most, later, add-mul q 1 period, mul_comm q period)
  | inr enough ↦ ground (arith, enough)
]

-- The time slept until lies on the phase of the loop (a whole number of periods after the former
-- one, at least one), is not past, and no earlier such time after the first would do: a slot that is
-- not yet over is never skipped.
pub next_desired-phase :
    (period now desired_time : ℕ)
    → 0 < period
    → (k : ℕ) × (next_desired period now desired_time ≡ desired_time + k * period)
      × (1 ≤ k)
      × (now ≤ desired_time + k * period)
      × ((j : ℕ) → 1 ≤ j → now < desired_time + j * period → k ≤ j)
unfolding next_desired
next_desired-phase period now desired_time pos =
    elim (Bool-cases (ltb (desired_time + period) now)) [
      | inl late ↦
          let gap = now - (desired_time + period) in
          let parts = div-add-mod gap period in
          let small = mod-lt gap pos in
          let q = gap / period in
          (
            q + 2,
            ground (arith, add-mul q 2 period, mul-add period q 1, mul_comm q period),
            omega arith,
            ground (arith, add-mul q 2 period, mul_comm q period, parts, small),
            λ j one later. late-slots period q (gap % period) j small (ground (arith, parts)),
          )
      | inr early ↦ (1, ground arith, omega arith, ground arith, λ j one later. one)
    ]
