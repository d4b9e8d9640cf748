-- ===== src/Waiting.antt =====
-- modules/utils/src/utils.cpp.in: utils::wait, the polling loop that the managers, the watcher and the
-- layers use. What the loop meets is a list of polls: the mark stop_wait and the world that func
-- looks at when the loop's test runs, and the milliseconds since the start when the sleep after it is over.
use dls.Common.{
  ℕ, ◌+◌, ◌*◌, ◌≤◌, ◌<◌, ◌≡◌, ◌≢◌, Bool, true, false, not, ◌&&◌, Option, none, some, List, [], ◌∷◌,
  if◌then◌else◌, ltb, length, arith, Bool-cases, inl, inr,
}
use native.Mathlib.Nat.{zero-mul, suc-mul}

pub record Poll {ℓ} (W : Type ℓ) : Type ℓ where
  pub stop : Bool
  pub world : W
  pub later : ℕ

module _ {ℓ} {W : Type ℓ} (func : W → Bool) (timeout : ℕ) where
  -- the loop, `elapsed` milliseconds after its start; `none` when the polls given are used up and
  -- the time is not
  unfoldable pub wait_from : ℕ → List (Poll W) → Option Bool
  wait_from elapsed [] = if ltb elapsed timeout then none else some false
  wait_from elapsed (p ∷ ps) =
      let rest = wait_from p.later ps in
      if not p.stop && ltb elapsed timeout
      then (if func p.world then some true else rest)
      else some false

  -- wait(func, timeout_ms, period_ms, stop_wait): end = start at the first test
  unfoldable pub wait : List (Poll W) → Option Bool
  unfolding wait_from
  wait ps = wait_from 0 ps

  -- A poll made in time, with no stop asked, at which func held.
  pub data Reached : ℕ → List (Poll W) → Type ℓ where
    here :
        {elapsed : ℕ} (p : Poll W) (ps : List (Poll W))
        → p.stop ≡ false
        → elapsed < timeout
        → func p.world ≡ true
        → Reached elapsed (p ∷ ps)
    there :
        {elapsed : ℕ} (p : Poll W) (ps : List (Poll W))
        → Reached p.later ps
        → Reached elapsed (p ∷ ps)

  -- A wait in vain: func fails at each poll until one at which a stop is asked or the time is over.
  pub data Missed : ℕ → List (Poll W) → Type ℓ where
    ran_out : {elapsed : ℕ} → timeout ≤ elapsed → Missed elapsed []
    too_late :
        {elapsed : ℕ} (p : Poll W) (ps : List (Poll W))
        → timeout ≤ elapsed
        → Missed elapsed (p ∷ ps)
    asked_to_stop :
        {elapsed : ℕ} (p : Poll W) (ps : List (Poll W)) → p.stop ≡ true → Missed elapsed (p ∷ ps)
    failed_at :
        {elapsed : ℕ} (p : Poll W) (ps : List (Poll W))
        → func p.world ≡ false
        → Missed p.later ps
        → Missed elapsed (p ∷ ps)

  -- Each sleep takes the period at least.
  pub data Paced (period : ℕ) : ℕ → List (Poll W) → Type ℓ where
    done : {elapsed : ℕ} → Paced period elapsed []
    slept :
        {elapsed : ℕ} (p : Poll W) (ps : List (Poll W))
        → elapsed + period ≤ p.later
        → Paced period p.later ps
        → Paced period elapsed (p ∷ ps)

  wait_from-Reached :
      (ps : List (Poll W)) (elapsed : ℕ) → wait_from elapsed ps ≡ some true → Reached elapsed ps
  unfolding wait_from
  wait_from-Reached [] elapsed h = ground arith
  wait_from-Reached (p ∷ ps) elapsed h = elim (Bool-cases p.stop) [
    | inl stopped ↦ ground arith
    | inr going ↦ elim (Bool-cases (ltb elapsed timeout)) [
      | inl in_time ↦ elim (Bool-cases (func p.world)) [
        | inl held ↦ here p ps going (ground arith) held
        | inr fails ↦ there p ps (wait_from-Reached ps p.later (ground arith))
      ]
      | inr late ↦ ground arith
    ]
  ]

  wait_from-Missed :
      (ps : List (Poll W)) (elapsed : ℕ) → wait_from elapsed ps ≡ some false → Missed elapsed ps
  unfolding wait_from
  wait_from-Missed [] elapsed h = elim (Bool-cases (ltb elapsed timeout)) [
    | inl in_time ↦ ground arith
    | inr late ↦ ran_out (ground arith)
  ]
  wait_from-Missed (p ∷ ps) elapsed h = elim (Bool-cases p.stop) [
    | inl stopped ↦ asked_to_stop p ps stopped
    | inr going ↦ elim (Bool-cases (ltb elapsed timeout)) [
      | inl in_time ↦ elim (Bool-cases (func p.world)) [
        | inl held ↦ ground arith
        | inr fails ↦ failed_at p ps fails (wait_from-Missed ps p.later (ground arith))
      ]
      | inr late ↦ too_late p ps (ground arith)
    ]
  ]

  wait_from-ends :
      (period : ℕ) (ps : List (Poll W)) (elapsed : ℕ)
      → 0 < period
      → Paced period elapsed ps
      → timeout ≤ elapsed + length ps * period
      → wait_from elapsed ps ≢ none
  unfolding wait_from
  wait_from-ends period [] elapsed pos paced enough = ground (arith, zero-mul period)
  wait_from-ends period (p ∷ ps) elapsed pos (slept _ _ slow paced) enough =
      let more : timeout ≤ p.later + length ps * period =
        omega (arith, suc-mul (length ps) period) in
      ground (arith, wait_from-ends period ps p.later pos paced more)

  -- The wait answers true only where func held at a poll that was made before the timeout and with
  -- no stop asked.
  pub wait-Reached : (ps : List (Poll W)) → wait ps ≡ some true → Reached 0 ps
  unfolding wait
  wait-Reached ps h = wait_from-Reached ps 0 h

  -- The wait answers false only where it was in vain.
  pub wait-Missed : (ps : List (Poll W)) → wait ps ≡ some false → Missed 0 ps
  unfolding wait
  wait-Missed ps h = wait_from-Missed ps 0 h

  -- The wait ends: with sleeps of the period at least, it has an answer by the poll at which the
  -- polls before it, each worth a period, reach the timeout.
  pub wait_ends :
      (period : ℕ) (ps : List (Poll W))
      → 0 < period
      → Paced period 0 ps
      → timeout ≤ length ps * period
      → wait ps ≢ none
  unfolding wait
  wait_ends period ps pos paced enough =
      wait_from-ends period ps 0 pos paced (omega (arith, enough))
