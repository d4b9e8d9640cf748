-- ===== src/PeriodicApp/Timing.antt =====
-- checkFrequency of modules/time/src/time.cpp and the loop times that checkRT gives it, and
-- getSchedulerPath of modules/application/src/periodic_app.cpp. Times are nanoseconds; frequencies and
-- the tolerance are quotients of whole numbers, and their difference is exact where the source
-- rounds doubles.
use dls.Common.{
  ℕ, ◌+◌, ◌-◌, ◌*◌, ◌≡◌, ◌≤◌, ◌<◌, ◌↔◌, refl, ap, ◌∙◌, Bool, true, ◌&&◌, ltb, leb, Option, none,
  some, List, [], ◌∷◌, ◌++◌, if◌then◌else◌, Text, codes, text_eq, ◌==◌, arith, Bool-cases, inl, inr,
  subst,
}
use native.Mathlib.Nat.{mul_comm, add-mul, mul-add}
use dls.CommandManager.{◌>>=◌}
use dls.PeriodicApp.{Realtime, check_frequency, distance}
use dls.PeriodicApp.Frequency.{told, check_frequency-told}

-- 1.0 / elapsed_time_sec
abbrev pub frequency_of : ℕ → ℕ × ℕ
frequency_of elapsed = (1000000000, elapsed)

-- checkFrequency(tolerance_factor, desired_frequency, loop_time_prec, current_frequency) at the time
-- `now`: its answer, the current frequency and the new loop_time_prec. The test
-- |desired - current| < tolerance * desired is multiplied by its three denominators.
unfoldable pub time_check_frequency : ℕ × ℕ → ℕ × ℕ → ℕ → ℕ → Bool × ((ℕ × ℕ) × ℕ)
time_check_frequency (factor, unit) (desired, per) now loop_time_prec =
    let elapsed = now - loop_time_prec in
    (
      ltb (distance (desired * elapsed) (1000000000 * per) * unit) (factor * (desired * elapsed)),
      (frequency_of elapsed, now),
    )

-- frequency_tolerance_factor_, by the scheduler's policy
unfoldable pub tolerance_factor : Text → ℕ × ℕ → ℕ × ℕ → ℕ × ℕ
tolerance_factor policy besteffort realtime =
    if policy == codes "SCHED_OTHER" then besteffort else realtime

-- checkRT() at the time `now`
unfoldable pub check_rt_at : ℕ × ℕ → ℕ × ℕ → ℕ → Realtime × ℕ → Realtime × ℕ
unfolding time_check_frequency check_frequency
check_rt_at tolerance desired now (r, prec) =
    let (realtime, (current, prec')) = time_check_frequency tolerance desired now prec in
    (check_frequency realtime r, prec')

-- The loop's calls of checkRT, at the given times.
unfoldable pub check_times : ℕ × ℕ → ℕ × ℕ → List ℕ → Realtime × ℕ → Realtime × ℕ
unfolding check_rt_at
check_times tolerance desired [] s = s
check_times tolerance desired (now ∷ nows) s =
    check_times tolerance desired nows (check_rt_at tolerance desired now s)

-- an entry that the iterator of a directory gives: its path, its file name, and whether it is a
-- regular file
pub record DirectoryEntry : Type 0 where
  pub path : Text
  pub filename : Text
  pub regular : Bool

-- the loop of getSchedulerPath(ID)
unfoldable pub find_scheduler : Text → List DirectoryEntry → Text
find_scheduler target_file [] = []
find_scheduler target_file (entry ∷ entries) =
    let rest = find_scheduler target_file entries in
    if entry.regular && entry.filename == target_file then entry.path else rest

-- getSchedulerPath(ID), with the value of DLS_SCHEDULER_PATH and the entries of each directory, in
-- the order of the iteration; `none` for the exception where there is no such directory
unfoldable pub get_scheduler_path :
    Option Text → (Text → Option (List DirectoryEntry)) → Text → Option Text
unfolding find_scheduler
get_scheduler_path val directory id =
    let sched_path : Text = elim val [
      | none ↦ codes "/usr/include/dls2/schedulers"
      | some path ↦ path
    ] in
    do entries ← directory sched_path; some (find_scheduler (id ++ codes ".yaml") entries)

-- desired * elapsed against one second, with the tolerance
abbrev pub InBand : ℕ × ℕ → ℕ × ℕ → ℕ → Type 0
InBand (factor, unit) (desired, per) elapsed =
    (1000000000 * per * unit < (unit + factor) * (desired * elapsed))
    × ((unit - factor) * (desired * elapsed) < 1000000000 * per * unit)

-- with r = unit - factor: the side where the loop takes k too long
band_late :
    (n k r factor : ℕ)
    → (k * (factor + r) < factor * (n + k))
      ↔ ((n * (factor + r) < (factor + r + factor) * (n + k)) × (r * (n + k) < n * (factor + r)))
band_late n k r factor =
    let e1 = mul-add k factor r in
    let e2 = mul-add factor n k in
    let e3 = mul-add n factor r in
    let e4 = add-mul (factor + r) factor (n + k) in
    let e5 = add-mul factor r (n + k) in
    let e6 = mul-add r n k in
    let c1 = mul_comm k factor in
    let c2 = mul_comm k r in
    let c3 = mul_comm n factor in
    let c4 = mul_comm n r in
    (
      λ h. (
        omega (arith, h, e1, e2, e3, e4, e5, e6, c1, c2, c3, c4),
        omega (arith, h, e1, e2, e3, e4, e5, e6, c1, c2, c3, c4),
      ),
      λ (a, b). omega (arith, a, b, e1, e2, e3, e4, e5, e6, c1, c2, c3, c4),
    )

-- the side where it is k early
band_early :
    (x k r factor : ℕ)
    → (k * (factor + r) < factor * x)
      ↔ (((x + k) * (factor + r) < (factor + r + factor) * x) × (r * x < (x + k) * (factor + r)))
band_early x k r factor =
    let e1 = mul-add k factor r in
    let e3 = mul-add x factor r in
    let e4 = add-mul (factor + r) factor x in
    let e5 = add-mul factor r x in
    let e6 = add-mul x k (factor + r) in
    let c3 = mul_comm x factor in
    let c4 = mul_comm x r in
    (
      λ h. (
        omega (arith, h, e1, e3, e4, e5, e6, c3, c4),
        omega (arith, h, e1, e3, e4, e5, e6, c3, c4),
      ),
      λ (a, b). omega (arith, a, b, e1, e3, e4, e5, e6, c3, c4),
    )

band :
    (n x r factor : ℕ)
    → (distance x n * (factor + r) < factor * x)
      ↔ ((n * (factor + r) < (factor + r + factor) * x) × (r * x < n * (factor + r)))
band n x r factor = elim (Bool-cases (leb n x)) [
  | inl late ↦
      let le : n ≤ x = ground (arith, late) in
      let d : distance x n ≡ x - n = omega (arith, le) in
      let back : n + (x - n) ≡ x = omega (arith, le) in
      rw d (
        subst
          (λ (t : ℕ).
            ((x - n) * (factor + r) < factor * t)
            ↔ ((n * (factor + r) < (factor + r + factor) * t) × (r * t < n * (factor + r))))
          back (band_late n (x - n) r factor))
  | inr early ↦
      let le : x ≤ n = ground (arith, early) in
      let d : distance x n ≡ n - x = omega (arith, le) in
      let back : x + (n - x) ≡ n = omega (arith, le) in
      rw d (
        subst
          (λ (t : ℕ).
            ((n - x) * (factor + r) < factor * x)
            ↔ ((t * (factor + r) < (factor + r + factor) * x) × (r * x < t * (factor + r))))
          back (band_early x (n - x) r factor))
]

-- checkFrequency answers true exactly where the time since the last check lies in the band.
time_check_frequency_lem :
    (factor unit : ℕ) (desired : ℕ × ℕ) (now prec : ℕ)
    → factor ≤ unit
    → ((time_check_frequency (factor, unit) desired now prec).0 ≡ true)
      ↔ InBand (factor, unit) desired (now - prec)
unfolding time_check_frequency
time_check_frequency_lem factor unit (desired, per) now prec le =
    let r = unit - factor in
    let whole : factor + r ≡ unit = omega (arith, le) in
    let x = desired * (now - prec) in
    let n = 1000000000 * per in
    let (to, from) =
      subst
        (λ (u : ℕ).
          (distance x n * u < factor * x) ↔ ((n * u < (u + factor) * x) × (r * x < n * u)))
        whole (band n x r factor) in
    (λ h. to (ground (arith, h)), λ b. let lt = from b in ground (arith, lt))

check_rt_at-time :
    (tolerance desired : ℕ × ℕ) (now : ℕ) (r : Realtime) (prec : ℕ)
    → check_rt_at tolerance desired now (r, prec)
      ≡ (check_frequency (time_check_frequency tolerance desired now prec).0 r, now)
unfolding check_rt_at time_check_frequency
check_rt_at-time tolerance desired now r prec = refl

-- a call sets loop_time_prec
check_rt_at-clock :
    (tolerance desired : ℕ × ℕ) (now : ℕ) (r : Realtime) (prec : ℕ)
    → ((check_rt_at tolerance desired now (r, prec)).0, now)
      ≡ check_rt_at tolerance desired now (r, prec)
unfolding check_rt_at time_check_frequency
check_rt_at-clock tolerance desired now r prec = refl

check_rt_at-told :
    (factor unit : ℕ) (desired : ℕ × ℕ) (now prec : ℕ) (r : Realtime)
    → factor ≤ unit
    → r.sm.realtime r.sm.state ≡ true
    → told r.sm ≡ some r.realtime_prec
    → (told (check_rt_at (factor, unit) desired now (r, prec)).0.sm ≡ some true)
      ↔ InBand (factor, unit) desired (now - prec)
check_rt_at-told factor unit desired now prec r le live announced =
    let (to, from) = time_check_frequency_lem factor unit desired now prec le in
    let realtime = (time_check_frequency (factor, unit) desired now prec).0 in
    let (now_told, same, still) = check_frequency-told realtime r live announced in
    rw (check_rt_at-time (factor, unit) desired now r prec)
      (λ h. to (ground (arith, now_told, h)), λ b. now_told ∙ ap some (from b))

check_rt_at-announced :
    (tolerance desired : ℕ × ℕ) (now prec : ℕ) (r : Realtime)
    → r.sm.realtime r.sm.state ≡ true
    → told r.sm ≡ some r.realtime_prec
    → let r' = (check_rt_at tolerance desired now (r, prec)).0 in
      (r'.sm.realtime r'.sm.state ≡ true) × (told r'.sm ≡ some r'.realtime_prec)
check_rt_at-announced tolerance desired now prec r live announced =
    let realtime = (time_check_frequency tolerance desired now prec).0 in
    let (now_told, same, still) = check_frequency-told realtime r live announced in
    rw (check_rt_at-time tolerance desired now r prec) (still, unfold check_frequency in now_told)

-- the time of the last call, after one at `prec`
abbrev pub last_time : ℕ → List ℕ → ℕ
last_time prec [] = prec
last_time prec (t ∷ ts) = last_time t ts

-- Where the process is in a real-time state that has been announced as such, after any calls of
-- checkRT and one more, the last message tells that it runs in real time exactly if the time between
-- the last two calls lies in the band of the tolerance around the period desired.
pub check_times-told :
    (factor unit : ℕ) (desired : ℕ × ℕ) (nows : List ℕ) (now prec : ℕ) (r : Realtime)
    → factor ≤ unit
    → r.sm.realtime r.sm.state ≡ true
    → told r.sm ≡ some r.realtime_prec
    → let before = check_times (factor, unit) desired nows (r, prec) in
      (told (check_rt_at (factor, unit) desired now before).0.sm ≡ some true)
      ↔ InBand (factor, unit) desired (now - last_time prec nows)
unfolding check_times
check_times-told factor unit desired [] now prec r le live announced =
    check_rt_at-told factor unit desired now prec r le live announced
check_times-told factor unit desired (t ∷ nows) now prec r le live announced =
    let (still, again) = check_rt_at-announced (factor, unit) desired t prec r live announced in
    let r' = (check_rt_at (factor, unit) desired t (r, prec)).0 in
    subst
      (λ (s : Realtime × ℕ).
        (told
            (check_rt_at (factor, unit) desired now
              (check_times (factor, unit) desired nows s)).0.sm
          ≡ some true)
        ↔ InBand (factor, unit) desired (now - last_time t nows))
      (check_rt_at-clock (factor, unit) desired t r prec)
      (check_times-told factor unit desired nows now t r' le still again)
