-- ===== src/Supervisor/Hardware.antt =====
-- What the supervisor's check of the hardware reports.
use dls.Common.{
  ℕ, suc, ◌+◌, ◌<◌, ◌≡◌, true, Option, none, some, List, [], ◌∷◌, Text, nat_eq, arith,
  if◌then◌else◌, Bool-cases, inl, inr, refl,
}
use dls.Common.Map.{find, find-assign_self}
use dls.Log.{RobustEventNotifier, notify_robust}
use dls.Supervisor.{
  SafetyLayerConfig, warning, cpu_usage_too_high, exceeds, cpu_message, check_cores,
}

notify_robust-quiet :
    (event_id severity : ℕ) (msg : Text) (now stamp last : ℕ) (n : RobustEventNotifier)
    → find event_id n.last_event_pub_time ≡ some last
    → now < last + n.spamming_threshold
    → 0 < n.spamming_threshold
    → notify_robust event_id severity msg now stamp n ≡ n
unfolding notify_robust
notify_robust-quiet event_id severity msg now stamp last n seen soon pos = ground arith

notify_robust-first :
    (event_id severity : ℕ) (msg : Text) (now stamp : ℕ) (n : RobustEventNotifier)
    → find event_id n.last_event_pub_time ≡ none
    → let n' = notify_robust event_id severity msg now stamp n in
      (find event_id n'.last_event_pub_time ≡ some now)
      × (n'.spamming_threshold ≡ n.spamming_threshold)
unfolding notify_robust
notify_robust-first event_id severity msg now stamp n never =
    ground (arith, find-assign_self event_id now n.last_event_pub_time)

module _ (config : SafetyLayerConfig) (show_index : ℕ → Text) (show_usage : ℕ × ℕ → Text)
    (id : Text) (clock : ℕ → ℕ × ℕ) where
  check_cores-quiet :
      (i last : ℕ) (usages : List (ℕ × ℕ)) (n : RobustEventNotifier)
      → find cpu_usage_too_high n.last_event_pub_time ≡ some last
      → ((j : ℕ) → (clock j).0 < last + n.spamming_threshold)
      → 0 < n.spamming_threshold
      → check_cores config show_index show_usage id clock i usages n ≡ n
  unfolding check_cores
  check_cores-quiet i last [] n seen soon pos = refl
  check_cores-quiet i last (usage ∷ usages) n seen soon pos =
      let same =
        notify_robust-quiet cpu_usage_too_high warning
          (cpu_message config show_index show_usage id i usage) (clock i).0 (clock i).1 last n seen
          (soon i) pos in
      let rest = check_cores-quiet (suc i) last usages n seen soon pos in ground (arith, same, rest)

  -- The first core above the threshold, with its index.
  abbrev pub first_hot : ℕ → List (ℕ × ℕ) → Option (ℕ × (ℕ × ℕ))
  first_hot i [] = none
  first_hot i (usage ∷ usages) =
      if exceeds usage config.system_cpu_threshold
      then some (i, usage)
      else first_hot (suc i) usages

  -- A check that comes when no high usage has been reported before, and that takes less time than the
  -- notifier's threshold, reports the first core above the threshold and none of the cores after it, however
  -- high their usage; where no core is above it, it reports nothing.
  pub check_cores-first :
      (i : ℕ) (usages : List (ℕ × ℕ)) (n : RobustEventNotifier)
      → config.enable_cpu_usage_too_high ≡ true
      → find cpu_usage_too_high n.last_event_pub_time ≡ none
      → ((j k : ℕ) → (clock k).0 < (clock j).0 + n.spamming_threshold)
      → check_cores config show_index show_usage id clock i usages n ≡ elim (first_hot i usages) [
        | none ↦ n
        | some (core, usage) ↦
            notify_robust cpu_usage_too_high warning
              (cpu_message config show_index show_usage id core usage)
              (clock core).0
              (clock core).1
              n
      ]
  unfolding check_cores
  check_cores-first i [] n on never soon = refl
  check_cores-first i (usage ∷ usages) n on never soon =
      let n1 =
        notify_robust cpu_usage_too_high warning
          (cpu_message config show_index show_usage id i usage) (clock i).0 (clock i).1 n in
      let (seen, same) =
        notify_robust-first cpu_usage_too_high warning
          (cpu_message config show_index show_usage id i usage) (clock i).0 (clock i).1 n never in
      elim (Bool-cases (exceeds usage config.system_cpu_threshold)) [
        | inl hot ↦
            let near : (k : ℕ) → (clock k).0 < (clock i).0 + n1.spamming_threshold =
              λ k. rw same (soon i k) in
            let quiet =
              check_cores-quiet (suc i) (clock i).0 usages n1 seen near (omega (arith, near i)) in
            rw (check_cores, on, hot) quiet
        | inr cool ↦ rw (check_cores, on, cool) (check_cores-first (suc i) usages n on never soon)
      ]
