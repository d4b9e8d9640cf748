-- ===== src/Log/Spam.antt =====
-- What RobustEventNotifier lets through, over any sequence of notifications.
use dls.Common.{
  ℕ, ◌+◌, ◌≤◌, ◌<◌, ◌≡◌, refl, sym, Option, none, some, List, [], ◌∷◌, Text, nat_eq, nat_beq_iff,
  if◌then◌else◌, ◌∙◌, subst, arith, ◌==◌, Option-cases, Bool-cases, ltb, ◌-◌, inl, inr,
}
use dls.Common.Map.{find, find-assign}
use dls.Log.{EventLog, RobustEventNotifier, new_robust_notifier, notify_robust}

-- One call of notify.
pub record Report : Type 0 where
  pub event_id : ℕ
  pub severity : ℕ
  pub message : Text
  pub now : ℕ
  pub stamp : ℕ

-- The calls of notify one after another.
unfoldable pub notify_all : List Report → RobustEventNotifier → RobustEventNotifier
unfolding notify_robust
notify_all [] n = n
notify_all (r ∷ rs) n =
    notify_all rs (notify_robust r.event_id r.severity r.message r.now r.stamp n)

-- The time of the newest publication of an event in the journal.
abbrev pub newest : ℕ → List (ℕ × EventLog) → Option ℕ
newest event_id [] = none
newest event_id ((at, e) ∷ es) =
    let rest = newest event_id es in if e.event_id == event_id then some at else rest

-- No event is published less than the threshold after its own last publication.
abbrev pub Spaced : ℕ → List (ℕ × EventLog) → Type 0
Spaced threshold [] = Unit
Spaced threshold ((at, e) ∷ es) =
    ((last : ℕ) → newest e.event_id es ≡ some last → last + threshold ≤ at) × Spaced threshold es

-- The map of the last publications agrees with what was published, and publications are spaced.
pub record IsCalm (n : RobustEventNotifier) : Type 0 where
  pub agrees : (k : ℕ) → find k n.last_event_pub_time ≡ newest k n.base.published
  pub spaced : Spaced n.spamming_threshold n.base.published

notify_robust-IsCalm :
    (r : Report) (n : RobustEventNotifier)
    → 0 < n.spamming_threshold
    → IsCalm n
    → IsCalm (notify_robust r.event_id r.severity r.message r.now r.stamp n)
unfolding notify_robust
notify_robust-IsCalm r n pos calm =
    let seen = calm.agrees r.event_id in
    elim (Option-cases (find r.event_id n.last_event_pub_time)) [
      | inl never ↦ record {
        agrees = λ k. ground (
          arith,
          calm.agrees k,
          find-assign r.event_id k r.now n.last_event_pub_time,
          nat_beq_iff r.event_id k,
        );
        spaced = ground (arith, calm.spaced);
      }
      | inr (last, before) ↦ elim (Bool-cases (ltb (r.now - last) n.spamming_threshold)) [
        | inl soon ↦ ground (arith, calm.agrees, calm.spaced)
        | inr late ↦ record {
          agrees = λ k. ground (
            arith,
            calm.agrees k,
            find-assign r.event_id k r.now n.last_event_pub_time,
            nat_beq_iff r.event_id k,
          );
          spaced = ground (arith, calm.spaced);
        }
      ]
    ]

notify_all-IsCalm :
    (rs : List Report) (n : RobustEventNotifier)
    → 0 < n.spamming_threshold
    → IsCalm n
    → IsCalm (notify_all rs n) × ((notify_all rs n).spamming_threshold ≡ n.spamming_threshold)
unfolding notify_all
notify_all-IsCalm [] n pos calm = (calm, refl)
notify_all-IsCalm (r ∷ rs) n pos calm =
    let n' = notify_robust r.event_id r.severity r.message r.now r.stamp n in
    let same : n'.spamming_threshold ≡ n.spamming_threshold =
      unfold notify_robust in ground arith in
    let (rest, kept) = notify_all-IsCalm rs n' (rw same pos) (notify_robust-IsCalm r n pos calm) in
    (rest, kept ∙ same)

newest_after :
    (r : Report) (n : RobustEventNotifier)
    → 0 < n.spamming_threshold
    → IsCalm n
    → let n' = notify_robust r.event_id r.severity r.message r.now r.stamp n in
      (t : ℕ) × (newest r.event_id n'.base.published ≡ some t) × (r.now < t + n.spamming_threshold)
unfolding notify_robust
newest_after r n pos calm = elim (Option-cases (find r.event_id n.last_event_pub_time)) [
  | inl never ↦ (r.now, ground (arith, nat_beq_iff r.event_id r.event_id), omega (arith, pos))
  | inr (last, before) ↦ elim (Bool-cases (ltb (r.now - last) n.spamming_threshold)) [
    | inl soon ↦ (last, ground (arith, calm.agrees r.event_id), ground (arith, soon))
    | inr late ↦ (r.now, ground (arith, nat_beq_iff r.event_id r.event_id), omega (arith, pos))
  ]
]

IsCalm-new :
    (name : Text) (threshold : ℕ) (rs : List Report)
    → 0 < threshold
    → IsCalm (notify_all rs (new_robust_notifier name threshold))
      × ((notify_all rs (new_robust_notifier name threshold)).spamming_threshold ≡ threshold)
unfolding new_robust_notifier
IsCalm-new name threshold rs pos =
    notify_all-IsCalm rs (new_robust_notifier name threshold) pos
      (record { agrees = λ k. unfold find in refl; spaced = tt })

-- Whatever is reported to a new notifier with a positive threshold, two publications of one event are
-- the threshold apart at least.
pub notify_all-Spaced :
    (name : Text) (threshold : ℕ) (rs : List Report)
    → 0 < threshold
    → Spaced threshold (notify_all rs (new_robust_notifier name threshold)).base.published
notify_all-Spaced name threshold rs pos =
    let (calm, kept) = IsCalm-new name threshold rs pos in
    subst (λ t. Spaced t (notify_all rs (new_robust_notifier name threshold)).base.published) kept
      calm.spaced

-- After a report to any such notifier the event has been published less than the threshold ago: a
-- report is dropped only where an earlier one stands for it.
pub notify_robust-fresh :
    (r : Report) (name : Text) (threshold : ℕ) (rs : List Report)
    → 0 < threshold
    → let n = notify_all rs (new_robust_notifier name threshold) in
      let n' = notify_robust r.event_id r.severity r.message r.now r.stamp n in
      (t : ℕ) × (newest r.event_id n'.base.published ≡ some t) × (r.now < t + threshold)
notify_robust-fresh r name threshold rs pos =
    let fresh = new_robust_notifier name threshold in
    let n = notify_all rs fresh in
    let (calm, kept) = IsCalm-new name threshold rs pos in
    let (t, latest, near) = newest_after r n (subst (λ t. 0 < t) (sym kept) pos) calm in
    (t, latest, subst (λ x. r.now < t + x) kept near)
