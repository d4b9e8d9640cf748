-- ===== src/Plugin/Reports.antt =====
-- Which anomalies a round of a plugin reports.
use dls.Common.{
  ℕ, suc, ◌-◌, ltb, subst, ◌⊎◌, ◌≡◌, refl, Bool, true, false, not, ◌||◌, some, List, [], ◌∷◌, ◌++◌,
  Text, nat_eq, text_eq, arith, ◌==◌, ◌∙◌, ap, sym, Option-cases, Bool-cases, inl, inr,
}
use dls.Common.Map.{find, contains, assign, find-assign, find-assign_self}
use dls.Log.{RobustEventNotifier, notify_robust, notify_event}
use dls.Supervisor.{cpu_usage_too_high, mem_usage_too_high}
use dls.Topics.{InputInfo, InputTopicInfo}
use dls.PeriodicApp.{
  ChildConfig, StatusMsg, notify_if, slow, busy, large, check_status, wrong_process_frequency,
}
use dls.PeriodicApp.Anomalies.{ids}
use dls.Plugin.{
  wrong_input_frequency, wrong_sequence_id, sequence_message, frequency_message,
  report_sequence_ids, report_frequencies,
}

-- an event for each entry whose condition holds
abbrev pub Reasons : Type 0
Reasons = List (ℕ × Bool)

abbrev pub AllHold : Reasons → List ℕ → Type 0
AllHold reasons [] = Unit
AllHold reasons (e ∷ es) = (find e reasons ≡ some true) × AllHold reasons es

AllHold-append :
    (reasons : Reasons) (es fs : List ℕ)
    → AllHold reasons es
    → AllHold reasons fs
    → AllHold reasons (es ++ fs)
AllHold-append reasons [] fs h k = k
AllHold-append reasons (e ∷ es) fs (h, hs) k = (h, AllHold-append reasons es fs hs k)

append_assoc : (es fs gs : List ℕ) → (es ++ fs) ++ gs ≡ es ++ (fs ++ gs)
append_assoc [] fs gs = refl
append_assoc (e ∷ es) fs gs = ap (λ t. e ∷ t) (append_assoc es fs gs)

-- what the notifier n' has published beyond n has a reason, and n' forgets no event
pub record Grew (reasons : Reasons) (n n' : RobustEventNotifier) : Type 0 where
  pub added : List ℕ
  pub journal : ids n'.base.published ≡ added ++ ids n.base.published
  pub hold : AllHold reasons added
  pub known :
      (e : ℕ) → contains e n.last_event_pub_time ≡ true → contains e n'.last_event_pub_time ≡ true

-- A report is dropped, for an event published before, or published.
notify_robust_cases :
    (event_id severity : ℕ) (msg : Text) (now stamp : ℕ) (n : RobustEventNotifier)
    → let n' = notify_robust event_id severity msg now stamp n in
      ((n' ≡ n) × (contains event_id n.last_event_pub_time ≡ true))
      ⊎ ((ids n'.base.published ≡ event_id ∷ ids n.base.published)
          × (n'.last_event_pub_time ≡ assign event_id now n.last_event_pub_time))
unfolding notify_robust notify_event
notify_robust_cases event_id severity msg now stamp n =
    elim (Option-cases (find event_id n.last_event_pub_time)) [
      | inl never ↦ inr (rw never refl, rw never refl)
      | inr (last, seen) ↦ elim (Bool-cases (ltb (now - last) n.spamming_threshold)) [
        | inl soon ↦ inl (rw (seen, soon) refl, rw (contains, seen) refl)
        | inr late ↦ inr (rw (seen, late) refl, rw (seen, late) refl)
      ]
    ]

contains-assign :
    (k e now : ℕ) (m : List (ℕ × ℕ)) → contains e m ≡ true → contains e (assign k now m) ≡ true
contains-assign k e now m h = ground (arith, h, find-assign k e now m)

contains-assign_self : (k now : ℕ) (m : List (ℕ × ℕ)) → contains k (assign k now m) ≡ true
contains-assign_self k now m = rw (contains, find-assign_self k now m) refl

module _ (reasons : Reasons) where
  pub stays : (n : RobustEventNotifier) → Grew reasons n n
  stays n = record { added = []; journal = refl; hold = tt; known = λ e h. h }

  pub then-Grew :
      (a b c : RobustEventNotifier) → Grew reasons a b → Grew reasons b c → Grew reasons a c
  then-Grew a b c first second = record {
    added = second.added ++ first.added;
    journal =
        second.journal
        ∙ ap (λ (t : List ℕ). second.added ++ t) first.journal
        ∙ sym (append_assoc second.added first.added (ids a.base.published));
    hold = AllHold-append reasons second.added first.added second.hold first.hold;
    known = λ e h. second.known e (first.known e h);
  }

  notify_robust-Grew :
      (event_id severity : ℕ) (msg : Text) (now stamp : ℕ) (n : RobustEventNotifier)
      → find event_id reasons ≡ some true
      → let n' = notify_robust event_id severity msg now stamp n in
        Grew reasons n n' × (contains event_id n'.last_event_pub_time ≡ true)
  notify_robust-Grew event_id severity msg now stamp n reason =
      let n' = notify_robust event_id severity msg now stamp n in
      elim (notify_robust_cases event_id severity msg now stamp n) [
        | inl (same, seen) ↦ (subst (λ t. Grew reasons n t) (sym same) (stays n), rw same seen)
        | inr (journal, assigned) ↦ (
          record {
            added = event_id ∷ [];
            journal = journal;
            hold = (reason, tt);
            known = λ e h. rw assigned (contains-assign event_id e now n.last_event_pub_time h);
          },
          rw assigned (contains-assign_self event_id now n.last_event_pub_time),
        )
      ]

  pub notify_if-Grew :
      (condition : Bool) (event_id : ℕ) (msg : Text) (clock : ℕ × ℕ) (n : RobustEventNotifier)
      → (condition ≡ true → find event_id reasons ≡ some true)
      → let n' = notify_if condition event_id msg clock n in
        Grew reasons n n' × (condition ≡ true → contains event_id n'.last_event_pub_time ≡ true)
  unfolding notify_if
  notify_if-Grew false event_id msg clock n reason = (stays n, λ h. ground (arith, h))
  notify_if-Grew true event_id msg (now, stamp) n reason =
      let (grew, seen) = notify_robust-Grew event_id 1 msg now stamp n (reason refl) in
      (grew, λ h. seen)

  pub check_status-Grew :
      {Frequency : Type 0} (config : ChildConfig) (text : StatusMsg Frequency → ℕ → Text)
      (clock : ℕ → ℕ × ℕ) (status : StatusMsg Frequency) (n : RobustEventNotifier)
      → (slow config status ≡ true → find wrong_process_frequency reasons ≡ some true)
      → (busy config status ≡ true → find cpu_usage_too_high reasons ≡ some true)
      → (large config status ≡ true → find mem_usage_too_high reasons ≡ some true)
      → let n' = check_status config text clock status n in
        Grew reasons n n'
        × (slow config status ≡ true
            → contains wrong_process_frequency n'.last_event_pub_time ≡ true)
        × (busy config status ≡ true → contains cpu_usage_too_high n'.last_event_pub_time ≡ true)
        × (large config status ≡ true → contains mem_usage_too_high n'.last_event_pub_time ≡ true)
  unfolding check_status
  check_status-Grew config text clock status n r1 r2 r3 =
      let step : Bool → ℕ → RobustEventNotifier → RobustEventNotifier =
        λ c e m. notify_if c e (text status e) (clock e) m in
      let n1 = step (slow config status) wrong_process_frequency n in
      let n2 = step (busy config status) cpu_usage_too_high n1 in
      let n3 = step (large config status) mem_usage_too_high n2 in
      let (g1, t1) =
        notify_if-Grew (slow config status) wrong_process_frequency
          (text status wrong_process_frequency) (clock wrong_process_frequency) n r1 in
      let (g2, t2) =
        notify_if-Grew (busy config status) cpu_usage_too_high (text status cpu_usage_too_high)
          (clock cpu_usage_too_high) n1 r2 in
      let (g3, t3) =
        notify_if-Grew (large config status) mem_usage_too_high (text status mem_usage_too_high)
          (clock mem_usage_too_high) n2 r3 in
      (
        then-Grew n n1 n3 g1 (then-Grew n1 n2 n3 g2 g3),
        λ h. g3.known wrong_process_frequency (g2.known wrong_process_frequency (t1 h)),
        λ h. g3.known cpu_usage_too_high (t2 h),
        t3,
      )

abbrev pub any_missed : List InputInfo → Bool
any_missed [] = false
any_missed (info ∷ infos) = not (info.missed_sequence_ids == 0) || any_missed infos

abbrev pub any_off : List Bool → Bool
any_off [] = false
any_off (nominal ∷ rest) = not nominal || any_off rest

module _ (reasons : Reasons) (show_nat : ℕ → Text) (show_frequency : ℕ × ℕ → Text) (id : Text)
    (clock : ℕ → ℕ → ℕ × ℕ) where
  pub report_sequence_ids-Grew :
      (i : ℕ) (infos : List InputInfo) (n : RobustEventNotifier)
      → (any_missed infos ≡ true → find wrong_sequence_id reasons ≡ some true)
      → let n' = report_sequence_ids show_nat show_frequency id clock i infos n in
        Grew reasons n n'
        × (any_missed infos ≡ true → contains wrong_sequence_id n'.last_event_pub_time ≡ true)
  unfolding report_sequence_ids
  report_sequence_ids-Grew i [] n reason = (stays reasons n, λ h. ground (arith, h))
  report_sequence_ids-Grew i (info ∷ infos) n reason =
      let c = not (info.missed_sequence_ids == 0) in
      let n1 =
        notify_if c wrong_sequence_id (sequence_message show_nat show_frequency id clock info)
          (clock wrong_sequence_id i) n in
      let (g1, t1) =
        notify_if-Grew reasons c wrong_sequence_id
          (sequence_message show_nat show_frequency id clock info) (clock wrong_sequence_id i) n
          (λ h. reason (rw h refl)) in
      let (g2, t2) = report_sequence_ids-Grew (suc i) infos n1 (λ h. reason (ground (arith, h))) in
      (
        then-Grew reasons n n1
            (report_sequence_ids show_nat show_frequency id clock (suc i) infos n1) g1 g2,
        λ h. elim (Bool-cases c) [
          | inl now ↦ g2.known wrong_sequence_id (t1 now)
          | inr not_now ↦ t2 (ground (arith, h, not_now))
        ],
      )

  pub report_frequencies-Grew :
      (i : ℕ) (nominal : List Bool) (infos : List InputTopicInfo) (n n' : RobustEventNotifier)
      → report_frequencies show_nat show_frequency id clock i nominal infos n ≡ some n'
      → (any_off nominal ≡ true → find wrong_input_frequency reasons ≡ some true)
      → Grew reasons n n'
        × (any_off nominal ≡ true → contains wrong_input_frequency n'.last_event_pub_time ≡ true)
  unfolding report_frequencies
  report_frequencies-Grew i [] infos n n' e reason =
      let same : n ≡ n' = ground (arith, e) in
      (subst (λ t. Grew reasons n t) same (stays reasons n), λ h. ground (arith, h))
  report_frequencies-Grew i (false ∷ rest) [] n n' e reason = ground (arith, e)
  report_frequencies-Grew i (true ∷ rest) [] n n' e reason =
      report_frequencies-Grew (suc i) rest [] n n' e reason
  report_frequencies-Grew i (b ∷ rest) (info ∷ infos) n n' e reason =
      let n1 =
        notify_if (not b) wrong_input_frequency
          (frequency_message show_nat show_frequency id clock info) (clock wrong_input_frequency i)
          n in
      let (g1, t1) =
        notify_if-Grew reasons (not b) wrong_input_frequency
          (frequency_message show_nat show_frequency id clock info) (clock wrong_input_frequency i)
          n (λ h. reason (rw h refl)) in
      let (g2, t2) =
        report_frequencies-Grew (suc i) rest infos n1 n' e (λ h. reason (ground (arith, h))) in
      (
        then-Grew reasons n n1 n' g1 g2,
        λ h. elim (Bool-cases (not b)) [
          | inl now ↦ g2.known wrong_input_frequency (t1 now)
          | inr not_now ↦ t2 (ground (arith, h, not_now))
        ],
      )
