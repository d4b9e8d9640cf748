-- ===== src/PeriodicApp/Anomalies.antt =====
-- Which anomalies a check of a periodic app reports.
use dls.Common.{
  ℕ, ◌≡◌, ◌≢◌, refl, Bool, true, false, none, List, [], ◌∷◌, ◌++◌, Text, nat_eq, nat_beq_iff, arith,
  if◌then◌else◌, ◌∙◌, ap,
}
use dls.Common.Map.{find, find-assign}
use dls.Log.{RobustEventNotifier, EventLog, notify_robust, notify_event}
use dls.Supervisor.{cpu_usage_too_high, mem_usage_too_high}
use dls.PeriodicApp.{
  ChildConfig, StatusMsg, slow, busy, large, notify_if, check_status, wrong_process_frequency,
}

-- The events of a journal, newest first.
abbrev pub ids : List (ℕ × EventLog) → List ℕ
ids [] = []
ids ((at, e) ∷ es) = e.event_id ∷ ids es

abbrev pub when : Bool → ℕ → List ℕ
when condition event_id = if condition then event_id ∷ [] else []

notify_if_lem :
    (condition : Bool) (event_id : ℕ) (msg : Text) (clock : ℕ × ℕ) (n : RobustEventNotifier)
    → find event_id n.last_event_pub_time ≡ none
    → let n' = notify_if condition event_id msg clock n in
      (ids n'.base.published ≡ when condition event_id ++ ids n.base.published)
      × ((other : ℕ)
          → event_id ≢ other
          → find other n'.last_event_pub_time ≡ find other n.last_event_pub_time)
unfolding notify_if notify_robust notify_event
notify_if_lem false event_id msg (now, stamp) n never = (refl, λ other ne. refl)
notify_if_lem true event_id msg (now, stamp) n never = (
  rw never refl,
  λ other ne. ground (
    arith,
    never,
    ne,
    find-assign event_id other now n.last_event_pub_time,
    nat_beq_iff event_id other,
  ),
)

-- A check by a notifier that has published none of the three events publishes exactly those whose
-- condition holds: the frequency, the processor's use, the memory's use, in this order.
pub check_status-first :
    {Frequency : Type 0} (config : ChildConfig) (text : StatusMsg Frequency → ℕ → Text)
    (clock : ℕ → ℕ × ℕ) (status : StatusMsg Frequency) (n : RobustEventNotifier)
    → find wrong_process_frequency n.last_event_pub_time ≡ none
    → find cpu_usage_too_high n.last_event_pub_time ≡ none
    → find mem_usage_too_high n.last_event_pub_time ≡ none
    → ids (check_status config text clock status n).base.published
      ≡ when (large config status) mem_usage_too_high
        ++ (when (busy config status) cpu_usage_too_high
            ++ (when (slow config status) wrong_process_frequency ++ ids n.base.published))
unfolding check_status
check_status-first config text clock status n never2 never4 never5 =
    let n1 =
      notify_if (slow config status) wrong_process_frequency (text status wrong_process_frequency)
        (clock wrong_process_frequency) n in
    let n2 =
      notify_if (busy config status) cpu_usage_too_high (text status cpu_usage_too_high)
        (clock cpu_usage_too_high) n1 in
    let (j1, k1) =
      notify_if_lem (slow config status) wrong_process_frequency
        (text status wrong_process_frequency) (clock wrong_process_frequency) n never2 in
    let (j2, k2) =
      notify_if_lem (busy config status) cpu_usage_too_high (text status cpu_usage_too_high)
        (clock cpu_usage_too_high) n1 (k1 cpu_usage_too_high (ground arith) ∙ never4) in
    let (j3, k3) =
      notify_if_lem (large config status) mem_usage_too_high (text status mem_usage_too_high)
        (clock mem_usage_too_high) n2
        (k2 mem_usage_too_high (ground arith) ∙ k1 mem_usage_too_high (ground arith) ∙ never5) in
    j3
    ∙ ap (λ (t : List ℕ). when (large config status) mem_usage_too_high ++ t)
        (j2 ∙ ap (λ (t : List ℕ). when (busy config status) cpu_usage_too_high ++ t) j1)
