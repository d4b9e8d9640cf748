-- ===== src/Plugin/Monitor.antt =====
-- What a whole round of a plugin's monitor reports, and what it leaves alone.
use dls.Common.{
  ℕ, ◌≡◌, refl, Bool, true, false, not, ◌&&◌, Option, none, some, List, [], ◌∷◌, ◌++◌, Text, codes,
  nat_eq, text_eq, arith, if◌then◌else◌, ◌==◌, Option-cases, Bool-cases, inl, inr, subst, sym, ap,
  ◌∙◌,
}
use dls.Common.Map.{find, contains}
use dls.Log.{RobustEventNotifier}
use dls.Supervisor.{cpu_usage_too_high, mem_usage_too_high}
use dls.Window.{ℤ}
use dls.Topics.{
  InputTopicInfo, TopicMonitor, check_desired_frequency, get_input_topic_info, are_topics_sync,
}
use dls.PeriodicApp.{
  StatusMsg, notify_if, slow, busy, large, check_status, child_monitor, set_threshold_once,
  wrong_process_frequency,
}
use dls.PeriodicApp.Anomalies.{ids}
use dls.Plugin.{
  PluginConfig, PeriodicAppPlugin, missing_input, inputs_not_synchronized, wrong_input_frequency,
  wrong_sequence_id, report_sequence_ids, report_frequencies, report_inputs, current_monitor,
  monitor_plugin,
}
use dls.Plugin.Reports.{
  Reasons, AllHold, Grew, stays, then-Grew, notify_if-Grew, check_status-Grew, any_missed, any_off,
  report_sequence_ids-Grew, report_frequencies-Grew,
}

-- each event whose condition holds has been published, in this round or before
abbrev pub AllTold : Reasons → RobustEventNotifier → Type 0
AllTold [] n = Unit
AllTold ((e, condition) ∷ reasons) n =
    (condition ≡ true → contains e n.last_event_pub_time ≡ true) × AllTold reasons n

abbrev pub off_of : Option (List Bool) → Bool
off_of none = false
off_of (some nominal) = any_off nominal

module _ {Frequency : Type 0} (show_nat : ℕ → Text) (show_frequency : ℕ × ℕ → Text) (id : Text)
    (clock : ℕ → ℕ → ℕ × ℕ) (config : PluginConfig) (text : StatusMsg Frequency → ℕ → Text)
    (is_nominal : InputTopicInfo → Bool) (inverse : ℕ → ℤ) where
  -- the anomalies that a round from p to p' can report, with their conditions
  abbrev pub reasons : StatusMsg Frequency → PeriodicAppPlugin → PeriodicAppPlugin → Reasons
  reasons status p p' =
      (wrong_process_frequency, slow config.child status)
      ∷ (cpu_usage_too_high, busy config.child status)
      ∷ (mem_usage_too_high, large config.child status)
      ∷ (wrong_sequence_id, config.enable_wrong_sequence_id && any_missed p.input_info)
      ∷ (missing_input, config.enable_missing_input && not (p.missing_inputs == []))
      ∷ (
        wrong_input_frequency,
        config.enable_wrong_input_frequency
            && off_of (check_desired_frequency is_nominal p'.topic_monitor),
      )
      ∷ (
        inputs_not_synchronized,
        config.enable_inputs_not_synchronized && not p'.inputs_synchronized,
      )
      ∷ []

  abbrev said : StatusMsg Frequency → PeriodicAppPlugin → RobustEventNotifier
  said status p =
      (report_inputs show_nat show_frequency id clock config text is_nominal inverse status p).1

  -- the plugin after a round in which the monitor m gives infos and the notifier is told
  abbrev finished :
      StatusMsg Frequency
      → PeriodicAppPlugin
      → TopicMonitor
      → List InputTopicInfo
      → RobustEventNotifier
      → Bool
      → PeriodicAppPlugin
  finished status p m infos told sync = record p {
    topic_monitor = m;
    initialized =
        (report_inputs show_nat show_frequency id clock config text is_nominal inverse status p).0;
    robust_event_notifier =
        notify_if (config.enable_inputs_not_synchronized && not sync) inputs_not_synchronized
          (id ++ codes " app detected not synchronized input topics\n")
          (clock inputs_not_synchronized 0) told;
    input_topic_info = infos;
    inputs_synchronized = sync;
  }

  -- the parts of a round that is defined
  record RoundParts (status : StatusMsg Frequency) (p p' : PeriodicAppPlugin) : Type 0 where
    infos : List InputTopicInfo
    nominal : List Bool
    told : RobustEventNotifier
    checked :
        (if config.enable_wrong_input_frequency
          then check_desired_frequency is_nominal p'.topic_monitor
          else some [])
        ≡ some nominal
    reported :
        report_frequencies show_nat show_frequency id clock 0 nominal infos (said status p)
        ≡ some told
    synchronized : are_topics_sync p.input_info p'.topic_monitor ≡ some p'.inputs_synchronized
    notifier :
        p'.robust_event_notifier
        ≡ notify_if
            (config.enable_inputs_not_synchronized && not p'.inputs_synchronized)
            inputs_not_synchronized
            (id ++ codes " app detected not synchronized input topics\n")
            (clock inputs_not_synchronized 0)
            told

  monitor_plugin-RoundParts :
      (status : StatusMsg Frequency) (p p' : PeriodicAppPlugin)
      → monitor_plugin show_nat show_frequency id clock config text is_nominal inverse status p
        ≡ some p'
      → RoundParts status p p'
  unfolding monitor_plugin
  monitor_plugin-RoundParts status p p' h =
      elim (Option-cases (
        get_input_topic_info inverse p.input_info
          (current_monitor show_nat show_frequency id clock config text is_nominal inverse p))) [
            | inl lost ↦ absurd (ground (arith, h, lost))
            | inr ((m, infos), looked) ↦
                let check : Option (List Bool) =
                  if config.enable_wrong_input_frequency
                  then check_desired_frequency is_nominal m
                  else some [] in
                elim (Option-cases check) [
                  | inl lost ↦ absurd (ground (arith, h, looked, lost))
                  | inr (nominal, checked) ↦
                      elim (Option-cases (
                        report_frequencies show_nat show_frequency id clock 0 nominal infos
                          (said status p))) [
                            | inl lost ↦ absurd (ground (arith, h, looked, checked, lost))
                            | inr (told, reported) ↦
                                elim (Option-cases (are_topics_sync p.input_info m)) [
                                  | inl lost ↦
                                      absurd (ground (arith, h, looked, checked, reported, lost))
                                  | inr (sync, synchronized) ↦
                                      let out : PeriodicAppPlugin =
                                        finished status p m infos told sync in
                                      let same : out ≡ p' =
                                        ground
                                          (arith, h, looked, checked, reported, synchronized) in
                                      subst (RoundParts status p) same (record {
                                        infos = infos;
                                        nominal = nominal;
                                        told = told;
                                        checked = checked;
                                        reported = reported;
                                        synchronized = synchronized;
                                        notifier = refl;
                                      })
                                ]
                          ]
                ]
          ]

  set_threshold_once-Grew :
      (reasons : Reasons) (initialized : Bool) (n : RobustEventNotifier)
      → Grew reasons n (set_threshold_once config.child (initialized, n)).1
  unfolding set_threshold_once
  set_threshold_once-Grew reasons true n = stays reasons n
  set_threshold_once-Grew reasons false n = record {
    added = [];
    journal = refl;
    hold = tt;
    known = λ e h. h;
  }

  report_when :
      (reasons : Reasons) (p : PeriodicAppPlugin) (enabled : Bool) (n : RobustEventNotifier)
      → (enabled && any_missed p.input_info ≡ true → find wrong_sequence_id reasons ≡ some true)
      → let n' =
          if enabled
          then report_sequence_ids show_nat show_frequency id clock 0 p.input_info n
          else n in
        Grew reasons n n'
        × (enabled && any_missed p.input_info ≡ true
            → contains wrong_sequence_id n'.last_event_pub_time ≡ true)
  report_when reasons p true n reason =
      report_sequence_ids-Grew reasons show_nat show_frequency id clock 0 p.input_info n reason
  report_when reasons p false n reason = (stays reasons n, λ h. ground (arith, h))

  abbrev Told : Bool → ℕ → RobustEventNotifier → Type 0
  Told condition e n = condition ≡ true → contains e n.last_event_pub_time ≡ true

  -- what is said before the topic monitor is asked
  said-Grew :
      (status : StatusMsg Frequency) (p p' : PeriodicAppPlugin)
      → let n = said status p in
        Grew (reasons status p p') p.robust_event_notifier n
        × Told (slow config.child status) wrong_process_frequency n
        × Told (busy config.child status) cpu_usage_too_high n
        × Told (large config.child status) mem_usage_too_high n
        × Told (config.enable_wrong_sequence_id && any_missed p.input_info) wrong_sequence_id n
        × Told (config.enable_missing_input && not (p.missing_inputs == [])) missing_input n
  unfolding report_inputs child_monitor find
  said-Grew status p p' =
      let rs = reasons status p p' in
      let n = p.robust_event_notifier in
      let na = (set_threshold_once config.child (p.initialized, n)).1 in
      let n0 = check_status config.child text (λ e. clock e 0) status na in
      let n1 =
        if config.enable_wrong_sequence_id
        then report_sequence_ids show_nat show_frequency id clock 0 p.input_info n0
        else n0 in
      let ga = set_threshold_once-Grew rs p.initialized n in
      let (g0, t1, t2, t3) =
        check_status-Grew rs config.child text (λ e. clock e 0) status na (λ h. ap some h)
          (λ h. ap some h) (λ h. ap some h) in
      let (g1, t4) = report_when rs p config.enable_wrong_sequence_id n0 (λ h. ap some h) in
      let (g2, t5) =
        notify_if-Grew rs (config.enable_missing_input && not (p.missing_inputs == []))
          missing_input
          (id ++ (codes " app detected missing input topic " ++ (p.missing_inputs ++ codes "\n")))
          (clock missing_input 0) n1 (λ h. ap some h) in
      (
        then-Grew rs n na (said status p) ga
            (then-Grew rs na n0 (said status p) g0 (then-Grew rs n0 n1 (said status p) g1 g2)),
        λ h. g2.known wrong_process_frequency (g1.known wrong_process_frequency (t1 h)),
        λ h. g2.known cpu_usage_too_high (g1.known cpu_usage_too_high (t2 h)),
        λ h. g2.known mem_usage_too_high (g1.known mem_usage_too_high (t3 h)),
        λ h. g2.known wrong_sequence_id (t4 h),
        t5,
      )

  -- the frequencies that are off, if they are asked for
  off_checked :
      (m : TopicMonitor) (nominal : List Bool)
      → (if config.enable_wrong_input_frequency
          then check_desired_frequency is_nominal m
          else some [])
        ≡ some nominal
      → any_off nominal
        ≡ config.enable_wrong_input_frequency && off_of (check_desired_frequency is_nominal m)
  off_checked m nominal h = elim (Bool-cases config.enable_wrong_input_frequency) [
    | inl on ↦
        let checked : check_desired_frequency is_nominal m ≡ some nominal = ground (arith, h, on) in
        rw (on, checked) refl
    | inr off ↦ let empty : nominal ≡ [] = ground (arith, h, off) in rw (off, empty) refl
  ]

  -- A round of childMonitor that is defined publishes only events that the configuration enables and
  -- whose condition the round has found (the frequency, the usages, a missed message, a missing
  -- input, an input's frequency, inputs that are not synchronized), and each event whose condition it has found
  -- has then been published, in this round or before. The status says whether the topics are in
  -- time with each other.
  pub monitor_plugin-reports :
      (status : StatusMsg Frequency) (p p' : PeriodicAppPlugin)
      → monitor_plugin show_nat show_frequency id clock config text is_nominal inverse status p
        ≡ some p'
      → ((added : List ℕ) × (ids p'.robust_event_notifier.base.published
            ≡ added ++ ids p.robust_event_notifier.base.published)
          × AllHold (reasons status p p') added)
        × AllTold (reasons status p p') p'.robust_event_notifier
        × (are_topics_sync p.input_info p'.topic_monitor ≡ some p'.inputs_synchronized)
  unfolding find
  monitor_plugin-reports status p p' h =
      let rs = reasons status p p' in
      let n = p.robust_event_notifier in
      let n2 = said status p in
      let round = monitor_plugin-RoundParts status p p' h in
      let off = off_checked p'.topic_monitor round.nominal round.checked in
      let (g2, t1, t2, t3, t4, t5) = said-Grew status p p' in
      let (g3, t6) =
        report_frequencies-Grew rs show_nat show_frequency id clock 0 round.nominal round.infos n2
          round.told round.reported (λ k. ap some (sym off ∙ k)) in
      let (g4, t7) =
        notify_if-Grew rs (config.enable_inputs_not_synchronized && not p'.inputs_synchronized)
          inputs_not_synchronized (id ++ codes " app detected not synchronized input topics\n")
          (clock inputs_not_synchronized 0) round.told (λ k. ap some k) in
      let g = then-Grew rs n n2 round.told g2 g3 in
      let last =
        notify_if (config.enable_inputs_not_synchronized && not p'.inputs_synchronized)
          inputs_not_synchronized (id ++ codes " app detected not synchronized input topics\n")
          (clock inputs_not_synchronized 0) round.told in
      let whole = then-Grew rs n round.told last g g4 in
      rw round.notifier (
        (whole.added, whole.journal, whole.hold),
        (
          λ k. g4.known wrong_process_frequency (g3.known wrong_process_frequency (t1 k)),
          (
            λ k. g4.known cpu_usage_too_high (g3.known cpu_usage_too_high (t2 k)),
            (
              λ k. g4.known mem_usage_too_high (g3.known mem_usage_too_high (t3 k)),
              (
                λ k. g4.known wrong_sequence_id (g3.known wrong_sequence_id (t4 k)),
                (
                  λ k. g4.known missing_input (g3.known missing_input (t5 k)),
                  (λ k. g4.known wrong_input_frequency (t6 (off ∙ k)), (t7, tt)),
                ),
              ),
            ),
          ),
        ),
        round.synchronized,
      )
