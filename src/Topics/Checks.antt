-- ===== src/Topics/Checks.antt =====
-- The checks that a TopicMonitor keeps for its topics.
use dls.Common.{
  ℕ, zero, suc, ◌≤◌, ◌≡◌, refl, none, some, List, [], ◌∷◌, Text, text_eq, arith, length,
  Option-cases, inl, inr, get_elem?,
}
use dls.Common.Map.{find}
use dls.Window.{ℤ}
use dls.Topics.{
  Reader, InputInfo, InputTopicInfo, TopicMonitor, get_actual_frequency, look_up_desired,
  update_info,
}

get_elem?_past {ℓ} : {A : Type ℓ} (xs : List A) (i : ℕ) → length xs ≤ i → get_elem? xs i ≡ none
get_elem?_past [] i h = refl
get_elem?_past (x ∷ xs) zero h = ground arith
get_elem?_past (x ∷ xs) (suc i) h = get_elem?_past xs i (omega (arith, h))

get_actual_frequency-checks :
    (inverse : ℕ → ℤ) (topic : Text) (period : ℕ) (m m' : TopicMonitor) (frequency : ℕ × ℕ)
    → get_actual_frequency inverse topic period m ≡ some (m', frequency)
    → m'.enable_checks ≡ m.enable_checks
unfolding get_actual_frequency
get_actual_frequency-checks inverse topic period m m' frequency e =
    elim (Option-cases (find topic m.frequencies_moving_windows)) [
      | inl missing ↦ ground (arith, e, missing)
      | inr (w, held) ↦ ground (arith, e, held)
    ]

-- Where the index of a topic among the inputs is no index among the topics checked, the look-up of
-- its desired frequency throws as soon as the input has a reader: the topics checked are only those inputs
-- that the map has, and their marks are looked up by the index among all the inputs.
pub update_info_out_of_range :
    (inverse : ℕ → ℤ) (input_info : List InputInfo) (m : TopicMonitor) (info : InputTopicInfo)
    (idx : ℕ) (item : InputInfo) (r : Reader)
    → find info.topic_name m.inputs_map ≡ some idx
    → get_elem? input_info idx ≡ some item
    → item.reader ≡ some r
    → length m.enable_checks ≤ idx
    → update_info inverse input_info m info ≡ none
unfolding update_info look_up_desired
update_info_out_of_range inverse input_info m info idx item r found at read past =
    elim (Option-cases (get_actual_frequency inverse info.topic_name item.latest_period_ms m)) [
      | inl missing ↦ ground (arith, found, at, missing)
      | inr ((m', frequency), measured) ↦
          let kept =
            get_actual_frequency-checks inverse info.topic_name item.latest_period_ms m m' frequency
              measured in
          let lost : get_elem? m'.enable_checks idx ≡ none =
            rw kept (get_elem?_past m.enable_checks idx past) in
          ground (arith, found, at, measured, read, lost)
    ]
