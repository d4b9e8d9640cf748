-- ===== src/Topics/Sync.antt =====
-- What areTopicsSync promises of the inputs.
use dls.Common.{
  ℕ, zero, suc, ◌*◌, ◌≤◌, ◌≡◌, ◌≢◌, refl, Bool, true, false, ◌&&◌, Option, none, some, List, [],
  ◌∷◌, arith, if◌then◌else◌, ltb, Option-cases, inl, inr, get_elem?,
}
use dls.Topics.{Reader, InputInfo, TopicMonitor, reference, distance, all_near, are_topics_sync}

-- The input has a reader, and it receives data.
abbrev pub IsReceiving : InputInfo → Type 0
IsReceiving input = (r : Reader) × (input.reader ≡ some r) × (r.is_receiving_data ≡ true)

-- No reader is null.
abbrev pub AllRead : List InputInfo → Type 0
AllRead [] = Unit
AllRead (input ∷ inputs) = (input.reader ≢ none) × AllRead inputs

all_near_sound :
    (threshold : ℕ) (ref : InputInfo) (inputs : List InputInfo) (i : ℕ) (a : InputInfo)
    → all_near threshold ref inputs ≡ some true
    → get_elem? inputs i ≡ some a
    → IsReceiving a
    → distance ref.latest_timestamp a.latest_timestamp ≤ threshold
unfolding all_near
all_near_sound threshold ref [] i a near at receives = ground arith
all_near_sound threshold ref (input ∷ inputs) zero a near at (r, read, on) =
    ground (arith, near, at, read, on)
all_near_sound threshold ref (input ∷ inputs) (suc i) a near at receives =
    elim (Option-cases input.reader) [
      | inl null ↦ ground (arith, near, null)
      | inr (r, read) ↦
          all_near_sound threshold ref inputs i a (ground (arith, near, read)) at receives
    ]

all_near_total :
    (threshold : ℕ) (ref : InputInfo) (inputs : List InputInfo)
    → AllRead inputs
    → (b : Bool) × (all_near threshold ref inputs ≡ some b)
unfolding all_near
all_near_total threshold ref [] read = (true, refl)
all_near_total threshold ref (input ∷ inputs) (one, others) =
    let (b, rest) = all_near_total threshold ref inputs others in
    elim (Option-cases input.reader) [
      | inl null ↦ absurd (one null)
      | inr (r, read) ↦
          let far =
            r.is_receiving_data
            && ltb threshold (distance ref.latest_timestamp input.latest_timestamp) in
          (if far then false else b, ground (arith, read, rest))
    ]

reference-none :
    (inputs : List InputInfo) (i : ℕ) (a : InputInfo)
    → reference inputs ≡ some none
    → get_elem? inputs i ≡ some a
    → IsReceiving a
    → ⊥
unfolding reference
reference-none [] i a quiet at receives = ground arith
reference-none (input ∷ inputs) zero a quiet at (r, read, on) = ground (arith, quiet, at, read, on)
reference-none (input ∷ inputs) (suc i) a quiet at receives = elim (Option-cases input.reader) [
  | inl null ↦ ground (arith, quiet, null)
  | inr (r, read) ↦ reference-none inputs i a (ground (arith, quiet, read)) at receives
]

reference_total :
    (inputs : List InputInfo)
    → AllRead inputs
    → (o : Option InputInfo) × (reference inputs ≡ some o)
unfolding reference
reference_total [] read = (none, refl)
reference_total (input ∷ inputs) (one, others) =
    let (o, rest) = reference_total inputs others in
    elim (Option-cases input.reader) [
      | inl null ↦ absurd (one null)
      | inr (r, read) ↦ (if r.is_receiving_data then some input else o, ground (arith, read, rest))
    ]

distance_trans : (a b c t : ℕ) → distance a b ≤ t → distance a c ≤ t → distance b c ≤ 2 * t
distance_trans a b c t ab ac = omega (arith, ab, ac)

-- Where no reader is null areTopicsSync has an answer; where the answer is true, any two inputs
-- that receive data have time stamps at most twice the threshold apart.
pub are_topics_sync-near :
    (inputs : List InputInfo) (m : TopicMonitor)
    → AllRead inputs
    → (b : Bool) × (are_topics_sync inputs m ≡ some b)
      × (b ≡ true
          → (i j : ℕ) (a c : InputInfo) → get_elem? inputs i ≡ some a
          → get_elem? inputs j ≡ some c
          → IsReceiving a
          → IsReceiving c
          → distance a.latest_timestamp c.latest_timestamp ≤ 2 * m.sync_threshold)
unfolding are_topics_sync
are_topics_sync-near [] m read = (true, refl, λ e i j a c at at' ra rc. ground arith)
are_topics_sync-near (x ∷ []) m read =
    (true, refl, λ e i j a c at at' ra rc. alone x i j a c m.sync_threshold at at')
  where
    alone :
        (x : InputInfo) (i j : ℕ) (a c : InputInfo) (t : ℕ)
        → get_elem? (x ∷ []) i ≡ some a
        → get_elem? (x ∷ []) j ≡ some c
        → distance a.latest_timestamp c.latest_timestamp ≤ 2 * t
    alone x zero zero a c t at at' = ground (arith, at, at')
    alone x zero (suc j) a c t at at' = ground arith
    alone x (suc i) j a c t at at' = ground arith
are_topics_sync-near (x ∷ y ∷ rest) m read =
    let inputs = x ∷ y ∷ rest in
    let (o, found) = reference_total inputs read in
    elim (Option-cases o) [
      | inl quiet ↦ (
        true,
        ground (arith, found, quiet),
        λ e i j a c at at' ra rc.
            absurd (reference-none inputs i a (ground (arith, found, quiet)) at ra),
      )
      | inr (ref, first) ↦
          let (b, answer) = all_near_total m.sync_threshold ref inputs read in
          (
            b,
            ground (arith, found, first, answer),
            λ e i j a c at at' ra rc.
                let near : all_near m.sync_threshold ref inputs ≡ some true =
                  ground (arith, answer, e) in
                distance_trans ref.latest_timestamp a.latest_timestamp c.latest_timestamp
                  m.sync_threshold (all_near_sound m.sync_threshold ref inputs i a near at ra)
                  (all_near_sound m.sync_threshold ref inputs j c near at' rc),
          )
    ]
