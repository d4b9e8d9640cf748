-- ===== src/Control/Period.antt =====
-- The check of the period in controlSignalGather: the mean of the last rounds' microseconds is a sum
-- of quotients of whole numbers, each rounded down.
use dls.Common.{
  ℕ, ◌+◌, ◌*◌, ◌/◌, ◌≤◌, ◌<◌, ◌≡◌, ◌⊎◌, refl, some, List, [], ◌∷◌, if◌then◌else◌, ltb, ltb→lt, ◌∙◌,
  length, arith, Option-cases, Bool-cases, inl, inr,
}
use dls.Control.{GatherLayer, Cycle, mean_from, mean_period, gather, gather_round}

pub sum : List ℕ → ℕ
sum [] = 0
sum (x ∷ xs) = x + sum xs

quotient_bounds : (size x : ℕ) → 0 < size → (x / size * size ≤ x) × (x < x / size * size + size)
quotient_bounds size x pos = (grind arith, grind arith)

mean_from-bounds :
    (size mean : ℕ) (xs : List ℕ)
    → 0 < size
    → (mean_from size mean xs * size ≤ mean * size + sum xs)
      × (mean * size + sum xs + length xs ≤ mean_from size mean xs * size + length xs * size)
unfolding mean_from sum
mean_from-bounds size mean [] pos = (omega arith, omega arith)
mean_from-bounds size mean (x ∷ xs) pos =
    let (low, high) = mean_from-bounds size (mean + x / size) xs pos in
    let (below, above) = quotient_bounds size x pos in (omega arith, omega arith)

mean_period-bounds :
    (delta : List ℕ)
    → 0 < length delta
    → (mean_period delta * length delta ≤ sum delta)
      × (sum delta < mean_period delta * length delta + length delta * length delta)
unfolding mean_period
mean_period-bounds delta pos =
    let (low, high) = mean_from-bounds (length delta) 0 delta pos in (omega arith, omega arith)

times_le : (a b n : ℕ) → a ≤ b → a * n ≤ b * n
times_le a b n h = grind arith

warned : (mean n total : ℕ) → 0 < n → mean * n ≤ total → 990 < mean → 990 * n < total
warned mean n total pos h above = let more = times_le 991 mean n above in omega arith

quiet : (mean n total : ℕ) → mean ≤ 990 → total < mean * n + n * n → total < (990 + n) * n
quiet mean n total below high = let less = times_le mean 990 n below in omega arith

module _ {ℓ} {A : Type ℓ} (nil : A) (add mul : A → A → A) where
  warnings-gather_round :
      (push_back : ℕ → List ℕ → List ℕ) (c : Cycle A) (l l' : GatherLayer A)
      → gather_round nil add mul push_back c l ≡ some l'
      → l'.warnings ≡ (if ltb 990 (mean_period l'.delta) then l.warnings + 1 else l.warnings)
  unfolding gather_round
  warnings-gather_round push_back c l l' h =
      elim (Option-cases (gather nil add mul c.readings l.control_signal_msg)) [
        | inl faulty ↦ ground arith
        | inr (s, sent) ↦ ground arith
      ]

  -- A round after which delta is not empty either warns of the period, and the mean of delta is above
  -- 990, or it does not, and the mean is below 990 plus the number of values in delta.
  pub gather_round-warnings :
      (push_back : ℕ → List ℕ → List ℕ) (c : Cycle A) (l l' : GatherLayer A)
      → gather_round nil add mul push_back c l ≡ some l'
      → 0 < length l'.delta
      → ((l'.warnings ≡ l.warnings + 1) × (990 * length l'.delta < sum l'.delta))
        ⊎ ((l'.warnings ≡ l.warnings) × (sum l'.delta < (990 + length l'.delta) * length l'.delta))
  gather_round-warnings push_back c l l' h pos =
      let counted = warnings-gather_round push_back c l l' h in
      let (low, high) = mean_period-bounds l'.delta pos in
      let mean = mean_period l'.delta in
      let n = length l'.delta in
      elim (Bool-cases (ltb 990 mean)) [
        | inl above ↦
            inl (
              counted ∙ rw above refl,
              warned mean n (sum l'.delta) pos low (ltb→lt 990 mean above),
            )
        | inr below ↦
            let few : mean ≤ 990 = ground arith in
            inr (counted ∙ rw below refl, quiet mean n (sum l'.delta) few high)
      ]
