-- ===== src/Window/Deviation.antt =====
-- stddev of numerical_moving_window.tpp. The type of the result and the square root of the standard
-- library are arguments, and the variance under the root is a quotient of whole numbers: with the sum
-- S, the sum of squares Q and n values, (Q - n (S / n)^2) / (n - 1) is (n Q - S^2) / (n (n - 1)).
use dls.Common.{
  ℕ, ◌+◌, ◌-◌, ◌*◌, ◌≤◌, ◌≡◌, refl, sym, ap, ◌∙◌, subst, List, [], ◌∷◌, length, if◌then◌else◌, ltb,
  leb, nat_eq, arith, false, Bool-cases, inl, inr,
}
use native.Mathlib.Nat.{mul_comm, add-mul, mul-add, mul-zero, zero-mul}
use dls.Window.{NumericalMovingWindow, new_window}
use dls.Window.Refinement.{total, total_sq, length-contents}
use dls.Window.Statistics.{
  Operation, run, run_newest, run-newest, run-IsWindow, new_window-IsWindow,
}

-- var, where there are two values at least: 0 where it would be negative
unfoldable pub variance : NumericalMovingWindow → ℕ × ℕ
variance w =
    let n = w.size_ in
    if ltb (n * w.sum_sq) (w.sum * w.sum)
    then (0, 1)
    else (n * w.sum_sq - w.sum * w.sum, n * (n - 1))

-- stddev()
unfoldable pub stddev {ℓ} : {Real : Type ℓ} → (ℕ × ℕ → Real) → Real → NumericalMovingWindow → Real
unfolding variance
stddev sqrt nought w = if leb w.size_ 1 then nought else sqrt (variance w)

abbrev pub gap : ℕ → ℕ → ℕ
gap a b = (a - b) + (b - a)

-- The squares of the distances of x to the values of a list, added up.
unfoldable pub spread : ℕ → List ℕ → ℕ
spread x [] = 0
spread x (y ∷ ys) = gap x y * gap x y + spread x ys

-- The same over every pair of values of a list.
unfoldable pub spreads : List ℕ → ℕ
unfolding spread
spreads [] = 0
spreads (x ∷ xs) = spread x xs + spreads xs

gap_square : (a k : ℕ) → k * k + 2 * (a * (a + k)) ≡ a * a + (a + k) * (a + k)
gap_square a k = omega (arith, add-mul a k (a + k), mul-add k a k, mul-add a a k, mul_comm k a)

distance_square : (a b : ℕ) → gap a b * gap a b + 2 * (a * b) ≡ a * a + b * b
distance_square a b = elim (Bool-cases (leb a b)) [
  | inl up ↦
      let le : a ≤ b = ground (arith, up) in
      let d : gap a b ≡ b - a = omega (arith, le) in
      let split : a + (b - a) ≡ b = omega (arith, le) in
      let h = gap_square a (b - a) in
      rw d (subst (λ (t : ℕ). (b - a) * (b - a) + 2 * (a * t) ≡ a * a + t * t) split h)
  | inr down ↦
      let le : b ≤ a = ground (arith, down) in
      let d : gap a b ≡ a - b = omega (arith, le) in
      let split : b + (a - b) ≡ a = omega (arith, le) in
      let h = gap_square b (a - b) in
      rw d (
        omega (
          arith,
          subst (λ (t : ℕ). (a - b) * (a - b) + 2 * (b * t) ≡ b * b + t * t) split h,
          mul_comm a b,
        ))
]

spread_lem :
    (x : ℕ) (xs : List ℕ) → spread x xs + 2 * (x * total xs) ≡ length xs * (x * x) + total_sq xs
unfolding spread total total_sq
spread_lem x [] = omega (arith, mul-zero x, zero-mul (x * x))
spread_lem x (y ∷ ys) = omega (
  arith,
  distance_square x y,
  spread_lem x ys,
  mul-add x y (total ys),
  add-mul 1 (length ys) (x * x),
)

spreads_lem : (xs : List ℕ) → spreads xs + total xs * total xs ≡ length xs * total_sq xs
unfolding spreads total total_sq
spreads_lem [] = refl
spreads_lem (x ∷ xs) = omega (
  arith,
  spread_lem x xs,
  spreads_lem xs,
  add-mul x (total xs) (x + total xs),
  mul-add x x (total xs),
  mul-add (total xs) x (total xs),
  mul_comm (total xs) x,
  add-mul 1 (length xs) (x * x + total_sq xs),
  mul-add (length xs) (x * x) (total_sq xs),
)

-- After any pushes and clears, the standard deviation is the root of the sample variance of the newest values, which is
-- the sum of the squared distances of their pairs over n (n - 1), and 0 where there are fewer than
-- two; with exact sums the case of a negative variance never comes.
pub run-stddev {ℓ} :
    {Real : Type ℓ} (sqrt : ℕ × ℕ → Real) (nought : Real) (capacity : ℕ) (ops : List Operation)
    → let w = run ops (new_window capacity) in
      let c = run_newest capacity ops [] in
      (stddev sqrt nought w
        ≡ (if leb (length c) 1 then nought else sqrt (spreads c, length c * (length c - 1))))
      × (w.sum * w.sum ≤ w.size_ * w.sum_sq)
unfolding stddev variance
run-stddev sqrt nought capacity ops =
    let w = run ops (new_window capacity) in
    let c = run_newest capacity ops [] in
    let (ok, kept) = run-IsWindow ops (new_window capacity) (new_window-IsWindow capacity) in
    let same = run-newest capacity ops in
    let sums : w.sum ≡ total c = ok.sums ∙ ap total same in
    let squares : w.sum_sq ≡ total_sq c = ok.squares ∙ ap total_sq same in
    let size_is : w.size_ ≡ length c = sym (length-contents w ok) ∙ ap length same in
    let whole = spreads_lem c in
    let within : total c * total c ≤ length c * total_sq c = omega (arith, whole) in
    let unguarded : ltb (length c * total_sq c) (total c * total c) ≡ false = ground arith in
    let rest : length c * total_sq c - total c * total c ≡ spreads c = omega (arith, whole) in
    rw (sums, squares, size_is) (rw (unguarded, rest) (refl, within))
