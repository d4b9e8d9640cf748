-- ===== src/Window/Extrema.antt =====
-- The greatest and the least of a list, and how they change as a window moves.
use dls.Common.{ℕ, ◌≡◌, ◌≢◌, refl, List, [], ◌∷◌, ◌++◌, if◌then◌else◌, ltb, arith}

abbrev pub larger : ℕ → ℕ → ℕ
larger a b = if ltb a b then b else a

abbrev pub smaller : ℕ → ℕ → ℕ
smaller a b = if ltb b a then b else a

-- The largest and the smallest of a number and of the elements of a list.
unfoldable pub maximum : ℕ → List ℕ → ℕ
maximum m [] = m
maximum m (x ∷ xs) = larger (maximum m xs) x

unfoldable pub minimum : ℕ → List ℕ → ℕ
minimum m [] = m
minimum m (x ∷ xs) = smaller (minimum m xs) x

-- of a whole list, 0 where it is empty
unfoldable pub greatest : List ℕ → ℕ
unfolding maximum
greatest [] = 0
greatest (x ∷ xs) = maximum x xs

unfoldable pub least : List ℕ → ℕ
unfolding minimum
least [] = 0
least (x ∷ xs) = minimum x xs

pub maximum-larger : (m x : ℕ) (xs : List ℕ) → maximum (larger m x) xs ≡ larger (maximum m xs) x
unfolding maximum
maximum-larger m x [] = refl
maximum-larger m x (y ∷ ys) = ground (arith, maximum-larger m x ys)

pub minimum-smaller : (m x : ℕ) (xs : List ℕ) → minimum (smaller m x) xs ≡ smaller (minimum m xs) x
unfolding minimum
minimum-smaller m x [] = refl
minimum-smaller m x (y ∷ ys) = ground (arith, minimum-smaller m x ys)

maximum-append_one : (m v : ℕ) (xs : List ℕ) → maximum m (xs ++ v ∷ []) ≡ larger (maximum m xs) v
unfolding maximum
maximum-append_one m v [] = refl
maximum-append_one m v (y ∷ ys) = ground (arith, maximum-append_one m v ys)

minimum-append_one : (m v : ℕ) (xs : List ℕ) → minimum m (xs ++ v ∷ []) ≡ smaller (minimum m xs) v
unfolding minimum
minimum-append_one m v [] = refl
minimum-append_one m v (y ∷ ys) = ground (arith, minimum-append_one m v ys)

pub greatest-append_one :
    (xs : List ℕ) (v : ℕ) → xs ≢ [] → greatest (xs ++ v ∷ []) ≡ larger (greatest xs) v
unfolding greatest
greatest-append_one [] v ne = absurd (ne refl)
greatest-append_one (x ∷ xs) v ne = maximum-append_one x v xs

pub least-append_one : (xs : List ℕ) (v : ℕ) → xs ≢ [] → least (xs ++ v ∷ []) ≡ smaller (least xs) v
unfolding least
least-append_one [] v ne = absurd (ne refl)
least-append_one (x ∷ xs) v ne = minimum-append_one x v xs

-- a number that leaves the list and is not the greatest leaves the greatest
pub greatest-tail : (x : ℕ) (xs : List ℕ) → x ≢ greatest (x ∷ xs) → greatest (x ∷ xs) ≡ greatest xs
unfolding greatest maximum
greatest-tail x [] ne = absurd (ne refl)
greatest-tail x (y ∷ ys) ne = ground (arith, maximum-larger x y ys, maximum-larger y x ys, ne)

pub least-tail : (x : ℕ) (xs : List ℕ) → x ≢ least (x ∷ xs) → least (x ∷ xs) ≡ least xs
unfolding least minimum
least-tail x [] ne = absurd (ne refl)
least-tail x (y ∷ ys) ne = ground (arith, minimum-smaller x y ys, minimum-smaller y x ys, ne)
