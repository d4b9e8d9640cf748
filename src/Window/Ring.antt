-- ===== src/Window/Ring.antt =====
-- A ring of cells read from its head on, and how writes move it.
use dls.Common.{
  ℕ, zero, suc, ◌+◌, ◌-◌, ◌%◌, ◌≤◌, ◌<◌, ◌≡◌, refl, ap, ◌∙◌, sym, List, [], ◌∷◌, ◌++◌, length,
  get_or, set, take, drop, arith, drop_all, length-set, length-append, length-drop, Bool-cases, ltb,
  ltb→lt, inl, inr,
}
use native.Mathlib.Nat.{mod-eq_of_lt, mod_self, mod-eq-sub-mod}

-- the cells from the head to the end, and then those before the head
abbrev pub rotated {ℓ} : {A : Type ℓ} → ℕ → List A → List A
rotated h xs = drop h xs ++ take h xs

module _ {ℓ} {A : Type ℓ} where
  pub append-nil : (xs : List A) → xs ++ [] ≡ xs
  append-nil [] = refl
  append-nil (x ∷ xs) = ap (λ (t : List A). x ∷ t) (append-nil xs)

  pub append_assoc : (xs ys zs : List A) → (xs ++ ys) ++ zs ≡ xs ++ (ys ++ zs)
  append_assoc [] ys zs = refl
  append_assoc (x ∷ xs) ys zs = ap (λ (t : List A). x ∷ t) (append_assoc xs ys zs)

  pub length-take : (n : ℕ) (xs : List A) → n ≤ length xs → length (take n xs) ≡ n
  length-take zero xs h = refl
  length-take (suc n) [] h = ground arith
  length-take (suc n) (x ∷ xs) h = ap suc (length-take n xs (omega (arith, h)))

  pub take_all : (n : ℕ) (xs : List A) → length xs ≤ n → take n xs ≡ xs
  take_all zero [] h = refl
  take_all zero (x ∷ xs) h = ground arith
  take_all (suc n) [] h = refl
  take_all (suc n) (x ∷ xs) h = ap (λ (t : List A). x ∷ t) (take_all n xs (omega (arith, h)))

  pub take-set :
      (n : ℕ) (xs : List A) (v : A)
      → n < length xs
      → take (suc n) (set xs n v) ≡ take n xs ++ v ∷ []
  take-set n [] v h = ground arith
  take-set zero (x ∷ xs) v h = refl
  take-set (suc n) (x ∷ xs) v h = ap (λ (t : List A). x ∷ t) (take-set n xs v (omega (arith, h)))

  drop-set : (n : ℕ) (xs : List A) (v : A) → drop (suc n) (set xs n v) ≡ drop (suc n) xs
  drop-set n [] v = refl
  drop-set zero (x ∷ xs) v = refl
  drop-set (suc n) (x ∷ xs) v = drop-set n xs v

  pub drop-get_or :
      (n : ℕ) (xs : List A) (d : A) → n < length xs → drop n xs ≡ get_or xs n d ∷ drop (suc n) xs
  drop-get_or n [] d h = ground arith
  drop-get_or zero (x ∷ xs) d h = refl
  drop-get_or (suc n) (x ∷ xs) d h = drop-get_or n xs d (omega (arith, h))

  get_or-append_left :
      (xs ys : List A) (i : ℕ) (d : A) → i < length xs → get_or (xs ++ ys) i d ≡ get_or xs i d
  get_or-append_left [] ys i d h = ground arith
  get_or-append_left (x ∷ xs) ys zero d h = refl
  get_or-append_left (x ∷ xs) ys (suc i) d h = get_or-append_left xs ys i d (omega (arith, h))

  get_or-append_right :
      (xs ys : List A) (i : ℕ) (d : A) → get_or (xs ++ ys) (length xs + i) d ≡ get_or ys i d
  get_or-append_right [] ys i d = ground arith
  get_or-append_right (x ∷ xs) ys i d = ground (arith, get_or-append_right xs ys i d)

  get_or-drop : (n i : ℕ) (xs : List A) (d : A) → get_or (drop n xs) i d ≡ get_or xs (n + i) d
  get_or-drop zero i xs d = ground arith
  get_or-drop (suc n) i [] d = ground arith
  get_or-drop (suc n) i (x ∷ xs) d = ground (arith, get_or-drop n i xs d)

  get_or-take : (n i : ℕ) (xs : List A) (d : A) → i < n → get_or (take n xs) i d ≡ get_or xs i d
  get_or-take zero i xs d h = ground arith
  get_or-take (suc n) i [] d h = refl
  get_or-take (suc n) zero (x ∷ xs) d h = refl
  get_or-take (suc n) (suc i) (x ∷ xs) d h = get_or-take n i xs d (omega (arith, h))

  pub rotated-head :
      (h : ℕ) (xs : List A) (d : A)
      → h < length xs
      → rotated h xs ≡ get_or xs h d ∷ (drop (suc h) xs ++ take h xs)
  rotated-head h xs d p = rw (drop-get_or h xs d p)

  -- Overwriting the head and moving it on drops the first cell and puts the value last.
  pub rotated-next :
      (h : ℕ) (xs : List A) (v : A)
      → h < length xs
      → rotated (suc h % length xs) (set xs h v) ≡ (drop (suc h) xs ++ take h xs) ++ v ∷ []
  rotated-next h xs v p = elim (Bool-cases (ltb (suc h) (length xs))) [
    | inl below ↦ rw (mod-eq_of_lt (ltb→lt (suc h) (length xs) below)) (
        rw (drop-set h xs v)
          (rw (take-set h xs v p) (sym (append_assoc (drop (suc h) xs) (take h xs) (v ∷ [])))))
    | inr over ↦
        let last : length xs ≡ suc h = ground arith in
        let wrapped : suc h % length xs ≡ 0 = rw last (mod_self (suc h)) in
        let none_left : drop (suc h) xs ≡ [] = drop_all (suc h) xs (omega arith) in
        let all : take (suc h) (set xs h v) ≡ set xs h v =
          take_all (suc h) (set xs h v) (omega (arith, length-set xs h v)) in
        rw wrapped (rw none_left (append-nil (set xs h v) ∙ sym all ∙ take-set h xs v p))
  ]

  -- The i-th cell from the head on, found around the ring's end.
  pub get_or-rotated :
      (h i : ℕ) (xs : List A) (d : A)
      → h < length xs
      → i < length xs
      → get_or xs ((h + i) % length xs) d ≡ get_or (rotated h xs) i d
  get_or-rotated h i xs d p q = elim (Bool-cases (ltb (h + i) (length xs))) [
    | inl below ↦
        let left : get_or (rotated h xs) i d ≡ get_or (drop h xs) i d =
          get_or-append_left (drop h xs) (take h xs) i d (ground (arith, length-drop h xs)) in
        rw (mod-eq_of_lt (ltb→lt (h + i) (length xs) below)) (sym (left ∙ get_or-drop h i xs d))
    | inr over ↦
        let j : ℕ = h + i - length xs in
        let around : (h + i) % length xs ≡ j =
          mod-eq-sub-mod {n = h + i} {m = length xs} (ground arith) ∙ mod-eq_of_lt (ground arith) in
        let past : i ≡ length (drop h xs) + j = ground (arith, length-drop h xs) in
        let right : get_or (rotated h xs) i d ≡ get_or (take h xs) j d =
          ap (λ (n : ℕ). get_or (rotated h xs) n d) past
          ∙ get_or-append_right (drop h xs) (take h xs) j d in
        rw around (sym (right ∙ get_or-take h j xs d (ground arith)))
  ]

  pub length-rotated : (h : ℕ) (xs : List A) → h ≤ length xs → length (rotated h xs) ≡ length xs
  length-rotated h xs p =
      omega (arith, length-append (drop h xs) (take h xs), length-drop h xs, length-take h xs p)
