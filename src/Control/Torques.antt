-- ===== src/Control/Torques.antt =====
-- add_torques of Control, joint by joint.
use dls.Common.{
  ℕ, zero, suc, ◌≤◌, ◌<◌, ◌≡◌, refl, Option, none, some, List, [], ◌∷◌, length, get_elem?, arith,
}
use dls.Control.{Reading, fill, add_torques}

module _ {ℓ} {A : Type ℓ} (nil : A) (add mul : A → A → A) where
  -- a joint's torque with what one controller adds to it
  abbrev pub plus_share : A → Option A → A → A
  plus_share premultiplier none t = t
  plus_share premultiplier (some u) t = add t (mul premultiplier u)

  -- a joint's torque with what the controllers add to it, one after another
  unfoldable pub joint_torque : ℕ → List (Reading A) → A → A
  joint_torque i [] t = t
  joint_torque i (c ∷ cs) t =
      joint_torque i cs (plus_share c.premultiplier (get_elem? c.msg.joints_torques i) t)

  pub add_torques_defined :
      (p : A) (us ts : List A)
      → length us ≤ length ts
      → (sums : List A) × (add_torques nil add mul p us ts ≡ some sums)
        × (length sums ≡ length ts)
        × ((i : ℕ) (t : A)
            → get_elem? ts i ≡ some t
            → get_elem? sums i ≡ some (plus_share p (get_elem? us i) t))
  unfolding add_torques
  add_torques_defined p [] ts h = (ts, refl, refl, λ i t e. e)
  add_torques_defined p (u ∷ us) [] h = absurd (omega arith)
  add_torques_defined p (u ∷ us) (t ∷ ts) h =
      let (sums, defined, same, at) = add_torques_defined p us ts (omega arith) in
      (add t (mul p u) ∷ sums, ground arith, omega arith, at_cons sums at)
    where
      at_cons :
          (sums : List A)
          → ((i : ℕ) (a : A)
              → get_elem? ts i ≡ some a
              → get_elem? sums i ≡ some (plus_share p (get_elem? us i) a))
          → (i : ℕ) (a : A) → get_elem? (t ∷ ts) i ≡ some a
          → get_elem? (add t (mul p u) ∷ sums) i ≡ some (plus_share p (get_elem? (u ∷ us) i) a)
      at_cons sums at zero a e = ground arith
      at_cons sums at (suc i) a e = at i a e

  pub add_torques_fault :
      (p : A) (us ts : List A) → length ts < length us → add_torques nil add mul p us ts ≡ none
  unfolding add_torques
  add_torques_fault p [] ts h = absurd (omega arith)
  add_torques_fault p (u ∷ us) [] h = refl
  add_torques_fault p (u ∷ us) (t ∷ ts) h = ground (arith, add_torques_fault p us ts)

module _ {ℓ} {A : Type ℓ} (nil : A) where
  pub length-fill : (xs : List A) → length (fill nil xs) ≡ length xs
  unfolding fill
  length-fill [] = refl
  length-fill (x ∷ xs) = omega (arith, length-fill xs)

  pub get_elem?-fill : (xs : List A) (i : ℕ) → i < length xs → get_elem? (fill nil xs) i ≡ some nil
  unfolding fill
  get_elem?-fill [] i h = absurd (omega arith)
  get_elem?-fill (x ∷ xs) zero h = refl
  get_elem?-fill (x ∷ xs) (suc i) h = get_elem?-fill xs i (omega (arith, h))
