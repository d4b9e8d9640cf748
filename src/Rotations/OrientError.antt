-- ===== src/Rotations/OrientError.antt =====
-- The orientation error between two quaternions, against the product of quaternions.
use dls.Common.{◌≡◌, refl, sym, ap, ◌∙◌, true, false}
use dls.Rotations.Numbers.{Number, add_left_comm, neg_neg, mul-neg}
use dls.Rotations.{Quaternion, quat_mult, quat_inverse, compute_orient_error, twice}

module _ {ℓ} {A : Type ℓ} (n : Number A) where
  -- the same rotation, with every component negated
  abbrev pub negated : Quaternion A → Quaternion A
  negated q = record { w = n.neg q.w; x = n.neg q.x; y = n.neg q.y; z = n.neg q.z }

  cancel_lem : (a b c : A) → n.add (n.add (n.add a (n.neg b)) c) (n.add b b) ≡ n.add (n.add a b) c
  cancel_lem a b c =
      let gathered : n.add (n.add (n.add a (n.neg b)) c) (n.add b b)
          ≡ n.add (n.add (n.neg b) b) (n.add (n.add a b) c) =
        simp (n.add_assoc, n.add_comm, add_left_comm n) refl in
      gathered
      ∙ ap (λ t. n.add t (n.add (n.add a b) c)) (n.neg-add_self b)
      ∙ n.zero-add (n.add (n.add a b) c)

  real_lem :
      (w x y z w' x' y' z' : A)
      → n.add (n.mul w w') (n.add (n.add (n.mul x x') (n.mul y y')) (n.mul z z'))
        ≡ n.add
            (n.mul w w')
            (n.neg (n.add (n.add (n.mul (n.neg x) x') (n.mul (n.neg y) y')) (n.mul (n.neg z) z')))
  real_lem w x y z w' x' y' z' = simp (n.neg-add, n.neg-mul, neg_neg n) refl

  turn_lem :
      (a b y z y' z' : A)
      → n.add (n.add a (n.neg b)) (n.neg (n.add (n.mul y z') (n.neg (n.mul z y'))))
        ≡ n.add (n.add a (n.neg b)) (n.add (n.mul (n.neg y) z') (n.neg (n.mul (n.neg z) y')))
  turn_lem a b y z y' z' = simp (n.neg-add, n.neg-mul, neg_neg n) refl

  -- one component of the vector, where the sign is kept
  kept_lem :
      (w w' x x' y y' z z' : A)
      → n.add
          (n.add (n.mul w x') (n.neg (n.mul w' x)))
          (n.neg (n.add (n.mul y z') (n.neg (n.mul z y'))))
        ≡ n.add
            (n.add (n.mul w x') (n.mul w' (n.neg x)))
            (n.add (n.mul (n.neg y) z') (n.neg (n.mul (n.neg z) y')))
  kept_lem w w' x x' y y' z z' =
      turn_lem (n.mul w x') (n.mul w' x) y z y' z'
      ∙ ap
          (λ t.
            n.add (n.add (n.mul w x') t) (n.add (n.mul (n.neg y) z') (n.neg (n.mul (n.neg z) y'))))
          (sym (mul-neg n w' x))

  -- one component of the vector, where the sign is flipped
  flipped_lem :
      (w w' x x' y y' z z' : A)
      → n.add
          (n.add
            (n.add (n.mul w x') (n.neg (n.mul w' x)))
            (n.neg (n.add (n.mul y z') (n.neg (n.mul z y')))))
          (n.add (n.mul w' x) (n.mul w' x))
        ≡ n.add
            (n.add (n.mul w x') (n.mul w' (n.neg (n.neg x))))
            (n.add (n.mul (n.neg y) z') (n.neg (n.mul (n.neg z) y')))
  flipped_lem w w' x x' y y' z z' =
      ap (λ t. n.add t (n.add (n.mul w' x) (n.mul w' x)))
        (turn_lem (n.mul w x') (n.mul w' x) y z y' z')
      ∙ cancel_lem (n.mul w x') (n.mul w' x)
          (n.add (n.mul (n.neg y) z') (n.neg (n.mul (n.neg z) y')))
      ∙ ap
          (λ t.
            n.add (n.add (n.mul w x') (n.mul w' t))
              (n.add (n.mul (n.neg y) z') (n.neg (n.mul (n.neg z) y'))))
          (sym (neg_neg n x))

  -- Where the sign is kept, the error is the product of the desired orientation and the inverse of the
  -- actual one. Where it is flipped, it has the real part of the product with the inverse of the negated
  -- quaternion, but each component of its vector falls short of that by twice the product of the desired real
  -- part and the actual component.
  pub compute_orient_error_lem :
      (d q : Quaternion A)
      → let e = compute_orient_error n true d q in
        let wanted = quat_mult n d (quat_inverse n (negated q)) in
        (compute_orient_error n false d q ≡ quat_mult n d (quat_inverse n q))
        × (e.w ≡ wanted.w)
        × (n.add e.x (twice n (n.mul d.w q.x)) ≡ wanted.x)
        × (n.add e.y (twice n (n.mul d.w q.y)) ≡ wanted.y)
        × (n.add e.z (twice n (n.mul d.w q.z)) ≡ wanted.z)
  unfolding compute_orient_error quat_mult quat_inverse
  compute_orient_error_lem d q =
      let kept : compute_orient_error n false d q ≡ quat_mult n d (quat_inverse n q) = λ i. record {
        w = real_lem q.w q.x q.y q.z d.w d.x d.y d.z i;
        x = kept_lem q.w d.w q.x d.x q.y d.y q.z d.z i;
        y = kept_lem q.w d.w q.y d.y q.z d.z q.x d.x i;
        z = kept_lem q.w d.w q.z d.z q.x d.x q.y d.y i;
      } in
      (
        kept,
        real_lem (n.neg q.w) (n.neg q.x) (n.neg q.y) (n.neg q.z) d.w d.x d.y d.z,
        flipped_lem (n.neg q.w) d.w q.x d.x (n.neg q.y) d.y (n.neg q.z) d.z,
        flipped_lem (n.neg q.w) d.w q.y d.y (n.neg q.z) d.z (n.neg q.x) d.x,
        flipped_lem (n.neg q.w) d.w q.z d.z (n.neg q.x) d.x (n.neg q.y) d.y,
      )
