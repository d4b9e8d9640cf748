-- ===== src/Rotations/Omega.antt =====
-- The angular velocity of a quaternion and its derivative.
use dls.Common.{◌≡◌, refl}
use dls.Rotations.Numbers.{Number, add_left_comm, neg_neg, mul-neg}
use dls.Rotations.{Quaternion, vector3, twice, quat_mult, quat_inverse}
use dls.Rotations.Conversions.{Reals, quat_to_omega}

module _ {ℓ} {A : Type ℓ} (n : Number A) where
  component :
      (w x y z dw dx dy dz : A)
      → n.add (n.add (n.add (n.mul (n.neg x) dw) (n.mul w dx)) (n.mul z dy)) (n.mul (n.neg y) dz)
        ≡ n.add
            (n.add (n.mul w dx) (n.mul dw (n.neg x)))
            (n.add (n.mul (n.neg y) dz) (n.neg (n.mul (n.neg z) dy)))
  component w x y z dw dx dy dz =
      simp (n.add_assoc, n.add_comm, add_left_comm n, n.neg-mul, mul-neg n, neg_neg n, n.mul_comm)
        refl

  component_y :
      (w x y z dw dx dy dz : A)
      → n.add (n.add (n.add (n.mul (n.neg y) dw) (n.mul (n.neg z) dx)) (n.mul w dy)) (n.mul x dz)
        ≡ n.add
            (n.add (n.mul w dy) (n.mul dw (n.neg y)))
            (n.add (n.mul (n.neg z) dx) (n.neg (n.mul (n.neg x) dz)))
  component_y w x y z dw dx dy dz =
      simp (n.add_assoc, n.add_comm, add_left_comm n, n.neg-mul, mul-neg n, neg_neg n, n.mul_comm)
        refl

  component_z :
      (w x y z dw dx dy dz : A)
      → n.add (n.add (n.add (n.mul (n.neg z) dw) (n.mul y dx)) (n.mul (n.neg x) dy)) (n.mul w dz)
        ≡ n.add
            (n.add (n.mul w dz) (n.mul dw (n.neg z)))
            (n.add (n.mul (n.neg x) dy) (n.neg (n.mul (n.neg y) dx)))
  component_z w x y z dw dx dy dz =
      simp (n.add_assoc, n.add_comm, add_left_comm n, n.neg-mul, mul-neg n, neg_neg n, n.mul_comm)
        refl

  -- The angular velocity of a quaternion and its derivative is twice the vector part of the product
  -- of the derivative and the inverse of the quaternion.
  pub quat_to_omega-quat_mult :
      (r : Reals A) (q qd : Quaternion A)
      → let product = quat_mult n qd (quat_inverse n q) in
        quat_to_omega n r q qd ≡ vector3 (twice n product.x) (twice n product.y) (twice n product.z)
  unfolding quat_to_omega quat_mult quat_inverse
  quat_to_omega-quat_mult r q qd = λ i.
      vector3 (twice n (component q.w q.x q.y q.z qd.w qd.x qd.y qd.z i))
        (twice n (component_y q.w q.x q.y q.z qd.w qd.x qd.y qd.z i))
        (twice n (component_z q.w q.x q.y q.z qd.w qd.x qd.y qd.z i))
