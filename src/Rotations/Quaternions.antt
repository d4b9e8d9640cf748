-- ===== src/Rotations/Quaternions.antt =====
-- The product of quaternions and its matrices.
use dls.Common.{◌≡◌, refl, ap, ◌∙◌}
use dls.Rotations.Numbers.{Number, add_left_comm, neg_neg, mul-neg}
use dls.Rotations.{
  Vector3, Quaternion, vector3, vector4, apply4, cast_quat_to_vector, quat_mult, quat_r, quat_l,
  skew_sim, skew_sim_to_vec, quat_inverse, quat_to_rot_mat, transpose3,
}

module _ {ℓ} {A : Type ℓ} (n : Number A) where
  real_right :
      (w1 w2 x1 x2 y1 y2 z1 z2 : A)
      → n.add (n.mul w1 w2) (n.neg (n.add (n.add (n.mul x1 x2) (n.mul y1 y2)) (n.mul z1 z2))) ≡ (
          n.add
            (n.add (n.add (n.mul w1 w2) (n.mul (n.neg x1) x2)) (n.mul (n.neg y1) y2))
            (n.mul (n.neg z1) z2))
  real_right w1 w2 x1 x2 y1 y2 z1 z2 =
      simp (n.add_assoc, n.add_comm, add_left_comm n, n.neg-mul, n.mul_comm, n.neg-add) refl

  real_left :
      (w1 w2 x1 x2 y1 y2 z1 z2 : A)
      → n.add (n.mul w1 w2) (n.neg (n.add (n.add (n.mul x1 x2) (n.mul y1 y2)) (n.mul z1 z2))) ≡ (
          n.add
            (n.add (n.add (n.mul w2 w1) (n.mul (n.neg x2) x1)) (n.mul (n.neg y2) y1))
            (n.mul (n.neg z2) z1))
  real_left w1 w2 x1 x2 y1 y2 z1 z2 =
      simp (n.add_assoc, n.add_comm, add_left_comm n, n.neg-mul, n.mul_comm, n.neg-add) refl

  x_right :
      (w1 w2 a1 a2 b1 b2 c1 c2 : A)
      → (n.add (n.add (n.mul w1 a2) (n.mul w2 a1)) (n.add (n.mul b1 c2) (n.neg (n.mul c1 b2))))
        ≡ (n.add (n.add (n.add (n.mul a1 w2) (n.mul w1 a2)) (n.mul (n.neg c1) b2)) (n.mul b1 c2))
  x_right w1 w2 a1 a2 b1 b2 c1 c2 =
      simp (n.add_assoc, n.add_comm, add_left_comm n, n.neg-mul, n.mul_comm) refl

  y_right :
      (w1 w2 a1 a2 b1 b2 c1 c2 : A)
      → (n.add (n.add (n.mul w1 a2) (n.mul w2 a1)) (n.add (n.mul b1 c2) (n.neg (n.mul c1 b2))))
        ≡ (n.add (n.add (n.add (n.mul a1 w2) (n.mul b1 c2)) (n.mul w1 a2)) (n.mul (n.neg c1) b2))
  y_right w1 w2 a1 a2 b1 b2 c1 c2 =
      simp (n.add_assoc, n.add_comm, add_left_comm n, n.neg-mul, n.mul_comm) refl

  z_right :
      (w1 w2 a1 a2 b1 b2 c1 c2 : A)
      → (n.add (n.add (n.mul w1 a2) (n.mul w2 a1)) (n.add (n.mul b1 c2) (n.neg (n.mul c1 b2))))
        ≡ (n.add (n.add (n.add (n.mul a1 w2) (n.mul (n.neg c1) b2)) (n.mul b1 c2)) (n.mul w1 a2))
  z_right w1 w2 a1 a2 b1 b2 c1 c2 =
      simp (n.add_assoc, n.add_comm, add_left_comm n, n.neg-mul, n.mul_comm) refl

  x_left :
      (w1 w2 a1 a2 b1 b2 c1 c2 : A)
      → (n.add (n.add (n.mul w1 a2) (n.mul w2 a1)) (n.add (n.mul b1 c2) (n.neg (n.mul c1 b2))))
        ≡ (n.add (n.add (n.add (n.mul a2 w1) (n.mul w2 a1)) (n.mul c2 b1)) (n.mul (n.neg b2) c1))
  x_left w1 w2 a1 a2 b1 b2 c1 c2 =
      simp (n.add_assoc, n.add_comm, add_left_comm n, n.neg-mul, n.mul_comm) refl

  y_left :
      (w1 w2 a1 a2 b1 b2 c1 c2 : A)
      → (n.add (n.add (n.mul w1 a2) (n.mul w2 a1)) (n.add (n.mul b1 c2) (n.neg (n.mul c1 b2))))
        ≡ (n.add (n.add (n.add (n.mul a2 w1) (n.mul (n.neg b2) c1)) (n.mul w2 a1)) (n.mul c2 b1))
  y_left w1 w2 a1 a2 b1 b2 c1 c2 =
      simp (n.add_assoc, n.add_comm, add_left_comm n, n.neg-mul, n.mul_comm) refl

  z_left :
      (w1 w2 a1 a2 b1 b2 c1 c2 : A)
      → (n.add (n.add (n.mul w1 a2) (n.mul w2 a1)) (n.add (n.mul b1 c2) (n.neg (n.mul c1 b2))))
        ≡ (n.add (n.add (n.add (n.mul a2 w1) (n.mul c2 b1)) (n.mul (n.neg b2) c1)) (n.mul w2 a1))
  z_left w1 w2 a1 a2 b1 b2 c1 c2 =
      simp (n.add_assoc, n.add_comm, add_left_comm n, n.neg-mul, n.mul_comm) refl

  -- The product of two quaternions as a vector is the right matrix of the first factor applied to the
  -- second one as a vector, and the left matrix of the second factor applied to the first one.
  pub quat_mult_matrices :
      (q2 q1 : Quaternion A)
      → (cast_quat_to_vector (quat_mult n q2 q1) ≡ apply4 n (quat_r n q1) (cast_quat_to_vector q2))
        × (cast_quat_to_vector (quat_mult n q2 q1)
            ≡ apply4 n (quat_l n q2) (cast_quat_to_vector q1))
  unfolding cast_quat_to_vector quat_mult quat_r quat_l
  quat_mult_matrices q2 q1 = (
    λ i.
        vector4 (real_right q1.w q2.w q1.x q2.x q1.y q2.y q1.z q2.z i)
          (x_right q1.w q2.w q1.x q2.x q1.y q2.y q1.z q2.z i)
          (y_right q1.w q2.w q1.y q2.y q1.z q2.z q1.x q2.x i)
          (z_right q1.w q2.w q1.z q2.z q1.x q2.x q1.y q2.y i),
    λ i.
        vector4 (real_left q1.w q2.w q1.x q2.x q1.y q2.y q1.z q2.z i)
          (x_left q1.w q2.w q1.x q2.x q1.y q2.y q1.z q2.z i)
          (y_left q1.w q2.w q1.y q2.y q1.z q2.z q1.x q2.x i)
          (z_left q1.w q2.w q1.z q2.z q1.x q2.x q1.y q2.y i),
  )

  -- The vector of a skew matrix is the vector that the matrix was made of.
  pub skew_sim_to_vec-skew_sim : (v : Vector3 A) → skew_sim_to_vec n (skew_sim n v) ≡ v
  unfolding skew_sim_to_vec skew_sim
  skew_sim_to_vec-skew_sim v =
      let same : (a : A) → n.half (n.add a (n.neg (n.neg a))) ≡ a =
        λ a. ap (λ b. n.half (n.add a b)) (neg_neg n a) ∙ n.half-add_self a in
      λ i. vector3 (same v.x i) (same v.y i) (same v.z i)

  neg-mul-neg : (a b : A) → n.mul (n.neg a) (n.neg b) ≡ n.mul a b
  neg-mul-neg a b = n.neg-mul a (n.neg b) ∙ ap n.neg (mul-neg n a b) ∙ neg_neg n (n.mul a b)

  diagonal_lem :
      (a : A) (w : A)
      → let square : A → A = λ b. n.add b b in
        n.add (n.add (n.neg n.one) w) (square (n.mul (n.neg a) (n.neg a)))
        ≡ n.add (n.add (n.neg n.one) w) (square (n.mul a a))
  diagonal_lem a w = ap (λ b. n.add (n.add (n.neg n.one) w) (n.add b b)) (neg-mul-neg a a)

  plus_lem :
      (w a b c : A)
      → n.add (n.mul (n.neg a) (n.neg b)) (n.mul w (n.neg c))
        ≡ n.add (n.mul a b) (n.neg (n.mul w c))
  plus_lem w a b c = simp (neg-mul-neg, mul-neg n) refl

  minus_lem :
      (w a b c : A)
      → n.add (n.mul (n.neg a) (n.neg b)) (n.neg (n.mul w (n.neg c)))
        ≡ n.add (n.mul a b) (n.mul w c)
  minus_lem w a b c = simp (neg-mul-neg, mul-neg n, neg_neg n) refl

  twice_same : {a b : A} → a ≡ b → n.add a a ≡ n.add b b
  twice_same e i = n.add (e i) (e i)

  -- The rotation matrix of the inverse of a quaternion is the transpose of the quaternion's.
  pub quat_to_rot_mat-quat_inverse :
      (q : Quaternion A) → quat_to_rot_mat n (quat_inverse n q) ≡ transpose3 (quat_to_rot_mat n q)
  unfolding quat_to_rot_mat quat_inverse
  quat_to_rot_mat-quat_inverse q =
      let square = n.add (n.mul q.w q.w) (n.mul q.w q.w) in
      λ i. record {
        r0 =
            vector3 (diagonal_lem q.x square i) (twice_same (plus_lem q.w q.x q.y q.z) i)
              (twice_same (minus_lem q.w q.x q.z q.y) i);
        r1 =
            vector3 (twice_same (minus_lem q.w q.x q.y q.z) i) (diagonal_lem q.y square i)
              (twice_same (plus_lem q.w q.y q.z q.x) i);
        r2 =
            vector3 (twice_same (plus_lem q.w q.x q.z q.y) i)
              (twice_same (minus_lem q.w q.y q.z q.x) i) (diagonal_lem q.z square i);
      }
