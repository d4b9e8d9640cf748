-- ===== src/Rotations/Conversions.antt =====
-- The conversions of modules/math/include/dls2/math/rotations.hpp between quaternions, matrices,
-- rotation vectors and Euler angles. The functions of the C library, the order and the constants of
-- the doubles are arguments, and so are the norms, the normalisations and the inverse of Eigen.
use dls.Common.{Bool, ◌&&◌, ◌||◌, if◌then◌else◌}
use dls.Rotations.Numbers.{Number}
use dls.Rotations.{
  Vector3, Matrix3, Quaternion, vector3, vector4, transpose3, cast_quat_to_vector, sub, dot4,
  product3, cross, twice, skew_sim, skew_sim_to_vec, quat_to_rot_mat, rpy_to_rot,
}

pub record Reals {ℓ} (A : Type ℓ) : Type ℓ where
  pub div : A → A → A
  pub less : A → A → Bool
  pub at_most : A → A → Bool
  pub fabs : A → A
  pub equal3 : Vector3 A → Vector3 A → Bool
  pub sqrt : A → A
  pub floor : A → A
  pub sin : A → A
  pub cos : A → A
  pub atan2 : A → A → A
  pub atan2f : A → A → A
  pub asinf : A → A
  pub pi : A
  pub millionth : A
  pub tiny : A
  pub norm : Vector3 A → A
  pub normalized3 : Vector3 A → Vector3 A
  pub normalized4 : Quaternion A → Quaternion A
  pub inverse3 : Matrix3 A → Matrix3 A

module _ {ℓ} {A : Type ℓ} (n : Number A) (r : Reals A) where
  abbrev pub scale3 : A → Vector3 A → Vector3 A
  scale3 a v = vector3 (n.mul a v.x) (n.mul a v.y) (n.mul a v.z)

  abbrev pub times3 : Vector3 A → A → Vector3 A
  times3 v a = vector3 (n.mul v.x a) (n.mul v.y a) (n.mul v.z a)

  abbrev pub over3 : Vector3 A → A → Vector3 A
  over3 v a = vector3 (r.div v.x a) (r.div v.y a) (r.div v.z a)

  abbrev pub negated3 : Vector3 A → Vector3 A
  negated3 v = vector3 (n.neg v.x) (n.neg v.y) (n.neg v.z)

  abbrev pub zero_vector : Vector3 A
  zero_vector = vector3 n.zero n.zero n.zero

  abbrev pub identity3 : Matrix3 A
  identity3 = record {
    r0 = vector3 n.one n.zero n.zero;
    r1 = vector3 n.zero n.one n.zero;
    r2 = vector3 n.zero n.zero n.one;
  }

  abbrev pub vec : Quaternion A → Vector3 A
  vec q = vector3 q.x q.y q.z

  -- rotTorpy(R)
  unfoldable pub rot_to_rpy : Matrix3 A → Vector3 A
  rot_to_rpy m = vector3 (r.atan2f m.r1.z m.r2.z) (n.neg (r.asinf m.r0.z)) (r.atan2f m.r0.y m.r0.x)

  -- twovecToRot(v1, v2)
  unfoldable pub two_vec_to_rot : Vector3 A → Vector3 A → Matrix3 A
  two_vec_to_rot v1 v2 =
      if r.equal3 v1 v2 || r.equal3 v1 (negated3 v2)
      then identity3
      else let axis = r.normalized3 (cross n v1 v2) in
        let base : Matrix3 A =
          transpose3 (record { r0 = r.normalized3 v1; r1 = r.normalized3 v2; r2 = axis }) in
        let coord_change_mat : Matrix3 A = record {
          r0 = vector3 n.zero n.one n.zero;
          r1 = vector3 n.one n.zero n.zero;
          r2 = vector3 n.zero n.zero n.one;
        } in
        product3 n (product3 n base coord_change_mat) (r.inverse3 base)

  -- quatToOmega(q, qd)
  unfoldable pub quat_to_omega : Quaternion A → Quaternion A → Vector3 A
  unfolding cast_quat_to_vector
  quat_to_omega q qd =
      let qd_vector = cast_quat_to_vector qd in
      let w0 = vector4 (n.neg q.x) q.w q.z (n.neg q.y) in
      let w1 = vector4 (n.neg q.y) (n.neg q.z) q.w q.x in
      let w2 = vector4 (n.neg q.z) q.y (n.neg q.x) q.w in
      vector3 (twice n (dot4 n w0 qd_vector)) (twice n (dot4 n w1 qd_vector))
        (twice n (dot4 n w2 qd_vector))

  abbrev pub halved : A → A
  halved a = r.div a (twice n n.one)

  abbrev pub one_half : A
  one_half = n.half n.one

  -- 0.5/sqrt_tr where sqrt_tr is above the threshold
  abbrev pub half_over : A → A
  half_over a = if r.less r.millionth a then r.div one_half a else a

  -- rotMatToQuat(R)
  unfoldable pub rot_mat_to_quat : Matrix3 A → Quaternion A
  rot_mat_to_quat m =
      let m00 = m.r0.x in
      let m11 = m.r1.y in
      let m22 = m.r2.z in
      let tr = n.add (n.add m00 m11) m22 in
      if r.less r.millionth tr
      then (let s = r.sqrt (n.add tr n.one) in
          record {
            w = n.mul one_half s;
            x = r.div (sub n m.r1.z m.r2.y) (twice n s);
            y = r.div (sub n m.r2.x m.r0.z) (twice n s);
            z = r.div (sub n m.r0.y m.r1.x) (twice n s);
          })
      else if r.less m00 m11 && r.less m22 m11
      then (let s = r.sqrt (n.add (sub n (sub n m11 m00) m22) n.one) in
          let k = half_over s in
          record {
            w = n.mul (sub n m.r2.x m.r0.z) k;
            x = n.mul (n.add m.r0.y m.r1.x) k;
            y = n.mul one_half s;
            z = n.mul (n.add m.r1.z m.r2.y) k;
          })
      else if r.less m00 m22
      then (let s = r.sqrt (n.add (sub n (sub n m22 m00) m11) n.one) in
          let k = half_over s in
          record {
            w = n.mul (sub n m.r0.y m.r1.x) k;
            x = n.mul (n.add m.r2.x m.r0.z) k;
            y = n.mul (n.add m.r1.z m.r2.y) k;
            z = n.mul one_half s;
          })
      else let s = r.sqrt (n.add (sub n (sub n m00 m11) m22) n.one) in
        let k = half_over s in
        record {
          w = n.mul (sub n m.r1.z m.r2.y) k;
          x = n.mul one_half s;
          y = n.mul (n.add m.r0.y m.r1.x) k;
          z = n.mul (n.add m.r2.x m.r0.z) k;
        }

  -- rotMatToRotVec(R)
  unfoldable pub rot_mat_to_rot_vec : Matrix3 A → Vector3 A
  unfolding skew_sim_to_vec
  rot_mat_to_rot_vec m =
      let c = n.mul one_half (sub n (n.add (n.add m.r0.x m.r1.y) m.r2.z) n.one) in
      let w = negated3 (skew_sim_to_vec n m) in
      let s = r.norm w in
      if r.at_most (r.fabs s) r.tiny then zero_vector else scale3 (r.atan2 s c) (over3 w s)

  -- computeOrientError(Rdes, Ract), of matrices
  unfoldable pub orient_error_of_matrices : Matrix3 A → Matrix3 A → Vector3 A
  unfolding rot_mat_to_rot_vec
  orient_error_of_matrices des act = rot_mat_to_rot_vec (product3 n des (transpose3 act))

  -- computeOrientError(des_orient, actual_orient), of Euler angles
  unfoldable pub orient_error_of_angles :
      {Angle : Type 0} → (Angle → A) → (Angle → A) → Vector3 Angle → Vector3 Angle → Vector3 A
  unfolding rot_mat_to_rot_vec rpy_to_rot
  orient_error_of_angles sin cos des_orient actual_orient =
      let ract = rpy_to_rot n sin cos actual_orient in
      let rdes = rpy_to_rot n sin cos des_orient in
      rot_mat_to_rot_vec (product3 n rdes (transpose3 ract))

  -- quatToRotVec(q)
  unfoldable pub quat_to_rot_vec : Quaternion A → Vector3 A
  quat_to_rot_vec q =
      let v = vec q in
      let s = r.norm v in
      if r.at_most r.tiny (r.fabs s)
      then over3 (times3 v (twice n (r.atan2 s q.w))) s
      else times3 v (twice n n.one)

  -- quatToRPY(q)
  unfoldable pub quat_to_rpy : Quaternion A → Vector3 A
  unfolding rot_to_rpy quat_to_rot_mat
  quat_to_rpy q = rot_to_rpy (quat_to_rot_mat n q)

  -- rotVecToQuat(v)
  unfoldable pub rot_vec_to_quat : Vector3 A → Quaternion A
  rot_vec_to_quat v =
      let a = r.norm v in
      let u =
        if r.at_most r.tiny a
        then scale3 (r.div (r.sin (halved a)) a) v
        else over3 v (twice n n.one) in
      r.normalized4 (record { w = r.cos (halved a); x = u.x; y = u.y; z = u.z })

  abbrev pub plus3 : Vector3 A → Vector3 A → Vector3 A
  plus3 u v = vector3 (n.add u.x v.x) (n.add u.y v.y) (n.add u.z v.z)

  abbrev pub minus3 : Vector3 A → Vector3 A → Vector3 A
  minus3 u v = vector3 (sub n u.x v.x) (sub n u.y v.y) (sub n u.z v.z)

  -- rotVecToRotMat(v)
  unfoldable pub rot_vec_to_rot_mat : Vector3 A → Matrix3 A
  unfolding skew_sim
  rot_vec_to_rot_mat v =
      let angle = r.norm v in
      if r.at_most r.tiny (r.fabs angle)
      then (let axis = r.normalized3 v in
          let c = r.cos angle in
          let s = r.sin angle in
          let k = skew_sim n axis in
          let i = identity3 in
          let outer : A → Vector3 A = λ a. scale3 (n.mul (sub n n.one c) a) axis in
          record {
            r0 = minus3 (plus3 (scale3 c i.r0) (outer axis.x)) (scale3 s k.r0);
            r1 = minus3 (plus3 (scale3 c i.r1) (outer axis.y)) (scale3 s k.r1);
            r2 = minus3 (plus3 (scale3 c i.r2) (outer axis.z)) (scale3 s k.r2);
          })
      else identity3

  -- rotVecToRotMat(angle, axis)
  unfoldable pub angle_axis_to_rot_mat : A → Vector3 A → Matrix3 A
  unfolding rot_vec_to_rot_mat
  angle_axis_to_rot_mat angle axis =
      if r.at_most r.tiny (r.fabs angle)
      then rot_vec_to_rot_mat (scale3 angle (r.normalized3 axis))
      else identity3

  -- rangePi(v)
  unfoldable pub range_pi : Vector3 A → Vector3 A
  range_pi v =
      let a = r.norm v in
      if r.at_most a r.pi
      then v
      else let whole_turn = n.mul (twice n n.one) r.pi in
        let a2 = n.add (n.mul (n.neg whole_turn) (r.floor (r.div (n.add a r.pi) whole_turn))) a in
        times3 (over3 v a) a2
