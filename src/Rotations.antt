-- ===== src/Rotations.antt =====
-- modules/math/include/dls2/math/rotations.hpp, the quaternions, and the skew matrices of
-- algebra.hpp beside it, over any numbers with the ring laws that are used: doubles round, and
-- obey them up to rounding. sin and cos are parameters, each with its argument given as a term.
pub mod Numbers
pub mod Quaternions
pub mod OrientError
pub mod Conversions
pub mod Omega
pub mod Algebra
use dls.Common.{Bool, true, false, if◌then◌else◌}
use dls.Rotations.Numbers.{Number}

pub record Vector3 {ℓ} (A : Type ℓ) : Type ℓ where
  pub x : A
  pub y : A
  pub z : A

pub record Vector4 {ℓ} (A : Type ℓ) : Type ℓ where
  pub v0 : A
  pub v1 : A
  pub v2 : A
  pub v3 : A

-- rows
pub record Matrix3 {ℓ} (A : Type ℓ) : Type ℓ where
  pub r0 : Vector3 A
  pub r1 : Vector3 A
  pub r2 : Vector3 A

pub record Matrix4 {ℓ} (A : Type ℓ) : Type ℓ where
  pub r0 : Vector4 A
  pub r1 : Vector4 A
  pub r2 : Vector4 A
  pub r3 : Vector4 A

pub record Quaternion {ℓ} (A : Type ℓ) : Type ℓ where
  pub w : A
  pub x : A
  pub y : A
  pub z : A

module _ {ℓ} {A : Type ℓ} where
  abbrev pub vector3 : A → A → A → Vector3 A
  vector3 a b c = record { x = a; y = b; z = c }

  abbrev pub vector4 : A → A → A → A → Vector4 A
  vector4 a b c d = record { v0 = a; v1 = b; v2 = c; v3 = d }

  abbrev pub transpose3 : Matrix3 A → Matrix3 A
  transpose3 m = record {
    r0 = vector3 m.r0.x m.r1.x m.r2.x;
    r1 = vector3 m.r0.y m.r1.y m.r2.y;
    r2 = vector3 m.r0.z m.r1.z m.r2.z;
  }

  -- castQuatToVector(q)
  unfoldable pub cast_quat_to_vector : Quaternion A → Vector4 A
  cast_quat_to_vector q = vector4 q.w q.x q.y q.z

module _ {ℓ} {A : Type ℓ} (n : Number A) where
  abbrev pub sub : A → A → A
  sub a b = n.add a (n.neg b)

  abbrev pub dot3 : Vector3 A → Vector3 A → A
  dot3 u v = n.add (n.add (n.mul u.x v.x) (n.mul u.y v.y)) (n.mul u.z v.z)

  abbrev pub dot4 : Vector4 A → Vector4 A → A
  dot4 u v =
      n.add (n.add (n.add (n.mul u.v0 v.v0) (n.mul u.v1 v.v1)) (n.mul u.v2 v.v2)) (n.mul u.v3 v.v3)

  abbrev pub apply3 : Matrix3 A → Vector3 A → Vector3 A
  apply3 m v = vector3 (dot3 m.r0 v) (dot3 m.r1 v) (dot3 m.r2 v)

  abbrev pub apply4 : Matrix4 A → Vector4 A → Vector4 A
  apply4 m v = vector4 (dot4 m.r0 v) (dot4 m.r1 v) (dot4 m.r2 v) (dot4 m.r3 v)

  abbrev pub product3 : Matrix3 A → Matrix3 A → Matrix3 A
  product3 a b =
      let t = transpose3 b in
      record {
        r0 = vector3 (dot3 a.r0 t.r0) (dot3 a.r0 t.r1) (dot3 a.r0 t.r2);
        r1 = vector3 (dot3 a.r1 t.r0) (dot3 a.r1 t.r1) (dot3 a.r1 t.r2);
        r2 = vector3 (dot3 a.r2 t.r0) (dot3 a.r2 t.r1) (dot3 a.r2 t.r2);
      }

  -- skew_sim(v)
  unfoldable pub skew_sim : Vector3 A → Matrix3 A
  skew_sim v = record {
    r0 = vector3 n.zero (n.neg v.z) v.y;
    r1 = vector3 v.z n.zero (n.neg v.x);
    r2 = vector3 (n.neg v.y) v.x n.zero;
  }

  -- skew_simToVec(R); a Matrix3 has three rows
  unfoldable pub skew_sim_to_vec : Matrix3 A → Vector3 A
  skew_sim_to_vec m =
      vector3 (n.half (sub m.r2.y m.r1.z)) (n.half (sub m.r0.z m.r2.x)) (n.half (sub m.r1.x m.r0.y))

  -- quatR(q)
  unfoldable pub quat_r : Quaternion A → Matrix4 A
  quat_r q = record {
    r0 = vector4 q.w (n.neg q.x) (n.neg q.y) (n.neg q.z);
    r1 = vector4 q.x q.w (n.neg q.z) q.y;
    r2 = vector4 q.y q.z q.w (n.neg q.x);
    r3 = vector4 q.z (n.neg q.y) q.x q.w;
  }

  -- quatL(q)
  unfoldable pub quat_l : Quaternion A → Matrix4 A
  quat_l q = record {
    r0 = vector4 q.w (n.neg q.x) (n.neg q.y) (n.neg q.z);
    r1 = vector4 q.x q.w q.z (n.neg q.y);
    r2 = vector4 q.y (n.neg q.z) q.w q.x;
    r3 = vector4 q.z q.y (n.neg q.x) q.w;
  }

  -- quatInverse(q)
  unfoldable pub quat_inverse : Quaternion A → Quaternion A
  quat_inverse q = record { w = q.w; x = n.neg q.x; y = n.neg q.y; z = n.neg q.z }

  -- quatMult(q2, q1)
  unfoldable pub quat_mult : Quaternion A → Quaternion A → Quaternion A
  quat_mult q2 q1 = record {
    w = sub (n.mul q1.w q2.w) (dot3 (vector3 q1.x q1.y q1.z) (vector3 q2.x q2.y q2.z));
    x = n.add (n.add (n.mul q1.w q2.x) (n.mul q2.w q1.x)) (sub (n.mul q1.y q2.z) (n.mul q1.z q2.y));
    y = n.add (n.add (n.mul q1.w q2.y) (n.mul q2.w q1.y)) (sub (n.mul q1.z q2.x) (n.mul q1.x q2.z));
    z = n.add (n.add (n.mul q1.w q2.z) (n.mul q2.w q1.z)) (sub (n.mul q1.x q2.y) (n.mul q1.y q2.x));
  }

  abbrev pub cross : Vector3 A → Vector3 A → Vector3 A
  cross u v =
      vector3 (sub (n.mul u.y v.z) (n.mul u.z v.y)) (sub (n.mul u.z v.x) (n.mul u.x v.z))
        (sub (n.mul u.x v.y) (n.mul u.y v.x))

  -- computeOrientError(q_des, q); `flip` says that the dot product of the two is below 0
  unfoldable pub compute_orient_error : Bool → Quaternion A → Quaternion A → Quaternion A
  compute_orient_error flip q_des q =
      let signed : A → A = λ a. if flip then n.neg a else a in
      let vec = vector3 (signed q.x) (signed q.y) (signed q.z) in
      let vec_des = vector3 q_des.x q_des.y q_des.z in
      let turn = cross vec vec_des in
      record {
        w = n.add (n.mul (signed q.w) q_des.w) (dot3 vec vec_des);
        x = sub (sub (n.mul (signed q.w) q_des.x) (n.mul q_des.w q.x)) turn.x;
        y = sub (sub (n.mul (signed q.w) q_des.y) (n.mul q_des.w q.y)) turn.y;
        z = sub (sub (n.mul (signed q.w) q_des.z) (n.mul q_des.w q.z)) turn.z;
      }

  abbrev pub twice : A → A
  twice a = n.add a a

  -- quatToRotMat(q); 2.0 * a is a + a
  unfoldable pub quat_to_rot_mat : Quaternion A → Matrix3 A
  quat_to_rot_mat q =
      let diagonal : A → A =
        λ a. n.add (n.add (n.neg n.one) (twice (n.mul q.w q.w))) (twice (n.mul a a)) in
      record {
        r0 =
            vector3 (diagonal q.x) (twice (n.add (n.mul q.x q.y) (n.mul q.w q.z)))
              (twice (sub (n.mul q.x q.z) (n.mul q.w q.y)));
        r1 =
            vector3 (twice (sub (n.mul q.x q.y) (n.mul q.w q.z))) (diagonal q.y)
              (twice (n.add (n.mul q.y q.z) (n.mul q.w q.x)));
        r2 =
            vector3 (twice (n.add (n.mul q.x q.z) (n.mul q.w q.y)))
              (twice (sub (n.mul q.y q.z) (n.mul q.w q.x))) (diagonal q.z);
      }

  module _ {Angle : Type 0} (sin cos : Angle → A) where
    -- rpyToRot(rpy)
    unfoldable pub rpy_to_rot : Vector3 Angle → Matrix3 A
    rpy_to_rot rpy =
        let rx : Matrix3 A = record {
          r0 = vector3 n.one n.zero n.zero;
          r1 = vector3 n.zero (cos rpy.x) (sin rpy.x);
          r2 = vector3 n.zero (n.neg (sin rpy.x)) (cos rpy.x);
        } in
        let ry : Matrix3 A = record {
          r0 = vector3 (cos rpy.y) n.zero (n.neg (sin rpy.y));
          r1 = vector3 n.zero n.one n.zero;
          r2 = vector3 (sin rpy.y) n.zero (cos rpy.y);
        } in
        let rz : Matrix3 A = record {
          r0 = vector3 (cos rpy.z) (sin rpy.z) n.zero;
          r1 = vector3 (n.neg (sin rpy.z)) (cos rpy.z) n.zero;
          r2 = vector3 n.zero n.zero n.one;
        } in
        product3 (product3 rx ry) rz

    -- rpyToEarInv(rpy)
    unfoldable pub rpy_to_ear_inv : Vector3 Angle → Matrix3 A
    rpy_to_ear_inv rpy = record {
      r0 = vector3 (n.mul (cos rpy.y) (cos rpy.z)) (n.neg (sin rpy.z)) n.zero;
      r1 = vector3 (n.mul (cos rpy.y) (sin rpy.z)) (cos rpy.z) n.zero;
      r2 = vector3 (n.neg (sin rpy.y)) n.zero n.one;
    }

    -- rpyToEar(rpy)
    unfoldable pub rpy_to_ear : Vector3 Angle → Matrix3 A
    rpy_to_ear rpy = record {
      r0 = vector3 n.one n.zero (n.neg (sin rpy.y));
      r1 = vector3 n.zero (cos rpy.x) (n.mul (cos rpy.y) (sin rpy.x));
      r2 = vector3 n.zero (n.neg (sin rpy.x)) (n.mul (cos rpy.y) (cos rpy.x));
    }

    -- rpyToEarInv_dot(rpy, rpyd)
    unfoldable pub rpy_to_ear_inv_dot : Vector3 Angle → Vector3 A → Matrix3 A
    rpy_to_ear_inv_dot rpy rpyd = record {
      r0 =
          vector3
            (sub (n.mul (n.mul (n.neg (cos rpy.z)) (sin rpy.y)) rpyd.y)
              (n.mul (n.mul (cos rpy.y) (sin rpy.z)) rpyd.z))
            (n.mul (n.neg (cos rpy.z)) rpyd.z) n.zero;
      r1 =
          vector3
            (sub (n.mul (n.mul (cos rpy.z) (cos rpy.y)) rpyd.z)
              (n.mul (n.mul (sin rpy.z) (sin rpy.y)) rpyd.y))
            (n.mul (n.neg (sin rpy.z)) rpyd.z) n.zero;
      r2 = vector3 (n.mul (n.neg (cos rpy.y)) rpyd.y) n.zero n.zero;
    }

    -- rpyToquat(rpy), where `halved` divides an angle by 2
    unfoldable pub rpy_to_quat : (Angle → Angle) → Vector3 Angle → Quaternion A
    rpy_to_quat halved rpy =
        let cr = cos (halved rpy.x) in
        let sr = sin (halved rpy.x) in
        let cp = cos (halved rpy.y) in
        let sp = sin (halved rpy.y) in
        let cy = cos (halved rpy.z) in
        let sy = sin (halved rpy.z) in
        record {
          w = n.add (n.mul (n.mul cr cp) cy) (n.mul (n.mul sr sp) sy);
          x = sub (n.mul (n.mul sr cp) cy) (n.mul (n.mul cr sp) sy);
          y = n.add (n.mul (n.mul cr sp) cy) (n.mul (n.mul sr cp) sy);
          z = sub (n.mul (n.mul cr cp) sy) (n.mul (n.mul sr sp) cy);
        }
