-- ===== src/Examples/Turns.antt =====
-- Quaternions over the numbers modulo 3.
use dls.Common.{◌≡◌, refl, true, false}
use dls.Rotations.Numbers.{Number}
use dls.Rotations.{
  Quaternion, vector3, quat_mult, quat_inverse, quat_to_rot_mat, transpose3, compute_orient_error,
  twice,
}
use dls.Rotations.Quaternions.{quat_to_rot_mat-quat_inverse}
use dls.Rotations.Conversions.{Reals, quat_to_omega}
use dls.Rotations.Omega.{quat_to_omega-quat_mult}
use dls.Rotations.OrientError.{negated, compute_orient_error_lem}

pub data Trit : Type 0 where
  t0 t1 t2 : Trit

abbrev pub plus : Trit → Trit → Trit
plus t0 t0 = t0
plus t0 t1 = t1
plus t0 t2 = t2
plus t1 t0 = t1
plus t1 t1 = t2
plus t1 t2 = t0
plus t2 t0 = t2
plus t2 t1 = t0
plus t2 t2 = t1

abbrev pub times : Trit → Trit → Trit
times t0 t0 = t0
times t0 t1 = t0
times t0 t2 = t0
times t1 t0 = t0
times t1 t1 = t1
times t1 t2 = t2
times t2 t0 = t0
times t2 t1 = t2
times t2 t2 = t1

abbrev pub minus : Trit → Trit
minus t0 = t0
minus t1 = t2
minus t2 = t1

pub plus_assoc : (a b c : Trit) → plus (plus a b) c ≡ plus a (plus b c)
plus_assoc t0 t0 t0 = refl
plus_assoc t0 t0 t1 = refl
plus_assoc t0 t0 t2 = refl
plus_assoc t0 t1 t0 = refl
plus_assoc t0 t1 t1 = refl
plus_assoc t0 t1 t2 = refl
plus_assoc t0 t2 t0 = refl
plus_assoc t0 t2 t1 = refl
plus_assoc t0 t2 t2 = refl
plus_assoc t1 t0 t0 = refl
plus_assoc t1 t0 t1 = refl
plus_assoc t1 t0 t2 = refl
plus_assoc t1 t1 t0 = refl
plus_assoc t1 t1 t1 = refl
plus_assoc t1 t1 t2 = refl
plus_assoc t1 t2 t0 = refl
plus_assoc t1 t2 t1 = refl
plus_assoc t1 t2 t2 = refl
plus_assoc t2 t0 t0 = refl
plus_assoc t2 t0 t1 = refl
plus_assoc t2 t0 t2 = refl
plus_assoc t2 t1 t0 = refl
plus_assoc t2 t1 t1 = refl
plus_assoc t2 t1 t2 = refl
plus_assoc t2 t2 t0 = refl
plus_assoc t2 t2 t1 = refl
plus_assoc t2 t2 t2 = refl

pub plus_comm : (a b : Trit) → plus a b ≡ plus b a
plus_comm t0 t0 = refl
plus_comm t0 t1 = refl
plus_comm t0 t2 = refl
plus_comm t1 t0 = refl
plus_comm t1 t1 = refl
plus_comm t1 t2 = refl
plus_comm t2 t0 = refl
plus_comm t2 t1 = refl
plus_comm t2 t2 = refl

pub t0-plus : (a : Trit) → plus t0 a ≡ a
t0-plus t0 = refl
t0-plus t1 = refl
t0-plus t2 = refl

pub minus-plus_self : (a : Trit) → plus (minus a) a ≡ t0
minus-plus_self t0 = refl
minus-plus_self t1 = refl
minus-plus_self t2 = refl

pub minus-plus : (a b : Trit) → minus (plus a b) ≡ plus (minus a) (minus b)
minus-plus t0 t0 = refl
minus-plus t0 t1 = refl
minus-plus t0 t2 = refl
minus-plus t1 t0 = refl
minus-plus t1 t1 = refl
minus-plus t1 t2 = refl
minus-plus t2 t0 = refl
minus-plus t2 t1 = refl
minus-plus t2 t2 = refl

pub times_comm : (a b : Trit) → times a b ≡ times b a
times_comm t0 t0 = refl
times_comm t0 t1 = refl
times_comm t0 t2 = refl
times_comm t1 t0 = refl
times_comm t1 t1 = refl
times_comm t1 t2 = refl
times_comm t2 t0 = refl
times_comm t2 t1 = refl
times_comm t2 t2 = refl

pub minus-times : (a b : Trit) → times (minus a) b ≡ minus (times a b)
minus-times t0 t0 = refl
minus-times t0 t1 = refl
minus-times t0 t2 = refl
minus-times t1 t0 = refl
minus-times t1 t1 = refl
minus-times t1 t2 = refl
minus-times t2 t0 = refl
minus-times t2 t1 = refl
minus-times t2 t2 = refl

pub minus-plus_twice : (a : Trit) → minus (plus a a) ≡ a
minus-plus_twice t0 = refl
minus-plus_twice t1 = refl
minus-plus_twice t2 = refl

abbrev pub modulo_three : Number Trit
modulo_three = record {
  zero = t0;
  one = t1;
  add = plus;
  mul = times;
  neg = minus;
  half = minus;
  add_assoc = plus_assoc;
  add_comm = plus_comm;
  zero-add = t0-plus;
  neg-add_self = minus-plus_self;
  neg-add = minus-plus;
  mul_comm = times_comm;
  neg-mul = minus-times;
  half-add_self = minus-plus_twice;
}

abbrev pub p : Quaternion Trit
p = record { w = t1; x = t2; y = t0; z = t1 }

abbrev pub q : Quaternion Trit
q = record { w = t2; x = t2; y = t1; z = t0 }

quat_to_rot_mat-quat_inverse_run :
    quat_to_rot_mat modulo_three (quat_inverse modulo_three p)
    ≡ transpose3 (quat_to_rot_mat modulo_three p)
quat_to_rot_mat-quat_inverse_run = quat_to_rot_mat-quat_inverse modulo_three p

compute_orient_error_example :
    let e = compute_orient_error modulo_three true p q in
    let wanted = quat_mult modulo_three p (quat_inverse modulo_three (negated modulo_three q)) in
    (compute_orient_error modulo_three false p q
      ≡ quat_mult modulo_three p (quat_inverse modulo_three q))
    × (e.w ≡ wanted.w)
    × (plus e.x (twice modulo_three (times p.w q.x)) ≡ wanted.x)
    × (plus e.y (twice modulo_three (times p.w q.y)) ≡ wanted.y)
    × (plus e.z (twice modulo_three (times p.w q.z)) ≡ wanted.z)
compute_orient_error_example = compute_orient_error_lem modulo_three p q

-- the functions of the C library, at numbers modulo 3
abbrev reals : Reals Trit
reals = record {
  div = λ a b. a;
  less = λ a b. false;
  at_most = λ a b. true;
  fabs = λ a. a;
  equal3 = λ u v. false;
  sqrt = λ a. a;
  floor = λ a. a;
  sin = λ a. t0;
  cos = λ a. t1;
  atan2 = λ a b. a;
  atan2f = λ a b. a;
  asinf = λ a. a;
  pi = t0;
  millionth = t0;
  tiny = t0;
  norm = λ v. v.x;
  normalized3 = λ v. v;
  normalized4 = λ a. a;
  inverse3 = λ m. m;
}

quat_to_omega-quat_mult_example :
    let product = quat_mult modulo_three q (quat_inverse modulo_three p) in
    quat_to_omega modulo_three reals p q
    ≡ vector3
        (twice modulo_three product.x)
        (twice modulo_three product.y)
        (twice modulo_three product.z)
quat_to_omega-quat_mult_example = quat_to_omega-quat_mult modulo_three reals p q
