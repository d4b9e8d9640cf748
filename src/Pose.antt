-- ===== src/Pose.antt =====
-- modules/utils/src/pose.cpp: poses as objects in a store, each with its mutex. A std::mutex is not
-- recursive: a lock that the same thread holds already is never taken, and a call that comes to it is
-- `none`, as is one on an object that is not there. Quaternion products, inverses, normalisation and
-- the angle-axis conversions are Eigen's, and arguments.
pub mod Locks
pub mod Laws
use dls.Common.{ℕ, Bool, true, false, Option, none, some, List, [], ◌∷◌, if◌then◌else◌, nat_eq}
use dls.Common.Map
use dls.CommandManager.{◌>>=◌}
use dls.Rotations.Numbers.{Number}
use dls.Rotations.Conversions.{Reals, quat_to_rpy}
use dls.Rotations.{
  Vector3, Vector4, Matrix3, Matrix4, Quaternion, vector3, vector4, sub, quat_to_rot_mat,
}

pub record Pose {ℓ} (A : Type ℓ) : Type ℓ where
  pub locked : Bool
  pub position : Vector3 A
  pub quaternion : Quaternion A

-- the objects by their addresses
abbrev pub Store {ℓ} : Type ℓ → Type ℓ
Store A = List (ℕ × Pose A)

-- what the class takes from Eigen
pub record Orientations {ℓ} (A : Type ℓ) (AngleAxis : Type ℓ) : Type ℓ where
  pub times : Quaternion A → Quaternion A → Quaternion A
  pub inverse : Quaternion A → Quaternion A
  pub normalized : Quaternion A → Quaternion A
  pub of_angle_axis : AngleAxis → Quaternion A
  pub to_angle_axis : Quaternion A → AngleAxis

module _ {ℓ} {A : Type ℓ} where
  -- pose_mutex.lock() and unlock()
  unfoldable pub lock : ℕ → Store A → Option (Store A)
  unfolding Map.find Map.assign
  lock p st = elim (Map.find p st) [
    | none ↦ none
    | some o ↦ if o.locked then none else some (Map.assign p (record o { locked = true }) st)
  ]

  unfoldable pub unlock : ℕ → Store A → Option (Store A)
  unfolding Map.find Map.assign
  unlock p st = elim (Map.find p st) [
    | none ↦ none
    | some o ↦ some (Map.assign p (record o { locked = false }) st)
  ]

  -- a getter: the field is copied under the lock
  unfoldable pub guarded {κ} : {B : Type κ} → (Pose A → B) → ℕ → Store A → Option (Store A × B)
  guarded get p st = do st1 ← lock p st; o ← Map.find p st1; st2 ← unlock p st1; some (st2, get o)

  -- a setter: the field is written under the lock
  unfoldable pub update : (Pose A → Pose A) → ℕ → Store A → Option (Store A)
  update change p st = do
    st1 ← lock p st
    o ← Map.find p st1
    unlock p (Map.assign p (change o) st1)

  -- the body of the operators that lock this pose and then the other one
  unfoldable pub update_from : (Pose A → Pose A → Pose A) → ℕ → ℕ → Store A → Option (Store A)
  update_from change p q st = do
    st1 ← lock p st
    st2 ← lock q st1
    this ← Map.find p st2
    rhs ← Map.find q st2
    st3 ← unlock q (Map.assign p (change this rhs) st2)
    unlock p st3

  -- operator=(rhs)
  unfoldable pub assign_pose : ℕ → ℕ → Store A → Option (Store A)
  unfolding update_from
  assign_pose =
      update_from λ this rhs. record this { position = rhs.position; quaternion = rhs.quaternion }

module _ {ℓ} {A AngleAxis : Type ℓ} (n : Number A) (e : Orientations A AngleAxis) where
  abbrev pub sub3 : Vector3 A → Vector3 A → Vector3 A
  sub3 u v = vector3 (sub n u.x v.x) (sub n u.y v.y) (sub n u.z v.z)

  abbrev pub zero3 : Vector3 A
  zero3 = vector3 n.zero n.zero n.zero

  abbrev pub identity : Quaternion A
  identity = record { w = n.one; x = n.zero; y = n.zero; z = n.zero }

  -- the constructors
  unfoldable pub new_pose : Pose A
  new_pose = record { locked = false; position = zero3; quaternion = identity }

  unfoldable pub pose_at : Vector3 A → Pose A
  pose_at vec = record { locked = false; position = vec; quaternion = identity }

  unfoldable pub pose_turned : AngleAxis → Pose A
  pose_turned aa = record { locked = false; position = zero3; quaternion = e.of_angle_axis aa }

  unfoldable pub pose_of : Vector3 A → Quaternion A → Pose A
  pose_of vec q = record { locked = false; position = vec; quaternion = q }

  unfoldable pub pose_of_angle_axis : Vector3 A → AngleAxis → Pose A
  pose_of_angle_axis vec aa = record {
    locked = false;
    position = vec;
    quaternion = e.of_angle_axis aa;
  }

  -- Pose(rhs), at the new address r
  unfoldable pub copy_pose : ℕ → ℕ → Store A → Option (Store A)
  unfolding guarded new_pose
  copy_pose r q st = do
    (st', rhs) ← guarded (λ o. o) q st
    some (
        Map.assign r (record new_pose { position = rhs.position; quaternion = rhs.quaternion }) st')

  -- the conversions
  unfoldable pub to_position : ℕ → Store A → Option (Store A × Vector3 A)
  unfolding guarded
  to_position = guarded λ o. o.position

  unfoldable pub to_quaternion : ℕ → Store A → Option (Store A × Quaternion A)
  unfolding guarded
  to_quaternion = guarded λ o. o.quaternion

  unfoldable pub to_angle_axis : ℕ → Store A → Option (Store A × AngleAxis)
  unfolding guarded
  to_angle_axis = guarded λ o. e.to_angle_axis o.quaternion

  unfoldable pub to_rpy : Reals A → ℕ → Store A → Option (Store A × Vector3 A)
  unfolding guarded quat_to_rpy
  to_rpy r = guarded λ o. quat_to_rpy n r o.quaternion

  unfoldable pub to_rotation_matrix : ℕ → Store A → Option (Store A × Matrix3 A)
  unfolding guarded quat_to_rot_mat
  to_rotation_matrix = guarded λ o. quat_to_rot_mat n o.quaternion

  -- the rotation and the position, and the last row outside the critical section; the block of
  -- zeros begins at column 1, so that T(3,0) is what the memory of T holds
  unfoldable pub to_transformation_matrix : A → ℕ → Store A → Option (Store A × Matrix4 A)
  unfolding guarded quat_to_rot_mat
  to_transformation_matrix memory = guarded λ o.
      let r = quat_to_rot_mat n o.quaternion in
      let t = o.position in
      record {
        r0 = vector4 r.r0.x r.r0.y r.r0.z t.x;
        r1 = vector4 r.r1.x r.r1.y r.r1.z t.y;
        r2 = vector4 r.r2.x r.r2.y r.r2.z t.z;
        r3 = vector4 memory n.zero n.zero n.one;
      }

  unfoldable pub to_vector : ℕ → Store A → Option (Store A × List A)
  unfolding guarded
  to_vector = guarded λ o.
      let t = o.position in let q = o.quaternion in t.x ∷ t.y ∷ t.z ∷ q.x ∷ q.y ∷ q.z ∷ q.w ∷ []

  -- operator-=(Pose), operator-=(Vector3d), operator-=(Quaterniond)
  unfoldable pub minus_assign : ℕ → ℕ → Store A → Option (Store A)
  unfolding update_from
  minus_assign = update_from λ this rhs. record this {
    position = sub3 this.position rhs.position;
    quaternion = e.times rhs.quaternion (e.inverse this.quaternion);
  }

  unfoldable pub minus_assign_position : Vector3 A → ℕ → Store A → Option (Store A)
  unfolding update
  minus_assign_position rhs = update λ this. record this { position = sub3 this.position rhs }

  unfoldable pub minus_assign_quaternion : Quaternion A → ℕ → Store A → Option (Store A)
  unfolding update
  minus_assign_quaternion rhs =
      update λ this. record this { quaternion = e.times rhs (e.inverse this.quaternion) }

  -- the operators without assignment, whose copy of this pose stands at r
  unfoldable pub minus : ℕ → ℕ → ℕ → Store A → Option (Store A)
  unfolding copy_pose minus_assign
  minus r p q st = do st' ← copy_pose r p st; minus_assign r q st'

  unfoldable pub minus_position : Vector3 A → ℕ → ℕ → Store A → Option (Store A)
  unfolding copy_pose minus_assign_position
  minus_position rhs r p st = do st' ← copy_pose r p st; minus_assign_position rhs r st'

  unfoldable pub minus_quaternion : Quaternion A → ℕ → ℕ → Store A → Option (Store A)
  unfolding copy_pose minus_assign_quaternion
  minus_quaternion rhs r p st = do st' ← copy_pose r p st; minus_assign_quaternion rhs r st'

  -- the setters
  unfoldable pub set_position : Vector3 A → ℕ → Store A → Option (Store A)
  unfolding update
  set_position vec = update λ this. record this { position = vec }

  unfoldable pub set_quaternion : Quaternion A → ℕ → Store A → Option (Store A)
  unfolding update
  set_quaternion q = update λ this. record this { quaternion = e.normalized q }

  unfoldable pub set_angle_axis : AngleAxis → ℕ → Store A → Option (Store A)
  unfolding update
  set_angle_axis aa = update λ this. record this { quaternion = e.normalized (e.of_angle_axis aa) }

  unfoldable pub set_pose : Vector3 A → Quaternion A → ℕ → Store A → Option (Store A)
  unfolding update
  set_pose vec q = update λ this. record this { position = vec; quaternion = e.normalized q }

  unfoldable pub set_pose_angle_axis : Vector3 A → AngleAxis → ℕ → Store A → Option (Store A)
  unfolding update
  set_pose_angle_axis vec aa =
      update λ this. record this { position = vec; quaternion = e.normalized (e.of_angle_axis aa) }

  -- set(pos, ori), of arrays: x, y, z and x, y, z, w, without the lock
  unfoldable pub set_arrays : Vector3 A → Vector4 A → ℕ → Store A → Option (Store A)
  unfolding Map.find Map.assign
  set_arrays pos ori p st = do
    this ← Map.find p st
    let q : Quaternion A = record { w = ori.v3; x = ori.v0; y = ori.v1; z = ori.v2 }
    some (Map.assign p (record this { position = pos; quaternion = e.normalized q }) st)
