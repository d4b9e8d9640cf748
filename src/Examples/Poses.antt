-- ===== src/Examples/Poses.antt =====
-- Two poses in a store, over the numbers modulo 3.
use dls.Common.{
  ℕ, ◌≡◌, ◌≢◌, ◌↔◌, refl, false, none, some, [], ◌∷◌, if◌then◌else◌, nat_eq, ◌==◌, arith,
}
use dls.Common.Map.{find}
use dls.Rotations.{Quaternion, vector3}
use dls.Examples.Turns.{Trit, t0, t1, t2, modulo_three, p, q}
use dls.Pose.{Pose, Store, Orientations, sub3, assign_pose, minus}
use dls.Pose.Laws.{assign_pose_defined, minus_lem}

-- each product keeps its first factor, so that an order of the factors shows
abbrev kept : Orientations Trit (Quaternion Trit)
kept = record {
  times = λ a b. a;
  inverse = λ a. a;
  normalized = λ a. a;
  of_angle_axis = λ a. a;
  to_angle_axis = λ a. a;
}

abbrev here_at : ℕ
here_at = 3

abbrev here : Pose Trit
here = record { locked = false; position = vector3 t0 t1 t2; quaternion = p }

abbrev there : Pose Trit
there = record { locked = false; position = vector3 t1 t1 t0; quaternion = q }

abbrev two_poses : Store Trit
two_poses = (3, here) ∷ (5, there) ∷ []

assign_pose_defined_example : (assign_pose 3 5 two_poses ≢ none) ↔ (here_at ≢ 5)
assign_pose_defined_example =
    assign_pose_defined 3 5 here there two_poses (unfold find in refl) (unfold find in refl) refl
      refl

minus_lem_example :
    (st' : Store Trit) × (minus modulo_three kept 8 3 5 two_poses ≡ some st')
    × (find 8 st'
        ≡ some (record {
          locked = false;
          position = sub3 modulo_three kept here.position there.position;
          quaternion = q;
        }))
    × ((k : ℕ) → find k st' ≡ (if 8 == k then find 8 st' else find k two_poses))
minus_lem_example =
    minus_lem modulo_three kept 8 3 5 here there two_poses (omega arith) (unfold find in refl)
      (unfold find in refl) refl refl
