-- ===== src/Pose/Laws.antt =====
-- The operators of poses on objects in a store.
use dls.Common.{
  ℕ, ◌≡◌, ◌≢◌, refl, false, none, some, if◌then◌else◌, nat_eq, nat_beq_iff, ◌==◌, ◌↔◌, arith,
}
use dls.Common.Map.{find, assign, find-assign}
use dls.Rotations.Numbers.{Number}
use dls.Pose.{
  Pose, Store, Orientations, sub3, assign_pose, copy_pose, new_pose, minus, minus_assign,
}
use dls.Pose.Locks.{locked, unlocked, guarded_lem, update_from_lem, update_from_self}

module _ {ℓ} {A : Type ℓ} where
  -- An assignment between two poses that are there and unlocked is defined exactly where they are
  -- two: a pose that is assigned to itself takes its own lock twice.
  pub assign_pose_defined :
      (p q : ℕ) (a b : Pose A) (st : Store A)
      → find p st ≡ some a
      → find q st ≡ some b
      → a.locked ≡ false
      → b.locked ≡ false
      → (assign_pose p q st ≢ none) ↔ (p ≢ q)
  unfolding assign_pose
  assign_pose_defined p q a b st ha hb fa fb = (
    λ defined same. defined (
        ground (
          arith,
          same,
          update_from_self
              (λ this rhs. record this { position = rhs.position; quaternion = rhs.quaternion }) q b
              st hb,
        )),
    λ apart undefined.
        let (st', done, puts) =
          update_from_lem
            (λ this rhs. record this { position = rhs.position; quaternion = rhs.quaternion }) p q a
            b st apart ha hb fa fb in
        ground (arith, done),
  )

module _ {ℓ} {A AngleAxis : Type ℓ} (n : Number A) (e : Orientations A AngleAxis) where
  copy_pose_lem :
      (r q : ℕ) (b : Pose A) (st : Store A)
      → find q st ≡ some b
      → b.locked ≡ false
      → (st' : Store A) × (copy_pose n e r q st ≡ some st')
        × ((k : ℕ) → find k st' ≡ (if r == k then some b else find k st))
  unfolding new_pose
  copy_pose_lem r q b st h free =
      let (s1, done, puts) = guarded_lem (λ o. o) q b st h free in
      let o = record (new_pose n e) { position = b.position; quaternion = b.quaternion } in
      (
        assign r o s1,
        unfold copy_pose in rw done refl,
        λ k. ground (arith, find-assign r k o s1, puts k, nat_beq_iff q k, nat_beq_iff r k),
      )

  -- The difference of two unlocked poses, which may be one and the same, at any address but the second
  -- one's: its position
  -- is the first one's less the second one's, its orientation the second one's times the inverse
  -- of the first one's, and every other object is as before, unlocked.
  pub minus_lem :
      (r p q : ℕ) (a b : Pose A) (st : Store A)
      → r ≢ q
      → find p st ≡ some a
      → find q st ≡ some b
      → a.locked ≡ false
      → b.locked ≡ false
      → (st' : Store A) × (minus n e r p q st ≡ some st')
        × (find r st'
            ≡ some (record {
              locked = false;
              position = sub3 n e a.position b.position;
              quaternion = e.times b.quaternion (e.inverse a.quaternion);
            }))
        × ((k : ℕ) → find k st' ≡ (if r == k then find r st' else find k st))
  minus_lem r p q a b st apart ha hb fa fb =
      let (s1, copied, at) = copy_pose_lem r p a st ha fa in
      let r1 : find r s1 ≡ some a = ground (arith, at r, nat_beq_iff r r) in
      let q1 : find q s1 ≡ some b = ground (arith, at q, nat_beq_iff r q) in
      let change : Pose A → Pose A → Pose A = λ this rhs. record this {
        position = sub3 n e this.position rhs.position;
        quaternion = e.times rhs.quaternion (e.inverse this.quaternion);
      } in
      let (st', done, puts) = update_from_lem change r q a b s1 apart r1 q1 fa fb in
      let there : find r st' ≡ some (unlocked (change (locked a) (locked b))) =
        ground (arith, puts r, nat_beq_iff r r) in
      (
        st',
        unfold minus minus_assign in rw copied done,
        there,
        λ k. ground (arith, puts k, at k, there),
      )
