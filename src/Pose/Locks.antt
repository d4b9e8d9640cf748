-- ===== src/Pose/Locks.antt =====
-- What the locks of poses let happen: a call on unlocked poses gives them back unlocked.
use dls.Common.{
  ℕ, ◌≡◌, ◌≢◌, refl, true, false, none, some, if◌then◌else◌, nat_eq, nat_beq_iff, ◌==◌, arith,
  Bool-cases, inl, inr,
}
use dls.Common.Map.{find, assign, find-assign, find-assign_self}
use dls.Pose.{Pose, Store, lock, unlock, guarded, update_from}

module _ {ℓ} {A : Type ℓ} where
  -- the store st with the pose o at p
  abbrev pub Puts : ℕ → Pose A → Store A → Store A → Type ℓ
  Puts p o st st' = (k : ℕ) → find k st' ≡ (if p == k then some o else find k st)

  abbrev pub unlocked : Pose A → Pose A
  unlocked o = record o { locked = false }

  abbrev pub locked : Pose A → Pose A
  locked o = record o { locked = true }

  lock_lem :
      (p : ℕ) (o : Pose A) (st : Store A)
      → find p st ≡ some o
      → o.locked ≡ false
      → lock p st ≡ some (assign p (locked o) st)
  unfolding lock
  lock_lem p o st h free = ground arith

  unlock_lem :
      (p : ℕ) (o : Pose A) (st : Store A)
      → find p st ≡ some o
      → unlock p st ≡ some (assign p (unlocked o) st)
  unfolding unlock
  unlock_lem p o st h = ground arith

  -- A lock that is held is not taken again.
  lock_held :
      (p : ℕ) (o : Pose A) (st : Store A) → find p st ≡ some o → o.locked ≡ true → lock p st ≡ none
  unfolding lock
  lock_held p o st h held = ground arith

  pub guarded_lem {κ} :
      {B : Type κ} (get : Pose A → B) (p : ℕ) (o : Pose A) (st : Store A)
      → find p st ≡ some o
      → o.locked ≡ false
      → (st' : Store A) × (guarded get p st ≡ some (st', get (locked o))) × Puts p o st st'
  guarded_lem get p o st h free =
      let s1 = assign p (locked o) st in
      let there : find p s1 ≡ some (locked o) = find-assign_self p (locked o) st in
      let e1 = lock_lem p o st h free in
      let e2 = unlock_lem p (locked o) s1 there in
      (
        assign p (unlocked (locked o)) s1,
        unfold guarded in rw (e1, there, e2) refl,
        λ k. ground (
          arith,
          find-assign p k (unlocked (locked o)) s1,
          find-assign p k (locked o) st,
          nat_beq_iff p k,
        ),
      )

  pub update_from_lem :
      (change : Pose A → Pose A → Pose A) (p q : ℕ) (a b : Pose A) (st : Store A)
      → p ≢ q
      → find p st ≡ some a
      → find q st ≡ some b
      → a.locked ≡ false
      → b.locked ≡ false
      → (st' : Store A) × (update_from change p q st ≡ some st')
        × Puts p (unlocked (change (locked a) (locked b))) st st'
  update_from_lem change p q a b st apart ha hb fa fb =
      let s1 = assign p (locked a) st in
      let s2 = assign q (locked b) s1 in
      let c = change (locked a) (locked b) in
      let s3 = assign p c s2 in
      let s4 = assign q (unlocked (locked b)) s3 in
      let q1 : find q s1 ≡ some b =
        ground (arith, find-assign p q (locked a) st, nat_beq_iff p q) in
      let p2 : find p s2 ≡ some (locked a) = ground (
        arith,
        find-assign q p (locked b) s1,
        find-assign p p (locked a) st,
        nat_beq_iff q p,
        nat_beq_iff p p,
      ) in
      let q2 : find q s2 ≡ some (locked b) = find-assign_self q (locked b) s1 in
      let q3 : find q s3 ≡ some (locked b) =
        ground (arith, find-assign p q c s2, q2, nat_beq_iff p q) in
      let p4 : find p s4 ≡ some c = ground (
        arith,
        find-assign q p (unlocked (locked b)) s3,
        find-assign p p c s2,
        nat_beq_iff q p,
        nat_beq_iff p p,
      ) in
      let e1 = lock_lem p a st ha fa in
      let e2 = lock_lem q b s1 q1 fb in
      let e5 = unlock_lem q (locked b) s3 q3 in
      let e6 = unlock_lem p c s4 p4 in
      (
        assign p (unlocked c) s4,
        unfold update_from in rw (e1, e2, p2, q2, e5, e6) refl,
        λ k. ground (
          arith,
          find-assign p k (unlocked c) s4,
          find-assign q k (unlocked (locked b)) s3,
          find-assign p k c s2,
          find-assign q k (locked b) s1,
          find-assign p k (locked a) st,
          nat_beq_iff p k,
          nat_beq_iff q k,
        ),
      )

  -- A pose that locks itself twice stops.
  pub update_from_self :
      (change : Pose A → Pose A → Pose A) (p : ℕ) (a : Pose A) (st : Store A)
      → find p st ≡ some a
      → update_from change p p st ≡ none
  update_from_self change p a st h =
      let s1 = assign p (locked a) st in
      let there : find p s1 ≡ some (locked a) = find-assign_self p (locked a) st in
      let e2 = lock_held p (locked a) s1 there refl in
      elim (Bool-cases a.locked) [
        | inl held ↦ unfold update_from in rw (lock_held p a st h held) refl
        | inr free ↦ unfold update_from in rw (lock_lem p a st h free, e2) refl
      ]
