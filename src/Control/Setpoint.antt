-- ===== src/Control/Setpoint.antt =====
-- What a round of controlSignalGather sends where a controller is in position or velocity mode.
use dls.Common.{
  ℕ, ◌≡◌, refl, subst, ◌∙◌, false, some, List, [], ◌∷◌, ◌++◌, nat_eq, ◌⊎◌, inl, inr, length, arith,
}
use dls.Control.{
  ControlSignal, Reading, Gathering, position_mode, velocity_mode, fill, set_position, set_velocity,
  gather_from, begin, gather,
}
use dls.Control.Torques.{length-fill}
use dls.Control.Sharing.{AllShared, AllFit, contributors, IsGoing}
use dls.Control.Turns.{gather_from-went, advance}

module _ {ℓ} {A : Type ℓ} (nil : A) where
  abbrev pub AllNil : List A → Type ℓ
  AllNil [] = Unit
  AllNil (x ∷ xs) = (x ≡ nil) × AllNil xs

  fill-AllNil : (xs : List A) → AllNil (fill nil xs)
  unfolding fill
  fill-AllNil [] = tt
  fill-AllNil (x ∷ xs) = (refl, fill-AllNil xs)

  -- what a controller that takes the robot over makes of the signal
  pub record IsTaken (c : Reading A) (joints : ℕ) (out : ControlSignal A) : Type ℓ where
    pub mode : out.control_mode ≡ c.msg.control_mode
    pub setpoint :
        ((out.control_mode ≡ position_mode)
          × (out.joints_position ≡ c.msg.joints_position)
          × AllNil out.joints_velocity)
        ⊎ ((out.control_mode ≡ velocity_mode)
            × (out.joints_velocity ≡ c.msg.joints_velocity)
            × AllNil out.joints_position)
    pub joints_kept : length out.joints_torques ≡ joints
    pub no_torques : AllNil out.joints_torques
    pub no_kp : AllNil out.kp
    pub no_kd : AllNil out.kd

module _ {ℓ} {A : Type ℓ} (nil : A) (add mul : A → A → A) where
  turn_position :
      (c : Reading A) (cs : List (Reading A)) (g : Gathering A)
      → IsGoing g
      → c.msg.control_mode ≡ position_mode
      → gather_from nil add mul (c ∷ cs) g ≡ some (set_position nil c.msg g.signal)
  unfolding gather_from set_position
  turn_position c cs g ok m = ground arith

  turn_velocity :
      (c : Reading A) (cs : List (Reading A)) (g : Gathering A)
      → IsGoing g
      → c.msg.control_mode ≡ velocity_mode
      → gather_from nil add mul (c ∷ cs) g ≡ some (set_velocity nil c.msg g.signal)
  unfolding gather_from set_velocity
  turn_velocity c cs g ok m = ground arith

  set_position-IsTaken :
      (c : Reading A) (s : ControlSignal A)
      → c.msg.control_mode ≡ position_mode
      → IsTaken nil c (length s.joints_torques) (set_position nil c.msg s)
  unfolding set_position
  set_position-IsTaken c s m = record {
    mode = ground arith;
    setpoint = inl (refl, refl, fill-AllNil nil s.joints_velocity);
    joints_kept = length-fill nil s.joints_torques;
    no_torques = fill-AllNil nil s.joints_torques;
    no_kp = fill-AllNil nil s.kp;
    no_kd = fill-AllNil nil s.kd;
  }

  set_velocity-IsTaken :
      (c : Reading A) (s : ControlSignal A)
      → c.msg.control_mode ≡ velocity_mode
      → IsTaken nil c (length s.joints_torques) (set_velocity nil c.msg s)
  unfolding set_velocity
  set_velocity-IsTaken c s m = record {
    mode = ground arith;
    setpoint = inr (refl, refl, fill-AllNil nil s.joints_position);
    joints_kept = length-fill nil s.joints_torques;
    no_torques = fill-AllNil nil s.joints_torques;
    no_kp = fill-AllNil nil s.kp;
    no_kd = fill-AllNil nil s.kd;
  }

  -- the loop comes to c, in a state where it goes on, with the same joints
  abbrev Comes : List (Reading A) → List (Reading A) → Gathering A → Type ℓ
  Comes cs rest g =
      (g' : Gathering A) × IsGoing g'
      × (length g'.signal.joints_torques ≡ length g.signal.joints_torques)
      × (gather_from nil add mul cs g ≡ gather_from nil add mul rest g')

  gather_from-Comes :
      (before rest : List (Reading A)) (g : Gathering A)
      → AllShared before
      → IsGoing g
      → AllFit (length g.signal.joints_torques) (contributors g.active_impedance before)
      → Comes (before ++ rest) rest g
  gather_from-Comes [] rest g shared ok fit = (g, ok, refl, refl)
  gather_from-Comes (c ∷ cs) rest g (m, shared) ok fit =
      let (g1, step, ok1, same1, fit1) = advance nil add mul c cs g m ok fit in
      let (g', ok', same, at) = gather_from-Comes cs rest g1 shared ok1 (rw same1 fit1) in
      (g', ok', same ∙ same1, gather_from-went nil add mul c (cs ++ rest) g g1 step ∙ at)

  -- Where the controllers before c are in torque or impedance mode, and those of them that contribute
  -- send no more torques than there are joints, and c is in position or velocity mode, the round is
  -- defined and c alone commands: the signal has its mode and its positions or velocities, and the
  -- velocities or positions, the torques and the gains are zero, whatever comes after c.
  pub gather-IsTaken :
      (before : List (Reading A)) (c : Reading A) (after : List (Reading A)) (s : ControlSignal A)
      → AllShared before
      → AllFit (length s.joints_torques) (contributors false before)
      → (c.msg.control_mode ≡ position_mode) ⊎ (c.msg.control_mode ≡ velocity_mode)
      → (out : ControlSignal A) × (gather nil add mul (before ++ c ∷ after) s ≡ some out)
        × IsTaken nil c (length s.joints_torques) out
  unfolding gather begin
  gather-IsTaken before c after s shared fit m =
      let same0 = length-fill nil s.joints_torques in
      let (g, ok, same, at) =
        gather_from-Comes before (c ∷ after) (begin nil s) shared
          (record { position = refl; velocity = refl; mode = refl; fresh = λ h. cc })
          (rw same0 fit) in
      let taken : (out : ControlSignal A) × (gather_from nil add mul (c ∷ after) g ≡ some out)
          × IsTaken nil c (length g.signal.joints_torques) out =
        elim m [
          | inl p ↦ (
            set_position nil c.msg g.signal,
            turn_position c after g ok p,
            set_position-IsTaken c g.signal p,
          )
          | inr v ↦ (
            set_velocity nil c.msg g.signal,
            turn_velocity c after g ok v,
            set_velocity-IsTaken c g.signal v,
          )
        ] in
      (taken.0, at ∙ taken.1, subst (λ n. IsTaken nil c n taken.0) (same ∙ same0) taken.2)
