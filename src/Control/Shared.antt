-- ===== src/Control/Shared.antt =====
-- What a round of controlSignalGather sends where every controller is in torque or impedance mode.
use dls.Common.{
  ℕ, ◌<◌, ◌≡◌, refl, subst, ◌∙◌, true, false, ◌||◌, some, List, [], ◌∷◌, if◌then◌else◌, nat_eq, inl,
  inr, length, get_elem?, arith, Bool-cases,
}
use dls.Control.{
  ControlSignal, Reading, Gathering, torque_mode, impedance_mode, set_impedance, gather_from, begin,
  gather,
}
use dls.Control.Torques.{plus_share, joint_torque, length-fill, get_elem?-fill}
use dls.Control.Sharing.{
  AllShared, AllFit, contributors, any_impedance, from_first, IsGoing, contributors-torque,
  contributors-first, contributors-later,
}
use dls.Control.Turns.{
  gather_from-went, torque_next, impedance_next, going_mode, IsSum, add_torques-IsSum, turn_torque,
  turn_first, turn_later,
}

module _ {ℓ} {A : Type ℓ} (nil : A) (add mul : A → A → A) where
  -- what the loop leaves of the signal, started in the state g with the controllers cs to come
  record IsSent (cs : List (Reading A)) (g : Gathering A) (out : ControlSignal A) : Type ℓ where
    mode :
        out.control_mode
        ≡ (if g.active_impedance || any_impedance cs then impedance_mode else torque_mode)
    position : out.joints_position ≡ (
        if g.active_impedance
        then g.signal.joints_position
        else from_first (λ m. m.joints_position) cs g.signal.joints_position)
    velocity : out.joints_velocity ≡ (
        if g.active_impedance
        then g.signal.joints_velocity
        else from_first (λ m. m.joints_velocity) cs g.signal.joints_velocity)
    kp :
        out.kp ≡ (if g.active_impedance then g.signal.kp else from_first (λ m. m.kp) cs g.signal.kp)
    kd :
        out.kd ≡ (if g.active_impedance then g.signal.kd else from_first (λ m. m.kd) cs g.signal.kd)
    joints : length out.joints_torques ≡ length g.signal.joints_torques
    torques :
        (i : ℕ) (t : A)
        → get_elem? g.signal.joints_torques i ≡ some t
        → get_elem? out.joints_torques i
          ≡ some (joint_torque nil add mul i (contributors g.active_impedance cs) t)

  abbrev Sends : List (Reading A) → Gathering A → Type ℓ
  Sends cs g = (out : ControlSignal A) × (gather_from nil add mul cs g ≡ some out) × IsSent cs g out

  abbrev share : Reading A → ℕ → A → A
  share c i = plus_share nil add mul c.premultiplier (get_elem? c.msg.joints_torques i)

  Sends-torque :
      (c : Reading A) (cs : List (Reading A)) (g : Gathering A) (sums : List A)
      → IsGoing g
      → c.msg.control_mode ≡ torque_mode
      → IsSum nil add mul c g sums
      → Sends cs (torque_next nil add mul g sums)
      → Sends (c ∷ cs) g
  unfolding any_impedance from_first joint_torque
  Sends-torque c cs g sums ok m sum (out, sent, rest) = (
    out,
    gather_from-went nil add mul c cs g (torque_next nil add mul g sums)
          (turn_torque nil add mul c g sums ok m sum.defined)
        ∙ sent,
    record {
      mode = ground (arith, rest.mode);
      position = ground (arith, rest.position);
      velocity = ground (arith, rest.velocity);
      kp = ground (arith, rest.kp);
      kd = ground (arith, rest.kd);
      joints = omega (arith, rest.joints, sum.same);
      torques = λ i t e.
          rw (contributors-torque g.active_impedance c cs m)
            (rest.torques i (share c i t) (sum.at i t e));
    },
  )

  Sends-first :
      (c : Reading A) (cs : List (Reading A)) (g : Gathering A) (sums : List A)
      → IsGoing g
      → g.active_impedance ≡ false
      → c.msg.control_mode ≡ impedance_mode
      → IsSum nil add mul c g sums
      → Sends cs (impedance_next nil add mul c g sums)
      → Sends (c ∷ cs) g
  unfolding any_impedance from_first joint_torque set_impedance
  Sends-first c cs g sums ok first m sum (out, sent, rest) = (
    out,
    gather_from-went nil add mul c cs g (impedance_next nil add mul c g sums)
          (turn_first nil add mul c g sums ok first m sum.defined)
        ∙ sent,
    record {
      mode = ground (arith, rest.mode);
      position = ground (arith, rest.position);
      velocity = ground (arith, rest.velocity);
      kp = ground (arith, rest.kp);
      kd = ground (arith, rest.kd);
      joints = omega (arith, rest.joints, sum.same);
      torques = λ i t e.
          rw (contributors-first g.active_impedance c cs first m)
            (rest.torques i (share c i t) (sum.at i t e));
    },
  )

  Sends-later :
      (c : Reading A) (cs : List (Reading A)) (g : Gathering A)
      → IsGoing g
      → g.active_impedance ≡ true
      → c.msg.control_mode ≡ impedance_mode
      → Sends cs g
      → Sends (c ∷ cs) g
  unfolding any_impedance from_first
  Sends-later c cs g ok later m (out, sent, rest) = (
    out,
    gather_from-went nil add mul c cs g g (turn_later nil add mul c g ok later m) ∙ sent,
    record {
      mode = ground (arith, rest.mode);
      position = ground (arith, rest.position);
      velocity = ground (arith, rest.velocity);
      kp = ground (arith, rest.kp);
      kd = ground (arith, rest.kd);
      joints = rest.joints;
      torques =
          λ i t e. rw (contributors-later g.active_impedance c cs later m) (rest.torques i t e);
    },
  )

  gather_from-Sends :
      (cs : List (Reading A)) (g : Gathering A)
      → AllShared cs
      → IsGoing g
      → AllFit (length g.signal.joints_torques) (contributors g.active_impedance cs)
      → Sends cs g
  unfolding gather_from any_impedance from_first joint_torque contributors
  gather_from-Sends [] g shared ok fit = (
    g.signal,
    refl,
    record {
      mode = ground (arith, ok.mode);
      position = ground arith;
      velocity = ground arith;
      kp = ground arith;
      kd = ground arith;
      joints = refl;
      torques = λ i t e. e;
    },
  )
  gather_from-Sends (c ∷ cs) g (inl m, shared) ok fit =
      let fits =
        subst (AllFit (length g.signal.joints_torques))
          (contributors-torque g.active_impedance c cs m) fit in
      let (sums, sum) = add_torques-IsSum nil add mul c g fits.0 in
      Sends-torque c cs g sums ok m sum (
        gather_from-Sends cs (torque_next nil add mul g sums) shared
          (record {
            position = ok.position;
            velocity = ok.velocity;
            mode = ok.mode;
            fresh = λ h. refl;
          })
          (rw sum.same fits.1))
  gather_from-Sends (c ∷ cs) g (inr m, shared) ok fit = elim (Bool-cases g.active_impedance) [
    | inl later ↦
        let fits =
          subst (AllFit (length g.signal.joints_torques))
            (contributors-later g.active_impedance c cs later m) fit in
        Sends-later c cs g ok later m (gather_from-Sends cs g shared ok fits)
    | inr first ↦
        let fits =
          subst (AllFit (length g.signal.joints_torques))
            (contributors-first g.active_impedance c cs first m) fit in
        let (sums, sum) = add_torques-IsSum nil add mul c g fits.0 in
        Sends-first c cs g sums ok first m sum (
          gather_from-Sends cs (impedance_next nil add mul c g sums) shared
            (record {
              position = refl;
              velocity = refl;
              mode = going_mode nil add mul c g;
              fresh = λ h. refl;
            })
            (rw sum.same fits.1))
  ]

  -- Where every controller is in torque or impedance mode, and none of those that contribute (all in
  -- torque mode, and the first in impedance mode) sends more torques than there are joints, a round
  -- is defined. Each joint's torque is then the sum, from zero and in the controllers' order, of
  -- what the contributing ones send for it, each times its premultiplier; the number of joints stays.
  -- With a controller in impedance mode the signal has that mode, and the first one's positions,
  -- velocities and gains; with none it has torque mode, and those of the round before.
  pub gather_shared :
      (cs : List (Reading A)) (s : ControlSignal A)
      → AllShared cs
      → AllFit (length s.joints_torques) (contributors false cs)
      → (out : ControlSignal A) × (gather nil add mul cs s ≡ some out)
        × (out.control_mode ≡ (if any_impedance cs then impedance_mode else torque_mode))
        × (out.joints_position ≡ from_first (λ m. m.joints_position) cs s.joints_position)
        × (out.joints_velocity ≡ from_first (λ m. m.joints_velocity) cs s.joints_velocity)
        × (out.kp ≡ from_first (λ m. m.kp) cs s.kp)
        × (out.kd ≡ from_first (λ m. m.kd) cs s.kd)
        × (length out.joints_torques ≡ length s.joints_torques)
        × ((i : ℕ)
            → i < length s.joints_torques
            → get_elem? out.joints_torques i
              ≡ some (joint_torque nil add mul i (contributors false cs) nil))
  unfolding gather begin
  gather_shared cs s shared fit =
      let same = length-fill nil s.joints_torques in
      let (out, sent, is) =
        gather_from-Sends cs (begin nil s) shared
          (record { position = refl; velocity = refl; mode = refl; fresh = λ h. cc })
          (rw same fit) in
      (
        out,
        sent,
        is.mode,
        is.position,
        is.velocity,
        is.kp,
        is.kd,
        is.joints ∙ same,
        λ i h. is.torques i nil (get_elem?-fill nil s.joints_torques i h),
      )
