-- ===== src/Control/Turns.antt =====
-- gather_controller of Control at a controller in torque or impedance mode.
use dls.Common.{
  ◌∷◌, ℕ, ◌≤◌, subst, refl, inl, inr, length, get_elem?, Bool-cases, ◌≡◌, true, false, none, some,
  List, nat_eq, ◌⊎◌, arith,
}
use dls.Control.{
  gather_from, Reading, Gathering, went, fault, torque_mode, impedance_mode, set_impedance,
  add_torques, gather_controller,
}
use dls.Control.Sharing.{
  IsGoing, AllFit, contributors, contributors-torque, contributors-first, contributors-later,
}
use dls.Control.Torques.{plus_share, add_torques_defined}

module _ {ℓ} {A : Type ℓ} (nil : A) (add mul : A → A → A) where
  pub turn_torque :
      (c : Reading A) (g : Gathering A) (sums : List A)
      → IsGoing g
      → c.msg.control_mode ≡ torque_mode
      → add_torques nil add mul c.premultiplier c.msg.joints_torques g.signal.joints_torques
        ≡ some sums
      → gather_controller nil add mul c g
        ≡ went
            (record g { signal = record g.signal { joints_torques = sums }; mode_set_once = true })
  unfolding gather_controller
  turn_torque c g sums ok m h = ground arith

  pub turn_first :
      (c : Reading A) (g : Gathering A) (sums : List A)
      → IsGoing g
      → g.active_impedance ≡ false
      → c.msg.control_mode ≡ impedance_mode
      → add_torques nil add mul c.premultiplier c.msg.joints_torques g.signal.joints_torques
        ≡ some sums
      → gather_controller nil add mul c g
        ≡ went (record {
          signal = record (set_impedance c.msg g.signal) { joints_torques = sums };
          active_position = false;
          active_velocity = false;
          active_impedance = true;
          mode_set_once = true;
        })
  unfolding gather_controller
  turn_first c g sums ok first m h = ground arith

  pub turn_later :
      (c : Reading A) (g : Gathering A)
      → IsGoing g
      → g.active_impedance ≡ true
      → c.msg.control_mode ≡ impedance_mode
      → gather_controller nil add mul c g ≡ went g
  unfolding gather_controller
  turn_later c g ok later m = ground (arith, ok.fresh later)

  pub turn_fault :
      (c : Reading A) (g : Gathering A)
      → IsGoing g
      → (c.msg.control_mode ≡ torque_mode)
        ⊎ ((c.msg.control_mode ≡ impedance_mode) × (g.active_impedance ≡ false))
      → add_torques nil add mul c.premultiplier c.msg.joints_torques g.signal.joints_torques ≡ none
      → gather_controller nil add mul c g ≡ fault
  unfolding gather_controller
  turn_fault c g ok m h = ground arith

  pub gather_from-went :
      (c : Reading A) (cs : List (Reading A)) (g g' : Gathering A)
      → gather_controller nil add mul c g ≡ went g'
      → gather_from nil add mul (c ∷ cs) g ≡ gather_from nil add mul cs g'
  unfolding gather_from
  gather_from-went c cs g g' h = rw (h, gather_from) refl

  -- `sums` is what the turn of c leaves of the torques
  pub record IsSum (c : Reading A) (g : Gathering A) (sums : List A) : Type ℓ where
    pub defined :
        add_torques nil add mul c.premultiplier c.msg.joints_torques g.signal.joints_torques
        ≡ some sums
    pub same : length sums ≡ length g.signal.joints_torques
    pub at :
        (i : ℕ) (t : A)
        → get_elem? g.signal.joints_torques i ≡ some t
        → get_elem? sums i
          ≡ some (plus_share nil add mul c.premultiplier (get_elem? c.msg.joints_torques i) t)

  pub add_torques-IsSum :
      (c : Reading A) (g : Gathering A)
      → length c.msg.joints_torques ≤ length g.signal.joints_torques
      → (sums : List A) × IsSum c g sums
  add_torques-IsSum c g h =
      let (sums, defined, same, at) =
        add_torques_defined nil add mul c.premultiplier c.msg.joints_torques g.signal.joints_torques
          h in
      (sums, record { defined = defined; same = same; at = at })

  abbrev pub torque_next : Gathering A → List A → Gathering A
  torque_next g sums = record g {
    signal = record g.signal { joints_torques = sums };
    mode_set_once = true;
  }

  abbrev pub impedance_next : Reading A → Gathering A → List A → Gathering A
  impedance_next c g sums = record {
    signal = record (set_impedance c.msg g.signal) { joints_torques = sums };
    active_position = false;
    active_velocity = false;
    active_impedance = true;
    mode_set_once = true;
  }

  pub going_mode :
      (c : Reading A) (g : Gathering A)
      → (set_impedance c.msg g.signal).control_mode ≡ impedance_mode
  unfolding set_impedance
  going_mode c g = refl

  -- a turn after which the loop goes on, with the same joints
  pub advance :
      (c : Reading A) (cs : List (Reading A)) (g : Gathering A)
      → (c.msg.control_mode ≡ torque_mode) ⊎ (c.msg.control_mode ≡ impedance_mode)
      → IsGoing g
      → AllFit (length g.signal.joints_torques) (contributors g.active_impedance (c ∷ cs))
      → (g' : Gathering A) × (gather_controller nil add mul c g ≡ went g')
        × IsGoing g'
        × (length g'.signal.joints_torques ≡ length g.signal.joints_torques)
        × AllFit (length g.signal.joints_torques) (contributors g'.active_impedance cs)
  advance c cs g (inl m) ok fit =
      let fits =
        subst (AllFit (length g.signal.joints_torques))
          (contributors-torque g.active_impedance c cs m) fit in
      let (sums, sum) = add_torques-IsSum c g fits.0 in
      (
        torque_next g sums,
        turn_torque c g sums ok m sum.defined,
        record {
          position = ok.position;
          velocity = ok.velocity;
          mode = ok.mode;
          fresh = λ h. refl;
        },
        sum.same,
        fits.1,
      )
  advance c cs g (inr m) ok fit = elim (Bool-cases g.active_impedance) [
    | inl later ↦
        let fits =
          subst (AllFit (length g.signal.joints_torques))
            (contributors-later g.active_impedance c cs later m) fit in
        (g, turn_later c g ok later m, ok, refl, fits)
    | inr first ↦
        let fits =
          subst (AllFit (length g.signal.joints_torques))
            (contributors-first g.active_impedance c cs first m) fit in
        let (sums, sum) = add_torques-IsSum c g fits.0 in
        (
          impedance_next c g sums,
          turn_first c g sums ok first m sum.defined,
          record { position = refl; velocity = refl; mode = going_mode c g; fresh = λ h. refl },
          sum.same,
          fits.1,
        )
  ]
