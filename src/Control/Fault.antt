-- ===== src/Control/Fault.antt =====
-- Where a round of controlSignalGather writes past the end of the layer's torques.
use dls.Common.{
  ℕ, ◌<◌, ◌≡◌, ◌↔◌, refl, subst, ◌∙◌, Bool, true, false, ◌||◌, none, List, [], ◌∷◌, ltb, length,
  arith, Bool-cases, inl, inr, ◌⊎◌,
}
use dls.Control.{
  ControlSignal, Reading, Gathering, fault, torque_mode, impedance_mode, gather_controller,
  gather_from, begin, gather,
}
use dls.Control.Torques.{length-fill, add_torques_fault}
use dls.Control.Sharing.{
  AllShared, AllFit, contributors, IsGoing, contributors-torque, contributors-first,
  contributors-later,
}
use dls.Control.Turns.{
  turn_torque, turn_first, turn_later, turn_fault, gather_from-went, torque_next, impedance_next,
  going_mode, add_torques-IsSum,
}
use dls.Control.Shared.{gather_shared}

module _ {ℓ} {A : Type ℓ} where
  -- some controller of the list sends more torques than there are joints
  abbrev pub any_long : ℕ → List (Reading A) → Bool
  any_long n [] = false
  any_long n (c ∷ cs) = ltb n (length c.msg.joints_torques) || any_long n cs

  any_long-AllFit : (n : ℕ) (cs : List (Reading A)) → any_long n cs ≡ false → AllFit n cs
  any_long-AllFit n [] h = tt
  any_long-AllFit n (c ∷ cs) h = (ground arith, any_long-AllFit n cs (ground arith))

module _ {ℓ} {A : Type ℓ} (nil : A) (add mul : A → A → A) where
  gather_from-fault :
      (c : Reading A) (cs : List (Reading A)) (g : Gathering A)
      → gather_controller nil add mul c g ≡ fault
      → gather_from nil add mul (c ∷ cs) g ≡ none
  unfolding gather_from
  gather_from-fault c cs g h = rw (h, gather_from) refl

  -- the turn of a controller that would contribute and sends too much
  long_turn :
      (c : Reading A) (cs : List (Reading A)) (g : Gathering A)
      → IsGoing g
      → (c.msg.control_mode ≡ torque_mode)
        ⊎ ((c.msg.control_mode ≡ impedance_mode) × (g.active_impedance ≡ false))
      → length g.signal.joints_torques < length c.msg.joints_torques
      → gather_from nil add mul (c ∷ cs) g ≡ none
  long_turn c cs g ok m long = gather_from-fault c cs g (
      turn_fault nil add mul c g ok m (
        add_torques_fault nil add mul c.premultiplier c.msg.joints_torques g.signal.joints_torques
          long))

  gather_from-long :
      (cs : List (Reading A)) (g : Gathering A)
      → AllShared cs
      → IsGoing g
      → any_long (length g.signal.joints_torques) (contributors g.active_impedance cs) ≡ true
      → gather_from nil add mul cs g ≡ none
  gather_from-long [] g shared ok long = absurd (unfold contributors in ground arith)
  gather_from-long (c ∷ cs) g (inl m, shared) ok long =
      let n = length g.signal.joints_torques in
      let some_long =
        subst (λ l. any_long n l ≡ true) (contributors-torque g.active_impedance c cs m) long in
      elim (Bool-cases (ltb n (length c.msg.joints_torques))) [
        | inl own ↦ long_turn c cs g ok (inl m) (ground arith)
        | inr fits ↦
            let (sums, sum) = add_torques-IsSum nil add mul c g (ground arith) in
            let g' = torque_next nil add mul g sums in
            gather_from-went nil add mul c cs g g'
              (turn_torque nil add mul c g sums ok m sum.defined)
            ∙ gather_from-long cs g' shared
                (record {
                  position = ok.position;
                  velocity = ok.velocity;
                  mode = ok.mode;
                  fresh = λ h. refl;
                })
                (rw sum.same (ground arith))
      ]
  gather_from-long (c ∷ cs) g (inr m, shared) ok long =
      let n = length g.signal.joints_torques in
      elim (Bool-cases g.active_impedance) [
        | inl later ↦
            let some_long =
              subst (λ l. any_long n l ≡ true) (contributors-later g.active_impedance c cs later m)
                long in
            gather_from-went nil add mul c cs g g (turn_later nil add mul c g ok later m)
            ∙ gather_from-long cs g shared ok some_long
        | inr first ↦
            let some_long =
              subst (λ l. any_long n l ≡ true) (contributors-first g.active_impedance c cs first m)
                long in
            elim (Bool-cases (ltb n (length c.msg.joints_torques))) [
              | inl own ↦ long_turn c cs g ok (inr (m, first)) (ground arith)
              | inr fits ↦
                  let (sums, sum) = add_torques-IsSum nil add mul c g (ground arith) in
                  let g' = impedance_next nil add mul c g sums in
                  gather_from-went nil add mul c cs g g'
                    (turn_first nil add mul c g sums ok first m sum.defined)
                  ∙ gather_from-long cs g' shared
                      (record {
                        position = refl;
                        velocity = refl;
                        mode = going_mode nil add mul c g;
                        fresh = λ h. refl;
                      })
                      (rw sum.same (ground arith))
            ]
      ]

  -- Where every controller is in torque or impedance mode, a round writes past the end of the layer's
  -- torques exactly where a controller in torque mode, or the first in impedance mode, sends more
  -- torques than there are joints.
  pub gather_fault :
      (cs : List (Reading A)) (s : ControlSignal A)
      → AllShared cs
      → (gather nil add mul cs s ≡ none)
        ↔ (any_long (length s.joints_torques) (contributors false cs) ≡ true)
  gather_fault cs s shared = (
    λ undefined. elim (Bool-cases (any_long (length s.joints_torques) (contributors false cs))) [
      | inl long ↦ long
      | inr fits ↦
          let shares =
            gather_shared nil add mul cs s shared
              (any_long-AllFit (length s.joints_torques) (contributors false cs) fits) in
          absurd (ground (arith, shares.1))
    ],
    λ long.
        unfold gather begin in
        gather_from-long cs (begin nil s) shared
          (record { position = refl; velocity = refl; mode = refl; fresh = λ h. cc })
          (rw (length-fill nil s.joints_torques) long),
  )
