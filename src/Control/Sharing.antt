-- ===== src/Control/Sharing.antt =====
-- The controllers that share the joints, in torque and impedance mode: which of them contribute to a
-- round of controlSignalGather, and the state of its loop between them.
use dls.Common.{
  ℕ, ◌≤◌, ◌≡◌, Bool, true, false, ◌&&◌, ◌||◌, List, [], ◌∷◌, if◌then◌else◌, ◌==◌, nat_eq, ◌⊎◌,
  length, arith,
}
use dls.Control.{ControlSignal, Reading, Gathering, torque_mode, impedance_mode}

module _ {ℓ} {A : Type ℓ} where
  -- every controller is in torque or in impedance mode
  abbrev pub AllShared : List (Reading A) → Type 0
  AllShared [] = Unit
  AllShared (c ∷ cs) =
      ((c.msg.control_mode ≡ torque_mode) ⊎ (c.msg.control_mode ≡ impedance_mode)) × AllShared cs

  -- no controller of the list sends more torques than there are joints
  abbrev pub AllFit : ℕ → List (Reading A) → Type 0
  AllFit n [] = Unit
  AllFit n (c ∷ cs) = (length c.msg.joints_torques ≤ n) × AllFit n cs

  -- the controllers in torque mode and the first in impedance mode; `seen` tells that one was before
  unfoldable pub contributors : Bool → List (Reading A) → List (Reading A)
  contributors seen [] = []
  contributors seen (c ∷ cs) =
      let impedance = c.msg.control_mode == impedance_mode in
      let rest = contributors (seen || impedance) cs in if impedance && seen then rest else c ∷ rest

  unfoldable pub any_impedance : List (Reading A) → Bool
  any_impedance [] = false
  any_impedance (c ∷ cs) = c.msg.control_mode == impedance_mode || any_impedance cs

  -- a field of the first controller in impedance mode, and `old` where there is none
  unfoldable pub from_first : (ControlSignal A → List A) → List (Reading A) → List A → List A
  from_first field [] old = old
  from_first field (c ∷ cs) old =
      let rest = from_first field cs old in
      if c.msg.control_mode == impedance_mode then field c.msg else rest

  -- the state of the loop before a turn, where no controller has broken it
  pub record IsGoing (g : Gathering A) : Type ℓ where
    pub position : g.active_position ≡ false
    pub velocity : g.active_velocity ≡ false
    pub mode : g.signal.control_mode ≡ (if g.active_impedance then impedance_mode else torque_mode)
    pub fresh : g.active_impedance ≡ true → g.mode_set_once ≡ true

  pub contributors-torque :
      (seen : Bool) (c : Reading A) (cs : List (Reading A))
      → c.msg.control_mode ≡ torque_mode
      → contributors seen (c ∷ cs) ≡ c ∷ contributors seen cs
  unfolding contributors
  contributors-torque true c cs m = ground arith
  contributors-torque false c cs m = ground arith

  pub contributors-first :
      (seen : Bool) (c : Reading A) (cs : List (Reading A))
      → seen ≡ false
      → c.msg.control_mode ≡ impedance_mode
      → contributors seen (c ∷ cs) ≡ c ∷ contributors true cs
  unfolding contributors
  contributors-first seen c cs e m = ground arith

  pub contributors-later :
      (seen : Bool) (c : Reading A) (cs : List (Reading A))
      → seen ≡ true
      → c.msg.control_mode ≡ impedance_mode
      → contributors seen (c ∷ cs) ≡ contributors seen cs
  unfolding contributors
  contributors-later seen c cs e m = ground arith
