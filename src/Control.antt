-- ===== src/Control.antt =====
-- modules/core_framework/src/control_layer.cpp.in: the thread controlSignalGather, which reads the
-- control signals of the controllers and sends one to the robot. A joint's value is of any type with
-- a zero, a sum and a product, of which no law is used, so that doubles are such a type. What each
-- controller's reader holds after its read is an argument, and a write past the end is `none`.
-- Control/Layer is about the loads and unloads of the same class.
pub mod Torques
pub mod Sharing
pub mod Turns
pub mod Shared
pub mod Setpoint
pub mod Fault
pub mod Period
pub mod Layer
pub mod Kept
pub mod Answers
pub mod Settled
pub mod Levels
pub mod Closed
pub mod Inherited
pub mod Ending
pub mod Handling
use dls.Common.{
  ℕ, ◌+◌, ◌*◌, ◌/◌, Bool, true, false, not, ◌&&◌, ◌||◌, Option, none, some, List, [], ◌∷◌,
  if◌then◌else◌, ltb, ◌==◌, nat_eq, length,
}

-- enum class ControlMode : uint8_t (control_modes.hpp); a byte need not be one of the four
abbrev pub torque_mode : ℕ
torque_mode = 0

abbrev pub impedance_mode : ℕ
impedance_mode = 1

abbrev pub position_mode : ℕ
position_mode = 2

abbrev pub velocity_mode : ℕ
velocity_mode = 3

-- dls2_interface::msg::ControlSignal
pub record ControlSignal {ℓ} (A : Type ℓ) : Type ℓ where
  pub control_mode : ℕ
  pub joints_position : List A
  pub joints_velocity : List A
  pub joints_torques : List A
  pub kp : List A
  pub kd : List A
  pub timestamp : ℕ

-- a controller of the snapshot: its premultiplier and what its reader holds after the read
pub record Reading {ℓ} (A : Type ℓ) : Type ℓ where
  pub premultiplier : A
  pub msg : ControlSignal A

-- what a round's loop over the controllers changes
pub record Gathering {ℓ} (A : Type ℓ) : Type ℓ where
  pub signal : ControlSignal A
  pub active_position : Bool
  pub active_velocity : Bool
  pub active_impedance : Bool
  pub mode_set_once : Bool

-- what one controller's turn comes to: a break, the next controller, or a write past the end
pub data Turn {ℓ} (A : Type ℓ) : Type ℓ where
  broke : Gathering A → Turn A
  went : Gathering A → Turn A
  fault : Turn A

-- the state of the layer that the thread uses
pub record GatherLayer {ℓ} (A : Type ℓ) : Type ℓ where
  pub control_signal_msg : ControlSignal A
  pub published : List (ControlSignal A)
  pub delta : List ℕ
  pub warnings : ℕ

-- a round: whether a request to deactivate or to quit is raised at the loop's test, the clock in
-- milliseconds, what the readers hold, and the microseconds that the round takes
pub record Cycle {ℓ} (A : Type ℓ) : Type ℓ where
  pub stop : Bool
  pub epoch : ℕ
  pub readings : List (Reading A)
  pub duration : ℕ

-- the sum of the loop over delta: `elem/delta.size()` divides whole numbers
unfoldable pub mean_from : ℕ → ℕ → List ℕ → ℕ
mean_from size mean [] = mean
mean_from size mean (elem ∷ elems) = mean_from size (mean + elem / size) elems

unfoldable pub mean_period : List ℕ → ℕ
unfolding mean_from
mean_period delta = mean_from (length delta) 0 delta

-- saturateTorques(req)
unfoldable pub saturate_torques {ℓ} : {A : Type ℓ} → List A → List A
saturate_torques req = req

unfoldable pub set_impedance {ℓ} :
    {A : Type ℓ} → ControlSignal A → ControlSignal A → ControlSignal A
set_impedance msg s = record s {
  control_mode = impedance_mode;
  joints_position = msg.joints_position;
  joints_velocity = msg.joints_velocity;
  kp = msg.kp;
  kd = msg.kd;
}

module _ {ℓ} {A : Type ℓ} (zero : A) where
  -- std::fill(v.begin(), v.end(), 0)
  unfoldable pub fill : List A → List A
  fill [] = []
  fill (x ∷ xs) = zero ∷ fill xs

  unfoldable pub set_position : ControlSignal A → ControlSignal A → ControlSignal A
  unfolding fill
  set_position msg s = record s {
    control_mode = position_mode;
    joints_position = msg.joints_position;
    joints_velocity = fill s.joints_velocity;
    joints_torques = fill s.joints_torques;
    kp = fill s.kp;
    kd = fill s.kd;
  }

  unfoldable pub set_velocity : ControlSignal A → ControlSignal A → ControlSignal A
  unfolding fill
  set_velocity msg s = record s {
    control_mode = velocity_mode;
    joints_velocity = msg.joints_velocity;
    joints_position = fill s.joints_position;
    joints_torques = fill s.joints_torques;
    kp = fill s.kp;
    kd = fill s.kd;
  }

  -- the reset before the loop: torques and mode, and nothing else
  unfoldable pub begin : ControlSignal A → Gathering A
  unfolding fill
  begin s = record {
    signal = record s { joints_torques = fill s.joints_torques; control_mode = torque_mode };
    active_position = false;
    active_velocity = false;
    active_impedance = false;
    mode_set_once = false;
  }

module _ {ℓ} {A : Type ℓ} (zero : A) (add mul : A → A → A) where
  -- for(i < size) joints_torques()[i] += premultiplier * msg.joints_torques()[i]
  unfoldable pub add_torques : A → List A → List A → Option (List A)
  add_torques premultiplier [] ts = some ts
  add_torques premultiplier (u ∷ us) [] = none
  add_torques premultiplier (u ∷ us) (t ∷ ts) = elim (add_torques premultiplier us ts) [
    | none ↦ none
    | some sums ↦ some (add t (mul premultiplier u) ∷ sums)
  ]

  -- the branch that adds the torques
  unfoldable pub contribute : Bool → Reading A → Gathering A → Turn A
  unfolding set_impedance add_torques
  contribute first_impedance c g =
      let s = if first_impedance then set_impedance c.msg g.signal else g.signal in
      elim (add_torques c.premultiplier c.msg.joints_torques s.joints_torques) [
        | none ↦ fault
        | some sums ↦ went (record g {
          signal = record s { joints_torques = sums };
          active_impedance = if first_impedance then true else g.active_impedance;
        })
      ]

  -- the body of the loop over the controllers
  unfoldable pub gather_controller : Reading A → Gathering A → Turn A
  unfolding set_position set_velocity contribute
  gather_controller c g =
      let mode = c.msg.control_mode in
      let s = if g.mode_set_once then g.signal else record g.signal { control_mode = mode } in
      let g' = record g { signal = s; mode_set_once = true } in
      let torque_in_torque = mode == torque_mode && s.control_mode == torque_mode in
      let torque_in_impedance = s.control_mode == impedance_mode && mode == torque_mode in
      let first_impedance = mode == impedance_mode && not g.active_impedance in
      if mode == position_mode && not g.active_position
      then broke (record g' { signal = set_position zero c.msg s })
      else if mode == velocity_mode && not g.active_velocity
      then broke (record g' { signal = set_velocity zero c.msg s })
      else if torque_in_torque || (torque_in_impedance || first_impedance)
      then contribute first_impedance c g'
      else went g'

  unfoldable pub gather_from : List (Reading A) → Gathering A → Option (ControlSignal A)
  unfolding gather_controller
  gather_from [] g = some g.signal
  gather_from (c ∷ cs) g = elim (gather_controller c g) [
    | broke g' ↦ some g'.signal
    | went g' ↦ gather_from cs g'
    | fault ↦ none
  ]

  unfoldable pub gather : List (Reading A) → ControlSignal A → Option (ControlSignal A)
  unfolding gather_from begin
  gather cs s = gather_from cs (begin zero s)

  -- a round of the thread, with what boost's buffer `delta` holds after push_back
  unfoldable pub gather_round :
      (ℕ → List ℕ → List ℕ) → Cycle A → GatherLayer A → Option (GatherLayer A)
  unfolding gather saturate_torques mean_period
  gather_round push_back c l = elim (gather c.readings l.control_signal_msg) [
    | none ↦ none
    | some s ↦
        let s' = record s { joints_torques = saturate_torques s.joints_torques } in
        let delta = push_back c.duration l.delta in
        some (record {
          control_signal_msg = s';
          published = record s' { timestamp = c.epoch * 1000 } ∷ l.published;
          delta = delta;
          warnings = if ltb 990 (mean_period delta) then l.warnings + 1 else l.warnings;
        })
  ]

  -- the thread's loop, over the rounds given
  unfoldable pub control_signal_gather :
      (ℕ → List ℕ → List ℕ) → List (Cycle A) → GatherLayer A → Option (GatherLayer A)
  unfolding gather_round
  control_signal_gather push_back [] l = some l
  control_signal_gather push_back (c ∷ cs) l =
      if c.stop then some l else elim (gather_round push_back c l) [
        | none ↦ none
        | some l' ↦ control_signal_gather push_back cs l'
      ]
