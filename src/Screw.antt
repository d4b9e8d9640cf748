-- ===== src/Screw.antt =====
-- modules/utils/src/screw.cpp, the six components of a screw, and the ramp of
-- modules/math/include/dls2/math/ramp.tpp, over any numbers.
use dls.Common.{ℕ, zero, suc, ◌≡◌, refl, Bool, true, Option, none, some, if◌then◌else◌, arith}
use dls.Rotations.{Vector3, vector3}

-- eigen_vec, as its two blocks
pub record Screw {ℓ} (A : Type ℓ) : Type ℓ where
  pub linear : Vector3 A
  pub angular : Vector3 A

module _ {ℓ} {A : Type ℓ} where
  unfoldable pub set_linear : Vector3 A → Screw A → Screw A
  set_linear vec s = record s { linear = vec }

  unfoldable pub set_angular : Vector3 A → Screw A → Screw A
  set_angular vec s = record s { angular = vec }

  unfoldable pub get_linear : Screw A → Vector3 A
  get_linear s = s.linear

  unfoldable pub get_angular : Screw A → Vector3 A
  get_angular s = s.angular

  -- operator[](index), undefined out of range
  unfoldable pub at : Screw A → ℕ → Option A
  at s zero = some s.linear.x
  at s (suc zero) = some s.linear.y
  at s (suc (suc zero)) = some s.linear.z
  at s (suc (suc (suc zero))) = some s.angular.x
  at s (suc (suc (suc (suc zero)))) = some s.angular.y
  at s (suc (suc (suc (suc (suc zero))))) = some s.angular.z
  at s (suc (suc (suc (suc (suc (suc i)))))) = none

  -- set(linear, angular)
  unfoldable pub set_screw : Vector3 A → Vector3 A → Screw A → Screw A
  set_screw linear angular s = record { linear = linear; angular = angular }

  -- Screw()
  unfoldable pub zero_screw : A → Screw A
  zero_screw nil = record { linear = vector3 nil nil nil; angular = vector3 nil nil nil }

  -- Screw(lin, ang): setLinear is called for both
  unfoldable pub new_screw : A → Vector3 A → Vector3 A → Screw A
  unfolding zero_screw set_linear
  new_screw nil lin ang = set_linear ang (set_linear lin (zero_screw nil))

  -- What the constructor was given as the angular part is the linear one, and the angular part is zero.
  new_screw_lem :
      (nil : A) (lin ang : Vector3 A)
      → (get_linear (new_screw nil lin ang) ≡ ang)
        × (get_angular (new_screw nil lin ang) ≡ vector3 nil nil nil)
  unfolding new_screw get_linear get_angular
  new_screw_lem nil lin ang = (refl, refl)

-- Ramp<domain_t>, with the order and the arithmetic of domain_t
pub record Ramp {ℓ} (A : Type ℓ) : Type ℓ where
  pub min_domain : A
  pub max_domain : A
  pub min_range : A
  pub max_range : A

module _ {ℓ} {A : Type ℓ} (le : A → A → Bool) (add sub mul div : A → A → A) where
  -- eval(t)
  unfoldable pub eval : Ramp A → A → A
  eval r t =
      if le t r.min_domain
      then r.min_domain
      else if le r.max_domain t
      then r.max_domain
      else add
          (mul (div (sub r.max_range r.min_range) (sub r.max_domain r.min_domain))
            (sub t r.min_domain))
          r.min_range

  -- Before its domain a ramp has the value of the domain's end, whatever its range is.
  eval_before : (r : Ramp A) (t : A) → le t r.min_domain ≡ true → eval r t ≡ r.min_domain
  unfolding eval
  eval_before r t h = ground arith
