-- ===== src/Rotations/Numbers.antt =====
-- The numbers that the quaternions are made of, and the sums of products in which they are multiplied.
use dls.Common.{◌≡◌, sym, ap, ◌∙◌}

pub record Number {ℓ} (A : Type ℓ) : Type ℓ where
  pub neg : A → A
  pub add : A → A → A
  pub half : A → A
  pub zero : A
  pub mul : A → A → A
  pub one : A
  pub neg-add_self : (x : A) → add (neg x) x ≡ zero
  pub add_comm : (x y : A) → add x y ≡ add y x
  pub neg-add : (x y : A) → neg (add x y) ≡ add (neg x) (neg y)
  pub zero-add : (x : A) → add zero x ≡ x
  pub add_assoc : (x y z : A) → add (add x y) z ≡ add x (add y z)
  pub neg-mul : (x y : A) → mul (neg x) y ≡ neg (mul x y)
  pub half-add_self : (x : A) → half (add x x) ≡ x
  pub mul_comm : (x y : A) → mul x y ≡ mul y x

module _ {ℓ} {A : Type ℓ} (n : Number A) where
  pub add_left_comm : (a b c : A) → n.add a (n.add b c) ≡ n.add b (n.add a c)
  add_left_comm a b c =
      sym (n.add_assoc a b c) ∙ ap (λ t. n.add t c) (n.add_comm a b) ∙ n.add_assoc b a c

  pub mul-neg : (a b : A) → n.mul a (n.neg b) ≡ n.neg (n.mul a b)
  mul-neg a b = n.mul_comm a (n.neg b) ∙ n.neg-mul b a ∙ ap n.neg (n.mul_comm b a)

  pub neg_neg : (a : A) → n.neg (n.neg a) ≡ a
  neg_neg a =
      sym (n.zero-add (n.neg (n.neg a)))
      ∙ ap (λ t. n.add t (n.neg (n.neg a))) (sym (n.neg-add_self a))
      ∙ ap (λ t. n.add t (n.neg (n.neg a))) (n.add_comm (n.neg a) a)
      ∙ n.add_assoc a (n.neg a) (n.neg (n.neg a))
      ∙ ap (n.add a) (n.add_comm (n.neg a) (n.neg (n.neg a)) ∙ n.neg-add_self (n.neg a))
      ∙ n.add_comm a n.zero
      ∙ n.zero-add a
