-- ===== src/Rotations/Algebra.antt =====
-- modules/math/include/dls2/math/algebra.hpp beside the skew matrices: the comparison and the cleaning of
-- matrices, entry by entry, and the pseudo-inverses. The operations of Eigen on matrices of any size,
-- its singular value decomposition, and the arithmetic of the doubles are arguments. Messages on
-- the terminal are left out.
use dls.Common.{
  ℕ, ◌≡◌, Bool, true, not, ◌&&◌, Option, none, some, List, [], ◌∷◌, map, if◌then◌else◌, ltb, leb,
  nat_eq, ◌==◌, length, take, arith,
}

pub record Scalars {ℓ} (A : Type ℓ) : Type ℓ where
  pub zero : A
  pub add : A → A → A
  pub sub : A → A → A
  pub mul : A → A → A
  pub abs : A → A
  pub inverse : A → A
  pub less : A → A → Bool
  pub at_most : A → A → Bool
  pub isfinite : A → Bool
  pub of_nat : ℕ → A
  pub epsilon : A

pub record Matrices {ℓ} (A M : Type ℓ) : Type ℓ where
  pub rows : M → ℕ
  pub cols : M → ℕ
  pub times : M → M → M
  pub transpose : M → M
  pub inverse_of : M → M
  pub diagonal : List A → M
  pub matrix_u : M → M
  pub matrix_v : M → M
  pub singular_values : M → List A
  pub max_coeff : List A → A

module _ {ℓ} {A : Type ℓ} (s : Scalars A) where
  -- allclose(a, b, rtol, atol), over the entries of two matrices of one size
  unfoldable pub allclose : A → A → List (A × A) → Bool
  allclose rtol atol [] = true
  allclose rtol atol ((a, b) ∷ rest) =
      s.at_most (s.abs (s.sub a b)) (s.add atol (s.mul rtol (s.abs b))) && allclose rtol atol rest

  -- setFinite(matrix) and setFinite(m1, m2), over the entries
  unfoldable pub set_finite : List A → List A
  set_finite = map λ v. if s.isfinite v then v else s.zero

  unfoldable pub set_finite_from : List (A × A) → List A
  set_finite_from = map λ v. if s.isfinite v.0 then v.0 else v.1

  -- (singularValues > tolerance).select(inverse, 0)
  unfoldable pub inverted : A → List A → List A
  inverted tolerance [] = []
  inverted tolerance (v ∷ vs) =
      (if s.less tolerance v then s.inverse v else s.zero) ∷ inverted tolerance vs

module _ {ℓ} {A M : Type ℓ} (s : Scalars A) (m : Matrices A M) where
  -- psdInv(a, result, tolerance)
  unfoldable pub psd_inv : M → A → M
  unfolding inverted
  psd_inv a tolerance =
      m.times (m.times (m.matrix_v a) (m.diagonal (inverted s tolerance (m.singular_values a))))
        (m.transpose (m.matrix_u a))

  -- psdInv(a, result), whose tolerance follows from the size and the greatest singular value
  unfoldable pub psd_inv_default : M → M
  unfolding psd_inv
  psd_inv_default a =
      let size = if ltb (m.cols a) (m.rows a) then m.rows a else m.cols a in
      let tolerance =
        s.mul (s.mul s.epsilon (s.of_nat size)) (m.max_coeff (map s.abs (m.singular_values a))) in
      psd_inv a tolerance

  -- psdInvW(in, W, tolerance): a weight of the wrong size is not used
  unfoldable pub psd_inv_w : M → M → A → M
  unfolding psd_inv
  psd_inv_w a w tolerance =
      if not (m.rows w == m.cols w)
      then psd_inv a tolerance
      else if leb (m.rows a) (m.cols a)
      then (if not (m.rows w == m.cols a)
          then psd_inv a tolerance
          else m.times (m.times (m.inverse_of w) (m.transpose a))
              (psd_inv (m.times (m.times a (m.inverse_of w)) (m.transpose a)) tolerance))
      else (if not (m.rows w == m.rows a)
          then psd_inv a tolerance
          else m.times
              (m.times (psd_inv (m.times (m.times (m.transpose a) (m.inverse_of w)) a) tolerance)
                (m.transpose a))
              (m.inverse_of w))

  -- computeQR(A, Q, R): `none` where segment(0, A.cols()) reaches past the singular values
  unfoldable pub compute_qr : M → Option (M × M)
  compute_qr a =
      let values = m.singular_values a in
      if ltb (length values) (m.cols a)
      then none
      else some
          (m.matrix_u a, m.times (m.diagonal (take (m.cols a) values)) (m.transpose (m.matrix_v a)))

  -- A matrix wider than high has no QR decomposition here: it has too few singular values.
  compute_qr_wide :
      (a : M) → ltb (length (m.singular_values a)) (m.cols a) ≡ true → compute_qr a ≡ none
  unfolding compute_qr
  compute_qr_wide a h = ground arith
