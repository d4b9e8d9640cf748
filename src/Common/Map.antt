-- ===== src/Common/Map.antt =====
-- std::map and std::unordered_map as association lists with one entry for each key. The iteration
-- order of the containers is not modelled.
use dls.Common.Tests.{Eq, ◌==◌, if◌then◌else◌}
use mathlib.Core.Path.{◌≡◌, refl}
use mathlib.Core.Bool.{Bool, true, false}
use mathlib.Core.List.{List, [], ◌∷◌, ◌++◌}
use mathlib.Core.Option.{Option, none, some}
use native.Mathlib.Omega.{arith}

module _ {ℓ κ} {K : Type ℓ} {V : Type κ} ⦃e : Eq K⦄ where
  -- m.find(k)
  unfoldable pub find : K → List (K × V) → Option V
  find k [] = none
  find k ((j, v) ∷ m) = if j == k then some v else find k m

  -- m.contains(k)
  abbrev pub contains : K → List (K × V) → Bool
  contains k m = elim (find k m) [ none ↦ false | some v ↦ true ]

  -- m[k] = v, m.insert_or_assign(k, v)
  unfoldable pub assign : K → V → List (K × V) → List (K × V)
  assign k v [] = (k, v) ∷ []
  assign k v ((j, w) ∷ m) = let rest = assign k v m in if j == k then (k, v) ∷ m else (j, w) ∷ rest

  -- m.emplace(k, v), m.insert({k, v}): an entry that is there stays.
  unfoldable pub emplace : K → V → List (K × V) → List (K × V)
  unfolding find
  emplace k v m = elim (find k m) [ none ↦ m ++ (k, v) ∷ [] | some w ↦ m ]

  -- m.erase(k)
  unfoldable pub erase : K → List (K × V) → List (K × V)
  erase k [] = []
  erase k ((j, w) ∷ m) = let rest = erase k m in if j == k then rest else (j, w) ∷ rest

  pub find-assign :
      (k j : K) (v : V) (m : List (K × V))
      → find j (assign k v m) ≡ (if k == j then some v else find j m)
  unfolding find assign
  find-assign k j v [] = refl
  find-assign k j v ((i, w) ∷ m) =
      ground (arith, e.same_iff k j, e.same_iff i k, e.same_iff i j, find-assign k j v m)

  find-append :
      (k j : K) (v : V) (m : List (K × V))
      → find k m ≡ none
      → find j (m ++ (k, v) ∷ []) ≡ (if k == j then some v else find j m)
  unfolding find
  find-append k j v [] h = refl
  find-append k j v ((i, w) ∷ m) h =
      ground (arith, e.same_iff k j, e.same_iff i k, e.same_iff i j, find-append k j v m)

  pub find-emplace_new :
      (k j : K) (v : V) (m : List (K × V))
      → find k m ≡ none
      → find j (emplace k v m) ≡ (if k == j then some v else find j m)
  unfolding emplace
  find-emplace_new k j v m h = rw (h, emplace) (find-append k j v m h)

  pub emplace_old : (k : K) (v w : V) (m : List (K × V)) → find k m ≡ some w → emplace k v m ≡ m
  unfolding emplace
  emplace_old k v w m h = rw (h, emplace)

  pub find-erase :
      (k j : K) (m : List (K × V)) → find j (erase k m) ≡ (if k == j then none else find j m)
  unfolding find erase
  find-erase k j [] = ground arith
  find-erase k j ((i, w) ∷ m) =
      ground (arith, e.same_iff k j, e.same_iff i k, e.same_iff i j, find-erase k j m)

  -- The entry of the key itself.
  pub find-assign_self : (k : K) (v : V) (m : List (K × V)) → find k (assign k v m) ≡ some v
  find-assign_self k v m = rw (find-assign k k v m, (e.same_iff k k).1 refl)

  pub find-erase_self : (k : K) (m : List (K × V)) → find k (erase k m) ≡ none
  find-erase_self k m = rw (find-erase k k m, (e.same_iff k k).1 refl)
