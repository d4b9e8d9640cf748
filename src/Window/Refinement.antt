-- ===== src/Window/Refinement.antt =====
-- NumericalMovingWindow against its abstract view, the list of the newest values.
use dls.Common.{
  ℕ, zero, suc, ◌+◌, ◌-◌, ◌*◌, ◌%◌, ◌≤◌, ◌<◌, ◌≡◌, ◌≢◌, refl, ap, ◌∙◌, sym, subst, List, [], ◌∷◌,
  ◌++◌, length, get_or, set, take, drop, arith, drop_all, length-set, Bool-cases, nat_beq, ◌==◌,
  ◌||◌, nat_eq, inl, inr, false,
}
use native.Mathlib.Nat.{mod-lt}
use dls.Window.{NumericalMovingWindow, scan, recompute_extrema, overwrite, push_full}
use dls.Window.Ring.{
  rotated, length-take, take_all, drop-get_or, rotated-head, rotated-next, get_or-rotated,
  length-rotated,
}
use dls.Window.Extrema.{
  larger, smaller, maximum, minimum, greatest, least, maximum-larger, minimum-smaller,
  greatest-append_one, least-append_one, greatest-tail, least-tail,
}

-- What a window holds, the oldest value first.
abbrev pub contents : NumericalMovingWindow → List ℕ
contents w = take w.size_ (rotated w.head w.data_)

unfoldable pub total : List ℕ → ℕ
total [] = 0
total (x ∷ xs) = x + total xs

unfoldable pub total_sq : List ℕ → ℕ
total_sq [] = 0
total_sq (x ∷ xs) = x * x + total_sq xs

pub record IsWindow (w : NumericalMovingWindow) : Type 0 where
  pub stored : length w.data_ ≡ w.capacity
  pub fits : w.size_ ≤ w.capacity
  pub starts : w.size_ < w.capacity → w.head ≡ 0
  pub inside : w.head ≤ w.capacity - 1
  pub sums : w.sum ≡ total (contents w)
  pub squares : w.sum_sq ≡ total_sq (contents w)
  pub top : 0 < w.size_ → w.max_ ≡ greatest (contents w)
  pub bottom : 0 < w.size_ → w.min_ ≡ least (contents w)

pub total-append_one : (xs : List ℕ) (v : ℕ) → total (xs ++ v ∷ []) ≡ total xs + v
unfolding total
total-append_one [] v = omega arith
total-append_one (x ∷ xs) v = omega (arith, total-append_one xs v)

pub total_sq-append_one : (xs : List ℕ) (v : ℕ) → total_sq (xs ++ v ∷ []) ≡ total_sq xs + v * v
unfolding total_sq
total_sq-append_one [] v = omega arith
total_sq-append_one (x ∷ xs) v = omega (arith, total_sq-append_one xs v)

pub length-contents : (w : NumericalMovingWindow) → IsWindow w → length (contents w) ≡ w.size_
length-contents w ok =
    length-take w.size_ (rotated w.head w.data_)
      (omega (arith, ok, length-rotated w.head w.data_ (omega (arith, ok))))

-- recomputeExtrema's loop over the positions is a scan of the contents
scan_lem :
    (data_ c : List ℕ) (capacity head i n mx mn : ℕ)
    → ((j : ℕ) → j < length c → get_or data_ ((head + j) % capacity) 0 ≡ get_or c j 0)
    → i + n ≡ length c
    → scan data_ capacity head i n mx mn ≡ (maximum mx (drop i c), minimum mn (drop i c))
unfolding scan maximum minimum
scan_lem data_ c capacity head i zero mx mn at e = rw (drop_all i c (omega (arith, e))) refl
scan_lem data_ c capacity head i (suc n) mx mn at e =
    let v = get_or c i 0 in
    let next =
      scan_lem data_ c capacity head (suc i) n (larger mx v) (smaller mn v) at (omega (arith, e)) in
    rw
      (
        at i (omega (arith, e)),
        drop-get_or i c 0 (omega (arith, e)),
        sym (maximum-larger mx v (drop (suc i) c)),
        sym (minimum-smaller mn v (drop (suc i) c)),
      )
      next

recompute_lem :
    (w : NumericalMovingWindow)
    → length w.data_ ≡ w.capacity
    → w.size_ ≡ w.capacity
    → w.head < w.capacity
    → recompute_extrema w
      ≡ record w { max_ = greatest (rotated w.head w.data_); min_ = least (rotated w.head w.data_) }
unfolding recompute_extrema greatest least
recompute_lem w stored full inside =
    let c = rotated w.head w.data_ in
    let first = get_or w.data_ w.head 0 in
    let len : length c ≡ w.capacity =
      length-rotated w.head w.data_ (omega (arith, stored, inside)) ∙ stored in
    let scanned =
      scan_lem w.data_ c w.capacity w.head 1 (w.size_ - 1) first first
        (λ j lt.
          subst (λ k. get_or w.data_ ((w.head + j) % k) 0 ≡ get_or c j 0) stored
            (get_or-rotated w.head j w.data_ 0 (omega (arith, stored, inside))
              (omega (arith, stored, len, lt))))
        (omega (arith, full, inside, len)) in
    let split = rotated-head w.head w.data_ 0 (omega (arith, stored, inside)) in
    let busy : nat_beq w.size_ 0 ≡ false = ground (arith, full, inside) in
    rw (busy, scanned, split) refl

overwrite-contents :
    (v : ℕ) (w : NumericalMovingWindow)
    → length w.data_ ≡ w.capacity
    → w.size_ ≡ w.capacity
    → w.head < w.capacity
    → (contents w ≡ get_or w.data_ w.head 0 ∷ drop 1 (contents w))
      × (rotated (overwrite v w).head (overwrite v w).data_ ≡ drop 1 (contents w) ++ v ∷ [])
      × (contents (overwrite v w) ≡ drop 1 (contents w) ++ v ∷ [])
unfolding overwrite
overwrite-contents v w stored full inside =
    let lt : w.head < length w.data_ = omega (arith, stored, inside) in
    let len = length-rotated w.head w.data_ (omega (arith, lt)) in
    let whole : contents w ≡ rotated w.head w.data_ =
      take_all w.size_ (rotated w.head w.data_) (omega (arith, len, stored, full)) in
    let split = whole ∙ rotated-head w.head w.data_ 0 lt in
    let next = rotated-next w.head w.data_ v lt in
    let tail : drop 1 (contents w) ≡ drop (suc w.head) w.data_ ++ take w.head w.data_ =
      ap (drop 1) split in
    let moved : rotated (suc w.head % w.capacity) (set w.data_ w.head v)
        ≡ (drop (suc w.head) w.data_ ++ take w.head w.data_) ++ v ∷ [] =
      subst
        (λ k.
          rotated (suc w.head % k) (set w.data_ w.head v)
          ≡ (drop (suc w.head) w.data_ ++ take w.head w.data_) ++ v ∷ [])
        stored next in
    let below = mod-lt (suc w.head) {m = w.capacity} (omega (arith, inside)) in
    let short : length (rotated (suc w.head % w.capacity) (set w.data_ w.head v)) ≤ w.size_ =
      omega (
        arith,
        length-set w.data_ w.head v,
        length-rotated (suc w.head % w.capacity) (set w.data_ w.head v)
            (omega (arith, below, length-set w.data_ w.head v, stored)),
        stored,
        full,
      ) in
    (
      rw tail split,
      rw tail moved,
      take_all w.size_ (rotated (suc w.head % w.capacity) (set w.data_ w.head v)) short
          ∙ rw tail moved,
    )

-- the window after an overwriting push, whatever way its extrema were found
overwrite-IsWindow :
    (v : ℕ) (w : NumericalMovingWindow)
    → IsWindow w
    → w.size_ ≡ w.capacity
    → 0 < w.capacity
    → (hi lo : ℕ) → hi ≡ greatest (drop 1 (contents w) ++ v ∷ [])
    → lo ≡ least (drop 1 (contents w) ++ v ∷ [])
    → IsWindow (record (overwrite v w) { max_ = hi; min_ = lo })
overwrite-IsWindow v w ok full some_room hi lo top bottom =
    let (split, moved, next) =
      overwrite-contents v w ok.stored full (omega (arith, ok, some_room)) in
    let old = get_or w.data_ w.head 0 in
    let rest = drop 1 (contents w) in
    let before : w.sum ≡ old + total rest = ok.sums ∙ unfold total in ap total split in
    let before_sq : w.sum_sq ≡ old * old + total_sq rest =
      ok.squares ∙ unfold total_sq in ap total_sq split in
    let after = ap total next ∙ total-append_one rest v in
    let after_sq = ap total_sq next ∙ total_sq-append_one rest v in
    let below = mod-lt (suc w.head) {m = w.capacity} some_room in
    unfold overwrite in
    record {
      stored = length-set w.data_ w.head v ∙ ok.stored;
      fits = ok.fits;
      starts = λ lt. ground (arith, full);
      inside = omega (arith, below);
      sums = omega (arith, before, after);
      squares = omega (arith, before_sq, after_sq);
      top = λ lt. top ∙ ap greatest (sym next);
      bottom = λ lt. bottom ∙ ap least (sym next);
    }

-- where the value that leaves is no extremum, no rescan is needed
overwrite-extrema :
    (v : ℕ) (w : NumericalMovingWindow)
    → IsWindow w
    → w.size_ ≡ w.capacity
    → 0 < w.capacity
    → (get_or w.data_ w.head 0 == w.min_ || get_or w.data_ w.head 0 == w.max_) ≡ false
    → ((overwrite v w).max_ ≡ greatest (drop 1 (contents w) ++ v ∷ []))
      × ((overwrite v w).min_ ≡ least (drop 1 (contents w) ++ v ∷ []))
unfolding overwrite
overwrite-extrema v w ok full some_room keep =
    let (split, moved, next) =
      overwrite-contents v w ok.stored full (omega (arith, ok, some_room)) in
    let old = get_or w.data_ w.head 0 in
    let rest = drop 1 (contents w) in
    let top : w.max_ ≡ greatest (old ∷ rest) =
      ok.top (omega (arith, full, some_room)) ∙ ap greatest split in
    let bottom : w.min_ ≡ least (old ∷ rest) =
      ok.bottom (omega (arith, full, some_room)) ∙ ap least split in
    let not_top : old ≢ greatest (old ∷ rest) = ground (arith, keep, top) in
    let not_bottom : old ≢ least (old ∷ rest) = ground (arith, keep, bottom) in
    let some_left : rest ≢ [] =
      λ e. not_top (unfold greatest maximum in sym (ap (λ t. greatest (old ∷ t)) e)) in
    (
      ground
          (arith, keep, top, greatest-tail old rest not_top, greatest-append_one rest v some_left),
      ground
          (arith, keep, bottom, least-tail old rest not_bottom, least-append_one rest v some_left),
    )

pub push_full-IsWindow :
    (v : ℕ) (w : NumericalMovingWindow)
    → IsWindow w
    → w.size_ ≡ w.capacity
    → 0 < w.capacity
    → IsWindow (push_full v w) × (contents (push_full v w) ≡ drop 1 (contents w) ++ v ∷ [])
unfolding push_full
push_full-IsWindow v w ok full some_room =
    let (split, moved, next) =
      overwrite-contents v w ok.stored full (omega (arith, ok, some_room)) in
    let old = get_or w.data_ w.head 0 in
    let rest = drop 1 (contents w) in
    let o = overwrite v w in
    elim (Bool-cases (old == w.min_ || old == w.max_)) [
      | inl rescan ↦
          let scanned : recompute_extrema o ≡ record o {
            max_ = greatest (rotated o.head o.data_);
            min_ = least (rotated o.head o.data_);
          } =
            unfold overwrite in
            recompute_lem o (length-set w.data_ w.head v ∙ ok.stored) full
              (mod-lt (suc w.head) {m = w.capacity} some_room) in
          rw rescan (
            subst (λ u. IsWindow u × (contents u ≡ rest ++ v ∷ [])) (sym scanned)
              (
                overwrite-IsWindow v w ok full some_room (greatest (rotated o.head o.data_))
                    (least (rotated o.head o.data_)) (ap greatest moved) (ap least moved),
                next,
              ))
      | inr keep ↦
          let (hi, lo) = overwrite-extrema v w ok full some_room keep in
          rw keep (overwrite-IsWindow v w ok full some_room o.max_ o.min_ hi lo, next)
    ]
