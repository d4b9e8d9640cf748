-- ===== src/Window/Statistics.antt =====
-- The windows that pushes and clears make, against the list of the newest values.
use dls.Common.{
  ℕ, ◌+◌, ◌-◌, ◌%◌, ◌<◌, ◌≡◌, ◌≢◌, refl, ap, ◌∙◌, sym, List, [], ◌∷◌, ◌++◌, length, set, take, drop,
  arith, drop_all, drop-append, length-set, length-append, length-replicate, Bool-cases, ltb, ◌==◌,
  nat_eq, inl, inr, ltb→lt,
}
use native.Mathlib.Nat.{mod-eq_of_lt}
use dls.Window.{
  NumericalMovingWindow, ℤ, new_window, clamp, push_free, push_full, push, overwrite,
  recompute_extrema, mean, max_value, min_value, clear,
}
use dls.Window.Ring.{append-nil, take-set}
use dls.Window.Extrema.{greatest, least, greatest-append_one, least-append_one, maximum, minimum}
use dls.Window.Refinement.{
  IsWindow, contents, total, total_sq, total-append_one, total_sq-append_one, length-contents,
  push_full-IsWindow,
}

-- What a caller does to a window.
pub data Operation : Type 0 where
  pushed : ℤ → Operation
  cleared : Operation

unfoldable pub run : List Operation → NumericalMovingWindow → NumericalMovingWindow
unfolding push clear
run [] w = w
run (pushed v ∷ ops) w = run ops (push v w)
run (cleared ∷ ops) w = run ops (clear w)

-- The last n elements of a list.
abbrev pub last : ℕ → List ℕ → List ℕ
last n xs = drop (length xs - n) xs

-- The same operations on the list of the newest values.
unfoldable pub run_newest : ℕ → List Operation → List ℕ → List ℕ
run_newest capacity [] c = c
run_newest capacity (pushed v ∷ ops) c = run_newest capacity ops (last capacity (c ++ clamp v ∷ []))
run_newest capacity (cleared ∷ ops) c = run_newest capacity ops []

push_free-IsWindow :
    (v : ℕ) (w : NumericalMovingWindow)
    → IsWindow w
    → w.size_ < w.capacity
    → IsWindow (push_free v w) × (contents (push_free v w) ≡ contents w ++ v ∷ [])
unfolding push_free
push_free-IsWindow v w ok free =
    let front = ok.starts free in
    let place : (w.head + w.size_) % w.capacity ≡ w.size_ =
      mod-eq_of_lt {n = w.head + w.size_} (omega (arith, front, free)) ∙ omega (arith, front) in
    let held : contents w ≡ take w.size_ w.data_ = rw (front, append-nil w.data_) refl in
    let next : contents (push_free v w) ≡ contents w ++ v ∷ [] =
      rw (place, held)
        (rw (front, append-nil (set w.data_ w.size_ v))
          (take-set w.size_ w.data_ v (omega (arith, free, ok.stored)))) in
    let len = length-contents w ok in
    let empty : w.size_ ≡ 0 → contents w ≡ [] = λ e. rw e refl in
    let filled : w.size_ ≢ 0 → contents w ≢ [] = λ ne e. ne (sym len ∙ ap length e) in
    (
      record {
        stored = length-set w.data_ ((w.head + w.size_) % w.capacity) v ∙ ok.stored;
        fits = omega (arith, free);
        starts = λ lt. front;
        inside = ok.inside;
        sums = omega (arith, ok.sums, ap total next, total-append_one (contents w) v);
        squares = omega (arith, ok.squares, ap total_sq next, total_sq-append_one (contents w) v);
        top = λ lt. elim (Bool-cases (w.size_ == 0)) [
          | inl none_yet ↦
              let first : contents (push_free v w) ≡ v ∷ [] =
                next ∙ ap (λ t. t ++ v ∷ []) (empty (ground (arith, none_yet))) in
              let only : greatest (contents (push_free v w)) ≡ v =
                unfold greatest maximum in ap greatest first in
              ground (arith, none_yet, only)
          | inr some_yet ↦ ground (
            arith,
            some_yet,
            ok.top (ground (arith, some_yet)),
            ap greatest next,
            greatest-append_one (contents w) v (filled (ground (arith, some_yet))),
          )
        ];
        bottom = λ lt. elim (Bool-cases (w.size_ == 0)) [
          | inl none_yet ↦
              let first : contents (push_free v w) ≡ v ∷ [] =
                next ∙ ap (λ t. t ++ v ∷ []) (empty (ground (arith, none_yet))) in
              let only : least (contents (push_free v w)) ≡ v =
                unfold least minimum in ap least first in
              ground (arith, none_yet, only)
          | inr some_yet ↦ ground (
            arith,
            some_yet,
            ok.bottom (ground (arith, some_yet)),
            ap least next,
            least-append_one (contents w) v (filled (ground (arith, some_yet))),
          )
        ];
      },
      next,
    )

push-IsWindow :
    (v : ℤ) (w : NumericalMovingWindow)
    → IsWindow w
    → IsWindow (push v w) × (contents (push v w) ≡ last w.capacity (contents w ++ clamp v ∷ []))
unfolding push
push-IsWindow v w ok =
    let len = length-contents w ok in
    let c' = contents w ++ clamp v ∷ [] in
    let len' = length-append (contents w) (clamp v ∷ []) in
    elim (Bool-cases (w.capacity == 0)) [
      | inl no_room ↦
          let no_cap : w.capacity ≡ 0 = ground (arith, no_room) in
          let empty_size : w.size_ ≡ 0 = omega (arith, no_cap, ok.fits) in
          let none_held : contents w ≡ [] = rw (empty_size) refl in
          rw (no_room)
            (ok, none_held ∙ sym (drop_all (length c' - w.capacity) c' (omega (arith, no_cap))))
      | inr room ↦ elim (Bool-cases (ltb w.size_ w.capacity)) [
        | inl free ↦
            let (ok', next) = push_free-IsWindow (clamp v) w ok (ltb→lt w.size_ w.capacity free) in
            let whole : length c' - w.capacity ≡ 0 =
              omega (arith, len, len', ltb→lt w.size_ w.capacity free) in
            rw (room, free) (ok', next ∙ sym (ap (λ n. drop n c') whole))
        | inr full ↦
            let at_cap : w.size_ ≡ w.capacity = ground (arith, full, ok.fits) in
            let some_room : 0 < w.capacity = ground (arith, room) in
            let (ok', next) = push_full-IsWindow (clamp v) w ok at_cap some_room in
            let one : length c' - w.capacity ≡ 1 = omega (arith, len, len', at_cap) in
            let cut =
              drop-append 1 (contents w) (clamp v ∷ []) (omega (arith, len, at_cap, some_room)) in
            rw (room, full) (ok', next ∙ sym (ap (λ n. drop n c') one ∙ cut))
      ]
    ]

push-capacity : (v : ℤ) (w : NumericalMovingWindow) → (push v w).capacity ≡ w.capacity
unfolding push push_free push_full overwrite recompute_extrema
push-capacity v w = ground arith

clear-IsWindow : (w : NumericalMovingWindow) → IsWindow w → IsWindow (clear w)
unfolding clear total total_sq
clear-IsWindow w ok = record {
  stored = ok.stored;
  fits = omega arith;
  starts = λ lt. refl;
  inside = omega arith;
  sums = refl;
  squares = refl;
  top = λ lt. ground arith;
  bottom = λ lt. ground arith;
}

pub run-IsWindow :
    (ops : List Operation) (w : NumericalMovingWindow)
    → IsWindow w
    → IsWindow (run ops w) × (contents (run ops w) ≡ run_newest w.capacity ops (contents w))
unfolding run run_newest
run-IsWindow [] w ok = (ok, refl)
run-IsWindow (pushed v ∷ ops) w ok =
    let (ok', next) = push-IsWindow v w ok in
    let (done, same) = run-IsWindow ops (push v w) ok' in
    (done, same ∙ rw (push-capacity v w, next) refl)
run-IsWindow (cleared ∷ ops) w ok = unfold clear in run-IsWindow ops (clear w) (clear-IsWindow w ok)

pub new_window-IsWindow : (capacity : ℕ) → IsWindow (new_window capacity)
unfolding new_window total total_sq
new_window-IsWindow capacity = record {
  stored = length-replicate capacity 0;
  fits = omega arith;
  starts = λ lt. refl;
  inside = omega arith;
  sums = refl;
  squares = refl;
  top = λ lt. ground arith;
  bottom = λ lt. ground arith;
}

-- The average of a list as a numerator and a denominator, 0 where it is empty.
unfoldable pub average : List ℕ → ℕ × ℕ
average [] = (0, 1)
average (x ∷ xs) = (total (x ∷ xs), length (x ∷ xs))

mean_lem : (w : NumericalMovingWindow) → IsWindow w → mean w ≡ average (contents w)
mean_lem w ok = mean_of w (contents w) ok.sums (length-contents w ok)
  where
    mean_of :
        (w : NumericalMovingWindow) (c : List ℕ)
        → w.sum ≡ total c
        → length c ≡ w.size_
        → mean w ≡ average c
    mean_of w [] sums len = unfold mean average in ground (arith, sums, len)
    mean_of w (x ∷ xs) sums len = unfold mean average in ground (arith, sums, len)

max_value_lem : (w : NumericalMovingWindow) → IsWindow w → max_value w ≡ greatest (contents w)
unfolding max_value
max_value_lem w ok = elim (Bool-cases (w.size_ == 0)) [
  | inl none_yet ↦
      let e : w.size_ ≡ 0 = ground (arith, none_yet) in rw none_yet (unfold greatest in rw e refl)
  | inr some_yet ↦ rw some_yet (ok.top (ground (arith, some_yet)))
]

min_value_lem : (w : NumericalMovingWindow) → IsWindow w → min_value w ≡ least (contents w)
unfolding min_value
min_value_lem w ok = elim (Bool-cases (w.size_ == 0)) [
  | inl none_yet ↦
      let e : w.size_ ≡ 0 = ground (arith, none_yet) in rw none_yet (unfold least in rw e refl)
  | inr some_yet ↦ rw some_yet (ok.bottom (ground (arith, some_yet)))
]

-- Whatever is pushed and cleared, a window of any capacity holds in order the values that the list of
-- the newest values holds: each value pushed below 0 counts as 0, the list keeps the last `capacity`
-- of them, and a clear empties it.
pub run-newest :
    (capacity : ℕ) (ops : List Operation)
    → contents (run ops (new_window capacity)) ≡ run_newest capacity ops []
run-newest capacity ops =
    let (done, same) = run-IsWindow ops (new_window capacity) (new_window-IsWindow capacity) in
    unfold new_window in same

-- After any pushes and clears, mean, max and min are the average, the greatest and the least of the
-- newest values (0 where there are none), and the sum of squares is that of these values.
pub run-statistics :
    (capacity : ℕ) (ops : List Operation)
    → let w = run ops (new_window capacity) in
      let c = run_newest capacity ops [] in
      (mean w ≡ average c)
      × (max_value w ≡ greatest c)
      × (min_value w ≡ least c)
      × (w.sum_sq ≡ total_sq c)
      × (w.size_ ≡ length c)
run-statistics capacity ops =
    let w = run ops (new_window capacity) in
    let (ok, same) = run-IsWindow ops (new_window capacity) (new_window-IsWindow capacity) in
    let same = run-newest capacity ops in
    (
      mean_lem w ok ∙ ap average same,
      max_value_lem w ok ∙ ap greatest same,
      min_value_lem w ok ∙ ap least same,
      ok.squares ∙ ap total_sq same,
      sym (length-contents w ok) ∙ ap length same,
    )
