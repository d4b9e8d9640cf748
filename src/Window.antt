-- ===== src/Window.antt =====
-- modules/utils/include/dls2/util/numerical_moving_window.tpp: NumericalMovingWindow, the ring buffer
-- with running statistics that the resource monitors and the topic monitor keep. The values are
-- whole numbers here, and sums are exact where the source rounds long doubles.
pub mod Refinement
mod Ring
pub mod Extrema
pub mod Profiler
pub mod Statistics
pub mod Deviation
use dls.Common.{
  ℕ, zero, suc, ◌+◌, ◌-◌, ◌*◌, ◌%◌, List, Bool, true, false, ◌||◌, not, ◌&&◌, if◌then◌else◌, ltb,
  ◌==◌, nat_eq, get_or, set, replicate,
}

-- A value given to push: a whole number, below 0 by `negsuc`.
pub data ℤ : Type 0 where
  pos : ℕ → ℤ
  negsuc : ℕ → ℤ

pub record NumericalMovingWindow : Type 0 where
  pub capacity : ℕ
  pub data_ : List ℕ
  pub size_ : ℕ
  pub head : ℕ
  pub sum : ℕ
  pub sum_sq : ℕ
  pub max_ : ℕ
  pub min_ : ℕ

-- NumericalMovingWindow(capacity)
unfoldable pub new_window : ℕ → NumericalMovingWindow
new_window capacity = record {
  capacity = capacity;
  data_ = replicate capacity 0;
  size_ = 0;
  head = 0;
  sum = 0;
  sum_sq = 0;
  max_ = 0;
  min_ = 0;
}

-- push's lower bound
abbrev pub clamp : ℤ → ℕ
clamp (pos n) = n
clamp (negsuc n) = 0

-- recomputeExtrema's loop: `n` positions from the i-th on, with localMax and localMin
unfoldable pub scan : List ℕ → ℕ → ℕ → ℕ → ℕ → ℕ → ℕ → ℕ × ℕ
scan data_ capacity head i zero local_max local_min = (local_max, local_min)
scan data_ capacity head i (suc n) local_max local_min =
    let v = get_or data_ ((head + i) % capacity) 0 in
    scan data_ capacity head (suc i) n (if ltb local_max v then v else local_max)
      (if ltb v local_min then v else local_min)

-- recomputeExtrema()
unfoldable pub recompute_extrema : NumericalMovingWindow → NumericalMovingWindow
unfolding scan
recompute_extrema w =
    let first = get_or w.data_ w.head 0 in
    let (local_max, local_min) = scan w.data_ w.capacity w.head 1 (w.size_ - 1) first first in
    if w.size_ == 0
    then record w { max_ = 0; min_ = 0 }
    else record w { max_ = local_max; min_ = local_min }

-- push(value) below the capacity
unfoldable pub push_free : ℕ → NumericalMovingWindow → NumericalMovingWindow
push_free value w = record w {
  data_ = set w.data_ ((w.head + w.size_) % w.capacity) value;
  size_ = suc w.size_;
  sum = w.sum + value;
  sum_sq = w.sum_sq + value * value;
  max_ = if w.size_ == 0 then value else if ltb w.max_ value then value else w.max_;
  min_ = if w.size_ == 0 then value else if ltb value w.min_ then value else w.min_;
}

-- push(value) in a full window, up to the rescan
unfoldable pub overwrite : ℕ → NumericalMovingWindow → NumericalMovingWindow
overwrite value w =
    let old = get_or w.data_ w.head 0 in
    record w {
      data_ = set w.data_ w.head value;
      head = suc w.head % w.capacity;
      sum = w.sum - old + value;
      sum_sq = w.sum_sq - old * old + value * value;
      max_ = if not (old == w.max_) && ltb w.max_ value then value else w.max_;
      min_ = if not (old == w.min_) && ltb value w.min_ then value else w.min_;
    }

-- push(value) in a full window
unfoldable pub push_full : ℕ → NumericalMovingWindow → NumericalMovingWindow
unfolding overwrite recompute_extrema
push_full value w =
    let old = get_or w.data_ w.head 0 in
    if old == w.min_ || old == w.max_
    then recompute_extrema (overwrite value w)
    else overwrite value w

-- push(value)
unfoldable pub push : ℤ → NumericalMovingWindow → NumericalMovingWindow
unfolding push_free push_full
push value w =
    if w.capacity == 0
    then w
    else if ltb w.size_ w.capacity
    then push_free (clamp value) w
    else push_full (clamp value) w

-- mean(), as a numerator and a denominator
unfoldable pub mean : NumericalMovingWindow → ℕ × ℕ
mean w = if w.size_ == 0 then (0, 1) else (w.sum, w.size_)

-- max()
unfoldable pub max_value : NumericalMovingWindow → ℕ
max_value w = if w.size_ == 0 then 0 else w.max_

-- min()
unfoldable pub min_value : NumericalMovingWindow → ℕ
min_value w = if w.size_ == 0 then 0 else w.min_

-- clear(): the extrema stay as they are until the next push
unfoldable pub clear : NumericalMovingWindow → NumericalMovingWindow
clear w = record w { size_ = 0; head = 0; sum = 0; sum_sq = 0 }
