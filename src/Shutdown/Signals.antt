-- ===== src/Shutdown/Signals.antt =====
-- modules/utils/include/dls2/util/shutdown_signal.hpp: the thread of ShutdownSignal. A round of its loop
-- holds what `stopping_` is at its two tests, whether the pipe gives bytes, and what the callback answers.
use dls.Common.{
  ℕ, zero, suc, ◌≤◌, ◌≡◌, Bool, true, false, ◌&&◌, ◌||◌, not, Option, none, some, List, [], ◌∷◌,
  arith, if◌then◌else◌, get_elem?, Bool-cases, inl, inr,
}

pub record Tick : Type 0 where
  pub stopping : Bool
  pub readable : Bool
  pub stopping_then : Bool
  pub accepts : Bool

-- the loop of start()'s thread: whether it ended with a request that was taken; `none` while it runs
unfoldable pub worker : Bool → List Tick → Option Bool
worker pending [] = none
worker pending (t ∷ ts) =
    let pending' = pending || t.readable in
    let rest = worker pending' ts in
    if t.stopping
    then some false
    else if pending' && not t.stopping_then && t.accepts
    then some true
    else rest

-- No round finds the thread asked to stop.
abbrev pub AllRunning : List Tick → Type 0
AllRunning [] = Unit
AllRunning (t ∷ ts) = (t.stopping ≡ false) × (t.stopping_then ≡ false) × AllRunning ts

worker_pending :
    (ts : List Tick) (j : ℕ) (b : Tick)
    → AllRunning ts
    → get_elem? ts j ≡ some b
    → b.accepts ≡ true
    → worker true ts ≡ some true
unfolding worker
worker_pending [] j b runs at accepts = ground arith
worker_pending (t ∷ ts) zero b (r, r', runs) at accepts = ground (arith, r, r', at, accepts)
worker_pending (t ∷ ts) (suc j) b (r, r', runs) at accepts =
    let rest = worker_pending ts j b runs at accepts in ground (arith, r, r', rest)

-- A notification is kept until it is taken: where the thread is not asked to stop, a signal that comes in a
-- round and a callback that accepts in the same round or a later one end the thread with the
-- request taken.
pub worker_takes :
    (ts : List Tick) (i j : ℕ) (a b : Tick)
    → AllRunning ts
    → get_elem? ts i ≡ some a
    → a.readable ≡ true
    → get_elem? ts j ≡ some b
    → b.accepts ≡ true
    → i ≤ j
    → worker false ts ≡ some true
unfolding worker
worker_takes [] i j a b runs at readable at' accepts le = ground arith
worker_takes (t ∷ ts) zero zero a b (r, r', runs) at readable at' accepts le =
    ground (arith, r, r', at, readable, at', accepts)
worker_takes (t ∷ ts) zero (suc j) a b (r, r', runs) at readable at' accepts le =
    let rest = worker_pending ts j b runs at' accepts in ground (arith, r, r', at, readable, rest)
worker_takes (t ∷ ts) (suc i) zero a b (r, r', runs) at readable at' accepts le = ground (arith, le)
worker_takes (t ∷ ts) (suc i) (suc j) a b (r, r', runs) at readable at' accepts le =
    let later = worker_takes ts i j a b runs at readable at' accepts (omega (arith, le)) in
    let pending = worker_pending ts j b runs at' accepts in
    elim (Bool-cases t.readable) [
      | inl now ↦ ground (arith, r, r', now, pending)
      | inr not_now ↦ ground (arith, r, r', not_now, later)
    ]
