-- ===== src/Log/Orchestrator.antt =====
-- The event handling of modules/supervisor/src/orchestrator_base.cpp: the collection of events in
-- run() and the choice of those that telemetryCallback publishes. The virtual methods orchestrate,
-- read, write and telemetryMain get copies and are left out; idx_read is static in run().
use dls.Common.{
  ℕ, zero, suc, ◌+◌, ◌-◌, ◌*◌, ◌<◌, ◌≡◌, refl, Option, some, List, [], ◌∷◌, length, drop, arith,
  sym, subst,
}
use dls.CommandManager.{◌>>=◌}
use native.Mathlib.Nat.{suc-mul, zero-mul}
use dls.Log.{EventLog}
use dls.Log.Order.{push_all, Ordered, AtMost, push_all-Ordered, length-push_all}
use dls.Log.Listener.{CircularBuffer, EventListener, read_events, IsTail, read_events-IsTail}

-- the loop that pops the queue's copy up to event_to_publish_ times
unfoldable pub events_to_publish : ℕ → List EventLog → List EventLog
events_to_publish zero q = []
events_to_publish (suc n) [] = []
events_to_publish (suc n) (e ∷ q) = e ∷ events_to_publish n q

-- Each of the first events is not below any of the second.
abbrev pub Above : List EventLog → List EventLog → Type 0
Above [] ys = Unit
Above (x ∷ xs) ys = AtMost x ys × Above xs ys

AtMost-drop : (a : EventLog) (n : ℕ) (xs : List EventLog) → AtMost a xs → AtMost a (drop n xs)
AtMost-drop a zero xs bound = bound
AtMost-drop a (suc n) [] bound = tt
AtMost-drop a (suc n) (x ∷ xs) (first, rest) = AtMost-drop a n xs rest

AtMost-events_to_publish :
    (a : EventLog) (n : ℕ) (xs : List EventLog) → AtMost a xs → AtMost a (events_to_publish n xs)
unfolding events_to_publish
AtMost-events_to_publish a zero xs bound = tt
AtMost-events_to_publish a (suc n) [] bound = tt
AtMost-events_to_publish a (suc n) (x ∷ xs) (first, rest) =
    (first, AtMost-events_to_publish a n xs rest)

-- From an ordered queue the events published are ordered too, and none of those left in the queue has
-- a higher priority than one published.
pub events_to_publish-top :
    (n : ℕ) (q : List EventLog)
    → Ordered q
    → Ordered (events_to_publish n q) × Above (events_to_publish n q) (drop n q)
unfolding events_to_publish
events_to_publish-top zero q ordered = (tt, tt)
events_to_publish-top (suc n) [] ordered = (tt, tt)
events_to_publish-top (suc n) (e ∷ q) (bound, ordered) =
    let (sorted, above) = events_to_publish-top n q ordered in
    ((AtMost-events_to_publish e n q bound, sorted), (AtMost-drop e n q bound, above))

module _ (ring : CircularBuffer {0} EventLog) where
  pub record OrchestratorBase : Type 0 where
    pub event_listener : EventListener ring
    pub idx_read : ℕ
    pub events_priority_queue : List EventLog

  -- run(): readEvents(idx_read), and a push of each event
  unfoldable pub collect : OrchestratorBase → Option OrchestratorBase
  unfolding read_events push_all
  collect o = do
    (l, (events_fifo, idx)) ← read_events ring o.idx_read o.event_listener
    some (record {
      event_listener = l;
      idx_read = idx;
      events_priority_queue = push_all events_fifo o.events_priority_queue;
    })

  unfoldable pub collect_times : ℕ → OrchestratorBase → Option OrchestratorBase
  unfolding collect
  collect_times zero o = some o
  collect_times (suc n) o = do o' ← collect o; collect_times n o'

  collect-IsTail :
      (es : List EventLog) (o : OrchestratorBase)
      → 0 < ring.capacity
      → IsTail ring es o.event_listener
      → let newest = drop (length es - ring.capacity) es in
        (o' : OrchestratorBase) × (collect o ≡ some o')
        × IsTail ring es o'.event_listener
        × (o'.events_priority_queue ≡ push_all newest o.events_priority_queue)
  unfolding collect
  collect-IsTail es o room tail =
      let newest = drop (length es - ring.capacity) es in
      let l' : EventListener ring = record o.event_listener {
        buffer_max_idx = ring.capacity - 1;
      } in
      (
        record {
          event_listener = l';
          idx_read = length newest;
          events_priority_queue = push_all newest o.events_priority_queue;
        },
        rw (read_events-IsTail ring es o.idx_read o.event_listener room tail),
        record { counted = tail.counted; held = tail.held },
        refl,
      )

  -- Rounds of run() that meet no new event succeed and keep the queue ordered, and each of them pushes
  -- all the events that the buffer holds once more.
  pub collect_times-length :
      (n : ℕ) (es : List EventLog) (o : OrchestratorBase)
      → 0 < ring.capacity
      → IsTail ring es o.event_listener
      → Ordered o.events_priority_queue
      → (o' : OrchestratorBase) × (collect_times n o ≡ some o')
        × Ordered o'.events_priority_queue
        × (length o'.events_priority_queue
            ≡ n * length (drop (length es - ring.capacity) es) + length o.events_priority_queue)
  unfolding collect_times
  collect_times-length zero es o room tail ordered =
      (o, refl, ordered, ground (arith, zero-mul (length (drop (length es - ring.capacity) es))))
  collect_times-length (suc n) es o room tail ordered =
      let newest = drop (length es - ring.capacity) es in
      let (o1, collected, tail1, queue) = collect-IsTail es o room tail in
      let ordered1 : Ordered o1.events_priority_queue =
        subst Ordered (sym queue) (push_all-Ordered newest o.events_priority_queue ordered) in
      let (o2, later, ordered2, size) = collect_times-length n es o1 room tail1 ordered1 in
      (
        o2,
        rw collected later,
        ordered2,
        ground (
          arith,
          size,
          queue,
          suc-mul n (length newest),
          length-push_all newest o.events_priority_queue,
        ),
      )
