-- ===== src/Log/Listener.antt =====
-- EventListener of event_logger.cpp: the buffer of received events and readEvents. The circular buffer
-- is boost's: its operations are those of an interface, with the laws that its documentation states.
-- `received` is unbounded_buffer_idx_ + 1, which starts at -1 in the code.
use dls.Common.{
  ℕ, zero, suc, ◌+◌, ◌-◌, ◌<◌, ◌≡◌, refl, sym, false, Option, some, List, [], ◌∷◌, ◌++◌,
  if◌then◌else◌, ltb, leb, length, drop, get_elem?, length-append, length-drop, drop_all, drop_nil,
  ◌∙◌, drop-cons, drop-append, drop-drop_one, arith, Bool-cases, inl, inr,
}
use dls.Log.{EventLog}
use dls.CommandManager.{◌>>=◌}
use mathlib.Core.List.{append-nil, append_assoc}

-- boost::circular_buffer: what it holds, oldest first; push_back into a full one overwrites the
-- oldest element; operator[] counts from the oldest, and is undefined past the end.
pub record CircularBuffer {ℓ} (A : Type ℓ) : Type (ℓ + 1) where
  pub Carrier : Type ℓ
  pub empty : Carrier
  pub push_back : A → Carrier → Carrier
  pub at : Carrier → ℕ → Option A
  pub capacity : ℕ
  pub contents : Carrier → List A
  pub contents-empty : contents empty ≡ []
  pub contents-push_back :
      (a : A) (b : Carrier)
      → contents (push_back a b) ≡ (
          if ltb (length (contents b)) capacity
          then contents b ++ a ∷ []
          else drop 1 (contents b ++ a ∷ []))
  pub at-contents : (b : Carrier) (i : ℕ) → at b i ≡ get_elem? (contents b) i

module _ (ring : CircularBuffer {0} EventLog) where
  pub record EventListener : Type 0 where
    pub event_buffer : ring.Carrier
    pub received : ℕ
    pub buffer_max_idx : ℕ

  -- the constructor
  abbrev pub new_listener : EventListener
  new_listener = record { event_buffer = ring.empty; received = 0; buffer_max_idx = 0 }

  -- the callback of the reader
  unfoldable pub on_event : EventLog → EventListener → EventListener
  on_event msg l = record l {
    event_buffer = ring.push_back msg l.event_buffer;
    received = l.received + 1;
  }

  -- event_buffer_[i] for `count` indices from i on
  unfoldable pub read_range : ring.Carrier → ℕ → ℕ → Option (List EventLog)
  read_range b i zero = some []
  read_range b i (suc count) = do
    e ← ring.at b i
    rest ← read_range b (i + 1) count
    some (e ∷ rest)

  -- the first and the last index that readEvents maps idx_read = 0 and the unbounded index to
  unfoldable pub bounded_indexes : ℕ → ℕ → ℕ × ℕ
  bounded_indexes idx_buffer max =
      let delta = idx_buffer - 0 in
      if ltb max delta
      then (0, max)
      else if leb max idx_buffer
      then (max - delta, (max - delta) + delta)
      else (0, idx_buffer)

  -- readEvents(idx_read): the events, and what the call leaves in idx_read
  unfoldable pub read_events : ℕ → EventListener → Option (EventListener × (List EventLog × ℕ))
  unfolding read_range bounded_indexes
  read_events idx_read l =
      let max = ring.capacity - 1 in
      let l' : EventListener = record l { buffer_max_idx = max } in
      if leb l.received 0
      then some (l', ([], 0))
      else let (first, last) = bounded_indexes (l.received - 1) max in
        do
          events ← read_range l'.event_buffer first (suc last - first)
          some (l', (events, last + 1))

  -- The listener after some messages.
  unfoldable pub listen : List EventLog → EventListener → EventListener
  unfolding on_event
  listen [] l = l
  listen (e ∷ es) l = listen es (on_event e l)

  -- The listener has counted the messages and holds the newest of them, as many as fit.
  pub record IsTail (es : List EventLog) (l : EventListener) : Type 0 where
    pub counted : l.received ≡ length es
    pub held : ring.contents l.event_buffer ≡ drop (length es - ring.capacity) es

  tail-grows :
      (es : List EventLog) (e : EventLog) (cap : ℕ)
      → (if ltb (length (drop (length es - cap) es)) cap
          then drop (length es - cap) es ++ e ∷ []
          else drop 1 (drop (length es - cap) es ++ e ∷ []))
        ≡ drop (length (es ++ e ∷ []) - cap) (es ++ e ∷ [])
  tail-grows es e cap = elim (Bool-cases (ltb (length es) cap)) [
    | inl room ↦
        let none_lost : length es - cap ≡ 0 = ground arith in
        let none_after : length (es ++ e ∷ []) - cap ≡ 0 =
          ground (arith, length-append es (e ∷ [])) in
        rw (none_lost, none_after, room)
    | inr full ↦
        let kept : ltb (length (drop (length es - cap) es)) cap ≡ false =
          ground (arith, length-drop (length es - cap) es) in
        let one_more : length (es ++ e ∷ []) - cap ≡ suc (length es - cap) =
          ground (arith, length-append es (e ∷ [])) in
        let back : drop (length es - cap) es ++ e ∷ [] ≡ drop (length es - cap) (es ++ e ∷ []) =
          sym (drop-append (length es - cap) es (e ∷ []) (omega arith)) in
        rw (kept, one_more, back, drop-drop_one)
  ]

  on_event-IsTail :
      (es : List EventLog) (e : EventLog) (l : EventListener)
      → IsTail es l
      → IsTail (es ++ e ∷ []) (on_event e l)
  unfolding on_event
  on_event-IsTail es e l tail = record {
    counted = ground (arith, tail.counted, length-append es (e ∷ []));
    held = rw (ring.contents-push_back e l.event_buffer, tail.held) (tail-grows es e ring.capacity);
  }

  listen-IsTail :
      (former es : List EventLog) (l : EventListener)
      → IsTail former l
      → IsTail (former ++ es) (listen es l)
  unfolding listen
  listen-IsTail former [] l tail = rw (append-nil former) tail
  listen-IsTail former (e ∷ es) l tail =
      rw (sym (append_assoc former (e ∷ []) es))
        (listen-IsTail (former ++ e ∷ []) es (on_event e l) (on_event-IsTail former e l tail))

  new_listener-IsTail : (es : List EventLog) → IsTail es (listen es new_listener)
  new_listener-IsTail es =
      listen-IsTail [] es new_listener
        (record { counted = refl; held = ring.contents-empty ∙ sym (drop_nil (0 - ring.capacity)) })

  read_range-drop :
      (b : ring.Carrier) (i count : ℕ)
      → i + count ≡ length (ring.contents b)
      → read_range b i count ≡ some (drop i (ring.contents b))
  unfolding read_range
  read_range-drop b i zero h = rw (drop_all i (ring.contents b) (omega (arith, h)))
  read_range-drop b i (suc count) h =
      let (x, found, split) = drop-cons i (ring.contents b) (omega (arith, h)) in
      let next : suc i ≡ i + 1 = omega arith in
      rw (
        ring.at-contents b i,
        found,
        split,
        read_range-drop b (i + 1) count (omega (arith, h)),
        next,
      )

  bounded_indexes_lem :
      (n : ℕ)
      → 0 < n
      → 0 < ring.capacity
      → ((bounded_indexes (n - 1) (ring.capacity - 1)).0 ≡ 0)
        × (suc (bounded_indexes (n - 1) (ring.capacity - 1)).1 ≡ n - (n - ring.capacity))
  unfolding bounded_indexes
  bounded_indexes_lem n pos room = ground arith

  pub read_events-IsTail :
      (es : List EventLog) (idx_read : ℕ) (l : EventListener)
      → 0 < ring.capacity
      → IsTail es l
      → let l' : EventListener = record l { buffer_max_idx = ring.capacity - 1 } in
        let newest = drop (length es - ring.capacity) es in
        read_events idx_read l ≡ some (l', (newest, length newest))
  unfolding read_events
  read_events-IsTail [] idx_read l room tail =
      ground (arith, tail.counted, drop_nil {A = EventLog} (0 - ring.capacity))
  read_events-IsTail (e ∷ es) idx_read l room tail =
      let all = e ∷ es in
      let (first, last) = bounded_indexes_lem (length all) (omega arith) room in
      let size = length-drop (length all - ring.capacity) all in
      let range =
        read_range-drop l.event_buffer 0 (length all - (length all - ring.capacity))
          (ground (arith, tail.held, size)) in
      let contents : drop 0 (ring.contents l.event_buffer) ≡ drop (length all - ring.capacity) all =
        tail.held in
      ground (arith, tail.counted, first, last, size, range, contents)

  -- However many events a listener has received and wherever its reader says it stopped, a read
  -- returns the newest events, as many as the buffer holds, those that were read before included; the
  -- buffer and the count stay.
  pub read_events-newest :
      (es : List EventLog) (idx_read : ℕ)
      → 0 < ring.capacity
      → let l = listen es new_listener in
        let l' : EventListener = record l { buffer_max_idx = ring.capacity - 1 } in
        let newest = drop (length es - ring.capacity) es in
        read_events idx_read l ≡ some (l', (newest, length newest))
  read_events-newest es idx_read room =
      read_events-IsTail es idx_read (listen es new_listener) room (new_listener-IsTail es)
