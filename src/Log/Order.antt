-- ===== src/Log/Order.antt =====
-- CompareEvents of event_logger.hpp, and the priority queue that it orders. The queue is the list of
-- its elements from the top; where elements compare equal, std::priority_queue leaves their order open.
use dls.Common.{
  ◌+◌, ◌≡◌, refl, Bool, true, false, not, List, [], ◌∷◌, nat_eq, if◌then◌else◌, ltb, length, arith,
  Bool-cases, inl, inr, ◌==◌, suc,
}
use dls.Log.{EventLog}

-- operator()(event_a, event_b): whether event_a has the lower priority
unfoldable pub compare_events : EventLog → EventLog → Bool
compare_events a b =
    if not (a.severity == b.severity)
    then ltb a.severity b.severity
    else if not (a.event_id == b.event_id)
    then ltb a.event_id b.event_id
    else ltb a.timestamp b.timestamp

-- push(event)
unfoldable pub push : EventLog → List EventLog → List EventLog
unfolding compare_events
push e [] = e ∷ []
push e (x ∷ xs) = let rest = push e xs in if compare_events e x then x ∷ rest else e ∷ x ∷ xs

-- for(const auto& event : events) queue.push(event)
unfoldable pub push_all : List EventLog → List EventLog → List EventLog
unfolding push
push_all [] q = q
push_all (e ∷ es) q = push_all es (push e q)

-- The element before never has the lower priority.
abbrev pub AtMost : EventLog → List EventLog → Type 0
AtMost a [] = Unit
AtMost a (x ∷ xs) = (compare_events a x ≡ false) × AtMost a xs

abbrev pub Ordered : List EventLog → Type 0
Ordered [] = Unit
Ordered (x ∷ xs) = AtMost x xs × Ordered xs

pub compare_events_trans :
    (a b c : EventLog)
    → compare_events a b ≡ false
    → compare_events b c ≡ false
    → compare_events a c ≡ false
unfolding compare_events
compare_events_trans a b c p q = ground arith

pub compare_events-asym : (a b : EventLog) → compare_events a b ≡ true → compare_events b a ≡ false
unfolding compare_events
compare_events-asym a b h = ground arith

AtMost-trans :
    (a b : EventLog) (xs : List EventLog) → compare_events a b ≡ false → AtMost b xs → AtMost a xs
AtMost-trans a b [] h bound = tt
AtMost-trans a b (x ∷ xs) h (first, rest) =
    (compare_events_trans a b x h first, AtMost-trans a b xs h rest)

AtMost-push :
    (a e : EventLog) (xs : List EventLog)
    → compare_events a e ≡ false
    → AtMost a xs
    → AtMost a (push e xs)
unfolding push
AtMost-push a e [] h bound = (h, tt)
AtMost-push a e (x ∷ xs) h (first, rest) = ground (arith, AtMost-push a e xs h rest)

pub push-Ordered : (e : EventLog) (q : List EventLog) → Ordered q → Ordered (push e q)
unfolding push
push-Ordered e [] ordered = (tt, tt)
push-Ordered e (x ∷ xs) (bound, ordered) = elim (Bool-cases (compare_events e x)) [
  | inl lower ↦
      ground
        (arith, push-Ordered e xs ordered, AtMost-push x e xs (compare_events-asym e x lower) bound)
  | inr higher ↦ ground (arith, AtMost-trans e x xs higher bound)
]

pub push_all-Ordered : (es q : List EventLog) → Ordered q → Ordered (push_all es q)
unfolding push_all
push_all-Ordered [] q ordered = ordered
push_all-Ordered (e ∷ es) q ordered = push_all-Ordered es (push e q) (push-Ordered e q ordered)

length-push : (e : EventLog) (q : List EventLog) → length (push e q) ≡ suc (length q)
unfolding push
length-push e [] = refl
length-push e (x ∷ xs) = ground (arith, length-push e xs)

pub length-push_all : (es q : List EventLog) → length (push_all es q) ≡ length es + length q
unfolding push_all
length-push_all [] q = ground arith
length-push_all (e ∷ es) q = ground (arith, length-push_all es (push e q), length-push e q)
