-- ===== src/Log/Telemetry.antt =====
-- The telemetry thread of modules/supervisor/src/orchestrator_base.cpp. A round's readers and writers are
-- what the code asks of them, its queue is the copy that it takes, and its output is what it calls:
-- the readers that are read, what telemetryMain gets, and the writers that publish, by their indices.
use dls.Common.{
  ℕ, zero, suc, ◌≤◌, ◌≡◌, refl, Bool, true, false, not, Option, none, some, List, [], ◌∷◌,
  if◌then◌else◌, length, arith, Bool-cases, inl, inr,
}
use dls.Log.{EventLog}
use dls.Log.Orchestrator.{events_to_publish}

-- a pointer that may be null, and whether its reader receives data
unfoldable pub read_readers : ℕ → List (Option Bool) → List ℕ
read_readers i [] = []
read_readers i (none ∷ readers) = read_readers (suc i) readers
read_readers i (some is_receiving_data ∷ readers) =
    let rest = read_readers (suc i) readers in if is_receiving_data then i ∷ rest else rest

-- a pointer that may be null
unfoldable pub publish_writers : ℕ → List Bool → List ℕ
publish_writers i [] = []
publish_writers i (there ∷ writers) =
    let rest = publish_writers (suc i) writers in if there then i ∷ rest else rest

pub record TelemetryRound : Type 0 where
  pub should_quit : Bool
  pub readers : List (Option Bool)
  pub queue : List EventLog
  pub writers : List Bool

pub record TelemetryCalls : Type 0 where
  pub read : List ℕ
  pub events_to_publish : List EventLog
  pub published : List ℕ

-- a round of telemetryCallback(), with event_to_publish_
unfoldable pub telemetry_round : ℕ → TelemetryRound → TelemetryCalls
unfolding read_readers events_to_publish publish_writers
telemetry_round event_to_publish r = record {
  read = read_readers 0 r.readers;
  events_to_publish = events_to_publish event_to_publish r.queue;
  published = publish_writers 0 r.writers;
}

-- telemetryCallback(), over the rounds given
unfoldable pub telemetry_callback : ℕ → List TelemetryRound → List TelemetryCalls
unfolding telemetry_round
telemetry_callback event_to_publish [] = []
telemetry_callback event_to_publish (r ∷ rs) =
    let rest = telemetry_callback event_to_publish rs in
    if r.should_quit then [] else telemetry_round event_to_publish r ∷ rest

-- activation(), before App::activation(): whether the telemetry has started, and whether it starts now
unfoldable pub start_telemetry : Bool → Bool × Bool
start_telemetry telemetry_started = (true, not telemetry_started)

-- activations one after another: how many threads they start
unfoldable pub started_threads : Bool → ℕ → ℕ
unfolding start_telemetry
started_threads telemetry_started zero = 0
started_threads telemetry_started (suc n) =
    let (started, starts) = start_telemetry telemetry_started in
    let rest = started_threads started n in if starts then suc rest else rest

started_threads_again : (n : ℕ) → started_threads true n ≡ 0
unfolding started_threads
started_threads_again zero = refl
started_threads_again (suc n) = ground (arith, started_threads_again n)

-- However often an orchestrator is activated, one thread at most is started.
started_threads_once : (n : ℕ) → started_threads false n ≤ 1
unfolding started_threads
started_threads_once zero = omega arith
started_threads_once (suc n) = ground (arith, started_threads_again n)

length-events_to_publish : (n : ℕ) (q : List EventLog) → length (events_to_publish n q) ≤ n
unfolding events_to_publish
length-events_to_publish zero q = omega arith
length-events_to_publish (suc n) [] = omega arith
length-events_to_publish (suc n) (e ∷ q) = omega (arith, length-events_to_publish n q)

-- No list of events is longer than event_to_publish_.
abbrev pub AllBounded : ℕ → List TelemetryCalls → Type 0
AllBounded bound [] = Unit
AllBounded bound (c ∷ cs) = (length c.events_to_publish ≤ bound) × AllBounded bound cs

-- In each round of the thread telemetryMain gets event_to_publish_ events at most.
telemetry_callback-AllBounded :
    (bound : ℕ) (rs : List TelemetryRound) → AllBounded bound (telemetry_callback bound rs)
unfolding telemetry_callback
telemetry_callback-AllBounded bound [] = tt
telemetry_callback-AllBounded bound (r ∷ rs) = elim (Bool-cases r.should_quit) [
  | inl quit ↦ rw quit tt
  | inr stay ↦ rw stay (
    unfold telemetry_round in length-events_to_publish bound r.queue,
    telemetry_callback-AllBounded bound rs,
  )
]
