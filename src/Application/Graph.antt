-- ===== src/Application/Graph.antt =====
-- Moves along the arrows of the diagram: what nextState and the waits of an activity do.
use dls.Common.{
  ℕ, ◌≡◌, true, false, some, List, [], ◌∷◌, arith, subst, Option-cases, Bool-cases, inl, inr,
  pair_eq,
}
use dls.CommandManager.{◌>>=◌}
use dls.Common.Map.{find}
use dls.StateMachine.{next_state, next_state_async, consume_event, is_raised, any_raised}
use dls.StateMachine.Transitions.{next_state_moves}
use dls.Application.States.{
  AppState, AppEvent, Machine, state_eq, event_eq, app_table, arrow, find-app_table,
}
use dls.Application.Rounds.{wait_asynch_event, wait_ends, SameRun}
use dls.Application.Activities.{App, go, go_async, go_first}

-- The application `b` stands where an arrow leads from the state of `a`, desires that state, and has
-- the transition table of the constructor.
pub record Moved (a b : App) : Type 0 where
  pub event : AppEvent
  pub along : arrow a.sm.state event ≡ some b.sm.state
  pub settled : b.sm.desired_state ≡ some b.sm.state
  pub table : b.sm.transitions ≡ app_table
  pub quit : b.sm.quit ≡ a.sm.quit

abbrev pub HasTable : App → Type 0
HasTable a = a.sm.transitions ≡ app_table

pub entry :
    (ev : AppEvent) (m : Machine) (t : AppState)
    → m.transitions ≡ app_table
    → arrow m.state ev ≡ some t
    → find (m.state, ev) m.transitions ≡ some (some t)
entry ev m t table arr = cc (find-app_table m.state ev, table, arr)

next_state-arrow :
    (ev : AppEvent) (now : ℕ) (m : Machine) (t : AppState)
    → m.transitions ≡ app_table
    → arrow m.state ev ≡ some t
    → let m' = next_state ev now m in
      (m'.state ≡ t)
      × (m'.desired_state ≡ some t)
      × (m'.transitions ≡ app_table)
      × (m'.quit ≡ m.quit)
next_state-arrow ev now m t table arr =
    ground (arith, next_state_moves ev now m t (entry ev m t table arr))

pub go-Moved :
    (ev : AppEvent) (now : ℕ) (a : App) (t : AppState)
    → HasTable a
    → arrow a.sm.state ev ≡ some t
    → Moved a (go ev now a) × ((go ev now a).sm.state ≡ t)
unfolding go
go-Moved ev now a t table arr =
    let moved = next_state-arrow ev now a.sm t table arr in
    (
      record {
        event = ev;
        along = ground arith;
        settled = ground arith;
        table = ground arith;
        quit = ground arith;
      },
      ground arith,
    )

pub go_async-Moved :
    (ev : AppEvent) (now : ℕ) (a : App) (t : AppState)
    → HasTable a
    → arrow a.sm.state ev ≡ some t
    → Moved a (go_async ev now a) × ((go_async ev now a).sm.state ≡ t)
unfolding go_async next_state_async
go_async-Moved ev now a t table arr =
    let moved = next_state-arrow ev now (consume_event ev a.sm) t table arr in
    (
      record {
        event = ev;
        along = ground arith;
        settled = ground arith;
        table = ground arith;
        quit = ground arith;
      },
      ground arith,
    )

-- What an activity does before it moves (enabling commands, waiting) keeps the state, the table and
-- the mark `quit`, and a move from there is a move from the start.
pub SameRun-Moved : {a b c : App} → SameRun a.sm b.sm → Moved b c → Moved a c
SameRun-Moved {a} {b} {c} same moved = record {
  event = moved.event;
  along = ground arith;
  settled = moved.settled;
  table = moved.table;
  quit = ground arith;
}

-- One of the two requests is raised, and both are arrows of the state: the activity moves.
pub go_first-Moved :
    (first second : AppEvent) (now : ℕ) (a : App) (t u : AppState)
    → HasTable a
    → arrow a.sm.state first ≡ some t
    → arrow a.sm.state second ≡ some u
    → any_raised (first ∷ second ∷ []) a.sm ≡ true
    → Moved a (go_first first second now a)
unfolding go_first any_raised
go_first-Moved first second now a t u table one two raised =
    elim (Bool-cases (is_raised first a.sm)) [
      | inl yes_first ↦ rw (yes_first, go_first) (go_async-Moved first now a t table one).0
      | inr no_first ↦
          rw (no_first, second_raised no_first, go_first)
            (go_async-Moved second now a u table two).0
    ]
  where
    second_raised : is_raised first a.sm ≡ false → is_raised second a.sm ≡ true
    second_raised no_first = ground arith

-- A wait for two requests that ends, and the move by the one that is raised.
pub waited-Moved :
    (first second : AppEvent) (rounds : List (List (AppEvent × ℕ))) (now : ℕ) (a b : App)
    (t u : AppState)
    → HasTable a
    → arrow a.sm.state first ≡ some t
    → arrow a.sm.state second ≡ some u
    → (do
      m ← wait_asynch_event (first ∷ second ∷ []) rounds a.sm
      some (go_first first second now (record a { sm = m })))
      ≡ some b
    → Moved a b
waited-Moved first second rounds now a b t u table one two h =
    elim (Option-cases (wait_asynch_event (first ∷ second ∷ []) rounds a.sm)) [
      | inl waiting ↦ ground arith
      | inr (m, over) ↦
          let (same, raised) = wait_ends (first ∷ second ∷ []) rounds a.sm m over in
          subst (Moved a) (result m over) (
            SameRun-Moved {b = record a { sm = m }} same (
              go_first-Moved first second now (record a { sm = m }) t u (ground arith)
                (ground arith) (ground arith) raised))
    ]
  where
    result :
        (m : Machine)
        → wait_asynch_event (first ∷ second ∷ []) rounds a.sm ≡ some m
        → go_first first second now (record a { sm = m }) ≡ b
    result m over = ground arith

pub prepared-Moved : {a a' b : App} → a'.sm ≡ a.sm → Moved a' b → Moved a b
prepared-Moved {a} {a'} {b} same moved = record {
  event = moved.event;
  along = ground arith;
  settled = moved.settled;
  table = moved.table;
  quit = ground arith;
}
