-- ===== src/Registry/Ending.antt =====
-- EstimationLayer::close comes to an end.
use dls.Common.{
  ℕ, ◌*◌, ◌≡◌, ◌≢◌, ◌≤◌, ◌<◌, refl, Bool, not, none, some, List, [], ◌∷◌, map, length, Text, codes,
  text_eq, arith, Option-cases, inl, inr,
}
use dls.Common.Map.{find}
use dls.CommandManager.Foreign.{call_command-defined}
use dls.Waiting.{Paced, wait_ends}
use dls.Registry.{Layer, exit_poll, unload, unload_estimator, keys_of, unload_keys, close}
use dls.Registry.Laws.{IsRegistry}
use dls.Registry.Requests.{IsForeign, unload-cases}
use dls.Registry.Closing.{unload_forgets, close_empties}

-- The polls sleep for the period at least, and reach the two seconds of the wait.
abbrev pub IsLong : ℕ → List (Bool × ℕ) → Type 0
IsLong period polls =
    Paced not 2000 period 0 (map exit_poll polls) × (2000 ≤ length (map exit_poll polls) * period)

pub unload_ends :
    (cmds : List (Text × Text)) (polls : List (Bool × ℕ)) (name : Text) (s : Layer) (period : ℕ)
    → 0 < period
    → IsRegistry s
    → IsForeign name s.command_manager
    → IsLong period polls
    → unload cmds polls name s ≢ none
unfolding unload
unload_ends cmds polls name s period pos ok (ne, other) (paced, long) =
    elim (Option-cases (find name s.plugins)) [
      | inl absent ↦ ground arith
      | inr (d, there) ↦
          let id = ok.named name d there in
          let defined =
            call_command-defined (codes "shutdown") d.id cmds s.command_manager (rw id ne)
              (rw id other) in
          let over = wait_ends not 2000 period (map exit_poll polls) pos paced long in
          ground (arith, ok.started name d there, defined, over)
    ]

-- the keys are not empty, and not the layer's own name
abbrev pub AllForeignKeys : Text → List Text → Type 0
AllForeignKeys owner [] = Unit
AllForeignKeys owner (key ∷ keys) = ((key ≢ []) × (key ≢ owner)) × AllForeignKeys owner keys

unload-owner :
    (cmds : List (Text × Text)) (polls : List (Bool × ℕ)) (name : Text) (s s' : Layer) (done : Bool)
    → IsRegistry s
    → IsForeign name s.command_manager
    → unload cmds polls name s ≡ some (s', done)
    → s'.command_manager.owner ≡ s.command_manager.owner
unload-owner cmds polls name s s' done ok foreign h =
    elim (unload-cases cmds polls name s s' done ok.named foreign h) [
      | inl (same, no_) ↦ rw same refl
      | inr (yes_, erased, full, level, owner) ↦ owner
    ]

unload_keys-ends :
    (cmds : List (Text × Text)) (polls : Text → List (Bool × ℕ)) (keys : List Text) (s : Layer)
    (period : ℕ)
    → 0 < period
    → IsRegistry s
    → AllForeignKeys s.command_manager.owner keys
    → ((name : Text) → IsLong period (polls name))
    → unload_keys cmds polls keys s ≢ none
unfolding unload_keys unload_estimator
unload_keys-ends cmds polls [] s period pos ok foreign long = ground arith
unload_keys-ends cmds polls (key ∷ keys) s period pos ok (foreign, others) long =
    elim (Option-cases (unload cmds (polls key) key s)) [
      | inl waits ↦
          absurd (unload_ends cmds (polls key) key s period pos ok foreign (long key) waits)
      | inr ((t, done), over) ↦
          let same = unload-owner cmds (polls key) key s t done ok foreign over in
          let ok' = (unload_forgets cmds (polls key) key s t done ok over).0 in
          let rest = unload_keys-ends cmds polls keys t period pos ok' (rw same others) long in
          ground (arith, over, rest)
    ]

-- close of a well-formed estimation layer ends, and leaves no process in the map, if the names of its
-- plugins are neither empty nor its own, and the polls of each wait sleep for the period at least
-- and reach two seconds.
pub close_ends :
    (cmds : List (Text × Text)) (polls : Text → List (Bool × ℕ)) (s : Layer) (period : ℕ)
    → 0 < period
    → IsRegistry s
    → AllForeignKeys s.command_manager.owner (keys_of s.plugins)
    → ((name : Text) → IsLong period (polls name))
    → (s' : Layer) × (close cmds polls s ≡ some s') × ((name : Text) → find name s'.plugins ≡ none)
close_ends cmds polls s period pos ok foreign long = elim (Option-cases (close cmds polls s)) [
  | inl waits ↦ absurd (
      unload_keys-ends cmds polls (keys_of s.plugins) s period pos ok foreign long
        (unfold close in waits))
  | inr (s', over) ↦ (s', over, λ name. close_empties cmds polls s s' name ok over)
]
