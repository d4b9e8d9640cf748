-- ===== src/Services/Closing.antt =====
-- The loads and unloads of a service layer, one map at a time, and what its close does.
use dls.Common.{
  ℕ, ◌≡◌, ◌≢◌, ◌↔◌, refl, Bool, true, not, none, some, List, [], ◌∷◌, map, if◌then◌else◌, Text,
  codes, text_eq, arith, Option-cases, inl, inr,
}
use dls.Common.Map.{find, erase, find-erase_self}
use dls.CommandManager.Calls.{call_command}
use dls.Waiting.{wait}
use dls.Registry.{AppData, exit_poll, keys_of}
use dls.Services.{
  ServiceLayer, Part, service, data_visualizer, generic, part_of, with_part, unload_part,
  close_keys, close,
}

part_of-with_part :
    (part : Part) (m : List (Text × AppData)) (s : ServiceLayer)
    → part_of part (with_part part m s) ≡ m
part_of-with_part service m s = refl
part_of-with_part data_visualizer m s = refl
part_of-with_part generic m s = refl

unload_part-forgets :
    (part : Part) (cmds : List (Text × Text)) (polls : List (Bool × ℕ)) (id : Text)
    (s s' : ServiceLayer) (done : Bool)
    → unload_part part cmds polls id s ≡ some (s', done)
    → find id (part_of part s') ≡ none
unfolding unload_part
unload_part-forgets part cmds polls id s s' done h =
    elim (Option-cases (find id (part_of part s))) [
      | inl missing ↦ ground (arith, h, missing)
      | inr (d, held) ↦
          elim (Option-cases (call_command (codes "shutdown") [] id cmds s.command_manager)) [
            | inl undefined ↦ ground (arith, h, held, undefined)
            | inr ((m, count), called) ↦ elim (Option-cases d.proc) [
              | inl no_process ↦ ground (arith, h, held, called, no_process)
              | inr (process, runs) ↦ elim (Option-cases (wait not 2000 (map exit_poll polls))) [
                | inl waiting ↦ ground (arith, h, held, called, runs, waiting)
                | inr (exited, over) ↦
                    let t : ServiceLayer = record s {
                      command_manager = m;
                      killed = if exited then s.killed else process.pid ∷ s.killed;
                    } in
                    let res : ServiceLayer × Bool =
                      (with_part part (erase id (part_of part s)) t, true) in
                    let end : unload_part part cmds polls id s ≡ some res =
                      rw (unload_part, held, called, runs, over) refl in
                    ground (
                      arith,
                      h,
                      end,
                      part_of-with_part part (erase id (part_of part s)) t,
                      find-erase_self id (part_of part s),
                    )
              ]
            ]
          ]
    ]

-- A loop of close() that has a key to unload never gets past it.
close_keys_undefined :
    (part : Part) (cmds : List (Text × Text)) (polls : Text → List (Bool × ℕ)) (key : Text)
    (keys : List Text) (s : ServiceLayer)
    → close_keys part cmds polls (key ∷ keys) s ≡ none
unfolding close_keys
close_keys_undefined part cmds polls key keys s =
    elim (Option-cases (unload_part part cmds (polls key) key s)) [
      | inl undefined ↦ ground (arith, undefined)
      | inr ((s', done), unloaded) ↦
          let gone = unload_part-forgets part cmds (polls key) key s s' done unloaded in
          ground (arith, unloaded, gone)
    ]

close_keys_empty :
    (part : Part) (cmds : List (Text × Text)) (polls : Text → List (Bool × ℕ))
    (m : List (Text × AppData)) (s : ServiceLayer)
    → close_keys part cmds polls (keys_of m) s ≢ none
    → m ≡ []
unfolding keys_of
close_keys_empty part cmds polls [] s works = refl
close_keys_empty part cmds polls ((key, d) ∷ m) s works =
    absurd (works (close_keys_undefined part cmds polls key (keys_of m) s))

-- close() of a service layer is defined exactly where the layer has nothing loaded, and that is
-- exactly where it returns the layer unchanged: where there is something to close, the loop unloads
-- it under its own iterator.
pub close_defined :
    (cmds : List (Text × Text)) (polls : Text → List (Bool × ℕ)) (s : ServiceLayer)
    → ((close cmds polls s ≢ none)
        ↔ ((s.services ≡ []) × (s.data_visualizers ≡ []) × (s.generics ≡ [])))
      × ((close cmds polls s ≡ some s)
          ↔ ((s.services ≡ []) × (s.data_visualizers ≡ []) × (s.generics ≡ [])))
unfolding close
close_defined cmds polls s =
    let onward : close cmds polls s ≢ none
        → (s.services ≡ []) × (s.data_visualizers ≡ []) × (s.generics ≡ []) =
      λ works.
        let a =
          close_keys_empty service cmds polls s.services s (λ e. works (rw (close, e) refl)) in
        let first : close_keys service cmds polls (keys_of s.services) s ≡ some s =
          rw a (unfold keys_of close_keys in refl) in
        let b =
          close_keys_empty data_visualizer cmds polls s.data_visualizers s
            (λ e. works (rw (close, first, e) refl)) in
        let second : close_keys data_visualizer cmds polls (keys_of s.data_visualizers) s ≡ some s =
          rw b (unfold keys_of close_keys in refl) in
        let c =
          close_keys_empty generic cmds polls s.generics s
            (λ e. works (rw (close, first, second, e) refl)) in
        (a, b, c) in
    let unchanged : (s.services ≡ []) × (s.data_visualizers ≡ []) × (s.generics ≡ [])
        → close cmds polls s ≡ some s =
      λ (a, b, c).
        let first : close_keys service cmds polls (keys_of s.services) s ≡ some s =
          rw a (unfold keys_of close_keys in refl) in
        let second : close_keys data_visualizer cmds polls (keys_of s.data_visualizers) s ≡ some s =
          rw b (unfold keys_of close_keys in refl) in
        let third : close_keys generic cmds polls (keys_of s.generics) s ≡ some s =
          rw c (unfold keys_of close_keys in refl) in
        rw (close, first, second, third) refl in
    (
      (onward, λ empty undefined. let works = unchanged empty in ground arith),
      (λ works. onward (λ undefined. ground arith), unchanged),
    )
