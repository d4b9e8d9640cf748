-- ===== src/Control/Handling.antt =====
-- The calls of the control layer's commands come to an end.
use dls.Common.{
  ℕ, ◌≡◌, ◌≢◌, ◌<◌, refl, Bool, true, false, none, some, List, [], ◌∷◌, Text, text_eq, nat_eq,
  arith, Option-cases, inl, inr,
}
use dls.Common.Map.{find, erase}
use dls.Registry.Ending.{IsLong}
use dls.Control.Layer.{
  ControlLayer, unload_motion_generator_data, unload_controller, unload_motion_generator, Request,
  load_generator, unload_generator, load, load_python, load_external, unload, unload_external,
  transitions, answer, settle, handle, handle_all, name_of,
}
use dls.Control.Answers.{IsNamed, IsLevelled, IsAnswered}
use dls.Control.Levels.{IsOther, AllOther, answer-IsAnswered, handle-IsLevelled}
use dls.Control.Ending.{unload_data_ends}

-- the polls of a call sleep for the period at least, and reach the two seconds of its wait
abbrev pub IsLongRequest : ℕ → Request → Type 0
IsLongRequest period (load_generator pid name) = Unit
IsLongRequest period (unload_generator polls name) = IsLong period polls
IsLongRequest period (load pid name) = Unit
IsLongRequest period (load_python pid name) = Unit
IsLongRequest period (load_external name) = Unit
IsLongRequest period (unload polls name) = IsLong period polls
IsLongRequest period (unload_external name) = Unit

abbrev pub AllLong : ℕ → List Request → Type 0
AllLong period [] = Unit
AllLong period (r ∷ rs) = IsLongRequest period r × AllLong period rs

unload_controller_ends :
    (cmds : List (Text × Text)) (polls : List (Bool × ℕ)) (name : Text) (s : ControlLayer)
    (period : ℕ)
    → 0 < period
    → IsLong period polls
    → IsNamed s.controllers
    → IsOther name s
    → unload_controller cmds polls name s ≢ none
unfolding unload_controller
unload_controller_ends cmds polls name s period pos long named (ne, other) =
    elim (Option-cases (find name s.controllers)) [
      | inl absent ↦ ground arith
      | inr (d, there) ↦
          let id = named name d there in
          let erased = record s { controllers = erase name s.controllers } in
          let ends =
            unload_data_ends cmds polls d erased period pos (rw id ne) (rw id other) long in
          ground (arith, there, ends)
    ]

unload_generator_ends :
    (cmds : List (Text × Text)) (polls : List (Bool × ℕ)) (name : Text) (s : ControlLayer)
    (period : ℕ)
    → 0 < period
    → IsLong period polls
    → IsNamed s.motion_generators
    → IsOther name s
    → unload_motion_generator cmds polls name s ≢ none
unfolding unload_motion_generator unload_motion_generator_data
unload_generator_ends cmds polls name s period pos long named (ne, other) =
    elim (Option-cases (find name s.motion_generators)) [
      | inl absent ↦ ground arith
      | inr (d, there) ↦
          let id = named name d there in
          let erased = record s { motion_generators = erase name s.motion_generators } in
          let ends =
            unload_data_ends cmds polls d erased period pos (rw id ne) (rw id other) long in
          ground (arith, there, ends)
    ]

answer-defined :
    (dir : Text) (cmds : List (Text × Text)) (r : Request) (s : ControlLayer) (period : ℕ)
    → 0 < period
    → IsLongRequest period r
    → IsLevelled s
    → IsOther (name_of r) s
    → answer dir cmds r s ≢ none
unfolding answer
answer-defined dir cmds (load_generator pid name) s period pos long ok other = ground arith
answer-defined dir cmds (unload_generator polls name) s period pos long ok other =
    ground
      (arith, unload_generator_ends cmds polls name s period pos long ok.named_generators other)
answer-defined dir cmds (load pid name) s period pos long ok other = ground arith
answer-defined dir cmds (load_python pid name) s period pos long ok other = ground arith
answer-defined dir cmds (load_external name) s period pos long ok other = ground arith
answer-defined dir cmds (unload polls name) s period pos long ok other =
    ground
      (arith, unload_controller_ends cmds polls name s period pos long ok.named_controllers other)
answer-defined dir cmds (unload_external name) s period pos long ok other = ground arith

settle-defined :
    (r : Request) (s t : ControlLayer) (done : Bool)
    → IsLevelled s
    → IsAnswered r s t done
    → settle (transitions r) (t, done) ≢ none
unfolding settle
settle-defined r s t false ok is = ground arith
settle-defined r s t true ok is = ground (arith, is.same_level, ok.level, is.moved refl)

handle-defined :
    (dir : Text) (cmds : List (Text × Text)) (r : Request) (s : ControlLayer) (period : ℕ)
    → 0 < period
    → IsLongRequest period r
    → IsLevelled s
    → IsOther (name_of r) s
    → handle dir cmds r s ≢ none
unfolding handle
handle-defined dir cmds r s period pos long ok other = elim (Option-cases (answer dir cmds r s)) [
  | inl waits ↦ absurd (answer-defined dir cmds r s period pos long ok other waits)
  | inr ((t, done), over) ↦
      let is = answer-IsAnswered dir cmds r s t done ok other over in
      ground (arith, over, settle-defined r s t done ok is)
]

-- Where the level is 1 with motion generators, 2 with controllers, 3 with both and 0 with neither,
-- and the entries of both maps have their keys' names, any sequence of commands ends, loads and
-- unloads, answered or refused, and the same holds after it; if the names are neither empty nor
-- that of the layer, and the polls of each wait sleep for the period at least and reach two seconds.
pub handle_all_ends :
    (dir : Text) (cmds : List (Text × Text)) (rs : List Request) (s : ControlLayer) (period : ℕ)
    → 0 < period
    → AllLong period rs
    → IsLevelled s
    → AllOther s.command_manager.owner rs
    → (s' : ControlLayer) × (handle_all dir cmds rs s ≡ some s') × IsLevelled s'
unfolding handle_all
handle_all_ends dir cmds [] s period pos long ok others = (s, refl, ok)
handle_all_ends dir cmds (r ∷ rs) s period pos (long, longs) ok (other, others) =
    elim (Option-cases (handle dir cmds r s)) [
      | inl waits ↦ absurd (handle-defined dir cmds r s period pos long ok other waits)
      | inr (t, over) ↦
          let (ok', owner) = handle-IsLevelled dir cmds r s t ok other over in
          let (u, rest, last) =
            handle_all_ends dir cmds rs t period pos longs ok' (rw owner others) in
          (u, ground (arith, over, rest), last)
    ]
