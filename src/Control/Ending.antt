-- ===== src/Control/Ending.antt =====
-- close() of the control layer comes to an end.
use dls.Common.{
  ℕ, ◌≡◌, ◌≢◌, ◌<◌, refl, ◌∙◌, Bool, true, not, none, some, List, [], ◌∷◌, map, Text, codes, arith,
  Option-cases, inl, inr,
}
use dls.CommandManager.Foreign.{call_command-defined}
use dls.Waiting.{wait_ends}
use dls.Registry.{AppData, exit_poll}
use dls.Registry.Ending.{IsLong}
use dls.Control.Layer.{ControlLayer, unload_controller_data, unload_all, close}
use dls.Control.Kept.{unload_controller_data-IsKept}
use dls.Control.Closed.{AllStopped, close-IsClosed}

pub unload_data_ends :
    (cmds : List (Text × Text)) (polls : List (Bool × ℕ)) (d : AppData) (s : ControlLayer)
    (period : ℕ)
    → 0 < period
    → d.id ≢ []
    → d.id ≢ s.command_manager.owner
    → IsLong period polls
    → unload_controller_data cmds polls d s ≢ none
unfolding unload_controller_data
unload_data_ends cmds polls d s period pos ne other (paced, long) = ground (
  arith,
  call_command-defined (codes "shutdown") d.id cmds s.command_manager ne other,
  wait_ends not 2000 period (map exit_poll polls) pos paced long,
)

-- the names of the entries are not empty, and not the layer's own
abbrev pub AllForeignEntries : Text → List (Text × AppData) → Type 0
AllForeignEntries owner [] = Unit
AllForeignEntries owner ((name, d) ∷ rest) =
    ((d.id ≢ []) × (d.id ≢ owner)) × AllForeignEntries owner rest

unload_all-ends :
    (cmds : List (Text × Text)) (polls : Text → List (Bool × ℕ)) (entries : List (Text × AppData))
    (s : ControlLayer) (period : ℕ)
    → 0 < period
    → AllForeignEntries s.command_manager.owner entries
    → ((name : Text) → IsLong period (polls name))
    → (t : ControlLayer) × (unload_all cmds polls entries s ≡ some t)
      × (t.command_manager.owner ≡ s.command_manager.owner)
unfolding unload_all
unload_all-ends cmds polls [] s period pos foreign long = (s, refl, refl)
unload_all-ends cmds polls ((name, d) ∷ rest) s period pos ((ne, other), others) long =
    elim (Option-cases (unload_controller_data cmds (polls name) d s)) [
      | inl waits ↦
          absurd (unload_data_ends cmds (polls name) d s period pos ne other (long name) waits)
      | inr (t, over) ↦
          let kept = unload_controller_data-IsKept cmds (polls name) d s t ne other over in
          let (u, last, same) =
            unload_all-ends cmds polls rest t period pos (rw kept.owner others) long in
          (u, ground (arith, over, last), same ∙ kept.owner)
    ]

-- close() of the control layer ends, with empty maps and each process seen to have ended or killed,
-- if the names of its entries are neither empty nor its own, and the polls of each wait sleep for
-- the period at least and reach two seconds.
pub control_close_ends :
    (cmds : List (Text × Text)) (polls : Text → List (Bool × ℕ)) (s : ControlLayer) (period : ℕ)
    → 0 < period
    → AllForeignEntries s.command_manager.owner s.motion_generators
    → AllForeignEntries s.command_manager.owner s.controllers
    → ((name : Text) → IsLong period (polls name))
    → (t : ControlLayer) × (close cmds polls s ≡ some t)
      × AllStopped polls t.killed s.motion_generators
      × AllStopped polls t.killed s.controllers
      × (t.motion_generators ≡ [])
      × (t.controllers ≡ [])
control_close_ends cmds polls s period pos generators controllers long =
    let emptied = record s { closing = true; motion_generators = []; controllers = [] } in
    let (t, first, owner) =
      unload_all-ends cmds polls s.motion_generators emptied period pos generators long in
    let (u, last, same) =
      unload_all-ends cmds polls s.controllers t period pos (rw owner controllers) long in
    let closed : close cmds polls s ≡ some u = unfold close in ground (arith, first, last) in
    let (ok, g, c) = close-IsClosed cmds polls s u closed in
    (u, closed, g, c, ok.generators, ok.controllers)
