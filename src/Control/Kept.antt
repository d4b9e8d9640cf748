-- ===== src/Control/Kept.antt =====
-- What stopping a process of the control layer leaves: its maps, its level and its name.
use dls.Common.{
  ℕ, ◌≡◌, ◌≢◌, refl, Bool, not, some, List, [], map, Text, codes, text_eq, nat_eq, arith,
  Option-cases, inl, inr,
}
use dls.CommandManager.Calls.{call_command}
use dls.CommandManager.Foreign.{call_command-keeps}
use dls.Registry.{AppData, exit_poll}
use dls.Waiting.{wait}
use dls.Control.Layer.{ControlLayer, unload_controller_data}

-- what an unload of an entry that the map has lost leaves
pub record IsKept (s s' : ControlLayer) : Type 0 where
  pub controllers : s'.controllers ≡ s.controllers
  pub generators : s'.motion_generators ≡ s.motion_generators
  pub level : s'.command_manager.level ≡ s.command_manager.level
  pub owner : s'.command_manager.owner ≡ s.command_manager.owner
  pub closing : s'.closing ≡ s.closing

pub unload_controller_data-IsKept :
    (cmds : List (Text × Text)) (polls : List (Bool × ℕ)) (d : AppData) (s s' : ControlLayer)
    → d.id ≢ []
    → d.id ≢ s.command_manager.owner
    → unload_controller_data cmds polls d s ≡ some s'
    → IsKept s s'
unload_controller_data-IsKept cmds polls d s s' ne other h = elim (Option-cases d.proc) [
  | inl external ↦
      let same : s' ≡ s = unfold unload_controller_data in ground arith in
      rw same (record {
        controllers = refl;
        generators = refl;
        level = refl;
        owner = refl;
        closing = refl;
      })
  | inr (process, started) ↦
      elim (Option-cases (call_command (codes "shutdown") [] d.id cmds s.command_manager)) [
        | inl undefined ↦ absurd (unfold unload_controller_data in ground arith)
        | inr ((m, count), called) ↦ elim (Option-cases (wait not 2000 (map exit_poll polls))) [
          | inl waits ↦ absurd (unfold unload_controller_data in ground arith)
          | inr (exited, over) ↦
              let keeps =
                call_command-keeps (codes "shutdown") d.id cmds s.command_manager m count ne other
                  called in
              record {
                controllers = unfold unload_controller_data in ground arith;
                generators = unfold unload_controller_data in ground arith;
                level = unfold unload_controller_data in ground (arith, keeps.0);
                owner = unfold unload_controller_data in ground (arith, keeps.1);
                closing = unfold unload_controller_data in ground arith;
              }
        ]
      ]
]
