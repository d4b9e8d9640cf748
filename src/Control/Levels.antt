-- ===== src/Control/Levels.antt =====
-- The level of the control layer tells which of its maps are empty.
use dls.Common.{
  ◌≡◌, ◌≢◌, refl, sym, ◌∙◌, Bool, true, false, ◌&&◌, none, some, List, [], ◌∷◌, Text, codes,
  text_eq, nat_eq, arith, Option-cases, Bool-cases, inl, inr,
}
use dls.Common.Map.{find, contains, emplace}
use dls.CommandManager.{change_level}
use dls.Control.Layer.{
  ControlLayer, launch, add_controller, load_controller, load_external_controller,
  load_python_controller, load_motion_generator, unload_controller, unload_external_controller,
  unload_motion_generator, is_empty, Request, load_generator, unload_generator, load, load_python,
  load_external, unload, unload_external, transitions, answer, settle, handle, handle_all, name_of,
}
use dls.Control.Answers.{
  level_of, IsLevelled, IsAnswered, loaded_generator-IsAnswered, loaded_controller-IsAnswered,
  level-change_level,
}
use dls.Control.Settled.{
  settled, load_generator-settles, load_controller-settles, load_python-settles,
  load_external-settles, unload-IsAnswered, unload_generator-IsAnswered, unload_external-IsAnswered,
}

abbrev pub IsOther : Text → ControlLayer → Type 0
IsOther name s = (name ≢ []) × (name ≢ s.command_manager.owner)

pub answer-IsAnswered :
    (dir : Text) (cmds : List (Text × Text)) (r : Request) (s s' : ControlLayer) (done : Bool)
    → IsLevelled s
    → IsOther (name_of r) s
    → answer dir cmds r s ≡ some (s', done)
    → IsAnswered r s s' done
unfolding answer transitions
answer-IsAnswered dir cmds (load_generator pid name) s s' done ok other h =
    let process = some (launch dir pid (codes "motion_generator") name s.robot_name) in
    let t = record s {
      motion_generators = emplace name (record { id = name; proc = process }) s.motion_generators;
    } in
    settled (load_generator pid name) s s' t done (load_motion_generator dir pid name s) h ok
      (elim (load_generator-settles dir pid name s) [
        | inl e ↦ inl e
        | inr (new, e) ↦
            inr
              (e, loaded_generator-IsAnswered (load_generator pid name) name process s refl new ok)
      ])
answer-IsAnswered dir cmds (load pid name) s s' done ok other h =
    let process = some (launch dir pid (codes "controller") name s.robot_name) in
    settled (load pid name) s s' (add_controller process name s) done
      (load_controller dir pid name s) h ok
      (elim (load_controller-settles dir pid name s) [
        | inl e ↦ inl e
        | inr (new, e) ↦
            inr (e, loaded_controller-IsAnswered (load pid name) name process s refl new ok)
      ])
answer-IsAnswered dir cmds (load_python pid name) s s' done ok other h =
    let process = some (launch dir pid (codes "python_periodic_app") name s.robot_name) in
    settled (load_python pid name) s s' (add_controller process name s) done
      (load_python_controller dir pid name s) h ok
      (elim (load_python-settles dir pid name s) [
        | inl e ↦ inl e
        | inr (new, e) ↦
            inr (e, loaded_controller-IsAnswered (load_python pid name) name process s refl new ok)
      ])
answer-IsAnswered dir cmds (load_external name) s s' done ok other h =
    settled (load_external name) s s' (add_controller none name s) done
      (load_external_controller name s) h ok
      (elim (load_external-settles name s) [
        | inl e ↦ inl e
        | inr (new, e) ↦
            inr (e, loaded_controller-IsAnswered (load_external name) name none s refl new ok)
      ])
answer-IsAnswered dir cmds (unload_external name) s s' done ok other h =
    let p = unload_external_controller name s in
    let same : s' ≡ p.0 = ground arith in
    let last : done ≡ (p.1 && is_empty p.0.controllers) = ground arith in
    rw (same, last) (unload_external-IsAnswered name s ok)
answer-IsAnswered dir cmds (unload polls name) s s' done ok other h =
    elim (Option-cases (unload_controller cmds polls name s)) [
      | inl waits ↦ absurd (ground arith)
      | inr ((t, unloaded), over) ↦
          let same : s' ≡ t = ground arith in
          let last : done ≡ (unloaded && is_empty t.controllers) = ground arith in
          rw (same, last) (unload-IsAnswered cmds polls name s t unloaded ok other.0 other.1 over)
    ]
answer-IsAnswered dir cmds (unload_generator polls name) s s' done ok other h =
    elim (Option-cases (unload_motion_generator cmds polls name s)) [
      | inl waits ↦ absurd (ground arith)
      | inr ((t, unloaded), over) ↦
          let same : s' ≡ t = ground arith in
          let last : done ≡ (unloaded && is_empty t.motion_generators) = ground arith in
          rw (same, last)
            (unload_generator-IsAnswered cmds polls name s t unloaded ok other.0 other.1 over)
    ]

settle-IsLevelled :
    (r : Request) (s t s' : ControlLayer) (done : Bool)
    → IsLevelled s
    → IsAnswered r s t done
    → settle (transitions r) (t, done) ≡ some s'
    → IsLevelled s' × (s'.command_manager.owner ≡ s.command_manager.owner)
settle-IsLevelled r s t s' false ok is h =
    let same : s' ≡ t = unfold settle in ground arith in
    rw same (
      record {
        level = is.same_level ∙ ok.level ∙ sym (is.stayed refl);
        named_controllers = is.named_controllers;
        named_generators = is.named_generators;
      },
      is.same_owner,
    )
settle-IsLevelled r s t s' true ok is h =
    let at : t.command_manager.level ≡ level_of s = is.same_level ∙ ok.level in
    let next : find t.command_manager.level (transitions r) ≡ some (level_of t) =
      rw at (is.moved refl) in
    let set = level-change_level (level_of t) t.command_manager in
    let same : s' ≡ record t { command_manager = change_level (level_of t) t.command_manager } =
      unfold settle in ground (arith, next) in
    rw same (
      record {
        level = set.0;
        named_controllers = is.named_controllers;
        named_generators = is.named_generators;
      },
      set.1 ∙ is.same_owner,
    )

pub handle-IsLevelled :
    (dir : Text) (cmds : List (Text × Text)) (r : Request) (s s' : ControlLayer)
    → IsLevelled s
    → IsOther (name_of r) s
    → handle dir cmds r s ≡ some s'
    → IsLevelled s' × (s'.command_manager.owner ≡ s.command_manager.owner)
handle-IsLevelled dir cmds r s s' ok other h =
    elim (Bool-cases (contains s.command_manager.level (transitions r))) [
      | inl offered ↦ elim (Option-cases (answer dir cmds r s)) [
        | inl waits ↦ absurd (unfold handle in ground arith)
        | inr ((t, done), over) ↦
            settle-IsLevelled r s t s' done ok (answer-IsAnswered dir cmds r s t done ok other over)
              (unfold handle in ground arith)
      ]
      | inr hidden ↦ let same : s' ≡ s = unfold handle in ground arith in rw same (ok, refl)
    ]

-- the names in requests are not empty, and not the layer's own
abbrev pub AllOther : Text → List Request → Type 0
AllOther owner [] = Unit
AllOther owner (r ∷ rs) = ((name_of r ≢ []) × (name_of r ≢ owner)) × AllOther owner rs

-- Where the level is 1 with motion generators, 2 with controllers, 3 with both and 0 with neither,
-- and the entries of both maps have their keys' names, the same holds after any sequence of
-- commands that is over, loads and unloads, answered or refused, whose names are neither empty nor
-- that of the layer.
pub handle_all-IsLevelled :
    (dir : Text) (cmds : List (Text × Text)) (rs : List Request) (s s' : ControlLayer)
    → IsLevelled s
    → AllOther s.command_manager.owner rs
    → handle_all dir cmds rs s ≡ some s'
    → IsLevelled s'
unfolding handle_all
handle_all-IsLevelled dir cmds [] s s' ok other h = let same : s' ≡ s = ground arith in rw same ok
handle_all-IsLevelled dir cmds (r ∷ rs) s s' ok (other, others) h =
    elim (Option-cases (handle dir cmds r s)) [
      | inl waits ↦ absurd (ground arith)
      | inr (t, over) ↦
          let (ok', owner) = handle-IsLevelled dir cmds r s t ok other over in
          handle_all-IsLevelled dir cmds rs t s' ok' (rw owner others) (ground arith)
    ]
