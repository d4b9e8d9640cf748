-- ===== src/Control/Settled.antt =====
-- Each command of the control layer by itself: what it leaves, and what it answers.
use dls.Common.{
  ℕ, ◌≡◌, ◌≢◌, refl, Bool, true, false, ◌&&◌, none, some, List, [], Text, codes, text_eq, nat_eq,
  arith, Option-cases, Bool-cases, inl, inr, ◌⊎◌,
}
use dls.Common.Map.{find, contains, emplace, erase}
use dls.Control.Layer.{
  ControlLayer, launch, add_controller, load_controller, load_external_controller,
  load_python_controller, load_motion_generator, unload_controller_data,
  unload_motion_generator_data, unload_controller, unload_external_controller,
  unload_motion_generator, is_empty, Request, unload_generator, unload, unload_external,
  transitions,
}
use dls.Control.Kept.{IsKept, unload_controller_data-IsKept}
use dls.Control.Answers.{
  IsLevelled, IsAnswered, contains-none, refused-IsAnswered, unloaded_generator-IsAnswered,
  unloaded_controller-IsAnswered,
}

-- a request that is refused, or that leads from s to t
pub settled :
    (r : Request) (s s' t : ControlLayer) (done : Bool) (p : ControlLayer × Bool)
    → some p ≡ some (s', done)
    → IsLevelled s
    → (p ≡ (s, false)) ⊎ ((p ≡ (t, true)) × IsAnswered r s t true)
    → IsAnswered r s s' done
settled r s s' t done p h ok (inl e) =
    let same : s' ≡ s = ground arith in
    let no_ : done ≡ false = ground arith in rw (same, no_) (refused-IsAnswered r s ok)
settled r s s' t done p h ok (inr (e, is)) =
    let same : s' ≡ t = ground arith in let yes_ : done ≡ true = ground arith in rw (same, yes_) is

pub load_generator-settles :
    (dir : Text) (pid : ℕ) (name : Text) (s : ControlLayer)
    → let p = load_motion_generator dir pid name s in
      (p ≡ (s, false))
      ⊎ ((find name s.motion_generators ≡ none)
          × (p ≡ (
            record s {
              motion_generators =
                  emplace name
                    (record {
                      id = name;
                      proc = some (launch dir pid (codes "motion_generator") name s.robot_name);
                    })
                    s.motion_generators;
            },
            true,
          )))
unfolding load_motion_generator
load_generator-settles dir pid name s = elim (Bool-cases s.closing) [
  | inl closed ↦ inl (ground arith)
  | inr open_ ↦ elim (Bool-cases (contains name s.motion_generators)) [
    | inl old ↦ inl (ground arith)
    | inr new ↦ inr (contains-none name s.motion_generators new, ground arith)
  ]
]

pub load_controller-settles :
    (dir : Text) (pid : ℕ) (name : Text) (s : ControlLayer)
    → let p = load_controller dir pid name s in
      let process = some (launch dir pid (codes "controller") name s.robot_name) in
      (p ≡ (s, false))
      ⊎ ((find name s.controllers ≡ none) × (p ≡ (add_controller process name s, true)))
unfolding load_controller
load_controller-settles dir pid name s = elim (Bool-cases s.closing) [
  | inl closed ↦ inl (ground arith)
  | inr open_ ↦ elim (Bool-cases (contains name s.controllers)) [
    | inl old ↦ inl (ground arith)
    | inr new ↦ inr (contains-none name s.controllers new, ground arith)
  ]
]

pub load_python-settles :
    (dir : Text) (pid : ℕ) (name : Text) (s : ControlLayer)
    → let p = load_python_controller dir pid name s in
      let process = some (launch dir pid (codes "python_periodic_app") name s.robot_name) in
      (p ≡ (s, false))
      ⊎ ((find name s.controllers ≡ none) × (p ≡ (add_controller process name s, true)))
unfolding load_python_controller
load_python-settles dir pid name s = elim (Bool-cases (contains name s.controllers)) [
  | inl old ↦ inl (ground arith)
  | inr new ↦ inr (contains-none name s.controllers new, ground arith)
]

pub load_external-settles :
    (name : Text) (s : ControlLayer)
    → let p = load_external_controller name s in
      (p ≡ (s, false))
      ⊎ ((find name s.controllers ≡ none) × (p ≡ (add_controller none name s, true)))
unfolding load_external_controller
load_external-settles name s = elim (Bool-cases s.closing) [
  | inl closed ↦ inl (ground arith)
  | inr open_ ↦ elim (Bool-cases (contains name s.controllers)) [
    | inl old ↦ inl (ground arith)
    | inr new ↦ inr (contains-none name s.controllers new, ground arith)
  ]
]

pub unload-IsAnswered :
    (cmds : List (Text × Text)) (polls : List (Bool × ℕ)) (name : Text) (s t : ControlLayer)
    (unloaded : Bool)
    → IsLevelled s
    → name ≢ []
    → name ≢ s.command_manager.owner
    → unload_controller cmds polls name s ≡ some (t, unloaded)
    → IsAnswered (unload polls name) s t (unloaded && is_empty t.controllers)
unfolding transitions
unload-IsAnswered cmds polls name s t unloaded ok ne other h =
    elim (Option-cases (find name s.controllers)) [
      | inl absent ↦
          let same : t ≡ s = unfold unload_controller in ground arith in
          let no_ : unloaded ≡ false = unfold unload_controller in ground arith in
          rw (same, no_) (refused-IsAnswered (unload polls name) s ok)
      | inr (d, there) ↦
          let erased = record s { controllers = erase name s.controllers } in
          let id : d.id ≡ name = ok.named_controllers name d there in
          elim (Option-cases (unload_controller_data cmds polls d erased)) [
            | inl waits ↦ absurd (unfold unload_controller in ground arith)
            | inr (u, over) ↦
                let same : t ≡ u = unfold unload_controller in ground arith in
                let yes_ : unloaded ≡ true = unfold unload_controller in ground arith in
                rw (same, yes_)
                  (unloaded_controller-IsAnswered (unload polls name) name d s u refl there ok (
                    unload_controller_data-IsKept cmds polls d erased u (rw id ne) (rw id other)
                      over))
          ]
    ]

pub unload_generator-IsAnswered :
    (cmds : List (Text × Text)) (polls : List (Bool × ℕ)) (name : Text) (s t : ControlLayer)
    (unloaded : Bool)
    → IsLevelled s
    → name ≢ []
    → name ≢ s.command_manager.owner
    → unload_motion_generator cmds polls name s ≡ some (t, unloaded)
    → IsAnswered (unload_generator polls name) s t (unloaded && is_empty t.motion_generators)
unfolding transitions unload_motion_generator_data
unload_generator-IsAnswered cmds polls name s t unloaded ok ne other h =
    elim (Option-cases (find name s.motion_generators)) [
      | inl absent ↦
          let same : t ≡ s = unfold unload_motion_generator in ground arith in
          let no_ : unloaded ≡ false = unfold unload_motion_generator in ground arith in
          rw (same, no_) (refused-IsAnswered (unload_generator polls name) s ok)
      | inr (d, there) ↦
          let erased = record s { motion_generators = erase name s.motion_generators } in
          let id : d.id ≡ name = ok.named_generators name d there in
          elim (Option-cases (unload_motion_generator_data cmds polls d erased)) [
            | inl waits ↦ absurd (unfold unload_motion_generator in ground arith)
            | inr (u, over) ↦
                let same : t ≡ u = unfold unload_motion_generator in ground arith in
                let yes_ : unloaded ≡ true = unfold unload_motion_generator in ground arith in
                rw (same, yes_)
                  (unloaded_generator-IsAnswered (unload_generator polls name) name d s u refl there
                    ok
                    (unload_controller_data-IsKept cmds polls d erased u (rw id ne) (rw id other)
                      over))
          ]
    ]

external-IsKept : (s : ControlLayer) → IsKept s s
external-IsKept s = record {
  controllers = refl;
  generators = refl;
  level = refl;
  owner = refl;
  closing = refl;
}

pub unload_external-IsAnswered :
    (name : Text) (s : ControlLayer)
    → IsLevelled s
    → let p = unload_external_controller name s in
      IsAnswered (unload_external name) s p.0 (p.1 && is_empty p.0.controllers)
unfolding transitions unload_external_controller
unload_external-IsAnswered name s ok = elim (Option-cases (find name s.controllers)) [
  | inl absent ↦
      rw (absent, unload_external_controller) (refused-IsAnswered (unload_external name) s ok)
  | inr (d, there) ↦ elim (Option-cases d.proc) [
    | inl external ↦
        rw (there, external, unload_external_controller)
          (unloaded_controller-IsAnswered (unload_external name) name d s
            (record s { controllers = erase name s.controllers }) refl there ok
            (external-IsKept (record s { controllers = erase name s.controllers })))
    | inr (process, started) ↦
        rw (there, started, unload_external_controller)
          (refused-IsAnswered (unload_external name) s ok)
  ]
]
