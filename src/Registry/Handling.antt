-- ===== src/Registry/Handling.antt =====
-- The calls of the estimation layer's commands come to an end.
use dls.Common.{
  ℕ, ◌≡◌, ◌≢◌, ◌<◌, refl, ap, sym, ◌∙◌, Bool, true, false, Option, none, some, List, [], ◌∷◌, Text,
  codes, arith, Option-cases, inl, inr, text_eq,
}
use dls.Common.Map.{find}
use dls.Command.{Command, get_next_level, create}
use dls.Registry.{Layer, load, load_estimator, unload, unload_estimator}
use dls.Registry.Laws.{IsRegistry, load-IsRegistry}
use dls.Registry.Closing.{unload_forgets}
use dls.Registry.Ending.{IsLong, unload_ends}
use dls.Registry.Requests.{
  settle_level, perform, perform-cases, perform-defined, IsForeign, unload-cases,
}
use dls.Registry.Estimators.{
  EstimatorRequest, load_request, unload_request, load_command, unload_command, unload_last,
  handle_estimator, handle_estimators, IsEstimation, argument, AllForeign, load_estimator-cases,
  next_load, handle_estimator-IsEstimation,
}

abbrev pub AllLong : ℕ → List EstimatorRequest → Type 0
AllLong period [] = Unit
AllLong period (load_request pid name ∷ rs) = AllLong period rs
AllLong period (unload_request polls name ∷ rs) = IsLong period polls × AllLong period rs

load_level :
    (launcher : Option Text) (pid : ℕ) (name : Text) (s t : Layer)
    → load_estimator launcher pid name s ≡ (t, true)
    → t.command_manager.level ≡ s.command_manager.level
load_level launcher pid name s t over = elim (load_estimator-cases launcher pid name s) [
  | inl refused ↦ absurd (ground (arith, over, refused))
  | inr (process, free, loaded) ↦ ground (arith, over, loaded)
]

load-defined :
    (launcher : Option Text) (pid : ℕ) (name : Text) (s : Layer)
    → IsEstimation s
    → perform load_command (λ t. some (load_estimator launcher pid name t)) s ≢ none
load-defined launcher pid name s ok =
    perform-defined load_command (λ t. some (load_estimator launcher pid name t)) s (ground arith)
      (λ t over gone.
        ground
          (arith, next_load s ok, load_level launcher pid name s t (ground (arith, over)), gone))

unload_last-cases :
    (cmds : List (Text × Text)) (polls : List (Bool × ℕ)) (name : Text) (s t : Layer)
    → IsEstimation s
    → IsForeign name s.command_manager
    → unload_last cmds polls name s ≡ some (t, true)
    → get_next_level unload_command t.command_manager.level ≡ some 0
unload_last-cases cmds polls name s t ok foreign over =
    elim (Option-cases (unload cmds polls name s)) [
      | inl waits ↦ absurd (unfold unload_last unload_estimator in ground (arith, over, waits))
      | inr ((u, unloaded), is) ↦
          elim (unload-cases cmds polls name s u unloaded ok.named foreign is) [
            | inl (same, no_) ↦
                absurd (unfold unload_last unload_estimator in ground (arith, over, is, no_))
            | inr (yes_, erased, full, level, owner) ↦
                let t_is : t ≡ u =
                  unfold unload_last unload_estimator in ground (arith, over, is) in
                let at : u.command_manager.level ≡ 1 = level ∙ ok.level ∙ rw full refl in
                rw (t_is, at) (unfold get_next_level find create in refl)
          ]
    ]

unload-defined :
    (cmds : List (Text × Text)) (polls : List (Bool × ℕ)) (name : Text) (s : Layer) (period : ℕ)
    → 0 < period
    → IsLong period polls
    → IsEstimation s
    → IsRegistry s
    → IsForeign name s.command_manager
    → perform unload_command (unload_last cmds polls name) s ≢ none
unload-defined cmds polls name s period pos long ok reg foreign =
    perform-defined unload_command (unload_last cmds polls name) s
      (unfold unload_last unload_estimator in
        ground (arith, unload_ends cmds polls name s period pos reg foreign long))
      (λ t over gone. ground (arith, unload_last-cases cmds polls name s t ok foreign over, gone))

IsRegistry-same : (s s' : Layer) → s'.plugins ≡ s.plugins → IsRegistry s → IsRegistry s'
IsRegistry-same s s' same ok = record { named = rw same ok.named; started = rw same ok.started }

settle_level-plugins :
    (cmd : Command) (t s' : Layer) (done : Bool)
    → settle_level cmd (t, done) ≡ some s'
    → s'.plugins ≡ t.plugins
unfolding settle_level
settle_level-plugins cmd t s' true h =
    elim (Option-cases (get_next_level cmd t.command_manager.level)) [
      | inl absent ↦ absurd (ground (arith, h, absent))
      | inr (next, there) ↦ ground (arith, h, there)
    ]
settle_level-plugins cmd t s' false h = ground (arith, h)

load_estimator-IsRegistry :
    (launcher : Option Text) (pid : ℕ) (name : Text) (s t : Layer) (done : Bool)
    → IsRegistry s
    → load_estimator launcher pid name s ≡ (t, done)
    → IsRegistry t
unfolding load_estimator
load_estimator-IsRegistry launcher pid name s t done ok over =
    let same : t ≡ (load (codes "estimator") false launcher pid name s).0 =
      ap (λ p. p.0) (sym over) in
    rw same (load-IsRegistry (codes "estimator") false launcher pid name s ok).0

unload_last-IsRegistry :
    (cmds : List (Text × Text)) (polls : List (Bool × ℕ)) (name : Text) (s t : Layer) (done : Bool)
    → IsRegistry s
    → unload_last cmds polls name s ≡ some (t, done)
    → IsRegistry t
unfolding unload_last unload_estimator
unload_last-IsRegistry cmds polls name s t done ok over =
    elim (Option-cases (unload cmds polls name s)) [
      | inl waits ↦ absurd (ground (arith, over, waits))
      | inr ((u, unloaded), is) ↦
          let t_is : t ≡ u = ground (arith, over, is) in
          rw t_is (unload_forgets cmds polls name s u unloaded ok is).0
    ]

handle_estimator-IsRegistry :
    (launcher : Option Text) (cmds : List (Text × Text)) (r : EstimatorRequest) (s s' : Layer)
    → IsRegistry s
    → handle_estimator launcher cmds r s ≡ some s'
    → IsRegistry s'
unfolding handle_estimator
handle_estimator-IsRegistry launcher cmds (load_request pid name) s s' ok h =
    elim (perform-cases load_command (λ t. some (load_estimator launcher pid name t)) s s' h) [
      | inl (same, hidden) ↦ rw same ok
      | inr (t, done, over, settled, shown) ↦
          IsRegistry-same t s' (settle_level-plugins load_command t s' done settled)
            (load_estimator-IsRegistry launcher pid name s t done ok (ground (arith, over)))
    ]
handle_estimator-IsRegistry launcher cmds (unload_request polls name) s s' ok h =
    elim (perform-cases unload_command (unload_last cmds polls name) s s' h) [
      | inl (same, hidden) ↦ rw same ok
      | inr (t, done, over, settled, shown) ↦
          IsRegistry-same t s' (settle_level-plugins unload_command t s' done settled)
            (unload_last-IsRegistry cmds polls name s t done ok over)
    ]

handle_estimator-defined :
    (launcher : Option Text) (cmds : List (Text × Text)) (r : EstimatorRequest)
    (rs : List EstimatorRequest) (s : Layer) (period : ℕ)
    → 0 < period
    → AllLong period (r ∷ rs)
    → IsEstimation s
    → IsRegistry s
    → IsForeign (argument r) s.command_manager
    → (handle_estimator launcher cmds r s ≢ none) × AllLong period rs
unfolding handle_estimator
handle_estimator-defined launcher cmds (load_request pid name) rs s period pos longs ok reg
      foreign =
    (load-defined launcher pid name s ok, longs)
handle_estimator-defined launcher cmds (unload_request polls name) rs s period pos (long, longs) ok
      reg foreign =
    (unload-defined cmds polls name s period pos long ok reg foreign, longs)

-- Where the level of the estimation layer is 1 with estimators and 0 without, and each entry stands
-- under its name with a process, any sequence of calls of its two commands ends, answered, refused
-- or not offered, and the same holds after it; if the arguments are neither empty nor the name of
-- the layer, and the polls of each wait sleep for the period at least and reach two seconds.
pub handle_estimators_ends :
    (launcher : Option Text) (cmds : List (Text × Text)) (rs : List EstimatorRequest) (s : Layer)
    (period : ℕ)
    → 0 < period
    → AllLong period rs
    → IsEstimation s
    → IsRegistry s
    → AllForeign s.command_manager.owner rs
    → (s' : Layer) × (handle_estimators launcher cmds rs s ≡ some s')
      × IsEstimation s'
      × IsRegistry s'
unfolding handle_estimators
handle_estimators_ends launcher cmds [] s period pos long ok reg foreign = (s, refl, ok, reg)
handle_estimators_ends launcher cmds (r ∷ rs) s period pos long ok reg (foreign, others) =
    let (defined, longs) =
      handle_estimator-defined launcher cmds r rs s period pos long ok reg foreign in
    elim (Option-cases (handle_estimator launcher cmds r s)) [
      | inl waits ↦ absurd (defined waits)
      | inr (t, over) ↦
          let (ok', owner) = handle_estimator-IsEstimation launcher cmds r s t ok foreign over in
          let reg' = handle_estimator-IsRegistry launcher cmds r s t reg over in
          let (u, rest, last_ok, last_reg) =
            handle_estimators_ends launcher cmds rs t period pos longs ok' reg' (rw owner others) in
          (u, ground (arith, over, rest), last_ok, last_reg)
    ]
