-- ===== src/Registry/Estimators.antt =====
-- modules/core_framework/src/estimation_layer.cpp: the commands of the constructor over the loads and
-- unloads of Registry, and the level that they lead to.
use dls.Common.{
  ℕ, ◌≡◌, ◌≢◌, refl, ◌∙◌, Bool, true, false, ◌&&◌, Option, none, some, List, [], ◌∷◌, length,
  if◌then◌else◌, ◌==◌, nat_eq, Text, codes, text_eq, arith, Option-cases, Bool-cases, inl, inr, ◌⊎◌,
}
use dls.Common.Map.{find, emplace}
use dls.Command.{Command, get_next_level, create}
use dls.CommandManager.{◌>>=◌}
use dls.Control.Answers.{IsNamed, emplace-IsNamed, erase-IsNamed, level-change_level}
use dls.Registry.{AppData, Layer, load, load_estimator, unload_estimator, Process}
use dls.Registry.Requests.{
  offered, settle_level, perform, perform-cases, IsForeign, unload-cases, settle_level-true,
  settle_level-false,
}

-- a call of a command with its argument, and what the system answers meanwhile
pub data EstimatorRequest : Type 0 where
  load_request : ℕ → Text → EstimatorRequest
  unload_request : List (Bool × ℕ) → Text → EstimatorRequest

-- numOfEstimators()
abbrev pub num_of_estimators : Layer → ℕ
num_of_estimators s = length s.plugins

-- the commands that the constructor adds
abbrev pub load_command : Command
load_command = offered (codes "loadEstimator") 1 ((0, 1) ∷ (1, 1) ∷ [])

abbrev pub unload_command : Command
unload_command = offered (codes "unloadEstimator") 1 ((1, 0) ∷ [])

-- the function of "unloadEstimator": true only where no estimator is left
unfoldable pub unload_last :
    List (Text × Text) → List (Bool × ℕ) → Text → Layer → Option (Layer × Bool)
unfolding unload_estimator
unload_last cmds polls name s = do
  (s', unloaded) ← unload_estimator cmds polls name s
  some (s', unloaded && num_of_estimators s' == 0)

unfoldable pub handle_estimator :
    Option Text → List (Text × Text) → EstimatorRequest → Layer → Option Layer
unfolding perform load_estimator unload_last
handle_estimator launcher cmds (load_request pid name) s =
    perform load_command (λ t. some (load_estimator launcher pid name t)) s
handle_estimator launcher cmds (unload_request polls name) s =
    perform unload_command (unload_last cmds polls name) s

unfoldable pub handle_estimators :
    Option Text → List (Text × Text) → List EstimatorRequest → Layer → Option Layer
unfolding handle_estimator
handle_estimators launcher cmds [] s = some s
handle_estimators launcher cmds (r ∷ rs) s = do
  s' ← handle_estimator launcher cmds r s
  handle_estimators launcher cmds rs s'

-- The level is 0 without estimators and 1 with some, and each entry stands under its name.
pub record IsEstimation (s : Layer) : Type 0 where
  pub level : s.command_manager.level ≡ (if num_of_estimators s == 0 then 0 else 1)
  pub named : IsNamed s.plugins

abbrev pub argument : EstimatorRequest → Text
argument (load_request pid name) = name
argument (unload_request polls name) = name

emplace-length :
    (name : Text) (d : AppData) (m : List (Text × AppData))
    → find name m ≡ none
    → (length (emplace name d m) == 0) ≡ false
unfolding emplace find
emplace-length name d [] h = ground arith
emplace-length name d (e ∷ m) h = ground arith

pub load_estimator-cases :
    (launcher : Option Text) (pid : ℕ) (name : Text) (s : Layer)
    → (load_estimator launcher pid name s ≡ (s, false))
      ⊎ ((process : Option Process) × (find name s.plugins ≡ none)
          × (load_estimator launcher pid name s ≡ (
            record s { plugins = emplace name (record { id = name; proc = process }) s.plugins },
            true,
          )))
unfolding load_estimator load
load_estimator-cases none pid name s = inl (ground arith)
load_estimator-cases (some path) pid name s = elim (Option-cases (find name s.plugins)) [
  | inr (d, taken) ↦ inl (ground arith)
  | inl free ↦
      let p : Process = record {
        pid = pid;
        args = path ∷ name ∷ name ∷ codes "estimator" ∷ s.robot_name ∷ [];
        detached = false;
      } in
      inr (some p, free, ground arith)
]

pub next_load :
    (s : Layer) → IsEstimation s → get_next_level load_command s.command_manager.level ≡ some 1
unfolding get_next_level find create
next_load s ok = elim (Bool-cases (num_of_estimators s == 0)) [
  | inl empty ↦ rw (ok.level, empty) refl
  | inr some_ ↦ rw (ok.level, some_) refl
]

-- what a function that answered true leaves, where the next level suits the estimators left
settled-IsEstimation :
    (cmd : Command) (next : ℕ) (t u s' : Layer) (done : Bool)
    → u ≡ t
    → done ≡ true
    → IsNamed t.plugins
    → get_next_level cmd t.command_manager.level ≡ some next
    → next ≡ (if num_of_estimators t == 0 then 0 else 1)
    → settle_level cmd (u, done) ≡ some s'
    → IsEstimation s' × (s'.command_manager.owner ≡ t.command_manager.owner)
settled-IsEstimation cmd next t u s' done u_is yes_ named to suits h =
    let set = level-change_level next t.command_manager in
    rw (settle_level-true cmd next t u s' done u_is yes_ to h)
      (record { level = set.0 ∙ suits; named = named }, set.1)

load-IsEstimation :
    (launcher : Option Text) (pid : ℕ) (name : Text) (s t s' : Layer) (done : Bool)
    → IsEstimation s
    → some (load_estimator launcher pid name s) ≡ some (t, done)
    → settle_level load_command (t, done) ≡ some s'
    → IsEstimation s' × (s'.command_manager.owner ≡ s.command_manager.owner)
load-IsEstimation launcher pid name s t s' done ok over h =
    elim (load_estimator-cases launcher pid name s) [
      | inl refused ↦
          let t_is : t ≡ s = ground arith in
          let no_ : done ≡ false = ground arith in
          let same : s' ≡ s = settle_level-false load_command s t s' done t_is no_ h in
          rw same (ok, refl)
      | inr (process, free, e) ↦
          let t' = record s {
            plugins = emplace name (record { id = name; proc = process }) s.plugins;
          } in
          let t_is : t ≡ t' = ground arith in
          let yes_ : done ≡ true = ground arith in
          let full = emplace-length name (record { id = name; proc = process }) s.plugins free in
          settled-IsEstimation load_command 1 t' t s' done t_is yes_
            (emplace-IsNamed name process s.plugins free ok.named) (next_load s ok) (rw full refl) h
    ]

unload-IsEstimation :
    (cmds : List (Text × Text)) (polls : List (Bool × ℕ)) (name : Text) (s t s' : Layer)
    (done : Bool)
    → IsEstimation s
    → IsForeign name s.command_manager
    → unload_last cmds polls name s ≡ some (t, done)
    → settle_level unload_command (t, done) ≡ some s'
    → IsEstimation s' × (s'.command_manager.owner ≡ s.command_manager.owner)
unload-IsEstimation cmds polls name s t s' done ok foreign over h =
    elim (Option-cases (unload_estimator cmds polls name s)) [
      | inl waits ↦ absurd (unfold unload_last in ground arith)
      | inr ((u, unloaded), is) ↦
          elim (unload-cases cmds polls name s u unloaded ok.named foreign
            (unfold unload_estimator in is)) [
              | inl (same, no_) ↦
                  let t_is : t ≡ s = unfold unload_last in ground arith in
                  let no_ : done ≡ false = unfold unload_last in ground arith in
                  let same : s' ≡ s = settle_level-false unload_command s t s' done t_is no_ h in
                  rw same (ok, refl)
              | inr (yes_, erased, full, level, owner) ↦
                  let t_is : t ≡ u = unfold unload_last in ground arith in
                  let last : done ≡ (num_of_estimators u == 0) =
                    unfold unload_last in ground arith in
                  let named : IsNamed u.plugins =
                    rw erased (erase-IsNamed name s.plugins ok.named) in
                  let at : u.command_manager.level ≡ 1 = level ∙ ok.level ∙ rw full refl in
                  elim (Bool-cases (num_of_estimators u == 0)) [
                    | inl empty ↦
                        let down : get_next_level unload_command u.command_manager.level ≡ some 0 =
                          rw at (unfold get_next_level find create in refl) in
                        let (is', same) =
                          settled-IsEstimation unload_command 0 u t s' done t_is (last ∙ empty)
                            named down (rw empty refl) h in
                        (is', same ∙ owner)
                    | inr some_ ↦
                        let same : s' ≡ u =
                          settle_level-false unload_command u t s' done t_is (last ∙ some_) h in
                        rw same (record { level = at ∙ rw some_ refl; named = named }, owner)
                  ]
            ]
    ]

pub handle_estimator-IsEstimation :
    (launcher : Option Text) (cmds : List (Text × Text)) (r : EstimatorRequest) (s s' : Layer)
    → IsEstimation s
    → IsForeign (argument r) s.command_manager
    → handle_estimator launcher cmds r s ≡ some s'
    → IsEstimation s' × (s'.command_manager.owner ≡ s.command_manager.owner)
unfolding handle_estimator
handle_estimator-IsEstimation launcher cmds (load_request pid name) s s' ok foreign h =
    elim (perform-cases load_command (λ t. some (load_estimator launcher pid name t)) s s' h) [
      | inl (same, hidden) ↦ rw same (ok, refl)
      | inr (t, done, over, settled, shown) ↦
          load-IsEstimation launcher pid name s t s' done ok over settled
    ]
handle_estimator-IsEstimation launcher cmds (unload_request polls name) s s' ok foreign h =
    elim (perform-cases unload_command (unload_last cmds polls name) s s' h) [
      | inl (same, hidden) ↦ rw same (ok, refl)
      | inr (t, done, over, settled, shown) ↦
          unload-IsEstimation cmds polls name s t s' done ok foreign over settled
    ]

-- the arguments of the calls are not empty, and not the layer's own name
abbrev pub AllForeign : Text → List EstimatorRequest → Type 0
AllForeign owner [] = Unit
AllForeign owner (r ∷ rs) = ((argument r ≢ []) × (argument r ≢ owner)) × AllForeign owner rs

-- Where the level of the estimation layer is 1 with estimators and 0 without, and each entry stands
-- under its name, the same holds after any sequence of calls of its two commands that is over,
-- answered, refused or not offered, whose arguments are neither empty nor the name of the layer.
pub handle_estimators-IsEstimation :
    (launcher : Option Text) (cmds : List (Text × Text)) (rs : List EstimatorRequest) (s s' : Layer)
    → IsEstimation s
    → AllForeign s.command_manager.owner rs
    → handle_estimators launcher cmds rs s ≡ some s'
    → IsEstimation s'
unfolding handle_estimators
handle_estimators-IsEstimation launcher cmds [] s s' ok foreign h =
    let same : s' ≡ s = ground arith in rw same ok
handle_estimators-IsEstimation launcher cmds (r ∷ rs) s s' ok (foreign, others) h =
    elim (Option-cases (handle_estimator launcher cmds r s)) [
      | inl waits ↦ absurd (ground arith)
      | inr (t, over) ↦
          let (ok', owner) = handle_estimator-IsEstimation launcher cmds r s t ok foreign over in
          handle_estimators-IsEstimation launcher cmds rs t s' ok' (rw owner others) (ground arith)
    ]
