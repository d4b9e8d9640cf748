-- ===== src/Supervisor/Registered.antt =====
-- What the commands of the supervisor's constructor leave of its plugins, its level and its name.
use dls.Common.{
  ℕ, ◌≡◌, ◌≢◌, refl, ap, ◌∙◌, Bool, true, false, Option, none, some, List, [], ◌∷◌, nat_eq, Text,
  codes, text_eq, arith, Option-cases, inl, inr,
}
use dls.Command.{create, get_next_level}
use dls.CommandManager.Foreign.{call_command-keeps}
use dls.Control.Answers.{level-change_level}
use dls.Registry.{
  Layer, load, unload, load_periodic_app_plugin, unload_periodic_app_plugin,
  load_python_periodic_app,
}
use dls.Registry.Requests.{
  perform-cases, settle_level, settle_level-true, settle_level-false, IsForeign, unload-cases,
}
use dls.Registry.Laws.{IsRegistry, IsRegistry-plugins, load-IsRegistry}
use dls.Supervisor.Commands.{
  ProcedureRun, run_procedure, run_procedure_lem, SupervisorRequest, info_request,
  procedure_request, load_app_request, unload_app_request, load_python_request, command_of,
  supervisor_answer, supervise, SupervisorCall, own_call, inherited_call,
}

abbrev pub argument_of : SupervisorRequest → Option Text
argument_of info_request = none
argument_of (procedure_request r type) = some type
argument_of (load_app_request pid type) = some type
argument_of (unload_app_request polls type) = some type
argument_of (load_python_request pid type) = some type

-- the name in a call of the supervisor's own commands is not empty, and not the supervisor's own
abbrev pub IsOtherCall : Text → SupervisorCall → Type 0
IsOtherCall owner (own_call r) = (argument_of r ≢ some []) × (argument_of r ≢ some owner)
IsOtherCall owner (inherited_call r) = Unit

abbrev pub AllOthers : Text → List SupervisorCall → Type 0
AllOthers owner [] = Unit
AllOthers owner (c ∷ cs) = IsOtherCall owner c × AllOthers owner cs

-- what the function of a command leaves, whatever it answers
pub record IsSupervised (s s' : Layer) : Type 0 where
  pub registry : IsRegistry s'
  pub level : s'.command_manager.level ≡ s.command_manager.level
  pub owner : s'.command_manager.owner ≡ s.command_manager.owner

load-command_manager :
    (kind : Text) (detach : Bool) (launcher : Option Text) (pid : ℕ) (name : Text) (s : Layer)
    → (load kind detach launcher pid name s).0.command_manager ≡ s.command_manager
unfolding load
load-command_manager kind detach launcher pid name s = ground arith

load-IsSupervised :
    (kind : Text) (launcher : Option Text) (pid : ℕ) (name : Text) (s : Layer)
    → IsRegistry s
    → IsSupervised s (load kind true launcher pid name s).0
load-IsSupervised kind launcher pid name s ok =
    let same = load-command_manager kind true launcher pid name s in
    record {
      registry = (load-IsRegistry kind true launcher pid name s ok).0;
      level = ap (λ m. m.level) same;
      owner = ap (λ m. m.owner) same;
    }

unload-IsSupervised :
    (cmds : List (Text × Text)) (polls : List (Bool × ℕ)) (name : Text) (s s' : Layer) (done : Bool)
    → IsRegistry s
    → IsForeign name s.command_manager
    → unload cmds polls name s ≡ some (s', done)
    → IsSupervised s s'
unload-IsSupervised cmds polls name s s' done ok foreign h =
    elim (unload-cases cmds polls name s s' done ok.named foreign h) [
      | inl (same, no_) ↦ rw same (record { registry = ok; level = refl; owner = refl })
      | inr (yes_, erased, full, level, owner) ↦ record {
        registry = IsRegistry-plugins name s s' erased ok;
        level = level;
        owner = owner;
      }
    ]

run_procedure-IsSupervised :
    (r : ProcedureRun) (type : Text) (s s' : Layer) (done : Bool) (event : Option (ℕ × Text))
    → IsRegistry s
    → IsForeign type s.command_manager
    → run_procedure r type s ≡ some ((s', done), event)
    → IsSupervised s s'
run_procedure-IsSupervised r type s s' done event ok (ne, other) h =
    let (yes_, kept, told, cases) = run_procedure_lem r type s s' done event h in
    elim cases [
      | inl (seen, (count, called)) ↦
          let keeps =
            call_command-keeps (codes "activate") type r.cmds s.command_manager s'.command_manager
              count ne other called in
          record {
            registry = record { named = rw kept ok.named; started = rw kept ok.started };
            level = keeps.0;
            owner = keeps.1;
          }
      | inr (unseen, same) ↦ rw same (record { registry = ok; level = refl; owner = refl })
    ]

pub next_of : (r : SupervisorRequest) (level : ℕ) → get_next_level (command_of r) level ≡ some level
unfolding command_of get_next_level create
next_of info_request level = refl
next_of (procedure_request r type) level = refl
next_of (load_app_request pid type) level = refl
next_of (unload_app_request polls type) level = refl
next_of (load_python_request pid type) level = refl

module _ (launcher : Option Text) (cmds : List (Text × Text)) where
  supervisor_answer-IsSupervised :
      (r : SupervisorRequest) (s s' : Layer) (done : Bool)
      → IsRegistry s
      → argument_of r ≢ some []
      → argument_of r ≢ some s.command_manager.owner
      → supervisor_answer launcher cmds r s ≡ some (s', done)
      → IsSupervised s s'
  unfolding supervisor_answer load_periodic_app_plugin load_python_periodic_app
      unload_periodic_app_plugin
  supervisor_answer-IsSupervised info_request s s' done ok ne other h =
      let same : s' ≡ s = ground arith in
      rw same (record { registry = ok; level = refl; owner = refl })
  supervisor_answer-IsSupervised (procedure_request r type) s s' done ok ne other h =
      elim (Option-cases (run_procedure r type s)) [
        | inl waits ↦ absurd (ground arith)
        | inr (((t, answered), event), over) ↦
            let same : s' ≡ t = ground arith in
            rw same (
              run_procedure-IsSupervised r type s t answered event ok
                (λ e. ne (ap some e), λ e. other (ap some e)) over)
      ]
  supervisor_answer-IsSupervised (load_app_request pid type) s s' done ok ne other h =
      let loaded = load (codes "periodic_app_plugin") true launcher pid type s in
      let same : s' ≡ loaded.0 = ground arith in
      rw same (load-IsSupervised (codes "periodic_app_plugin") launcher pid type s ok)
  supervisor_answer-IsSupervised (unload_app_request polls type) s s' done ok ne other h =
      unload-IsSupervised cmds polls type s s' done ok (λ e. ne (ap some e), λ e. other (ap some e))
        h
  supervisor_answer-IsSupervised (load_python_request pid type) s s' done ok ne other h =
      let loaded = load (codes "python_periodic_app") true launcher pid type s in
      let same : s' ≡ loaded.0 = ground arith in
      rw same (load-IsSupervised (codes "python_periodic_app") launcher pid type s ok)

  settle-IsSupervised :
      (r : SupervisorRequest) (s t s' : Layer) (done : Bool)
      → IsSupervised s t
      → settle_level (command_of r) (t, done) ≡ some s'
      → IsSupervised s s'
  settle-IsSupervised r s t s' true is h =
      let level = t.command_manager.level in
      let set = level-change_level level t.command_manager in
      rw (settle_level-true (command_of r) level t t s' true refl refl (next_of r level) h)
        (record {
          registry = record { named = is.registry.named; started = is.registry.started };
          level = set.0 ∙ is.level;
          owner = set.1 ∙ is.owner;
        })
  settle-IsSupervised r s t s' false is h =
      rw (settle_level-false (command_of r) t t s' false refl refl h) is

  pub supervise-IsSupervised :
      (r : SupervisorRequest) (s s' : Layer)
      → IsRegistry s
      → argument_of r ≢ some []
      → argument_of r ≢ some s.command_manager.owner
      → supervise launcher cmds r s ≡ some s'
      → IsSupervised s s'
  unfolding supervise
  supervise-IsSupervised r s s' ok ne other h =
      elim (perform-cases (command_of r) (supervisor_answer launcher cmds r) s s' h) [
        | inl (same, hidden) ↦ rw same (record { registry = ok; level = refl; owner = refl })
        | inr (t, done, over, settled, shown) ↦
            settle-IsSupervised r s t s' done
              (supervisor_answer-IsSupervised r s t done ok ne other over) settled
      ]
