-- ===== src/Supervisor/Ending.antt =====
-- The calls of the supervisor's commands come to an end.
use dls.Common.{
  ℕ, ◌≡◌, ◌≢◌, ◌≤◌, ◌<◌, ◌*◌, refl, ap, sym, ◌∙◌, false, true, Bool-cases, Option, none, some, List,
  [], ◌∷◌, length, Text, codes, arith, Option-cases, inl, inr,
}
use dls.CommandManager.Offers.{discovered}
use dls.Waiting.{Paced}
use dls.Watcher.{find_state}
use dls.Registry.{Layer, unload_periodic_app_plugin}
use dls.Registry.Ending.{IsLong, unload_ends}
use dls.Registry.Laws.{IsRegistry}
use dls.Registry.Requests.{perform, perform-defined, settle_level}
use dls.Command.{test_level}
use dls.CommandManager.{change_level}
use dls.Control.Answers.{level-change_level}
use dls.Application.Inherited.{
  AppRequest, inherited, is_deactivate, moved_level, inherited_level, inherited_hidden,
}
use dls.Supervisor.Commands.{
  run_procedure-ends, SupervisorRequest, info_request, procedure_request, load_app_request,
  unload_app_request, load_python_request, command_of, supervisor_answer, supervise, supervise_all,
  SupervisorCall, own_call, inherited_call, supervise_call,
}
use dls.Supervisor.Registered.{argument_of, IsOtherCall, AllOthers, next_of, supervise-IsSupervised}

-- the polls of a call sleep for the period at least, and reach the time that each wait is given
abbrev pub IsLongRequest : ℕ → SupervisorRequest → Type 0
IsLongRequest period info_request = Unit
IsLongRequest period (procedure_request r type) =
    Paced (find_state type (codes "idle")) 5000 period 0 r.state_polls
    × Paced (discovered type (codes "activate")) 3000 period 0 r.command_polls
    × (5000 ≤ length r.state_polls * period)
    × (3000 ≤ length r.command_polls * period)
IsLongRequest period (load_app_request pid type) = Unit
IsLongRequest period (unload_app_request polls type) = IsLong period polls
IsLongRequest period (load_python_request pid type) = Unit

-- that, and deactivate is not called
abbrev pub IsLongCall : ℕ → SupervisorCall → Type 0
IsLongCall period (own_call r) = IsLongRequest period r
IsLongCall period (inherited_call r) = is_deactivate r ≡ false

abbrev pub AllLong : ℕ → List SupervisorCall → Type 0
AllLong period [] = Unit
AllLong period (c ∷ cs) = IsLongCall period c × AllLong period cs

-- the level after calls of which only the inherited ones move it
abbrev pub level_after : List SupervisorCall → ℕ → ℕ
level_after [] level = level
level_after (own_call r ∷ cs) level = level_after cs level
level_after (inherited_call r ∷ cs) level = level_after cs (moved_level r level)

-- what a call leaves
record IsCalled (reached : ℕ) (s s' : Layer) : Type 0 where
  registry : IsRegistry s'
  level : s'.command_manager.level ≡ reached
  owner : s'.command_manager.owner ≡ s.command_manager.owner

perform-inherited-IsCalled :
    (r : AppRequest) (s : Layer)
    → is_deactivate r ≡ false
    → IsRegistry s
    → (s' : Layer) × (perform (inherited r) (λ t. some (t, true)) s ≡ some s')
      × IsCalled (moved_level r s.command_manager.level) s s'
unfolding perform settle_level
perform-inherited-IsCalled r s no_ ok =
    let level = s.command_manager.level in
    elim (Bool-cases (test_level (inherited r) level)) [
      | inl shown ↦
          let next = moved_level r level in
          let set = level-change_level next s.command_manager in
          (
            record s { command_manager = change_level next s.command_manager },
            rw (shown, inherited_level r level no_ shown) refl,
            record {
              registry = record { named = ok.named; started = ok.started };
              level = set.0;
              owner = set.1;
            },
          )
      | inr hidden ↦ (
        s,
        rw hidden refl,
        record { registry = ok; level = sym (inherited_hidden r level hidden); owner = refl },
      )
    ]

level_after-∷ :
    (c : SupervisorCall) (cs : List SupervisorCall) (level : ℕ)
    → level_after (c ∷ cs) level ≡ level_after cs (level_after (c ∷ []) level)
level_after-∷ (own_call r) cs level = refl
level_after-∷ (inherited_call r) cs level = refl

module _ (launcher : Option Text) (cmds : List (Text × Text)) where
  supervisor_answer-defined :
      (r : SupervisorRequest) (s : Layer) (period : ℕ)
      → 0 < period
      → IsLongRequest period r
      → IsRegistry s
      → argument_of r ≢ some []
      → argument_of r ≢ some s.command_manager.owner
      → supervisor_answer launcher cmds r s ≢ none
  unfolding supervisor_answer
  supervisor_answer-defined info_request s period pos long ok ne other = ground arith
  supervisor_answer-defined (procedure_request r type) s period pos (p1, p2, l1, l2) ok ne other =
      let ends =
        run_procedure-ends r type s period pos p1 p2 l1 l2 (λ e. ne (ap some e))
          (λ e. other (ap some e)) in
      ground (arith, ends)
  supervisor_answer-defined (load_app_request pid type) s period pos long ok ne other = ground arith
  supervisor_answer-defined (unload_app_request polls type) s period pos long ok ne other =
      unfold unload_periodic_app_plugin in
      unload_ends cmds polls type s period pos ok (λ e. ne (ap some e), λ e. other (ap some e)) long
  supervisor_answer-defined (load_python_request pid type) s period pos long ok ne other =
      ground arith

  supervise-defined :
      (r : SupervisorRequest) (s : Layer) (period : ℕ)
      → 0 < period
      → IsLongRequest period r
      → IsRegistry s
      → argument_of r ≢ some []
      → argument_of r ≢ some s.command_manager.owner
      → supervise launcher cmds r s ≢ none
  unfolding supervise
  supervise-defined r s period pos long ok ne other =
      perform-defined (command_of r) (supervisor_answer launcher cmds r) s
        (supervisor_answer-defined r s period pos long ok ne other)
        (λ t over gone. ground (arith, next_of r t.command_manager.level, gone))

  supervise_call-IsCalled :
      (c : SupervisorCall) (s : Layer) (period : ℕ)
      → 0 < period
      → IsLongCall period c
      → IsRegistry s
      → IsOtherCall s.command_manager.owner c
      → (s' : Layer) × (supervise_call launcher cmds c s ≡ some s')
        × IsCalled (level_after (c ∷ []) s.command_manager.level) s s'
  unfolding supervise_call
  supervise_call-IsCalled (own_call r) s period pos long ok (ne, other) =
      elim (Option-cases (supervise launcher cmds r s)) [
        | inl waits ↦ absurd (supervise-defined r s period pos long ok ne other waits)
        | inr (t, over) ↦
            let is = supervise-IsSupervised launcher cmds r s t ok ne other over in
            (t, over, record { registry = is.registry; level = is.level; owner = is.owner })
      ]
  supervise_call-IsCalled (inherited_call r) s period pos no_ ok other =
      perform-inherited-IsCalled r s no_ ok

  -- Any sequence of calls of the five commands of the supervisor's constructor and of the commands that every
  -- App has, deactivate excepted, ends from a well-formed registry, with its registry well formed;
  -- only activate, from 0 to 1, and stopActivation, from 1 to 0, move the level. It is so if the
  -- names in the calls are neither empty nor the supervisor's own, and the polls of each wait sleep
  -- for the period at least and reach the time that the wait is given.
  pub supervise_all_ends :
      (cs : List SupervisorCall) (s : Layer) (period : ℕ)
      → 0 < period
      → AllLong period cs
      → IsRegistry s
      → AllOthers s.command_manager.owner cs
      → (s' : Layer) × (supervise_all launcher cmds cs s ≡ some s')
        × IsRegistry s'
        × (s'.command_manager.level ≡ level_after cs s.command_manager.level)
  unfolding supervise_all
  supervise_all_ends [] s period pos long ok others = (s, refl, ok, refl)
  supervise_all_ends (c ∷ cs) s period pos (long, longs) ok (other, others) =
      let (t, over, is) = supervise_call-IsCalled c s period pos long ok other in
      let (u, rest, ok', level) =
        supervise_all_ends cs t period pos longs is.registry (rw is.owner others) in
      (
        u,
        ground (arith, over, rest),
        ok',
        level ∙ ap (level_after cs) is.level ∙ sym (level_after-∷ c cs s.command_manager.level),
      )
