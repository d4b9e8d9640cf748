-- ===== src/Supervisor/Procedure.antt =====
-- What a call of "runProcedure" does (modules/supervisor/src/supervisor.cpp).
use dls.Common.{
  ℕ, ◌≡◌, ◌≢◌, ◌≤◌, ◌<◌, ◌*◌, refl, Bool, true, false, Option, none, some, List, [], length, Text,
  codes, text_eq, nat_eq, arith, Option-cases, Bool-cases, inl, inr, ◌⊎◌,
}
use dls.CommandManager.Foreign.{call_command-sends, sent_once}
use dls.CommandManager.Offers.{discovered, wait_command}
use dls.Waiting.{Poll, Reached, Missed, Paced, wait, wait-Reached, wait-Missed, wait_ends}
use dls.Watcher.{AppStates, wait_state, find_state}
use dls.Registry.{Layer}
use dls.Supervisor.Commands.{ProcedureRun, run_procedure, not_idle}

-- what the wait for the state leads to: no event where a poll in time saw the procedure idle and no stop
-- is asked, and the event where the wait was in vain or a stop is asked at its end
abbrev pub StateSeen : List (Poll AppStates) → Bool → Text → Option (ℕ × Text) → Type 0
StateSeen polls stop_wait type event =
    ((event ≡ none) × Reached (find_state type (codes "idle")) 5000 0 polls × (stop_wait ≡ false))
    ⊎ ((event ≡ not_idle type false)
        × (Missed (find_state type (codes "idle")) 5000 0 polls ⊎ (stop_wait ≡ true)))

wait_state_outcome :
    (type : Text) (polls : List (Poll AppStates)) (stop_wait idle : Bool)
    → wait_state type (codes "idle") polls stop_wait ≡ some idle
    → StateSeen polls stop_wait type (not_idle type idle)
wait_state_outcome type polls stop_wait idle h =
    elim (Option-cases (wait (find_state type (codes "idle")) 5000 polls)) [
      | inl waits ↦ absurd (unfold wait_state in ground arith)
      | inr (true, over) ↦ elim (Bool-cases stop_wait) [
        | inl stopped ↦
            let vain : idle ≡ false = unfold wait_state in ground arith in
            inr (rw vain refl, inr stopped)
        | inr going ↦
            let seen : idle ≡ true = unfold wait_state in ground arith in
            inl (rw seen refl, wait-Reached (find_state type (codes "idle")) 5000 polls over, going)
      ]
      | inr (false, over) ↦
          let vain : idle ≡ false = unfold wait_state in ground arith in
          inr (rw vain refl, inl (wait-Missed (find_state type (codes "idle")) 5000 polls over))
    ]

-- "runProcedure" ends and answers true, with the plugins as they were: with sleeps of a positive period at
-- least, polls that reach 5 and 3 seconds, and a procedure whose name is neither empty nor the
-- supervisor's. Either it logs nothing, and a poll in time saw the procedure idle and no stop is asked
-- at the end of that wait; or it logs its event, and that wait was in vain or a stop is asked at
-- its end. In both cases it goes on. Either a poll in time has discovered the procedure's command
-- "activate", and the layer changes in nothing but one message sent for it, if exactly one such
-- command is listed at the call, and in nothing at all if none or several are; or that wait was in
-- vain, and the layer is as it was.
pub run_procedure_activates :
    (r : ProcedureRun) (type : Text) (s : Layer) (period : ℕ)
    → 0 < period
    → Paced (find_state type (codes "idle")) 5000 period 0 r.state_polls
    → Paced (discovered type (codes "activate")) 3000 period 0 r.command_polls
    → 5000 ≤ length r.state_polls * period
    → 3000 ≤ length r.command_polls * period
    → type ≢ []
    → type ≢ s.command_manager.owner
    → (s' : Layer) × (event : Option (ℕ × Text)) × (run_procedure r type s
        ≡ some ((s', true), event))
      × StateSeen r.state_polls r.stop_wait type event
      × (s'.plugins ≡ s.plugins)
      × ((Reached (discovered type (codes "activate")) 3000 0 r.command_polls
            × (s' ≡ record s {
              command_manager = sent_once (codes "activate") type r.cmds s.command_manager;
            }))
          ⊎ (Missed (discovered type (codes "activate")) 3000 0 r.command_polls × (s' ≡ s)))
run_procedure_activates r type s period pos slow slow' enough enough' ne other =
    elim (Option-cases (wait_state type (codes "idle") r.state_polls r.stop_wait)) [
      | inl waits ↦ absurd (
          unfold wait_state in
          ground (
            arith,
            wait_ends (find_state type (codes "idle")) 5000 period r.state_polls pos slow enough,
          ))
      | inr (idle, first) ↦
          let seen = wait_state_outcome type r.state_polls r.stop_wait idle first in
          let sends =
            call_command-sends (codes "activate") type r.cmds s.command_manager ne other in
          elim (Option-cases (wait_command type (codes "activate") 3000 r.command_polls)) [
            | inl waits ↦ absurd (
                wait_ends (discovered type (codes "activate")) 3000 period r.command_polls pos slow'
                  enough' (unfold wait_command in waits))
            | inr (true, second) ↦ (
              record s {
                command_manager = sent_once (codes "activate") type r.cmds s.command_manager;
              },
              not_idle type idle,
              unfold run_procedure in rw (first, second, sends) refl,
              seen,
              refl,
              inl (
                wait-Reached (discovered type (codes "activate")) 3000 r.command_polls
                    (unfold wait_command in second),
                refl,
              ),
            )
            | inr (false, second) ↦ (
              s,
              not_idle type idle,
              unfold run_procedure in rw (first, second) refl,
              seen,
              refl,
              inr (
                wait-Missed (discovered type (codes "activate")) 3000 r.command_polls
                    (unfold wait_command in second),
                refl,
              ),
            )
          ]
    ]
