-- ===== src/Control/Closed.antt =====
-- close() of the control layer.
use dls.Common.{
  ℕ, ◌≡◌, refl, ◌∙◌, Bool, true, false, not, ◌||◌, Option, none, some, List, [], ◌∷◌, map, Text,
  codes, nat_eq, ◌==◌, arith, Option-cases, inl, inr, ◌⊎◌,
}
use dls.CommandManager.Calls.{call_command}
use dls.Registry.{Process, AppData, exit_poll}
use dls.Waiting.{Reached, wait, wait-Reached}
use dls.Control.Layer.{
  ControlLayer, unload_controller_data, unload_all, close, Request, load_python,
}

abbrev pub listed : ℕ → List ℕ → Bool
listed pid [] = false
listed pid (p ∷ ps) = p == pid || listed pid ps

-- a process that was seen to have ended within 2 s, or that was killed
abbrev pub Stopped : List (Bool × ℕ) → List ℕ → Option Process → Type 0
Stopped polls killed none = Unit
Stopped polls killed (some p) =
    Reached not 2000 0 (map exit_poll polls) ⊎ (listed p.pid killed ≡ true)

abbrev pub AllStopped : (Text → List (Bool × ℕ)) → List ℕ → List (Text × AppData) → Type 0
AllStopped polls killed [] = Unit
AllStopped polls killed ((name, d) ∷ rest) =
    Stopped (polls name) killed d.proc × AllStopped polls killed rest

-- what stopping one entry leaves
record IsStopping (polls : List (Bool × ℕ)) (d : AppData) (s s' : ControlLayer) : Type 0 where
  controllers : s'.controllers ≡ s.controllers
  generators : s'.motion_generators ≡ s.motion_generators
  closing : s'.closing ≡ s.closing
  stopped : Stopped polls s'.killed d.proc
  grows : (pid : ℕ) → listed pid s.killed ≡ true → listed pid s'.killed ≡ true

unload_controller_data-IsStopping :
    (cmds : List (Text × Text)) (polls : List (Bool × ℕ)) (d : AppData) (s s' : ControlLayer)
    → unload_controller_data cmds polls d s ≡ some s'
    → IsStopping polls d s s'
unload_controller_data-IsStopping cmds polls d s s' h = elim (Option-cases d.proc) [
  | inl external ↦
      let same : s' ≡ s = unfold unload_controller_data in ground arith in
      rw same (record {
        controllers = refl;
        generators = refl;
        closing = refl;
        stopped = rw external tt;
        grows = λ pid old. old;
      })
  | inr (process, started) ↦
      elim (Option-cases (call_command (codes "shutdown") [] d.id cmds s.command_manager)) [
        | inl undefined ↦ absurd (unfold unload_controller_data in ground arith)
        | inr ((m, count), called) ↦ elim (Option-cases (wait not 2000 (map exit_poll polls))) [
          | inl waits ↦ absurd (unfold unload_controller_data in ground arith)
          | inr (true, over) ↦ record {
            controllers = unfold unload_controller_data in ground arith;
            generators = unfold unload_controller_data in ground arith;
            closing = unfold unload_controller_data in ground arith;
            stopped = rw started (inl (wait-Reached not 2000 (map exit_poll polls) over));
            grows = λ pid old. unfold unload_controller_data in ground arith;
          }
          | inr (false, over) ↦
              let killed : s'.killed ≡ process.pid ∷ s.killed =
                unfold unload_controller_data in ground arith in
              record {
                controllers = unfold unload_controller_data in ground arith;
                generators = unfold unload_controller_data in ground arith;
                closing = unfold unload_controller_data in ground arith;
                stopped = rw started (inr (rw killed (ground arith)));
                grows = λ pid old. rw killed (ground arith);
              }
        ]
      ]
]

AllStopped-grows :
    (polls : Text → List (Bool × ℕ)) (m : List (Text × AppData)) (old new : List ℕ)
    → ((pid : ℕ) → listed pid old ≡ true → listed pid new ≡ true)
    → AllStopped polls old m
    → AllStopped polls new m
AllStopped-grows polls [] old new grows h = tt
AllStopped-grows polls ((name, d) ∷ m) old new grows (h, hs) =
    (keep d.proc h, AllStopped-grows polls m old new grows hs)
  where
    keep : (p : Option Process) → Stopped (polls name) old p → Stopped (polls name) new p
    keep none k = tt
    keep (some p) (inl ended) = inl ended
    keep (some p) (inr killed) = inr (grows p.pid killed)

-- what the loop over the entries leaves
pub record IsClosing (s s' : ControlLayer) : Type 0 where
  pub controllers : s'.controllers ≡ s.controllers
  pub generators : s'.motion_generators ≡ s.motion_generators
  pub closing : s'.closing ≡ s.closing
  pub grows : (pid : ℕ) → listed pid s.killed ≡ true → listed pid s'.killed ≡ true

unload_all-IsClosing :
    (cmds : List (Text × Text)) (polls : Text → List (Bool × ℕ)) (m : List (Text × AppData))
    (s s' : ControlLayer)
    → unload_all cmds polls m s ≡ some s'
    → IsClosing s s' × AllStopped polls s'.killed m
unload_all-IsClosing cmds polls [] s s' h =
    let same : s' ≡ s = unfold unload_all in ground arith in
    rw same
      (record { controllers = refl; generators = refl; closing = refl; grows = λ pid old. old }, tt)
unload_all-IsClosing cmds polls ((name, d) ∷ m) s s' h =
    elim (Option-cases (unload_controller_data cmds (polls name) d s)) [
      | inl waits ↦ absurd (unfold unload_all in ground arith)
      | inr (t, over) ↦
          let one = unload_controller_data-IsStopping cmds (polls name) d s t over in
          let (rest, stopped) =
            unload_all-IsClosing cmds polls m t s' (unfold unload_all in ground arith) in
          (
            record {
              controllers = rest.controllers ∙ one.controllers;
              generators = rest.generators ∙ one.generators;
              closing = rest.closing ∙ one.closing;
              grows = λ pid old. rest.grows pid (one.grows pid old);
            },
            (
              (AllStopped-grows polls ((name, d) ∷ []) t.killed s'.killed rest.grows
                  (one.stopped, tt)).0,
              stopped,
            ),
          )
    ]

pub record IsClosed (s : ControlLayer) : Type 0 where
  pub controllers : s.controllers ≡ []
  pub generators : s.motion_generators ≡ []
  pub closing : s.closing ≡ true

pub close-IsClosed :
    (cmds : List (Text × Text)) (polls : Text → List (Bool × ℕ)) (s s' : ControlLayer)
    → close cmds polls s ≡ some s'
    → IsClosed s'
      × AllStopped polls s'.killed s.motion_generators
      × AllStopped polls s'.killed s.controllers
close-IsClosed cmds polls s s' h =
    let emptied = record s { closing = true; motion_generators = []; controllers = [] } in
    elim (Option-cases (unload_all cmds polls s.motion_generators emptied)) [
      | inl waits ↦ absurd (unfold close in ground arith)
      | inr (t, over) ↦
          let (first, generators) =
            unload_all-IsClosing cmds polls s.motion_generators emptied t over in
          let (last, controllers) =
            unload_all-IsClosing cmds polls s.controllers t s' (unfold close in ground arith) in
          (
            record {
              controllers = last.controllers ∙ first.controllers;
              generators = last.generators ∙ first.generators;
              closing = last.closing ∙ first.closing;
            },
            AllStopped-grows polls s.motion_generators t.killed s'.killed last.grows generators,
            controllers,
          )
    ]

abbrev pub is_python : Request → Bool
is_python (load_python pid name) = true
is_python _ = false
