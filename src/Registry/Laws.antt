-- ===== src/Registry/Laws.antt =====
-- Loads and unloads against the map of the processes.
use dls.Common.{
  ℕ, ◌≡◌, ◌≢◌, refl, Bool, true, false, not, Option, none, some, List, [], ◌∷◌, map, if◌then◌else◌,
  Text, codes, text_eq, text_beq_iff, ◌==◌, arith, Option-cases, inl, inr, ◌⊎◌,
}
use dls.Common.Map.{find, contains, emplace, erase, find-emplace_new, find-erase}
use dls.CommandManager.{CommandManager}
use dls.CommandManager.Calls.{call_command}
use dls.Waiting.{wait, Reached, wait-Reached}
use dls.Registry.{Process, AppData, Layer, load, unload, exit_poll}

-- Each entry stands under its own name and has a process.
pub record IsRegistry (s : Layer) : Type 0 where
  pub named : (name : Text) (d : AppData) → find name s.plugins ≡ some d → d.id ≡ name
  pub started : (name : Text) (d : AppData) → find name s.plugins ≡ some d → d.proc ≢ none

IsRegistry-emplace :
    (name : Text) (d : AppData) (s : Layer)
    → d.id ≡ name
    → d.proc ≢ none
    → find name s.plugins ≡ none
    → IsRegistry s
    → IsRegistry (record s { plugins = emplace name d s.plugins })
IsRegistry-emplace name d s same runs free ok = record {
  named = λ k e h.
      ground (arith, find-emplace_new name k d s.plugins free, text_beq_iff name k, ok.named k e);
  started = λ k e h gone.
      ground (arith, find-emplace_new name k d s.plugins free, text_beq_iff name k, ok.started k e);
}

-- A load keeps the registry well formed. It answers true exactly where the name was free and the
-- launcher is known, and then the name is known after it; where it answers false nothing has changed,
-- and no other name is ever touched.
pub load-IsRegistry :
    (kind : Text) (detach : Bool) (launcher : Option Text) (pid : ℕ) (name : Text) (s : Layer)
    → IsRegistry s
    → let (s', loaded) = load kind detach launcher pid name s in
      IsRegistry s'
      × ((loaded ≡ false) → s' ≡ s)
      × ((loaded ≡ true)
          → (find name s.plugins ≡ none) × (launcher ≢ none) × (contains name s'.plugins ≡ true))
      × ((find name s.plugins ≡ none) → launcher ≢ none → loaded ≡ true)
      × ((other : Text) → name ≢ other → find other s'.plugins ≡ find other s.plugins)
unfolding load
load-IsRegistry kind detach none pid name s ok = ground (arith, ok)
load-IsRegistry kind detach (some path) pid name s ok = elim (Option-cases (find name s.plugins)) [
  | inr (d, taken) ↦ ground (arith, ok)
  | inl free ↦
      let p : Process = record {
        pid = pid;
        args = path ∷ name ∷ name ∷ kind ∷ s.robot_name ∷ [];
        detached = detach;
      } in
      let d : AppData = record { id = name; proc = some p } in
      let kept = IsRegistry-emplace name d s refl (ground arith) free ok in
      (
        ground (arith, kept),
        ground arith,
        ground (arith, find-emplace_new name name d s.plugins free, text_beq_iff name name),
        ground arith,
        λ other ne.
            ground (arith, find-emplace_new name other d s.plugins free, text_beq_iff name other),
      )
]

IsRegistry-erase :
    (name : Text) (s : Layer) (m : CommandManager) (killed : List ℕ)
    → IsRegistry s
    → IsRegistry (record s { plugins = erase name s.plugins; command_manager = m; killed = killed })
IsRegistry-erase name s m killed ok = record {
  named = λ k e h. ground (arith, find-erase name k s.plugins, ok.named k e);
  started = λ k e h gone. ground (arith, find-erase name k s.plugins, ok.started k e);
}

pub IsRegistry-plugins :
    (name : Text) (s s' : Layer) → s'.plugins ≡ erase name s.plugins → IsRegistry s → IsRegistry s'
IsRegistry-plugins name s s' erased ok =
    let kept = IsRegistry-erase name s s'.command_manager s'.killed ok in
    record { named = rw erased kept.named; started = rw erased kept.started }

-- An unload of a name that is there, once its wait is over, answers true and forgets the name and
-- nothing else; either a poll made in time saw the process gone and nothing is killed, or the process is.
pub unload_lem :
    (cmds : List (Text × Text)) (polls : List (Bool × ℕ)) (name : Text) (s s' : Layer) (done : Bool)
    (d : AppData) (p : Process)
    → IsRegistry s
    → find name s.plugins ≡ some d
    → d.proc ≡ some p
    → unload cmds polls name s ≡ some (s', done)
    → (done ≡ true)
      × IsRegistry s'
      × ((other : Text)
          → find other s'.plugins ≡ (if name == other then none else find other s.plugins))
      × (((s'.killed ≡ s.killed) × Reached not 2000 0 (map exit_poll polls))
          ⊎ (s'.killed ≡ p.pid ∷ s.killed))
unfolding unload
unload_lem cmds polls name s s' done d p ok present has h =
    elim (Option-cases (call_command (codes "shutdown") [] d.id cmds s.command_manager)) [
      | inl undefined ↦ ground arith
      | inr ((m, count), called) ↦ elim (Option-cases (wait not 2000 (map exit_poll polls))) [
        | inl waiting ↦ ground arith
        | inr (exited, over) ↦ ground (
          arith,
          ok.named name d present,
          λ (killed : List ℕ). IsRegistry-erase name s m killed ok,
          λ (other : Text). find-erase name other s.plugins,
          wait-Reached not 2000 (map exit_poll polls),
          text_beq_iff d.id name,
        )
      ]
    ]
