-- ===== src/Registry/Requests.antt =====
-- A command of a layer, called (modules/command/include/dls2/command/command.tpp): it has a reader
-- where its transitions offer it at the level, and its function works on the layer.
use dls.Common.{
  ℕ, ◌≡◌, ◌≢◌, none, Bool, true, false, not, Option, some, List, [], ◌∷◌, map, length, ◌==◌, nat_eq,
  if◌then◌else◌, Text, codes, text_eq, arith, Option-cases, Bool-cases, inl, inr, ◌⊎◌,
}
use dls.Command.{Command, with_args, create, get_next_level, test_level}
use dls.Common.Map.{find, erase}
use dls.CommandManager.{CommandManager, ◌>>=◌, change_level}
use dls.CommandManager.Calls.{call_command}
use dls.CommandManager.Foreign.{call_command-keeps}
use dls.Control.Answers.{IsNamed}
use dls.Waiting.{wait}
use dls.Registry.{AppData, Layer, unload, exit_poll}

-- addCommand<std::string>(name, description, function, transitions, true), without the function
abbrev pub offered : Text → ℕ → List (ℕ × ℕ) → Command
offered name n transitions = create with_args name n (λ args. false) transitions true

-- the level of the layer after a function that answered
unfoldable pub settle_level : Command → Layer × Bool → Option Layer
unfolding get_next_level change_level
settle_level cmd (s, false) = some s
settle_level cmd (s, true) = do
  next ← get_next_level cmd s.command_manager.level
  some (record s { command_manager = change_level next s.command_manager })

-- the call of a command, where the level offers it
unfoldable pub perform : Command → (Layer → Option (Layer × Bool)) → Layer → Option Layer
unfolding test_level settle_level
perform cmd f s =
    if test_level cmd s.command_manager.level
    then (do answered ← f s; settle_level cmd answered)
    else some s

-- What a call that is over comes from.
pub perform-cases :
    (cmd : Command) (f : Layer → Option (Layer × Bool)) (s s' : Layer)
    → perform cmd f s ≡ some s'
    → ((s' ≡ s) × (test_level cmd s.command_manager.level ≡ false))
      ⊎ ((t : Layer) × (done : Bool) × (f s ≡ some (t, done))
          × (settle_level cmd (t, done) ≡ some s')
          × (test_level cmd s.command_manager.level ≡ true))
perform-cases cmd f s s' h = elim (Bool-cases (test_level cmd s.command_manager.level)) [
  | inr hidden ↦ inl (unfold perform in ground arith, hidden)
  | inl shown ↦ elim (Option-cases (f s)) [
    | inl waits ↦ absurd (unfold perform in ground arith)
    | inr ((t, done), over) ↦ inr (t, done, over, unfold perform in ground arith, shown)
  ]
]

-- A function that answers true leads to the next level, and one that answers false leaves the layer.
pub settle_level-true :
    (cmd : Command) (next : ℕ) (s t s' : Layer) (done : Bool)
    → t ≡ s
    → done ≡ true
    → get_next_level cmd s.command_manager.level ≡ some next
    → settle_level cmd (t, done) ≡ some s'
    → s' ≡ record s { command_manager = change_level next s.command_manager }
unfolding settle_level
settle_level-true cmd next s t s' false same yes_ to h = ground arith
settle_level-true cmd next s t s' true same yes_ to h = ground arith

pub settle_level-false :
    (cmd : Command) (s t s' : Layer) (done : Bool)
    → t ≡ s
    → done ≡ false
    → settle_level cmd (t, done) ≡ some s'
    → s' ≡ s
unfolding settle_level
settle_level-false cmd s t s' false same no_ h = ground arith
settle_level-false cmd s t s' true same no_ h = ground arith

-- A call is defined where its function is, and the next level where the function answers true.
pub perform-defined :
    (cmd : Command) (f : Layer → Option (Layer × Bool)) (s : Layer)
    → f s ≢ none
    → ((t : Layer) → f s ≡ some (t, true) → get_next_level cmd t.command_manager.level ≢ none)
    → perform cmd f s ≢ none
unfolding perform
perform-defined cmd f s defined next = elim (Option-cases (f s)) [
  | inl waits ↦ absurd (defined waits)
  | inr ((t, true), over) ↦ unfold settle_level in ground (arith, over, next t over)
  | inr ((t, false), over) ↦ unfold settle_level in ground (arith, over)
]

-- a name that is not empty and not the layer's own
abbrev pub IsForeign : Text → CommandManager → Type 0
IsForeign name m = (name ≢ []) × (name ≢ m.owner)

find-length :
    (name : Text) (m : List (Text × AppData)) (d : AppData)
    → find name m ≡ some d
    → (length m == 0) ≡ false
unfolding find
find-length name [] d h = ground arith
find-length name (e ∷ m) d h = ground arith

-- what an unload that is over leaves
pub unload-cases :
    (cmds : List (Text × Text)) (polls : List (Bool × ℕ)) (name : Text) (s s' : Layer) (done : Bool)
    → IsNamed s.plugins
    → IsForeign name s.command_manager
    → unload cmds polls name s ≡ some (s', done)
    → ((s' ≡ s) × (done ≡ false))
      ⊎ ((done ≡ true)
          × (s'.plugins ≡ erase name s.plugins)
          × ((length s.plugins == 0) ≡ false)
          × (s'.command_manager.level ≡ s.command_manager.level)
          × (s'.command_manager.owner ≡ s.command_manager.owner))
unfolding unload
unload-cases cmds polls name s s' done ok (ne, other) h =
    elim (Option-cases (find name s.plugins)) [
      | inl absent ↦ inl (ground arith, ground arith)
      | inr (d, there) ↦
          let id = ok name d there in
          elim (Option-cases (call_command (codes "shutdown") [] d.id cmds s.command_manager)) [
            | inl undefined ↦ absurd (ground arith)
            | inr ((m, count), called) ↦
                let keeps =
                  call_command-keeps (codes "shutdown") d.id cmds s.command_manager m count
                    (rw id ne) (rw id other) called in
                elim (Option-cases d.proc) [
                  | inl idle ↦ absurd (ground arith)
                  | inr (p, started) ↦ elim (Option-cases (wait not 2000 (map exit_poll polls))) [
                    | inl waits ↦ absurd (ground arith)
                    | inr (exited, over) ↦ inr (
                      ground arith,
                      ground (arith, id),
                      find-length name s.plugins d there,
                      ground (arith, keeps.0),
                      ground (arith, keeps.1),
                    )
                  ]
                ]
          ]
    ]
