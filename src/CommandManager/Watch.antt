-- ===== src/CommandManager/Watch.antt =====
-- The level watcher: which commands are active after a round, and what keeps the readers right.
use dls.Common.{
  ℕ, ◌≡◌, refl, Bool, true, false, some, List, [], ◌∷◌, Text, text_eq, if◌then◌else◌, arith,
  Option-cases, Bool-cases, inl, inr,
}
use mathlib.Core.Option
use dls.Common.Map
use dls.Common.Map.{find-assign, find-emplace_new, emplace_old}
use dls.Command.{Command, Kind, test_level, activate, deactivate, create, change_transition_set}
use dls.Command.Levels.{IsLinked, verify, verify-active, operations-IsLinked}
use dls.CommandManager.{
  CommandManager, verify_all, verify_level, level_watcher, trigger, change_level, add_command,
  at_command, disable_command, enable_command, change_transitions,
}

find-verify_all :
    (level : ℕ) (name : Text) (cmds : List (Text × Command))
    → Map.find name (verify_all level cmds) ≡ Option.map (verify level) (Map.find name cmds)
unfolding verify_all Map.find
find-verify_all level name [] = refl
find-verify_all level name ((n, c) ∷ cmds) = ground (arith, find-verify_all level name cmds)

-- Every command of the manager has its reader exactly while it is active.
abbrev pub AllLinked : CommandManager → Type 0
AllLinked m = (name : Text) (c : Command) → Map.find name m.commands ≡ some c → IsLinked c

-- Where every reader agrees with its command's mark `active`, after a triggered round of the watcher,
-- outside shutdown, every enabled command is active exactly
-- if it is offered at the level, and every disabled command is as it was.
pub level_watcher-active :
    (m : CommandManager) (name : Text) (c : Command)
    → AllLinked m
    → m.trigger_level_watcher ≡ true
    → m.should_exit ≡ false
    → Map.find name m.commands ≡ some c
    → (c' : Command) × (Map.find name (level_watcher m).commands ≡ some c')
      × (c.enabled ≡ true → c'.active ≡ test_level c m.level)
      × (c.enabled ≡ false → c' ≡ c)
      × ((level_watcher m).level ≡ m.level)
unfolding level_watcher verify_level
level_watcher-active m name c linked triggered running found = (
  verify m.level c,
  ground (arith, find-verify_all m.level name m.commands),
  (verify-active c m.level (linked name c found)).0,
  (verify-active c m.level (linked name c found)).1,
  ground arith,
)

verify_level-AllLinked : (m : CommandManager) → AllLinked m → AllLinked (verify_level m)
unfolding verify_level
verify_level-AllLinked m h name c found = elim (Option-cases (Map.find name m.commands)) [
  | inl absent ↦ ground (arith, find-verify_all m.level name m.commands)
  | inr (d, old) ↦ ground (
    arith,
    find-verify_all m.level name m.commands,
    (operations-IsLinked d m.level (h name d old)).4,
  )
]

at_command-AllLinked :
    (g : Command → Command) (name : Text) (m : CommandManager)
    → ((c : Command) → IsLinked c → IsLinked (g c))
    → AllLinked m
    → AllLinked (at_command g name m)
unfolding at_command
at_command-AllLinked g name m keep h other c found =
    elim (Option-cases (Map.find name m.commands)) [
      | inl absent ↦ h other c (ground arith)
      | inr (d, old) ↦
          ground (arith, find-assign name other (g d) m.commands, h other c, keep d (h name d old))
    ]

level_watcher-AllLinked : (m : CommandManager) → AllLinked m → AllLinked (level_watcher m)
unfolding level_watcher
level_watcher-AllLinked m h = elim (Bool-cases m.trigger_level_watcher) [
  | inr asleep ↦ λ name c found. h name c (ground arith)
  | inl triggered ↦ elim (Bool-cases m.should_exit) [
    | inl over ↦ λ name c found. h name c (ground arith)
    | inr running ↦ λ name c found.
        verify_level-AllLinked (record m { trigger_level_watcher = false }) h name c (ground arith)
  ]
]

change_level-AllLinked :
    (level : ℕ) (m : CommandManager) → AllLinked m → AllLinked (change_level level m)
unfolding change_level trigger
change_level-AllLinked level m h = level_watcher-AllLinked (record m { level = level }) h

activated_if-IsLinked :
    (b : Bool) (c : Command) → IsLinked c → IsLinked (if b then activate c else c)
activated_if-IsLinked true c h = (operations-IsLinked c 0 h).0
activated_if-IsLinked false c h = h

add_command-AllLinked :
    (k : Kind) (name : Text) (n : ℕ) (f : List Text → Bool) (transitions : List (ℕ × ℕ))
    (enabled : Bool) (m : CommandManager)
    → AllLinked m
    → AllLinked (add_command k name n f transitions enabled m)
unfolding add_command
add_command-AllLinked k name n f transitions enabled m h other c found =
    elim (Option-cases (Map.find name m.commands)) [
      | inl absent ↦ ground (
        arith,
        find-emplace_new name other added m.commands absent,
        h other c,
        activated_if-IsLinked (test_level cmd m.level) cmd refl,
      )
      | inr (d, old) ↦ h other c (ground (arith, emplace_old name added d m.commands old))
    ]
  where
    cmd : Command
    cmd = create k name n f transitions enabled

    added : Command
    added = if test_level cmd m.level then activate cmd else cmd

-- Adding a command, a round of the level watcher, a change of the level, and disabling, enabling or
-- changing a command keep every reader and its command's mark `active` together.
pub operations-AllLinked :
    (m : CommandManager) (k : Kind) (name : Text) (n level : ℕ) (f : List Text → Bool)
    (transitions : List (ℕ × ℕ)) (enabled : Bool)
    → AllLinked m
    → AllLinked (add_command k name n f transitions enabled m)
      × AllLinked (level_watcher m)
      × AllLinked (change_level level m)
      × AllLinked (disable_command name m)
      × AllLinked (enable_command name m)
      × AllLinked (change_transitions name transitions m)
unfolding disable_command enable_command change_transitions change_transition_set
operations-AllLinked m k name n level f transitions enabled h = (
  add_command-AllLinked k name n f transitions enabled m h,
  level_watcher-AllLinked m h,
  change_level-AllLinked level m h,
  at_command-AllLinked deactivate name m (λ c l. (operations-IsLinked c level l).1) h,
  at_command-AllLinked activate name m (λ c l. (operations-IsLinked c level l).0) h,
  at_command-AllLinked (change_transition_set transitions) name m (λ c l. l) h,
)
