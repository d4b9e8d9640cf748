-- ===== src/Command/Levels.antt =====
-- When a command is offered, where its call leads, and what enabling does.
use dls.Common.{
  ℕ, ◌≡◌, ◌≢◌, true, false, none, some, [], ◌∷◌, ◌⊎◌, inl, inr, arith, nat_eq, if◌then◌else◌,
  length, Option-cases,
}
use dls.Common.Map.{contains}
use dls.Command.{
  Command, without_args, all_states_except_zero, get_next_level, test_level, set_enabled,
  set_disabled, activate, deactivate,
}

-- The reader exists exactly while the command is active.
abbrev pub IsLinked : Command → Type 0
IsLinked c = c.linked ≡ c.active

-- What one round of the level watcher does to a command.
unfoldable pub verify : ℕ → Command → Command
unfolding test_level activate deactivate
verify level c = if test_level c level then activate c else deactivate c

-- A command that is offered at a level has a next level there, unless it is offered by the key
-- ALL_STATES_EXCEPT_ZERO alone.
pub get_next_level-of_test_level :
    (c : Command) (level : ℕ)
    → test_level c level ≡ true
    → ((next : ℕ) × (get_next_level c level ≡ some next))
      ⊎ ((length c.transition_set ≡ 1)
          × (contains all_states_except_zero c.transition_set ≡ true)
          × (level ≢ 0))
unfolding test_level get_next_level
get_next_level-of_test_level c level h = elim (Option-cases (get_next_level c level)) [
  | inl absent ↦ inr (ground arith, ground arith, ground arith)
  | inr (next, found) ↦ inl (next, found)
]

-- A command whose only key is ALL_STATES_EXCEPT_ZERO is offered at every level but 0, and at each
-- of these (but for the key itself) its next level is read past the end of the map.
pub all_states_undefined :
    (c : Command) (to level : ℕ)
    → c.transition_set ≡ (all_states_except_zero, to) ∷ []
    → level ≢ 0
    → level ≢ all_states_except_zero
    → (test_level c level ≡ true) × (get_next_level c level ≡ none)
unfolding test_level get_next_level
all_states_undefined c to level h nonzero other = ground arith

-- The level watcher leaves an enabled command active exactly at the levels where it is offered;
-- a command that has been disabled keeps what it had, so it stays reachable if it was.
pub verify-active :
    (c : Command) (level : ℕ)
    → IsLinked c
    → ((c.enabled ≡ true → (verify level c).active ≡ test_level c level)
        × (c.enabled ≡ false → verify level c ≡ c))
unfolding verify activate deactivate
verify-active c level h = ground arith

-- Every operation on a command keeps the reader and the mark `active` together.
pub operations-IsLinked :
    (c : Command) (level : ℕ)
    → IsLinked c
    → IsLinked (activate c)
      × IsLinked (deactivate c)
      × IsLinked (set_enabled c)
      × IsLinked (set_disabled c)
      × IsLinked (verify level c)
unfolding activate deactivate set_enabled set_disabled verify
operations-IsLinked c level h = ground arith

-- setDisabled after setEnabled leaves a command of class Command disabled, and one of class
-- CommandWithoutArgs enabled.
pub set_disabled_by_kind :
    (c : Command)
    → ((set_disabled (set_enabled c)).enabled ≡ true → c.kind ≡ without_args)
      × (c.kind ≡ without_args → (set_disabled (set_enabled c)).enabled ≡ true)
unfolding set_disabled set_enabled
set_disabled_by_kind c = ground arith
