-- ===== src/Command.antt =====
-- modules/command: one command (CommandBase, Command, CommandWithoutArgs) and its level automaton.
-- `uint` levels are numbers below 2^32. The DDS reader that makes a command reachable is the mark
-- `linked` (ddslink is not null); the function behind a command is its result on the arguments.
-- `none` stands for undefined behaviour: the dereference of `end()` of a map.
pub mod Levels
pub mod Wire
use dls.Common.{
  ℕ, Bool, true, false, not, ◌&&◌, ◌||◌, Option, none, some, List, [], ◌∷◌, Text, nat_eq, ◌==◌,
  length, if◌then◌else◌,
}
use dls.Common.Map.{find, contains}

-- A command that takes its arguments as texts, and the class whose only `call` has no arguments.
pub data Kind : Type 0 where
  with_args without_args : Kind

pub record Command : Type 0 where
  pub kind : Kind
  pub name : Text
  pub num_arg : ℕ
  pub f : List Text → Bool
  pub transition_set : List (ℕ × ℕ)
  pub enabled : Bool
  pub active : Bool
  pub linked : Bool

-- `static const uint ALL_STATES_EXCEPT_ZERO = -1`
abbrev pub all_states_except_zero : ℕ
all_states_except_zero = 4294967295

-- the constructors: inactive, not linked
unfoldable pub create : Kind → Text → ℕ → (List Text → Bool) → List (ℕ × ℕ) → Bool → Command
create k name n f transitions enabled = record {
  kind = k;
  name = name;
  num_arg = n;
  f = f;
  transition_set = transitions;
  enabled = enabled;
  active = false;
  linked = false;
}

-- getNextLevel(curLevel)
unfoldable pub get_next_level : Command → ℕ → Option ℕ
unfolding find
get_next_level c cur_level = elim c.transition_set [
  | [] ↦ some cur_level
  | _ ↦ find cur_level c.transition_set
]

-- testLevel(level)
unfoldable pub test_level : Command → ℕ → Bool
unfolding find
test_level c level =
    if length c.transition_set == 0
      || (length c.transition_set == 1
          && contains all_states_except_zero c.transition_set
          && not (level == 0))
    then true
    else contains level c.transition_set

-- changeTransitionSet(transition_set)
unfoldable pub change_transition_set : List (ℕ × ℕ) → Command → Command
change_transition_set t c = record c { transition_set = t }

-- setEnabled()
unfoldable pub set_enabled : Command → Command
set_enabled c = if c.enabled then c else record c { enabled = true }

-- Command::setDisabled()
unfoldable pub set_disabled_with_args : Command → Command
set_disabled_with_args c = if not c.enabled then c else record c { enabled = false }

-- CommandWithoutArgs::setDisabled(): the guard is `if (isEnabled()) return;`
unfoldable pub set_disabled_without_args : Command → Command
set_disabled_without_args c = if c.enabled then c else record c { enabled = false }

-- the virtual call of setDisabled
unfoldable pub set_disabled : Command → Command
unfolding set_disabled_with_args set_disabled_without_args
set_disabled c = elim c.kind [
  | with_args ↦ set_disabled_with_args c
  | without_args ↦ set_disabled_without_args c
]

-- registerCommand()
unfoldable pub register_command : Command → Command
register_command c = if c.linked then c else record c { linked = true }

-- activate()
unfoldable pub activate : Command → Command
unfolding register_command
activate c = if not c.enabled || c.active then c else record (register_command c) { active = true }

-- deactivate()
unfoldable pub deactivate : Command → Command
deactivate c =
    if not c.enabled || not c.active || not c.linked
    then c
    else record c { linked = false; active = false }
