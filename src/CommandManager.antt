-- ===== src/CommandManager.antt =====
-- modules/command/src/command_manager.cpp: the commands of one owner, their level, the search for
-- commands in the framework, and calls. What DDS discovers (the participants, the matched readers)
-- is an argument; sent messages are a list, newest first. `none` stands for undefined behaviour
-- (`end()` dereferenced) or for the exception of substr. The order of a multimap is not modelled.
pub mod Find
pub mod Watch
pub mod Calls
pub mod Foreign
pub mod Offers
use dls.Common.{
  ℕ, Bool, true, false, not, ◌&&◌, ◌||◌, Option, none, some, List, [], ◌∷◌, ◌++◌, map, Text, codes,
  nat_eq, text_eq, ◌==◌, length, select, if◌then◌else◌,
}
use dls.Common.Map
use dls.Common.Map.{contains, assign, emplace}
use dls.Command.{
  Command, Kind, with_args, without_args, create, get_next_level, test_level, change_transition_set,
  activate, deactivate,
}
use dls.Command.Levels.{verify}
use dls.Command.Wire.{out_string, parse_args, participant_entry}

pub record CommandCall : Type 0 where
  pub owner : Text
  pub command_name : Text
  pub args : Text

pub record CommandManager : Type 0 where
  pub owner : Text
  pub commands : List (Text × Command)
  pub level : ℕ
  pub trigger_level_watcher : Bool
  pub should_exit : Bool
  pub sent : List CommandCall

infixl 5 ◌>>=◌
abbrev pub ◌>>=◌ {ℓ κ} : {A : Type ℓ} {B : Type κ} → Option A → (A → Option B) → Option B
none >>= f = none
some a >>= f = f a

-- the constructor
unfoldable pub new_manager : Text → CommandManager
new_manager owner = record {
  owner = owner;
  commands = [];
  level = 0;
  trigger_level_watcher = false;
  should_exit = false;
  sent = [];
}

-- the inner loop of getCommandsList: the participants with the guid prefix of one matched reader
unfoldable pub entries_of : ℕ → List (Text × ℕ) → Option (List (Text × Text))
unfolding participant_entry
entries_of prefix [] = some []
entries_of prefix ((name, guid) ∷ rest) =
    let others = entries_of prefix rest in
    if guid == prefix then (do e ← participant_entry name; es ← others; some (e ∷ es)) else others

-- getCommandsList(): {} without a listener; otherwise the entries {name, owner} of the readers
unfoldable pub get_commands_list : Bool → List (Text × ℕ) → List ℕ → Option (List (Text × Text))
unfolding entries_of
get_commands_list false discovered matched = some []
get_commands_list true discovered [] = some []
get_commands_list true discovered (prefix ∷ rest) = do
  es ← entries_of prefix discovered
  others ← get_commands_list true discovered rest
  some (es ++ others)

-- findByOwner(owner): `cmdlst` is filled and `cmds` is returned
unfoldable pub find_by_owner : Text → List (Text × Text) → List (Text × Text)
find_by_owner owner cmds =
    if length cmds == 0 then [] else let cmdlst = select (λ c. c.1 == owner) cmds in cmds

-- findByName(name)
unfoldable pub find_by_name : Text → List (Text × Text) → List (Text × Text)
find_by_name name cmds =
    let range = select (λ c. c.0 == name) cmds in if length range == 0 then [] else range

abbrev pub swap_entry : Text × Text → Text × Text
swap_entry (a, b) = (b, a)

-- find(owner, name): by name with the entries turned round, then by owner and back
unfoldable pub find : Text → Text → List (Text × Text) → List (Text × Text)
find owner name cmds =
    let cmdlst = map swap_entry (select (λ c. c.0 == name) cmds) in
    let range = select (λ c. c.0 == owner) cmdlst in
    if length cmdlst == 0 then [] else if length range == 0 then [] else map swap_entry range

-- verifyLevel()
unfoldable pub verify_all : ℕ → List (Text × Command) → List (Text × Command)
unfolding verify
verify_all level [] = []
verify_all level ((name, cmd) ∷ rest) = (name, verify level cmd) ∷ verify_all level rest

unfoldable pub verify_level : CommandManager → CommandManager
unfolding verify_all
verify_level m = record m { commands = verify_all m.level m.commands }

-- One round of levelWatcher(), asleep while it has not been triggered.
unfoldable pub level_watcher : CommandManager → CommandManager
unfolding verify_level
level_watcher m =
    if not m.trigger_level_watcher
    then m
    else let m' = record m { trigger_level_watcher = false } in
      if m.should_exit then m' else verify_level m'

-- triggerLevelWatcher(): `wait(true)` lets the watcher take an earlier trigger first
unfoldable pub trigger : CommandManager → CommandManager
unfolding level_watcher
trigger m = record (level_watcher m) { trigger_level_watcher = true }

-- changeLevel(level)
unfoldable pub change_level : ℕ → CommandManager → CommandManager
unfolding trigger
change_level level m = trigger (record m { level = level })

-- addCommand(...)
unfoldable pub add_command :
    Kind → Text → ℕ → (List Text → Bool) → List (ℕ × ℕ) → Bool → CommandManager → CommandManager
unfolding create test_level activate emplace
add_command k name n f transitions enabled m =
    let cmd = create k name n f transitions enabled in
    let cmd' = if test_level cmd m.level then activate cmd else cmd in
    record m { commands = emplace name cmd' m.commands }

-- the pattern `if(commands.contains(name)) commands[name]->...`
unfoldable pub at_command : (Command → Command) → Text → CommandManager → CommandManager
unfolding Map.find assign
at_command g name m = elim (Map.find name m.commands) [
  | none ↦ m
  | some cmd ↦ record m { commands = assign name (g cmd) m.commands }
]

-- disableCommand(name), enableCommand(name), changeTransitionSet(name, set)
unfoldable pub disable_command : Text → CommandManager → CommandManager
unfolding at_command deactivate
disable_command name m = at_command deactivate name m

unfoldable pub enable_command : Text → CommandManager → CommandManager
unfolding at_command activate
enable_command name m = at_command activate name m

unfoldable pub change_transitions : Text → List (ℕ × ℕ) → CommandManager → CommandManager
unfolding at_command change_transition_set
change_transitions name set m = at_command (change_transition_set set) name m

-- Command::call(args) and, for CommandWithoutArgs, the `call(args)` of CommandBase
unfoldable pub call : Command → List Text → CommandManager → Option (CommandManager × Bool)
unfolding get_next_level change_level
call cmd args m = elim cmd.kind [
  | without_args ↦ some (m, false)
  | with_args ↦
      if not (length args == cmd.num_arg)
      then some (m, false)
      else if cmd.f args
      then (do next ← get_next_level cmd m.level; some (change_level next m, true))
      else some (m, true)
]

-- CommandWithoutArgs::call()
unfoldable pub call_without_args : Command → CommandManager → Option (CommandManager × Bool)
unfolding get_next_level change_level
call_without_args cmd m =
    if cmd.f []
    then (do next ← get_next_level cmd m.level; some (change_level next m, true))
    else some (m, true)

-- the callback of a command's reader
unfoldable pub receive : CommandCall → Command → CommandManager → Option (CommandManager × Bool)
unfolding call call_without_args parse_args
receive msg cmd m =
    if (not (msg.owner == []) && not (msg.owner == m.owner)) || not (msg.command_name == cmd.name)
    then some (m, false)
    else elim cmd.kind [
      | with_args ↦ call cmd (parse_args msg.args) m
      | without_args ↦ call_without_args cmd m
    ]

-- sendMessage(cmdData, args)
unfoldable pub send_message : Text × Text → List Text → CommandManager → CommandManager
unfolding out_string
send_message (name, owner) args m =
    let msg : CommandCall = record { owner = owner; command_name = name; args = out_string args } in
    record m { sent = msg ∷ m.sent }
