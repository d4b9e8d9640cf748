-- ===== src/CommandManager/Calls.antt =====
-- callCommand: the choice of the command, the local call and the call of another owner.
use dls.Common.{
  ℕ, ◌≡◌, ◌≢◌, Bool, true, false, Option, none, some, List, [], ◌∷◌, Text, codes, nat_eq, text_eq,
  text_beq_iff, ◌==◌, length, if◌then◌else◌, arith,
}
use dls.Common.Map
use dls.Command.{Command, with_args, get_next_level}
use dls.Command.Wire.{out_string, AllNoComma, parse_args-out_string}
use dls.CommandManager.{
  CommandManager, CommandCall, ◌>>=◌, find, find_by_name, call, change_level, receive, send_message,
}

-- args_.size() > 0 && args_.back() == "all"
unfoldable pub ends_in_all : List Text → Bool
ends_in_all [] = false
ends_in_all (a ∷ []) = a == codes "all"
ends_in_all (a ∷ b ∷ as_) = ends_in_all (b ∷ as_)

-- args_.pop_back()
unfoldable pub pop_back : List Text → List Text
pop_back [] = []
pop_back (a ∷ []) = []
pop_back (a ∷ b ∷ as_) = a ∷ pop_back (b ∷ as_)

-- the commands that a call means, with the arguments left
unfoldable pub candidates :
    Text → List Text → Text → List (Text × Text) → List (Text × Text) × List Text
unfolding ends_in_all pop_back find find_by_name
candidates name args owner cmds =
    if owner == []
    then (if ends_in_all args
        then ((name, []) ∷ [], pop_back args)
        else (find_by_name name cmds, args))
    else (find owner name cmds, args)

-- the branch for a command of this manager: the level changes after the call too
unfoldable pub call_local : Text → List Text → CommandManager → Option (CommandManager × ℕ)
unfolding Map.find call get_next_level change_level
call_local name args m = do
  cmd ← Map.find name m.commands
  (m', result) ← call cmd args m
  next ← get_next_level cmd m'.level
  some (change_level next m', 1)

unfoldable pub call_one :
    List (Text × Text) → Text → List Text → CommandManager → Option (CommandManager × ℕ)
unfolding call_local send_message
call_one [] name args m = some (m, 0)
call_one (c ∷ []) name args m =
    if c.1 == m.owner then call_local name args m else some (send_message c args m, 1)
call_one (c ∷ d ∷ cs) name args m = some (m, length (c ∷ d ∷ cs))

-- callCommand(name, args, owner), with what getCommandsList returned
unfoldable pub call_command :
    Text → List Text → Text → List (Text × Text) → CommandManager → Option (CommandManager × ℕ)
unfolding candidates call_one
call_command name args owner cmds m =
    let (cmd_list, args') = candidates name args owner cmds in call_one cmd_list name args' m

-- With no command or several the manager is left alone and their number comes back.
pub call_command_ambiguous :
    (name owner : Text) (args : List Text) (cmds : List (Text × Text)) (m : CommandManager)
    → length (candidates name args owner cmds).0 ≢ 1
    → call_command name args owner cmds m ≡ some (m, length (candidates name args owner cmds).0)
unfolding call_command
call_command_ambiguous name owner args cmds m h = ground arith

-- A call of the one command of another owner is sent, and the reader of that command calls it with
-- the very arguments, if these hold no comma.
pub call_command-receive :
    (name owner : Text) (args : List Text) (cmds : List (Text × Text)) (m remote : CommandManager)
    (cmd : Command) (c : Text × Text)
    → owner ≢ []
    → find owner name cmds ≡ c ∷ []
    → c.1 ≢ m.owner
    → c.1 ≡ remote.owner
    → c.0 ≡ cmd.name
    → cmd.kind ≡ with_args
    → AllNoComma args
    → (msg : CommandCall) × (call_command name args owner cmds m
        ≡ some (record m { sent = msg ∷ m.sent }, 1))
      × (receive msg cmd remote ≡ call cmd args remote)
unfolding call_command receive
call_command-receive name owner args cmds m remote cmd c ne found other there named kind clean = (
  record { owner = c.1; command_name = c.0; args = out_string args },
  ground (arith, text_beq_iff owner [], text_beq_iff c.1 m.owner),
  ground (
    arith,
    text_beq_iff c.1 remote.owner,
    text_beq_iff c.0 cmd.name,
    parse_args-out_string args clean,
  ),
)

level-change_level : (l : ℕ) (m : CommandManager) → (change_level l m).level ≡ l
unfolding change_level
level-change_level l m = ground arith

-- A call of a command of this manager moves its level twice where the function returned true: once
-- in the call and once after it. Where it returned false the level still moves once.
pub call_local_level :
    (name : Text) (args : List Text) (cmd : Command) (m : CommandManager) (l1 l2 : ℕ)
    → Map.find name m.commands ≡ some cmd
    → cmd.kind ≡ with_args
    → length args ≡ cmd.num_arg
    → get_next_level cmd m.level ≡ some l1
    → get_next_level cmd l1 ≡ some l2
    → (m' : CommandManager) × (call_local name args m ≡ some (m', 1))
      × (m'.level ≡ (if cmd.f args then l2 else l1))
unfolding call_local
call_local_level name args cmd m l1 l2 found kind arity n1 n2 = (
  (if cmd.f args then change_level l2 (change_level l1 m) else change_level l1 m),
  ground (arith, level-change_level l1 m),
  ground (arith, level-change_level l1 m, level-change_level l2 (change_level l1 m)),
)

-- Where the command has no transition from the level to which its own call has just led, the second
-- change of the level reads past the end of the transitions.
pub call_local_undefined :
    (name : Text) (args : List Text) (cmd : Command) (m : CommandManager) (l1 : ℕ)
    → Map.find name m.commands ≡ some cmd
    → cmd.kind ≡ with_args
    → length args ≡ cmd.num_arg
    → cmd.f args ≡ true
    → get_next_level cmd m.level ≡ some l1
    → get_next_level cmd l1 ≡ none
    → call_local name args m ≡ none
unfolding call_local
call_local_undefined name args cmd m l1 found kind arity done n1 n2 =
    ground (arith, level-change_level l1 m)
