-- ===== src/CommandManager/Foreign.antt =====
-- callCommand for the command of another owner (command_manager.cpp).
use dls.Common.{
  ℕ, ◌≡◌, ◌≢◌, refl, some, none, List, [], ◌∷◌, select, Text, text_eq, text_beq_iff, nat_eq, arith,
  length, ◌==◌, if◌then◌else◌,
}
use dls.Command.Wire.{out_string}
use dls.CommandManager.{CommandManager, send_message}
use dls.CommandManager.Find.{find_lem, named}
use dls.CommandManager.Calls.{call_command, call_one}

-- one of the commands found has the owner that they were looked for by
first_named :
    (owner name : Text) (c : Text × Text) (cmds rest : List (Text × Text))
    → select (named owner name) cmds ≡ c ∷ rest
    → c.1 ≡ owner
first_named owner name c [] rest h = ground arith
first_named owner name c ((a, b) ∷ cmds) rest h =
    ground (arith, text_beq_iff a name, text_beq_iff b owner, first_named owner name c cmds rest)

call_one-keeps :
    (cs : List (Text × Text)) (owner name : Text) (m m' : CommandManager) (count : ℕ)
    → ((c : Text × Text) (rest : List (Text × Text)) → cs ≡ c ∷ rest → c.1 ≡ owner)
    → owner ≢ m.owner
    → call_one cs name [] m ≡ some (m', count)
    → (m'.level ≡ m.level) × (m'.owner ≡ m.owner)
unfolding call_one send_message
call_one-keeps [] owner name m m' count from other h = ground arith
call_one-keeps (c ∷ []) owner name m m' count from other h =
    ground (arith, from c [] refl, text_beq_iff c.1 m.owner)
call_one-keeps (c ∷ d ∷ cs) owner name m m' count from other h = ground arith

-- A call of another owner's command leaves the level.
pub call_command-keeps :
    (name owner : Text) (cmds : List (Text × Text)) (m m' : CommandManager) (count : ℕ)
    → owner ≢ []
    → owner ≢ m.owner
    → call_command name [] owner cmds m ≡ some (m', count)
    → (m'.level ≡ m.level) × (m'.owner ≡ m.owner)
unfolding call_command
call_command-keeps name owner cmds m m' count ne other h =
    call_one-keeps (select (named owner name) cmds) owner name m m' count
      (λ c rest e. first_named owner name c cmds rest e) other
      (ground (arith, text_beq_iff owner [], find_lem owner name cmds))

call_one-defined :
    (cs : List (Text × Text)) (owner name : Text) (m : CommandManager)
    → ((c : Text × Text) (rest : List (Text × Text)) → cs ≡ c ∷ rest → c.1 ≡ owner)
    → owner ≢ m.owner
    → call_one cs name [] m ≢ none
unfolding call_one
call_one-defined [] owner name m from other = ground arith
call_one-defined (c ∷ []) owner name m from other =
    ground (arith, from c [] refl, text_beq_iff c.1 m.owner)
call_one-defined (c ∷ d ∷ cs) owner name m from other = ground arith

-- A call of another owner's command is defined, whatever is found.
pub call_command-defined :
    (name owner : Text) (cmds : List (Text × Text)) (m : CommandManager)
    → owner ≢ []
    → owner ≢ m.owner
    → call_command name [] owner cmds m ≢ none
unfolding call_command
call_command-defined name owner cmds m ne other =
    let defined =
      call_one-defined (select (named owner name) cmds) owner name m
        (λ c rest e. first_named owner name c cmds rest e) other in
    ground (arith, defined, text_beq_iff owner [], find_lem owner name cmds)

named_name :
    (owner name : Text) (c : Text × Text) (cmds rest : List (Text × Text))
    → select (named owner name) cmds ≡ c ∷ rest
    → c.0 ≡ name
named_name owner name c [] rest h = ground arith
named_name owner name c ((a, b) ∷ cmds) rest h =
    ground (arith, text_beq_iff a name, text_beq_iff b owner, named_name owner name c cmds rest)

-- The manager after a call without arguments of another owner's command: where exactly one command
-- of the owner and name is listed, one message for it has been sent.
abbrev pub sent_once : Text → Text → List (Text × Text) → CommandManager → CommandManager
sent_once name owner cmds m =
    if length (select (named owner name) cmds) == 1
    then record m {
      sent = record { owner = owner; command_name = name; args = out_string [] } ∷ m.sent;
    }
    else m

call_one-sends :
    (cs : List (Text × Text)) (owner name : Text) (m : CommandManager)
    → ((c : Text × Text) (rest : List (Text × Text)) → cs ≡ c ∷ rest → (c.0 ≡ name) × (c.1 ≡ owner))
    → owner ≢ m.owner
    → call_one cs name [] m
      ≡ some (
        if length cs == 1
            then record m {
              sent = record { owner = owner; command_name = name; args = out_string [] } ∷ m.sent;
            }
            else m,
        length cs,
      )
unfolding call_one send_message
call_one-sends [] owner name m from other = ground arith
call_one-sends (c ∷ []) owner name m from other =
    ground (arith, from c [] refl, text_beq_iff c.1 m.owner)
call_one-sends (c ∷ d ∷ cs) owner name m from other = ground arith

pub call_command-sends :
    (name owner : Text) (cmds : List (Text × Text)) (m : CommandManager)
    → owner ≢ []
    → owner ≢ m.owner
    → call_command name [] owner cmds m
      ≡ some (sent_once name owner cmds m, length (select (named owner name) cmds))
unfolding call_command
call_command-sends name owner cmds m ne other =
    let sends =
      call_one-sends (select (named owner name) cmds) owner name m
        (λ c rest e. (named_name owner name c cmds rest e, first_named owner name c cmds rest e))
        other in
    ground (arith, sends, text_beq_iff owner [], find_lem owner name cmds)
