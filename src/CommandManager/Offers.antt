-- ===== src/CommandManager/Offers.antt =====
-- command_manager.cpp: waitCommand, getOwnersList, getCommand and the destructor.
use dls.Common.{
  ℕ, ◌≡◌, ◌≢◌, refl, Bool, true, false, not, Option, some, List, [], ◌∷◌, length, Text, text_eq,
  text_beq_iff, nat_eq, ◌==◌, if◌then◌else◌, arith,
}
use dls.Common.Map
use mathlib.Core.Option
use dls.Command.{Command, deactivate}
use dls.CommandManager.{CommandManager, find, level_watcher, trigger}
use dls.CommandManager.Watch.{AllLinked}
use dls.Waiting.{Poll, wait}

-- whether the commands that were discovered hold one of that owner and name
abbrev pub discovered : Text → Text → List (Text × Text) → Bool
discovered owner name cmds = not (length (find owner name cmds) == 0)

-- waitCommand(owner, name, stop_wait, timeout_ms), with the commands that each poll discovers
unfoldable pub wait_command : Text → Text → ℕ → List (Poll (List (Text × Text))) → Option Bool
unfolding wait find
wait_command owner name timeout polls = wait (discovered owner name) timeout polls

-- set.insert(owner)
unfoldable pub insert_owner : Text → List Text → List Text
insert_owner owner [] = owner ∷ []
insert_owner owner (o ∷ owners) = if o == owner then o ∷ owners else o ∷ insert_owner owner owners

unfoldable pub owners_of : Text → List (Text × Command) → List Text → List Text
unfolding insert_owner
owners_of owner [] owners = owners
owners_of owner (e ∷ cmds) owners = owners_of owner cmds (insert_owner owner owners)

-- getOwnersList(): the owner of a command is its manager's
unfoldable pub get_owners_list : CommandManager → List Text
unfolding owners_of
get_owners_list m = owners_of m.owner m.commands []

-- getCommand(name), `none` for the null pointer
unfoldable pub get_command : Text → CommandManager → Option Command
unfolding Map.find
get_command name m = Map.find name m.commands

unfoldable pub deactivate_all : List (Text × Command) → List (Text × Command)
unfolding deactivate
deactivate_all [] = []
deactivate_all ((name, cmd) ∷ rest) = (name, deactivate cmd) ∷ deactivate_all rest

-- ~CommandManager(): the watcher ends at its first round. Where it had been triggered before, that is
-- the round that the last trigger waits for.
unfoldable pub delete_manager : CommandManager → CommandManager
unfolding deactivate_all trigger level_watcher
delete_manager m =
    let woken = trigger (record m { should_exit = true; commands = deactivate_all m.commands }) in
    if m.trigger_level_watcher then woken else level_watcher woken

find-deactivate_all :
    (name : Text) (cmds : List (Text × Command))
    → Map.find name (deactivate_all cmds) ≡ Option.map deactivate (Map.find name cmds)
unfolding deactivate_all Map.find
find-deactivate_all name [] = refl
find-deactivate_all name ((n, c) ∷ cmds) = ground (arith, find-deactivate_all name cmds)

deactivate-unlinks :
    (c : Command)
    → c.linked ≡ c.active
    → (c.enabled ≡ true → ((deactivate c).active ≡ false) × ((deactivate c).linked ≡ false))
      × (c.enabled ≡ false → deactivate c ≡ c)
unfolding deactivate
deactivate-unlinks c h = ground arith

commands-delete_manager :
    (m : CommandManager) → (delete_manager m).commands ≡ deactivate_all m.commands
unfolding delete_manager trigger level_watcher
commands-delete_manager m = ground arith

-- Where every reader agrees with its command's mark `active`, the destructor leaves every enabled
-- command inactive and without a reader, and the last round of the watcher brings none back; a
-- command that has been disabled is left as it was, reachable if it was. A trigger is left over
-- exactly where the watcher had been triggered before.
pub delete_manager-unlinks :
    (m : CommandManager) (name : Text) (c : Command)
    → AllLinked m
    → get_command name m ≡ some c
    → (c' : Command) × (get_command name (delete_manager m) ≡ some c')
      × (c.enabled ≡ true → (c'.active ≡ false) × (c'.linked ≡ false))
      × (c.enabled ≡ false → c' ≡ c)
      × ((delete_manager m).trigger_level_watcher ≡ m.trigger_level_watcher)
unfolding get_command
delete_manager-unlinks m name c linked found = (
  deactivate c,
  ground (arith, commands-delete_manager m, find-deactivate_all name m.commands),
  (deactivate-unlinks c (linked name c found)).0,
  (deactivate-unlinks c (linked name c found)).1,
  unfold delete_manager trigger level_watcher in ground arith,
)

insert_owner_self : (owner : Text) → insert_owner owner (owner ∷ []) ≡ owner ∷ []
unfolding insert_owner
insert_owner_self owner = ground (arith, text_beq_iff owner owner)

owners_of_self :
    (owner : Text) (cmds : List (Text × Command)) → owners_of owner cmds (owner ∷ []) ≡ owner ∷ []
unfolding owners_of
owners_of_self owner [] = refl
owners_of_self owner (e ∷ cmds) = rw (insert_owner_self owner) (owners_of_self owner cmds)

-- A manager that has commands lists itself and no other owner, whatever is discovered.
pub get_owners_list_lem : (m : CommandManager) → m.commands ≢ [] → get_owners_list m ≡ m.owner ∷ []
unfolding get_owners_list owners_of insert_owner
get_owners_list_lem m h = of_commands m.commands h
  where
    of_commands :
        (cmds : List (Text × Command)) → cmds ≢ [] → owners_of m.owner cmds [] ≡ m.owner ∷ []
    of_commands [] ne = absurd (ne refl)
    of_commands (e ∷ cmds) ne = owners_of_self m.owner cmds
