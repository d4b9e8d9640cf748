-- ===== src/Examples/Commands.antt =====
-- Two command managers, their commands, and calls between them.
use dls.Common.{
  ℕ, ◌≡◌, ◌≢◌, refl, Bool, true, false, none, some, List, [], ◌∷◌, ◌++◌, arith, Text, codes, nat_eq,
  length, inl, if◌then◌else◌, ◌⊎◌, text_eq,
}
use dls.Common.Map
use dls.Command.{
  Command, with_args, create, activate, get_next_level, test_level, all_states_except_zero,
}
use dls.Command.Levels.{get_next_level-of_test_level, all_states_undefined}
use dls.Command.Wire.{participant_entry, participant_entry_lem}
use dls.CommandManager.{
  CommandManager, CommandCall, new_manager, add_command, change_level, find, get_commands_list,
  level_watcher, trigger, disable_command, enable_command, change_transitions, call, receive,
}
use dls.CommandManager.Find.{get_commands_list_complete, In}
use dls.CommandManager.Watch.{AllLinked, level_watcher-active, operations-AllLinked}
use dls.CommandManager.Calls.{
  call_command, call_local, call_command-receive, call_local_level, call_local_undefined,
}

abbrev yes : List Text → Bool
yes args = true

-- A command that two arguments and the level 1 allow; it leads to level 2 and back.
abbrev go_to : Command
go_to = create with_args (codes "goTo") 2 yes ((1, 2) ∷ (2, 1) ∷ []) true

abbrev console : CommandManager
console = new_manager (codes "console")

abbrev walker : CommandManager
walker =
    add_command with_args (codes "goTo") 2 yes ((1, 2) ∷ (2, 1) ∷ []) true
      (record (new_manager (codes "walk")) { level = 1 })

abbrev point : List Text
point = codes "3" ∷ codes "-4" ∷ []

abbrev known : List (Text × Text)
known = (codes "goTo", codes "walk") ∷ (codes "goTo", codes "trot") ∷ []

call_command-receive_example :
    (msg : CommandCall) × (call_command (codes "goTo") point (codes "walk") known console
      ≡ some (record console { sent = msg ∷ console.sent }, 1))
    × (receive msg go_to walker ≡ call go_to point walker)
call_command-receive_example =
    call_command-receive (codes "goTo") (codes "walk") point known console walker go_to
      (codes "goTo", codes "walk") (ground arith) (unfold find in refl)
      (unfold new_manager in ground arith) (unfold add_command new_manager in refl)
      (unfold create in refl) (unfold create in refl) (ground arith)

abbrev empty_walker : CommandManager
empty_walker = record (new_manager (codes "walk")) { level = 1 }

empty_walker-AllLinked : AllLinked empty_walker
empty_walker-AllLinked name c found = unfold new_manager Map.find in ground arith

operations-AllLinked_example :
    AllLinked walker
    × AllLinked (level_watcher empty_walker)
    × AllLinked (change_level 2 empty_walker)
    × AllLinked (disable_command (codes "goTo") empty_walker)
    × AllLinked (enable_command (codes "goTo") empty_walker)
    × AllLinked (change_transitions (codes "goTo") ((1, 2) ∷ (2, 1) ∷ []) empty_walker)
operations-AllLinked_example =
    operations-AllLinked empty_walker with_args (codes "goTo") 2 2 yes ((1, 2) ∷ (2, 1) ∷ []) true
      empty_walker-AllLinked

walker-AllLinked : AllLinked (trigger walker)
walker-AllLinked name c found =
    unfold trigger add_command new_manager create Map.find in ground arith

level_watcher-active_example :
    (c' : Command) × (Map.find (codes "goTo") (level_watcher (trigger walker)).commands ≡ some c')
    × ((activate go_to).enabled ≡ true
        → c'.active ≡ test_level (activate go_to) (trigger walker).level)
    × ((activate go_to).enabled ≡ false → c' ≡ activate go_to)
    × ((level_watcher (trigger walker)).level ≡ (trigger walker).level)
level_watcher-active_example =
    level_watcher-active (trigger walker) (codes "goTo") (activate go_to) walker-AllLinked
      (unfold trigger in refl) (unfold trigger add_command new_manager in refl)
      (unfold trigger add_command new_manager in refl)

participant_entry_run :
    participant_entry (codes "walk" ++ (b':' ∷ b':' ∷ codes "goTo"))
    ≡ some (codes "goTo", codes "walk")
participant_entry_run = participant_entry_lem (codes "walk") (codes "goTo") (ground arith)

get_commands_list_complete_run :
    (es : List (Text × Text)) × (get_commands_list true
        ((codes "walk" ++ (b':' ∷ b':' ∷ codes "goTo"), 7) ∷ [])
        (7 ∷ [])
      ≡ some es)
    × In (codes "goTo", codes "walk") es
get_commands_list_complete_run =
    get_commands_list_complete (codes "walk") (codes "goTo") 7
      ((codes "walk" ++ (b':' ∷ b':' ∷ codes "goTo"), 7) ∷ []) (7 ∷ []) (ground arith)
      (ground arith) (inl refl) (inl refl)

abbrev level_one : ℕ
level_one = 1

get_next_level-of_test_level_run :
    ((next : ℕ) × (get_next_level go_to 1 ≡ some next))
    ⊎ ((length go_to.transition_set ≡ 1)
        × (Map.contains all_states_except_zero go_to.transition_set ≡ true)
        × (level_one ≢ 0))
get_next_level-of_test_level_run =
    get_next_level-of_test_level go_to 1 (unfold test_level create in refl)

abbrev reset : Command
reset = create with_args (codes "deactivate") 0 yes ((all_states_except_zero, 0) ∷ []) true

all_states_undefined_run : (test_level reset 3 ≡ true) × (get_next_level reset 3 ≡ none)
all_states_undefined_run =
    all_states_undefined reset 0 3 (unfold create in refl) (ground arith) (ground arith)

call_local_level_run :
    (m' : CommandManager) × (call_local (codes "goTo") point walker ≡ some (m', 1))
    × (m'.level ≡ (if (activate go_to).f point then 1 else 2))
call_local_level_run =
    call_local_level (codes "goTo") point (activate go_to) walker 2 1
      (unfold add_command new_manager in refl) (unfold activate create in refl)
      (unfold activate create in refl)
      (unfold get_next_level activate create add_command new_manager in refl)
      (unfold get_next_level activate create in refl)

abbrev once : Command
once = create with_args (codes "once") 0 yes ((1, 2) ∷ []) true

abbrev runner : CommandManager
runner = add_command with_args (codes "once") 0 yes ((1, 2) ∷ []) true empty_walker

call_local_undefined_run : call_local (codes "once") [] runner ≡ none
call_local_undefined_run =
    call_local_undefined (codes "once") [] (activate once) runner 2
      (unfold add_command new_manager in refl) (unfold activate create in refl)
      (unfold activate create in refl) (unfold activate create in refl)
      (unfold get_next_level activate create add_command new_manager in refl)
      (unfold get_next_level activate create in refl)
