-- ===== src/Application/Inherited.antt =====
-- The commands that every application has from the constructor of App (modules/application/src/app.cpp)
-- as a layer that inherits them meets them: each function raises an event of the state machine, or
-- prints, and answers true, so that of a layer's own fields only the level can change.
use dls.Common.{ℕ, ◌≡◌, Bool, true, false, some, [], ◌∷◌, codes, nat_eq, ◌==◌, if◌then◌else◌, arith}
use dls.Command.{Command, with_args, create, all_states_except_zero, get_next_level, test_level}

pub data AppRequest : Type 0 where
  shutdown_call where_call activate_call stop_activation_call deactivate_call : AppRequest

-- the command that a call is of; one that has a reader has been enabled
unfoldable pub inherited : AppRequest → Command
unfolding create
inherited shutdown_call = create with_args (codes "shutdown") 0 (λ args. true) [] true
inherited where_call = create with_args (codes "where") 0 (λ args. true) [] true
inherited activate_call = create with_args (codes "activate") 0 (λ args. true) ((0, 1) ∷ []) true
inherited stop_activation_call =
    create with_args (codes "stopActivation") 0 (λ args. true) ((1, 0) ∷ []) true
inherited deactivate_call =
    create with_args (codes "deactivate") 0 (λ args. true) ((all_states_except_zero, 0) ∷ []) true

abbrev pub is_deactivate : AppRequest → Bool
is_deactivate deactivate_call = true
is_deactivate _ = false

-- The level after a call of an inherited command: only activate at level 0 and stopActivation at
-- level 1 move it.
abbrev pub moved_level : AppRequest → ℕ → ℕ
moved_level activate_call level = if level == 0 then 1 else level
moved_level stop_activation_call level = if level == 1 then 0 else level
moved_level _ level = level

-- A command other than deactivate is either not offered at a level, where nothing moves, or has a
-- next level there.
pub inherited_level :
    (r : AppRequest) (level : ℕ)
    → is_deactivate r ≡ false
    → test_level (inherited r) level ≡ true
    → get_next_level (inherited r) level ≡ some (moved_level r level)
unfolding inherited test_level get_next_level
inherited_level shutdown_call level no_ h = ground arith
inherited_level where_call level no_ h = ground arith
inherited_level activate_call level no_ h = ground arith
inherited_level stop_activation_call level no_ h = ground arith
inherited_level deactivate_call level no_ h = ground arith

pub inherited_hidden :
    (r : AppRequest) (level : ℕ)
    → test_level (inherited r) level ≡ false
    → moved_level r level ≡ level
unfolding inherited test_level
inherited_hidden shutdown_call level h = ground arith
inherited_hidden where_call level h = ground arith
inherited_hidden activate_call level h = ground arith
inherited_hidden stop_activation_call level h = ground arith
inherited_hidden deactivate_call level h = ground arith
