-- ===== src/PeriodicApp/Commands.antt =====
-- Which of a periodic app's commands are offered at a level.
use dls.Common.{
  ℕ, ◌≡◌, refl, Bool, true, false, some, Text, codes, text_eq, ◌==◌, nat_eq, arith, [], ◌∷◌,
}
use dls.Common.Map.{find, emplace}
use dls.Command.{Command, with_args, test_level, create, activate, register_command}
use dls.CommandManager.{add_command, new_manager}
use dls.Application.Activities.{new_app, app_command}
use dls.PeriodicApp.{new_periodic_app}

-- A command is offered at a level by an app where the app has it and its level test passes.
abbrev pub Offered : Text → Text → ℕ → ℕ → Bool → Type 0
Offered id name now level answer =
    (c : Command) × (find name (new_periodic_app id now).command_manager.commands ≡ some c)
    × (test_level c level ≡ answer)

-- At every level, a periodic app offers "pause" where it offers "activate", at level 0 alone, and
-- "continue" where it offers "stopActivation", at level 1 alone.
pub new_periodic_app-Offered :
    (id : Text) (now level : ℕ)
    → Offered id (codes "pause") now level (level == 0)
      × Offered id (codes "activate") now level (level == 0)
      × Offered id (codes "continue") now level (level == 1)
      × Offered id (codes "stopActivation") now level (level == 1)
unfolding new_periodic_app new_app app_command find emplace add_command create activate
    register_command test_level new_manager
new_periodic_app-Offered id now level = (
  (
    activate (create with_args (codes "pause") 0 (λ args. true) ((0, 1) ∷ []) true),
    refl,
    ground arith,
  ),
  (create with_args (codes "activate") 0 (λ args. true) ((0, 1) ∷ []) false, refl, ground arith),
  (create with_args (codes "continue") 0 (λ args. true) ((1, 0) ∷ []) true, refl, ground arith),
  (
    create with_args (codes "stopActivation") 0 (λ args. true) ((1, 0) ∷ []) false,
    refl,
    ground arith,
  ),
)
