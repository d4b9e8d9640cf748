-- ===== src/Postures.antt =====
-- modules/motion_generator/src/motion_generator.cpp: the requests for the two postures and the choice
-- among them, the default configurations, which are read joint by joint from a file, and the command
-- of the console. What runGoHome and runGoFold, of the generator that extends the class, make of the
-- requests is an argument.
use dls.Common.{
  ℕ, ◌≡◌, Bool, true, false, ◌&&◌, not, Option, none, some, List, [], ◌∷◌, Text, codes, text_eq,
  if◌then◌else◌, arith,
}
use dls.Common.Map.{find, assign}
use dls.Common.{nat_eq}
use dls.Command.{with_args}
use dls.CommandManager.{CommandManager, add_command}

pub record MotionGenerator : Type 0 where
  pub go_home : Bool
  pub go_fold : Bool

unfoldable pub new_motion_generator : MotionGenerator
new_motion_generator = record { go_home = false; go_fold = false }

-- goHome() and goFold()
unfoldable pub request_home : MotionGenerator → MotionGenerator
request_home g = if not g.go_fold then record g { go_home = true } else g

unfoldable pub request_fold : MotionGenerator → MotionGenerator
request_fold g = if not g.go_home then record g { go_fold = true } else g

-- runPostures()
unfoldable pub run_postures :
    (MotionGenerator → MotionGenerator)
    → (MotionGenerator → MotionGenerator)
    → MotionGenerator
    → MotionGenerator
run_postures run_home run_fold g =
    if g.go_home then run_home g else if g.go_fold then run_fold g else g

-- setHomeConfiguration() and setFoldConfiguration(): the joints with their names, the file's entries, and a
-- value for each joint; `none` where a joint has no entry
unfoldable pub set_configuration {ℓ} :
    {A : Type ℓ} → List (ℕ × Text) → List (Text × A) → List (ℕ × A) → Option (List (ℕ × A))
unfolding find assign
set_configuration [] config state = some state
set_configuration ((id, name) ∷ joints) config state = elim (find name config) [
  | none ↦ none
  | some value ↦ set_configuration joints config (assign id value state)
]

-- setConsoleFunctions(): stopMotion itself is of the generator that extends the class
unfoldable pub set_console_functions : CommandManager → CommandManager
unfolding add_command
set_console_functions m =
    add_command with_args (codes "stopMotion") 0 (λ args. true) ((2, 1) ∷ []) true m

-- what is called on a generator, one call after another
pub data Call : Type 0 where
  home : Call
  fold : Call
  postures : Call

module _ (run_home run_fold : MotionGenerator → MotionGenerator) where
  unfoldable pub run_calls : List Call → MotionGenerator → MotionGenerator
  unfolding request_home request_fold run_postures
  run_calls [] g = g
  run_calls (home ∷ calls) g = run_calls calls (request_home g)
  run_calls (fold ∷ calls) g = run_calls calls (request_fold g)
  run_calls (postures ∷ calls) g = run_calls calls (run_postures run_home run_fold g)

  -- one posture is asked for at most
  abbrev pub IsSingle : MotionGenerator → Type 0
  IsSingle g = (g.go_home && g.go_fold) ≡ false

  -- Where neither procedure leaves both requests standing, no sequence of calls does.
  run_calls-IsSingle :
      (calls : List Call) (g : MotionGenerator)
      → ((h : MotionGenerator) → IsSingle h → IsSingle (run_home h))
      → ((h : MotionGenerator) → IsSingle h → IsSingle (run_fold h))
      → IsSingle g
      → IsSingle (run_calls calls g)
  unfolding run_calls
  run_calls-IsSingle [] g at_home at_fold single = single
  run_calls-IsSingle (home ∷ calls) g at_home at_fold single =
      run_calls-IsSingle calls (request_home g) at_home at_fold
        (unfold request_home in ground (arith, single))
  run_calls-IsSingle (fold ∷ calls) g at_home at_fold single =
      run_calls-IsSingle calls (request_fold g) at_home at_fold
        (unfold request_fold in ground (arith, single))
  run_calls-IsSingle (postures ∷ calls) g at_home at_fold single =
      run_calls-IsSingle calls (run_postures run_home run_fold g) at_home at_fold
        (unfold run_postures in ground (arith, single, at_home g single, at_fold g single))
