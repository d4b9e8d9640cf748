-- ===== src/PeriodicApp/Frequency.antt =====
-- What checkRT tells the watchers over a run of checks.
use dls.Common.{
  ◌≡◌, refl, Bool, true, Option, none, some, List, [], ◌∷◌, arith, Bool-cases, inl, inr, ◌∙◌,
}
use dls.StateMachine.{notify, notify_rt}
use dls.Application.States.{Machine, state_eq, event_eq}
use dls.PeriodicApp.{Realtime, check_frequency}

unfoldable pub check_all : List Bool → Realtime → Realtime
unfolding check_frequency
check_all [] r = r
check_all (realtime ∷ rest) r = check_all rest (check_frequency realtime r)

abbrev pub latest : Bool → List Bool → Bool
latest b [] = b
latest b (x ∷ xs) = latest x xs

-- what the watchers were told last
abbrev pub told : Machine → Option Bool
told m = elim m.sent [ [] ↦ none | (state, realtime) ∷ rest ↦ some realtime ]

pub check_frequency-told :
    (realtime : Bool) (r : Realtime)
    → r.sm.realtime r.sm.state ≡ true
    → told r.sm ≡ some r.realtime_prec
    → let r' = check_frequency realtime r in
      (told r'.sm ≡ some realtime)
      × (r'.sm.state ≡ r.sm.state)
      × (r'.sm.realtime r'.sm.state ≡ true)
unfolding check_frequency notify_rt notify
check_frequency-told realtime r live announced = elim (Bool-cases realtime) [
  | inl yes_now ↦ elim (Bool-cases r.realtime_prec) [
    | inl before ↦ ground (arith, live, announced, yes_now, before)
    | inr before ↦ ground (arith, live, announced, yes_now, before)
  ]
  | inr not_now ↦ ground (arith, live, announced, not_now)
]

-- In a real-time state that has been announced as such, after any run of checks the last message sent
-- tells what the last check found, and the state is the same.
pub check_all-told :
    (checks : List Bool) (r : Realtime)
    → r.sm.realtime r.sm.state ≡ true
    → told r.sm ≡ some r.realtime_prec
    → let r' = check_all checks r in
      (told r'.sm ≡ some (latest r.realtime_prec checks))
      × (r'.realtime_prec ≡ latest r.realtime_prec checks)
      × (r'.sm.state ≡ r.sm.state)
unfolding check_all check_frequency
check_all-told [] r live announced = (announced, refl, refl)
check_all-told (realtime ∷ rest) r live announced =
    let (now_told, same, still) = check_frequency-told realtime r live announced in
    let (t, p, st) = check_all-told rest (check_frequency realtime r) still now_told in
    (t, p, st ∙ same)
