-- ===== src/PeriodicApp/Factor.antt =====
-- The time factor that one process sets and the others receive.
use dls.Common.{ℕ, ◌≡◌, ◌≤◌, ◌↔◌, arith}
use dls.PeriodicApp.{Time, set_real_time_factor, on_factor}

-- Where one process sets a factor of 1 or more and another receives the message, the two have the
-- same factor exactly if the factor set is above 1 or the other's was 1 before: a return to 1 is not taken.
pub set_real_time_factor-on_factor :
    (factor : ℕ) (sender receiver : Time)
    → 100 ≤ factor
    → ((on_factor factor receiver).time_factor ≡ (set_real_time_factor factor sender).time_factor)
      ↔ ((factor ≡ 100) → receiver.time_factor ≡ 100)
unfolding set_real_time_factor on_factor
set_real_time_factor-on_factor factor sender receiver large =
    (λ same one. ground (arith, same, one, large), λ old. ground (arith, old, large))
