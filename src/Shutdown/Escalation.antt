-- ===== src/Shutdown/Escalation.antt =====
-- shutdownProcesses ends in bounded time, and what it returns is true of the processes.
use dls.Common.{
  ℕ, zero, suc, ◌+◌, ◌*◌, ◌<◌, List, [], ◌∷◌, Bool, true, false, ◌&&◌, ◌||◌, not, some,
  if◌then◌else◌, leb, ◌≤◌, ◌≡◌, refl, arith, Bool-cases, inl, inr, ◌∙◌, ap,
}
use dls.Shutdown.{
  System, OwnedProcess, running, signal, any_running, wait_until, wait, signal_all, detach,
  detach_all, attempt, shutdown_processes, sigint, sigterm, sigkill,
}

-- The process has ended, as far as the object knows.
abbrev pub gone : OwnedProcess → Bool
gone p = p.finished || p.leader_exited && not p.own_group

-- The process has ended or is no longer owned.
abbrev pub left : OwnedProcess → Bool
left p = gone p || p.detached

abbrev pub all : (OwnedProcess → Bool) → List OwnedProcess → Bool
all test [] = true
all test (p ∷ ps) = test p && all test ps

-- Sleeping takes 20 ms or a little more, signals take no time.
pub record IsTimely {ℓ} {W : Type ℓ} (late : ℕ) (system : System W) : Type ℓ where
  pub passes : (w : W) → system.now w + 20 ≤ system.now (system.sleep w)
  pub wakes : (w : W) → system.now (system.sleep w) ≤ system.now w + 20 + late
  pub instant :
      (group : Bool) (id value : ℕ) (w : W)
      → system.now (system.kill group id value w) ≡ system.now w

module _ {ℓ} {W : Type ℓ} (system : System W) where
  running-gone :
      (w : W) (p : OwnedProcess) → let (runs, p') = running system w p in gone p' ≡ not runs
  unfolding running
  running-gone w p = ground arith

  any_running-gone :
      (w : W) (ps : List OwnedProcess)
      → let (any, ps') = any_running system w ps in any ≡ false → all gone ps' ≡ true
  unfolding any_running
  any_running-gone w [] quiet = refl
  any_running-gone w (p ∷ ps) quiet = ground (arith, quiet, running-gone w p, any_running-gone w ps)

  -- wait returns true only where every process has ended
  wait_until-gone :
      (fuel deadline : ℕ) (ps : List OwnedProcess) (w : W) (ps' : List OwnedProcess) (w' : W)
      → wait_until system fuel deadline ps w ≡ some (true, (ps', w'))
      → all gone ps' ≡ true
  unfolding wait_until
  wait_until-gone zero deadline ps w ps' w' e = ground arith
  wait_until-gone (suc fuel) deadline ps w ps' w' e =
      let (any, now_ps) = any_running system w ps in
      let quiet = any_running-gone w ps in
      elim (Bool-cases any) [
        | inl some_run ↦ elim (Bool-cases (leb deadline (system.now w))) [
          | inl over ↦ ground (arith, e, some_run, over)
          | inr early ↦
              wait_until-gone fuel deadline now_ps (system.sleep w) ps' w'
                (ground (arith, e, some_run, early))
        ]
        | inr none_run ↦ ground (arith, e, none_run, quiet none_run)
      ]

  detach_all-left : (w : W) (ps : List OwnedProcess) → all left (detach_all system w ps) ≡ true
  unfolding detach_all detach
  detach_all-left w [] = refl
  detach_all-left w (p ∷ ps) = ground (arith, running-gone w p, detach_all-left w ps)

  left-of_gone : (ps : List OwnedProcess) → all gone ps ≡ true → all left ps ≡ true
  left-of_gone [] h = refl
  left-of_gone (p ∷ ps) h = ground (arith, h, left-of_gone ps)

  module _ (late : ℕ) (timely : IsTimely late system) where
    signal_all-now :
        (value : ℕ) (ps : List OwnedProcess) (w : W)
        → let (ps', w') = signal_all system value ps w in system.now w' ≡ system.now w
    unfolding signal_all signal
    signal_all-now value [] w = refl
    signal_all-now value (p ∷ ps) w =
        let (runs, p') = running system w p in
        let next = signal_all-now value ps (if runs then signal system value p' w else w) in
        let sent = timely.instant p'.own_group p'.id value w in ground (arith, next, sent)

    wait_until_ends :
        (n deadline : ℕ) (ps : List OwnedProcess) (w : W)
        → deadline ≤ system.now w + 20 * n
        → system.now w < deadline + 20 + late
        → (ended : Bool) × (ps' : List OwnedProcess) × (w' : W) × (wait_until system
              (suc n)
              deadline
              ps
              w
            ≡ some (ended, (ps', w')))
          × (system.now w' < deadline + 20 + late)
    unfolding wait_until
    wait_until_ends zero deadline ps w enough near =
        let (any, now_ps) = any_running system w ps in
        let over : leb deadline (system.now w) ≡ true = ground (arith, enough) in
        elim (Bool-cases any) [
          | inr none_run ↦ (true, now_ps, w, rw none_run refl, near)
          | inl some_run ↦ (false, now_ps, w, rw (some_run, over) refl, near)
        ]
    wait_until_ends (suc n) deadline ps w enough near =
        let (any, now_ps) = any_running system w ps in
        elim (Bool-cases any) [
          | inr none_run ↦ (true, now_ps, w, rw none_run refl, near)
          | inl some_run ↦ elim (Bool-cases (leb deadline (system.now w))) [
            | inl over ↦ (false, now_ps, w, rw (some_run, over) refl, near)
            | inr early ↦
                let next = system.sleep w in
                let before : system.now w < deadline = ground (arith, early) in
                let (ended, ps', w', done, soon) =
                  wait_until_ends n deadline now_ps next (omega (arith, enough, timely.passes w))
                    (omega (arith, before, timely.wakes w)) in
                (ended, ps', w', rw (wait_until, some_run, early) done, soon)
          ]
        ]

    -- a signal and the wait after it
    attempt_ends :
        (n value duration : ℕ) (ps : List OwnedProcess) (w : W)
        → duration ≤ 20 * n
        → (ended : Bool) × (ps' : List OwnedProcess) × (w' : W) × (attempt system
              (suc n)
              value
              duration
              ps
              w
            ≡ some (ended, (ps', w')))
          × (system.now w' < system.now w + duration + 20 + late)
          × (ended ≡ true → all gone ps' ≡ true)
    unfolding attempt wait
    attempt_ends n value duration ps w enough =
        let (sent, w1) = signal_all system value ps w in
        let same = signal_all-now value ps w in
        let deadline = system.now w1 + duration in
        let (ended, ps', w', done, soon) =
          wait_until_ends n deadline sent w1 (omega (arith, enough)) (omega arith) in
        (
          ended,
          ps',
          w',
          done,
          omega (arith, soon, same),
          λ e.
              wait_until-gone (suc n) deadline sent w1 ps' w'
                (done ∙ ap (λ b. some (b, (ps', w'))) e),
        )

    -- Where the clock passes 20 ms at least in a sleep and `late` more at most, and n polls cover the
    -- grace time and 2 s, shutdownProcesses returns, within the grace time, 4 s and three sleeps. When it returns
    -- true every process has ended, and when it returns false every process has ended or is detached.
    pub shutdown_processes_ends :
        (n grace : ℕ) (ps : List OwnedProcess) (w : W)
        → grace ≤ 20 * n
        → 100 ≤ n
        → (ended : Bool) × (ps' : List OwnedProcess) × (w' : W) × (shutdown_processes system
              (suc n)
              grace
              ps
              w
            ≡ some (ended, (ps', w')))
          × (system.now w' < system.now w + grace + 4000 + 3 * (20 + late))
          × (ended ≡ true → all gone ps' ≡ true)
          × (all left ps' ≡ true)
    unfolding shutdown_processes
    shutdown_processes_ends n grace ps w enough many =
        let (e1, ps1, w1, d1, t1, g1) = attempt_ends n sigint grace ps w enough in
        let (e2, ps2, w2, d2, t2, g2) = attempt_ends n sigterm 2000 ps1 w1 (omega (arith, many)) in
        let (e3, ps3, w3, d3, t3, g3) = attempt_ends n sigkill 2000 ps2 w2 (omega (arith, many)) in
        elim (Bool-cases e1) [
          | inl one ↦ (
            true,
            ps1,
            w1,
            rw (d1, one) refl,
            omega (arith, t1),
            λ e. g1 one,
            left-of_gone ps1 (g1 one),
          )
          | inr not1 ↦ elim (Bool-cases e2) [
            | inl two ↦ (
              true,
              ps2,
              w2,
              rw (d1, not1, d2, two) refl,
              omega (arith, t1, t2),
              λ e. g2 two,
              left-of_gone ps2 (g2 two),
            )
            | inr not2 ↦ elim (Bool-cases e3) [
              | inl three ↦ (
                true,
                ps3,
                w3,
                rw (d1, not1, d2, not2, d3, three) refl,
                omega (arith, t1, t2, t3),
                λ e. g3 three,
                left-of_gone ps3 (g3 three),
              )
              | inr not3 ↦ (
                false,
                detach_all system w3 ps3,
                w3,
                rw (d1, not1, d2, not2, d3, not3) refl,
                omega (arith, t1, t2, t3),
                λ e. ground arith,
                detach_all-left w3 ps3,
              )
            ]
          ]
        ]
