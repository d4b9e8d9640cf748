-- ===== src/Shutdown.antt =====
-- modules/utils/include/dls2/util/owned_process.hpp: OwnedProcess and shutdownProcesses, which ask a
-- set of child processes to end, with signals that grow harder. The operating system is a
-- parameter: what it answers about a process, how signals and 20 ms of sleep change it, and
-- its steady clock in milliseconds. Calls that fail otherwise than by ESRCH, which throw, are left out.
pub mod Escalation
pub mod Signals
pub mod Install
use dls.Common.{
  ℕ, zero, suc, ◌+◌, List, [], ◌∷◌, Bool, true, false, ◌&&◌, ◌||◌, not, Option, none, some,
  if◌then◌else◌, leb, ◌≤◌, ◌≡◌,
}
use dls.CommandManager.{◌>>=◌}

pub record System {ℓ} (W : Type ℓ) : Type ℓ where
  -- proc.running()
  pub leader_running : ℕ → W → Bool
  -- kill(-pgid, 0) finds the group (or fails otherwise than by ESRCH), once its exited members are
  -- reaped where the leader has exited
  pub group_exists : ℕ → Bool → W → Bool
  -- kill(pid or -pgid, value): the flag says that it is the group
  pub kill : Bool → ℕ → ℕ → W → W
  -- sleep_for(20ms)
  pub sleep : W → W
  pub now : W → ℕ

pub record OwnedProcess : Type 0 where
  pub id : ℕ
  pub leader_exited : Bool
  pub finished : Bool
  pub own_group : Bool
  pub detached : Bool

-- OwnedProcess(args, own_group), for the child that has been made
unfoldable pub new_process : ℕ → Bool → OwnedProcess
new_process id own_group = record {
  id = id;
  leader_exited = false;
  finished = false;
  own_group = own_group;
  detached = false;
}

abbrev pub sigint : ℕ
sigint = 2

abbrev pub sigkill : ℕ
sigkill = 9

abbrev pub sigterm : ℕ
sigterm = 15

-- detach()
unfoldable pub detach : OwnedProcess → OwnedProcess
detach p = record p { detached = true }

module _ {ℓ} {W : Type ℓ} (system : System W) where
  -- running()
  unfoldable pub running : W → OwnedProcess → Bool × OwnedProcess
  running w p =
      let exited = p.leader_exited || not (system.leader_running p.id w) in
      if p.finished
      then (false, p)
      else if not p.own_group
      then (not exited, record p { leader_exited = exited })
      else if system.group_exists p.id exited w
      then (true, record p { leader_exited = exited })
      else (false, record p { leader_exited = exited; finished = true })

  -- signal(value)
  unfoldable pub signal : ℕ → OwnedProcess → W → W
  signal value p w = if p.finished then w else system.kill p.own_group p.id value w

  -- wait's loop over the processes: whether any runs
  unfoldable pub any_running : W → List OwnedProcess → Bool × List OwnedProcess
  unfolding running
  any_running w [] = (false, [])
  any_running w (p ∷ ps) =
      let (runs, p') = running w p in let (any, ps') = any_running w ps in (any || runs, p' ∷ ps')

  -- wait(duration), from the deadline on; `none` when the fuel is used up
  unfoldable pub wait_until :
      ℕ → ℕ → List OwnedProcess → W → Option (Bool × (List OwnedProcess × W))
  unfolding any_running
  wait_until zero deadline ps w = none
  wait_until (suc fuel) deadline ps w =
      let (any, ps') = any_running w ps in
      let rest = wait_until fuel deadline ps' (system.sleep w) in
      if not any
      then some (true, (ps', w))
      else if leb deadline (system.now w)
      then some (false, (ps', w))
      else rest

  unfoldable pub wait : ℕ → ℕ → List OwnedProcess → W → Option (Bool × (List OwnedProcess × W))
  unfolding wait_until
  wait fuel duration ps w = wait_until fuel (system.now w + duration) ps w

  -- the lambda signal(value, report)
  unfoldable pub signal_all : ℕ → List OwnedProcess → W → List OwnedProcess × W
  unfolding running signal
  signal_all value [] w = ([], w)
  signal_all value (p ∷ ps) w =
      let (runs, p') = running w p in
      let (ps', w') = signal_all value ps (if runs then signal value p' w else w) in (p' ∷ ps', w')

  -- the last loop: what still runs is left to itself
  unfoldable pub detach_all : W → List OwnedProcess → List OwnedProcess
  unfolding running detach
  detach_all w [] = []
  detach_all w (p ∷ ps) =
      let (runs, p') = running w p in (if runs then detach p' else p') ∷ detach_all w ps

  -- a signal to all the processes, and then a wait for them
  unfoldable pub attempt :
      ℕ → ℕ → ℕ → List OwnedProcess → W → Option (Bool × (List OwnedProcess × W))
  unfolding signal_all wait
  attempt fuel value duration ps w =
      let (ps', w') = signal_all value ps w in wait fuel duration ps' w'

  -- shutdownProcesses(processes, grace)
  unfoldable pub shutdown_processes :
      ℕ → ℕ → List OwnedProcess → W → Option (Bool × (List OwnedProcess × W))
  unfolding attempt detach_all
  shutdown_processes fuel grace ps w = do
    (ended, (ps1, w1)) ← attempt fuel sigint grace ps w
    (ended2, (ps2, w2)) ←
        (if ended then some (true, (ps1, w1)) else attempt fuel sigterm 2000 ps1 w1)
    (ended3, (ps3, w3)) ←
        (if ended2 then some (true, (ps2, w2)) else attempt fuel sigkill 2000 ps2 w2)
    some (ended3, ((if ended3 then ps3 else detach_all w3 ps3), w3))
