-- ===== src/Examples/Monitors.antt =====
-- A window, the monitors of the system and of a process, the supervisor's check and a shutdown.
use dls.Common.{
  ℕ, ◌+◌, ◌-◌, ◌*◌, ◌≤◌, ◌<◌, ◌≡◌, refl, Bool, true, false, ◌&&◌, Option, none, some, List, [], ◌∷◌,
  ◌++◌, length, arith, Text, codes, ltb, if◌then◌else◌, inl,
}
use dls.Window.{ℤ, pos, negsuc, new_window, mean, max_value, min_value}
use dls.Window.Extrema.{greatest, least}
use dls.Window.Refinement.{contents, total_sq}
use dls.Window.Statistics.{
  Operation, pushed, cleared, run, run_newest, average, run-newest, run-statistics,
}
use dls.Resources.{CpuTimes, SystemResourceMonitor, new_monitor, core_usage, read_cpu_lines}
use dls.Resources.Cores.{Grows, busy, core_usage_share, monitor_cpus, monitor_cpus_total, IsSampled}
use dls.Resources.Process.{update_cpu_ticks, read_ticks}
use dls.Resources.Process.Stat.{spaced, update_cpu_ticks-stat_line}
use dls.Supervisor.{SafetyLayerConfig}
use dls.Shutdown.{System, OwnedProcess, new_process, shutdown_processes}
use dls.Shutdown.Signals.{Tick, worker, worker_takes}
use dls.Shutdown.Escalation.{IsTimely, gone, left, all, shutdown_processes_ends}

abbrev pushes : List Operation
pushes =
    pushed (pos 4)
    ∷ pushed (negsuc 1)
    ∷ cleared
    ∷ pushed (pos 7)
    ∷ pushed (pos 2)
    ∷ pushed (pos 5)
    ∷ []

run-newest_example : contents (run pushes (new_window 2)) ≡ 2 ∷ 5 ∷ []
run-newest_example = unfold run_newest in run-newest 2 pushes

run-statistics_example :
    let w = run pushes (new_window 2) in
    let c = run_newest 2 pushes [] in
    (mean w ≡ average c)
    × (max_value w ≡ greatest c)
    × (min_value w ≡ least c)
    × (w.sum_sq ≡ total_sq c)
    × (w.size_ ≡ length c)
run-statistics_example = run-statistics 2 pushes

abbrev times : ℕ → ℕ → CpuTimes
times user idle = record {
  user = user;
  nice = 0;
  system = 0;
  idle = idle;
  iowait = 0;
  irq = 0;
  softirq = 0;
  steal = 0;
  guest = 0;
  guest_nice = 0;
}

-- every line that is read gives the same counters
abbrev scanned_line : Text → ℕ × CpuTimes
scanned_line text = (11, times 3 5)

abbrev percent : ℕ → ℕ → ℤ
percent part whole = pos (100 * part)

abbrev grown : Grows (times 3 5) (times 5 11)
grown = record {
  user = omega arith;
  nice = omega arith;
  system = omega arith;
  idle = omega arith;
  iowait = omega arith;
  irq = omega arith;
  softirq = omega arith;
  steal = omega arith;
  fits = omega arith;
}

core_usage_share_example :
    let all = busy (times 5 11) + 11 + 0 - (busy (times 3 5) + 5 + 0) in
    (core_usage scanned_line percent (times 3 5) (times 5 11)
      ≡ (if ltb 0 all then percent (busy (times 5 11) - busy (times 3 5)) all else pos 0))
    × (busy (times 5 11) - busy (times 3 5) ≤ all)
core_usage_share_example = core_usage_share scanned_line percent (times 3 5) (times 5 11) grown

abbrev lost_core : SystemResourceMonitor
lost_core = record (new_monitor 4) {
  cpus_times = (times 1 1 ∷ times 2 2 ∷ []) ∷ (times 3 3 ∷ []) ∷ [];
}

abbrev stat_files : List (Option (List Text))
stat_files =
    some (codes "cpu 3 0 0 5" ∷ codes "intr 9" ∷ []) ∷ none ∷ some (codes "cpu0 3 0 0 5" ∷ []) ∷ []

monitor_cpus_total_example :
    (m : SystemResourceMonitor) × (monitor_cpus scanned_line percent stat_files (new_monitor 4)
      ≡ some m)
    × IsSampled scanned_line percent 1 m
    × (length m.latest_cpus_usage ≡ (if ltb (length m.cpus_times) 2 then 0 else 1))
monitor_cpus_total_example =
    monitor_cpus_total scanned_line percent 1 stat_files (new_monitor 4) (omega arith)
      (unfold read_cpu_lines in (refl, (refl, tt))) (unfold new_monitor in inl refl)
      (unfold new_monitor in refl)

-- a long is the number of characters up to the next space
abbrev first_long : Text → Option (ℕ × Text)
first_long [] = none
first_long (c ∷ cs) = some (c, cs)

abbrev ten_fields : List Text
ten_fields =
    codes "1"
    ∷ codes "2"
    ∷ codes "3"
    ∷ codes "4"
    ∷ codes "5"
    ∷ codes "6"
    ∷ codes "7"
    ∷ codes "8"
    ∷ codes "9"
    ∷ codes "10"
    ∷ []

update_cpu_ticks-stat_line_example :
    update_cpu_ticks first_long
      (some (codes "7 (a) b" ++ 41 ∷ 32 ∷ (codes "S" ++ spaced ten_fields (codes "12 13"))))
    ≡ read_ticks first_long (32 ∷ codes "12 13")
update_cpu_ticks-stat_line_example =
    update_cpu_ticks-stat_line first_long (codes "7 (a) b") (codes "S") ten_fields (codes "12 13")
      (refl, omega arith)
      (
        (refl, omega arith),
        (
          (refl, omega arith),
          (
            (refl, omega arith),
            (
              (refl, omega arith),
              (
                (refl, omega arith),
                (
                  (refl, omega arith),
                  (
                    (refl, omega arith),
                    ((refl, omega arith), ((refl, omega arith), ((refl, omega arith), tt))),
                  ),
                ),
              ),
            ),
          ),
        ),
      )
      refl refl

abbrev hot_config : SafetyLayerConfig
hot_config = record {
  enable_cpu_usage_too_high = true;
  enable_mem_usage_too_high = true;
  system_cpu_threshold = 80;
  mem_threshold = 90;
}

abbrev no_index : ℕ → Text
no_index i = (48 + i) ∷ []

abbrev no_usage : ℕ × ℕ → Text
no_usage usage = []

abbrev same_time : ℕ → ℕ × ℕ
same_time i = (7, 9)

-- a process that ignores every signal but SIGKILL; the world is the clock and whether it lives
abbrev stubborn : System (ℕ × Bool)
stubborn = record {
  leader_running = λ id w. w.1;
  group_exists = λ id exited w. w.1;
  kill = λ group id value w. if ltb value 15 && ltb 8 value then (w.0, false) else w;
  sleep = λ w. (w.0 + 20, w.1);
  now = λ w. w.0;
}

stubborn-IsTimely : IsTimely 0 stubborn
stubborn-IsTimely = record {
  passes = λ w. omega arith;
  wakes = λ w. omega arith;
  instant = λ group id value w. ground arith;
}

shutdown_processes_ends_example :
    (ended : Bool) × (ps : List OwnedProcess) × (w : ℕ × Bool) × (shutdown_processes stubborn 101
        1000
        (new_process 4 true ∷ [])
        (0, true)
      ≡ some (ended, (ps, w)))
    × (w.0 < 0 + 1000 + 4000 + 3 * (20 + 0))
    × (ended ≡ true → all gone ps ≡ true)
    × (all left ps ≡ true)
shutdown_processes_ends_example =
    shutdown_processes_ends stubborn 0 stubborn-IsTimely 100 1000 (new_process 4 true ∷ [])
      (0, true) (omega arith) (omega arith)

abbrev tick : Bool → Bool → Tick
tick readable accepts = record {
  stopping = false;
  readable = readable;
  stopping_then = false;
  accepts = accepts;
}

abbrev ticks : List Tick
ticks = tick false true ∷ tick true false ∷ tick false false ∷ tick false true ∷ []

worker_takes_example : worker false ticks ≡ some true
worker_takes_example =
    worker_takes ticks 1 3 (tick true false) (tick false true)
      (refl, refl, (refl, refl, (refl, refl, (refl, refl, tt)))) refl refl refl refl (omega arith)
