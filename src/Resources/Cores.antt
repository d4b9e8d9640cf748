-- ===== src/Resources/Cores.antt =====
-- The usage of the cores over a run of readings of /proc/stat.
use dls.Common.{
  ℕ, suc, ◌+◌, ◌-◌, ◌≤◌, ◌<◌, ◌≡◌, ◌≢◌, refl, ltb→lt, List, [], ◌∷◌, false, Option, none, some,
  if◌then◌else◌, ltb, ◌==◌, nat_eq, length, length-replicate, Text, arith, ◌↔◌, ◌⊎◌, Bool-cases,
  inl, inr, sym, ap, ◌∙◌,
}
use dls.Window.{NumericalMovingWindow, ℤ, pos, new_window, push, mean}
use dls.Resources.{
  CpuTimes, SystemResourceMonitor, word, total, idle_all, minus_word, keep_latest, back,
  resize_windows, read_cpu_lines, read_proc_stat, core_usage, push_usages, usages_between,
  compute_cpus_usage,
}

-- The ticks that a core was not idle.
abbrev pub busy : CpuTimes → ℕ
busy t = t.user + t.nice + t.system + t.irq + t.softirq + t.steal

-- Counters that only grow, and whose sum fits its word.
pub record Grows (p n : CpuTimes) : Type 0 where
  pub user : p.user ≤ n.user
  pub nice : p.nice ≤ n.nice
  pub system : p.system ≤ n.system
  pub idle : p.idle ≤ n.idle
  pub iowait : p.iowait ≤ n.iowait
  pub irq : p.irq ≤ n.irq
  pub softirq : p.softirq ≤ n.softirq
  pub steal : p.steal ≤ n.steal
  pub fits : busy n + n.idle + n.iowait < word

length-resize_windows :
    (size n : ℕ) (ws : List NumericalMovingWindow) → length (resize_windows size n ws) ≡ n
unfolding resize_windows
length-resize_windows size n ws = elim (Bool-cases (length ws == n)) [
  | inl same ↦ rw same (ground (arith, same))
  | inr other ↦ rw other (length-replicate n (new_window size))
]

module _ (scan_cpu : Text → ℕ × CpuTimes) (percentage : ℕ → ℕ → ℤ) where
  -- Between two readings whose counters only grow, the value that is pushed for a core is the
  -- percentage of the ticks not idle among all the ticks passed, 0 where none have, and the first
  -- are no more than the second.
  pub core_usage_share :
      (p n : CpuTimes)
      → Grows p n
      → let all = busy n + n.idle + n.iowait - (busy p + p.idle + p.iowait) in
        (core_usage scan_cpu percentage p n
          ≡ (if ltb 0 all then percentage (busy n - busy p) all else pos 0))
        × (busy n - busy p ≤ all)
  unfolding core_usage total idle_all
  core_usage_share p n g =
      let all = busy n + n.idle + n.iowait - (busy p + p.idle + p.iowait) in
      let total_diff : minus_word (total n) (total p) ≡ all = omega (arith, g) in
      let idle_diff : minus_word (idle_all n) (idle_all p)
          ≡ n.idle + n.iowait - (p.idle + p.iowait) =
        omega (arith, g) in
      let rest : minus_word all (n.idle + n.iowait - (p.idle + p.iowait)) ≡ busy n - busy p =
        omega (arith, g) in
      (rw (total_diff, idle_diff, rest) refl, omega (arith, g))

  push_usages_total :
      (ps ns : List CpuTimes) (ws : List NumericalMovingWindow)
      → length ws ≡ length ps
      → length ps ≤ length ns
      → (ws' : List NumericalMovingWindow) × (means : List (ℕ × ℕ)) × (push_usages scan_cpu
            percentage ps ns ws
          ≡ some (ws', means))
        × (length ws' ≡ length ps)
        × (length means ≡ length ps)
  unfolding push_usages
  push_usages_total [] ns [] same enough = ([], [], refl, refl, refl)
  push_usages_total [] ns (w ∷ ws) same enough = ground arith
  push_usages_total (p ∷ ps) [] ws same enough = ground arith
  push_usages_total (p ∷ ps) (n ∷ ns) [] same enough = ground arith
  push_usages_total (p ∷ ps) (n ∷ ns) (w ∷ ws) same enough =
      let (ws', means, done, l1, l2) =
        push_usages_total ps ns ws (omega (arith, same)) (omega (arith, enough)) in
      let w' = push (core_usage scan_cpu percentage p n) w in
      (w' ∷ ws', mean w' ∷ means, rw done refl, ap suc l1, ap suc l2)

  push_usages_lost :
      (ps ns : List CpuTimes) (ws : List NumericalMovingWindow)
      → length ns < length ps
      → push_usages scan_cpu percentage ps ns ws ≡ none
  unfolding push_usages
  push_usages_lost [] ns ws fewer = ground arith
  push_usages_lost (p ∷ ps) [] ws fewer = refl
  push_usages_lost (p ∷ ps) (n ∷ ns) [] fewer = refl
  push_usages_lost (p ∷ ps) (n ∷ ns) (w ∷ ws) fewer =
      rw (push_usages_lost ps ns ws (omega (arith, fewer))) refl

  compute_cpus_usage-two :
      (m : SystemResourceMonitor) (prev next : List CpuTimes)
      → m.cpus_times ≡ prev ∷ next ∷ []
      → compute_cpus_usage scan_cpu percentage m ≡ usages_between scan_cpu percentage prev next m
  unfolding compute_cpus_usage back
  compute_cpus_usage-two m prev next two = ground (arith, two)

  usages_between_total :
      (m : SystemResourceMonitor) (prev new : List CpuTimes)
      → length prev ≤ length new
      → (m' : SystemResourceMonitor) × (usages_between scan_cpu percentage prev new m ≡ some m')
        × (m'.cpus_times ≡ m.cpus_times)
        × (length m'.latest_cpus_usage ≡ length prev)
  unfolding usages_between
  usages_between_total m prev new enough =
      let ws = resize_windows m.resource_monitor_window_size (length prev) m.cpu_usage_w in
      let len = length-resize_windows m.resource_monitor_window_size (length prev) m.cpu_usage_w in
      let (ws', means, done, l1, l2) = push_usages_total prev new ws len enough in
      (
        record m { cpu_usage_w = ws'; latest_cpus_usage = means },
        rw (usages_between, done) refl,
        refl,
        l2,
      )

  -- With two samples, computeCpusUsage reads past the end of the newer one exactly when this has
  -- fewer cores than the older one.
  pub compute_cpus_usage_lost :
      (m : SystemResourceMonitor) (prev next : List CpuTimes)
      → m.cpus_times ≡ prev ∷ next ∷ []
      → (compute_cpus_usage scan_cpu percentage m ≡ none) ↔ (length next < length prev)
  unfolding usages_between
  compute_cpus_usage_lost m prev next two =
      let opened = compute_cpus_usage-two m prev next two in
      let ws = resize_windows m.resource_monitor_window_size (length prev) m.cpu_usage_w in
      let fails : length next < length prev → compute_cpus_usage scan_cpu percentage m ≡ none =
        λ fewer. opened ∙ rw (usages_between, push_usages_lost prev next ws fewer) refl in
      let works : length prev ≤ length next → compute_cpus_usage scan_cpu percentage m ≢ none =
        λ enough e.
          let (m', done, kept, l) = usages_between_total m prev next enough in
          ground (arith, done, opened, e) in
      (
        λ undefined. elim (Bool-cases (ltb (length next) (length prev))) [
          | inl fewer ↦ ltb→lt (length next) (length prev) fewer
          | inr enough ↦ absurd (works (ground (arith, enough)) undefined)
        ],
        fails,
      )

  -- The processor's part of monitor(), over what /proc/stat holds at each call.
  unfoldable pub monitor_cpus :
      List (Option (List Text)) → SystemResourceMonitor → Option SystemResourceMonitor
  unfolding read_proc_stat compute_cpus_usage
  monitor_cpus [] m = some m
  monitor_cpus (file ∷ files) m =
      elim (compute_cpus_usage scan_cpu percentage (read_proc_stat scan_cpu percentage file m)) [
        | none ↦ none
        | some m' ↦ monitor_cpus files m'
      ]

  -- Every file that opens shows the same number of cores.
  abbrev pub AllShow : ℕ → List (Option (List Text)) → Type 0
  AllShow cores [] = Unit
  AllShow cores (none ∷ files) = AllShow cores files
  AllShow cores (some lines ∷ files) =
      (length (read_cpu_lines scan_cpu percentage lines) ≡ cores) × AllShow cores files

  split_shows :
      (cores : ℕ) (file : Option (List Text)) (files : List (Option (List Text)))
      → AllShow cores (file ∷ files)
      → AllShow cores (file ∷ []) × AllShow cores files
  split_shows cores none files shows = (tt, shows)
  split_shows cores (some lines) files (first, others) = ((first, tt), others)

  -- Two samples at most, each of all the cores, and as many usages as there are cores, once there are
  -- two samples.
  abbrev pub IsSampled : ℕ → SystemResourceMonitor → Type 0
  IsSampled cores m =
      (m.cpus_times ≡ [])
      ⊎ (((t : List CpuTimes) × (m.cpus_times ≡ t ∷ []) × (length t ≡ cores))
          ⊎ ((t : List CpuTimes) × (t' : List CpuTimes) × (m.cpus_times ≡ t ∷ t' ∷ [])
              × (length t ≡ cores)
              × (length t' ≡ cores)))

  read_proc_stat-IsSampled :
      (cores : ℕ) (file : Option (List Text)) (m : SystemResourceMonitor)
      → 0 < cores
      → AllShow cores (file ∷ [])
      → IsSampled cores m
      → IsSampled cores (read_proc_stat scan_cpu percentage file m)
  unfolding read_proc_stat keep_latest
  read_proc_stat-IsSampled cores none m some_cores shows sampled = sampled
  read_proc_stat-IsSampled cores (some lines) m some_cores (shows, end) sampled =
      let sample = read_cpu_lines scan_cpu percentage lines in
      let busy_file : (length sample == 0) ≡ false = ground (arith, shows, some_cores) in
      elim sampled [
        | inl none_yet ↦ inr (inl (sample, rw (busy_file, none_yet) refl, shows))
        | inr (inl (t, one, l)) ↦ inr (inr (t, sample, rw (busy_file, one) refl, l, shows))
        | inr (inr (t, t', two, l, l')) ↦
            inr (inr (t', sample, rw (busy_file, two) refl, l', shows))
      ]

  compute_cpus_usage-IsSampled :
      (cores : ℕ) (m : SystemResourceMonitor)
      → IsSampled cores m
      → (m' : SystemResourceMonitor) × (compute_cpus_usage scan_cpu percentage m ≡ some m')
        × (m'.cpus_times ≡ m.cpus_times)
        × (length m'.latest_cpus_usage ≡ (if ltb (length m.cpus_times) 2 then 0 else cores))
  unfolding compute_cpus_usage back
  compute_cpus_usage-IsSampled cores m sampled =
      let none_new : SystemResourceMonitor = record m { latest_cpus_usage = [] } in
      elim sampled [
        | inl none_yet ↦ (none_new, rw none_yet refl, refl, rw none_yet refl)
        | inr (inl (t, one, l)) ↦ (none_new, rw one refl, refl, rw one refl)
        | inr (inr (t, t', two, l, l')) ↦
            let (m', done, kept, usages) = usages_between_total m t t' (omega (arith, l, l')) in
            (
              m',
              compute_cpus_usage-two m t t' two ∙ done,
              kept,
              usages ∙ l ∙ sym (ap (λ ts. if ltb (length ts) 2 then 0 else cores) two),
            )
      ]

  -- While every readable /proc/stat shows the same cores (one at least), a run of monitor calls never
  -- reads past the end of a sample; it keeps two samples at most, and reports a usage for each core
  -- from the second sample on and none before.
  pub monitor_cpus_total :
      (cores : ℕ) (files : List (Option (List Text))) (m : SystemResourceMonitor)
      → 0 < cores
      → AllShow cores files
      → IsSampled cores m
      → (length m.latest_cpus_usage ≡ (if ltb (length m.cpus_times) 2 then 0 else cores))
      → (m' : SystemResourceMonitor) × (monitor_cpus files m ≡ some m')
        × IsSampled cores m'
        × (length m'.latest_cpus_usage ≡ (if ltb (length m'.cpus_times) 2 then 0 else cores))
  unfolding monitor_cpus
  monitor_cpus_total cores [] m some_cores shows sampled usages = (m, refl, sampled, usages)
  monitor_cpus_total cores (file ∷ files) m some_cores shows sampled usages =
      let (first, others) = split_shows cores file files shows in
      let m1 = read_proc_stat scan_cpu percentage file m in
      let sampled1 = read_proc_stat-IsSampled cores file m some_cores first sampled in
      let (m2, done, times, l) = compute_cpus_usage-IsSampled cores m1 sampled1 in
      let usages2 : length m2.latest_cpus_usage
          ≡ (if ltb (length m2.cpus_times) 2 then 0 else cores) =
        rw times l in
      let (m3, rest, sampled3, l3) =
        monitor_cpus_total cores files m2 some_cores others (rw times sampled1) usages2 in
      (m3, rw (monitor_cpus, done) rest, sampled3, l3)
