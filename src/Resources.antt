-- ===== src/Resources.antt =====
-- modules/utils/src/system_resource_monitor.cpp and its header: the usage of the cores and of the
-- memory and the temperature, read from /proc and /sys. What a file holds is an argument, `none`
-- where it does not open; sscanf, strtol and the floating point quotients are parameters.
pub mod Cores
pub mod Process
use dls.Common.{
  ℕ, zero, suc, ◌+◌, ◌-◌, ◌%◌, ◌^◌, List, [], ◌∷◌, ◌++◌, Bool, true, false, ◌&&◌, ◌||◌, not, Option,
  none, some, if◌then◌else◌, ltb, leb, ◌==◌, nat_eq, text_eq, get_or, replicate, length, Text,
  codes, take, drop,
}
use dls.Common.Map.{find, emplace}
use dls.Window.{NumericalMovingWindow, ℤ, pos, negsuc, new_window, push, mean}

pub record CpuTimes : Type 0 where
  pub user : ℕ
  pub nice : ℕ
  pub system : ℕ
  pub idle : ℕ
  pub iowait : ℕ
  pub irq : ℕ
  pub softirq : ℕ
  pub steal : ℕ
  pub guest : ℕ
  pub guest_nice : ℕ

-- the number of values of an unsigned long long
abbrev pub word : ℕ
word = 2 ^ 64

-- CpuTimes::total()
unfoldable pub total : CpuTimes → ℕ
total t = (t.user + t.nice + t.system + t.idle + t.iowait + t.irq + t.softirq + t.steal) % word

-- CpuTimes::idleAll()
unfoldable pub idle_all : CpuTimes → ℕ
idle_all t = (t.idle + t.iowait) % word

-- a difference of unsigned long longs
abbrev pub minus_word : ℕ → ℕ → ℕ
minus_word a b = (a + word - b) % word

pub record SystemResourceMonitor : Type 0 where
  pub resource_monitor_window_size : ℕ
  pub cpus_times : List (List CpuTimes)
  pub cpus_times_tmp : List CpuTimes
  pub cpu_usage_w : List NumericalMovingWindow
  pub latest_cpus_usage : List (ℕ × ℕ)
  pub mem_usage_w : NumericalMovingWindow
  pub latest_mem_usage : ℕ × ℕ
  pub thermal_zones_type2path : Option (List (Text × Text))
  pub temperature_w : NumericalMovingWindow
  pub latest_temperature : Text × (ℕ × ℕ)

-- SystemResourceMonitor(resource_monitor_window_size)
unfoldable pub new_monitor : ℕ → SystemResourceMonitor
unfolding new_window
new_monitor window_size = record {
  resource_monitor_window_size = window_size;
  cpus_times = [];
  cpus_times_tmp = [];
  cpu_usage_w = [];
  latest_cpus_usage = [];
  mem_usage_w = new_window window_size;
  latest_mem_usage = (0, 1);
  thermal_zones_type2path = none;
  temperature_w = new_window window_size;
  latest_temperature = ([], (0, 1));
}

-- std::isdigit and std::isspace in the C locale
abbrev pub is_digit : ℕ → Bool
is_digit c = leb 48 c && leb c 57

abbrev pub is_space : ℕ → Bool
is_space c = c == 32 || leb 9 c && leb c 13

-- std::strncmp(line, prefix, strlen(prefix)) == 0
abbrev pub starts_with : Text → Text → Bool
starts_with prefix line = take (length prefix) line == prefix

-- a line of /proc/stat that readProcStat goes on with
unfoldable pub is_cpu_line : Text → Bool
is_cpu_line buf =
    starts_with (codes "cpu") buf && (is_digit (get_or buf 3 0) || is_space (get_or buf 3 0))

-- the pop_front loop of readProcStat
unfoldable pub keep_latest : List (List CpuTimes) → List (List CpuTimes)
keep_latest [] = []
keep_latest (t ∷ ts) = let rest = keep_latest ts in if ltb 2 (suc (length ts)) then rest else t ∷ ts

-- the newest sample
unfoldable pub back : List CpuTimes → List (List CpuTimes) → List CpuTimes
back t [] = t
back t (t' ∷ ts) = back t' ts

-- the windows, made anew where the number of cores has changed
unfoldable pub resize_windows : ℕ → ℕ → List NumericalMovingWindow → List NumericalMovingWindow
unfolding new_window
resize_windows window_size core_num ws =
    if length ws == core_num then ws else replicate core_num (new_window window_size)

-- a text without the white space at its end
unfoldable pub strip : Text → Text
strip [] = []
strip (c ∷ cs) =
    let rest = strip cs in
    if length rest == 0 && (c == 10 || c == 13 || c == 32 || c == 9) then [] else c ∷ rest

module _ (scan_cpu : Text → ℕ × CpuTimes) (percentage : ℕ → ℕ → ℤ) where
  -- readProcStat's loop over the lines
  unfoldable pub read_cpu_lines : List Text → List CpuTimes
  unfolding is_cpu_line
  read_cpu_lines [] = []
  read_cpu_lines (buf ∷ lines) =
      let rest = read_cpu_lines lines in
      let (n, t) = scan_cpu buf in
      if is_cpu_line buf then (if ltb n 5 then rest else t ∷ rest) else []

  -- readProcStat()
  unfoldable pub read_proc_stat : Option (List Text) → SystemResourceMonitor → SystemResourceMonitor
  unfolding read_cpu_lines keep_latest
  read_proc_stat none m = record m { cpus_times_tmp = [] }
  read_proc_stat (some lines) m =
      let sample = read_cpu_lines lines in
      let m' : SystemResourceMonitor = record m { cpus_times_tmp = sample } in
      if length sample == 0
      then m'
      else record m' { cpus_times = keep_latest (m.cpus_times ++ sample ∷ []) }

  -- what computeCpusUsage pushes for a core
  unfoldable pub core_usage : CpuTimes → CpuTimes → ℤ
  unfolding total idle_all
  core_usage prev new =
      let idle_diff = minus_word (idle_all new) (idle_all prev) in
      let total_diff = minus_word (total new) (total prev) in
      if ltb 0 total_diff then percentage (minus_word total_diff idle_diff) total_diff else pos 0

  -- computeCpusUsage's loop over the cores of the older sample; `none` where it reads past the end
  -- of the newer one
  unfoldable pub push_usages :
      List CpuTimes
      → List CpuTimes
      → List NumericalMovingWindow
      → Option (List NumericalMovingWindow × List (ℕ × ℕ))
  unfolding core_usage push mean
  push_usages [] new ws = some (ws, [])
  push_usages (p ∷ ps) [] ws = none
  push_usages (p ∷ ps) (n ∷ ns) [] = none
  push_usages (p ∷ ps) (n ∷ ns) (w ∷ ws) =
      let w' = push (core_usage p n) w in
      elim (push_usages ps ns ws) [
        | none ↦ none
        | some (ws', means) ↦ some (w' ∷ ws', mean w' ∷ means)
      ]

  -- computeCpusUsage, with an older and a newer sample
  unfoldable pub usages_between :
      List CpuTimes → List CpuTimes → SystemResourceMonitor → Option SystemResourceMonitor
  unfolding resize_windows push_usages
  usages_between prev new m =
      let ws = resize_windows m.resource_monitor_window_size (length prev) m.cpu_usage_w in
      elim (push_usages prev new ws) [
        | none ↦ none
        | some (ws', result) ↦ some (record m { cpu_usage_w = ws'; latest_cpus_usage = result })
      ]

  -- computeCpusUsage()
  unfoldable pub compute_cpus_usage : SystemResourceMonitor → Option SystemResourceMonitor
  unfolding back usages_between
  compute_cpus_usage m = elim m.cpus_times [
    | [] ↦ some (record m { latest_cpus_usage = [] })
    | prev ∷ [] ↦ some (record m { latest_cpus_usage = [] })
    | prev ∷ next ∷ later ↦ usages_between prev (back next later) m
  ]

module _ (scan_number : Text → Option ℤ) (used_percentage : ℕ → ℕ → ℤ) (hundred : ℕ) where
  -- the number at the start of a text, or what was there before
  abbrev pub scanned : Text → ℤ → ℤ
  scanned text before = elim (scan_number text) [ none ↦ before | some n ↦ n ]

  abbrev pub is_zero : ℤ → Bool
  is_zero (pos n) = n == 0
  is_zero (negsuc n) = false

  -- the lines of /proc/meminfo: totalKB and availableKB
  unfoldable pub read_meminfo : List Text → ℤ → ℤ → ℤ × ℤ
  read_meminfo [] total_kb available_kb = (total_kb, available_kb)
  read_meminfo (line ∷ lines) total_kb available_kb =
      let is_total = starts_with (codes "MemTotal:") line in
      let is_available = starts_with (codes "MemAvailable:") line in
      let total_kb' = if is_total then scanned (drop 9 line) total_kb else total_kb in
      let available_kb' =
        if not is_total && is_available
        then scanned (drop 13 line) available_kb
        else available_kb in
      let rest = read_meminfo lines total_kb' available_kb' in
      if not (is_zero total_kb') && not (is_zero available_kb')
      then (total_kb', available_kb')
      else rest

  -- what computeMemUsage pushes
  unfoldable pub memory_usage : ℤ → ℤ → ℤ
  memory_usage (negsuc n) available_kb = pos 0
  memory_usage (pos zero) available_kb = pos 0
  memory_usage (pos (suc n)) (negsuc k) = pos hundred
  memory_usage (pos (suc n)) (pos zero) = pos hundred
  memory_usage (pos (suc n)) (pos (suc k)) = used_percentage (suc k) (suc n)

  -- computeMemUsage()
  unfoldable pub compute_mem_usage :
      Option (List Text) → SystemResourceMonitor → SystemResourceMonitor
  unfolding read_meminfo memory_usage push mean
  compute_mem_usage none m = m
  compute_mem_usage (some lines) m =
      let (total_kb, available_kb) = read_meminfo lines (pos 0) (pos 0) in
      let w = push (memory_usage total_kb available_kb) m.mem_usage_w in
      record m { mem_usage_w = w; latest_mem_usage = mean w }

-- a directory entry of /sys/class/thermal: its name, and what its file `type` gives
pub record Zone : Type 0 where
  pub d_name : Text
  pub type_ : Option Text

-- computeTemperature's one-time loop over the directory
unfoldable pub discover_zones : List Zone → List (Text × Text) → List (Text × Text)
unfolding emplace strip
discover_zones [] zones = zones
discover_zones (de ∷ dir) zones =
    let temp_path = codes "/sys/class/thermal" ++ codes "/" ++ de.d_name ++ codes "/temp" in
    let zones' : List (Text × Text) = elim de.type_ [
      | none ↦ zones
      | some [] ↦ zones
      | some (c ∷ cs) ↦ emplace (strip (c ∷ cs)) temp_path zones
    ] in
    if starts_with (codes "thermal_zone") de.d_name
    then discover_zones dir zones'
    else discover_zones dir zones

module _ (strtol : Text → ℤ) (celsius : ℤ → ℤ) where
  -- the reading of the zone's file, once the zones are known
  unfoldable pub read_zone :
      Text
      → (Text → Option Text)
      → List (Text × Text)
      → SystemResourceMonitor
      → SystemResourceMonitor
  unfolding strip find push mean
  read_zone desired_type read zones m = elim (find desired_type zones) [
    | none ↦ m
    | some zone_path ↦ elim (read zone_path) [
      | none ↦ m
      | some [] ↦ m
      | some (c ∷ cs) ↦
          let w = push (celsius (strtol (strip (c ∷ cs)))) m.temperature_w in
          record m { temperature_w = w; latest_temperature = (desired_type, mean w) }
    ]
  ]

  -- computeTemperature(desired_type): `dir` is /sys/class/thermal, where it opens
  unfoldable pub compute_temperature :
      Text
      → Option (List Zone)
      → (Text → Option Text)
      → SystemResourceMonitor
      → SystemResourceMonitor
  unfolding discover_zones read_zone
  compute_temperature desired_type dir read m = elim m.thermal_zones_type2path [
    | some zones ↦ read_zone desired_type read zones m
    | none ↦ elim dir [
      | none ↦ record m { thermal_zones_type2path = some [] }
      | some entries ↦
          let zones = discover_zones entries [] in
          let m' : SystemResourceMonitor = record m { thermal_zones_type2path = some zones } in
          if length zones == 0 then m' else read_zone desired_type read zones m'
    ]
  ]
