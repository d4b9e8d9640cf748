-- ===== src/Resources/Process.antt =====
-- modules/utils/src/process_resource_monitor.cpp: the share of the processor and of the memory that a
-- process uses, read from its stat and statm files. The stream extractions of numbers and the
-- floating point quotients are parameters; a long is written as the unsigned long long it becomes.
pub mod Stat
use dls.Common.{
  ℕ, zero, suc, ◌+◌, ◌-◌, ◌%◌, ◌/◌, List, [], ◌∷◌, ◌++◌, Bool, true, false, ◌&&◌, ◌||◌, not, Option,
  none, some, if◌then◌else◌, ltb, leb, ◌==◌, nat_eq, text_eq, length, Text, codes, drop,
}
use dls.Window.{NumericalMovingWindow, ℤ, new_window, push, mean}
use dls.Resources.{is_space, word}

pub record ProcessResourceMonitor : Type 0 where
  pub sys_page_size : ℕ
  pub sys_ticks_per_sec : ℕ
  pub last_total_ticks : ℕ
  pub last_time : ℕ
  pub cpu_percentage_w : NumericalMovingWindow
  pub memory_percentage_w : NumericalMovingWindow
  pub total_ram_kb : ℤ

-- ProcessResourceMonitor(pid, window_size), with what sysconf and getTotalRAMkB give
unfoldable pub new_process_monitor : ℕ → ℕ → ℤ → ℕ → ProcessResourceMonitor
unfolding new_window
new_process_monitor page_size ticks_per_sec total_ram_kb window_size = record {
  sys_page_size = page_size;
  sys_ticks_per_sec = ticks_per_sec;
  last_total_ticks = 0;
  last_time = 0;
  cpu_percentage_w = new_window window_size;
  memory_percentage_w = new_window window_size;
  total_ram_kb = total_ram_kb;
}

-- line.rfind(c)
unfoldable pub rfind : ℕ → Text → Option ℕ
rfind c [] = none
rfind c (x ∷ xs) = elim (rfind c xs) [
  | some i ↦ some (suc i)
  | none ↦ if x == c then some 0 else none
]

unfoldable pub skip_space : Text → Text
skip_space [] = []
skip_space (c ∷ cs) = let rest = skip_space cs in if is_space c then rest else c ∷ cs

-- what stands after the characters that are no white space
unfoldable pub after_word : Text → Text
after_word [] = []
after_word (c ∷ cs) = let rest = after_word cs in if is_space c then c ∷ cs else rest

-- what `iss >> token` leaves of the stream, where there is a token
unfoldable pub skip_token : Text → Option Text
unfolding skip_space after_word
skip_token text = elim (skip_space text) [ [] ↦ none | c ∷ cs ↦ some (after_word (c ∷ cs)) ]

-- updateCpuTicks's loop over the fields
unfoldable pub skip_tokens : ℕ → Text → Option Text
unfolding skip_token
skip_tokens zero text = some text
skip_tokens (suc n) text = elim (skip_token text) [ none ↦ none | some rest ↦ skip_tokens n rest ]

module _ (scan_long : Text → Option (ℕ × Text)) where
  -- `iss >> utime >> stime`, and their sum
  unfoldable pub read_ticks : Text → Option ℕ
  read_ticks text = elim (scan_long text) [
    | none ↦ none
    | some (utime, rest) ↦ elim (scan_long rest) [
      | none ↦ none
      | some (stime, end) ↦ some ((utime + stime) % word)
    ]
  ]

  -- updateCpuTicks, past the opening of the file: the line is `none` where getline fails
  unfoldable pub update_cpu_ticks : Option Text → Option ℕ
  unfolding rfind skip_tokens read_ticks
  update_cpu_ticks none = none
  update_cpu_ticks (some line) = elim (rfind 41 line) [
    | none ↦ none
    | some rparen ↦ elim (skip_tokens 11 (drop (rparen + 2) line)) [
      | none ↦ none
      | some rest ↦ if leb (length line) (rparen + 2) then none else read_ticks rest
    ]
  ]

  -- the third number of statm: resident
  unfoldable pub read_resident : Option Text → Option ℕ
  read_resident none = none
  read_resident (some text) = elim (scan_long text) [
    | none ↦ none
    | some (t_size, rest) ↦ elim (scan_long rest) [
      | none ↦ none
      | some (resident, rest') ↦ elim (scan_long rest') [
        | none ↦ none
        | some (share, end) ↦ some resident
      ]
    ]
  ]

  module _ (mem_percentage : ℕ → ℕ → ℤ → ℤ) (cpu_percentage : ℕ → ℕ → ℕ → ℤ) where
    -- updateAllocatedMemory(), `none` where it returns false
    unfoldable pub update_allocated_memory :
        Option Text → ProcessResourceMonitor → Option ProcessResourceMonitor
    unfolding read_resident push
    update_allocated_memory statm m = elim (read_resident statm) [
      | none ↦ none
      | some resident ↦
          let percentage = mem_percentage resident (m.sys_page_size / 1024) m.total_ram_kb in
          some (record m { memory_percentage_w = push percentage m.memory_percentage_w })
    ]

    -- update(), from the ticks read and the time of the steady clock
    unfoldable pub update_cpu : ℕ → ℕ → ProcessResourceMonitor → ℕ × ProcessResourceMonitor
    unfolding push
    update_cpu total_ticks now m =
        let sampled : ProcessResourceMonitor = record m {
          last_total_ticks = total_ticks;
          last_time = now;
        } in
        let d_ticks = total_ticks - m.last_total_ticks in
        let percentage = cpu_percentage d_ticks m.sys_ticks_per_sec (now - m.last_time) in
        if m.last_total_ticks == 0
        then (0, sampled)
        else if leb now m.last_time || ltb total_ticks m.last_total_ticks
        then (3, sampled)
        else (0, record sampled { cpu_percentage_w = push percentage m.cpu_percentage_w })

    -- update(): the code that it returns, and the monitor
    unfoldable pub update :
        Option Text → Option Text → ℕ → ProcessResourceMonitor → ℕ × ProcessResourceMonitor
    unfolding update_allocated_memory update_cpu_ticks update_cpu
    update statm stat now m = elim (update_allocated_memory statm m) [
      | none ↦ (1, m)
      | some m' ↦ elim (update_cpu_ticks stat) [
        | none ↦ (2, m')
        | some total_ticks ↦ update_cpu total_ticks now m'
      ]
    ]

-- getCpuPercent() and getMemPercent()
unfoldable pub get_cpu_percent : ProcessResourceMonitor → ℕ × ℕ
unfolding mean
get_cpu_percent m = mean m.cpu_percentage_w

unfoldable pub get_mem_percent : ProcessResourceMonitor → ℕ × ℕ
unfolding mean
get_mem_percent m = mean m.memory_percentage_w
