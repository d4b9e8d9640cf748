-- ===== src/AppLog.antt =====
-- modules/log/src/app_logger.cpp, terminal_logger.cpp and file_logger.cpp: what an AppLogger writes to the
-- terminal and to its file, and what it notifies. The text of a time, which the C library makes of the
-- seconds and the nanoseconds, is an argument, as are the clocks and whether the file can be opened.
use dls.Common.{
  ℕ, ◌/◌, ◌%◌, ◌≡◌, refl, Bool, true, false, ◌&&◌, Option, none, some, List, [], ◌∷◌, ◌++◌, Text,
  codes, text_eq, if◌then◌else◌, ◌==◌, arith, Bool-cases, inl, inr,
}
use dls.Log.{RobustEventNotifier, new_robust_notifier, notify_robust}

-- enum class Level
pub data Level : Type 0 where
  info debug warning error fatal : Level

unfoldable pub level_key : Level → Text
level_key info = codes "INFO"
level_key debug = codes "DEBUG"
level_key warning = codes "WARNING"
level_key error = codes "ERROR"
level_key fatal = codes "FATAL"

-- an escape sequence
abbrev pub escape : Text → Text
escape rest = 27 ∷ codes "[" ++ rest

abbrev pub white : Text
white = escape (codes "0m")

unfoldable pub level_color : Level → Text
level_color info = white
level_color debug = escape (codes "1;36m")
level_color warning = escape (codes "33m")
level_color error = escape (codes "31m")
level_color fatal = escape (codes "1;31m")

-- severities and identifiers of the events that the methods notify
abbrev pub nominal_operation : ℕ
nominal_operation = 24

unfoldable pub severity_of : Level → ℕ
severity_of info = 0
severity_of debug = 0
severity_of warning = 1
severity_of error = 2
severity_of fatal = 3

-- info() and debug() have an identifier of their own; the others take one, with a default
unfoldable pub event_of : Level → Option ℕ → ℕ
event_of info given = nominal_operation
event_of debug given = nominal_operation
event_of warning none = 25
event_of warning (some event_id) = event_id
event_of error none = 26
event_of error (some event_id) = event_id
event_of fatal none = 26
event_of fatal (some event_id) = event_id

pub record FileLogger : Type 0 where
  pub is_open : Bool
  pub lines : List Text

pub record AppLogger : Type 0 where
  pub id : Text
  pub terminal : List Text
  pub event_notifier : RobustEventNotifier
  pub file_logger : Option FileLogger
  pub enable_log_terminal : Bool
  pub enable_event_notify : Bool
  pub enable_file_log : Bool

-- AppLogger(ID, enable_log_terminal, enable_event_notify, enable_file_log), with whether the
-- file of the log's folder opens, and the notifier's own threshold
unfoldable pub new_app_logger : ℕ → Text → Bool → Bool → Bool → Bool → AppLogger
unfolding new_robust_notifier
new_app_logger threshold id enable_log_terminal enable_event_notify enable_file_log opens = record {
  id = id;
  terminal = [];
  event_notifier = new_robust_notifier id threshold;
  file_logger = if enable_file_log then some (record { is_open = opens; lines = [] }) else none;
  enable_log_terminal = enable_log_terminal;
  enable_event_notify = enable_event_notify;
  enable_file_log = enable_file_log;
}

-- FileLogger::log(line) and close()
unfoldable pub file_log : Text → FileLogger → FileLogger
file_log line f = if f.is_open then record f { lines = line ∷ f.lines } else f

unfoldable pub file_close : FileLogger → FileLogger
file_close f = record f { is_open = false }

module _ (time_text : ℕ → ℕ → Text) where
  -- format_timestamp_local(epoch_ns)
  unfoldable pub format_timestamp_local : ℕ → Text
  format_timestamp_local epoch_ns = time_text (epoch_ns / 1000000000) (epoch_ns % 1000000000)

  -- what log() writes to the terminal, and to out_line
  unfoldable pub terminal_line : Level → Text → ℕ → Text → Text
  unfolding format_timestamp_local level_key level_color
  terminal_line lvl id epoch_ns msg =
      level_color lvl
      ++ (format_timestamp_local epoch_ns
          ++ (codes " ["
              ++ (level_key lvl
                  ++ (codes "] " ++ (id ++ (codes ": " ++ (msg ++ (white ++ codes "\n"))))))))

  unfoldable pub out_line : Level → Text → ℕ → Text → Text
  unfolding format_timestamp_local level_key
  out_line lvl id epoch_ns msg =
      format_timestamp_local epoch_ns
      ++ (codes " [" ++ (level_key lvl ++ (codes "] " ++ (id ++ (codes ": " ++ msg)))))

  -- write_file_if_enabled_(line)
  unfoldable pub write_file_if_enabled : Text → AppLogger → AppLogger
  unfolding file_log
  write_file_if_enabled line a = elim a.file_logger [
    | none ↦ a
    | some f ↦
        if a.enable_file_log && f.is_open
        then (if line == [] then a else record a { file_logger = some (file_log line f) })
        else a
  ]

  -- TerminalLogger::log where the terminal or the file is enabled, and the file's line
  unfoldable pub write : Level → ℕ → Text → AppLogger → AppLogger
  unfolding terminal_line out_line write_file_if_enabled
  write lvl epoch_ns msg a =
      let a' : AppLogger =
        if a.enable_log_terminal
        then record a { terminal = terminal_line lvl a.id epoch_ns msg ∷ a.terminal }
        else a in
      write_file_if_enabled (if a.enable_file_log then out_line lvl a.id epoch_ns msg else []) a'

  -- info(s), debug(s), warning(s, event_id), error(s, event_id), fatal(s, event_id)
  unfoldable pub log : Level → Option ℕ → ℕ × ℕ → ℕ → Text → AppLogger → AppLogger
  unfolding notify_robust severity_of event_of write
  log lvl event_id (now, stamp) epoch_ns msg a =
      let n =
        if a.enable_event_notify
        then notify_robust (event_of lvl event_id) (severity_of lvl) msg now stamp a.event_notifier
        else a.event_notifier in
      write lvl epoch_ns msg (record a { event_notifier = n })

  append-not_empty : (xs ys : Text) (c : ℕ) → ((xs ++ c ∷ ys) == []) ≡ false
  append-not_empty [] ys c = ground arith
  append-not_empty (x ∷ xs) ys c = ground arith

  out_line-not_empty :
      (lvl : Level) (id : Text) (epoch_ns : ℕ) (msg : Text)
      → (out_line lvl id epoch_ns msg == []) ≡ false
  unfolding out_line
  out_line-not_empty lvl id epoch_ns msg =
      append-not_empty (format_timestamp_local epoch_ns)
        (codes "[" ++ (level_key lvl ++ (codes "] " ++ (id ++ (codes ": " ++ msg))))) 32

  write_file_if_enabled_lem :
      (line : Text) (a : AppLogger) (f : FileLogger)
      → a.file_logger ≡ some f
      → f.is_open ≡ true
      → a.enable_file_log ≡ true
      → (line == []) ≡ false
      → write_file_if_enabled line a
        ≡ record a { file_logger = some (record f { lines = line ∷ f.lines }) }
  unfolding write_file_if_enabled
  write_file_if_enabled_lem line a f held opened enabled full =
      rw (held, enabled, opened, full) refl

  -- A message to a logger with an open file adds one line to the file, and one to the terminal if that
  -- is enabled, whatever the notifier makes of the event.
  log_lines :
      (lvl : Level) (event_id : Option ℕ) (clock : ℕ × ℕ) (epoch_ns : ℕ) (msg : Text)
      (a : AppLogger) (f : FileLogger)
      → a.file_logger ≡ some f
      → f.is_open ≡ true
      → a.enable_file_log ≡ true
      → let a' = log lvl event_id clock epoch_ns msg a in
        let line = out_line lvl a.id epoch_ns msg in
        (a'.file_logger ≡ some (record f { lines = line ∷ f.lines }))
        × (a'.terminal ≡ (
            if a.enable_log_terminal
            then terminal_line lvl a.id epoch_ns msg ∷ a.terminal
            else a.terminal))
  log_lines lvl event_id (now, stamp) epoch_ns msg a f held opened enabled =
      let line = out_line lvl a.id epoch_ns msg in
      let full = out_line-not_empty lvl a.id epoch_ns msg in
      let n =
        if a.enable_event_notify
        then notify_robust (event_of lvl event_id) (severity_of lvl) msg now stamp a.event_notifier
        else a.event_notifier in
      elim (Bool-cases a.enable_log_terminal) [
        | inl on ↦
            let shown : AppLogger = record a {
              event_notifier = n;
              terminal = terminal_line lvl a.id epoch_ns msg ∷ a.terminal;
              enable_log_terminal = true;
              enable_file_log = true;
            } in
            let done = write_file_if_enabled_lem line shown f held opened refl full in
            unfold log write in rw (on, enabled, done) (refl, refl)
        | inr off ↦
            let hidden : AppLogger = record a {
              event_notifier = n;
              enable_log_terminal = false;
              enable_file_log = true;
            } in
            let done = write_file_if_enabled_lem line hidden f held opened refl full in
            unfold log write in rw (off, enabled, done) (refl, refl)
      ]
