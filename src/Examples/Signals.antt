-- ===== src/Examples/Signals.antt =====
-- A ShutdownSignal that is installed, signalled three times and destroyed, in a pipe of two bytes.
use dls.Common.{◌≡◌, refl, true, false, none, some, [], ◌∷◌}
use dls.Shutdown.Install.{
  other, Installed, IsUndone, new_shutdown_signal, handle_times, new_shutdown_signal-IsUndone,
}

abbrev process : Installed
process = record {
  write_fd = none;
  on_sigint = other 5;
  on_sigterm = other 6;
  open_fds = 0 ∷ 1 ∷ 2 ∷ [];
}

queued_run :
    (handle_times 2 3 (new_shutdown_signal (some (3, 4)) true true process).0).write_fd
    ≡ some (record { fd = 4; queued = 2 })
unfolding handle_times new_shutdown_signal
queued_run = refl

throws_run : new_shutdown_signal (some (3, 4)) true false process ≡ (process, none)
unfolding new_shutdown_signal
throws_run = refl

new_shutdown_signal-IsUndone_example :
    let (w', made) = new_shutdown_signal (some (3, 4)) true true process in
    IsUndone 2 process w' made
new_shutdown_signal-IsUndone_example =
    new_shutdown_signal-IsUndone 2 (some (3, 4)) true true process
