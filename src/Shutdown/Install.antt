-- ===== src/Shutdown/Install.antt =====
-- modules/utils/include/dls2/util/shutdown_signal.hpp beside its thread: the constructor, the destructor, the
-- handler and start(). What pipe2 gives and whether each sigaction succeeds are arguments; the
-- handlers that run at the same time end before release() goes on, so that each is one step.
use dls.Common.{
  ℕ, zero, suc, ◌≡◌, refl, Bool, true, false, Option, none, some, List, [], ◌∷◌, ◌==◌, nat_eq,
  nat_beq_iff, if◌then◌else◌, ltb, arith, Option-cases, inl, inr, sym, ap, ◌∙◌, subst,
}

-- a handler of a signal: ShutdownSignal::handle, or another
pub data Handler : Type 0 where
  own : Handler
  other : ℕ → Handler

-- the pipe that write_fd_ names, and how many bytes wait in it
pub record Pipe : Type 0 where
  pub fd : ℕ
  pub queued : ℕ

-- the process: the static write_fd_, the handlers of the two signals and the open descriptors
pub record Installed : Type 0 where
  pub write_fd : Option Pipe
  pub on_sigint : Handler
  pub on_sigterm : Handler
  pub open_fds : List ℕ

pub record ShutdownSignal : Type 0 where
  pub read_end : ℕ
  pub write_end : ℕ
  pub old_int : Handler
  pub old_term : Handler
  pub started : Bool

-- ::close(fd)
unfoldable pub close_fd : ℕ → List ℕ → List ℕ
close_fd fd [] = []
close_fd fd (x ∷ xs) = let rest = close_fd fd xs in if x == fd then xs else x ∷ rest

-- release()
unfoldable pub release : ℕ → ℕ → Installed → Installed
unfolding close_fd
release read_end write_end w = record w {
  write_fd = none;
  open_fds = close_fd write_end (close_fd read_end w.open_fds);
}

-- the constructor's calls of sigaction, in the process that has taken write_fd_
unfoldable pub set_handlers : Bool → Bool → ℕ → ℕ → Installed → Installed × Option ShutdownSignal
unfolding release
set_handlers false term_set read_end write_end w = (release read_end write_end w, none)
set_handlers true false read_end write_end w =
    let changed : Installed = record w { on_sigint = own } in
    (release read_end write_end (record changed { on_sigint = w.on_sigint }), none)
set_handlers true true read_end write_end w = (
  record w { on_sigint = own; on_sigterm = own },
  some (record {
    read_end = read_end;
    write_end = write_end;
    old_int = w.on_sigint;
    old_term = w.on_sigterm;
    started = false;
  }),
)

abbrev pub piped : ℕ → ℕ → Installed → Installed
piped read_end write_end w = record w { open_fds = read_end ∷ write_end ∷ w.open_fds }

abbrev pub taking : ℕ → ℕ → Installed → Installed
taking read_end write_end w = record (piped read_end write_end w) {
  write_fd = some (record { fd = write_end; queued = 0 });
}

-- ShutdownSignal(): `none` beside the process where it throws
unfoldable pub new_shutdown_signal :
    Option (ℕ × ℕ) → Bool → Bool → Installed → Installed × Option ShutdownSignal
unfolding set_handlers close_fd
new_shutdown_signal none int_set term_set w = (w, none)
new_shutdown_signal (some (read_end, write_end)) int_set term_set w = elim w.write_fd [
  | none ↦ set_handlers int_set term_set read_end write_end (taking read_end write_end w)
  | some pipe ↦ (
    record w {
      open_fds = close_fd write_end (close_fd read_end (piped read_end write_end w).open_fds);
    },
    none,
  )
]

-- ~ShutdownSignal(), once its thread has been joined
unfoldable pub delete_shutdown_signal : ShutdownSignal → Installed → Installed
unfolding release
delete_shutdown_signal s w =
    release s.read_end s.write_end
      (record w { write_fd = none; on_sigint = s.old_int; on_sigterm = s.old_term })

-- start(request_shutdown), up to the thread's loop
unfoldable pub start : ShutdownSignal → Option ShutdownSignal
start s = if s.started then none else some (record s { started = true })

-- handle(): a full pipe takes no byte more
unfoldable pub handle : ℕ → Installed → Installed
handle capacity w = elim w.write_fd [
  | none ↦ w
  | some pipe ↦
      if ltb pipe.queued capacity
      then record w { write_fd = some (record pipe { queued = suc pipe.queued }) }
      else w
]

-- signals one after another
unfoldable pub handle_times : ℕ → ℕ → Installed → Installed
unfolding handle
handle_times capacity zero w = w
handle_times capacity (suc n) w = handle_times capacity n (handle capacity w)

handle-open_fds : (capacity : ℕ) (w : Installed) → (handle capacity w).open_fds ≡ w.open_fds
unfolding handle
handle-open_fds capacity w = elim (Option-cases w.write_fd) [
  | inl free ↦ ground (arith, free)
  | inr (pipe, taken) ↦ ground (arith, taken)
]

handle_times-open_fds :
    (capacity n : ℕ) (w : Installed) → (handle_times capacity n w).open_fds ≡ w.open_fds
unfolding handle_times
handle_times-open_fds capacity zero w = refl
handle_times-open_fds capacity (suc n) w =
    handle_times-open_fds capacity n (handle capacity w) ∙ handle-open_fds capacity w

-- The descriptors opened first are closed again.
close_both : (r e : ℕ) (fds : List ℕ) → close_fd e (close_fd r (r ∷ e ∷ fds)) ≡ fds
unfolding close_fd
close_both r e fds = ground (arith, nat_beq_iff r r, nat_beq_iff e e)

-- what a constructor that ends in w' leaves: the process as it was, or what the destructor undoes
abbrev pub IsUndone : ℕ → Installed → Installed → Option ShutdownSignal → Type 0
IsUndone capacity w w' none = w' ≡ w
IsUndone capacity w w' (some s) =
    (w'.on_sigint ≡ own)
    × (w'.on_sigterm ≡ own)
    × ((n : ℕ) → delete_shutdown_signal s (handle_times capacity n w') ≡ w)

delete_lem :
    (s : ShutdownSignal) (w w' : Installed)
    → w.write_fd ≡ none
    → s.old_int ≡ w.on_sigint
    → s.old_term ≡ w.on_sigterm
    → w'.open_fds ≡ s.read_end ∷ s.write_end ∷ w.open_fds
    → delete_shutdown_signal s w' ≡ w
unfolding delete_shutdown_signal release
delete_lem s w w' free kept_int kept_term opened = λ i. record {
  write_fd = sym free i;
  on_sigint = kept_int i;
  on_sigterm = kept_term i;
  open_fds =
      (ap (λ fds. close_fd s.write_end (close_fd s.read_end fds)) opened
          ∙ close_both s.read_end s.write_end w.open_fds)
        i;
}

closing :
    (r e : ℕ) (w : Installed)
    → record w { open_fds = close_fd e (close_fd r (r ∷ e ∷ w.open_fds)) } ≡ w
closing r e w = λ i. record w { open_fds = close_both r e w.open_fds i }

set_handlers-IsUndone :
    (capacity : ℕ) (int_set term_set : Bool) (r e : ℕ) (w : Installed)
    → w.write_fd ≡ none
    → let (w', made) = set_handlers int_set term_set r e (taking r e w) in
      IsUndone capacity w w' made
unfolding set_handlers release
set_handlers-IsUndone capacity false term_set r e w free =
    λ i. record w { write_fd = sym free i; open_fds = close_both r e w.open_fds i }
set_handlers-IsUndone capacity true false r e w free =
    λ i. record w { write_fd = sym free i; open_fds = close_both r e w.open_fds i }
set_handlers-IsUndone capacity true true r e w free =
    let (w', made) = set_handlers true true r e (taking r e w) in
    let s : ShutdownSignal = record {
      read_end = r;
      write_end = e;
      old_int = w.on_sigint;
      old_term = w.on_sigterm;
      started = false;
    } in
    (
      refl,
      refl,
      λ n.
          delete_lem s w (handle_times capacity n w') free refl refl
            (handle_times-open_fds capacity n w'),
    )

-- A constructor that throws, for whatever cause, leaves the process as it was. One that ends has installed its
-- handler for both signals, and whatever number of signals come then, the destructor leaves the
-- process as it was before the constructor.
pub new_shutdown_signal-IsUndone :
    (capacity : ℕ) (pipe : Option (ℕ × ℕ)) (int_set term_set : Bool) (w : Installed)
    → let (w', made) = new_shutdown_signal pipe int_set term_set w in IsUndone capacity w w' made
unfolding new_shutdown_signal
new_shutdown_signal-IsUndone capacity none int_set term_set w = refl
new_shutdown_signal-IsUndone capacity (some (r, e)) int_set term_set w =
    elim (Option-cases w.write_fd) [
      | inr (pipe, taken) ↦
          let busy : new_shutdown_signal (some (r, e)) int_set term_set w
              ≡ (record w { open_fds = close_fd e (close_fd r (r ∷ e ∷ w.open_fds)) }, none) =
            rw taken refl in
          subst (λ t. IsUndone capacity w t.0 t.1) (sym busy) (closing r e w)
      | inl free ↦
          let taken : new_shutdown_signal (some (r, e)) int_set term_set w
              ≡ set_handlers int_set term_set r e (taking r e w) =
            rw free refl in
          subst (λ t. IsUndone capacity w t.0 t.1) (sym taken)
            (set_handlers-IsUndone capacity int_set term_set r e w free)
    ]
