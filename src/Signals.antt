-- ===== src/Signals.antt =====
-- The signal table of a process, of student-distrib/signal.c.
pub mod Acting
pub mod Context
pub mod Delivery
pub mod Handling
pub mod Layout
pub mod Pending
pub mod Return
pub mod Starting
use loli_os.Prelude.{
  ℕ, zero, suc, ◌+◌, Bool, true, false, ◌&&◌, ◌||◌, not, List, [], ◌∷◌, leb, ◌==◌, if◌then◌else◌, ℤ,
  pos, negsuc, minus_one,
}

-- NUM_SIGNALS, SIG_DIV_ZERO, SIG_SEGFAULT, SIG_INTERRUPT and SIG_ALARM.
abbrev pub num_signals : ℕ
num_signals = 5

abbrev pub sig_div_zero : ℕ
sig_div_zero = 0

abbrev pub sig_segfault : ℕ
sig_segfault = 1

abbrev pub sig_interrupt : ℕ
sig_interrupt = 2

abbrev pub sig_alarm : ℕ
sig_alarm = 3

-- `signal_info_t`.
pub record Signal : Type 0 where
  pub signum : ℕ
  pub handler_addr : ℕ
  pub masked : Bool
  pub pending : Bool

-- The loop of signal_init, from signal i on.
init_from : ℕ → ℕ → List Signal
init_from i zero = []
init_from i (suc n) =
    record { signum = i; handler_addr = 0; masked = false; pending = false } ∷ init_from (i + 1) n

-- signal_init.
unfoldable pub init : List Signal
unfolding init_from
init = init_from 0 num_signals

-- A change of the signal at an index.
unfoldable pub modify : List Signal → ℕ → (Signal → Signal) → List Signal
modify [] i f = []
modify (s ∷ ss) zero f = f s ∷ ss
modify (s ∷ ss) (suc i) f = s ∷ modify ss i f

-- signal_set_handler.
unfoldable pub set_handler : List Signal → ℤ → ℕ → ℤ × List Signal
unfolding modify
set_handler ss (negsuc n) address = (minus_one, ss)
set_handler ss (pos i) address =
    if leb num_signals i
    then (minus_one, ss)
    else (pos 0, modify ss i (λ s. record s { handler_addr = address }))

-- signal_raise, for the table of the process that it finds.
unfoldable pub raise : List Signal → ℕ → List Signal
unfolding modify
raise ss signum = modify ss signum (λ s. record s { pending = true })

-- The signal whose handler signal_deliver has started, and the one that signal_sigreturn unmasks.
abbrev pub start_handler : Signal → Signal
start_handler s = record s { masked = true; pending = false }

abbrev pub unmask : Signal → Signal
unmask s = record s { masked = false }

-- Whether the process has a handler that may run.
abbrev pub has_handler : Signal → Bool
has_handler s = not (s.handler_addr == 0) && not s.masked

-- signal_has_pending.
unfoldable pub has_pending : List Signal → Bool
has_pending [] = false
has_pending (s ∷ ss) =
    let rest = has_pending ss in
    if s.pending
    then if has_handler s
      then true
      else if s.signum == sig_div_zero || s.signum == sig_segfault || s.signum == sig_interrupt
      then true
      else rest
    else rest
