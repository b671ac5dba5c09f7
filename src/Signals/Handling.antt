-- ===== src/Signals/Handling.antt =====
-- What the kernel does about pending signals before it returns to user code: signal_handle and
-- signal_handle_all of student-distrib/signal.c.
use loli_os.Prelude.{ℕ, false, ◌||◌, List, [], ◌∷◌, ◌==◌, if◌then◌else◌}
use loli_os.Memory.Bytes.{Mem}
use loli_os.Regs.{IntRegs}
use loli_os.Signals.{Signal, has_handler, sig_div_zero, sig_segfault, sig_interrupt}
use loli_os.Signals.Delivery.{deliver, failed, delivered}

-- What signal_handle does: it starts the handler, halts the process with a status, or does nothing.
pub data Handled : Type 0 where
  started : Mem → Signal → IntRegs → Handled
  halted : Mem → ℕ → Handled
  ignored : Signal → Handled

-- signal_handle.
unfoldable pub handle : Mem → Signal → IntRegs → Handled
unfolding deliver
handle m s regs =
    if has_handler s
    then elim (deliver m s regs) [
      | failed m' ↦ halted m' 256
      | delivered m' s' regs' ↦ started m' s' regs'
    ]
    else if s.signum == sig_div_zero || s.signum == sig_segfault
    then halted m 256
    else if s.signum == sig_interrupt
    then halted m 130
    else ignored (record s { pending = false })

-- What signal_handle_all has done: nothing, started the handler at an address, or halted the process.
pub data Action : Type 0 where
  nothing : Action
  run_handler : ℕ → Action
  halt : ℕ → Action

-- What signal_handle_all leaves.
pub record AllHandled : Type 0 where
  pub action : Action
  pub mem : Mem
  pub signals : List Signal
  pub regs : IntRegs

-- The loop of signal_handle_all, over the signals from the first on.
unfoldable pub handle_all : Mem → IntRegs → List Signal → AllHandled
unfolding handle
handle_all m regs [] = record { action = nothing; mem = m; signals = []; regs = regs }
handle_all m regs (s ∷ ss) =
    let rest = handle_all m regs ss in
    if s.pending
    then elim (handle m s regs) [
      | started m' s' regs' ↦ record {
        action = run_handler s.handler_addr;
        mem = m';
        signals = s' ∷ ss;
        regs = regs';
      }
      | halted m' status ↦ record { action = halt status; mem = m'; signals = s ∷ ss; regs = regs }
      | ignored s' ↦ record rest { signals = s' ∷ rest.signals }
    ]
    else record rest { signals = s ∷ rest.signals }
