-- ===== src/Interrupts/Kept.antt =====
-- The interrupts of student-distrib/idt.c, keyboard.c and signal.c keep the numbers and the parents in
-- the process table.
use loli_os.Prelude.{
  ℕ, ◌≡◌, refl, subst, inl, inr, Option, none, some, arith, ◌==◌, if◌then◌else◌, Bool-cases, ℤ, pos,
  if_holds,
}
use loli_os.Regs.{IntRegs}
use loli_os.Signals.{raise, sig_interrupt, sig_div_zero, sig_segfault}
use loli_os.Signals.Delivery.{user_cs}
use loli_os.Signals.Handling.{handle_all}
use loli_os.Keyboard.{
  Control, kctl_none, kctl_clear, kctl_interrupt, kctl_term, KbdInput, ktyp_none, ktyp_char,
  ktyp_ctrl, process_packet,
}
use loli_os.Terminal.Console.{Console, set_display_terminal, terminal_clear}
use loli_os.Terminal.Input.{handle_char_input}
use loli_os.Process.{null, found, Lookup, get_pcb_by_pid, get_pcb_by_terminal}
use loli_os.Process.Context.{Kernel}
use loli_os.Process.Ids.{SameTable, SameTable-update}
use loli_os.Process.Execution.Creation.{some_inj, bind_some}
use loli_os.Interrupts.{
  exc_de, raise_at, signal_raise, on_console, terminal_interrupt, handle_ctrl_input,
  handle_kbd_input, keyboard_handle_irq, handle_user_exception, handle_exception, handle_signals,
}

-- Where it succeeds, the table keeps its numbers and parents.
abbrev pub KeepsTable : Kernel → Option Kernel → Type 0
KeepsTable k o = (k' : Kernel) → o ≡ some k' → SameTable k.table k'.table

pub none-KeepsTable : (k : Kernel) → KeepsTable k none
none-KeepsTable k k' e = ground (arith, e)

pub some-KeepsTable : (k l : Kernel) → SameTable k.table l.table → KeepsTable k (some l)
some-KeepsTable k l s k' e = subst (λ q. SameTable k.table q.table) (some_inj e) s

looked_up-KeepsTable :
    (k : Kernel) (signum : ℕ) (o : Option Lookup)
    → KeepsTable k
        (elim o [ none ↦ none | some null ↦ none | some (found i) ↦ some (raise_at k i signum) ])
looked_up-KeepsTable k signum none = none-KeepsTable k
looked_up-KeepsTable k signum (some null) = none-KeepsTable k
looked_up-KeepsTable k signum (some (found i)) = some-KeepsTable k (raise_at k i signum) (
    SameTable-update k.table i (record (k.table i) { signals = raise (k.table i).signals signum })
      (refl, refl))

signal_raise-KeepsTable :
    (k : Kernel) (pid : ℤ) (signum : ℕ) → KeepsTable k (signal_raise k pid signum)
unfolding signal_raise
signal_raise-KeepsTable k pid signum = looked_up-KeepsTable k signum (get_pcb_by_pid k.table pid)

on_console-KeepsTable : (k : Kernel) (o : Option Console) → KeepsTable k (on_console k o)
on_console-KeepsTable k none = none-KeepsTable k
on_console-KeepsTable k (some console) =
    some-KeepsTable k (record k { console = console }) (λ i. (refl, refl))

pub handle_exception-KeepsTable :
    (k : Kernel) (curr : ℕ) (regs : IntRegs) → KeepsTable k (handle_exception k curr regs)
unfolding handle_exception
handle_exception-KeepsTable k curr regs =
    if_holds (KeepsTable k) (regs.cs == user_cs) (handle_user_exception k curr regs.int_num) none
      (signal_raise-KeepsTable k (k.table curr).pid
        (if regs.int_num == exc_de then sig_div_zero else sig_segfault))
      (none-KeepsTable k)

by_terminal-KeepsTable :
    (k : Kernel) (o : Option ℕ)
    → KeepsTable k
        (elim o [ none ↦ some k | some i ↦ signal_raise k (k.table i).pid sig_interrupt ])
by_terminal-KeepsTable k none = some-KeepsTable k k (λ i. (refl, refl))
by_terminal-KeepsTable k (some i) = signal_raise-KeepsTable k (k.table i).pid sig_interrupt

terminal_interrupt-KeepsTable : (k : Kernel) → KeepsTable k (terminal_interrupt k)
unfolding terminal_interrupt
terminal_interrupt-KeepsTable k =
    by_terminal-KeepsTable k (get_pcb_by_terminal k.table k.console.display_terminal)

handle_ctrl_input-KeepsTable :
    (k : Kernel) (curr : ℕ) (c : Control) → KeepsTable k (handle_ctrl_input k curr c)
unfolding handle_ctrl_input
handle_ctrl_input-KeepsTable k curr kctl_none = none-KeepsTable k
handle_ctrl_input-KeepsTable k curr kctl_clear = on_console-KeepsTable k (terminal_clear k.console)
handle_ctrl_input-KeepsTable k curr kctl_interrupt = terminal_interrupt-KeepsTable k
handle_ctrl_input-KeepsTable k curr (kctl_term n) =
    on_console-KeepsTable k (set_display_terminal (k.table curr).terminal (pos n) k.console)

handle_kbd_input-KeepsTable :
    (k : Kernel) (curr : ℕ) (input : KbdInput) → KeepsTable k (handle_kbd_input k curr input)
unfolding handle_kbd_input
handle_kbd_input-KeepsTable k curr ktyp_none = some-KeepsTable k k (λ i. (refl, refl))
handle_kbd_input-KeepsTable k curr (ktyp_char c) =
    on_console-KeepsTable k (handle_char_input k.console c)
handle_kbd_input-KeepsTable k curr (ktyp_ctrl c) = handle_ctrl_input-KeepsTable k curr c

pub keyboard_handle_irq_kept :
    (k k' : Kernel) (curr m m' packet : ℕ)
    → keyboard_handle_irq k curr m packet ≡ some (k', m')
    → SameTable k.table k'.table
unfolding keyboard_handle_irq
keyboard_handle_irq_kept k k' curr m m' packet e =
    let input = (process_packet m packet).0 in
    let (l, handled, e1) = bind_some (handle_kbd_input k curr input) _ e in
    subst (λ q. SameTable k.table q.table) (kernel_inj e1)
      (handle_kbd_input-KeepsTable k curr input l handled)
  where
    kernel_inj :
        {a b : Kernel} {x y : ℕ} → ◌≡◌ {A = Option (Kernel × ℕ)} (some (a, x)) (some (b, y)) → a ≡ b
    kernel_inj e = cc

pub handle_signals_kept :
    (k : Kernel) (curr : ℕ) (regs : IntRegs)
    → SameTable k.table (handle_signals k curr regs).1.table
unfolding handle_signals
handle_signals_kept k curr regs = elim (Bool-cases (regs.cs == user_cs)) [
  | inl user ↦
      let p = k.table curr in
      let h = handle_all (k.pages curr) regs p.signals in
      rw (handle_signals, user)
        (SameTable-update k.table curr (record p { signals = h.signals }) (refl, refl))
  | inr kernel ↦ rw (handle_signals, kernel) (λ i. (refl, refl))
]
