-- ===== src/Interrupts.antt =====
-- What an interrupt does to the kernel's state: exceptions and their signals, of student-distrib/idt.c,
-- and the keyboard's control sequences, of student-distrib/terminal.c and keyboard.c. `none` is a failed
-- assertion, or an exception of the kernel itself, after which it loops for ever.
pub mod Exceptions
pub mod Gates
pub mod Kept
use loli_os.Prelude.{ℕ, ◌-◌, ◌&&◌, Option, none, some, ltb, leb, ◌==◌, if◌then◌else◌, ℤ, pos}
use loli_os.Regs.{IntRegs}
use loli_os.Signals.{raise, sig_div_zero, sig_segfault, sig_interrupt}
use loli_os.Signals.Delivery.{user_cs}
use loli_os.Signals.Handling.{Action, nothing, handle_all}
use loli_os.Keyboard.{
  Control, kctl_none, kctl_clear, kctl_interrupt, kctl_term, KbdInput, ktyp_none, ktyp_char,
  ktyp_ctrl, process_packet,
}
use loli_os.Terminal.Console.{Console, set_display_terminal, terminal_clear, ◌>>=◌}
use loli_os.Terminal.Input.{handle_char_input}
use loli_os.Process.{null, found, get_pcb_by_pid, get_pcb_by_terminal, update}
use loli_os.Process.Context.{Kernel}

-- The signals of a process, after a signal is raised.
abbrev pub raise_at : Kernel → ℕ → ℕ → Kernel
raise_at k i signum =
    let p = k.table i in
    record k { table = update k.table i (record p { signals = raise p.signals signum }) }

-- signal_raise. For a negative number it would use a NULL pointer.
unfoldable pub signal_raise : Kernel → ℤ → ℕ → Option Kernel
unfolding get_pcb_by_pid raise
signal_raise k pid signum = elim (get_pcb_by_pid k.table pid) [
  | none ↦ none
  | some null ↦ none
  | some (found i) ↦ some (raise_at k i signum)
]

-- The console of the kernel after a step of its own.
abbrev on_console : Kernel → Option Console → Option Kernel
on_console k none = none
on_console k (some console) = some (record k { console = console })

-- terminal_interrupt.
unfoldable pub terminal_interrupt : Kernel → Option Kernel
unfolding get_pcb_by_terminal signal_raise
terminal_interrupt k = elim (get_pcb_by_terminal k.table k.console.display_terminal) [
  | none ↦ some k
  | some i ↦ signal_raise k (k.table i).pid sig_interrupt
]

-- handle_ctrl_input, while the process `curr` executes. There is no terminal beyond the third.
unfoldable pub handle_ctrl_input : Kernel → ℕ → Control → Option Kernel
unfolding terminal_interrupt terminal_clear set_display_terminal
handle_ctrl_input k curr kctl_none = none
handle_ctrl_input k curr kctl_clear = on_console k (terminal_clear k.console)
handle_ctrl_input k curr kctl_interrupt = terminal_interrupt k
handle_ctrl_input k curr (kctl_term n) =
    on_console k (set_display_terminal (k.table curr).terminal (pos n) k.console)

-- terminal_handle_kbd_input.
unfoldable pub handle_kbd_input : Kernel → ℕ → KbdInput → Option Kernel
unfolding handle_ctrl_input handle_char_input
handle_kbd_input k curr ktyp_none = some k
handle_kbd_input k curr (ktyp_char c) = on_console k (handle_char_input k.console c)
handle_kbd_input k curr (ktyp_ctrl c) = handle_ctrl_input k curr c

-- keyboard_handle_irq, for the packet that the PS/2 controller gives: the kernel and the modifiers.
unfoldable pub keyboard_handle_irq : Kernel → ℕ → ℕ → ℕ → Option (Kernel × ℕ)
unfolding process_packet handle_kbd_input
keyboard_handle_irq k curr modifiers packet =
    let (input, modifiers') = process_packet modifiers packet in
    do k' ← handle_kbd_input k curr input; some (k', modifiers')

-- EXC_DE, NUM_EXC, INT_IRQ0, INT_IRQ15 and INT_SYSCALL.
abbrev pub exc_de : ℕ
exc_de = 0

abbrev pub num_exc : ℕ
num_exc = 32

abbrev pub int_irq0 : ℕ
int_irq0 = 0x20

abbrev pub int_irq15 : ℕ
int_irq15 = 0x2F

abbrev pub int_syscall : ℕ
int_syscall = 0x80

-- handle_user_exception, for the executing process `curr`.
unfoldable pub handle_user_exception : Kernel → ℕ → ℕ → Option Kernel
unfolding signal_raise
handle_user_exception k curr int_num =
    signal_raise k (k.table curr).pid (if int_num == exc_de then sig_div_zero else sig_segfault)

-- handle_exception.
unfoldable pub handle_exception : Kernel → ℕ → IntRegs → Option Kernel
unfolding handle_user_exception
handle_exception k curr regs =
    if regs.cs == user_cs then handle_user_exception k curr regs.int_num else none

-- The end of idt_handle_interrupt: the signals of the executing process, where it was in user code.
-- The action is what becomes of the process; the registers are those that the interrupt restores.
unfoldable pub handle_signals : Kernel → ℕ → IntRegs → Action × Kernel × IntRegs
unfolding handle_all
handle_signals k curr regs =
    if regs.cs == user_cs
    then (let p = k.table curr in
        let h = handle_all (k.pages curr) regs p.signals in
        (
          h.action,
          record k {
            table = update k.table curr (record p { signals = h.signals });
            pages = λ j. if curr == j then h.mem else k.pages j;
          },
          h.regs,
        ))
    else (nothing, k, regs)

-- idt_handle_interrupt, where `irq` is what irq_handle_interrupt does with a line and `syscall` what
-- handle_syscall does. A system call, and a line that has the scheduler switch, may change the
-- executing process; `curr` is the one that executes when the handler has returned.
unfoldable pub idt_handle_interrupt :
    (ℕ → Kernel → Option Kernel)
    → (IntRegs → Kernel → Option (IntRegs × Kernel))
    → Kernel
    → ℕ
    → IntRegs
    → Option (Action × Kernel × IntRegs)
unfolding handle_exception handle_signals
idt_handle_interrupt irq syscall k curr regs =
    if ltb regs.int_num num_exc
    then (do k' ← handle_exception k curr regs; some (handle_signals k' curr regs))
    else if leb int_irq0 regs.int_num && leb regs.int_num int_irq15
    then (do k' ← irq (regs.int_num - int_irq0) k; some (handle_signals k' curr regs))
    else if regs.int_num == int_syscall
    then (do (regs', k') ← syscall regs k; some (handle_signals k' curr regs'))
    else some (handle_signals k curr regs)
