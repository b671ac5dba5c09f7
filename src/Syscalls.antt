-- ===== src/Syscalls.antt =====
-- The system calls: the jump table of student-distrib/syscall.S, and handle_syscall of
-- student-distrib/idt.c, over the kernel's state. `none` is a failed assertion, or a call that still
-- waits when the list of what it sees ends.
pub mod Keeping
pub mod Reading
pub mod Tables
pub mod Writing
use loli_os.Prelude.{
  ℕ, Bool, ◌&&◌, Option, none, some, List, ltb, leb, ◌==◌, if◌then◌else◌, get_or, ℤ, pos, negsuc,
  minus_one, to_u32, to_i32,
}
use loli_os.Memory.{user_page_start, user_page_end}
use loli_os.Memory.Bytes.{Mem}
use loli_os.Regs.{IntRegs}
use loli_os.Signals.{Signal, set_handler}
use loli_os.Signals.Delivery.{sigreturn, sys_sigreturn}
use loli_os.FileObj.{FileObj}
use loli_os.FileSystem.{Image}
use loli_os.File.{file_open, file_close}
use loli_os.File.Transfer.{Looks, file_read, file_write}
use loli_os.Process.{Pcb}
use loli_os.Process.Context.{Kernel}
use loli_os.Process.Execution.{Executed, refused, running, execute, Halted, halt}
use loli_os.Process.Calls.{getargs, vidmap}

-- What does not change: the file system, the address of process_data, and what a call sees of the
-- world.
pub record World : Type 0 where
  pub fs : Image
  pub process_data : ℕ
  pub looks : Looks

-- What a system call leaves: its result, with the kernel and the registers that the interrupt will
-- restore; a child that executes while the caller sleeps; or the end of the caller.
pub data Outcome : Type 0 where
  returned : ℤ → Kernel → IntRegs → Outcome
  started : ℕ → Kernel → Outcome
  ended : Halted → Outcome

-- The numbers of the system calls; SYS_SIGRETURN is with the signals.
abbrev pub sys_halt : ℕ
sys_halt = 1

abbrev pub sys_execute : ℕ
sys_execute = 2

abbrev pub sys_read : ℕ
sys_read = 3

abbrev pub sys_write : ℕ
sys_write = 4

abbrev pub sys_open : ℕ
sys_open = 5

abbrev pub sys_close : ℕ
sys_close = 6

abbrev pub sys_getargs : ℕ
sys_getargs = 7

abbrev pub sys_vidmap : ℕ
sys_vidmap = 8

abbrev pub sys_set_handler : ℕ
sys_set_handler = 9

-- A result with a new kernel.
abbrev pub returning : IntRegs → Option (ℤ × Kernel) → Option Outcome
returning regs none = none
returning regs (some (value, k)) = some (returned value k regs)

-- The kernel with another entry, or another user memory, of one process.
abbrev pub with_pcb : Kernel → ℕ → Pcb → Kernel
with_pcb k i p = record k { table = λ j. if i == j then p else k.table j }

abbrev pub with_page : Kernel → ℕ → Mem → Kernel
with_page k i page = record k { pages = λ j. if i == j then page else k.pages j }

abbrev pub with_files : Kernel → ℕ → ℤ × (ℕ → FileObj) → ℤ × Kernel
with_files k i (value, files) =
    let p = k.table i in (value, with_pcb k i (record p { files = files }))

abbrev pub with_signals : Kernel → ℕ → ℤ × List Signal → ℤ × Kernel
with_signals k i (value, signals) =
    let p = k.table i in (value, with_pcb k i (record p { signals = signals }))

abbrev pub in_user_page : ℕ → Bool
in_user_page p = leb user_page_start p && ltb p user_page_end

-- The user memory, with the arguments of the process at the address 0, which is outside of it.
abbrev pub with_args : Mem → List ℕ → Mem
with_args page args p = if in_user_page p then page p else get_or args p 0

abbrev pub after_args : Kernel → ℕ → ℤ × Mem → ℤ × Kernel
after_args k i (value, m) =
    let page = k.pages i in (value, with_page k i (λ p. if in_user_page p then m p else page p))

-- process_getargs on the kernel.
unfoldable pub call_getargs : Kernel → ℕ → ℕ → ℤ → ℤ × Kernel
unfolding getargs
call_getargs k curr buf nbytes =
    after_args k curr (getargs (with_args (k.pages curr) (k.table curr).args) 0 buf nbytes)

abbrev pub of_executed : Kernel → IntRegs → Option Executed → Option Outcome
of_executed k regs none = none
of_executed k regs (some refused) = some (returned minus_one k regs)
of_executed k regs (some (running i k')) = some (started i k')

abbrev pub of_halted : Option Halted → Option Outcome
of_halted none = none
of_halted (some h) = some (ended h)

abbrev pub of_sigreturn : Kernel → ℕ → ℤ × List Signal × IntRegs → Outcome
of_sigreturn k i (value, signals, regs) =
    let p = k.table i in returned value (with_pcb k i (record p { signals = signals })) regs

-- The terminal of a process, which a call that reads or writes takes as an index.
abbrev pub on_terminal : ℤ → (ℕ → Option Outcome) → Option Outcome
on_terminal (pos i) call = call i
on_terminal (negsuc n) call = none

-- syscall_handle, for the executing process `curr`: a, b and c are the arguments.
unfoldable pub syscall_handle : World → Kernel → ℕ → ℕ → ℕ → ℕ → IntRegs → ℕ → Option Outcome
syscall_handle w k curr a b c regs num =
    let p = k.table curr in
    let page = k.pages curr in
    let counter = w.looks.counter in
    if num == sys_halt
    then of_halted (halt w.fs w.process_data counter k curr a)
    else if num == sys_execute
    then of_executed k regs (execute w.fs w.process_data counter k curr a)
    else if num == sys_read
    then on_terminal p.terminal
        (λ i. returning regs (file_read w.fs w.looks k curr i (to_i32 a) b (to_i32 c)))
    else if num == sys_write
    then on_terminal p.terminal (λ i. returning regs (file_write k curr i (to_i32 a) b (to_i32 c)))
    else if num == sys_open
    then returning regs (some (with_files k curr (file_open w.fs page p.files a)))
    else if num == sys_close
    then returning regs (some (with_files k curr (file_close p.files (to_i32 a))))
    else if num == sys_getargs
    then returning regs (some (call_getargs k curr a (to_i32 b)))
    else if num == sys_vidmap
    then returning regs (vidmap k curr a)
    else if num == sys_set_handler
    then returning regs (some (with_signals k curr (set_handler p.signals (to_i32 a) b)))
    else if num == sys_sigreturn
    then some (of_sigreturn k curr (sigreturn page p.signals (to_i32 a) b regs))
    else some (returned minus_one k regs)

-- The result in EAX.
abbrev pub set_eax : Option Outcome → Option Outcome
set_eax none = none
set_eax (some (returned value k regs)) =
    some (returned value k (record regs { eax = to_u32 value }))
set_eax (some (started i k)) = some (started i k)
set_eax (some (ended h)) = some (ended h)

-- handle_syscall.
unfoldable pub handle_syscall : World → Kernel → ℕ → IntRegs → Option Outcome
handle_syscall w k curr regs =
    set_eax (syscall_handle w k curr regs.ebx regs.ecx regs.edx regs regs.eax)

-- handle_syscall for idt_handle_interrupt, which goes on only after a call that returns.
abbrev pub resume : Option Outcome → Option (IntRegs × Kernel)
resume none = none
resume (some (returned value k regs)) = some (regs, k)
resume (some (started i k)) = none
resume (some (ended h)) = none

unfoldable pub syscall_interrupt : World → ℕ → IntRegs → Kernel → Option (IntRegs × Kernel)
syscall_interrupt w curr regs k = resume (handle_syscall w k curr regs)
