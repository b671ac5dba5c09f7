-- ===== src/System.antt =====
-- The kernel as a whole: what the entries to it do, one after another, to its state and to which
-- process executes. The start is that of student-distrib/process.c; the entries are the system calls,
-- the exceptions and the interrupts, and the signals that are handled before the return to user code.
use loli_os.Prelude.{ℕ, ◌≡◌, some, ℤ}
use loli_os.Regs.{IntRegs}
use loli_os.FileSystem.{Image}
use loli_os.Signals.Handling.{Action, halt}
use loli_os.Process.{init}
use loli_os.Process.Context.{Kernel}
use loli_os.Process.Execution.{running, respawned, resumed, halt_impl}
use loli_os.Process.Calls.{start_shell}
use loli_os.Interrupts.{handle_exception, handle_signals}
use loli_os.Devices.{Ps2, ps2_handle_irq, pit_handle_irq, rtc_handle_irq}
use loli_os.Syscalls.{World, returned, started, ended, handle_syscall}
pub mod Invariant

-- One entry to the kernel, from a process to the one that executes afterwards.
pub data Step : Kernel → ℕ → Kernel → ℕ → Type 0 where
  call_returns :
      {k k' : Kernel} {curr : ℕ} (w : World) (regs regs' : IntRegs) (value : ℤ)
      → handle_syscall w k curr regs ≡ some (returned value k' regs')
      → Step k curr k' curr
  call_starts :
      {k k' : Kernel} {curr i : ℕ} (w : World) (regs : IntRegs)
      → handle_syscall w k curr regs ≡ some (started i k')
      → Step k curr k' i
  call_respawns :
      {k k' : Kernel} {curr i : ℕ} (w : World) (regs : IntRegs)
      → handle_syscall w k curr regs ≡ some (ended (respawned i k'))
      → Step k curr k' i
  call_resumes :
      {k k' : Kernel} {curr i : ℕ} (w : World) (regs : IntRegs) (status : ℕ)
      → handle_syscall w k curr regs ≡ some (ended (resumed i status k'))
      → Step k curr k' i
  exception :
      {k k' : Kernel} {curr : ℕ} (regs : IntRegs)
      → handle_exception k curr regs ≡ some k'
      → Step k curr k' curr
  timer :
      {k k' : Kernel} {curr i : ℕ} (process_data : ℕ)
      → pit_handle_irq process_data k curr ≡ some (i, k')
      → Step k curr k' i
  keys :
      {curr : ℕ} (s s' : Ps2) → ps2_handle_irq curr s ≡ some s' → Step s.kernel curr s'.kernel curr
  clock : {k : Kernel} {curr : ℕ} (counter : ℕ) → Step k curr (rtc_handle_irq k counter).1 curr
  signals :
      {k k' : Kernel} {curr : ℕ} (regs regs' : IntRegs) (action : Action)
      → handle_signals k curr regs ≡ (action, k', regs')
      → Step k curr k' curr
  killed_respawns :
      {k k' : Kernel} {curr i : ℕ} (l : Kernel) (regs regs' : IntRegs) (fs : Image)
      (process_data counter status : ℕ)
      → handle_signals k curr regs ≡ (halt status, l, regs')
      → halt_impl fs process_data counter l curr status ≡ some (respawned i k')
      → Step k curr k' i
  killed_resumes :
      {k k' : Kernel} {curr i : ℕ} (l : Kernel) (regs regs' : IntRegs) (fs : Image)
      (process_data counter status : ℕ)
      → handle_signals k curr regs ≡ (halt status, l, regs')
      → halt_impl fs process_data counter l curr status ≡ some (resumed i status k')
      → Step k curr k' i

-- What is reached from the first process that the start runs.
pub data Reach : Kernel → ℕ → Type 0 where
  start :
      (k : Kernel) {k' : Kernel} {i : ℕ} (fs : Image) (process_data counter : ℕ)
      → start_shell fs process_data counter (record k { table = init k.table })
        ≡ some (running i k')
      → Reach k' i
  next : {k k' : Kernel} {curr i : ℕ} → Reach k curr → Step k curr k' i → Reach k' i
