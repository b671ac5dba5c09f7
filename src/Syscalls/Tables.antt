-- ===== src/Syscalls/Tables.antt =====
-- What the system calls leave of the process table.
use loli_os.Prelude.{
  ℕ, ◌≡◌, refl, subst, Option, none, some, List, arith, ◌==◌, ℤ, pos, negsuc, minus_one, to_i32,
  if_holds,
}
use loli_os.Regs.{IntRegs}
use loli_os.Signals.{Signal, set_handler}
use loli_os.Signals.Delivery.{sigreturn}
use loli_os.FileObj.{FileObj}
use loli_os.FileSystem.{Image}
use loli_os.File.{file_open, file_close}
use loli_os.File.Transfer.{file_read, file_write}
use loli_os.Process.Context.{Kernel}
use loli_os.Process.Ids.{SameTable-update}
use loli_os.Process.Execution.{Executed, refused, running, execute, execute_impl, Halted, halt}
use loli_os.Process.Execution.Creation.{some_inj}
use loli_os.Process.Execution.Survivors.{Runs, HaltedRuns, execute_impl-Runs, halt-HaltedRuns}
use loli_os.Process.Calls.{vidmap}
use loli_os.Memory.{is_user_readable_string}
use loli_os.Syscalls.{
  World, Outcome, returned, started, ended, returning, with_pcb, with_files, with_signals,
  of_executed, of_halted, of_sigreturn, on_terminal, call_getargs, syscall_handle, set_eax,
  handle_syscall,
}
use loli_os.Syscalls.Keeping.{
  OutcomeRuns, Runs-SameTable, Keeps, some-Keeps, file_read-Keeps, file_write-Keeps, vidmap-Keeps,
  Survives,
}

Keeps-Survives :
    (k : Kernel) (curr : ℕ) (regs : IntRegs) (o : Option (ℤ × Kernel))
    → Runs k curr
    → Keeps k o
    → Survives curr (returning regs o)
Keeps-Survives k curr regs none r h x e = ground (arith, e)
Keeps-Survives k curr regs (some (value, k')) r h x e =
    subst (OutcomeRuns curr) (some_inj e) (Runs-SameTable k k' curr r (h value k' refl))

on_terminal-Survives :
    (curr : ℕ) (t : ℤ) (call : ℕ → Option Outcome)
    → ((i : ℕ) → Survives curr (call i))
    → Survives curr (on_terminal t call)
on_terminal-Survives curr (pos i) call h = h i
on_terminal-Survives curr (negsuc n) call h = λ x e. ground (arith, e)

with_files-Keeps :
    (k : Kernel) (curr : ℕ) (o : ℤ × (ℕ → FileObj)) → Keeps k (some (with_files k curr o))
with_files-Keeps k curr (value, files) =
    some-Keeps k (with_files k curr (value, files)).1 value
      (SameTable-update k.table curr (record (k.table curr) { files = files }) (refl, refl))

with_signals-Keeps :
    (k : Kernel) (curr : ℕ) (o : ℤ × List Signal) → Keeps k (some (with_signals k curr o))
with_signals-Keeps k curr (value, signals) =
    some-Keeps k (with_signals k curr (value, signals)).1 value
      (SameTable-update k.table curr (record (k.table curr) { signals = signals }) (refl, refl))

call_getargs-Keeps :
    (k : Kernel) (curr buf : ℕ) (nbytes : ℤ) → Keeps k (some (call_getargs k curr buf nbytes))
unfolding call_getargs
call_getargs-Keeps k curr buf nbytes =
    let o = call_getargs k curr buf nbytes in some-Keeps k o.1 o.0 (λ i. (refl, refl))

of_sigreturn-Survives :
    (k : Kernel) (curr : ℕ) (o : ℤ × List Signal × IntRegs)
    → Runs k curr
    → Survives curr (some (of_sigreturn k curr o))
of_sigreturn-Survives k curr (value, signals, regs) r x e =
    let p = record (k.table curr) { signals = signals } in
    subst (OutcomeRuns curr) (some_inj e)
      (Runs-SameTable k (with_pcb k curr p) curr r (SameTable-update k.table curr p (refl, refl)))

of_executed-Survives :
    (k : Kernel) (curr : ℕ) (regs : IntRegs) (o : Option Executed)
    → Runs k curr
    → ((i : ℕ) (k' : Kernel) → o ≡ some (running i k') → Runs k' i)
    → Survives curr (of_executed k regs o)
of_executed-Survives k curr regs none r h x e = ground (arith, e)
of_executed-Survives k curr regs (some refused) r h x e = subst (OutcomeRuns curr) (some_inj e) r
of_executed-Survives k curr regs (some (running i k')) r h x e =
    subst (OutcomeRuns curr) (some_inj e) (h i k' refl)

of_halted-Survives :
    (curr : ℕ) (o : Option Halted)
    → ((h : Halted) → o ≡ some h → HaltedRuns h)
    → Survives curr (of_halted o)
of_halted-Survives curr none h x e = ground (arith, e)
of_halted-Survives curr (some halted) h x e = subst (OutcomeRuns curr) (some_inj e) (h halted refl)

execute-Runs :
    (fs : Image) (pd counter : ℕ) (k : Kernel) (curr command i : ℕ) (k' : Kernel)
    → Runs k curr
    → execute fs pd counter k curr command ≡ some (running i k')
    → Runs k' i
unfolding execute
execute-Runs fs pd counter k curr command i k' r =
    if_holds (λ o. o ≡ some (running i k') → Runs k' i)
      (is_user_readable_string (k.pages curr) command)
      (execute_impl fs pd counter k (k.pages curr) command (some curr) minus_one) (some refused)
      (execute_impl-Runs fs pd counter k k' (k.pages curr) command i (some curr) minus_one r.healthy
        r.pid)
      (λ e. ground (arith, e))

syscall_handle-Survives :
    (w : World) (k : Kernel) (curr a b c : ℕ) (regs : IntRegs) (num : ℕ)
    → Runs k curr
    → Survives curr (syscall_handle w k curr a b c regs num)
unfolding syscall_handle
syscall_handle-Survives w k curr a b c regs num r =
    let p = k.table curr in
    let page = k.pages curr in
    let counter = w.looks.counter in
    let returns : (o : Option (ℤ × Kernel)) → Keeps k o → Survives curr (returning regs o) =
      λ o h. Keeps-Survives k curr regs o r h in
    if_holds (Survives curr) (num == 1) _ _
      (of_halted-Survives curr (halt w.fs w.process_data counter k curr a)
        (λ h e. halt-HaltedRuns w.fs w.process_data counter k curr a h r e))
      (if_holds (Survives curr) (num == 2) _ _
        (of_executed-Survives k curr regs (execute w.fs w.process_data counter k curr a) r
          (λ i k' e. execute-Runs w.fs w.process_data counter k curr a i k' r e))
        (if_holds (Survives curr) (num == 3) _ _
          (on_terminal-Survives curr p.terminal
            (λ i. returning regs (file_read w.fs w.looks k curr i (to_i32 a) b (to_i32 c)))
            (λ i.
              returns (file_read w.fs w.looks k curr i (to_i32 a) b (to_i32 c))
                (file_read-Keeps w.fs w.looks k curr i (to_i32 a) b (to_i32 c))))
          (if_holds (Survives curr) (num == 4) _ _
            (on_terminal-Survives curr p.terminal
              (λ i. returning regs (file_write k curr i (to_i32 a) b (to_i32 c)))
              (λ i.
                returns (file_write k curr i (to_i32 a) b (to_i32 c))
                  (file_write-Keeps k curr i (to_i32 a) b (to_i32 c))))
            (if_holds (Survives curr) (num == 5) _ _
              (returns (some (with_files k curr (file_open w.fs page p.files a)))
                (with_files-Keeps k curr (file_open w.fs page p.files a)))
              (if_holds (Survives curr) (num == 6) _ _
                (returns (some (with_files k curr (file_close p.files (to_i32 a))))
                  (with_files-Keeps k curr (file_close p.files (to_i32 a))))
                (if_holds (Survives curr) (num == 7) _ _
                  (returns (some (call_getargs k curr a (to_i32 b)))
                    (call_getargs-Keeps k curr a (to_i32 b)))
                  (if_holds (Survives curr) (num == 8) _ _
                    (returns (vidmap k curr a) (vidmap-Keeps k curr a))
                    (if_holds (Survives curr) (num == 9) _ _
                      (returns (some (with_signals k curr (set_handler p.signals (to_i32 a) b)))
                        (with_signals-Keeps k curr (set_handler p.signals (to_i32 a) b)))
                      (if_holds (Survives curr) (num == 10) _ _
                        (of_sigreturn-Survives k curr (sigreturn page p.signals (to_i32 a) b regs)
                          r)
                        (λ x e. subst (OutcomeRuns curr) (some_inj e) r))))))))))

set_eax-Survives : (curr : ℕ) (o : Option Outcome) → Survives curr o → Survives curr (set_eax o)
set_eax-Survives curr none h x e = ground (arith, e)
set_eax-Survives curr (some (returned value k regs)) h x e =
    subst (OutcomeRuns curr) (some_inj e) (h (returned value k regs) refl)
set_eax-Survives curr (some (started i k)) h x e =
    subst (OutcomeRuns curr) (some_inj e) (h (started i k) refl)
set_eax-Survives curr (some (ended halted)) h x e =
    subst (OutcomeRuns curr) (some_inj e) (h (ended halted) refl)

-- Where a process executes that holds its own entry of a healthy table, every system call that
-- succeeds, with whatever number and arguments, leaves a healthy table, and the process that executes
-- then holds its own entry: the caller, a new child, a new shell, or the parent of one that ended.
pub handle_syscall-OutcomeRuns :
    (w : World) (k : Kernel) (curr : ℕ) (regs : IntRegs) (x : Outcome)
    → Runs k curr
    → handle_syscall w k curr regs ≡ some x
    → OutcomeRuns curr x
unfolding handle_syscall
handle_syscall-OutcomeRuns w k curr regs x r e =
    set_eax-Survives curr (syscall_handle w k curr regs.ebx regs.ecx regs.edx regs regs.eax)
      (syscall_handle-Survives w k curr regs.ebx regs.ecx regs.edx regs regs.eax r) x e
