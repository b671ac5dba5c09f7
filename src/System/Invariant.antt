-- ===== src/System/Invariant.antt =====
-- What every state has that the kernel can reach.
use loli_os.Prelude.{ℕ, ◌≡◌, ap, subst}
use loli_os.Regs.{IntRegs}
use loli_os.Process.Context.{Kernel}
use loli_os.Process.Ids.{SameTable}
use loli_os.Process.Execution.{respawned, resumed}
use loli_os.Process.Execution.Survivors.{Runs, halt_impl-HaltedRuns}
use loli_os.Process.Execution.Switching.{switch-Runs}
use loli_os.Process.Execution.Starting.{start_shell-Runs}
use loli_os.Interrupts.Kept.{handle_exception-KeepsTable, handle_signals_kept}
use loli_os.Interrupts.{handle_signals}
use loli_os.Signals.Handling.{Action, halt}
use loli_os.Devices.{pit_handle_irq}
use loli_os.Devices.Kept.{ps2_handle_irq_kept, rtc_handle_irq_kept}
use loli_os.Syscalls.{returned, started, ended}
use loli_os.Syscalls.Keeping.{Runs-SameTable}
use loli_os.Syscalls.Tables.{handle_syscall-OutcomeRuns}
use loli_os.System.{
  Step, call_returns, call_starts, call_respawns, call_resumes, exception, timer, keys, clock,
  signals, killed_respawns, killed_resumes, Reach, start, next,
}

handled_signals :
    (k k' : Kernel) (curr : ℕ) (regs regs' : IntRegs) (action : Action)
    → Runs k curr
    → handle_signals k curr regs ≡ (action, k', regs')
    → Runs k' curr
handled_signals k k' curr regs regs' action r e =
    Runs-SameTable k k' curr r
      (subst (λ q. SameTable k.table q.table) (ap (λ o. o.1) e) (handle_signals_kept k curr regs))

Step-Runs :
    {k : Kernel} {curr : ℕ} {k' : Kernel} {i : ℕ} → Step k curr k' i → Runs k curr → Runs k' i
unfolding pit_handle_irq
Step-Runs {k} {curr} {k'} (call_returns w regs regs' value e) r =
    handle_syscall-OutcomeRuns w k curr regs (returned value k' regs') r e
Step-Runs {k} {curr} {k'} {i} (call_starts w regs e) r =
    handle_syscall-OutcomeRuns w k curr regs (started i k') r e
Step-Runs {k} {curr} {k'} {i} (call_respawns w regs e) r =
    handle_syscall-OutcomeRuns w k curr regs (ended (respawned i k')) r e
Step-Runs {k} {curr} {k'} {i} (call_resumes w regs status e) r =
    handle_syscall-OutcomeRuns w k curr regs (ended (resumed i status k')) r e
Step-Runs {k} {curr} {k'} (exception regs e) r =
    Runs-SameTable k k' curr r (handle_exception-KeepsTable k curr regs k' e)
Step-Runs {k} {curr} {k'} {i} (timer pd e) r = switch-Runs pd k k' curr i r e
Step-Runs {k} {curr} {k'} (keys s s' e) r =
    Runs-SameTable s.kernel s'.kernel curr r (ps2_handle_irq_kept curr s s' e)
Step-Runs {k} {curr} {k'} (clock counter) r =
    Runs-SameTable k k' curr r (rtc_handle_irq_kept k counter)
Step-Runs {k} {curr} {k'} (signals regs regs' action e) r =
    handled_signals k k' curr regs regs' action r e
Step-Runs {k} {curr} {k'} {i} (killed_respawns l regs regs' fs pd counter status s e) r =
    halt_impl-HaltedRuns fs pd counter l curr status (respawned i k')
      (handled_signals k l curr regs regs' (halt status) r s) e
Step-Runs {k} {curr} {k'} {i} (killed_resumes l regs regs' fs pd counter status s e) r =
    halt_impl-HaltedRuns fs pd counter l curr status (resumed i status k')
      (handled_signals k l curr regs regs' (halt status) r s) e

-- After the start of the first shell, and after any sequence of system calls, exceptions,
-- interrupts of the timer, the keyboard, the mouse and the clock, and signals that run a handler
-- or halt the process, the executing process is an entry of the table with its own number; every
-- entry of the table is free or holds its own index, and no valid process is its own parent.
pub Reach-Runs : {k : Kernel} {curr : ℕ} → Reach k curr → Runs k curr
Reach-Runs {k} {curr} (start k0 fs pd counter e) = start_shell-Runs fs pd counter k0 k curr e
Reach-Runs {k} {curr} (next reached step) = Step-Runs step (Reach-Runs reached)
