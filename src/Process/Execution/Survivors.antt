-- ===== src/Process/Execution/Survivors.antt =====
-- Which process executes after a system call of student-distrib/process.c that creates or ends one.
use loli_os.Prelude.{
  ℕ, ◌%◌, ◌<◌, ◌≡◌, refl, sym, ap, subst, ◌∙◌, ◌≢◌, inl, inr, true, false, Option, none, some,
  arith, ◌==◌, ℤ, pos, negsuc,
}
use loli_os.FileSystem.{Image}
use loli_os.Memory.Bytes.{Mem}
use loli_os.Terminal.Console.{terminal_clear_input}
use loli_os.Process.{
  Pcb, process_run, is_valid, is_nonneg, update, max_processes, free_pcb, wake_parent,
  get_pcb_by_pid, Lookup, null, found,
}
use loli_os.Process.Context.{Kernel, set_context}
use loli_os.Process.Ids.{
  Healthy, SameTable, Entered, SameTable-update, Healthy-SameTable, Healthy-Entered,
  Healthy-free_pcb,
}
use loli_os.Process.Execution.{
  Executed, refused, running, execute_impl, Halted, respawned, resumed, respawn, leave, halt_impl,
  halt, shell, close_from,
}
use loli_os.Process.Execution.Creation.{some_inj, bind_some, set_context_kept}
use loli_os.Process.Execution.Children.{InTable, execute_impl-Entered}

-- The process `curr` executes, and the process table is as it should be.
pub record Runs (k : Kernel) (curr : ℕ) : Type 0 where
  pub healthy : Healthy k.table
  pub in_table : curr < max_processes
  pub pid : (k.table curr).pid ≡ pos curr

Entered-Runs : (k k' : Kernel) (i : ℕ) → Healthy k.table → Entered k.table k'.table i → Runs k' i
Entered-Runs k k' i h n = record {
  healthy = Healthy-Entered k.table k'.table i h n;
  in_table = n.in_table;
  pid = n.pid;
}

pub execute_impl-Runs :
    (fs : Image) (pd counter : ℕ) (k k' : Kernel) (m : Mem) (command i : ℕ) (parent : Option ℕ)
    (terminal : ℤ)
    → Healthy k.table
    → InTable k.table parent
    → execute_impl fs pd counter k m command parent terminal ≡ some (running i k')
    → Runs k' i
execute_impl-Runs fs pd counter k k' m command i parent terminal h t e =
    Entered-Runs k k' i h (execute_impl-Entered fs pd counter k k' m command i parent terminal t e)

-- What executes after a halt.
abbrev pub HaltedRuns : Halted → Type 0
HaltedRuns (respawned i k) = Runs k i
HaltedRuns (resumed i status k) = Runs k i

respawn-HaltedRuns :
    (x : Option Executed) (h : Halted)
    → ((i : ℕ) (k : Kernel) → x ≡ some (running i k) → Runs k i)
    → respawn x ≡ some h
    → HaltedRuns h
unfolding respawn
respawn-HaltedRuns none h f e = ground (arith, e)
respawn-HaltedRuns (some refused) h f e = ground (arith, e)
respawn-HaltedRuns (some (running i k)) h f e = subst HaltedRuns (some_inj e) (f i k refl)

found_lem :
    (table : ℕ → Pcb) (pid : ℤ) (i : ℕ)
    → get_pcb_by_pid table pid ≡ some (found i)
    → (pid ≡ pos i) × (i < max_processes) × (is_valid (table i) ≡ true)
unfolding get_pcb_by_pid
found_lem table (negsuc n) i e = ground (arith, e)
found_lem table (pos n) i e = ground (arith, e)

SameTable-wake_parent : (table : ℕ → Pcb) (i : ℕ) → SameTable table (wake_parent table i)
unfolding wake_parent
SameTable-wake_parent table i =
    SameTable-update table i (record (table i) { status = process_run }) (refl, refl)

leave-HaltedRuns :
    (fs : Image) (pd counter : ℕ) (k : Kernel) (terminal : ℤ) (status : ℕ) (parent : Lookup)
    (h : Halted)
    → Healthy k.table
    → ((i : ℕ) → parent ≡ found i → (i < max_processes) × ((k.table i).pid ≡ pos i))
    → leave fs pd counter k terminal status parent ≡ some h
    → HaltedRuns h
unfolding leave
leave-HaltedRuns fs pd counter k terminal status null h ok f e =
    respawn-HaltedRuns (execute_impl fs pd counter k shell 0 none terminal) h
      (λ i k' x. execute_impl-Runs fs pd counter k k' shell 0 i none terminal ok tt x) e
leave-HaltedRuns fs pd counter k terminal status (found i) h ok f e =
    let woken = record k { table = wake_parent k.table i } in
    let (k', c, e1) = bind_some (set_context pd woken i) _ e in
    let same : SameTable k.table k'.table =
      subst (SameTable k.table) (sym ((set_context_kept pd woken k' i c).0))
        (SameTable-wake_parent k.table i) in
    let (hi, pid) = f i refl in
    subst HaltedRuns (some_inj e1) (record {
      healthy = Healthy-SameTable k.table k'.table ok same;
      in_table = hi;
      pid = (same i).0 ∙ pid;
    })

-- What the halt leaves of the entry of the process, and whether another one is its parent.
other_parent :
    (k : Kernel) (curr i : ℕ) (p : Pcb)
    → Runs k curr
    → get_pcb_by_pid k.table (k.table curr).parent_pid ≡ some (found i)
    → (i < max_processes) × ((free_pcb (update k.table curr p) curr i).pid ≡ pos i)
unfolding free_pcb
other_parent k curr i p r e =
    let (at, hi, valid) = found_lem k.table (k.table curr).parent_pid i e in
    let ne : curr ≢ i = λ same. r.healthy.parents curr r.in_table r.pid (at ∙ ap pos (sym same)) in
    let there : (curr == i) ≡ false = ground (arith, ne) in
    (
      hi,
      rw there (elim (r.healthy.entries i hi) [
        | inl own ↦ own
        | inr free ↦ absurd (ground (arith, sym valid ∙ ap is_nonneg free))
      ]),
    )

pub halt_impl-HaltedRuns :
    (fs : Image) (pd counter : ℕ) (k : Kernel) (curr status : ℕ) (h : Halted)
    → Runs k curr
    → halt_impl fs pd counter k curr status ≡ some h
    → HaltedRuns h
unfolding halt_impl
halt_impl-HaltedRuns fs pd counter k curr status h r e =
    let child = k.table curr in
    let closed = record child { files = close_from child.files 2 6 } in
    let (parent, found_parent, e1) = bind_some (get_pcb_by_pid k.table child.parent_pid) _ e in
    let (console, cleared, e2) = bind_some (terminal_clear_input k.console child.terminal) _ e1 in
    let freed = free_pcb (update k.table curr closed) curr in
    leave-HaltedRuns fs pd counter (record k { table = freed; console = console }) child.terminal
      status parent h
      (Healthy-free_pcb (update k.table curr closed) curr (
        Healthy-SameTable k.table (update k.table curr closed) r.healthy
          (SameTable-update k.table curr closed (refl, refl))))
      (λ i at. other_parent k curr i closed r (found_parent ∙ ap some at)) e2

-- Where a process of a healthy table executes, a process_halt that succeeds leaves such a table, and
-- the process that executes then holds its own entry: the parent, or a new shell.
pub halt-HaltedRuns :
    (fs : Image) (pd counter : ℕ) (k : Kernel) (curr status : ℕ) (h : Halted)
    → Runs k curr
    → halt fs pd counter k curr status ≡ some h
    → HaltedRuns h
unfolding halt
halt-HaltedRuns fs pd counter k curr status h r e =
    halt_impl-HaltedRuns fs pd counter k curr (status % 256) h r e
