-- ===== src/Process/Execution/Halting.antt =====
-- Executing a program and halting it again, of student-distrib/process.c: the parent goes on.
use loli_os.Prelude.{
  ℕ, ◌-◌, ◌<◌, ◌≡◌, refl, sym, ap, subst, ◌∙◌, ◌≢◌, Bool, true, false, Option, some, arith, ℤ, pos,
  minus_one,
}
use loli_os.Memory.Bytes.{Mem}
use loli_os.FileSystem.{Image}
use loli_os.File.{max_files}
use loli_os.Terminal.Console.{Console, terminal_clear_input, terminal_update_vidmap, get_terminal}
use loli_os.Process.{
  Pcb, process_run, process_sleep, is_valid, is_nonneg, update, max_processes, get_pcb_by_pid,
  found, free_pcb, wake_parent,
}
use loli_os.Process.Table.{known_parent}
use loli_os.Process.Context.{Kernel, kernel_base_esp, map_process, set_context}
use loli_os.Process.Execution.{running, execute_impl, close_from, Halted, resumed, leave, halt_impl}
use loli_os.Process.Execution.Creation.{
  bind_holds, with_status, execute_impl-Executing, set_context_kept,
}

-- A terminal that exists.
abbrev pub IsTerminal : ℤ → Type 0
IsTerminal t = (i : ℕ) × (t ≡ pos i) × (i < 3)

-- A step that succeeds.
abbrev pub Succeeds {ℓ} : {A : Type ℓ} → Option A → Type ℓ
Succeeds {A = A} o = (x : A) × (o ≡ some x)

known_terminal : (t : ℤ) → (d : IsTerminal t) → get_terminal t ≡ some d.0
unfolding get_terminal
known_terminal t (i, e, h) = ap get_terminal e ∙ ground (arith, h)

pub clear_input_some : (s : Console) (t : ℤ) → IsTerminal t → Succeeds (terminal_clear_input s t)
unfolding terminal_clear_input
clear_input_some s t d = bind_holds Succeeds (get_terminal t) _ d.0 (known_terminal t d) (_, refl)

update_vidmap_some :
    (s : Console) (t : ℤ) (present : Bool)
    → IsTerminal t
    → Succeeds (terminal_update_vidmap s t present)
unfolding terminal_update_vidmap
update_vidmap_some s t present d =
    bind_holds Succeeds (get_terminal t) _ d.0 (known_terminal t d) (_, refl)

pub map_process_some : (k : Kernel) (pid : ℤ) (n : ℕ) → pid ≡ pos n → Succeeds (map_process k pid)
unfolding map_process
map_process_some k pid n e = subst (λ p. Succeeds (map_process k p)) (sym e) (_, refl)

pub set_context_some :
    (pd : ℕ) (k : Kernel) (to pid : ℕ)
    → (k.table to).pid ≡ pos pid
    → IsTerminal (k.table to).terminal
    → Succeeds (set_context pd k to)
unfolding set_context
set_context_some pd k to pid e t =
    let p = k.table to in
    let (mapped, m) = map_process_some k p.pid pid e in
    let (console, c) = update_vidmap_some mapped.console p.terminal p.vidmap t in
    bind_holds Succeeds (map_process k p.pid) _ mapped m (
      bind_holds Succeeds (terminal_update_vidmap mapped.console p.terminal p.vidmap) _ console c
        (_, refl))

-- A halt that goes back to the process j: the table, in which the entry i is free and j runs, the
-- pages and the stack pointer.
record Back (pd : ℕ) (k k' : Kernel) (i j : ℕ) : Type 0 where
  freed : (k'.table i).pid ≡ minus_one
  parent : k'.table j ≡ (let p = k.table j in record p { status = process_run })
  others : (l : ℕ) → l ≢ i → l ≢ j → k'.table l ≡ k.table l
  pages : k'.pages ≡ k.pages
  esp0 : k'.esp0 ≡ kernel_base_esp pd (k.table j).pid

Resumed : ℕ → Kernel → ℕ → ℕ → ℕ → Option Halted → Type 0
Resumed pd k i j status o = (k' : Kernel) × (o ≡ some (resumed j status k')) × Back pd k k' i j

-- The table that a halt leaves, where the entry i of the child has been changed before.
abbrev after_halt : (ℕ → Pcb) → ℕ → Pcb → ℕ → ℕ → Pcb
after_halt table i p j = wake_parent (free_pcb (update table i p) i) j

after_halt-child :
    (table : ℕ → Pcb) (i j : ℕ) (p : Pcb) → i ≢ j → (after_halt table i p j i).pid ≡ minus_one
unfolding wake_parent free_pcb
after_halt-child table i j p ne = ground (arith, ne)

after_halt-parent :
    (table : ℕ → Pcb) (i j : ℕ) (p : Pcb)
    → i ≢ j
    → after_halt table i p j j ≡ (let q = table j in record q { status = process_run })
unfolding wake_parent free_pcb
after_halt-parent table i j p ne = ground (arith, ne)

after_halt-others :
    (table : ℕ → Pcb) (i j l : ℕ) (p : Pcb) → l ≢ i → l ≢ j → after_halt table i p j l ≡ table l
unfolding wake_parent free_pcb
after_halt-others table i j l p ni nj = ground (arith, ni, nj)

-- The end of a halt, for the child i whose entry is p.
leave-Resumed :
    (fs : Image) (pd counter : ℕ) (k : Kernel) (console : Console) (i j status : ℕ) (p : Pcb)
    (terminal : ℤ)
    → i ≢ j
    → (k.table j).pid ≡ pos j
    → IsTerminal (k.table j).terminal
    → Resumed pd k i j status (
        leave fs pd counter
          (record k { table = free_pcb (update k.table i p) i; console = console })
          terminal
          status
          (found j))
unfolding leave Resumed
leave-Resumed fs pd counter k console i j status p terminal ne pid tj =
    let woken = record k { table = after_halt k.table i p j; console = console } in
    let own = after_halt-parent k.table i j p ne in
    let (k', s) =
      set_context_some pd woken j j (ap (λ q. q.pid) own ∙ pid)
        (subst IsTerminal (sym (ap (λ q. q.terminal) own)) tj) in
    let (table, pages, esp0) = set_context_kept pd woken k' j s in
    bind_holds (Resumed pd k i j status) (set_context pd woken j) _ k' s (
      k',
      refl,
      record {
        freed = ap (λ f. (f i).pid) table ∙ after_halt-child k.table i j p ne;
        parent = ap (λ f. f j) table ∙ own;
        others = λ l ni nj. ap (λ f. f l) table ∙ after_halt-others k.table i j l p ni nj;
        pages = pages;
        esp0 = esp0 ∙ ap (λ q. kernel_base_esp pd q.pid) own;
      },
    )

halt_impl-Resumed :
    (fs : Image) (pd counter : ℕ) (k : Kernel) (i j status : ℕ)
    → i ≢ j
    → j < max_processes
    → (k.table i).parent_pid ≡ pos j
    → (k.table j).pid ≡ pos j
    → IsTerminal (k.table i).terminal
    → IsTerminal (k.table j).terminal
    → Resumed pd k i j status (halt_impl fs pd counter k i status)
unfolding halt_impl
halt_impl-Resumed fs pd counter k i j status ne hj parent pid ti tj =
    let child = k.table i in
    let known : get_pcb_by_pid k.table child.parent_pid ≡ some (found j) =
      known_parent k.table child.parent_pid j parent hj pid in
    let (console, c) = clear_input_some k.console child.terminal ti in
    bind_holds (Resumed pd k i j status) (get_pcb_by_pid k.table child.parent_pid) _ (found j) known
      (bind_holds (Resumed pd k i j status) (terminal_clear_input k.console child.terminal) _
        console c
        (leave-Resumed fs pd counter k console i j status
          (record child { files = close_from child.files 2 (max_files - 2) }) child.terminal ne pid
          tj))

-- What an execution and the halt of its child leave together, where k is the state before both: the
-- entry of the child is free, and the parent runs with the rest of its entry as it was.
pub record Returned (pd : ℕ) (k k' : Kernel) (curr i : ℕ) : Type 0 where
  pub was_free : is_valid (k.table i) ≡ false
  pub freed : (k'.table i).pid ≡ minus_one
  pub parent : k'.table curr ≡ (let p = k.table curr in record p { status = process_run })
  pub others : (l : ℕ) → l ≢ i → l ≢ curr → k'.table l ≡ k.table l
  pub pages : (l : ℕ) → l ≢ i → k'.pages l ≡ k.pages l
  pub esp0 : k'.esp0 ≡ kernel_base_esp pd (pos curr)

abbrev woken : Pcb → Pcb
woken p = record p { status = process_run }

-- The entries of the child and of the parent while the child runs.
child_entry :
    (k made k' : Kernel) (curr i : ℕ)
    → k'.table ≡ with_status (with_status made.table curr process_sleep) i process_run
    → curr ≢ i
    → k'.table i ≡ (let p = made.table i in record p { status = process_run })
child_entry k made k' curr i e ne = ap (λ f. f i) e ∙ ground (arith, ne)

parent_entry :
    (k made k' : Kernel) (curr i : ℕ)
    → k'.table ≡ with_status (with_status made.table curr process_sleep) i process_run
    → curr ≢ i
    → k'.table curr ≡ (let p = made.table curr in record p { status = process_sleep })
parent_entry k made k' curr i e ne = ap (λ f. f curr) e ∙ ground (arith, ne)

other_entry :
    (k made k' : Kernel) (curr i l : ℕ)
    → k'.table ≡ with_status (with_status made.table curr process_sleep) i process_run
    → l ≢ curr
    → l ≢ i
    → k'.table l ≡ made.table l
other_entry k made k' curr i l e nc ni = ap (λ f. f l) e ∙ ground (arith, nc, ni)

-- When a valid process of a terminal has executed a program, the halt of the child succeeds and
-- resumes that process with the status as the result; the process runs again, the entry of the
-- child is free again, and every other entry of the table and the memory of every other process is
-- as it was before the execution.
pub execute_impl-halt_impl :
    (fs : Image) (pd counter later : ℕ) (k k' : Kernel) (m : Mem) (command curr i status : ℕ)
    (terminal : ℤ)
    → curr < max_processes
    → (k.table curr).pid ≡ pos curr
    → IsTerminal (k.table curr).terminal
    → execute_impl fs pd counter k m command (some curr) terminal ≡ some (running i k')
    → (k2 : Kernel) × (halt_impl fs pd later k' i status ≡ some (resumed curr status k2))
      × Returned pd k k2 curr i
unfolding Resumed
execute_impl-halt_impl fs pd counter later k k' m command curr i status terminal h pid t e =
    let valid : is_valid (k.table curr) ≡ true = ap is_nonneg pid in
    let x = execute_impl-Executing fs pd counter k k' m command curr i terminal valid e in
    let c = x.child in
    let ne : curr ≢ i =
      λ at. ground (arith, sym valid ∙ ap (λ l. is_valid (k.table l)) at ∙ c.free) in
    let own = child_entry k x.made k' curr i x.table ne in
    let up = parent_entry k x.made k' curr i x.table ne in
    let before : x.made.table curr ≡ k.table curr = c.others curr ne in
    let (k2, ok, b) =
      halt_impl-Resumed fs pd later k' i curr status (λ s. ne (sym s)) h
        (ap (λ q. q.parent_pid) own ∙ c.parent_pid ∙ pid)
        (ap (λ q. q.pid) up ∙ ap (λ q. q.pid) before ∙ pid)
        (subst IsTerminal (sym (ap (λ q. q.terminal) own ∙ c.terminal)) t)
        (subst IsTerminal (sym (ap (λ q. q.terminal) up ∙ ap (λ q. q.terminal) before)) t) in
    (
      k2,
      ok,
      record {
        was_free = c.free;
        freed = b.freed;
        parent = b.parent ∙ ap woken up ∙ ap woken before;
        others = λ l ni nc.
            b.others l ni nc ∙ other_entry k x.made k' curr i l x.table nc ni ∙ c.others l ni;
        pages = λ l ni. ap (λ f. f l) b.pages ∙ ap (λ f. f l) x.pages ∙ c.pages l ni;
        esp0 = b.esp0 ∙ ap (kernel_base_esp pd) (ap (λ q. q.pid) up ∙ ap (λ q. q.pid) before ∙ pid);
      },
    )
