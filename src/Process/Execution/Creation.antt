-- ===== src/Process/Execution/Creation.antt =====
-- What a successful process_execute_impl of student-distrib/process.c has done.
use loli_os.Prelude.{
  ℕ, ◌<◌, ◌≡◌, refl, sym, ap, subst, ◌∙◌, ◌≢◌, true, false, Option, none, some, List, arith, ℤ, pos,
  negsuc,
}
use loli_os.Memory.Bytes.{Mem}
use loli_os.FileSystem.{Image}
use loli_os.Terminal.Console.{terminal_clear_input, terminal_update_vidmap, ◌>>=◌}
use loli_os.Process.{
  Pcb, Status, process_sleep, process_run, is_valid, update, max_processes, new_pcb,
}
use loli_os.Process.Table.{Allocated, filled, new_pcb-Allocated}
use loli_os.Process.Command.{Command, parse_cmd, invalid, program}
use loli_os.Process.Loader.{load_exe}
use loli_os.Process.Context.{Kernel, kernel_base_esp, map_process, set_context, run}
use loli_os.Process.Execution.{
  init_pcb, place_program, Created, not_created, created, create_at, create_new, create_for,
  create_child, run_created, refused, running, execute_impl,
}

pub some_inj {ℓ} : {A : Type ℓ} {a b : A} → some a ≡ some b → a ≡ b
some_inj e = cc

-- Inversion of a step that succeeds.
pub bind_some {ℓ κ} :
    {A : Type ℓ} {B : Type κ} (a : Option A) (f : A → Option B) {b : B}
    → (a >>= f) ≡ some b
    → (x : A) × (a ≡ some x) × (f x ≡ some b)
bind_some none f e = ground (arith, e)
bind_some (some x) f e = (x, refl, e)

-- What holds after a step that succeeds holds of the chain.
pub bind_holds {ℓ κ ν} :
    {A : Type ℓ} {B : Type κ} (P : Option B → Type ν) (a : Option A) (f : A → Option B) (x : A)
    → a ≡ some x
    → P (f x)
    → P (a >>= f)
bind_holds P a f x e p = subst (λ o. P (o >>= f)) (sym e) p

pub map_process_kept :
    (k k' : Kernel) (pid : ℤ)
    → map_process k pid ≡ some k'
    → (k'.table ≡ k.table) × (k'.pages ≡ k.pages)
unfolding map_process
map_process_kept k k' (pos n) e =
    let same = some_inj e in (sym (ap (λ q. q.table) same), sym (ap (λ q. q.pages) same))
map_process_kept k k' (negsuc n) e = ground (arith, e)

pub set_context_kept :
    (pd : ℕ) (k k' : Kernel) (to : ℕ)
    → set_context pd k to ≡ some k'
    → (k'.table ≡ k.table) × (k'.pages ≡ k.pages) × (k'.esp0 ≡ kernel_base_esp pd (k.table to).pid)
unfolding set_context
set_context_kept pd k k' to e =
    let (mapped, m, e1) = bind_some (map_process k (k.table to).pid) _ e in
    let (table, pages) = map_process_kept k mapped (k.table to).pid m in
    let (console, c, e2) =
      bind_some (terminal_update_vidmap mapped.console (k.table to).terminal (k.table to).vidmap) _
        e1 in
    let same = some_inj e2 in
    (
      sym (ap (λ q. q.table) same) ∙ table,
      sym (ap (λ q. q.pages) same) ∙ pages,
      sym (ap (λ q. q.esp0) same),
    )

-- A table in which one process has another status.
abbrev pub with_status : (ℕ → Pcb) → ℕ → Status → ℕ → Pcb
with_status table i status = let p = table i in update table i (record p { status = status })

pub run_kept :
    (pd : ℕ) (k k' : Kernel) (i : ℕ)
    → run pd k i ≡ some k'
    → (k'.table ≡ with_status k.table i process_run) × (k'.pages ≡ k.pages)
unfolding run
run_kept pd k k' i e =
    let (console, c, e1) = bind_some (terminal_clear_input k.console (k.table i).terminal) _ e in
    let started = record k { table = with_status k.table i process_run; console = console } in
    let (table, pages, esp0) = set_context_kept pd started k' i e1 in (table, pages)

-- What the creation of a child of the process `curr` has done.
pub record Child (k k' : Kernel) (curr i : ℕ) : Type 0 where
  pub free : is_valid (k.table i) ≡ false
  pub in_table : i < max_processes
  pub pid : (k'.table i).pid ≡ pos i
  pub parent_pid : (k'.table i).parent_pid ≡ (k.table curr).pid
  pub terminal : (k'.table i).terminal ≡ (k.table curr).terminal
  pub others : (j : ℕ) → j ≢ i → k'.table j ≡ k.table j
  pub pages : (j : ℕ) → j ≢ i → k'.pages j ≡ k.pages j

pub created_inj : {i j : ℕ} {k l : Kernel} → created i k ≡ created j l → (i ≡ j) × (k ≡ l)
created_inj e = (cc, cc)

-- The entry that a new PCB has been given.
pub record NewEntry (table table' : ℕ → Pcb) (i : ℕ) : Type 0 where
  pub free : is_valid (table i) ≡ false
  pub in_table : i < max_processes
  pub pid : (table' i).pid ≡ pos i
  pub others : (j : ℕ) → j ≢ i → table' j ≡ table j

pub new_entry :
    (table : ℕ → Pcb) {i : ℕ} {table' : ℕ → Pcb}
    → Allocated table (some (i, table'))
    → NewEntry table table' i
new_entry table (filled h free before pid others) = record {
  free = free;
  in_table = h;
  pid = pid;
  others = others;
}

place_program-Child :
    (k mapped k' : Kernel) (curr i j : ℕ) (p : Pcb) (table : ℕ → Pcb) (loaded : Option (Mem × ℕ))
    → NewEntry k.table table i
    → mapped.pages ≡ k.pages
    → p.pid ≡ pos i
    → p.parent_pid ≡ (k.table curr).pid
    → p.terminal ≡ (k.table curr).terminal
    → place_program mapped table i p loaded ≡ some (created j k')
    → (i ≡ j) × Child k k' curr i
unfolding place_program
place_program-Child k mapped k' curr i j p table none entry same_pages pid parent terminal e =
    ground (arith, e)
place_program-Child k mapped k' curr i j p table (some (page, start)) entry same_pages pid parent
      terminal e =
    let (at, same) = created_inj (some_inj e) in
    let t : k'.table ≡ update table i (record p { entry_point = start }) =
      sym (ap (λ q. q.table) same) in
    let own : k'.table i ≡ record p { entry_point = start } = ap (λ f. f i) t ∙ ground arith in
    (
      at,
      record {
        free = entry.free;
        in_table = entry.in_table;
        pid = ap (λ q. q.pid) own ∙ pid;
        parent_pid = ap (λ q. q.parent_pid) own ∙ parent;
        terminal = ap (λ q. q.terminal) own ∙ terminal;
        others = λ l ne. ap (λ f. f l) t ∙ ground (arith, ne, entry.others l ne);
        pages =
            λ l ne. sym (ap (λ q. q.pages l) same) ∙ ground (arith, ne, ap (λ f. f l) same_pages);
      },
    )

create_at-Child :
    (fs : Image) (counter : ℕ) (k k' : Kernel) (curr inode i j : ℕ) (terminal : ℤ) (args : List ℕ)
    (table : ℕ → Pcb)
    → curr ≢ i
    → NewEntry k.table table i
    → create_at fs counter k (some curr) terminal inode args i table ≡ some (created j k')
    → (i ≡ j) × Child k k' curr i
unfolding create_at init_pcb
create_at-Child fs counter k k' curr inode i j terminal args table ne entry e =
    let p = init_pcb table (table i) (some curr) terminal counter args in
    let (mapped, m, e1) = bind_some (map_process k p.pid) _ e in
    let (table_kept, pages_kept) = map_process_kept k mapped p.pid m in
    place_program-Child k mapped k' curr i j p table (load_exe fs inode (k.pages i)) entry
      pages_kept entry.pid (ap (λ q. q.pid) (entry.others curr ne))
      (ap (λ q. q.terminal) (entry.others curr ne)) e1

pub not_created_ne : {i : ℕ} {k : Kernel} → not_created ≢ created i k
not_created_ne e = ground (arith, e)

create_new-Child :
    (fs : Image) (counter : ℕ) (k k' : Kernel) (curr inode j : ℕ) (terminal : ℤ) (args : List ℕ)
    (result : Option (ℕ × (ℕ → Pcb)))
    → is_valid (k.table curr) ≡ true
    → Allocated k.table result
    → create_new fs counter k (some curr) terminal inode args result ≡ some (created j k')
    → Child k k' curr j
unfolding create_new
create_new-Child fs counter k k' curr inode j terminal args none valid a e =
    absurd (not_created_ne (some_inj e))
create_new-Child fs counter k k' curr inode j terminal args (some (i, table)) valid a e =
    let entry = new_entry k.table a in
    let ne : curr ≢ i =
      λ at. ground (arith, sym valid ∙ ap (λ l. is_valid (k.table l)) at ∙ entry.free) in
    let (at, child) =
      create_at-Child fs counter k k' curr inode i j terminal args table ne entry e in
    subst (Child k k' curr) at child

create_for-Child :
    (fs : Image) (counter : ℕ) (k k' : Kernel) (curr j : ℕ) (terminal : ℤ)
    (command : Option Command)
    → is_valid (k.table curr) ≡ true
    → create_for fs counter k (some curr) terminal command ≡ some (created j k')
    → Child k k' curr j
unfolding create_for
create_for-Child fs counter k k' curr j terminal none valid e = ground (arith, e)
create_for-Child fs counter k k' curr j terminal (some invalid) valid e =
    absurd (not_created_ne (some_inj e))
create_for-Child fs counter k k' curr j terminal (some (program inode args)) valid e =
    create_new-Child fs counter k k' curr inode j terminal args (new_pcb k.table) valid
      (new_pcb-Allocated k.table) e

-- What a process_create_child for the process `curr` that succeeds has done.
pub create_child-Child :
    (fs : Image) (counter : ℕ) (k k' : Kernel) (m : Mem) (command curr j : ℕ) (terminal : ℤ)
    → is_valid (k.table curr) ≡ true
    → create_child fs counter k m command (some curr) terminal ≡ some (created j k')
    → Child k k' curr j
unfolding create_child
create_child-Child fs counter k k' m command curr j terminal valid e =
    create_for-Child fs counter k k' curr j terminal (parse_cmd fs m command) valid e

pub running_inj : {i j : ℕ} {k l : Kernel} → running i k ≡ running j l → (i ≡ j) × (k ≡ l)
running_inj e = (cc, cc)

pub refused_ne : {i : ℕ} {k : Kernel} → refused ≢ running i k
refused_ne e = ground (arith, e)

-- What an execution by the process `curr` has done, before the child runs.
pub record Executing (k k' : Kernel) (curr i : ℕ) : Type 0 where
  pub made : Kernel
  pub child : Child k made curr i
  pub table : k'.table ≡ with_status (with_status made.table curr process_sleep) i process_run
  pub pages : k'.pages ≡ made.pages

run_created-Executing :
    (pd : ℕ) (k k' : Kernel) (curr i : ℕ) (result : Option Created)
    → ((j : ℕ) (l : Kernel) → result ≡ some (created j l) → Child k l curr j)
    → run_created pd (some curr) result ≡ some (running i k')
    → Executing k k' curr i
unfolding run_created
run_created-Executing pd k k' curr i none child e = ground (arith, e)
run_created-Executing pd k k' curr i (some not_created) child e = absurd (refused_ne (some_inj e))
run_created-Executing pd k k' curr i (some (created j l)) child e =
    let asleep = record l { table = with_status l.table curr process_sleep } in
    let (ran, r, e1) = bind_some (run pd asleep j) _ e in
    let (at, same) = running_inj (some_inj e1) in
    let (table, pages) = run_kept pd asleep ran j r in
    let here : Executing k ran curr j = record {
      made = l;
      child = child j l refl;
      table = table;
      pages = pages;
    } in
    subst (λ q. Executing k q curr i) same (subst (λ q. Executing k ran curr q) at here)

pub execute_impl-Executing :
    (fs : Image) (pd counter : ℕ) (k k' : Kernel) (m : Mem) (command curr i : ℕ) (terminal : ℤ)
    → is_valid (k.table curr) ≡ true
    → execute_impl fs pd counter k m command (some curr) terminal ≡ some (running i k')
    → Executing k k' curr i
unfolding execute_impl
execute_impl-Executing fs pd counter k k' m command curr i terminal valid e =
    run_created-Executing pd k k' curr i (create_child fs counter k m command (some curr) terminal)
      (λ j l c. create_child-Child fs counter k l m command curr j terminal valid c) e
