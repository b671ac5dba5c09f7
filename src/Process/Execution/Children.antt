-- ===== src/Process/Execution/Children.antt =====
-- The processes that student-distrib/process.c creates, for a parent or for a terminal, and the
-- entries of the process table.
use loli_os.Prelude.{
  ℕ, ◌≡◌, refl, sym, ap, subst, ◌∙◌, Option, none, some, List, arith, if◌then◌else◌, ℤ, pos,
  minus_one,
}
use loli_os.Memory.Bytes.{Mem}
use loli_os.FileSystem.{Image}
use loli_os.Process.{Pcb, process_sleep, process_run, is_valid, is_nonneg, update, new_pcb}
use loli_os.Process.Table.{Allocated, new_pcb-Allocated}
use loli_os.Process.Command.{Command, parse_cmd, invalid, program}
use loli_os.Process.Loader.{load_exe}
use loli_os.Process.Context.{Kernel, map_process, run}
use loli_os.Process.Execution.{
  init_pcb, terminal_given, sleep_parent, place_program, Created, not_created, created, create_at,
  create_new, create_for, create_child, run_created, running, execute_impl,
}
use loli_os.Process.Execution.Creation.{
  some_inj, bind_some, run_kept, Child, NewEntry, new_entry, create_child-Child, created_inj,
  not_created_ne, running_inj, refused_ne,
}
use loli_os.Process.Ids.{SameTable, Entered, SameTable-update, Entered-SameTable}

Child-Entered :
    (k k' : Kernel) (curr i : ℕ)
    → (k.table curr).pid ≡ pos curr
    → Child k k' curr i
    → Entered k.table k'.table i
Child-Entered k k' curr i pid c = record {
  in_table = c.in_table;
  pid = c.pid;
  parent = λ e.
      let at : curr ≡ i = cc (sym pid ∙ sym c.parent_pid ∙ e) in
      ground (arith, ap (λ l. is_valid (k.table l)) at, c.free, pid);
  others = λ j ne. (ap (λ p. p.pid) (c.others j ne), ap (λ p. p.parent_pid) (c.others j ne));
}

place_program-Entered :
    (k mapped k' : Kernel) (i j : ℕ) (p : Pcb) (table : ℕ → Pcb) (loaded : Option (Mem × ℕ))
    → NewEntry k.table table i
    → p.pid ≡ pos i
    → p.parent_pid ≡ minus_one
    → place_program mapped table i p loaded ≡ some (created j k')
    → (i ≡ j) × Entered k.table k'.table i
unfolding place_program
place_program-Entered k mapped k' i j p table none entry pid parent e = ground (arith, e)
place_program-Entered k mapped k' i j p table (some (page, start)) entry pid parent e =
    let (at, same) = created_inj (some_inj e) in
    let t : k'.table ≡ update table i (record p { entry_point = start }) =
      sym (ap (λ q. q.table) same) in
    let own : k'.table i ≡ record p { entry_point = start } = ap (λ f. f i) t ∙ ground arith in
    (
      at,
      record {
        in_table = entry.in_table;
        pid = ap (λ q. q.pid) own ∙ pid;
        parent = λ x. ground (arith, sym (ap (λ q. q.parent_pid) own ∙ parent) ∙ x);
        others = λ l ne.
            let kept : k'.table l ≡ k.table l =
              ap (λ f. f l) t ∙ ground (arith, ne, entry.others l ne) in
            (ap (λ q. q.pid) kept, ap (λ q. q.parent_pid) kept);
      },
    )

create_new-Entered :
    (fs : Image) (counter : ℕ) (k k' : Kernel) (inode j : ℕ) (terminal : ℤ) (args : List ℕ)
    (result : Option (ℕ × (ℕ → Pcb)))
    → Allocated k.table result
    → create_new fs counter k none terminal inode args result ≡ some (created j k')
    → Entered k.table k'.table j
unfolding create_new create_at init_pcb
create_new-Entered fs counter k k' inode j terminal args none a e =
    absurd (not_created_ne (some_inj e))
create_new-Entered fs counter k k' inode j terminal args (some (i, table)) a e =
    let entry = new_entry k.table a in
    let p = init_pcb table (table i) none terminal counter args in
    let (mapped, m, e1) =
      bind_some (if terminal_given none terminal then map_process k p.pid else none) _ e in
    let (at, entered) =
      place_program-Entered k mapped k' i j p table (load_exe fs inode (k.pages i)) entry entry.pid
        refl e1 in
    subst (Entered k.table k'.table) at entered

create_for-Entered :
    (fs : Image) (counter : ℕ) (k k' : Kernel) (j : ℕ) (terminal : ℤ) (command : Option Command)
    → create_for fs counter k none terminal command ≡ some (created j k')
    → Entered k.table k'.table j
unfolding create_for
create_for-Entered fs counter k k' j terminal none e = ground (arith, e)
create_for-Entered fs counter k k' j terminal (some invalid) e =
    absurd (not_created_ne (some_inj e))
create_for-Entered fs counter k k' j terminal (some (program inode args)) e =
    create_new-Entered fs counter k k' inode j terminal args (new_pcb k.table)
      (new_pcb-Allocated k.table) e

-- The parent, where there is one, is in the table.
abbrev pub InTable : (ℕ → Pcb) → Option ℕ → Type 0
InTable table none = Unit {0}
InTable table (some i) = (table i).pid ≡ pos i

pub create_child-Entered :
    (fs : Image) (counter : ℕ) (k k' : Kernel) (m : Mem) (command j : ℕ) (parent : Option ℕ)
    (terminal : ℤ)
    → InTable k.table parent
    → create_child fs counter k m command parent terminal ≡ some (created j k')
    → Entered k.table k'.table j
unfolding create_child
create_child-Entered fs counter k k' m command j none terminal h e =
    create_for-Entered fs counter k k' j terminal (parse_cmd fs m command) e
create_child-Entered fs counter k k' m command j (some curr) terminal h e =
    Child-Entered k k' curr j h
      (create_child-Child fs counter k k' m command curr j terminal (ap is_nonneg h) e)

SameTable-sleep_parent :
    (parent : Option ℕ) (table : ℕ → Pcb) → SameTable table (sleep_parent parent table)
SameTable-sleep_parent none table = λ i. (refl, refl)
SameTable-sleep_parent (some c) table =
    SameTable-update table c (record (table c) { status = process_sleep }) (refl, refl)

run_created-Entered :
    (pd : ℕ) (k k' : Kernel) (i : ℕ) (parent : Option ℕ) (result : Option Created)
    → ((j : ℕ) (l : Kernel) → result ≡ some (created j l) → Entered k.table l.table j)
    → run_created pd parent result ≡ some (running i k')
    → Entered k.table k'.table i
unfolding run_created
run_created-Entered pd k k' i parent none child e = ground (arith, e)
run_created-Entered pd k k' i parent (some not_created) child e = absurd (refused_ne (some_inj e))
run_created-Entered pd k k' i parent (some (created j l)) child e =
    let asleep = record l { table = sleep_parent parent l.table } in
    let (ran, r, e1) = bind_some (run pd asleep j) _ e in
    let (at, same) = running_inj (some_inj e1) in
    let running_now : SameTable asleep.table ran.table =
      subst (SameTable asleep.table) (sym ((run_kept pd asleep ran j r).0)) (
        SameTable-update asleep.table j (record (asleep.table j) { status = process_run })
          (refl, refl)) in
    let here : Entered k.table ran.table j =
      Entered-SameTable k.table asleep.table ran.table j
        (Entered-SameTable k.table l.table asleep.table j (child j l refl)
          (SameTable-sleep_parent parent l.table))
        running_now in
    subst (λ q. Entered k.table q.table i) same (subst (λ q. Entered k.table ran.table q) at here)

-- A process_execute_impl that runs a child has entered it in the table.
pub execute_impl-Entered :
    (fs : Image) (pd counter : ℕ) (k k' : Kernel) (m : Mem) (command i : ℕ) (parent : Option ℕ)
    (terminal : ℤ)
    → InTable k.table parent
    → execute_impl fs pd counter k m command parent terminal ≡ some (running i k')
    → Entered k.table k'.table i
unfolding execute_impl
execute_impl-Entered fs pd counter k k' m command i parent terminal h e =
    run_created-Entered pd k k' i parent (create_child fs counter k m command parent terminal)
      (λ j l c. create_child-Entered fs counter k l m command j parent terminal h c) e
