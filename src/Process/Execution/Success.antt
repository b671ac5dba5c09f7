-- ===== src/Process/Execution/Success.antt =====
-- When process_execute_impl of student-distrib/process.c succeeds, and what the child starts with.
use loli_os.Prelude.{
  ℕ, ◌≤◌, ◌<◌, ◌≡◌, refl, sym, ap, subst, ◌∙◌, ◌≢◌, true, false, Option, none, some, List, arith,
  ◌==◌, if◌then◌else◌, ℤ, pos,
}
use loli_os.Memory.Bytes.{Mem}
use loli_os.Memory.Words.{word_of}
use loli_os.FileSystem.{Image}
use loli_os.FileSystem.Spec.{contents}
use loli_os.Terminal.Console.{terminal_clear_input}
use loli_os.Process.{Pcb, process_run, process_sleep, is_valid, update, max_processes, new_pcb}
use loli_os.Process.Table.{Allocated, no_room, new_pcb-Allocated}
use loli_os.Process.Command.{parse_cmd, program}
use loli_os.Process.Loader.{load_exe}
use loli_os.Process.Loader.Loaded.{Loadable, Loaded, with_program, load_exe-Loaded}
use loli_os.Process.Context.{Kernel, map_process, run}
use loli_os.Process.Execution.{
  init_pcb, place_program, Created, created, create_at, create_new, create_for, create_child,
  run_created, running, execute_impl,
}
use loli_os.Process.Execution.Creation.{
  bind_holds, NewEntry, new_entry, with_status, run_kept, create_child-Child,
}
use loli_os.Process.Execution.Halting.{
  IsTerminal, Succeeds, clear_input_some, map_process_some, set_context_some,
}

run_some :
    (pd : ℕ) (k : Kernel) (i pid : ℕ)
    → (k.table i).pid ≡ pos pid
    → IsTerminal (k.table i).terminal
    → Succeeds (run pd k i)
unfolding run
run_some pd k i pid e t =
    let (console, c) = clear_input_some k.console (k.table i).terminal t in
    let started = record k { table = with_status k.table i process_run; console = console } in
    let own : started.table i ≡ (let p = k.table i in record p { status = process_run }) =
      ground arith in
    bind_holds Succeeds (terminal_clear_input k.console (k.table i).terminal) _ console c (
      set_context_some pd started i pid (ap (λ q. q.pid) own ∙ e)
        (subst IsTerminal (sym (ap (λ q. q.terminal) own)) t))

-- What the child i has in memory, and where it starts.
record Program (fs : Image) (inode : ℕ) (old : Mem) (k : Kernel) (i : ℕ) : Type 0 where
  page : (p : ℕ) → k.pages i p ≡ with_program fs (fs.inode inode) old p
  entry : (k.table i).entry_point ≡ word_of (contents fs (fs.inode inode) 24 4)

CreatedProgram : Image → ℕ → Mem → ℕ → Option Created → Type 0
CreatedProgram fs inode old i o = (k : Kernel) × (o ≡ some (created i k)) × Program fs inode old k i

place_program-Program :
    (fs : Image) (inode : ℕ) (old : Mem) (k : Kernel) (table : ℕ → Pcb) (i : ℕ) (p : Pcb)
    (loaded : Option (Mem × ℕ))
    → Loaded fs inode old loaded
    → CreatedProgram fs inode old i (place_program k table i p loaded)
unfolding place_program CreatedProgram
place_program-Program fs inode old k table i p loaded (l, ok, page) =
    let entry = word_of (contents fs (fs.inode inode) 24 4) in
    subst (λ r. CreatedProgram fs inode old i (place_program k table i p r)) (sym ok)
      (
        record k {
          table = update table i (record p { entry_point = entry });
          pages = λ j. if i == j then l else k.pages j;
        },
        refl,
        record { page = λ q. ground (arith, page q); entry = ground arith },
      )

create_at-Program :
    (fs : Image) (counter : ℕ) (k : Kernel) (curr inode i : ℕ) (terminal : ℤ) (args : List ℕ)
    (table : ℕ → Pcb)
    → NewEntry k.table table i
    → Loaded fs inode (k.pages i) (load_exe fs inode (k.pages i))
    → CreatedProgram fs inode
        (k.pages i)
        i
        (create_at fs counter k (some curr) terminal inode args i table)
unfolding create_at init_pcb
create_at-Program fs counter k curr inode i terminal args table entry loaded =
    let p = init_pcb table (table i) (some curr) terminal counter args in
    let (mapped, m) = map_process_some k p.pid i entry.pid in
    bind_holds (CreatedProgram fs inode (k.pages i) i) (map_process k p.pid) _ mapped m (
      place_program-Program fs inode (k.pages i) mapped table i p (load_exe fs inode (k.pages i))
        loaded)

-- All the entries of the table are in use, where there is none for a new process.
all_used :
    (table : ℕ → Pcb)
    → Allocated table none
    → (j : ℕ) → j < max_processes
    → is_valid (table j) ≡ true
all_used table (no_room used) j h = used j h

SomeProgram : Image → ℕ → Kernel → Option Created → Type 0
SomeProgram fs inode k o = (i : ℕ) × CreatedProgram fs inode (k.pages i) i o

create_new-Program :
    (fs : Image) (counter : ℕ) (k : Kernel) (curr inode j : ℕ) (terminal : ℤ) (args : List ℕ)
    (result : Option (ℕ × (ℕ → Pcb)))
    → Allocated k.table result
    → j < max_processes
    → is_valid (k.table j) ≡ false
    → ((i : ℕ) → Loaded fs inode (k.pages i) (load_exe fs inode (k.pages i)))
    → SomeProgram fs inode k (create_new fs counter k (some curr) terminal inode args result)
unfolding create_new SomeProgram
create_new-Program fs counter k curr inode j terminal args none a h free loaded =
    absurd (ground (arith, sym (all_used k.table a j h) ∙ free))
create_new-Program fs counter k curr inode j terminal args (some (i, table)) a h free loaded = (
  i,
  create_at-Program fs counter k curr inode i terminal args table (new_entry k.table a) (loaded i),
)

create_child-Program :
    (fs : Image) (counter : ℕ) (k : Kernel) (m : Mem) (command curr inode j : ℕ) (terminal : ℤ)
    (args : List ℕ)
    → parse_cmd fs m command ≡ some (program inode args)
    → Loadable fs inode
    → 28 ≤ (fs.inode inode).size
    → j < max_processes
    → is_valid (k.table j) ≡ false
    → SomeProgram fs inode k (create_child fs counter k m command (some curr) terminal)
unfolding create_child create_for
create_child-Program fs counter k m command curr inode j terminal args parsed f size h free =
    subst (λ c. SomeProgram fs inode k (create_for fs counter k (some curr) terminal c))
      (sym parsed)
      (create_new-Program fs counter k curr inode j terminal args (new_pcb k.table)
        (new_pcb-Allocated k.table) h free (λ i. load_exe-Loaded fs inode (k.pages i) f size))

asleep_other :
    (table : ℕ → Pcb) (curr i : ℕ) → i ≢ curr → with_status table curr process_sleep i ≡ table i
asleep_other table curr i ne = ground (arith, ne)

running_entry :
    (table : ℕ → Pcb) (i : ℕ)
    → with_status table i process_run i ≡ (let p = table i in record p { status = process_run })
running_entry table i = ground arith

parent_asleep :
    (table : ℕ → Pcb) (curr i : ℕ)
    → i ≢ curr
    → with_status (with_status table curr process_sleep) i process_run curr
      ≡ (let p = table curr in record p { status = process_sleep })
parent_asleep table curr i ne = ground (arith, ne)

-- The state in which a child starts.
pub record Started (fs : Image) (inode : ℕ) (k k' : Kernel) (curr i : ℕ) : Type 0 where
  pub page : (p : ℕ) → k'.pages i p ≡ with_program fs (fs.inode inode) (k.pages i) p
  pub entry : (k'.table i).entry_point ≡ word_of (contents fs (fs.inode inode) 24 4)
  pub parent_pid : (k'.table i).parent_pid ≡ (k.table curr).pid
  pub child : (k'.table i).status ≡ process_run
  pub parent : (k'.table curr).status ≡ process_sleep

-- A process of a terminal can execute a command that names a program of the image, of at least 28
-- bytes and no larger than the user page, while an entry of the table is free: the child then
-- runs, its user page holds the program and zeros around it, it starts at the word at offset 24 of
-- the file, and the parent sleeps.
pub execute_impl-Started :
    (fs : Image) (pd counter : ℕ) (k : Kernel) (m : Mem) (command curr inode j : ℕ) (terminal : ℤ)
    (args : List ℕ)
    → parse_cmd fs m command ≡ some (program inode args)
    → Loadable fs inode
    → 28 ≤ (fs.inode inode).size
    → j < max_processes
    → is_valid (k.table j) ≡ false
    → is_valid (k.table curr) ≡ true
    → IsTerminal (k.table curr).terminal
    → (i : ℕ) × (k' : Kernel) × (execute_impl fs pd counter k m command (some curr) terminal
        ≡ some (running i k'))
      × Started fs inode k k' curr i
unfolding execute_impl SomeProgram CreatedProgram run_created
execute_impl-Started fs pd counter k m command curr inode j terminal args parsed f size h free valid
      t =
    let (i, (made, ok, prog)) =
      create_child-Program fs counter k m command curr inode j terminal args parsed f size h free in
    let c = create_child-Child fs counter k made m command curr i terminal valid ok in
    let asleep = record made { table = with_status made.table curr process_sleep } in
    let ne : i ≢ curr =
      λ at. ground (arith, sym valid ∙ ap (λ l. is_valid (k.table l)) (sym at) ∙ c.free) in
    let own : asleep.table i ≡ made.table i = asleep_other made.table curr i ne in
    let (k', r) =
      run_some pd asleep i i (ap (λ q. q.pid) own ∙ c.pid)
        (subst IsTerminal (sym (ap (λ q. q.terminal) own ∙ c.terminal)) t) in
    let (table, pages) = run_kept pd asleep k' i r in
    let mine = ap (λ g. g i) table ∙ running_entry asleep.table i in
    let up = ap (λ g. g curr) table ∙ parent_asleep made.table curr i ne in
    (
      i,
      k',
      ap (run_created pd (some curr)) ok
          ∙ bind_holds (λ o. o ≡ some (running i k')) (run pd asleep i) _ k' r refl,
      record {
        page = λ p. ap (λ g. g i p) pages ∙ prog.page p;
        entry = ap (λ q. q.entry_point) mine ∙ ap (λ q. q.entry_point) own ∙ prog.entry;
        parent_pid = ap (λ q. q.parent_pid) mine ∙ ap (λ q. q.parent_pid) own ∙ c.parent_pid;
        child = ap (λ q. q.status) mine;
        parent = ap (λ q. q.status) up;
      },
    )
