-- ===== src/Process/Execution.antt =====
-- Creating, running and halting processes, of student-distrib/process.c. `none` is a failed assertion,
-- or a command line or a program that does not end.
pub mod Children
pub mod Survivors
pub mod Creation
pub mod Starting
pub mod Switching
pub mod Halting
pub mod Success
use loli_os.Prelude.{
  ℕ, zero, suc, ◌+◌, ◌-◌, ◌%◌, Bool, true, false, not, Option, none, some, List, [], ◌∷◌, ◌==◌,
  if◌then◌else◌, ℤ, pos, ltb_ℤ, minus_one,
}
use loli_os.Memory.{is_user_readable_string}
use loli_os.Memory.Bytes.{Mem, bytes}
use loli_os.Memory.Words.{of_list}
use loli_os.Strings.{strncpy}
use loli_os.FileSystem.{Image}
use loli_os.FileObj.{FileObj}
use loli_os.File.{file_init, file_close, max_files}
use loli_os.Signals.{init}
use loli_os.Terminal.Console.{terminal_clear_input, ◌>>=◌}
use loli_os.Process.{
  Pcb, process_sleep, process_sched, Lookup, null, found, get_pcb_by_pid, update, new_pcb, free_pcb,
  wake_parent,
}
use loli_os.Process.Command.{Command, max_args_len, parse_cmd, invalid, program}
use loli_os.Process.Context.{Kernel, map_process, set_context, run}
use loli_os.Process.Loader.{load_exe}

-- The argument buffer of a new PCB: strncpy from a buffer of the same size with the characters.
abbrev pub args_buffer : List ℕ → List ℕ
args_buffer args =
    bytes (strncpy (of_list args) max_args_len 0 max_args_len) max_args_len max_args_len

-- What a new PCB has from its parent, where there is one.
abbrev inherit : (ℕ → Pcb) → Pcb → Option ℕ → ℤ → Pcb
inherit table p none terminal = record p { parent_pid = minus_one; terminal = terminal }
inherit table p (some i) terminal = record p {
  parent_pid = (table i).pid;
  terminal = (table i).terminal;
}

-- The initialisation of a new PCB.
unfoldable pub init_pcb : (ℕ → Pcb) → Pcb → Option ℕ → ℤ → ℕ → List ℕ → Pcb
unfolding file_init strncpy init
init_pcb table p parent terminal counter args =
    let inherited = inherit table p parent terminal in
    record inherited {
      status = process_sched;
      vidmap = false;
      last_alarm = counter;
      signals = init;
      files = file_init p.files;
      args = args_buffer args;
    }

-- What process_create_child leaves: NULL, or the index of the child.
pub data Created : Type 0 where
  not_created : Created
  created : ℕ → Kernel → Created

-- `ASSERT(terminal >= 0)`, which is made where there is no parent.
abbrev terminal_given : Option ℕ → ℤ → Bool
terminal_given none terminal = not (ltb_ℤ terminal (pos 0))
terminal_given (some i) terminal = true

-- The last step of process_create_child, for the new PCB p with index i, by the result of
-- process_load_exe.
place_program : Kernel → (ℕ → Pcb) → ℕ → Pcb → Option (Mem × ℕ) → Option Created
place_program k table i p none = none
place_program k table i p (some (page, entry)) = some (
    created i (record k {
      table = update table i (record p { entry_point = entry });
      pages = λ j. if i == j then page else k.pages j;
    }))

-- The end of process_create_child, for the new PCB i of `table`.
create_at : Image → ℕ → Kernel → Option ℕ → ℤ → ℕ → List ℕ → ℕ → (ℕ → Pcb) → Option Created
unfolding init_pcb map_process load_exe place_program
create_at fs counter k parent terminal inode args i table = do
  let p = init_pcb table (table i) parent terminal counter args
  mapped ← if terminal_given parent terminal then map_process k p.pid else none
  place_program mapped table i p (load_exe fs inode (k.pages i))

-- process_create_child from the result of process_new_pcb on.
create_new :
    Image → ℕ → Kernel → Option ℕ → ℤ → ℕ → List ℕ → Option (ℕ × (ℕ → Pcb)) → Option Created
unfolding create_at
create_new fs counter k parent terminal inode args none = some not_created
create_new fs counter k parent terminal inode args (some (i, table)) =
    create_at fs counter k parent terminal inode args i table

-- process_create_child from the result of process_parse_cmd on.
create_for : Image → ℕ → Kernel → Option ℕ → ℤ → Option Command → Option Created
unfolding create_new new_pcb
create_for fs counter k parent terminal none = none
create_for fs counter k parent terminal (some invalid) = some not_created
create_for fs counter k parent terminal (some (program inode args)) =
    create_new fs counter k parent terminal inode args (new_pcb k.table)

-- process_create_child, where the command is a string of the memory `m`.
unfoldable pub create_child : Image → ℕ → Kernel → Mem → ℕ → Option ℕ → ℤ → Option Created
unfolding create_for parse_cmd
create_child fs counter k m command parent terminal =
    create_for fs counter k parent terminal (parse_cmd fs m command)

-- What an execution leaves: the result -1, or the process that runs.
pub data Executed : Type 0 where
  refused : Executed
  running : ℕ → Kernel → Executed

abbrev sleep_parent : Option ℕ → (ℕ → Pcb) → ℕ → Pcb
sleep_parent none table = table
sleep_parent (some i) table =
    let p = table i in update table i (record p { status = process_sleep })

-- process_execute_impl from the result of process_create_child on.
run_created : ℕ → Option ℕ → Option Created → Option Executed
unfolding run
run_created process_data parent none = none
run_created process_data parent (some not_created) = some refused
run_created process_data parent (some (created i k)) = do
  ran ← run process_data (record k { table = sleep_parent parent k.table }) i
  some (running i ran)

-- process_execute_impl.
unfoldable pub execute_impl : Image → ℕ → ℕ → Kernel → Mem → ℕ → Option ℕ → ℤ → Option Executed
unfolding create_child run_created
execute_impl fs process_data counter k m command parent terminal =
    run_created process_data parent (create_child fs counter k m command parent terminal)

-- process_execute, for the executing process `curr`.
unfoldable pub execute : Image → ℕ → ℕ → Kernel → ℕ → ℕ → Option Executed
unfolding execute_impl is_user_readable_string
execute fs process_data counter k curr command =
    if is_user_readable_string (k.pages curr) command
    then execute_impl fs process_data counter k (k.pages curr) command (some curr) minus_one
    else some refused

-- The string "shell".
abbrev pub shell : Mem
shell = of_list (115 ∷ 104 ∷ 101 ∷ 108 ∷ 108 ∷ [])

-- The loop of process_halt_impl over the files, from file i on.
close_from : (ℕ → FileObj) → ℕ → ℕ → ℕ → FileObj
unfolding file_close
close_from files i zero = files
close_from files i (suc n) =
    let closed = if (files i).valid then (file_close files (pos i)).1 else files in
    close_from closed (i + 1) n

-- What a halt leaves: a new shell that runs, or the parent, with the status as the result of its
-- execute.
pub data Halted : Type 0 where
  respawned : ℕ → Kernel → Halted
  resumed : ℕ → ℕ → Kernel → Halted

-- A root process that ends is replaced by a shell, whose execution does not return.
pub respawn : Option Executed → Option Halted
respawn none = none
respawn (some refused) = none
respawn (some (running i k)) = some (respawned i k)

-- The end of process_halt_impl, once the child is freed.
leave : Image → ℕ → ℕ → Kernel → ℤ → ℕ → Lookup → Option Halted
unfolding execute_impl wake_parent set_context respawn
leave fs process_data counter k terminal status null =
    respawn (execute_impl fs process_data counter k shell 0 none terminal)
leave fs process_data counter k terminal status (found i) = do
  k' ← set_context process_data (record k { table = wake_parent k.table i }) i
  some (resumed i status k')

-- process_halt_impl, for the executing process `curr`.
unfoldable pub halt_impl : Image → ℕ → ℕ → Kernel → ℕ → ℕ → Option Halted
unfolding get_pcb_by_pid close_from terminal_clear_input free_pcb leave
halt_impl fs process_data counter k curr status = do
  let child = k.table curr
  parent ← get_pcb_by_pid k.table child.parent_pid
  let closed = record child { files = close_from child.files 2 (max_files - 2) }
  console ← terminal_clear_input k.console child.terminal
  let freed = free_pcb (update k.table curr closed) curr
  leave fs process_data counter (record k { table = freed; console = console }) child.terminal
      status parent

-- process_halt: `status & 0xff`.
unfoldable pub halt : Image → ℕ → ℕ → Kernel → ℕ → ℕ → Option Halted
unfolding halt_impl
halt fs process_data counter k curr status = halt_impl fs process_data counter k curr (status % 256)
