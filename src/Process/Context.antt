-- ===== src/Process/Context.antt =====
-- The state that process.c of student-distrib shares with the terminals and the page tables, and the
-- change of the executing process. The processor's jump to user code and between the kernel stacks is
-- not modelled: a function that jumps says which process executes then. `none` is a failed assertion.
use loli_os.Prelude.{ℕ, ◌+◌, ◌*◌, ◌%◌, ◌^◌, Option, some, ◌==◌, if◌then◌else◌, ℤ, add_u32, to_u32}
use loli_os.Memory.Bytes.{Mem}
use loli_os.Paging.{update_process_page}
use loli_os.Terminal.Console.{Console, terminal_clear_input, terminal_update_vidmap, ◌>>=◌}
use loli_os.Process.{Status, Pcb, process_run, process_sleep, process_sched, get_next_pcb, update}

-- The process table, the terminals with the page tables, the memory that the user page shows for each
-- process number, and the stack pointer of the task state segment.
pub record Kernel : Type 0 where
  pub table : ℕ → Pcb
  pub console : Console
  pub pages : ℕ → Mem
  pub esp0 : ℕ

-- PROCESS_DATA_SIZE, which is the size of one element of process_data.
abbrev pub process_data_size : ℕ
process_data_size = 8192

-- get_kernel_base_esp, where process_data is the address of the array.
abbrev pub kernel_base_esp : ℕ → ℤ → ℕ
kernel_base_esp process_data pid =
    add_u32 process_data ((to_u32 pid + 1) * process_data_size % 2 ^ 32)

-- paging_update_process_page on the page tables of the kernel.
unfoldable pub map_process : Kernel → ℤ → Option Kernel
unfolding update_process_page
map_process k pid = do
  paging ← update_process_page k.console.paging pid
  let console = k.console
  some (record k { console = record console { paging = paging } })

-- process_set_context.
unfoldable pub set_context : ℕ → Kernel → ℕ → Option Kernel
unfolding map_process terminal_update_vidmap
set_context process_data k to = do
  let p = k.table to
  mapped ← map_process k p.pid
  console ← terminal_update_vidmap mapped.console p.terminal p.vidmap
  some (record mapped { console = console; esp0 = kernel_base_esp process_data p.pid })

-- process_run_impl up to the jump to user code.
unfoldable pub run : ℕ → Kernel → ℕ → Option Kernel
unfolding set_context terminal_clear_input
run process_data k i = do
  let p = k.table i
  console ← terminal_clear_input k.console p.terminal
  set_context process_data
      (record k { table = update k.table i (record p { status = process_run }); console = console })
      i

-- process_switch_impl once another process is chosen, by its status: the process that executes then.
unfoldable pub switch_to : ℕ → Kernel → ℕ → ℕ → Status → Option (ℕ × Kernel)
unfolding run set_context
switch_to process_data k curr next process_sched = do k' ← run process_data k next; some (next, k')
switch_to process_data k curr next process_run = do
  k' ← set_context process_data k next
  some (next, k')
switch_to process_data k curr next process_sleep = some (curr, k)

-- process_switch_impl.
unfoldable pub switch : ℕ → Kernel → ℕ → Option (ℕ × Kernel)
unfolding get_next_pcb switch_to
switch process_data k curr =
    let next = get_next_pcb k.table curr in
    if curr == next
    then some (curr, k)
    else switch_to process_data k curr next (k.table next).status
