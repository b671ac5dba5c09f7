-- ===== src/Process/Calls.antt =====
-- The system calls of student-distrib/process.c on the executing process, getargs and vidmap, and the
-- start of the shells.
pub mod Arguments
use loli_os.Prelude.{
  ℕ, zero, suc, ◌+◌, ◌-◌, true, Option, none, some, [], ◌∷◌, ltb, ◌==◌, if◌then◌else◌, ℤ, pos,
  negsuc, minus_one,
}
use loli_os.Memory.{is_user_writable}
use loli_os.Memory.Bytes.{Mem, store}
use loli_os.Memory.Words.{word_bytes}
use loli_os.Strings.{strncpy}
use loli_os.Paging.{vidmap_page_start}
use loli_os.FileSystem.{Image}
use loli_os.Terminal.{num_terminals}
use loli_os.Terminal.Console.{terminal_update_vidmap, ◌>>=◌}
use loli_os.Process.{update}
use loli_os.Process.Command.{max_args_len}
use loli_os.Process.Context.{Kernel}
use loli_os.Process.Execution.{not_created, created, create_child, Executed, execute_impl, shell}

-- process_getargs once nbytes is known to be non-negative. `args` is the address of the arguments in
-- the PCB; user memory is a part of the memory `m` that holds both.
abbrev pub copy_args : Mem → ℕ → ℕ → ℕ → Mem
copy_args m args buf nbytes =
    let copied = strncpy m buf args nbytes in
    if ltb 0 nbytes then store copied (buf + (nbytes - 1)) (0 ∷ []) else copied

-- process_getargs: its result and the memory.
unfoldable pub getargs : Mem → ℕ → ℕ → ℤ → ℤ × Mem
unfolding is_user_writable strncpy
getargs m args buf (negsuc n) = (minus_one, m)
getargs m args buf (pos n) =
    if is_user_writable buf (pos n)
    then (pos 0, copy_args m args buf (if ltb max_args_len n then max_args_len else n))
    else (minus_one, m)

-- process_vidmap once its argument is checked.
pub map_vidmap : Kernel → ℕ → ℕ → Option (ℤ × Kernel)
unfolding terminal_update_vidmap
map_vidmap k curr screen_start = do
  let p = k.table curr
  console ← terminal_update_vidmap k.console p.terminal true
  let page = store (k.pages curr) screen_start (word_bytes vidmap_page_start)
  some (
    pos 0,
    record k {
      console = console;
      table = update k.table curr (record p { vidmap = true });
      pages = λ j. if curr == j then page else k.pages j;
    },
  )

-- process_vidmap, for the executing process `curr`.
unfoldable pub vidmap : Kernel → ℕ → ℕ → Option (ℤ × Kernel)
unfolding is_user_writable map_vidmap
vidmap k curr screen_start =
    if is_user_writable screen_start (pos 4)
    then map_vidmap k curr screen_start
    else some (minus_one, k)

-- The loop of process_start_shell, from terminal i on.
unfoldable pub shells_from : Image → ℕ → Kernel → ℕ → ℕ → Option Kernel
unfolding create_child
shells_from fs counter k i zero = some k
shells_from fs counter k i (suc n) = elim (create_child fs counter k shell 0 none (pos i)) [
  | none ↦ none
  | some not_created ↦ shells_from fs counter k (i + 1) n
  | some (created c k') ↦ shells_from fs counter k' (i + 1) n
]

-- process_start_shell.
unfoldable pub start_shell : Image → ℕ → ℕ → Kernel → Option Executed
unfolding shells_from execute_impl
start_shell fs process_data counter k = do
  started ← shells_from fs counter k 1 (num_terminals - 1)
  execute_impl fs process_data counter started shell 0 none (pos 0)
