-- ===== src/File/Transfer.antt =====
-- file_read and file_write of student-distrib/file.c, which call the operations of the file's table.
-- User memory is the page of the executing process; what a read that waits sees at each wake-up is an
-- argument. `none` is a unchanged assertion, or a read that still waits when its list ends.
use loli_os.Prelude.{
  ℕ, Bool, ◌&&◌, Option, none, some, List, ltb, leb, ◌==◌, if◌then◌else◌, ℤ, minus_one,
}
use loli_os.Memory.{user_page_start, user_page_end}
use loli_os.Memory.Bytes.{Mem}
use loli_os.FileObj.{
  FileObj, FileOps, fops_stdin, fops_stdout, fops_file, fops_dir, fops_rtc, fops_mouse,
}
use loli_os.FileSystem.{Image}
use loli_os.FileSystem.Syscalls.{fs_file_read, fs_dir_read, fs_write}
use loli_os.Rtc.{read_rtc, write_rtc}
use loli_os.Terminal.{KbdInputBuf}
use loli_os.Terminal.Console.{Console, set_state, ◌>>=◌}
use loli_os.Terminal.Reads.{
  stdin_read, stdin_write, stdout_read, stdout_write, mouse_read, mouse_write,
}
use loli_os.File.{get_file_obj}
use loli_os.Process.{Pcb}
use loli_os.Process.Context.{Kernel}

-- What a system call that waits sees: whether a signal is pending, the RTC counter, and both with the
-- keyboard buffer at each wake-up.
pub record Looks : Type 0 where
  pub pending : Bool
  pub counter : ℕ
  pub kbd : List (KbdInputBuf × Bool)
  pub rtc : List (ℕ × Bool)

-- What an operation of a file leaves: its result, the file, the user memory and the console.
pub record Transfer : Type 0 where
  pub value : ℤ
  pub file : FileObj
  pub page : Mem
  pub console : Console

-- A result, and nothing done.
abbrev pub unchanged : FileObj → Mem → Console → ℤ → Transfer
unchanged file m s value = record { value = value; file = file; page = m; console = s }

-- A read of the file system.
abbrev pub of_read : Console → ℤ × FileObj × Mem → Transfer
of_read s (value, file, m) = record { value = value; file = file; page = m; console = s }

-- terminal_stdin_read on terminal i.
read_stdin : Looks → Console → FileObj → Mem → ℕ → ℕ → ℤ → Option Transfer
unfolding stdin_read
read_stdin looks s file m i buf nbytes = do
  let t = s.states i
  r ← stdin_read m buf nbytes t.kbd_input looks.pending looks.kbd
  some (record {
    value = r.value;
    file = file;
    page = r.mem;
    console = set_state s i (record t { kbd_input = r.input });
  })

-- terminal_mouse_read on terminal i.
read_mouse : Console → FileObj → Mem → ℕ → ℕ → ℤ → Transfer
unfolding mouse_read
read_mouse s file m i buf nbytes =
    let t = s.states i in
    let (value, m', b) = mouse_read m buf nbytes t.mouse_input in
    record {
      value = value;
      file = file;
      page = m';
      console = set_state s i (record t { mouse_input = b });
    }

-- `file->ops_table->read(file, buf, nbytes)`, for the executing terminal i.
unfoldable pub call_read :
    Image → Looks → Console → FileOps → FileObj → Mem → ℕ → ℕ → ℤ → Option Transfer
unfolding read_stdin fs_file_read fs_dir_read read_rtc read_mouse
call_read fs looks s fops_stdin file m i buf nbytes = read_stdin looks s file m i buf nbytes
call_read fs looks s fops_stdout file m i buf nbytes = some (unchanged file m s stdout_read)
call_read fs looks s fops_file file m i buf nbytes =
    some (of_read s (fs_file_read fs file m buf nbytes))
call_read fs looks s fops_dir file m i buf nbytes =
    some (of_read s (fs_dir_read fs file m buf nbytes))
call_read fs looks s fops_rtc file m i buf nbytes = do
  value ← read_rtc file looks.counter looks.pending looks.rtc
  some (unchanged file m s value)
call_read fs looks s fops_mouse file m i buf nbytes = some (read_mouse s file m i buf nbytes)

-- The memory of the console, with the user page of the executing process in its place.
abbrev pub with_page : Console → Mem → Console
with_page s m = record s {
  mem = λ p. if leb user_page_start p && ltb p user_page_end then m p else s.mem p;
}

-- terminal_stdout_write on terminal i, which does not write to user memory.
unfoldable pub write_stdout : Console → FileObj → Mem → ℕ → ℕ → ℤ → Option Transfer
unfolding stdout_write
write_stdout s file m i buf nbytes = do
  (value, s') ← stdout_write (with_page s m) i buf nbytes
  some (unchanged file m (with_page s' s.mem) value)

-- A write to the virtual RTC.
abbrev of_write : Console → Mem → ℤ × FileObj → Transfer
of_write s m (value, file) = record { value = value; file = file; page = m; console = s }

-- `file->ops_table->write(file, buf, nbytes)`.
unfoldable pub call_write : Console → FileOps → FileObj → Mem → ℕ → ℕ → ℤ → Option Transfer
unfolding write_stdout write_rtc fs_write
call_write s fops_stdin file m i buf nbytes = some (unchanged file m s stdin_write)
call_write s fops_stdout file m i buf nbytes = write_stdout s file m i buf nbytes
call_write s fops_file file m i buf nbytes = some (unchanged file m s fs_write)
call_write s fops_dir file m i buf nbytes = some (unchanged file m s fs_write)
call_write s fops_rtc file m i buf nbytes = some (of_write s m (write_rtc m file buf nbytes))
call_write s fops_mouse file m i buf nbytes = some (unchanged file m s mouse_write)

-- The kernel after an operation on descriptor i of the process `curr`.
abbrev pub after_transfer : Kernel → ℕ → ℕ → Transfer → ℤ × Kernel
after_transfer k curr i r =
    let p = k.table curr in
    let own : Pcb = record p { files = λ j. if i == j then r.file else p.files j } in
    (
      r.value,
      record k {
        table = λ j. if curr == j then own else k.table j;
        pages = λ j. if curr == j then r.page else k.pages j;
        console = r.console;
      },
    )

-- file_read, where the process `curr` executes on terminal i.
unfoldable pub file_read : Image → Looks → Kernel → ℕ → ℕ → ℤ → ℕ → ℤ → Option (ℤ × Kernel)
unfolding get_file_obj call_read
file_read fs looks k curr i fd buf nbytes =
    let files = (k.table curr).files in
    elim (get_file_obj files fd) [
      | none ↦ some (minus_one, k)
      | some n ↦ do
        let f = files n
        r ← call_read fs looks k.console f.ops_table f (k.pages curr) i buf nbytes
        some (after_transfer k curr n r)
    ]

-- file_write.
unfoldable pub file_write : Kernel → ℕ → ℕ → ℤ → ℕ → ℤ → Option (ℤ × Kernel)
unfolding get_file_obj call_write
file_write k curr i fd buf nbytes =
    let files = (k.table curr).files in
    elim (get_file_obj files fd) [
      | none ↦ some (minus_one, k)
      | some n ↦ do
        let f = files n
        r ← call_write k.console f.ops_table f (k.pages curr) i buf nbytes
        some (after_transfer k curr n r)
    ]
