-- ===== src/File.antt =====
-- The file descriptors of a process, of student-distrib/file.c: opening and closing, with the
-- dispatch to the operation tables; File/Transfer has reading and writing.
pub mod Descriptors
pub mod Reading
pub mod Transfer
pub mod Writing
use loli_os.Prelude.{
  ℕ, zero, suc, ◌+◌, ◌-◌, Bool, true, false, Option, none, some, leb, ◌==◌, if◌then◌else◌, ℤ, pos,
  negsuc, minus_one, add_u32,
}
use loli_os.FileObj.{
  FileObj, FileOps, fops_stdin, fops_stdout, fops_file, fops_dir, fops_rtc, fops_mouse,
}
use loli_os.FileSystem.{
  Image, Dentry, read_dentry_by_name, ftype_rtc, ftype_dir, ftype_file, ftype_mouse, is_zero,
}
use loli_os.FileSystem.Syscalls.{fs_open, fs_close}
use loli_os.Memory.{is_user_readable_string}
use loli_os.Memory.Bytes.{Mem}
use loli_os.Paging.{update}
use loli_os.Rtc.{open_rtc, close_rtc}
use loli_os.Terminal.Reads.{kbd_open, kbd_close, mouse_open, mouse_close}

-- MAX_FILES.
abbrev pub max_files : ℕ
max_files = 8

-- init_file_obj.
unfoldable pub init_file_obj : FileObj → Dentry → Bool × FileObj
init_file_obj file dentry =
    let cleared = record file { inode_idx = 0; offset = 0 } in
    if dentry.type == ftype_rtc
    then (true, record cleared { ops_table = fops_rtc; valid = true })
    else if dentry.type == ftype_dir
    then (true, record cleared { ops_table = fops_dir; valid = true })
    else if dentry.type == ftype_file
    then (
      true,
      record cleared { ops_table = fops_file; inode_idx = dentry.inode_idx; valid = true },
    )
    else if dentry.type == ftype_mouse
    then (true, record cleared { ops_table = fops_mouse; valid = true })
    else (false, cleared)

-- `files[i].ops_table->open(filename, &files[i])`.
unfoldable pub call_open : FileOps → FileObj → ℤ × FileObj
unfolding fs_open open_rtc
call_open fops_stdin file = (kbd_open, file)
call_open fops_stdout file = (kbd_open, file)
call_open fops_file file = fs_open file
call_open fops_dir file = fs_open file
call_open fops_rtc file = open_rtc file
call_open fops_mouse file = (mouse_open, file)

-- `file->ops_table->close(file)`.
unfoldable pub call_close : FileOps → FileObj → ℤ × FileObj
unfolding fs_close
call_close fops_stdin file = (kbd_close, file)
call_close fops_stdout file = (kbd_close, file)
call_close fops_file file = fs_close file
call_close fops_dir file = fs_close file
call_close fops_rtc file = (close_rtc, file)
call_close fops_mouse file = (mouse_close, file)

-- The loop of file_init, from index i on.
init_from : (ℕ → FileObj) → ℕ → ℕ → ℕ → FileObj
init_from files i zero = files
init_from files i (suc n) =
    let f = files i in init_from (update files i (record f { valid = false })) (i + 1) n

-- file_init.
unfoldable pub file_init : (ℕ → FileObj) → ℕ → FileObj
unfolding init_from
file_init files =
    let f = files 0 in
    let g = files 1 in
    init_from
      (update (update files 0 (record f { valid = true; ops_table = fops_stdin })) 1
        (record g { valid = true; ops_table = fops_stdout }))
      2 (max_files - 2)

-- get_executing_file_obj, as the index that it returns a pointer to.
unfoldable pub get_file_obj : (ℕ → FileObj) → ℤ → Option ℕ
get_file_obj files (negsuc n) = none
get_file_obj files (pos fd) =
    if leb max_files fd then none else if (files fd).valid then some fd else none

-- The body of the loop of file_open, once the entry i is free.
unfoldable pub open_at : Image → Mem → (ℕ → FileObj) → ℕ → ℤ × (ℕ → FileObj)
unfolding init_file_obj call_open
open_at img name files i = elim (read_dentry_by_name img name) [
  | none ↦ (minus_one, files)
  | some dentry ↦
      let (known, file) = init_file_obj (files i) dentry in
      let (result, opened) = call_open file.ops_table file in
      if known
      then if is_zero result
        then (pos i, update files i opened)
        else (minus_one, update files i (record opened { valid = false }))
      else (minus_one, update files i file)
]

-- The loop of file_open, from index i on.
open_from : Image → Mem → (ℕ → FileObj) → ℕ → ℕ → ℤ × (ℕ → FileObj)
unfolding open_at
open_from img name files i zero = (minus_one, files)
open_from img name files i (suc n) =
    let rest = open_from img name files (i + 1) n in
    if (files i).valid then rest else open_at img name files i

-- file_open: the name is a string of the user memory.
unfoldable pub file_open : Image → Mem → (ℕ → FileObj) → ℕ → ℤ × (ℕ → FileObj)
unfolding open_from is_user_readable_string
file_open img m files filename =
    if is_user_readable_string m filename
    then open_from img (λ i. m (add_u32 filename i)) files 2 (max_files - 2)
    else (minus_one, files)

-- file_close.
unfoldable pub file_close : (ℕ → FileObj) → ℤ → ℤ × (ℕ → FileObj)
unfolding get_file_obj call_close
file_close files fd = elim (get_file_obj files fd) [
  | none ↦ (minus_one, files)
  | some i ↦
      let (result, file) = call_close (files i).ops_table (files i) in
      if is_zero result
      then (pos 0, update files i (record file { valid = false }))
      else (minus_one, update files i file)
]
