-- ===== src/FileSystem/Syscalls.antt =====
-- The file operations of filesys.c: fs_open, fs_file_read, fs_dir_read, fs_write, fs_close.
-- A read returns its result, the file object and the user memory.
use loli_os.Prelude.{
  [], ℕ, zero, suc, ◌+◌, Option, none, some, List, ◌∷◌, ltb, ◌==◌, if◌then◌else◌, length, ℤ, pos,
  negsuc, minus_one, add_u32, to_u32, to_i32,
}
use loli_os.Memory.{is_user_writable}
use loli_os.Memory.Bytes.{Mem, store}
use loli_os.FileObj.{FileObj}
use loli_os.FileSystem.{Image, max_fname_len, read_dentry_by_index, read_data}

unfoldable pub fs_open : FileObj → ℤ × FileObj
fs_open file = (pos 0, file)

unfoldable pub fs_write : ℤ
fs_write = minus_one

unfoldable pub fs_close : FileObj → ℤ × FileObj
fs_close file = (pos 0, file)

-- The characters of a name before its NUL, at most n.
unfoldable pub name_chars : Mem → ℕ → ℕ → List ℕ
name_chars name i zero = []
name_chars name i (suc n) =
    let rest = name i ∷ name_chars name (i + 1) n in if name i == 0 then [] else rest

unfoldable pub fs_dir_read : Image → FileObj → Mem → ℕ → ℤ → ℤ × FileObj × Mem
unfolding name_chars
fs_dir_read fs file m buf (negsuc n) = (minus_one, file, m)
fs_dir_read fs file m buf (pos n) =
    if is_user_writable buf (pos n)
    then elim (read_dentry_by_index fs file.offset) [
      | none ↦ (pos 0, file, m)
      | some dentry ↦
          let chars = name_chars dentry.name 0 (if ltb max_fname_len n then max_fname_len else n) in
          (pos (length chars), record file { offset = add_u32 file.offset 1 }, store m buf chars)
    ]
    else (minus_one, file, m)

-- The result -1 of read_data, as the `uint32_t` that fs_file_read keeps it in.
abbrev pub read_count : Option (ℕ × List ℕ) → ℕ
read_count none = to_u32 minus_one
read_count (some (n, chars)) = n

abbrev pub read_bytes : Option (ℕ × List ℕ) → List ℕ
read_bytes none = []
read_bytes (some (n, chars)) = chars

unfoldable pub fs_file_read : Image → FileObj → Mem → ℕ → ℤ → ℤ × FileObj × Mem
fs_file_read fs file m buf nbytes =
    let read = read_data fs file.inode_idx file.offset (to_u32 nbytes) in
    if is_user_writable buf nbytes
    then (
      to_i32 (read_count read),
      record file { offset = add_u32 file.offset (read_count read) },
      store m buf (read_bytes read),
    )
    else (minus_one, file, m)
