-- ===== src/Process/Loader.antt =====
-- process_load_exe of student-distrib/process.c, which copies a program to the user page. The memory
-- is the one that user pointers address.
pub mod Loaded
use loli_os.Prelude.{
  ℕ, zero, suc, ◌+◌, ◌^◌, Option, none, some, ◌==◌, if◌then◌else◌, add_u32, sub_u32,
}
use loli_os.Memory.{user_page_start, user_page_end}
use loli_os.Memory.Bytes.{Mem, store}
use loli_os.Memory.Words.{word_at}
use loli_os.MemOps.{memset}
use loli_os.FileSystem.{Image, read_data}
use loli_os.FileSystem.Syscalls.{read_count, read_bytes}

-- PROCESS_VADDR.
abbrev pub process_vaddr : ℕ
process_vaddr = 0x08048000

-- The size of a chunk, and the rounds: a file is below 2^32 bytes, and the last round reads none.
abbrev pub chunk_size : ℕ
chunk_size = 4096

abbrev pub load_rounds : ℕ
load_rounds = 2 ^ 20 + 1

-- The loop of process_load_exe: the memory and the offset where it ends, or `none` when no round is
-- left. A failed read counts as 2^32 - 1 bytes, as its result is a `uint32_t`.
load_chunks : Image → ℕ → Mem → ℕ → ℕ → Option (Mem × ℕ)
unfolding read_data
load_chunks fs inode m offset zero = none
load_chunks fs inode m offset (suc n) =
    let read = read_data fs inode offset chunk_size in
    let loaded = store m (add_u32 process_vaddr offset) (read_bytes read) in
    let next = add_u32 offset (read_count read) in
    let rest = load_chunks fs inode loaded next n in
    if read_count read == 0 then some (loaded, next) else rest

-- The rest of the page is cleared. The sizes are `uint32_t` values.
clear_around : Mem → ℕ → Mem
unfolding memset
clear_around m offset =
    let head = memset m user_page_start 0 (sub_u32 process_vaddr user_page_start) in
    memset head (add_u32 process_vaddr offset) 0
      (sub_u32 (sub_u32 user_page_end process_vaddr) offset)

-- process_load_exe from the end of its loop on.
load_end : Option (Mem × ℕ) → Option (Mem × ℕ)
unfolding clear_around
load_end none = none
load_end (some (loaded, offset)) =
    let cleared = clear_around loaded offset in some (cleared, word_at cleared (process_vaddr + 24))

-- process_load_exe, with the rounds of its loop.
load_with : ℕ → Image → ℕ → Mem → Option (Mem × ℕ)
unfolding load_chunks load_end
load_with rounds fs inode m = load_end (load_chunks fs inode m 0 rounds)

-- process_load_exe: the memory and the entry point.
unfoldable pub load_exe : Image → ℕ → Mem → Option (Mem × ℕ)
unfolding load_with
load_exe fs inode m = load_with load_rounds fs inode m
