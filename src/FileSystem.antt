-- ===== src/FileSystem.antt =====
-- The read-only filesystem of student-distrib/filesys.c and filesys.h: name comparison, lookup of
-- directory entries, and read_data. The image is read through records that are total in every index,
-- as the code's pointers into it are: nothing is checked here that the code does not check.
pub mod Names
pub mod Spec
pub mod ReadData
pub mod Syscalls
pub mod Reads
use loli_os.Prelude.{
  [], ℕ, zero, suc, ◌+◌, ◌-◌, ◌/◌, ◌%◌, Bool, false, ◌||◌, not, Option, none, some, List, ◌++◌, ltb,
  leb, ◌==◌, if◌then◌else◌, length, ℤ, pos, negsuc, sub_ℕ, add_u32, sub_u32,
}
use loli_os.Memory.Bytes.{Mem, bytes}

-- FS_MAX_FNAME_LEN and FS_BLOCK_SIZE.
abbrev pub max_fname_len : ℕ
max_fname_len = 32

abbrev pub block_size : ℕ
block_size = 4096

-- `dentry_t`. The type is compared with the FTYPE constants.
pub record Dentry : Type 0 where
  pub name : Mem
  pub type : ℕ
  pub inode_idx : ℕ

-- FTYPE_RTC, FTYPE_DIR, FTYPE_FILE and FTYPE_MOUSE.
abbrev pub ftype_rtc : ℕ
ftype_rtc = 0

abbrev pub ftype_dir : ℕ
ftype_dir = 1

abbrev pub ftype_file : ℕ
ftype_file = 2

abbrev pub ftype_mouse : ℕ
ftype_mouse = 3

-- `inode_t`: the size in bytes and the indices of the data blocks.
pub record Inode : Type 0 where
  pub size : ℕ
  pub data_blocks : ℕ → ℕ

-- The image behind `fs_boot_block`. FS_INODE and FS_DATA are `inode` and `data_block`.
pub record Image : Type 0 where
  pub dentry_count : ℕ
  pub inode_count : ℕ
  pub dir_entries : ℕ → Dentry
  pub inode : ℕ → Inode
  pub data_block : ℕ → Mem

-- The rounds that are left of the loop of fs_cmp_name, at index i; then the check of the 33rd byte.
cmp_name_from : Mem → Mem → ℕ → ℕ → ℤ
cmp_name_from search_name file_name i zero = pos (search_name i)
cmp_name_from search_name file_name i (suc n) =
    let rest = cmp_name_from search_name file_name (i + 1) n in
    if not (search_name i == file_name i) || (file_name i == 0)
    then sub_ℕ (search_name i) (file_name i)
    else rest

unfoldable pub fs_cmp_name : Mem → Mem → ℤ
unfolding cmp_name_from
fs_cmp_name search_name file_name = cmp_name_from search_name file_name 0 max_fname_len

abbrev pub is_zero : ℤ → Bool
is_zero (pos n) = n == 0
is_zero (negsuc n) = false

-- `none` is the result -1. The second argument counts the entries that are left.
find_from : Image → Mem → ℕ → ℕ → Option Dentry
find_from fs fname i zero = none
find_from fs fname i (suc n) =
    let rest = find_from fs fname (i + 1) n in
    if is_zero (fs_cmp_name fname (fs.dir_entries i).name) then some (fs.dir_entries i) else rest

unfoldable pub read_dentry_by_name : Image → Mem → Option Dentry
unfolding find_from fs_cmp_name
read_dentry_by_name fs fname = find_from fs fname 0 fs.dentry_count

unfoldable pub read_dentry_by_index : Image → ℕ → Option Dentry
read_dentry_by_index fs index =
    if leb fs.dentry_count index then none else some (fs.dir_entries index)

-- The body of the loop of read_data: what block i adds to the buffer.
block_part : Image → Inode → ℕ → ℕ → ℕ → ℕ → ℕ → List ℕ
block_part fs inode first_block first_offset last_block last_offset i =
    let start_offset = if i == first_block then first_offset else 0 in
    let end_offset = if i == last_block then last_offset else block_size in
    bytes (fs.data_block (inode.data_blocks i)) start_offset (sub_u32 end_offset start_offset)

-- The rounds of the loop that are left at block i: what they write to the buffer, in order.
copy_blocks : Image → Inode → ℕ → ℕ → ℕ → ℕ → ℕ → ℕ → List ℕ
unfolding block_part
copy_blocks fs inode first_block first_offset last_block last_offset i zero = []
copy_blocks fs inode first_block first_offset last_block last_offset i (suc n) =
    block_part fs inode first_block first_offset last_block last_offset i
    ++ copy_blocks fs inode first_block first_offset last_block last_offset (i + 1) n

-- The copy once the length is clamped.
copy_range : Image → Inode → ℕ → ℕ → List ℕ
unfolding copy_blocks
copy_range fs inode offset length =
    let end = add_u32 offset length in
    let first_block = offset / block_size in
    let last_block = end / block_size in
    copy_blocks fs inode first_block (offset % block_size) last_block (end % block_size) first_block
      (last_block + 1 - first_block)

-- The number of bytes and the bytes that are written to buf, or `none` for the result -1.
unfoldable pub read_data : Image → ℕ → ℕ → ℕ → Option (ℕ × List ℕ)
unfolding copy_range
read_data fs inode offset length =
    let inode_p = fs.inode inode in
    let left = sub_u32 inode_p.size offset in
    let clamped = if ltb left length then left else length in
    if leb fs.inode_count inode
    then none
    else if ltb inode_p.size offset
    then none
    else some (clamped, copy_range fs inode_p offset clamped)
