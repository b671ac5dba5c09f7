-- ===== src/Tests/Files.antt =====
-- The file system and the descriptors, at concrete inputs.
use loli_os.Prelude.{
  ◌-◌, ◌^◌, min, ◌≡◌, refl, true, ◌||◌, none, some, [], ◌∷◌, arith, ltb, leb, ◌==◌, if◌then◌else◌,
  pos, minus_one, add_u32,
}
use loli_os.FileSystem.{read_data, read_dentry_by_name}
use loli_os.FileSystem.Names.{Found, read_dentry_by_name-Found}
use loli_os.FileSystem.ReadData.{read_data_lem}
use loli_os.FileSystem.Reads.{fs_file_read_bad_inode, EntryRead, fs_dir_read-EntryRead}
use loli_os.FileSystem.Spec.{contents}
use loli_os.FileSystem.Syscalls.{fs_file_read}
use loli_os.File.{file_open}
use loli_os.File.Descriptors.{Opened, file_open-Opened}
use loli_os.Memory.{is_user_readable}
use loli_os.Memory.Bytes.{Mem, store}
use loli_os.Memory.Access.{InUserPage, is_user_readable_iff}
use loli_os.Tests.Data.{letters, blanks, image, lost_file, root_dir, files}

read_data_lem_example : read_data image 0 4090 2000 ≡ (
    if leb 1 0 || ltb 5000 4090
    then none
    else some
        (min 2000 (5000 - 4090), contents image (image.inode 0) 4090 (min 2000 (5000 - 4090))))
read_data_lem_example = read_data_lem image 0 4090 2000 (omega arith) (omega arith)

read_dentry_by_name-Found_example :
    Found image
      (λ p. if p == 0 then 97 else 0)
      0
      1
      (read_dentry_by_name image (λ p. if p == 0 then 97 else 0))
read_dentry_by_name-Found_example = read_dentry_by_name-Found image (λ p. if p == 0 then 97 else 0)

readable : is_user_readable 0x8000010 (pos 100) ≡ true
unfolding is_user_readable
readable = refl

in_page : InUserPage 0x8000010 100
in_page = (is_user_readable_iff 0x8000010 100 (omega arith) (omega arith)).0 readable

fs_file_read_bad_inode_example :
    fs_file_read image lost_file blanks 0x8000010 (pos 100)
    ≡ (minus_one, record lost_file { offset = add_u32 0 (2 ^ 32 - 1) }, blanks)
fs_file_read_bad_inode_example =
    fs_file_read_bad_inode image lost_file blanks 0x8000010 100 (omega arith) readable

fs_dir_read-EntryRead_example : EntryRead image root_dir blanks 0x8000010 100
fs_dir_read-EntryRead_example =
    fs_dir_read-EntryRead image root_dir blanks 0x8000010 100 readable (omega arith)

-- The name "a" in the user memory.
abbrev named : Mem
named = store letters 0x8000010 (97 ∷ 0 ∷ [])

file_open-Opened_example :
    Opened image named files 0x8000010 (pos 3, (file_open image named files 0x8000010).1)
unfolding file_open store read_dentry_by_name
file_open-Opened_example = file_open-Opened image named files 0x8000010
