-- ===== src/FileObj.antt =====
-- The file object of student-distrib/file.h, and the operation tables of student-distrib/file.c.
use loli_os.Prelude.{ℕ, Bool}

-- `file_ops_t`: one constructor for each table that file.c declares.
pub data FileOps : Type 0 where
  fops_stdin fops_stdout fops_file fops_dir fops_rtc fops_mouse : FileOps

-- `file_obj_t`. The offset is the file position, the index of the next entry, or the frequency of
-- the virtual RTC.
pub record FileObj : Type 0 where
  pub ops_table : FileOps
  pub inode_idx : ℕ
  pub offset : ℕ
  pub valid : Bool
