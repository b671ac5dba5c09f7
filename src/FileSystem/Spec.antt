-- ===== src/FileSystem/Spec.antt =====
-- What a file of the image holds, byte by byte.
use loli_os.Prelude.{ℕ, ◌/◌, ◌%◌, List}
use loli_os.Memory.Bytes.{Mem, bytes}
use loli_os.FileSystem.{Image, Inode, block_size}

-- The byte of a file at an offset.
unfoldable pub file_byte : Image → Inode → Mem
file_byte fs inode k = fs.data_block (inode.data_blocks (k / block_size)) (k % block_size)

-- The bytes of a file from an offset on.
unfoldable pub contents : Image → Inode → ℕ → ℕ → List ℕ
unfolding file_byte
contents fs inode offset n = bytes (file_byte fs inode) offset n
