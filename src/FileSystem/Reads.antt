-- ===== src/FileSystem/Reads.antt =====
-- What the read calls on files and directories return, and what they leave for the next call.
use loli_os.Prelude.{
  ℕ, zero, suc, ◌+◌, ◌-◌, ◌%◌, ◌^◌, ◌≤◌, ◌<◌, min, ◌≡◌, ap, ◌∙◌, ◌≢◌, inl, inr, true, false, some,
  List, ◌∷◌, arith, ℕ_discrete, ltb, leb, ◌==◌, if◌then◌else◌, Bool-cases, ℤ, pos, minus_one,
  add_u32, to_i32,
}
use loli_os.Memory.{is_user_writable, is_user_readable}
use loli_os.Memory.Access.{InUserPage, is_user_readable_iff}
use loli_os.Memory.Bytes.{Mem, bytes, store, length-bytes}
use loli_os.FileObj.{FileObj}
use loli_os.FileSystem.{Image, max_fname_len, read_dentry_by_index, read_data}
use loli_os.FileSystem.Spec.{contents}
use loli_os.FileSystem.ReadData.{read_data_lem}
use loli_os.FileSystem.Syscalls.{fs_file_read, fs_dir_read, name_chars}

-- A file object that names an inode of the image, at an offset within the file.
pub record IsOpenFile (fs : Image) (file : FileObj) : Type 0 where
  pub inode_in : file.inode_idx < fs.inode_count
  pub small : (fs.inode file.inode_idx).size < 2 ^ 31
  pub inside : file.offset ≤ (fs.inode file.inode_idx).size

-- The bytes that are left of the file at its offset.
abbrev pub left : Image → FileObj → ℕ
left fs file = (fs.inode file.inode_idx).size - file.offset

read_data_open :
    (fs : Image) (file : FileObj) (n : ℕ)
    → IsOpenFile fs file
    → n < 2 ^ 32
    → read_data fs file.inode_idx file.offset n
      ≡ some (
        min n (left fs file),
        contents fs (fs.inode file.inode_idx) file.offset (min n (left fs file)),
      )
read_data_open fs file n v hn =
    let whole = read_data_lem fs file.inode_idx file.offset n (omega arith) hn in
    let in_range : leb fs.inode_count file.inode_idx ≡ false = ground arith in
    let before_end : ltb (fs.inode file.inode_idx).size file.offset ≡ false = ground arith in
    whole ∙ rw (in_range, before_end)

-- For an open file and a buffer in the user page, fs_file_read returns as many bytes as are asked
-- for and left, stores the bytes of the file at its offset there, and advances the offset by their
-- number, so that the file stays open and the next read goes on where this one stopped.
pub fs_file_read_lem :
    (fs : Image) (file : FileObj) (m : Mem) (buf n : ℕ)
    → IsOpenFile fs file
    → buf < 2 ^ 32
    → n < 2 ^ 31
    → InUserPage buf n
    → let count = min n (left fs file) in
      let file' = record file { offset = file.offset + count } in
      (fs_file_read fs file m buf (pos n)
        ≡ (pos count, file', store m buf (contents fs (fs.inode file.inode_idx) file.offset count)))
      × IsOpenFile fs file'
unfolding fs_file_read is_user_writable
fs_file_read_lem fs file m buf n v hb hn page =
    let count = min n (left fs file) in
    let ok = (is_user_readable_iff buf n hb hn).1 page in
    let word : n % 2 ^ 32 ≡ n = omega arith in
    let read = read_data_open fs file n v (omega arith) in
    let signed : to_i32 count ≡ pos count = ground arith in
    let advanced : add_u32 file.offset count ≡ file.offset + count = omega arith in
    (
      rw (ok, word, read) (rw (signed, advanced)),
      record { inode_in = v.inode_in; small = v.small; inside = omega arith },
    )

-- A read that the pointer check refuses returns -1 and changes neither the file nor the memory.
pub fs_file_read_refused :
    (fs : Image) (file : FileObj) (m : Mem) (buf : ℕ) (nbytes : ℤ)
    → is_user_readable buf nbytes ≡ false
    → fs_file_read fs file m buf nbytes ≡ (minus_one, file, m)
unfolding fs_file_read is_user_writable
fs_file_read_refused fs file m buf nbytes h = rw h

-- For a file whose inode is out of range and a readable buffer, fs_file_read reports failure, and
-- moves the offset back by one although nothing was read.
pub fs_file_read_bad_inode :
    (fs : Image) (file : FileObj) (m : Mem) (buf n : ℕ)
    → fs.inode_count ≤ file.inode_idx
    → is_user_readable buf (pos n) ≡ true
    → fs_file_read fs file m buf (pos n)
      ≡ (minus_one, record file { offset = add_u32 file.offset (2 ^ 32 - 1) }, m)
unfolding fs_file_read is_user_writable read_data store
fs_file_read_bad_inode fs file m buf n h ok =
    let out : leb fs.inode_count file.inode_idx ≡ true = ground arith in rw (ok, out)

-- The run of `name` from index i that name_chars returns: it stops at a NUL or at `stop`.
record IsNameRun (name : Mem) (i stop : ℕ) (chars : List ℕ) : Type 0 where
  at : ℕ
  from : i ≤ at
  to : at ≤ stop
  solid : (k : ℕ) → i ≤ k → k < at → name k ≢ 0
  cut : at < stop → name at ≡ 0
  run : chars ≡ bytes name i (at - i)

name_chars-IsNameRun :
    (name : Mem) (i n stop : ℕ) → i + n ≡ stop → IsNameRun name i stop (name_chars name i n)
unfolding name_chars bytes
name_chars-IsNameRun name i zero stop e = record {
  at = i;
  from = omega arith;
  to = omega arith;
  solid = λ k l u. absurd (omega arith);
  cut = λ u. absurd (omega arith);
  run = let nothing : i - i ≡ 0 = omega arith in rw nothing;
}
name_chars-IsNameRun name i (suc n) stop e = elim (Bool-cases (name i == 0)) [
  | inl z ↦ record {
    at = i;
    from = omega arith;
    to = omega arith;
    solid = λ k l u. absurd (omega arith);
    cut = λ u. ground arith;
    run = let nothing : i - i ≡ 0 = omega arith in rw (z, nothing);
  }
  | inr nz ↦
      let r = name_chars-IsNameRun name (i + 1) n stop (omega arith) in
      record {
        at = r.at;
        from = omega (arith, r.from);
        to = r.to;
        solid = λ k l u. here_or_later nz k l (λ k'. r.solid k k' u) (ℕ_discrete k i);
        cut = r.cut;
        run =
            let count : r.at - i ≡ suc (r.at - (i + 1)) = omega (arith, r.from) in
            rw (nz, count) (ap (λ rest. name i ∷ rest) r.run);
      }
]
  where
    here_or_later :
        (name i == 0) ≡ false
        → (k : ℕ) → i ≤ k
        → (i + 1 ≤ k → name k ≢ 0)
        → Dec (k ≡ i)
        → name k ≢ 0
    here_or_later nz k l h (yes e) = rw e (λ z. absurd (ground arith))
    here_or_later nz k l h (no ne) = h (omega arith)

-- At an entry, a read of a directory stores the entry's name up to its NUL, cut to the buffer and to
-- 32 characters, returns its length, and moves on to the next entry.
pub record EntryRead (fs : Image) (file : FileObj) (m : Mem) (buf n : ℕ) : Type 0 where
  pub len : ℕ
  pub short : len ≤ min n max_fname_len
  pub solid : (k : ℕ) → k < len → (fs.dir_entries file.offset).name k ≢ 0
  pub cut : len < min n max_fname_len → (fs.dir_entries file.offset).name len ≡ 0
  pub result : fs_dir_read fs file m buf (pos n) ≡ (
    pos len,
    record file { offset = add_u32 file.offset 1 },
    store m buf (bytes (fs.dir_entries file.offset).name 0 len),
  )

-- For a buffer that is readable and an offset below the number of entries, fs_dir_read stores the
-- name of the entry up to its NUL, cut to the buffer and to 32 characters, returns its length, and
-- moves on to the next entry.
pub fs_dir_read-EntryRead :
    (fs : Image) (file : FileObj) (m : Mem) (buf n : ℕ)
    → is_user_readable buf (pos n) ≡ true
    → file.offset < fs.dentry_count
    → EntryRead fs file m buf n
unfolding fs_dir_read is_user_writable read_dentry_by_index
fs_dir_read-EntryRead fs file m buf n ok h =
    let name = (fs.dir_entries file.offset).name in
    let limit = if ltb max_fname_len n then max_fname_len else n in
    let there : leb fs.dentry_count file.offset ≡ false = ground arith in
    let clamp : limit ≡ min n max_fname_len = ground arith in
    let r = name_chars-IsNameRun name 0 limit limit (omega arith) in
    let count : r.at - 0 ≡ r.at = omega arith in
    let chars : name_chars name 0 limit ≡ bytes name 0 r.at = r.run ∙ ap (bytes name 0) count in
    record {
      len = r.at;
      short = omega (arith, r.to);
      solid = λ k u. r.solid k (omega arith) u;
      cut = λ u. r.cut (omega arith);
      result = rw (ok, there) (rw (chars, length-bytes name 0 r.at));
    }

-- Behind the last entry a read of a directory returns 0 and changes nothing.
pub fs_dir_read_end :
    (fs : Image) (file : FileObj) (m : Mem) (buf n : ℕ)
    → is_user_readable buf (pos n) ≡ true
    → fs.dentry_count ≤ file.offset
    → fs_dir_read fs file m buf (pos n) ≡ (pos 0, file, m)
unfolding fs_dir_read is_user_writable read_dentry_by_index
fs_dir_read_end fs file m buf n ok h =
    let past : leb fs.dentry_count file.offset ≡ true = ground arith in rw (ok, past)
