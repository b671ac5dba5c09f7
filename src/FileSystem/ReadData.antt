-- ===== src/FileSystem/ReadData.antt =====
-- read_data of student-distrib/filesys.c: the loop over the blocks against the flat contents.
use loli_os.Prelude.{
  ℕ, zero, suc, ◌+◌, ◌-◌, ◌*◌, ◌/◌, ◌%◌, ◌^◌, ◌≤◌, ◌<◌, min, ◌≡◌, ap, ap₂, ◌∙◌, ◌⊎◌, inl, inr, ◌||◌,
  none, some, arith, ℕ_discrete, ltb, leb, ◌==◌, if◌then◌else◌, Bool-cases, add_u32, sub_u32,
}
use loli_os.Memory.Bytes.{bytes, bytes_join, bytes_ext}
use loli_os.FileSystem.{copy_range, read_data, Image, Inode, block_size, block_part, copy_blocks}
use loli_os.FileSystem.Spec.{file_byte, contents}

-- Bytes inside one block are bytes of the file.
in_block :
    (fs : Image) (inode : Inode) (i start n : ℕ)
    → start + n ≤ block_size
    → bytes (fs.data_block (inode.data_blocks i)) start n
      ≡ bytes (file_byte fs inode) (i * block_size + start) n
unfolding file_byte
in_block fs inode i start n h = bytes_ext _ _ start (i * block_size + start) n λ k hk.
    let b : (i * block_size + start + k) / block_size ≡ i = omega arith in
    let o : (i * block_size + start + k) % block_size ≡ start + k = omega arith in
    rw (b, o, file_byte)

-- The file offset at which the copy of block i starts, and the one at which it ends.
abbrev block_start : ℕ → ℕ → ℕ → ℕ
block_start first fo i = i * block_size + (if i == first then fo else 0)

abbrev block_end : ℕ → ℕ → ℕ → ℕ
block_end last lo i = i * block_size + (if i == last then lo else block_size)

module _ (fs : Image) (inode : Inode) (first fo last lo : ℕ) (hf : fo < block_size) where
  block_part_lem :
      (i : ℕ)
      → lo < block_size
      → block_start first fo i ≤ block_end last lo i
      → block_part fs inode first fo last lo i
        ≡ bytes
            (file_byte fs inode)
            (block_start first fo i)
            (block_end last lo i - block_start first fo i)
  unfolding block_part
  block_part_lem i hl h =
      let start = if i == first then fo else 0 in
      let stop = if i == last then lo else block_size in
      let count : sub_u32 stop start ≡ stop - start = ground arith in
      let difference : block_end last lo i - block_start first fo i ≡ stop - start = omega arith in
      rw (count, difference) (in_block fs inode i start (stop - start) (ground arith))

  -- From block i on, the loop copies the bytes up to the end of the last block's part.
  copy_blocks_lem :
      (i n : ℕ)
      → lo < block_size
      → first ≤ i
      → i + n ≡ last + 1
      → ((i ≡ first) → block_start first fo i ≤ last * block_size + lo)
      → copy_blocks fs inode first fo last lo i n
        ≡ bytes
            (file_byte fs inode)
            (block_start first fo i)
            (last * block_size + lo - block_start first fo i)
  unfolding copy_blocks bytes
  copy_blocks_lem i zero hl hi e o =
      let none_left : last * block_size + lo - block_start first fo i ≡ 0 = ground arith in
      rw none_left
  copy_blocks_lem i (suc n) hl hi e o =
      let ih =
        copy_blocks_lem (i + 1) n hl (omega arith) (omega arith) (λ h. absurd (omega arith)) in
      let part = block_part_lem i hl (ground (arith, o)) in
      let limit = last * block_size + lo in
      rw (part, ih)
        (bytes_join (file_byte fs inode) (block_start first fo i) (block_end last lo i) limit
          (block_start first fo (i + 1)) (ground (arith, o)) (ground arith)
          (next_start (ℕ_discrete i last)))
    where
      next_start :
          Dec (i ≡ last)
          → (block_start first fo (i + 1) ≡ block_end last lo i)
            ⊎ ((block_end last lo i ≡ last * block_size + lo)
                × (last * block_size + lo ≤ block_start first fo (i + 1)))
      next_start (yes h) = inr (ground arith, ground arith)
      next_start (no h) = inl (ground arith)

-- The loop as a whole copies the range that it is given, if the range does not wrap.
copy_range_lem :
    (fs : Image) (inode : Inode) (offset n : ℕ)
    → offset + n < 2 ^ 32
    → copy_range fs inode offset n ≡ contents fs inode offset n
unfolding copy_range contents
copy_range_lem fs inode offset n h =
    let last = (offset + n) / block_size in
    let lo = (offset + n) % block_size in
    let first = offset / block_size in
    let fo = offset % block_size in
    let no_wrap : add_u32 offset n ≡ offset + n = omega arith in
    let start : block_start first fo first ≡ offset = ground arith in
    let count : last * block_size + lo - offset ≡ n = omega arith in
    rw no_wrap (
      copy_blocks_lem fs inode first fo last lo (omega arith) first (last + 1 - first) (omega arith)
        (omega arith) (omega arith) (λ _. omega (arith, start))
      ∙ ap₂ (bytes (file_byte fs inode)) start (ap (λ s. last * block_size + lo - s) start ∙ count))

-- For a file size and a length that fit 32 bits, read_data fails exactly for an inode out of range
-- and for an offset past the end of the file, and otherwise returns as many bytes as are asked for
-- and left, which are the bytes of the file from that offset on, gathered over its blocks.
pub read_data_lem :
    (fs : Image) (inode offset n : ℕ)
    → (fs.inode inode).size < 2 ^ 32
    → n < 2 ^ 32
    → read_data fs inode offset n ≡ (
        if leb fs.inode_count inode || ltb (fs.inode inode).size offset
        then none
        else some (
          min n ((fs.inode inode).size - offset),
          contents fs (fs.inode inode) offset (min n ((fs.inode inode).size - offset)),
        ))
unfolding read_data
read_data_lem fs inode offset n hs hn = elim (Bool-cases (leb fs.inode_count inode)) [
  | inl bad ↦ rw bad
  | inr good ↦ elim (Bool-cases (ltb (fs.inode inode).size offset)) [
    | inl past ↦ rw (good, past)
    | inr inside ↦
        let size = (fs.inode inode).size in
        let left : sub_u32 size offset ≡ size - offset = ground arith in
        let count : (if ltb (size - offset) n then size - offset else n) ≡ min n (size - offset) =
          ground arith in
        rw (good, inside, left, count)
          (rw (copy_range_lem fs (fs.inode inode) offset (min n (size - offset)) (ground arith)))
  ]
]
