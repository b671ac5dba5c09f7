-- ===== src/File/Reading.antt =====
-- What file_read of student-distrib/file.c does with a descriptor of a regular file.
use loli_os.Prelude.{
  ℕ, ◌+◌, ◌^◌, ◌<◌, min, ◌≡◌, refl, ap, ◌∙◌, ◌≢◌, true, false, some, arith, leb, pos,
}
use loli_os.Memory.Access.{InUserPage}
use loli_os.Memory.Bytes.{Mem, store}
use loli_os.FileObj.{FileObj, fops_file}
use loli_os.FileSystem.{Image}
use loli_os.FileSystem.Spec.{contents}
use loli_os.FileSystem.Reads.{IsOpenFile, left, fs_file_read_lem}
use loli_os.Terminal.Console.{Console}
use loli_os.File.{max_files, get_file_obj}
use loli_os.File.Transfer.{Looks, Transfer, call_read, after_transfer, of_read, file_read}
use loli_os.Process.Context.{Kernel}

pub known_file :
    (files : ℕ → FileObj) (fd : ℕ)
    → fd < max_files
    → (files fd).valid ≡ true
    → get_file_obj files (pos fd) ≡ some fd
unfolding get_file_obj
known_file files fd h valid =
    let inside : leb max_files fd ≡ false = ground (arith, h) in
    rw (get_file_obj, inside, valid) refl

-- What a read of c bytes leaves: the bytes in the buffer and the file behind them; the other
-- descriptors and the other processes are as before.
pub record Advanced (fs : Image) (k k' : Kernel) (curr fd buf c : ℕ) : Type 0 where
  pub page : k'.pages curr ≡ (
      let f = (k.table curr).files fd in
      store (k.pages curr) buf (contents fs (fs.inode f.inode_idx) f.offset c))
  pub file :
      (k'.table curr).files fd
      ≡ (let f = (k.table curr).files fd in record f { offset = f.offset + c })
  pub others : (j : ℕ) → j ≢ fd → (k'.table curr).files j ≡ (k.table curr).files j
  pub signals : (k'.table curr).signals ≡ (k.table curr).signals
  pub processes : (j : ℕ) → j ≢ curr → k'.table j ≡ k.table j
  pub pages : (j : ℕ) → j ≢ curr → k'.pages j ≡ k.pages j
  pub console : k'.console ≡ k.console

-- What the read of c bytes of a file gives.
abbrev transferred : Image → Console → FileObj → Mem → ℕ → ℕ → Transfer
transferred fs s f m buf c = record {
  value = pos c;
  file = record f { offset = f.offset + c };
  page = store m buf (contents fs (fs.inode f.inode_idx) f.offset c);
  console = s;
}

call_read-file :
    (fs : Image) (looks : Looks) (s : Console) (f : FileObj) (m : Mem) (i buf n : ℕ)
    → f.ops_table ≡ fops_file
    → IsOpenFile fs f
    → buf < 2 ^ 32
    → n < 2 ^ 31
    → InUserPage buf n
    → call_read fs looks s f.ops_table f m i buf (pos n)
      ≡ some (transferred fs s f m buf (min n (left fs f)))
unfolding call_read
call_read-file fs looks s f m i buf n ops ready hb hn page =
    ap (λ o. call_read fs looks s o f m i buf (pos n)) ops
    ∙ ap (λ r. some (of_read s r)) (fs_file_read_lem fs f m buf n ready hb hn page).0

after_transfer-Advanced :
    (fs : Image) (k : Kernel) (curr fd buf c : ℕ)
    → Advanced fs k
        (after_transfer k curr fd
          (transferred fs k.console ((k.table curr).files fd) (k.pages curr) buf c)).1
        curr
        fd
        buf
        c
after_transfer-Advanced fs k curr fd buf c = record {
  page = ground arith;
  file = ground arith;
  others = λ j ne. ground (arith, ne);
  signals = ground arith;
  processes = λ j ne. ground (arith, ne);
  pages = λ j ne. ground (arith, ne);
  console = refl;
}

-- For a valid descriptor of a regular file, whose offset is inside of it, and a buffer in the user
-- page, file_read returns as many bytes as are asked for and left, stores the bytes of the file at
-- its offset in the memory of the executing process, and advances the offset by their number; no
-- other descriptor, process or page changes.
pub file_read-Advanced :
    (fs : Image) (looks : Looks) (k : Kernel) (curr i fd buf n : ℕ)
    → fd < max_files
    → ((k.table curr).files fd).valid ≡ true
    → ((k.table curr).files fd).ops_table ≡ fops_file
    → IsOpenFile fs ((k.table curr).files fd)
    → buf < 2 ^ 32
    → n < 2 ^ 31
    → InUserPage buf n
    → (k' : Kernel) × (file_read fs looks k curr i (pos fd) buf (pos n)
        ≡ some (pos (min n (left fs ((k.table curr).files fd))), k'))
      × Advanced fs k k' curr fd buf (min n (left fs ((k.table curr).files fd)))
unfolding file_read
file_read-Advanced fs looks k curr i fd buf n h valid ops ready hb hn page =
    let f = (k.table curr).files fd in
    let known = known_file (k.table curr).files fd h valid in
    let done = call_read-file fs looks k.console f (k.pages curr) i buf n ops ready hb hn page in
    (
      _,
      rw (file_read, known, done) refl,
      after_transfer-Advanced fs k curr fd buf (min n (left fs f)),
    )
