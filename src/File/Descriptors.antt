-- ===== src/File/Descriptors.antt =====
-- Which descriptors student-distrib/file.c gives out and takes back.
use loli_os.Prelude.{
  ℕ, zero, suc, ◌+◌, ◌≤◌, ◌<◌, ◌≡◌, refl, sym, ap, ◌∙◌, ◌≢◌, ◌⊎◌, inl, inr, true, false, Option,
  none, some, arith, ℕ_discrete, leb, ◌==◌, if◌then◌else◌, Bool-cases, Option-cases, ℤ, pos,
  minus_one, add_u32,
}
use loli_os.FileObj.{
  FileObj, FileOps, fops_stdin, fops_stdout, fops_file, fops_dir, fops_rtc, fops_mouse,
}
use loli_os.FileSystem.{
  Image, Dentry, read_dentry_by_name, ftype_rtc, ftype_dir, ftype_file, ftype_mouse,
}
use loli_os.FileSystem.Syscalls.{fs_open, fs_close}
use loli_os.Memory.{is_user_readable_string}
use loli_os.Memory.Bytes.{Mem}
use loli_os.Paging.{update}
use loli_os.Rtc.{open_rtc}
use loli_os.File.{
  max_files, init_file_obj, call_open, call_close, file_init, init_from, get_file_obj, open_at,
  open_from, file_open, file_close,
}

-- The operations of a descriptor by the type of its entry: the clock, the directory, files and the
-- mouse, as in file.c; there are no others.
abbrev pub ops_of_type : ℕ → Option FileOps
ops_of_type type =
    if type == ftype_rtc
    then some fops_rtc
    else if type == ftype_dir
    then some fops_dir
    else if type == ftype_file
    then some fops_file
    else if type == ftype_mouse
    then some fops_mouse
    else none

-- What is opened for an entry whose operations are `ops`: a file has its inode, and the clock the
-- frequency 2 at the place of the offset.
abbrev pub opened_for : FileOps → Dentry → FileObj
opened_for fops_file dentry = record {
  ops_table = fops_file;
  inode_idx = dentry.inode_idx;
  offset = 0;
  valid = true;
}
opened_for fops_rtc dentry = record {
  ops_table = fops_rtc;
  inode_idx = 0;
  offset = 2;
  valid = true;
}
opened_for ops dentry = record { ops_table = ops; inode_idx = 0; offset = 0; valid = true }

-- Why an open fails: the name is no string of the user memory, all descriptors from 2 on are in use, no
-- entry has the name, or the entry has an unknown type.
pub data Refusal (img : Image) (m : Mem) (files : ℕ → FileObj) (filename : ℕ) : Type 0 where
  bad_string : is_user_readable_string m filename ≡ false → Refusal img m files filename
  all_used :
      ((j : ℕ) → 2 ≤ j → j < max_files → (files j).valid ≡ true) → Refusal img m files filename
  no_entry :
      read_dentry_by_name img (λ i. m (add_u32 filename i)) ≡ none → Refusal img m files filename
  unknown_type :
      (dentry : Dentry)
      → read_dentry_by_name img (λ i. m (add_u32 filename i)) ≡ some dentry
      → ops_of_type dentry.type ≡ none
      → Refusal img m files filename

-- What file_open does: for a readable name of an entry of a known type it gives out the first free
-- descriptor from 2 on, with what is opened for the entry, and changes no other; or it is refused, and
-- changes no descriptor that is open.
pub data Opened (img : Image) (m : Mem) (files : ℕ → FileObj) (filename : ℕ)
    : ℤ × (ℕ → FileObj) → Type 0 where
  opened :
      {i : ℕ} {files' : ℕ → FileObj} (dentry : Dentry) (ops : FileOps)
      → is_user_readable_string m filename ≡ true
      → read_dentry_by_name img (λ i. m (add_u32 filename i)) ≡ some dentry
      → ops_of_type dentry.type ≡ some ops
      → 2 ≤ i
      → i < max_files
      → (files i).valid ≡ false
      → ((j : ℕ) → 2 ≤ j → j < i → (files j).valid ≡ true)
      → files' i ≡ opened_for ops dentry
      → ((j : ℕ) → j ≢ i → files' j ≡ files j)
      → Opened img m files filename (pos i, files')
  failed :
      {files' : ℕ → FileObj}
      → Refusal img m files filename
      → ((j : ℕ) → (files j).valid ≡ true → files' j ≡ files j)
      → ((j : ℕ) → (files' j).valid ≡ (files j).valid)
      → Opened img m files filename (minus_one, files')

-- What init_file_obj and the operation open make of a descriptor.
init_file_obj_cases :
    (file : FileObj) (dentry : Dentry)
    → ((ops : FileOps) × (ops_of_type dentry.type ≡ some ops)
        × ((init_file_obj file dentry).0 ≡ true)
        × (let f = (init_file_obj file dentry).1 in
            call_open f.ops_table f ≡ (pos 0, opened_for ops dentry)))
      ⊎ ((ops_of_type dentry.type ≡ none)
          × ((init_file_obj file dentry).0 ≡ false)
          × ((init_file_obj file dentry).1.valid ≡ file.valid))
unfolding init_file_obj call_open fs_open open_rtc
init_file_obj_cases file dentry = elim (Bool-cases (dentry.type == ftype_rtc)) [
  | inl e ↦ rw e (inl (fops_rtc, refl, refl, refl))
  | inr rtc ↦ elim (Bool-cases (dentry.type == ftype_dir)) [
    | inl e ↦ rw (rtc, e) (inl (fops_dir, refl, refl, refl))
    | inr dir ↦ elim (Bool-cases (dentry.type == ftype_file)) [
      | inl e ↦ rw (rtc, dir, e) (inl (fops_file, refl, refl, refl))
      | inr file_ ↦ elim (Bool-cases (dentry.type == ftype_mouse)) [
        | inl e ↦ rw (rtc, dir, file_, e) (inl (fops_mouse, refl, refl, refl))
        | inr e ↦ rw (rtc, dir, file_, e) (inr (refl, refl, refl))
      ]
    ]
  ]
]

update_other : (files : ℕ → FileObj) (i j : ℕ) (f : FileObj) → j ≢ i → update files i f j ≡ files j
update_other files i j f ne = let other : (j == i) ≡ false = ground (arith, ne) in rw other refl

update_self : (files : ℕ → FileObj) (i : ℕ) (f : FileObj) → update files i f i ≡ f
update_self files i f = let self : (i == i) ≡ true = ground arith in rw self refl

update_valid :
    (files : ℕ → FileObj) (i j : ℕ) (f : FileObj)
    → f.valid ≡ (files i).valid
    → (update files i f j).valid ≡ (files j).valid
update_valid files i j f e = elim (ℕ_discrete i j) [
  | yes at ↦
      let self : (j == i) ≡ true = ground (arith, at) in rw self (e ∙ ap (λ k. (files k).valid) at)
  | no ne ↦ let other : (j == i) ≡ false = ground (arith, ne) in rw other refl
]

valid_ne :
    (files : ℕ → FileObj) (i j : ℕ) → (files i).valid ≡ false → (files j).valid ≡ true → j ≢ i
valid_ne files i j free used e = true_ne_false (sym used ∙ ap (λ k. (files k).valid) e ∙ free)
  where
    true_ne_false : true ≢ false
    true_ne_false h = ground (arith, h)

module _ (img : Image) (m : Mem) (filename : ℕ) where
  open_at-Opened :
      (files : ℕ → FileObj) (i : ℕ)
      → is_user_readable_string m filename ≡ true
      → 2 ≤ i
      → i < max_files
      → (files i).valid ≡ false
      → ((j : ℕ) → 2 ≤ j → j < i → (files j).valid ≡ true)
      → Opened img m files filename (open_at img (λ i. m (add_u32 filename i)) files i)
  unfolding open_at
  open_at-Opened files i ok lo hi free before =
      let name : Mem = λ i. m (add_u32 filename i) in
      elim (Option-cases (read_dentry_by_name img name)) [
        | inl missing ↦ rw (open_at, missing) (failed (no_entry missing) (λ j h. refl) (λ j. refl))
        | inr (dentry, there) ↦
            let file = (init_file_obj (files i) dentry).1 in
            elim (init_file_obj_cases (files i) dentry) [
              | inl (ops, of_type, known, done) ↦
                  rw (open_at, there, known, done)
                    (opened dentry ops ok there of_type lo hi free before
                      (update_self files i (opened_for ops dentry))
                      (λ j ne. update_other files i j (opened_for ops dentry) ne))
              | inr (of_type, unknown, as_before) ↦
                  rw (open_at, there, unknown)
                    (failed (unknown_type dentry there of_type)
                      (λ j h. update_other files i j file (valid_ne files i j free h))
                      (λ j. update_valid files i j file as_before))
            ]
      ]

  open_from-Opened :
      (files : ℕ → FileObj) (i n : ℕ)
      → is_user_readable_string m filename ≡ true
      → 2 ≤ i
      → i + n ≡ max_files
      → ((j : ℕ) → 2 ≤ j → j < i → (files j).valid ≡ true)
      → Opened img m files filename (open_from img (λ i. m (add_u32 filename i)) files i n)
  unfolding open_from
  open_from-Opened files i zero ok lo total before =
      failed (all_used (λ j l h. before j l (omega (arith, total, h)))) (λ j h. refl) (λ j. refl)
  open_from-Opened files i (suc n) ok lo total before = elim (Bool-cases (files i).valid) [
    | inr free ↦ rw free (open_at-Opened files i ok lo (omega arith) free before)
    | inl used ↦ rw used (
        open_from-Opened files (i + 1) n ok (omega arith) (omega arith) (λ j l h.
          elim (ℕ_discrete j i) [
            | yes at ↦ ap (λ k. (files k).valid) at ∙ used
            | no ne ↦ before j l (omega (arith, h, ne))
          ]))
  ]

-- Where the name is a readable string that names an entry of a known type, and a descriptor from 2
-- on is free, file_open gives out the first such descriptor, with the operations of that type, the
-- inode of a file, the offset 0, or the frequency 2 for the clock, and changes no other. It fails
-- only if the string is bad, all descriptors are used, no entry has the name or the type is
-- unknown, and then every valid descriptor is unchanged and no other becomes valid.
pub file_open-Opened :
    (img : Image) (m : Mem) (files : ℕ → FileObj) (filename : ℕ)
    → Opened img m files filename (file_open img m files filename)
unfolding file_open
file_open-Opened img m files filename = elim (Bool-cases (is_user_readable_string m filename)) [
  | inr bad ↦ rw (file_open, bad) (failed (bad_string bad) (λ j h. refl) (λ j. refl))
  | inl ok ↦
      rw (file_open, ok)
        (open_from-Opened img m filename files 2 6 ok (omega arith) refl
          (λ j l h. absurd (omega (arith, l, h))))
]

call_close_lem :
    (ops : FileOps) (file : FileObj)
    → ops ≢ fops_stdin
    → ops ≢ fops_stdout
    → (call_close ops file).0 ≡ pos 0
unfolding call_close fs_close
call_close_lem fops_stdin file not_in not_out = absurd (not_in refl)
call_close_lem fops_stdout file not_in not_out = absurd (not_out refl)
call_close_lem fops_file file not_in not_out = refl
call_close_lem fops_dir file not_in not_out = refl
call_close_lem fops_rtc file not_in not_out = refl
call_close_lem fops_mouse file not_in not_out = refl

-- Closing a valid descriptor that is not a console file succeeds and frees it, and no other
-- descriptor changes.
pub file_close_lem :
    (files : ℕ → FileObj) (i : ℕ)
    → i < max_files
    → (files i).valid ≡ true
    → (files i).ops_table ≢ fops_stdin
    → (files i).ops_table ≢ fops_stdout
    → ((file_close files (pos i)).0 ≡ pos 0)
      × (get_file_obj (file_close files (pos i)).1 (pos i) ≡ none)
      × ((j : ℕ) → j ≢ i → (file_close files (pos i)).1 j ≡ files j)
unfolding file_close get_file_obj
file_close_lem files i h open_i not_in not_out =
    let in_i : leb max_files i ≡ false = ground (arith, h) in
    let self : (i == i) ≡ true = ground arith in
    let done = call_close_lem (files i).ops_table (files i) not_in not_out in
    (
      rw (file_close, get_file_obj, in_i, open_i, done) refl,
      rw (file_close, get_file_obj, in_i, open_i, done, self) refl,
      λ j ne.
          let other : (j == i) ≡ false = ground (arith, ne) in
          rw (file_close, get_file_obj, in_i, open_i, done, other) refl,
    )

-- The console descriptors of a new process cannot be closed.
pub file_close-file_init :
    (files : ℕ → FileObj) (i : ℕ) → i < 2 → (file_close (file_init files) (pos i)).0 ≡ minus_one
unfolding file_close get_file_obj call_close file_init init_from
file_close-file_init files zero h = refl
file_close-file_init files (suc zero) h = refl
file_close-file_init files (suc (suc i)) h = absurd (omega (arith, h))
