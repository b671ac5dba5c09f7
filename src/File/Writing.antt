-- ===== src/File/Writing.antt =====
-- What file_write of student-distrib/file.c does with a descriptor of the terminal's output.
use loli_os.Prelude.{
  ℕ, ◌+◌, ◌*◌, ◌^◌, ◌≤◌, ◌<◌, ◌≡◌, refl, sym, ap, subst, ◌∙◌, inl, inr, true, false, some, arith,
  leb, ◌==◌, if◌then◌else◌, ==_iff, Bool-cases, ℤ, pos,
}
use loli_os.Memory.Access.{InUserPage}
use loli_os.Memory.Bytes.{Mem, bytes, bytes_ext}
use loli_os.FileObj.{FileObj, fops_stdout}
use loli_os.Memory.{user_page_start}
use loli_os.Terminal.{Terminal, num_terminals, video_mem_size}
use loli_os.Terminal.Console.{Console}
use loli_os.Terminal.Pages.{Page}
use loli_os.Terminal.Screen.{Shows}
use loli_os.Terminal.Reads.Writing.{show_chars, Stays, Printed, stdout_write-Printed}
use loli_os.File.{max_files}
use loli_os.File.Reading.{known_file}
use loli_os.File.Transfer.{
  call_write, after_transfer, unchanged, with_page, write_stdout, file_write,
}
use loli_os.Process.Context.{Kernel}

-- The video page of a terminal lies below the user page.
abbrev pub BelowUser : Terminal → Type 0
BelowUser t = t.video_mem + video_mem_size ≤ user_page_start

-- A page that a terminal shows does not depend on the user page.
with_page-Shows :
    (s : Console) (m : Mem) (t : Terminal) (g : Page)
    → BelowUser t
    → Shows s.mem t g
    → Shows (with_page s m).mem t g
with_page-Shows s m t g below shown = record {
  logical = shown.logical;
  column = shown.column;
  at_row = shown.at_row;
  column_in = shown.column_in;
  row_in = shown.row_in;
  cells = λ r c hr hc.
      let low : leb user_page_start (t.video_mem + 160 * r + 2 * c) ≡ false =
        ground (arith, below, hr, hc) in
      rw low (shown.cells r c hr hc);
}

with_page-bytes :
    (s : Console) (m : Mem) (buf n : ℕ)
    → InUserPage buf n
    → bytes (with_page s m).mem buf n ≡ bytes m buf n
with_page-bytes s m buf n page =
    let from = page.from in
    let to = page.to in
    bytes_ext (with_page s m).mem m buf buf n (λ i hi. ground (arith, from, to, hi))

-- What the terminal prints while the user page stands in the memory.
with_page-Printed :
    (s r : Console) (m : Mem) (i : ℕ) (g : Page)
    → BelowUser (s.states i)
    → Printed (with_page s m) i g r
    → Printed s i g (with_page r s.mem)
with_page-Printed s r m i g below a = record {
  shows =
      with_page-Shows r s.mem (r.states i) g
        (subst (λ v. v + video_mem_size ≤ user_page_start) (sym a.place) below) a.shows;
  outside = λ p out. let same = a.outside p out in ground (arith, same);
  others = a.others;
  input = a.input;
  place = a.place;
  display = a.display;
}

-- The kernel after a write to the terminal: terminal i shows the page, and the processes, their
-- descriptors and their memory are as before.
pub record Wrote (k k' : Kernel) (i : ℕ) (g : Page) : Type 0 where
  pub printed : Printed k.console i g k'.console
  pub table : (j : ℕ) → k'.table j ≡ k.table j
  pub pages : (j : ℕ) → k'.pages j ≡ k.pages j

write_stdout-Printed :
    (s : Console) (f : FileObj) (m : Mem) (d i src n : ℕ) (g : Page)
    → s.display_terminal ≡ pos d
    → d < num_terminals
    → BelowUser (s.states i)
    → Shows s.mem (s.states i) g
    → src < 2 ^ 32
    → n < 2 ^ 31
    → InUserPage src n
    → Stays g (bytes m src n)
    → (s' : Console) × (write_stdout s f m i src (pos n) ≡ some (unchanged f m s' (pos n)))
      × Printed s i (show_chars g (bytes m src n)) s'
unfolding write_stdout
write_stdout-Printed s f m d i src n g display hd below shown hs hn page h =
    let same = with_page-bytes s m src n page in
    let (r, wrote, printed) =
      stdout_write-Printed (with_page s m) d i src n g display hd (omega (arith, below))
        (with_page-Shows s m (s.states i) g below shown) hs hn page
        (subst (Stays g) (sym same) h) in
    (
      with_page r s.mem,
      rw wrote refl,
      subst (λ cs. Printed s i (show_chars g cs) (with_page r s.mem)) same
          (with_page-Printed s r m i (show_chars g (bytes (with_page s m).mem src n)) below
            printed),
    )

after_transfer-Wrote :
    (k : Kernel) (curr fd i : ℕ) (s : Console) (value : ℤ) (g : Page)
    → Printed k.console i g s
    → Wrote k
        (after_transfer k curr fd (unchanged ((k.table curr).files fd) (k.pages curr) s value)).1
        i
        g
after_transfer-Wrote k curr fd i s value g printed = record {
  printed = printed;
  table = λ j. same_entry j;
  pages = λ j. ground arith;
}
  where
    same_files :
        (j : ℕ)
        → (if fd == j then (k.table curr).files fd else (k.table curr).files j)
          ≡ (k.table curr).files j
    same_files j = ground arith

    same_entry :
        (j : ℕ)
        → (if curr == j
            then record (k.table curr) {
              files = λ n. if fd == n then (k.table curr).files fd else (k.table curr).files n;
            }
            else k.table j)
          ≡ k.table j
    same_entry j = elim (Bool-cases (curr == j)) [
      | inl e ↦
          let same : curr ≡ j = (==_iff curr j).0 e in
          rw e (
            ap (λ files. record (k.table curr) { files = files }) (λ t j. same_files j t)
            ∙ ap k.table same)
      | inr e ↦ rw e refl
    ]

-- For a valid descriptor of the terminal's output and a buffer in the user page, whose characters stay
-- on the page that the terminal shows, file_write returns n and prints the characters; no process,
-- descriptor or user memory changes.
pub file_write-Wrote :
    (k : Kernel) (curr d i fd src n : ℕ) (g : Page)
    → fd < max_files
    → ((k.table curr).files fd).valid ≡ true
    → ((k.table curr).files fd).ops_table ≡ fops_stdout
    → k.console.display_terminal ≡ pos d
    → d < num_terminals
    → BelowUser (k.console.states i)
    → Shows k.console.mem (k.console.states i) g
    → src < 2 ^ 32
    → n < 2 ^ 31
    → InUserPage src n
    → Stays g (bytes (k.pages curr) src n)
    → (k' : Kernel) × (file_write k curr i (pos fd) src (pos n) ≡ some (pos n, k'))
      × Wrote k k' i (show_chars g (bytes (k.pages curr) src n))
unfolding file_write call_write
file_write-Wrote k curr d i fd src n g h valid ops display hd below shown hs hn page stays =
    let f = (k.table curr).files fd in
    let known = known_file (k.table curr).files fd h valid in
    let (s', wrote, printed) =
      write_stdout-Printed k.console f (k.pages curr) d i src n g display hd below shown hs hn page
        stays in
    let done : call_write k.console f.ops_table f (k.pages curr) i src (pos n)
        ≡ some (unchanged f (k.pages curr) s' (pos n)) =
      ap (λ o. call_write k.console o f (k.pages curr) i src (pos n)) ops ∙ wrote in
    (
      _,
      rw (file_write, known, done) refl,
      after_transfer-Wrote k curr fd i s' (pos n) (show_chars g (bytes (k.pages curr) src n))
          printed,
    )
