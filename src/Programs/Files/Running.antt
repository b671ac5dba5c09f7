-- ===== src/Programs/Files/Running.antt =====
-- The program syscalls/ece391cat.c on the kernel of student-distrib/: its system calls are those of the
-- kernel's state.
use Prim.Native.String.{String}
use loli_os.Prelude.{
  ℕ, ◌+◌, ◌-◌, ◌*◌, ◌^◌, ◌≤◌, ◌<◌, min, ◌≡◌, refl, sym, ap, subst, ◌∙◌, ◌≢◌, true, some, [], arith,
  pos,
}
use loli_os.Memory.Access.{InUserPage}
use loli_os.Memory.Bytes.{bytes, store, bytes-store, length-bytes}
use loli_os.FileObj.{fops_file, fops_stdout}
use loli_os.FileSystem.Reads.{IsOpenFile}
use loli_os.FileSystem.Spec.{file_byte, contents}
use loli_os.Terminal.{num_terminals, video_mem_size, backspace}
use loli_os.Memory.{user_page_start}
use loli_os.Terminal.Pages.{Page}
use loli_os.Terminal.Screen.{Shows}
use loli_os.Terminal.Reads.Writing.{
  show_chars, NoBackspace, show_chars-append, NoBackspace-Stays, bytes-NoBackspace,
}
use loli_os.File.{max_files, file_open}
use loli_os.File.Transfer.{file_read, file_write}
use loli_os.File.Reading.{Advanced, file_read-Advanced}
use loli_os.File.Writing.{BelowUser, Wrote, file_write-Wrote}
use loli_os.Process.Context.{Kernel}
use loli_os.Syscalls.{World, with_page, with_files, call_getargs}
use loli_os.Programs.Calls.{Calls, Copying}
use loli_os.Programs.Files.{cat_main}
use loli_os.Programs.Files.Cat.{cat_main-prints}

-- The system calls of process `curr` on terminal t.
abbrev pub on_kernel : World → ℕ → ℕ → (String → ℕ) → Calls Kernel
on_kernel w curr t literal = record {
  mem = λ k. k.pages curr;
  with_mem = λ k m. with_page k curr m;
  literal = literal;
  getargs = λ k buf n. some (call_getargs k curr buf n);
  open_file =
      λ k name. some (with_files k curr (file_open w.fs (k.pages curr) (k.table curr).files name));
  read = λ k fd buf n. file_read w.fs w.looks k curr t fd buf n;
  write = λ k fd buf n. file_write k curr t fd buf n;
}

-- The descriptor fd reads the file of an inode, descriptor 1 is the terminal's output, and terminal d is
-- displayed.
pub record CanCopy (w : World) (curr t fd inode : ℕ) (k : Kernel) : Type 0 where
  pub fd_in : fd < max_files
  pub apart : 1 ≢ fd
  pub valid : ((k.table curr).files fd).valid ≡ true
  pub ops : ((k.table curr).files fd).ops_table ≡ fops_file
  pub file : IsOpenFile w.fs ((k.table curr).files fd)
  pub same_inode : ((k.table curr).files fd).inode_idx ≡ inode
  pub out_valid : ((k.table curr).files 1).valid ≡ true
  pub out_ops : ((k.table curr).files 1).ops_table ≡ fops_stdout
  pub displayed : ℕ
  pub display : k.console.display_terminal ≡ pos displayed
  pub display_in : displayed < num_terminals
  pub below : BelowUser (k.console.states t)

abbrev pub offset_of : ℕ → ℕ → Kernel → ℕ
offset_of curr fd k = ((k.table curr).files fd).offset

abbrev pub OnTerminal : ℕ → Kernel → Page → Type 0
OnTerminal t k g = Shows k.console.mem (k.console.states t) g

module _ (w : World) (curr t fd inode buf : ℕ) (literal : String → ℕ) (hb : buf < 2 ^ 32)
    (page : InUserPage buf 1024) where
  after_read-CanCopy :
      (k k' : Kernel) (c : ℕ)
      → CanCopy w curr t fd inode k
      → c ≤ (w.fs.inode inode).size - offset_of curr fd k
      → Advanced w.fs k k' curr fd buf c
      → CanCopy w curr t fd inode k'
  after_read-CanCopy k k' c r hc a =
      let same = r.same_inode in
      let here = sym a.file in
      let there = sym (a.others 1 r.apart) in
      let console = sym a.console in
      let inode_in = r.file.inode_in in
      let small = r.file.small in
      let inside = r.file.inside in
      record {
        fd_in = r.fd_in;
        apart = r.apart;
        valid = subst (λ f. f.valid ≡ true) here r.valid;
        ops = subst (λ f. f.ops_table ≡ fops_file) here r.ops;
        file = subst (IsOpenFile w.fs) here (record {
          inode_in = inode_in;
          small = small;
          inside =
              let bound =
                subst (λ i. c ≤ (w.fs.inode i).size - offset_of curr fd k) (sym same) hc in
              omega (arith, bound, inside);
        });
        same_inode = subst (λ f. f.inode_idx ≡ inode) here same;
        out_valid = subst (λ f. f.valid ≡ true) there r.out_valid;
        out_ops = subst (λ f. f.ops_table ≡ fops_stdout) there r.out_ops;
        displayed = r.displayed;
        display = subst (λ s. s.display_terminal ≡ pos r.displayed) console r.display;
        display_in = r.display_in;
        below = subst (λ s. BelowUser (s.states t)) console r.below;
      }

  after_write-CanCopy :
      (k k' : Kernel) (g : Page)
      → CanCopy w curr t fd inode k
      → Wrote k k' t g
      → CanCopy w curr t fd inode k'
  after_write-CanCopy k k' g r a =
      let table = sym (a.table curr) in
      record {
        fd_in = r.fd_in;
        apart = r.apart;
        valid = subst (λ p. (p.files fd).valid ≡ true) table r.valid;
        ops = subst (λ p. (p.files fd).ops_table ≡ fops_file) table r.ops;
        file = subst (λ p. IsOpenFile w.fs (p.files fd)) table r.file;
        same_inode = subst (λ p. (p.files fd).inode_idx ≡ inode) table r.same_inode;
        out_valid = subst (λ p. (p.files 1).valid ≡ true) table r.out_valid;
        out_ops = subst (λ p. (p.files 1).ops_table ≡ fops_stdout) table r.out_ops;
        displayed = r.displayed;
        display = a.printed.display ∙ r.display;
        display_in = r.display_in;
        below = subst (λ v. v + video_mem_size ≤ user_page_start) (sym a.printed.place) r.below;
      }

  smaller_buffer : (n : ℕ) → n ≤ 1024 → InUserPage buf n
  smaller_buffer n h = let to = page.to in record { from = page.from; to = omega (arith, to, h) }

  read_copies :
      (k : Kernel) (g : Page)
      → CanCopy w curr t fd inode k
      → OnTerminal t k g
      → (let c = min 1024 ((w.fs.inode inode).size - offset_of curr fd k) in
          (k' : Kernel) × (file_read w.fs w.looks k curr t (pos fd) buf (pos 1024)
            ≡ some (pos c, k'))
          × (bytes (k'.pages curr) buf c
              ≡ bytes (file_byte w.fs (w.fs.inode inode)) (offset_of curr fd k) c)
          × (offset_of curr fd k' ≡ offset_of curr fd k + c)
          × OnTerminal t k' g
          × CanCopy w curr t fd inode k')
  unfolding contents
  read_copies k g r shown =
      let f = (k.table curr).files fd in
      let got =
        file_read-Advanced w.fs w.looks k curr t fd buf 1024 r.fd_in r.valid r.ops r.file hb
          (omega arith) page in
      let c = min 1024 ((w.fs.inode inode).size - f.offset) in
      let (k', done, a) =
        subst
          (λ i.
            (k' : Kernel) × (file_read w.fs w.looks k curr t (pos fd) buf (pos 1024)
              ≡ some (pos (min 1024 ((w.fs.inode i).size - f.offset)), k'))
            × Advanced w.fs k k' curr fd buf (min 1024 ((w.fs.inode i).size - f.offset)))
          r.same_inode got in
      let chunk = bytes (file_byte w.fs (w.fs.inode f.inode_idx)) f.offset c in
      let stored : bytes (store (k.pages curr) buf chunk) buf c ≡ chunk =
        subst (λ n. bytes (store (k.pages curr) buf chunk) buf n ≡ chunk)
          (length-bytes (file_byte w.fs (w.fs.inode f.inode_idx)) f.offset c)
          (bytes-store (k.pages curr) buf chunk) in
      (
        k',
        done,
        ap (λ m. bytes m buf c) a.page
            ∙ stored
            ∙ ap (λ i. bytes (file_byte w.fs (w.fs.inode i)) f.offset c) r.same_inode,
        ap (λ file. file.offset) a.file,
        subst (λ s. Shows s.mem (s.states t) g) (sym a.console) shown,
        after_read-CanCopy k k' c r (omega arith) a,
      )

  -- The kernel's calls copy a file as cat needs it.
  kernel-Copying :
      Copying Kernel Page
        (on_kernel w curr t literal)
        (pos fd)
        buf
        1024
        (CanCopy w curr t fd inode)
        (file_byte w.fs (w.fs.inode inode))
        (w.fs.inode inode).size
        (offset_of curr fd)
        (OnTerminal t)
        show_chars
        NoBackspace
  kernel-Copying = record {
    got = λ k g r shown h. read_copies k g r shown;
    written = λ k g n r shown h fine.
        let (k', wrote, a) =
          file_write-Wrote k curr r.displayed t 1 buf n g (omega arith) r.out_valid r.out_ops
            r.display r.display_in r.below shown hb (omega (arith, h)) (smaller_buffer n h)
            (NoBackspace-Stays g (bytes (k.pages curr) buf n) fine) in
        (
          k',
          wrote,
          ap (λ p. (p.files fd).offset) (a.table curr),
          a.printed.shows,
          after_write-CanCopy k k' (show_chars g (bytes (k.pages curr) buf n)) r a,
        );
  }

  show_none : (o : Page) → show_chars o [] ≡ o
  unfolding show_chars
  show_none o = refl

  -- When process_getargs and file_open succeed for the program cat on this kernel, so that a
  -- descriptor reads a file from its start and descriptor 1 is the output of a terminal that shows a
  -- page, and no byte of the file is a backspace: cat ends with the status 0 after at most one read
  -- for each 1024 bytes and one more, and the terminal then shows the page with the whole file
  -- printed, whatever its size.
  pub cat_main-Shows :
      (n : ℕ) (k k1 k2 : Kernel) (g : Page)
      → call_getargs k curr buf (pos 1024) ≡ (pos 0, k1)
      → with_files k1 curr (file_open w.fs (k1.pages curr) (k1.table curr).files buf) ≡ (pos fd, k2)
      → CanCopy w curr t fd inode k2
      → Shows k2.console.mem (k2.console.states t) g
      → offset_of curr fd k2 ≡ 0
      → ((p : ℕ) → p < (w.fs.inode inode).size → file_byte w.fs (w.fs.inode inode) p ≢ backspace)
      → (w.fs.inode inode).size + 1024 ≤ 1024 * n
      → (k' : Kernel) × (cat_main (on_kernel w curr t literal) n buf k ≡ some (0, k'))
        × Shows k'.console.mem
            (k'.console.states t)
            (show_chars g (contents w.fs (w.fs.inode inode) 0 (w.fs.inode inode).size))
  unfolding contents
  cat_main-Shows n k k1 k2 g args opened r shown start fine enough =
      cat_main-prints (on_kernel w curr t literal) (pos fd) buf (CanCopy w curr t fd inode)
        (file_byte w.fs (w.fs.inode inode)) (w.fs.inode inode).size (offset_of curr fd)
        (OnTerminal t) show_chars NoBackspace kernel-Copying show_chars-append show_none
        (λ a m within.
          bytes-NoBackspace (file_byte w.fs (w.fs.inode inode)) a m
            (λ p lo hi. fine p (omega (arith, hi, within))))
        n k k1 k2 g (ap some args) (ap some opened) refl r shown start enough
