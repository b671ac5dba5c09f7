-- ===== src/Tests/Output.antt =====
-- Writing to the terminal, and cat on the kernel, at concrete inputs.
use loli_os.Prelude.{
  ◌<◌, ℕ, ◌≡◌, refl, sym, ap, subst, ◌≢◌, true, false, some, [], ◌∷◌, arith, ltb, pos,
}
use loli_os.Memory.Access.{InUserPage}
use loli_os.Memory.Bytes.{bytes}
use loli_os.FileObj.{FileObj, fops_file, fops_stdout}
use loli_os.FileSystem.Spec.{file_byte, contents}
use loli_os.FileSystem.Reads.{IsOpenFile}
use loli_os.Regs.{IntRegs}
use loli_os.Signals.Handling.{nothing}
use loli_os.Terminal.{backspace}
use loli_os.Terminal.Console.{Console}
use loli_os.Terminal.Screen.{Shows}
use loli_os.Terminal.Reads.Writing.{show_chars, Stays}
use loli_os.File.{file_open}
use loli_os.File.Writing.{BelowUser, Wrote}
use loli_os.Process.Context.{Kernel}
use loli_os.Interrupts.{idt_handle_interrupt}
use loli_os.Syscalls.{World, syscall_interrupt, call_getargs, with_files}
use loli_os.Syscalls.Writing.{idt_handle_interrupt-write}
use loli_os.Programs.Files.{cat_main}
use loli_os.Programs.Files.Running.{on_kernel, CanCopy, cat_main-Shows}
use loli_os.Tests.Data.{
  letters, blanks, image, console, terminal, corner, corner-Shows, processes, user_regs,
}

-- Terminal 0 is blank, with the cursor in the last cell.
abbrev blank_console : Console
blank_console = record console { mem = blanks; states = λ i. terminal i 79 79 24 }

abbrev console_files : ℕ → FileObj
console_files i = record { ops_table = fops_stdout; inode_idx = 0; offset = 0; valid = ltb i 2 }

-- Process 1 has the argument "a".
abbrev printing : Kernel
printing = record {
  table = λ i.
      let p = processes i in record p { signals = []; files = console_files; args = 97 ∷ 0 ∷ [] };
  console = blank_console;
  pages = λ i. letters;
  esp0 = 0;
}

abbrev world : World
world = record {
  fs = image;
  process_data = 0x400000;
  looks = record { pending = false; counter = 0; kbd = []; rtc = [] };
}

abbrev writing : IntRegs
writing = record user_regs { int_num = 0x80; eax = 4; ebx = 1; ecx = 0x8000010; edx = 3 }

three : InUserPage 0x8000010 3
three = record { from = omega arith; to = omega arith }

letters-Stays : Stays corner (bytes letters 0x8000010 3)
unfolding bytes Stays
letters-Stays = (
  λ e. absurd (omega (arith, e.0)),
  (λ e. absurd (omega (arith, e.0)), (λ e. absurd (omega (arith, e.0)), tt)),
)

idt_handle_interrupt-write_example :
    (k' : Kernel) × (idt_handle_interrupt
        (λ line k. some k)
        (syscall_interrupt world 1)
        printing
        1
        writing
      ≡ some (nothing, k', record writing { eax = 3 }))
    × Wrote printing k' 0 (show_chars corner (bytes letters 0x8000010 3))
idt_handle_interrupt-write_example =
    idt_handle_interrupt-write (λ line k. some k) world printing 1 0 0 1 0x8000010 3 corner writing
      refl refl refl refl refl refl refl refl (omega arith) refl refl refl (omega arith)
      (omega arith) corner-Shows (omega arith) (omega arith) three letters-Stays

-- After getargs and after open.
abbrev with_name : Kernel
with_name = (call_getargs printing 1 0x8000010 (pos 1024)).1

abbrev with_file : Kernel
with_file =
    (with_files with_name 1
      (file_open image (with_name.pages 1) (with_name.table 1).files 0x8000010)).1

name_given : call_getargs printing 1 0x8000010 (pos 1024) ≡ (pos 0, with_name)
unfolding call_getargs
name_given = refl

file_given :
    with_files with_name 1 (file_open image (with_name.pages 1) (with_name.table 1).files 0x8000010)
    ≡ (pos 2, with_file)
unfolding call_getargs file_open loli_os.Memory.Bytes.store loli_os.FileSystem.read_dentry_by_name
file_given = refl

buffer : InUserPage 0x8000010 1024
buffer = record { from = omega arith; to = omega arith }

-- What open has put at descriptor 2.
abbrev opened : FileObj
opened = record { ops_table = fops_file; inode_idx = 0; offset = 0; valid = true }

opened_lem : (with_file.table 1).files 2 ≡ opened
unfolding call_getargs file_open loli_os.Memory.Bytes.store loli_os.FileSystem.read_dentry_by_name
opened_lem = refl

console_lem : (with_file.table 1).files 1 ≡ console_files 1
unfolding call_getargs file_open loli_os.Memory.Bytes.store loli_os.FileSystem.read_dentry_by_name
console_lem = refl

same_console : with_file.console ≡ blank_console
unfolding call_getargs file_open loli_os.Memory.Bytes.store loli_os.FileSystem.read_dentry_by_name
same_console = refl

opened-IsOpenFile : IsOpenFile image opened
opened-IsOpenFile = record { inode_in = omega arith; small = omega arith; inside = omega arith }

blank-BelowUser : BelowUser (blank_console.states 0)
blank-BelowUser = omega arith

with_file-CanCopy : CanCopy world 1 0 2 0 with_file
with_file-CanCopy = record {
  fd_in = omega arith;
  apart = λ e. absurd (omega (arith, e));
  valid = ap (λ f. f.valid) opened_lem;
  ops = ap (λ f. f.ops_table) opened_lem;
  file = subst (IsOpenFile image) (sym opened_lem) opened-IsOpenFile;
  same_inode = ap (λ f. f.inode_idx) opened_lem;
  out_valid = ap (λ f. f.valid) console_lem;
  out_ops = ap (λ f. f.ops_table) console_lem;
  displayed = 0;
  display = ap (λ s. s.display_terminal) same_console;
  display_in = omega arith;
  below = subst (λ s. BelowUser (s.states 0)) (sym same_console) blank-BelowUser;
}

with_file-Shows : Shows with_file.console.mem (with_file.console.states 0) corner
with_file-Shows = subst (λ s. Shows s.mem (s.states 0) corner) (sym same_console) corner-Shows

at_start : ((with_file.table 1).files 2).offset ≡ 0
at_start = ap (λ f. f.offset) opened_lem

no_backspace : (p : ℕ) → p < 5000 → file_byte image (image.inode 0) p ≢ backspace
unfolding file_byte
no_backspace p h e = absurd (ground (arith, e))

cat_main-Shows_example :
    (k' : Kernel) × (cat_main (on_kernel world 1 0 (λ s. 0x8048000)) 6 0x8000010 printing
      ≡ some (0, k'))
    × Shows k'.console.mem
        (k'.console.states 0)
        (show_chars corner (contents image (image.inode 0) 0 5000))
cat_main-Shows_example =
    cat_main-Shows world 1 0 2 0 0x8000010 (λ s. 0x8048000) (omega arith) buffer 6 printing
      with_name with_file corner name_given file_given with_file-CanCopy with_file-Shows at_start
      no_backspace (omega arith)
