-- ===== src/Tests/Data.antt =====
-- The test data: a memory, the tables of a started system, a small file system and a console.
use loli_os.Prelude.{
  [], ℕ, ◌+◌, ◌%◌, refl, true, false, none, ◌∷◌, arith, ltb, ◌==◌, if◌then◌else◌, pos, minus_one,
}
use loli_os.Memory.Bytes.{Mem}
use loli_os.FileObj.{FileObj, fops_file}
use loli_os.FileSystem.{Image}
use loli_os.FileSystem.Reads.{IsOpenFile}
use loli_os.Paging.{Paging, Entry}
use loli_os.Paging.Translate.{Placed}
use loli_os.Process.{Pcb, process_run, process_sleep}
use loli_os.Regs.{IntRegs, IsRegs}
use loli_os.Signals.{Signal}
use loli_os.Irq.{Irqs}
use loli_os.Terminal.{Terminal, KbdInputBuf, MouseInputBuf}
use loli_os.Terminal.Bounds.{OnScreen, LeavesTop}
use loli_os.Terminal.Console.{Console}
use loli_os.Terminal.Pages.{Page}
use loli_os.Terminal.Screen.{Shows}
use loli_os.Terminal.Switch.{IsShown, backing_page}

abbrev pub letters : Mem
letters p = 97 + p % 26

abbrev pub blanks : Mem
blanks p = 32

abbrev pub no_entry : Entry
no_entry = record {
  present = false;
  write = false;
  user = false;
  cache_disabled = false;
  size = false;
  global = false;
  frame = 0;
}

abbrev pub tables : Paging
tables = record {
  page_dir = λ i. no_entry;
  page_table = λ i. no_entry;
  page_table_vidmap = λ i. no_entry;
  page_table_address = 8192;
  page_table_vidmap_address = 12288;
}

pub tables-Placed : Placed tables
tables-Placed = record {
  table_aligned = refl;
  vidmap_aligned = refl;
  table_in = omega arith;
  vidmap_in = omega arith;
  apart = λ e. absurd (omega (arith, e));
}

-- One file of 5000 bytes, which is named "a" and lies in the blocks 1 and 0.
abbrev pub image : Image
image = record {
  dentry_count = 1;
  inode_count = 1;
  dir_entries = λ i. record { name = λ p. if p == 0 then 97 else 0; type = 2; inode_idx = 0 };
  inode = λ i. record { size = 5000; data_blocks = λ b. if b == 0 then 1 else 0 };
  data_block = λ b p. 97 + (b + p) % 26;
}

abbrev pub open_file : FileObj
open_file = record { ops_table = fops_file; inode_idx = 0; offset = 4090; valid = true }

pub open_file-IsOpenFile : IsOpenFile image open_file
open_file-IsOpenFile = record { inode_in = omega arith; small = omega arith; inside = omega arith }

abbrev pub lost_file : FileObj
lost_file = record { ops_table = fops_file; inode_idx = 7; offset = 0; valid = true }

abbrev pub root_dir : FileObj
root_dir = record { ops_table = fops_file; inode_idx = 0; offset = 0; valid = true }

abbrev pub files : ℕ → FileObj
files i = record { ops_table = fops_file; inode_idx = 0; offset = 0; valid = ltb i 3 }

abbrev pub kbd : KbdInputBuf
kbd = record { buf = λ i. if i == 4 then 10 else 97 + i; count = 5 }

abbrev pub mice : MouseInputBuf
mice = record { buf = λ i. record { flags = 8; dx = i; dy = 0 }; count = 0 }

-- Terminal i, at a place on the screen; terminal 0 is displayed.
abbrev pub terminal : ℕ → ℕ → ℕ → ℕ → Terminal
terminal i l x y = record {
  kbd_input = kbd;
  mouse_input = mice;
  cursor = record { logical_x = pos l; screen_x = pos x; screen_y = pos y };
  backing_mem = backing_page i;
  video_mem = if i == 0 then 0xB8000 else backing_page i;
  vidmap = false;
}

abbrev pub console : Console
console = record {
  mem = letters;
  states = λ i. terminal i 3 3 0;
  display_terminal = pos 0;
  cursor_lo = 0;
  cursor_hi = 0;
  paging = tables;
}

pub console-IsShown : IsShown console 0
console-IsShown = record {
  display = refl;
  display_in = omega arith;
  backing = λ i h. refl;
  active = refl;
  hidden = λ i h ne. ground (arith, ne);
}

-- The last cell of a blank screen.
abbrev pub corner : Page
corner = record { cell = λ r c. 32; line = 79; col = 79; row = 24 }

pub corner-Shows : Shows blanks (terminal 0 79 79 24) corner
corner-Shows = record {
  logical = refl;
  column = refl;
  at_row = refl;
  column_in = omega arith;
  row_in = omega arith;
  cells = λ r c hr hc. refl;
}

pub corner-OnScreen : OnScreen (terminal 0 79 79 24).cursor
corner-OnScreen = record {
  l = 79;
  x = 79;
  y = 24;
  logical = refl;
  column = refl;
  row = refl;
  column_in = omega arith;
  row_in = omega arith;
  wrapped = refl;
}

pub top-LeavesTop : LeavesTop (terminal 0 80 0 0).cursor 8
top-LeavesTop = record { is_backspace = refl; in_line = refl; at_left = refl; at_top = refl }

abbrev pub divider : Signal
divider = record { signum = 0; handler_addr = 4096; masked = false; pending = true }

abbrev pub alarm : Signal
alarm = record { signum = 3; handler_addr = 0; masked = false; pending = true }

-- The registers of a user program whose stack is almost empty.
abbrev pub user_regs : IntRegs
user_regs = record {
  cr0 = 0;
  cr2 = 0;
  cr3 = 0;
  cr4 = 0;
  ds = 43;
  es = 43;
  fs = 43;
  gs = 43;
  eax = 7;
  ebx = 1;
  ecx = 2;
  edx = 0;
  esi = 0;
  edi = 0;
  ebp = 0;
  int_num = 0;
  error_code = 0;
  eip = 0x8048100;
  cs = 35;
  cs_pad = 0;
  eflags = 0x202;
  esp = 0x83ffff0;
  ss = 43;
  ss_pad = 0;
}

pub user_regs-IsRegs : IsRegs user_regs
user_regs-IsRegs = record {
  cr0 = omega arith;
  cr2 = omega arith;
  cr3 = omega arith;
  cr4 = omega arith;
  ds = omega arith;
  es = omega arith;
  fs = omega arith;
  gs = omega arith;
  eax = omega arith;
  ebx = omega arith;
  ecx = omega arith;
  edx = omega arith;
  esi = omega arith;
  edi = omega arith;
  ebp = omega arith;
  int_num = omega arith;
  error_code = omega arith;
  eip = omega arith;
  cs = omega arith;
  cs_pad = omega arith;
  eflags = omega arith;
  esp = omega arith;
  ss = omega arith;
  ss_pad = omega arith;
}

-- Three processes, of which the first sleeps.
abbrev pub processes : ℕ → Pcb
processes i = record {
  pid = if ltb i 3 then pos i else minus_one;
  parent_pid = minus_one;
  entry_point = 0;
  terminal = pos 0;
  status = if i == 0 then process_sleep else process_run;
  vidmap = false;
  last_alarm = 100;
  signals = divider ∷ [];
  files = files;
  args = [];
}

abbrev pub irqs : Irqs
irqs = record { master_mask = 251; slave_mask = 255; handlers = λ i. none; ports = [] }
