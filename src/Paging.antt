-- ===== src/Paging.antt =====
-- The page directory and page tables of student-distrib/paging.c and paging.h. The bit fields of an
-- entry are fields of a record; the two layouts of the union page_dir_entry_t share `frame`, the
-- upper 20 bits, of which the 4MB layout names the upper ten.
pub mod Translate
use loli_os.Prelude.{
  ℕ, zero, suc, ◌+◌, ◌*◌, ◌/◌, ◌%◌, ◌^◌, Bool, true, false, ◌&&◌, Option, none, some, ◌==◌,
  if◌then◌else◌, ℤ, pos, negsuc,
}
use loli_os.Memory.{user_page_start}

-- KERNEL_PAGE_START, VIDEO_PAGE_START, TERMINAL_PAGE_START, VIDMAP_PAGE_START.
abbrev pub kernel_page_start : ℕ
kernel_page_start = 0x00400000

abbrev pub video_page_start : ℕ
video_page_start = 0x000B8000

abbrev pub terminal_page_start : ℕ
terminal_page_start = 0x000BA000

abbrev pub vidmap_page_start : ℕ
vidmap_page_start = 0x084B8000

-- The fields of page_table_entry_4kb_t, page_dir_entry_4kb_t and page_dir_entry_4mb_t that the code
-- sets.
pub record Entry : Type 0 where
  pub present : Bool
  pub write : Bool
  pub user : Bool
  pub cache_disabled : Bool
  pub size : Bool
  pub global : Bool
  pub frame : ℕ

-- `page_dir`, `page_table` and `page_table_vidmap`, with the addresses of the two tables.
pub record Paging : Type 0 where
  pub page_dir : ℕ → Entry
  pub page_table : ℕ → Entry
  pub page_table_vidmap : ℕ → Entry
  pub page_table_address : ℕ
  pub page_table_vidmap_address : ℕ

-- TO_DIR_INDEX, TO_4MB_BASE; TO_TABLE_INDEX; TO_4KB_BASE.
abbrev pub to_dir_index : ℕ → ℕ
to_dir_index addr = addr / 2 ^ 22

abbrev pub to_table_index : ℕ → ℕ
to_table_index addr = addr / 2 ^ 12 % 1024

abbrev pub to_4kb_base : ℕ → ℕ
to_4kb_base addr = addr / 2 ^ 12

-- The assignment `base_addr = b` through the 4MB layout, a field of ten bits.
abbrev pub set_4mb_base : Entry → ℕ → Entry
set_4mb_base e b = record e { frame = b % 1024 * 1024 + e.frame % 1024 }

-- The assignment `base_addr = b` through the 4KB layouts, a field of twenty bits.
abbrev pub set_4kb_base : Entry → ℕ → Entry
set_4kb_base e b = record e { frame = b % 2 ^ 20 }

abbrev pub update {ℓ} : {A : Type ℓ} → (ℕ → A) → ℕ → A → ℕ → A
update f i a j = if j == i then a else f j

-- paging_init_kernel.
init_kernel : Paging → Paging
init_kernel s =
    let i = to_dir_index kernel_page_start in
    let e = record (s.page_dir i) {
      present = true;
      write = true;
      user = false;
      size = true;
      global = true;
    } in
    record s { page_dir = update s.page_dir i (set_4mb_base e (to_dir_index kernel_page_start)) }

-- An entry of the table for the first 4MB that paging_init_video sets.
map_video : Paging → ℕ → Paging
map_video s addr =
    let i = to_table_index addr in
    let e = record (s.page_table i) {
      present = true;
      write = true;
      user = false;
      cache_disabled = true;
      global = true;
    } in
    record s { page_table = update s.page_table i (set_4kb_base e (to_4kb_base addr)) }

-- The loop of paging_init_video over the terminals, from terminal i on.
map_terminals : Paging → ℕ → ℕ → Paging
unfolding map_video
map_terminals s i zero = s
map_terminals s i (suc n) = map_terminals (map_video s (terminal_page_start + i * 4096)) (i + 1) n

-- paging_init_video; NUM_TERMINALS is 3.
init_video : Paging → Paging
unfolding map_terminals map_video
init_video s =
    let i = to_dir_index video_page_start in
    let e = record (s.page_dir i) {
      present = true;
      write = true;
      user = false;
      cache_disabled = true;
      size = false;
      global = true;
    } in
    let dir = update s.page_dir i (set_4kb_base e (to_4kb_base s.page_table_address)) in
    map_terminals (map_video (record s { page_dir = dir }) video_page_start) 0 3

-- paging_init_user. It leaves the base address to the first process.
init_user : Paging → Paging
init_user s =
    let i = to_dir_index user_page_start in
    record s {
      page_dir = update s.page_dir i (record (s.page_dir i) {
        present = true;
        write = true;
        user = true;
        size = true;
        global = false;
      });
    }

-- paging_init_vidmap.
init_vidmap : Paging → Paging
init_vidmap s =
    let i = to_dir_index vidmap_page_start in
    let e = record (s.page_dir i) {
      present = true;
      write = true;
      user = true;
      cache_disabled = true;
      size = false;
      global = false;
    } in
    let j = to_table_index vidmap_page_start in
    record s {
      page_dir = update s.page_dir i (set_4kb_base e (to_4kb_base s.page_table_vidmap_address));
      page_table_vidmap = update s.page_table_vidmap j (record (s.page_table_vidmap j) {
        present = false;
        write = true;
        user = true;
        cache_disabled = true;
      });
    }

-- paging_enable: `none` if an assertion on the alignment of the arrays fails. The directory's own
-- address is used by the control registers only.
unfoldable pub enable : ℕ → Paging → Option Paging
unfolding init_kernel init_video init_user init_vidmap
enable page_dir_address s =
    if page_dir_address % 4096 == 0
      && (s.page_table_address % 4096 == 0 && (s.page_table_vidmap_address % 4096 == 0))
    then some (init_vidmap (init_user (init_video (init_kernel s))))
    else none

-- paging_update_process_page, where pid passes its assertion: MB(pid * 4 + 8).
set_process_page : Paging → ℕ → Paging
set_process_page s pid =
    let phys_addr = (pid * 4 + 8) * 1024 * 1024 % 2 ^ 32 in
    let i = to_dir_index user_page_start in
    record s { page_dir = update s.page_dir i (set_4mb_base (s.page_dir i) (phys_addr / 2 ^ 22)) }

-- `none` where the assertion fails.
unfoldable pub update_process_page : Paging → ℤ → Option Paging
unfolding set_process_page
update_process_page s (negsuc n) = none
update_process_page s (pos pid) = some (set_process_page s pid)

-- paging_update_vidmap_page.
unfoldable pub update_vidmap_page : Paging → ℕ → Bool → Paging
update_vidmap_page s video_mem present =
    let j = to_table_index vidmap_page_start in
    record s {
      page_table_vidmap = update s.page_table_vidmap j (
          set_4kb_base (record (s.page_table_vidmap j) { present = present })
            (to_4kb_base video_mem));
    }
