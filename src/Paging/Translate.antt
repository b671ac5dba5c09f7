-- ===== src/Paging/Translate.antt =====
-- How the processor reads the tables, and what the kernel's tables map.
use loli_os.Prelude.{
  ℕ, ◌+◌, ◌-◌, ◌*◌, ◌/◌, ◌%◌, ◌^◌, ◌≤◌, ◌<◌, ◌≡◌, refl, ap, subst, ◌∙◌, ◌≢◌, ◌⊎◌, inl, inr, Bool,
  true, false, ◌&&◌, Option, none, some, arith, ◌==◌, if◌then◌else◌, pos,
}
use loli_os.Memory.{user_page_start}
use loli_os.Paging.{
  Entry, Paging, to_dir_index, to_table_index, kernel_page_start, vidmap_page_start, enable,
  init_kernel, init_video, init_user, init_vidmap, map_video, map_terminals, update_process_page,
  set_process_page, update_vidmap_page,
}

-- A translation: the physical address, and whether user code may use it.
pub record Target : Type 0 where
  pub phys : ℕ
  pub user : Bool

-- The table that a directory entry points to: the kernel has two.
abbrev pub table_at : Paging → ℕ → Option (ℕ → Entry)
table_at s frame =
    if frame == s.page_table_address / 2 ^ 12
    then some s.page_table
    else if frame == s.page_table_vidmap_address / 2 ^ 12
    then some s.page_table_vidmap
    else none

-- A 4KB page: both entries must be present, and user code needs both user bits.
abbrev pub walk_table : Entry → ℕ → Option (ℕ → Entry) → Option Target
walk_table dir addr none = none
walk_table dir addr (some table) =
    let e = table (to_table_index addr) in
    if e.present
    then some (record { phys = e.frame * 4096 + addr % 4096; user = dir.user && e.user })
    else none

-- The address translation of the processor, for 4MB and 4KB pages; `none` is a page fault.
unfoldable pub translate : Paging → ℕ → Option Target
translate s addr =
    let dir = s.page_dir (to_dir_index addr) in
    if dir.present
    then (if dir.size
        then some (record { phys = dir.frame / 1024 * 2 ^ 22 + addr % 2 ^ 22; user = dir.user })
        else walk_table dir addr (table_at s dir.frame))
    else none

-- Tables that stand apart, at aligned addresses, as the linker places them.
pub record Placed (s : Paging) : Type 0 where
  pub table_aligned : s.page_table_address % 4096 ≡ 0
  pub vidmap_aligned : s.page_table_vidmap_address % 4096 ≡ 0
  pub table_in : s.page_table_address < 2 ^ 32
  pub vidmap_in : s.page_table_vidmap_address < 2 ^ 32
  pub apart : s.page_table_address ≢ s.page_table_vidmap_address

-- The tables that paging_enable leaves.
abbrev enabled : Paging → Paging
enabled s = init_vidmap (init_user (init_video (init_kernel s)))

enable-some : (dir : ℕ) (s : Paging) {s' : Paging} → enable dir s ≡ some s' → enabled s ≡ s'
unfolding enable
enable-some dir s e = ground arith

process_page :
    (s : Paging) (pid k : ℕ)
    → pid < 1022
    → k < 2 ^ 22
    → translate (set_process_page (enabled s) pid) (user_page_start + k)
      ≡ some (record { phys = (8 + 4 * pid) * 2 ^ 20 + k; user = true })
unfolding translate set_process_page init_kernel init_video init_user init_vidmap
process_page s pid k hp hk =
    let i : (user_page_start + k) / 2 ^ 22 ≡ 32 = omega arith in
    let o : (user_page_start + k) % 2 ^ 22 ≡ k = omega arith in
    let base : (pid * 4 + 8) * 1024 * 1024 % 2 ^ 32 / 2 ^ 22 % 1024 ≡ pid + 2 = omega arith in
    rw (i, o, base) (ap (λ a. some (record { phys = a; user = true })) (omega arith))

-- Once paging is enabled and the process page is set for a process number below 1022, user code
-- sees in the user page the 4MB of physical memory from 8MB + pid * 4MB on.
pub user_page_lem :
    (s s' : Paging) (dir pid k : ℕ) {s'' : Paging}
    → enable dir s ≡ some s'
    → update_process_page s' (pos pid) ≡ some s''
    → pid < 1022
    → k < 2 ^ 22
    → translate s'' (user_page_start + k)
      ≡ some (record { phys = (8 + 4 * pid) * 2 ^ 20 + k; user = true })
unfolding update_process_page
user_page_lem s s' dir pid k {s'' = s''} e u hp hk =
    let moved : set_process_page s' pid ≡ s'' = cc in
    subst
      (λ q.
        translate q (user_page_start + k)
        ≡ some (record { phys = (8 + 4 * pid) * 2 ^ 20 + k; user = true }))
      (ap (λ q. set_process_page q pid) (enable-some dir s e) ∙ moved) (process_page s pid k hp hk)

kernel_page :
    (s : Paging) (pid k : ℕ)
    → k < 2 ^ 22
    → translate (set_process_page (enabled s) pid) (kernel_page_start + k)
      ≡ some (record { phys = kernel_page_start + k; user = false })
unfolding translate set_process_page init_kernel init_video init_user init_vidmap
kernel_page s pid k hk =
    let i : (kernel_page_start + k) / 2 ^ 22 ≡ 1 = omega arith in
    let o : (kernel_page_start + k) % 2 ^ 22 ≡ k = omega arith in
    rw (i, o) (ap (λ a. some (record { phys = a; user = false })) (omega arith))

-- The walk over a table, where both entries are present.
translate_4kb :
    (s : Paging) (addr i j : ℕ) (table : ℕ → Entry)
    → to_dir_index addr ≡ i
    → to_table_index addr ≡ j
    → (s.page_dir i).present ≡ true
    → (s.page_dir i).size ≡ false
    → table_at s (s.page_dir i).frame ≡ some table
    → (table j).present ≡ true
    → translate s addr
      ≡ some (record {
        phys = (table j).frame * 4096 + addr % 4096;
        user = (s.page_dir i).user && (table j).user;
      })
unfolding translate
translate_4kb s addr i j table hi hj present small found there =
    rw (hi, present, small, found, hj, there)

video_table :
    (s : Paging) (pid : ℕ)
    → Placed s
    → let q = set_process_page (enabled s) pid in
      table_at q (q.page_dir 0).frame ≡ some q.page_table
unfolding set_process_page init_kernel init_video init_user init_vidmap map_terminals map_video
video_table s pid v =
    let same : s.page_table_address / 2 ^ 12 % 2 ^ 20 ≡ s.page_table_address / 2 ^ 12 =
      omega (arith, v.table_in) in
    ground arith

video_page :
    (s : Paging) (pid i k : ℕ)
    → Placed s
    → (i ≡ 0xB8) ⊎ (i ≡ 0xBA) ⊎ (i ≡ 0xBB) ⊎ (i ≡ 0xBC)
    → k < 4096
    → translate (set_process_page (enabled s) pid) (i * 4096 + k)
      ≡ some (record { phys = i * 4096 + k; user = false })
unfolding set_process_page init_kernel init_video init_user init_vidmap map_terminals map_video
video_page s pid i k v hi hk =
    let q = set_process_page (enabled s) pid in
    translate_4kb q (i * 4096 + k) 0 i q.page_table (omega arith) (omega arith) refl refl
      (video_table s pid v) (ground (arith, hi))
    ∙ ap (λ a. some (record { phys = a; user = false })) (ground (arith, hi))

-- With the two tables aligned and apart, once paging is enabled and the process page is set, the
-- kernel's own page, the VGA page and the pages of the three terminals are mapped to the same
-- physical addresses, and user code cannot reach them.
pub kernel_pages_lem :
    (s s' : Paging) (dir pid i k : ℕ) {s'' : Paging}
    → Placed s
    → enable dir s ≡ some s'
    → update_process_page s' (pos pid) ≡ some s''
    → ((i ≡ 0xB8) ⊎ (i ≡ 0xBA) ⊎ (i ≡ 0xBB) ⊎ (i ≡ 0xBC)) ⊎ ((0x400 ≤ i) × (i < 0x800))
    → k < 4096
    → translate s'' (i * 4096 + k) ≡ some (record { phys = i * 4096 + k; user = false })
unfolding update_process_page
kernel_pages_lem s s' dir pid i k {s'' = s''} v e u hi hk =
    let moved : set_process_page s' pid ≡ s'' = cc in
    subst (λ q. translate q (i * 4096 + k) ≡ some (record { phys = i * 4096 + k; user = false }))
      (ap (λ q. set_process_page q pid) (enable-some dir s e) ∙ moved) (go hi)
  where
    go :
        ((i ≡ 0xB8) ⊎ (i ≡ 0xBA) ⊎ (i ≡ 0xBB) ⊎ (i ≡ 0xBC)) ⊎ ((0x400 ≤ i) × (i < 0x800))
        → translate (set_process_page (enabled s) pid) (i * 4096 + k)
          ≡ some (record { phys = i * 4096 + k; user = false })
    go (inl h) = video_page s pid i k v h hk
    go (inr h) =
        let at : i * 4096 + k ≡ kernel_page_start + (i * 4096 + k - kernel_page_start) =
          omega (arith, h.0) in
        rw at (kernel_page s pid (i * 4096 + k - kernel_page_start) (omega (arith, h.0, h.1)))

vidmap_table :
    (s : Paging) (pid video_mem : ℕ) (present : Bool)
    → Placed s
    → let q = update_vidmap_page (set_process_page (enabled s) pid) video_mem present in
      table_at q (q.page_dir 33).frame ≡ some q.page_table_vidmap
unfolding update_vidmap_page set_process_page init_kernel init_video init_user init_vidmap
    map_terminals map_video
vidmap_table s pid video_mem present v =
    let same : s.page_table_vidmap_address / 2 ^ 12 % 2 ^ 20
        ≡ s.page_table_vidmap_address / 2 ^ 12 =
      omega (arith, v.vidmap_in) in
    let other : s.page_table_vidmap_address / 2 ^ 12 ≢ s.page_table_address / 2 ^ 12 =
      omega (arith, v.apart, v.table_aligned, v.vidmap_aligned) in
    ground arith

-- With the two tables aligned and apart, once paging is enabled and the process page is set, user
-- code sees at the vidmap page the aligned 32-bit video memory address that
-- paging_update_vidmap_page was last given.
pub vidmap_page_lem :
    (s s' : Paging) (dir pid video_mem k : ℕ) {s'' : Paging}
    → Placed s
    → enable dir s ≡ some s'
    → update_process_page s' (pos pid) ≡ some s''
    → video_mem < 2 ^ 32
    → video_mem % 4096 ≡ 0
    → k < 4096
    → translate (update_vidmap_page s'' video_mem true) (vidmap_page_start + k)
      ≡ some (record { phys = video_mem + k; user = true })
unfolding update_process_page update_vidmap_page set_process_page init_kernel init_video init_user
    init_vidmap map_terminals map_video
vidmap_page_lem s s' dir pid video_mem k {s'' = s''} v e u hv ha hk =
    let moved : set_process_page s' pid ≡ s'' = cc in
    let q = update_vidmap_page (set_process_page (enabled s) pid) video_mem true in
    subst
      (λ q.
        translate (update_vidmap_page q video_mem true) (vidmap_page_start + k)
        ≡ some (record { phys = video_mem + k; user = true }))
      (ap (λ q. set_process_page q pid) (enable-some dir s e) ∙ moved)
      (translate_4kb q (vidmap_page_start + k) 33 184 q.page_table_vidmap (omega arith)
          (omega arith) refl refl (vidmap_table s pid video_mem true v) refl
        ∙ ap (λ a. some (record { phys = a; user = true })) (omega arith))
