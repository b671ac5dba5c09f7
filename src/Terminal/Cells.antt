-- ===== src/Terminal/Cells.antt =====
-- The bytes of the video page: a cell, the scroll, and the steps of the cursor.
use loli_os.Prelude.{
  ◌+ℤ◌, ℕ, ◌+◌, ◌-◌, ◌*◌, ◌%◌, ◌^◌, ◌<◌, ◌≡◌, ◌⊎◌, ◌&&◌, arith, ltb, leb, ◌==◌, if◌then◌else◌, pos,
  ◌-ℤ◌, ltb_ℤ, add_u32,
}
use loli_os.Memory.Bytes.{Mem, store}
use loli_os.MemOps.{memmove}
use loli_os.MemOps.Copy.{memmove-Copied}
use loli_os.MemOps.Fill.{memset_word-Filled}
use loli_os.Terminal.{
  Terminal, num_cols, num_rows, video_mem_size, space, attrib, scroll_down, vga_clear_region,
  write_char, cell_address, cursor_left,
}
use loli_os.Terminal.Bounds.{at_cursor}

-- The video page of a terminal lies below the end of the address space.
abbrev pub Fits : Terminal → Type 0
Fits t = t.video_mem + video_mem_size < 2 ^ 32

-- A character cell: the character and its attribute, and nothing else.
pub write_char_lem :
    (m : Mem) (t : Terminal) (l x y c p : ℕ)
    → Fits t
    → x < num_cols
    → y < num_rows
    → write_char m (at_cursor t l x y) c p ≡ (
        if p == t.video_mem + 160 * y + 2 * x
        then c
        else if p == t.video_mem + 160 * y + 2 * x + 1
        then attrib
        else m p)
unfolding write_char store
write_char_lem m t l x y c p hv hx hy =
    let a : cell_address (at_cursor t l x y) 0 ≡ t.video_mem + 160 * y + 2 * x = omega arith in
    let b : cell_address (at_cursor t l x y) 1 ≡ t.video_mem + 160 * y + 2 * x + 1 = omega arith in
    rw (a, b) (ground arith)

-- A scroll moves every row up by one and clears the last.
pub scroll_down_lem :
    (m : Mem) (t : Terminal) (p : ℕ)
    → Fits t
    → scroll_down m t p ≡ (
        if leb t.video_mem p && ltb p (t.video_mem + 3840)
        then m (p + 160)
        else if leb (t.video_mem + 3840) p && ltb p (t.video_mem + 4000)
        then (if (p - (t.video_mem + 3840)) % 2 == 0 then space else attrib)
        else m p)
unfolding scroll_down vga_clear_region
scroll_down_lem m t p hv =
    let src : add_u32 t.video_mem 160 ≡ t.video_mem + 160 = omega arith in
    let last : add_u32 t.video_mem 3840 ≡ t.video_mem + 3840 = omega arith in
    let moved =
      memmove-Copied m t.video_mem (t.video_mem + 160) 3840 (omega arith) (omega arith) p in
    let cleared =
      memset_word-Filled (memmove m t.video_mem (t.video_mem + 160) 3840) (t.video_mem + 3840)
        (space + attrib * 256) 80 (omega arith) p in
    let back : t.video_mem + 160 + (p - t.video_mem) ≡ p - t.video_mem + t.video_mem + 160 =
      omega arith in
    rw (src, last) (ground (arith, moved, cleared))

pub row_test : (y : ℕ) → ltb_ℤ (pos (y + 1)) (pos num_rows) ≡ ltb (y + 1) num_rows
row_test y = ground arith

pub col_test : (x : ℕ) → ltb_ℤ (pos (x + 1)) (pos num_cols) ≡ ltb (x + 1) num_cols
col_test x = ground arith

pub cursor_left_at :
    (l x y : ℕ)
    → 0 < l
    → (0 < x) ⊎ (0 < y)
    → cursor_left (record { logical_x = pos l; screen_x = pos x; screen_y = pos y }) ≡ record {
      logical_x = pos (l - 1);
      screen_x = pos (if x == 0 then 79 else x - 1);
      screen_y = pos (if x == 0 then y - 1 else y);
    }
unfolding ◌+ℤ◌ ◌-ℤ◌
cursor_left_at l x y hl h = ground arith
