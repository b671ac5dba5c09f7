-- ===== src/Terminal/Overrun.antt =====
-- Which bytes a character may write, in student-distrib/terminal.c.
use loli_os.Prelude.{
  ℕ, ◌+◌, ◌-◌, ◌≤◌, ◌<◌, ◌≡◌, refl, subst, ◌∙◌, ◌⊎◌, inl, inr, true, false, arith, ℕ_discrete, ◌==◌,
  if◌then◌else◌, ==_iff, Bool-cases, pos, negsuc, ◌+ℤ◌, ◌-ℤ◌, ltb_ℤ,
}
use loli_os.Memory.Bytes.{Mem, store}
use loli_os.Terminal.{
  Terminal, num_cols, num_rows, video_mem_size, backspace, newline, carriage_return, space,
  scroll_down, write_char, putc_impl, cursor_left, cursor_right, scroll_if_below, putc_newline,
  putc_return, putc_backspace, putc_printable,
}
use loli_os.Terminal.Bounds.{at_cursor, OnScreen, LeavesTop, cursor_parts, not_leaving}
use loli_os.Terminal.Cells.{Fits, write_char_lem, scroll_down_lem, cursor_left_at}

-- Every byte outside the video page of the terminal is as it was.
abbrev pub Within : Terminal → Mem → Mem → Type 0
Within t m l = (p : ℕ) → (p < t.video_mem) ⊎ (t.video_mem + video_mem_size ≤ p) → l p ≡ m p

write_char-Within :
    (m : Mem) (t : Terminal) (l x y c : ℕ)
    → Fits t
    → x < num_cols
    → y < num_rows
    → Within t m (write_char m (at_cursor t l x y) c)
write_char-Within m t l x y c hv hx hy p out = ground (arith, write_char_lem m t l x y c p hv hx hy)

scroll_down-Within : (m : Mem) (t : Terminal) → Fits t → Within t m (scroll_down m t)
scroll_down-Within m t hv p out = ground (arith, scroll_down_lem m t p hv)

scroll_if_below-Within :
    (m l : Mem) (t : Terminal) → Fits t → Within t m l → Within t m (scroll_if_below l t).0
scroll_if_below-Within m l t hv w p out =
    elim (Bool-cases (ltb_ℤ t.cursor.screen_y (pos num_rows))) [
      | inl e ↦ rw e (w p out)
      | inr e ↦ rw e (scroll_down-Within l t hv p out ∙ w p out)
    ]

backspace-Within :
    (m : Mem) (t : Terminal) (l x y : ℕ)
    → Fits t
    → x < num_cols
    → y < num_rows
    → (l ≡ 0) ⊎ (0 < x) ⊎ (0 < y)
    → Within t m (putc_backspace m (at_cursor t l x y)).0
unfolding putc_backspace
backspace-Within m t l x y hv hx hy h p out = elim (ℕ_discrete l 0) [
  | yes e ↦ let none_left : ltb_ℤ (pos 0) (pos l) ≡ false = ground arith in rw none_left
  | no ne ↦
      let some_left : ltb_ℤ (pos 0) (pos l) ≡ true = ground arith in
      rw (some_left, cursor_left_at l x y (omega arith) (omega (arith, h)))
        (write_char-Within m t (l - 1) (if x == 0 then 79 else x - 1) (if x == 0 then y - 1 else y)
          space hv (ground arith) (ground arith) p out)
]

pub putc_impl-Within_at :
    (m : Mem) (t : Terminal) (l x y c : ℕ)
    → Fits t
    → x < num_cols
    → y < num_rows
    → ¬ LeavesTop (at_cursor t l x y).cursor c
    → Within t m (putc_impl m (at_cursor t l x y) c).0
unfolding putc_impl putc_newline putc_return putc_printable
putc_impl-Within_at m t l x y c hv hx hy h p out = elim (Bool-cases (c == newline)) [
  | inl e ↦ rw e (
      scroll_if_below-Within m m
        (record t {
          cursor = record { logical_x = pos 0; screen_x = pos 0; screen_y = pos y +ℤ pos 1 };
        })
        hv (λ q o. refl) p out)
  | inr n ↦ elim (Bool-cases (c == carriage_return)) [
    | inl e ↦ rw (n, e)
    | inr r ↦ elim (Bool-cases (c == backspace)) [
      | inl e ↦
          rw (n, r, e)
            (backspace-Within m t l x y hv hx hy
              (not_leaving l x y (λ v. h (record {
                is_backspace = (==_iff c backspace).0 e;
                in_line = v.in_line;
                at_left = v.at_left;
                at_top = v.at_top;
              })))
              p out)
      | inr b ↦
          rw (n, r, b)
            (scroll_if_below-Within m (write_char m (at_cursor t l x y) c)
              (record t { cursor = cursor_right (at_cursor t l x y).cursor }) hv
              (write_char-Within m t l x y c hv hx hy) p out)
    ]
  ]
]

-- For a video page below the end of the address space and a cursor on the screen, a character
-- writes nothing outside the video page of its terminal, but for a backspace at the top-left
-- corner in a line that began above it.
pub putc_impl-Within :
    (m : Mem) (t : Terminal) (c : ℕ)
    → Fits t
    → OnScreen t.cursor
    → ¬ LeavesTop t.cursor c
    → Within t m (putc_impl m t c).0
putc_impl-Within m t c hv o h =
    let e = cursor_parts t o in
    rw e (
      putc_impl-Within_at m t o.l o.x o.y c hv o.column_in o.row_in
        (subst (λ (u : Terminal). ¬ LeavesTop u.cursor c) e h))

-- A backspace at the top-left corner, in a logical line that began above it, moves the cursor to
-- row -1 and stores a space two bytes before the video page, for a page that has two bytes before
-- it and lies below the end of the address space.
pub backspace_overrun :
    (m : Mem) (t : Terminal) (c : ℕ)
    → 2 ≤ t.video_mem
    → Fits t
    → LeavesTop t.cursor c
    → ((putc_impl m t c).1.cursor.screen_y ≡ negsuc 0)
      × ((putc_impl m t c).0 (t.video_mem - 2) ≡ space)
unfolding putc_impl putc_backspace write_char store ◌-ℤ◌ ◌+ℤ◌
backspace_overrun m t c hv hf v =
    let left : cursor_left t.cursor ≡ record {
      logical_x = t.cursor.logical_x -ℤ pos 1;
      screen_x = pos 79;
      screen_y = negsuc 0;
    } =
      ground (arith, v.at_left, v.at_top) in
    rw (v.is_backspace, v.in_line, left) (refl, ground arith)
