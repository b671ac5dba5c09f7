-- ===== src/Terminal/Bounds.antt =====
-- The cursor of a terminal of student-distrib/terminal.c on the screen.
use loli_os.Prelude.{
  ◌+ℤ◌, ℕ, zero, suc, ◌+◌, ◌-◌, ◌%◌, ◌<◌, min, ◌≡◌, refl, subst, ◌⊎◌, inl, inr, true, arith, ltb,
  ◌==◌, if◌then◌else◌, ==_iff, Bool-cases, pos, ◌-ℤ◌, ltb_ℤ,
}
use loli_os.Memory.Bytes.{Mem}
use loli_os.Terminal.{
  Terminal, Cursor, num_cols, num_rows, backspace, newline, carriage_return, putc_impl,
  putc_newline, putc_return, putc_backspace, putc_printable,
}

-- The terminal with its cursor at column x and row y of the screen, l characters into the line.
abbrev pub at_cursor : Terminal → ℕ → ℕ → ℕ → Terminal
at_cursor t l x y = record t {
  cursor = record { logical_x = pos l; screen_x = pos x; screen_y = pos y };
}

-- The cursor is on the screen, and its column is that of the logical line, wrapped.
pub record OnScreen (cur : Cursor) : Type 0 where
  pub l : ℕ
  pub x : ℕ
  pub y : ℕ
  pub logical : cur.logical_x ≡ pos l
  pub column : cur.screen_x ≡ pos x
  pub row : cur.screen_y ≡ pos y
  pub column_in : x < num_cols
  pub row_in : y < num_rows
  pub wrapped : l % num_cols ≡ x

-- The one case in which a character moves the cursor off the screen: a backspace at the top-left
-- corner, in a logical line that began above it.
pub record LeavesTop (cur : Cursor) (c : ℕ) : Type 0 where
  pub is_backspace : c ≡ backspace
  pub in_line : ltb_ℤ (pos 0) cur.logical_x ≡ true
  pub at_left : cur.screen_x ≡ pos 0
  pub at_top : cur.screen_y ≡ pos 0

newline-OnScreen :
    (m : Mem) (t : Terminal) (l x y : ℕ)
    → y < num_rows
    → OnScreen (putc_newline m (at_cursor t l x y)).1.cursor
unfolding putc_newline ◌+ℤ◌ ◌-ℤ◌
newline-OnScreen m t l x y hy = record {
  l = 0;
  x = 0;
  y = min (y + 1) 24;
  logical = ground arith;
  column = ground arith;
  row = ground arith;
  column_in = omega arith;
  row_in = omega arith;
  wrapped = omega arith;
}

return-OnScreen :
    (m : Mem) (t : Terminal) (l x y : ℕ)
    → y < num_rows
    → OnScreen (putc_return m (at_cursor t l x y)).1.cursor
unfolding putc_return
return-OnScreen m t l x y hy = record {
  l = 0;
  x = 0;
  y = y;
  logical = refl;
  column = refl;
  row = refl;
  column_in = omega arith;
  row_in = hy;
  wrapped = omega arith;
}

printable-OnScreen :
    (m : Mem) (t : Terminal) (l x y c : ℕ)
    → x < num_cols
    → y < num_rows
    → l % num_cols ≡ x
    → OnScreen (putc_printable m (at_cursor t l x y) c).1.cursor
unfolding putc_printable ◌+ℤ◌ ◌-ℤ◌
printable-OnScreen m t l x y c hx hy hw = record {
  l = l + 1;
  x = if ltb (x + 1) 80 then x + 1 else 0;
  y = if ltb (x + 1) 80 then y else min (y + 1) 24;
  logical = ground arith;
  column = ground arith;
  row = ground arith;
  column_in = ground arith;
  row_in = ground arith;
  wrapped = ground arith;
}

backspace-OnScreen :
    (m : Mem) (t : Terminal) (l x y : ℕ)
    → x < num_cols
    → y < num_rows
    → l % num_cols ≡ x
    → (l ≡ 0) ⊎ (0 < x) ⊎ (0 < y)
    → OnScreen (putc_backspace m (at_cursor t l x y)).1.cursor
unfolding putc_backspace ◌+ℤ◌ ◌-ℤ◌
backspace-OnScreen m t l x y hx hy hw h = record {
  l = l - 1;
  x = if ltb 0 x then x - 1 else (if ltb 0 l then 79 else 0);
  y = if ltb 0 x then y else (if ltb 0 l then y - 1 else y);
  logical = ground arith;
  column = ground arith;
  row = ground arith;
  column_in = ground arith;
  row_in = ground arith;
  wrapped = ground arith;
}

pub cursor_parts : (t : Terminal) (o : OnScreen t.cursor) → t ≡ at_cursor t o.l o.x o.y
cursor_parts t o = λ i. record t {
  cursor = record { logical_x = o.logical i; screen_x = o.column i; screen_y = o.row i };
}

pub not_leaving :
    (l x y : ℕ)
    → ¬ LeavesTop (record { logical_x = pos l; screen_x = pos x; screen_y = pos y }) backspace
    → (l ≡ 0) ⊎ (0 < x) ⊎ (0 < y)
not_leaving zero x y h = inl refl
not_leaving (suc l) (suc x) y h = inr (inl (omega arith))
not_leaving (suc l) zero (suc y) h = inr (inr (omega arith))
not_leaving (suc l) zero zero h =
    absurd
      (h (record { is_backspace = refl; in_line = ground arith; at_left = refl; at_top = refl }))

putc_impl-OnScreen_at :
    (m : Mem) (t : Terminal) (l x y c : ℕ)
    → x < num_cols
    → y < num_rows
    → l % num_cols ≡ x
    → ¬ LeavesTop (at_cursor t l x y).cursor c
    → OnScreen (putc_impl m (at_cursor t l x y) c).1.cursor
unfolding putc_impl
putc_impl-OnScreen_at m t l x y c hx hy hw h = elim (Bool-cases (c == newline)) [
  | inl e ↦ rw e (newline-OnScreen m t l x y hy)
  | inr n ↦ elim (Bool-cases (c == carriage_return)) [
    | inl e ↦ rw (n, e) (return-OnScreen m t l x y hy)
    | inr r ↦ elim (Bool-cases (c == backspace)) [
      | inl e ↦
          rw (n, r, e)
            (backspace-OnScreen m t l x y hx hy hw (
              not_leaving l x y (λ v. h (record {
                is_backspace = (==_iff c backspace).0 e;
                in_line = v.in_line;
                at_left = v.at_left;
                at_top = v.at_top;
              }))))
      | inr b ↦ rw (n, r, b) (printable-OnScreen m t l x y c hx hy hw)
    ]
  ]
]

-- From a cursor on the screen, in the column of its logical line, every character leaves such a
-- cursor, but for a backspace at the top-left corner in a line that began above it.
pub putc_impl-OnScreen :
    (m : Mem) (t : Terminal) (c : ℕ)
    → OnScreen t.cursor
    → ¬ LeavesTop t.cursor c
    → OnScreen (putc_impl m t c).1.cursor
putc_impl-OnScreen m t c o h =
    let e = cursor_parts t o in
    rw e (
      putc_impl-OnScreen_at m t o.l o.x o.y c o.column_in o.row_in o.wrapped
        (subst (λ (u : Terminal). ¬ LeavesTop u.cursor c) e h))
