-- ===== src/Terminal/Screen.antt =====
-- What the screen shows after each character.
use loli_os.Prelude.{
  pos_add, pos_sub, ℕ, ◌+◌, ◌-◌, ◌*◌, ◌<◌, ◌≡◌, refl, ap, ◌∙◌, ◌≢◌, ◌⊎◌, inl, inr, true, false,
  arith, ℕ_discrete, ltb, ◌==◌, if◌then◌else◌, Bool-cases, pos, ◌-ℤ◌, ltb_ℤ,
}
use loli_os.Memory.Bytes.{Mem}
use loli_os.Terminal.{
  Terminal, num_cols, num_rows, backspace, newline, carriage_return, space, scroll_down, write_char,
  putc_impl, scroll_if_below, putc_newline, putc_backspace, putc_printable,
}
use loli_os.Terminal.Bounds.{at_cursor}
use loli_os.Terminal.Cells.{
  Fits, write_char_lem, scroll_down_lem, row_test, col_test, cursor_left_at,
}
use loli_os.Terminal.Pages.{Page, feed, write_cell, step_back, show_char}

-- The video page from v on holds the characters g.
abbrev pub Holds : Mem → ℕ → (ℕ → ℕ → ℕ) → Type 0
Holds m v g = (r c : ℕ) → r < num_rows → c < num_cols → m (v + 160 * r + 2 * c) ≡ g r c

-- The terminal shows the page.
pub record Shows (m : Mem) (t : Terminal) (g : Page) : Type 0 where
  pub logical : t.cursor.logical_x ≡ pos g.line
  pub column : t.cursor.screen_x ≡ pos g.col
  pub at_row : t.cursor.screen_y ≡ pos g.row
  pub column_in : g.col < num_cols
  pub row_in : g.row < num_rows
  pub cells : Holds m t.video_mem g.cell

write_char-Holds :
    (m : Mem) (t : Terminal) (g : Page) (l x y ch : ℕ)
    → Fits t
    → x < num_cols
    → y < num_rows
    → Holds m t.video_mem g.cell
    → Holds (write_char m (at_cursor t l x y) ch) t.video_mem (write_cell g y x ch).cell
unfolding write_cell
write_char-Holds m t g l x y ch hv hx hy h r c hr hc =
    ground (arith, h r c, write_char_lem m t l x y ch (t.video_mem + 160 * r + 2 * c) hv)

scroll_down-Holds :
    (m : Mem) (t : Terminal) (g : ℕ → ℕ → ℕ)
    → Fits t
    → Holds m t.video_mem g
    → Holds (scroll_down m t) t.video_mem (λ r c. if r == 24 then space else g (r + 1) c)
scroll_down-Holds m t g hv h r c hr hc = elim (ℕ_discrete r 24) [
  | yes e ↦ ground (arith, scroll_down_lem m t (t.video_mem + 160 * r + 2 * c) hv)
  | no ne ↦
      let up : t.video_mem + 160 * r + 2 * c + 160 ≡ t.video_mem + 160 * (r + 1) + 2 * c =
        omega arith in
      let from = scroll_down_lem m t (t.video_mem + 160 * r + 2 * c) hv in
      ground (arith, from, ap m up, h (r + 1) c)
]

-- Moving below the page scrolls where it has to.
scroll_if_below-Shows :
    (m : Mem) (t : Terminal) (g : Page)
    → Fits t
    → g.row < num_rows
    → Holds m t.video_mem g.cell
    → let (m', t') = scroll_if_below m (at_cursor t g.line 0 (g.row + 1)) in Shows m' t' (feed g)
unfolding feed ◌-ℤ◌ scroll_down
scroll_if_below-Shows m t g hv hr h = elim (Bool-cases (ltb (g.row + 1) num_rows)) [
  | inl e ↦
      rw (row_test g.row, e, feed)
        (record {
          logical = refl;
          column = refl;
          at_row = refl;
          column_in = omega arith;
          row_in = ground arith;
          cells = h;
        })
  | inr e ↦
      rw (row_test g.row, e, feed)
        (record {
          logical = refl;
          column = refl;
          at_row = ground arith;
          column_in = omega arith;
          row_in = hr;
          cells = scroll_down-Holds m t g.cell hv h;
        })
]

newline-Shows :
    (m : Mem) (t : Terminal) (g : Page)
    → Fits t
    → Shows m (at_cursor t g.line g.col g.row) g
    → let (m', t') = putc_newline m (at_cursor t g.line g.col g.row) in
      Shows m' t' (feed (record g { line = 0 }))
unfolding putc_newline
newline-Shows m t g hv s =
    rw (pos_add g.row 1) (scroll_if_below-Shows m t (record g { line = 0 }) hv s.row_in s.cells)

printable-Shows :
    (m : Mem) (t : Terminal) (g : Page) (ch : ℕ)
    → Fits t
    → Shows m (at_cursor t g.line g.col g.row) g
    → let (m', t') = putc_printable m (at_cursor t g.line g.col g.row) ch in
      let g' = record (write_cell g g.row g.col ch) { line = g.line + 1 } in
      Shows m' t' (if ltb (g.col + 1) num_cols then record g' { col = g.col + 1 } else feed g')
unfolding putc_printable write_cell
printable-Shows m t g ch hv s =
    let written = write_char-Holds m t g g.line g.col g.row ch hv s.column_in s.row_in s.cells in
    rw (pos_add g.col 1, pos_add g.line 1, col_test g.col)
      (elim (Bool-cases (ltb (g.col + 1) num_cols)) [
        | inl e ↦
            let on_screen : ltb_ℤ (pos g.row) (pos num_rows) ≡ true = ground (arith, s.row_in) in
            rw (e, on_screen)
              (record {
                logical = refl;
                column = refl;
                at_row = refl;
                column_in = ground arith;
                row_in = s.row_in;
                cells = written;
              })
        | inr e ↦
            let wrapped : pos (g.col + 1) -ℤ pos num_cols ≡ pos 0 =
              pos_sub (g.col + 1) num_cols (ground arith) ∙ ap pos (ground (arith, s.column_in)) in
            rw (e, pos_add g.row 1, wrapped)
              (scroll_if_below-Shows (write_char m (at_cursor t g.line g.col g.row) ch) t
                (record (write_cell g g.row g.col ch) { line = g.line + 1 }) hv s.row_in written)
      ])

-- A backspace within the page clears the cell before the cursor.
backspace-Shows :
    (m : Mem) (t : Terminal) (g : Page)
    → Fits t
    → Shows m (at_cursor t g.line g.col g.row) g
    → (g.line ≡ 0) ⊎ (0 < g.col) ⊎ (0 < g.row)
    → let (m', t') = putc_backspace m (at_cursor t g.line g.col g.row) in
      let g' = step_back g in
      Shows m' t' (if g.line == 0 then g else write_cell g' g'.row g'.col space)
unfolding putc_backspace step_back write_cell
backspace-Shows m t g hv s h = elim (ℕ_discrete g.line 0) [
  | yes e ↦
      let at_start : (g.line == 0) ≡ true = ground arith in
      let nothing : ltb_ℤ (pos 0) (pos g.line) ≡ false = ground arith in rw (at_start, nothing) s
  | no ne ↦
      let later : (g.line == 0) ≡ false = ground arith in
      let something : ltb_ℤ (pos 0) (pos g.line) ≡ true = ground arith in
      let x = if g.col == 0 then 79 else g.col - 1 in
      let y = if g.col == 0 then g.row - 1 else g.row in
      rw (later, something)
        (rw (cursor_left_at g.line g.col g.row (omega arith) (omega (arith, h))) (record {
          logical = ground arith;
          column = ground arith;
          at_row = ground arith;
          column_in = ground (arith, s.column_in);
          row_in = ground (arith, s.row_in);
          cells = λ r c hr hc. ground (
            arith,
            write_char-Holds m t g (g.line - 1) x y space hv (ground (arith, s.column_in))
                (ground (arith, s.row_in)) s.cells r c hr hc,
          );
        }))
]

putc_impl-Shows_at :
    (m : Mem) (t : Terminal) (g : Page) (ch : ℕ)
    → Fits t
    → Shows m (at_cursor t g.line g.col g.row) g
    → (ch ≢ backspace) ⊎ (g.line ≡ 0) ⊎ (0 < g.col) ⊎ (0 < g.row)
    → let (m', t') = putc_impl m (at_cursor t g.line g.col g.row) ch in Shows m' t' (show_char g ch)
unfolding putc_impl show_char
putc_impl-Shows_at m t g ch hv s h = elim (Bool-cases (ch == newline)) [
  | inl e ↦ rw e (newline-Shows m t g hv s)
  | inr n ↦ elim (Bool-cases (ch == carriage_return)) [
    | inl e ↦
        rw (n, e)
          (record {
            logical = refl;
            column = refl;
            at_row = refl;
            column_in = omega arith;
            row_in = s.row_in;
            cells = s.cells;
          })
    | inr r ↦ elim (Bool-cases (ch == backspace)) [
      | inl e ↦ rw (n, r, e) (backspace-Shows m t g hv s (ground (arith, h)))
      | inr b ↦ rw (n, r, b) (printable-Shows m t g ch hv s)
    ]
  ]
]

-- A backspace that leaves the page at its top-left corner, where the logical line goes on above it.
abbrev pub Escapes : Page → ℕ → Type 0
Escapes g ch = (ch ≡ backspace) × (0 < g.line) × (g.col ≡ 0) × (g.row ≡ 0)

stays :
    (g : Page) (ch : ℕ)
    → ¬ Escapes g ch
    → (ch ≢ backspace) ⊎ (g.line ≡ 0) ⊎ (0 < g.col) ⊎ (0 < g.row)
stays g ch h = elim (ℕ_discrete ch backspace) [
  | no ne ↦ inl ne
  | yes e ↦ elim (ℕ_discrete g.line 0) [
    | yes z ↦ inr (inl z)
    | no nz ↦ elim (ℕ_discrete g.col 0) [
      | no nc ↦ inr (inr (inl (omega arith)))
      | yes c ↦ elim (ℕ_discrete g.row 0) [
        | no nr ↦ inr (inr (inr (omega arith)))
        | yes r ↦ absurd (h (e, omega arith, c, r))
      ]
    ]
  ]
]

-- For a terminal whose video page lies below the end of the address space and shows a page of 25
-- rows of 80 characters, terminal_putc_impl does to the video page and the cursor what show_char
-- does to that page: line feeds and wrapped lines scroll, and a backspace clears the cell before
-- the cursor. The only case left out is a backspace that leaves the page at its top-left corner.
pub putc_impl-Shows :
    (m : Mem) (t : Terminal) (g : Page) (ch : ℕ)
    → Fits t
    → Shows m t g
    → ¬ Escapes g ch
    → let (m', t') = putc_impl m t ch in Shows m' t' (show_char g ch)
putc_impl-Shows m t g ch hv s h =
    let e : t ≡ at_cursor t g.line g.col g.row = λ i. record t {
      cursor = record { logical_x = s.logical i; screen_x = s.column i; screen_y = s.at_row i };
    } in
    rw e (
      putc_impl-Shows_at m t g ch hv
        (record {
          logical = refl;
          column = refl;
          at_row = refl;
          column_in = s.column_in;
          row_in = s.row_in;
          cells = s.cells;
        })
        (stays g ch h))
