-- ===== src/Terminal/Pages.antt =====
-- The screen of a terminal as a reader sees it.
use loli_os.Prelude.{ℕ, ◌+◌, ◌-◌, ◌&&◌, ltb, ◌==◌, if◌then◌else◌}
use loli_os.Terminal.{num_cols, num_rows, backspace, newline, carriage_return, space}

-- The screen as a reader sees it: 25 rows of 80 characters, and where the next one goes. `line`
-- counts the characters since the start of the logical line.
pub record Page : Type 0 where
  pub cell : ℕ → ℕ → ℕ
  pub line : ℕ
  pub col : ℕ
  pub row : ℕ

-- To the start of the next row; at the bottom the rows move up, and the first one is lost.
unfoldable pub feed : Page → Page
feed g =
    if ltb (g.row + 1) num_rows
    then record g { col = 0; row = g.row + 1 }
    else record g { col = 0; cell = λ r c. if r == 24 then space else g.cell (r + 1) c }

unfoldable pub write_cell : Page → ℕ → ℕ → ℕ → Page
write_cell g row col ch = record g { cell = λ r c. if r == row && c == col then ch else g.cell r c }

-- One to the left, back to the row above at the left edge.
unfoldable pub step_back : Page → Page
step_back g =
    if g.col == 0
    then record g { line = g.line - 1; col = 79; row = g.row - 1 }
    else record g { line = g.line - 1; col = g.col - 1 }

-- What a character does to the page.
unfoldable pub show_char : Page → ℕ → Page
unfolding feed write_cell step_back
show_char g ch =
    if ch == newline
    then feed (record g { line = 0 })
    else if ch == carriage_return
    then record g { line = 0; col = 0 }
    else if ch == backspace
    then (if g.line == 0 then g else let g' = step_back g in write_cell g' g'.row g'.col space)
    else let g' = record (write_cell g g.row g.col ch) { line = g.line + 1 } in
      if ltb (g.col + 1) num_cols then record g' { col = g.col + 1 } else feed g'
