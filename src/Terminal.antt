-- ===== src/Terminal.antt =====
-- The terminals of student-distrib/terminal.c: cursors, video memory, input buffers and the switch
-- of the displayed terminal. The video pages are regions of one memory, and `video_mem` and
-- `backing_mem` are addresses in it, as in the source.
pub mod Bounds
pub mod Cells
pub mod Pages
pub mod Screen
pub mod Overrun
pub mod Console
pub mod Switch
pub mod Input
pub mod Reads
use loli_os.Prelude.{
  [], ℕ, ◌+◌, ◌-◌, ◌*◌, ◌/◌, ◌%◌, ◌^◌, Bool, ◌∷◌, ◌==◌, if◌then◌else◌, ℤ, pos, pos_part, neg_part,
  ◌+ℤ◌, ◌-ℤ◌, ltb_ℤ, add_u32,
}
use loli_os.Paging.{video_page_start}
use loli_os.Memory.Bytes.{Mem, store}
use loli_os.MemOps.{memmove, memset_word}

-- NUM_TERMINALS, NUM_COLS, NUM_ROWS, ATTRIB, VIDEO_MEM_SIZE, KEYBOARD_BUF_SIZE, MOUSE_BUF_SIZE.
abbrev pub num_terminals : ℕ
num_terminals = 3

abbrev pub num_cols : ℕ
num_cols = 80

abbrev pub num_rows : ℕ
num_rows = 25

abbrev pub attrib : ℕ
attrib = 7

abbrev pub video_mem_size : ℕ
video_mem_size = 4000

abbrev pub keyboard_buf_size : ℕ
keyboard_buf_size = 128

abbrev pub mouse_buf_size : ℕ
mouse_buf_size = 64

-- VGA_MEMORY.
abbrev pub vga_memory : ℕ
vga_memory = video_page_start

-- '\n', '\r', '\b' and ' '.
abbrev pub newline : ℕ
newline = 10

abbrev pub carriage_return : ℕ
carriage_return = 13

abbrev pub backspace : ℕ
backspace = 8

abbrev pub space : ℕ
space = 32

-- `cursor_pos_t`.
pub record Cursor : Type 0 where
  pub logical_x : ℤ
  pub screen_x : ℤ
  pub screen_y : ℤ

-- `kbd_input_buf_t`: the bytes by index, and how many of them are valid.
pub record KbdInputBuf : Type 0 where
  pub buf : Mem
  pub count : ℕ

-- `mouse_input_t` and `mouse_input_buf_t`.
pub record MouseInput : Type 0 where
  pub flags : ℕ
  pub dx : ℕ
  pub dy : ℕ

pub record MouseInputBuf : Type 0 where
  pub buf : ℕ → MouseInput
  pub count : ℕ

-- `terminal_state_t`.
pub record Terminal : Type 0 where
  pub kbd_input : KbdInputBuf
  pub mouse_input : MouseInputBuf
  pub cursor : Cursor
  pub backing_mem : ℕ
  pub video_mem : ℕ
  pub vidmap : Bool

-- vga_clear_region: the pattern is a space with the attribute byte above it.
unfoldable pub vga_clear_region : Mem → ℕ → ℕ → Mem
vga_clear_region m ptr num_chars = memset_word m ptr (space + attrib * 256) num_chars

-- terminal_scroll_down.
unfoldable pub scroll_down : Mem → Terminal → Mem
unfolding vga_clear_region
scroll_down m term =
    let bytes_per_row = num_cols * 2 in
    let shift_count = video_mem_size - bytes_per_row in
    vga_clear_region (memmove m term.video_mem (add_u32 term.video_mem bytes_per_row) shift_count)
      (add_u32 term.video_mem shift_count) (bytes_per_row / 2)

-- The address of `video_mem[((y * NUM_COLS + x) << 1) + k]`, where x and y may be negative.
abbrev pub cell_address : Terminal → ℕ → ℕ
cell_address term k =
    let x = term.cursor.screen_x in
    let y = term.cursor.screen_y in
    (term.video_mem
      + 2 * (pos_part y * num_cols + pos_part x)
      + k
      + 2 ^ 32
      - 2 * (neg_part y * num_cols + neg_part x))
    % 2 ^ 32

-- terminal_write_char.
unfoldable pub write_char : Mem → Terminal → ℕ → Mem
write_char m term c =
    store (store m (cell_address term 0) (c ∷ [])) (cell_address term 1) (attrib ∷ [])

-- The end of two branches of terminal_putc_impl: scroll if the cursor is below the screen.
abbrev pub scroll_if_below : Mem → Terminal → Mem × Terminal
scroll_if_below m term = if ltb_ℤ term.cursor.screen_y (pos num_rows) then (m, term) else (
  scroll_down m term,
  record term { cursor = let cur = term.cursor in record cur { screen_y = cur.screen_y -ℤ pos 1 } },
)

putc_newline : Mem → Terminal → Mem × Terminal
putc_newline m term = scroll_if_below m (record term {
  cursor = record { logical_x = pos 0; screen_x = pos 0; screen_y = term.cursor.screen_y +ℤ pos 1 };
})

putc_return : Mem → Terminal → Mem × Terminal
putc_return m term = (
  m,
  record term {
    cursor = record { logical_x = pos 0; screen_x = pos 0; screen_y = term.cursor.screen_y };
  },
)

-- The cursor one cell to the left, on the row above if it leaves the screen.
abbrev pub cursor_left : Cursor → Cursor
cursor_left cur =
    let x = cur.screen_x -ℤ pos 1 in
    if ltb_ℤ x (pos 0)
    then record {
      logical_x = cur.logical_x -ℤ pos 1;
      screen_x = x +ℤ pos num_cols;
      screen_y = cur.screen_y -ℤ pos 1;
    }
    else record { logical_x = cur.logical_x -ℤ pos 1; screen_x = x; screen_y = cur.screen_y }

putc_backspace : Mem → Terminal → Mem × Terminal
putc_backspace m term =
    let term' = record term { cursor = cursor_left term.cursor } in
    if ltb_ℤ (pos 0) term.cursor.logical_x then (write_char m term' space, term') else (m, term)

-- The cursor one cell to the right, with wrapping.
abbrev pub cursor_right : Cursor → Cursor
cursor_right cur =
    let x = cur.screen_x +ℤ pos 1 in
    if ltb_ℤ x (pos num_cols)
    then record { logical_x = cur.logical_x +ℤ pos 1; screen_x = x; screen_y = cur.screen_y }
    else record {
      logical_x = cur.logical_x +ℤ pos 1;
      screen_x = x -ℤ pos num_cols;
      screen_y = cur.screen_y +ℤ pos 1;
    }

putc_printable : Mem → Terminal → ℕ → Mem × Terminal
putc_printable m term c =
    scroll_if_below (write_char m term c) (record term { cursor = cursor_right term.cursor })

-- terminal_putc_impl.
unfoldable pub putc_impl : Mem → Terminal → ℕ → Mem × Terminal
unfolding putc_newline putc_return putc_backspace putc_printable
putc_impl m term c =
    if c == newline
    then putc_newline m term
    else if c == carriage_return
    then putc_return m term
    else if c == backspace
    then putc_backspace m term
    else putc_printable m term c
