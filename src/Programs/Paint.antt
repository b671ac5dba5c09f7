-- ===== src/Programs/Paint.antt =====
-- The program syscalls/ece391paint.c, which draws on the video page with the mouse. Coordinates are
-- `int32_t`, as integers; an address in the video page wraps at 2^32.

pub mod Following
pub mod Palette
pub mod Pictures
pub mod Screens
pub mod Sessions
pub mod Sketches
pub mod Strokes
use loli_os.Prelude.{
  ℕ, zero, suc, ◌+◌, ◌-◌, ◌*◌, ◌/◌, ◌%◌, ◌^◌, bit_and, bit_or, Bool, true, false, ◌||◌, not, Option,
  none, some, List, [], ◌∷◌, ltb, ◌==◌, if◌then◌else◌, ℤ, pos, negsuc, pos_part, ◌+ℤ◌, ltb_ℤ,
  add_u32, to_u32,
}
use loli_os.Memory.Bytes.{Mem, store}

-- The screen, the palette and the canvas.
abbrev pub screen_width : ℕ
screen_width = 80

abbrev pub screen_height : ℕ
screen_height = 25

abbrev pub num_colors : ℕ
num_colors = 8

abbrev pub color_red : ℕ
color_red = 4

-- COLOR_BG, which is COLOR_GRAY.
abbrev pub color_bg : ℕ
color_bg = 7

abbrev pub palette_width : ℕ
palette_width = 4

abbrev pub palette_height : ℕ
palette_height = 2

-- SCALE_FACTOR_X and SCALE_FACTOR_Y.
abbrev pub scale_factor : ℕ
scale_factor = 72

abbrev pub canvas_width : ℕ
canvas_width = screen_width * scale_factor

abbrev pub canvas_height : ℕ
canvas_height = screen_height * scale_factor

abbrev pub highlight_fg : Bool
highlight_fg = false

abbrev pub highlight_bg : Bool
highlight_bg = true

abbrev pub term_attrib : ℕ
term_attrib = 0x7

-- raw_mouse_input_t.
pub record RawMouseInput : Type 0 where
  pub flags : ℕ
  pub dx : ℕ
  pub dy : ℕ

-- mouse_input_t of the program.
pub record MouseMove : Type 0 where
  pub dx : ℤ
  pub dy : ℤ
  pub left : Bool
  pub right : Bool
  pub middle : Bool

-- A 16-bit word as `int16_t`.
abbrev pub to_i16 : ℕ → ℤ
to_i16 w = if ltb w (2 ^ 15) then pos w else negsuc (2 ^ 16 - 1 - w)

-- The change of a coordinate, with its sign from the flags.
abbrev pub signed : ℕ → ℕ → ℕ → ℤ
signed flags sign d = to_i16 (if bit_and flags sign == 0 then d else bit_or d 0xff00)

-- parse_mouse_input.
unfoldable pub parse_mouse_input : RawMouseInput → Option MouseMove
parse_mouse_input input =
    if not (bit_and input.flags (2 ^ 6 + 2 ^ 7) == 0)
    then none
    else some record {
      dx = signed input.flags (2 ^ 4) input.dx;
      dy = signed input.flags (2 ^ 5) input.dy;
      left = not (bit_and input.flags (2 ^ 0) == 0);
      right = not (bit_and input.flags (2 ^ 1) == 0);
      middle = not (bit_and input.flags (2 ^ 2) == 0);
    }

abbrev kept : Option MouseMove → List MouseMove → List MouseMove
kept none rest = rest
kept (some input) rest = input ∷ rest

-- The loop of parse_mouse_inputs, from index i on, with n rounds left.
parse_from : (ℕ → RawMouseInput) → ℕ → ℕ → List MouseMove
unfolding parse_mouse_input
parse_from raw i zero = []
parse_from raw i (suc n) = kept (parse_mouse_input (raw i)) (parse_from raw (i + 1) n)

-- read_mouse_inputs, for the result of the read and what it left in `raw`. A packet has three bytes.
unfoldable pub read_mouse_inputs : ℤ → (ℕ → RawMouseInput) → List MouseMove
unfolding parse_from
read_mouse_inputs (negsuc n) raw = []
read_mouse_inputs (pos ret) raw = parse_from raw 0 (ret / 3)

abbrev times : ℕ → ℤ → ℤ
times k (pos n) = pos (k * n)
times k (negsuc n) = negsuc (k * suc n - 1)

-- The address of a byte of a cell: 0 for the character, 1 for the attribute.
pub cell : ℕ → ℤ → ℤ → ℕ → ℕ
unfolding ◌+ℤ◌
cell video_mem x y byte =
    add_u32 video_mem (to_u32 (times 2 (times screen_width y +ℤ x) +ℤ pos byte))

abbrev pub put : Mem → ℕ → ℕ → Mem
put m a b = store m a (b ∷ [])

-- draw_char.
unfoldable pub draw_char : Mem → ℕ → ℤ → ℤ → ℕ → Mem
unfolding cell
draw_char m video_mem x y c = put m (cell video_mem x y 0) c

-- What draw_pixel makes of an attribute.
abbrev pub colored : ℕ → ℕ → ℕ
colored old color = bit_or (bit_or (bit_and old 0x88) (color * 2 ^ 4 % 2 ^ 8)) color

-- draw_pixel.
unfoldable pub draw_pixel : Mem → ℕ → ℤ → ℤ → ℕ → Mem
unfolding cell
draw_pixel m video_mem x y color =
    let addr = cell video_mem x y 1 in put m addr (colored (m addr) color)

-- set_highlight.
unfoldable pub set_highlight : Mem → ℕ → ℤ → ℤ → Bool → Mem
unfolding cell
set_highlight m video_mem x y highlight =
    let addr = cell video_mem x y 1 in
    put m addr (if highlight then bit_or (m addr) 0x88 else bit_and (m addr) 0x77)

-- A loop that counts up from i, with n rounds left.
pub count_up : (ℕ → Mem → Mem) → ℕ → ℕ → Mem → Mem
count_up body i zero m = m
count_up body i (suc n) m = count_up body (suc i) n (body i m)

-- The body of the loops of draw_palette.
pub palette_cell : ℕ → ℕ → ℕ → ℕ → Mem → Mem
unfolding draw_pixel set_highlight
palette_cell video_mem i j k m =
    let x = pos (palette_width * i + j) in
    let y = pos (screen_height - palette_height + k) in
    set_highlight (draw_pixel m video_mem x y i) video_mem x y highlight_bg

-- draw_palette.
unfoldable pub draw_palette : Mem → ℕ → Mem
unfolding count_up palette_cell
draw_palette m video_mem =
    count_up
      (λ i.
        count_up (λ j. count_up (λ k. palette_cell video_mem i j k) 0 palette_height) 0
          palette_width)
      0 num_colors m

-- update_palette: whether the cell is in the palette, and the colour that is selected then. With a
-- NULL pointer the caller keeps its colour.
unfoldable pub update_palette : ℤ → ℤ → ℕ → Bool × ℕ
update_palette sx sy selected_color =
    if ltb_ℤ sx (pos 0) || not (ltb_ℤ sx (pos (palette_width * num_colors)))
    then (false, selected_color)
    else if ltb_ℤ sy (pos (screen_height - palette_height)) || not (ltb_ℤ sy (pos screen_height))
    then (false, selected_color)
    else (true, pos_part sx / palette_width)

-- The body of the loops of clear_screen.
pub clear_cell : ℕ → ℕ → ℕ → ℕ → Mem → Mem
unfolding draw_char draw_pixel set_highlight
clear_cell video_mem color i j m =
    let spaced = draw_char m video_mem (pos j) (pos i) 32 in
    set_highlight (draw_pixel spaced video_mem (pos j) (pos i) color) video_mem (pos j) (pos i)
      highlight_bg

-- clear_screen.
unfoldable pub clear_screen : Mem → ℕ → ℕ → Mem
unfolding count_up clear_cell
clear_screen m video_mem color =
    count_up (λ i. count_up (λ j. clear_cell video_mem color i j) 0 screen_width) 0 screen_height m

-- reset_screen.
unfoldable pub reset_screen : Mem → ℕ → Mem
unfolding count_up cell
reset_screen m video_mem =
    count_up
      (λ i. count_up (λ j m'. put m' (cell video_mem (pos j) (pos i) 1) term_attrib) 0 screen_width)
      0 screen_height m
