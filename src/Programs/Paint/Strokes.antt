-- ===== src/Programs/Paint/Strokes.antt =====
-- The loop of syscalls/ece391paint.c over the inputs of the mouse, and `main`.
use Prim.Native.String.{String}
use loli_os.Prelude.{
  ℕ, suc, ◌-◌, ◌/◌, Bool, Option, none, some, List, [], ◌∷◌, if◌then◌else◌, ℤ, pos, negsuc, sub_ℕ,
  ◌+ℤ◌, ◌-ℤ◌, ltb_ℤ,
}
use loli_os.Memory.Bytes.{Mem}
use loli_os.Programs.Paint.{
  RawMouseInput, MouseMove, screen_height, color_red, color_bg, scale_factor, canvas_width,
  canvas_height, highlight_fg, highlight_bg, read_mouse_inputs, draw_pixel, set_highlight,
  draw_palette, update_palette, clear_screen, reset_screen,
}

-- One coordinate of clamp_coords.
abbrev pub clamp : ℤ → ℕ → ℤ
clamp x limit =
    if ltb_ℤ x (pos 0) then pos 0 else if ltb_ℤ x (pos limit) then x else pos (limit - 1)

-- clamp_coords.
unfoldable pub clamp_coords : ℤ → ℤ → ℤ × ℤ
clamp_coords x y = (clamp x canvas_width, clamp y canvas_height)

-- Division of an `int32_t`, which rounds to zero.
abbrev pub quotient : ℤ → ℕ → ℤ
quotient (pos n) k = pos (n / k)
quotient (negsuc n) k = sub_ℕ 0 (suc n / k)

-- canvas_to_screen.
unfoldable pub canvas_to_screen : ℤ → ℤ → ℤ × ℤ
unfolding ◌-ℤ◌
canvas_to_screen cx cy =
    (quotient cx scale_factor, pos (screen_height - 1) -ℤ quotient cy scale_factor)

-- The variables of the loop of `main`, with the memory.
pub record Painting : Type 0 where
  pub mem : Mem
  pub prev_cx : ℤ
  pub prev_cy : ℤ
  pub selected_color : ℕ

-- What the buttons do under the cursor: the memory and the selected colour.
unfoldable pub press : ℕ → MouseMove → ℤ → ℤ → Mem → ℕ → Mem × ℕ
unfolding update_palette draw_pixel
press video_mem input sx sy m color =
    let (in_palette, chosen) = update_palette sx sy color in
    if input.left
    then (if in_palette then (m, chosen) else (draw_pixel m video_mem sx sy color, color))
    else if input.right
    then (if in_palette then (m, color) else (draw_pixel m video_mem sx sy color_bg, color))
    else (m, color)

-- The body of the loop over the inputs.
unfoldable pub paint_input : ℕ → MouseMove → Painting → Painting
paint_input video_mem input s =
    let prev = canvas_to_screen s.prev_cx s.prev_cy in
    let undrawn = set_highlight s.mem video_mem prev.0 prev.1 highlight_bg in
    let new = clamp_coords (s.prev_cx +ℤ input.dx) (s.prev_cy +ℤ input.dy) in
    let on_screen = canvas_to_screen new.0 new.1 in
    let drawn = set_highlight undrawn video_mem on_screen.0 on_screen.1 highlight_fg in
    let after = press video_mem input on_screen.0 on_screen.1 drawn s.selected_color in
    record { mem = after.0; prev_cx = new.0; prev_cy = new.1; selected_color = after.1 }

-- The loop over the inputs.
unfoldable pub paint_inputs : ℕ → List MouseMove → Painting → Painting
unfolding paint_input
paint_inputs video_mem [] s = s
paint_inputs video_mem (input ∷ inputs) s =
    paint_inputs video_mem inputs (paint_input video_mem input s)

-- What one round of the loop of `main` sees: whether the signal came, and what the read gives.
pub record Round : Type 0 where
  pub haz_interrupt : Bool
  pub ret : ℤ
  pub raw : ℕ → RawMouseInput

-- The loop of `main`: the memory at the end. It goes on at the end of the list.
unfoldable pub paint_loop : ℕ → List Round → Painting → Option Mem
unfolding reset_screen read_mouse_inputs paint_inputs
paint_loop video_mem [] s = none
paint_loop video_mem (round ∷ rounds) s =
    let rest =
      paint_loop video_mem rounds
        (paint_inputs video_mem (read_mouse_inputs round.ret round.raw) s) in
    if round.haz_interrupt then some (reset_screen s.mem video_mem) else rest

-- What `main` leaves: its status, what it has written to the terminal, and the memory.
pub record Finished : Type 0 where
  pub status : ℕ
  pub message : String
  pub mem : Mem

abbrev finish : Option Mem → Option Finished
finish none = none
finish (some m) = some (record { status = 0; message = ""; mem = m })

-- `main`, for the results of set_handler, of open and of vidmap, and for the page that vidmap gives.
unfoldable pub main : ℤ → ℤ → ℤ → ℕ → List Round → Mem → Option Finished
main handler_set mouse_fd mapped video_mem rounds m =
    if ltb_ℤ handler_set (pos 0)
    then some (record { status = 1; message = "Could not set interrupt handler\n"; mem = m })
    else if ltb_ℤ mouse_fd (pos 0)
    then some (record { status = 1; message = "Could not open mouse file\n"; mem = m })
    else if ltb_ℤ mapped (pos 0)
    then some (record { status = 1; message = "Could not create vidmap page\n"; mem = m })
    else finish (
        paint_loop video_mem rounds (record {
          mem = draw_palette (clear_screen m video_mem color_bg) video_mem;
          prev_cx = pos (canvas_width / 2);
          prev_cy = pos (canvas_height / 2);
          selected_color = color_red;
        }))
