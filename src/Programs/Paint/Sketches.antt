-- ===== src/Programs/Paint/Sketches.antt =====
-- What the inputs of syscalls/ece391paint.c amount to: a picture, a selected colour, and a cursor that
-- moves on the canvas.
use loli_os.Prelude.{
  pos_sub, ℕ, suc, ◌+◌, ◌-◌, ◌/◌, ◌<◌, min, ◌≡◌, refl, Bool, true, false, ◌&&◌, Option, none, some,
  List, [], ◌∷◌, arith, ltb, leb, ◌==◌, if◌then◌else◌, ℤ, pos, negsuc, ◌+ℤ◌,
}
use loli_os.Programs.Paint.{
  MouseMove, screen_width, screen_height, num_colors, color_bg, scale_factor, canvas_width,
  canvas_height, update_palette,
}
use loli_os.Programs.Paint.Strokes.{clamp, canvas_to_screen, Painting}
use loli_os.Programs.Paint.Pictures.{Shows, changed}

pub record Sketch : Type 0 where
  pub picture : ℕ → ℕ → ℕ
  pub color : ℕ
  pub cx : ℕ
  pub cy : ℕ
  pub cursor : Bool

-- The cell under the cursor: y grows upwards on the canvas and downwards on the screen.
abbrev pub column : ℕ → ℕ
column cx = cx / scale_factor

abbrev pub row : ℕ → ℕ
row cy = screen_height - 1 - cy / scale_factor

-- A coordinate moves by d and stops at the edges of the canvas.
abbrev pub move : ℕ → ℤ → ℕ → ℕ
move c (pos n) limit = min (c + n) (limit - 1)
move c (negsuc n) limit = c - suc n

-- The palette is eight times four cells wide, in the two lowest rows.
abbrev pub in_palette : ℕ → ℕ → Bool
in_palette x y = ltb x 32 && leb 23 y

-- What the buttons paint on a cell: nothing in the palette.
abbrev pub brush : Bool → MouseMove → ℕ → Option ℕ
brush palette input color =
    if palette
    then none
    else if input.left
    then some color
    else if input.right
    then some color_bg
    else none

abbrev pub paint : (ℕ → ℕ → ℕ) → ℕ → ℕ → Option ℕ → ℕ → ℕ → ℕ
paint picture x y none = picture
paint picture x y (some color) = changed picture x y color

-- One input of the mouse.
unfoldable pub sketch_input : MouseMove → Sketch → Sketch
sketch_input input k =
    let cx = move k.cx input.dx canvas_width in
    let cy = move k.cy input.dy canvas_height in
    let palette = in_palette (column cx) (row cy) in
    record {
      picture = paint k.picture (column cx) (row cy) (brush palette input k.color);
      color = if palette && input.left then column cx / 4 else k.color;
      cx = cx;
      cy = cy;
      cursor = true;
    }

unfoldable pub sketch_inputs : List MouseMove → Sketch → Sketch
unfolding sketch_input
sketch_inputs [] k = k
sketch_inputs (input ∷ inputs) k = sketch_inputs inputs (sketch_input input k)

-- The program is at a sketch.
pub record IsAt (v : ℕ) (k : Sketch) (s : Painting) : Type 0 where
  pub on_canvas : (k.cx < canvas_width) × (k.cy < canvas_height)
  pub at_x : s.prev_cx ≡ pos k.cx
  pub at_y : s.prev_cy ≡ pos k.cy
  pub same_color : s.selected_color ≡ k.color
  pub is_color : k.color < num_colors
  pub shows : Shows v s.mem k.picture (λ x y. k.cursor && (x == column k.cx && y == row k.cy))

pub clamp-move :
    (c limit : ℕ) (d : ℤ)
    → c < limit
    → (clamp (pos c +ℤ d) limit ≡ pos (move c d limit)) × (move c d limit < limit)
unfolding ◌+ℤ◌
clamp-move c limit (pos n) h = (ground arith, ground arith)
clamp-move c limit (negsuc n) h = (ground arith, ground arith)

pub canvas_to_screen_lem :
    (cx cy : ℕ)
    → cx < canvas_width
    → cy < canvas_height
    → (canvas_to_screen (pos cx) (pos cy) ≡ (pos (column cx), pos (row cy)))
      × (column cx < screen_width)
      × (row cy < screen_height)
unfolding canvas_to_screen
canvas_to_screen_lem cx cy hx hy =
    (rw (pos_sub 24 (cy / 72) (omega (arith, hy))) refl, omega (arith, hx), omega arith)

pub update_palette_lem :
    (x y color : ℕ)
    → y < screen_height
    → update_palette (pos x) (pos y) color
      ≡ (if in_palette x y then (true, x / 4) else (false, color))
unfolding update_palette
update_palette_lem x y color hy = ground (arith, hy)
