-- ===== src/Programs/Paint/Following.antt =====
-- The program syscalls/ece391paint.c follows a sketch.
use loli_os.Prelude.{
  ℕ, ◌/◌, ◌<◌, ◌≡◌, refl, sym, subst, ◌∙◌, Bool, true, false, ◌&&◌, Option, none, some, List, [],
  ◌∷◌, arith, ◌==◌, if◌then◌else◌, pos,
}
use loli_os.Memory.Bytes.{Mem}
use loli_os.Programs.Paint.{
  MouseMove, screen_width, screen_height, num_colors, canvas_width, canvas_height, draw_pixel,
  set_highlight,
}
use loli_os.Programs.Paint.Strokes.{clamp_coords, Painting, press, paint_input, paint_inputs}
use loli_os.Programs.Paint.Pictures.{
  Fits, Shows, Shows_ext, changed, OnlyAttributes, draw_pixel-Shows, set_highlight-Shows,
  draw_pixel-OnlyAttributes, set_highlight-OnlyAttributes,
}
use loli_os.Programs.Paint.Sketches.{
  Sketch, column, row, move, in_palette, brush, paint, sketch_input, sketch_inputs, IsAt,
  clamp-move, canvas_to_screen_lem, update_palette_lem,
}

-- The buttons on a page that shows a picture.
record Pressed (v : ℕ) (m : Mem) (picture : ℕ → ℕ → ℕ) (dark : ℕ → ℕ → Bool) (chosen : ℕ)
    (result : Mem × ℕ) : Type 0 where
  page : Shows v result.0 picture dark
  color : result.1 ≡ chosen
  others : OnlyAttributes v m result.0

-- What `press` gives, by the palette and the buttons.
abbrev pressed : ℕ → Mem → ℕ → ℕ → ℕ → Option ℕ → ℕ → Mem × ℕ
pressed v m x y color none chosen = (m, chosen)
pressed v m x y color (some c) chosen = (draw_pixel m v (pos x) (pos y) c, chosen)

abbrev chosen : Bool → MouseMove → ℕ → ℕ → ℕ
chosen palette input x color = if palette && input.left then x / 4 else color

press_lem :
    (v : ℕ) (input : MouseMove) (x y : ℕ) (m : Mem) (color : ℕ)
    → y < screen_height
    → press v input (pos x) (pos y) m color
      ≡ pressed v m x y color
          (brush (in_palette x y) input color)
          (chosen (in_palette x y) input x color)
unfolding press
press_lem v input x y m color hy = rw (update_palette_lem x y color hy) (ground arith)

pressed-Pressed :
    (v : ℕ) (m : Mem) (picture : ℕ → ℕ → ℕ) (dark : ℕ → ℕ → Bool) (x y color : ℕ) (b : Option ℕ)
    (c : ℕ)
    → Fits v
    → Shows v m picture dark
    → x < screen_width
    → y < screen_height
    → ((d : ℕ) → b ≡ some d → d < num_colors)
    → Pressed v m (paint picture x y b) dark c (pressed v m x y color b c)
pressed-Pressed v m picture dark x y color none c fits s hx hy h = record {
  page = s;
  color = refl;
  others = λ p _. refl;
}
pressed-Pressed v m picture dark x y color (some d) c fits s hx hy h = record {
  page = draw_pixel-Shows v m picture dark x y d fits s hx hy (h d refl);
  color = refl;
  others = draw_pixel-OnlyAttributes v m x y d fits hx hy;
}

brush_color :
    (palette : Bool) (input : MouseMove) (color d : ℕ)
    → color < num_colors
    → brush palette input color ≡ some d
    → d < num_colors
brush_color palette input color d h e = ground (arith, h, e)

chosen_color :
    (x y : ℕ) (input : MouseMove) (color : ℕ)
    → color < num_colors
    → chosen (in_palette x y) input x color < num_colors
chosen_color x y input color h = ground (arith, h)

trans_OnlyAttributes :
    (v : ℕ) (m m' m'' : Mem)
    → OnlyAttributes v m m'
    → OnlyAttributes v m' m''
    → OnlyAttributes v m m''
trans_OnlyAttributes v m m' m'' f g p h = g p h ∙ f p h

-- The page when the cursor has moved from one cell to another.
abbrev moved : ℕ → Mem → ℕ → ℕ → ℕ → ℕ → Mem
moved v m px py x y =
    set_highlight (set_highlight m v (pos px) (pos py) true) v (pos x) (pos y) false

abbrev under : ℕ → ℕ → ℕ → ℕ → Bool
under a b x y = x == a && y == b

moved_dark :
    (cursor : Bool) (px py a b x y : ℕ)
    → (true && under a b x y)
      ≡ changed (changed (λ x y. cursor && under px py x y) px py false) a b true x y
moved_dark true px py a b x y = ground arith
moved_dark false px py a b x y = ground arith

moved-Shows :
    (v : ℕ) (m : Mem) (picture : ℕ → ℕ → ℕ) (cursor : Bool) (px py a b : ℕ)
    → Fits v
    → Shows v m picture (λ x y. cursor && under px py x y)
    → (px < screen_width) × (py < screen_height)
    → (a < screen_width) × (b < screen_height)
    → Shows v (moved v m px py a b) picture (λ x y. true && under a b x y)
moved-Shows v m picture cursor px py a b fits s p q =
    let first =
      set_highlight-Shows v m picture (λ x y. cursor && under px py x y) px py false fits s p.0
        p.1 in
    let undrawn = set_highlight m v (pos px) (pos py) true in
    let dark = changed (λ x y. cursor && under px py x y) px py false in
    Shows_ext v (moved v m px py a b) picture picture (changed dark a b true)
      (λ x y. true && under a b x y)
      (set_highlight-Shows v undrawn picture dark a b true fits first q.0 q.1) (λ x y. refl)
      (moved_dark cursor px py a b)

moved-OnlyAttributes :
    (v : ℕ) (m : Mem) (px py a b : ℕ)
    → Fits v
    → (px < screen_width) × (py < screen_height)
    → (a < screen_width) × (b < screen_height)
    → OnlyAttributes v m (moved v m px py a b)
moved-OnlyAttributes v m px py a b fits p q =
    let undrawn = set_highlight m v (pos px) (pos py) true in
    trans_OnlyAttributes v m undrawn (moved v m px py a b)
      (set_highlight-OnlyAttributes v m px py true fits p.0 p.1)
      (set_highlight-OnlyAttributes v undrawn a b false fits q.0 q.1)

abbrev placed : Mem × ℕ → ℕ → ℕ → Painting
placed r cx cy = record { mem = r.0; prev_cx = pos cx; prev_cy = pos cy; selected_color = r.1 }

paint_input_lem :
    (v : ℕ) (input : MouseMove) (m : Mem) (color cx cy : ℕ)
    → cx < canvas_width
    → cy < canvas_height
    → paint_input v input (placed (m, color) cx cy) ≡ (
        let cx' = move cx input.dx canvas_width in
        let cy' = move cy input.dy canvas_height in
        let palette = in_palette (column cx') (row cy') in
        placed
          (pressed v
            (moved v m (column cx) (row cy) (column cx') (row cy'))
            (column cx')
            (row cy')
            color
            (brush palette input color)
            (chosen palette input (column cx') color))
          cx'
          cy')
unfolding paint_input clamp_coords
paint_input_lem v input m color cx cy hx hy =
    let (ex, lx) = clamp-move cx canvas_width input.dx hx in
    let (ey, ly) = clamp-move cy canvas_height input.dy hy in
    let cx' = move cx input.dx canvas_width in
    let cy' = move cy input.dy canvas_height in
    let (old, _, _) = canvas_to_screen_lem cx cy hx hy in
    let (new, _, on) = canvas_to_screen_lem cx' cy' lx ly in
    rw
      (
        old,
        ex,
        ey,
        new,
        press_lem v input (column cx') (row cy')
            (moved v m (column cx) (row cy) (column cx') (row cy')) color on,
      )
      refl

-- A step of the program and a step of the sketch, with what the step leaves alone.
abbrev pub Follows : ℕ → Sketch → Painting → Painting → Type 0
Follows v k s s' = IsAt v k s' × OnlyAttributes v s.mem s'.mem

paint_placed-Follows :
    (v : ℕ) (input : MouseMove) (m : Mem) (k : Sketch)
    → Fits v
    → IsAt v k (placed (m, k.color) k.cx k.cy)
    → Follows v
        (sketch_input input k)
        (placed (m, k.color) k.cx k.cy)
        (paint_input v input (placed (m, k.color) k.cx k.cy))
unfolding sketch_input
paint_placed-Follows v input m k fits i =
    let cx' = move k.cx input.dx canvas_width in
    let cy' = move k.cy input.dy canvas_height in
    let lx = (clamp-move k.cx canvas_width input.dx i.on_canvas.0).1 in
    let ly = (clamp-move k.cy canvas_height input.dy i.on_canvas.1).1 in
    let q = canvas_to_screen_lem cx' cy' lx ly in
    let x = column cx' in
    let y = row cy' in
    let palette = in_palette x y in
    let there = canvas_to_screen_lem k.cx k.cy i.on_canvas.0 i.on_canvas.1 in
    let page = moved v m (column k.cx) (row k.cy) x y in
    let dark = λ (a b : ℕ). true && under x y a b in
    let press =
      pressed-Pressed v page k.picture dark x y k.color (brush palette input k.color)
        (chosen palette input x k.color) fits
        (moved-Shows v m k.picture k.cursor (column k.cx) (row k.cy) x y fits i.shows
          (there.1, there.2) (q.1, q.2))
        q.1 q.2 (λ d e. brush_color palette input k.color d i.is_color e) in
    let step = paint_input_lem v input m k.color k.cx k.cy i.on_canvas.0 i.on_canvas.1 in
    subst (Follows v (sketch_input input k) (placed (m, k.color) k.cx k.cy)) (sym step) (
      record {
        on_canvas = (lx, ly);
        at_x = refl;
        at_y = refl;
        same_color = press.color;
        is_color = chosen_color x y input k.color i.is_color;
        shows = press.page;
      },
      trans_OnlyAttributes v m page
          (pressed v page x y k.color (brush palette input k.color)
            (chosen palette input x k.color)).0
          (moved-OnlyAttributes v m (column k.cx) (row k.cy) x y fits (there.1, there.2) (q.1, q.2))
          press.others,
    )

at_placed : (v : ℕ) (k : Sketch) (s : Painting) → IsAt v k s → placed (s.mem, k.color) k.cx k.cy ≡ s
at_placed v k s i = ground (arith, i.at_x, i.at_y, i.same_color)

-- While the page shows a sketch, an input of the mouse changes it as the sketch changes.
paint_input-Follows :
    (v : ℕ) (input : MouseMove) (k : Sketch) (s : Painting)
    → Fits v
    → IsAt v k s
    → Follows v (sketch_input input k) s (paint_input v input s)
paint_input-Follows v input k s fits i =
    let e = at_placed v k s i in
    subst (λ t. Follows v (sketch_input input k) t (paint_input v input t)) e
      (paint_placed-Follows v input s.mem k fits (subst (IsAt v k) (sym e) i))

-- For a video page that ends below 2^32 and shows a sketch, every list of inputs of the mouse
-- leaves the page of the sketch after those inputs: the cursor moves and stops at the edges of the
-- canvas, a button paints the cell under it, or picks the colour of the palette, which is never
-- painted over; the highlight is off under the cursor alone, and nothing but attributes of the
-- page changes.
pub paint_inputs-Follows :
    (v : ℕ) (inputs : List MouseMove) (k : Sketch) (s : Painting)
    → Fits v
    → IsAt v k s
    → Follows v (sketch_inputs inputs k) s (paint_inputs v inputs s)
unfolding paint_inputs sketch_inputs
paint_inputs-Follows v [] k s fits i = (i, λ p _. refl)
paint_inputs-Follows v (input ∷ inputs) k s fits i =
    let (next, kept) = paint_input-Follows v input k s fits i in
    let s' = paint_input v input s in
    let (end, kept_after) = paint_inputs-Follows v inputs (sketch_input input k) s' fits next in
    (end, trans_OnlyAttributes v s.mem s'.mem (paint_inputs v inputs s').mem kept kept_after)
