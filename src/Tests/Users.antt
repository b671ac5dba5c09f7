-- ===== src/Tests/Users.antt =====
-- User programs, at concrete inputs.
use loli_os.Prelude.{
  ◌/◌, ◌≡◌, refl, inl, inr, true, false, some, List, [], ◌∷◌, arith, pos, negsuc, minus_one,
}
use loli_os.Memory.Bytes.{Mem}
use loli_os.Programs.Paint.{MouseMove, canvas_width, canvas_height}
use loli_os.Programs.Paint.Strokes.{Painting, Round, paint_inputs, main}
use loli_os.Programs.Paint.Sketches.{Sketch, IsAt, sketch_inputs}
use loli_os.Programs.Paint.Following.{Follows, paint_inputs-Follows}
use loli_os.Programs.Paint.Sessions.{Blank, main-Blank}
use loli_os.Tests.Data.{blanks}

-- A page whose cells are all grey, and the cursor in the middle.
abbrev grey : Sketch
grey = record {
  picture = λ x y. 7;
  color = 4;
  cx = canvas_width / 2;
  cy = canvas_height / 2;
  cursor = false;
}

abbrev grey_page : Painting
grey_page = record {
  mem = λ p. 0xff;
  prev_cx = pos (canvas_width / 2);
  prev_cy = pos (canvas_height / 2);
  selected_color = 4;
}

grey-IsAt : IsAt 0xB8000 grey grey_page
grey-IsAt = record {
  on_canvas = (omega arith, omega arith);
  at_x = refl;
  at_y = refl;
  same_color = refl;
  is_color = omega arith;
  shows = record { is_color = λ x y hx hy. omega arith; shown = λ x y hx hy. refl };
}

-- Far to the left and up with the left button.
abbrev strokes : List MouseMove
strokes = record { dx = negsuc 4999; dy = pos 300; left = true; right = false; middle = false } ∷ []

paint_inputs-Follows_example :
    Follows 0xB8000 (sketch_inputs strokes grey) grey_page (paint_inputs 0xB8000 strokes grey_page)
paint_inputs-Follows_example =
    paint_inputs-Follows 0xB8000 strokes grey grey_page (omega arith) grey-IsAt

abbrev two_rounds : List Round
two_rounds =
    record { haz_interrupt = false; ret = pos 3; raw = λ i. record { flags = 9; dx = 5; dy = 6 } }
    ∷ record {
      haz_interrupt = true;
      ret = minus_one;
      raw = λ i. record { flags = 0; dx = 0; dy = 0 };
    }
    ∷ []

main-Blank_example :
    (m' : Mem) × (main (pos 0) (pos 2) (pos 0) 0xB8000 two_rounds blanks
      ≡ some (record { status = 0; message = ""; mem = m' }))
    × Blank 0xB8000 blanks m'
main-Blank_example =
    main-Blank 0 2 0 0xB8000 two_rounds blanks (omega arith) (λ p. omega arith) (inr (inl refl))
