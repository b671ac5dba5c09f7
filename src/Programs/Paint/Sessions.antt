-- ===== src/Programs/Paint/Sessions.antt =====
-- The whole of syscalls/ece391paint.c, from its start to the interrupt that ends it.
use loli_os.Prelude.{
  ℕ, suc, ◌+◌, ◌*◌, ◌/◌, ◌≤◌, ◌<◌, ◌≡◌, refl, subst, ◌∙◌, ◌≢◌, ◌⊎◌, inl, inr, Bool, true, false,
  Option, some, List, [], ◌∷◌, arith, Bool-cases, pos, ltb_ℤ,
}
use loli_os.Memory.Bytes.{Mem, store}
use loli_os.Programs.Paint.{
  screen_width, screen_height, color_red, color_bg, canvas_width, canvas_height, term_attrib, cell,
  put, count_up, reset_screen, read_mouse_inputs, clear_screen, draw_palette,
}
use loli_os.Programs.Paint.Pictures.{Fits, cell_lem, OnlyAttributes}
use loli_os.Programs.Paint.Screens.{count_up_inv}
use loli_os.Programs.Paint.Palette.{first_picture, Started, Started_lem}
use loli_os.Programs.Paint.Strokes.{Painting, paint_inputs, Round, paint_loop, main}
use loli_os.Programs.Paint.Sketches.{Sketch, IsAt, sketch_inputs}
use loli_os.Programs.Paint.Following.{paint_inputs-Follows}

-- The first n attributes are those of the terminal, and only attributes have changed.
record Reset (v n : ℕ) (before m : Mem) : Type 0 where
  attr : (c : ℕ) → c < n → m (v + 2 * c + 1) ≡ term_attrib
  others :
      (p : ℕ) → ((c : ℕ) → c < screen_width * screen_height → p ≢ v + 2 * c + 1) → m p ≡ before p

put-Reset :
    (v i j : ℕ) (before m : Mem)
    → Fits v
    → i < screen_height
    → j < screen_width
    → Reset v (screen_width * i + j) before m
    → Reset v (screen_width * i + suc j) before (put m (cell v (pos j) (pos i) 1) term_attrib)
unfolding store
put-Reset v i j before m fits hi hj r = rw (cell_lem v j i 1 fits hj hi (omega arith)) record {
  attr = λ c l. ground (arith, r.attr c, l);
  others = λ p h.
      let ne = h (screen_width * i + j) (omega (arith, hi, hj)) in ground (arith, r.others p h, ne);
}

reset_screen-Reset :
    (v : ℕ) (m : Mem) → Fits v → Reset v (screen_width * screen_height) m (reset_screen m v)
unfolding reset_screen
reset_screen-Reset v m fits =
    let body = λ (i j : ℕ) (m' : Mem). put m' (cell v (pos j) (pos i) 1) term_attrib in
    count_up_inv (λ i m'. Reset v (screen_width * i) m m') (λ i. count_up (body i) 0 screen_width) 0
      screen_height m (record { attr = λ c l. absurd (omega (arith, l)); others = λ p h. refl })
      (λ i m' _ hi r.
        subst (λ n. Reset v n m (count_up (body i) 0 screen_width m')) (omega arith)
          (count_up_inv (λ j m''. Reset v (screen_width * i + j) m m'') (body i) 0 screen_width m'
            (subst (λ n. Reset v n m m') (omega arith) r)
            (λ j m'' _ hj r'.
              put-Reset v i j m m'' fits (omega (arith, hi)) (omega (arith, hj)) r')))

-- The signal comes in one of the rounds.
abbrev pub Interrupted : List Round → Type 0
Interrupted [] = ⊥
Interrupted (round ∷ rounds) = (round.haz_interrupt ≡ true) ⊎ Interrupted rounds

-- What the loop leaves when it ends: a page without colours, and the rest as it was.
abbrev Ended : ℕ → Mem → Option Mem → Type 0
Ended v before result =
    (m : Mem) × (result ≡ some m) × Reset v (screen_width * screen_height) before m

Reset-after :
    (v : ℕ) (before between m : Mem)
    → OnlyAttributes v before between
    → Reset v (screen_width * screen_height) between m
    → Reset v (screen_width * screen_height) before m
Reset-after v before between m o r = record {
  attr = r.attr;
  others =
      λ p h. r.others p h ∙ o p (λ x y hx hy. h (screen_width * y + x) (omega (arith, hx, hy)));
}

paint_loop-Ended :
    (v : ℕ) (rounds : List Round) (k : Sketch) (s : Painting)
    → Fits v
    → IsAt v k s
    → Interrupted rounds
    → Ended v s.mem (paint_loop v rounds s)
unfolding paint_loop
paint_loop-Ended v [] k s fits i h = absurd h
paint_loop-Ended v (round ∷ rounds) k s fits i h = elim (Bool-cases round.haz_interrupt) [
  | inl stop ↦ (reset_screen s.mem v, rw stop refl, reset_screen-Reset v s.mem fits)
  | inr go_on ↦
      let inputs = read_mouse_inputs round.ret round.raw in
      let (next, kept) = paint_inputs-Follows v inputs k s fits i in
      let after = paint_inputs v inputs s in
      let (m, ends, reset) =
        paint_loop-Ended v rounds (sketch_inputs inputs k) after fits next
          (later round.haz_interrupt rounds h go_on) in
      (m, rw go_on ends, Reset-after v s.mem after.mem m kept reset)
]
  where
    later : (b : Bool) (rs : List Round) → (b ≡ true) ⊎ Interrupted rs → b ≡ false → Interrupted rs
    later b rs (inr r) e = r
    later b rs (inl t) e = cc

-- What the loop starts with.
abbrev first_sketch : Sketch
first_sketch = record {
  picture = first_picture;
  color = color_red;
  cx = canvas_width / 2;
  cy = canvas_height / 2;
  cursor = false;
}

abbrev first_painting : Mem → ℕ → Painting
first_painting m v = record {
  mem = draw_palette (clear_screen m v color_bg) v;
  prev_cx = pos (canvas_width / 2);
  prev_cy = pos (canvas_height / 2);
  selected_color = color_red;
}

first-IsAt :
    (v : ℕ) (m : Mem)
    → Started v m (draw_palette (clear_screen m v color_bg) v)
    → IsAt v first_sketch (first_painting m v)
first-IsAt v m s = record {
  on_canvas = (omega arith, omega arith);
  at_x = refl;
  at_y = refl;
  same_color = refl;
  is_color = omega arith;
  shows = s.shows;
}

-- A terminal page without text, and the rest of the memory as it was.
pub record Blank (v : ℕ) (before m : Mem) : Type 0 where
  pub space : (c : ℕ) → c < screen_width * screen_height → m (v + 2 * c) ≡ 32
  pub attr : (c : ℕ) → c < screen_width * screen_height → m (v + 2 * c + 1) ≡ term_attrib
  pub outside : (p : ℕ) → (p < v) ⊎ (v + 2 * (screen_width * screen_height) ≤ p) → m p ≡ before p

Blank-Started :
    (v : ℕ) (before start m : Mem)
    → Started v before start
    → Reset v (screen_width * screen_height) start m
    → Blank v before m
Blank-Started v before start m s r = record {
  space = λ c l. r.others (v + 2 * c) (λ d _ e. absurd (omega (arith, e))) ∙ s.space c l;
  attr = r.attr;
  outside = λ p h. r.others p (λ d l e. absurd (ground (arith, e, h, l))) ∙ s.outside p h;
}

not_negative : (n : ℕ) → ltb_ℤ (pos n) (pos 0) ≡ false
not_negative n = ground arith

-- When the three system calls of the paint program succeed and the interrupt signal comes, for
-- memory of bytes and a page that ends below 2^32, the program ends with the status 0 and writes
-- no message, whatever the reads of the mouse have given; it leaves the page without text in the
-- terminal's attributes, and every address outside the page as it was.
pub main-Blank :
    (handler_set mouse_fd mapped v : ℕ) (rounds : List Round) (m : Mem)
    → Fits v
    → ((p : ℕ) → m p < 256)
    → Interrupted rounds
    → (m' : Mem) × (main (pos handler_set) (pos mouse_fd) (pos mapped) v rounds m
        ≡ some (record { status = 0; message = ""; mem = m' }))
      × Blank v m m'
unfolding main
main-Blank handler_set mouse_fd mapped v rounds m fits byte h =
    let s = Started_lem v m fits byte in
    let start = first_painting m v in
    let (m', ends, reset) =
      paint_loop-Ended v rounds first_sketch start fits (first-IsAt v m s) h in
    (
      m',
      rw (not_negative handler_set, not_negative mouse_fd, not_negative mapped, ends) refl,
      Blank-Started v m start.mem m' s reset,
    )
