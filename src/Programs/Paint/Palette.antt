-- ===== src/Programs/Paint/Palette.antt =====
-- The palette of syscalls/ece391paint.c, and the page before the first input.
use loli_os.Prelude.{
  ℕ, suc, ◌+◌, ◌*◌, ◌/◌, ◌≤◌, ◌<◌, ◌≡◌, refl, ap, ◌∙◌, ◌⊎◌, Bool, true, false, ◌&&◌, ◌||◌, arith,
  ltb, leb, ◌==◌, if◌then◌else◌, pos,
}
use loli_os.Memory.Bytes.{Mem}
use loli_os.Programs.Paint.{
  screen_width, screen_height, num_colors, palette_width, palette_height, color_bg, count_up,
  clear_screen, palette_cell, draw_palette, draw_pixel, set_highlight,
}
use loli_os.Programs.Paint.Pictures.{
  Fits, Shows, Shows_ext, changed, OnlyAttributes, draw_pixel-Shows, set_highlight-Shows,
  draw_pixel-OnlyAttributes, set_highlight-OnlyAttributes,
}
use loli_os.Programs.Paint.Screens.{count_up_inv, Cleared, clear_screen-Cleared}

-- The palette as far as the columns before x, and n cells of column x.
abbrev drawn : ℕ → ℕ → ℕ → ℕ → ℕ
drawn column n x y =
    if (leb 23 y && ltb y 25) && (ltb x column || (x == column && ltb y (23 + n)))
    then x / 4
    else color_bg

abbrev nothing_dark : ℕ → ℕ → Bool
nothing_dark x y = false

-- A page that shows a picture and differs from another one in attributes only.
abbrev Draws : ℕ → Mem → (ℕ → ℕ → ℕ) → Mem → Type 0
Draws v before picture m = Shows v m picture nothing_dark × OnlyAttributes v before m

next_cell :
    (i j k x y : ℕ)
    → i < 8
    → j < 4
    → k < 2
    → drawn (4 * i + j) (suc k) x y ≡ changed (drawn (4 * i + j) k) (4 * i + j) (23 + k) i x y
next_cell i j k x y hi hj hk = ground (arith, hi, hj, hk)

next_column : (c x y : ℕ) → drawn (suc c) 0 x y ≡ drawn c 2 x y
next_column c x y = ground arith

palette_cell-Draws :
    (v i j k : ℕ) (before m : Mem)
    → Fits v
    → i < 8
    → j < 4
    → k < 2
    → Draws v before (drawn (4 * i + j) k) m
    → Draws v before (drawn (4 * i + j) (suc k)) (palette_cell v i j k m)
unfolding palette_cell
palette_cell-Draws v i j k before m fits hi hj hk (s, o) =
    let x = 4 * i + j in
    let y = 23 + k in
    let hx : x < screen_width = omega arith in
    let hy : y < screen_height = omega arith in
    let picture = changed (drawn x k) x y i in
    let colored = draw_pixel m v (pos x) (pos y) i in
    let first = draw_pixel-Shows v m (drawn x k) nothing_dark x y i fits s hx hy hi in
    let lit = set_highlight-Shows v colored picture nothing_dark x y false fits first hx hy in
    (
      Shows_ext v (set_highlight colored v (pos x) (pos y) true) picture (drawn x (suc k))
          (changed nothing_dark x y false) nothing_dark lit (λ a b. next_cell i j k a b hi hj hk)
          (λ a b. ground arith),
      λ p h.
          set_highlight-OnlyAttributes v colored x y true fits hx hy p h
          ∙ draw_pixel-OnlyAttributes v m x y i fits hx hy p h
          ∙ o p h,
    )

Draws-ext :
    (v : ℕ) (before m : Mem) (f g : ℕ → ℕ → ℕ)
    → Draws v before f m
    → ((x y : ℕ) → g x y ≡ f x y)
    → Draws v before g m
Draws-ext v before m f g (s, o) e =
    (Shows_ext v m f g nothing_dark nothing_dark s e (λ x y. refl), o)

palette_column-Draws :
    (v i j : ℕ) (before m : Mem)
    → Fits v
    → i < 8
    → j < 4
    → Draws v before (drawn (4 * i + j) 0) m
    → Draws v before
        (drawn (4 * i + suc j) 0)
        (count_up (λ k. palette_cell v i j k) 0 palette_height m)
palette_column-Draws v i j before m fits hi hj d =
    let after = count_up (λ k. palette_cell v i j k) 0 palette_height m in
    let done =
      count_up_inv (λ k m'. Draws v before (drawn (4 * i + j) k) m') (λ k. palette_cell v i j k) 0
        palette_height m d
        (λ k m' _ hk d'. palette_cell-Draws v i j k before m' fits hi hj (omega (arith, hk)) d') in
    let next : 4 * i + suc j ≡ suc (4 * i + j) = omega arith in
    Draws-ext v before after (drawn (4 * i + j) 2) (drawn (4 * i + suc j) 0) done
      (λ x y. ap (λ c. drawn c 0 x y) next ∙ next_column (4 * i + j) x y)

draw_palette-Draws :
    (v : ℕ) (m : Mem) → Fits v → Draws v m (drawn 0 0) m → Draws v m (drawn 32 0) (draw_palette m v)
unfolding draw_palette
draw_palette-Draws v m fits d =
    count_up_inv (λ i m'. Draws v m (drawn (4 * i) 0) m')
      (λ i. count_up (λ j. count_up (λ k. palette_cell v i j k) 0 palette_height) 0 palette_width) 0
      num_colors m d
      (λ i m' _ hi d'.
        let start : Draws v m (drawn (4 * i + 0) 0) m' =
          Draws-ext v m m' (drawn (4 * i) 0) (drawn (4 * i + 0) 0) d'
            (λ x y. ap (λ c. drawn c 0 x y) (omega arith)) in
        let body = λ (j : ℕ). count_up (λ k. palette_cell v i j k) 0 palette_height in
        let after = count_up body 0 palette_width m' in
        Draws-ext v m after (drawn (4 * i + 4) 0) (drawn (4 * suc i) 0)
          (count_up_inv (λ j m''. Draws v m (drawn (4 * i + j) 0) m'') body 0 palette_width m' start
            (λ j m'' _ hj d''.
              palette_column-Draws v i j m m'' fits (omega (arith, hi)) (omega (arith, hj)) d''))
          (λ x y. ap (λ c. drawn c 0 x y) (omega arith)))

-- The picture before the first input: the palette, and the background elsewhere.
abbrev pub first_picture : ℕ → ℕ → ℕ
first_picture x y = if (leb 23 y && ltb y 25) && ltb x 32 then x / 4 else color_bg

-- For memory of bytes and a page that ends below 2^32, the page shows the palette on the background
-- when the loop starts, its characters are spaces, and nothing outside the page has changed.
pub record Started (v : ℕ) (before m : Mem) : Type 0 where
  pub shows : Shows v m first_picture nothing_dark
  pub space : (c : ℕ) → c < screen_width * screen_height → m (v + 2 * c) ≡ 32
  pub outside : (p : ℕ) → (p < v) ⊎ (v + 2 * (screen_width * screen_height) ≤ p) → m p ≡ before p

background :
    (v : ℕ) (before m : Mem)
    → Cleared v color_bg (screen_width * screen_height) before m
    → Shows v m (drawn 0 0) nothing_dark
background v before m c = record {
  is_color = λ x y hx hy. ground arith;
  shown = λ x y hx hy.
      let e : drawn 0 0 x y ≡ color_bg = ground arith in
      rw e (c.attr (screen_width * y + x) (omega (arith, hx, hy)));
}

pub Started_lem :
    (v : ℕ) (m : Mem)
    → Fits v
    → ((p : ℕ) → m p < 256)
    → Started v m (draw_palette (clear_screen m v color_bg) v)
Started_lem v m fits byte =
    let cleared = clear_screen m v color_bg in
    let c = clear_screen-Cleared m v color_bg fits (omega arith) byte in
    let (s, o) = draw_palette-Draws v cleared fits (background v m cleared c, λ p _. refl) in
    let painted = draw_palette cleared v in
    record {
      shows =
          Shows_ext v painted (drawn 32 0) first_picture nothing_dark nothing_dark s
            (λ x y. ground arith) (λ x y. refl);
      space = λ n l. o (v + 2 * n) (λ x y hx hy e. absurd (omega (arith, e))) ∙ c.space n l;
      outside = λ p h. o p (λ x y hx hy e. absurd (ground (arith, e, h, hx, hy))) ∙ c.outside p h;
    }
