-- ===== src/Programs/Paint/Pictures.antt =====
-- The picture that the video page shows to syscalls/ece391paint.c: each attribute has the colour of its
-- cell twice, in the background and in the foreground, and the two bits of the highlight, which are
-- off where the cursor stands.
use loli_os.Prelude.{
  ℕ, ◌+◌, ◌*◌, ◌^◌, ◌≤◌, ◌<◌, bit_and, bit_or, ◌≡◌, refl, ap, ap₂, ◌∙◌, ◌≢◌, ◌⊎◌, inl, inr, Bool,
  true, false, ◌&&◌, not, arith, ℕ_discrete, ◌==◌, if◌then◌else◌, ==_iff, pos, all_below,
  all_below_sound,
}
use loli_os.Memory.Bytes.{Mem, store}
use loli_os.Programs.Paint.{
  screen_width, screen_height, num_colors, cell, put, colored, draw_pixel, set_highlight,
}

-- The attribute of a cell of a colour, lit or dark.
abbrev pub attribute : ℕ → Bool → ℕ
attribute color true = 0x11 * color + 0x88
attribute color false = 0x11 * color

-- Where the attribute of a cell is.
abbrev pub at : ℕ → ℕ → ℕ → ℕ
at video_mem x y = video_mem + 2 * (screen_width * y + x) + 1

-- The page ends below the top of the address space.
abbrev pub Fits : ℕ → Type 0
Fits video_mem = video_mem + 2 * (screen_width * screen_height) ≤ 2 ^ 32

pub cell_lem :
    (v x y b : ℕ)
    → Fits v
    → x < screen_width
    → y < screen_height
    → b < 2
    → cell v (pos x) (pos y) b ≡ v + 2 * (screen_width * y + x) + b
unfolding cell
cell_lem v x y b fits hx hy hb = ground (arith, fits, hx, hy, hb)

colored_table :
    (lit : Bool)
    → all_below 8 (λ p. all_below 8 (λ c. colored (attribute p lit) c == attribute c lit)) ≡ true
colored_table true = refl
colored_table false = refl

colored-attribute :
    (lit : Bool) (p c : ℕ) → p < 8 → c < 8 → colored (attribute p lit) c ≡ attribute c lit
colored-attribute lit p c hp hc = (==_iff (colored (attribute p lit) c) (attribute c lit)).0 (
    all_below_sound 8 (λ c. colored (attribute p lit) c == attribute c lit) c
      (all_below_sound 8 (λ p. all_below 8 (λ c. colored (attribute p lit) c == attribute c lit)) p
        (colored_table lit) hp)
      hc)

abbrev highlighted : Bool → ℕ → ℕ
highlighted highlight old = if highlight then bit_or old 0x88 else bit_and old 0x77

highlighted_table :
    (highlight lit : Bool)
    → all_below 8 (λ p. highlighted highlight (attribute p lit) == attribute p highlight) ≡ true
highlighted_table true true = refl
highlighted_table true false = refl
highlighted_table false true = refl
highlighted_table false false = refl

highlighted-attribute :
    (highlight lit : Bool) (p : ℕ)
    → p < 8
    → highlighted highlight (attribute p lit) ≡ attribute p highlight
highlighted-attribute highlight lit p hp =
    (==_iff (highlighted highlight (attribute p lit)) (attribute p highlight)).0 (
      all_below_sound 8 (λ p. highlighted highlight (attribute p lit) == attribute p highlight) p
        (highlighted_table highlight lit) hp)

-- What a page shows: the colours, and the cells that are dark.
pub record Shows (v : ℕ) (m : Mem) (picture : ℕ → ℕ → ℕ) (dark : ℕ → ℕ → Bool) : Type 0 where
  pub is_color : (x y : ℕ) → x < screen_width → y < screen_height → picture x y < num_colors
  pub shown :
      (x y : ℕ)
      → x < screen_width
      → y < screen_height
      → m (at v x y) ≡ attribute (picture x y) (not (dark x y))

-- A function of the cells, changed at one of them.
abbrev pub changed {ℓ} : {A : Type ℓ} → (ℕ → ℕ → A) → ℕ → ℕ → A → ℕ → ℕ → A
changed f a b value x y = if x == a && y == b then value else f x y

-- Nothing but attributes of the page is different.
abbrev pub OnlyAttributes : ℕ → Mem → Mem → Type 0
OnlyAttributes v m m' =
    (p : ℕ) → ((x y : ℕ) → x < screen_width → y < screen_height → p ≢ at v x y) → m' p ≡ m p

put_at : (m : Mem) (a b p : ℕ) → put m a b p ≡ (if a == p then b else m p)
unfolding store
put_at m a b p = refl

here_or_there :
    (x y a b : ℕ)
    → ((x ≡ a) × (y ≡ b) × ((x == a && y == b) ≡ true))
      ⊎ (((x ≡ a) → y ≢ b) × ((x == a && y == b) ≡ false))
here_or_there x y a b = elim (ℕ_discrete x a) [
  | yes ex ↦ elim (ℕ_discrete y b) [
    | yes ey ↦ inl (ex, ey, ground (arith, ex, ey))
    | no ny ↦ inr (λ e. ny, ground (arith, ny))
  ]
  | no nx ↦ inr (λ e. absurd (nx e), ground (arith, nx))
]

at-ne :
    (v x y a b : ℕ)
    → x < screen_width
    → a < screen_width
    → ((x ≡ a) → y ≢ b)
    → (at v a b == at v x y) ≡ false
at-ne v x y a b hx ha other = elim (ℕ_discrete x a) [
  | yes ex ↦ let ny = other ex in ground (arith, ex, ny)
  | no nx ↦ ground (arith, nx, hx, ha)
]

-- A new value of one attribute.
put-Shows :
    (v : ℕ) (m : Mem) (picture : ℕ → ℕ → ℕ) (dark : ℕ → ℕ → Bool) (a b color : ℕ) (off : Bool)
    → Shows v m picture dark
    → a < screen_width
    → b < screen_height
    → color < num_colors
    → Shows v
        (put m (at v a b) (attribute color (not off)))
        (changed picture a b color)
        (changed dark a b off)
unfolding store
put-Shows v m picture dark a b color off s ha hb hc = record {
  is_color = λ x y hx hy. ground (arith, s.is_color x y hx hy);
  shown = λ x y hx hy. elim (here_or_there x y a b) [
    | inl (ex, ey, e) ↦
        let here : (at v a b == at v x y) ≡ true = ground (arith, ex, ey) in rw (here, e) refl
    | inr (other, e) ↦ rw (at-ne v x y a b hx ha other, e) (s.shown x y hx hy)
  ];
}

put-OnlyAttributes :
    (v : ℕ) (m : Mem) (a b value : ℕ)
    → a < screen_width
    → b < screen_height
    → OnlyAttributes v m (put m (at v a b) value)
unfolding store
put-OnlyAttributes v m a b value ha hb p h = let ne = h a b ha hb in ground (arith, ne)

-- Another description of the same cells.
pub Shows_ext :
    (v : ℕ) (m : Mem) (picture picture' : ℕ → ℕ → ℕ) (dark dark' : ℕ → ℕ → Bool)
    → Shows v m picture dark
    → ((x y : ℕ) → picture' x y ≡ picture x y)
    → ((x y : ℕ) → dark' x y ≡ dark x y)
    → Shows v m picture' dark'
Shows_ext v m picture picture' dark dark' s same_picture same_dark = record {
  is_color = λ x y hx hy. rw (same_picture x y) (s.is_color x y hx hy);
  shown = λ x y hx hy. rw (same_picture x y, same_dark x y) (s.shown x y hx hy);
}

changed_same {ℓ} :
    {A : Type ℓ} (f : ℕ → ℕ → A) (a b : ℕ) (value : A)
    → value ≡ f a b
    → (x y : ℕ) → f x y ≡ changed f a b value x y
changed_same f a b value e x y = elim (here_or_there x y a b) [
  | inl (ex, ey, t) ↦ rw (t, e) (ap₂ f ex ey)
  | inr (other, t) ↦ rw t refl
]

pub draw_pixel-Shows :
    (v : ℕ) (m : Mem) (picture : ℕ → ℕ → ℕ) (dark : ℕ → ℕ → Bool) (a b color : ℕ)
    → Fits v
    → Shows v m picture dark
    → a < screen_width
    → b < screen_height
    → color < num_colors
    → Shows v (draw_pixel m v (pos a) (pos b) color) (changed picture a b color) dark
unfolding draw_pixel
draw_pixel-Shows v m picture dark a b color fits s ha hb hc =
    let lit = not (dark a b) in
    let value : colored (m (at v a b)) color ≡ attribute color lit =
      ap (λ old. colored old color) (s.shown a b ha hb)
      ∙ colored-attribute lit (picture a b) color (s.is_color a b ha hb) hc in
    rw (cell_lem v a b 1 fits ha hb (omega arith), value)
      (Shows_ext v (put m (at v a b) (attribute color lit)) (changed picture a b color)
        (changed picture a b color) (changed dark a b (dark a b)) dark
        (put-Shows v m picture dark a b color (dark a b) s ha hb hc) (λ x y. refl)
        (changed_same dark a b (dark a b) refl))

pub set_highlight-Shows :
    (v : ℕ) (m : Mem) (picture : ℕ → ℕ → ℕ) (dark : ℕ → ℕ → Bool) (a b : ℕ) (off : Bool)
    → Fits v
    → Shows v m picture dark
    → a < screen_width
    → b < screen_height
    → Shows v (set_highlight m v (pos a) (pos b) (not off)) picture (changed dark a b off)
unfolding set_highlight
set_highlight-Shows v m picture dark a b off fits s ha hb =
    let color = picture a b in
    let value : highlighted (not off) (m (at v a b)) ≡ attribute color (not off) =
      ap (highlighted (not off)) (s.shown a b ha hb)
      ∙ highlighted-attribute (not off) (not (dark a b)) color (s.is_color a b ha hb) in
    rw (cell_lem v a b 1 fits ha hb (omega arith), value)
      (Shows_ext v (put m (at v a b) (attribute color (not off))) (changed picture a b color)
        picture (changed dark a b off) (changed dark a b off)
        (put-Shows v m picture dark a b color off s ha hb (s.is_color a b ha hb))
        (changed_same picture a b color refl) (λ x y. refl))

pub draw_pixel-OnlyAttributes :
    (v : ℕ) (m : Mem) (a b color : ℕ)
    → Fits v
    → a < screen_width
    → b < screen_height
    → OnlyAttributes v m (draw_pixel m v (pos a) (pos b) color)
unfolding draw_pixel
draw_pixel-OnlyAttributes v m a b color fits ha hb =
    rw (cell_lem v a b 1 fits ha hb (omega arith))
      (put-OnlyAttributes v m a b (colored (m (at v a b)) color) ha hb)

pub set_highlight-OnlyAttributes :
    (v : ℕ) (m : Mem) (a b : ℕ) (highlight : Bool)
    → Fits v
    → a < screen_width
    → b < screen_height
    → OnlyAttributes v m (set_highlight m v (pos a) (pos b) highlight)
unfolding set_highlight
set_highlight-OnlyAttributes v m a b highlight fits ha hb =
    rw (cell_lem v a b 1 fits ha hb (omega arith))
      (put-OnlyAttributes v m a b (highlighted highlight (m (at v a b))) ha hb)
