-- ===== src/Programs/Paint/Screens.antt =====
-- The loops of syscalls/ece391paint.c over all the cells of the page.
use loli_os.Prelude.{
  ℕ, zero, suc, ◌+◌, ◌*◌, ◌≤◌, ◌<◌, bit_or, ◌≡◌, refl, subst, ◌⊎◌, true, false, arith, ◌==◌,
  if◌then◌else◌, ==_iff, all_below, all_below_sound,
}
use loli_os.Memory.Bytes.{Mem, store}
use loli_os.Programs.Paint.{
  screen_width, screen_height, num_colors, put, colored, draw_char, draw_pixel, set_highlight,
  count_up, clear_cell, clear_screen,
}
use loli_os.Programs.Paint.Pictures.{attribute, Fits, cell_lem}

-- What holds before each round of a loop holds at its end.
pub count_up_inv :
    (P : ℕ → Mem → Type 0) (body : ℕ → Mem → Mem) (i n : ℕ) (m : Mem)
    → P i m
    → ((j : ℕ) (m : Mem) → i ≤ j → j < i + n → P j m → P (suc j) (body j m))
    → P (i + n) (count_up body i n m)
unfolding count_up
count_up_inv P body i zero m h step = subst (λ k. P k m) (omega arith) h
count_up_inv P body i (suc n) m h step =
    subst (λ k. P k (count_up body (suc i) n (body i m))) (omega arith)
      (count_up_inv P body (suc i) n (body i m) (step i m (omega arith) (omega arith) h)
        (λ j m' l u p. step j m' (omega (arith, l)) (omega (arith, u)) p))

-- Every byte, and the first cells, after they are cleared.
pub record Cleared (v color n : ℕ) (before m : Mem) : Type 0 where
  pub byte : (p : ℕ) → m p < 256
  pub space : (c : ℕ) → c < n → m (v + 2 * c) ≡ 32
  pub attr : (c : ℕ) → c < n → m (v + 2 * c + 1) ≡ attribute color true
  pub outside : (p : ℕ) → (p < v) ⊎ (v + 2 * n ≤ p) → m p ≡ before p

cleared_table :
    all_below 8 (λ c. all_below 256 (λ b. bit_or (colored b c) 0x88 == attribute c true)) ≡ true
cleared_table = refl

lit_color : (b c : ℕ) → b < 256 → c < 8 → bit_or (colored b c) 0x88 ≡ attribute c true
lit_color b c hb hc = (==_iff (bit_or (colored b c) 0x88) (attribute c true)).0 (
    all_below_sound 256 (λ b. bit_or (colored b c) 0x88 == attribute c true) b
      (all_below_sound 8 (λ c. all_below 256 (λ b. bit_or (colored b c) 0x88 == attribute c true)) c
        cleared_table hc)
      hb)

-- Clearing one cell stores a space, and then the attribute twice.
clear_cell_lem :
    (v color i j : ℕ) (m : Mem)
    → Fits v
    → i < screen_height
    → j < screen_width
    → clear_cell v color i j m ≡ (
        let a = v + 2 * (screen_width * i + j) + 1 in
        let spaced = put m (v + 2 * (screen_width * i + j) + 0) 32 in
        let drawn = put spaced a (colored (spaced a) color) in put drawn a (bit_or (drawn a) 0x88))
unfolding clear_cell draw_char draw_pixel set_highlight
clear_cell_lem v color i j m fits hi hj =
    rw (cell_lem v j i 0 fits hj hi (omega arith), cell_lem v j i 1 fits hj hi (omega arith)) refl

abbrev cleared_cell : Mem → ℕ → ℕ → Mem
cleared_cell m a color p = if a + 1 == p then attribute color true else if a == p then 32 else m p

twice_put :
    (m : Mem) (a color p : ℕ)
    → ((q : ℕ) → m q < 256)
    → color < 8
    → (let spaced = put m (a + 0) 32 in
        let drawn = put spaced (a + 1) (colored (spaced (a + 1)) color) in
        put drawn (a + 1) (bit_or (drawn (a + 1)) 0x88) p)
      ≡ cleared_cell m a color p
unfolding store
twice_put m a color p byte h =
    let same : (a + 1 == a + 1) ≡ true = ground arith in
    let other : (a + 0 == a + 1) ≡ false = ground arith in
    let lit = lit_color (m (a + 1)) color (byte (a + 1)) h in rw (same, other, lit) (ground arith)

clear_cell-Cleared :
    (v color i j : ℕ) (before m : Mem)
    → Fits v
    → color < num_colors
    → i < screen_height
    → j < screen_width
    → Cleared v color (screen_width * i + j) before m
    → Cleared v color (screen_width * i + suc j) before (clear_cell v color i j m)
clear_cell-Cleared v color i j before m fits hc hi hj s =
    let a = v + 2 * (screen_width * i + j) in
    let after : (p : ℕ) → clear_cell v color i j m p ≡ cleared_cell m a color p =
      λ p. rw (clear_cell_lem v color i j m fits hi hj) (twice_put m a color p s.byte hc) in
    record {
      byte = λ p. rw (after p) (ground (arith, s.byte p, hc));
      space = λ c l. rw (after (v + 2 * c)) (ground (arith, s.space c, l));
      attr = λ c l. rw (after (v + 2 * c + 1)) (ground (arith, s.attr c, l));
      outside = λ p o. rw (after p) (ground (arith, s.outside p, o));
    }

-- For memory of bytes and a page that ends below 2^32, clear_screen leaves a space of the colour in
-- every cell, and changes nothing outside the page.
pub clear_screen-Cleared :
    (m : Mem) (v color : ℕ)
    → Fits v
    → color < num_colors
    → ((p : ℕ) → m p < 256)
    → Cleared v color (screen_width * screen_height) m (clear_screen m v color)
unfolding clear_screen
clear_screen-Cleared m v color fits hc byte =
    count_up_inv (λ i m'. Cleared v color (screen_width * i) m m')
      (λ i. count_up (λ j. clear_cell v color i j) 0 screen_width) 0 screen_height m
      (record {
        byte = byte;
        space = λ c l. absurd (omega (arith, l));
        attr = λ c l. absurd (omega (arith, l));
        outside = λ p o. refl;
      })
      (λ i m' _ hi s.
        subst (λ n. Cleared v color n m (count_up (λ j. clear_cell v color i j) 0 screen_width m'))
          (omega arith)
          (count_up_inv (λ j m''. Cleared v color (screen_width * i + j) m m'')
            (λ j. clear_cell v color i j) 0 screen_width m'
            (subst (λ n. Cleared v color n m m') (omega arith) s)
            (λ j m'' _ hj s'.
              clear_cell-Cleared v color i j m m'' fits hc (omega (arith, hi)) (omega (arith, hj))
                s')))
