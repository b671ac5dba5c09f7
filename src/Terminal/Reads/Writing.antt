-- ===== src/Terminal/Reads/Writing.antt =====
-- What a terminal shows after terminal_stdout_write of student-distrib/terminal.c.
use loli_os.Prelude.{
  ℕ, zero, suc, ◌+◌, ◌^◌, ◌≤◌, ◌<◌, ◌≡◌, refl, sym, ap, subst, ◌∙◌, ◌≢◌, ◌⊎◌, some, List, [], ◌∷◌,
  ◌++◌, arith, pos, pos_part,
}
use loli_os.Memory.Access.{InUserPage, is_user_readable_iff}
use loli_os.Memory.Bytes.{Mem, bytes}
use loli_os.Terminal.{
  Terminal, num_terminals, backspace, video_mem_size, putc_impl, putc_newline, putc_return,
  putc_backspace, putc_printable,
}
use loli_os.Terminal.Bounds.{at_cursor, LeavesTop}
use loli_os.Terminal.Cells.{Fits}
use loli_os.Terminal.Console.{Console, putc_at}
use loli_os.Terminal.Input.{update_cursor-some, putc_at-kbd_input, putc_at-others}
use loli_os.Terminal.Overrun.{Within, putc_impl-Within_at}
use loli_os.Terminal.Pages.{Page, show_char}
use loli_os.Terminal.Reads.{stdout_loop, stdout_write}
use loli_os.Terminal.Screen.{Shows, Escapes, putc_impl-Shows}

-- What a list of characters does to a page.
unfoldable pub show_chars : Page → List ℕ → Page
unfolding show_char
show_chars g [] = g
show_chars g (c ∷ cs) = show_chars (show_char g c) cs

-- No character leaves the page.
unfoldable pub Stays : Page → List ℕ → Type 0
unfolding show_char
Stays g [] = Unit {0}
Stays g (c ∷ cs) = (¬ Escapes g c) × Stays (show_char g c) cs

-- The characters are printed on terminal i, and nothing else changes.
pub record Printed (s : Console) (i : ℕ) (g : Page) (s' : Console) : Type 0 where
  pub shows : Shows s'.mem (s'.states i) g
  pub outside : Within (s.states i) s.mem s'.mem
  pub others : (j : ℕ) → j ≢ i → s'.states j ≡ s.states j
  pub input : (s'.states i).kbd_input ≡ (s.states i).kbd_input
  pub place : (s'.states i).video_mem ≡ (s.states i).video_mem
  pub display : s'.display_terminal ≡ s.display_terminal

putc_impl-video_mem : (m : Mem) (t : Terminal) (c : ℕ) → (putc_impl m t c).1.video_mem ≡ t.video_mem
unfolding putc_impl putc_newline putc_return putc_backspace putc_printable
putc_impl-video_mem m t c = ground arith

not_top :
    (g : Page) (t : Terminal) (c : ℕ)
    → ¬ Escapes g c
    → ¬ LeavesTop (at_cursor t g.line g.col g.row).cursor c
not_top g t c h v =
    let at_left : g.col ≡ 0 = ap pos_part v.at_left in
    let at_top : g.row ≡ 0 = ap pos_part v.at_top in
    let in_line = v.in_line in h (v.is_backspace, ground (arith, in_line), at_left, at_top)

putc_impl-Within_page :
    (m : Mem) (t : Terminal) (g : Page) (c : ℕ)
    → Fits t
    → Shows m t g
    → ¬ Escapes g c
    → Within t m (putc_impl m t c).0
putc_impl-Within_page m t g c fits s h =
    let e : at_cursor t g.line g.col g.row ≡ t = sym (λ i. record t {
      cursor = record { logical_x = s.logical i; screen_x = s.column i; screen_y = s.at_row i };
    }) in
    subst (λ u. Within t m (putc_impl m u c).0) e
      (putc_impl-Within_at m t g.line g.col g.row c fits s.column_in s.row_in (not_top g t c h))

putc_at-Printed :
    (s : Console) (i : ℕ) (g : Page) (c : ℕ)
    → Fits (s.states i)
    → Shows s.mem (s.states i) g
    → ¬ Escapes g c
    → Printed s i (show_char g c) (putc_at s i c)
unfolding putc_at
putc_at-Printed s i g c fits shown h =
    let t = s.states i in
    let here : (putc_at s i c).states i ≡ (putc_impl s.mem t c).1 = ground arith in
    record {
      shows =
          subst (λ u. Shows (putc_impl s.mem t c).0 u (show_char g c)) (sym here)
            (putc_impl-Shows s.mem t g c fits shown h);
      outside = putc_impl-Within_page s.mem t g c fits shown h;
      others = λ j ne. putc_at-others s i c j ne;
      input = putc_at-kbd_input s i c;
      place = ap (λ u. u.video_mem) here ∙ putc_impl-video_mem s.mem t c;
      display = refl;
    }

trans_Printed :
    (s r l : Console) (i : ℕ) (g h : Page) → Printed s i g r → Printed r i h l → Printed s i h l
trans_Printed s r l i g h a b = record {
  shows = b.shows;
  outside = λ p out.
      b.outside p (subst (λ v. (p < v) ⊎ (v + video_mem_size ≤ p)) (sym a.place) out)
      ∙ a.outside p out;
  others = λ j ne. b.others j ne ∙ a.others j ne;
  input = b.input ∙ a.input;
  place = b.place ∙ a.place;
  display = b.display ∙ a.display;
}

stdout_loop-Printed :
    (s : Console) (i : ℕ) (g : Page) (cs : List ℕ)
    → Fits (s.states i)
    → Shows s.mem (s.states i) g
    → Stays g cs
    → Printed s i (show_chars g cs) (stdout_loop s i cs)
unfolding stdout_loop show_chars Stays
stdout_loop-Printed s i g [] fits shown h = record {
  shows = shown;
  outside = λ p out. refl;
  others = λ j ne. refl;
  input = refl;
  place = refl;
  display = refl;
}
stdout_loop-Printed s i g (c ∷ cs) fits shown (first, rest) =
    let one = putc_at-Printed s i g c fits shown first in
    let s' = putc_at s i c in
    let fits' = subst (λ v. v + video_mem_size < 2 ^ 32) (sym one.place) fits in
    let more = stdout_loop-Printed s' i (show_char g c) cs fits' one.shows rest in
    trans_Printed s s' (stdout_loop s' i cs) i (show_char g c) (show_chars (show_char g c) cs) one
      more

update_cursor-Printed :
    (s r l : Console) (i : ℕ) (g : Page)
    → Printed s i g r
    → l.states ≡ r.states
    → l.display_terminal ≡ r.display_terminal
    → l.mem ≡ r.mem
    → Printed s i g l
update_cursor-Printed s r l i g a states display mem = record {
  shows =
      subst (λ m. Shows m (l.states i) g) (sym mem)
        (subst (λ f. Shows r.mem (f i) g) (sym states) a.shows);
  outside = λ p out. ap (λ m. m p) mem ∙ a.outside p out;
  others = λ j ne. ap (λ f. f j) states ∙ a.others j ne;
  input = ap (λ f. (f i).kbd_input) states ∙ a.input;
  place = ap (λ f. (f i).video_mem) states ∙ a.place;
  display = display ∙ a.display;
}

-- For a buffer of n bytes in the user page, whose characters stay on the page that terminal i shows,
-- terminal_stdout_write returns n and prints the characters, and changes nothing else.
pub stdout_write-Printed :
    (s : Console) (d i src n : ℕ) (g : Page)
    → s.display_terminal ≡ pos d
    → d < num_terminals
    → Fits (s.states i)
    → Shows s.mem (s.states i) g
    → src < 2 ^ 32
    → n < 2 ^ 31
    → InUserPage src n
    → Stays g (bytes s.mem src n)
    → (s' : Console) × (stdout_write s i src (pos n) ≡ some (pos n, s'))
      × Printed s i (show_chars g (bytes s.mem src n)) s'
unfolding stdout_write
stdout_write-Printed s d i src n g display hd fits shown hs hn page h =
    let readable = (is_user_readable_iff src n hs hn).1 page in
    let loop = stdout_loop-Printed s i g (bytes s.mem src n) fits shown h in
    let r = stdout_loop s i (bytes s.mem src n) in
    let (l, updated, states, same, mem) = update_cursor-some r d i (loop.display ∙ display) hd in
    (
      l,
      rw (readable, updated) refl,
      update_cursor-Printed s r l i (show_chars g (bytes s.mem src n)) loop states same mem,
    )

pub show_chars-append :
    (g : Page) (xs ys : List ℕ) → show_chars (show_chars g xs) ys ≡ show_chars g (xs ++ ys)
unfolding show_chars
show_chars-append g [] ys = refl
show_chars-append g (x ∷ xs) ys = show_chars-append (show_char g x) xs ys

-- Without a backspace nothing leaves the page.
unfoldable pub NoBackspace : List ℕ → Type 0
NoBackspace [] = Unit {0}
NoBackspace (c ∷ cs) = (c ≢ backspace) × NoBackspace cs

pub NoBackspace-Stays : (g : Page) (cs : List ℕ) → NoBackspace cs → Stays g cs
unfolding NoBackspace Stays
NoBackspace-Stays g [] h = tt
NoBackspace-Stays g (c ∷ cs) (first, rest) =
    (λ e. first e.0, NoBackspace-Stays (show_char g c) cs rest)

pub bytes-NoBackspace :
    (m : Mem) (a n : ℕ)
    → ((p : ℕ) → a ≤ p → p < a + n → m p ≢ backspace)
    → NoBackspace (bytes m a n)
unfolding NoBackspace bytes
bytes-NoBackspace m a zero h = tt
bytes-NoBackspace m a (suc n) h = (
  h a (omega arith) (omega arith),
  bytes-NoBackspace m (a + 1) n (λ p lo hi. h p (omega (arith, lo)) (omega (arith, hi))),
)
