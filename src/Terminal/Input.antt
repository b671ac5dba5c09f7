-- ===== src/Terminal/Input.antt =====
-- The input of the displayed terminal: handle_char_input, which edits the line that is being typed,
-- and terminal_handle_mouse_input, of student-distrib/terminal.c.
use loli_os.Prelude.{
  [], ℕ, zero, suc, ◌+◌, ◌-◌, ◌/◌, ◌%◌, ◌≤◌, ◌<◌, ◌≡◌, refl, sym, ap, ap₂, ◌∙◌, ◌≢◌, inl, inr, Bool,
  true, ◌&&◌, ◌||◌, not, Option, none, some, List, ◌∷◌, ◌++◌, arith, ltb, ◌==◌, if◌then◌else◌,
  Bool-cases, Option-cases, length, take, ℤ, pos, ltb_ℤ,
}
use loli_os.Memory.Bytes.{Mem, bytes, store, store_below, bytes_ext, bytes-append, length-bytes}
use loli_os.Terminal.{
  Terminal, KbdInputBuf, MouseInput, MouseInputBuf, num_terminals, keyboard_buf_size,
  mouse_buf_size, newline, backspace, putc_impl, putc_newline, putc_return, putc_backspace,
  putc_printable,
}
use loli_os.Terminal.Console.{
  ◌>>=◌, Console, get_terminal, set_state, update_cursor, putc_at, cursor_position,
}

-- The two edits of the keyboard buffer: `count--`, and `buf[count++] = c`.
abbrev pub drop_char : KbdInputBuf → KbdInputBuf
drop_char k = record k { count = k.count - 1 }

abbrev pub push_char : KbdInputBuf → ℕ → KbdInputBuf
push_char k c = record { buf = store k.buf k.count (c ∷ []); count = k.count + 1 }

-- The edit that handle_char_input makes, or `none` where it ignores the character.
unfoldable pub edit_input : KbdInputBuf → ℤ → ℕ → Option KbdInputBuf
edit_input k logical_x c =
    if c == backspace && ltb 0 k.count && ltb_ℤ (pos 0) logical_x
    then some (drop_char k)
    else if (not (c == backspace) && ltb k.count (keyboard_buf_size - 1))
        || (c == newline && ltb k.count keyboard_buf_size)
    then some (push_char k c)
    else none

abbrev pub set_kbd_input : Console → ℕ → KbdInputBuf → Console
set_kbd_input s i k = let t = s.states i in set_state s i (record t { kbd_input = k })

-- handle_char_input.
unfoldable pub handle_char_input : Console → ℕ → Option Console
unfolding get_terminal edit_input putc_at update_cursor
handle_char_input s c = do
  i ← get_terminal s.display_terminal
  let t = s.states i
  elim (edit_input t.kbd_input t.cursor.logical_x c) [
    | none ↦ some s
    | some k ↦ update_cursor (putc_at (set_kbd_input s i k) i c) i
  ]

-- `input_buf->buf[input_buf->count++] = input`, unless the buffer is full.
unfoldable pub push_mouse : MouseInputBuf → MouseInput → MouseInputBuf
push_mouse b input =
    if b.count == mouse_buf_size
    then b
    else record { buf = λ i. if i == b.count then input else b.buf i; count = b.count + 1 }

-- terminal_handle_mouse_input.
unfoldable pub handle_mouse_input : Console → MouseInput → Option Console
unfolding get_terminal push_mouse
handle_mouse_input s input = do
  i ← get_terminal s.display_terminal
  let t = s.states i
  some (set_state s i (record t { mouse_input = push_mouse t.mouse_input input }))

-- The characters that have been typed and not read.
abbrev pub typed : KbdInputBuf → List ℕ
typed k = bytes k.buf 0 k.count

-- What a key does to a line: a backspace takes the last character back, unless the cursor stands at
-- the start of its line; another character is added while two places are free, or while one is free
-- if it ends the line.
unfoldable pub type_char : List ℕ → Bool → ℕ → List ℕ
type_char line at_start c =
    if c == 8
    then if at_start || length line == 0 then line else take (length line - 1) line
    else if ltb (length line) 127 || (c == 10 && length line == 127)
    then line ++ c ∷ []
    else line

take-bytes : (m : Mem) (a n k : ℕ) → k ≤ n → take k (bytes m a n) ≡ bytes m a k
unfolding bytes
take-bytes m a n zero h = refl
take-bytes m a zero (suc k) h = elim h [ ]
take-bytes m a (suc n) (suc k) h = ap (λ r. m a ∷ r) (take-bytes m (a + 1) n k (omega (arith, h)))

typed-push_char : (k : KbdInputBuf) (c : ℕ) → typed (push_char k c) ≡ typed k ++ c ∷ []
unfolding bytes store
typed-push_char k c =
    sym (bytes-append (store k.buf k.count (c ∷ [])) 0 k.count 1)
    ∙ ap₂ ◌++◌
        (bytes_ext (store k.buf k.count (c ∷ [])) k.buf 0 0 k.count
          (λ i h. store_below k.buf k.count (0 + i) (c ∷ []) (omega (arith, h))))
        (ground arith)

-- Typing a character edits the line of the buffer as `type_char` says.
pub edit_input-type_char :
    (k : KbdInputBuf) (x : ℤ) (c : ℕ)
    → k.count ≤ keyboard_buf_size
    → elim (edit_input k x c) [ none ↦ typed k | some l ↦ typed l ]
      ≡ type_char (typed k) (not (ltb_ℤ (pos 0) x)) c
unfolding edit_input type_char
edit_input-type_char k x c h =
    let len = length-bytes k.buf 0 k.count in
    ground (arith, len, typed-push_char k c, take-bytes k.buf 0 k.count (k.count - 1))

-- A character on the screen leaves the input buffers alone.
putc_impl-kbd_input : (m : Mem) (t : Terminal) (c : ℕ) → (putc_impl m t c).1.kbd_input ≡ t.kbd_input
unfolding putc_impl putc_newline putc_return putc_backspace putc_printable
putc_impl-kbd_input m t c = ground arith

pub putc_at-kbd_input :
    (s : Console) (i c : ℕ) → ((putc_at s i c).states i).kbd_input ≡ (s.states i).kbd_input
unfolding putc_at
putc_at-kbd_input s i c = ground (arith, putc_impl-kbd_input s.mem (s.states i) c)

pub putc_at-others : (s : Console) (i c j : ℕ) → j ≢ i → (putc_at s i c).states j ≡ s.states j
unfolding putc_at
putc_at-others s i c j h = ground arith

set_kbd_input_at :
    (s : Console) (i : ℕ) (k : KbdInputBuf) → ((set_kbd_input s i k).states i).kbd_input ≡ k
set_kbd_input_at s i k = ground arith

set_kbd_input_other :
    (s : Console) (i : ℕ) (k : KbdInputBuf) (j : ℕ)
    → j ≢ i
    → (set_kbd_input s i k).states j ≡ s.states j
set_kbd_input_other s i k j h = ground arith

pub update_cursor-some :
    (s : Console) (d i : ℕ)
    → s.display_terminal ≡ pos d
    → d < num_terminals
    → (r : Console) × (update_cursor s i ≡ some r)
      × (r.states ≡ s.states)
      × (r.display_terminal ≡ s.display_terminal)
      × (r.mem ≡ s.mem)
unfolding update_cursor get_terminal
update_cursor-some s d i e h =
    let in_d : ltb d num_terminals ≡ true = ground arith in
    let p = cursor_position (s.states i) in
    elim (Bool-cases (i == d)) [
      | inl y ↦ (
        record s { cursor_lo = p % 256; cursor_hi = p / 256 % 256 },
        rw (e, in_d, y) refl,
        refl,
        refl,
        refl,
      )
      | inr n ↦ (s, rw (e, in_d, n) refl, refl, refl, refl)
    ]

-- What a key press does to the input buffers: the displayed terminal's line is edited, and its count
-- stays within the buffer; the others keep theirs.
pub record Typing (s : Console) (d c : ℕ) : Type 0 where
  pub after : Console
  pub result : handle_char_input s c ≡ some after
  pub line :
      typed (after.states d).kbd_input
      ≡ type_char
          (typed (s.states d).kbd_input)
          (not (ltb_ℤ (pos 0) (s.states d).cursor.logical_x))
          c
  pub bound : (after.states d).kbd_input.count ≤ keyboard_buf_size
  pub others : (j : ℕ) → j ≢ d → after.states j ≡ s.states j

edit_input_bound :
    (k l : KbdInputBuf) (x : ℤ) (c : ℕ)
    → k.count ≤ keyboard_buf_size
    → edit_input k x c ≡ some l
    → l.count ≤ keyboard_buf_size
unfolding edit_input
edit_input_bound k l x c h e = ground arith

get_terminal_in : (z : ℤ) (d : ℕ) → z ≡ pos d → d < num_terminals → get_terminal z ≡ some d
unfolding get_terminal
get_terminal_in z d e h = let in_d : ltb d num_terminals ≡ true = ground arith in rw (e, in_d) refl

-- While a terminal d is displayed and its count is within the buffer, handle_char_input succeeds
-- and edits the line of that terminal as type_char says, with the last place kept for a line
-- break; the count stays within the buffer, and the other terminals are unchanged.
pub handle_char_input-Typing :
    (s : Console) (d c : ℕ)
    → s.display_terminal ≡ pos d
    → d < num_terminals
    → (s.states d).kbd_input.count ≤ keyboard_buf_size
    → Typing s d c
unfolding handle_char_input
handle_char_input-Typing s d c e h b =
    let in_d = get_terminal_in s.display_terminal d e h in
    let t = s.states d in
    let edit = edit_input-type_char t.kbd_input t.cursor.logical_x c b in
    elim (Option-cases (edit_input t.kbd_input t.cursor.logical_x c)) [
      | inl none_e ↦ record {
        after = s;
        result = rw (in_d, ◌>>=◌, none_e) refl;
        line = rw none_e at edit;
        bound = b;
        others = λ j nj. refl;
      }
      | inr (k, some_e) ↦
          let shown = putc_at (set_kbd_input s d k) d c in
          let (r, done, states, display, mem) = update_cursor-some shown d d e h in
          let kbd : (r.states d).kbd_input ≡ k =
            ap (λ f. (f d).kbd_input) states
            ∙ putc_at-kbd_input (set_kbd_input s d k) d c
            ∙ set_kbd_input_at s d k in
          record {
            after = r;
            result = rw (in_d, ◌>>=◌, some_e) done;
            line = ap typed kbd ∙ (rw some_e at edit);
            bound = rw kbd (edit_input_bound t.kbd_input k t.cursor.logical_x c b some_e);
            others = λ j nj.
                ap (λ f. f j) states
                ∙ putc_at-others (set_kbd_input s d k) d c j nj
                ∙ set_kbd_input_other s d k j nj;
          }
    ]
