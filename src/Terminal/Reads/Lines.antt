-- ===== src/Terminal/Reads/Lines.antt =====
-- What a read of the keyboard waits for and what it returns, for student-distrib/terminal.c.

use loli_os.Prelude.{
  [], ℕ, zero, suc, ◌+◌, ◌-◌, ◌*◌, ◌≤◌, ◌<◌, ◌≡◌, sym, ap, subst, ◌∙◌, ◌≢◌, ◌⊎◌, inl, inr, Bool,
  true, false, none, some, List, ◌∷◌, ◌++◌, arith, ℕ_discrete, ltb, ◌==◌, ltb→lt, Bool-cases,
  Option-cases, ℤ, pos, negsuc, minus_one,
}
use loli_os.Memory.Bytes.{Mem, bytes, bytes_ext}
use loli_os.MemOps.{memmove}
use loli_os.MemOps.Copy.{memmove-Copied}
use loli_os.Terminal.{KbdInputBuf, keyboard_buf_size, newline}
use loli_os.Terminal.Reads.{find_newline, wait_kbd_input, take_input}

-- The characters of a buffer.
abbrev pub typed : KbdInputBuf → List ℕ
typed k = bytes k.buf 0 k.count

-- When at least half of the characters of a buffer within its bounds are read, the shift leaves
-- exactly the others, in their order.
pub take_input-typed :
    (k : KbdInputBuf) (n : ℕ)
    → n ≤ k.count
    → k.count ≤ 2 * n
    → k.count ≤ keyboard_buf_size
    → typed (take_input k n) ≡ bytes k.buf n (k.count - n)
unfolding take_input
take_input-typed k n h half b =
    bytes_ext (memmove k.buf 0 n n) k.buf 0 n (k.count - n)
      (λ i hi. ground (arith, memmove-Copied k.buf 0 n n (omega arith) (omega arith) (0 + i)))

-- When fewer than half of the characters of a buffer are read, the shift moves only as many as
-- were read: the characters behind them stay where they were.
pub take_input_stale :
    (k : KbdInputBuf) (n i : ℕ)
    → 2 * n < k.count
    → k.count ≤ keyboard_buf_size
    → n ≤ i
    → i < k.count - n
    → (take_input k n).buf i ≡ k.buf i
unfolding take_input
take_input_stale k n i h b lo hi =
    ground (arith, memmove-Copied k.buf 0 n n (omega arith) (omega arith) i)

pub some_ne_none {ℓ} : {A : Type ℓ} {a : A} → some a ≢ none
some_ne_none e = ground (arith, e)

zero_le : {j : ℕ} → 0 ≤ j
zero_le = omega arith

pub pos_inj : {a b : ℕ} → pos a ≡ pos b → a ≡ b
pos_inj e = cc

pub negsuc_ne_pos : {a b : ℕ} → negsuc a ≢ pos b
negsuc_ne_pos e = ground (arith, e)

pub some-inj {ℓ} : {A : Type ℓ} {a b : A} → some a ≡ some b → a ≡ b
some-inj e = cc

-- The characters before index n hold no line break.
abbrev pub NoBreak : Mem → ℕ → Type 0
NoBreak m n = (i : ℕ) → i < n → m i ≢ newline

find_newline-none :
    (m : Mem) (i n j : ℕ) → find_newline m i n ≡ none → i ≤ j → j < i + n → m j ≢ newline
unfolding find_newline
find_newline-none m i zero j e lo hi = absurd (omega (arith, lo, hi))
find_newline-none m i (suc n) j e lo hi = ground (arith, find_newline-none m (i + 1) n j)

find_newline-some :
    (m : Mem) (i n r : ℕ)
    → find_newline m i n ≡ some r
    → (i ≤ r) × (r < i + n) × (m r ≡ newline) × ((j : ℕ) → i ≤ j → j < r → m j ≢ newline)
unfolding find_newline
find_newline-some m i zero r e = ground arith
find_newline-some m i (suc n) r e = elim (ℕ_discrete (m i) newline) [
  | yes y ↦
      let hit : (m i == newline) ≡ true = ground arith in
      let here : some i ≡ some r = rw hit at e in
      let same : i ≡ r = cc in
      (omega arith, omega arith, ap m (sym same) ∙ y, λ j lo hi. absurd (omega (arith, lo, hi)))
  | no n' ↦
      let miss : (m i == newline) ≡ false = ground arith in
      let (lo, hi, at, before) = find_newline-some m (i + 1) n r (rw miss at e) in
      (omega arith, omega arith, at, λ j low high. ground (arith, before j))
]

pub no_newline : (m : Mem) (n : ℕ) → find_newline m 0 n ≡ none → NoBreak m n
no_newline m n e j h = find_newline-none m 0 n j e zero_le (omega (arith, h))

-- What a read that waits for n characters ends with: a whole request, or the first line, or nothing
-- because of a signal.
pub data WaitEnd (n : ℕ) : ℤ → KbdInputBuf → Type 0 where
  full : {k : KbdInputBuf} → n ≤ k.count → WaitEnd n (pos n) k
  line :
      {k : KbdInputBuf} {i : ℕ}
      → i < k.count
      → k.count < n
      → k.buf i ≡ newline
      → NoBreak k.buf i
      → WaitEnd n (pos (i + 1)) k
  signalled : {k : KbdInputBuf} → k.count < n → NoBreak k.buf k.count → WaitEnd n minus_one k

-- However the interrupts fall, a terminal_wait_kbd_input that ends returns either all the
-- characters that were asked for, or those up to the first line break of a shorter buffer, or -1
-- from a shorter buffer without a line break.
pub wait_kbd_input-WaitEnd :
    (n : ℕ) (seen : List (KbdInputBuf × Bool)) (r : ℤ) (k : KbdInputBuf)
    → wait_kbd_input n seen ≡ some (r, k)
    → WaitEnd n r k
unfolding wait_kbd_input
wait_kbd_input-WaitEnd n [] r k e = ground arith
wait_kbd_input-WaitEnd n ((b, p) ∷ later) r k e = elim (Bool-cases (ltb b.count n)) [
  | inr enough ↦
      let done : some (pos n, b) ≡ some (r, k) = rw enough at e in
      subst (λ q. WaitEnd n q.0 q.1) (some-inj done) (full (ground arith))
  | inl few ↦ elim (Option-cases (find_newline b.buf 0 b.count)) [
    | inr (i, found) ↦
        let done : some (pos (i + 1), b) ≡ some (r, k) = rw (few, found) at e in
        let (lo, hi, at, before) = find_newline-some b.buf 0 b.count i found in
        subst (λ q. WaitEnd n q.0 q.1) (some-inj done)
          (line (omega arith) (ltb→lt b.count n few) at (λ j h. before j zero_le h))
    | inl nothing ↦ elim (Bool-cases p) [
      | inl y ↦
          let done : some (minus_one, b) ≡ some (r, k) = rw (few, nothing, y) at e in
          subst (λ q. WaitEnd n q.0 q.1) (some-inj done)
            (signalled (ltb→lt b.count n few) (no_newline b.buf b.count nothing))
      | inr no_signal ↦ wait_kbd_input-WaitEnd n later r k (rw (few, nothing, no_signal) at e)
    ]
  ]
]

-- A look at the buffer that ends the wait: enough characters, a line break, or a signal.
abbrev pub EndsWait : ℕ → KbdInputBuf × Bool → Type 0
EndsWait n (k, p) = (n ≤ k.count) ⊎ ((i : ℕ) × (i < k.count) × (k.buf i ≡ newline)) ⊎ (p ≡ true)

-- terminal_wait_kbd_input has ended when one look finds enough characters, a line break or a
-- pending signal, whatever was seen before and after.
pub wait_kbd_input_ends :
    (n : ℕ) (before : List (KbdInputBuf × Bool)) (q : KbdInputBuf × Bool)
    (later : List (KbdInputBuf × Bool))
    → EndsWait n q
    → wait_kbd_input n (before ++ q ∷ later) ≢ none
unfolding wait_kbd_input
wait_kbd_input_ends n [] (k, p) later w e = elim (Bool-cases (ltb k.count n)) [
  | inr enough ↦ some_ne_none (rw enough at e)
  | inl few ↦ elim (Option-cases (find_newline k.buf 0 k.count)) [
    | inr (i, found) ↦ some_ne_none (rw (few, found) at e)
    | inl nothing ↦ elim w [
      | inl h ↦ absurd (omega (arith, ltb→lt k.count n few))
      | inr (inl (i, h, at)) ↦ no_newline k.buf k.count nothing i h at
      | inr (inr y) ↦ some_ne_none (rw (few, nothing, y) at e)
    ]
  ]
]
wait_kbd_input_ends n ((k, p) ∷ before) q later w e = elim (Bool-cases (ltb k.count n)) [
  | inr enough ↦ some_ne_none (rw enough at e)
  | inl few ↦ elim (Option-cases (find_newline k.buf 0 k.count)) [
    | inr (i, found) ↦ some_ne_none (rw (few, found) at e)
    | inl nothing ↦ elim (Bool-cases p) [
      | inl y ↦ some_ne_none (rw (few, nothing, y) at e)
      | inr y ↦ wait_kbd_input_ends n before q later w (rw (few, nothing, y) at e)
    ]
  ]
]
