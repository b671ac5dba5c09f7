-- ===== src/Terminal/Reads.antt =====
-- The file operations of student-distrib/terminal.c for stdin, stdout and the mouse. While a read
-- waits, interrupts change the buffer: what it sees each time that it looks is an argument, the
-- buffer with whether a signal is pending. `none` is a read that still waits at the end of the list.
pub mod Lines
pub mod Stdin
pub mod Writing
use loli_os.Prelude.{
  [], ℕ, zero, suc, ◌+◌, ◌-◌, ◌*◌, ◌/◌, ◌%◌, ◌^◌, min, Bool, Option, none, some, List, ◌∷◌, ltb,
  ◌==◌, if◌then◌else◌, ℤ, pos, negsuc, pos_part, neg_part, minus_one,
}
use loli_os.Memory.{is_user_readable, is_user_writable, copy_to_user, size_of_copy}
use loli_os.Memory.Bytes.{Mem, bytes}
use loli_os.MemOps.{memmove}
use loli_os.Terminal.{KbdInputBuf, MouseInputBuf, keyboard_buf_size, newline}
use loli_os.Terminal.Console.{◌>>=◌, Console, update_cursor, putc_at}

-- The search for a line break, from index i on, over n more characters.
unfoldable pub find_newline : Mem → ℕ → ℕ → Option ℕ
find_newline m i zero = none
find_newline m i (suc n) =
    let rest = find_newline m (i + 1) n in if m i == newline then some i else rest

-- terminal_wait_kbd_input: the result, and the buffer when the wait ends.
unfoldable pub wait_kbd_input : ℕ → List (KbdInputBuf × Bool) → Option (ℤ × KbdInputBuf)
unfolding find_newline
wait_kbd_input nbytes [] = none
wait_kbd_input nbytes ((k, pending) ∷ later) =
    let rest = wait_kbd_input nbytes later in
    if ltb k.count nbytes
    then elim (find_newline k.buf 0 k.count) [
      | some i ↦ some (pos (i + 1), k)
      | none ↦ if pending then some (minus_one, k) else rest
    ]
    else some (pos nbytes, k)

-- The end of terminal_stdin_read: the shift of the buffer by n characters.
unfoldable pub take_input : KbdInputBuf → ℕ → KbdInputBuf
take_input k n = record { buf = memmove k.buf 0 n n; count = k.count - n }

-- What a read returns, the user memory, and the buffer that it leaves.
pub record StdinResult : Type 0 where
  pub value : ℤ
  pub mem : Mem
  pub input : KbdInputBuf

stdin_finish : Mem → ℕ → ℤ × KbdInputBuf → StdinResult
unfolding copy_to_user take_input
stdin_finish m dest (negsuc n, k) = record { value = minus_one; mem = m; input = k }
stdin_finish m dest (pos n, k) = elim (copy_to_user m dest k.buf (pos n)) [
  | none ↦ record { value = minus_one; mem = m; input = k }
  | some m' ↦ record { value = pos n; mem = m'; input = take_input k n }
]

-- terminal_stdin_read.
unfoldable pub stdin_read :
    Mem → ℕ → ℤ → KbdInputBuf → Bool → List (KbdInputBuf × Bool) → Option StdinResult
unfolding is_user_writable wait_kbd_input stdin_finish
stdin_read m dest nbytes k pending later =
    if is_user_writable dest nbytes
    then (do
      done ← wait_kbd_input (min (size_of_copy nbytes) keyboard_buf_size) ((k, pending) ∷ later)
      some (stdin_finish m dest done))
    else some (record { value = minus_one; mem = m; input = k })

-- The loop of terminal_stdout_write, over the bytes of the buffer.
unfoldable pub stdout_loop : Console → ℕ → List ℕ → Console
unfolding putc_at
stdout_loop s i [] = s
stdout_loop s i (c ∷ cs) = stdout_loop (putc_at s i c) i cs

-- terminal_stdout_write, for the executing terminal i.
unfoldable pub stdout_write : Console → ℕ → ℕ → ℤ → Option (ℤ × Console)
unfolding is_user_readable stdout_loop update_cursor
stdout_write s i src nbytes =
    if is_user_readable src nbytes
    then (do
      s' ← update_cursor (stdout_loop s i (bytes s.mem src (size_of_copy nbytes))) i
      some (nbytes, s'))
    else some (minus_one, s)

-- terminal_kbd_open, terminal_kbd_close, terminal_stdin_write, terminal_stdout_read,
-- terminal_mouse_open, terminal_mouse_write and terminal_mouse_close.
abbrev pub kbd_open : ℤ
kbd_open = pos 0

abbrev pub kbd_close : ℤ
kbd_close = minus_one

abbrev pub stdin_write : ℤ
stdin_write = minus_one

abbrev pub stdout_read : ℤ
stdout_read = minus_one

abbrev pub mouse_open : ℤ
mouse_open = pos 0

abbrev pub mouse_write : ℤ
mouse_write = minus_one

abbrev pub mouse_close : ℤ
mouse_close = pos 0

-- The end of terminal_mouse_read: the shift of the buffer by n events.
unfoldable pub take_mouse : MouseInputBuf → ℕ → MouseInputBuf
take_mouse b n = record {
  buf = λ i. if ltb i n then b.buf (n + i) else b.buf i;
  count = b.count - n;
}

-- The bytes of the array of events: `mouse_input_t` has three fields of one byte.
abbrev pub mouse_bytes : MouseInputBuf → Mem
mouse_bytes b p =
    let e = b.buf (p / 3) in if p % 3 == 0 then e.flags else if p % 3 == 1 then e.dx else e.dy

-- terminal_mouse_read. The quotient by `sizeof` is of unsigned numbers.
unfoldable pub mouse_read : Mem → ℕ → ℤ → MouseInputBuf → ℤ × Mem × MouseInputBuf
unfolding copy_to_user take_mouse
mouse_read m dest nbytes b =
    let asked = pos_part nbytes + (2 ^ 32 - neg_part nbytes) % 2 ^ 32 in
    let n = min (asked / 3) b.count in
    elim (copy_to_user m dest (mouse_bytes b) (pos (3 * n))) [
      | none ↦ (minus_one, m, b)
      | some m' ↦ (pos (3 * n), m', take_mouse b n)
    ]
