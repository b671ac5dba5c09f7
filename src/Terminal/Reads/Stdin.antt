-- ===== src/Terminal/Reads/Stdin.antt =====
-- What a terminal_stdin_read of student-distrib/terminal.c returns and leaves.
use loli_os.Prelude.{[], ℕ, ◌+◌, ◌≤◌, ◌<◌, ◌≡◌, ◌⊎◌, Bool, false, List, ◌∷◌, pos}
use loli_os.Memory.Access.{InUserPage}
use loli_os.Memory.Bytes.{Mem, bytes}
use loli_os.Terminal.{KbdInputBuf}
use loli_os.Terminal.Reads.{take_input, StdinResult}
use loli_os.Terminal.Reads.Lines.{NoBreak, WaitEnd}

-- The buffer at the first look that ends a wait for n characters: at every look before, there were
-- fewer characters, none of them a line break, and no signal was pending.
pub FirstEnd : ℕ → List (KbdInputBuf × Bool) → KbdInputBuf → Type 0
FirstEnd n [] b = ⊥
FirstEnd n ((k, p) ∷ later) b =
    (k ≡ b) ⊎ ((k.count < n) × NoBreak k.buf k.count × (p ≡ false) × FirstEnd n later b)

-- What a read of the keyboard of at most `limit` characters leaves, where it returns n: the buffer
-- `source` is the one at which its wait ends, over the looks `seen`, and ends it with n characters;
-- its first n characters stand at dest in the user memory, which is unchanged elsewhere, and all of
-- it lies in the user page; the shift leaves the rest.
pub record Line (m : Mem) (dest limit : ℕ) (seen : List (KbdInputBuf × Bool)) (r : StdinResult)
    (n : ℕ) : Type 0 where
  pub source : KbdInputBuf
  pub looked : FirstEnd limit seen source
  pub ended : WaitEnd limit (pos n) source
  pub given : bytes r.mem dest n ≡ bytes source.buf 0 n
  pub kept : (p : ℕ) → (p < dest) ⊎ (dest + n ≤ p) → r.mem p ≡ m p
  pub in_page : InUserPage dest n
  pub available : n ≤ source.count
  pub rest : r.input ≡ take_input source n
