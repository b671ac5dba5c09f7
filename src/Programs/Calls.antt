-- ===== src/Programs/Calls.antt =====
-- What a user program has of the kernel: the system calls as functions on a state that holds the memory
-- of the process. `none` is a call that does not return.
use Prim.Native.String.{String}
use loli_os.Prelude.{
  ℕ, ◌+◌, ◌-◌, ◌≤◌, min, ◌≡◌, Bool, false, Option, none, some, List, ◌==◌, ℤ, pos, negsuc,
}
use loli_os.Memory.Bytes.{Mem, bytes}

pub record Calls (S : Type 0) : Type 0 where
  pub mem : S → Mem
  -- The state when the program has written to its memory.
  pub with_mem : S → Mem → S
  -- The address of a string that is a constant of the program.
  pub literal : String → ℕ
  pub getargs : S → ℕ → ℤ → Option (ℤ × S)
  pub open_file : S → ℕ → Option (ℤ × S)
  pub read : S → ℤ → ℕ → ℤ → Option (ℤ × S)
  pub write : S → ℤ → ℕ → ℤ → Option (ℤ × S)

infixl 5 ◌>>=◌
abbrev pub ◌>>=◌ {ℓ κ} : {A : Type ℓ} {B : Type κ} → Option A → (A → Option B) → Option B
none >>= f = none
some a >>= f = f a

abbrev pub is_zero : ℤ → Bool
is_zero (pos n) = n == 0
is_zero (negsuc n) = false

abbrev pub is_minus_one : ℤ → Bool
is_minus_one (pos n) = false
is_minus_one (negsuc n) = n == 0

-- A program copies a file to the terminal through a buffer of `capacity` bytes. Ready is what the calls
-- need of the state; `content` and `size` are the file, and `at` the offset at which it is read; shows
-- says what is printed so far, and Fine which lists of bytes the terminal prints.
pub record Copying (S O : Type 0) (calls : Calls S) (fd : ℤ) (buf capacity : ℕ) (Ready : S → Type 0)
    (content : Mem) (size : ℕ) (at : S → ℕ) (Shown : S → O → Type 0) (print : O → List ℕ → O)
    (Fine : List ℕ → Type 0) : Type 0 where
  -- A read gives as many bytes as are left and fit.
  pub got :
      (s : S) (o : O)
      → Ready s
      → Shown s o
      → at s ≤ size
      → (s' : S) × (calls.read s fd buf (pos capacity)
          ≡ some (pos (min capacity (size - at s)), s'))
        × (bytes (calls.mem s') buf (min capacity (size - at s))
            ≡ bytes content (at s) (min capacity (size - at s)))
        × (at s' ≡ at s + min capacity (size - at s))
        × Shown s' o
        × Ready s'
  pub written :
      (s : S) (o : O) (n : ℕ)
      → Ready s
      → Shown s o
      → n ≤ capacity
      → Fine (bytes (calls.mem s) buf n)
      → (s' : S) × (calls.write s (pos 1) buf (pos n) ≡ some (pos n, s'))
        × (at s' ≡ at s)
        × Shown s' (print o (bytes (calls.mem s) buf n))
        × Ready s'
