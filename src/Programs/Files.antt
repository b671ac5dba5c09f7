-- ===== src/Programs/Files.antt =====
-- The programs syscalls/ece391cat.c, syscalls/ece391ls.c and syscalls/ece391echo.c: the status with
-- which each ends, and the state. `buf` is the address of the buffer on the stack.
pub mod Cat
pub mod Running
use Prim.Native.String.{String}
use loli_os.Prelude.{
  ℕ, zero, suc, not, Option, none, some, [], ◌∷◌, if◌then◌else◌, ℤ, pos, ◌+ℤ◌, add_u32, to_u32,
  to_i32,
}
use loli_os.Memory.Bytes.{store}
use loli_os.Programs.Calls.{Calls, ◌>>=◌, is_zero, is_minus_one}
use loli_os.Programs.Support.{ece391_strlen}

module _ {S : Type 0} (calls : Calls S) where
  -- ece391_fdputs.
  pub ece391_fdputs : S → ℤ → ℕ → Option S
  unfolding ece391_strlen
  ece391_fdputs s fd str = do
    len ← ece391_strlen (calls.mem s) str
    (written, s') ← calls.write s fd str (to_i32 len)
    some s'

  -- A message, and the end with a status.
  pub fail : S → String → ℕ → Option (ℕ × S)
  fail s message status = do s' ← ece391_fdputs s (pos 1) (calls.literal message); some (status, s')

  -- The loop of cat, with the rounds that are left.
  pub cat_loop : ℤ → ℕ → ℕ → S → Option (ℕ × S)
  cat_loop fd buf zero s = none
  cat_loop fd buf (suc n) s = do
    (cnt, s1) ← calls.read s fd buf (pos 1024)
    if is_zero cnt
        then some (0, s1)
        else if is_minus_one cnt
        then fail s1 "file read failed\n" 3
        else do
          (written, s2) ← calls.write s1 (pos 1) buf cnt
          let rest = cat_loop fd buf n s2
          if is_minus_one written then some (3, s2) else rest

  -- `main` of cat, from the result of open on.
  pub cat_opened : ℕ → ℕ → ℤ × S → Option (ℕ × S)
  unfolding cat_loop
  cat_opened rounds buf (fd, s) =
      if is_minus_one fd then fail s "file not found\n" 2 else cat_loop fd buf rounds s

  -- `main` of cat.
  pub cat_main : ℕ → ℕ → S → Option (ℕ × S)
  unfolding cat_opened
  cat_main rounds buf s = do
    (result, s1) ← calls.getargs s buf (pos 1024)
    if is_zero result
        then (do opened ← calls.open_file s1 buf; cat_opened rounds buf opened)
        else fail s1 "could not read arguments\n" 3

  -- The loop of ls.
  pub ls_loop : ℤ → ℕ → ℕ → S → Option (ℕ × S)
  unfolding ◌+ℤ◌
  ls_loop fd buf zero s = none
  ls_loop fd buf (suc n) s = do
    (cnt, s1) ← calls.read s fd buf (pos 32)
    if is_zero cnt
        then some (0, s1)
        else if is_minus_one cnt
        then fail s1 "directory entry read failed\n" 3
        else do
          let s2 = calls.with_mem s1 (store (calls.mem s1) (add_u32 buf (to_u32 cnt)) (10 ∷ []))
          (written, s3) ← calls.write s2 (pos 1) buf (cnt +ℤ pos 1)
          let rest = ls_loop fd buf n s3
          if is_minus_one written then some (3, s3) else rest

  -- `main` of ls.
  pub ls_main : ℕ → ℕ → S → Option (ℕ × S)
  unfolding ls_loop
  ls_main rounds buf s = do
    (fd, s1) ← calls.open_file s (calls.literal ".")
    if is_minus_one fd then fail s1 "directory open failed\n" 2 else ls_loop fd buf rounds s1

  -- `main` of echo.
  pub echo_main : ℕ → S → Option (ℕ × S)
  echo_main buf s = do
    (result, s1) ← calls.getargs s buf (pos 4096)
    if is_zero result
        then (do
          s2 ← ece391_fdputs s1 (pos 1) buf
          s3 ← ece391_fdputs s2 (pos 1) (calls.literal "\n")
          some (0, s3))
        else fail s1 "Could not read args\n" 1
