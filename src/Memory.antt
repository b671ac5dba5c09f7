-- ===== src/Memory.antt =====
-- Memory, and the checks on userspace pointers of student-distrib/lib.c: is_user_readable_string,
-- is_user_readable, is_user_writable, read_char_from_user, strncpy_from_user, copy_from_user and
-- copy_to_user. The memory is the one that userspace pointers address, a pointer is its address, and
-- a kernel object that is copied from or to is a value of its own.
pub mod Bytes
pub mod Words
pub mod Access
use loli_os.Prelude.{
  [], ℕ, zero, suc, ◌+◌, ◌-◌, Bool, true, false, ◌||◌, ltb, leb, ◌==◌, if◌then◌else◌, ℤ, pos,
  negsuc, minus_one, add_u32, Option, some, none, List, ◌∷◌,
}
use Bytes.{Mem, bytes, store}

-- USER_PAGE_START and USER_PAGE_END.
abbrev pub user_page_start : ℕ
user_page_start = 0x08000000

abbrev pub user_page_end : ℕ
user_page_end = 0x08400000

-- The loop of is_user_readable_string over the addresses that are left in the user page.
string_ends : Mem → ℕ → ℕ → Bool
string_ends m p zero = false
string_ends m p (suc n) = let rest = string_ends m (p + 1) n in if m p == 0 then true else rest

-- `(uint32_t)str + i < USER_PAGE_END` holds for the first `USER_PAGE_END - str` values of i.
unfoldable pub is_user_readable_string : Mem → ℕ → Bool
unfolding string_ends
is_user_readable_string m str =
    if ltb str user_page_start then false else string_ends m str (user_page_end - str)

-- The test once n is known to be non-negative. `end` may wrap.
abbrev pub range_readable : ℕ → ℕ → Bool
range_readable start n =
    let end = add_u32 start n in
    if ltb end start
    then false
    else if ltb start user_page_start || leb user_page_end end
    then false
    else true

unfoldable pub is_user_readable : ℕ → ℤ → Bool
is_user_readable user_buf (negsuc n) = false
is_user_readable user_buf (pos n) = range_readable user_buf n

unfoldable pub is_user_writable : ℕ → ℤ → Bool
unfolding is_user_readable
is_user_writable user_buf n = is_user_readable user_buf n

unfoldable pub read_char_from_user : Mem → ℕ → ℤ
read_char_from_user m ptr =
    if ltb ptr user_page_start || leb user_page_end ptr then minus_one else pos (m ptr)

-- The number of bytes that memcpy is given: a negative n has been refused before.
abbrev pub size_of_copy : ℤ → ℕ
size_of_copy (pos n) = n
size_of_copy (negsuc n) = 0

-- The bytes that are copied to the kernel object, or `none` for the result false.
unfoldable pub copy_from_user : Mem → ℕ → ℤ → Option (List ℕ)
unfolding is_user_readable
copy_from_user m src n =
    if is_user_readable src n then some (bytes m src (size_of_copy n)) else none

-- `src` gives the bytes of the kernel object by their offset; the result is the user memory.
unfoldable pub copy_to_user : Mem → ℕ → Mem → ℤ → Option Mem
unfolding is_user_writable
copy_to_user m dest src n =
    if is_user_writable dest n then some (store m dest (bytes src 0 (size_of_copy n))) else none

-- The rounds that are left of the loop of strncpy_from_user, at index i. `dest` is the kernel
-- buffer by offsets.
strncpy_from : Mem → Mem → ℕ → ℕ → ℕ → Bool × Mem
strncpy_from m dest src i zero = (false, dest)
strncpy_from m dest src i (suc n) =
    let p = add_u32 src i in
    let dest' = store dest i (m p ∷ []) in
    let rest = strncpy_from m dest' src (i + 1) n in
    if leb user_page_end p then (false, dest) else if m p == 0 then (true, dest') else rest

unfoldable pub strncpy_from_user : Mem → Mem → ℕ → ℕ → Bool × Mem
unfolding strncpy_from
strncpy_from_user m dest src n =
    if ltb src user_page_start then (false, dest) else strncpy_from m dest src 0 n
