-- ===== src/Programs/Support.antt =====
-- The string functions that the user programs share, of syscalls/ece391support.c, over the memory of
-- their process. The loops are as those of Strings: 2^32 rounds, and `none` when none is left.
pub mod Agreement
use loli_os.Prelude.{
  ℕ, zero, suc, ◌+◌, ◌-◌, ◌||◌, Option, none, some, [], ◌∷◌, leb, ◌==◌, if◌then◌else◌, ℤ, pos,
  sub_ℕ,
}
use loli_os.Memory.Bytes.{Mem, store}
use loli_os.Strings.{string_rounds, swap_ends, itoa_digits}

-- The loop of ece391_strlen.
len_from : Mem → ℕ → ℕ → ℕ → Option ℕ
len_from m s len zero = none
len_from m s len (suc n) =
    let rest = len_from m (s + 1) (len + 1) n in if m s == 0 then some len else rest

-- ece391_strlen.
unfoldable pub ece391_strlen : Mem → ℕ → Option ℕ
unfolding len_from
ece391_strlen m s = len_from m s 0 string_rounds

-- The loop of ece391_strcpy.
copy_from : Mem → ℕ → ℕ → ℕ → Option Mem
copy_from m dst src zero = none
copy_from m dst src (suc n) =
    let copied = store m dst (m src ∷ []) in
    let rest = copy_from copied (dst + 1) (src + 1) n in if m src == 0 then some copied else rest

-- ece391_strcpy.
unfoldable pub ece391_strcpy : Mem → ℕ → ℕ → Option Mem
unfolding copy_from
ece391_strcpy m dst src = copy_from m dst src string_rounds

-- The loop of ece391_strcmp.
cmp_from : Mem → ℕ → ℕ → ℕ → Option ℤ
cmp_from m s1 s2 zero = none
cmp_from m s1 s2 (suc n) =
    let rest = cmp_from m (s1 + 1) (s2 + 1) n in
    if m s1 == m s2 then (if m s1 == 0 then some (pos 0) else rest) else some (sub_ℕ (m s1) (m s2))

-- ece391_strcmp.
unfoldable pub ece391_strcmp : Mem → ℕ → ℕ → Option ℤ
unfolding cmp_from
ece391_strcmp m s1 s2 = cmp_from m s1 s2 string_rounds

-- ece391_strncmp. The characters are `uint8_t`.
pub ece391_strncmp : Mem → ℕ → ℕ → ℕ → ℤ
ece391_strncmp m s1 s2 zero = pos 0
ece391_strncmp m s1 s2 (suc n) =
    let rest = ece391_strncmp m (s1 + 1) (s2 + 1) n in
    if m s1 == m s2 then (if m s1 == 0 || n == 0 then pos 0 else rest) else sub_ℕ (m s1) (m s2)

-- ece391_strrev, whose loop is that of strrev.
unfoldable pub ece391_strrev : Mem → ℕ → Option Mem
unfolding ece391_strlen swap_ends
ece391_strrev m s = elim (ece391_strlen m s) [
  | none ↦ none
  | some len ↦ if leb len 1 then some m else some (swap_ends m s 0 (len - 1) len)
]

-- ece391_itoa, whose loop is that of itoa.
unfoldable pub ece391_itoa : Mem → ℕ → ℕ → ℕ → Option Mem
unfolding itoa_digits ece391_strrev
ece391_itoa m value buf radix =
    if value == 0
    then some (store m buf (48 ∷ 0 ∷ []))
    else elim (itoa_digits m buf value radix 33) [
      | none ↦ none
      | some (m', newbuf) ↦ ece391_strrev (store m' newbuf (0 ∷ [])) buf
    ]
