-- ===== src/Strings.antt =====
-- The string functions of student-distrib/lib.c: strlen, strcmp, strncmp, strcpy, strncpy, strrev,
-- itoa and atoi_s, over one memory. Strings end below the top of the address space, so a pointer
-- into one does not wrap. A loop that ends at a NUL is a recursion on the rounds that are left, of
-- which there are 2^32, as many as there are addresses; it is `none` when no round is left.
pub mod Compare
pub mod Copy
pub mod Numbers
pub mod Parsing
pub mod Reverse
use loli_os.Prelude.{
  ℕ, zero, suc, ◌+◌, ◌-◌, ◌*◌, ◌/◌, ◌%◌, ◌^◌, ◌&&◌, ◌||◌, not, Option, none, some, List, [], ◌∷◌,
  ltb, ◌==◌, if◌then◌else◌, get_or, ℤ, pos, negsuc, sub_ℕ, ◌-ℤ◌, ltb_ℤ, minus_one, sub_u32, to_i32,
}
use loli_os.Memory.Bytes.{Mem, store}

abbrev pub string_rounds : ℕ
string_rounds = 2 ^ 32

-- The loop of strlen.
unfoldable pub strlen_from : Mem → ℕ → ℕ → ℕ → Option ℕ
strlen_from m s len zero = none
strlen_from m s len (suc n) =
    let rest = strlen_from m s (len + 1) n in if m (s + len) == 0 then some len else rest

-- strlen.
unfoldable pub strlen : Mem → ℕ → Option ℕ
unfolding strlen_from
strlen m s = strlen_from m s 0 string_rounds

-- The loop of strcmp, and the difference of the last two characters, as `uint8_t`.
unfoldable pub strcmp_from : Mem → ℕ → ℕ → ℕ → Option ℤ
strcmp_from m s1 s2 zero = none
strcmp_from m s1 s2 (suc n) =
    let rest = strcmp_from m (s1 + 1) (s2 + 1) n in
    if not (m s1 == 0) && m s1 == m s2 then rest else some (sub_ℕ (m s1) (m s2))

-- strcmp.
unfoldable pub strcmp : Mem → ℕ → ℕ → Option ℤ
unfolding strcmp_from
strcmp m s1 s2 = strcmp_from m s1 s2 string_rounds

-- A byte as `int8_t`.
abbrev pub to_i8 : ℕ → ℤ
to_i8 b = if ltb b 128 then pos b else negsuc (255 - b)

-- The loop of strncmp, with n rounds left. Its characters are `int8_t`.
unfoldable pub strncmp_from : Mem → ℕ → ℕ → ℕ → ℕ → ℤ
strncmp_from m s1 s2 i zero = pos 0
strncmp_from m s1 s2 i (suc n) =
    let rest = strncmp_from m s1 s2 (i + 1) n in
    if not (m (s1 + i) == m (s2 + i)) || m (s1 + i) == 0
    then to_i8 (m (s1 + i)) -ℤ to_i8 (m (s2 + i))
    else rest

-- strncmp.
unfoldable pub strncmp : Mem → ℕ → ℕ → ℕ → ℤ
unfolding strncmp_from
strncmp m s1 s2 n = strncmp_from m s1 s2 0 n

-- The loop of strcpy.
unfoldable pub strcpy_from : Mem → ℕ → ℕ → ℕ → ℕ → Option Mem
strcpy_from m dest src i zero = none
strcpy_from m dest src i (suc n) =
    let rest = strcpy_from (store m (dest + i) (m (src + i) ∷ [])) dest src (i + 1) n in
    if m (src + i) == 0 then some (store m (dest + i) (0 ∷ [])) else rest

-- strcpy.
unfoldable pub strcpy : Mem → ℕ → ℕ → Option Mem
unfolding strcpy_from
strcpy m dest src = strcpy_from m dest src 0 string_rounds

-- The second loop of strncpy, from index i on, with n rounds left.
zero_fill : Mem → ℕ → ℕ → ℕ → Mem
zero_fill m dest i zero = m
zero_fill m dest i (suc n) = zero_fill (store m (dest + i) (0 ∷ [])) dest (i + 1) n

-- The first loop of strncpy, which the second one follows.
strncpy_from : Mem → ℕ → ℕ → ℕ → ℕ → Mem
unfolding zero_fill
strncpy_from m dest src i zero = m
strncpy_from m dest src i (suc n) =
    let rest = strncpy_from (store m (dest + i) (m (src + i) ∷ [])) dest src (i + 1) n in
    if m (src + i) == 0 then zero_fill m dest i (suc n) else rest

-- strncpy.
unfoldable pub strncpy : Mem → ℕ → ℕ → ℕ → Mem
unfolding strncpy_from
strncpy m dest src n = strncpy_from m dest src 0 n

-- The loop of strrev. Each round brings beg and end closer, so there are no more than `end` rounds.
unfoldable pub swap_ends : Mem → ℕ → ℕ → ℕ → ℕ → Mem
swap_ends m s beg end zero = m
swap_ends m s beg end (suc n) =
    let moved = store m (s + end) (m (s + beg) ∷ []) in
    let swapped = store moved (s + beg) (m (s + end) ∷ []) in
    let rest = swap_ends swapped s (beg + 1) (end - 1) n in if ltb beg end then rest else m

-- strrev. For the empty string, `end` is -1 in the code and 0 here: neither is above `beg`.
unfoldable pub strrev : Mem → ℕ → Option Mem
unfolding strlen swap_ends
strrev m s = elim (strlen m s) [ none ↦ none | some len ↦ some (swap_ends m s 0 (len - 1) len) ]

-- The array `lookup` of itoa: the digits and the capital letters.
abbrev pub lookup : List ℕ
lookup =
    48 ∷ 49 ∷ 50 ∷ 51 ∷ 52 ∷ 53 ∷ 54 ∷ 55 ∷ 56 ∷ 57 ∷ 65 ∷ 66 ∷ 67 ∷ 68 ∷ 69 ∷ 70 ∷ 71 ∷ 72 ∷ 73
    ∷ 74 ∷ 75 ∷ 76 ∷ 77 ∷ 78 ∷ 79 ∷ 80 ∷ 81 ∷ 82 ∷ 83 ∷ 84 ∷ 85 ∷ 86 ∷ 87 ∷ 88 ∷ 89 ∷ 90 ∷ []

-- The loop of itoa: the memory and where the next digit would go.
unfoldable pub itoa_digits : Mem → ℕ → ℕ → ℕ → ℕ → Option (Mem × ℕ)
itoa_digits m newbuf newval radix zero = none
itoa_digits m newbuf newval radix (suc n) =
    let digit = get_or lookup (newval % radix) 0 in
    let rest = itoa_digits (store m newbuf (digit ∷ [])) (newbuf + 1) (newval / radix) radix n in
    if newval == 0 then some (m, newbuf) else rest

-- itoa for a value other than zero, with the rounds of its loop.
unfoldable pub itoa_rounds : ℕ → Mem → ℕ → ℕ → ℕ → Option Mem
unfolding itoa_digits strrev
itoa_rounds rounds m value buf radix = elim (itoa_digits m buf value radix rounds) [
  | none ↦ none
  | some (m', newbuf) ↦ strrev (store m' newbuf (0 ∷ [])) buf
]

-- itoa, for a radix from 2 to 36: a 32-bit value has at most 32 digits.
unfoldable pub itoa : Mem → ℕ → ℕ → ℕ → Option Mem
unfolding itoa_rounds
itoa m value buf radix =
    if value == 0 then some (store m buf (48 ∷ 0 ∷ [])) else itoa_rounds 33 m value buf radix

-- What atoi_s leaves in its result: NULL, or the number.
pub data Parsed : Type 0 where
  not_a_number : Parsed
  number : ℤ → Parsed

-- The loop of atoi_s. `res` is an int32_t that wraps, as its 32-bit word.
atoi_from : Mem → ℕ → ℕ → ℤ → ℕ → Option Parsed
atoi_from m str res sign zero = none
atoi_from m str res sign (suc n) =
    let rest = atoi_from m (str + 1) ((res * 10 + (m str - 48)) % 2 ^ 32) sign n in
    if m str == 0
    then some (number (if ltb_ℤ sign (pos 0) then to_i32 (sub_u32 0 res) else to_i32 res))
    else if ltb (m str) 48 || ltb 57 (m str)
    then some not_a_number
    else rest

-- atoi_s, with the rounds of its loop.
atoi_rounds : ℕ → Mem → ℕ → Option Parsed
unfolding atoi_from
atoi_rounds rounds m str =
    if m str == 0
    then some not_a_number
    else if m str == 45
    then atoi_from m (str + 1) 0 minus_one rounds
    else atoi_from m str 0 (pos 1) rounds

-- atoi_s.
unfoldable pub atoi_s : Mem → ℕ → Option Parsed
unfolding atoi_rounds
atoi_s m str = atoi_rounds string_rounds m str
