-- ===== src/Programs/Support/Agreement.antt =====
-- The string functions of the user programs agree with those of the kernel, of student-distrib/lib.c.
use loli_os.Prelude.{
  ℕ, zero, suc, ◌+◌, ◌-◌, ◌≡◌, refl, ap, ◌∙◌, Option, none, some, [], ◌∷◌, arith, leb, ◌==◌,
  if◌then◌else◌,
}
use loli_os.Memory.Bytes.{Mem, store}
use loli_os.Strings.{
  string_rounds, strlen_from, strlen, strcmp_from, strcmp, strcpy_from, strcpy, swap_ends, strrev,
  itoa_digits, itoa_rounds, itoa,
}
use loli_os.Programs.Support.{
  len_from, ece391_strlen, copy_from, ece391_strcpy, cmp_from, ece391_strcmp, ece391_strrev,
  ece391_itoa,
}

len_from-strlen_from :
    (m : Mem) (s len n a : ℕ) → a ≡ s + len → len_from m a len n ≡ strlen_from m s len n
unfolding len_from strlen_from
len_from-strlen_from m s len zero a e = refl
len_from-strlen_from m s len (suc n) a e =
    let rest = len_from-strlen_from m s (len + 1) n (a + 1) (omega (arith, e)) in rw (rest, e) refl

ece391_strlen-strlen : (m : Mem) (s : ℕ) → ece391_strlen m s ≡ strlen m s
unfolding ece391_strlen strlen
ece391_strlen-strlen m s = len_from-strlen_from m s 0 string_rounds s (omega arith)

cmp_from-strcmp_from : (m : Mem) (s1 s2 n : ℕ) → cmp_from m s1 s2 n ≡ strcmp_from m s1 s2 n
unfolding cmp_from strcmp_from
cmp_from-strcmp_from m s1 s2 zero = refl
cmp_from-strcmp_from m s1 s2 (suc n) = ground (arith, cmp_from-strcmp_from m (s1 + 1) (s2 + 1) n)

ece391_strcmp-strcmp : (m : Mem) (s1 s2 : ℕ) → ece391_strcmp m s1 s2 ≡ strcmp m s1 s2
unfolding ece391_strcmp strcmp
ece391_strcmp-strcmp m s1 s2 = cmp_from-strcmp_from m s1 s2 string_rounds

copy_from-strcpy_from :
    (m : Mem) (dest src i n d a : ℕ)
    → d ≡ dest + i
    → a ≡ src + i
    → copy_from m d a n ≡ strcpy_from m dest src i n
unfolding copy_from strcpy_from
copy_from-strcpy_from m dest src i zero d a e f = refl
copy_from-strcpy_from m dest src i (suc n) d a e f =
    let copied = store m d (m a ∷ []) in
    let rest =
      copy_from-strcpy_from copied dest src (i + 1) n (d + 1) (a + 1) (omega (arith, e))
        (omega (arith, f)) in
    rw (rest, e, f) (last (m (src + i)))
  where
    last :
        (c : ℕ)
        → (if c == 0
            then some (store m (dest + i) (c ∷ []))
            else strcpy_from (store m (dest + i) (c ∷ [])) dest src (i + 1) n)
          ≡ (if c == 0
              then some (store m (dest + i) (0 ∷ []))
              else strcpy_from (store m (dest + i) (c ∷ [])) dest src (i + 1) n)
    last zero = refl
    last (suc c) = ground arith

ece391_strcpy-strcpy : (m : Mem) (dst src : ℕ) → ece391_strcpy m dst src ≡ strcpy m dst src
unfolding ece391_strcpy strcpy
ece391_strcpy-strcpy m dst src =
    copy_from-strcpy_from m dst src 0 string_rounds dst src (omega arith) (omega arith)

short_swap :
    (m : Mem) (s len : ℕ)
    → (if leb len 1 then some m else some (swap_ends m s 0 (len - 1) len))
      ≡ some (swap_ends m s 0 (len - 1) len)
unfolding swap_ends
short_swap m s zero = refl
short_swap m s (suc zero) = refl
short_swap m s (suc (suc len)) = ground arith

reversed :
    (m : Mem) (s : ℕ) (o : Option ℕ)
    → ◌≡◌ {A = Option Mem}
        (elim o [
          | none ↦ none
          | some len ↦ if leb len 1 then some m else some (swap_ends m s 0 (len - 1) len)
        ])
        (elim o [ none ↦ none | some len ↦ some (swap_ends m s 0 (len - 1) len) ])
reversed m s none = refl
reversed m s (some len) = short_swap m s len

ece391_strrev-strrev : (m : Mem) (s : ℕ) → ece391_strrev m s ≡ strrev m s
unfolding ece391_strrev strrev
ece391_strrev-strrev m s =
    reversed m s (ece391_strlen m s)
    ∙ ap
        (λ (o : Option ℕ). elim o as (λ _. Option Mem) [
          | none ↦ none
          | some len ↦ some (swap_ends m s 0 (len - 1) len)
        ])
        (ece391_strlen-strlen m s)

spelled :
    (buf : ℕ) (o : Option (Mem × ℕ))
    → ◌≡◌ {A = Option Mem}
        (elim o [ none ↦ none | some (m', newbuf) ↦ ece391_strrev (store m' newbuf (0 ∷ [])) buf ])
        (elim o [ none ↦ none | some (m', newbuf) ↦ strrev (store m' newbuf (0 ∷ [])) buf ])
spelled buf none = refl
spelled buf (some (m', newbuf)) = ece391_strrev-strrev (store m' newbuf (0 ∷ [])) buf

ece391_itoa-itoa :
    (m : Mem) (value buf radix : ℕ) → ece391_itoa m value buf radix ≡ itoa m value buf radix
unfolding ece391_itoa itoa itoa_rounds
ece391_itoa-itoa m value buf radix =
    ap (λ rest. if value == 0 then some (store m buf (48 ∷ 0 ∷ [])) else rest)
      (spelled buf (itoa_digits m buf value radix 33))

-- On every memory, ece391_strlen, ece391_strcmp, ece391_strcpy, ece391_strrev and ece391_itoa of
-- the user programs give what the functions of the kernel's lib.c without the prefix give.
pub ece391_support_lem :
    (m : Mem) (s t value radix : ℕ)
    → (ece391_strlen m s ≡ strlen m s)
      × (ece391_strcmp m s t ≡ strcmp m s t)
      × (ece391_strcpy m s t ≡ strcpy m s t)
      × (ece391_strrev m s ≡ strrev m s)
      × (ece391_itoa m value s radix ≡ itoa m value s radix)
ece391_support_lem m s t value radix = (
  ece391_strlen-strlen m s,
  ece391_strcmp-strcmp m s t,
  ece391_strcpy-strcpy m s t,
  ece391_strrev-strrev m s,
  ece391_itoa-itoa m value s radix,
)
