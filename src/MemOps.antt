-- ===== src/MemOps.antt =====
-- The memory routines of student-distrib/lib.c that are written in assembly: memset, memset_word,
-- memset_dword, memcpy and memmove, over one memory. Each loop is a function of the registers that
-- it changes: esi and edi are the addresses, and ecx or edx counts the rounds that are left.
pub mod Copy
pub mod Fill
use loli_os.Prelude.{
  [], ℕ, zero, suc, ◌*◌, ◌/◌, ◌%◌, List, ◌∷◌, leb, ◌==◌, if◌then◌else◌, add_u32, sub_u32,
}
use loli_os.Memory.Bytes.{Mem, bytes, store}

-- `rep movsl` with the direction flag clear.
movsl : Mem → ℕ → ℕ → ℕ → Mem
movsl m esi edi zero = m
movsl m esi edi (suc n) = movsl (store m edi (bytes m esi 4)) (add_u32 esi 4) (add_u32 edi 4) n

-- `rep movsb` with the direction flag clear; also the loop from .memcpy_bottom.
movsb : Mem → ℕ → ℕ → ℕ → Mem
movsb m esi edi zero = m
movsb m esi edi (suc n) = movsb (store m edi (m esi ∷ [])) (add_u32 esi 1) (add_u32 edi 1) n

-- `rep movsb` with the direction flag set.
movsb_down : Mem → ℕ → ℕ → ℕ → Mem
movsb_down m esi edi zero = m
movsb_down m esi edi (suc n) =
    movsb_down (store m edi (m esi ∷ [])) (sub_u32 esi 1) (sub_u32 edi 1) n

-- From .memcpy_aligned on: whole words, then the bytes that are left.
memcpy_aligned : Mem → ℕ → ℕ → ℕ → Mem
unfolding movsl movsb
memcpy_aligned m esi edi ecx =
    let words = ecx / 4 in
    movsb (movsl m esi edi words) (add_u32 esi (4 * words)) (add_u32 edi (4 * words)) (ecx % 4)

-- From .memcpy_top on: bytes until edi is aligned.
memcpy_top : Mem → ℕ → ℕ → ℕ → Mem
unfolding memcpy_aligned
memcpy_top m esi edi zero = m
memcpy_top m esi edi (suc n) =
    let rest = memcpy_top (store m edi (m esi ∷ [])) (add_u32 esi 1) (add_u32 edi 1) n in
    if edi % 4 == 0 then memcpy_aligned m esi edi (suc n) else rest

unfoldable pub memcpy : Mem → ℕ → ℕ → ℕ → Mem
unfolding memcpy_top
memcpy m dest src n = memcpy_top m src dest n

-- The copy runs upwards if src is not below dest, and downwards from the last bytes otherwise.
unfoldable pub memmove : Mem → ℕ → ℕ → ℕ → Mem
unfolding movsb movsb_down
memmove m dest src n =
    if leb dest src
    then movsb m src dest n
    else movsb_down m (sub_u32 (add_u32 src n) 1) (sub_u32 (add_u32 dest n) 1) n

-- `rep stosl` of a word whose four bytes are c, `rep stosw` and `rep stosl`, upwards.
stos : List ℕ → ℕ → Mem → ℕ → ℕ → Mem
stos pattern size m edi zero = m
stos pattern size m edi (suc n) = stos pattern size (store m edi pattern) (add_u32 edi size) n

memset_aligned : Mem → ℕ → ℕ → ℕ → Mem
unfolding stos
memset_aligned m edi al ecx =
    let words = ecx / 4 in
    stos (al ∷ []) 1 (stos (al ∷ al ∷ al ∷ al ∷ []) 4 m edi words) (add_u32 edi (4 * words))
      (ecx % 4)

memset_top : Mem → ℕ → ℕ → ℕ → Mem
unfolding memset_aligned
memset_top m edi al zero = m
memset_top m edi al (suc n) =
    let rest = memset_top (store m edi (al ∷ [])) (add_u32 edi 1) al n in
    if edi % 4 == 0 then memset_aligned m edi al (suc n) else rest

-- `c &= 0xFF`, and al holds that byte.
unfoldable pub memset : Mem → ℕ → ℕ → ℕ → Mem
unfolding memset_top
memset m s c n = memset_top m s (c % 256) n

unfoldable pub memset_word : Mem → ℕ → ℕ → ℕ → Mem
unfolding stos
memset_word m s c n = stos (c % 256 ∷ c / 256 % 256 ∷ []) 2 m s n

unfoldable pub memset_dword : Mem → ℕ → ℕ → ℕ → Mem
unfolding stos
memset_dword m s c n =
    stos (c % 256 ∷ c / 256 % 256 ∷ c / 65536 % 256 ∷ c / 16777216 % 256 ∷ []) 4 m s n
