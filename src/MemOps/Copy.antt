-- ===== src/MemOps/Copy.antt =====
-- memcpy and memmove against one description of a copy.
use loli_os.Prelude.{
  [], ℕ, zero, suc, ◌+◌, ◌-◌, ◌*◌, ◌/◌, ◌%◌, ◌^◌, ◌≤◌, ◌<◌, ◌≡◌, subst, ◌⊎◌, inl, inr, ◌&&◌, ◌∷◌,
  arith, ltb, leb, ◌==◌, if◌then◌else◌, Bool-cases, add_u32, sub_u32,
}
use loli_os.Memory.Bytes.{Mem, bytes, store}
use loli_os.MemOps.{movsl, movsb, movsb_down, memcpy_aligned, memcpy_top, memcpy, memmove}

-- `l` is `m` with the n bytes from src on, as they were, standing at dest.
abbrev pub Copied : Mem → ℕ → ℕ → ℕ → Mem → Type 0
Copied m dest src n l =
    (p : ℕ) → l p ≡ (if leb dest p && ltb p (dest + n) then m (src + (p - dest)) else m p)

-- Two regions of n bytes that share no address.
abbrev pub Disjoint : ℕ → ℕ → ℕ → Type 0
Disjoint dest src n = (src + n ≤ dest) ⊎ (dest + n ≤ src)

store-bytes :
    (m l : Mem) (dest src n p : ℕ)
    → store m dest (bytes l src n) p
      ≡ (if leb dest p && ltb p (dest + n) then l (src + (p - dest)) else m p)
unfolding bytes store
store-bytes m l dest src zero p = ground arith
store-bytes m l dest src (suc n) p = ground (arith, store-bytes m l (dest + 1) (src + 1) n p)

pub store-Copied : (m : Mem) (dest src n : ℕ) → Copied m dest src n (store m dest (bytes m src n))
store-Copied m dest src n = store-bytes m m dest src n

-- A copy of k bytes and then of the j bytes behind them is a copy of all.
Copied-trans :
    (m l l' : Mem) (dest src k j : ℕ)
    → Disjoint dest src (k + j)
    → Copied m dest src k l
    → Copied l (dest + k) (src + k) j l'
    → Copied m dest src (k + j) l'
Copied-trans m l l' dest src k j d first second p =
    ground (arith, second p, first p, first (src + k + (p - (dest + k))))

-- Upwards, the bytes that are written may overlap those that are still to be read only from below.
movsb-Copied :
    (m : Mem) (src dest n : ℕ)
    → (dest ≤ src) ⊎ (src + n ≤ dest)
    → src + n < 2 ^ 32
    → dest + n < 2 ^ 32
    → Copied m dest src n (movsb m src dest n)
unfolding movsb store
movsb-Copied m src dest zero d hs hd p = ground arith
movsb-Copied m src dest (suc n) d hs hd p =
    let s : add_u32 src 1 ≡ src + 1 = omega arith in
    let t : add_u32 dest 1 ≡ dest + 1 = omega arith in
    let ih =
      movsb-Copied (store m dest (m src ∷ [])) (src + 1) (dest + 1) n (omega arith) (omega arith)
        (omega arith) p in
    rw (s, t) (ground (arith, ih))

movsl-Copied :
    (m : Mem) (src dest n : ℕ)
    → Disjoint dest src (4 * n)
    → src + 4 * n < 2 ^ 32
    → dest + 4 * n < 2 ^ 32
    → Copied m dest src (4 * n) (movsl m src dest n)
unfolding movsl
movsl-Copied m src dest zero d hs hd p = ground arith
movsl-Copied m src dest (suc n) d hs hd p =
    let s : add_u32 src 4 ≡ src + 4 = omega arith in
    let t : add_u32 dest 4 ≡ dest + 4 = omega arith in
    let total : 4 * suc n ≡ 4 + 4 * n = omega arith in
    rw (s, t, total)
      (Copied-trans m (store m dest (bytes m src 4)) _ dest src 4 (4 * n) (omega arith)
        (store-Copied m dest src 4)
        (movsl-Copied (store m dest (bytes m src 4)) (src + 4) (dest + 4) n (omega arith)
          (omega arith) (omega arith))
        p)

memcpy_aligned-Copied :
    (m : Mem) (src dest n : ℕ)
    → Disjoint dest src n
    → src + n < 2 ^ 32
    → dest + n < 2 ^ 32
    → Copied m dest src n (memcpy_aligned m src dest n)
unfolding memcpy_aligned
memcpy_aligned-Copied m src dest n d hs hd p =
    let words = 4 * (n / 4) in
    let s : add_u32 src words ≡ src + words = omega arith in
    let t : add_u32 dest words ≡ dest + words = omega arith in
    let total : words + n % 4 ≡ n = omega arith in
    let head = movsl m src dest (n / 4) in
    let all = movsb head (src + words) (dest + words) (n % 4) in
    rw (s, t)
      (subst (λ k. Copied m dest src k all) total
        (Copied-trans m head all dest src words (n % 4) (omega arith)
          (movsl-Copied m src dest (n / 4) (omega arith) (omega arith) (omega arith))
          (movsb-Copied head (src + words) (dest + words) (n % 4) (omega arith) (omega arith)
            (omega arith)))
        p)

memcpy_top-Copied :
    (m : Mem) (src dest n : ℕ)
    → Disjoint dest src n
    → src + n < 2 ^ 32
    → dest + n < 2 ^ 32
    → Copied m dest src n (memcpy_top m src dest n)
unfolding memcpy_top store
memcpy_top-Copied m src dest zero d hs hd p = ground arith
memcpy_top-Copied m src dest (suc n) d hs hd p = elim (Bool-cases (dest % 4 == 0)) [
  | inl e ↦ rw e (memcpy_aligned-Copied m src dest (suc n) d hs hd p)
  | inr e ↦
      let s : add_u32 src 1 ≡ src + 1 = omega arith in
      let t : add_u32 dest 1 ≡ dest + 1 = omega arith in
      let ih =
        memcpy_top-Copied (store m dest (m src ∷ [])) (src + 1) (dest + 1) n (omega arith)
          (omega arith) (omega arith) p in
      rw (e, s, t) (ground (arith, ih))
]

-- For two regions of n bytes that share no address and end below 2^32, memcpy, which copies single
-- bytes up to an aligned address, then whole words, then the rest, copies the region and changes
-- nothing else.
pub memcpy-Copied :
    (m : Mem) (dest src n : ℕ)
    → Disjoint dest src n
    → src + n < 2 ^ 32
    → dest + n < 2 ^ 32
    → Copied m dest src n (memcpy m dest src n)
unfolding memcpy
memcpy-Copied m dest src n d hs hd = memcpy_top-Copied m src dest n d hs hd

movsb_down-Copied :
    (m : Mem) (src dest n from to : ℕ)
    → src < dest
    → src + n ≡ from + 1
    → dest + n ≡ to + 1
    → to < 2 ^ 32
    → Copied m dest src n (movsb_down m from to n)
unfolding movsb_down store
movsb_down-Copied m src dest zero from to d hs hd ht p = ground arith
movsb_down-Copied m src dest (suc zero) from to d hs hd ht p = ground arith
movsb_down-Copied m src dest (suc (suc n)) from to d hs hd ht p =
    let s : sub_u32 from 1 ≡ from - 1 = omega arith in
    let t : sub_u32 to 1 ≡ to - 1 = omega arith in
    let ih =
      movsb_down-Copied (store m to (m from ∷ [])) src dest (suc n) (from - 1) (to - 1) d
        (omega arith) (omega arith) (omega arith) p in
    rw (s, t) (ground (arith, ih))

-- For regions that end below 2^32, memmove copies the n bytes as they were before the call,
-- however the regions overlap, and changes nothing else.
pub memmove-Copied :
    (m : Mem) (dest src n : ℕ)
    → src + n < 2 ^ 32
    → dest + n < 2 ^ 32
    → Copied m dest src n (memmove m dest src n)
unfolding memmove
memmove-Copied m dest src n hs hd = elim (Bool-cases (leb dest src)) [
  | inl up ↦ rw up (movsb-Copied m src dest n (inl (ground arith)) hs hd)
  | inr down ↦ rw down (downwards n hs hd (ground arith))
]
  where
    downwards :
        (n : ℕ)
        → src + n < 2 ^ 32
        → dest + n < 2 ^ 32
        → src < dest
        → Copied m dest src n
            (movsb_down m (sub_u32 (add_u32 src n) 1) (sub_u32 (add_u32 dest n) 1) n)
    downwards zero hs hd lt p = ground arith
    downwards (suc n) hs hd lt p =
        let s : sub_u32 (add_u32 src (suc n)) 1 ≡ src + n = omega arith in
        let t : sub_u32 (add_u32 dest (suc n)) 1 ≡ dest + n = omega arith in
        rw (s, t)
          (movsb_down-Copied m src dest (suc n) (src + n) (dest + n) lt (omega arith) (omega arith)
            (omega arith) p)
