-- ===== src/MemOps/Fill.antt =====
-- memset and memset_word against descriptions of a filled region.
use loli_os.Prelude.{
  [], ℕ, zero, suc, ◌+◌, ◌-◌, ◌*◌, ◌/◌, ◌%◌, ◌^◌, ◌<◌, ◌≡◌, subst, inl, inr, ◌&&◌, ◌∷◌, arith, ltb,
  leb, ◌==◌, if◌then◌else◌, Bool-cases, add_u32,
}
use loli_os.Memory.Bytes.{Mem, store}
use loli_os.MemOps.{stos, memset_aligned, memset_top, memset, memset_word}

-- `l` is `m` with the byte c in the n bytes from s on.
abbrev pub Filled : Mem → ℕ → ℕ → ℕ → Mem → Type 0
Filled m s c n l = (p : ℕ) → l p ≡ (if leb s p && ltb p (s + n) then c else m p)

Filled-trans :
    (m l l' : Mem) (s c k j : ℕ)
    → Filled m s c k l
    → Filled l (s + k) c j l'
    → Filled m s c (k + j) l'
Filled-trans m l l' s c k j first second p = ground (arith, second p, first p)

stos_byte-Filled : (m : Mem) (s c n : ℕ) → s + n < 2 ^ 32 → Filled m s c n (stos (c ∷ []) 1 m s n)
unfolding stos store
stos_byte-Filled m s c zero h p = ground arith
stos_byte-Filled m s c (suc n) h p =
    let t : add_u32 s 1 ≡ s + 1 = omega arith in
    rw t (ground (arith, stos_byte-Filled (store m s (c ∷ [])) (s + 1) c n (omega arith) p))

stos_word-Filled :
    (m : Mem) (s c n : ℕ)
    → s + 4 * n < 2 ^ 32
    → Filled m s c (4 * n) (stos (c ∷ c ∷ c ∷ c ∷ []) 4 m s n)
unfolding stos store
stos_word-Filled m s c zero h p = ground arith
stos_word-Filled m s c (suc n) h p =
    let t : add_u32 s 4 ≡ s + 4 = omega arith in
    rw t (
      ground (arith, stos_word-Filled (store m s (c ∷ c ∷ c ∷ c ∷ [])) (s + 4) c n (omega arith) p))

memset_aligned-Filled :
    (m : Mem) (s c n : ℕ) → s + n < 2 ^ 32 → Filled m s c n (memset_aligned m s c n)
unfolding memset_aligned
memset_aligned-Filled m s c n h p =
    let words = 4 * (n / 4) in
    let t : add_u32 s words ≡ s + words = omega arith in
    let total : words + n % 4 ≡ n = omega arith in
    let head = stos (c ∷ c ∷ c ∷ c ∷ []) 4 m s (n / 4) in
    let all = stos (c ∷ []) 1 head (s + words) (n % 4) in
    rw t (
      subst (λ k. Filled m s c k all) total
        (Filled-trans m head all s c words (n % 4) (stos_word-Filled m s c (n / 4) (omega arith))
          (stos_byte-Filled head (s + words) c (n % 4) (omega arith)))
        p)

memset_top-Filled : (m : Mem) (s c n : ℕ) → s + n < 2 ^ 32 → Filled m s c n (memset_top m s c n)
unfolding memset_top store
memset_top-Filled m s c zero h p = ground arith
memset_top-Filled m s c (suc n) h p = elim (Bool-cases (s % 4 == 0)) [
  | inl e ↦ rw e (memset_aligned-Filled m s c (suc n) h p)
  | inr e ↦
      let t : add_u32 s 1 ≡ s + 1 = omega arith in
      rw (e, t) (ground (arith, memset_top-Filled (store m s (c ∷ [])) (s + 1) c n (omega arith) p))
]

-- For a region that ends below 2^32, memset, which stores single bytes up to an aligned address,
-- then whole words, then the rest, stores the low byte of c in exactly the n bytes from s on.
pub memset-Filled : (m : Mem) (s c n : ℕ) → s + n < 2 ^ 32 → Filled m s (c % 256) n (memset m s c n)
unfolding memset
memset-Filled m s c n h = memset_top-Filled m s (c % 256) n h

-- `l` is `m` with n words from s on, low byte first.
abbrev pub FilledWords : Mem → ℕ → ℕ → ℕ → ℕ → Mem → Type 0
FilledWords m s lo hi n l =
    (p : ℕ)
    → l p ≡ (if leb s p && ltb p (s + 2 * n) then (if (p - s) % 2 == 0 then lo else hi) else m p)

stos_words-Filled :
    (m : Mem) (s lo hi n : ℕ)
    → s + 2 * n < 2 ^ 32
    → FilledWords m s lo hi n (stos (lo ∷ hi ∷ []) 2 m s n)
unfolding stos store
stos_words-Filled m s lo hi zero h p = ground arith
stos_words-Filled m s lo hi (suc n) h p =
    let t : add_u32 s 2 ≡ s + 2 = omega arith in
    rw t
      (ground (arith, stos_words-Filled (store m s (lo ∷ hi ∷ [])) (s + 2) lo hi n (omega arith) p))

-- memset_word stores the low 16 bits of c in exactly the n words from s on.
pub memset_word-Filled :
    (m : Mem) (s c n : ℕ)
    → s + 2 * n < 2 ^ 32
    → FilledWords m s (c % 256) (c / 256 % 256) n (memset_word m s c n)
unfolding memset_word
memset_word-Filled m s c n h = stos_words-Filled m s (c % 256) (c / 256 % 256) n h
