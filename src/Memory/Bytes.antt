-- ===== src/Memory/Bytes.antt =====
-- Runs of bytes in a memory: reading one, and writing one.
use loli_os.Prelude.{
  [], ℕ, zero, suc, ◌+◌, ◌-◌, ◌≤◌, ◌<◌, ◌≡◌, refl, ap, ap₂, ◌∙◌, ◌⊎◌, inl, inr, List, ◌∷◌, ◌++◌,
  arith, ◌==◌, if◌then◌else◌, length,
}
use mathlib.Core.List.{append-nil}

-- What is at each address.
abbrev pub Mem : Type 0
Mem = ℕ → ℕ

-- The `n` bytes from address `a` on.
unfoldable pub bytes : Mem → ℕ → ℕ → List ℕ
bytes m a zero = []
bytes m a (suc n) = m a ∷ bytes m (a + 1) n

-- The memory after the bytes are stored from address `a` on.
unfoldable pub store : Mem → ℕ → List ℕ → Mem
store m a [] p = m p
store m a (x ∷ xs) p = if a == p then x else store m (a + 1) xs p

pub length-bytes : (m : Mem) (a n : ℕ) → length (bytes m a n) ≡ n
unfolding bytes
length-bytes m a zero = refl
length-bytes m a (suc n) = ap suc (length-bytes m (a + 1) n)

-- Two runs that meet are one run.
pub bytes-append : (m : Mem) (a n k : ℕ) → bytes m a n ++ bytes m (a + n) k ≡ bytes m a (n + k)
unfolding bytes
bytes-append m a zero k = ap₂ (bytes m) (omega arith) (omega arith)
bytes-append m a (suc n) k =
    let from : a + suc n ≡ a + 1 + n = omega arith in
    let count : suc n + k ≡ suc (n + k) = omega arith in
    rw (from, count) (ap (λ r. m a ∷ r) (bytes-append m (a + 1) n k))

-- The run from a to b and the run from b to c, where the second may start beyond an empty rest.
pub bytes_join :
    (m : Mem) (a b c s : ℕ)
    → a ≤ b
    → b ≤ c
    → (s ≡ b) ⊎ ((b ≡ c) × (c ≤ s))
    → bytes m a (b - a) ++ bytes m s (c - s) ≡ bytes m a (c - a)
unfolding bytes
bytes_join m a b c s hab hbc (inl e) =
    let start : s ≡ a + (b - a) = omega arith in
    let total : c - a ≡ b - a + (c - (a + (b - a))) = omega arith in
    rw (start, total) (bytes-append m a (b - a) (c - (a + (b - a))))
bytes_join m a b c s hab hbc (inr (e, h)) =
    let nothing : c - s ≡ 0 = omega arith in
    rw (nothing, append-nil) (ap (λ k. bytes m a (k - a)) e)

-- Two memories that agree on a run, each from an address of its own, have the same bytes there.
pub bytes_ext :
    (m l : Mem) (a b n : ℕ) → ((i : ℕ) → i < n → m (a + i) ≡ l (b + i)) → bytes m a n ≡ bytes l b n
unfolding bytes
bytes_ext m l a b zero h = refl
bytes_ext m l a b (suc n) h =
    ap₂ ◌∷◌ (first (a + 0) (b + 0) (omega arith) (omega arith) (h 0 (omega arith)))
      (bytes_ext m l (a + 1) (b + 1) n (λ i hi. next i (h (suc i) (omega arith))))
  where
    first : (x y : ℕ) → x ≡ a → y ≡ b → m x ≡ l y → m a ≡ l b
    first x y ex ey e = cc

    next : (i : ℕ) → m (a + suc i) ≡ l (b + suc i) → m (a + 1 + i) ≡ l (b + 1 + i)
    next i e =
        let x : a + suc i ≡ a + 1 + i = omega arith in
        let y : b + suc i ≡ b + 1 + i = omega arith in cc

-- A store changes nothing below its first address.
pub store_below : (m : Mem) (a p : ℕ) (xs : List ℕ) → p < a → store m a xs p ≡ m p
unfolding store
store_below m a p [] h = refl
store_below m a p (x ∷ xs) h = ground (arith, store_below m (a + 1) p xs)

-- Nor from its end on.
pub store_above : (m : Mem) (a p : ℕ) (xs : List ℕ) → a + length xs ≤ p → store m a xs p ≡ m p
unfolding store
store_above m a p [] h = refl
store_above m a p (x ∷ xs) h = ground (arith, store_above m (a + 1) p xs)

-- What was stored is read back.
pub bytes-store : (m : Mem) (a : ℕ) (xs : List ℕ) → bytes (store m a xs) a (length xs) ≡ xs
unfolding bytes store
bytes-store m a [] = refl
bytes-store m a (x ∷ xs) = ap₂ ◌∷◌ (ground arith) (
    bytes_ext (store m a (x ∷ xs)) (store m (a + 1) xs) (a + 1) (a + 1) (length xs)
      (λ i h. ground arith)
    ∙ bytes-store m (a + 1) xs)
