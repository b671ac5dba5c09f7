-- ===== src/Memory/Words.antt =====
-- The 32-bit words that stand in a memory, the lowest byte first, and lists of bytes as memories.
use loli_os.Prelude.{
  ℕ, zero, suc, ◌+◌, ◌*◌, ◌/◌, ◌%◌, ◌^◌, ◌≤◌, ◌<◌, ◌≡◌, refl, sym, ap, ap₂, ◌∙◌, ◌⊎◌, inl, inr,
  List, [], ◌∷◌, ◌++◌, arith, length, get_or,
}
use loli_os.Memory.Bytes.{bytes-append, Mem, bytes, store, store_below, store_above, bytes_ext}

-- The number whose bytes are given, the lowest first.
abbrev pub word_of : List ℕ → ℕ
word_of [] = 0
word_of (b ∷ bs) = b + 256 * word_of bs

-- The four bytes of a word.
abbrev pub word_bytes : ℕ → List ℕ
word_bytes w = w % 256 ∷ w / 256 % 256 ∷ w / 65536 % 256 ∷ w / 16777216 % 256 ∷ []

-- The word at an address.
abbrev pub word_at : Mem → ℕ → ℕ
word_at m a = word_of (bytes m a 4)

-- A kernel object whose bytes are listed, by offset.
abbrev pub of_list : List ℕ → Mem
of_list xs i = get_or xs i 0

pub word_of-word_bytes : (w : ℕ) → w < 2 ^ 32 → word_of (word_bytes w) ≡ w
word_of-word_bytes w h = omega arith

bytes-shift :
    (m l : Mem) (a b n : ℕ) → ((i : ℕ) → m (a + i) ≡ l (b + i)) → bytes m a n ≡ bytes l b n
bytes-shift m l a b n h = bytes_ext m l a b n (λ i hi. h i)

-- The bytes of a listed object are the list.
pub bytes-of_list : (xs : List ℕ) → bytes (of_list xs) 0 (length xs) ≡ xs
unfolding bytes
bytes-of_list [] = refl
bytes-of_list (x ∷ xs) =
    ap (λ r. x ∷ r)
      (bytes_ext (of_list (x ∷ xs)) (of_list xs) 1 0 (length xs) (λ i h. ground arith)
        ∙ bytes-of_list xs)

-- A store leaves the runs of bytes outside of it.
pub bytes_kept :
    (m : Mem) (a : ℕ) (xs : List ℕ) (b n : ℕ)
    → (b + n ≤ a) ⊎ (a + length xs ≤ b)
    → bytes (store m a xs) b n ≡ bytes m b n
bytes_kept m a xs b n h = bytes_ext (store m a xs) m b b n (λ i hi. elim h [
  | inl below ↦ store_below m a (b + i) xs (omega (arith, below, hi))
  | inr above ↦ store_above m a (b + i) xs (omega (arith, above))
])

-- A byte of a store.
pub store_at :
    (m : Mem) (a : ℕ) (xs : List ℕ) (i : ℕ) → i < length xs → store m a xs (a + i) ≡ get_or xs i 0
unfolding store
store_at m a [] i h = absurd (omega (arith, h))
store_at m a (x ∷ xs) zero h = ground arith
store_at m a (x ∷ xs) (suc i) h = ground (arith, store_at m (a + 1) xs i)

-- A store leaves the bytes outside of it.
pub store_outside :
    (m : Mem) (a p : ℕ) (xs : List ℕ) → (p < a) ⊎ (a + length xs ≤ p) → store m a xs p ≡ m p
store_outside m a p xs (inl h) = store_below m a p xs h
store_outside m a p xs (inr h) = store_above m a p xs h

-- A run of bytes in two parts.
pub bytes_parts :
    (m : Mem) (a j k c : ℕ) (xs ys : List ℕ)
    → c ≡ a + j
    → bytes m a j ≡ xs
    → bytes m c k ≡ ys
    → bytes m a (j + k) ≡ xs ++ ys
bytes_parts m a j k c xs ys at first second =
    sym (bytes-append m a j k) ∙ ap₂ ◌++◌ first (ap (λ d. bytes m d k) (sym at) ∙ second)

-- A byte of a run.
pub get_or-bytes : (m : Mem) (a n i : ℕ) → i < n → get_or (bytes m a n) i 0 ≡ m (a + i)
unfolding bytes
get_or-bytes m a zero i h = absurd (omega (arith, h))
get_or-bytes m a (suc n) zero h = ap m (omega arith)
get_or-bytes m a (suc n) (suc i) h =
    get_or-bytes m (a + 1) n i (omega (arith, h)) ∙ ap m (omega arith)
