-- ===== src/Strings/Copy.antt =====
-- What strncpy of student-distrib/lib.c leaves in its destination.
use loli_os.Prelude.{
  ℕ, zero, suc, ◌+◌, ◌≤◌, ◌<◌, ◌≡◌, refl, sym, ap, ◌∙◌, ◌≢◌, ◌⊎◌, inl, inr, true, false, [], ◌∷◌,
  arith, ℕ_discrete, ◌==◌,
}
use loli_os.Memory.Bytes.{Mem, store}
use loli_os.Memory.Words.{store_at, store_outside}
use loli_os.Strings.{zero_fill, strncpy_from, strncpy}

zero_fill_outside :
    (m : Mem) (dest i n p : ℕ) → (p < dest + i) ⊎ (dest + i + n ≤ p) → zero_fill m dest i n p ≡ m p
unfolding zero_fill
zero_fill_outside m dest i zero p o = refl
zero_fill_outside m dest i (suc n) p o =
    zero_fill_outside (store m (dest + i) (0 ∷ [])) dest (i + 1) n p (omega (arith, o))
    ∙ store_outside m (dest + i) p (0 ∷ []) (omega (arith, o))

zero_fill_inside :
    (m : Mem) (dest i n j : ℕ) → i ≤ j → j < i + n → zero_fill m dest i n (dest + j) ≡ 0
unfolding zero_fill
zero_fill_inside m dest i zero j lo hi = absurd (omega (arith, lo, hi))
zero_fill_inside m dest i (suc n) j lo hi = elim (ℕ_discrete j i) [
  | yes first ↦
      zero_fill_outside (store m (dest + i) (0 ∷ [])) dest (i + 1) n (dest + j)
        (inl (omega (arith, first)))
      ∙ ap (store m (dest + i) (0 ∷ [])) (omega (arith, first))
      ∙ store_at m (dest + i) (0 ∷ []) 0 (omega arith)
  | no ne ↦
      zero_fill_inside (store m (dest + i) (0 ∷ [])) dest (i + 1) n j (omega (arith, lo, ne))
        (omega (arith, hi))
]

-- The n bytes at dest are the string at src, cut to n or padded with NULs; nothing else changes.
pub record Padded (m : Mem) (dest src n : ℕ) (m' : Mem) : Type 0 where
  pub k : ℕ
  pub within : k ≤ n
  pub nonzero : (i : ℕ) → i < k → m (src + i) ≢ 0
  pub ended : (k ≡ n) ⊎ (m (src + k) ≡ 0)
  pub chars : (i : ℕ) → i < k → m' (dest + i) ≡ m (src + i)
  pub zeros : (i : ℕ) → k ≤ i → i < n → m' (dest + i) ≡ 0
  pub other : (p : ℕ) → (p < dest) ⊎ (dest + n ≤ p) → m' p ≡ m p

-- Two regions of n bytes that share no address.
abbrev pub Apart : ℕ → ℕ → ℕ → Type 0
Apart dest src n = (dest + n ≤ src) ⊎ (src + n ≤ dest)

-- The state of the first loop, at index i, against the memory before it.
record Copying (o m : Mem) (dest src n i : ℕ) : Type 0 where
  within : i ≤ n
  nonzero : (j : ℕ) → j < i → o (src + j) ≢ 0
  source : (j : ℕ) → j < n → m (src + j) ≡ o (src + j)
  chars : (j : ℕ) → j < i → m (dest + j) ≡ o (src + j)
  other : (p : ℕ) → (p < dest) ⊎ (dest + n ≤ p) → m p ≡ o p

Copying-step :
    (o m : Mem) (dest src n i : ℕ)
    → Apart dest src n
    → Copying o m dest src n i
    → i < n
    → m (src + i) ≢ 0
    → Copying o (store m (dest + i) (m (src + i) ∷ [])) dest src n (i + 1)
Copying-step o m dest src n i apart c h ne =
    let x = m (src + i) ∷ [] in
    record {
      within = omega (arith, h);
      nonzero = λ j l. elim (ℕ_discrete j i) [
        | yes e ↦ λ z. ne (c.source i h ∙ ap (λ k. o (src + k)) (sym e) ∙ z)
        | no other ↦ c.nonzero j (omega (arith, l, other))
      ];
      source =
          λ j l. store_outside m (dest + i) (src + j) x (omega (arith, apart, h, l)) ∙ c.source j l;
      chars = λ j l. elim (ℕ_discrete j i) [
        | yes e ↦
            ap (store m (dest + i) x) (omega (arith, e))
            ∙ store_at m (dest + i) x 0 (omega arith)
            ∙ c.source i h
            ∙ ap (λ k. o (src + k)) (sym e)
        | no other ↦
            store_outside m (dest + i) (dest + j) x (inl (omega (arith, l, other)))
            ∙ c.chars j (omega (arith, l, other))
      ];
      other = λ p l. store_outside m (dest + i) p x (omega (arith, l, h)) ∙ c.other p l;
    }

strncpy_from-Padded :
    (o m : Mem) (dest src n i r : ℕ)
    → Apart dest src n
    → Copying o m dest src n i
    → i + r ≡ n
    → Padded o dest src n (strncpy_from m dest src i r)
unfolding strncpy_from
strncpy_from-Padded o m dest src n i zero apart c e = record {
  k = i;
  within = c.within;
  nonzero = c.nonzero;
  ended = inl (omega (arith, e));
  chars = c.chars;
  zeros = λ j lo hi. absurd (omega (arith, lo, hi, e));
  other = c.other;
}
strncpy_from-Padded o m dest src n i (suc r) apart c e = elim (ℕ_discrete (m (src + i)) 0) [
  | no ne ↦
      let go_on : (m (src + i) == 0) ≡ false = ground (arith, ne) in
      rw (strncpy_from, go_on)
        (strncpy_from-Padded o (store m (dest + i) (m (src + i) ∷ [])) dest src n (i + 1) r apart
          (Copying-step o m dest src n i apart c (omega (arith, e)) ne) (omega (arith, e)))
  | yes end ↦
      let stop : (m (src + i) == 0) ≡ true = ground (arith, end) in
      rw (strncpy_from, stop)
        record {
          k = i;
          within = c.within;
          nonzero = c.nonzero;
          ended = inr (sym (c.source i (omega (arith, e))) ∙ end);
          chars = λ j l.
              zero_fill_outside m dest i (suc r) (dest + j) (inl (omega (arith, l))) ∙ c.chars j l;
          zeros = λ j lo hi. zero_fill_inside m dest i (suc r) j lo (omega (arith, hi, e));
          other = λ p l. zero_fill_outside m dest i (suc r) p (omega (arith, l, e)) ∙ c.other p l;
        }
]

-- For regions of n bytes that share no address, strncpy leaves in the destination the string at
-- the source, cut to n characters or padded with NULs to n, and changes nothing else.
pub strncpy-Padded :
    (m : Mem) (dest src n : ℕ) → Apart dest src n → Padded m dest src n (strncpy m dest src n)
unfolding strncpy
strncpy-Padded m dest src n apart =
    strncpy_from-Padded m m dest src n 0 n apart
      record {
        within = omega arith;
        nonzero = λ j l. absurd (omega (arith, l));
        source = λ j l. refl;
        chars = λ j l. absurd (omega (arith, l));
        other = λ p l. refl;
      }
      (omega arith)
