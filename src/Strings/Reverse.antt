-- ===== src/Strings/Reverse.antt =====
-- strrev of student-distrib/lib.c: which character comes to stand where.
use loli_os.Prelude.{
  ℕ, zero, suc, ◌+◌, ◌-◌, ◌^◌, ◌≤◌, ◌<◌, ◌≡◌, refl, ap, ◌∙◌, ◌≢◌, ◌⊎◌, inl, inr, some, [], ◌∷◌,
  arith, ℕ_discrete, ltb, Bool-cases,
}
use loli_os.Memory.Bytes.{Mem, store}
use loli_os.Strings.{swap_ends, strrev}
use loli_os.Strings.Compare.{EndsAt, strlen-EndsAt}

-- The memory after one round.
abbrev swapped : Mem → ℕ → ℕ → ℕ → Mem
swapped m s beg end = store (store m (s + end) (m (s + beg) ∷ [])) (s + beg) (m (s + end) ∷ [])

swapped_beg : (m : Mem) (s b e : ℕ) → swapped m s b e (s + b) ≡ m (s + e)
unfolding store
swapped_beg m s b e = ground arith

swapped_end : (m : Mem) (s b e : ℕ) → b < e → swapped m s b e (s + e) ≡ m (s + b)
unfolding store
swapped_end m s b e h = ground (arith, h)

swapped_other : (m : Mem) (s b e p : ℕ) → p ≢ s + b → p ≢ s + e → swapped m s b e p ≡ m p
unfolding store
swapped_other m s b e p hb he = ground (arith, hb, he)

-- The rounds leave what is outside of the characters from beg to end.
swap_ends_outside :
    (m : Mem) (s b e n p : ℕ) → (p < s + b) ⊎ (s + e < p) → swap_ends m s b e n p ≡ m p
unfolding swap_ends
swap_ends_outside m s b e zero p h = refl
swap_ends_outside m s b e (suc n) p h = elim (Bool-cases (ltb b e)) [
  | inl more ↦
      let l : b < e = ground (arith, more) in
      rw (swap_ends, more)
        (swap_ends_outside (swapped m s b e) s (b + 1) (e - 1) n p (omega (arith, h, l))
          ∙ swapped_other m s b e p (omega (arith, h, l)) (omega (arith, h, l)))
  | inr done ↦ rw (swap_ends, done) refl
]

-- The rounds mirror the characters from beg to end.
swap_ends_inside :
    (m : Mem) (s b e n i : ℕ)
    → b ≤ i
    → i ≤ e
    → e < b + n
    → swap_ends m s b e n (s + i) ≡ m (s + (b + e - i))
unfolding swap_ends
swap_ends_inside m s b e zero i lo hi f = absurd (omega (arith, lo, hi, f))
swap_ends_inside m s b e (suc n) i lo hi f = elim (Bool-cases (ltb b e)) [
  | inr done ↦
      let l : b ≡ e = ground (arith, done, lo, hi) in
      rw (swap_ends, done) (ap m (omega (arith, l, lo, hi)))
  | inl more ↦
      let l : b < e = ground (arith, more) in
      rw (swap_ends, more)
        (elim (ℕ_discrete i b) [
          | yes first ↦
              swap_ends_outside (swapped m s b e) s (b + 1) (e - 1) n (s + i)
                (inl (omega (arith, first)))
              ∙ ap (swapped m s b e) (ap (λ k. s + k) first)
              ∙ swapped_beg m s b e
              ∙ ap m (omega (arith, first))
          | no ne ↦ elim (ℕ_discrete i e) [
            | yes final ↦
                swap_ends_outside (swapped m s b e) s (b + 1) (e - 1) n (s + i)
                  (inr (omega (arith, final, l)))
                ∙ ap (swapped m s b e) (ap (λ k. s + k) final)
                ∙ swapped_end m s b e l
                ∙ ap m (omega (arith, final))
            | no ne' ↦
                swap_ends_inside (swapped m s b e) s (b + 1) (e - 1) n i (omega (arith, lo, ne))
                  (omega (arith, hi, ne')) (omega (arith, f))
                ∙ swapped_other m s b e (s + (b + 1 + (e - 1) - i))
                    (omega (arith, lo, hi, ne, ne', l)) (omega (arith, lo, hi, ne, ne', l))
                ∙ ap (λ k. m (s + k)) (omega (arith, l))
          ]
        ])
]

-- strrev succeeds for a string, mirrors its characters, and changes nothing else.
pub strrev_lem :
    (m : Mem) (s n : ℕ)
    → EndsAt m s n
    → n < 2 ^ 32
    → (m' : Mem) × (strrev m s ≡ some m')
      × ((i : ℕ) → i < n → m' (s + i) ≡ m (s + (n - 1 - i)))
      × ((p : ℕ) → (p < s) ⊎ (s + n ≤ p) → m' p ≡ m p)
unfolding strrev
strrev_lem m s n e h = (
  swap_ends m s 0 (n - 1) n,
  rw (strrev, strlen-EndsAt m s n e h) refl,
  λ i l.
      swap_ends_inside m s 0 (n - 1) n i (omega arith) (omega (arith, l)) (omega (arith, l))
      ∙ ap (λ k. m (s + k)) (omega (arith, l)),
  λ p o. elim (ℕ_discrete n 0) [
    | yes empty ↦ ap (λ k. swap_ends m s 0 (k - 1) k p) empty
    | no ne ↦ swap_ends_outside m s 0 (n - 1) n p (omega (arith, o, ne))
  ],
)
