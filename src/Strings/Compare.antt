-- ===== src/Strings/Compare.antt =====
-- Where strings end, and strlen and strcmp of student-distrib/lib.c against that.
use loli_os.Prelude.{
  ℕ, zero, suc, ◌+◌, ◌^◌, ◌≤◌, ◌<◌, ◌≡◌, sym, ap, subst, ◌∙◌, ◌≢◌, true, false, ◌&&◌, not, Option,
  some, arith, ℕ_discrete, ◌==◌, ℤ, pos, sub_ℕ,
}
use loli_os.Memory.Bytes.{Mem}
use loli_os.Strings.{strlen_from, strlen, strcmp_from, strcmp, string_rounds}

-- The string at an address has n characters.
pub record EndsAt (m : Mem) (s n : ℕ) : Type 0 where
  pub nonzero : (i : ℕ) → i < n → m (s + i) ≢ 0
  pub ended : m (s + n) ≡ 0

strlen_from_lem :
    (m : Mem) (s n i r : ℕ) → EndsAt m s n → i ≤ n → n < i + r → strlen_from m s i r ≡ some n
unfolding strlen_from
strlen_from_lem m s n i zero e h f = absurd (omega (arith, h, f))
strlen_from_lem m s n i (suc r) e h f = elim (ℕ_discrete i n) [
  | yes at ↦
      let end : m (s + i) ≡ 0 = ap (λ k. m (s + k)) at ∙ e.ended in
      rw (strlen_from, end) (ap some at)
  | no ne ↦
      let more : (m (s + i) == 0) ≡ false = ground (arith, e.nonzero i (omega (arith, h, ne))) in
      rw (strlen_from, more)
        (strlen_from_lem m s n (i + 1) r e (omega (arith, h, ne)) (omega (arith, f)))
]

-- strlen returns the number of characters before the NUL.
pub strlen-EndsAt : (m : Mem) (s n : ℕ) → EndsAt m s n → n < 2 ^ 32 → strlen m s ≡ some n
unfolding strlen
strlen-EndsAt m s n e h = strlen_from_lem m s n 0 string_rounds e (omega arith) (omega (arith, h))

-- The result of a comparison: the difference of the first characters that differ, or of the NULs.
pub data Compared (m : Mem) (s t : ℕ) : Option ℤ → Type 0 where
  same :
      (n : ℕ)
      → EndsAt m s n
      → EndsAt m t n
      → ((i : ℕ) → i < n → m (s + i) ≡ m (t + i))
      → Compared m s t (some (pos 0))
  differ :
      (n : ℕ)
      → ((i : ℕ) → i < n → (m (s + i) ≡ m (t + i)) × (m (s + i) ≢ 0))
      → m (s + n) ≢ m (t + n)
      → Compared m s t (some (sub_ℕ (m (s + n)) (m (t + n))))

sub_self : (a : ℕ) → sub_ℕ a a ≡ pos 0
sub_self a = ground arith

strcmp_from_lem :
    (m : Mem) (s t n i r : ℕ)
    → EndsAt m s n
    → i ≤ n
    → n < i + r
    → ((j : ℕ) → j < i → (m (s + j) ≡ m (t + j)) × (m (s + j) ≢ 0))
    → Compared m s t (strcmp_from m (s + i) (t + i) r)
unfolding strcmp_from
strcmp_from_lem m s t n i zero e h f before = absurd (omega (arith, h, f))
strcmp_from_lem m s t n i (suc r) e h f before = elim (ℕ_discrete (m (s + i)) (m (t + i))) [
  | no ne ↦
      let stop : (not (m (s + i) == 0) && m (s + i) == m (t + i)) ≡ false = ground (arith, ne) in
      rw (strcmp_from, stop) (differ i before ne)
  | yes eq ↦ elim (ℕ_discrete (m (s + i)) 0) [
    | yes end ↦
        let stop : (not (m (s + i) == 0) && m (s + i) == m (t + i)) ≡ false = ground (arith, end) in
        let zero_difference : sub_ℕ (m (s + i)) (m (t + i)) ≡ pos 0 =
          ap (sub_ℕ (m (s + i))) (sym eq) ∙ sub_self (m (s + i)) in
        rw (strcmp_from, stop, zero_difference)
          (same i record { nonzero = λ j l. (before j l).1; ended = end }
            record { nonzero = λ j l z. (before j l).1 ((before j l).0 ∙ z); ended = sym eq ∙ end }
            (λ j l. (before j l).0))
    | no more ↦
        let go_on : (not (m (s + i) == 0) && m (s + i) == m (t + i)) ≡ true =
          ground (arith, more, eq) in
        let a : s + i + 1 ≡ s + (i + 1) = omega arith in
        let b : t + i + 1 ≡ t + (i + 1) = omega arith in
        let inside : i ≢ n = λ at. more (ap (λ k. m (s + k)) at ∙ e.ended) in
        rw (strcmp_from, go_on, a, b)
          (strcmp_from_lem m s t n (i + 1) r e (omega (arith, h, inside)) (omega (arith, f)) (λ j l.
            elim (ℕ_discrete j i) [
              | yes at ↦ (
                ap (λ k. m (s + k)) at ∙ eq ∙ ap (λ k. m (t + k)) (sym at),
                λ z. more (ap (λ k. m (s + k)) (sym at) ∙ z),
              )
              | no ne ↦ before j (omega (arith, l, ne))
            ]))
  ]
]

strcmp_rounds :
    (m : Mem) (s t n r : ℕ) → EndsAt m s n → n < r → Compared m s t (strcmp_from m s t r)
strcmp_rounds m s t n r e h =
    let a : s + 0 ≡ s = omega arith in
    let b : t + 0 ≡ t = omega arith in
    subst (λ x. Compared m s t (strcmp_from m x t r)) a
      (subst (λ x. Compared m s t (strcmp_from m (s + 0) x r)) b
        (strcmp_from_lem m s t n 0 r e (omega arith) (omega (arith, h))
          (λ j l. absurd (omega (arith, l)))))

-- strcmp of two strings, of which the first one ends within 2^32 characters, returns 0 for the
-- same string, and otherwise the difference of the first characters that differ.
pub strcmp-Compared :
    (m : Mem) (s t n : ℕ) → EndsAt m s n → n < 2 ^ 32 → Compared m s t (strcmp m s t)
unfolding strcmp
strcmp-Compared m s t n e h = strcmp_rounds m s t n string_rounds e h
