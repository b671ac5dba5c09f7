-- ===== src/Strings/Parsing.antt =====
-- What atoi_s of student-distrib/lib.c reads of the digits that itoa has written.
use loli_os.Prelude.{
  ℕ, zero, suc, ◌+◌, ◌-◌, ◌*◌, ◌/◌, ◌%◌, ◌^◌, ◌≤◌, ◌<◌, ◌≡◌, sym, ap, ◌∙◌, inr, true, false, ◌||◌,
  some, [], ◌∷◌, arith, ℕ_discrete, ltb, ◌==◌, if◌then◌else◌, ℤ, pos, ltb_ℤ, minus_one, sub_u32,
  to_i32,
}
use loli_os.Memory.Bytes.{Mem, store}
use loli_os.Memory.Words.{store_at, store_outside}
use loli_os.Strings.{itoa, number, atoi_from, atoi_rounds, atoi_s, string_rounds}
use loli_os.Strings.Numbers.{shift, shift-suc, Decimal, itoa-Spelled}

shift_le : (v k : ℕ) → shift v k ≤ v
shift_le v zero = omega arith
shift_le v (suc k) = omega (arith, shift_le (v / 10) k)

-- What atoi_s makes of its 32-bit word at the end.
abbrev signed : ℤ → ℕ → ℤ
signed sign res = if ltb_ℤ sign (pos 0) then to_i32 (sub_u32 0 res) else to_i32 res

atoi_from-Decimal :
    (m : Mem) (b v k i r : ℕ) (sign : ℤ)
    → Decimal m b v k
    → v < 2 ^ 32
    → i ≤ k
    → k < i + r
    → atoi_from m (b + i) (shift v (k - i)) sign r ≡ some (number (signed sign v))
unfolding atoi_from
atoi_from-Decimal m b v k i zero sign d h l f = absurd (omega (arith, l, f))
atoi_from-Decimal m b v k i (suc r) sign d h l f = elim (ℕ_discrete i k) [
  | yes at ↦
      let stop : (m (b + i) == 0) ≡ true = ground (arith, ap (λ x. m (b + x)) at ∙ d.ended) in
      let nil : k - i ≡ 0 = omega (arith, at) in
      let all : shift v (k - i) ≡ v = ap (shift v) nil in
      rw (atoi_from, stop) (ap (λ w. some (number (signed sign w))) all)
  | no ne ↦
      let c : m (b + i) ≡ 48 + shift v (k - 1 - i) % 10 = d.digit i (omega (arith, l, ne)) in
      let more : (m (b + i) == 0) ≡ false = ground (arith, c) in
      let is_digit : (ltb (m (b + i)) 48 || ltb 57 (m (b + i))) ≡ false = ground (arith, c) in
      let place : k - i ≡ suc (k - 1 - i) = omega (arith, l, ne) in
      let over : shift v (k - i) ≡ shift v (k - 1 - i) / 10 =
        ap (shift v) place ∙ shift-suc v (k - 1 - i) in
      let small = shift_le v (k - 1 - i) in
      let now : shift v (k - i) * 10 + (m (b + i) - 48) ≡ shift v (k - 1 - i) =
        omega (arith, over, c) in
      let fits : shift v (k - 1 - i) % 2 ^ 32 ≡ shift v (k - 1 - i) = omega (arith, small, h) in
      let later : k - 1 - i ≡ k - (i + 1) = omega arith in
      let next : (shift v (k - i) * 10 + (m (b + i) - 48)) % 2 ^ 32 ≡ shift v (k - (i + 1)) =
        ap (λ w. w % 2 ^ 32) now ∙ fits ∙ ap (shift v) later in
      let step : b + i + 1 ≡ b + (i + 1) = omega arith in
      rw (atoi_from, more, is_digit, next, step)
        (atoi_from-Decimal m b v k (i + 1) r sign d h (omega (arith, l, ne)) (omega (arith, f)))
]

atoi_start :
    (m : Mem) (b v k r : ℕ) (sign : ℤ)
    → Decimal m b v k
    → v < 2 ^ 32
    → k < r
    → atoi_from m b 0 sign r ≡ some (number (signed sign v))
atoi_start m b v k r sign d h f =
    let at : b + 0 ≡ b = omega arith in
    let all_left : k - 0 ≡ k = omega arith in
    let whole : shift v (k - 0) ≡ 0 = ap (shift v) all_left ∙ d.all in
    sym (λ t. atoi_from m (at t) (whole t) sign r)
    ∙ atoi_from-Decimal m b v k 0 r sign d h (omega arith) (omega (arith, f))

-- The first character is a digit.
first_digit : (m : Mem) (b v k : ℕ) → Decimal m b v k → m b ≡ 48 + shift v (k - 1) % 10
first_digit m b v k d =
    let at : b ≡ b + 0 = omega arith in
    let place : k - 1 - 0 ≡ k - 1 = omega arith in
    ap m at ∙ d.digit 0 d.some_digit ∙ ap (λ j. 48 + shift v j % 10) place

atoi_rounds-Decimal :
    (m : Mem) (b v k r : ℕ)
    → Decimal m b v k
    → v < 2 ^ 31
    → k < r
    → atoi_rounds r m b ≡ some (number (pos v))
unfolding atoi_rounds
atoi_rounds-Decimal m b v k r d h f =
    let c = first_digit m b v k d in
    let more : (m b == 0) ≡ false = ground (arith, c) in
    let no_sign : (m b == 45) ≡ false = ground (arith, c) in
    let value : signed (pos 1) v ≡ pos v = ground (arith, h) in
    rw (atoi_rounds, more, no_sign)
      (atoi_start m b v k r (pos 1) d (omega (arith, h)) f ∙ ap (λ z. some (number z)) value)

atoi_rounds_minus :
    (m : Mem) (b v k r : ℕ)
    → m b ≡ 45
    → Decimal m (b + 1) v k
    → v < 2 ^ 32
    → k < r
    → atoi_rounds r m b ≡ some (number (to_i32 (sub_u32 0 v)))
unfolding atoi_rounds
atoi_rounds_minus m b v k r c d h f =
    let more : (m b == 0) ≡ false = ground (arith, c) in
    let minus : (m b == 45) ≡ true = ground (arith, c) in
    rw (atoi_rounds, more, minus) (atoi_start m (b + 1) v k r minus_one d h f)

-- The digits still stand there once a byte before them is stored.
Decimal-behind :
    (m : Mem) (b v k x : ℕ) → Decimal m (b + 1) v k → Decimal (store m b (x ∷ [])) (b + 1) v k
Decimal-behind m b v k x d = record {
  some_digit = d.some_digit;
  few = d.few;
  all = d.all;
  digit = λ i l. store_outside m b (b + 1 + i) (x ∷ []) (inr (omega arith)) ∙ d.digit i l;
  ended = store_outside m b (b + 1 + k) (x ∷ []) (inr (omega arith)) ∙ d.ended;
}

-- itoa in base 10 succeeds for a value below 2^31; atoi_s reads the value back from what it has
-- written, and the opposite value if a minus sign is stored before it, as printf does.
pub itoa-atoi_s :
    (m : Mem) (v b : ℕ)
    → v < 2 ^ 31
    → (m' : Mem) × (itoa m v (b + 1) 10 ≡ some m')
      × (atoi_s m' (b + 1) ≡ some (number (pos v)))
      × (atoi_s (store m' b (45 ∷ [])) b ≡ some (number (to_i32 (sub_u32 0 v))))
unfolding atoi_s
itoa-atoi_s m v b h =
    let (m', k, ok, d, kept) = itoa-Spelled m v (b + 1) (omega (arith, h)) in
    let few : k < string_rounds = omega (arith, d.few) in
    (
      m',
      ok,
      atoi_rounds-Decimal m' (b + 1) v k string_rounds d h few,
      atoi_rounds_minus (store m' b (45 ∷ [])) b v k string_rounds
          (ap (store m' b (45 ∷ [])) (omega arith) ∙ store_at m' b (45 ∷ []) 0 (omega arith))
          (Decimal-behind m' b v k 45 d) (omega (arith, h)) few,
    )
