-- ===== src/Strings/Numbers.antt =====
-- The decimal digits that itoa of student-distrib/lib.c writes.
use loli_os.Prelude.{
  all_below_sound, ℕ, zero, suc, ◌+◌, ◌-◌, ◌/◌, ◌%◌, ◌^◌, ◌≤◌, ◌<◌, ◌≡◌, refl, sym, ap, subst, ◌∙◌,
  ◌≢◌, inl, inr, true, false, Option, some, [], ◌∷◌, arith, ℕ_discrete, ◌==◌, if◌then◌else◌, ==_iff,
  get_or,
}
use loli_os.Memory.Bytes.{Mem, store}
use loli_os.Memory.Words.{store_at, store_outside}
use loli_os.Strings.{lookup, itoa_digits, itoa_rounds, itoa}
use loli_os.Strings.Compare.{EndsAt}
use loli_os.Strings.Reverse.{strrev_lem}

-- A value without its last k decimal digits.
abbrev pub shift : ℕ → ℕ → ℕ
shift v zero = v
shift v (suc k) = shift (v / 10) k

pub shift-suc : (v k : ℕ) → shift v (suc k) ≡ shift v k / 10
shift-suc v zero = refl
shift-suc v (suc k) = shift-suc (v / 10) k

-- The digits of a 32-bit value end within ten places.
shift_ten : (v : ℕ) → v < 2 ^ 32 → shift v 10 ≡ 0
shift_ten v h = omega arith

shift_zero : (k : ℕ) → shift 0 k ≡ 0
shift_zero zero = refl
shift_zero (suc k) = shift_zero k

-- The fuel of itoa is enough.
shift_all : (v : ℕ) → v < 2 ^ 32 → shift v 32 ≡ 0
shift_all v h = ap (λ w. shift w 22) (shift_ten v h) ∙ shift_zero 22

digit_char : (d : ℕ) → d < 10 → get_or lookup d 0 ≡ 48 + d
digit_char d h =
    (==_iff (get_or lookup d 0) (48 + d)).0
      (all_below_sound 10 (λ k. get_or lookup k 0 == 48 + k) d refl h)

-- The loop of itoa has written the digits from address b on, the lowest first, in at most r places.
record Digits (m : Mem) (b v r : ℕ) (result : Option (Mem × ℕ)) : Type 0 where
  mem : Mem
  k : ℕ
  at : result ≡ some (mem, b + k)
  few : k ≤ r
  all : shift v k ≡ 0
  digit : (j : ℕ) → j < k → mem (b + j) ≡ 48 + shift v j % 10
  other : (p : ℕ) → p < b → mem p ≡ m p

no-Digits : (m : Mem) (b v r n : ℕ) → v ≡ 0 → Digits m b v r (itoa_digits m b v 10 (suc n))
unfolding itoa_digits
no-Digits m b v r n e =
    let stop : (v == 0) ≡ true = ground (arith, e) in
    rw (itoa_digits, stop)
      record {
        mem = m;
        k = 0;
        at = ap (λ a. some (m, a)) (omega arith);
        few = omega arith;
        all = e;
        digit = λ j l. absurd (omega (arith, l));
        other = λ p l. refl;
      }

digit_cons :
    (n : Mem) (b v k j : ℕ)
    → n b ≡ 48 + v % 10
    → ((i : ℕ) → i < k → n (b + 1 + i) ≡ 48 + shift (v / 10) i % 10)
    → j < suc k
    → n (b + j) ≡ 48 + shift v j % 10
digit_cons n b v k zero low high l = ap n (omega arith) ∙ low
digit_cons n b v k (suc j) low high l = ap n (omega arith) ∙ high j (omega (arith, l))

itoa_digits-Digits :
    (m : Mem) (b v r : ℕ) → shift v r ≡ 0 → Digits m b v r (itoa_digits m b v 10 (suc r))
unfolding itoa_digits
itoa_digits-Digits m b v zero e = no-Digits m b v 0 0 e
itoa_digits-Digits m b v (suc r) e = elim (ℕ_discrete v 0) [
  | yes none_left ↦ no-Digits m b v (suc r) (suc r) none_left
  | no ne ↦
      let go_on : (v == 0) ≡ false = ground (arith, ne) in
      let c = get_or lookup (v % 10) 0 in
      let rest = itoa_digits-Digits (store m b (c ∷ [])) (b + 1) (v / 10) r e in
      let low : rest.mem b ≡ 48 + v % 10 =
        rest.other b (omega arith)
        ∙ ap (store m b (c ∷ [])) (omega arith)
        ∙ store_at m b (c ∷ []) 0 (omega arith)
        ∙ digit_char (v % 10) (omega arith) in
      rw (itoa_digits, go_on)
        record {
          mem = rest.mem;
          k = suc rest.k;
          at = rest.at ∙ ap (λ a. some (rest.mem, a)) (omega arith);
          few = omega (arith, rest.few);
          all = rest.all;
          digit = λ j l. digit_cons rest.mem b v rest.k j low rest.digit l;
          other = λ p l. rest.other p (omega (arith, l)) ∙ store_outside m b p (c ∷ []) (inl l);
        }
]

-- The string at an address spells a value in k decimal digits.
pub record Decimal (m : Mem) (b v k : ℕ) : Type 0 where
  pub some_digit : 0 < k
  pub few : k ≤ 32
  pub all : shift v k ≡ 0
  pub digit : (i : ℕ) → i < k → m (b + i) ≡ 48 + shift v (k - 1 - i) % 10
  pub ended : m (b + k) ≡ 0

-- The memory before the digits are reversed.
abbrev unreversed : Mem → ℕ → ℕ → Mem
unreversed m b k = store m (b + k) (0 ∷ [])

unreversed-digit :
    (m : Mem) (b v k : ℕ)
    → ((j : ℕ) → j < k → m (b + j) ≡ 48 + shift v j % 10)
    → (j : ℕ) → j < k
    → unreversed m b k (b + j) ≡ 48 + shift v j % 10
unreversed-digit m b v k digit j l =
    store_outside m (b + k) (b + j) (0 ∷ []) (inl (omega (arith, l))) ∙ digit j l

unreversed-ended : (m : Mem) (b k : ℕ) → unreversed m b k (b + k) ≡ 0
unreversed-ended m b k =
    ap (unreversed m b k) (omega arith) ∙ store_at m (b + k) (0 ∷ []) 0 (omega arith)

unreversed-EndsAt :
    (m : Mem) (b v k : ℕ)
    → ((j : ℕ) → j < k → m (b + j) ≡ 48 + shift v j % 10)
    → EndsAt (unreversed m b k) b k
unreversed-EndsAt m b v k digit = record {
  nonzero = λ j l z. absurd (omega (arith, z, unreversed-digit m b v k digit j l));
  ended = unreversed-ended m b k;
}

-- What itoa in base 10 does: it spells the value from buf on, and leaves what is below.
abbrev pub Spelled : Mem → ℕ → ℕ → Option Mem → Type 0
Spelled m v buf result =
    (m' : Mem) × (k : ℕ) × (result ≡ some m')
    × Decimal m' buf v k
    × ((p : ℕ) → p < buf → m' p ≡ m p)

spelled_zero : (m : Mem) (buf : ℕ) → Decimal (store m buf (48 ∷ 0 ∷ [])) buf 0 1
spelled_zero m buf = record {
  some_digit = omega arith;
  few = omega arith;
  all = refl;
  digit = λ i l.
      let e : i ≡ 0 = omega (arith, l) in
      ap (λ j. store m buf (48 ∷ 0 ∷ []) (buf + j)) e
      ∙ store_at m buf (48 ∷ 0 ∷ []) 0 (omega arith)
      ∙ ap (λ j. 48 + shift 0 (1 - 1 - j) % 10) (sym e);
  ended = store_at m buf (48 ∷ 0 ∷ []) 1 (omega arith);
}

has_digits : (v k : ℕ) → v ≢ 0 → shift v k ≡ 0 → 0 < k
has_digits v zero ne all = absurd (ne all)
has_digits v (suc k) ne all = omega arith

itoa_rounds-Spelled :
    (m : Mem) (v buf r : ℕ)
    → v ≢ 0
    → r ≤ 32
    → shift v r ≡ 0
    → Spelled m v buf (itoa_rounds (suc r) m v buf 10)
unfolding itoa_rounds
itoa_rounds-Spelled m v buf r ne few all =
    let d = itoa_digits-Digits m buf v r all in
    let before = unreversed d.mem buf d.k in
    let str = unreversed-EndsAt d.mem buf v d.k d.digit in
    let (m', ok, mirrored, outside) = strrev_lem before buf d.k str (omega (arith, d.few, few)) in
    (
      m',
      d.k,
      rw (itoa_rounds, d.at, ok) refl,
      record {
        some_digit = has_digits v d.k ne d.all;
        few = omega (arith, d.few, few);
        all = d.all;
        digit = λ i l.
            mirrored i l
            ∙ unreversed-digit d.mem buf v d.k d.digit (d.k - 1 - i) (omega (arith, l));
        ended = outside (buf + d.k) (inr (omega arith)) ∙ unreversed-ended d.mem buf d.k;
      },
      λ p l.
          outside p (inl l)
          ∙ store_outside d.mem (buf + d.k) p (0 ∷ []) (inl (omega (arith, l)))
          ∙ d.other p l,
    )

zero-Spelled : (m : Mem) (v buf : ℕ) → v ≡ 0 → Spelled m v buf (some (store m buf (48 ∷ 0 ∷ [])))
zero-Spelled m v buf e = (
  store m buf (48 ∷ 0 ∷ []),
  1,
  refl,
  subst (λ w. Decimal (store m buf (48 ∷ 0 ∷ [])) buf w 1) (sym e) (spelled_zero m buf),
  λ p l. store_outside m buf p (48 ∷ 0 ∷ []) (inl l),
)

-- itoa in base 10 succeeds for every 32-bit value.
pub itoa-Spelled : (m : Mem) (v buf : ℕ) → v < 2 ^ 32 → Spelled m v buf (itoa m v buf 10)
unfolding itoa
itoa-Spelled m v buf h = elim (ℕ_discrete v 0) [
  | yes e ↦
      let stop : (v == 0) ≡ true = ground (arith, e) in rw (itoa, stop) (zero-Spelled m v buf e)
  | no ne ↦
      let go_on : (v == 0) ≡ false = ground (arith, ne) in
      subst
        (λ b.
          Spelled m v buf
            (if b then some (store m buf (48 ∷ 0 ∷ [])) else itoa_rounds 33 m v buf 10))
        (sym go_on) (itoa_rounds-Spelled m v buf 32 ne (omega arith) (shift_all v h))
]
