-- ===== src/Rtc/Ticks.antt =====
-- The frequencies and the waiting times of the real-time clock of student-distrib/rtc.c.
use loli_os.Prelude.{
  [], ℕ, zero, suc, ◌+◌, ◌*◌, ◌/◌, ◌%◌, ◌^◌, ◌≤◌, ◌<◌, ◌≡◌, refl, ◌∙◌, ◌⊎◌, inl, inr, Bool, false,
  ◌||◌, some, List, ◌∷◌, arith, leb, ◌==◌, Bool-cases, Option-cases, ℤ, pos, negsuc, ltb_ℤ, add_u32,
  to_i32,
}
use native.Mathlib.Nat.{add-mul, div-add-mod', mod-lt, mul-mod_left}
use loli_os.FileObj.{FileObj}
use loli_os.Memory.{copy_from_user}
use loli_os.Memory.Bytes.{Mem}
use loli_os.Memory.Words.{word_of}
use loli_os.Rtc.{
  freq_to_rs, wait_ticks, max_ticks, target_counter, read_rtc, accept, write_rtc, next_counter,
  max_rtc_freq,
}

-- The frequencies that the virtual device can have: the powers of two from 2 to 1024.
abbrev pub IsFrequency : ℕ → Type 0
IsFrequency f =
    (f ≡ 2)
    ⊎ (f ≡ 4)
    ⊎ (f ≡ 8)
    ⊎ (f ≡ 16)
    ⊎ (f ≡ 32)
    ⊎ (f ≡ 64)
    ⊎ (f ≡ 128)
    ⊎ (f ≡ 256)
    ⊎ (f ≡ 512)
    ⊎ (f ≡ 1024)

freq_to_rs_some : (f : ℕ) → (freq_to_rs (pos f) == 0) ≡ false → IsFrequency f
unfolding freq_to_rs
freq_to_rs_some f h = ground (arith, h)

accept-IsFrequency :
    (file : FileObj) (freq : ℤ) → IsFrequency file.offset → IsFrequency (accept file freq).1.offset
unfolding accept
accept-IsFrequency file (negsuc n) h = h
accept-IsFrequency file (pos f) h = elim (Bool-cases (freq_to_rs (pos f) == 0)) [
  | inl bad ↦ rw bad h
  | inr good ↦
      let ok = freq_to_rs_some f good in
      let small : f % 2 ^ 32 ≡ f = omega (arith, ok) in rw (good, small) ok
]

-- rtc_write keeps the frequency of a file a power of two from 2 to 1024, whatever the user passes,
-- so that no read divides by zero.
pub write_rtc-IsFrequency :
    (m : Mem) (file : FileObj) (buf : ℕ) (nbytes : ℤ)
    → IsFrequency file.offset
    → IsFrequency (write_rtc m file buf nbytes).1.offset
unfolding write_rtc
write_rtc-IsFrequency m file buf nbytes h =
    elim (Bool-cases (ltb_ℤ nbytes (pos 4) || ltb_ℤ (pos 4) nbytes)) [
      | inl other ↦ rw other h
      | inr four ↦ elim (Option-cases (copy_from_user m buf (pos 4))) [
        | inl refused ↦ rw (four, refused) h
        | inr (bs, copied) ↦ rw (four, copied) (accept-IsFrequency file (to_i32 (word_of bs)) h)
      ]
    ]

period_bounds : (f : ℕ) → IsFrequency f → (0 < max_rtc_freq / f) × (max_rtc_freq / f < max_rtc_freq)
period_bounds f (inl e) = rw e (omega arith, omega arith)
period_bounds f (inr (inl e)) = rw e (omega arith, omega arith)
period_bounds f (inr (inr (inl e))) = rw e (omega arith, omega arith)
period_bounds f (inr (inr (inr (inl e)))) = rw e (omega arith, omega arith)
period_bounds f (inr (inr (inr (inr (inl e))))) = rw e (omega arith, omega arith)
period_bounds f (inr (inr (inr (inr (inr (inl e)))))) = rw e (omega arith, omega arith)
period_bounds f (inr (inr (inr (inr (inr (inr (inl e))))))) = rw e (omega arith, omega arith)
period_bounds f (inr (inr (inr (inr (inr (inr (inr (inl e)))))))) = rw e (omega arith, omega arith)
period_bounds f (inr (inr (inr (inr (inr (inr (inr (inr (inl e))))))))) =
    rw e (omega arith, omega arith)
period_bounds f (inr (inr (inr (inr (inr (inr (inr (inr (inr e))))))))) =
    rw e (omega arith, omega arith)

next_multiple :
    (c d : ℕ)
    → 0 < d
    → c + d < 2 ^ 32
    → (c < (c / d + 1) * d % 2 ^ 32)
      × ((c / d + 1) * d % 2 ^ 32 ≤ c + d)
      × ((c / d + 1) * d % 2 ^ 32 % d ≡ 0)
next_multiple c d pos_d b =
    let parts : c / d * d + c % d ≡ c = div-add-mod' c d in
    let small : c % d < d = mod-lt c pos_d in
    let whole : (c / d + 1) * d ≡ c / d * d + d = add-mul (c / d) 1 d ∙ omega arith in
    let fits : (c / d + 1) * d % 2 ^ 32 ≡ (c / d + 1) * d = omega (arith, parts, small, whole, b) in
    rw fits (
      omega (arith, parts, small, whole),
      omega (arith, parts, small, whole),
      mul-mod_left (c / d + 1) d,
    )

-- The counter that a read waits for is the next multiple of the period, and at most a period away.
pub target_counter_lem :
    (file : FileObj) (counter : ℕ)
    → IsFrequency file.offset
    → counter + max_rtc_freq < 2 ^ 32
    → (counter < target_counter file counter)
      × (target_counter file counter ≤ counter + max_ticks file)
      × (target_counter file counter % max_ticks file ≡ 0)
unfolding target_counter
target_counter_lem file counter h b =
    let (some_ticks, few) = period_bounds file.offset h in
    next_multiple counter (max_ticks file) some_ticks (omega (arith, few, b))

-- The clock interrupts from a counter on, n of them, with no signal.
abbrev pub ticks : ℕ → ℕ → List (ℕ × Bool)
ticks counter zero = []
ticks counter (suc n) = (next_counter counter, false) ∷ ticks (next_counter counter) n

wait_ticks_enough :
    (target counter n : ℕ)
    → counter + n < 2 ^ 32
    → counter < target
    → target ≤ counter + n
    → wait_ticks target (ticks counter n) ≡ some (pos 0)
unfolding wait_ticks next_counter
wait_ticks_enough target counter zero b lo hi = absurd (omega (arith, lo, hi))
wait_ticks_enough target counter (suc n) b lo hi =
    elim (Bool-cases (leb target (add_u32 counter 1))) [
      | inl done ↦ rw done refl
      | inr more ↦
          let next : add_u32 counter 1 ≡ counter + 1 = omega arith in
          let later : counter + 1 < target = ground arith in
          rw (more, next)
            (wait_ticks_enough target (counter + 1) n (omega arith) later (omega arith))
    ]

-- For a file whose frequency is a power of two from 2 to 1024, and a counter at least 1024 below
-- 2^32, a read returns 0 within n clock interrupts, for every n from the period of the file to
-- 1024, when no signal is pending.
pub read_rtc_returns :
    (file : FileObj) (counter n : ℕ)
    → IsFrequency file.offset
    → counter + max_rtc_freq < 2 ^ 32
    → max_ticks file ≤ n
    → n ≤ max_rtc_freq
    → read_rtc file counter false (ticks counter n) ≡ some (pos 0)
unfolding read_rtc wait_ticks
read_rtc_returns file counter n h b lo hi =
    let (above, near, multiple) = target_counter_lem file counter h b in
    let waits : leb (target_counter file counter) counter ≡ false = ground (arith, above) in
    rw waits (
      wait_ticks_enough (target_counter file counter) counter n (omega (arith, b, hi)) above
        (omega (arith, near, lo)))
