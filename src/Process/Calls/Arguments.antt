-- ===== src/Process/Calls/Arguments.antt =====
-- What process_getargs of student-distrib/process.c copies to the user's buffer.
use loli_os.Prelude.{
  ℕ, ◌+◌, ◌-◌, ◌^◌, ◌≤◌, ◌<◌, ◌≡◌, refl, sym, ap, subst, ◌∙◌, ◌≢◌, ◌⊎◌, inl, true, [], ◌∷◌, arith,
  dec_lt, ltb, if◌then◌else◌, pos,
}
use loli_os.Memory.{is_user_writable}
use loli_os.Memory.Access.{InUserPage, is_user_readable_iff}
use loli_os.Memory.Bytes.{Mem, store}
use loli_os.Memory.Words.{store_at, store_outside}
use loli_os.Strings.{strncpy}
use loli_os.Strings.Copy.{Apart, Padded, strncpy-Padded}
use loli_os.Process.Command.{max_args_len}
use loli_os.Process.Calls.{copy_args, getargs}

-- The n bytes at buf hold the string at args: k of its characters but for the last byte, which is a
-- NUL, and NULs behind them.
pub record Arguments (m m' : Mem) (args buf n : ℕ) : Type 0 where
  pub k : ℕ
  pub nonzero : (i : ℕ) → i < k → m (args + i) ≢ 0
  pub whole : (k ≡ n) ⊎ (m (args + k) ≡ 0)
  pub chars : (i : ℕ) → i < k → i < n - 1 → m' (buf + i) ≡ m (args + i)
  pub zeros : (i : ℕ) → k ≤ i → i < n → m' (buf + i) ≡ 0
  pub last : m' (buf + (n - 1)) ≡ 0
  pub other : (p : ℕ) → (p < buf) ⊎ (buf + n ≤ p) → m' p ≡ m p

-- The last byte of the buffer is cleared.
cleared-Arguments :
    (m p : Mem) (args buf n : ℕ)
    → 0 < n
    → Padded m buf args n p
    → Arguments m (store p (buf + (n - 1)) (0 ∷ [])) args buf n
cleared-Arguments m p args buf n h d =
    let end = buf + (n - 1) in
    let last : store p end (0 ∷ []) end ≡ 0 =
      ap (store p end (0 ∷ [])) (omega arith) ∙ store_at p end (0 ∷ []) 0 (omega arith) in
    record {
      k = d.k;
      nonzero = d.nonzero;
      whole = d.ended;
      chars = λ i hk hi.
          store_outside p end (buf + i) (0 ∷ []) (inl (omega (arith, hi))) ∙ d.chars i hk;
      zeros = λ i hk hi. elim (dec_lt i (n - 1)) [
        | yes before ↦
            store_outside p end (buf + i) (0 ∷ []) (inl (omega (arith, before))) ∙ d.zeros i hk hi
        | no at ↦ ap (λ j. store p end (0 ∷ []) (buf + j)) (omega (arith, at, hi)) ∙ last
      ];
      last = last;
      other = λ q o. store_outside p end q (0 ∷ []) (omega (arith, o, h)) ∙ d.other q o;
    }

copy_args-Arguments :
    (m : Mem) (args buf n : ℕ)
    → 0 < n
    → Apart buf args n
    → Arguments m (copy_args m args buf n) args buf n
copy_args-Arguments m args buf n h apart =
    let some_bytes : ltb 0 n ≡ true = ground (arith, h) in
    subst
      (λ b.
        Arguments m
          (if b
            then store (strncpy m buf args n) (buf + (n - 1)) (0 ∷ [])
            else strncpy m buf args n)
          args buf n)
      (sym some_bytes)
      (cleared-Arguments m (strncpy m buf args n) args buf n h (strncpy-Padded m buf args n apart))

writable :
    (buf n : ℕ)
    → buf < 2 ^ 32
    → n ≤ max_args_len
    → InUserPage buf n
    → is_user_writable buf (pos n) ≡ true
unfolding is_user_writable
writable buf n hb small page = (is_user_readable_iff buf n hb (omega (arith, small))).1 page

-- For a buffer of 1 to 1024 bytes in the user page, apart from the arguments of the process,
-- process_getargs returns 0 and copies the arguments there, cut to the buffer, which always ends
-- with a NUL; what is behind them in the buffer is cleared, and nothing else changes.
pub getargs-Arguments :
    (m : Mem) (args buf n : ℕ)
    → 0 < n
    → n ≤ max_args_len
    → buf < 2 ^ 32
    → InUserPage buf n
    → Apart buf args n
    → (m' : Mem) × (getargs m args buf (pos n) ≡ (pos 0, m')) × Arguments m m' args buf n
unfolding getargs
getargs-Arguments m args buf n h small hb page apart =
    let ok : is_user_writable buf (pos n) ≡ true = writable buf n hb small page in
    let limit : (if ltb max_args_len n then max_args_len else n) ≡ n = ground (arith, small) in
    (copy_args m args buf n, rw (getargs, ok, limit) refl, copy_args-Arguments m args buf n h apart)
