-- ===== src/Memory/Access.antt =====
-- Which userspace pointers the checks of lib.c accept, and what the guarded copies may touch.
use loli_os.Prelude.{
  ℕ, zero, suc, ◌+◌, ◌-◌, ◌≤◌, ◌<◌, ◌^◌, ◌≡◌, ◌↔◌, true, false, arith, ltb, ◌==◌, if◌then◌else◌,
  Bool-cases, pos, some, inl, inr, ◌⊎◌, ℕ_discrete, ap,
}
use loli_os.Memory.{
  user_page_start, user_page_end, is_user_readable, string_ends, is_user_readable_string,
  copy_to_user, copy_from_user,
}
use loli_os.Memory.Bytes.{Mem, bytes, store, store_below, store_above, bytes-store, length-bytes}

-- The buffer lies in the user page, and its end does not reach the page's end.
pub record InUserPage (buf : ℕ) (n : ℕ) : Type 0 where
  pub from : user_page_start ≤ buf
  pub to : buf + n < user_page_end

-- For a 32-bit address and a size below 2^31, is_user_readable holds exactly when the buffer lies
-- in the user page and ends before its last byte: no sum that wraps gets through.
pub is_user_readable_iff :
    (buf n : ℕ)
    → buf < 2 ^ 32
    → n < 2 ^ 31
    → (is_user_readable buf (pos n) ≡ true) ↔ InUserPage buf n
unfolding is_user_readable
is_user_readable_iff buf n hb hn = (λ h. ground arith, λ h. ground arith)

pub copy_to_user-some :
    (m src : Mem) (dest n : ℕ) {m' : Mem}
    → copy_to_user m dest src (pos n) ≡ some m'
    → (is_user_readable dest (pos n) ≡ true) × (store m dest (bytes src 0 n) ≡ m')
unfolding copy_to_user
copy_to_user-some m src dest n e = ground arith

-- Between a kernel object and a buffer in the user page, both copies succeed.
pub copy_to_user_in :
    (m src : Mem) (dest n : ℕ)
    → InUserPage dest n
    → copy_to_user m dest src (pos n) ≡ some (store m dest (bytes src 0 n))
unfolding copy_to_user
copy_to_user_in m src dest n h = ground (arith, h.from, h.to)

pub copy_from_user_in :
    (m : Mem) (src n : ℕ) → InUserPage src n → copy_from_user m src (pos n) ≡ some (bytes m src n)
unfolding copy_from_user is_user_readable
copy_from_user_in m src n h = ground (arith, h.from, h.to)

-- For a 32-bit address and a size below 2^31, a copy_to_user that succeeds leaves the n bytes of
-- the source at dest and every other address unchanged, and all that was written lies in the user
-- page.
pub copy_to_user_lem :
    (m src : Mem) (dest n : ℕ) {m' : Mem}
    → dest < 2 ^ 32
    → n < 2 ^ 31
    → copy_to_user m dest src (pos n) ≡ some m'
    → (bytes m' dest n ≡ bytes src 0 n)
      × ((p : ℕ) → (p < dest) ⊎ (dest + n ≤ p) → m' p ≡ m p)
      × InUserPage dest n
unfolding copy_to_user
copy_to_user_lem m src dest n {m'} hd hn e =
    let (ok, stored) = copy_to_user-some m src dest n e in
    let len = length-bytes src 0 n in
    (
      rw (← stored) (rw len at (bytes-store m dest (bytes src 0 n))),
      λ p outside. rw (← stored) (unchanged p outside),
      (is_user_readable_iff dest n hd hn).0 ok,
    )
  where
    unchanged : (p : ℕ) → (p < dest) ⊎ (dest + n ≤ p) → store m dest (bytes src 0 n) p ≡ m p
    unchanged p (inl h) = store_below m dest p (bytes src 0 n) h
    unchanged p (inr h) = store_above m dest p (bytes src 0 n) (omega (arith, length-bytes src 0 n))

-- The scan finds a NUL exactly when there is one among the bytes that are left.
string_ends_sound :
    (m : Mem) (p n : ℕ) → string_ends m p n ≡ true → (q : ℕ) × (p ≤ q) × (q < p + n) × (m q ≡ 0)
unfolding string_ends
string_ends_sound m p zero h = cc
string_ends_sound m p (suc n) h = elim (Bool-cases (m p == 0)) [
  | inl e ↦ (p, omega arith, omega arith, ground arith)
  | inr e ↦
      let (q, l, u, z) = string_ends_sound m (p + 1) n (ground arith) in
      (q, omega arith, omega arith, z)
]

string_ends_complete :
    (m : Mem) (p n q : ℕ) → p ≤ q → q < p + n → m q ≡ 0 → string_ends m p n ≡ true
unfolding string_ends
string_ends_complete m p zero q l u z = absurd (omega arith)
string_ends_complete m p (suc n) q l u z = elim (Bool-cases (m p == 0)) [
  | inl e ↦ rw e
  | inr e ↦ rw e (string_ends_complete m (p + 1) n q (past e (ℕ_discrete p q)) (omega arith) z)
]
  where
    past : (m p == 0) ≡ false → Dec (p ≡ q) → p + 1 ≤ q
    past e (yes at) = absurd (ground (arith, ap m at))
    past e (no ne) = omega arith

-- A userspace string is accepted exactly when it starts in the user page and a NUL follows before
-- the page ends.
is_user_readable_string_iff :
    (m : Mem) (str : ℕ)
    → (is_user_readable_string m str ≡ true)
      ↔ (user_page_start ≤ str) × ((q : ℕ) × (str ≤ q) × (q < user_page_end) × (m q ≡ 0))
unfolding is_user_readable_string
is_user_readable_string_iff m str = (found, accepted)
  where
    found :
        (if ltb str user_page_start then false else string_ends m str (user_page_end - str)) ≡ true
        → (user_page_start ≤ str) × ((q : ℕ) × (str ≤ q) × (q < user_page_end) × (m q ≡ 0))
    found h =
        let (q, l, u, z) = string_ends_sound m str (user_page_end - str) (ground arith) in
        (ground arith, (q, l, omega arith, z))

    accepted :
        (user_page_start ≤ str) × ((q : ℕ) × (str ≤ q) × (q < user_page_end) × (m q ≡ 0))
        → (if ltb str user_page_start then false else string_ends m str (user_page_end - str))
          ≡ true
    accepted (from, (q, l, u, z)) =
        let ends = string_ends_complete m str (user_page_end - str) q l (omega arith) z in
        ground arith
