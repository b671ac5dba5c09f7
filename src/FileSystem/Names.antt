-- ===== src/FileSystem/Names.antt =====
-- Names and lookup: fs_cmp_name, read_dentry_by_name.
use loli_os.Prelude.{
  ℕ, zero, suc, ◌+◌, ◌≤◌, ◌<◌, ◌≡◌, refl, sym, ◌∙◌, ◌≢◌, ◌↔◌, inl, inr, true, Option, none, some,
  arith, ℕ_discrete, Bool-cases,
}
use loli_os.Memory.Bytes.{Mem}
use mathlib.Core.Bool.{false≢true}
use loli_os.FileSystem.{
  Image, Dentry, max_fname_len, cmp_name_from, fs_cmp_name, is_zero, find_from, read_dentry_by_name,
}

-- From index i on, the NUL-terminated name `s` spells what `f` holds before index `stop`: up to a
-- NUL, or up to `stop`. `at` is where `s` ends.
pub record SameFrom (s f : Mem) (i stop : ℕ) : Type 0 where
  pub at : ℕ
  pub from : i ≤ at
  pub to : at ≤ stop
  pub same : (k : ℕ) → i ≤ k → k < at → s k ≡ f k
  pub solid : (k : ℕ) → i ≤ k → k < at → s k ≢ 0
  pub ends : s at ≡ 0
  pub cut : at < stop → f at ≡ 0

-- A search name and the raw name of an entry, which has no NUL when it is 32 bytes long.
abbrev pub SameName : Mem → Mem → Type 0
SameName s f = SameFrom s f 0 max_fname_len

SameFrom-cons :
    (s f : Mem) (i stop : ℕ) → s i ≡ f i → s i ≢ 0 → SameFrom s f (i + 1) stop → SameFrom s f i stop
SameFrom-cons s f i stop e ne r = record {
  at = r.at;
  from = omega arith;
  to = r.to;
  same = λ k l u. here_or_later k l u (ℕ_discrete k i);
  solid = λ k l u. solid_here_or_later k l u (ℕ_discrete k i);
  ends = r.ends;
  cut = r.cut;
}
  where
    here_or_later : (k : ℕ) → i ≤ k → k < r.at → Dec (k ≡ i) → s k ≡ f k
    here_or_later k l u (yes h) = rw h e
    here_or_later k l u (no h) = r.same k (omega arith) u

    solid_here_or_later : (k : ℕ) → i ≤ k → k < r.at → Dec (k ≡ i) → s k ≢ 0
    solid_here_or_later k l u (yes h) = rw h ne
    solid_here_or_later k l u (no h) = r.solid k (omega arith) u

SameFrom-tail : (s f : Mem) (i stop : ℕ) → s i ≢ 0 → SameFrom s f i stop → SameFrom s f (i + 1) stop
SameFrom-tail s f i stop ne r = record {
  at = r.at;
  from = later (ℕ_discrete i r.at);
  to = r.to;
  same = λ k l u. r.same k (omega arith) u;
  solid = λ k l u. r.solid k (omega arith) u;
  ends = r.ends;
  cut = r.cut;
}
  where
    later : Dec (i ≡ r.at) → i + 1 ≤ r.at
    later (yes h) = absurd (ne (rw h r.ends))
    later (no h) = omega (arith, r.from)

cmp_name_from_sound :
    (s f : Mem) (i n : ℕ) → is_zero (cmp_name_from s f i n) ≡ true → SameFrom s f i (i + n)
unfolding cmp_name_from
cmp_name_from_sound s f i zero h = record {
  at = i;
  from = omega arith;
  to = omega arith;
  same = λ k l u. absurd (omega arith);
  solid = λ k l u. absurd (omega arith);
  ends = ground arith;
  cut = λ u. absurd (omega arith);
}
cmp_name_from_sound s f i (suc n) h = elim (ℕ_discrete (s i) (f i)) [
  | no ne ↦ absurd (ground arith)
  | yes e ↦ elim (ℕ_discrete (f i) 0) [
    | yes z ↦ record {
      at = i;
      from = omega arith;
      to = omega arith;
      same = λ k l u. absurd (omega arith);
      solid = λ k l u. absurd (omega arith);
      ends = omega arith;
      cut = λ u. z;
    }
    | no nz ↦
        let end : i + 1 + n ≡ i + suc n = omega arith in
        SameFrom-cons s f i (i + suc n) e (λ z. nz (omega arith))
          (rw end at (cmp_name_from_sound s f (i + 1) n (ground arith)))
  ]
]

cmp_name_from_complete :
    (s f : Mem) (i n : ℕ) → SameFrom s f i (i + n) → is_zero (cmp_name_from s f i n) ≡ true
unfolding cmp_name_from
cmp_name_from_complete s f i zero r =
    let e : r.at ≡ i = omega (arith, r.from, r.to) in
    let z : s i ≡ 0 = rw (← e) r.ends in ground arith
cmp_name_from_complete s f i (suc n) r = elim (ℕ_discrete r.at i) [
  | yes e ↦
      let z : s i ≡ 0 = rw (← e) r.ends in
      let c : f i ≡ 0 = rw (← e) (r.cut (omega arith)) in ground arith
  | no ne ↦
      let e : s i ≡ f i = r.same i (omega arith) (omega (arith, r.from)) in
      let nz : s i ≢ 0 = r.solid i (omega arith) (omega (arith, r.from)) in
      let end : i + suc n ≡ i + 1 + n = omega arith in
      let ih =
        cmp_name_from_complete s f (i + 1) n (rw end at (SameFrom-tail s f i (i + suc n) nz r)) in
      ground arith
]

-- fs_cmp_name returns 0 exactly for a search name that spells the name of the entry, the names of
-- 32 bytes, which have no NUL, included.
pub fs_cmp_name_iff : (s f : Mem) → (is_zero (fs_cmp_name s f) ≡ true) ↔ SameName s f
unfolding fs_cmp_name
fs_cmp_name_iff s f =
    (cmp_name_from_sound s f 0 max_fname_len, cmp_name_from_complete s f 0 max_fname_len)

-- What a search among the n entries from index i on has found.
pub data Found (fs : Image) (fname : Mem) (i stop : ℕ) (r : Option Dentry) : Type 0 where
  missing :
      ((j : ℕ) → i ≤ j → j < stop → ¬ SameName fname (fs.dir_entries j).name)
      → r ≡ none
      → Found fs fname i stop r
  found :
      (at : ℕ)
      → i ≤ at
      → at < stop
      → SameName fname (fs.dir_entries at).name
      → ((j : ℕ) → i ≤ j → j < at → ¬ SameName fname (fs.dir_entries j).name)
      → r ≡ some (fs.dir_entries at)
      → Found fs fname i stop r

-- A first entry that does not match leaves the outcome to the entries behind it.
Found-cons :
    (fs : Image) (fname : Mem) (i stop : ℕ) {r : Option Dentry}
    → ¬ SameName fname (fs.dir_entries i).name
    → Found fs fname (i + 1) stop r
    → Found fs fname i stop r
Found-cons fs fname i stop differs = elim [
  | missing h e ↦ missing (λ j l u. go j l (λ l'. h j l' u) (ℕ_discrete j i)) e
  | found at l u same h e ↦
      found at (omega arith) u same (λ j l' u'. go j l' (λ k. h j k u') (ℕ_discrete j i)) e
]
  where
    go :
        (j : ℕ)
        → i ≤ j
        → (i + 1 ≤ j → ¬ SameName fname (fs.dir_entries j).name)
        → Dec (j ≡ i)
        → ¬ SameName fname (fs.dir_entries j).name
    go j l h (yes e) = rw e differs
    go j l h (no ne) = h (omega arith)

find_from-Found :
    (fs : Image) (fname : Mem) (i n stop : ℕ)
    → i + n ≡ stop
    → Found fs fname i stop (find_from fs fname i n)
unfolding find_from
find_from-Found fs fname i zero stop e = missing (λ j l u. absurd (omega arith)) refl
find_from-Found fs fname i (suc n) stop e =
    elim (Bool-cases (is_zero (fs_cmp_name fname (fs.dir_entries i).name))) [
      | inl hit ↦
          found i (omega arith) (omega arith)
            ((fs_cmp_name_iff fname (fs.dir_entries i).name).0 hit) (λ j l u. absurd (omega arith))
            (rw hit)
      | inr miss ↦ rw miss (
          Found-cons fs fname i stop
            (λ h. false≢true (sym miss ∙ (fs_cmp_name_iff fname (fs.dir_entries i).name).1 h))
            (find_from-Found fs fname (i + 1) n stop (omega arith)))
    ]

-- read_dentry_by_name returns the first entry, below the number of entries, whose name is the one
-- searched for, and fails exactly if there is none.
pub read_dentry_by_name-Found :
    (fs : Image) (fname : Mem) → Found fs fname 0 fs.dentry_count (read_dentry_by_name fs fname)
unfolding read_dentry_by_name
read_dentry_by_name-Found fs fname =
    find_from-Found fs fname 0 fs.dentry_count fs.dentry_count (omega arith)
