-- ===== src/Process/Table.antt =====
-- Allocating and freeing entries of the process table of student-distrib/process.c, and its clock.
use loli_os.Prelude.{
  ℤ, ℕ, zero, suc, ◌+◌, ◌<◌, ◌≡◌, refl, sym, ap, subst, ◌∙◌, ◌≢◌, ◌⊎◌, inl, inr, true, false, ◌&&◌,
  Option, none, some, arith, ℕ_discrete, ltb, leb, ◌==◌, if◌then◌else◌, Bool-cases, pos, minus_one,
  sub_u32,
}
use loli_os.Signals.{raise, sig_alarm}
use loli_os.Process.{
  is_nonneg, Pcb, is_valid, max_processes, update, new_from, new_pcb, free_pcb, init, init_from,
  found, get_pcb_by_pid, tick, clock_from, update_clock,
}

-- Every entry is free or holds its own index.
abbrev pub IsTable : (ℕ → Pcb) → Type 0
IsTable table = (i : ℕ) → i < max_processes → ((table i).pid ≡ pos i) ⊎ ((table i).pid ≡ minus_one)

-- What process_new_pcb does: it fills the first free entry and changes no other, or all are in use.
pub data Allocated (table : ℕ → Pcb) : Option (ℕ × (ℕ → Pcb)) → Type 0 where
  filled :
      {i : ℕ} {table' : ℕ → Pcb}
      → i < max_processes
      → is_valid (table i) ≡ false
      → ((j : ℕ) → j < i → is_valid (table j) ≡ true)
      → (table' i).pid ≡ pos i
      → ((j : ℕ) → j ≢ i → table' j ≡ table j)
      → Allocated table (some (i, table'))
  no_room : ((j : ℕ) → j < max_processes → is_valid (table j) ≡ true) → Allocated table none

new_from-Allocated :
    (table : ℕ → Pcb) (i n : ℕ)
    → i + n ≡ max_processes
    → ((j : ℕ) → j < i → is_valid (table j) ≡ true)
    → Allocated table (new_from table i n)
unfolding new_from
new_from-Allocated table i zero e before = no_room (λ j h. before j (omega (arith, h, e)))
new_from-Allocated table i (suc n) e before = elim (Bool-cases (is_valid (table i))) [
  | inr free ↦
      rw free (filled (omega arith) free before (ground arith) (λ j ne. ground (arith, ne)))
  | inl used ↦ rw used (
      new_from-Allocated table (i + 1) n (omega arith) (λ j h. elim (ℕ_discrete j i) [
        | yes at ↦ ap (λ k. is_valid (table k)) at ∙ used
        | no ne ↦ before j (omega (arith, h, ne))
      ]))
]

-- process_new_pcb fills the first free entry with its own index and changes no other, and fails
-- only when all are in use.
pub new_pcb-Allocated : (table : ℕ → Pcb) → Allocated table (new_pcb table)
unfolding new_pcb
new_pcb-Allocated table = new_from-Allocated table 0 6 refl (λ j h. absurd (omega (arith, h)))

-- A new entry is found by its own number, and once it is freed it is not.
pub new_pcb-get_pcb_by_pid :
    (table : ℕ → Pcb) {i : ℕ} {table' : ℕ → Pcb}
    → new_pcb table ≡ some (i, table')
    → (get_pcb_by_pid table' (pos i) ≡ some (found i))
      × (get_pcb_by_pid (free_pcb table' i) (pos i) ≡ none)
unfolding get_pcb_by_pid free_pcb
new_pcb-get_pcb_by_pid table {i} {table'} e =
    looked_up (subst (Allocated table) e (new_pcb-Allocated table))
  where
    looked_up :
        Allocated table (some (i, table'))
        → (get_pcb_by_pid table' (pos i) ≡ some (found i))
          × (get_pcb_by_pid (free_pcb table' i) (pos i) ≡ none)
    looked_up (filled h free before pid others) =
        let in_i : ltb i max_processes ≡ true = ground arith in
        let self : (i == i) ≡ true = ground arith in (rw (in_i, pid), rw (in_i, self))

-- In a table whose entries are free or hold their own index, process_new_pcb, where it succeeds,
-- and freeing its entry afterwards both leave such a table.
pub new_pcb-IsTable :
    (table : ℕ → Pcb) {i : ℕ} {table' : ℕ → Pcb}
    → IsTable table
    → new_pcb table ≡ some (i, table')
    → IsTable table' × IsTable (free_pcb table' i)
unfolding free_pcb
new_pcb-IsTable table {i} {table'} h e = kept (subst (Allocated table) e (new_pcb-Allocated table))
  where
    kept : Allocated table (some (i, table')) → IsTable table' × IsTable (free_pcb table' i)
    kept (filled hi free before pid others) =
        let filled_table : IsTable table' = λ j hj. elim (ℕ_discrete j i) [
          | yes at ↦ inl (ap (λ k. (table' k).pid) at ∙ pid ∙ ap pos (sym at))
          | no ne ↦ subst (λ p. (p.pid ≡ pos j) ⊎ (p.pid ≡ minus_one)) (sym (others j ne)) (h j hj)
        ] in
        (
          filled_table,
          λ j hj. elim (Bool-cases (i == j)) [
            | inl at ↦ inr (rw at)
            | inr ne ↦ rw ne (filled_table j hj)
          ],
        )

-- process_init leaves every entry free, whatever stood in the table.
pub init-IsTable : (table : ℕ → Pcb) (i : ℕ) → i < max_processes → is_valid (init table i) ≡ false
unfolding init init_from
init-IsTable table i h = ground arith

touch_step {ℓ} :
    {A : Type ℓ} (f : ℕ → A) (t : A → A) (i n j : ℕ)
    → (if leb (i + 1) j && ltb j (i + 1 + n)
        then t (if i == j then t (f i) else f j)
        else if i == j
        then t (f i)
        else f j)
      ≡ (if leb i j && ltb j (i + suc n) then t (f j) else f j)
touch_step f t i n j = elim (ℕ_discrete i j) [
  | yes at ↦
      let self : (i == j) ≡ true = ground arith in
      let out : leb (i + 1) j ≡ false = ground arith in
      let lo : leb i j ≡ true = ground arith in
      let hi : ltb j (i + suc n) ≡ true = ground arith in
      rw (self, out, lo, hi) (ap (λ k. t (f k)) at)
  | no ne ↦
      let other : (i == j) ≡ false = ground arith in
      let same : (leb (i + 1) j && ltb j (i + 1 + n)) ≡ (leb i j && ltb j (i + suc n)) =
        ground arith in
      rw (other, same) refl
]

touch_none {ℓ} : {A : Type ℓ} (x y : A) (i j : ℕ) → x ≡ (if leb i j && ltb j (i + 0) then y else x)
touch_none x y i j =
    let none_in : (leb i j && ltb j (i + 0)) ≡ false = ground arith in rw none_in refl

clock_from_at :
    (table : ℕ → Pcb) (counter i n j : ℕ)
    → clock_from table counter i n j
      ≡ (if leb i j && ltb j (i + n) then tick (table j) counter else table j)
unfolding clock_from
clock_from_at table counter i zero j = touch_none (table j) (tick (table j) counter) i j
clock_from_at table counter i (suc n) j =
    clock_from_at (update table i (tick (table i) counter)) counter (i + 1) n j
    ∙ touch_step table (λ p. tick p counter) i n j

-- process_update_clock raises the alarm of exactly the valid processes whose last alarm is ten
-- seconds old in the 32-bit counter, and starts their period again; every other entry of the table
-- is unchanged.
pub update_clock_lem :
    (table : ℕ → Pcb) (counter i : ℕ)
    → i < max_processes
    → update_clock table counter i ≡ (
        if is_valid (table i) && leb 10240 (sub_u32 counter (table i).last_alarm)
        then record (table i) { last_alarm = counter; signals = raise (table i).signals sig_alarm }
        else table i)
unfolding update_clock tick
update_clock_lem table counter i h = ground (arith, clock_from_at table counter 0 6 i)

-- A valid process that has its own index is found by its number.
pub known_parent :
    (table : ℕ → Pcb) (parent_pid : ℤ) (j : ℕ)
    → parent_pid ≡ pos j
    → j < max_processes
    → (table j).pid ≡ pos j
    → get_pcb_by_pid table parent_pid ≡ some (found j)
unfolding get_pcb_by_pid
known_parent table parent_pid j e h pid =
    let valid : (ltb j max_processes && is_valid (table j)) ≡ true =
      ap (λ p. ltb j max_processes && is_nonneg p) pid ∙ ground (arith, h) in
    ap (get_pcb_by_pid table) e ∙ ap (λ b. if b then some (found j) else none) valid
