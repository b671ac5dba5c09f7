-- ===== src/Process/Ids.antt =====
-- The process numbers and parents in the process table of student-distrib/process.c.
use loli_os.Prelude.{
  ℕ, zero, suc, ◌+◌, ◌<◌, ◌≡◌, refl, sym, subst, ◌∙◌, ◌≢◌, ◌⊎◌, inl, inr, Bool, true, false, arith,
  ℕ_discrete, ◌==◌, if◌then◌else◌, ==_iff, Bool-cases, pos, minus_one,
}
use loli_os.Process.{tick, clock_from, update_clock, Pcb, max_processes, update, free_pcb}
use loli_os.Process.Table.{IsTable}

-- Every entry is free or holds its own number, and no process is its own parent.
pub record Healthy (table : ℕ → Pcb) : Type 0 where
  pub entries : IsTable table
  pub parents : (i : ℕ) → i < max_processes → (table i).pid ≡ pos i → (table i).parent_pid ≢ pos i

-- The entry keeps its number and its parent.
abbrev pub SameIds : Pcb → Pcb → Type 0
SameIds p q = (q.pid ≡ p.pid) × (q.parent_pid ≡ p.parent_pid)

abbrev pub SameTable : (ℕ → Pcb) → (ℕ → Pcb) → Type 0
SameTable t t' = (i : ℕ) → SameIds (t i) (t' i)

-- The entry i is new.
pub record Entered (t t' : ℕ → Pcb) (i : ℕ) : Type 0 where
  pub in_table : i < max_processes
  pub pid : (t' i).pid ≡ pos i
  pub parent : (t' i).parent_pid ≢ pos i
  pub others : (j : ℕ) → j ≢ i → SameIds (t j) (t' j)

Healthy-entry :
    (t t' : ℕ → Pcb) (i : ℕ)
    → Healthy t
    → i < max_processes
    → SameIds (t i) (t' i)
    → (((t' i).pid ≡ pos i) ⊎ ((t' i).pid ≡ minus_one))
      × ((t' i).pid ≡ pos i → (t' i).parent_pid ≢ pos i)
Healthy-entry t t' i h hi (pid, parent) = (
  subst (λ p. (p ≡ pos i) ⊎ (p ≡ minus_one)) (sym pid) (h.entries i hi),
  λ e own. h.parents i hi (sym pid ∙ e) (sym parent ∙ own),
)

pub Healthy-SameTable : (t t' : ℕ → Pcb) → Healthy t → SameTable t t' → Healthy t'
Healthy-SameTable t t' h s = record {
  entries = λ i hi. (Healthy-entry t t' i h hi (s i)).0;
  parents = λ i hi. (Healthy-entry t t' i h hi (s i)).1;
}

pub Healthy-Entered : (t t' : ℕ → Pcb) (i : ℕ) → Healthy t → Entered t t' i → Healthy t'
Healthy-Entered t t' i h n = record {
  entries = λ j hj. (entry j hj).0;
  parents = λ j hj. (entry j hj).1;
}
  where
    entry :
        (j : ℕ)
        → j < max_processes
        → (((t' j).pid ≡ pos j) ⊎ ((t' j).pid ≡ minus_one))
          × ((t' j).pid ≡ pos j → (t' j).parent_pid ≢ pos j)
    entry j hj = elim (ℕ_discrete j i) [
      | yes e ↦
          subst
            (λ k.
              (((t' k).pid ≡ pos k) ⊎ ((t' k).pid ≡ minus_one))
              × ((t' k).pid ≡ pos k → (t' k).parent_pid ≢ pos k))
            (sym e) (inl n.pid, λ _. n.parent)
      | no ne ↦ Healthy-entry t t' j h hj (n.others j ne)
    ]

pub Healthy-free_pcb : (t : ℕ → Pcb) (i : ℕ) → Healthy t → Healthy (free_pcb t i)
unfolding free_pcb
Healthy-free_pcb t i h = record {
  entries = λ j hj. (entry j hj (i == j)).0;
  parents = λ j hj. (entry j hj (i == j)).1;
}
  where
    entry :
        (j : ℕ)
        → j < max_processes
        → (b : Bool)
        → (let p : Pcb = if b then record (t i) { pid = minus_one } else t j in
            ((p.pid ≡ pos j) ⊎ (p.pid ≡ minus_one)) × (p.pid ≡ pos j → p.parent_pid ≢ pos j))
    entry j hj true = (inr refl, λ e. absurd (ground (arith, e)))
    entry j hj false = (h.entries j hj, h.parents j hj)

-- A new value of one entry that keeps its numbers.
pub SameTable-update :
    (t : ℕ → Pcb) (i : ℕ) (p : Pcb) → SameIds (t i) p → SameTable t (update t i p)
SameTable-update t i p s j = elim (Bool-cases (i == j)) [
  | inl e ↦ rw e (subst (λ k. SameIds (t k) p) ((==_iff i j).0 e) s)
  | inr e ↦ rw e (refl, refl)
]

pub SameTable-trans : (t t' t'' : ℕ → Pcb) → SameTable t t' → SameTable t' t'' → SameTable t t''
SameTable-trans t t' t'' f g i = ((g i).0 ∙ (f i).0, (g i).1 ∙ (f i).1)

pub Entered-SameTable :
    (t t' t'' : ℕ → Pcb) (i : ℕ) → Entered t t' i → SameTable t' t'' → Entered t t'' i
Entered-SameTable t t' t'' i n s = record {
  in_table = n.in_table;
  pid = (s i).0 ∙ n.pid;
  parent = λ e. n.parent (sym ((s i).1) ∙ e);
  others = λ j ne. ((s j).0 ∙ (n.others j ne).0, (s j).1 ∙ (n.others j ne).1);
}

tick_kept : (p : Pcb) (counter : ℕ) → SameIds p (tick p counter)
unfolding tick
tick_kept p counter = (ground arith, ground arith)

clock_from_kept :
    (table : ℕ → Pcb) (counter i n : ℕ) → SameTable table (clock_from table counter i n)
unfolding clock_from
clock_from_kept table counter i zero = λ j. (refl, refl)
clock_from_kept table counter i (suc n) =
    let ticked = update table i (tick (table i) counter) in
    SameTable-trans table ticked (clock_from ticked counter (i + 1) n)
      (SameTable-update table i (tick (table i) counter) (tick_kept (table i) counter))
      (clock_from_kept ticked counter (i + 1) n)

pub update_clock_kept :
    (table : ℕ → Pcb) (counter : ℕ) → SameTable table (update_clock table counter)
unfolding update_clock
update_clock_kept table counter = clock_from_kept table counter 0 6
