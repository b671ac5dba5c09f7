-- ===== src/Process/Execution/Switching.antt =====
-- Which process executes after the timer's switch, and after the start, of student-distrib/process.c.
use loli_os.Prelude.{
  ℕ, zero, suc, ◌+◌, ◌%◌, ◌<◌, ◌≡◌, refl, sym, ap, subst, ◌∙◌, ◌⊎◌, inl, inr, Bool, true, false,
  ◌&&◌, not, Option, some, arith, ◌==◌, Bool-cases, set, ℤ, pos, minus_one, if_holds,
}
use loli_os.Process.{
  Pcb, Status, process_run, process_sched, process_sleep, is_valid, is_nonneg, is_sleep, find_next,
  can_run, max_processes, get_next_pcb,
}
use loli_os.Process.Context.{Kernel, set_context, run, switch, switch_to}
use loli_os.Process.Ids.{Healthy, SameTable, SameTable-update, Healthy-SameTable}
use loli_os.Process.Execution.Creation.{bind_some, set_context_kept, run_kept}
use loli_os.Process.Execution.Survivors.{Runs}

-- A process that can run and stands in a healthy table holds its own entry.
can_run_pid :
    (table : ℕ → Pcb) (i : ℕ)
    → Healthy table
    → i < max_processes
    → can_run (table i) ≡ true
    → (table i).pid ≡ pos i
can_run_pid table i h hi c = elim (h.entries i hi) [
  | inl own ↦ own
  | inr free ↦
      absurd (
        invalid (table i).pid free (valid (is_valid (table i)) (not (is_sleep (table i).status)) c))
]
  where
    valid : (a b : Bool) → (a && b) ≡ true → a ≡ true
    valid true b e = refl
    valid false b e = e

    invalid : (p : ℤ) → p ≡ minus_one → is_nonneg p ≡ true → ⊥
    invalid p e v = ground (arith, sym v ∙ ap is_nonneg e)

-- The next process is the one that executes, or another one that can run.
find_next_choice :
    (table : ℕ → Pcb) (curr i n : ℕ)
    → (find_next table curr i n ≡ curr)
      ⊎ ((find_next table curr i n < max_processes)
          × (can_run (table (find_next table curr i n)) ≡ true))
unfolding find_next
find_next_choice table curr i zero = inl refl
find_next_choice table curr i (suc n) =
    elim (Bool-cases (can_run (table ((curr + i) % max_processes)))) [
      | inl ok ↦ rw ok (inr (omega arith, ok))
      | inr other ↦ rw other (find_next_choice table curr (i + 1) n)
    ]

Runs-next :
    (k k' : Kernel) (i : ℕ)
    → Healthy k.table
    → i < max_processes
    → (k.table i).pid ≡ pos i
    → SameTable k.table k'.table
    → Runs k' i
Runs-next k k' i h hi pid s = record {
  healthy = Healthy-SameTable k.table k'.table h s;
  in_table = hi;
  pid = (s i).0 ∙ pid;
}

switched_inj :
    {i j : ℕ} {k l : Kernel}
    → ◌≡◌ {A = Option (ℕ × Kernel)} (some (i, k)) (some (j, l))
    → (i ≡ j) × (k ≡ l)
switched_inj e = (cc, cc)

switched-Runs :
    {i j : ℕ} {k l : Kernel}
    → ◌≡◌ {A = Option (ℕ × Kernel)} (some (i, k)) (some (j, l))
    → Runs k i
    → Runs l j
switched-Runs {i} {j} {k} {l} e r =
    let (at, same) = switched_inj e in subst (λ q. Runs q j) same (subst (Runs k) at r)

switch_to-Runs :
    (pd : ℕ) (k k' : Kernel) (curr next i : ℕ) (s : Status)
    → Runs k curr
    → next < max_processes
    → (k.table next).pid ≡ pos next
    → switch_to pd k curr next s ≡ some (i, k')
    → Runs k' i
unfolding switch_to
switch_to-Runs pd k k' curr next i process_sleep r hn pid e = switched-Runs e r
switch_to-Runs pd k k' curr next i process_sched r hn pid e =
    let (ran, x, e1) = bind_some (run pd k next) _ e in
    switched-Runs e1 (
      Runs-next k ran next r.healthy hn pid (
        subst (SameTable k.table) (sym ((run_kept pd k ran next x).0)) (
          SameTable-update k.table next (record (k.table next) { status = process_run })
            (refl, refl))))
switch_to-Runs pd k k' curr next i process_run r hn pid e =
    let (set, x, e1) = bind_some (set_context pd k next) _ e in
    switched-Runs e1 (
      Runs-next k set next r.healthy hn pid (
        subst (SameTable k.table) (sym ((set_context_kept pd k set next x).0)) (λ j. (refl, refl))))

-- The timer's switch leaves a process that holds its own entry.
pub switch-Runs :
    (pd : ℕ) (k k' : Kernel) (curr i : ℕ)
    → Runs k curr
    → switch pd k curr ≡ some (i, k')
    → Runs k' i
unfolding switch get_next_pcb
switch-Runs pd k k' curr i r =
    let next = get_next_pcb k.table curr in
    let chosen : (next < max_processes) × ((k.table next).pid ≡ pos next) =
      elim (find_next_choice k.table curr 1 5) [
        | inl same ↦
            subst (λ n. (n < max_processes) × ((k.table n).pid ≡ pos n)) (sym same)
              (r.in_table, r.pid)
        | inr (hn, runs) ↦ (hn, can_run_pid k.table next r.healthy hn runs)
      ] in
    if_holds (λ o. o ≡ some (i, k') → Runs k' i) (curr == next) (some (curr, k))
      (switch_to pd k curr next (k.table next).status) (λ e. switched-Runs e r)
      (λ e. switch_to-Runs pd k k' curr next i (k.table next).status r chosen.0 chosen.1 e)
