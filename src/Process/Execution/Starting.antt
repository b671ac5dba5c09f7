-- ===== src/Process/Execution/Starting.antt =====
-- The start of the shells, of student-distrib/process.c, from an empty process table.
use loli_os.Prelude.{
  ℕ, zero, suc, ◌+◌, ◌<◌, ◌≡◌, refl, sym, subst, ◌∙◌, ◌≢◌, ◌⊎◌, inl, inr, Option, none, some, arith,
  pos, minus_one,
}
use loli_os.FileSystem.{Image}
use loli_os.Process.{Pcb, max_processes, init}
use loli_os.Process.Context.{Kernel}
use loli_os.Process.Calls.{shells_from, start_shell}
use loli_os.Process.Ids.{Healthy, Healthy-Entered}
use loli_os.Process.Execution.{Created, not_created, created, create_child, running, shell}
use loli_os.Process.Execution.Creation.{bind_some, some_inj}
use loli_os.Process.Execution.Children.{create_child-Entered}
use loli_os.Process.Execution.Survivors.{Runs, execute_impl-Runs}

all_free : (table : ℕ → Pcb) (i : ℕ) → i < max_processes → (init table i).pid ≡ minus_one
unfolding init
all_free table i hi = ground (arith, hi)

init-Healthy : (table : ℕ → Pcb) → Healthy (init table)
init-Healthy table = record {
  entries = λ i hi. inr (all_free table i hi);
  parents = λ i hi e. absurd (pos-ne-minus_one i (sym e ∙ all_free table i hi));
}
  where
    pos-ne-minus_one : (i : ℕ) → pos i ≢ minus_one
    pos-ne-minus_one i e = ground (arith, e)

-- What a creation gives.
created_cases :
    (o : Option Created)
    → (o ≡ none) ⊎ ((o ≡ some not_created) ⊎ ((i : ℕ) × (k : Kernel) × (o ≡ some (created i k))))
created_cases none = inl refl
created_cases (some not_created) = inr (inl refl)
created_cases (some (created i k)) = inr (inr (i, k, refl))

shells_from-Healthy :
    (fs : Image) (counter : ℕ) (k k' : Kernel) (i n : ℕ)
    → Healthy k.table
    → shells_from fs counter k i n ≡ some k'
    → Healthy k'.table
unfolding shells_from
shells_from-Healthy fs counter k k' i zero h e = subst (λ q. Healthy q.table) (some_inj e) h
shells_from-Healthy fs counter k k' i (suc n) h e =
    elim (created_cases (create_child fs counter k shell 0 none (pos i))) [
      | inl fails ↦
          let stop : shells_from fs counter k i (suc n) ≡ none = rw (shells_from, fails) refl in
          absurd (ground (arith, sym stop ∙ e))
      | inr (inl full) ↦
          let on : shells_from fs counter k i (suc n) ≡ shells_from fs counter k (i + 1) n =
            rw (shells_from, full) refl in
          shells_from-Healthy fs counter k k' (i + 1) n h (sym on ∙ e)
      | inr (inr (c, l, made)) ↦
          let on : shells_from fs counter k i (suc n) ≡ shells_from fs counter l (i + 1) n =
            rw (shells_from, made) refl in
          let entered = create_child-Entered fs counter k l shell 0 c none (pos i) tt made in
          shells_from-Healthy fs counter l k' (i + 1) n
            (Healthy-Entered k.table l.table c h entered) (sym on ∙ e)
    ]

-- From whatever stood in the table, a start of the shells that succeeds leaves a healthy table and
-- executes a process that holds its own entry.
pub start_shell-Runs :
    (fs : Image) (pd counter : ℕ) (k k' : Kernel) (i : ℕ)
    → start_shell fs pd counter (record k { table = init k.table }) ≡ some (running i k')
    → Runs k' i
unfolding start_shell
start_shell-Runs fs pd counter k k' i e =
    let (l, started, e1) =
      bind_some (shells_from fs counter (record k { table = init k.table }) 1 2) _ e in
    execute_impl-Runs fs pd counter l k' shell 0 i none (pos 0)
      (shells_from-Healthy fs counter (record k { table = init k.table }) l 1 2
        (init-Healthy k.table) started)
      tt e1
