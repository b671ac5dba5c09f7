-- ===== src/Process/Schedule.antt =====
-- The choice of the next process in student-distrib/process.c: round robin.
use loli_os.Prelude.{
  ℕ, zero, suc, ◌+◌, ◌-◌, ◌%◌, ◌≤◌, ◌<◌, ◌≡◌, refl, sym, ap, ◌∙◌, ◌≢◌, inl, inr, true, false, arith,
  ℕ_discrete, Bool-cases,
}
use loli_os.Process.{Pcb, can_run, max_processes, find_next, get_next_pcb}

-- How far p stands behind c in the order of the table, 0 for c itself.
abbrev pub distance : ℕ → ℕ → ℕ
distance c p = (p + max_processes - c) % max_processes

-- The search skips no process that can run, and returns to `curr` when it finds none.
find_next_lem :
    (table : ℕ → Pcb) (curr i n p : ℕ)
    → curr < max_processes
    → p < max_processes
    → 0 < i
    → i + n ≡ max_processes
    → can_run (table p) ≡ true
    → i ≤ distance curr p
    → (can_run (table (find_next table curr i n)) ≡ true)
      × (0 < distance curr (find_next table curr i n))
      × (distance curr (find_next table curr i n) ≤ distance curr p)
      × (find_next table curr i n < max_processes)
unfolding find_next
find_next_lem table curr i zero p hc hp hi total run far = ground arith
find_next_lem table curr i (suc n) p hc hp hi total run far =
    elim (Bool-cases (can_run (table ((curr + i) % max_processes)))) [
      | inl ok ↦ rw ok (ok, omega arith, omega arith, omega arith)
      | inr asleep ↦ elim (ℕ_discrete i (distance curr p)) [
        | no further ↦ rw asleep (
            find_next_lem table curr (i + 1) n p hc hp (omega arith) (omega arith) run
              (omega (arith, further, far)))
        | yes here ↦
            let same : (curr + i) % max_processes ≡ p = omega (arith, here) in
            absurd (true_ne_false (sym run ∙ ap (λ q. can_run (table q)) (sym same) ∙ asleep))
      ]
    ]
  where
    true_ne_false : true ≢ false
    true_ne_false e = ground (arith, e)

-- While another process can run, the next process can run, is not the executing one, and is passed
-- by at most as far as that process: a process that can run is at a smaller distance after every
-- switch to another one, so it executes after at most five switches.
pub get_next_pcb_fair :
    (table : ℕ → Pcb) (curr p : ℕ)
    → curr < max_processes
    → p < max_processes
    → p ≢ curr
    → can_run (table p) ≡ true
    → (can_run (table (get_next_pcb table curr)) ≡ true)
      × (get_next_pcb table curr ≢ curr)
      × (distance (get_next_pcb table curr) p < distance curr p)
unfolding get_next_pcb
get_next_pcb_fair table curr p hc hp ne run =
    let (ok, away, near, bound) =
      find_next_lem table curr 1 5 p hc hp (omega arith) refl run (omega (arith, ne)) in
    (ok, omega (arith, away), omega (arith, away, near, bound))

find_next_bound :
    (table : ℕ → Pcb) (curr i n : ℕ)
    → curr < max_processes
    → find_next table curr i n < max_processes
unfolding find_next
find_next_bound table curr i zero h = h
find_next_bound table curr i (suc n) h = ground (arith, find_next_bound table curr (i + 1) n h)

get_next_pcb_bound :
    (table : ℕ → Pcb) (curr : ℕ) → curr < max_processes → get_next_pcb table curr < max_processes
unfolding get_next_pcb
get_next_pcb_bound table curr h = find_next_bound table curr 1 5 h

-- Where no other process can run, the executing one goes on.
pub get_next_pcb_alone :
    (table : ℕ → Pcb) (curr : ℕ)
    → curr < max_processes
    → ((p : ℕ) → p < max_processes → p ≢ curr → can_run (table p) ≡ false)
    → get_next_pcb table curr ≡ curr
unfolding get_next_pcb find_next
get_next_pcb_alone table curr hc h =
    let quiet : (i : ℕ)
        → 0 < i
        → i < max_processes
        → can_run (table ((curr + i) % max_processes)) ≡ false =
      λ i lo hi.
        h ((curr + i) % max_processes) (omega arith) (λ e. absurd (omega (arith, lo, hi, e))) in
    ground (
      arith,
      quiet 1 (omega arith) (omega arith),
      quiet 2 (omega arith) (omega arith),
      quiet 3 (omega arith) (omega arith),
      quiet 4 (omega arith) (omega arith),
      quiet 5 (omega arith) (omega arith),
    )

-- The process that executes after n switches.
abbrev pub turn : (ℕ → Pcb) → ℕ → ℕ → ℕ
turn table curr zero = curr
turn table curr (suc n) = turn table (get_next_pcb table curr) n

reaches :
    (table : ℕ → Pcb) (p b curr : ℕ)
    → curr < max_processes
    → p < max_processes
    → can_run (table p) ≡ true
    → distance curr p ≤ b
    → (n : ℕ) × (n ≤ b) × (turn table curr n ≡ p)
reaches table p zero curr hc hp run near = (0, omega arith, omega (arith, near))
reaches table p (suc b) curr hc hp run near = elim (ℕ_discrete p curr) [
  | yes here ↦ (0, omega arith, sym here)
  | no ne ↦
      let (ok, other, closer) = get_next_pcb_fair table curr p hc hp ne run in
      let next = get_next_pcb table curr in
      let (n, bound, at) =
        reaches table p b next (get_next_pcb_bound table curr hc) hp run
          (omega (arith, closer, near)) in
      (suc n, omega (arith, bound), at)
]

-- While no process changes whether it can run, every process that can run executes after at most
-- five switches that get_next_pcb chooses.
pub get_next_pcb_reaches :
    (table : ℕ → Pcb) (curr p : ℕ)
    → curr < max_processes
    → p < max_processes
    → can_run (table p) ≡ true
    → (n : ℕ) × (n < max_processes) × (turn table curr n ≡ p)
get_next_pcb_reaches table curr p hc hp run =
    let (n, bound, at) = reaches table p (distance curr p) curr hc hp run (omega arith) in
    (n, omega (arith, bound), at)
