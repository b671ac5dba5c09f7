-- ===== src/Interrupts/Gates/Filled.antt =====
-- What idt_init of student-distrib/idt.c leaves in the interrupt descriptor table.
use loli_os.Prelude.{
  ℕ, zero, suc, ◌+◌, ◌-◌, ◌*◌, ◌^◌, ◌≤◌, ◌<◌, ◌≡◌, refl, sym, ap, subst, ◌∙◌, ◌≢◌, ◌⊎◌, inl, inr,
  Option, none, some, arith, dec_lt, ℕ_discrete, ltb, leb, ◌==◌, if◌then◌else◌,
}
use loli_os.Interrupts.{num_exc, int_irq0, int_irq15, int_syscall}
use loli_os.Interrupts.Gates.{
  Gate, Thunk, exc, irq, syscall, unknown, num_vec, kernel_cs, exc_xf, set_idt_entry, desc, each,
  idt_init,
}

each_out :
    (f : ℕ → Gate → Gate) (i n : ℕ) (idt : ℕ → Gate) (j : ℕ)
    → (j < i) ⊎ (i + n ≤ j)
    → each f i n idt j ≡ idt j
unfolding each
each_out f i zero idt j h = refl
each_out f i (suc n) idt j h =
    each_out f (suc i) n (λ j. if j == i then f i (idt i) else idt j) j (ground arith)
    ∙ ground arith

changed : (ℕ → Gate → Gate) → ℕ → (ℕ → Gate) → ℕ → Gate
changed f i idt j = if j == i then f i (idt i) else idt j

changed_at :
    (f : ℕ → Gate → Gate) (i : ℕ) (idt : ℕ → Gate) (j : ℕ) → j ≡ i → changed f i idt j ≡ f j (idt j)
unfolding changed
changed_at f i idt j same = ground (arith, same)

changed_out :
    (f : ℕ → Gate → Gate) (i : ℕ) (idt : ℕ → Gate) (j : ℕ) → j ≢ i → changed f i idt j ≡ idt j
unfolding changed
changed_out f i idt j other = ground (arith, other)

each_at :
    (f : ℕ → Gate → Gate) (i n : ℕ) (idt : ℕ → Gate) (j : ℕ)
    → i ≤ j
    → j < i + n
    → each f i n idt j ≡ f j (idt j)
unfolding each changed
each_at f i zero idt j from to = absurd (omega (arith, from, to))
each_at f i (suc n) idt j from to = elim (ℕ_discrete j i) [
  | yes same ↦
      each_out f (suc i) n (changed f i idt) j (inl (omega (arith, same)))
      ∙ changed_at f i idt j same
  | no other ↦
      each_at f (suc i) n (changed f i idt) j (omega (arith, from, other)) (omega (arith, to))
      ∙ ap (f j) (changed_out f i idt j other)
]

-- The thunk that a vector should lead to. The vectors of the reserved exceptions lead nowhere.
abbrev pub thunk_of : ℕ → Option Thunk
thunk_of i =
    if i == int_syscall
    then some syscall
    else if leb i exc_xf
    then some (exc i)
    else if ltb i num_exc
    then none
    else if leb i int_irq15
    then some (irq (i - int_irq0))
    else some unknown

abbrev pub address : (Thunk → ℕ) → Option Thunk → ℕ
address thunk none = 0
address thunk (some t) = thunk t

-- A present gate of the kernel, which disables interrupts: the level that may use it, and where it
-- leads.
pub record IsGate (level target : ℕ) (g : Gate) : Type 0 where
  pub in_kernel : (g.present ≡ 1) × (g.seg_selector ≡ kernel_cs)
  pub is_interrupt_gate :
      (g.size ≡ 1) × (g.reserved0 ≡ 0) × (g.reserved1 ≡ 1) × (g.reserved2 ≡ 1) × (g.reserved3 ≡ 0)
  pub is_at_level : g.dpl ≡ level
  pub leads : g.offset_15_00 + 65536 * g.offset_31_16 ≡ target

set_idt_entry-IsGate :
    (level target : ℕ)
    → target < 2 ^ 32
    → IsGate level target (set_idt_entry (record desc { dpl = level }) target)
set_idt_entry-IsGate level target bound = record {
  in_kernel = (refl, refl);
  is_interrupt_gate = (refl, refl, refl, refl, refl);
  is_at_level = refl;
  leads = ground (arith, bound);
}

-- What idt_init leaves in each range of vectors.
init_exception :
    (thunk : Thunk → ℕ) (idt : ℕ → Gate) (i : ℕ)
    → i ≤ exc_xf
    → idt_init thunk idt i ≡ set_idt_entry desc (thunk (exc i))
unfolding idt_init
init_exception thunk idt i h =
    each_out _ int_syscall 1 _ i (inl (omega (arith, h)))
    ∙ each_out _ int_irq0 16 _ i (inl (omega (arith, h)))
    ∙ each_out _ num_exc 224 _ i (inl (omega (arith, h)))
    ∙ each_at _ 0 20 _ i (omega arith) (omega (arith, h))
    ∙ ap (λ g. set_idt_entry g (thunk (exc i)))
        (each_at _ 0 32 idt i (omega arith) (omega (arith, h)))

init_reserved :
    (thunk : Thunk → ℕ) (idt : ℕ → Gate) (i : ℕ)
    → exc_xf < i
    → i < num_exc
    → idt_init thunk idt i ≡ set_idt_entry desc 0
unfolding idt_init
init_reserved thunk idt i l h =
    each_out _ int_syscall 1 _ i (inl (omega (arith, h)))
    ∙ each_out _ int_irq0 16 _ i (inl (omega (arith, h)))
    ∙ each_out _ num_exc 224 _ i (inl (omega (arith, h)))
    ∙ each_out _ 0 20 _ i (inr (omega (arith, l)))
    ∙ each_at _ 0 32 idt i (omega arith) (omega (arith, h))

init_line :
    (thunk : Thunk → ℕ) (idt : ℕ → Gate) (i : ℕ)
    → num_exc ≤ i
    → i ≤ int_irq15
    → idt_init thunk idt i ≡ set_idt_entry desc (thunk (irq (i - int_irq0)))
unfolding idt_init
init_line thunk idt i l h =
    each_out _ int_syscall 1 _ i (inl (omega (arith, h)))
    ∙ each_at _ int_irq0 16 _ i (omega (arith, l)) (omega (arith, h))
    ∙ ap (λ g. set_idt_entry g (thunk (irq (i - int_irq0))))
        (each_at _ num_exc 224 _ i (omega (arith, l)) (omega (arith, h)))

init_unknown :
    (thunk : Thunk → ℕ) (idt : ℕ → Gate) (i : ℕ)
    → int_irq15 < i
    → i < num_vec
    → i ≢ int_syscall
    → idt_init thunk idt i ≡ set_idt_entry desc (thunk unknown)
unfolding idt_init
init_unknown thunk idt i l h other =
    each_out _ int_syscall 1 _ i (ground (arith, other))
    ∙ each_out _ int_irq0 16 _ i (inr (omega (arith, l)))
    ∙ each_at _ num_exc 224 _ i (omega (arith, l)) (omega (arith, h))

init_syscall :
    (thunk : Thunk → ℕ) (idt : ℕ → Gate)
    → idt_init thunk idt int_syscall ≡ set_idt_entry (record desc { dpl = 3 }) (thunk syscall)
unfolding idt_init
init_syscall thunk idt =
    each_at _ int_syscall 1 _ int_syscall (omega arith) (omega arith)
    ∙ ap (λ g. set_idt_entry (record g { dpl = 3 }) (thunk syscall))
        (each_out _ int_irq0 16 _ int_syscall (inr (omega arith))
          ∙ each_at _ num_exc 224 _ int_syscall (omega arith) (omega arith))

-- A gate that idt_init has set to a level and a target, for the level and the target that it should
-- have.
IsGate-from :
    (level target : ℕ) {level' target' : ℕ} {g : Gate}
    → target < 2 ^ 32
    → level' ≡ level
    → target' ≡ target
    → g ≡ set_idt_entry (record desc { dpl = level }) target
    → IsGate level' target' g
IsGate-from level target {level'} {target'} {g} bound l t e =
    subst (λ x. IsGate x target' g) (sym l)
      (subst (λ x. IsGate level x g) (sym t)
        (subst (λ x. IsGate level target x) (sym e) (set_idt_entry-IsGate level target bound)))

-- For thunks at 32-bit addresses, idt_init makes each of the 256 vectors a present gate of the
-- kernel that disables interrupts; only the gate of the system calls may be used from user mode,
-- and each vector leads to the thunk of its exception, of its line, of the system calls or of the
-- unknown interrupts, but for the reserved exceptions from 20 to 31, which lead to the address 0.
pub idt_init-IsGate :
    (thunk : Thunk → ℕ) (idt : ℕ → Gate) (i : ℕ)
    → ((t : Thunk) → thunk t < 2 ^ 32)
    → i < num_vec
    → IsGate (if i == int_syscall then 3 else 0) (address thunk (thunk_of i)) (idt_init thunk idt i)
idt_init-IsGate thunk idt i bound h = elim (ℕ_discrete i int_syscall) [
  | yes same ↦
      IsGate-from 3 (thunk syscall) (bound syscall) (ground (arith, same)) (ground (arith, same))
        (ap (idt_init thunk idt) same ∙ init_syscall thunk idt)
  | no other ↦ elim (dec_lt i 20) [
    | yes below ↦
        IsGate-from 0 (thunk (exc i)) (bound (exc i)) (ground (arith, other))
          (ground (arith, below)) (init_exception thunk idt i (omega (arith, below)))
    | no above ↦ elim (dec_lt i 32) [
      | yes below ↦
          IsGate-from 0 0 (omega arith) (ground (arith, other)) (ground (arith, above, below))
            (init_reserved thunk idt i (omega (arith, above)) below)
      | no from ↦ elim (dec_lt i 48) [
        | yes below ↦
            IsGate-from 0 (thunk (irq (i - int_irq0))) (bound (irq (i - int_irq0)))
              (ground (arith, other)) (ground (arith, from, below))
              (init_line thunk idt i (omega (arith, from)) (omega (arith, below)))
        | no rest ↦
            IsGate-from 0 (thunk unknown) (bound unknown) (ground (arith, other))
              (ground (arith, rest)) (init_unknown thunk idt i (omega (arith, rest)) h other)
      ]
    ]
  ]
]
