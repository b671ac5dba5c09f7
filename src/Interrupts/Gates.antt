-- ===== src/Interrupts/Gates.antt =====
-- The interrupt descriptor table that idt_init of student-distrib/idt.c fills, with idt_desc_t of
-- student-distrib/x86_desc.h as a record. The addresses of the assembly thunks are a parameter, and the
-- instruction that loads the table is left out.
pub mod Filled
use loli_os.Prelude.{ℕ, zero, suc, ◌+◌, ◌-◌, ◌/◌, ◌%◌, ◌^◌, ◌==◌, if◌then◌else◌}
use loli_os.Interrupts.{num_exc, int_irq0, int_irq15, int_syscall}

-- idt_desc_t.
pub record Gate : Type 0 where
  pub offset_15_00 : ℕ
  pub seg_selector : ℕ
  pub reserved4 : ℕ
  pub reserved3 : ℕ
  pub reserved2 : ℕ
  pub reserved1 : ℕ
  pub size : ℕ
  pub reserved0 : ℕ
  pub dpl : ℕ
  pub present : ℕ
  pub offset_31_16 : ℕ

-- The thunks: of an exception, of an interrupt line, of the system calls, and of the other vectors.
pub data Thunk : Type 0 where
  exc : ℕ → Thunk
  irq : ℕ → Thunk
  syscall : Thunk
  unknown : Thunk

-- NUM_VEC and KERNEL_CS.
abbrev pub num_vec : ℕ
num_vec = 256

abbrev pub kernel_cs : ℕ
kernel_cs = 0x0010

-- EXC_XF, the last exception with a thunk.
abbrev pub exc_xf : ℕ
exc_xf = 19

-- SET_IDT_ENTRY.
abbrev pub set_idt_entry : Gate → ℕ → Gate
set_idt_entry g handler = record g {
  offset_31_16 = handler / 2 ^ 16 % 2 ^ 16;
  offset_15_00 = handler % 2 ^ 16;
}

-- The template of idt_init, with the bit that it clears before both loops.
abbrev pub desc : Gate
desc = record {
  offset_15_00 = 0;
  seg_selector = kernel_cs;
  reserved4 = 0;
  reserved3 = 0;
  reserved2 = 1;
  reserved1 = 1;
  size = 1;
  reserved0 = 0;
  dpl = 0;
  present = 1;
  offset_31_16 = 0;
}

-- The entries from i on, n of them, each changed in turn.
each : (ℕ → Gate → Gate) → ℕ → ℕ → (ℕ → Gate) → ℕ → Gate
each f i zero idt = idt
each f i (suc n) idt = each f (suc i) n (λ j. if j == i then f i (idt i) else idt j)

-- idt_init.
pub idt_init : (Thunk → ℕ) → (ℕ → Gate) → ℕ → Gate
idt_init thunk idt =
    let trap_gates = each (λ i g. desc) 0 num_exc idt in
    let exceptions = each (λ i g. set_idt_entry g (thunk (exc i))) 0 (exc_xf + 1) trap_gates in
    let gates =
      each (λ i g. set_idt_entry desc (thunk unknown)) num_exc (num_vec - num_exc) exceptions in
    let lines =
      each (λ i g. set_idt_entry g (thunk (irq (i - int_irq0)))) int_irq0 (int_irq15 + 1 - int_irq0)
        gates in
    each (λ i g. set_idt_entry (record g { dpl = 3 }) (thunk syscall)) int_syscall 1 lines
