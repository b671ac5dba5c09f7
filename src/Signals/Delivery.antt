-- ===== src/Signals/Delivery.antt =====
-- The delivery of a signal on the user stack, and the return from its handler, of
-- student-distrib/signal.c. The memory is the one that user pointers address.
use loli_os.Prelude.{
  ℕ, ◌+◌, ◌-◌, ◌^◌, bit_and, bit_or, none, some, List, [], ◌∷◌, leb, if◌then◌else◌, length, ℤ, pos,
  negsuc, minus_one, add_u32, sub_u32, to_i32,
}
use loli_os.Memory.{copy_to_user, copy_from_user}
use loli_os.Memory.Bytes.{Mem}
use loli_os.Memory.Words.{of_list, word_bytes}
use loli_os.Regs.{IntRegs, regs_bytes, regs_of_bytes}
use loli_os.Signals.{Signal, num_signals, modify, start_handler, unmask}

-- USER_CS, USER_DS, EFLAGS_USER, EFLAGS_DF and SYS_SIGRETURN.
abbrev pub user_cs : ℕ
user_cs = 0x23

abbrev pub user_ds : ℕ
user_ds = 0x2B

abbrev pub eflags_user : ℕ
eflags_user = 0xDD5

abbrev pub eflags_df : ℕ
eflags_df = 0x400

abbrev pub sys_sigreturn : ℕ
sys_sigreturn = 10

-- The array `shellcode`, before its operands are filled in.
abbrev pub shellcode : List ℕ
shellcode =
    0xB8 ∷ 0xAA ∷ 0xAA ∷ 0xAA ∷ 0xAA ∷ 0xBB ∷ 0xBB ∷ 0xBB ∷ 0xBB ∷ 0xBB ∷ 0xB9 ∷ 0xCC ∷ 0xCC ∷ 0xCC
    ∷ 0xCC ∷ 0xCD ∷ 0x80 ∷ 0x90 ∷ 0x90 ∷ 0x90 ∷ []

-- A step that may fail, and then leaves a memory that has been written in part.
pub data Attempt : Type 0 where
  refused : Mem → Attempt
  stacked : Mem → Attempt

infixl 5 ◌>>=◌
abbrev pub ◌>>=◌ : Attempt → (Mem → Attempt) → Attempt
refused m >>= f = refused m
stacked m >>= f = f m

-- `copy_to_user(esp, object, sizeof(object))`, for an object whose bytes are given.
unfoldable pub push : Mem → ℕ → List ℕ → Attempt
unfolding copy_to_user
push m esp bs = elim (copy_to_user m esp (of_list bs) (pos (length bs))) [
  | none ↦ refused m
  | some m' ↦ stacked m'
]

-- `copy_to_user(addr, object, 4)` whose result is ignored.
unfoldable pub patch : Mem → ℕ → Mem → Mem
unfolding copy_to_user
patch m addr object = elim (copy_to_user m addr object (pos 4)) [ none ↦ m | some m' ↦ m' ]

-- The three operands of the shellcode. The second is read from the user stack.
unfoldable pub fill_operands : Mem → ℕ → ℕ → ℕ → Mem
unfolding patch
fill_operands m linkage_addr intregs_addr signum_addr =
    let numbered = patch m (add_u32 linkage_addr 1) (of_list (word_bytes sys_sigreturn)) in
    let signalled = patch numbered (add_u32 linkage_addr 6) (λ i. numbered (signum_addr + i)) in
    patch signalled (add_u32 linkage_addr 11) (of_list (word_bytes intregs_addr))

-- What signal_deliver writes on the user stack that ends at `top`: from the top down, the shellcode,
-- the registers, the signal number and the address of the shellcode.
unfoldable pub push_context : Mem → Signal → IntRegs → ℕ → Attempt
unfolding push fill_operands
push_context m s regs top =
    let linkage_addr = sub_u32 top 20 in
    let intregs_addr = sub_u32 linkage_addr 80 in
    let signum_addr = sub_u32 intregs_addr 4 in
    let esp = sub_u32 signum_addr 4 in
    push m linkage_addr shellcode >>= λ m1. push m1 intregs_addr (regs_bytes regs) >>= λ m2.
    push m2 signum_addr (word_bytes s.signum) >>= λ m3.
    push m3 esp (word_bytes linkage_addr) >>= λ m4.
    stacked (fill_operands m4 linkage_addr intregs_addr signum_addr)

-- The segment registers of user code.
abbrev pub user_segments : IntRegs → IntRegs
user_segments r = record r {
  cs = user_cs;
  ds = user_ds;
  es = user_ds;
  fs = user_ds;
  gs = user_ds;
  ss = user_ds;
}

-- The registers with which the handler starts.
abbrev pub enter_handler : IntRegs → Signal → ℕ → IntRegs
enter_handler r s esp = user_segments (record r {
  eip = s.handler_addr;
  esp = esp;
  eflags = bit_and r.eflags (2 ^ 32 - 1 - eflags_df);
})

-- What signal_deliver leaves: the memory, and, where it succeeds, the signal and the registers.
pub data Delivery : Type 0 where
  failed : Mem → Delivery
  delivered : Mem → Signal → IntRegs → Delivery

-- signal_deliver.
unfoldable pub deliver : Mem → Signal → IntRegs → Delivery
unfolding push_context
deliver m s regs = elim (push_context m s regs regs.esp) [
  | refused m' ↦ failed m'
  | stacked m' ↦ delivered m' (start_handler s) (enter_handler regs s (sub_u32 regs.esp 108))
]

-- The registers that signal_sigreturn restores: those of the user, where the kernel's are `k`, with
-- the privileged flags of the kernel.
abbrev pub restore_regs : IntRegs → IntRegs → IntRegs
restore_regs r k = user_segments (record r {
  eflags = bit_or (bit_and k.eflags (2 ^ 32 - 1 - eflags_user)) (bit_and r.eflags eflags_user);
})

-- signal_sigreturn: its result, the signals and the registers.
unfoldable pub sigreturn : Mem → List Signal → ℤ → ℕ → IntRegs → ℤ × List Signal × IntRegs
unfolding copy_from_user modify regs_of_bytes
sigreturn m ss (negsuc n) user_regs k = (minus_one, ss, k)
sigreturn m ss (pos i) user_regs k =
    if leb num_signals i then (minus_one, ss, k) else elim (copy_from_user m user_regs (pos 80)) [
      | none ↦ (minus_one, ss, k)
      | some bs ↦ let r = restore_regs (regs_of_bytes bs) k in (to_i32 r.eax, modify ss i unmask, r)
    ]
