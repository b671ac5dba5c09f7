-- ===== src/Syscalls/Writing.antt =====
-- The system call write to the terminal, from the interrupt to the return to user code.
use loli_os.Prelude.{
  ℕ, ◌%◌, ◌^◌, ◌<◌, ◌≡◌, refl, ap, ◌∙◌, inl, inr, true, false, Option, some, arith, ◌==◌,
  if◌then◌else◌, ==_iff, Bool-cases, pos, to_i32,
}
use loli_os.Memory.Access.{InUserPage}
use loli_os.Memory.Bytes.{bytes}
use loli_os.FileObj.{fops_stdout}
use loli_os.Regs.{IntRegs}
use loli_os.Signals.Delivery.{user_cs}
use loli_os.Signals.Handling.{nothing}
use loli_os.Signals.Pending.{any_pending}
use loli_os.Terminal.{num_terminals}
use loli_os.Terminal.Pages.{Page}
use loli_os.Terminal.Screen.{Shows}
use loli_os.Terminal.Reads.Writing.{show_chars, Stays}
use loli_os.File.{max_files}
use loli_os.File.Transfer.{file_write}
use loli_os.File.Writing.{BelowUser, Wrote, file_write-Wrote}
use loli_os.Process.Context.{Kernel}
use loli_os.Interrupts.{idt_handle_interrupt, int_syscall}
use loli_os.Syscalls.{
  World, returned, returning, on_terminal, syscall_handle, set_eax, handle_syscall,
  syscall_interrupt, sys_write,
}
use loli_os.Syscalls.Reading.{signed, settled, handle_signals_quiet, idt_handle_interrupt_call}

syscall_handle_write :
    (w : World) (k : Kernel) (curr t a b c : ℕ) (regs : IntRegs)
    → (k.table curr).terminal ≡ pos t
    → syscall_handle w k curr a b c regs 4
      ≡ returning regs (file_write k curr t (to_i32 a) b (to_i32 c))
unfolding syscall_handle
syscall_handle_write w k curr t a b c regs on =
    ap (λ p. on_terminal p (λ i. returning regs (file_write k curr i (to_i32 a) b (to_i32 c)))) on

handle_syscall_write :
    (w : World) (k k' : Kernel) (curr t fd buf n : ℕ) (regs : IntRegs)
    → (k.table curr).terminal ≡ pos t
    → regs.eax ≡ sys_write
    → regs.ebx ≡ fd
    → regs.ecx ≡ buf
    → regs.edx ≡ n
    → fd < max_files
    → n < 2 ^ 31
    → file_write k curr t (pos fd) buf (pos n) ≡ some (pos n, k')
    → handle_syscall w k curr regs ≡ some (returned (pos n) k' (record regs { eax = n }))
unfolding handle_syscall
handle_syscall_write w k k' curr t fd buf n regs on eax ebx ecx edx hf hn done =
    let call : syscall_handle w k curr regs.ebx regs.ecx regs.edx regs regs.eax
        ≡ some (returned (pos n) k' regs) =
      ap (λ a. syscall_handle w k curr a regs.ecx regs.edx regs regs.eax) ebx
      ∙ ap (λ b. syscall_handle w k curr fd b regs.edx regs regs.eax) ecx
      ∙ ap (λ d. syscall_handle w k curr fd buf d regs regs.eax) edx
      ∙ ap (syscall_handle w k curr fd buf n regs) eax
      ∙ syscall_handle_write w k curr t fd buf n regs on
      ∙ ap (λ x. returning regs (file_write k curr t x buf (to_i32 n)))
          (signed fd (omega (arith, hf)))
      ∙ ap (λ x. returning regs (file_write k curr t (pos fd) buf x)) (signed n hn)
      ∙ ap (returning regs) done in
    let small : n % 2 ^ 32 ≡ n = omega (arith, hn) in
    ap set_eax call ∙ ap (λ v. some (returned (pos n) k' (record regs { eax = v }))) small

settled-Wrote :
    (k k' : Kernel) (curr i : ℕ) (g : Page)
    → Wrote k k' i g
    → Wrote k (settled k' curr (k'.table curr).signals) i g
settled-Wrote k k' curr i g a = record {
  printed = a.printed;
  table = λ j. same_table j ∙ a.table j;
  pages = λ j. same_pages j ∙ a.pages j;
}
  where
    same_table : (j : ℕ) → (if curr == j then k'.table curr else k'.table j) ≡ k'.table j
    same_table j = elim (Bool-cases (curr == j)) [
      | inl e ↦ rw e (ap k'.table ((==_iff curr j).0 e))
      | inr e ↦ rw e refl
    ]

    same_pages : (j : ℕ) → (if curr == j then k'.pages curr else k'.pages j) ≡ k'.pages j
    same_pages j = elim (Bool-cases (curr == j)) [
      | inl e ↦ rw e (ap k'.pages ((==_iff curr j).0 e))
      | inr e ↦ rw e refl
    ]

-- For a process without pending signals that makes the system call write in user code, with a
-- valid descriptor of the terminal's output, and a buffer of n bytes in the user page whose
-- characters stay on the page that its terminal shows: the interrupt returns to it with n in EAX
-- and the other registers as they were; the terminal shows the page with the characters printed,
-- and nothing else has changed in the memory of the console, in the other terminals, and in the
-- processes, their descriptors and their memory.
pub idt_handle_interrupt-write :
    (irq : ℕ → Kernel → Option Kernel) (w : World) (k : Kernel) (curr t d fd buf n : ℕ) (g : Page)
    (regs : IntRegs)
    → regs.cs ≡ user_cs
    → regs.int_num ≡ int_syscall
    → regs.eax ≡ sys_write
    → regs.ebx ≡ fd
    → regs.ecx ≡ buf
    → regs.edx ≡ n
    → (k.table curr).terminal ≡ pos t
    → any_pending (k.table curr).signals ≡ false
    → fd < max_files
    → ((k.table curr).files fd).valid ≡ true
    → ((k.table curr).files fd).ops_table ≡ fops_stdout
    → k.console.display_terminal ≡ pos d
    → d < num_terminals
    → BelowUser (k.console.states t)
    → Shows k.console.mem (k.console.states t) g
    → buf < 2 ^ 32
    → n < 2 ^ 31
    → InUserPage buf n
    → Stays g (bytes (k.pages curr) buf n)
    → (k' : Kernel) × (idt_handle_interrupt irq (syscall_interrupt w curr) k curr regs
        ≡ some (nothing, k', record regs { eax = n }))
      × Wrote k k' t (show_chars g (bytes (k.pages curr) buf n))
idt_handle_interrupt-write irq w k curr t d fd buf n g regs cs num eax ebx ecx edx on quiet hf valid
      ops display hd below shown hb hn page stays =
    let (k1, done, wrote) =
      file_write-Wrote k curr d t fd buf n g hf valid ops display hd below shown hb hn page stays in
    let regs' : IntRegs = record regs { eax = n } in
    let call = handle_syscall_write w k k1 curr t fd buf n regs on eax ebx ecx edx hf hn done in
    let still : (k1.table curr).signals ≡ (k.table curr).signals =
      ap (λ p. p.signals) (wrote.table curr) in
    (
      settled k1 curr (k1.table curr).signals,
      idt_handle_interrupt_call irq w k k1 curr regs regs' (pos n) num call
          ∙ ap some (handle_signals_quiet k1 curr regs' cs (ap any_pending still ∙ quiet)),
      settled-Wrote k k1 curr t (show_chars g (bytes (k.pages curr) buf n)) wrote,
    )
