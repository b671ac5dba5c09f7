-- ===== src/Syscalls/Reading.antt =====
-- The system call read from the interrupt to the return to user code.
use loli_os.Prelude.{
  ℕ, ◌%◌, ◌^◌, ◌≤◌, ◌<◌, min, ◌≡◌, refl, ap, ◌∙◌, Bool, true, false, ◌&&◌, ◌||◌, Option, some, List,
  [], ◌∷◌, arith, ltb, leb, ◌==◌, if◌then◌else◌, ℤ, pos, to_i32,
}
use loli_os.Memory.Access.{InUserPage}
use loli_os.Memory.Bytes.{Mem}
use loli_os.Regs.{IntRegs}
use loli_os.Signals.{Signal}
use loli_os.Signals.Delivery.{user_cs}
use loli_os.Signals.Handling.{nothing, handle_all}
use loli_os.Signals.Pending.{any_pending}
use loli_os.FileObj.{fops_file}
use loli_os.FileSystem.{Image}
use loli_os.FileSystem.Reads.{IsOpenFile, left}
use loli_os.File.{max_files}
use loli_os.File.Transfer.{file_read}
use loli_os.File.Reading.{Advanced, file_read-Advanced}
use loli_os.Process.Context.{Kernel}
use loli_os.Interrupts.{
  handle_signals, idt_handle_interrupt, int_syscall, num_exc, int_irq0, int_irq15,
}
use loli_os.Syscalls.{
  World, returned, returning, on_terminal, syscall_handle, set_eax, handle_syscall,
  syscall_interrupt, sys_read,
}

both_false : (a b : Bool) → (a || b) ≡ false → (a ≡ false) × (b ≡ false)
both_false true b e = absurd (ground (arith, e))
both_false false b e = (refl, e)

-- Without pending signals there is nothing to handle.
handle_all_quiet :
    (m : Mem) (regs : IntRegs) (ss : List Signal)
    → any_pending ss ≡ false
    → handle_all m regs ss ≡ record { action = nothing; mem = m; signals = ss; regs = regs }
unfolding handle_all
handle_all_quiet m regs [] h = refl
handle_all_quiet m regs (s ∷ ss) h =
    let (first, rest) = both_false s.pending (any_pending ss) h in
    rw (handle_all, first, handle_all_quiet m regs ss rest) refl

-- The kernel after signals that need no handling.
abbrev pub settled : Kernel → ℕ → List Signal → Kernel
settled k curr ss =
    let p = k.table curr in
    let page = k.pages curr in
    record k {
      table = λ j. if curr == j then record p { signals = ss } else k.table j;
      pages = λ j. if curr == j then page else k.pages j;
    }

pub handle_signals_quiet :
    (k : Kernel) (curr : ℕ) (regs : IntRegs)
    → regs.cs ≡ user_cs
    → any_pending (k.table curr).signals ≡ false
    → handle_signals k curr regs ≡ (nothing, settled k curr (k.table curr).signals, regs)
unfolding handle_signals
handle_signals_quiet k curr regs cs quiet =
    let user : (regs.cs == user_cs) ≡ true = ground (arith, cs) in
    rw (handle_signals, user, handle_all_quiet (k.pages curr) regs (k.table curr).signals quiet)
      refl

settled-Advanced :
    (fs : Image) (k k' : Kernel) (curr fd buf c : ℕ) (ss : List Signal)
    → ss ≡ (k.table curr).signals
    → Advanced fs k k' curr fd buf c
    → Advanced fs k (settled k' curr ss) curr fd buf c
settled-Advanced fs k k' curr fd buf c ss e a =
    let self : (curr == curr) ≡ true = ground arith in
    record {
      signals = rw self e;
      page = rw self a.page;
      file = rw self a.file;
      others = λ j ne. rw self (a.others j ne);
      processes = λ j ne.
          let other : (curr == j) ≡ false = ground (arith, ne) in rw other (a.processes j ne);
      pages =
          λ j ne. let other : (curr == j) ≡ false = ground (arith, ne) in rw other (a.pages j ne);
      console = a.console;
    }

syscall_handle_read :
    (w : World) (k : Kernel) (curr t a b c : ℕ) (regs : IntRegs)
    → (k.table curr).terminal ≡ pos t
    → syscall_handle w k curr a b c regs 3
      ≡ returning regs (file_read w.fs w.looks k curr t (to_i32 a) b (to_i32 c))
unfolding syscall_handle
syscall_handle_read w k curr t a b c regs on =
    ap
      (λ p.
        on_terminal p
          (λ i. returning regs (file_read w.fs w.looks k curr i (to_i32 a) b (to_i32 c))))
      on

pub signed : (n : ℕ) → n < 2 ^ 31 → to_i32 n ≡ pos n
signed n h = ground (arith, h)

-- A read of a file from user code, through the interrupt.
handle_syscall_read :
    (w : World) (k k' : Kernel) (curr t fd buf n c : ℕ) (regs : IntRegs)
    → (k.table curr).terminal ≡ pos t
    → regs.eax ≡ sys_read
    → regs.ebx ≡ fd
    → regs.ecx ≡ buf
    → regs.edx ≡ n
    → fd < max_files
    → n < 2 ^ 31
    → c ≤ n
    → file_read w.fs w.looks k curr t (pos fd) buf (pos n) ≡ some (pos c, k')
    → handle_syscall w k curr regs ≡ some (returned (pos c) k' (record regs { eax = c }))
unfolding handle_syscall
handle_syscall_read w k k' curr t fd buf n c regs on eax ebx ecx edx hf hn hc done =
    let call : syscall_handle w k curr regs.ebx regs.ecx regs.edx regs regs.eax
        ≡ some (returned (pos c) k' regs) =
      ap (λ a. syscall_handle w k curr a regs.ecx regs.edx regs regs.eax) ebx
      ∙ ap (λ b. syscall_handle w k curr fd b regs.edx regs regs.eax) ecx
      ∙ ap (λ d. syscall_handle w k curr fd buf d regs regs.eax) edx
      ∙ ap (syscall_handle w k curr fd buf n regs) eax
      ∙ syscall_handle_read w k curr t fd buf n regs on
      ∙ ap (λ x. returning regs (file_read w.fs w.looks k curr t x buf (to_i32 n)))
          (signed fd (omega (arith, hf)))
      ∙ ap (λ x. returning regs (file_read w.fs w.looks k curr t (pos fd) buf x)) (signed n hn)
      ∙ ap (returning regs) done in
    let small : c % 2 ^ 32 ≡ c = omega (arith, hn, hc) in
    ap set_eax call ∙ ap (λ v. some (returned (pos c) k' (record regs { eax = v }))) small

-- A system call that returns, from the interrupt on.
pub idt_handle_interrupt_call :
    (irq : ℕ → Kernel → Option Kernel) (w : World) (k k' : Kernel) (curr : ℕ) (regs regs' : IntRegs)
    (value : ℤ)
    → regs.int_num ≡ int_syscall
    → handle_syscall w k curr regs ≡ some (returned value k' regs')
    → idt_handle_interrupt irq (syscall_interrupt w curr) k curr regs
      ≡ some (handle_signals k' curr regs')
unfolding idt_handle_interrupt syscall_interrupt
idt_handle_interrupt_call irq w k k' curr regs regs' value num done =
    let no_exception : ltb regs.int_num num_exc ≡ false = ground (arith, num) in
    let no_line : (leb int_irq0 regs.int_num && leb regs.int_num int_irq15) ≡ false =
      ground (arith, num) in
    let call : (regs.int_num == int_syscall) ≡ true = ground (arith, num) in
    rw (no_exception, no_line, call, done) refl

-- For a process without pending signals that makes the system call read in user code, with a valid
-- descriptor of a regular file whose offset is inside of it, and a buffer in the user page: the
-- interrupt returns to it with the number of bytes in EAX and the other registers as they were;
-- that many bytes, as many as are asked for and left, stand in the buffer, the offset is behind
-- them, and no other descriptor, process or page has changed.
pub idt_handle_interrupt-read :
    (irq : ℕ → Kernel → Option Kernel) (w : World) (k : Kernel) (curr t fd buf n : ℕ)
    (regs : IntRegs)
    → regs.cs ≡ user_cs
    → regs.int_num ≡ int_syscall
    → regs.eax ≡ sys_read
    → regs.ebx ≡ fd
    → regs.ecx ≡ buf
    → regs.edx ≡ n
    → (k.table curr).terminal ≡ pos t
    → any_pending (k.table curr).signals ≡ false
    → fd < max_files
    → ((k.table curr).files fd).valid ≡ true
    → ((k.table curr).files fd).ops_table ≡ fops_file
    → IsOpenFile w.fs ((k.table curr).files fd)
    → buf < 2 ^ 32
    → n < 2 ^ 31
    → InUserPage buf n
    → (let c = min n (left w.fs ((k.table curr).files fd)) in
        (k' : Kernel) × (idt_handle_interrupt irq (syscall_interrupt w curr) k curr regs
          ≡ some (nothing, k', record regs { eax = c }))
        × Advanced w.fs k k' curr fd buf c)
idt_handle_interrupt-read irq w k curr t fd buf n regs cs num eax ebx ecx edx on quiet hf valid ops
      ready hb hn page =
    let c = min n (left w.fs ((k.table curr).files fd)) in
    let (k1, done, advanced) =
      file_read-Advanced w.fs w.looks k curr t fd buf n hf valid ops ready hb hn page in
    let regs' : IntRegs = record regs { eax = c } in
    let call =
      handle_syscall_read w k k1 curr t fd buf n c regs on eax ebx ecx edx hf hn (omega arith)
        done in
    let still : (k1.table curr).signals ≡ (k.table curr).signals = advanced.signals in
    (
      settled k1 curr (k1.table curr).signals,
      idt_handle_interrupt_call irq w k k1 curr regs regs' (pos c) num call
          ∙ ap some (handle_signals_quiet k1 curr regs' cs (ap any_pending still ∙ quiet)),
      settled-Advanced w.fs k k1 curr fd buf c (k1.table curr).signals still advanced,
    )
