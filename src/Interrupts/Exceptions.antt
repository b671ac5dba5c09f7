-- ===== src/Interrupts/Exceptions.antt =====
-- What an exception in user code comes to, of student-distrib/idt.c and signal.c.
use loli_os.Prelude.{
  ℕ, ◌^◌, ◌<◌, ◌≡◌, refl, sym, ap, subst, ◌∙◌, ◌≢◌, ◌⊎◌, inl, inr, true, false, Option, some, List,
  [], ◌∷◌, arith, ltb, ◌==◌, if◌then◌else◌, pos,
}
use loli_os.Regs.{IntRegs}
use loli_os.Signals.{Signal, raise, modify, has_handler}
use loli_os.Signals.Delivery.{user_cs}
use loli_os.Signals.Handling.{Action, run_handler, halt, AllHandled, handle_all}
use loli_os.Signals.Starting.{has_room, StartsHandler}
use loli_os.Signals.Acting.{
  first_acting, settled, masked, as_it_was, Acted, nothing_acts, handler_starts, no_room,
  default_halts, handle_all-Acted,
}
use loli_os.Process.{Pcb, max_processes, get_pcb_by_pid, found, update}
use loli_os.Process.Context.{Kernel}
use loli_os.Process.Table.{known_parent}
use loli_os.Process.Execution.Creation.{bind_holds}
use loli_os.Interrupts.{
  raise_at, signal_raise, num_exc, handle_user_exception, handle_exception, handle_signals,
  idt_handle_interrupt,
}

-- The signal of an exception.
abbrev pub exception_signal : ℕ → ℕ
exception_signal int_num = if int_num == 0 then 0 else 1

-- A signal that is neither pending nor masked, and one that is raised.
abbrev pub quiet_signal : (ℕ → ℕ) → ℕ → Signal
quiet_signal h i = record { signum = i; handler_addr = h i; masked = false; pending = false }

abbrev pub raised_signal : (ℕ → ℕ) → ℕ → Signal
raised_signal h i = record { signum = i; handler_addr = h i; masked = false; pending = true }

-- The signals of a process of which none is pending or masked, with a handler for each.
abbrev pub quiet : (ℕ → ℕ) → List Signal
quiet h =
    quiet_signal h 0
    ∷ quiet_signal h 1
    ∷ quiet_signal h 2
    ∷ quiet_signal h 3
    ∷ quiet_signal h 4
    ∷ []

-- What the exception leaves of process `curr`, and of the rest.
pub data Excepted (k k' : Kernel) (curr : ℕ) (h : ℕ → ℕ) (s : ℕ) (regs regs' : IntRegs)
    (action : Action) : Type 0 where
  runs_handler :
      h s ≢ 0
      → has_room regs.esp ≡ true
      → action ≡ run_handler (h s)
      → StartsHandler (k.pages curr) (k'.pages curr) (raised_signal h s) regs regs'
      → (k'.table curr).signals ≡ modify (quiet h) s (λ t. record t { masked = true })
      → Excepted k k' curr h s regs regs' action
  stack_full :
      h s ≢ 0
      → has_room regs.esp ≡ false
      → action ≡ halt 256
      → regs' ≡ regs
      → (k'.table curr).signals ≡ raise (quiet h) s
      → Excepted k k' curr h s regs regs' action
  without_handler :
      h s ≡ 0
      → action ≡ halt 256
      → k'.pages curr ≡ k.pages curr
      → regs' ≡ regs
      → (k'.table curr).signals ≡ raise (quiet h) s
      → Excepted k k' curr h s regs regs' action

-- The entry of the process changes in its signals alone; the other processes, and the console, are as
-- before.
pub record OnlyProcess (k k' : Kernel) (curr : ℕ) : Type 0 where
  pub own : k'.table curr ≡ (let p = k.table curr in record p { signals = (k'.table curr).signals })
  pub table : (j : ℕ) → j ≢ curr → k'.table j ≡ k.table j
  pub pages : (j : ℕ) → j ≢ curr → k'.pages j ≡ k.pages j
  pub console : k'.console ≡ k.console

first_raised :
    (h : ℕ → ℕ) (s : ℕ)
    → (s ≡ 0) ⊎ (s ≡ 1)
    → first_acting (raise (quiet h) s) ≡ some (raised_signal h s)
unfolding raise modify
first_raised h s (inl e) = rw e (ground arith)
first_raised h s (inr e) = rw e (ground arith)

-- The signals once the one that was raised has been handled.
settled_raised :
    (h : ℕ → ℕ) (s : ℕ)
    → (s ≡ 0) ⊎ (s ≡ 1)
    → (settled masked (raise (quiet h) s) ≡ modify (quiet h) s (λ t. record t { masked = true }))
      × (settled as_it_was (raise (quiet h) s) ≡ raise (quiet h) s)
unfolding raise modify
settled_raised h s (inl e) = rw e (ground arith, ground arith)
settled_raised h s (inr e) = rw e (ground arith, ground arith)

same_signal : {s t : Signal} → some s ≡ some t → s ≡ t
same_signal e = cc

handler_set : (h : ℕ → ℕ) (s : ℕ) → has_handler (raised_signal h s) ≡ true → h s ≢ 0
handler_set h s e z = ground (arith, e, z)

no_handler_set : (h : ℕ → ℕ) (s : ℕ) → has_handler (raised_signal h s) ≡ false → h s ≡ 0
no_handler_set h s e = ground (arith, e)

default_status :
    (h : ℕ → ℕ) (s : ℕ) (t : Signal)
    → (s ≡ 0) ⊎ (s ≡ 1)
    → t ≡ raised_signal h s
    → halt (if t.signum == 2 then 130 else 256) ≡ halt 256
default_status h s t one e =
    let other : (s == 2) ≡ false = ground (arith, one) in
    ap (λ u. halt (if u.signum == 2 then 130 else 256)) e ∙ rw other refl

-- The table after the exception, whose signal has been raised.
raised_table : Kernel → ℕ → ℕ → Kernel
raised_table k curr int_num = raise_at k curr (exception_signal int_num)

handle_exception_user :
    (k : Kernel) (curr : ℕ) (regs : IntRegs)
    → curr < max_processes
    → (k.table curr).pid ≡ pos curr
    → regs.cs ≡ user_cs
    → handle_exception k curr regs ≡ some (raised_table k curr regs.int_num)
unfolding handle_exception handle_user_exception signal_raise raised_table
handle_exception_user k curr regs h pid cs =
    let user : (regs.cs == user_cs) ≡ true = ground (arith, cs) in
    let known : get_pcb_by_pid k.table (k.table curr).pid ≡ some (found curr) =
      known_parent k.table (k.table curr).pid curr pid h pid in
    rw (handle_exception, user, handle_user_exception, signal_raise, known) refl

-- The kernel that handle_signals leaves.
abbrev after_signals : Kernel → ℕ → AllHandled → Kernel
after_signals k curr done =
    let p = k.table curr in
    record k {
      table = update k.table curr (record p { signals = done.signals });
      pages = λ j. if curr == j then done.mem else k.pages j;
    }

handle_signals_user :
    (k : Kernel) (curr : ℕ) (regs : IntRegs)
    → regs.cs ≡ user_cs
    → (let done = handle_all (k.pages curr) regs (k.table curr).signals in
        handle_signals k curr regs ≡ (done.action, after_signals k curr done, done.regs))
unfolding handle_signals
handle_signals_user k curr regs cs =
    let user : (regs.cs == user_cs) ≡ true = ground (arith, cs) in rw (handle_signals, user) refl

idt_exception :
    (irq : ℕ → Kernel → Option Kernel) (syscall : IntRegs → Kernel → Option (IntRegs × Kernel))
    (k : Kernel) (curr : ℕ) (regs : IntRegs)
    → curr < max_processes
    → (k.table curr).pid ≡ pos curr
    → regs.cs ≡ user_cs
    → regs.int_num < 32
    → idt_handle_interrupt irq syscall k curr regs
      ≡ some (handle_signals (raised_table k curr regs.int_num) curr regs)
unfolding idt_handle_interrupt
idt_exception irq syscall k curr regs h pid cs small =
    let exception : ltb regs.int_num num_exc ≡ true = ground (arith, small) in
    rw (idt_handle_interrupt, exception)
      (bind_holds (λ o. o ≡ some (handle_signals (raised_table k curr regs.int_num) curr regs))
        (handle_exception k curr regs) _ (raised_table k curr regs.int_num)
        (handle_exception_user k curr regs h pid cs) refl)

own_entry : (table : ℕ → Pcb) (i : ℕ) (p : Pcb) → (update table i p i).signals ≡ p.signals
own_entry table i p = ground arith

same_pages :
    (k : Kernel) (curr int_num : ℕ) → (raised_table k curr int_num).pages curr ≡ k.pages curr
unfolding raised_table
same_pages k curr int_num = refl

raised_signals :
    (k : Kernel) (curr int_num : ℕ) (h : ℕ → ℕ)
    → (k.table curr).signals ≡ quiet h
    → ((raised_table k curr int_num).table curr).signals
      ≡ raise (quiet h) (exception_signal int_num)
unfolding raised_table
raised_signals k curr int_num h e =
    own_entry k.table curr _ ∙ ap (λ ss. raise ss (exception_signal int_num)) e

-- What signal_handle_all has done, for the process whose signals are handled.
Acted-Excepted :
    (k k1 : Kernel) (curr : ℕ) (h : ℕ → ℕ) (s : ℕ) (regs : IntRegs) (done : AllHandled)
    → (s ≡ 0) ⊎ (s ≡ 1)
    → Acted (k.pages curr) regs (raise (quiet h) s) done
    → Excepted k (after_signals k1 curr done) curr h s regs done.regs done.action
Acted-Excepted k k1 curr h s regs done one acted =
    let first = first_raised h s one in
    let (after_start, after_halt) = settled_raised h s one in
    let here : (after_signals k1 curr done).pages curr ≡ done.mem = ground arith in
    let signals : ((after_signals k1 curr done).table curr).signals ≡ done.signals =
      own_entry k1.table curr _ in
    elim acted [
      | nothing_acts none_acts a mem r l ↦ absurd (ground (arith, none_acts, first))
      | handler_starts t f has room a starts l ↦
          let e : t ≡ raised_signal h s = same_signal (sym f ∙ first) in
          runs_handler (handler_set h s (subst (λ u. has_handler u ≡ true) e has)) room
            (a ∙ ap (λ u. run_handler u.handler_addr) e)
            (subst (λ m. StartsHandler (k.pages curr) m (raised_signal h s) regs done.regs)
              (sym here)
              (subst (λ u. StartsHandler (k.pages curr) done.mem u regs done.regs) e starts))
            (signals ∙ l ∙ after_start)
      | no_room t f has full a r l ↦
          let e : t ≡ raised_signal h s = same_signal (sym f ∙ first) in
          stack_full (handler_set h s (subst (λ u. has_handler u ≡ true) e has)) full a r
            (signals ∙ l ∙ after_halt)
      | default_halts t f lacks a mem r l ↦
          let e : t ≡ raised_signal h s = same_signal (sym f ∙ first) in
          without_handler (no_handler_set h s (subst (λ u. has_handler u ≡ false) e lacks))
            (a ∙ default_status h s t one e) (here ∙ mem) r (signals ∙ l ∙ after_halt)
    ]

others_kept :
    (k : Kernel) (curr int_num : ℕ) (done : AllHandled)
    → OnlyProcess k (after_signals (raised_table k curr int_num) curr done) curr
unfolding raised_table
others_kept k curr int_num done = record {
  own = let self : (curr == curr) ≡ true = ground arith in rw self refl;
  table = λ j ne. ground (arith, ne);
  pages = λ j ne. ground (arith, ne);
  console = refl;
}

-- An exception in user code, with a 32-bit stack pointer, of a process that has neither a pending
-- nor a masked signal, raises the signal for a division by zero, or the one for a fault in every
-- other case. If the process has a handler for it and the user stack has room, the interrupt
-- returns to the handler with its registers, the context on the user stack and the signal masked;
-- otherwise the process halts with the status 256, the registers are unchanged and the signal
-- stays pending. Of the entry of the process only the signals change, its memory changes in the
-- context alone when the handler starts and not at all when it has none, and nothing of another
-- process or of the console changes.
pub idt_handle_interrupt_exception :
    (irq : ℕ → Kernel → Option Kernel) (syscall : IntRegs → Kernel → Option (IntRegs × Kernel))
    (k : Kernel) (curr : ℕ) (regs : IntRegs) (h : ℕ → ℕ)
    → curr < max_processes
    → (k.table curr).pid ≡ pos curr
    → regs.cs ≡ user_cs
    → regs.int_num < 32
    → regs.esp < 2 ^ 32
    → (k.table curr).signals ≡ quiet h
    → (action : Action) × (k' : Kernel) × (regs' : IntRegs) × (idt_handle_interrupt irq syscall k
          curr regs
        ≡ some (action, k', regs'))
      × Excepted k k' curr h (exception_signal regs.int_num) regs regs' action
      × OnlyProcess k k' curr
idt_handle_interrupt_exception irq syscall k curr regs h hc pid cs small hesp quiet_before =
    let s = exception_signal regs.int_num in
    let k1 = raised_table k curr regs.int_num in
    let done = handle_all (k1.pages curr) regs (k1.table curr).signals in
    let one : (s ≡ 0) ⊎ (s ≡ 1) = ground arith in
    let acted : Acted (k.pages curr) regs (raise (quiet h) s) done =
      subst (λ m. Acted m regs (raise (quiet h) s) done) (same_pages k curr regs.int_num)
        (subst (λ ss. Acted (k1.pages curr) regs ss done)
          (raised_signals k curr regs.int_num h quiet_before)
          (handle_all-Acted (k1.pages curr) regs (k1.table curr).signals hesp)) in
    (
      done.action,
      after_signals k1 curr done,
      done.regs,
      idt_exception irq syscall k curr regs hc pid cs small
          ∙ ap some (handle_signals_user k1 curr regs cs),
      Acted-Excepted k k1 curr h s regs done one acted,
      others_kept k curr regs.int_num done,
    )
