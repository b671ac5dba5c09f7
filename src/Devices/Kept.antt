-- ===== src/Devices/Kept.antt =====
-- The interrupts of student-distrib/ps2.c and rtc.c keep the numbers and the parents in the process
-- table.
use loli_os.Prelude.{
  ℕ, zero, suc, bit_and, ◌≡◌, refl, subst, inl, inr, Bool, true, false, Option, none, some, List,
  arith, ◌==◌, if◌then◌else◌, Option-cases, length, if_holds,
}
use loli_os.Terminal.{MouseInput}
use loli_os.Terminal.Console.{◌>>=◌}
use loli_os.Terminal.Input.{handle_mouse_input}
use loli_os.Process.Context.{Kernel}
use loli_os.Process.Ids.{SameTable, SameTable-trans, update_clock_kept}
use loli_os.Rtc.{next_counter}
use loli_os.Process.Execution.Creation.{some_inj, bind_some}
use loli_os.Interrupts.{keyboard_handle_irq}
use loli_os.Interrupts.Kept.{keyboard_handle_irq_kept}
use loli_os.Devices.{
  Ps2, read_port, ps2_read_data, keyboard_irq, mouse_event, mouse_handle_irq, ps2_round, drain,
  ps2_handle_irq, rtc_handle_irq,
}

-- Where it succeeds, the table of its kernel keeps its numbers and parents.
abbrev Keeps : Ps2 → Option Ps2 → Type 0
Keeps s o = (s' : Ps2) → o ≡ some s' → SameTable s.kernel.table s'.kernel.table

keyboard_irq-Keeps : (curr : ℕ) (s : Ps2) → Keeps s (keyboard_irq curr s)
unfolding keyboard_irq
keyboard_irq-Keeps curr s s' e =
    let ((packet, reads), read, e1) = bind_some (ps2_read_data s.reads) _ e in
    let ((k, m), handled, e2) =
      bind_some (keyboard_handle_irq s.kernel curr s.modifiers packet) _ e1 in
    subst (λ q. SameTable s.kernel.table q.kernel.table) (some_inj e2)
      (keyboard_handle_irq_kept s.kernel k curr s.modifiers m packet handled)

mouse_event_kept :
    (k k' : Kernel) (input : MouseInput)
    → mouse_event k input ≡ some k'
    → SameTable k.table k'.table
unfolding mouse_event
mouse_event_kept k k' input e =
    let (console, handled, e1) = bind_some (handle_mouse_input k.console input) _ e in
    subst (λ q. SameTable k.table q.table) (some_inj e1) (λ i. (refl, refl))

mouse_handle_irq-Keeps : (s : Ps2) → Keeps s (mouse_handle_irq s)
unfolding mouse_handle_irq
mouse_handle_irq-Keeps s s' e =
    let ((flags, r1), x1, e1) = bind_some (ps2_read_data s.reads) _ e in
    let ((dx, r2), x2, e2) = bind_some (ps2_read_data r1) _ e1 in
    let ((dy, r3), x3, e3) = bind_some (ps2_read_data r2) _ e2 in
    let input : MouseInput = record { flags = flags; dx = dx; dy = dy } in
    let (k, x4, e4) = bind_some (mouse_event s.kernel input) _ e3 in
    subst (λ q. SameTable s.kernel.table q.kernel.table) (some_inj e4)
      (mouse_event_kept s.kernel k input x4)

abbrev KeepsRound : Ps2 → Option (Bool × Ps2) → Type 0
KeepsRound s o =
    (more : Bool) (s' : Ps2) → o ≡ some (more, s') → SameTable s.kernel.table s'.kernel.table

round_inj :
    {a b : Bool} {s t : Ps2} → ◌≡◌ {A = Option (Bool × Ps2)} (some (a, s)) (some (b, t)) → s ≡ t
round_inj e = cc

handled-KeepsRound :
    (s : Ps2) (o : Option Ps2) → Keeps s o → KeepsRound s (do s' ← o; some (true, s'))
handled-KeepsRound s none h more s' e = ground (arith, e)
handled-KeepsRound s (some t) h more s' e =
    subst (λ q. SameTable s.kernel.table q.kernel.table) (round_inj e) (h t refl)

status-KeepsRound :
    (curr : ℕ) (s : Ps2) (status : ℕ) (reads : List ℕ)
    → KeepsRound s (
        let rest = record s { reads = reads } in
        if bit_and status 1 == 0 then some (false, rest) else do
          s' ← if bit_and status 32 == 0 then keyboard_irq curr rest else mouse_handle_irq rest
          some (true, s'))
status-KeepsRound curr s status reads =
    let rest = record s { reads = reads } in
    let handler =
      if bit_and status 32 == 0 then keyboard_irq curr rest else mouse_handle_irq rest in
    if_holds (KeepsRound s) (bit_and status 1 == 0) (some (false, rest))
      (do s' ← handler; some (true, s'))
      (λ more s' e.
        subst (λ q. SameTable s.kernel.table q.kernel.table) (round_inj e) (λ i. (refl, refl)))
      (handled-KeepsRound s handler (
        if_holds (Keeps s) (bit_and status 32 == 0) (keyboard_irq curr rest) (mouse_handle_irq rest)
          (keyboard_irq-Keeps curr rest) (mouse_handle_irq-Keeps rest)))

ps2_round-KeepsRound : (curr : ℕ) (s : Ps2) → KeepsRound s (ps2_round curr s)
unfolding ps2_round
ps2_round-KeepsRound curr s more s' e =
    let ((status, reads), read, e1) = bind_some (read_port s.reads) _ e in
    status-KeepsRound curr s status reads more s' e1

drain-Keeps : (n curr : ℕ) (s : Ps2) → Keeps s (drain n curr s)
unfolding drain
drain-Keeps zero curr s = λ s' e. ground (arith, e)
drain-Keeps (suc n) curr s = elim (Option-cases (ps2_round curr s)) [
  | inl stops ↦ rw (drain, stops) (λ s' e. ground (arith, e))
  | inr ((more, t), goes) ↦
      let first = ps2_round-KeepsRound curr s more t goes in
      rw (drain, goes)
        (if_holds (Keeps s) more (drain n curr t) (some t)
          (λ s' e.
            SameTable-trans s.kernel.table t.kernel.table s'.kernel.table first
              (drain-Keeps n curr t s' e))
          (λ s' e. subst (λ q. SameTable s.kernel.table q.kernel.table) (some_inj e) first))
]

pub ps2_handle_irq_kept :
    (curr : ℕ) (s s' : Ps2)
    → ps2_handle_irq curr s ≡ some s'
    → SameTable s.kernel.table s'.kernel.table
unfolding ps2_handle_irq
ps2_handle_irq_kept curr s s' e = drain-Keeps (length s.reads) curr s s' e

pub rtc_handle_irq_kept :
    (k : Kernel) (counter : ℕ) → SameTable k.table (rtc_handle_irq k counter).1.table
unfolding rtc_handle_irq
rtc_handle_irq_kept k counter = update_clock_kept k.table (next_counter counter)
