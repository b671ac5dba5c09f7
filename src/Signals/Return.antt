-- ===== src/Signals/Return.antt =====
-- What a handler finds on its stack, and what sigreturn makes of it, for student-distrib/signal.c.
use loli_os.Prelude.{
  ◌+◌, ◌^◌, ◌<◌, ◌≡◌, refl, ap, ap₂, subst, ◌∙◌, ◌≢◌, ◌⊎◌, inl, inr, false, some, List, arith, leb,
  pos, sub_u32, to_i32,
}
use loli_os.Memory.{copy_from_user}
use loli_os.Memory.Access.{InUserPage, copy_from_user_in}
use loli_os.Memory.Bytes.{Mem, bytes}
use loli_os.Memory.Words.{word_of, word_at, word_of-word_bytes}
use loli_os.Regs.{IntRegs, IsRegs, regs_bytes, regs_of_bytes-regs_bytes}
use loli_os.Signals.{Signal, num_signals, modify, unmask}
use loli_os.Signals.Delivery.{
  Attempt, refused, stacked, push_context, deliver, failed, delivered, restore_regs, sigreturn,
}
use loli_os.Signals.Context.{Pushed, part_in_page, push_context-Pushed}
use loli_os.Signals.Layout.{context_bytes, return_code, patched-return_code}

attempt_cases : (a : Attempt) → ((m : Mem) × (a ≡ refused m)) ⊎ ((m : Mem) × (a ≡ stacked m))
attempt_cases (refused m) = inl (m, refl)
attempt_cases (stacked m) = inr (m, refl)

failed_ne_delivered : {m n : Mem} {t : Signal} {r : IntRegs} → failed m ≢ delivered n t r
failed_ne_delivered e = ground (arith, e)

delivered_mem :
    {m n : Mem} {s t : Signal} {q r : IntRegs} → delivered m s q ≡ delivered n t r → m ≡ n
delivered_mem e = cc

delivered_regs :
    {m n : Mem} {s t : Signal} {q r : IntRegs} → delivered m s q ≡ delivered n t r → q ≡ r
delivered_regs e = cc

-- What a delivery that succeeds has done.
pub deliver_inv :
    (m n : Mem) (s t : Signal) (regs r : IntRegs)
    → regs.esp < 2 ^ 32
    → deliver m s regs ≡ delivered n t r
    → Pushed m n s regs regs.esp r.esp
unfolding deliver
deliver_inv m n s t regs r h e = elim (attempt_cases (push_context m s regs regs.esp)) [
  | inl (m', full) ↦ absurd (failed_ne_delivered (rw (deliver, full) at e))
  | inr (m', room) ↦
      let same = rw (deliver, room) at e in
      let mem : m' ≡ n = delivered_mem same in
      let esp : sub_u32 regs.esp 108 ≡ r.esp = ap (λ q. q.esp) (delivered_regs same) in
      subst (λ b. Pushed m n s regs regs.esp b) esp
        (subst (λ l. Pushed m l s regs regs.esp (sub_u32 regs.esp 108)) mem
          (push_context-Pushed m m' s regs regs.esp h room))
]

-- When the delivery of a signal below 5 succeeds for a 32-bit stack pointer, the handler finds
-- above its return address the number of the signal, and the return address leads to the
-- instructions that call sigreturn with that number and the address of the saved registers.
pub deliver-return_code :
    (m n : Mem) (s t : Signal) (regs r : IntRegs)
    → regs.esp < 2 ^ 32
    → s.signum < num_signals
    → deliver m s regs ≡ delivered n t r
    → (word_at n (r.esp + 4) ≡ s.signum)
      × (bytes n (word_at n r.esp) 17 ≡ return_code s.signum (r.esp + 8))
deliver-return_code m n s t regs r h hs e =
    let p = deliver_inv m n s t regs r h e in
    let b = r.esp in
    let (ret, arg, frame, number, signal, saved) = context_bytes m s regs b in
    let to = p.in_page.to in
    let at : word_at n b ≡ b + 88 =
      ap (λ l. word_at l b) p.result
      ∙ ap word_of ret
      ∙ word_of-word_bytes (b + 88) (omega (arith, to)) in
    (
      ap (λ l. word_at l (b + 4)) p.result
          ∙ ap word_of arg
          ∙ word_of-word_bytes s.signum (omega (arith, hs)),
      ap₂ (λ l a. bytes l a 17) p.result at ∙ patched-return_code m s regs b,
    )

-- Once signal_deliver has succeeded for registers that fit their fields, signal_sigreturn, called
-- with the number of the signal and the saved address, restores those registers as restore_regs
-- has it, unmasks the signal and returns the saved EAX.
pub deliver-sigreturn :
    (m n : Mem) (s t : Signal) (ss : List Signal) (regs r k : IntRegs)
    → IsRegs regs
    → s.signum < num_signals
    → deliver m s regs ≡ delivered n t r
    → sigreturn n ss (pos s.signum) (r.esp + 8) k
      ≡ (to_i32 regs.eax, modify ss s.signum unmask, restore_regs regs k)
unfolding sigreturn
deliver-sigreturn m n s t ss regs r k ok hs e =
    let p = deliver_inv m n s t regs r ok.esp e in
    let b = r.esp in
    let (ret, arg, frame, number, signal, saved) = context_bytes m s regs b in
    let page : InUserPage (b + 8) 80 = part_in_page b 8 80 (omega arith) p.in_page in
    let copied : copy_from_user n (b + 8) (pos 80) ≡ some (regs_bytes regs) =
      copy_from_user_in n (b + 8) 80 page
      ∙ ap some (ap (λ l. bytes l (b + 8) 80) p.result ∙ frame) in
    let known : leb num_signals s.signum ≡ false = ground (arith, hs) in
    rw (sigreturn, known, copied)
      (ap (λ q. (to_i32 (restore_regs q k).eax, modify ss s.signum unmask, restore_regs q k))
        (regs_of_bytes-regs_bytes regs ok))
