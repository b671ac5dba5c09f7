-- ===== src/Signals/Starting.antt =====
-- How a handler starts, and when, for signal_deliver of student-distrib/signal.c.
use loli_os.Prelude.{
  ℕ, ◌+◌, ◌-◌, ◌^◌, ◌≤◌, ◌<◌, bit_and, ◌≡◌, refl, sym, ap, ap₂, subst, ◌∙◌, ◌⊎◌, Bool, true, false,
  ◌&&◌, List, arith, ltb, leb, length, sub_u32,
}
use loli_os.Memory.{user_page_start, user_page_end}
use loli_os.Memory.Access.{InUserPage, copy_to_user_in}
use loli_os.Memory.Bytes.{Mem, bytes, store, length-bytes}
use loli_os.Memory.Words.{of_list, word_bytes, word_at, word_of, word_of-word_bytes, store_outside}
use loli_os.Regs.{IntRegs, regs_bytes}
use loli_os.Signals.{Signal, start_handler}
use loli_os.Signals.Delivery.{
  shellcode, fill_operands, Attempt, refused, stacked, push, push_context, deliver, Delivery,
  failed, delivered, enter_handler, sys_sigreturn,
}
use loli_os.Signals.Context.{patched, length-regs_bytes}
use loli_os.Signals.Layout.{context_bytes, return_code, patched-return_code}
use loli_os.Signals.Return.{deliver_inv}

-- Whether the user stack below an address has room for the 108 bytes of a context.
abbrev pub has_room : ℕ → Bool
has_room esp = leb (user_page_start + 108) esp && ltb esp user_page_end

-- The registers and the stack with which the handler of a signal starts: it begins at its address, with
-- the other registers as they were, the segments of user code, and the direction flag clear; on the
-- stack there are the return address, which leads to the call of sigreturn, the number of the signal
-- and the registers; the memory outside of those 108 bytes is as it was.
pub record StartsHandler (m n : Mem) (s : Signal) (regs r : IntRegs) : Type 0 where
  pub eip : r.eip ≡ s.handler_addr
  pub esp : r.esp + 108 ≡ regs.esp
  pub eflags : r.eflags ≡ bit_and regs.eflags (2 ^ 32 - 1 - 0x400)
  pub segments :
      (r.cs ≡ 0x23) × (r.ds ≡ 0x2B) × (r.es ≡ 0x2B) × (r.fs ≡ 0x2B) × (r.gs ≡ 0x2B) × (r.ss ≡ 0x2B)
  pub general :
      (r.eax ≡ regs.eax)
      × (r.ebx ≡ regs.ebx)
      × (r.ecx ≡ regs.ecx)
      × (r.edx ≡ regs.edx)
      × (r.esi ≡ regs.esi)
      × (r.edi ≡ regs.edi)
      × (r.ebp ≡ regs.ebp)
  pub others :
      (r.cr0 ≡ regs.cr0)
      × (r.cr2 ≡ regs.cr2)
      × (r.cr3 ≡ regs.cr3)
      × (r.cr4 ≡ regs.cr4)
      × (r.int_num ≡ regs.int_num)
      × (r.error_code ≡ regs.error_code)
      × (r.cs_pad ≡ regs.cs_pad)
      × (r.ss_pad ≡ regs.ss_pad)
  pub in_page : InUserPage r.esp 108
  pub returns : bytes n (word_at n r.esp) 17 ≡ return_code s.signum (r.esp + 8)
  pub argument : bytes n (r.esp + 4) 4 ≡ word_bytes s.signum
  pub frame : bytes n (r.esp + 8) 80 ≡ regs_bytes regs
  pub kept : (p : ℕ) → (p < r.esp) ⊎ (regs.esp ≤ p) → n p ≡ m p

patched-outside :
    (m : Mem) (s : Signal) (regs : IntRegs) (b p : ℕ)
    → (p < b) ⊎ (b + 108 ≤ p)
    → patched m s regs b p ≡ m p
patched-outside m s regs b p h =
    let len = length-regs_bytes regs in
    let m1 = store m (b + 88) shellcode in
    let m2 = store m1 (b + 8) (regs_bytes regs) in
    let m3 = store m2 (b + 4) (word_bytes s.signum) in
    let m4 = store m3 b (word_bytes (b + 88)) in
    let m5 = store m4 (b + 89) (word_bytes sys_sigreturn) in
    let sig = bytes m5 (b + 4) 4 in
    let m6 = store m5 (b + 94) sig in
    let size : length sig ≡ 4 = length-bytes m5 (b + 4) 4 in
    store_outside m6 (b + 99) p (word_bytes (b + 8)) (omega (arith, h))
    ∙ store_outside m5 (b + 94) p sig (omega (arith, h, size))
    ∙ store_outside m4 (b + 89) p (word_bytes sys_sigreturn) (omega (arith, h))
    ∙ store_outside m3 b p (word_bytes (b + 88)) (omega (arith, h))
    ∙ store_outside m2 (b + 4) p (word_bytes s.signum) (omega (arith, h))
    ∙ store_outside m1 (b + 8) p (regs_bytes regs) (omega (arith, h, len))
    ∙ store_outside m (b + 88) p shellcode (omega (arith, h))

-- The registers that a delivery leaves.
record Entered (s : Signal) (regs r : IntRegs) : Type 0 where
  eip : r.eip ≡ s.handler_addr
  eflags : r.eflags ≡ bit_and regs.eflags (2 ^ 32 - 1 - 0x400)
  segments :
      (r.cs ≡ 0x23) × (r.ds ≡ 0x2B) × (r.es ≡ 0x2B) × (r.fs ≡ 0x2B) × (r.gs ≡ 0x2B) × (r.ss ≡ 0x2B)
  general :
      (r.eax ≡ regs.eax)
      × (r.ebx ≡ regs.ebx)
      × (r.ecx ≡ regs.ecx)
      × (r.edx ≡ regs.edx)
      × (r.esi ≡ regs.esi)
      × (r.edi ≡ regs.edi)
      × (r.ebp ≡ regs.ebp)
  others :
      (r.cr0 ≡ regs.cr0)
      × (r.cr2 ≡ regs.cr2)
      × (r.cr3 ≡ regs.cr3)
      × (r.cr4 ≡ regs.cr4)
      × (r.int_num ≡ regs.int_num)
      × (r.error_code ≡ regs.error_code)
      × (r.cs_pad ≡ regs.cs_pad)
      × (r.ss_pad ≡ regs.ss_pad)

abbrev EnteredBy : Signal → IntRegs → Delivery → Type 0
EnteredBy s regs (failed m) = Unit {0}
EnteredBy s regs (delivered m t r) =
    Entered s regs r × (t ≡ record s { masked = true; pending = false })

deliver-EnteredBy : (m : Mem) (s : Signal) (regs : IntRegs) → EnteredBy s regs (deliver m s regs)
unfolding deliver
deliver-EnteredBy m s regs = by_room (push_context m s regs regs.esp)
  where
    by_room :
        (a : Attempt)
        → EnteredBy s regs (elim a as (λ _. Delivery) [
          | refused m' ↦ failed m'
          | stacked m' ↦
              delivered m' (start_handler s) (enter_handler regs s (sub_u32 regs.esp 108))
        ])
    by_room (refused m') = tt
    by_room (stacked m') = (
      record {
        eip = refl;
        eflags = refl;
        segments = (refl, refl, refl, refl, refl, refl);
        general = (refl, refl, refl, refl, refl, refl, refl);
        others = (refl, refl, refl, refl, refl, refl, refl, refl);
      },
      refl,
    )

-- A delivery that succeeds starts the handler, masks the signal and takes it from those that are
-- pending.
pub deliver-StartsHandler :
    (m n : Mem) (s t : Signal) (regs r : IntRegs)
    → regs.esp < 2 ^ 32
    → deliver m s regs ≡ delivered n t r
    → StartsHandler m n s regs r × (t ≡ record s { masked = true; pending = false })
deliver-StartsHandler m n s t regs r h e =
    let p = deliver_inv m n s t regs r h e in
    let (entered, masked) = subst (EnteredBy s regs) e (deliver-EnteredBy m s regs) in
    let b = r.esp in
    let (ret, arg, frame, number, signal, saved) = context_bytes m s regs b in
    let to = p.in_page.to in
    let top = p.top_at in
    let at : word_at n b ≡ b + 88 =
      ap (λ l. word_at l b) p.result
      ∙ ap word_of ret
      ∙ word_of-word_bytes (b + 88) (omega (arith, to)) in
    (
      record {
        eip = entered.eip;
        esp = sym top;
        eflags = entered.eflags;
        segments = entered.segments;
        general = entered.general;
        others = entered.others;
        in_page = p.in_page;
        returns = ap₂ (λ l a. bytes l a 17) p.result at ∙ patched-return_code m s regs b;
        argument = ap (λ l. bytes l (b + 4) 4) p.result ∙ arg;
        frame = ap (λ l. bytes l (b + 8) 80) p.result ∙ frame;
        kept = λ q out.
            ap (λ l. l q) p.result ∙ patched-outside m s regs b q (omega (arith, out, top));
      },
      masked,
    )

push_room :
    (m : Mem) (esp : ℕ) (bs : List ℕ)
    → InUserPage esp (length bs)
    → (n : Mem) × (push m esp bs ≡ stacked n)
unfolding push
push_room m esp bs h = (
  store m esp (bytes (of_list bs) 0 (length bs)),
  rw (push, copy_to_user_in m (of_list bs) esp (length bs) h) refl,
)

-- A delivery succeeds exactly when the stack has room.
pub deliver_room :
    (m : Mem) (s : Signal) (regs : IntRegs)
    → regs.esp < 2 ^ 32
    → has_room regs.esp ≡ true
    → (n : Mem) × (t : Signal) × (r : IntRegs) × (deliver m s regs ≡ delivered n t r)
unfolding deliver push_context
deliver_room m s regs h room =
    let size = length-regs_bytes regs in
    let linkage = sub_u32 regs.esp 20 in
    let intregs = sub_u32 linkage 80 in
    let signum = sub_u32 intregs 4 in
    let esp = sub_u32 signum 4 in
    let lo : user_page_start + 108 ≤ regs.esp = ground (arith, room) in
    let hi : regs.esp < user_page_end = ground (arith, room) in
    let (m1, p1) =
      push_room m linkage shellcode
        (record { from = omega (arith, lo, hi); to = omega (arith, lo, hi) }) in
    let (m2, p2) =
      push_room m1 intregs (regs_bytes regs)
        (record { from = omega (arith, lo, hi); to = omega (arith, lo, hi, size) }) in
    let (m3, p3) =
      push_room m2 signum (word_bytes s.signum)
        (record { from = omega (arith, lo, hi); to = omega (arith, lo, hi) }) in
    let (m4, p4) =
      push_room m3 esp (word_bytes linkage)
        (record { from = omega (arith, lo, hi); to = omega (arith, lo, hi) }) in
    (
      fill_operands m4 linkage intregs signum,
      start_handler s,
      enter_handler regs s (sub_u32 regs.esp 108),
      rw (deliver, push_context, p1, p2, p3, p4) refl,
    )

pub delivered_room :
    (m n : Mem) (s t : Signal) (regs r : IntRegs)
    → regs.esp < 2 ^ 32
    → deliver m s regs ≡ delivered n t r
    → has_room regs.esp ≡ true
delivered_room m n s t regs r h e =
    let p = deliver_inv m n s t regs r h e in
    let from = p.in_page.from in
    let to = p.in_page.to in let top = p.top_at in ground (arith, from, to, top)
