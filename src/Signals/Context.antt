-- ===== src/Signals/Context.antt =====
-- The context that signal_deliver of student-distrib/signal.c pushes on the user stack, as stores.
use loli_os.Prelude.{
  ℕ, ◌+◌, ◌^◌, ◌≤◌, ◌<◌, ◌≡◌, refl, sym, ap, ap₂, ◌∙◌, ◌≢◌, inl, inr, List, arith, Option-cases,
  length, pos, add_u32, sub_u32,
}
use loli_os.Memory.{copy_to_user}
use loli_os.Memory.Access.{InUserPage, copy_to_user-some, copy_to_user_in, is_user_readable_iff}
use loli_os.Memory.Bytes.{bytes_ext, Mem, bytes, store}
use loli_os.Memory.Words.{of_list, word_bytes, bytes-of_list}
use loli_os.Regs.{IntRegs, regs_bytes}
use loli_os.Signals.{Signal}
use loli_os.Signals.Delivery.{
  shellcode, Attempt, refused, stacked, ◌>>=◌, push, patch, fill_operands, push_context,
  sys_sigreturn,
}

stacked_inj : {m n : Mem} → stacked m ≡ stacked n → m ≡ n
stacked_inj e = cc

pub refused_ne_stacked : {m n : Mem} → refused m ≢ stacked n
refused_ne_stacked e = ground (arith, e)

-- Inversion of a step that succeeds.
bind_stacked :
    (a : Attempt) (f : Mem → Attempt) {m : Mem}
    → (a >>= f) ≡ stacked m
    → (n : Mem) × (a ≡ stacked n) × (f n ≡ stacked m)
bind_stacked (refused n) f e = ground (arith, e)
bind_stacked (stacked n) f e = (n, refl, e)

-- A push that succeeds stores the bytes of the object in the user page.
push_stacked :
    (m n : Mem) (esp : ℕ) (bs : List ℕ)
    → esp < 2 ^ 32
    → length bs < 2 ^ 31
    → push m esp bs ≡ stacked n
    → (n ≡ store m esp bs) × InUserPage esp (length bs)
unfolding push
push_stacked m n esp bs he hl e =
    elim (Option-cases (copy_to_user m esp (of_list bs) (pos (length bs)))) [
      | inl no_room ↦ absurd (refused_ne_stacked (rw (push, no_room) at e))
      | inr (m', copied) ↦
          let (ok, stored) = copy_to_user-some m (of_list bs) esp (length bs) copied in
          let same : m' ≡ n = stacked_inj (rw (push, copied) at e) in
          (
            sym same ∙ sym stored ∙ ap (store m esp) (bytes-of_list bs),
            (is_user_readable_iff esp (length bs) he hl).0 ok,
          )
    ]

patch_in :
    (m : Mem) (addr : ℕ) (object : Mem)
    → InUserPage addr 4
    → patch m addr object ≡ store m addr (bytes object 0 4)
unfolding patch
patch_in m addr object h = rw (patch, copy_to_user_in m object addr 4 h) refl

-- The user stack below `b + 108` after a delivery, in the order of the stores.
abbrev pub written : Mem → Signal → IntRegs → ℕ → Mem
written m s regs b =
    let m1 = store m (b + 88) shellcode in
    let m2 = store m1 (b + 8) (regs_bytes regs) in
    let m3 = store m2 (b + 4) (word_bytes s.signum) in store m3 b (word_bytes (b + 88))

abbrev pub patched : Mem → Signal → IntRegs → ℕ → Mem
patched m s regs b =
    let m4 = written m s regs b in
    let m5 = store m4 (b + 89) (word_bytes sys_sigreturn) in
    let m6 = store m5 (b + 94) (bytes m5 (b + 4) 4) in store m6 (b + 99) (word_bytes (b + 8))

pub length-regs_bytes : (r : IntRegs) → length (regs_bytes r) ≡ 80
unfolding regs_bytes
length-regs_bytes r = refl

-- What a delivery has pushed: the context lies in the user page, from b on.
pub record Pushed (m n : Mem) (s : Signal) (regs : IntRegs) (top b : ℕ) : Type 0 where
  pub top_at : top ≡ b + 108
  pub in_page : InUserPage b 108
  pub result : n ≡ patched m s regs b

-- The part of the context from an offset on lies in the user page, too.
pub part_in_page : (b i n : ℕ) → i + n ≤ 108 → InUserPage b 108 → InUserPage (b + i) n
part_in_page b i n h p = record { from = omega (arith, p.from); to = omega (arith, p.to, h) }

fill_operands_at :
    (m : Mem) (b : ℕ)
    → InUserPage b 108
    → fill_operands m (b + 88) (b + 8) (b + 4) ≡ (
        let m5 = store m (b + 89) (word_bytes sys_sigreturn) in
        let m6 = store m5 (b + 94) (bytes m5 (b + 4) 4) in store m6 (b + 99) (word_bytes (b + 8)))
unfolding fill_operands
fill_operands_at m b p =
    let to = p.to in
    let a1 : add_u32 (b + 88) 1 ≡ b + 89 = omega (arith, to) in
    let a6 : add_u32 (b + 88) 6 ≡ b + 94 = omega (arith, to) in
    let a11 : add_u32 (b + 88) 11 ≡ b + 99 = omega (arith, to) in
    let number = word_bytes sys_sigreturn in
    let frame = word_bytes (b + 8) in
    let m5 = store m (b + 89) number in
    let m6 = store m5 (b + 94) (bytes m5 (b + 4) 4) in
    let q5 : patch m (b + 89) (of_list number) ≡ m5 =
      patch_in m (b + 89) (of_list number) (part_in_page b 89 4 (omega arith) p)
      ∙ ap (store m (b + 89)) (bytes-of_list number) in
    let q6 : patch m5 (b + 94) (λ i. m5 (b + 4 + i)) ≡ m6 =
      patch_in m5 (b + 94) (λ i. m5 (b + 4 + i)) (part_in_page b 94 4 (omega arith) p)
      ∙ ap (store m5 (b + 94)) (
          bytes_ext (λ i. m5 (b + 4 + i)) m5 0 (b + 4) 4
            (λ i h. ap (λ k. m5 (b + 4 + k)) (omega arith))) in
    let q7 : patch m6 (b + 99) (of_list frame) ≡ store m6 (b + 99) frame =
      patch_in m6 (b + 99) (of_list frame) (part_in_page b 99 4 (omega arith) p)
      ∙ ap (store m6 (b + 99)) (bytes-of_list frame) in
    rw (a1, a6, a11)
      ((λ k. patch (patch (q5 k) (b + 94) (λ i. q5 k (b + 4 + i))) (b + 99) (of_list frame))
        ∙ ap (λ l. patch l (b + 99) (of_list frame)) q6
        ∙ q7)

pub push_context-Pushed :
    (m n : Mem) (s : Signal) (regs : IntRegs) (top : ℕ)
    → top < 2 ^ 32
    → push_context m s regs top ≡ stacked n
    → Pushed m n s regs top (sub_u32 top 108)
unfolding push_context
push_context-Pushed m n s regs top ht e =
    let b = sub_u32 top 108 in
    let linkage = sub_u32 top 20 in
    let intregs = sub_u32 linkage 80 in
    let signum = sub_u32 intregs 4 in
    let esp = sub_u32 signum 4 in
    let (m1, p1, e1) = bind_stacked (push m linkage shellcode) _ e in
    let (s1, in1) = push_stacked m m1 linkage shellcode (omega arith) (omega arith) p1 in
    let (m2, p2, e2) = bind_stacked (push m1 intregs (regs_bytes regs)) _ e1 in
    let size : length (regs_bytes regs) < 2 ^ 31 = rw (length-regs_bytes regs) (omega arith) in
    let (s2, in2) = push_stacked m1 m2 intregs (regs_bytes regs) (omega arith) size p2 in
    let (m3, p3, e3) = bind_stacked (push m2 signum (word_bytes s.signum)) _ e2 in
    let (s3, in3) =
      push_stacked m2 m3 signum (word_bytes s.signum) (omega arith) (omega arith) p3 in
    let (m4, p4, e4) = bind_stacked (push m3 esp (word_bytes linkage)) _ e3 in
    let (s4, in4) = push_stacked m3 m4 esp (word_bytes linkage) (omega arith) (omega arith) p4 in
    let top_at : top ≡ b + 108 = omega (arith, in1.from, ht) in
    let l_at : linkage ≡ b + 88 = omega (arith, in1.from, ht) in
    let i_at : intregs ≡ b + 8 = omega (arith, in1.from, ht) in
    let s_at : signum ≡ b + 4 = omega (arith, in1.from, ht) in
    let b_at : esp ≡ b = omega (arith, in1.from, ht) in
    let page : InUserPage b 108 = record {
      from = omega (arith, in4.from, b_at);
      to = omega (arith, in1.to, l_at);
    } in
    let m1_at : m1 ≡ store m (b + 88) shellcode = s1 ∙ ap (λ a. store m a shellcode) l_at in
    let m2_at = s2 ∙ ap₂ (λ l a. store l a (regs_bytes regs)) m1_at i_at in
    let m3_at = s3 ∙ ap₂ (λ l a. store l a (word_bytes s.signum)) m2_at s_at in
    let m4_at : m4 ≡ written m s regs b =
      s4 ∙ λ k. store (m3_at k) (b_at k) (word_bytes (l_at k)) in
    record {
      top_at = top_at;
      in_page = page;
      result =
          sym (stacked_inj e4)
          ∙ (λ k. fill_operands (m4_at k) (l_at k) (i_at k) (s_at k))
          ∙ fill_operands_at (written m s regs b) b page;
    }
