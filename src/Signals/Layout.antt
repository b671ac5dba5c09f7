-- ===== src/Signals/Layout.antt =====
-- The bytes of the context that signal_deliver of student-distrib/signal.c has pushed.
use loli_os.Prelude.{
  ℕ, ◌+◌, ◌≤◌, ◌<◌, ◌≡◌, refl, sym, ap, ◌∙◌, ◌⊎◌, inl, inr, List, [], ◌∷◌, ◌++◌, arith, length,
  get_or,
}
use loli_os.Memory.Bytes.{length-bytes, Mem, bytes, store, bytes-store}
use loli_os.Memory.Words.{word_bytes, bytes_kept, bytes_parts, store_at, store_outside}
use loli_os.Regs.{IntRegs, regs_bytes}
use loli_os.Signals.{Signal}
use loli_os.Signals.Delivery.{shellcode, sys_sigreturn}
use loli_os.Signals.Context.{patched, length-regs_bytes}

-- The runs of bytes of the finished context.
pub context_bytes :
    (m : Mem) (s : Signal) (regs : IntRegs) (b : ℕ)
    → (bytes (patched m s regs b) b 4 ≡ word_bytes (b + 88))
      × (bytes (patched m s regs b) (b + 4) 4 ≡ word_bytes s.signum)
      × (bytes (patched m s regs b) (b + 8) 80 ≡ regs_bytes regs)
      × (bytes (patched m s regs b) (b + 89) 4 ≡ word_bytes sys_sigreturn)
      × (bytes (patched m s regs b) (b + 94) 4 ≡ word_bytes s.signum)
      × (bytes (patched m s regs b) (b + 99) 4 ≡ word_bytes (b + 8))
context_bytes m s regs b =
    let len = length-regs_bytes regs in
    let m1 = store m (b + 88) shellcode in
    let m2 = store m1 (b + 8) (regs_bytes regs) in
    let m3 = store m2 (b + 4) (word_bytes s.signum) in
    let m4 = store m3 b (word_bytes (b + 88)) in
    let m5 = store m4 (b + 89) (word_bytes sys_sigreturn) in
    let sig = bytes m5 (b + 4) 4 in
    let m6 = store m5 (b + 94) sig in
    let size : length sig ≡ 4 = length-bytes m5 (b + 4) 4 in
    let k7 : (a n : ℕ)
        → (a + n ≤ b + 99) ⊎ (b + 103 ≤ a)
        → bytes (store m6 (b + 99) (word_bytes (b + 8))) a n ≡ bytes m6 a n =
      λ a n h. bytes_kept m6 (b + 99) (word_bytes (b + 8)) a n (omega (arith, h)) in
    let k6 : (a n : ℕ) → (a + n ≤ b + 94) ⊎ (b + 98 ≤ a) → bytes m6 a n ≡ bytes m5 a n =
      λ a n h. bytes_kept m5 (b + 94) sig a n (omega (arith, h, size)) in
    let k5 : (a n : ℕ) → (a + n ≤ b + 89) ⊎ (b + 93 ≤ a) → bytes m5 a n ≡ bytes m4 a n =
      λ a n h. bytes_kept m4 (b + 89) (word_bytes sys_sigreturn) a n (omega (arith, h)) in
    let k4 : (a n : ℕ) → (a + n ≤ b) ⊎ (b + 4 ≤ a) → bytes m4 a n ≡ bytes m3 a n =
      λ a n h. bytes_kept m3 b (word_bytes (b + 88)) a n (omega (arith, h)) in
    let k3 : (a n : ℕ) → (a + n ≤ b + 4) ⊎ (b + 8 ≤ a) → bytes m3 a n ≡ bytes m2 a n =
      λ a n h. bytes_kept m2 (b + 4) (word_bytes s.signum) a n (omega (arith, h)) in
    let low : (a n : ℕ) → a + n ≤ b + 89 → bytes (patched m s regs b) a n ≡ bytes m4 a n =
      λ a n h. k7 a n (inl (omega (arith, h))) ∙ k6 a n (inl (omega (arith, h))) ∙ k5 a n (inl h) in
    let number : bytes m4 (b + 4) 4 ≡ word_bytes s.signum =
      k4 (b + 4) 4 (inr (omega arith)) ∙ bytes-store m2 (b + 4) (word_bytes s.signum) in
    (
      low b 4 (omega arith) ∙ bytes-store m3 b (word_bytes (b + 88)),
      low (b + 4) 4 (omega arith) ∙ number,
      low (b + 8) 80 (omega arith)
          ∙ k4 (b + 8) 80 (inr (omega arith))
          ∙ k3 (b + 8) 80 (inr (omega arith))
          ∙ ap (bytes m2 (b + 8)) (sym len)
          ∙ bytes-store m1 (b + 8) (regs_bytes regs),
      k7 (b + 89) 4 (inl (omega arith))
          ∙ k6 (b + 89) 4 (inl (omega arith))
          ∙ bytes-store m4 (b + 89) (word_bytes sys_sigreturn),
      k7 (b + 94) 4 (inl (omega arith))
          ∙ ap (bytes m6 (b + 94)) (sym size)
          ∙ bytes-store m5 (b + 94) sig
          ∙ k5 (b + 4) 4 (inl (omega arith))
          ∙ number,
      bytes-store m6 (b + 99) (word_bytes (b + 8)),
    )

-- A byte of the shellcode that is no operand.
code_byte :
    (m : Mem) (s : Signal) (regs : IntRegs) (b i : ℕ)
    → i < 20
    → (i ≡ 0) ⊎ (i ≡ 5) ⊎ (i ≡ 10) ⊎ (15 ≤ i)
    → patched m s regs b (b + 88 + i) ≡ get_or shellcode i 0
code_byte m s regs b i h free =
    let len = length-regs_bytes regs in
    let p = b + 88 + i in
    let m1 = store m (b + 88) shellcode in
    let m2 = store m1 (b + 8) (regs_bytes regs) in
    let m3 = store m2 (b + 4) (word_bytes s.signum) in
    let m4 = store m3 b (word_bytes (b + 88)) in
    let m5 = store m4 (b + 89) (word_bytes sys_sigreturn) in
    let sig = bytes m5 (b + 4) 4 in
    let m6 = store m5 (b + 94) sig in
    let size : length sig ≡ 4 = length-bytes m5 (b + 4) 4 in
    store_outside m6 (b + 99) p (word_bytes (b + 8)) (omega (arith, h, free))
    ∙ store_outside m5 (b + 94) p sig (omega (arith, h, free, size))
    ∙ store_outside m4 (b + 89) p (word_bytes sys_sigreturn) (omega (arith, h, free))
    ∙ store_outside m3 b p (word_bytes (b + 88)) (inr (omega arith))
    ∙ store_outside m2 (b + 4) p (word_bytes s.signum) (inr (omega arith))
    ∙ store_outside m1 (b + 8) p (regs_bytes regs) (inr (omega (arith, len)))
    ∙ store_at m (b + 88) shellcode i h

-- The instructions that the return address of a handler leads to: they call sigreturn with a signal
-- and the address of the saved registers.
abbrev pub return_code : ℕ → ℕ → List ℕ
return_code signum frame =
    0xB8
    ∷ (word_bytes sys_sigreturn
        ++ (0xBB ∷ (word_bytes signum ++ (0xB9 ∷ (word_bytes frame ++ (0xCD ∷ 0x80 ∷ []))))))

one_byte : (m : Mem) (a x : ℕ) → m a ≡ x → bytes m a 1 ≡ x ∷ []
unfolding bytes
one_byte m a x e = ap (λ y. y ∷ []) e

pub patched-return_code :
    (m : Mem) (s : Signal) (regs : IntRegs) (b : ℕ)
    → bytes (patched m s regs b) (b + 88) 17 ≡ return_code s.signum (b + 8)
patched-return_code m s regs b =
    let n = patched m s regs b in
    let (ret, arg, frame, number, signal, saved) = context_bytes m s regs b in
    let code = code_byte m s regs b in
    let c0 = one_byte n (b + 88) 0xB8 (ap n (omega arith) ∙ code 0 (omega arith) (inl refl)) in
    let c5 =
      one_byte n (b + 93) 0xBB (ap n (omega arith) ∙ code 5 (omega arith) (inr (inl refl))) in
    let c10 =
      one_byte n (b + 98) 0xB9
        (ap n (omega arith) ∙ code 10 (omega arith) (inr (inr (inl refl)))) in
    let c15 =
      one_byte n (b + 103) 0xCD
        (ap n (omega arith) ∙ code 15 (omega arith) (inr (inr (inr (omega arith))))) in
    let c16 =
      one_byte n (b + 104) 0x80
        (ap n (omega arith) ∙ code 16 (omega arith) (inr (inr (inr (omega arith))))) in
    let p2 = bytes_parts n (b + 103) 1 1 (b + 104) _ _ (omega arith) c15 c16 in
    let p6 = bytes_parts n (b + 99) 4 2 (b + 103) _ _ (omega arith) saved p2 in
    let p7 = bytes_parts n (b + 98) 1 6 (b + 99) _ _ (omega arith) c10 p6 in
    let p11 = bytes_parts n (b + 94) 4 7 (b + 98) _ _ (omega arith) signal p7 in
    let p12 = bytes_parts n (b + 93) 1 11 (b + 94) _ _ (omega arith) c5 p11 in
    let p16 = bytes_parts n (b + 89) 4 12 (b + 93) _ _ (omega arith) number p12 in
    bytes_parts n (b + 88) 1 16 (b + 89) _ _ (omega arith) c0 p16
