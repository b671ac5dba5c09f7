-- ===== src/Devices/Drain.antt =====
-- What the PS/2 interrupt of student-distrib/ps2.c does with the events that wait.
use loli_os.Prelude.{
  ℕ, zero, suc, ◌≤◌, ◌≡◌, refl, sym, ap, ◌∙◌, inl, inr, Bool, true, false, Option, none, some, List,
  [], ◌∷◌, arith, Option-cases, length,
}
use loli_os.Terminal.{MouseInput}
use loli_os.Terminal.Console.{◌>>=◌}
use loli_os.Process.Context.{Kernel}
use loli_os.Interrupts.{keyboard_handle_irq}
use loli_os.Devices.{Ps2, mouse_event, ps2_round, drain, ps2_handle_irq}

-- An event that waits in the controller.
pub data Event : Type 0 where
  key : ℕ → Event
  mouse : MouseInput → Event

-- What the ports give for the events, and at the end: before each byte of data the status says that
-- there is one, and from which device.
pub waiting : List Event → List ℕ
waiting [] = 0 ∷ []
waiting (key packet ∷ es) = 1 ∷ 1 ∷ packet ∷ waiting es
waiting (mouse e ∷ es) = 33 ∷ 33 ∷ e.flags ∷ 33 ∷ e.dx ∷ 33 ∷ e.dy ∷ waiting es

-- The events one after another: the kernel and the modifiers.
pub handle_events : ℕ → Kernel → ℕ → List Event → Option (Kernel × ℕ)
handle_events curr k modifiers [] = some (k, modifiers)
handle_events curr k modifiers (key packet ∷ es) = do
  (k', modifiers') ← keyboard_handle_irq k curr modifiers packet
  handle_events curr k' modifiers' es
handle_events curr k modifiers (mouse e ∷ es) = do
  k' ← mouse_event k e
  handle_events curr k' modifiers es

drain_more :
    (n curr : ℕ) (s s' : Ps2)
    → ps2_round curr s ≡ some (true, s')
    → drain (suc n) curr s ≡ drain n curr s'
unfolding drain
drain_more n curr s s' e = rw (drain, e) refl

drain_done :
    (n curr : ℕ) (s s' : Ps2) → ps2_round curr s ≡ some (false, s') → drain (suc n) curr s ≡ some s'
unfolding drain
drain_done n curr s s' e = rw (drain, e) refl

drain_stops : (n curr : ℕ) (s : Ps2) → ps2_round curr s ≡ none → drain (suc n) curr s ≡ none
unfolding drain
drain_stops n curr s e = rw (drain, e) refl

abbrev state : Kernel → ℕ → List ℕ → Ps2
state k m reads = record { kernel = k; modifiers = m; reads = reads }

abbrev again : Ps2 → Option (Bool × Ps2)
again s = some (true, s)

assoc_key :
    (o : Option (Kernel × ℕ)) (reads : List ℕ)
    → ((o >>= λ (k', m'). some (state k' m' reads)) >>= again)
      ≡ (o >>= λ (k', m'). again (state k' m' reads))
assoc_key none reads = refl
assoc_key (some (k, m)) reads = refl

assoc_mouse :
    (m : ℕ) (o : Option Kernel) (reads : List ℕ)
    → ((o >>= λ k'. some (state k' m reads)) >>= again) ≡ (o >>= λ k'. again (state k' m reads))
assoc_mouse m none reads = refl
assoc_mouse m (some k) reads = refl

-- The rounds of the two devices, by what their handlers give.
round_key :
    (curr : ℕ) (k : Kernel) (m packet : ℕ) (reads : List ℕ) {o : Option (Kernel × ℕ)}
    → keyboard_handle_irq k curr m packet ≡ o
    → ps2_round curr (state k m (1 ∷ 1 ∷ packet ∷ reads))
      ≡ (o >>= λ (k', m'). again (state k' m' reads))
unfolding ps2_round
round_key curr k m packet reads {o} e =
    assoc_key (keyboard_handle_irq k curr m packet) reads
    ∙ ap (λ x. x >>= λ (k', m'). again (state k' m' reads)) e

round_mouse :
    (curr : ℕ) (k : Kernel) (m : ℕ) (e : MouseInput) (reads : List ℕ) {o : Option Kernel}
    → mouse_event k e ≡ o
    → ps2_round curr (state k m (33 ∷ 33 ∷ e.flags ∷ 33 ∷ e.dx ∷ 33 ∷ e.dy ∷ reads))
      ≡ (o >>= λ k'. again (state k' m reads))
unfolding ps2_round
round_mouse curr k m e reads {o} h =
    assoc_mouse m (mouse_event k e) reads ∙ ap (λ x. x >>= λ k'. again (state k' m reads)) h

last_round :
    (curr : ℕ) (k : Kernel) (m : ℕ)
    → ps2_round curr (state k m (0 ∷ [])) ≡ some (false, state k m [])
unfolding ps2_round
last_round curr k m = refl

-- What the interrupt leaves, where the ports give nothing more.
pub drained : Option (Kernel × ℕ) → Option Ps2
drained none = none
drained (some (k, m)) = some (record { kernel = k; modifiers = m; reads = [] })

drain-waiting :
    (curr n : ℕ) (k : Kernel) (m : ℕ) (es : List Event)
    → length (waiting es) ≤ n
    → drain n curr (state k m (waiting es)) ≡ drained (handle_events curr k m es)
unfolding waiting handle_events drained
drain-waiting curr zero k m [] h = absurd (omega (arith, h))
drain-waiting curr zero k m (key packet ∷ es) h = absurd (omega (arith, h))
drain-waiting curr zero k m (mouse e ∷ es) h = absurd (omega (arith, h))
drain-waiting curr (suc n) k m [] h =
    drain_done n curr (state k m (0 ∷ [])) (state k m []) (last_round curr k m)
drain-waiting curr (suc n) k m (key packet ∷ es) h =
    let s = state k m (1 ∷ 1 ∷ packet ∷ waiting es) in
    elim (Option-cases (keyboard_handle_irq k curr m packet)) [
      | inl stops ↦
          drain_stops n curr s (round_key curr k m packet (waiting es) stops)
          ∙ sym (ap (λ o. drained (o >>= λ (k', m'). handle_events curr k' m' es)) stops)
      | inr ((k', m'), goes) ↦
          drain_more n curr s (state k' m' (waiting es))
            (round_key curr k m packet (waiting es) goes)
          ∙ drain-waiting curr n k' m' es (omega (arith, h))
          ∙ sym (ap (λ o. drained (o >>= λ (k', m'). handle_events curr k' m' es)) goes)
    ]
drain-waiting curr (suc n) k m (mouse e ∷ es) h =
    let s = state k m (33 ∷ 33 ∷ e.flags ∷ 33 ∷ e.dx ∷ 33 ∷ e.dy ∷ waiting es) in
    elim (Option-cases (mouse_event k e)) [
      | inl stops ↦
          drain_stops n curr s (round_mouse curr k m e (waiting es) stops)
          ∙ sym (ap (λ o. drained (o >>= λ k'. handle_events curr k' m es)) stops)
      | inr (k', goes) ↦
          drain_more n curr s (state k' m (waiting es)) (round_mouse curr k m e (waiting es) goes)
          ∙ drain-waiting curr n k' m es (omega (arith, h))
          ∙ sym (ap (λ o. drained (o >>= λ k'. handle_events curr k' m es)) goes)
    ]

-- While events of the keyboard and the mouse wait in the controller, one PS/2 interrupt handles
-- all of them, in their order, each by the handler of its device with the bytes that the device
-- has sent, and ends when nothing waits; it fails only where the handler of an event does.
pub ps2_handle_irq-waiting :
    (curr : ℕ) (k : Kernel) (m : ℕ) (es : List Event)
    → ps2_handle_irq curr (record { kernel = k; modifiers = m; reads = waiting es })
      ≡ drained (handle_events curr k m es)
unfolding ps2_handle_irq
ps2_handle_irq-waiting curr k m es = drain-waiting curr (length (waiting es)) k m es (omega arith)
