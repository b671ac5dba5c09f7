-- ===== src/Signals/Acting.antt =====
-- What signal_handle_all of student-distrib/signal.c does with the signals, the registers and the user
-- memory of a process.
use loli_os.Prelude.{
  ℕ, ◌^◌, ◌<◌, ◌≡◌, refl, sym, ap, ap₂, ◌∙◌, ◌≢◌, ◌⊎◌, inl, inr, Bool, true, false, ◌&&◌, ◌||◌,
  Option, none, some, List, [], ◌∷◌, arith, ltb, ◌==◌, if◌then◌else◌, Bool-cases,
}
use loli_os.Memory.Bytes.{Mem}
use loli_os.Regs.{IntRegs}
use loli_os.Signals.{Signal, has_handler}
use loli_os.Signals.Delivery.{deliver, Delivery, failed, delivered}
use loli_os.Signals.Handling.{
  handle, halted, ignored, nothing, run_handler, halt, AllHandled, handle_all,
}
use loli_os.Signals.Starting.{
  has_room, StartsHandler, deliver-StartsHandler, deliver_room, delivered_room,
}

-- Whether a signal does something once it is pending: it has a handler that may run, or its default is
-- to halt the process.
abbrev pub acting : Signal → Bool
acting s = s.pending && (has_handler s || ltb s.signum 3)

-- The first signal of the list that does something, if there is one.
abbrev pub first_acting : List Signal → Option Signal
first_acting [] = none
first_acting (s ∷ ss) = if acting s then some s else first_acting ss

-- The signals when those before the first that acts are no longer pending, and that one is changed.
abbrev pub settled : (Signal → Signal) → List Signal → List Signal
settled f [] = []
settled f (s ∷ ss) = if acting s then f s ∷ ss else record s { pending = false } ∷ settled f ss

abbrev pub masked : Signal → Signal
masked s = record s { masked = true; pending = false }

abbrev pub as_it_was : Signal → Signal
as_it_was s = s

-- What signal_handle_all does, by the first signal that acts. Where the stack has no room, the memory is
-- not described: what fits of the context has been written.
pub data Acted (m : Mem) (regs : IntRegs) (ss : List Signal) (h : AllHandled) : Type 0 where
  nothing_acts :
      first_acting ss ≡ none
      → h.action ≡ nothing
      → h.mem ≡ m
      → h.regs ≡ regs
      → h.signals ≡ settled as_it_was ss
      → Acted m regs ss h
  handler_starts :
      (s : Signal)
      → first_acting ss ≡ some s
      → has_handler s ≡ true
      → has_room regs.esp ≡ true
      → h.action ≡ run_handler s.handler_addr
      → StartsHandler m h.mem s regs h.regs
      → h.signals ≡ settled masked ss
      → Acted m regs ss h
  no_room :
      (s : Signal)
      → first_acting ss ≡ some s
      → has_handler s ≡ true
      → has_room regs.esp ≡ false
      → h.action ≡ halt 256
      → h.regs ≡ regs
      → h.signals ≡ settled as_it_was ss
      → Acted m regs ss h
  default_halts :
      (s : Signal)
      → first_acting ss ≡ some s
      → has_handler s ≡ false
      → h.action ≡ halt (if s.signum == 2 then 130 else 256)
      → h.mem ≡ m
      → h.regs ≡ regs
      → h.signals ≡ settled as_it_was ss
      → Acted m regs ss h

-- A signal in front that does nothing is only taken from those that are pending.
skipped-Acted :
    (m : Mem) (regs : IntRegs) (s t : Signal) (ss : List Signal) (h : AllHandled)
    → acting s ≡ false
    → t ≡ record s { pending = false }
    → Acted m regs ss h
    → Acted m regs (s ∷ ss) (record h { signals = t ∷ h.signals })
skipped-Acted m regs s t ss h idle e (nothing_acts f a mem r l) =
    nothing_acts (rw idle f) a mem r (rw idle (ap₂ ◌∷◌ e l))
skipped-Acted m regs s t ss h idle e (handler_starts u f hd room a st l) =
    handler_starts u (rw idle f) hd room a st (rw idle (ap₂ ◌∷◌ e l))
skipped-Acted m regs s t ss h idle e (no_room u f hd room a r l) =
    no_room u (rw idle f) hd room a r (rw idle (ap₂ ◌∷◌ e l))
skipped-Acted m regs s t ss h idle e (default_halts u f hd a mem r l) =
    default_halts u (rw idle f) hd a mem r (rw idle (ap₂ ◌∷◌ e l))

delivery_cases :
    (d : Delivery)
    → ((m : Mem) × (d ≡ failed m))
      ⊎ ((m : Mem) × (t : Signal) × (r : IntRegs) × (d ≡ delivered m t r))
delivery_cases (failed m) = inl (m, refl)
delivery_cases (delivered m t r) = inr (m, t, r, refl)

no_room_lem :
    (m n : Mem) (s : Signal) (regs : IntRegs)
    → regs.esp < 2 ^ 32
    → deliver m s regs ≡ failed n
    → has_room regs.esp ≡ false
no_room_lem m n s regs h e = elim (Bool-cases (has_room regs.esp)) [
  | inr none_left ↦ none_left
  | inl room ↦
      let (l, t, r, d) = deliver_room m s regs h room in absurd (failed_ne_delivered (sym e ∙ d))
]
  where
    failed_ne_delivered : {m n : Mem} {t : Signal} {r : IntRegs} → failed m ≢ delivered n t r
    failed_ne_delivered e = ground (arith, e)

abbrev numbered : ℕ → ℕ → Bool → Bool → Signal
numbered n a k p = record { signum = n; handler_addr = a; masked = k; pending = p }

-- The first signal of the list, with the others done.
first-Acted :
    (m : Mem) (regs : IntRegs) (ss : List Signal) (n a : ℕ) (k p : Bool)
    → regs.esp < 2 ^ 32
    → Acted m regs ss (handle_all m regs ss)
    → Acted m regs (numbered n a k p ∷ ss) (handle_all m regs (numbered n a k p ∷ ss))
unfolding handle_all handle
first-Acted m regs ss n a k false h later =
    let s = numbered n a k false in
    skipped-Acted m regs s s ss (handle_all m regs ss) refl refl later
first-Acted m regs ss n a k true h later =
    let s = numbered n a k true in
    elim (Bool-cases (has_handler s)) [
      | inl has ↦
          let acts : acting s ≡ true = rw has refl in
          elim (delivery_cases (deliver m s regs)) [
            | inl (l, e) ↦
                rw (handle, has, e)
                  (no_room s (rw acts refl) has (no_room_lem m l s regs h e) refl refl
                    (rw acts refl))
            | inr (l, t, r, e) ↦
                let (starts, same) = deliver-StartsHandler m l s t regs r h e in
                rw (handle, has, e)
                  (handler_starts s (rw acts refl) has (delivered_room m l s t regs r h e) refl
                    starts (rw acts (ap (λ x. x ∷ ss) same)))
          ]
      | inr lacks ↦ elim (Bool-cases (ltb n 3)) [
        | inl default ↦
            let acts : acting s ≡ true = rw (lacks, default) refl in
            let e : handle m s regs ≡ halted m (if n == 2 then 130 else 256) =
              ground (arith, lacks, default) in
            rw e (default_halts s (rw acts refl) lacks refl refl refl (rw acts refl))
        | inr drops ↦
            let idle : acting s ≡ false = rw (lacks, drops) refl in
            let e : handle m s regs ≡ ignored (numbered n a k false) =
              ground (arith, lacks, drops) in
            rw e (
              skipped-Acted m regs s (numbered n a k false) ss (handle_all m regs ss) idle refl
                later)
      ]
    ]

-- For a 32-bit stack pointer, signal_handle_all acts on the first pending signal that has a
-- handler that may run or halts the process by default. A handler starts if the user stack has
-- room for the 108 bytes of the context: the registers then have its address, the stack below the
-- old one, the user segments and no direction flag, and are otherwise as they were; the stack
-- holds the return address to the call of sigreturn, the number of the signal and the old
-- registers; the memory outside is unchanged, and the signal is masked and no longer pending. If
-- there is no room, the process halts with 256; a signal without a handler that may run halts it
-- with 130 for an interrupt and with 256 for the others; in both cases the registers are
-- unchanged. Pending signals before that one, or all if none acts, are dropped, and the others
-- stay.
pub handle_all-Acted :
    (m : Mem) (regs : IntRegs) (ss : List Signal)
    → regs.esp < 2 ^ 32
    → Acted m regs ss (handle_all m regs ss)
unfolding handle_all
handle_all-Acted m regs [] h = nothing_acts refl refl refl refl refl
handle_all-Acted m regs (s ∷ ss) h =
    first-Acted m regs ss s.signum s.handler_addr s.masked s.pending h
      (handle_all-Acted m regs ss h)
