-- ===== src/Signals/Pending.antt =====
-- signal_has_pending and signal_handle_all of student-distrib/signal.c, compared.
use loli_os.Prelude.{
  ◌≡◌, refl, ap, ◌∙◌, ◌≢◌, Bool, true, false, ◌&&◌, ◌||◌, not, List, [], ◌∷◌, arith, ◌==◌,
}
use loli_os.Memory.Bytes.{Mem}
use loli_os.Regs.{IntRegs}
use loli_os.Signals.{Signal, has_handler, has_pending, unmask, start_handler}
use loli_os.Signals.Delivery.{deliver, delivered}
use loli_os.Signals.Handling.{handle, started, Action, nothing, run_handler, halt, handle_all}

-- Whether an action does something to the process.
abbrev pub acts : Action → Bool
acts nothing = false
acts (run_handler a) = true
acts (halt c) = true

-- signal_has_pending holds exactly when signal_handle_all would start a handler or halt the
-- process, whether or not the user stack has room.
pub has_pending-acts :
    (m : Mem) (regs : IntRegs) (ss : List Signal)
    → has_pending ss ≡ acts (handle_all m regs ss).action
unfolding has_pending handle_all handle
has_pending-acts m regs [] = refl
has_pending-acts m regs (s ∷ ss) = ground (arith, has_pending-acts m regs ss)

-- Whether a signal of the list is pending.
abbrev pub any_pending : List Signal → Bool
any_pending [] = false
any_pending (s ∷ ss) = s.pending || any_pending ss

-- When nothing is done, no signal is left pending: those that are ignored by default are dropped.
pub handle_all-any_pending :
    (m : Mem) (regs : IntRegs) (ss : List Signal)
    → (handle_all m regs ss).action ≡ nothing
    → any_pending (handle_all m regs ss).signals ≡ false
unfolding handle_all handle
handle_all-any_pending m regs [] e = refl
handle_all-any_pending m regs (s ∷ ss) e = ground (arith, handle_all-any_pending m regs ss)

-- The signal raised again, for one signal.
abbrev pub raised : Signal → Signal
raised s = record s { pending = true }

delivered_signal :
    (m n : Mem) (s t : Signal) (regs r : IntRegs)
    → deliver m s regs ≡ delivered n t r
    → t ≡ start_handler s
unfolding deliver
delivered_signal m n s t regs r e = ground (arith, e)

handler_set : (s : Signal) → has_handler s ≡ true → (not (s.handler_addr == 0) && true) ≡ true
handler_set s h = ground (arith, h)

-- For a signal with a handler that may run, while the handler runs the same signal does not start
-- it again, wherever it is raised; once sigreturn has unmasked it, it does.
pub handle_reentry :
    (m n : Mem) (s t : Signal) (regs r : IntRegs)
    → has_handler s ≡ true
    → deliver m s regs ≡ delivered n t r
    → (handle m s regs ≡ started n t r)
      × ((l k : Mem) (u : Signal) (q p : IntRegs) → handle l (raised t) q ≢ started k u p)
      × (has_handler (unmask t) ≡ true)
unfolding handle
handle_reentry m n s t regs r h e =
    let same : t ≡ start_handler s = delivered_signal m n s t regs r e in
    let masked : t.masked ≡ true = ap (λ x. x.masked) same in
    let unmasked : has_handler (unmask t) ≡ true =
      ap (λ x. not (x.handler_addr == 0) && true) same ∙ handler_set s h in
    (rw (h, e) refl, λ l k u q p g. ground (arith, masked, g), unmasked)
