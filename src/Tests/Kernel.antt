-- ===== src/Tests/Kernel.antt =====
-- The processes, the signals and the devices, at concrete inputs.
use loli_os.Prelude.{
  ℕ, ◌+◌, ◌<◌, ◌≡◌, refl, inl, inr, true, false, some, [], ◌∷◌, arith, dec_lt, ◌==◌, if◌then◌else◌,
  pos,
}
use loli_os.Irq.{pic_init}
use loli_os.Irq.Masks.{Registered, pic_init-InStep, register_handler-Registered}
use loli_os.Keyboard.{keycode_to_char}
use loli_os.Keyboard.Layout.{toggle_case, keycode_to_char-toggle_case}
use loli_os.Process.{max_processes, new_pcb, Pcb}
use loli_os.Process.Schedule.{turn, get_next_pcb_reaches}
use loli_os.Process.Table.{IsTable}
use loli_os.Rtc.{read_rtc}
use loli_os.Rtc.Ticks.{ticks, read_rtc_returns}
use loli_os.FileObj.{FileObj, fops_rtc}
use loli_os.Memory.Bytes.{Mem, bytes, store}
use loli_os.Memory.Words.{word_at}
use loli_os.Regs.{IntRegs, regs_bytes}
use loli_os.Signals.{has_pending, start_handler, unmask, modify}
use loli_os.Signals.Context.{patched}
use loli_os.Signals.Delivery.{enter_handler, deliver, delivered, restore_regs, sigreturn}
use loli_os.Signals.Handling.{handle_all}
use loli_os.Signals.Layout.{return_code}
use loli_os.Signals.Acting.{Acted, handle_all-Acted}
use loli_os.Signals.Pending.{acts, has_pending-acts}
use loli_os.Signals.Return.{deliver-return_code, deliver-sigreturn}
use loli_os.Tests.Data.{user_regs, user_regs-IsRegs, letters, processes, divider, alarm, irqs}

get_next_pcb_reaches_example : (n : ℕ) × (n < max_processes) × (turn processes 2 n ≡ 1)
get_next_pcb_reaches_example = get_next_pcb_reaches processes 2 1 (omega arith) (omega arith) refl

processes-IsTable : IsTable processes
processes-IsTable i h = elim (dec_lt i 3) [
  | yes used ↦ inl (ground (arith, used))
  | no free ↦ inr (ground (arith, free))
]

abbrev with_fourth : ℕ → Pcb
with_fourth j = let p = processes 3 in if 3 == j then record p { pid = pos 3 } else processes j

fourth : new_pcb processes ≡ some (3, with_fourth)
unfolding new_pcb
fourth = refl

has_pending-acts_example :
    has_pending (alarm ∷ divider ∷ [])
    ≡ acts (handle_all letters user_regs (alarm ∷ divider ∷ [])).action
has_pending-acts_example = has_pending-acts letters user_regs (alarm ∷ divider ∷ [])

handle_all-Acted_example :
    Acted letters user_regs
      (alarm ∷ divider ∷ [])
      (handle_all letters user_regs (alarm ∷ divider ∷ []))
handle_all-Acted_example = handle_all-Acted letters user_regs (alarm ∷ divider ∷ []) (omega arith)

-- The delivery of a signal to the program.
abbrev handling : Mem
handling = patched letters divider user_regs 0x83FFF84

abbrev handler_regs : IntRegs
handler_regs = enter_handler user_regs divider 0x83FFF84

divider_delivered :
    deliver letters divider user_regs ≡ delivered handling (start_handler divider) handler_regs
unfolding deliver regs_bytes bytes store
divider_delivered = refl

deliver-return_code_example :
    (word_at handling 0x83FFF88 ≡ 0)
    × (bytes handling (word_at handling 0x83FFF84) 17 ≡ return_code 0 0x83FFF8C)
deliver-return_code_example =
    deliver-return_code letters handling divider (start_handler divider) user_regs handler_regs
      (omega arith) (omega arith) divider_delivered

deliver-sigreturn_example :
    sigreturn handling (start_handler divider ∷ []) (pos 0) 0x83FFF8C handler_regs
    ≡ (pos 7, modify (start_handler divider ∷ []) 0 unmask, restore_regs user_regs handler_regs)
deliver-sigreturn_example =
    deliver-sigreturn letters handling divider (start_handler divider) (start_handler divider ∷ [])
      user_regs handler_regs handler_regs user_regs-IsRegs (omega arith) divider_delivered

abbrev clock_file : FileObj
clock_file = record { ops_table = fops_rtc; inode_idx = 0; offset = 512; valid = true }

read_rtc_returns_example : read_rtc clock_file 77 false (ticks 77 2) ≡ some (pos 0)
read_rtc_returns_example =
    read_rtc_returns clock_file 77 2 (inr (inr (inr (inr (inr (inr (inr (inr (inl refl)))))))))
      (omega arith) (omega arith) (omega arith)

register_handler-Registered_example : Registered (pic_init irqs) 8 4096
register_handler-Registered_example =
    register_handler-Registered (pic_init irqs) 8 4096 (omega arith)
      (pic_init-InStep irqs (omega arith) (omega arith))

keycode_to_char-toggle_case_example :
    keycode_to_char (4 + 64) 30 ≡ toggle_case (keycode_to_char 4 30)
keycode_to_char-toggle_case_example = keycode_to_char-toggle_case 4 30 (inr (inl refl))
