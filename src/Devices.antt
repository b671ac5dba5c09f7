-- ===== src/Devices.antt =====
-- The interrupts of the devices: the PS/2 controller of student-distrib/ps2.c with the keyboard and the
-- mouse, the timer of pit.c, and the clock of rtc.c. What the ports of the PS/2 controller give is a
-- list of bytes, one for each read, in order; `none` is a wait that goes on at the end of the list, or
-- a failed assertion. What is written to ports is a list of writes.
pub mod Drain
pub mod Kept
pub mod Timer
use loli_os.Prelude.{
  ℕ, zero, suc, ◌/◌, ◌%◌, ◌^◌, bit_and, Bool, true, false, Option, none, some, List, [], ◌∷◌, ltb,
  ◌==◌, if◌then◌else◌, length,
}
use loli_os.Terminal.{MouseInput}
use loli_os.Terminal.Console.{◌>>=◌}
use loli_os.Terminal.Input.{handle_mouse_input}
use loli_os.Process.{update_clock}
use loli_os.Process.Context.{Kernel, switch}
use loli_os.Rtc.{next_counter}
use loli_os.Interrupts.{keyboard_handle_irq}

-- PS2_STATUS_HAS_OUT and PS2_STATUS_IS_MOUSE.
abbrev pub status_has_out : ℕ
status_has_out = 1

abbrev pub status_is_mouse : ℕ
status_is_mouse = 32

-- ps2_wait_output.
wait_output : List ℕ → Option (List ℕ)
wait_output [] = none
wait_output (status ∷ reads) =
    let rest = wait_output reads in if bit_and status status_has_out == 0 then rest else some reads

-- `inb` of the data port.
read_port : List ℕ → Option (ℕ × List ℕ)
read_port [] = none
read_port (b ∷ reads) = some (b, reads)

-- ps2_read_data.
unfoldable pub ps2_read_data : List ℕ → Option (ℕ × List ℕ)
unfolding wait_output read_port
ps2_read_data reads = do ready ← wait_output reads; read_port ready

-- The kernel, the modifiers of the keyboard, and what the ports still give.
pub record Ps2 : Type 0 where
  pub kernel : Kernel
  pub modifiers : ℕ
  pub reads : List ℕ

-- keyboard_handle_irq, which reads its packet.
keyboard_irq : ℕ → Ps2 → Option Ps2
unfolding ps2_read_data keyboard_handle_irq
keyboard_irq curr s = do
  (packet, reads) ← ps2_read_data s.reads
  (k, modifiers) ← keyboard_handle_irq s.kernel curr s.modifiers packet
  some (record { kernel = k; modifiers = modifiers; reads = reads })

-- terminal_handle_mouse_input on the kernel.
unfoldable pub mouse_event : Kernel → MouseInput → Option Kernel
unfolding handle_mouse_input
mouse_event k input = do
  console ← handle_mouse_input k.console input
  some (record k { console = console })

-- mouse_handle_irq.
unfoldable pub mouse_handle_irq : Ps2 → Option Ps2
unfolding ps2_read_data mouse_event
mouse_handle_irq s = do
  (flags, r1) ← ps2_read_data s.reads
  (dx, r2) ← ps2_read_data r1
  (dy, r3) ← ps2_read_data r2
  k ← mouse_event s.kernel (record { flags = flags; dx = dx; dy = dy })
  some (record s { kernel = k; reads = r3 })

-- One round of the loop of ps2_handle_irq, from the status on, and whether the loop goes on.
ps2_round : ℕ → Ps2 → Option (Bool × Ps2)
unfolding keyboard_irq mouse_handle_irq read_port
ps2_round curr s = do
  (status, reads) ← read_port s.reads
  let rest = record s { reads = reads }
  if bit_and status status_has_out == 0 then some (false, rest) else do
    s' ←
        if bit_and status status_is_mouse == 0
        then keyboard_irq curr rest
        else mouse_handle_irq rest
    some (true, s')

-- The loop of ps2_handle_irq, with the rounds that are left.
drain : ℕ → ℕ → Ps2 → Option Ps2
unfolding ps2_round
drain zero curr s = none
drain (suc n) curr s = elim (ps2_round curr s) [
  | none ↦ none
  | some (more, s') ↦ let rest = drain n curr s' in if more then rest else some s'
]

-- ps2_handle_irq. Each round reads a byte, so there are no more rounds than bytes.
unfoldable pub ps2_handle_irq : ℕ → Ps2 → Option Ps2
unfolding drain
ps2_handle_irq curr s = drain (length s.reads) curr s

-- A write of a byte to a port.
abbrev pub PortWrite : Type 0
PortWrite = ℕ × ℕ

-- PIT_FREQ_MAX and PIT_FREQ_MIN.
abbrev pub pit_freq_max : ℕ
pit_freq_max = 1193182

abbrev pub pit_freq_min : ℕ
pit_freq_min = 19

-- The reload value for a frequency, as a `uint16_t`.
abbrev pub pit_divisor : ℕ → ℕ
pit_divisor freq =
    if ltb freq pit_freq_min
    then 0
    else if ltb pit_freq_max freq
    then 1
    else pit_freq_max / freq % 2 ^ 16

-- pit_set_frequency: the bytes and the ports that they go to, PIT_PORT_CMD and PIT_PORT_DATA_0.
unfoldable pub pit_set_frequency : ℕ → List PortWrite
pit_set_frequency freq =
    let divisor = pit_divisor freq in
    (0x34, 0x43) ∷ (divisor % 256, 0x40) ∷ (divisor / 256 % 256, 0x40) ∷ []

-- pit_handle_irq: the process that executes then.
unfoldable pub pit_handle_irq : ℕ → Kernel → ℕ → Option (ℕ × Kernel)
unfolding switch
pit_handle_irq process_data k curr = switch process_data k curr

-- rtc_handle_irq: the counter and the kernel. The register that it reads is ignored.
unfoldable pub rtc_handle_irq : Kernel → ℕ → ℕ × Kernel
unfolding next_counter update_clock
rtc_handle_irq k counter =
    let new_counter = next_counter counter in
    (new_counter, record k { table = update_clock k.table new_counter })
