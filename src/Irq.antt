-- ===== src/Irq.antt =====
-- The interrupt controller and the handlers of its lines: student-distrib/i8259.c and
-- student-distrib/irq.c. The bytes that are written to the ports are listed, the latest first; `none`
-- is a failed assertion.
pub mod Masks
use loli_os.Prelude.{
  ℕ, ◌-◌, ◌%◌, ◌^◌, bit_and, bit_or, Option, none, some, List, ◌∷◌, ltb, leb, ◌==◌, if◌then◌else◌,
}

-- The ports and control words of i8259.h, and NUM_IRQ and IRQ_SLAVE.
abbrev pub master_cmd : ℕ
master_cmd = 32

abbrev pub master_port : ℕ
master_port = 33

abbrev pub slave_cmd : ℕ
slave_cmd = 160

abbrev pub slave_port : ℕ
slave_port = 161

abbrev pub mask_all : ℕ
mask_all = 255

abbrev pub eoi : ℕ
eoi = 96

abbrev pub irq_slave : ℕ
irq_slave = 2

abbrev pub num_irq : ℕ
num_irq = 16

-- The two masks, the handlers by line, and the writes to the ports as (port, value).
pub record Irqs : Type 0 where
  pub master_mask : ℕ
  pub slave_mask : ℕ
  pub handlers : ℕ → Option ℕ
  pub ports : List (ℕ × ℕ)

abbrev pub outb : Irqs → ℕ → ℕ → Irqs
outb s value port = record s { ports = (port, value) ∷ s.ports }

-- i8259_init.
unfoldable pub pic_init : Irqs → Irqs
pic_init s = record s {
  ports =
      (slave_port, s.slave_mask)
      ∷ (master_port, s.master_mask)
      ∷ (slave_port, 1)
      ∷ (slave_port, 2)
      ∷ (slave_port, 40)
      ∷ (slave_cmd, 17)
      ∷ (master_port, 1)
      ∷ (master_port, 4)
      ∷ (master_port, 32)
      ∷ (master_cmd, 17)
      ∷ (slave_port, mask_all)
      ∷ (master_port, mask_all)
      ∷ s.ports;
}

-- `mask &= ~(1 << n)` and `mask |= 1 << n`, on a `uint8_t`.
unfoldable pub clear_bit : ℕ → ℕ → ℕ
clear_bit mask n = bit_and mask (2 ^ 32 - 1 - 2 ^ n) % 2 ^ 8

unfoldable pub set_bit : ℕ → ℕ → ℕ
set_bit mask n = bit_or mask (2 ^ n) % 2 ^ 8

-- i8259_enable_irq.
unfoldable pub enable_irq : Irqs → ℕ → Option Irqs
unfolding clear_bit
enable_irq s n =
    let master = clear_bit s.master_mask n in
    let slave = clear_bit s.slave_mask (n - 8) in
    if leb num_irq n
    then none
    else if ltb n 8
    then some (outb (record s { master_mask = master }) master master_port)
    else some (outb (record s { slave_mask = slave }) slave slave_port)

-- i8259_disable_irq.
unfoldable pub disable_irq : Irqs → ℕ → Option Irqs
unfolding set_bit
disable_irq s n =
    let master = set_bit s.master_mask n in
    let slave = set_bit s.slave_mask (n - 8) in
    if leb num_irq n
    then none
    else if ltb n 8
    then some (outb (record s { master_mask = master }) master master_port)
    else some (outb (record s { slave_mask = slave }) slave slave_port)

-- i8259_send_eoi.
unfoldable pub send_eoi : Irqs → ℕ → Option Irqs
send_eoi s n =
    if leb num_irq n
    then none
    else if ltb n 8
    then some (outb s (bit_or n eoi) master_cmd)
    else some (outb (outb s (bit_or (n - 8) eoi) slave_cmd) (bit_or irq_slave eoi) master_cmd)

-- irq_handle_interrupt: the callback that it runs, if one is registered.
unfoldable pub handle_interrupt : Irqs → ℕ → Option (Irqs × Option ℕ)
unfolding send_eoi
handle_interrupt s n =
    if leb num_irq n
    then none
    else elim (send_eoi s n) [ none ↦ none | some s' ↦ some (s', s.handlers n) ]

-- irq_register_handler and irq_unregister_handler.
unfoldable pub register_handler : Irqs → ℕ → ℕ → Option Irqs
unfolding enable_irq
register_handler s n callback =
    let handlers = s.handlers in
    if leb num_irq n
    then none
    else enable_irq (record s { handlers = λ j. if j == n then some callback else handlers j }) n

abbrev pub forget_handler : Irqs → ℕ → Irqs
forget_handler s n =
    let handlers = s.handlers in record s { handlers = λ j. if j == n then none else handlers j }

unfoldable pub unregister_handler : Irqs → ℕ → Option Irqs
unfolding disable_irq
unregister_handler s n =
    if leb num_irq n
    then none
    else elim (disable_irq s n) [ none ↦ none | some s' ↦ some (forget_handler s' n) ]
