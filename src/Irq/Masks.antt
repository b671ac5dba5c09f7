-- ===== src/Irq/Masks.antt =====
-- Which interrupt lines the masks of student-distrib/i8259.c let through, and what their handlers in
-- student-distrib/irq.c run.
use loli_os.Prelude.{
  ℕ, ◌-◌, ◌^◌, ◌<◌, bit_and, bit_or, ◌≡◌, refl, sym, ap, ap₂, ◌∙◌, ◌≢◌, inl, inr, Bool, true, false,
  ◌&&◌, ◌||◌, not, some, List, [], ◌∷◌, ◌++◌, arith, ltb, leb, ◌==◌, if◌then◌else◌, Bool-cases,
  all_below, all_below_sound,
}
use loli_os.Irq.{
  Irqs, num_irq, clear_bit, set_bit, enable_irq, handle_interrupt, register_handler, send_eoi, outb,
  master_port, slave_port, mask_all, pic_init, eoi, master_cmd, slave_cmd, irq_slave,
}

abbrev pub bit_clear : ℕ → ℕ → Bool
bit_clear mask n = bit_and mask (2 ^ n) == 0

-- The value that was last written to a port: the mask of a controller, once it is set up, is what was
-- last written to its data port. Before any write all lines are taken as masked.
abbrev pub last_written : ℕ → List (ℕ × ℕ) → ℕ
last_written port [] = mask_all
last_written port ((to, value) ∷ earlier) = if to == port then value else last_written port earlier

-- Whether the controllers let a line through.
abbrev pub is_enabled : Irqs → ℕ → Bool
is_enabled s n =
    if ltb n 8
    then bit_clear (last_written master_port s.ports) n
    else bit_clear (last_written slave_port s.ports) (n - 8)

-- The masks that the kernel remembers are those of the controllers, and have 8 bits.
pub record InStep (s : Irqs) : Type 0 where
  pub master : last_written master_port s.ports ≡ s.master_mask
  pub slave : last_written slave_port s.ports ≡ s.slave_mask
  pub master_bits : s.master_mask < 256
  pub slave_bits : s.slave_mask < 256

-- The controllers are in step once they are set up.
pub pic_init-InStep : (s : Irqs) → s.master_mask < 256 → s.slave_mask < 256 → InStep (pic_init s)
unfolding pic_init
pic_init-InStep s hm hs = record { master = refl; slave = refl; master_bits = hm; slave_bits = hs }

same_bool : Bool → Bool → Bool
same_bool true b = b
same_bool false b = not b

same_bool_sound : (a b : Bool) → same_bool a b ≡ true → a ≡ b
unfolding same_bool
same_bool_sound a b h = ground arith

bits_ok : ℕ → ℕ → ℕ → Bool
unfolding clear_bit set_bit same_bool
bits_ok i j m =
    same_bool (bit_clear (clear_bit m i) j) (i == j || bit_clear m j)
    && same_bool (bit_clear (set_bit m i) j) (not (i == j) && bit_clear m j)

bits_ok_all : all_below 8 (λ i. all_below 8 (λ j. all_below 256 (bits_ok i j))) ≡ true
unfolding bits_ok
bits_ok_all = refl

bits_lem :
    (i j m : ℕ)
    → i < 8
    → j < 8
    → m < 256
    → (bit_clear (clear_bit m i) j ≡ (i == j || bit_clear m j))
      × (bit_clear (set_bit m i) j ≡ (not (i == j) && bit_clear m j))
unfolding bits_ok
bits_lem i j m hi hj hm =
    let first =
      all_below_sound 8 (λ i. all_below 8 (λ j. all_below 256 (bits_ok i j))) i bits_ok_all hi in
    let second = all_below_sound 8 (λ j. all_below 256 (bits_ok i j)) j first hj in
    let third : bits_ok i j m ≡ true = all_below_sound 256 (bits_ok i j) m second hm in
    let (clear, set_) =
      both (same_bool (bit_clear (clear_bit m i) j) (i == j || bit_clear m j)) _ third in
    (
      same_bool_sound (bit_clear (clear_bit m i) j) (i == j || bit_clear m j) clear,
      same_bool_sound (bit_clear (set_bit m i) j) (not (i == j) && bit_clear m j) set_,
    )
  where
    both : (a b : Bool) → (a && b) ≡ true → (a ≡ true) × (b ≡ true)
    both true b e = (refl, e)
    both false b e = ground (arith, e)

clear_bit-bound : (m n : ℕ) → clear_bit m n < 256
unfolding clear_bit
clear_bit-bound m n = omega arith

-- What enabling line n does: it is let through, and no other line changes.
pub record Enabled (s : Irqs) (n : ℕ) : Type 0 where
  pub after : Irqs
  pub result : enable_irq s n ≡ some after
  pub lines : (j : ℕ) → j < num_irq → is_enabled after j ≡ (n == j || is_enabled s j)
  pub handlers : after.handlers ≡ s.handlers
  pub in_step : InStep after

-- Enabling a line lets it through and changes no other.
pub enable_irq-Enabled : (s : Irqs) (n : ℕ) → n < num_irq → InStep s → Enabled s n
unfolding enable_irq
enable_irq-Enabled s n h w =
    let in_n : leb num_irq n ≡ false = ground (arith, h) in
    let master = w.master in
    let slave = w.slave in
    elim (Bool-cases (ltb n 8)) [
      | inl low ↦
          let m = clear_bit s.master_mask n in
          record {
            after = outb (record s { master_mask = m }) m master_port;
            result = rw (in_n, low) refl;
            lines = λ j hj. elim (Bool-cases (ltb j 8)) [
              | inl lj ↦ rw lj (
                  (bits_lem n j s.master_mask (ground (arith, low)) (ground (arith, lj))
                    w.master_bits).0
                  ∙ ap (λ mask. n == j || bit_clear mask j) (sym master))
              | inr gj ↦ let ne : (n == j) ≡ false = ground (arith, low, gj) in rw (gj, ne) refl
            ];
            handlers = refl;
            in_step = record {
              master = refl;
              slave = slave;
              master_bits = clear_bit-bound s.master_mask n;
              slave_bits = w.slave_bits;
            };
          }
      | inr high ↦
          let m = clear_bit s.slave_mask (n - 8) in
          record {
            after = outb (record s { slave_mask = m }) m slave_port;
            result = rw (in_n, high) refl;
            lines = λ j hj. elim (Bool-cases (ltb j 8)) [
              | inl lj ↦ let ne : (n == j) ≡ false = ground (arith, high, lj) in rw (lj, ne) refl
              | inr gj ↦
                  let same : (n - 8 == j - 8) ≡ (n == j) = ground (arith, high, gj) in
                  rw gj (
                    (bits_lem (n - 8) (j - 8) s.slave_mask (omega (arith, h)) (omega (arith, hj))
                      w.slave_bits).0
                    ∙ ap₂ (λ b mask. b || bit_clear mask (j - 8)) same (sym slave))
            ];
            handlers = refl;
            in_step = record {
              master = master;
              slave = refl;
              master_bits = w.master_bits;
              slave_bits = clear_bit-bound s.slave_mask (n - 8);
            };
          }
    ]

-- The specific end of interrupt of a line: to the slave, and to the master for the line of the slave,
-- or to the master alone.
abbrev pub eoi_writes : ℕ → List (ℕ × ℕ)
eoi_writes n =
    if ltb n 8
    then (master_cmd, bit_or n eoi) ∷ []
    else (master_cmd, bit_or irq_slave eoi) ∷ (slave_cmd, bit_or (n - 8) eoi) ∷ []

send_eoi_lem :
    (s : Irqs) (n : ℕ)
    → n < num_irq
    → (r : Irqs) × (send_eoi s n ≡ some r) × (r.ports ≡ eoi_writes n ++ s.ports)
unfolding send_eoi
send_eoi_lem s n h =
    let in_n : leb num_irq n ≡ false = ground (arith, h) in
    elim (Bool-cases (ltb n 8)) [
      | inl low ↦ (outb s (bit_or n eoi) master_cmd, rw (in_n, low) refl, rw low refl)
      | inr high ↦ (
        outb (outb s (bit_or (n - 8) eoi) slave_cmd) (bit_or irq_slave eoi) master_cmd,
        rw (in_n, high) refl,
        rw high refl,
      )
    ]

-- The writes of an end of interrupt do not go to the masks.
eoi_writes_other :
    (n : ℕ) (ports : List (ℕ × ℕ))
    → (last_written master_port (eoi_writes n ++ ports) ≡ last_written master_port ports)
      × (last_written slave_port (eoi_writes n ++ ports) ≡ last_written slave_port ports)
eoi_writes_other n ports = elim (Bool-cases (ltb n 8)) [
  | inl low ↦ rw low (refl, refl)
  | inr high ↦ rw high (refl, refl)
]

still_enabled :
    (s r : Irqs) (n j : ℕ) → r.ports ≡ eoi_writes n ++ s.ports → is_enabled r j ≡ is_enabled s j
still_enabled s r n j e = elim (Bool-cases (ltb j 8)) [
  | inl low ↦ rw low (
      ap (λ p. bit_clear (last_written master_port p) j) e
      ∙ ap (λ m. bit_clear m j) (eoi_writes_other n s.ports).0)
  | inr high ↦ rw high (
      ap (λ p. bit_clear (last_written slave_port p) (j - 8)) e
      ∙ ap (λ m. bit_clear m (j - 8)) (eoi_writes_other n s.ports).1)
]

-- What registering a handler for line n does. The next interrupt of the line tells its controllers
-- that it has ended, and leaves the lines as they are.
pub record Registered (s : Irqs) (n callback : ℕ) : Type 0 where
  pub after : Irqs
  pub result : register_handler s n callback ≡ some after
  pub lines : (j : ℕ) → j < num_irq → is_enabled after j ≡ (n == j || is_enabled s j)
  pub in_step : InStep after
  pub handled : Irqs
  pub runs : handle_interrupt after n ≡ some (handled, some callback)
  pub still : (j : ℕ) → is_enabled handled j ≡ is_enabled after j
  pub ended : handled.ports ≡ eoi_writes n ++ after.ports
  pub others : (j : ℕ) → j ≢ n → after.handlers j ≡ s.handlers j

abbrev with_handler : Irqs → ℕ → ℕ → Irqs
with_handler s n callback =
    let old = s.handlers in record s { handlers = λ j. if j == n then some callback else old j }

register_handler_in :
    (s : Irqs) (n callback : ℕ)
    → n < num_irq
    → register_handler s n callback ≡ enable_irq (with_handler s n callback) n
unfolding register_handler
register_handler_in s n callback h =
    let in_n : leb num_irq n ≡ false = ground (arith, h) in rw in_n refl

handle_interrupt_in :
    (s r : Irqs) (n : ℕ)
    → n < num_irq
    → send_eoi s n ≡ some r
    → handle_interrupt s n ≡ some (r, s.handlers n)
unfolding handle_interrupt
handle_interrupt_in s r n h sent =
    let in_n : leb num_irq n ≡ false = ground (arith, h) in rw (handle_interrupt, sent, in_n) refl

-- For a line below 16, and controllers whose masks are those that the kernel remembers, as
-- i8259_init leaves them, irq_register_handler succeeds; the mask that is last written to the data
-- port of its controller then lets the line through, no other line of the two controllers changes,
-- and the masks are still the same. The next interrupt of the line ends it at its controllers,
-- leaves the masks and runs the handler, and the other lines keep theirs.
pub register_handler-Registered :
    (s : Irqs) (n callback : ℕ) → n < num_irq → InStep s → Registered s n callback
register_handler-Registered s n callback h w =
    let t = with_handler s n callback in
    let t_in_step : InStep t = record {
      master = w.master;
      slave = w.slave;
      master_bits = w.master_bits;
      slave_bits = w.slave_bits;
    } in
    let e = enable_irq-Enabled t n h t_in_step in
    let (r, sent, ports) = send_eoi_lem e.after n h in
    let self : (n == n) ≡ true = ground arith in
    let here : e.after.handlers n ≡ some callback = ap (λ f. f n) e.handlers ∙ rw self refl in
    record {
      after = e.after;
      result = register_handler_in s n callback h ∙ e.result;
      lines = e.lines;
      in_step = e.in_step;
      handled = r;
      still = λ j. still_enabled e.after r n j ports;
      ended = ports;
      runs = handle_interrupt_in e.after r n h sent ∙ ap (λ c. some (r, c)) here;
      others = λ j ne.
          let other : (j == n) ≡ false = ground (arith, ne) in
          ap (λ f. f j) e.handlers ∙ rw other refl;
    }
