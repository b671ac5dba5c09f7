-- ===== src/Devices/Timer.antt =====
-- The timer's frequency, of student-distrib/pit.c.
use loli_os.Prelude.{
  ℕ, ◌+◌, ◌*◌, ◌≤◌, ◌≡◌, refl, Option, none, some, List, [], ◌∷◌, arith, ◌==◌, if◌then◌else◌,
}
use loli_os.Devices.{PortWrite, pit_set_frequency}

-- The value that the timer takes from the writes to its data port: the low byte, then the high byte,
-- where 0 stands for 65536.
pub reload : List PortWrite → Option ℕ
reload ((cmd, c) ∷ (low, p) ∷ (high, q) ∷ []) =
    let value = low + 256 * high in some (if value == 0 then 65536 else value)
reload ws = none

-- For every frequency, the timer counts from a value of 1 to 65536.
pub pit_set_frequency_lem :
    (freq : ℕ)
    → (value : ℕ) × (reload (pit_set_frequency freq) ≡ some value) × (1 ≤ value) × (value ≤ 65536)
unfolding pit_set_frequency reload
pit_set_frequency_lem freq = (_, refl, ground arith, ground arith)
