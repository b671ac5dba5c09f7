-- ===== src/Prelude/Words.antt =====
-- Machine words: `uint32_t` values are native numbers below 2 ^ 32, with the wrap written out, and
-- `int32_t` values are integers.
use Prim.Native.Nat.{ℕ, ◌+◌, ◌-◌, ◌%◌, ◌^◌}
use loli_os.Prelude.Int.{ℤ, pos, negsuc}
use loli_os.Prelude.Tests.{ltb, if◌then◌else◌}

-- Addition and subtraction of `uint32_t`.
abbrev pub add_u32 : ℕ → ℕ → ℕ
add_u32 a b = (a + b) % 2 ^ 32

abbrev pub sub_u32 : ℕ → ℕ → ℕ
sub_u32 a b = (a + 2 ^ 32 - b) % 2 ^ 32

-- The conversions between `int32_t` and `uint32_t`.
abbrev pub to_u32 : ℤ → ℕ
to_u32 (pos n) = n % 2 ^ 32
to_u32 (negsuc n) = 2 ^ 32 - 1 - n % 2 ^ 32

abbrev pub to_i32 : ℕ → ℤ
to_i32 w = if ltb w (2 ^ 31) then pos w else negsuc (2 ^ 32 - 1 - w)
