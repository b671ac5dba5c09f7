-- ===== src/Prelude/Bounded.antt =====
-- Tests of all the numbers below a bound, to be decided by computation.
use Prim.Native.Nat.{ℕ, zero, suc, ◌<◌}
use mathlib.Core.Path.{◌≡◌, refl, ap, ◌∙◌}
use mathlib.Core.Bool.{Bool, true, false, ◌&&◌}
use native.Mathlib.Omega.{arith}
use native.Mathlib.Decide.{ℕ_discrete}

-- A test of all numbers below a bound.
abbrev pub all_below : ℕ → (ℕ → Bool) → Bool
all_below zero f = true
all_below (suc n) f = f n && all_below n f

pub all_below_sound : (n : ℕ) (f : ℕ → Bool) (i : ℕ) → all_below n f ≡ true → i < n → f i ≡ true
all_below_sound zero f i h hi = absurd (omega (arith, hi))
all_below_sound (suc n) f i h hi = elim (ℕ_discrete i n) [
  | yes e ↦ ap f e ∙ both_left (f n) (all_below n f) h
  | no ne ↦ all_below_sound n f i (both_right (f n) (all_below n f) h) (omega (arith, hi, ne))
]
  where
    both_left : (a b : Bool) → (a && b) ≡ true → a ≡ true
    both_left true b e = refl
    both_left false b e = e

    both_right : (a b : Bool) → (a && b) ≡ true → b ≡ true
    both_right true b e = e
    both_right false b e = ground (arith, e)
