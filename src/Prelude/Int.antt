-- ===== src/Prelude/Int.antt =====
-- Signed numbers, for expiry times, which a negative duration can put before 1970.
use Prim.Native.Nat.{ℕ, suc, ◌+◌, ◌-◌, ◌/◌}
use mathlib.Core.Bool.{Bool, true, false}
use scopuli.Prelude.Tests.{ltb, if◌then◌else◌}

-- `negsuc n` is -(n + 1).
pub data ℤ : Type 0 where
  pos : ℕ → ℤ
  negsuc : ℕ → ℤ

abbrev pub add_ℤ : ℕ → ℤ → ℤ
add_ℤ a (pos b) = pos (a + b)
add_ℤ a (negsuc b) = if ltb b a then pos (a - suc b) else negsuc (b - a)

-- Division by a positive number, towards minus infinity.
abbrev pub div_floor : ℤ → ℕ → ℤ
div_floor (pos a) k = pos (a / k)
div_floor (negsuc a) k = negsuc (a / k)

-- `0 < a`.
abbrev pub is_positive : ℤ → Bool
is_positive (pos a) = ltb 0 a
is_positive (negsuc a) = false

-- `a < b` for a number `b` that is not negative.
abbrev pub lt_ℕ : ℤ → ℕ → Bool
lt_ℕ (pos a) b = ltb a b
lt_ℕ (negsuc a) b = true
