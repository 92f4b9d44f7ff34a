-- ===== src/Prelude/Int.antt =====
-- Signed integers, for `int`. The code compares and prints such values and takes remainders of
-- them; no sum of them comes near the ends of the range.
use Prim.Native.Nat.{ℕ, suc, ◌+◌, ◌-◌, ◌%◌}
use mathlib.Core.Bool.{Bool, true, false}
use go_toml.Prelude.Tests.{ltb, ◌==◌, if◌then◌else◌}

-- `negsuc n` is -(n + 1).
pub data ℤ : Type 0 where
  pos : ℕ → ℤ
  negsuc : ℕ → ℤ

abbrev pub abs : ℤ → ℕ
abs (pos n) = n
abs (negsuc n) = suc n

-- `z < 0`
abbrev pub is_negative : ℤ → Bool
is_negative (pos n) = false
is_negative (negsuc n) = true

-- `z < k` and `z > k` for a constant `k` that is not negative.
abbrev pub below : ℤ → ℕ → Bool
below (pos n) k = ltb n k
below (negsuc n) k = true

abbrev pub above : ℤ → ℕ → Bool
above (pos n) k = ltb k n
above (negsuc n) k = false

-- `z % k == 0`; the remainder of a negative `z` has the sign of `z`.
abbrev pub divides : ℕ → ℤ → Bool
divides k z = abs z % k == 0

-- `z + k` for a constant `k` that is not negative.
abbrev pub add_pos : ℤ → ℕ → ℤ
add_pos (pos n) k = pos (n + k)
add_pos (negsuc n) k = if ltb n k then pos (k - suc n) else negsuc (n - k)

-- `int` of a value that a test has shown not to be negative.
abbrev pub pos_part : ℤ → ℕ
pos_part (pos n) = n
pos_part (negsuc n) = 0
