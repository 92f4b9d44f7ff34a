-- ===== src/Prelude/Decimal.antt =====
-- `strconv.Itoa`, and decimal text of a fixed width.
pub mod Padded
use Prim.Native.Nat.{ℕ, zero, suc, ◌+◌, ◌/◌, ◌%◌}
use mathlib.Core.Bool.{true, false}
use mathlib.Core.List.{[], ◌∷◌, ◌++◌}
use go_toml.Prelude.Tests.{ltb, Bytes}
use go_toml.Prelude.Int.{ℤ, pos, negsuc}

-- The digits of `n` in front of `out`; any fuel above `n` is enough.
unfoldable pub digits_onto : ℕ → ℕ → Bytes → Bytes
digits_onto zero n out = out
digits_onto (suc fuel) n out = elim (ltb n 10) [
  | true ↦ (b'0' + n) ∷ out
  | false ↦ digits_onto fuel (n / 10) ((b'0' + n % 10) ∷ out)
]

unfoldable pub itoa : ℤ → Bytes
unfolding digits_onto
itoa (pos n) = digits_onto (suc n) n []
itoa (negsuc n) = b'-' ∷ digits_onto (suc (suc n)) (suc n) []

-- The last `k` decimal digits of `n`.
unfoldable pub padded : ℕ → ℕ → Bytes
padded zero n = []
padded (suc k) n = padded k (n / 10) ++ (b'0' + n % 10) ∷ []
