-- ===== src/Prelude/Equal.antt =====
-- `bytes.Equal`, and claims over a small range that are checked by evaluation.
use Prim.Native.Nat.{ℕ, zero, suc, ◌<◌}
use mathlib.Core.Path.{◌≡◌}
use mathlib.Core.Logic.{◌↔◌}
use mathlib.Core.Bool.{Bool, true, false, ◌&&◌}
use mathlib.Core.List.{[], ◌∷◌}
use native.Mathlib.Omega.{arith}
use go_toml.Prelude.Tests.{◌==◌, Bytes}

unfoldable pub bytes_equal : Bytes → Bytes → Bool
bytes_equal [] [] = true
bytes_equal [] (d ∷ t) = false
bytes_equal (c ∷ s) [] = false
bytes_equal (c ∷ s) (d ∷ t) = c == d && bytes_equal s t

pub bytes_equal_iff : (s t : Bytes) → (bytes_equal s t ≡ true) ↔ (s ≡ t)
unfolding bytes_equal
bytes_equal_iff [] [] = ground arith
bytes_equal_iff [] (d ∷ t) = ground arith
bytes_equal_iff (c ∷ s) [] = ground arith
bytes_equal_iff (c ∷ s) (d ∷ t) = ground (arith, bytes_equal_iff s t)

-- A test passes at every number below the bound.
unfoldable pub passes_below : (ℕ → Bool) → ℕ → Bool
passes_below test zero = true
passes_below test (suc bound) = passes_below test bound && test bound

pub passes_below-lt :
    (test : ℕ → Bool) (bound : ℕ)
    → passes_below test bound ≡ true
    → (i : ℕ) → i < bound
    → test i ≡ true
unfolding passes_below
passes_below-lt test zero all i below = elim below [ ]
passes_below-lt test (suc bound) all i below =
    ground (arith, passes_below-lt test bound (ground arith) i)
