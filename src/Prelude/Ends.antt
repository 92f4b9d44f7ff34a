-- ===== src/Prelude/Ends.antt =====
-- Byte slices taken apart behind: the last byte, a longer prefix, a write at the end of a prefix.
use Prim.Native.Nat.{ℕ, zero, suc, ◌+◌, ◌≤◌, ◌<◌}
use mathlib.Core.Path.{◌≡◌, refl, ap}
use mathlib.Core.List.{[], ◌∷◌, ◌++◌}
use native.Mathlib.Omega.{arith}
use go_toml.Prelude.Tests.{Bytes}
use go_toml.Prelude.Lists.{length, get_or, take, drop, set, length-append}

pub append-snoc-inj : (xs ys : Bytes) (a b : ℕ) → xs ++ a ∷ [] ≡ ys ++ b ∷ [] → (xs ≡ ys) × (a ≡ b)
append-snoc-inj [] [] a b e = ground arith
append-snoc-inj [] (y ∷ ys) a b e = absurd (omega (arith, ap length e, length-append ys (b ∷ [])))
append-snoc-inj (x ∷ xs) [] a b e = absurd (omega (arith, ap length e, length-append xs (a ∷ [])))
append-snoc-inj (x ∷ xs) (y ∷ ys) a b e = ground (arith, append-snoc-inj xs ys a b)

pub take-suc :
    (n : ℕ) (xs : Bytes) → n < length xs → take (suc n) xs ≡ take n xs ++ get_or xs n 0 ∷ []
take-suc zero [] h = absurd (omega arith)
take-suc zero (x ∷ xs) h = refl
take-suc (suc n) [] h = absurd (omega arith)
take-suc (suc n) (x ∷ xs) h = ap (λ t. x ∷ t) (take-suc n xs (omega arith))

pub take-set :
    (n k : ℕ) (xs : Bytes) → n < length xs → take (suc n) (set xs n k) ≡ take n xs ++ k ∷ []
take-set zero k [] h = absurd (omega arith)
take-set zero k (x ∷ xs) h = refl
take-set (suc n) k [] h = absurd (omega arith)
take-set (suc n) k (x ∷ xs) h = ap (λ t. x ∷ t) (take-set n k xs (omega arith))

pub length-set : (n k : ℕ) (xs : Bytes) → length (set xs n k) ≡ length xs
length-set n k [] = refl
length-set zero k (x ∷ xs) = refl
length-set (suc n) k (x ∷ xs) = ap suc (length-set n k xs)

pub take_all : (n : ℕ) (xs : Bytes) → length xs ≤ n → take n xs ≡ xs
take_all zero [] h = refl
take_all zero (x ∷ xs) h = absurd (omega arith)
take_all (suc n) [] h = refl
take_all (suc n) (x ∷ xs) h = ap (λ t. x ∷ t) (take_all n xs (omega arith))

pub no_extra : (xs : Bytes) → length xs ≡ 0 → xs ≡ []
no_extra [] h = refl
no_extra (x ∷ xs) h = absurd (omega arith)

-- A slice taken apart at a position.
drop-cons_suc :
    (i : ℕ) (xs : Bytes) {c : ℕ} {rest : Bytes}
    → drop i xs ≡ c ∷ rest
    → (get_or xs i 0 ≡ c) × (drop (suc i) xs ≡ rest) × (i < length xs)
drop-cons_suc zero [] e = absurd (ground (arith, e))
drop-cons_suc zero (x ∷ xs) e = (ground (arith, e), ground (arith, e), omega arith)
drop-cons_suc (suc i) [] e = absurd (ground (arith, e))
drop-cons_suc (suc i) (x ∷ xs) e =
    let (here, behind, inside) = drop-cons_suc i xs e in (here, behind, omega (arith, inside))

pub drop-cons :
    (i : ℕ) (xs : Bytes) {c : ℕ} {rest : Bytes}
    → drop i xs ≡ c ∷ rest
    → (get_or xs i 0 ≡ c) × (drop (i + 1) xs ≡ rest) × (i < length xs)
drop-cons i xs {rest} e =
    let (here, behind, inside) = drop-cons_suc i xs e in
    let one : i + 1 ≡ suc i = omega arith in (here, rw one behind, inside)

-- Behind a part of a slice.
pub drop_behind :
    (i : ℕ) (p xs rest : Bytes) → drop i xs ≡ p ++ rest → drop (i + length p) xs ≡ rest
drop_behind i [] xs rest e = let same : i + 0 ≡ i = omega arith in rw same e
drop_behind i (c ∷ p) xs rest e =
    let (here, behind, inside) = drop-cons i xs e in
    let same : i + suc (length p) ≡ i + 1 + length p = omega arith in
    rw same (drop_behind (i + 1) p xs rest behind)
