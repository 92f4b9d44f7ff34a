-- ===== src/Prelude/Slices.antt =====
-- Slices cut at several places.
use Prim.Native.Nat.{ℕ, zero, suc, ◌+◌, ◌-◌, ◌≤◌, ◌<◌}
use mathlib.Core.Path.{◌≡◌, refl, sym, ap, ◌∙◌}
use mathlib.Core.List.{[], ◌∷◌, ◌++◌}
use native.Mathlib.Omega.{arith}
use go_toml.Prelude.Tests.{Bytes}
use go_toml.Prelude.Lists.{length, get_or, take, drop, slice, take-append-drop, drop-add}

pub take-add : (d n : ℕ) (xs : Bytes) → take (d + n) xs ≡ take d xs ++ take n (drop d xs)
take-add zero n xs = let e : 0 + n ≡ n = omega arith in rw e refl
take-add (suc d) zero [] = let e : suc d + 0 ≡ suc d = omega arith in rw e refl
take-add (suc d) (suc n) [] = let e : suc d + suc n ≡ suc (d + suc n) = omega arith in rw e refl
take-add (suc d) n (x ∷ xs) =
    let e : suc d + n ≡ suc (d + n) = omega arith in rw e (ap (λ t. x ∷ t) (take-add d n xs))

-- `xs[lo:i+n]` is `xs[lo:i]` and `n` more.
pub slice-add :
    (xs : Bytes) (lo i n : ℕ) → lo ≤ i → slice xs lo (i + n) ≡ slice xs lo i ++ take n (drop i xs)
slice-add xs lo i n h =
    let e : i + n - lo ≡ i - lo + n = omega (arith, h) in
    let f : lo + (i - lo) ≡ i = omega (arith, h) in
    ap (λ (k : ℕ). take k (drop lo xs)) e
    ∙ take-add (i - lo) n (drop lo xs)
    ∙ ap (λ t. slice xs lo i ++ take n t) (drop-add (i - lo) lo xs ∙ ap (λ (k : ℕ). drop k xs) f)

-- `xs[lo:]` is `xs[lo:i]` and `xs[i:]`.
pub slice-append-drop : (xs : Bytes) (lo i : ℕ) → lo ≤ i → drop lo xs ≡ slice xs lo i ++ drop i xs
slice-append-drop xs lo i h =
    let f : lo + (i - lo) ≡ i = omega (arith, h) in
    sym (take-append-drop (i - lo) (drop lo xs))
    ∙ ap (λ t. slice xs lo i ++ t) (drop-add (i - lo) lo xs ∙ ap (λ (k : ℕ). drop k xs) f)

pub slice-nil : (xs : Bytes) (k : ℕ) → slice xs k k ≡ []
slice-nil xs k = let e : k - k ≡ 0 = omega arith in rw e refl

pub take-append-drop_at : (xs : Bytes) (i n : ℕ) → drop i xs ≡ take n (drop i xs) ++ drop (i + n) xs
take-append-drop_at xs i n =
    sym (take-append-drop n (drop i xs)) ∙ ap (λ t. take n (drop i xs) ++ t) (drop-add n i xs)

-- The byte at a position that is in range.
pub drop-get_or : (xs : Bytes) (i : ℕ) → i < length xs → drop i xs ≡ get_or xs i 0 ∷ drop (i + 1) xs
drop-get_or [] i h = absurd (omega (arith, h))
drop-get_or (x ∷ xs) zero h = refl
drop-get_or (x ∷ xs) (suc i) h =
    let e : suc i + 1 ≡ suc (i + 1) = omega arith in rw e (drop-get_or xs i (omega (arith, h)))

pub drop_over : (xs : Bytes) (i : ℕ) → length xs ≤ i → drop i xs ≡ []
drop_over [] zero h = refl
drop_over [] (suc i) h = refl
drop_over (x ∷ xs) zero h = absurd (omega (arith, h))
drop_over (x ∷ xs) (suc i) h = drop_over xs i (omega (arith, h))
