-- ===== src/Prelude/Lists.antt =====
-- Slices as lists measured and indexed by native numbers, under the library's names.
use Prim.Native.Nat.{ℕ, zero, suc, ◌+◌, ◌-◌, min}
use mathlib.Core.Path.{◌≡◌, refl, sym, ap, ◌∙◌}
use mathlib.Core.List.{List, [], ◌∷◌, ◌++◌}
use native.Mathlib.Omega.{arith}

module _ {ℓ} {A : Type ℓ} where
  abbrev pub length : List A → ℕ
  length [] = 0
  length (x ∷ xs) = suc (length xs)

  -- `xs[i]` where the code has tested that `i` is in range; elsewhere the default.
  abbrev pub get_or : List A → ℕ → A → A
  get_or [] i d = d
  get_or (x ∷ xs) zero d = x
  get_or (x ∷ xs) (suc i) d = get_or xs i d

  abbrev pub take : ℕ → List A → List A
  take zero xs = []
  take (suc n) [] = []
  take (suc n) (x ∷ xs) = x ∷ take n xs

  abbrev pub drop : ℕ → List A → List A
  drop zero xs = xs
  drop (suc n) [] = []
  drop (suc n) (x ∷ xs) = drop n xs

  -- A write out of bounds changes nothing.
  abbrev pub set : List A → ℕ → A → List A
  set [] i v = []
  set (x ∷ xs) zero v = v ∷ xs
  set (x ∷ xs) (suc i) v = x ∷ set xs i v

  abbrev pub All {κ} : (A → Type κ) → List A → Type κ
  All P [] = Unit {κ}
  All P (x ∷ xs) = P x × All P xs

module _ {ℓ} {A : Type ℓ} where
  -- `xs[lo:hi]`
  abbrev pub slice : List A → ℕ → ℕ → List A
  slice xs lo hi = take (hi - lo) (drop lo xs)

  pub length-append : (xs ys : List A) → length (xs ++ ys) ≡ length xs + length ys
  length-append [] ys = omega arith
  length-append (x ∷ xs) ys = omega (arith, length-append xs ys)

  pub take-append-drop : (n : ℕ) (xs : List A) → take n xs ++ drop n xs ≡ xs
  take-append-drop zero xs = refl
  take-append-drop (suc n) [] = refl
  take-append-drop (suc n) (x ∷ xs) = ap (λ t. x ∷ t) (take-append-drop n xs)

  pub length-take : (n : ℕ) (xs : List A) → length (take n xs) ≡ min n (length xs)
  length-take zero xs = omega arith
  length-take (suc n) [] = omega arith
  length-take (suc n) (x ∷ xs) = omega (arith, length-take n xs)

  pub length-drop : (n : ℕ) (xs : List A) → length (drop n xs) ≡ length xs - n
  length-drop zero xs = omega arith
  length-drop (suc n) [] = omega arith
  length-drop (suc n) (x ∷ xs) = omega (arith, length-drop n xs)

  drop_nil : (n : ℕ) → drop {A = A} n [] ≡ []
  drop_nil zero = refl
  drop_nil (suc n) = refl

  pub drop_all : (n : ℕ) (xs : List A) → n ≡ length xs → drop n xs ≡ []
  drop_all zero [] h = refl
  drop_all zero (x ∷ xs) h = absurd (omega arith)
  drop_all (suc n) [] h = refl
  drop_all (suc n) (x ∷ xs) h = drop_all n xs (omega arith)

  -- Positions behind `xs`.
  pub drop-append : (xs ys : List A) (k : ℕ) → length xs ≡ k → drop k (xs ++ ys) ≡ ys
  drop-append [] ys zero h = refl
  drop-append [] ys (suc k) h = absurd (omega arith)
  drop-append (x ∷ xs) ys zero h = absurd (omega arith)
  drop-append (x ∷ xs) ys (suc k) h = drop-append xs ys k (omega arith)

  pub drop-append_suc :
      (xs : List A) (y : A) (ys : List A) (k : ℕ) → length xs ≡ k → drop (suc k) (xs ++ y ∷ ys) ≡ ys
  drop-append_suc [] y ys zero h = refl
  drop-append_suc [] y ys (suc k) h = absurd (omega arith)
  drop-append_suc (x ∷ xs) y ys zero h = absurd (omega arith)
  drop-append_suc (x ∷ xs) y ys (suc k) h = drop-append_suc xs y ys k (omega arith)

  pub get_or-append :
      (xs : List A) (y : A) (ys : List A) (k : ℕ) (d : A)
      → length xs ≡ k
      → get_or (xs ++ y ∷ ys) k d ≡ y
  get_or-append [] y ys zero d h = refl
  get_or-append [] y ys (suc k) d h = absurd (omega arith)
  get_or-append (x ∷ xs) y ys zero d h = absurd (omega arith)
  get_or-append (x ∷ xs) y ys (suc k) d h = get_or-append xs y ys k d (omega arith)

  pub drop_past : (xs ys : List A) (k n : ℕ) → length xs ≡ k → drop (k + n) (xs ++ ys) ≡ drop n ys
  drop_past [] ys zero n h = ap (λ (j : ℕ). drop j ys) (let e : 0 + n ≡ n = omega arith in e)
  drop_past [] ys (suc k) n h = absurd (omega arith)
  drop_past (x ∷ xs) ys zero n h = absurd (omega arith)
  drop_past (x ∷ xs) ys (suc k) n h =
      let e : suc k + n ≡ suc (k + n) = omega arith in rw e (drop_past xs ys k n (omega arith))

  pub drop-add : (n i : ℕ) (xs : List A) → drop n (drop i xs) ≡ drop (i + n) xs
  drop-add n zero xs = ap (λ (j : ℕ). drop j xs) (let e : n ≡ 0 + n = omega arith in e)
  drop-add n (suc i) [] = drop_nil n ∙ sym (drop_nil (suc i + n))
  drop-add n (suc i) (x ∷ xs) =
      let e : suc i + n ≡ suc (i + n) = omega arith in rw e (drop-add n i xs)

  module _ {κ} (P : A → Type κ) where
    pub take-All : (n : ℕ) (xs : List A) → All P xs → All P (take n xs)
    take-All zero xs h = tt
    take-All (suc n) [] h = tt
    take-All (suc n) (x ∷ xs) (p, h) = (p, take-All n xs h)

    pub drop-All : (n : ℕ) (xs : List A) → All P xs → All P (drop n xs)
    drop-All zero xs h = h
    drop-All (suc n) [] h = tt
    drop-All (suc n) (x ∷ xs) (p, h) = drop-All n xs h
