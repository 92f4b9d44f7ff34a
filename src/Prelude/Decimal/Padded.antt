-- ===== src/Prelude/Decimal/Padded.antt =====
-- Decimal text of a fixed width.
use Prim.Native.Nat.{ℕ, zero, suc, ◌+◌, ◌*◌, ◌/◌, ◌%◌, ◌^◌, ◌≤◌, ◌<◌}
use mathlib.Core.Path.{◌≡◌, refl, sym, ap, ◌∙◌}
use mathlib.Core.List.{[], ◌∷◌, ◌++◌, append_assoc, append-nil}
use native.Mathlib.Omega.{arith}
use native.Mathlib.Nat.{add-suc, add-zero, pow-suc, div-div-eq-div-mul, div-one}
use go_toml.Prelude.Tests.{Bytes}
use go_toml.Prelude.Int.{pos}
use go_toml.Prelude.Lists.{length, take, length-append}
use go_toml.Prelude.Decimal.{digits_onto, itoa, padded}

pub length-padded : (k n : ℕ) → length (padded k n) ≡ k
unfolding padded
length-padded zero n = refl
length-padded (suc k) n =
    omega
      (arith, length-append (padded k (n / 10)) ((b'0' + n % 10) ∷ []), length-padded k (n / 10))

take_prefix : (k : ℕ) (xs ys : Bytes) → k ≤ length xs → take k (xs ++ ys) ≡ take k xs
take_prefix zero xs ys h = refl
take_prefix (suc k) [] ys h = absurd (omega arith)
take_prefix (suc k) (x ∷ xs) ys h = ap (λ t. x ∷ t) (take_prefix k xs ys (omega arith))

pub take-length : (xs ys : Bytes) (k : ℕ) → length xs ≡ k → take k (xs ++ ys) ≡ xs
take-length [] ys zero h = refl
take-length [] ys (suc k) h = absurd (omega arith)
take-length (x ∷ xs) ys zero h = absurd (omega arith)
take-length (x ∷ xs) ys (suc k) h = ap (λ t. x ∷ t) (take-length xs ys k (omega arith))

digits_onto-padded :
    (k fuel n : ℕ) (out : Bytes)
    → 10 ^ k ≤ n
    → n < 10 ^ suc k
    → k < fuel
    → digits_onto fuel n out ≡ padded (suc k) n ++ out
unfolding digits_onto padded
digits_onto-padded k zero n out lo hi f = absurd (omega arith)
digits_onto-padded zero (suc fuel) n out lo hi f = ground arith
digits_onto-padded (suc k) (suc fuel) n out lo hi f = ground (
  arith,
  pow-suc 10 k,
  pow-suc 10 (suc k),
  digits_onto-padded k fuel (n / 10) ((b'0' + n % 10) ∷ out),
  append_assoc (padded (suc k) (n / 10)) ((b'0' + n % 10) ∷ []) out,
)

pub padded-suc : (k n : ℕ) → padded (suc k) n ≡ padded k (n / 10) ++ (b'0' + n % 10) ∷ []
unfolding padded
padded-suc k n = refl

lead_shift :
    (d t n : ℕ) → ((d * (t * 10) + n) / 10 ≡ d * t + n / 10) × ((d * (t * 10) + n) % 10 ≡ n % 10)
lead_shift d t n = omega arith

-- A leading digit.
padded-lead :
    (k d n : ℕ) → n < 10 ^ k → d < 10 → padded (suc k) (d * 10 ^ k + n) ≡ (b'0' + d) ∷ padded k n
padded-lead zero d n h hd = unfold padded in ground arith
padded-lead (suc k) d n h hd =
    let (quotient, last) = lead_shift d (10 ^ k) n in
    let small : n / 10 < 10 ^ k = omega (arith, pow-suc 10 k) in
    rw (padded-suc (suc k) (d * 10 ^ suc k + n))
      (rw (pow-suc 10 k) (rw (quotient, last, padded-lead k d (n / 10) small hd, padded-suc k n)))

-- The text of `n + 1_000_000_000` is a 1 in front of the nine digits of `n`.
pub itoa-nanos : (n : ℕ) → n < 1_000_000_000 → itoa (pos (n + 1_000_000_000)) ≡ b'1' ∷ padded 9 n
unfolding itoa
itoa-nanos n h =
    digits_onto-padded 9 (suc (n + 1_000_000_000)) (n + 1_000_000_000) [] (omega arith)
      (omega arith) (omega arith)
    ∙ append-nil _
    ∙ ap (padded 10) (let e : n + 1_000_000_000 ≡ 1 * 10 ^ 9 + n = omega arith in e)
    ∙ padded-lead 9 1 n h (omega arith)

-- The first `p` of `p + q` digits.
pub take-padded : (p q n : ℕ) → take p (padded (p + q) n) ≡ padded p (n / 10 ^ q)
take-padded p zero n =
    rw (add-zero p, div-one n)
      (ap (take p) (sym (append-nil (padded p n)))
        ∙ take-length (padded p n) [] p (length-padded p n))
take-padded p (suc q) n =
    let long : p ≤ length (padded (p + q) (n / 10)) =
      omega (arith, length-padded (p + q) (n / 10)) in
    let power : 10 ^ suc q ≡ 10 * 10 ^ q = omega (arith, pow-suc 10 q) in
    rw
      (
        add-suc p q,
        padded-suc (p + q) n,
        take_prefix p (padded (p + q) (n / 10)) ((b'0' + n % 10) ∷ []) long,
      )
      (take-padded p q (n / 10) ∙ ap (padded p) (rw (power, div-div-eq-div-mul)))
