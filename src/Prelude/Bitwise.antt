-- ===== src/Prelude/Bitwise.antt =====
-- Laws of the operations on binary digits that hold for words of every width: an operation acts
-- apart on the low digits and on those above them.
use Prim.Native.Nat.{
  ℕ, zero, suc, ◌+◌, ◌*◌, ◌/◌, ◌%◌, ◌^◌, ◌≤◌, ◌<◌, min, max, digits, differ, bitwise, bit_and,
  bit_or, bit_xor, bit_and-bitwise, bit_or-bitwise, bit_xor-bitwise,
}
use mathlib.Core.Path.{◌≡◌, refl, sym, ap, ◌∙◌}
use native.Mathlib.Omega.{arith}
use native.Mathlib.Nat.{pow-suc}

doubled : (k x : ℕ) → 2 ^ suc k * x ≡ 2 * (2 ^ k * x)
doubled k x = omega (arith, ap (λ (t : ℕ). t * x) (pow-suc 2 k))

halves :
    (a k x : ℕ) → ((a + 2 ^ suc k * x) / 2 ≡ a / 2 + 2 ^ k * x) × ((a + 2 ^ suc k * x) % 2 ≡ a % 2)
halves a k x = omega (arith, doubled k x)

no_digits : (a x : ℕ) → a < 2 ^ 0 → (a ≡ 0) × (a + 2 ^ 0 * x ≡ x)
no_digits a x h = omega arith

-- `f` is the operation on two digits; `z` gives the digits above the first number.
module _ (z : ℕ → ℕ) (f : ℕ → ℕ → ℕ) (z-zero : z 0 ≡ 0)
    (z_digit : (b : ℕ) → z b ≡ z (b / 2) * 2 + f 0 (b % 2)) where
  enough : (n m a b : ℕ) → a ≤ n → a ≤ m → digits z f n a b ≡ digits z f m a b
  enough zero zero a b p q = refl
  enough zero (suc m) zero b p q = refl
  enough zero (suc m) (suc a) b p q = elim p [ ]
  enough (suc n) zero zero b p q = refl
  enough (suc n) zero (suc a) b p q = elim q [ ]
  enough (suc n) (suc m) zero b p q = refl
  enough (suc n) (suc m) (suc a) b p q =
      ap (λ (t : ℕ). t * 2 + f (suc a % 2) (b % 2))
        (enough n m (suc a / 2) (b / 2) (omega arith) (omega arith))

  bitwise_digit : (a b : ℕ) → bitwise z f a b ≡ bitwise z f (a / 2) (b / 2) * 2 + f (a % 2) (b % 2)
  bitwise_digit zero b = z_digit b
  bitwise_digit (suc a) b =
      ap (λ (t : ℕ). t * 2 + f (suc a % 2) (b % 2))
        (enough a (suc a / 2) (suc a / 2) (b / 2) (omega arith) (omega arith))

  bitwise_split :
      (k a b x y : ℕ)
      → a < 2 ^ k
      → b < 2 ^ k
      → bitwise z f (a + 2 ^ k * x) (b + 2 ^ k * y) ≡ bitwise z f a b + 2 ^ k * bitwise z f x y
  bitwise_split zero a b x y p q =
      let (a0, ax) = no_digits a x p in
      let (b0, by) = no_digits b y q in
      let low : bitwise z f a b ≡ 0 = rw (a0, b0) z-zero in rw (ax, by) (omega (arith, low))
  bitwise_split (suc k) a b x y p q =
      let (ha, la) = halves a k x in
      let (hb, lb) = halves b k y in
      let high =
        bitwise_split k (a / 2) (b / 2) x y (omega (arith, pow-suc 2 k))
          (omega (arith, pow-suc 2 k)) in
      let rest : bitwise z f ((a + 2 ^ suc k * x) / 2) ((b + 2 ^ suc k * y) / 2)
          ≡ bitwise z f (a / 2) (b / 2) + 2 ^ k * bitwise z f x y =
        rw (ha, hb) high in
      let low : f ((a + 2 ^ suc k * x) % 2) ((b + 2 ^ suc k * y) % 2) ≡ f (a % 2) (b % 2) =
        rw (la, lb) in
      omega (
        arith,
        bitwise_digit (a + 2 ^ suc k * x) (b + 2 ^ suc k * y),
        rest,
        low,
        bitwise_digit a b,
        doubled k (bitwise z f x y),
      )

-- The digits of a word of `k + j` bits, `k` low ones and those above them.
module _ (k a b x y : ℕ) (low : a < 2 ^ k) (low' : b < 2 ^ k) where
  pub bit_and-split : bit_and (a + 2 ^ k * x) (b + 2 ^ k * y) ≡ bit_and a b + 2 ^ k * bit_and x y
  bit_and-split =
      bit_and-bitwise (a + 2 ^ k * x) (b + 2 ^ k * y)
      ∙ bitwise_split (λ b. 0) min refl (λ b. omega arith) k a b x y low low'
      ∙ sym (λ i. bit_and-bitwise a b i + 2 ^ k * bit_and-bitwise x y i)

  pub bit_or-split : bit_or (a + 2 ^ k * x) (b + 2 ^ k * y) ≡ bit_or a b + 2 ^ k * bit_or x y
  bit_or-split =
      bit_or-bitwise (a + 2 ^ k * x) (b + 2 ^ k * y)
      ∙ bitwise_split (λ b. b) max refl (λ b. omega arith) k a b x y low low'
      ∙ sym (λ i. bit_or-bitwise a b i + 2 ^ k * bit_or-bitwise x y i)

  pub bit_xor-split : bit_xor (a + 2 ^ k * x) (b + 2 ^ k * y) ≡ bit_xor a b + 2 ^ k * bit_xor x y
  bit_xor-split =
      bit_xor-bitwise (a + 2 ^ k * x) (b + 2 ^ k * y)
      ∙ bitwise_split (λ b. b) differ refl (λ b. omega arith) k a b x y low low'
      ∙ sym (λ i. bit_xor-bitwise a b i + 2 ^ k * bit_xor-bitwise x y i)
