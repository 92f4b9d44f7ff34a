-- ===== src/Scan/Word/First.antt =====
-- `bits.TrailingZeros64(m) / 8`: the position of the lowest byte marked, which is the first byte that
-- the test is after.
use go_toml.Prelude.{
  ℕ, zero, suc, ◌+◌, ◌*◌, ◌/◌, ◌%◌, ◌^◌, ◌<◌, ◌≡◌, ◌≢◌, ◌⊎◌, inl, inr, refl, sym, ap, ◌∙◌, Bool,
  true, false, [], ◌∷◌, arith, Bytes, length, ◌==◌,
}
use native.Mathlib.Nat.{pow-suc}
use go_toml.Scan.{first_stop}
use go_toml.Scan.Word.{word_of, zeros_below, trailing_zeros64}
use go_toml.Scan.Word.Marks.{Finds}
use go_toml.Scan.Word.Tests.{WordFinds}

zeros_even : (f m : ℕ) → zeros_below (suc f) (2 * m) ≡ suc (zeros_below f m)
unfolding zeros_below
zeros_even f m =
    let even : 2 * m % 2 ≡ 0 = omega arith in
    let half : 2 * m / 2 ≡ m = omega arith in rw (zeros_below, even, half)

zeros_odd : (f m : ℕ) → zeros_below (suc f) (1 + 2 * m) ≡ 0
unfolding zeros_below
zeros_odd f m = let odd : (1 + 2 * m) % 2 ≡ 1 = omega arith in rw (zeros_below, odd)

-- `k` zeros below the digits of `m`.
zeros_shift : (k f m : ℕ) → zeros_below (k + f) (2 ^ k * m) ≡ k + zeros_below f m
zeros_shift zero f m =
    let e : 0 + f ≡ f = omega arith in
    let e' : 2 ^ 0 * m ≡ m = omega arith in rw (e, e') (omega arith)
zeros_shift (suc k) f m =
    let e : suc k + f ≡ suc (k + f) = omega arith in
    let e' : 2 ^ suc k * m ≡ 2 * (2 ^ k * m) = omega (arith, ap (λ (t : ℕ). t * m) (pow-suc 2 k)) in
    rw (e, e', zeros_even (k + f) (2 ^ k * m), zeros_shift k f m) (omega arith)

module _ (stop : ℕ → Bool) where
  Finds-first :
      (s ms : Bytes)
      → Finds stop s ms
      → ((word_of ms ≡ 0) × (first_stop stop s ≡ length s))
        ⊎ ((word_of ms ≢ 0)
            × (first_stop stop s < length s)
            × (zeros_below (8 * length s) (word_of ms) ≡ 7 + 8 * first_stop stop s))
  unfolding word_of first_stop
  Finds-first [] [] h = inl (refl, refl)
  Finds-first [] (m ∷ ms) h = elim h [ ]
  Finds-first (b ∷ s) [] h = elim h [ ]
  Finds-first (b ∷ s) (m ∷ ms) (inl (p, e, bytes, same)) =
      let r = word_of ms in
      let shape : m + 256 * r ≡ 2 ^ 7 * (1 + 2 * r) = omega arith in
      let fuel : 8 * suc (length s) ≡ 7 + suc (8 * length s) = omega arith in
      let zeros : zeros_below (8 * suc (length s)) (m + 256 * r) ≡ 7 =
        rw (shape, fuel)
          (zeros_shift 7 (suc (8 * length s)) (1 + 2 * r) ∙ rw (zeros_odd (8 * length s) r)) in
      inr (λ z. omega arith, rw p (omega arith), zeros ∙ rw p (omega arith))
  Finds-first (b ∷ s) (m ∷ ms) (inr (p, e, h)) =
      let r = word_of ms in
      let shape : m + 256 * r ≡ 2 ^ 8 * r = omega arith in
      let fuel : 8 * suc (length s) ≡ 8 + 8 * length s = omega arith in
      let zeros : zeros_below (8 * suc (length s)) (m + 256 * r)
          ≡ 8 + zeros_below (8 * length s) r =
        rw (shape, fuel) (zeros_shift 8 (8 * length s) r) in
      elim (Finds-first s ms h) [
        | inl (z, all) ↦ inl (omega arith, rw (p, all) refl)
        | inr (some, less, at) ↦
            inr (λ z. some (omega arith), rw p (omega arith), zeros ∙ rw p (omega arith))
      ]

  -- What a word with the marks of a test says of its eight bytes.
  pub WordFinds-first :
      (s : Bytes) (m : ℕ)
      → length s ≡ 8
      → WordFinds stop s m
      → (((m == 0) ≡ true) × (first_stop stop s ≡ 8))
        ⊎ (((m == 0) ≡ false)
            × (first_stop stop s < 8)
            × (trailing_zeros64 m / 8 ≡ first_stop stop s))
  unfolding trailing_zeros64
  WordFinds-first s m eight (ms, e, h) = elim (Finds-first s ms h) [
    | inl (z, all) ↦ inl (ground arith, all ∙ eight)
    | inr (some, less, at) ↦
        let width : 8 * length s ≡ 64 = omega arith in
        let at' : zeros_below 64 m ≡ 7 + 8 * first_stop stop s = sym (rw (width, sym e)) ∙ at in
        inr (ground arith, omega arith, omega arith)
  ]
