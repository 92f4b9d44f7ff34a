-- ===== src/Scan/Kernels/Exact.antt =====
-- internal/scan/scan_swar.go: the loops that the kernels share, and the first byte to stop at.
use go_toml.Prelude.{
  ℕ, zero, suc, ◌+◌, ◌-◌, ◌≤◌, ◌<◌, ◌≡◌, ◌⊎◌, inl, inr, refl, sym, ap, ◌∙◌, arith, Bool, true,
  false, Option, none, some, [], ◌∷◌, ◌++◌, Bytes, length, take, drop, slice, ltb, leb, ◌==◌,
  if◌then◌else◌, take-append-drop, length-take, length-drop, Bool-cases, drop-add, take-All,
  drop-All,
}
use go_toml.Scan.{first_stop}
use go_toml.Scan.Word.Bytewise.{AreBytes, IsByte}
use go_toml.Scan.Word.Tests.{WordFinds}
use go_toml.Scan.Word.First.{WordFinds-first}
use go_toml.Scan.Kernels.{for_words, for_bytes, marked_at, confirmed_at}

module _ (stop : ℕ → Bool) where
  pub first_stop-le : (s : Bytes) → first_stop stop s ≤ length s
  unfolding first_stop
  first_stop-le [] = omega arith
  first_stop-le (b ∷ s) = ground (arith, first_stop-le s)

  first_stop-append :
      (xs ys : Bytes)
      → first_stop stop (xs ++ ys) ≡ (
          if ltb (first_stop stop xs) (length xs)
          then first_stop stop xs
          else length xs + first_stop stop ys)
  unfolding first_stop
  first_stop-append [] ys = omega arith
  first_stop-append (b ∷ xs) ys = ground (arith, first_stop-append xs ys)

  pub for_bytes-first_stop {ℓ} :
      {R : Type ℓ} (found : ℕ → R) (missing : R) (i : ℕ) (rest : Bytes)
      → for_bytes stop found missing i rest ≡ (
          if ltb (first_stop stop rest) (length rest)
          then found (i + first_stop stop rest)
          else missing)
  unfolding first_stop for_bytes
  for_bytes-first_stop found missing i [] = refl
  for_bytes-first_stop found missing i (b ∷ rest) = elim (Bool-cases (stop b)) [
    | inl here ↦
        let e : i + 0 ≡ i = omega arith in
        let z : ltb 0 (suc (length rest)) ≡ true = ground arith in rw (here, e, z) refl
    | inr later ↦
        let e : i + suc (first_stop stop rest) ≡ suc i + first_stop stop rest = omega arith in
        let z : ltb (suc (first_stop stop rest)) (suc (length rest))
            ≡ ltb (first_stop stop rest) (length rest) =
          ground arith in
        rw (later, e, z) (for_bytes-first_stop found missing (suc i) rest)
  ]

first_stop_mono :
    (p q : ℕ → Bool)
    → ((b : ℕ) → p b ≡ true → q b ≡ true)
    → (s : Bytes) → first_stop q s ≤ first_stop p s
unfolding first_stop
first_stop_mono p q implies [] = omega arith
first_stop_mono p q implies (b ∷ s) = ground (arith, implies b, first_stop_mono p q implies s)

pub first_stop-ext :
    (p q : ℕ → Bool) → ((b : ℕ) → p b ≡ q b) → (s : Bytes) → first_stop p s ≡ first_stop q s
unfolding first_stop
first_stop-ext p q same [] = refl
first_stop-ext p q same (b ∷ s) = rw (same b, first_stop-ext p q same s) refl

-- The first byte of a kind at or behind `i`.
abbrev pub stop_from : (ℕ → Bool) → Bytes → ℕ → ℕ
stop_from stop s i = i + first_stop stop (drop i s)

module _ {ℓ} {R : Type ℓ} (stop : ℕ → Bool) (s : Bytes) (exit : ℕ → R) (body : ℕ → Option R)
    (after : ℕ → R) where
  pub for_words-first_stop :
      ((i : ℕ)
        → i + 8 ≤ length s
        → ((body i ≡ none) × (stop_from stop s i ≡ stop_from stop s (i + 8)))
          ⊎ (body i ≡ some (exit (stop_from stop s i))))
      → ((i : ℕ) → i ≤ length s → after i ≡ exit (stop_from stop s i))
      → (fuel i : ℕ) → i ≤ length s
      → for_words body after (length s) fuel i ≡ exit (stop_from stop s i)
  unfolding for_words
  for_words-first_stop turn tail zero i h = tail i h
  for_words-first_stop turn tail (suc fuel) i h = elim (Bool-cases (leb (i + 8) (length s))) [
    | inr last ↦ rw (for_words, last) (tail i h)
    | inl more ↦
        let room : i + 8 ≤ length s = ground arith in
        elim (turn i room) [
          | inl (nothing, same) ↦
              rw (for_words, more, nothing, same) (for_words-first_stop turn tail fuel (i + 8) room)
          | inr answer ↦ rw (for_words, more, answer) refl
        ]
  ]

module _ (s : Bytes) (hs : AreBytes s) (i : ℕ) (room : i + 8 ≤ length s) where
  pub chunk-length : length (take 8 (drop i s)) ≡ 8
  chunk-length = omega (arith, length-take 8 (drop i s), length-drop i s)

  pub chunk-AreBytes : AreBytes (take 8 (drop i s))
  chunk-AreBytes = take-All IsByte 8 (drop i s) (drop-All IsByte i s hs)

  first_stop-chunk :
      (stop : ℕ → Bool)
      → first_stop stop (drop i s) ≡ (
          if ltb (first_stop stop (take 8 (drop i s))) 8
          then first_stop stop (take 8 (drop i s))
          else 8 + first_stop stop (drop (i + 8) s))
  first_stop-chunk stop =
      let t = take 8 (drop i s) in
      ap (first_stop stop) (sym (take-append-drop 8 (drop i s)))
      ∙ first_stop-append stop t (drop 8 (drop i s))
      ∙ (λ j.
          if ltb (first_stop stop t) (chunk-length j)
          then first_stop stop t
          else chunk-length j + first_stop stop (drop-add 8 i s j))

  pub marked_at-first_stop :
      (stop : ℕ → Bool) (m : ℕ)
      → WordFinds stop (take 8 (drop i s)) m
      → ((marked_at i m ≡ none) × (stop_from stop s i ≡ stop_from stop s (i + 8)))
        ⊎ ((marked_at i m ≡ some (stop_from stop s i)) × (stop_from stop s i < length s))
  marked_at-first_stop stop m finds =
      let split = first_stop-chunk stop in
      elim (WordFinds-first stop (take 8 (drop i s)) m chunk-length finds) [
        | inl (z, all) ↦
            let at : first_stop stop (drop i s) ≡ 8 + first_stop stop (drop (i + 8) s) =
              ground (arith, split, all) in
            inl (rw z refl, omega (arith, at))
        | inr (nz, less, at) ↦
            let here : first_stop stop (drop i s) ≡ first_stop stop (take 8 (drop i s)) =
              ground (arith, split, less) in
            inr (rw (nz, at, here) refl, omega (arith, here, less))
      ]

  -- A test that shuts out less than `stop` may send a word to the loop over bytes.
  pub confirmed_at-first_stop :
      (stop wider : ℕ → Bool) (m : ℕ)
      → ((b : ℕ) → stop b ≡ true → wider b ≡ true)
      → WordFinds wider (take 8 (drop i s)) m
      → ((confirmed_at (first_stop stop) s i m ≡ none)
          × (stop_from stop s i ≡ stop_from stop s (i + 8)))
        ⊎ (confirmed_at (first_stop stop) s i m ≡ some (stop_from stop s i))
  confirmed_at-first_stop stop wider m implies finds =
      let split = first_stop-chunk stop in
      let word : slice s i (i + 8) ≡ take 8 (drop i s) =
        ap (λ (k : ℕ). take k (drop i s)) (let e : i + 8 - i ≡ 8 = omega arith in e) in
      let narrower = first_stop_mono stop wider implies (take 8 (drop i s)) in
      elim (Bool-cases (ltb (first_stop stop (take 8 (drop i s))) 8)) [
        | inl some_in ↦
            let nz : (m == 0) ≡ false =
              elim (WordFinds-first wider (take 8 (drop i s)) m chunk-length finds) [
                | inl (z, all) ↦ absurd (ground (arith, narrower, some_in, all))
                | inr (nz, less, at) ↦ nz
              ] in
            let here : first_stop stop (drop i s) ≡ first_stop stop (take 8 (drop i s)) =
              split ∙ rw some_in refl in
            inr (rw (nz, word, some_in, here) refl)
        | inr none_in ↦
            let at : first_stop stop (drop i s) ≡ 8 + first_stop stop (drop (i + 8) s) =
              split ∙ rw none_in refl in
            let nothing : confirmed_at (first_stop stop) s i m ≡ none = elim (Bool-cases (m == 0)) [
              | inl z ↦ rw z refl
              | inr nz ↦ rw (nz, word, none_in) refl
            ] in
            inl (nothing, omega (arith, at))
      ]
