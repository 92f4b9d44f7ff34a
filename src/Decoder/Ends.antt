-- ===== src/Decoder/Ends.antt =====
-- decoder.go: about the end of the loop of `scanQuoted`.
use go_toml.Prelude.{
  ℕ, zero, suc, ◌+◌, ◌-◌, ◌<◌, ◌≡◌, ◌⊎◌, refl, ap, ◌∙◌, arith, inl, inr, Result, err, Bool, true,
  false, not, ◌&&◌, ◌||◌, [], ◌∷◌, Bytes, length, drop, get_or, ltb, leb, ◌==◌, if◌then◌else◌,
  Bool-cases, drop-All,
}
use go_toml.Prelude.Loop.{loop_ends}
use go_toml.Scan.{first_stop}
use go_toml.Scan.Word.Bytewise.{AreBytes, IsByte}
use go_toml.Scan.Kernels.{basic_string_stop, scan_literal_string_swar, scan_basic_string_swar}
use go_toml.Scan.Kernels.First.{
  scan_basic_string_swar-first_stop, scan_literal_string_swar-first_stop,
}
use go_toml.Decoder.State.{Decoder, Failure, returned, no_fuel, byte_at, syntax_fail, Readers}
use go_toml.Decoder.Strings.{scan_quoted, quoted_turn, has_newline_before, validated}

-- The byte that a scan stops at is one that it is after.
pub first_stop_at :
    (stop : ℕ → Bool) (s : Bytes)
    → leb (length s) (first_stop stop s) ≡ false
    → stop (get_or s (first_stop stop s) 0) ≡ true
unfolding first_stop
first_stop_at stop [] h = absurd (ground (arith, h))
first_stop_at stop (b ∷ s) h = elim (Bool-cases (stop b)) [
  | inl here ↦ rw (here, here) refl
  | inr later ↦ rw later (first_stop_at stop s (ground (arith, h, later)))
]

pub get_or-drop : (i k : ℕ) (xs : Bytes) → get_or xs (i + k) 0 ≡ get_or (drop i xs) k 0
get_or-drop zero k xs = ap (λ (j : ℕ). get_or xs j 0) (let e : 0 + k ≡ k = omega arith in e)
get_or-drop (suc i) k [] = refl
get_or-drop (suc i) k (x ∷ xs) =
    ap (λ (j : ℕ). get_or (x ∷ xs) j 0) (let e : suc i + k ≡ suc (i + k) = omega arith in e)
    ∙ get_or-drop i k xs

-- A turn that goes on is behind an escape, or has found neither a quote nor an escape.
quoted_ways :
    {R : Type 0} (outside newline over escape past quote : Bool) (u v : R) (next same : ℕ) {s : ℕ}
    → (if outside
        then inl u
        else if newline
        then inl u
        else if over
        then inl u
        else if escape
        then (if past then inl u else inr next)
        else if quote
        then inl v
        else inr same)
      ≡ inr s
    → (outside ≡ false) × (over ≡ false) × ((s ≡ next) ⊎ ((escape ≡ false) × (quote ≡ false)))
quoted_ways outside newline over escape past quote u v next same h = ground (arith, h)

behind :
    (i idx i' size : ℕ)
    → i' ≡ i + idx + 2
    → not (ltb i size) ≡ false
    → (size - i' < size - i) × (i < i')
behind i idx i' size e inside =
    let under : i < size = ground (arith, inside) in omega (arith, e, under)

abbrev pub is_quote : ℕ → Bool
is_quote q = q == b'\'' || q == b'"'

literal_stop :
    (q b g : ℕ) → b ≡ g → (q == b'\'') ≡ true → (g == b'\'') ≡ true → (b == q) ≡ false → ⊥
literal_stop q b g same literal stop miss = ground arith

basic_stop :
    (q b g : ℕ)
    → b ≡ g
    → is_quote q ≡ true
    → (q == b'\'') ≡ false
    → basic_string_stop g ≡ true
    → (q == b'"' && b == b'\\') ≡ false
    → (b == q) ≡ false
    → ⊥
basic_stop q b g same known basic stop escape miss = ground arith

module _ (readers : Readers) (d : Decoder) (bytes : AreBytes d.buf) (quote off : ℕ)
    (known : is_quote quote ≡ true) where
  -- A turn finds a quote or an escape in front of the end of the text.
  found :
      (i idx : ℕ)
      → idx ≡ (
          if quote == b'\''
          then scan_literal_string_swar (drop i d.buf)
          else scan_basic_string_swar (drop i d.buf))
      → leb (length (drop i d.buf)) idx ≡ false
      → (quote == b'"' && byte_at d (i + idx) == b'\\') ≡ false
      → (byte_at d (i + idx) == quote) ≡ false
      → ⊥
  found i idx e over escape miss =
      let rest : Bytes = drop i d.buf in
      let hb = drop-All IsByte i d.buf bytes in
      let at : byte_at d (i + idx) ≡ get_or rest idx 0 = get_or-drop i idx d.buf in
      elim (Bool-cases (quote == b'\'')) [
        | inl literal ↦
            let idx' : idx ≡ first_stop (λ b. b == b'\'') rest =
              e ∙ rw literal (scan_literal_string_swar-first_stop rest hb) in
            let stop : (get_or rest idx 0 == b'\'') ≡ true =
              rw idx' (first_stop_at (λ b. b == b'\'') rest (rw (← idx') over)) in
            literal_stop quote (byte_at d (i + idx)) (get_or rest idx 0) at literal stop miss
        | inr basic ↦
            let idx' : idx ≡ first_stop basic_string_stop rest =
              e ∙ rw basic (scan_basic_string_swar-first_stop rest hb) in
            let stop : basic_string_stop (get_or rest idx 0) ≡ true =
              rw idx' (first_stop_at basic_string_stop rest (rw (← idx') over)) in
            basic_stop quote (byte_at d (i + idx)) (get_or rest idx 0) at known basic stop escape
              miss
      ]

  quoted_turn-lt :
      (i i' : ℕ)
      → quoted_turn readers d quote off i ≡ inr i'
      → (length d.buf - i' < length d.buf - i) × (i < i')
  unfolding quoted_turn
  quoted_turn-lt i i' h =
      let idx : ℕ =
        if quote == b'\''
        then scan_literal_string_swar (drop i d.buf)
        else scan_basic_string_swar (drop i d.buf) in
      let unterminated : Result Failure ℕ = syntax_fail d "unterminated quoted key" off in
      let (inside, over, ways) =
        quoted_ways (not (ltb i (length d.buf))) (has_newline_before (drop i d.buf) idx)
          (leb (length (drop i d.buf)) idx) (quote == b'"' && byte_at d (i + idx) == b'\\')
          (leb (length d.buf) (i + idx + 1)) (byte_at d (i + idx) == quote) unterminated
          (validated readers d off (i + idx + 1) (i + idx + 1)) (i + idx + 2) i h in
      elim ways [
        | inl e ↦ behind i idx i' (length d.buf) e inside
        | inr (escape, miss) ↦ absurd (found i idx refl over escape miss)
      ]

-- `scanQuoted`, for one of the two quotes and over a text of bytes, comes to an end: the quote is
-- tripled, which is an error, or a turn of its loop leaves the loop, behind the first quote, and is the
-- answer.
pub scan_quoted-quoted_turn :
    (readers : Readers) (d : Decoder) (quote off : ℕ)
    → AreBytes d.buf
    → is_quote quote ≡ true
    → (scan_quoted readers d quote off
        ≡ syntax_fail d "multiline quoted keys are not supported" off)
      ⊎ ((last : ℕ) × (r : Result Failure ℕ) × (quoted_turn readers d quote off last ≡ inl r)
          × (scan_quoted readers d quote off ≡ r)
          × (off < last))
unfolding scan_quoted
scan_quoted-quoted_turn readers d quote off bytes known =
    elim (Bool-cases (
      ltb (off + 2) (length d.buf)
      && (byte_at d (off + 1) == quote && byte_at d (off + 2) == quote))) [
        | inl tripled ↦ inl (rw (scan_quoted, tripled) refl)
        | inr single ↦
            let (last, r, at, answer, beyond) =
              loop_ends (quoted_turn readers d quote off) (err (returned no_fuel))
                (λ i. length d.buf - i) (λ i. off < i)
                (λ i i' inv e.
                  let (less, more) = quoted_turn-lt readers d bytes quote off known i i' e in
                  (less, omega arith))
                (suc (length d.buf)) (off + 1) (omega arith) (omega arith) in
            inr (last, r, at, rw (scan_quoted, single) answer, beyond)
      ]
