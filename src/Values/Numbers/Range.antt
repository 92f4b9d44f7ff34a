-- ===== src/Values/Numbers/Range.antt =====
-- value.go: about `parseIntegerLiteral`, the range of its results and the text that `strconv` prints.
use go_toml.Prelude.{
  ℕ, zero, suc, ◌+◌, ◌-◌, ◌*◌, ◌/◌, ◌%◌, ◌<◌, ◌≤◌, ◌≡◌, refl, sym, ap, ◌∙◌, arith, inl, inr, ℤ, pos,
  negsuc, ok, >>=-eq-ok, some, Bool, true, false, not, ◌&&◌, List, [], ◌∷◌, Bytes, length, drop,
  get_or, ltb, leb, ◌==◌, if◌then◌else◌, Bool-cases, Option-cases, ==_iff,
}
use go_toml.Prelude.Decimal.{itoa, digits_onto}
use go_toml.Values.Numbers.{
  numeric_digit_value, digit_below, parse_uint_literal_digits, base_prefix, with_sign,
  parse_integer_literal, max_int64, min_magnitude, min_int64, negated,
}
use go_toml.Values.Numbers.Digits.{digits_of, value_from, parse_uint_literal_digits-digits_of}

-- The values of an `int64`.
abbrev pub IsInt64 : ℤ → Type 0
IsInt64 (pos n) = n ≤ max_int64
IsInt64 (negsuc n) = n ≤ max_int64

parse_uint_literal_digits-le :
    (raw : Bytes) (base limit v : ℕ)
    → 0 < base
    → parse_uint_literal_digits raw base limit ≡ ok v
    → v ≤ limit
parse_uint_literal_digits-le raw base limit v positive e =
    let (valued, empty, bad) = parse_uint_literal_digits-digits_of raw base limit positive in
    elim (Option-cases (digits_of base raw)) [
      | inl none_there ↦ absurd (bad none_there v e)
      | inr ([], there) ↦ absurd (let e' = sym (empty there) ∙ e in cc e')
      | inr (d ∷ ds, there) ↦
          let (small, big) = valued d ds there in
          elim (Bool-cases (leb (value_from base 0 (d ∷ ds)) limit)) [
            | inl within ↦
                let e' = sym (small (ground (arith, within))) ∙ e in
                let same : value_from base 0 (d ∷ ds) ≡ v = cc e' in
                let le : value_from base 0 (d ∷ ds) ≤ limit = ground (arith, within) in
                rw (← same) le
            | inr over ↦ absurd (let e' = sym (big (ground (arith, over))) ∙ e in cc e')
          ]
    ]

base_prefix-pos : (text : Bytes) → 0 < (base_prefix text).0
unfolding base_prefix
base_prefix-pos text = ground arith

signed : (u : ℕ) → u ≤ min_magnitude → IsInt64 (if u == min_magnitude then min_int64 else negated u)
signed zero h = omega arith
signed (suc n) h = elim (Bool-cases (suc n == min_magnitude)) [
  | inl most ↦ rw most (omega arith)
  | inr other ↦ rw other (omega (arith, h))
]

with_sign-IsInt64 :
    (negative : Bool) (text : Bytes) (z : ℤ) → with_sign negative text ≡ ok z → IsInt64 z
unfolding with_sign
with_sign-IsInt64 false text z e =
    let (base, digits) = base_prefix text in
    let (u, read, same) =
      >>=-eq-ok (parse_uint_literal_digits digits base max_int64) (λ u. ok (pos u)) e in
    let z' : z ≡ pos u = cc same in
    rw z' (parse_uint_literal_digits-le digits base max_int64 u (base_prefix-pos text) read)
with_sign-IsInt64 true text z e =
    let (base, digits) = base_prefix text in
    let (u, read, same) =
      >>=-eq-ok (parse_uint_literal_digits digits base min_magnitude)
        (λ u. ok (if u == min_magnitude then min_int64 else negated u)) e in
    let z' : z ≡ (if u == min_magnitude then min_int64 else negated u) = cc same in
    rw z' (
      signed u
        (parse_uint_literal_digits-le digits base min_magnitude u (base_prefix-pos text) read))

-- Every number that `parseIntegerLiteral` reads is one of an `int64`, in each base and of either sign.
pub parse_integer_literal-IsInt64 :
    (raw : Bytes) (z : ℤ) → parse_integer_literal raw ≡ ok z → IsInt64 z
unfolding parse_integer_literal
parse_integer_literal-IsInt64 raw z e =
    elim (Bool-cases (ltb 0 (length raw) && get_or raw 0 0 == b'+')) [
      | inl plus ↦ with_sign-IsInt64 false (drop 1 raw) z (rw plus at e)
      | inr other ↦ elim (Bool-cases (ltb 0 (length raw) && get_or raw 0 0 == b'-')) [
        | inl minus ↦ with_sign-IsInt64 true (drop 1 raw) z (rw (other, minus) at e)
        | inr neither ↦ with_sign-IsInt64 false raw z (rw (other, neither) at e)
      ]
    ]

-- The digits of a number in front of others.
digits_onto_values : ℕ → ℕ → List ℕ → List ℕ
digits_onto_values zero n out = out
digits_onto_values (suc fuel) n out = elim (ltb n 10) [
  | true ↦ n ∷ out
  | false ↦ digits_onto_values fuel (n / 10) ((n % 10) ∷ out)
]

decimal_digit :
    (k : ℕ)
    → k < 10
    → (((b'0' + k) == b'_') ≡ false) × (digit_below 10 (numeric_digit_value (b'0' + k)) ≡ some k)
unfolding numeric_digit_value
decimal_digit k h =
    let lo : leb b'0' (b'0' + k) ≡ true = ground (arith, h) in
    let hi : leb (b'0' + k) b'9' ≡ true = ground (arith, h) in
    let back : b'0' + k - b'0' ≡ k = omega arith in
    let below : leb 10 k ≡ false = ground (arith, h) in
    (ground (arith, h), rw (lo, hi, back, below) refl)

digits_of-digit :
    (k : ℕ) (rest : Bytes) {ds : List ℕ}
    → k < 10
    → digits_of 10 rest ≡ some ds
    → digits_of 10 ((b'0' + k) ∷ rest) ≡ some (k ∷ ds)
unfolding digits_of
digits_of-digit k rest h e = let (plain, digit) = decimal_digit k h in rw (plain, digit, e) refl

digits_of-digits_onto :
    (fuel n : ℕ) (out : Bytes) (ds : List ℕ)
    → digits_of 10 out ≡ some ds
    → digits_of 10 (digits_onto fuel n out) ≡ some (digits_onto_values fuel n ds)
unfolding digits_onto digits_onto_values
digits_of-digits_onto zero n out ds e = e
digits_of-digits_onto (suc fuel) n out ds e = elim (Bool-cases (ltb n 10)) [
  | inl one ↦
      rw (digits_onto, digits_onto_values, one) (digits_of-digit n out (ground (arith, one)) e)
  | inr more ↦
      rw (digits_onto, digits_onto_values, more)
        (digits_of-digits_onto fuel (n / 10) ((b'0' + n % 10) ∷ out) ((n % 10) ∷ ds)
          (digits_of-digit (n % 10) out (omega arith) e))
]

-- Printed digits make the number again.
digits_onto_values-value :
    (fuel n : ℕ) (ds : List ℕ)
    → n < fuel
    → (d : ℕ) × (ds' : List ℕ) × (digits_onto_values fuel n ds ≡ d ∷ ds')
      × (value_from 10 0 (digits_onto_values fuel n ds) ≡ value_from 10 n ds)
unfolding digits_onto_values value_from
digits_onto_values-value zero n ds h = absurd (omega (arith, h))
digits_onto_values-value (suc fuel) n ds h = elim (Bool-cases (ltb n 10)) [
  | inl one ↦
      let e : 0 * 10 + n ≡ n = omega arith in
      (
        n,
        ds,
        rw (digits_onto_values, one) refl,
        rw (digits_onto_values, one) (ap (λ (k : ℕ). value_from 10 k ds) e),
      )
  | inr more ↦
      let far : 10 ≤ n = ground (arith, more) in
      let (d, ds', shape, value) =
        digits_onto_values-value fuel (n / 10) ((n % 10) ∷ ds) (omega (arith, h, far)) in
      let e : n / 10 * 10 + n % 10 ≡ n = omega arith in
      (
        d,
        ds',
        rw (digits_onto_values, more) shape,
        rw (digits_onto_values, more) (value ∙ ap (λ (k : ℕ). value_from 10 k ds) e),
      )
]

-- The first printed digit.
digits_onto-head :
    (fuel n : ℕ) (out : Bytes)
    → n < fuel
    → (k : ℕ) × (rest : Bytes) × (digits_onto fuel n out ≡ (b'0' + k) ∷ rest)
      × (k < 10)
      × (0 < n → 0 < k)
unfolding digits_onto
digits_onto-head zero n out h = absurd (omega (arith, h))
digits_onto-head (suc fuel) n out h = elim (Bool-cases (ltb n 10)) [
  | inl one ↦ (n, out, rw (digits_onto, one) refl, ground (arith, one), λ positive. positive)
  | inr more ↦
      let far : 10 ≤ n = ground (arith, more) in
      let (k, rest, shape, small, lead) =
        digits_onto-head fuel (n / 10) ((b'0' + n % 10) ∷ out) (omega (arith, h, far)) in
      (k, rest, rw (digits_onto, more) shape, small, λ positive. lead (omega (arith, far)))
]

abbrev printed : ℕ → Bytes
printed n = digits_onto (suc n) n []

base_prefix-printed : (n : ℕ) → base_prefix (printed n) ≡ (10, printed n)
unfolding base_prefix digits_onto
base_prefix-printed zero = refl
base_prefix-printed (suc n) =
    let (k, rest, shape, small, lead) = digits_onto-head (suc (suc n)) (suc n) [] (omega arith) in
    let first : (get_or (printed (suc n)) 0 0 == b'0') ≡ false =
      ap (λ t. get_or t 0 0 == b'0') shape ∙ nonzero k (lead (omega arith)) in
    let text : Bytes = printed (suc n) in
    let test : not (ltb 2 (length text) && get_or text 0 0 == b'0') ≡ true =
      blocked (ltb 2 (length text)) (get_or text 0 0 == b'0') first in
    rw test refl
  where
    nonzero : (k : ℕ) → 0 < k → ((b'0' + k) == b'0') ≡ false
    nonzero k h = ground arith

    blocked : (a b : Bool) → b ≡ false → not (a && b) ≡ true
    blocked a b h = ground (arith, h)

-- The digits of a number within the limit are read as that number.
parse_printed : (n limit : ℕ) → n ≤ limit → parse_uint_literal_digits (printed n) 10 limit ≡ ok n
unfolding value_from digits_of
parse_printed n limit h =
    let (d, ds, shape, value) = digits_onto_values-value (suc n) n [] (omega arith) in
    let digits : digits_of 10 (printed n) ≡ some (d ∷ ds) =
      digits_of-digits_onto (suc n) n [] [] refl ∙ ap some shape in
    let v : value_from 10 0 (d ∷ ds) ≡ n = ap (λ t. value_from 10 0 t) (sym shape) ∙ value in
    let (valued, empty, bad) =
      parse_uint_literal_digits-digits_of (printed n) 10 limit (omega arith) in
    (valued d ds digits).0 (omega (arith, v, h)) ∙ ap ok v

with_sign-printed :
    (negative : Bool) (n : ℕ)
    → n ≤ (if negative then min_magnitude else max_int64)
    → with_sign negative (printed n)
      ≡ ok (if negative then (if n == min_magnitude then min_int64 else negated n) else pos n)
unfolding with_sign
with_sign-printed false n h = rw (base_prefix-printed n, parse_printed n max_int64 h) refl
with_sign-printed true n h = rw (base_prefix-printed n, parse_printed n min_magnitude h) refl

most_negative :
    (n : ℕ)
    → n ≤ max_int64
    → (if suc n == min_magnitude then min_int64 else negated (suc n)) ≡ negsuc n
most_negative n h = elim (Bool-cases (suc n == min_magnitude)) [
  | inl most ↦
      let e : n ≡ max_int64 = omega (arith, (==_iff (suc n) min_magnitude).0 most) in
      rw most (ap negsuc (sym e))
  | inr other ↦ rw other refl
]

-- `parseIntegerLiteral` reads back every `int64` that `strconv` prints.
pub parse_integer_literal-itoa : (z : ℤ) → IsInt64 z → parse_integer_literal (itoa z) ≡ ok z
unfolding parse_integer_literal itoa
parse_integer_literal-itoa (pos n) h =
    let (k, rest, shape, small, lead) = digits_onto-head (suc n) n [] (omega arith) in
    let text : Bytes = printed n in
    let no_plus : (ltb 0 (length text) && get_or text 0 0 == b'+') ≡ false =
      blocked (ltb 0 (length text)) (get_or text 0 0 == b'+')
        (ap (λ t. get_or t 0 0 == b'+') shape ∙ no_mark k b'+' (omega arith)) in
    let no_minus : (ltb 0 (length text) && get_or text 0 0 == b'-') ≡ false =
      blocked (ltb 0 (length text)) (get_or text 0 0 == b'-')
        (ap (λ t. get_or t 0 0 == b'-') shape ∙ no_mark k b'-' (omega arith)) in
    rw (no_plus, no_minus) (with_sign-printed false n h)
  where
    blocked : (a b : Bool) → b ≡ false → (a && b) ≡ false
    blocked a b h = ground (arith, h)

    no_mark : (k m : ℕ) → m < b'0' → ((b'0' + k) == m) ≡ false
    no_mark k m h = ground arith
parse_integer_literal-itoa (negsuc n) h =
    let some_bytes : ltb 0 (length (b'-' ∷ printed (suc n))) ≡ true =
      positive (length (printed (suc n))) in
    rw some_bytes (with_sign-printed true (suc n) (omega (arith, h)) ∙ ap ok (most_negative n h))
  where
    positive : (n : ℕ) → ltb 0 (suc n) ≡ true
    positive n = ground arith
