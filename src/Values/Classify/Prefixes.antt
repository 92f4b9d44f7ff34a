-- ===== src/Values/Classify/Prefixes.antt =====
-- decoder.go, value.go: about the digits behind the prefix of a base.
use go_toml.Prelude.{
  ℕ, ◌<◌, ◌≡◌, ◌≢◌, refl, sym, ◌∙◌, arith, inl, inr, err, Option, none, some, Bool, true, false,
  not, ◌&&◌, ◌||◌, List, [], ◌∷◌, Bytes, length, get_or, leb, ◌==◌, if◌then◌else◌, Bool-cases,
  Option-cases,
}
use go_toml.Prelude.Equal.{passes_below, passes_below-lt}
use go_toml.Values.Numbers.{err_syntax, numeric_digit_value, digit_below, parse_uint_literal_digits}
use go_toml.Values.Numbers.Digits.{digits_of, value_from, parse_uint_literal_digits-digits_of}
use go_toml.Values.Classify.{
  valid_prefixed_digit, prefixed_from, prefixed_digits_valid_bytes, ends_with_underscore,
}

-- A byte that the reader of a base takes.
abbrev pub readable_byte : ℕ → ℕ → Bool
readable_byte base c =
    c == b'_' || elim (digit_below base (numeric_digit_value c)) [ none ↦ false | some d ↦ true ]

abbrev pub readable : ℕ → Bytes → Bool
readable base [] = true
readable base (c ∷ s) = readable_byte base c && readable base s

pub both_hold : (a b : Bool) → (a && b) ≡ true → (a ≡ true) × (b ≡ true)
both_hold a b h = ground (arith, h)

readable-digits_of :
    (base : ℕ) (s : Bytes) → readable base s ≡ true → (ds : List ℕ) × (digits_of base s ≡ some ds)
unfolding digits_of
readable-digits_of base [] h = ([], refl)
readable-digits_of base (c ∷ s) h =
    let (head, tail) = both_hold (readable_byte base c) (readable base s) h in
    let (ds, e) = readable-digits_of base s tail in
    elim (Bool-cases (c == b'_')) [
      | inl skip ↦ (ds, rw skip e)
      | inr other ↦ elim (Option-cases (digit_below base (numeric_digit_value c))) [
        | inl bad ↦ absurd (let h' = rw (other, bad) at head in cc h')
        | inr (d, good) ↦ (d ∷ ds, rw (other, good, e) refl)
      ]
    ]

-- One that begins with a digit has a digit.
readable-cons :
    (base c : ℕ) (s : Bytes)
    → readable base (c ∷ s) ≡ true
    → (c == b'_') ≡ false
    → (d : ℕ) × (ds : List ℕ) × (digits_of base (c ∷ s) ≡ some (d ∷ ds))
unfolding digits_of
readable-cons base c s h other =
    let (head, tail) = both_hold (readable_byte base c) (readable base s) h in
    let (ds, e) = readable-digits_of base s tail in
    elim (Option-cases (digit_below base (numeric_digit_value c))) [
      | inl bad ↦ absurd (let h' = rw (other, bad) at head in cc h')
      | inr (d, good) ↦ (d, ds, rw (other, good, e) refl)
    ]

-- Such a text is never malformed.
pub readable-parse :
    (base limit c : ℕ) (s : Bytes)
    → 0 < base
    → readable base (c ∷ s) ≡ true
    → (c == b'_') ≡ false
    → parse_uint_literal_digits (c ∷ s) base limit ≢ err err_syntax
readable-parse base limit c s positive h other e =
    let (d, ds, digits) = readable-cons base c s h other in
    let (valued, empty, bad) = parse_uint_literal_digits-digits_of (c ∷ s) base limit positive in
    let (small, big) = valued d ds digits in
    elim (Bool-cases (leb (value_from base 0 (d ∷ ds)) limit)) [
      | inl within ↦ let e' = sym (small (ground (arith, within))) ∙ e in cc e'
      | inr over ↦ let e' = sym (big (ground (arith, over))) ∙ e in cc e'
    ]

-- Every digit of a prefix is one of its base.
abbrev Digits : ℕ → ℕ → Type 0
Digits letter base = (c : ℕ) → valid_prefixed_digit c letter ≡ true → readable_byte base c ≡ true

abbrev prefix_test : ℕ → ℕ → ℕ → Bool
prefix_test letter base c = not (valid_prefixed_digit c letter) || readable_byte base c

pub tested : (a b : Bool) → (not a || b) ≡ true → a ≡ true → b ≡ true
tested a b h k = ground (arith, h, k)

binary_table : passes_below (prefix_test b'b' 2) 128 ≡ true
unfolding passes_below valid_prefixed_digit numeric_digit_value
binary_table = refl

octal_table : passes_below (prefix_test b'o' 8) 128 ≡ true
unfolding passes_below valid_prefixed_digit numeric_digit_value
octal_table = refl

hex_table : passes_below (prefix_test b'x' 16) 128 ≡ true
unfolding passes_below valid_prefixed_digit numeric_digit_value
hex_table = refl

binary_lt : (c : ℕ) → valid_prefixed_digit c b'b' ≡ true → c < 128
unfolding valid_prefixed_digit
binary_lt c h = ground (arith, h)

octal_lt : (c : ℕ) → valid_prefixed_digit c b'o' ≡ true → c < 128
unfolding valid_prefixed_digit
octal_lt c h = ground (arith, h)

hex_lt : (c : ℕ) → valid_prefixed_digit c b'x' ≡ true → c < 128
unfolding valid_prefixed_digit
hex_lt c h = ground (arith, h)

pub binary-Digits : Digits b'b' 2
binary-Digits c h =
    tested (valid_prefixed_digit c b'b') (readable_byte 2 c)
      (passes_below-lt (prefix_test b'b' 2) 128 binary_table c (binary_lt c h)) h

pub octal-Digits : Digits b'o' 8
octal-Digits c h =
    tested (valid_prefixed_digit c b'o') (readable_byte 8 c)
      (passes_below-lt (prefix_test b'o' 8) 128 octal_table c (octal_lt c h)) h

pub hex-Digits : Digits b'x' 16
hex-Digits c h =
    tested (valid_prefixed_digit c b'x') (readable_byte 16 c)
      (passes_below-lt (prefix_test b'x' 16) 128 hex_table c (hex_lt c h)) h

prefixed_ways : (bad : Bool) (next : Bool) → (if bad then false else next) ≡ true → next ≡ true
prefixed_ways bad next h = ground (arith, h)

pub joined : (a b : Bool) → a ≡ true → b ≡ true → (a && b) ≡ true
joined a b h k = ground (arith, h, k)

module _ (letter base : ℕ) (digits : Digits letter base) where
  prefixed_from-readable :
      (prev : Option ℕ) (after : Bool) (s : Bytes)
      → prefixed_from letter prev after s ≡ true
      → readable base s ≡ true
  unfolding prefixed_from
  prefixed_from-readable prev after [] h = refl
  prefixed_from-readable none after (c ∷ rest) h = elim (Bool-cases (c == b'_')) [
    | inl skip ↦ absurd (let h' = rw skip at h in cc h')
    | inr other ↦ elim (Bool-cases (not (valid_prefixed_digit c letter))) [
      | inl bad ↦ absurd (let h' = rw (other, bad) at h in cc h')
      | inr good ↦
          let valid : valid_prefixed_digit c letter ≡ true = ground (arith, good) in
          joined (readable_byte base c) (readable base rest) (digits c valid)
            (prefixed_from-readable (some c) false rest (rw (other, good) at h))
    ]
  ]
  prefixed_from-readable (some p) after (c ∷ rest) h = elim (Bool-cases (c == b'_')) [
    | inl skip ↦
        let bad : Bool =
          after
          || length rest == 0
          || not (valid_prefixed_digit p letter)
          || not (valid_prefixed_digit (get_or rest 0 0) letter) in
        let next : prefixed_from letter (some c) true rest ≡ true =
          prefixed_ways bad (prefixed_from letter (some c) true rest) (rw skip at h) in
        joined (readable_byte base c) (readable base rest) (rw skip refl)
          (prefixed_from-readable (some c) true rest next)
    | inr other ↦ elim (Bool-cases (not (valid_prefixed_digit c letter))) [
      | inl bad ↦ absurd (let h' = rw (other, bad) at h in cc h')
      | inr good ↦
          let valid : valid_prefixed_digit c letter ≡ true = ground (arith, good) in
          joined (readable_byte base c) (readable base rest) (digits c valid)
            (prefixed_from-readable (some c) false rest (rw (other, good) at h))
    ]
  ]

  -- The digits behind a prefix.
  pub prefixed-parse :
      (limit : ℕ) (s : Bytes)
      → 0 < base
      → prefixed_digits_valid_bytes s letter ≡ true
      → parse_uint_literal_digits s base limit ≢ err err_syntax
  unfolding prefixed_digits_valid_bytes
  prefixed-parse limit [] positive h e = cc h
  prefixed-parse limit (c ∷ s) positive h e =
      let (plain, run) =
        first_ways (length (c ∷ s) == 0) (c == b'_') (ends_with_underscore (c ∷ s))
          (prefixed_from letter none false (c ∷ s)) h in
      readable-parse base limit c s positive (prefixed_from-readable none false (c ∷ s) run) plain e
    where
      first_ways :
          (a b d run : Bool)
          → (if a || b || d then false else run) ≡ true
          → (b ≡ false) × (run ≡ true)
      first_ways a b d run h = ground (arith, h)
