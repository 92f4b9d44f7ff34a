-- ===== src/Values/Classify/Integers.antt =====
-- decoder.go, value.go: about `parseIntegerLiteral` on the texts that `isIntCandidateBytes` lets through.
use go_toml.Prelude.{
  ℕ, suc, ◌≡◌, ◌≢◌, ◌⊎◌, refl, sym, ap, ◌∙◌, arith, inl, inr, err, Bool, true, false, not, ◌&&◌,
  ◌||◌, [], ◌∷◌, Bytes, length, drop, get_or, ltb, leb, ◌==◌, if◌then◌else◌, Bool-cases, ==_iff,
}
use go_toml.Values.Numbers.{
  err_syntax, base_prefix, with_sign, parse_integer_literal, max_int64, lower_ascii,
}
use go_toml.Values.Classify.{
  is_sign, trim_sign_bytes, prefixed_digits_valid_bytes, is_decimal_candidate,
  is_int_candidate_bytes, base_letter,
}
use go_toml.Values.Classify.Prefixes.{binary-Digits, octal-Digits, hex-Digits, prefixed-parse}
use go_toml.Values.Classify.Decimals.{with_sign-err, decimal-with_sign}

letter_is :
    (c : ℕ)
    → base_letter (lower_ascii c) ≡ true
    → (((lower_ascii c == b'b') ≡ true) × ((c == b'b' || c == b'B') ≡ true))
      ⊎ (((lower_ascii c == b'o') ≡ true)
          × ((c == b'b' || c == b'B') ≡ false)
          × ((c == b'o' || c == b'O') ≡ true))
      ⊎ (((lower_ascii c == b'x') ≡ true)
          × ((c == b'b' || c == b'B') ≡ false)
          × ((c == b'o' || c == b'O') ≡ false)
          × ((c == b'x' || c == b'X') ≡ true))
letter_is c h = elim (Bool-cases (c == b'b' || c == b'B')) [
  | inl b ↦ inl (low_b c b, b)
  | inr nb ↦ elim (Bool-cases (c == b'o' || c == b'O')) [
    | inl o ↦ inr (inl (low_o c o, nb, o))
    | inr no_o ↦ elim (Bool-cases (c == b'x' || c == b'X')) [
      | inl x ↦ inr (inr (low_x c x, nb, no_o, x))
      | inr nx ↦ absurd (let bad = none_of c nb no_o nx in cc (sym h ∙ bad))
    ]
  ]
]
  where
    low_b : (c : ℕ) → (c == b'b' || c == b'B') ≡ true → (lower_ascii c == b'b') ≡ true
    low_b c h = ground (arith, h)

    low_o : (c : ℕ) → (c == b'o' || c == b'O') ≡ true → (lower_ascii c == b'o') ≡ true
    low_o c h = ground (arith, h)

    low_x : (c : ℕ) → (c == b'x' || c == b'X') ≡ true → (lower_ascii c == b'x') ≡ true
    low_x c h = ground (arith, h)

    none_of :
        (c : ℕ)
        → (c == b'b' || c == b'B') ≡ false
        → (c == b'o' || c == b'O') ≡ false
        → (c == b'x' || c == b'X') ≡ false
        → base_letter (lower_ascii c) ≡ false
    none_of c h k l = ground (arith, h, k, l)

prefixed-with_sign :
    (n : Bytes)
    → (ltb 2 (length n) && get_or n 0 0 == b'0') ≡ true
    → base_letter (lower_ascii (get_or n 1 0)) ≡ true
    → prefixed_digits_valid_bytes (drop 2 n) (lower_ascii (get_or n 1 0)) ≡ true
    → with_sign false n ≢ err err_syntax
unfolding base_prefix
prefixed-with_sign n zero_first letter digits e =
    let c : ℕ = get_or n 1 0 in
    let prefixed : not (ltb 2 (length n) && get_or n 0 0 == b'0') ≡ false = rw zero_first refl in
    let read = with_sign-err false n err_syntax e in
    elim (letter_is c letter) [
      | inl (low, b) ↦
          let base : base_prefix n ≡ (2, drop 2 n) = rw (base_prefix, prefixed, b) refl in
          let same : lower_ascii c ≡ b'b' = (==_iff (lower_ascii c) b'b').0 low in
          prefixed-parse b'b' 2 binary-Digits max_int64 (drop 2 n) (omega arith) (rw same at digits)
            (rw base at read)
      | inr (inl (low, nb, o)) ↦
          let base : base_prefix n ≡ (8, drop 2 n) = rw (base_prefix, prefixed, nb, o) refl in
          let same : lower_ascii c ≡ b'o' = (==_iff (lower_ascii c) b'o').0 low in
          prefixed-parse b'o' 8 octal-Digits max_int64 (drop 2 n) (omega arith) (rw same at digits)
            (rw base at read)
      | inr (inr (low, nb, no_o, x)) ↦
          let base : base_prefix n ≡ (16, drop 2 n) =
            rw (base_prefix, prefixed, nb, no_o, x) refl in
          let same : lower_ascii c ≡ b'x' = (==_iff (lower_ascii c) b'x').0 low in
          prefixed-parse b'x' 16 hex-Digits max_int64 (drop 2 n) (omega arith) (rw same at digits)
            (rw base at read)
    ]

-- The answers of `isIntCandidateBytes`.
candidate_ways :
    (empty bare under prefix letter sign valid decimals : Bool)
    → (if empty
        then false
        else if bare
        then false
        else if under
        then false
        else if prefix && letter
        then (if sign then false else valid)
        else decimals)
      ≡ true
    → ((prefix ≡ true) × (letter ≡ true) × (sign ≡ false) × (valid ≡ true)) ⊎ (decimals ≡ true)
candidate_ways empty bare under prefix letter sign valid decimals h = ground (arith, h)

parse_integer_literal-cons :
    (c : ℕ) (t : Bytes)
    → parse_integer_literal (c ∷ t) ≡ (
        if c == b'+'
        then with_sign false t
        else if c == b'-'
        then with_sign true t
        else with_sign false (c ∷ t))
unfolding parse_integer_literal
parse_integer_literal-cons c t =
    let some_bytes : ltb 0 (length (c ∷ t)) ≡ true = positive (length t) in rw some_bytes refl
  where
    positive : (n : ℕ) → ltb 0 (suc n) ≡ true
    positive n = ground arith

-- `parseIntegerLiteral` never finds a text malformed that `isIntCandidateBytes` lets through: its one
-- error there is `ErrRange`.
pub parse_integer_literal-is_int_candidate_bytes :
    (raw : Bytes) → is_int_candidate_bytes raw ≡ true → parse_integer_literal raw ≢ err err_syntax
unfolding parse_integer_literal is_int_candidate_bytes trim_sign_bytes
parse_integer_literal-is_int_candidate_bytes [] h e = cc h
parse_integer_literal-is_int_candidate_bytes (c ∷ t) h e =
    let n : Bytes = trim_sign_bytes (c ∷ t) in
    let letter : ℕ = lower_ascii (get_or n 1 0) in
    let e' = sym (parse_integer_literal-cons c t) ∙ e in
    let ways =
      candidate_ways (length (c ∷ t) == 0) (length n == 0)
        (leb 2 (length n) && (get_or n 0 0 == b'0' && get_or n 1 0 == b'_'))
        (ltb 2 (length n) && get_or n 0 0 == b'0') (base_letter letter) (is_sign c)
        (prefixed_digits_valid_bytes (drop 2 n) letter) (is_decimal_candidate n) h in
    elim (Bool-cases (is_sign c)) [
      | inl sign ↦
          let whole : n ≡ t = rw sign refl in
          elim ways [
            | inl (prefix, base, unsigned, valid) ↦ cc (sym sign ∙ unsigned)
            | inr decimals ↦
                let decimals' : is_decimal_candidate t ≡ true =
                  ap is_decimal_candidate (sym whole) ∙ decimals in
                elim (Bool-cases (c == b'+')) [
                  | inl plus ↦ decimal-with_sign false t decimals' (rw plus at e')
                  | inr other ↦
                      let minus : (c == b'-') ≡ true =
                        second_true (c == b'+') (c == b'-') sign other in
                      decimal-with_sign true t decimals' (rw (other, minus) at e')
                ]
          ]
      | inr plain ↦
          let whole : n ≡ c ∷ t = rw plain refl in
          let (no_plus, no_minus) = both_false (c == b'+') (c == b'-') plain in
          let e'' : with_sign false (c ∷ t) ≡ err err_syntax = rw (no_plus, no_minus) at e' in
          elim ways [
            | inl (prefix, base, unsigned, valid) ↦
                prefixed-with_sign (c ∷ t) (rw whole at prefix) (rw whole at base)
                  (rw whole at valid) e''
            | inr decimals ↦ decimal-with_sign false (c ∷ t) (rw whole at decimals) e''
          ]
    ]
  where
    second_true : (a b : Bool) → (a || b) ≡ true → a ≡ false → b ≡ true
    second_true a b h k = ground (arith, h, k)

    both_false : (a b : Bool) → (a || b) ≡ false → (a ≡ false) × (b ≡ false)
    both_false a b h = ground (arith, h)
