-- ===== src/Values/Classify/Decimals.antt =====
-- decoder.go, value.go: about integers without the prefix of a base.
use go_toml.Prelude.{
  ℕ, ◌≡◌, ◌≢◌, refl, ◌∙◌, arith, inl, inr, err, Bool, true, false, not, ◌&&◌, ◌||◌, [], ◌∷◌, Bytes,
  length, drop, get_or, ltb, ◌==◌, if◌then◌else◌, Result-cases,
}
use go_toml.Prelude.Equal.{passes_below, passes_below-lt}
use go_toml.Values.Numbers.{
  NumberError, err_syntax, numeric_digit_value, parse_uint_literal_digits, base_prefix, with_sign,
  max_int64, min_magnitude,
}
use go_toml.Values.Classify.{
  decimal, has_valid_number_underscores_bytes, digits_and_underscores, is_decimal_candidate,
  ends_with_underscore,
}
use go_toml.Values.Classify.Prefixes.{
  readable_byte, readable, both_hold, readable-parse, tested, joined,
}

decimal_table : passes_below (λ c. not (decimal c || c == b'_') || readable_byte 10 c) 128 ≡ true
unfolding passes_below numeric_digit_value
decimal_table = refl

decimal_byte : (c : ℕ) → (decimal c || c == b'_') ≡ true → readable_byte 10 c ≡ true
decimal_byte c h =
    tested (decimal c || c == b'_') (readable_byte 10 c)
      (passes_below-lt (λ c. not (decimal c || c == b'_') || readable_byte 10 c) 128 decimal_table c
        (ground (arith, h)))
      h

digits_and_underscores-readable :
    (n : Bytes) → digits_and_underscores n ≡ true → readable 10 n ≡ true
unfolding digits_and_underscores
digits_and_underscores-readable [] h = refl
digits_and_underscores-readable (c ∷ n) h =
    let (head, tail) = both_hold (decimal c || c == b'_') (digits_and_underscores n) h in
    joined (readable_byte 10 c) (readable 10 n) (decimal_byte c head)
      (digits_and_underscores-readable n tail)

abbrev prefix_letter : ℕ → Bool
prefix_letter c = (c == b'b' || c == b'B') || ((c == b'o' || c == b'O') || (c == b'x' || c == b'X'))

plain_second : (n : Bytes) → digits_and_underscores n ≡ true → prefix_letter (get_or n 1 0) ≡ false
unfolding digits_and_underscores
plain_second [] h = refl
plain_second (c ∷ []) h = refl
plain_second (c ∷ d ∷ n) h =
    let (head, tail) = both_hold (decimal c || c == b'_') (digits_and_underscores (d ∷ n)) h in
    let (head', tail') = both_hold (decimal d || d == b'_') (digits_and_underscores n) tail in
    no_letter d head'
  where
    no_letter : (d : ℕ) → (decimal d || d == b'_') ≡ true → prefix_letter d ≡ false
    no_letter d h = ground (arith, h)

base_prefix_plain : (n : Bytes) → prefix_letter (get_or n 1 0) ≡ false → base_prefix n ≡ (10, n)
unfolding base_prefix
base_prefix_plain n h =
    no_prefix (not (ltb 2 (length n) && get_or n 0 0 == b'0'))
      (get_or n 1 0 == b'b' || get_or n 1 0 == b'B') (get_or n 1 0 == b'o' || get_or n 1 0 == b'O')
      (get_or n 1 0 == b'x' || get_or n 1 0 == b'X') (10, n) (2, drop 2 n) (8, drop 2 n)
      (16, drop 2 n) h
  where
    no_prefix :
        (a b o x : Bool) (p q r t : ℕ × Bytes)
        → (b || (o || x)) ≡ false
        → (if a then p else if b then q else if o then r else if x then t else p) ≡ p
    no_prefix a b o x p q r t h = ground (arith, h)

-- The sign adds no error.
pub with_sign-err :
    (negative : Bool) (text : Bytes) (e : NumberError)
    → with_sign negative text ≡ err e
    → parse_uint_literal_digits
        ((base_prefix text).1)
        ((base_prefix text).0)
        (if negative then min_magnitude else max_int64)
      ≡ err e
unfolding with_sign
with_sign-err negative text e h =
    elim (Result-cases (
      parse_uint_literal_digits ((base_prefix text).1) ((base_prefix text).0)
        (if negative then min_magnitude else max_int64))) [
          | inl (u, read) ↦ absurd (let h' = rw (with_sign, read) at h in cc h')
          | inr (bad, read) ↦ let h' = rw (with_sign, read) at h in read ∙ cc h'
        ]

pub decimal-with_sign :
    (negative : Bool) (n : Bytes)
    → is_decimal_candidate n ≡ true
    → with_sign negative n ≢ err err_syntax
unfolding is_decimal_candidate has_valid_number_underscores_bytes
decimal-with_sign negative [] h e = cc h
decimal-with_sign negative (c ∷ n) h e =
    let text : Bytes = c ∷ n in
    let (digits, plain) =
      ways (ltb 1 (length text) && (get_or text 0 0 == b'0' && decimal (get_or text 1 0)))
        (digits_and_underscores text) (length text == 0) (c == b'_') (ends_with_underscore text) _
        h in
    let prefix = base_prefix_plain text (plain_second text digits) in
    let e' = with_sign-err negative text err_syntax e in
    let e'' : parse_uint_literal_digits text 10 (if negative then min_magnitude else max_int64)
        ≡ err err_syntax =
      rw prefix at e' in
    readable-parse 10 (if negative then min_magnitude else max_int64) c n (omega arith)
      (digits_and_underscores-readable text digits) plain e''
  where
    ways :
        (a d x y z run : Bool)
        → (if a then false else if not d then false else if x || y || z then false else run) ≡ true
        → (d ≡ true) × (y ≡ false)
    ways a d x y z run h = ground (arith, h)
