-- ===== src/Values/Classify.antt =====
-- decoder.go, value.go: what kind of value a bare text is.
pub mod Prefixes
pub mod Decimals
pub mod Integers
use Prim.Native.String.{String}
use go_toml.Prelude.{
  ℕ, zero, suc, ◌+◌, ◌-◌, ◌^◌, ℤ, pos, negsuc, Result, ok, err, Option, none, some, Bool, true,
  false, not, ◌&&◌, ◌||◌, [], ◌∷◌, Bytes, length, drop, get_or, ltb, leb, ◌==◌, if◌then◌else◌,
  codes,
}
use go_toml.Prelude.Equal.{bytes_equal}
use go_toml.Scan.{first_stop}
use go_toml.Decoder.State.{
  TokenKind, value_integer, value_float, value_bool, value_datetime, TokenScalar, scalar_integer,
  scalar_float, no_scalar,
}
use go_toml.DateTime.Value.{has_date_shape, has_time_shape}
use go_toml.Values.Numbers.{
  parse_integer_literal, parse_special_float_literal, append_normalized_numeric, lower_ascii,
}

abbrev pub is_sign : ℕ → Bool
is_sign c = c == b'+' || c == b'-'

abbrev pub decimal : ℕ → Bool
decimal c = leb b'0' c && leb c b'9'

unfoldable pub trim_sign_bytes : Bytes → Bytes
trim_sign_bytes [] = []
trim_sign_bytes (c ∷ raw) = if is_sign c then raw else c ∷ raw

unfoldable pub valid_prefixed_digit : ℕ → ℕ → Bool
valid_prefixed_digit c prefix =
    if prefix == b'b'
    then c == b'0' || c == b'1'
    else if prefix == b'o'
    then leb b'0' c && leb c b'7'
    else if prefix == b'x'
    then decimal c || ((leb b'a' c && leb c b'f') || (leb b'A' c && leb c b'F'))
    else false

-- `raw[len(raw)-1] == '_'` of a text that is not empty.
abbrev pub ends_with_underscore : Bytes → Bool
ends_with_underscore raw = get_or raw (length raw - 1) 0 == b'_'

-- The loop of `prefixedDigitsValidBytes`; `prev` is `raw[i-1]`, which is there when `i` is not 0, and
-- `after` is `prevUnderscore`.
unfoldable pub prefixed_from : ℕ → Option ℕ → Bool → Bytes → Bool
unfolding valid_prefixed_digit
prefixed_from prefix prev after [] = true
prefixed_from prefix prev after (c ∷ rest) =
    let next = prefixed_from prefix (some c) true rest in
    let later = prefixed_from prefix (some c) false rest in
    if c == b'_'
    then (elim prev [
      | none ↦ false
      | some p ↦
          if after
            || length rest == 0
            || not (valid_prefixed_digit p prefix)
            || not (valid_prefixed_digit (get_or rest 0 0) prefix)
          then false
          else next
    ])
    else if not (valid_prefixed_digit c prefix)
    then false
    else later

unfoldable pub prefixed_digits_valid_bytes : Bytes → ℕ → Bool
unfolding prefixed_from
prefixed_digits_valid_bytes raw prefix =
    if length raw == 0 || get_or raw 0 0 == b'_' || ends_with_underscore raw
    then false
    else prefixed_from prefix none false raw

-- The loop of `hasValidNumberUnderscoresBytes`, as above.
unfoldable pub underscores_from : Option ℕ → Bool → Bytes → Bool
underscores_from prev after [] = true
underscores_from prev after (c ∷ rest) =
    let next = underscores_from (some c) true rest in
    let later = underscores_from (some c) false rest in
    if not (c == b'_') then later else elim prev [
      | none ↦ false
      | some p ↦
          if after || length rest == 0
          then false
          else if not (decimal p)
          then false
          else if not (decimal (get_or rest 0 0))
          then false
          else next
    ]

unfoldable pub has_valid_number_underscores_bytes : Bytes → Bool
unfolding underscores_from
has_valid_number_underscores_bytes raw =
    if length raw == 0 || get_or raw 0 0 == b'_' || ends_with_underscore raw
    then false
    else underscores_from none false raw

-- `for _, b := range n { digit or '_', or else return false }`
unfoldable pub digits_and_underscores : Bytes → Bool
digits_and_underscores [] = true
digits_and_underscores (b ∷ n) = (decimal b || b == b'_') && digits_and_underscores n

-- A text without a prefix of a base.
unfoldable pub is_decimal_candidate : Bytes → Bool
unfolding digits_and_underscores has_valid_number_underscores_bytes
is_decimal_candidate n =
    if ltb 1 (length n) && (get_or n 0 0 == b'0' && decimal (get_or n 1 0))
    then false
    else if not (digits_and_underscores n)
    then false
    else has_valid_number_underscores_bytes n

abbrev pub base_letter : ℕ → Bool
base_letter c = c == b'b' || c == b'o' || c == b'x'

unfoldable pub is_int_candidate_bytes : Bytes → Bool
unfolding trim_sign_bytes prefixed_digits_valid_bytes is_decimal_candidate
is_int_candidate_bytes raw =
    let n : Bytes = trim_sign_bytes raw in
    let letter : ℕ = lower_ascii (get_or n 1 0) in
    if length raw == 0
    then false
    else if length n == 0
    then false
    else if leb 2 (length n) && (get_or n 0 0 == b'0' && get_or n 1 0 == b'_')
    then false
    else if ltb 2 (length n) && get_or n 0 0 == b'0' && base_letter letter
    then (if is_sign (get_or raw 0 0) then false else prefixed_digits_valid_bytes (drop 2 n) letter)
    else is_decimal_candidate n

unfoldable pub has_capital_numeric_prefix_bytes : Bytes → Bool
unfolding trim_sign_bytes
has_capital_numeric_prefix_bytes raw =
    let n : Bytes = trim_sign_bytes raw in
    ltb 1 (length n)
    && (get_or n 0 0 == b'0'
        && (get_or n 1 0 == b'B' || get_or n 1 0 == b'O' || get_or n 1 0 == b'X'))

unfoldable pub is_special_float_bytes : Bytes → Bool
unfolding bytes_equal
is_special_float_bytes raw =
    (bytes_equal raw (codes "inf")
      || bytes_equal raw (codes "+inf")
      || bytes_equal raw (codes "-inf"))
    || (bytes_equal raw (codes "nan")
        || bytes_equal raw (codes "+nan")
        || bytes_equal raw (codes "-nan"))

-- `hasExp` and `hasDecimalPoint`.
pub record FloatMarks : Type 0 where
  pub has_exp : Bool
  pub has_decimal_point : Bool

-- The loop of `isFloatCandidateBytes`; `none` is a false answer. `prev` is `n[i-1]`.
unfoldable pub float_from : Option ℕ → FloatMarks → Bytes → Option FloatMarks
float_from prev m [] = some m
float_from prev m (c ∷ rest) =
    let point = float_from (some c) (record m { has_decimal_point = true }) rest in
    let exponent = float_from (some c) (record m { has_exp = true }) rest in
    let later = float_from (some c) m rest in
    if c == b'.'
    then (elim prev [
      | none ↦ none
      | some p ↦
          if m.has_decimal_point || length rest == 0 || not (decimal (get_or rest 0 0))
          then none
          else point
    ])
    else if c == b'e' || c == b'E'
    then (if m.has_exp then none else exponent)
    else if is_sign c
    then (elim prev [ none ↦ none | some p ↦ if p == b'e' || p == b'E' then later else none ])
    else if c == b'_' || decimal c
    then later
    else none

unfoldable pub is_float_candidate_bytes : Bytes → Bool
unfolding trim_sign_bytes float_from has_valid_number_underscores_bytes
is_float_candidate_bytes raw =
    let n : Bytes = trim_sign_bytes raw in
    let next : ℕ = get_or n 1 0 in
    if length raw == 0
    then false
    else if length n == 0
    then false
    else if ltb 1 (length n) && (get_or n 0 0 == b'0' && (decimal next || next == b'_'))
    then false
    else elim (float_from none (record { has_exp = false; has_decimal_point = false }) n) [
      | none ↦ false
      | some m ↦
          if not m.has_decimal_point && not m.has_exp
          then false
          else has_valid_number_underscores_bytes n
    ]

unfoldable pub contains_malformed_bare_value_byte : Bytes → Bool
contains_malformed_bare_value_byte [] = false
contains_malformed_bare_value_byte (b ∷ raw) =
    let later = contains_malformed_bare_value_byte raw in
    if decimal b
      || (is_sign b || (b == b'.' || (b == b'_' || (b == b':' || (b == b'e' || b == b'E')))))
    then later
    else true

unfoldable pub has_date_time_shape : Bytes → Bool
unfolding has_date_shape has_time_shape
has_date_time_shape raw = has_date_shape raw || has_time_shape raw

abbrev pub one_of_equals_space : ℕ → Bool
one_of_equals_space c = c == b'=' || c == b' '

-- `uint64(i)`
abbrev pub uint64 : ℤ → ℕ
uint64 (pos n) = n
uint64 (negsuc n) = 2 ^ 64 - suc n

abbrev pub classified : TokenKind → TokenScalar → Result String (TokenKind × TokenScalar)
classified kind scalar = ok (kind, scalar)

-- What the code calls outside of this part: `parseDateTimeValue` as far as it says whether a text is a
-- date or a time, and `strconv.ParseFloat` with the bits of its result.
pub record Outside : Type 0 where
  pub is_date_time_value : Bytes → Bool
  pub parse_float : Bytes → Option ℕ

module _ (outside : Outside) where
  unfoldable pub looks_like_datetime : Bytes → Bool
  unfolding has_date_time_shape
  looks_like_datetime raw = has_date_time_shape raw && outside.is_date_time_value raw

  unfoldable pub parse_float_literal : Bytes → Option ℕ
  unfolding append_normalized_numeric
  parse_float_literal raw = outside.parse_float (append_normalized_numeric raw true)

  unfoldable pub classify_bare_value : Bytes → Result String (TokenKind × TokenScalar)
  unfolding looks_like_datetime first_stop bytes_equal is_special_float_bytes
      parse_special_float_literal is_int_candidate_bytes has_capital_numeric_prefix_bytes
      parse_integer_literal is_float_candidate_bytes parse_float_literal
      contains_malformed_bare_value_byte
  classify_bare_value raw =
      if looks_like_datetime raw
      then classified value_datetime no_scalar
      else if ltb (first_stop one_of_equals_space raw) (length raw)
      then err "unexpected = in value"
      else if bytes_equal raw (codes "true") || bytes_equal raw (codes "false")
      then classified value_bool no_scalar
      else if is_special_float_bytes raw
      then classified value_float (record {
        bits = elim (parse_special_float_literal raw) [ none ↦ 0 | some f ↦ f ];
        kind = scalar_float;
      })
      else if is_int_candidate_bytes raw
      then (if has_capital_numeric_prefix_bytes raw
          then err "malformed value"
          else elim (parse_integer_literal raw) [
            | err e ↦ err "malformed value"
            | ok i ↦ classified value_integer (record { bits = uint64 i; kind = scalar_integer })
          ])
      else if is_float_candidate_bytes raw
      then elim (parse_float_literal raw) [
        | none ↦ err "malformed float"
        | some f ↦ classified value_float (record { bits = f; kind = scalar_float })
      ]
      else if contains_malformed_bare_value_byte raw
      then err "malformed value"
      else err "malformed value"
