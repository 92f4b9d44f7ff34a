-- ===== src/Values/Numbers.antt =====
-- value.go: integers; the underscores of numbers and the special floats.
pub mod Digits
pub mod Range
use Prim.Native.String.{String}
use go_toml.Prelude.{
  ℕ, zero, suc, ◌+◌, ◌-◌, ◌*◌, ◌/◌, ◌%◌, ◌^◌, ℤ, pos, negsuc, Result, ok, err, ◌>>=◌, Option, none,
  some, Bool, true, false, not, ◌&&◌, ◌||◌, [], ◌∷◌, Bytes, length, drop, get_or, ltb, leb, ◌==◌,
  if◌then◌else◌, codes,
}
use go_toml.Prelude.Equal.{bytes_equal}

-- `strconv.ErrSyntax` and `strconv.ErrRange`.
pub data NumberError : Type 0 where
  err_syntax err_range : NumberError

unfoldable pub numeric_digit_value : ℕ → Option ℕ
numeric_digit_value c =
    if leb b'0' c && leb c b'9'
    then some (c - b'0')
    else if leb b'a' c && leb c b'f'
    then some (c - b'a' + 10)
    else if leb b'A' c && leb c b'F'
    then some (c - b'A' + 10)
    else none

-- `!ok || digit >= base`
abbrev pub digit_below : ℕ → Option ℕ → Option ℕ
digit_below base none = none
digit_below base (some d) = if leb base d then none else some d

-- The loop of `parseUintLiteralDigits`; `saw` is `sawDigit`. No step leaves the words of 64 bits, since
-- `u` stays within the limit.
unfoldable pub digits_from : ℕ → ℕ → ℕ → ℕ → Bool → Bytes → Result NumberError ℕ
unfolding numeric_digit_value
digits_from base cutoff cutlim u saw [] = if saw then ok u else err err_syntax
digits_from base cutoff cutlim u saw (c ∷ raw) =
    let skipped = digits_from base cutoff cutlim u saw raw in
    if c == b'_' then skipped else elim (digit_below base (numeric_digit_value c)) [
      | none ↦ err err_syntax
      | some d ↦
          let next = digits_from base cutoff cutlim (u * base + d) true raw in
          if ltb cutoff u || (u == cutoff && ltb cutlim d) then err err_range else next
    ]

unfoldable pub parse_uint_literal_digits : Bytes → ℕ → ℕ → Result NumberError ℕ
unfolding digits_from
parse_uint_literal_digits raw base limit =
    if length raw == 0
    then err err_syntax
    else digits_from base (limit / base) (limit % base) 0 false raw

-- `math.MaxInt64`, and `1 << 63`.
abbrev pub max_int64 : ℕ
max_int64 = 0x7FFF_FFFF_FFFF_FFFF

abbrev pub min_magnitude : ℕ
min_magnitude = 0x8000_0000_0000_0000

-- `-int64(u)` for a `u` that an `int64` holds.
abbrev pub negated : ℕ → ℤ
negated zero = pos 0
negated (suc n) = negsuc n

-- `math.MinInt64`
abbrev pub min_int64 : ℤ
min_int64 = negsuc max_int64

-- The base that the prefix of `text` names, and the digits behind it.
unfoldable pub base_prefix : Bytes → ℕ × Bytes
base_prefix text =
    let c : ℕ = get_or text 1 0 in
    if not (ltb 2 (length text) && get_or text 0 0 == b'0')
    then (10, text)
    else if c == b'b' || c == b'B'
    then (2, drop 2 text)
    else if c == b'o' || c == b'O'
    then (8, drop 2 text)
    else if c == b'x' || c == b'X'
    then (16, drop 2 text)
    else (10, text)

unfoldable pub with_sign : Bool → Bytes → Result NumberError ℤ
unfolding base_prefix parse_uint_literal_digits
with_sign negative text =
    let (base, digits) = base_prefix text in
    parse_uint_literal_digits digits base (if negative then min_magnitude else max_int64) >>= λ u.
    ok (if negative then (if u == min_magnitude then min_int64 else negated u) else pos u)

unfoldable pub parse_integer_literal : Bytes → Result NumberError ℤ
unfolding with_sign
parse_integer_literal raw =
    if ltb 0 (length raw) && get_or raw 0 0 == b'+'
    then with_sign false (drop 1 raw)
    else if ltb 0 (length raw) && get_or raw 0 0 == b'-'
    then with_sign true (drop 1 raw)
    else with_sign false raw

abbrev pub is_upper : ℕ → Bool
is_upper b = leb b'A' b && leb b b'Z'

abbrev pub lower_ascii : ℕ → ℕ
lower_ascii b = if is_upper b then b + 32 else b

-- `for _, b := range raw { if b == '_' || lower && upper(b) { needsCopy = true; break } }`
unfoldable pub needs_copy : Bool → Bytes → Bool
needs_copy lower [] = false
needs_copy lower (b ∷ raw) = (b == b'_' || (lower && is_upper b)) || needs_copy lower raw

unfoldable pub normalized : Bool → Bytes → Bytes
normalized lower [] = []
normalized lower (b ∷ raw) =
    let rest = normalized lower raw in
    if b == b'_' then rest else (if lower then lower_ascii b else b) ∷ rest

-- The text that `appendNormalizedNumeric` gives for an empty `dst`.
unfoldable pub append_normalized_numeric : Bytes → Bool → Bytes
unfolding needs_copy normalized
append_normalized_numeric raw lower = if needs_copy lower raw then normalized lower raw else raw

-- The bits of `math.Inf` and `math.NaN`.
abbrev pub inf_bits : ℕ
inf_bits = 0x7FF0_0000_0000_0000

abbrev pub neg_inf_bits : ℕ
neg_inf_bits = 0xFFF0_0000_0000_0000

abbrev pub nan_bits : ℕ
nan_bits = 0x7FF8_0000_0000_0001

abbrev pub neg_nan_bits : ℕ
neg_nan_bits = 0xFFF8_0000_0000_0001

unfoldable pub parse_special_float_literal : Bytes → Option ℕ
unfolding bytes_equal
parse_special_float_literal raw =
    if bytes_equal raw (codes "nan") || bytes_equal raw (codes "+nan")
    then some nan_bits
    else if bytes_equal raw (codes "-nan")
    then some neg_nan_bits
    else if bytes_equal raw (codes "inf") || bytes_equal raw (codes "+inf")
    then some inf_bits
    else if bytes_equal raw (codes "-inf")
    then some neg_inf_bits
    else none

unfoldable pub is_special_float_folded : Bytes → Bool
is_special_float_folded [] = false
is_special_float_folded (c ∷ raw) =
    let text : Bytes = if c == b'+' || c == b'-' then raw else c ∷ raw in
    length text == 3
    && ((lower_ascii (get_or text 0 0) == b'i'
          && lower_ascii (get_or text 1 0) == b'n'
          && lower_ascii (get_or text 2 0) == b'f')
        || (lower_ascii (get_or text 0 0) == b'n'
            && lower_ascii (get_or text 1 0) == b'a'
            && lower_ascii (get_or text 2 0) == b'n'))
