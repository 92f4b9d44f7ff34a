-- ===== src/Values/Examples.antt =====
-- Tests of Values, and the theorems about it at concrete inputs.
use go_toml.Prelude.{
  ◌≡◌, ◌≢◌, refl, arith, pos, negsuc, ok, err, some, true, false, List, [], ◌∷◌, Bytes, codes,
}
use go_toml.Decoder.State.{no_fuel}
use go_toml.Values.Strings.{
  parse_string_value, validate_string_value, error_of, parse_basic_string_body, built,
}
use go_toml.Values.Strings.Checks.{validate_string_value-parse_string_value}
use go_toml.Values.Strings.Ends.{parse_string_value-has_fuel}
use go_toml.Values.Strings.Runs.{parse_basic_string_body-read_bytes, read_bytes}
use go_toml.Values.Keys.{parse_dotted_key}
use go_toml.Values.Keys.Ends.{parse_dotted_key-ends}
use go_toml.Values.Numbers.{parse_integer_literal, err_range, err_syntax}
use go_toml.Values.Numbers.Range.{
  IsInt64, parse_integer_literal-IsInt64, parse_integer_literal-itoa,
}
use go_toml.Values.Classify.{is_int_candidate_bytes}
use go_toml.Values.Classify.Integers.{parse_integer_literal-is_int_candidate_bytes}
use go_toml.Prelude.Decimal.{itoa}
use go_toml.Scan.{basic_string_strict_stop}
use go_toml.Scan.Word.{has_zero, word_of}
use go_toml.Scan.Word.Bytewise.{all_bytes-AreBytes}

-- "a\tb\u00e9"
abbrev escaped : Bytes
escaped = b'"' ∷ b'a' ∷ b'\\' ∷ b't' ∷ b'b' ∷ b'\\' ∷ b'u' ∷ b'0' ∷ b'0' ∷ b'e' ∷ b'9' ∷ b'"' ∷ []

escaped_text : parse_string_value escaped ≡ ok (b'a' ∷ b'\t' ∷ b'b' ∷ 0xC3 ∷ 0xA9 ∷ [])
unfolding parse_string_value has_zero word_of basic_string_strict_stop
escaped_text = refl

-- Three quotes, a newline, and a line that goes on.
abbrev folded : Bytes
folded = b'"' ∷ b'"' ∷ b'"' ∷ b'\n' ∷ b'a' ∷ b'\\' ∷ b'\n' ∷ b' ' ∷ b'b' ∷ b'"' ∷ b'"' ∷ b'"' ∷ []

folded_text : parse_string_value folded ≡ ok (codes "ab")
unfolding parse_string_value has_zero word_of basic_string_strict_stop
folded_text = refl

dotted : parse_dotted_key (codes "a . 'b.c' .\"d\"") ≡ ok (codes "a" ∷ codes "b.c" ∷ codes "d" ∷ [])
unfolding parse_dotted_key basic_string_strict_stop
dotted = refl

numbers :
    (parse_integer_literal (codes "-0x8000000000000000") ≡ ok (negsuc 0x7FFF_FFFF_FFFF_FFFF))
    × (parse_integer_literal (codes "1_000") ≡ ok (pos 1000))
    × (parse_integer_literal (codes "9223372036854775808") ≡ err err_range)
unfolding parse_integer_literal
numbers = (refl, refl, refl)

validate_string_value-parse_string_value_example :
    validate_string_value escaped ≡ error_of (parse_string_value escaped)
validate_string_value-parse_string_value_example = validate_string_value-parse_string_value escaped

parse_string_value-has_fuel_example : parse_string_value folded ≢ err no_fuel
parse_string_value-has_fuel_example = parse_string_value-has_fuel folded

parse_basic_string_body-read_bytes_example :
    parse_basic_string_body (codes "a\\nb") false ≡ built (read_bytes (codes "a\\nb") (some []))
parse_basic_string_body-read_bytes_example =
    parse_basic_string_body-read_bytes (codes "a\\nb") (all_bytes-AreBytes (codes "a\\nb") refl)

parse_dotted_key-ends_example :
    (parse_dotted_key (codes "a.\"b\"") ≢ err no_fuel)
    × ((parts : List Bytes) → parse_dotted_key (codes "a.\"b\"") ≡ ok parts → parts ≢ [])
parse_dotted_key-ends_example = parse_dotted_key-ends (codes "a.\"b\"")

read_minimum :
    parse_integer_literal (codes "-9223372036854775808") ≡ ok (negsuc 0x7FFF_FFFF_FFFF_FFFF)
unfolding parse_integer_literal
read_minimum = refl

parse_integer_literal-IsInt64_example : IsInt64 (negsuc 0x7FFF_FFFF_FFFF_FFFF)
parse_integer_literal-IsInt64_example =
    parse_integer_literal-IsInt64 (codes "-9223372036854775808") (negsuc 0x7FFF_FFFF_FFFF_FFFF)
      read_minimum

parse_integer_literal-itoa_example : parse_integer_literal (itoa (negsuc 41)) ≡ ok (negsuc 41)
parse_integer_literal-itoa_example = parse_integer_literal-itoa (negsuc 41) (omega arith)

candidate : is_int_candidate_bytes (codes "0xdead_beef") ≡ true
unfolding is_int_candidate_bytes
candidate = refl

parse_integer_literal-is_int_candidate_bytes_example :
    parse_integer_literal (codes "0xdead_beef") ≢ err err_syntax
parse_integer_literal-is_int_candidate_bytes_example =
    parse_integer_literal-is_int_candidate_bytes (codes "0xdead_beef") candidate
