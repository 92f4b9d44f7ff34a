-- ===== src/Scan/Examples.antt =====
-- Runs of the kernels of internal/scan, and the theorems at texts that reach both loops.
use go_toml.Prelude.{
  ◌≡◌, refl, pos, negsuc, not, [], ◌∷◌, ◌++◌, Bytes, codes, length, ltb, ◌==◌, if◌then◌else◌,
}
use go_toml.Scan.{
  first_stop, basic_string_escape_stop, basic_string_strict_stop, comment_body_stop,
  bare_value_delimiter,
}
use go_toml.Scan.Word.{has_zero, word_of, zeros_below}
use go_toml.Scan.Word.Bytewise.{all_bytes-AreBytes}
use go_toml.Scan.Kernels.{
  basic_string_stop, scan_basic_string_swar, scan_basic_string_escape_swar,
  scan_basic_string_strict_swar, scan_comment_body_swar, scan_bare_value_end_swar,
  scan_literal_string_swar, locate_newline_swar, scan_bare_key_swar, validate_utf8_swar,
}
use go_toml.Scan.Kernels.First
use go_toml.Scan.Kernels.Lines.{is_bare_key}
use go_toml.Scan.Kernels.Lines
use go_toml.Scan.Kernels.Valid
use go_toml.Scan.Sequences.{validate_utf8_scalar}

-- A tab in the first word, and a backslash in the third.
abbrev tabbed : Bytes
tabbed = codes "a\tbcdefgh, ijkl mn\\u00e9\"\n"

tabbed_strict : scan_basic_string_strict_swar tabbed ≡ 18
unfolding scan_basic_string_strict_swar has_zero word_of basic_string_strict_stop
tabbed_strict = refl

tabbed_escape : scan_basic_string_escape_swar tabbed ≡ 1
unfolding scan_basic_string_escape_swar has_zero word_of zeros_below
tabbed_escape = refl

-- Behind a quote the borrow marks `&` as well.
abbrev borrowed : Bytes
borrowed = codes "a'&'&'&'&"

borrowed_first : scan_literal_string_swar borrowed ≡ 1
unfolding scan_literal_string_swar has_zero word_of zeros_below
borrowed_first = refl

newline_behind : locate_newline_swar tabbed ≡ pos 25
unfolding locate_newline_swar has_zero word_of zeros_below
newline_behind = refl

no_newline : locate_newline_swar borrowed ≡ negsuc 0
unfolding locate_newline_swar has_zero word_of zeros_below
no_newline = refl

scan_kernels-first_stop_example :
    (scan_basic_string_swar tabbed ≡ first_stop basic_string_stop tabbed)
    × (scan_literal_string_swar tabbed ≡ first_stop (λ b. b == b'\'') tabbed)
    × (scan_basic_string_escape_swar tabbed ≡ first_stop basic_string_escape_stop tabbed)
    × (scan_comment_body_swar tabbed ≡ first_stop comment_body_stop tabbed)
scan_kernels-first_stop_example =
    First.scan_kernels-first_stop tabbed (all_bytes-AreBytes tabbed refl)

scan_basic_string_strict_swar-first_stop_example :
    scan_basic_string_strict_swar tabbed ≡ first_stop basic_string_strict_stop tabbed
scan_basic_string_strict_swar-first_stop_example =
    First.scan_basic_string_strict_swar-first_stop tabbed (all_bytes-AreBytes tabbed refl)

scan_bare_kernels-first_stop_example :
    (scan_bare_value_end_swar tabbed ≡ first_stop bare_value_delimiter tabbed)
    × (scan_bare_key_swar tabbed ≡ first_stop (λ b. not (is_bare_key b)) tabbed)
scan_bare_kernels-first_stop_example =
    Lines.scan_bare_kernels-first_stop tabbed (all_bytes-AreBytes tabbed refl)

locate_newline_swar-first_stop_example : locate_newline_swar tabbed ≡ (
    if ltb (first_stop (λ b. b == b'\n') tabbed) (length tabbed)
    then pos (first_stop (λ b. b == b'\n') tabbed)
    else negsuc 0)
locate_newline_swar-first_stop_example =
    Lines.locate_newline_swar-first_stop tabbed (all_bytes-AreBytes tabbed refl)

-- A letter of two bytes behind the first word, and the encoding of half a surrogate pair.
abbrev half_pair : Bytes
half_pair = codes "abcdefghij" ++ 0xC3 ∷ 0xA9 ∷ 0xED ∷ 0xA0 ∷ 0x80 ∷ []

half_pair_at : validate_utf8_swar half_pair ≡ 12
unfolding validate_utf8_swar word_of
half_pair_at = refl

validate_utf8_swar-validate_utf8_scalar_example :
    validate_utf8_swar half_pair ≡ validate_utf8_scalar half_pair
validate_utf8_swar-validate_utf8_scalar_example =
    Valid.validate_utf8_swar-validate_utf8_scalar half_pair (all_bytes-AreBytes half_pair refl)
