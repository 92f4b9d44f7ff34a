-- ===== src/Scan.antt =====
-- internal/scan/strict.go: the bytes at which a kernel stops, and the loops that look at one byte
-- at a time.
pub mod Word
pub mod Kernels
pub mod Sequences
mod Examples
use go_toml.Prelude.{
  ℕ, suc, Bool, true, false, not, ◌&&◌, ◌||◌, [], ◌∷◌, Bytes, ltb, leb, ◌==◌, if◌then◌else◌,
}

unfoldable pub basic_string_strict_stop : ℕ → Bool
basic_string_strict_stop b =
    b == b'"' || b == b'\\' || b == 0x7f || (ltb b 0x20 && not (b == b'\t'))

unfoldable pub basic_string_escape_stop : ℕ → Bool
basic_string_escape_stop b = b == b'"' || b == b'\\' || ltb b 0x20 || leb 0x80 b

unfoldable pub comment_body_stop : ℕ → Bool
comment_body_stop b = b == 0x7f || (ltb b 0x20 && not (b == b'\t'))

unfoldable pub bare_value_delimiter : ℕ → Bool
bare_value_delimiter b =
    b == b' '
    || b == b'\t'
    || b == b'\r'
    || b == b'\n'
    || b == b','
    || b == b']'
    || b == b'}'
    || b == b'#'
    || b == b'='

-- `for i, b := range s { if stop(b) { return i } }; return len(s)`
unfoldable pub first_stop : (ℕ → Bool) → Bytes → ℕ
first_stop stop [] = 0
first_stop stop (b ∷ s) = if stop b then 0 else suc (first_stop stop s)

abbrev pub scan_basic_string_escape_scalar : Bytes → ℕ
scan_basic_string_escape_scalar = first_stop basic_string_escape_stop

abbrev pub scan_basic_string_strict_scalar : Bytes → ℕ
scan_basic_string_strict_scalar = first_stop basic_string_strict_stop

abbrev pub scan_comment_body_scalar : Bytes → ℕ
scan_comment_body_scalar = first_stop comment_body_stop

abbrev pub scan_bare_value_end_scalar : Bytes → ℕ
scan_bare_value_end_scalar = first_stop bare_value_delimiter

unfoldable pub count_lines_scalar : Bytes → ℕ
count_lines_scalar [] = 0
count_lines_scalar (b ∷ s) = if b == b'\n' then suc (count_lines_scalar s) else count_lines_scalar s
