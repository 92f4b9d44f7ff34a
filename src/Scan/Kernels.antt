-- ===== src/Scan/Kernels.antt =====
-- internal/scan/scan_swar.go: the kernels. A loop looks at a word of eight bytes at a time, and at
-- single bytes behind the last word.
pub mod Exact
pub mod First
pub mod Lines
pub mod Valid
use Prim.Native.Nat.{bit_and, bit_or}
use go_toml.Prelude.{
  ℕ, zero, suc, ◌+◌, ◌-◌, ◌/◌, ◌⊎◌, inl, inr, ℤ, pos, negsuc, Bool, true, false, not, ◌&&◌, ◌||◌,
  Option, none, some, List, [], ◌∷◌, Bytes, length, drop, set, slice, get_or, ltb, leb, ◌==◌,
  if◌then◌else◌,
}
use go_toml.Prelude.Loop.{loop}
use go_toml.Prelude.Utf8.{decode_rune, rune_error}
use go_toml.Scan.{
  first_stop, scan_basic_string_escape_scalar, scan_basic_string_strict_scalar,
  scan_comment_body_scalar, scan_bare_value_end_scalar,
}
use go_toml.Scan.Word.{load_u64, has_byte_eq, has_byte_less_than, trailing_zeros64, swar_highs}

-- `for i+8 <= n { body }` and what stands behind it; a body that answers returns. Every turn moves
-- `i` on by eight, so fuel of `n` is never used up.
unfoldable pub for_words {ℓ} : {R : Type ℓ} → (ℕ → Option R) → (ℕ → R) → ℕ → ℕ → ℕ → R
for_words body after n zero i = after i
for_words body after n (suc fuel) i = elim (leb (i + 8) n) [
  | true ↦ elim (body i) [ some r ↦ r | none ↦ for_words body after n fuel (i + 8) ]
  | false ↦ after i
]

-- `for ; i < len(s); i++ { if stop(s[i]) { return found(i) } }; return missing`, where `rest` is
-- `s[i:]`.
unfoldable pub for_bytes {ℓ} : {R : Type ℓ} → (ℕ → Bool) → (ℕ → R) → R → ℕ → Bytes → R
for_bytes stop found missing i [] = missing
for_bytes stop found missing i (b ∷ rest) =
    if stop b then found i else for_bytes stop found missing (suc i) rest

-- `if m != 0 { return i + bits.TrailingZeros64(m)/8 }`
abbrev pub marked_at : ℕ → ℕ → Option ℕ
marked_at i m = if m == 0 then none else some (i + trailing_zeros64 m / 8)

-- `if m != 0 { if n := scalar(s[i:i+8]); n < 8 { return i + n } }`
abbrev pub confirmed_at : (Bytes → ℕ) → Bytes → ℕ → ℕ → Option ℕ
confirmed_at scalar s i m =
    if m == 0
    then none
    else let n : ℕ = scalar (slice s i (i + 8)) in if ltb n 8 then some (i + n) else none

abbrev pub basic_string_stop : ℕ → Bool
basic_string_stop b = b == b'"' || b == b'\\'

abbrev pub basic_string_marks : ℕ → ℕ
basic_string_marks w = bit_or (has_byte_eq w b'"') (has_byte_eq w b'\\')

unfoldable pub scan_basic_string_swar : Bytes → ℕ
unfolding for_words for_bytes load_u64 has_byte_eq trailing_zeros64
scan_basic_string_swar s =
    for_words (λ i. marked_at i (basic_string_marks (load_u64 s i)))
      (λ i. for_bytes basic_string_stop (λ j. j) (length s) i (drop i s)) (length s) (length s) 0

abbrev pub basic_string_escape_marks : ℕ → ℕ
basic_string_escape_marks w =
    bit_or (bit_or (bit_or (has_byte_eq w b'"') (has_byte_eq w b'\\')) (has_byte_less_than w 0x20))
      (bit_and w swar_highs)

unfoldable pub scan_basic_string_escape_swar : Bytes → ℕ
unfolding for_words load_u64 has_byte_eq has_byte_less_than trailing_zeros64 first_stop
scan_basic_string_escape_swar s =
    for_words (λ i. marked_at i (basic_string_escape_marks (load_u64 s i)))
      (λ i. i + scan_basic_string_escape_scalar (drop i s)) (length s) (length s) 0

abbrev pub basic_string_strict_marks : ℕ → ℕ
basic_string_strict_marks w =
    bit_or (bit_or (bit_or (has_byte_eq w b'"') (has_byte_eq w b'\\')) (has_byte_eq w 0x7f))
      (has_byte_less_than w 0x20)

unfoldable pub scan_basic_string_strict_swar : Bytes → ℕ
unfolding for_words load_u64 has_byte_eq has_byte_less_than first_stop
scan_basic_string_strict_swar s =
    for_words
      (λ i.
        confirmed_at scan_basic_string_strict_scalar s i (basic_string_strict_marks (load_u64 s i)))
      (λ i. i + scan_basic_string_strict_scalar (drop i s)) (length s) (length s) 0

abbrev pub comment_body_marks : ℕ → ℕ
comment_body_marks w = bit_or (has_byte_eq w 0x7f) (has_byte_less_than w 0x20)

unfoldable pub scan_comment_body_swar : Bytes → ℕ
unfolding for_words load_u64 has_byte_eq has_byte_less_than first_stop
scan_comment_body_swar s =
    for_words (λ i. confirmed_at scan_comment_body_scalar s i (comment_body_marks (load_u64 s i)))
      (λ i. i + scan_comment_body_scalar (drop i s)) (length s) (length s) 0

abbrev pub bare_value_marks : ℕ → ℕ
bare_value_marks w =
    bit_or
      (bit_or
        (bit_or
          (bit_or
            (bit_or
              (bit_or
                (bit_or (bit_or (has_byte_eq w b' ') (has_byte_eq w b'\t')) (has_byte_eq w b'\r'))
                (has_byte_eq w b'\n'))
              (has_byte_eq w b','))
            (has_byte_eq w b']'))
          (has_byte_eq w b'}'))
        (has_byte_eq w b'#'))
      (has_byte_eq w b'=')

unfoldable pub scan_bare_value_end_swar : Bytes → ℕ
unfolding for_words load_u64 has_byte_eq trailing_zeros64 first_stop
scan_bare_value_end_swar s =
    for_words (λ i. marked_at i (bare_value_marks (load_u64 s i)))
      (λ i. i + scan_bare_value_end_scalar (drop i s)) (length s) (length s) 0

unfoldable pub scan_literal_string_swar : Bytes → ℕ
unfolding for_words for_bytes load_u64 has_byte_eq trailing_zeros64
scan_literal_string_swar s =
    for_words (λ i. marked_at i (has_byte_eq (load_u64 s i) b'\''))
      (λ i. for_bytes (λ b. b == b'\'') (λ j. j) (length s) i (drop i s)) (length s) (length s) 0

abbrev pub found_pos : Option ℕ → Option ℤ
found_pos none = none
found_pos (some i) = some (pos i)

unfoldable pub locate_newline_swar : Bytes → ℤ
unfolding for_words for_bytes load_u64 has_byte_eq trailing_zeros64
locate_newline_swar s =
    for_words (λ i. found_pos (marked_at i (has_byte_eq (load_u64 s i) b'\n')))
      (λ i. for_bytes (λ b. b == b'\n') pos (negsuc 0) i (drop i s)) (length s) (length s) 0

-- The turn at `i` of the loop over code points.
unfoldable pub utf8_turn : Bytes → ℕ → ℕ ⊎ ℕ
unfolding decode_rune
utf8_turn s i =
    let (r, size) = decode_rune (drop i s) in
    if not (ltb i (length s))
    then inl (length s)
    else if ltb (get_or s i 0) 0x80
    then inr (i + 1)
    else if r == rune_error && size == 1
    then inl i
    else inr (i + size)

-- That loop from `i` on. Every turn moves `i` on, so fuel for every byte is enough.
abbrev pub validate_from : Bytes → ℕ → ℕ
validate_from s i = loop (utf8_turn s) (length s) (suc (length s)) i

-- A word with a byte that is not ASCII ends the first loop, and the second one goes on from there.
unfoldable pub validate_utf8_swar : Bytes → ℕ
unfolding for_words load_u64 utf8_turn loop
validate_utf8_swar s =
    for_words
      (λ i. if bit_and (load_u64 s i) swar_highs == 0 then none else some (validate_from s i))
      (validate_from s) (length s) (length s) 0

-- `for c := lo; c <= hi; c++ { t[c] = true }`, of `count` bytes.
unfoldable pub fill_class : ℕ → ℕ → List Bool → List Bool
fill_class zero lo t = t
fill_class (suc count) lo t = fill_class count (suc lo) (set t lo true)

unfoldable pub no_class : ℕ → List Bool
no_class zero = []
no_class (suc size) = false ∷ no_class size

unfoldable pub bare_key_class : List Bool
unfolding fill_class no_class
bare_key_class =
    set
      (set (fill_class 10 b'0' (fill_class 26 b'a' (fill_class 26 b'A' (no_class 256)))) b'_' true)
      b'-' true

unfoldable pub scan_bare_key_swar : Bytes → ℕ
unfolding first_stop bare_key_class
scan_bare_key_swar s = first_stop (λ b. not (get_or bare_key_class b false)) s

unfoldable pub skip_whitespace_swar : Bytes → ℕ
unfolding first_stop
skip_whitespace_swar s = first_stop (λ b. not (b == b' ') && not (b == b'\t')) s
