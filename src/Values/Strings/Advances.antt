-- ===== src/Values/Strings/Advances.antt =====
-- value.go: about the places that the turns over the body of a string go on from.
use go_toml.Prelude.{
  ℕ, ◌+◌, ◌<◌, ◌≡◌, refl, arith, inl, inr, Result, ok, err, none, some, Bool, true, false, not,
  ◌&&◌, ◌||◌, Bytes, length, drop, slice, get_or, ltb, leb, ◌==◌, if◌then◌else◌, Bool-cases,
  Result-cases, Option-cases,
}
use go_toml.Prelude.Utf8.{valid_rune}
use go_toml.Scan.{first_stop}
use go_toml.Scan.Kernels.{scan_basic_string_strict_swar}
use go_toml.Decoder.State.{DecodeError, no_fuel}
use go_toml.Values.Strings.{
  Piece, body_piece, byte_piece, plain_piece, run_piece, escape_piece, letter_piece, unicode_piece,
  parse_unicode_escape, named_escape, prohibited_string_control, max_parse_int32, hex_value_from,
  skip_escaped_multiline_string_whitespace, lines_run, is_blank, crlf_at,
}

abbrev pub is_no_fuel : DecodeError → Bool
is_no_fuel no_fuel = true
is_no_fuel e = false

-- A piece behind `i`, or an error of the code.
abbrev pub Advances : ℕ → Piece → Type 0
Advances i (err e) = is_no_fuel e ≡ false
Advances i (ok (j, bs)) = i < j

-- A rune, or an error of the code.
abbrev IsRune : Result DecodeError ℕ → Type 0
IsRune (err e) = is_no_fuel e ≡ false
IsRune (ok r) = Unit {0}

parse_unicode_escape-IsRune :
    (raw : Bytes) (start digits : ℕ) → IsRune (parse_unicode_escape raw start digits)
unfolding parse_unicode_escape
parse_unicode_escape-IsRune raw start digits =
    elim (Bool-cases (ltb (length raw) (start + digits))) [
      | inl short ↦ rw short refl
      | inr enough ↦
          let chunk : Bytes = slice raw start (start + digits) in
          elim (Option-cases (hex_value_from 0 chunk)) [
            | inl no_digit ↦ rw (enough, no_digit) refl
            | inr (v, e) ↦ elim (Bool-cases (ltb max_parse_int32 v)) [
              | inl big ↦ rw (enough, e, big) refl
              | inr small ↦ elim (Bool-cases (valid_rune v)) [
                | inl valid ↦ rw (enough, e, small, valid) tt
                | inr invalid ↦ rw (enough, e, small, invalid) refl
              ]
            ]
          ]
    ]

unicode_piece-Advances : (raw : Bytes) (i digits : ℕ) → Advances i (unicode_piece raw i digits)
unfolding unicode_piece
unicode_piece-Advances raw i digits =
    let rune = parse_unicode_escape-IsRune raw (i + 2) digits in
    elim (Result-cases (parse_unicode_escape raw (i + 2) digits)) [
      | inl (r, e) ↦ rw (unicode_piece, e) (omega arith)
      | inr (bad, e) ↦ rw (unicode_piece, e) (rw e at rune)
    ]

letter_piece-Advances : (raw : Bytes) (i next : ℕ) → Advances i (letter_piece raw i next)
unfolding letter_piece
letter_piece-Advances raw i next = elim (Option-cases (named_escape next)) [
  | inr (c, e) ↦ rw (letter_piece, e) (omega arith)
  | inl other ↦ elim (Bool-cases (next == b'x')) [
    | inl hex ↦ rw (letter_piece, other, hex) (unicode_piece-Advances raw i 2)
    | inr more ↦ elim (Bool-cases (next == b'u' || next == b'U')) [
      | inl unicode ↦
          rw (letter_piece, other, more, unicode)
            (unicode_piece-Advances raw i (if next == b'U' then 8 else 4))
      | inr bad ↦ rw (letter_piece, other, more, bad) refl
    ]
  ]
]

escape_piece-Advances : (raw : Bytes) (i : ℕ) → Advances i (escape_piece raw i)
unfolding escape_piece
escape_piece-Advances raw i = elim (Bool-cases (leb (length raw) (i + 1))) [
  | inl over ↦ rw over refl
  | inr inside ↦ rw inside (letter_piece-Advances raw i (get_or raw (i + 1) 0))
]

plain_piece-Advances :
    (raw : Bytes) (multiline : Bool) (i : ℕ) → Advances i (plain_piece raw multiline i)
unfolding plain_piece
plain_piece-Advances raw multiline i = elim (Bool-cases (crlf_at (drop i raw) multiline)) [
  | inl newline ↦ rw newline (omega arith)
  | inr other ↦ elim (Bool-cases (prohibited_string_control (get_or raw i 0) multiline)) [
    | inl bad ↦ rw (other, bad) refl
    | inr fine ↦ rw (other, fine) (omega arith)
  ]
]

skip-lt : (raw : Bytes) (i j : ℕ) → skip_escaped_multiline_string_whitespace raw i ≡ some j → i < j
unfolding skip_escaped_multiline_string_whitespace
skip-lt raw i j e =
    let n : ℕ = first_stop (λ c. not (is_blank c)) (drop i raw) in
    skip_ways i (i + n) (lines_run (drop (i + n + 1) raw)) (lines_run (drop (i + n + 2) raw))
      (ltb (i + n) (length raw) && get_or raw (i + n) 0 == b'\n')
      (ltb (i + n + 1) (length raw)
        && (get_or raw (i + n) 0 == b'\r' && get_or raw (i + n + 1) 0 == b'\n'))
      (omega arith) e
  where
    skip_ways :
        (i at one two : ℕ) (newline crlf : Bool) {j : ℕ}
        → i < at + 1
        → (if newline then some (at + 1 + one) else if crlf then some (at + 2 + two) else none)
          ≡ some j
        → i < j
    skip_ways i at one two newline crlf {j} h e = ground (arith, e, h)

pub byte_piece-Advances :
    (raw : Bytes) (multiline : Bool) (i : ℕ) → Advances i (byte_piece raw multiline i)
unfolding byte_piece
byte_piece-Advances raw multiline i = elim (Bool-cases (not (get_or raw i 0 == b'\\'))) [
  | inl plain ↦ rw plain (plain_piece-Advances raw multiline i)
  | inr escape ↦ elim (Bool-cases multiline) [
    | inl many ↦ elim (Option-cases (skip_escaped_multiline_string_whitespace raw (i + 1))) [
      | inl none_there ↦ rw (escape, many, none_there) (escape_piece-Advances raw i)
      | inr (j, e) ↦ rw (escape, many, e) (let lt = skip-lt raw (i + 1) j e in omega (arith, lt))
    ]
    | inr one ↦ rw (escape, one) (escape_piece-Advances raw i)
  ]
]

run_piece-Advances : (raw : Bytes) (i : ℕ) → i < length raw → Advances i (run_piece raw i)
unfolding run_piece
run_piece-Advances raw i h =
    let n : ℕ = scan_basic_string_strict_swar (drop i raw) in
    let later = byte_piece-Advances raw false (i + n) in
    elim (Bool-cases (leb (length raw) (i + n))) [
      | inl over ↦ let far : i < i + n = ground (arith, over, h) in rw (run_piece, over) far
      | inr inside ↦ elim (Result-cases (byte_piece raw false (i + n))) [
        | inl ((j, bs), e) ↦
            let lt : i + n < j = rw e at later in rw (run_piece, inside, e) (omega (arith, lt))
        | inr (bad, e) ↦ rw (run_piece, inside, e) (rw e at later)
      ]
    ]

pub body_piece-Advances :
    (raw : Bytes) (multiline : Bool) (i : ℕ)
    → i < length raw
    → Advances i (body_piece raw multiline i)
body_piece-Advances raw true i h = byte_piece-Advances raw true i
body_piece-Advances raw false i h = run_piece-Advances raw i h
