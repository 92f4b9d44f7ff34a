-- ===== src/Values/Strings.antt =====
-- value.go: the text that a string token stands for, and the check of the token without the text.
pub mod Fast
pub mod Checks
pub mod Advances
pub mod Ends
pub mod Runs
pub mod Steps
use Prim.Native.String.{String}
use go_toml.Prelude.{
  ℕ, suc, ◌+◌, ◌-◌, ◌*◌, ◌⊎◌, inl, inr, Result, ok, err, Option, none, some, Bool, true, false, not,
  ◌&&◌, ◌||◌, [], ◌∷◌, ◌++◌, Bytes, length, take, drop, slice, get_or, ltb, leb, ◌==◌,
  if◌then◌else◌, min,
}
use go_toml.Prelude.Loop.{loop}
use go_toml.Prelude.Utf8.{valid_rune, encode_rune}
use go_toml.Scan.{first_stop}
use go_toml.Scan.Kernels.{scan_basic_string_strict_swar}
use go_toml.Decoder.State.{DecodeError, syntax, range_error, no_fuel, text}
use go_toml.Decoder.Strings.{string_control_error}

-- `&SyntaxError{Line: 1, Col: col, Msg: msg, Span: [2]int{lo, hi}}`
abbrev pub value_error : String → ℕ → ℕ → ℕ → DecodeError
value_error msg col lo hi =
    syntax (record { line = 1; col = col; msg = text msg; span_start = lo; span_end = hi })

-- The kinds but the one of a string that is none.
pub data StringValueKind : Type 0 where
  literal_string multiline_literal basic_string multiline_basic : StringValueKind

unfoldable pub malformed_string_error : Bytes → DecodeError
malformed_string_error raw = value_error "malformed string" 1 0 (length raw)

unfoldable pub has_triple_delimiter : Bytes → ℕ → Bool
has_triple_delimiter raw q =
    leb 6 (length raw)
    && (get_or raw 0 0 == q && get_or raw 1 0 == q && get_or raw 2 0 == q)
    && (get_or raw (length raw - 1) 0 == q
        && get_or raw (length raw - 2) 0 == q
        && get_or raw (length raw - 3) 0 == q)

unfoldable pub has_pair_delimiter : Bytes → ℕ → Bool
has_pair_delimiter raw q =
    leb 2 (length raw) && (get_or raw 0 0 == q && get_or raw (length raw - 1) 0 == q)

unfoldable pub trim_initial_multiline_string_newline : Bytes → Bytes
trim_initial_multiline_string_newline raw =
    if leb 2 (length raw) && (get_or raw 0 0 == b'\r' && get_or raw 1 0 == b'\n')
    then drop 2 raw
    else if leb 1 (length raw) && get_or raw 0 0 == b'\n'
    then drop 1 raw
    else raw

unfoldable pub string_value_body : Bytes → Result DecodeError (Bytes × StringValueKind)
unfolding has_triple_delimiter has_pair_delimiter trim_initial_multiline_string_newline
    malformed_string_error
string_value_body raw =
    let n : ℕ = length raw in
    if has_triple_delimiter raw b'\''
    then ok (trim_initial_multiline_string_newline (slice raw 3 (n - 3)), multiline_literal)
    else if has_triple_delimiter raw b'"'
    then ok (trim_initial_multiline_string_newline (slice raw 3 (n - 3)), multiline_basic)
    else if has_pair_delimiter raw b'\''
    then ok (slice raw 1 (n - 1), literal_string)
    else if has_pair_delimiter raw b'"'
    then ok (slice raw 1 (n - 1), basic_string)
    else err (malformed_string_error raw)

unfoldable pub prohibited_string_control : ℕ → Bool → Bool
prohibited_string_control c multiline =
    if c == b'\t' then false else if multiline && c == b'\n' then false else ltb c 0x20 || c == 0x7f

-- `multiline && c == '\r' && i+1 < len(raw) && raw[i+1] == '\n'`, where `rest` is `raw[i:]`.
abbrev pub crlf_at : Bytes → Bool → Bool
crlf_at rest multiline =
    multiline && (ltb 1 (length rest) && (get_or rest 0 0 == b'\r' && get_or rest 1 0 == b'\n'))

-- The loop of `prohibitedStringControlIndex` at `i`, with `rest` for `raw[i:]`; `none` is -1. A
-- carriage return that a newline follows takes the newline along.
unfoldable pub control_from : Bool → ℕ → Bytes → Option ℕ
unfolding prohibited_string_control
control_from multiline i [] = none
control_from multiline i (c ∷ []) = if prohibited_string_control c multiline then some i else none
control_from multiline i (c ∷ d ∷ rest) =
    let behind = control_from multiline (i + 2) rest in
    let next = control_from multiline (i + 1) (d ∷ rest) in
    if multiline && (c == b'\r' && d == b'\n')
    then behind
    else if prohibited_string_control c multiline
    then some i
    else next

unfoldable pub prohibited_string_control_index : Bytes → Bool → Option ℕ
unfolding control_from
prohibited_string_control_index raw multiline = control_from multiline 0 raw

-- `none` is `nil`.
unfoldable pub validate_string_controls : Bytes → Bool → Option DecodeError
unfolding prohibited_string_control_index string_control_error
validate_string_controls raw multiline = elim (prohibited_string_control_index raw multiline) [
  | some idx ↦ some (string_control_error raw idx)
  | none ↦ none
]

unfoldable pub hex_digit_value : ℕ → Option ℕ
hex_digit_value c =
    if leb b'0' c && leb c b'9'
    then some (c - b'0')
    else if leb b'A' c && leb c b'F'
    then some (c - b'A' + 10)
    else if leb b'a' c && leb c b'f'
    then some (c - b'a' + 10)
    else none

-- `v = v<<4 | int64(n)` for each digit of `raw[start:end]`; eight digits at most are given, which an
-- `int64` holds.
unfoldable pub hex_value_from : ℕ → Bytes → Option ℕ
unfolding hex_digit_value
hex_value_from v [] = some v
hex_value_from v (c ∷ rest) = elim (hex_digit_value c) [
  | none ↦ none
  | some n ↦ hex_value_from (v * 16 + n) rest
]

abbrev pub max_parse_int32 : ℕ
max_parse_int32 = 0x7FFFFFFF

unfoldable pub parse_unicode_escape : Bytes → ℕ → ℕ → Result DecodeError ℕ
unfolding hex_value_from valid_rune
parse_unicode_escape raw start digits =
    let end : ℕ = start + digits in
    if ltb (length raw) end
    then err (value_error "short unicode escape" (start + 1) (start - 2) (length raw))
    else elim (hex_value_from 0 (slice raw start end)) [
      | none ↦ err (value_error "invalid unicode escape" (start + 1) (start - 2) end)
      | some v ↦
          if ltb max_parse_int32 v
          then err (range_error (slice raw start end))
          else if not (valid_rune v)
          then err (value_error "invalid unicode scalar" (start + 1) (start - 2) end)
          else ok v
    ]

abbrev pub is_blank : ℕ → Bool
is_blank c = c == b' ' || c == b'\t'

-- `for j < len(raw) { switch raw[j] { ... } }`, where `rest` is `raw[j:]`: the bytes that it passes.
unfoldable pub lines_run : Bytes → ℕ
lines_run [] = 0
lines_run (c ∷ []) = if is_blank c || c == b'\n' then 1 else 0
lines_run (c ∷ d ∷ rest) =
    let behind = suc (suc (lines_run rest)) in
    let next = suc (lines_run (d ∷ rest)) in
    if is_blank c || c == b'\n' then next else if c == b'\r' && d == b'\n' then behind else 0

-- Behind the blanks at `j`, a newline and what goes with it; `none` is a false `ok`.
unfoldable pub skip_escaped_multiline_string_whitespace : Bytes → ℕ → Option ℕ
unfolding first_stop lines_run
skip_escaped_multiline_string_whitespace raw i =
    let j : ℕ = i + first_stop (λ c. not (is_blank c)) (drop i raw) in
    if ltb j (length raw) && get_or raw j 0 == b'\n'
    then some (j + 1 + lines_run (drop (j + 1) raw))
    else if ltb (j + 1) (length raw) && (get_or raw j 0 == b'\r' && get_or raw (j + 1) 0 == b'\n')
    then some (j + 2 + lines_run (drop (j + 2) raw))
    else none

-- What a turn over the body of a basic string writes, and the place of the next turn.
abbrev pub Piece : Type 0
Piece = Result DecodeError (ℕ × Bytes)

-- The escapes of one letter.
unfoldable pub named_escape : ℕ → Option ℕ
named_escape c =
    if c == b'b'
    then some 0x08
    else if c == b't'
    then some b'\t'
    else if c == b'n'
    then some b'\n'
    else if c == b'f'
    then some 0x0C
    else if c == b'r'
    then some b'\r'
    else if c == b'e'
    then some 0x1B
    else if c == b'"'
    then some b'"'
    else if c == b'\\'
    then some b'\\'
    else none

unfoldable pub unicode_piece : Bytes → ℕ → ℕ → Piece
unfolding parse_unicode_escape encode_rune
unicode_piece raw i digits = elim (parse_unicode_escape raw (i + 2) digits) [
  | err e ↦ err e
  | ok r ↦ ok (i + 2 + digits, encode_rune r)
]

-- The escape at `i` whose letter is `next`.
unfoldable pub letter_piece : Bytes → ℕ → ℕ → Piece
unfolding named_escape unicode_piece
letter_piece raw i next = elim (named_escape next) [
  | some c ↦ ok (i + 2, c ∷ [])
  | none ↦
      if next == b'x'
      then unicode_piece raw i 2
      else if next == b'u' || next == b'U'
      then unicode_piece raw i (if next == b'U' then 8 else 4)
      else err (value_error "invalid string escape" (i + 1) i (min (i + 2) (length raw)))
]

-- The escape whose backslash is at `i`.
unfoldable pub escape_piece : Bytes → ℕ → Piece
unfolding letter_piece
escape_piece raw i =
    if leb (length raw) (i + 1)
    then err (value_error "unterminated string escape" (i + 1) i (length raw))
    else letter_piece raw i (get_or raw (i + 1) 0)

-- The byte at `i`, which is no backslash.
unfoldable pub plain_piece : Bytes → Bool → ℕ → Piece
unfolding prohibited_string_control string_control_error
plain_piece raw multiline i =
    let c : ℕ = get_or raw i 0 in
    if crlf_at (drop i raw) multiline
    then ok (i + 2, b'\r' ∷ b'\n' ∷ [])
    else if prohibited_string_control c multiline
    then err (string_control_error raw i)
    else ok (i + 1, c ∷ [])

-- The byte or the escape at `i`.
unfoldable pub byte_piece : Bytes → Bool → ℕ → Piece
unfolding escape_piece plain_piece skip_escaped_multiline_string_whitespace
byte_piece raw multiline i =
    if not (get_or raw i 0 == b'\\')
    then plain_piece raw multiline i
    else elim (if multiline then skip_escaped_multiline_string_whitespace raw (i + 1) else none) [
      | some next ↦ ok (next, [])
      | none ↦ escape_piece raw i
    ]

-- A turn over the body of a string of one line: the run of bytes that need no look, and what stops it.
unfoldable pub run_piece : Bytes → ℕ → Piece
unfolding byte_piece scan_basic_string_strict_swar
run_piece raw i =
    let n : ℕ = scan_basic_string_strict_swar (drop i raw) in
    let run : Bytes = take n (drop i raw) in
    if leb (length raw) (i + n)
    then ok (i + n, run)
    else elim (byte_piece raw false (i + n)) [ err e ↦ err e | ok (j, bs) ↦ ok (j, run ++ bs) ]

-- `b.Write(bs)` where there is a builder.
abbrev pub write : Option Bytes → Bytes → Option Bytes
write none bs = none
write (some b) bs = some (b ++ bs)

-- The loop of a body; the state is `i` and the builder.
abbrev pub body_turn :
    (ℕ → Piece) → ℕ → ℕ × Option Bytes → Result DecodeError (Option Bytes) ⊎ (ℕ × Option Bytes)
body_turn piece size (i, b) =
    if not (ltb i size)
    then inl (ok b)
    else elim (piece i) [ err e ↦ inl (err e) | ok (j, bs) ↦ inr (j, write b bs) ]

abbrev pub body_piece : Bytes → Bool → ℕ → Piece
body_piece raw true i = byte_piece raw true i
body_piece raw false i = run_piece raw i

-- Every piece moves `i` on, so fuel for every byte is enough.
unfoldable pub scan_basic_string_body :
    Bytes → Bool → Option Bytes → Result DecodeError (Option Bytes)
unfolding loop byte_piece run_piece
scan_basic_string_body raw multiline b =
    loop (body_turn (body_piece raw multiline) (length raw)) (err no_fuel) (suc (length raw)) (0, b)

-- The text in the builder.
abbrev pub built : Result DecodeError (Option Bytes) → Result DecodeError Bytes
built (err e) = err e
built (ok none) = ok []
built (ok (some b)) = ok b

abbrev pub error_of {ℓ} : {A : Type ℓ} → Result DecodeError A → Option DecodeError
error_of (err e) = some e
error_of (ok a) = none

-- `if err := check; err != nil { return "", err }; return s, nil`
abbrev pub checked : Option DecodeError → Bytes → Result DecodeError Bytes
checked (some e) s = err e
checked none s = ok s

unfoldable pub parse_basic_string_body : Bytes → Bool → Result DecodeError Bytes
unfolding scan_basic_string_body scan_basic_string_strict_swar validate_string_controls first_stop
parse_basic_string_body raw multiline =
    let scanned = built (scan_basic_string_body raw multiline (some [])) in
    if not multiline && scan_basic_string_strict_swar raw == length raw
    then ok raw
    else if multiline && first_stop (λ c. c == b'\\') raw == length raw
    then checked (validate_string_controls raw true) raw
    else scanned

unfoldable pub validate_literal_string_body : Bytes → Bool → Option DecodeError
unfolding validate_string_controls
validate_literal_string_body raw multiline = validate_string_controls raw multiline

unfoldable pub validate_basic_string_body : Bytes → Bool → Option DecodeError
unfolding scan_basic_string_body
validate_basic_string_body raw multiline = error_of (scan_basic_string_body raw multiline none)

abbrev pub parse_string_kind : Bytes → StringValueKind → Result DecodeError Bytes
parse_string_kind body literal_string = checked (validate_literal_string_body body false) body
parse_string_kind body multiline_literal = checked (validate_literal_string_body body true) body
parse_string_kind body basic_string = parse_basic_string_body body false
parse_string_kind body multiline_basic = parse_basic_string_body body true

abbrev pub validate_string_kind : Bytes → StringValueKind → Option DecodeError
validate_string_kind body literal_string = validate_literal_string_body body false
validate_string_kind body multiline_literal = validate_literal_string_body body true
validate_string_kind body basic_string = validate_basic_string_body body false
validate_string_kind body multiline_basic = validate_basic_string_body body true

unfoldable pub parse_string_value : Bytes → Result DecodeError Bytes
unfolding string_value_body parse_basic_string_body validate_literal_string_body
parse_string_value raw = elim (string_value_body raw) [
  | err e ↦ err e
  | ok (body, kind) ↦ parse_string_kind body kind
]

unfoldable pub validate_string_value : Bytes → Option DecodeError
unfolding string_value_body validate_basic_string_body validate_literal_string_body
validate_string_value raw = elim (string_value_body raw) [
  | err e ↦ some e
  | ok (body, kind) ↦ validate_string_kind body kind
]
