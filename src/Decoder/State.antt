-- ===== src/Decoder/State.antt =====
-- token.go, errors.go, decoder.go: tokens, errors and the state of a decoder, and the small changes
-- that the scanners make to it.
use Prim.Native.String.{String}
use go_toml.Prelude.{
  ℕ, ◌+◌, ℤ, Result, ok, err, List, Bool, false, Option, some, Bytes, get_or, ◌==◌, ◌&&◌,
  if◌then◌else◌, above, below,
}
use go_toml.Decoder.Stack.{Containers}
use go_toml.Decoder.Options.{Limits}
use go_toml.Decoder.Position.{line_col_for_offset}

pub data TokenKind : Type 0 where
  invalid table_header array_table_header key : TokenKind
  value_string value_integer value_float value_bool value_datetime : TokenKind
  array_start array_end inline_table_start inline_table_end comment : TokenKind

pub data TokenScalarKind : Type 0 where
  scalar_none scalar_integer scalar_float : TokenScalarKind

pub record TokenScalar : Type 0 where
  pub bits : ℕ
  pub kind : TokenScalarKind

-- The one flag of the code is `string_body_ok`.
pub record RawToken : Type 0 where
  pub kind : TokenKind
  pub bytes : Bytes
  pub offset : ℕ
  pub string_body_ok : Bool

-- A message of the code, or the one that names a byte.
pub data Message : Type 0 where
  text : String → Message
  control_character : ℕ → Message

pub record SyntaxError : Type 0 where
  pub line : ℕ
  pub col : ℕ
  pub msg : Message
  pub span_start : ℕ
  pub span_end : ℕ

pub data DecodeError : Type 0 where
  syntax : SyntaxError → DecodeError
  -- the cap's name, its value and the span
  limit_error : String → ℤ → ℕ → ℕ → DecodeError
  -- `strconv.NumError` of `ParseInt`, for a number that is out of range
  range_error : Bytes → DecodeError
  eof : DecodeError
  -- a loop of this model was given too little fuel
  no_fuel : DecodeError

pub record Decoder : Type 0 where
  pub buf : Bytes
  pub off : ℕ
  pub error : Option DecodeError
  pub expecting_value : Bool
  pub value_no_newline : Bool
  pub need_separator : Bool
  pub need_line_end : Bool
  pub at_line_start : Bool
  pub limits : Limits
  pub array_depth : ℕ
  pub inline_depth : ℕ
  pub containers : Containers
  pub token_scalar : TokenScalar

abbrev pub no_scalar : TokenScalar
no_scalar = record { bits = 0; kind = scalar_none }

-- `d.buf[i]`, where the code has tested that `i` is in range.
abbrev pub byte_at : Decoder → ℕ → ℕ
byte_at d i = get_or d.buf i 0

-- `d.syntaxError(msg, off)`, which the caller also records.
unfoldable pub syntax_error_at : Decoder → String → ℕ → DecodeError
unfolding line_col_for_offset
syntax_error_at d msg off =
    let (line, col) = line_col_for_offset d.buf off in
    syntax (record { line = line; col = col; msg = text msg; span_start = off; span_end = off + 1 })

abbrev pub set_err : Decoder → DecodeError → Decoder
set_err d e = record d { error = some e }

abbrev pub advance_one : Decoder → Decoder
advance_one d = record d { off = d.off + 1; at_line_start = false }

-- `d.advanceBytes(raw)` for `raw` of this length.
abbrev pub advance_bytes : Decoder → ℕ → Decoder
advance_bytes d n = if n == 0 then d else record d { off = d.off + n; at_line_start = false }

abbrev pub make_token_flags :
    Decoder → TokenKind → Bytes → ℕ → TokenScalar → Bool → RawToken × Decoder
make_token_flags d kind raw offset scalar body_ok = (
  record { kind = kind; bytes = raw; offset = offset; string_body_ok = body_ok },
  record d { token_scalar = scalar },
)

abbrev pub make_token : Decoder → TokenKind → Bytes → ℕ → TokenScalar → RawToken × Decoder
make_token d kind raw offset scalar = make_token_flags d kind raw offset scalar false

abbrev pub exceeds : ℕ → ℤ → Bool
exceeds n cap = below cap n

unfoldable pub enforce_nested_depth : Decoder → ℕ → ℕ → Decoder
enforce_nested_depth d off depth =
    if above d.limits.max_nested_depth 0 && exceeds depth d.limits.max_nested_depth
    then set_err d (limit_error "MaxNestedDepth" d.limits.max_nested_depth off (off + 1))
    else d

-- How a part of a scanner fails: most failures are recorded in the decoder as well, which makes them
-- its last; the errors of `validateStringValue` are only returned.
pub data Failure : Type 0 where
  recorded returned : DecodeError → Failure

abbrev pub syntax_fail {ℓ} : {A : Type ℓ} → Decoder → String → ℕ → Result Failure A
syntax_fail d msg off = err (recorded (syntax_error_at d msg off))

-- What a call hands to its caller, and the decoder behind it.
abbrev pub Outcome : Type 0
Outcome = Result DecodeError RawToken × Decoder

abbrev pub fail_with : Decoder → Failure → Outcome
fail_with d (recorded e) = (err e, set_err d e)
fail_with d (returned e) = (err e, d)

-- `x, err := part; if err != nil { return rawToken{}, err }`
abbrev pub on_ok {ℓ} : {A : Type ℓ} → Decoder → Result Failure A → (A → Outcome) → Outcome
on_ok d (ok a) after = after a
on_ok d (err f) after = fail_with d f

abbrev pub emit : RawToken → Decoder → Outcome
emit tok d = (ok tok, d)

-- The parts of value.go that the scanners call.
pub record Readers : Type 0 where
  pub validate_string_value : Bytes → Option DecodeError
  pub parse_dotted_key : Bytes → Result DecodeError (List Bytes)
  pub is_date_time : Bytes → Bool
  pub classify_bare_value : Bytes → Result String (TokenKind × TokenScalar)
