-- ===== src/Decoder/Examples.antt =====
-- The theorems on the token stream at concrete texts, with simple readers of values.
use go_toml.Prelude.{
  Bool, arith, ℕ, ◌<◌, Result, inl, ◌≡◌, ◌⊎◌, refl, pos, negsuc, ok, err, none, some, true, false,
  List, [], ◌∷◌, Bytes, codes, length, take, leb, if◌then◌else◌,
}
use go_toml.Decoder.Stack.{no_containers, innermost_is_array}
use go_toml.Decoder.Stack.Holds.{top_is_array}
use go_toml.Decoder.Stack.Runs.{StackStep, push, pop, run_containers, run_list}
use go_toml.Decoder.Stack.Runs
use go_toml.Decoder.Position.{line_col_for_offset, read_through}
use go_toml.Decoder.Position
use go_toml.Decoder.Options.{
  DecoderOption, with_limits, with_copied_strings, ArePositive, DecoderSettings, Limits,
  default_limits, resolve_decoder_settings, decode_options,
}
use go_toml.Decoder.Options
use go_toml.Decoder.State.{
  Decoder, DecodeError, syntax, text, value_integer, no_scalar, Readers, Outcome, Failure,
  syntax_fail,
}
use go_toml.Decoder.Read.{read_token, read_turn, behind_calls, init_decoder}
use go_toml.Decoder.Mark.{opened, marked_header}
use go_toml.Decoder.Mark
use go_toml.Decoder.Turns
use go_toml.Decoder.Strings.{
  scan_quoted, quoted_turn, scan_string, multiline_basic_turn, multiline_literal_turn, basic_turn,
  scan_literal,
}
use go_toml.Decoder.Ends
use go_toml.Decoder.StringEnds.{Leaves}
use go_toml.Decoder.StringEnds
use go_toml.Decoder.Keys.{
  header_turn, scan_header_end, key_turn, key_end, header_key_turn, validate_header_key,
}
use go_toml.Decoder.KeyEnds
use go_toml.Scan.Word.{word_of}
use go_toml.Scan.Kernels.{validate_utf8_swar}
use go_toml.Scan.Word.Bytewise.{all_bytes-AreBytes}

-- Numbers of one digit, and strings without escapes.
abbrev simple_readers : Readers
simple_readers = record {
  validate_string_value = λ raw. none;
  parse_dotted_key = λ raw. ok (raw ∷ []);
  is_date_time = λ raw. false;
  classify_bare_value =
      λ raw. if leb (length raw) 1 then ok (value_integer, no_scalar) else err "malformed value";
}

-- Eighteen containers, two of them beyond the place in the decoder, and a closer that does not match.
abbrev deep_steps : List StackStep
deep_steps =
    push b'a'
    ∷ push b'a'
    ∷ push b'a'
    ∷ push b'a'
    ∷ push b'a'
    ∷ push b'a'
    ∷ push b'a'
    ∷ push b'a'
    ∷ push b'a'
    ∷ push b'a'
    ∷ push b'a'
    ∷ push b'a'
    ∷ push b'a'
    ∷ push b'a'
    ∷ push b'a'
    ∷ push b'i'
    ∷ push b'a'
    ∷ push b'i'
    ∷ pop b'a'
    ∷ pop b'i'
    ∷ pop b'a'
    ∷ []

run_containers-run_list_example :
    (innermost_is_array (run_containers deep_steps no_containers)
      ≡ top_is_array (run_list deep_steps []))
    × ((run_containers deep_steps no_containers).container_depth ≡ length (run_list deep_steps []))
run_containers-run_list_example = Runs.run_containers-run_list deep_steps

abbrev two_lines : Bytes
two_lines = codes "a = 1\r\nb = [1,\n2]\n"

line_col_for_offset-read_through_example :
    line_col_for_offset two_lines 10 ≡ read_through (1, 1) (take 10 two_lines)
line_col_for_offset-read_through_example = Position.line_col_for_offset-read_through two_lines 10

-- The cap on keys is not positive, and so not taken.
abbrev some_options : List DecoderOption
some_options =
    with_limits (record {
      max_nested_depth = pos 4;
      max_key_length = negsuc 0;
      max_string_length = pos 0;
      max_document_size = pos 100;
    })
    ∷ with_copied_strings
    ∷ []

resolve_decoder_settings-decode_options_example :
    let d = resolve_decoder_settings some_options in
    ArePositive d.limits × (resolve_decoder_settings (decode_options d) ≡ d)
resolve_decoder_settings-decode_options_example =
    Options.resolve_decoder_settings-decode_options some_options

-- Four calls in: the key, the bracket, a number, and the array's comma and newline to go.
read_token-init_decoder_example :
    let d = behind_calls simple_readers 4 (init_decoder default_limits two_lines) in
    ((e : DecodeError) × (d.error ≡ some e) × (read_token simple_readers d ≡ (err e, d)))
    ⊎ ((last : Decoder) × (o : Outcome) × (read_turn simple_readers last ≡ inl o)
        × (read_token simple_readers d ≡ o))
read_token-init_decoder_example =
    Turns.read_token-init_decoder simple_readers default_limits two_lines 4

abbrev capped_limits : Limits
capped_limits = record {
  max_nested_depth = pos 4;
  max_key_length = pos 8;
  max_string_length = pos 8;
  max_document_size = pos 32;
}

valid_header :
    validate_utf8_swar (marked_header (codes "server]\n"))
    ≡ length (marked_header (codes "server]\n"))
unfolding validate_utf8_swar word_of
valid_header = refl

-- A byte that is no UTF-8 behind the bracket is an error, and no array is opened.
refused_header :
    (read_token simple_readers (init_decoder capped_limits (marked_header (0xFF ∷ [])))).0
    ≡ err (
        syntax
          (record { line = 1; col = 5; msg = text "invalid utf-8"; span_start = 4; span_end = 5 }))
unfolding read_token init_decoder
refused_header = refl

read_token-skip_bom_example :
    (read_token simple_readers (init_decoder capped_limits (marked_header (codes "server]\n")))).0
    ≡ ok opened
read_token-skip_bom_example =
    Mark.read_token-skip_bom simple_readers capped_limits (codes "server]\n") refl valid_header

abbrev deep_decoder : Decoder
deep_decoder = record {
  buf = codes "[{";
  off = 0;
  error = none;
  expecting_value = true;
  value_no_newline = false;
  need_separator = false;
  need_line_end = false;
  at_line_start = false;
  limits = capped_limits;
  array_depth = 4;
  inline_depth = 9;
  containers = run_containers deep_steps no_containers;
  token_scalar = no_scalar;
}

-- A key and a string, each with an escaped quote.
abbrev quoted_decoder : Decoder
quoted_decoder = record deep_decoder { buf = codes "\"a\\\"b\" = \"c\\\"d\"\n" }

scan_quoted-quoted_turn_example :
    (scan_quoted simple_readers quoted_decoder b'"' 0
      ≡ syntax_fail quoted_decoder "multiline quoted keys are not supported" 0)
    ⊎ ((last : ℕ) × (r : Result Failure ℕ) × (quoted_turn simple_readers quoted_decoder b'"' 0 last
          ≡ inl r)
        × (scan_quoted simple_readers quoted_decoder b'"' 0 ≡ r)
        × (0 < last))
scan_quoted-quoted_turn_example =
    Ends.scan_quoted-quoted_turn simple_readers quoted_decoder b'"' 0
      (all_bytes-AreBytes quoted_decoder.buf refl) refl

scan_string-Leaves_example :
    let r = scan_string simple_readers quoted_decoder 9 in
    Leaves (multiline_basic_turn simple_readers quoted_decoder 9) (λ s. s.0) 9 r
    ⊎ Leaves (multiline_literal_turn simple_readers quoted_decoder 9) (λ i. i) 9 r
    ⊎ Leaves (basic_turn simple_readers quoted_decoder 9) (λ s. s.0) 9 r
    ⊎ (r ≡ scan_literal simple_readers quoted_decoder 9)
scan_string-Leaves_example =
    StringEnds.scan_string-Leaves simple_readers quoted_decoder 9
      (all_bytes-AreBytes quoted_decoder.buf refl)

scan_header_end-key_end_example :
    ((last : ℕ) × (header_turn simple_readers quoted_decoder true last
        ≡ inl (scan_header_end simple_readers quoted_decoder 0 true)))
    × ((last : ℕ) × (key_turn simple_readers quoted_decoder last
          ≡ inl (key_end simple_readers quoted_decoder)))
scan_header_end-key_end_example =
    KeyEnds.scan_header_end-key_end simple_readers quoted_decoder
      (all_bytes-AreBytes quoted_decoder.buf refl) 0 true

validate_header_key-header_key_turn_example :
    (last : ℕ × Bool) × (header_key_turn simple_readers quoted_decoder 6 last
      ≡ inl (validate_header_key simple_readers quoted_decoder 0 6))
validate_header_key-header_key_turn_example =
    KeyEnds.validate_header_key-header_key_turn simple_readers quoted_decoder
      (all_bytes-AreBytes quoted_decoder.buf refl) 0 6 (omega arith)
