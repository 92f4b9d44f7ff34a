-- ===== src/Decoder/Read.antt =====
-- decoder.go: `readToken`, the state machine of the token stream.
use Prim.Native.String.{String}
use go_toml.Prelude.{
  ℕ, zero, suc, ◌+◌, ◌-◌, abs, above, ◌⊎◌, inl, inr, err, none, some, Bool, true, false, not, ◌&&◌,
  ◌||◌, Bytes, length, ltb, leb, ◌==◌, if◌then◌else◌,
}
use go_toml.Prelude.Loop.{loop}
use go_toml.Scan.Kernels.{validate_utf8_swar}
use go_toml.Decoder.Options.{Limits}
use go_toml.Decoder.Stack.{no_containers, innermost_is_array}
use go_toml.Decoder.State.{
  Decoder, syntax, text, eof, no_fuel, byte_at, recorded, syntax_error_at, Readers, Outcome,
  fail_with, advance_one, advance_bytes, set_err, limit_error, exceeds, no_scalar,
}
use go_toml.Decoder.Spaces.{skip_spaces}
use go_toml.Decoder.Keys.{
  scan_comment, scan_key_token, scan_table_header, scan_array_table_header, scan_header,
}
use go_toml.Decoder.Values.{
  scan_array_start, scan_array_end, scan_inline_table_start, scan_inline_table_end,
  scan_value_token,
}

abbrev pub syntax_outcome : Decoder → String → ℕ → Outcome
syntax_outcome d msg off = fail_with d (recorded (syntax_error_at d msg off))

-- The end of the text.
unfoldable pub at_end : Decoder → Outcome
unfolding syntax_error_at
at_end d = if d.expecting_value then syntax_outcome d "expected value" d.off else (err eof, d)

unfoldable pub match_double_bracket : Decoder → Bool
match_double_bracket d =
    leb (d.off + 2) (length d.buf) && (byte_at d d.off == b'[' && byte_at d (d.off + 1) == b'[')

-- The state behind a comma.
unfoldable pub behind_comma : Decoder → Decoder
unfolding innermost_is_array
behind_comma d =
    let d1 : Decoder = advance_one d in
    record d1 { need_separator = false; expecting_value = innermost_is_array d1.containers }

module _ (readers : Readers) where
  -- The `switch` on the first byte of a token, but for the comma that the loop goes on behind.
  unfoldable pub token_at : Decoder → Outcome
  unfolding syntax_error_at innermost_is_array scan_array_start scan_array_end
      scan_inline_table_start scan_inline_table_end scan_comment scan_value_token scan_key_token
  token_at d =
      let ch : ℕ = byte_at d d.off in
      let unparted : Bool = innermost_is_array d.containers && not d.expecting_value in
      if ch == b'['
      then (if unparted then syntax_outcome d "expected comma" d.off else scan_array_start d)
      else if ch == b'{'
      then (if unparted then syntax_outcome d "expected comma" d.off else scan_inline_table_start d)
      else if ch == b']'
      then scan_array_end d
      else if ch == b'}'
      then scan_inline_table_end d
      else if ch == b'#'
      then scan_comment d
      else if ch == b'='
      then syntax_outcome d "unexpected equals" d.off
      else if ch == b','
      then syntax_outcome d "unexpected comma" d.off
      else if d.expecting_value
      then (if d.need_separator && innermost_is_array d.containers
          then syntax_outcome d "expected array separator" d.off
          else scan_value_token readers d)
      else if d.need_separator && ltb 0 d.containers.container_depth
      then syntax_outcome d "expected inline table separator" d.off
      else scan_key_token readers d

  unfoldable pub dispatch : Decoder → Outcome ⊎ Decoder
  unfolding token_at behind_comma
  dispatch d =
      if byte_at d d.off == b',' && d.need_separator then inr (behind_comma d) else inl (token_at d)

  -- A turn of the loop behind the blanks; `continue` is a state to go on in.
  unfoldable pub read_behind_spaces : Decoder → Outcome ⊎ Decoder
  unfolding at_end syntax_error_at scan_comment match_double_bracket scan_header dispatch
  read_behind_spaces d =
      let ch : ℕ = byte_at d d.off in
      if leb (length d.buf) d.off
      then inl (at_end d)
      else if ch == b'\r'
          && (leb (length d.buf) (d.off + 1) || not (byte_at d (d.off + 1) == b'\n'))
      then inl (syntax_outcome d "bare carriage return" d.off)
      else if d.need_line_end
      then (if ch == b'#'
          then inl (scan_comment d)
          else if ch == b'\n'
          then inr d
          else inl (syntax_outcome d "expected newline" d.off))
      else if d.at_line_start && not d.expecting_value && match_double_bracket d
      then inl (scan_array_table_header readers d)
      else if d.at_line_start && not d.expecting_value && ch == b'['
      then inl (scan_table_header readers d)
      else dispatch d

  unfoldable pub read_turn : Decoder → Outcome ⊎ Decoder
  unfolding at_end skip_spaces read_behind_spaces
  read_turn d =
      if leb (length d.buf) d.off then inl (at_end d) else read_behind_spaces (skip_spaces d)

  -- A decoder that has failed answers with its error. Fuel for every byte is enough.
  unfoldable pub read_token : Decoder → Outcome
  unfolding read_turn loop
  read_token d = elim d.error [
    | some e ↦ (err e, d)
    | none ↦ loop read_turn (err no_fuel, d) (suc (length d.buf)) d
  ]

unfoldable pub skip_bom : Decoder → Decoder
skip_bom d =
    if leb 3 (length d.buf - d.off)
      && (byte_at d d.off == 0xef && byte_at d (d.off + 1) == 0xbb && byte_at d (d.off + 2) == 0xbf)
    then advance_bytes d 3
    else d

-- `initDecoderBytes`: the cap of the document's size is tested first, then the text's UTF-8.
unfoldable pub init_decoder : Limits → Bytes → Decoder
unfolding skip_bom validate_utf8_swar
init_decoder limits buf =
    let bad : ℕ = validate_utf8_swar buf in
    let d : Decoder = record {
      buf = buf;
      off = 0;
      error = none;
      expecting_value = false;
      value_no_newline = false;
      need_separator = false;
      need_line_end = false;
      at_line_start = true;
      limits = limits;
      array_depth = 0;
      inline_depth = 0;
      containers = no_containers;
      token_scalar = no_scalar;
    } in
    if above limits.max_document_size 0 && exceeds (length buf) limits.max_document_size
    then set_err d
        (limit_error "MaxDocumentSize" limits.max_document_size 0 (abs limits.max_document_size))
    else if not (bad == length buf)
    then set_err d (
        syntax (record {
          line = 1;
          col = bad + 1;
          msg = text "invalid utf-8";
          span_start = bad;
          span_end = bad + 1;
        }))
    else skip_bom d

-- The decoder behind `n` calls.
unfoldable pub behind_calls : Readers → ℕ → Decoder → Decoder
unfolding read_token
behind_calls readers zero d = d
behind_calls readers (suc n) d = behind_calls readers n ((read_token readers d).1)
