-- ===== src/Decoder/Values.antt =====
-- decoder.go: value tokens, and the brackets of arrays and inline tables.
use go_toml.Prelude.{
  ℕ, ◌+◌, ◌-◌, ok, err, true, false, not, ◌||◌, Bytes, length, take, drop, slice, get_or, ltb, leb,
  ◌==◌, if◌then◌else◌,
}
use go_toml.Scan.Kernels.{scan_bare_value_end_swar}
use go_toml.Decoder.Stack.{
  container_array, container_inline, innermost_is_array, push_container, pop_container,
}
use go_toml.Decoder.State.{
  Decoder, limit_error, byte_at, recorded, syntax_error_at, Readers, value_string, array_start,
  array_end, inline_table_start, inline_table_end, no_scalar, Outcome, on_ok, emit, fail_with,
  make_token, make_token_flags, advance_bytes, advance_one, exceeds, enforce_nested_depth,
}
use go_toml.Decoder.Strings.{scan_string}
use go_toml.Decoder.Keys.{scan_comment}

-- The state behind a value.
unfoldable pub behind_value : Decoder → Decoder
unfolding innermost_is_array
behind_value d = record d {
  expecting_value = innermost_is_array d.containers;
  value_no_newline = false;
  need_separator = ltb 0 d.containers.container_depth;
  need_line_end = d.containers.container_depth == 0;
}

unfoldable pub scan_array_start : Decoder → Outcome
unfolding enforce_nested_depth push_container
scan_array_start d =
    let start : ℕ = d.off in
    let (tok, d1) = make_token d array_start (slice d.buf start (start + 1)) start no_scalar in
    let d2 : Decoder = advance_one d1 in
    let d3 : Decoder = record d2 { array_depth = d2.array_depth + 1 } in
    let d4 : Decoder = enforce_nested_depth d3 start d3.array_depth in
    emit tok (record d4 {
      containers = push_container d4.containers container_array;
      expecting_value = true;
      value_no_newline = false;
      need_separator = false;
    })

unfoldable pub scan_array_end : Decoder → Outcome
unfolding pop_container behind_value
scan_array_end d =
    let start : ℕ = d.off in
    let (tok, d1) = make_token d array_end (slice d.buf start (start + 1)) start no_scalar in
    let d2 : Decoder = advance_one d1 in
    emit tok (
      behind_value (record d2 {
        array_depth = d2.array_depth - 1;
        containers = pop_container d2.containers container_array;
      }))

unfoldable pub scan_inline_table_start : Decoder → Outcome
unfolding push_container
scan_inline_table_start d =
    let start : ℕ = d.off in
    let (tok, d1) =
      make_token d inline_table_start (slice d.buf start (start + 1)) start no_scalar in
    let d2 : Decoder = advance_one d1 in
    emit tok (record d2 {
      inline_depth = d2.inline_depth + 1;
      containers = push_container d2.containers container_inline;
      expecting_value = false;
      value_no_newline = false;
      need_separator = false;
    })

unfoldable pub scan_inline_table_end : Decoder → Outcome
unfolding pop_container behind_value
scan_inline_table_end d =
    let start : ℕ = d.off in
    let (tok, d1) = make_token d inline_table_end (slice d.buf start (start + 1)) start no_scalar in
    let d2 : Decoder = advance_one d1 in
    emit tok (
      behind_value (record d2 {
        inline_depth = d2.inline_depth - 1;
        containers = pop_container d2.containers container_inline;
      }))

module _ (readers : Readers) where
  -- A date and a time parted by a blank are one value.
  unfoldable pub scan_bare_value_end : Bytes → ℕ
  unfolding scan_bare_value_end_swar
  scan_bare_value_end raw =
      let end : ℕ = scan_bare_value_end_swar raw in
      let tail_end : ℕ = end + 1 + scan_bare_value_end_swar (drop (end + 1) raw) in
      if not (end == 10) || leb (length raw) end || not (get_or raw end 0 == b' ')
      then end
      else if readers.is_date_time (take tail_end raw)
      then tail_end
      else end

  unfoldable pub scan_string_token : Decoder → Outcome
  unfolding scan_string behind_value
  scan_string_token d =
      let start : ℕ = d.off in
      on_ok d (scan_string readers d start) λ found.
        let (end, body_ok) = found in
        let chunk : Bytes = slice d.buf start end in
        if exceeds (length chunk) d.limits.max_string_length
        then fail_with d
            (recorded (limit_error "MaxStringLength" d.limits.max_string_length start end))
        else let (tok, d1) = make_token_flags d value_string chunk start no_scalar body_ok in
          emit tok (behind_value (advance_bytes d1 (length chunk)))

  unfoldable pub scan_bare_token : Decoder → Outcome
  unfolding scan_bare_value_end syntax_error_at behind_value
  scan_bare_token d =
      let start : ℕ = d.off in
      let end : ℕ = scan_bare_value_end (drop start d.buf) in
      let chunk : Bytes = slice d.buf start (start + end) in
      if end == 0
      then fail_with d (recorded (syntax_error_at d "invalid value" start))
      else if length chunk == 0
      then fail_with d (recorded (syntax_error_at d "expected value" start))
      else elim (readers.classify_bare_value chunk) [
        | err msg ↦ fail_with d (recorded (syntax_error_at d msg start))
        | ok (kind, scalar) ↦
            let (tok, d1) = make_token d kind chunk start scalar in
            emit tok (behind_value (advance_bytes d1 (length chunk)))
      ]

  unfoldable pub scan_value_token : Decoder → Outcome
  unfolding scan_string_token scan_array_start scan_array_end scan_inline_table_start
      scan_inline_table_end scan_comment scan_bare_token
  scan_value_token d =
      let ch : ℕ = byte_at d d.off in
      if ch == b'"' || ch == b'\''
      then scan_string_token d
      else if ch == b'['
      then scan_array_start d
      else if ch == b'{'
      then scan_inline_table_start d
      else if ch == b']'
      then scan_array_end d
      else if ch == b'}'
      then scan_inline_table_end d
      else if ch == b'#'
      then scan_comment d
      else scan_bare_token d
