-- ===== src/Decoder/Keys.antt =====
-- decoder.go: comments, keys and table headers; value.go: the test of a simple key.
use Prim.Native.String.{String}
use go_toml.Prelude.{
  ℕ, suc, ◌+◌, ◌-◌, ◌*◌, ◌⊎◌, inl, inr, Result, ok, err, Bool, true, false, not, ◌&&◌, ◌||◌, [],
  ◌∷◌, Bytes, length, take, drop, slice, ltb, leb, ◌==◌, if◌then◌else◌,
}
use go_toml.Prelude.Loop.{loop}
use go_toml.Scan.{first_stop}
use go_toml.Scan.Kernels.{scan_bare_key_swar, scan_comment_body_swar}
use go_toml.Decoder.State.{
  Decoder, limit_error, no_fuel, byte_at, Failure, recorded, returned, syntax_fail, syntax_error_at,
  Readers, TokenKind, key, comment, table_header, array_table_header, no_scalar, Outcome, on_ok,
  emit, fail_with, make_token, advance_bytes, exceeds,
}
use go_toml.Decoder.Strings.{scan_quoted}

abbrev pub not_blank : ℕ → Bool
not_blank b = not (b == b' ' || b == b'\t')

abbrev pub key_byte : ℕ → Bool
key_byte c =
    (leb b'A' c && leb c b'Z')
    || (leb b'a' c && leb c b'z')
    || (leb b'0' c && leb c b'9')
    || (c == b'_' || c == b'-')

unfoldable pub all_key_bytes : Bytes → Bool
all_key_bytes [] = true
all_key_bytes (c ∷ raw) = key_byte c && all_key_bytes raw

unfoldable pub is_simple_bare_key : Bytes → Bool
unfolding all_key_bytes
is_simple_bare_key [] = false
is_simple_bare_key (c ∷ raw) = all_key_bytes (c ∷ raw)

-- The length without the blanks at the end.
unfoldable pub trimmed_length : Bytes → ℕ
trimmed_length [] = 0
trimmed_length (c ∷ raw) =
    let n = trimmed_length raw in if n == 0 && (c == b' ' || c == b'\t') then 0 else suc n

unfoldable pub bytes_trim_right_spaces : Bytes → Bytes
unfolding trimmed_length
bytes_trim_right_spaces raw = take (trimmed_length raw) raw

abbrev pub limit_failure : String → Decoder → ℕ → ℕ → Failure
limit_failure name d lo hi = recorded (limit_error name d.limits.max_key_length lo hi)

unfoldable pub scan_comment_end : Decoder → ℕ → Result Failure ℕ
unfolding scan_comment_body_swar syntax_error_at
scan_comment_end d start =
    let body_start : ℕ = start + 1 in
    let end : ℕ = body_start + scan_comment_body_swar (drop body_start d.buf) in
    if ltb (length d.buf) body_start
    then ok (length d.buf)
    else if leb (length d.buf) end
    then ok end
    else if byte_at d end == b'\n'
    then ok end
    else if byte_at d end == b'\r' && (ltb (end + 1) (length d.buf) && byte_at d (end + 1) == b'\n')
    then ok end
    else syntax_fail d "control character in comment" end

unfoldable pub scan_comment : Decoder → Outcome
unfolding scan_comment_end
scan_comment d = on_ok d (scan_comment_end d d.off) λ end.
    let raw : Bytes = slice d.buf d.off end in
    let (tok, d1) = make_token d comment raw d.off no_scalar in
    emit tok (advance_bytes d1 (length raw))

-- `for eq < len(d.buf) && blank(d.buf[eq]) { eq++ }`
unfoldable pub blanks_end : Decoder → ℕ → ℕ
unfolding first_stop
blanks_end d eq = eq + first_stop not_blank (drop eq d.buf)

-- The token of a key up to the equals sign at `eq`, and the state that waits for its value.
unfoldable pub emit_key : Decoder → Bytes → ℕ → ℕ → Outcome
emit_key d raw start eq =
    let (tok, d1) = make_token d key raw start no_scalar in
    let d2 = advance_bytes d1 (length (slice d.buf start (eq + 1))) in
    emit tok (record d2 { expecting_value = true; value_no_newline = true; need_line_end = false })

module _ (readers : Readers) (d : Decoder) where
  -- The turn of the scan for the end of a key that is quoted or dotted.
  unfoldable pub key_turn : ℕ → Result Failure ℕ ⊎ ℕ
  unfolding scan_quoted
  key_turn i =
      let ch : ℕ = byte_at d i in
      if not (ltb i (length d.buf))
      then inl (ok i)
      else if ch == b'='
      then inl (ok i)
      else if ch == b'#' || ch == b'\n' || ch == b'\r'
      then inl (ok i)
      else if ch == b'"' || ch == b'\''
      then elim (scan_quoted readers d ch i) [ err f ↦ inl (err f) | ok j ↦ inr j ]
      else inr (i + 1)

  -- The key `raw` that ends at `i`, once it is known to be one.
  unfoldable pub checked_key : Bytes → ℕ → Outcome
  unfolding syntax_error_at blanks_end emit_key
  checked_key raw i =
      let eq : ℕ = blanks_end d i in
      if exceeds (length raw) d.limits.max_key_length
      then fail_with d (limit_failure "MaxKeyLength" d d.off i)
      else if leb (length d.buf) eq || not (byte_at d eq == b'=')
      then fail_with d (recorded (syntax_error_at d "expected equals" eq))
      else emit_key d raw d.off eq

  -- The key that ends at `i`.
  unfoldable pub general_key : ℕ → Outcome
  unfolding syntax_error_at bytes_trim_right_spaces is_simple_bare_key checked_key
  general_key i =
      let raw : Bytes = bytes_trim_right_spaces (slice d.buf d.off i) in
      if i == d.off
      then fail_with d (recorded (syntax_error_at d "empty key" i))
      else if is_simple_bare_key raw
      then checked_key raw i
      else elim (readers.parse_dotted_key raw) [
        | err e ↦ fail_with d (recorded e)
        | ok parts ↦ checked_key raw i
      ]

  -- A simple key with an equals sign behind it.
  unfoldable pub simple_key : ℕ → Outcome
  unfolding emit_key blanks_end
  simple_key n =
      let raw : Bytes = slice d.buf d.off (d.off + n) in
      if exceeds (length raw) d.limits.max_key_length
      then fail_with d (limit_failure "MaxKeyLength" d d.off (d.off + n))
      else emit_key d raw d.off (blanks_end d (d.off + n))

  unfoldable pub key_end : Result Failure ℕ
  unfolding key_turn loop
  key_end = loop key_turn (err (returned no_fuel)) (suc (length d.buf)) d.off

  unfoldable pub scan_key_token : Outcome
  unfolding scan_bare_key_swar blanks_end simple_key key_end general_key
  scan_key_token =
      let n : ℕ = scan_bare_key_swar (drop d.off d.buf) in
      let eq : ℕ = blanks_end d (d.off + n) in
      if not (n == 0) && (ltb eq (length d.buf) && byte_at d eq == b'=')
      then simple_key n
      else on_ok d key_end general_key

  -- The turn of `scanHeaderEnd`, for the header of a table or of an array of tables.
  unfoldable pub header_turn : Bool → ℕ → Result Failure ℕ ⊎ ℕ
  unfolding syntax_error_at scan_quoted
  header_turn array i =
      let ch : ℕ = byte_at d i in
      let unterminated : ℕ → Result Failure ℕ = λ at.
        syntax_fail d
          (if array then "unterminated array-of-tables header" else "unterminated table header")
          at in
      if not (ltb i (length d.buf))
      then inl (unterminated (length d.buf))
      else if ch == b'\n' || ch == b'\r'
      then inl (unterminated i)
      else if ch == b'"' || ch == b'\''
      then elim (scan_quoted readers d ch i) [ err f ↦ inl (err f) | ok j ↦ inr j ]
      else if ch == b']' && (not array || (ltb (i + 1) (length d.buf) && byte_at d (i + 1) == b']'))
      then inl (ok i)
      else inr (i + 1)

  unfoldable pub scan_header_end : ℕ → Bool → Result Failure ℕ
  unfolding header_turn loop
  scan_header_end i array = loop (header_turn array) (err (returned no_fuel)) (suc (length d.buf)) i

  -- The turn of `validateHeaderKey`; the state is `i` and `needSegment`.
  unfoldable pub header_key_turn : ℕ → ℕ × Bool → Result Failure ℕ ⊎ (ℕ × Bool)
  unfolding syntax_error_at scan_quoted scan_bare_key_swar first_stop
  header_key_turn end (start, need) =
      let i : ℕ = start + first_stop not_blank (slice d.buf start end) in
      let ch : ℕ = byte_at d i in
      let n : ℕ = scan_bare_key_swar (slice d.buf i end) in
      if leb end i
      then inl (if need then syntax_fail d "empty table key" end else ok end)
      else if not need
      then (if not (ch == b'.')
          then inl (syntax_fail d "unexpected token in table key" i)
          else inr (i + 1, true))
      else if ch == b'"' || ch == b'\''
      then elim (scan_quoted readers d ch i) [
        | err f ↦ inl (err f)
        | ok j ↦
            if ltb end j
            then inl (syntax_fail d "unterminated quoted table key" i)
            else inr (j, false)
      ]
      else if n == 0
      then inl (syntax_fail d "unexpected token in table key" i)
      else inr (i + n, false)

  -- The answer `ok` stands for no error.
  unfoldable pub validate_header_key : ℕ → ℕ → Result Failure ℕ
  unfolding header_key_turn loop
  validate_header_key start end =
      loop (header_key_turn end) (err (returned no_fuel)) (suc (length d.buf)) (start, true)

  -- The token of a header whose key ends at `i`. The cap is tested behind the token's bytes.
  unfoldable pub header_token : ℕ → TokenKind → ℕ → Outcome
  header_token width kind i =
      let head : Bytes = slice d.buf d.off (i + width) in
      let (tok, d1) = make_token d kind head d.off no_scalar in
      let d2 : Decoder = advance_bytes d1 (length head) in
      if exceeds (i + width - d.off - 2 * width) d.limits.max_key_length
      then fail_with d2 (limit_failure "MaxKeyLength" d (d.off + width) i)
      else emit tok
          (record d2 { expecting_value = false; at_line_start = false; need_line_end = true })

  -- `scanTableHeader` and `scanArrayTableHeader` differ in the brackets, of which they have `width` at
  -- each end, and in the kind of the token.
  unfoldable pub scan_header : ℕ → TokenKind → Outcome
  unfolding scan_header_end validate_header_key header_token
  scan_header width kind =
      on_ok d (scan_header_end (d.off + width) (width == 2))
        λ i. on_ok d (validate_header_key (d.off + width) i) λ checked. header_token width kind i

  abbrev pub scan_table_header : Outcome
  scan_table_header = scan_header 1 table_header

  abbrev pub scan_array_table_header : Outcome
  scan_array_table_header = scan_header 2 array_table_header
