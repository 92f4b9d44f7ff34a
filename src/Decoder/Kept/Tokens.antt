-- ===== src/Decoder/Kept/Tokens.antt =====
-- decoder.go: the flags of the decoder behind the scanners of values, keys and headers.
use Prim.Native.String.{String}
use go_toml.Prelude.{
  ℕ, ◌+◌, ◌-◌, ◌*◌, ◌≡◌, refl, arith, inl, inr, Bool, false, not, ◌&&◌, ◌||◌, Bytes, length, slice,
  drop, ltb, leb, ◌==◌, if◌then◌else◌, Bool-cases, Result-cases,
}
use go_toml.Scan.Kernels.{scan_bare_key_swar}
use go_toml.Decoder.Stack.{innermost_is_array}
use go_toml.Decoder.State.{
  Decoder, recorded, TokenKind, syntax_error_at, Readers, Outcome, fail_with, on_ok, byte_at,
  exceeds,
}
use go_toml.Decoder.Strings.{scan_string}
use go_toml.Decoder.Keys.{
  scan_comment, emit_key, checked_key, general_key, simple_key, key_end, blanks_end, limit_failure,
  bytes_trim_right_spaces, is_simple_bare_key, scan_key_token, scan_header, header_token,
  scan_header_end, validate_header_key,
}
use go_toml.Decoder.Values.{
  behind_value, scan_array_start, scan_array_end, scan_inline_table_start, scan_inline_table_end,
  scan_string_token, scan_bare_token, scan_value_token, scan_bare_value_end,
}
use go_toml.Decoder.Read.{token_at, syntax_outcome}
use go_toml.Decoder.Steady.{Steady}
use go_toml.Decoder.Kept.{
  Kept, emit-Kept, fail_with-Kept, on_ok-Kept, if-Kept, seven-Kept, scan_comment-Kept,
  emit_key-Kept, scan_array_start-Kept, scan_array_end-Kept, scan_inline_table_start-Kept,
  scan_inline_table_end-Kept,
}

module _ (readers : Readers) (d : Decoder) (h : Steady d) where
  scan_string_token-Kept : Kept (scan_string_token readers d)
  unfolding scan_string_token behind_value
  scan_string_token-Kept = elim (Result-cases (scan_string readers d d.off)) [
    | inr (f, e) ↦ rw (scan_string_token, e) (fail_with-Kept d f h)
    | inl ((end, body_ok), e) ↦
        elim (Bool-cases (exceeds (length (slice d.buf d.off end)) d.limits.max_string_length)) [
          | inl over ↦
              rw (scan_string_token, e, over)
                (emit-Kept _ _ (record { awaits = h.awaits; parted = h.parted }))
          | inr fits ↦
              rw (scan_string_token, e, fits)
                (emit-Kept _ _ (record { awaits = refl; parted = ground arith }))
        ]
  ]

  scan_bare_token-Kept : Kept (scan_bare_token readers d)
  unfolding scan_bare_token behind_value
  scan_bare_token-Kept =
      let end : ℕ = scan_bare_value_end readers (drop d.off d.buf) in
      let chunk : Bytes = slice d.buf d.off (d.off + end) in
      elim (Bool-cases (end == 0)) [
        | inl empty ↦
            rw (scan_bare_token, empty)
              (emit-Kept _ _ (record { awaits = h.awaits; parted = h.parted }))
        | inr some_read ↦ elim (Bool-cases (length chunk == 0)) [
          | inl no_bytes ↦
              rw (scan_bare_token, some_read, no_bytes)
                (emit-Kept _ _ (record { awaits = h.awaits; parted = h.parted }))
          | inr bytes ↦ elim (Result-cases (readers.classify_bare_value chunk)) [
            | inr (msg, e) ↦
                rw (scan_bare_token, some_read, bytes, e)
                  (emit-Kept _ _ (record { awaits = h.awaits; parted = h.parted }))
            | inl ((kind, scalar), e) ↦
                rw (scan_bare_token, some_read, bytes, e)
                  (emit-Kept _ _ (record { awaits = refl; parted = ground arith }))
          ]
        ]
      ]

  scan_value_token-Kept : Kept (scan_value_token readers d)
  unfolding scan_value_token
  scan_value_token-Kept =
      let ch : ℕ = byte_at d d.off in
      seven-Kept (ch == b'"' || ch == b'\'') (ch == b'[') (ch == b'{') (ch == b']') (ch == b'}')
        (ch == b'#') false (scan_string_token readers d) (scan_array_start d)
        (scan_inline_table_start d) (scan_array_end d) (scan_inline_table_end d) (scan_comment d)
        (scan_comment d) (scan_bare_token readers d) scan_string_token-Kept
        (scan_array_start-Kept d) (scan_inline_table_start-Kept d) (scan_array_end-Kept d)
        (scan_inline_table_end-Kept d) (scan_comment-Kept d h) (scan_comment-Kept d h)
        scan_bare_token-Kept

  pub syntax_outcome-Kept : (msg : String) (at : ℕ) → Kept (syntax_outcome d msg at)
  syntax_outcome-Kept msg at = fail_with-Kept d (recorded (syntax_error_at d msg at)) h

  -- Nothing parts the key from what stands in front of it.
  module _ (sep : d.need_separator ≡ false) where
    checked_key-Kept : (raw : Bytes) (i : ℕ) → Kept (checked_key readers d raw i)
    unfolding checked_key
    checked_key-Kept raw i =
        let eq : ℕ = blanks_end d i in
        if-Kept (exceeds (length raw) d.limits.max_key_length)
          (fail_with d (limit_failure "MaxKeyLength" d d.off i))
          (if leb (length d.buf) eq || not (byte_at d eq == b'=')
            then syntax_outcome d "expected equals" eq
            else emit_key d raw d.off eq)
          (λ e. fail_with-Kept d (limit_failure "MaxKeyLength" d d.off i) h)
          (λ e.
            if-Kept (leb (length d.buf) eq || not (byte_at d eq == b'='))
              (syntax_outcome d "expected equals" eq) (emit_key d raw d.off eq)
              (λ e'. syntax_outcome-Kept "expected equals" eq)
              (λ e'. emit_key-Kept d raw d.off eq h sep))

    general_key-Kept : (i : ℕ) → Kept (general_key readers d i)
    unfolding general_key
    general_key-Kept i =
        let raw : Bytes = bytes_trim_right_spaces (slice d.buf d.off i) in
        elim (Bool-cases (i == d.off)) [
          | inl empty ↦ rw (general_key, empty) (syntax_outcome-Kept "empty key" i)
          | inr some_read ↦ elim (Bool-cases (is_simple_bare_key raw)) [
            | inl simple ↦ rw (general_key, some_read, simple) (checked_key-Kept raw i)
            | inr dotted ↦ elim (Result-cases (readers.parse_dotted_key raw)) [
              | inl (parts, e) ↦ rw (general_key, some_read, dotted, e) (checked_key-Kept raw i)
              | inr (bad, e) ↦
                  rw (general_key, some_read, dotted, e) (fail_with-Kept d (recorded bad) h)
            ]
          ]
        ]

    simple_key-Kept : (n : ℕ) → Kept (simple_key readers d n)
    unfolding simple_key
    simple_key-Kept n =
        let raw : Bytes = slice d.buf d.off (d.off + n) in
        let eq : ℕ = blanks_end d (d.off + n) in
        if-Kept (exceeds (length raw) d.limits.max_key_length)
          (fail_with d (limit_failure "MaxKeyLength" d d.off (d.off + n))) (emit_key d raw d.off eq)
          (λ e. fail_with-Kept d (limit_failure "MaxKeyLength" d d.off (d.off + n)) h)
          (λ e. emit_key-Kept d raw d.off eq h sep)

    scan_key_token-Kept : Kept (scan_key_token readers d)
    unfolding scan_key_token
    scan_key_token-Kept =
        let n : ℕ = scan_bare_key_swar (drop d.off d.buf) in
        let eq : ℕ = blanks_end d (d.off + n) in
        if-Kept (not (n == 0) && (ltb eq (length d.buf) && byte_at d eq == b'='))
          (simple_key readers d n) (on_ok d (key_end readers d) (general_key readers d))
          (λ e. simple_key-Kept n)
          (λ e. on_ok-Kept d (key_end readers d) (general_key readers d) h general_key-Kept)

  -- No value is awaited on the line.
  module _ (awaits : d.value_no_newline ≡ false) where
    header_token-Kept :
        (width : ℕ) (kind : TokenKind) (i : ℕ) → Kept (header_token readers d width kind i)
    unfolding header_token
    header_token-Kept width kind i =
        let head : Bytes = slice d.buf d.off (i + width) in
        elim (Bool-cases (exceeds (i + width - d.off - 2 * width) d.limits.max_key_length)) [
          | inl over ↦ elim (Bool-cases (length head == 0)) [
            | inl empty ↦
                rw (header_token, over, empty)
                  (emit-Kept _ _ (record { awaits = h.awaits; parted = h.parted }))
            | inr bytes ↦
                rw (header_token, over, bytes)
                  (emit-Kept _ _ (record { awaits = h.awaits; parted = h.parted }))
          ]
          | inr fits ↦ elim (Bool-cases (length head == 0)) [
            | inl empty ↦
                rw (header_token, fits, empty)
                  (emit-Kept _ _ (record { awaits = rw awaits refl; parted = h.parted }))
            | inr bytes ↦
                rw (header_token, fits, bytes)
                  (emit-Kept _ _ (record { awaits = rw awaits refl; parted = h.parted }))
          ]
        ]

    pub scan_header-Kept : (width : ℕ) (kind : TokenKind) → Kept (scan_header readers d width kind)
    unfolding scan_header
    scan_header-Kept width kind =
        on_ok-Kept d (scan_header_end readers d (d.off + width) (width == 2))
          (λ i.
            on_ok d (validate_header_key readers d (d.off + width) i)
              λ checked. header_token readers d width kind i)
          h
          λ i.
            on_ok-Kept d (validate_header_key readers d (d.off + width) i)
              (λ checked. header_token readers d width kind i) h
              λ checked. header_token-Kept width kind i

  -- A value, or the key that stands in front of one.
  abbrev value_here : Outcome
  value_here =
      if d.need_separator && innermost_is_array d.containers
      then syntax_outcome d "expected array separator" d.off
      else scan_value_token readers d

  abbrev key_here : Outcome
  key_here =
      if d.need_separator && ltb 0 d.containers.container_depth
      then syntax_outcome d "expected inline table separator" d.off
      else scan_key_token readers d

  no_separator :
      (d.need_separator && ltb 0 d.containers.container_depth) ≡ false → d.need_separator ≡ false
  no_separator e = ground (arith, h.parted, e)

  value_or_key-Kept : Kept (if d.expecting_value then value_here else key_here)
  value_or_key-Kept =
      if-Kept d.expecting_value value_here key_here
        (λ e.
          if-Kept (d.need_separator && innermost_is_array d.containers)
            (syntax_outcome d "expected array separator" d.off) (scan_value_token readers d)
            (λ e'. syntax_outcome-Kept "expected array separator" d.off)
            (λ e'. scan_value_token-Kept))
        (λ e.
          if-Kept (d.need_separator && ltb 0 d.containers.container_depth)
            (syntax_outcome d "expected inline table separator" d.off) (scan_key_token readers d)
            (λ e'. syntax_outcome-Kept "expected inline table separator" d.off)
            (λ e'. scan_key_token-Kept (no_separator e')))

  pub token_at-Kept : Kept (token_at readers d)
  unfolding token_at
  token_at-Kept =
      let ch : ℕ = byte_at d d.off in
      let unparted : Bool = innermost_is_array d.containers && not d.expecting_value in
      seven-Kept (ch == b'[') (ch == b'{') (ch == b']') (ch == b'}') (ch == b'#') (ch == b'=')
        (ch == b',')
        (if unparted then syntax_outcome d "expected comma" d.off else scan_array_start d)
        (if unparted then syntax_outcome d "expected comma" d.off else scan_inline_table_start d)
        (scan_array_end d) (scan_inline_table_end d) (scan_comment d)
        (syntax_outcome d "unexpected equals" d.off) (syntax_outcome d "unexpected comma" d.off)
        (if d.expecting_value then value_here else key_here)
        (if-Kept unparted (syntax_outcome d "expected comma" d.off) (scan_array_start d)
          (λ e. syntax_outcome-Kept "expected comma" d.off) (λ e. scan_array_start-Kept d))
        (if-Kept unparted (syntax_outcome d "expected comma" d.off) (scan_inline_table_start d)
          (λ e. syntax_outcome-Kept "expected comma" d.off) (λ e. scan_inline_table_start-Kept d))
        (scan_array_end-Kept d) (scan_inline_table_end-Kept d) (scan_comment-Kept d h)
        (syntax_outcome-Kept "unexpected equals" d.off)
        (syntax_outcome-Kept "unexpected comma" d.off) value_or_key-Kept
