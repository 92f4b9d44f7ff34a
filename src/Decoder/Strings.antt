-- ===== src/Decoder/Strings.antt =====
-- decoder.go: the ends of quoted keys and of strings.
use go_toml.Prelude.{
  ℕ, zero, suc, ◌+◌, ◌-◌, min, ◌⊎◌, inl, inr, Result, ok, err, none, some, Bool, true, false, not,
  ◌&&◌, ◌||◌, [], ◌∷◌, Bytes, length, drop, slice, get_or, ltb, leb, ◌==◌, if◌then◌else◌,
}
use go_toml.Prelude.Loop.{loop}
use go_toml.Scan.Kernels.{
  scan_literal_string_swar, scan_basic_string_swar, scan_basic_string_strict_swar,
}
use go_toml.Decoder.State.{
  Decoder, DecodeError, syntax, no_fuel, control_character, byte_at, Failure, returned, syntax_fail,
  syntax_error_at, Readers,
}

-- `for _, ch := range raw[:end] { if ch == '\n' || ch == '\r' { return true } }`
unfoldable pub has_newline_before : Bytes → ℕ → Bool
has_newline_before [] end = false
has_newline_before (b ∷ raw) zero = false
has_newline_before (b ∷ raw) (suc end) = (b == b'\n' || b == b'\r') || has_newline_before raw end

unfoldable pub count_byte_run : Bytes → ℕ → ℕ
count_byte_run [] b = 0
count_byte_run (c ∷ raw) b = if c == b then suc (count_byte_run raw b) else 0

-- `hasBytePrefix(raw, b, b, b)`
unfoldable pub has_triple_prefix : Bytes → ℕ → Bool
has_triple_prefix raw b =
    leb 3 (length raw) && (get_or raw 0 0 == b && get_or raw 1 0 == b && get_or raw 2 0 == b)

unfoldable pub string_control_error : Bytes → ℕ → DecodeError
string_control_error raw idx = syntax (record {
  line = 1;
  col = idx + 1;
  msg = control_character (get_or raw idx 0);
  span_start = idx;
  span_end = idx + 1;
})

-- The byte behind the text and the flag that the body needs no more reading.
abbrev pub StringEnd : Type 0
StringEnd = ℕ × Bool

module _ (readers : Readers) (d : Decoder) where
  -- `if err := validateStringValue(d.buf[lo:hi]); err != nil { return err }; return value`
  abbrev pub validated {ℓ} : {A : Type ℓ} → ℕ → ℕ → A → Result Failure A
  validated lo hi value = elim (readers.validate_string_value (slice d.buf lo hi)) [
    | some e ↦ err (returned e)
    | none ↦ ok value
  ]

  -- The turn of `scanQuoted`, at `i`.
  unfoldable pub quoted_turn : ℕ → ℕ → ℕ → Result Failure ℕ ⊎ ℕ
  unfolding has_newline_before syntax_error_at scan_literal_string_swar scan_basic_string_swar
  quoted_turn quote off i =
      let rest : Bytes = drop i d.buf in
      let idx : ℕ =
        if quote == b'\'' then scan_literal_string_swar rest else scan_basic_string_swar rest in
      let unterminated : Result Failure ℕ = syntax_fail d "unterminated quoted key" off in
      if not (ltb i (length d.buf))
      then inl unterminated
      else if has_newline_before rest idx
      then inl unterminated
      else if leb (length rest) idx
      then inl unterminated
      else if quote == b'"' && byte_at d (i + idx) == b'\\'
      then (if leb (length d.buf) (i + idx + 1) then inl unterminated else inr (i + idx + 2))
      else if byte_at d (i + idx) == quote
      then inl (validated off (i + idx + 1) (i + idx + 1))
      else inr i

  -- Every turn but the last moves `i` on, so fuel for every byte is enough.
  unfoldable pub scan_quoted : ℕ → ℕ → Result Failure ℕ
  unfolding quoted_turn loop syntax_error_at
  scan_quoted quote off =
      if ltb (off + 2) (length d.buf)
        && (byte_at d (off + 1) == quote && byte_at d (off + 2) == quote)
      then syntax_fail d "multiline quoted keys are not supported" off
      else loop (quoted_turn quote off) (err (returned no_fuel)) (suc (length d.buf)) (off + 1)

  -- The turn of the loop over a multi-line basic string; the state is `end` and `escapeFree`.
  unfoldable pub multiline_basic_turn : ℕ → ℕ × Bool → Result Failure StringEnd ⊎ (ℕ × Bool)
  unfolding syntax_error_at scan_basic_string_swar count_byte_run
  multiline_basic_turn off (start, free) =
      let end : ℕ = start + scan_basic_string_swar (drop start d.buf) in
      let run : ℕ = count_byte_run (drop end d.buf) b'"' in
      if not (ltb start (length d.buf))
      then inl (syntax_fail d "unterminated multiline string" off)
      else if leb (length d.buf) end
      then inl (syntax_fail d "unterminated multiline string" off)
      else if byte_at d end == b'\\'
      then (if leb (length d.buf) (end + 1)
          then inl (syntax_fail d "unterminated string escape" end)
          else inr (end + 2, false))
      else if byte_at d end == b'"'
      then (if leb 3 run
          then inl (validated off (end + min run 5) (end + min run 5, free))
          else inr (end + run, free))
      else inr (end + 1, free)

  unfoldable pub multiline_literal_turn : ℕ → ℕ → Result Failure StringEnd ⊎ ℕ
  unfolding syntax_error_at scan_literal_string_swar count_byte_run
  multiline_literal_turn off start =
      let end : ℕ = start + scan_literal_string_swar (drop start d.buf) in
      let run : ℕ = count_byte_run (drop end d.buf) b'\'' in
      if not (ltb start (length d.buf))
      then inl (syntax_fail d "unterminated multiline string" off)
      else if leb (length d.buf) end
      then inl (syntax_fail d "unterminated multiline string" off)
      else if leb 3 run
      then inl (validated off (end + min run 5) (end + min run 5, true))
      else inr (end + run)

  unfoldable pub basic_turn : ℕ → ℕ × Bool → Result Failure StringEnd ⊎ (ℕ × Bool)
  unfolding syntax_error_at scan_basic_string_strict_swar string_control_error
  basic_turn off (start, free) =
      let i : ℕ = start + scan_basic_string_strict_swar (drop start d.buf) in
      let unterminated : Result Failure StringEnd = syntax_fail d "unterminated string" off in
      if not (ltb start (length d.buf))
      then inl unterminated
      else if leb (length d.buf) i
      then inl unterminated
      else if byte_at d i == b'\n' || byte_at d i == b'\r'
      then inl unterminated
      else if byte_at d i == b'\\'
      then (if leb (length d.buf) (i + 1) then inl unterminated else inr (i + 2, false))
      else if byte_at d i == b'"'
      then (if not free then inl (validated off (i + 1) (i + 1, false)) else inl (ok (i + 1, true)))
      else inl (err (returned (string_control_error (drop (off + 1) d.buf) (i - off - 1))))

  unfoldable pub scan_literal : ℕ → Result Failure StringEnd
  unfolding syntax_error_at scan_literal_string_swar has_newline_before
  scan_literal off =
      let start : ℕ = off + 1 in
      let n : ℕ = scan_literal_string_swar (drop start d.buf) in
      if has_newline_before (drop start d.buf) n
      then syntax_fail d "unterminated string" off
      else if ltb (start + n) (length d.buf)
      then validated off (start + n + 1) (start + n + 1, true)
      else syntax_fail d "unterminated string" off

  unfoldable pub scan_string : ℕ → Result Failure StringEnd
  unfolding has_triple_prefix multiline_basic_turn multiline_literal_turn basic_turn scan_literal
      loop
  scan_string off =
      let rest : Bytes = drop off d.buf in
      let fuel : ℕ = suc (length d.buf) in
      let out : Result Failure StringEnd = err (returned no_fuel) in
      if has_triple_prefix rest b'"'
      then loop (multiline_basic_turn off) out fuel (off + 3, true)
      else if has_triple_prefix rest b'\''
      then loop (multiline_literal_turn off) out fuel (off + 3)
      else if byte_at d off == b'"'
      then loop (basic_turn off) out fuel (off + 1, true)
      else scan_literal off
