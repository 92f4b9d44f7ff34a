-- ===== src/Decoder/Turns.antt =====
-- decoder.go: the flags of the decoder from call to call of `readToken`, and the end of a call.
use mathlib.Core.Path.{subst}
use go_toml.Prelude.{
  ℕ, zero, suc, ◌+◌, ◌≡◌, ◌⊎◌, refl, sym, ap, arith, inl, inr, err, Option, none, some,
  Option-cases, Bool, true, false, not, ◌&&◌, ◌||◌, Bytes, length, get_or, above, ◌-◌, leb, ◌==◌,
  if◌then◌else◌, Bool-cases,
}
use go_toml.Prelude.Loop.{loop}
use go_toml.Scan.Kernels.{validate_utf8_swar}
use go_toml.Decoder.State.{
  Decoder, DecodeError, table_header, array_table_header, eof, no_fuel, Readers, Outcome, byte_at,
  exceeds,
}
use go_toml.Decoder.Options.{Limits}
use go_toml.Decoder.Keys.{scan_comment, scan_table_header, scan_array_table_header}
use go_toml.Decoder.Spaces.{skip_spaces}
use go_toml.Decoder.Read.{
  token_at, dispatch, read_behind_spaces, read_turn, at_end, behind_comma, read_token,
  syntax_outcome, match_double_bracket, behind_calls, init_decoder, skip_bom,
}
use go_toml.Decoder.Steady.{Steady, skip_spaces-Steady, read_token-read_turn}
use go_toml.Decoder.Kept.{Kept, Kept-Steady, emit-Kept, if-Kept, scan_comment-Kept}
use go_toml.Decoder.Kept.Tokens.{syntax_outcome-Kept, scan_header-Kept, token_at-Kept}

-- What a turn leaves, if it leaves the loop.
KeptTurn : Outcome ⊎ Decoder → Type 0
KeptTurn (inl o) = Kept o
KeptTurn (inr d) = Unit

turn-KeptTurn :
    (end bare line hash newline double header : Bool) (o1 o2 o3 o4 o5 o6 : Outcome) (same : Decoder)
    (rest : Outcome ⊎ Decoder)
    → Kept o1
    → Kept o2
    → Kept o3
    → Kept o4
    → (double ≡ true → Kept o5)
    → (header ≡ true → Kept o6)
    → KeptTurn rest
    → KeptTurn (
        if end
        then inl o1
        else if bare
        then inl o2
        else if line
        then (if hash then inl o3 else if newline then inr same else inl o4)
        else if double
        then inl o5
        else if header
        then inl o6
        else rest)
unfolding KeptTurn
turn-KeptTurn true bare line hash newline double header o1 o2 o3 o4 o5 o6 same rest h1 h2 h3 h4 h5
      h6 h =
    h1
turn-KeptTurn false true line hash newline double header o1 o2 o3 o4 o5 o6 same rest h1 h2 h3 h4 h5
      h6 h =
    h2
turn-KeptTurn false false true true newline double header o1 o2 o3 o4 o5 o6 same rest h1 h2 h3 h4 h5
      h6 h =
    h3
turn-KeptTurn false false true false true double header o1 o2 o3 o4 o5 o6 same rest h1 h2 h3 h4 h5
      h6 h =
    tt
turn-KeptTurn false false true false false double header o1 o2 o3 o4 o5 o6 same rest h1 h2 h3 h4 h5
      h6 h =
    h4
turn-KeptTurn false false false hash newline true header o1 o2 o3 o4 o5 o6 same rest h1 h2 h3 h4 h5
      h6 h =
    h5 refl
turn-KeptTurn false false false hash newline false true o1 o2 o3 o4 o5 o6 same rest h1 h2 h3 h4 h5
      h6 h =
    h6 refl
turn-KeptTurn false false false hash newline false false o1 o2 o3 o4 o5 o6 same rest h1 h2 h3 h4 h5
      h6 h =
    h

continue-KeptTurn :
    (b : Bool) (d : Decoder) (o : Outcome) → Kept o → KeptTurn (if b then inr d else inl o)
unfolding KeptTurn
continue-KeptTurn true d o h = tt
continue-KeptTurn false d o h = h

leave-KeptTurn :
    (b : Bool) (o : Outcome) (rest : Outcome ⊎ Decoder)
    → Kept o
    → KeptTurn rest
    → KeptTurn (if b then inl o else rest)
unfolding KeptTurn
leave-KeptTurn true o rest h h' = h
leave-KeptTurn false o rest h h' = h'

module _ (readers : Readers) (d : Decoder) (h : Steady d) where
  at_end-Kept : Kept (at_end d)
  unfolding at_end
  at_end-Kept =
      if-Kept d.expecting_value (syntax_outcome d "expected value" d.off) (err eof, d)
        (λ e. syntax_outcome-Kept readers d h "expected value" d.off) (λ e. emit-Kept (err eof) d h)

  dispatch-KeptTurn : KeptTurn (dispatch readers d)
  unfolding dispatch
  dispatch-KeptTurn =
      continue-KeptTurn (byte_at d d.off == b',' && d.need_separator) (behind_comma d)
        (token_at readers d) (token_at-Kept readers d h)

  -- A header stands where no value is awaited.
  no_wait :
      (there : Bool)
      → (d.at_line_start && not d.expecting_value && there) ≡ true
      → d.value_no_newline ≡ false
  no_wait there e = ground (arith, h.awaits, e)

  read_behind_spaces-KeptTurn : KeptTurn (read_behind_spaces readers d)
  unfolding read_behind_spaces
  read_behind_spaces-KeptTurn =
      let ch : ℕ = byte_at d d.off in
      turn-KeptTurn (leb (length d.buf) d.off)
        (ch == b'\r' && (leb (length d.buf) (d.off + 1) || not (byte_at d (d.off + 1) == b'\n')))
        d.need_line_end (ch == b'#') (ch == b'\n')
        (d.at_line_start && not d.expecting_value && match_double_bracket d)
        (d.at_line_start && not d.expecting_value && ch == b'[') (at_end d)
        (syntax_outcome d "bare carriage return" d.off) (scan_comment d)
        (syntax_outcome d "expected newline" d.off) (scan_array_table_header readers d)
        (scan_table_header readers d) d (dispatch readers d) at_end-Kept
        (syntax_outcome-Kept readers d h "bare carriage return" d.off) (scan_comment-Kept d h)
        (syntax_outcome-Kept readers d h "expected newline" d.off)
        (λ e.
          scan_header-Kept readers d h (no_wait (match_double_bracket d) e) 2 array_table_header)
        (λ e. scan_header-Kept readers d h (no_wait (ch == b'[') e) 1 table_header)
        dispatch-KeptTurn

failed_read :
    (readers : Readers) (d : Decoder) (e : DecodeError)
    → d.error ≡ some e
    → read_token readers d ≡ (err e, d)
unfolding read_token
failed_read readers d e failed =
    ap
      (λ (error : Option DecodeError). elim error [
        | some e' ↦ let o : Outcome = (err e', d) in o
        | none ↦ loop (read_turn readers) (err no_fuel, d) (suc (length d.buf)) d
      ])
      failed

init_decoder-Steady : (limits : Limits) (buf : Bytes) → Steady (init_decoder limits buf)
unfolding init_decoder skip_bom
init_decoder-Steady limits buf =
    elim (Bool-cases
      (above limits.max_document_size 0 && exceeds (length buf) limits.max_document_size)) [
        | inl long ↦ rw (init_decoder, long) (record { awaits = refl; parted = refl })
        | inr fits ↦ elim (Bool-cases (validate_utf8_swar buf == length buf)) [
          | inr broken ↦ rw (init_decoder, fits, broken) (record { awaits = refl; parted = refl })
          | inl sound ↦
              elim (Bool-cases (
                leb 3 (length buf - 0)
                && (get_or buf 0 0 == 0xef && get_or buf 1 0 == 0xbb && get_or buf 2 0 == 0xbf))) [
                  | inl mark ↦
                      rw (init_decoder, fits, sound, mark) (record { awaits = refl; parted = refl })
                  | inr plain ↦
                      rw (init_decoder, fits, sound, plain)
                        (record { awaits = refl; parted = refl })
                ]
        ]
      ]

module _ (readers : Readers) where
  read_turn-KeptTurn : (d : Decoder) → Steady d → KeptTurn (read_turn readers d)
  unfolding read_turn
  read_turn-KeptTurn d h =
      leave-KeptTurn (leb (length d.buf) d.off) (at_end d)
        (read_behind_spaces readers (skip_spaces d)) (at_end-Kept readers d h)
        (read_behind_spaces-KeptTurn readers (skip_spaces d) (skip_spaces-Steady d h))

  left_turn-Kept : (d : Decoder) (o : Outcome) → Steady d → read_turn readers d ≡ inl o → Kept o
  unfolding KeptTurn
  left_turn-Kept d o h e = subst KeptTurn e (read_turn-KeptTurn d h)

  -- A call keeps the flags in step.
  read_token-Steady : (d : Decoder) → Steady d → Steady ((read_token readers d).1)
  read_token-Steady d h = elim (Option-cases d.error) [
    | inr (e, failed) ↦ subst (λ o. Steady (o.1)) (sym (failed_read readers d e failed)) h
    | inl fresh ↦
        let (last, o, at, answer, steady) = read_token-read_turn readers d h fresh in
        subst (λ o. Steady (o.1)) (sym answer) (Kept-Steady o (left_turn-Kept last o steady at))
  ]

  behind_calls-Steady : (n : ℕ) (d : Decoder) → Steady d → Steady (behind_calls readers n d)
  unfolding behind_calls
  behind_calls-Steady zero d h = h
  behind_calls-Steady (suc n) d h =
      behind_calls-Steady n ((read_token readers d).1) (read_token-Steady d h)

  -- After any number of calls on a new decoder over any text, one more call of `readToken` comes to an
  -- end: it answers with the error that is recorded and changes nothing, or a turn of its loop leaves
  -- the loop and is the answer. No newline is left in front of it to go round at.
  pub read_token-init_decoder :
      (limits : Limits) (buf : Bytes) (n : ℕ)
      → let d = behind_calls readers n (init_decoder limits buf) in
        ((e : DecodeError) × (d.error ≡ some e) × (read_token readers d ≡ (err e, d)))
        ⊎ ((last : Decoder) × (o : Outcome) × (read_turn readers last ≡ inl o)
            × (read_token readers d ≡ o))
  read_token-init_decoder limits buf n =
      let d : Decoder = behind_calls readers n (init_decoder limits buf) in
      elim (Option-cases d.error) [
        | inr (e, failed) ↦ inl (e, failed, failed_read readers d e failed)
        | inl fresh ↦
            let (last, o, at, answer, steady) =
              read_token-read_turn readers d
                (behind_calls-Steady n (init_decoder limits buf) (init_decoder-Steady limits buf))
                fresh in
            inr (last, o, at, answer)
      ]
