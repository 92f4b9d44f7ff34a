-- ===== src/Decoder/Kept.antt =====
-- decoder.go: the flags of the decoder behind each scanner, on success and on failure.
pub mod Tokens
use Prim.Native.String.{String}
use go_toml.Prelude.{
  ℕ, ◌+◌, ◌-◌, ◌*◌, ◌≡◌, refl, arith, inl, inr, Result, ok, err, Bool, true, false, not, ◌&&◌, ◌||◌,
  Bytes, length, slice, drop, ltb, leb, ◌==◌, if◌then◌else◌, Bool-cases, Result-cases,
}
use go_toml.Scan.Kernels.{scan_bare_key_swar}
use go_toml.Decoder.Stack.{innermost_is_array}
use go_toml.Decoder.State.{
  Decoder, DecodeError, syntax, recorded, returned, Failure, RawToken, TokenKind, syntax_error_at,
  Readers, Outcome, fail_with, on_ok, advance_bytes, byte_at, exceeds,
}
use go_toml.Decoder.Strings.{scan_string}
use go_toml.Decoder.Keys.{
  scan_comment, scan_comment_end, emit_key, checked_key, general_key, simple_key, key_end,
  blanks_end, limit_failure, bytes_trim_right_spaces, is_simple_bare_key, scan_key_token,
  scan_header, header_token, scan_header_end, validate_header_key,
}
use go_toml.Decoder.Values.{
  behind_value, scan_array_start, scan_array_end, scan_inline_table_start, scan_inline_table_end,
  scan_string_token, scan_bare_token, scan_value_token, scan_bare_value_end,
}
use go_toml.Decoder.Read.{token_at, syntax_outcome}
use go_toml.Decoder.Steady.{Steady}

-- The decoder that an outcome leaves is in step.
pub Kept : Outcome → Type 0
Kept (r, d) = Steady d

pub emit-Kept : (r : Result DecodeError RawToken) (d : Decoder) → Steady d → Kept (r, d)
unfolding Kept
emit-Kept r d h = h

pub Kept-Steady : (o : Outcome) → Kept o → Steady (o.1)
unfolding Kept
Kept-Steady o h = h

fail_with-Kept : (d : Decoder) (f : Failure) → Steady d → Kept (fail_with d f)
unfolding Kept
fail_with-Kept d (recorded e) h = record { awaits = h.awaits; parted = h.parted }
fail_with-Kept d (returned e) h = h

on_ok-Kept :
    {A : Type 0} (d : Decoder) (r : Result Failure A) (after : A → Outcome)
    → Steady d
    → ((a : A) → Kept (after a))
    → Kept (on_ok d r after)
on_ok-Kept d (ok a) after h k = k a
on_ok-Kept d (err f) after h k = fail_with-Kept d f h

pub if-Kept :
    (b : Bool) (o o' : Outcome)
    → (b ≡ true → Kept o)
    → (b ≡ false → Kept o')
    → Kept (if b then o else o')
if-Kept true o o' h h' = h refl
if-Kept false o o' h h' = h' refl

-- Seven tests one behind the other.
seven-Kept :
    (b1 b2 b3 b4 b5 b6 b7 : Bool) (o1 o2 o3 o4 o5 o6 o7 o8 : Outcome)
    → Kept o1
    → Kept o2
    → Kept o3
    → Kept o4
    → Kept o5
    → Kept o6
    → Kept o7
    → Kept o8
    → Kept (
        if b1
        then o1
        else if b2
        then o2
        else if b3
        then o3
        else if b4
        then o4
        else if b5
        then o5
        else if b6
        then o6
        else if b7
        then o7
        else o8)
seven-Kept b1 b2 b3 b4 b5 b6 b7 o1 o2 o3 o4 o5 o6 o7 o8 h1 h2 h3 h4 h5 h6 h7 h8 =
    if-Kept b1 o1 _ (λ e. h1)
      λ e.
        if-Kept b2 o2 _ (λ e. h2)
          λ e.
            if-Kept b3 o3 _ (λ e. h3)
              λ e.
                if-Kept b4 o4 _ (λ e. h4)
                  λ e.
                    if-Kept b5 o5 _ (λ e. h5)
                      λ e. if-Kept b6 o6 _ (λ e. h6) λ e. if-Kept b7 o7 o8 (λ e. h7) λ e. h8

advance_bytes-Steady : (d : Decoder) (n : ℕ) → Steady d → Steady (advance_bytes d n)
advance_bytes-Steady d n h = elim (Bool-cases (n == 0)) [
  | inl none_read ↦ rw none_read h
  | inr some_read ↦ rw some_read (record { awaits = h.awaits; parted = h.parted })
]

pub scan_comment-Kept : (d : Decoder) → Steady d → Kept (scan_comment d)
unfolding scan_comment
scan_comment-Kept d h = on_ok-Kept d (scan_comment_end d d.off) _ h λ end. emit-Kept _ _ (
    advance_bytes-Steady _ (length (slice d.buf d.off end))
      (record { awaits = h.awaits; parted = h.parted }))

emit_key-Kept :
    (d : Decoder) (raw : Bytes) (start eq : ℕ)
    → Steady d
    → d.need_separator ≡ false
    → Kept (emit_key d raw start eq)
unfolding emit_key
emit_key-Kept d raw start eq h sep = elim (Bool-cases (length (slice d.buf start (eq + 1)) == 0)) [
  | inl none_read ↦
      rw none_read (emit-Kept _ _ (record { awaits = rw sep refl; parted = h.parted }))
  | inr some_read ↦
      rw some_read (emit-Kept _ _ (record { awaits = rw sep refl; parted = h.parted }))
]

scan_array_start-Kept : (d : Decoder) → Kept (scan_array_start d)
unfolding scan_array_start
scan_array_start-Kept d = emit-Kept _ _ (record { awaits = refl; parted = refl })

scan_array_end-Kept : (d : Decoder) → Kept (scan_array_end d)
unfolding scan_array_end behind_value
scan_array_end-Kept d = emit-Kept _ _ (record { awaits = refl; parted = ground arith })

scan_inline_table_start-Kept : (d : Decoder) → Kept (scan_inline_table_start d)
unfolding scan_inline_table_start
scan_inline_table_start-Kept d = emit-Kept _ _ (record { awaits = refl; parted = refl })

scan_inline_table_end-Kept : (d : Decoder) → Kept (scan_inline_table_end d)
unfolding scan_inline_table_end behind_value
scan_inline_table_end-Kept d = emit-Kept _ _ (record { awaits = refl; parted = ground arith })
