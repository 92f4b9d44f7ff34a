-- ===== src/Decoder/Mark.antt =====
-- decoder.go: `skipBOM`, and the first token behind a byte order mark.
use go_toml.Prelude.{
  ◌≡◌, refl, arith, inl, ok, none, true, false, ◌&&◌, [], ◌∷◌, Bytes, length, above, ◌-◌, leb, ◌==◌,
  ==_iff,
}
use go_toml.Prelude.Loop.{loop}
use go_toml.Scan.Kernels.{validate_utf8_swar}
use go_toml.Decoder.State.{Decoder, RawToken, array_start, Readers, exceeds, no_scalar}
use go_toml.Decoder.Options.{Limits}
use go_toml.Decoder.Stack.{no_containers, innermost_is_array}
use go_toml.Decoder.Spaces.{skip_spaces, skip_from, space_at}
use go_toml.Decoder.Values.{scan_array_start}
use go_toml.Decoder.Read.{
  token_at, dispatch, read_behind_spaces, read_turn, read_token, init_decoder, skip_bom,
}

-- The array that a bracket opens behind the mark.
abbrev pub opened : RawToken
opened = record { kind = array_start; bytes = b'[' ∷ []; offset = 3; string_body_ok = false }

abbrev pub marked_header : Bytes → Bytes
marked_header rest = 0xef ∷ 0xbb ∷ 0xbf ∷ b'[' ∷ rest

abbrev behind_mark : Limits → Bytes → Decoder
behind_mark limits rest = record {
  buf = marked_header rest;
  off = 3;
  error = none;
  expecting_value = false;
  value_no_newline = false;
  need_separator = false;
  need_line_end = false;
  at_line_start = false;
  limits = limits;
  array_depth = 0;
  inline_depth = 0;
  containers = no_containers;
  token_scalar = no_scalar;
}

init_behind_mark :
    (limits : Limits) (rest : Bytes)
    → (above limits.max_document_size 0
        && exceeds (length (marked_header rest)) limits.max_document_size)
      ≡ false
    → validate_utf8_swar (marked_header rest) ≡ length (marked_header rest)
    → init_decoder limits (marked_header rest) ≡ behind_mark limits rest
unfolding init_decoder skip_bom
init_behind_mark limits rest fits valid =
    let sound : (validate_utf8_swar (marked_header rest) == length (marked_header rest)) ≡ true =
      (==_iff _ _).1 valid in
    let four : leb 3 (length (marked_header rest) - 0) ≡ true = ground arith in
    rw (init_decoder, fits, sound, four) refl

bracket_turn :
    (readers : Readers) (limits : Limits) (rest : Bytes)
    → read_turn readers (behind_mark limits rest) ≡ inl (scan_array_start (behind_mark limits rest))
unfolding read_turn read_behind_spaces dispatch token_at skip_spaces skip_from space_at
    innermost_is_array
bracket_turn readers limits [] = refl
bracket_turn readers limits (c ∷ rest) =
    let four : leb (length (marked_header (c ∷ rest))) 3 ≡ false = ground arith in rw four refl

-- A text that begins with a byte order mark and a table header, is valid UTF-8 and within the cap of
-- the size is read wrongly, whatever stands behind the bracket: the skip of the mark ends the line's
-- start, so that the bracket opens an array.
pub read_token-skip_bom :
    (readers : Readers) (limits : Limits) (rest : Bytes)
    → (above limits.max_document_size 0
        && exceeds (length (marked_header rest)) limits.max_document_size)
      ≡ false
    → validate_utf8_swar (marked_header rest) ≡ length (marked_header rest)
    → (read_token readers (init_decoder limits (marked_header rest))).0 ≡ ok opened
unfolding read_token loop scan_array_start
read_token-skip_bom readers limits rest fits valid =
    rw (init_behind_mark limits rest fits valid, loop, bracket_turn readers limits rest) refl
