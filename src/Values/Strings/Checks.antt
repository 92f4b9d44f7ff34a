-- ===== src/Values/Strings/Checks.antt =====
-- value.go: about the check of a string token and the reading of its text.
use go_toml.Prelude.{
  ℕ, suc, ◌≡◌, refl, sym, ap, ◌∙◌, inl, inr, Result, ok, err, Option, none, some, Bool, true, false,
  not, [], Bytes, length, ltb, Bool-cases, Result-cases,
}
use go_toml.Prelude.Loop.{loop, loop-both, both}
use go_toml.Decoder.State.{DecodeError, no_fuel}
use go_toml.Values.Strings.Fast.{parse_basic_string_body-scan_basic_string_body}
use go_toml.Values.Strings.{
  Piece, body_turn, body_piece, scan_basic_string_body, built, error_of, checked,
  parse_basic_string_body, validate_basic_string_body, validate_literal_string_body,
  string_value_body, parse_string_value, validate_string_value, StringValueKind, literal_string,
  multiline_literal, basic_string, multiline_basic, parse_string_kind, validate_string_kind,
}

-- What is left of an answer when the builder is taken away.
abbrev no_builder : Result DecodeError (Option Bytes) → Result DecodeError (Option Bytes)
no_builder (err e) = err e
no_builder (ok b) = ok none

abbrev drop_builder : ℕ × Option Bytes → ℕ × Option Bytes
drop_builder (i, b) = (i, none)

body_turn-both :
    (piece : ℕ → Piece) (size : ℕ) (s : ℕ × Option Bytes)
    → body_turn piece size (drop_builder s) ≡ both no_builder drop_builder (body_turn piece size s)
body_turn-both piece size (i, b) = elim (Bool-cases (not (ltb i size))) [
  | inl over ↦ rw over refl
  | inr more ↦ elim (Result-cases (piece i)) [
    | inl ((j, bs), e) ↦ rw (more, e) refl
    | inr (bad, e) ↦ rw (more, e) refl
  ]
]

error_of-no_builder :
    (r : Result DecodeError (Option Bytes)) → error_of (no_builder r) ≡ error_of (built r)
error_of-no_builder (err e) = refl
error_of-no_builder (ok none) = refl
error_of-no_builder (ok (some b)) = refl

-- The check fails as the reading with a builder does.
error_of-scan_basic_string_body :
    (raw : Bytes) (multiline : Bool) (b : Bytes)
    → error_of (scan_basic_string_body raw multiline none)
      ≡ error_of (built (scan_basic_string_body raw multiline (some b)))
unfolding scan_basic_string_body
error_of-scan_basic_string_body raw multiline b =
    let turn = body_turn (body_piece raw multiline) (length raw) in
    ap error_of (
      loop-both no_builder drop_builder turn turn (err no_fuel)
        (λ s. body_turn-both (body_piece raw multiline) (length raw) s) (suc (length raw))
        (0, some b))
    ∙ error_of-no_builder (loop turn (err no_fuel) (suc (length raw)) (0, some b))

error_of-checked : (o : Option DecodeError) (s : Bytes) → error_of (checked o s) ≡ o
error_of-checked none s = refl
error_of-checked (some e) s = refl

validate_basic_string_body-parse_basic_string_body :
    (raw : Bytes) (multiline : Bool)
    → validate_basic_string_body raw multiline ≡ error_of (parse_basic_string_body raw multiline)
unfolding validate_basic_string_body
validate_basic_string_body-parse_basic_string_body raw multiline =
    error_of-scan_basic_string_body raw multiline []
    ∙ ap error_of (sym (parse_basic_string_body-scan_basic_string_body raw multiline))

validate_string_kind-parse_string_kind :
    (body : Bytes) (kind : StringValueKind)
    → validate_string_kind body kind ≡ error_of (parse_string_kind body kind)
validate_string_kind-parse_string_kind body literal_string =
    sym (error_of-checked (validate_literal_string_body body false) body)
validate_string_kind-parse_string_kind body multiline_literal =
    sym (error_of-checked (validate_literal_string_body body true) body)
validate_string_kind-parse_string_kind body basic_string =
    validate_basic_string_body-parse_basic_string_body body false
validate_string_kind-parse_string_kind body multiline_basic =
    validate_basic_string_body-parse_basic_string_body body true

-- `validateStringValue`, which builds no text, fails on exactly the tokens on which `parseStringValue`
-- fails, and with the same error.
pub validate_string_value-parse_string_value :
    (raw : Bytes) → validate_string_value raw ≡ error_of (parse_string_value raw)
unfolding validate_string_value parse_string_value
validate_string_value-parse_string_value raw = elim (Result-cases (string_value_body raw)) [
  | inl ((body, kind), e) ↦
      rw (validate_string_value, parse_string_value, e)
        (validate_string_kind-parse_string_kind body kind)
  | inr (bad, e) ↦ rw (validate_string_value, parse_string_value, e) refl
]
