-- ===== src/Values/Strings/Ends.antt =====
-- value.go: about the end of the loop of `scanBasicStringBody`.
use go_toml.Prelude.{
  ℕ, suc, ◌-◌, ◌<◌, ◌≡◌, ◌≢◌, refl, sym, ◌∙◌, arith, inl, inr, Result, ok, err, Option, none, some,
  Bool, true, false, [], Bytes, length, ltb, Bool-cases, Result-cases, Option-cases,
}
use go_toml.Prelude.Loop.{loop_ends}
use go_toml.Decoder.State.{DecodeError, no_fuel}
use go_toml.Decoder.Strings.{string_control_error}
use go_toml.Values.Strings.Fast.{parse_basic_string_body-scan_basic_string_body}
use go_toml.Values.Strings.{
  Piece, write, body_turn, body_piece, scan_basic_string_body, built, checked,
  parse_basic_string_body, validate_string_controls, prohibited_string_control_index,
  validate_literal_string_body, string_value_body, malformed_string_error, parse_string_value,
  StringValueKind, literal_string, multiline_literal, basic_string, multiline_basic,
  parse_string_kind,
}
use go_toml.Values.Strings.Advances.{is_no_fuel, Advances, body_piece-Advances}

-- What a turn does: it goes on behind `i`, or answers without a want of fuel.
pub body_turn-lt :
    (piece : ℕ → Piece) (size : ℕ)
    → ((i : ℕ) → i < size → Advances i (piece i))
    → (s s' : ℕ × Option Bytes) → body_turn piece size s ≡ inr s'
    → (size - s'.0 < size - s.0) × Unit {0}
body_turn-lt piece size advances (i, b) s' e = elim (Bool-cases (ltb i size)) [
  | inr over ↦
      absurd (let t : body_turn piece size (i, b) ≡ inl (ok b) = rw over refl in cc (sym t ∙ e))
  | inl inside ↦
      let h : i < size = ground (arith, inside) in
      let adv = advances i h in
      elim (Result-cases (piece i)) [
        | inl ((j, bs), p) ↦
            let t : body_turn piece size (i, b) ≡ inr (j, write b bs) = rw (inside, p) refl in
            let same : s' ≡ (j, write b bs) = cc (sym t ∙ e) in
            let lt : i < j = rw p at adv in (rw same (omega (arith, lt, h)), tt)
        | inr (bad, p) ↦ absurd (
            let t : body_turn piece size (i, b) ≡ inl (err bad) = rw (inside, p) refl in
            cc (sym t ∙ e))
      ]
]

abbrev pub HasFuel {ℓ} : {A : Type ℓ} → Result DecodeError A → Type 0
HasFuel (err e) = is_no_fuel e ≡ false
HasFuel (ok a) = Unit {0}

body_turn-HasFuel :
    (piece : ℕ → Piece) (size : ℕ)
    → ((i : ℕ) → i < size → Advances i (piece i))
    → (s : ℕ × Option Bytes) (r : Result DecodeError (Option Bytes))
    → body_turn piece size s ≡ inl r
    → HasFuel r
body_turn-HasFuel piece size advances (i, b) r e = elim (Bool-cases (ltb i size)) [
  | inr over ↦
      let t : body_turn piece size (i, b) ≡ inl (ok b) = rw over refl in
      let same : r ≡ ok b = cc (sym t ∙ e) in rw same tt
  | inl inside ↦
      let h : i < size = ground (arith, inside) in
      let adv = advances i h in
      elim (Result-cases (piece i)) [
        | inl ((j, bs), p) ↦ absurd (
            let t : body_turn piece size (i, b) ≡ inr (j, write b bs) = rw (inside, p) refl in
            cc (sym t ∙ e))
        | inr (bad, p) ↦
            let t : body_turn piece size (i, b) ≡ inl (err bad) = rw (inside, p) refl in
            let same : r ≡ err bad = cc (sym t ∙ e) in rw same (rw p at adv)
      ]
]

scan_basic_string_body-HasFuel :
    (raw : Bytes) (multiline : Bool) (b : Option Bytes)
    → HasFuel (scan_basic_string_body raw multiline b)
unfolding scan_basic_string_body
scan_basic_string_body-HasFuel raw multiline b =
    let piece = body_piece raw multiline in
    let (last, r, at, answer, inv) =
      loop_ends (body_turn piece (length raw)) (err no_fuel) (λ s. length raw - s.0) (λ s. Unit {0})
        (λ s s' inv e. body_turn-lt piece (length raw) (body_piece-Advances raw multiline) s s' e)
        (suc (length raw)) (0, b) (omega arith) tt in
    rw answer (body_turn-HasFuel piece (length raw) (body_piece-Advances raw multiline) last r at)

built-HasFuel : (r : Result DecodeError (Option Bytes)) → HasFuel r → HasFuel (built r)
built-HasFuel (err e) h = h
built-HasFuel (ok none) h = tt
built-HasFuel (ok (some b)) h = tt

controls-HasFuel :
    (raw : Bytes) (multiline : Bool) (s : Bytes)
    → HasFuel (checked (validate_literal_string_body raw multiline) s)
unfolding validate_literal_string_body validate_string_controls string_control_error
controls-HasFuel raw multiline s =
    elim (Option-cases (prohibited_string_control_index raw multiline)) [
      | inl fine ↦ rw (validate_literal_string_body, validate_string_controls, fine) tt
      | inr (i, e) ↦ rw (validate_literal_string_body, validate_string_controls, e) refl
    ]

parse_basic_string_body-HasFuel :
    (raw : Bytes) (multiline : Bool) → HasFuel (parse_basic_string_body raw multiline)
parse_basic_string_body-HasFuel raw multiline =
    rw (parse_basic_string_body-scan_basic_string_body raw multiline) (
      built-HasFuel (scan_basic_string_body raw multiline (some []))
        (scan_basic_string_body-HasFuel raw multiline (some [])))

parse_string_kind-HasFuel :
    (body : Bytes) (kind : StringValueKind) → HasFuel (parse_string_kind body kind)
parse_string_kind-HasFuel body literal_string = controls-HasFuel body false body
parse_string_kind-HasFuel body multiline_literal = controls-HasFuel body true body
parse_string_kind-HasFuel body basic_string = parse_basic_string_body-HasFuel body false
parse_string_kind-HasFuel body multiline_basic = parse_basic_string_body-HasFuel body true

string_value_body-HasFuel : (raw : Bytes) → HasFuel (string_value_body raw)
unfolding string_value_body malformed_string_error
string_value_body-HasFuel raw = ground arith

pub parse_string_value-HasFuel : (raw : Bytes) → HasFuel (parse_string_value raw)
unfolding parse_string_value
parse_string_value-HasFuel raw =
    let head = string_value_body-HasFuel raw in
    elim (Result-cases (string_value_body raw)) [
      | inl ((body, kind), e) ↦ rw (parse_string_value, e) (parse_string_kind-HasFuel body kind)
      | inr (bad, e) ↦ rw (parse_string_value, e) (rw e at head)
    ]

-- `parseStringValue` comes to an end on every input: the fuel of its loop, one turn for each byte and one
-- more, is never used up.
pub parse_string_value-has_fuel : (raw : Bytes) → parse_string_value raw ≢ err no_fuel
parse_string_value-has_fuel raw e =
    let h = parse_string_value-HasFuel raw in let bad : true ≡ false = rw e at h in cc bad
