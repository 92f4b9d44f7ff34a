-- ===== src/Values/Strings/Fast.antt =====
-- value.go: about the fast paths over the body of a basic string.
use go_toml.Prelude.{
  ℕ, zero, suc, ◌+◌, ◌<◌, ◌≡◌, refl, sym, ap, ◌∙◌, arith, inl, inr, Result, ok, err, Option, none,
  some, Bool, true, false, not, ◌&&◌, [], ◌∷◌, ◌++◌, Bytes, length, take, drop, get_or, ltb, leb,
  ◌==◌, Bool-cases, length-drop, append-nil, append_assoc, ==_iff,
}
use go_toml.Prelude.Loop.{loop, loop-suc-inl, loop-suc-inr}
use go_toml.Prelude.Ends.{take_all, drop-cons}
use go_toml.Scan.{first_stop}
use go_toml.Scan.Kernels.{scan_basic_string_strict_swar}
use go_toml.Decoder.State.{DecodeError, no_fuel}
use go_toml.Decoder.Strings.{string_control_error}
use go_toml.Values.Strings.{
  Piece, write, body_turn, byte_piece, plain_piece, run_piece, prohibited_string_control,
  control_from, prohibited_string_control_index, validate_string_controls, scan_basic_string_body,
  built, checked, parse_basic_string_body, crlf_at,
}

-- A turn that goes on.
pub goes_on :
    (piece : ℕ → Piece) (size i : ℕ) (b : Option Bytes) {j : ℕ} {bs : Bytes}
    → not (ltb i size) ≡ false
    → piece i ≡ ok (j, bs)
    → body_turn piece size (i, b) ≡ inr (j, write b bs)
goes_on piece size i b more e = rw (more, e) refl

pub stops :
    (piece : ℕ → Piece) (size i : ℕ) (b : Option Bytes) {e : DecodeError}
    → not (ltb i size) ≡ false
    → piece i ≡ err e
    → body_turn piece size (i, b) ≡ inl (err e)
stops piece size i b more e = rw (more, e) refl

-- The fast path of a string of one line: its run is the whole body.
scan_basic_string_body_run :
    (raw : Bytes)
    → (scan_basic_string_strict_swar raw == length raw) ≡ true
    → built (scan_basic_string_body raw false (some [])) ≡ ok raw
unfolding scan_basic_string_body
scan_basic_string_body_run [] whole = refl
scan_basic_string_body_run (c ∷ raw) whole =
    let n : ℕ = scan_basic_string_strict_swar (c ∷ raw) in
    let full : n ≡ suc (length raw) = (==_iff n (suc (length raw))).0 whole in
    let over : leb (length (c ∷ raw)) (0 + n) ≡ true = ground (arith, full) in
    let done : not (ltb (0 + n) (length (c ∷ raw))) ≡ true = ground (arith, full) in
    let turn = body_turn (run_piece (c ∷ raw)) (length (c ∷ raw)) in
    let whole_run : run_piece (c ∷ raw) 0 ≡ ok (0 + n, take n (c ∷ raw)) =
      rw (run_piece, over) refl in
    let one : turn (0, some []) ≡ inr (0 + n, some (take n (c ∷ raw))) =
      goes_on (run_piece (c ∷ raw)) (length (c ∷ raw)) 0 (some []) (ground arith) whole_run in
    let answer : scan_basic_string_body (c ∷ raw) false (some []) ≡ ok (some (take n (c ∷ raw))) =
      loop-suc-inr turn (err no_fuel) (suc (length raw)) (0, some []) one
      ∙ loop-suc-inl turn (err no_fuel) (length raw) (0 + n, some (take n (c ∷ raw)))
          (rw done refl) in
    ap built answer ∙ ap ok (take_all n (c ∷ raw) (omega (arith, full)))

-- The byte at `i`, which is `c`, in a body of several lines.
module _ (raw : Bytes) (i c : ℕ) (rest : Bytes) (at : drop i raw ≡ c ∷ rest)
    (plain : (c == b'\\') ≡ false) where
  plain_at : byte_piece raw true i ≡ plain_piece raw true i
  unfolding byte_piece
  plain_at =
      let (here, behind, inside) = drop-cons i raw at in
      let no_escape : not (get_or raw i 0 == b'\\') ≡ true = rw here (ap not plain) in
      rw no_escape refl

  takes_crlf :
      crlf_at (c ∷ rest) true ≡ true → byte_piece raw true i ≡ ok (i + 2, b'\r' ∷ b'\n' ∷ [])
  unfolding plain_piece
  takes_crlf newline =
      let there : crlf_at (drop i raw) true ≡ true = rw at newline in
      plain_at ∙ rw (plain_piece, there) refl

  takes_byte :
      crlf_at (c ∷ rest) true ≡ false
      → prohibited_string_control c true ≡ false
      → byte_piece raw true i ≡ ok (i + 1, c ∷ [])
  unfolding plain_piece
  takes_byte no_newline allowed =
      let (here, behind, inside) = drop-cons i raw at in
      let there : crlf_at (drop i raw) true ≡ false = rw at no_newline in
      plain_at ∙ rw (plain_piece, there, here, allowed) refl

  refuses_byte :
      crlf_at (c ∷ rest) true ≡ false
      → prohibited_string_control c true ≡ true
      → byte_piece raw true i ≡ err (string_control_error raw i)
  unfolding plain_piece
  refuses_byte no_newline prohibited =
      let (here, behind, inside) = drop-cons i raw at in
      let there : crlf_at (drop i raw) true ≡ false = rw at no_newline in
      plain_at ∙ rw (plain_piece, there, here, prohibited) refl

abbrev controls_answer : Bytes → Option ℕ → Bytes → Result DecodeError (Option Bytes)
controls_answer raw (some idx) s = err (string_control_error raw idx)
controls_answer raw none s = ok (some s)

abbrev no_backslash : Bytes → Bool
no_backslash [] = true
no_backslash (c ∷ rest) = not (c == b'\\') && no_backslash rest

plain_head :
    (c : ℕ) (rest : Bytes)
    → no_backslash (c ∷ rest) ≡ true
    → ((c == b'\\') ≡ false) × (no_backslash rest ≡ true)
plain_head c rest h = ground arith

pub drop_past_two :
    (i : ℕ) (raw : Bytes) {c d : ℕ} {rest : Bytes}
    → drop i raw ≡ c ∷ d ∷ rest
    → drop (i + 2) raw ≡ rest
drop_past_two i raw e =
    let (h1, b1, i1) = drop-cons i raw e in
    let (h2, b2, i2) = drop-cons (i + 1) raw b1 in
    let two : i + 2 ≡ i + 1 + 1 = omega arith in rw two b2

pub drop-nil_over : (i : ℕ) (raw : Bytes) → drop i raw ≡ [] → not (ltb i (length raw)) ≡ true
drop-nil_over i raw e = ground (arith, length-drop i raw, ap length e)

crlf_at_two : (c d : ℕ) (rest : Bytes) → crlf_at (c ∷ d ∷ rest) true ≡ (c == b'\r' && d == b'\n')
crlf_at_two c d rest = let two : ltb 1 (length (c ∷ d ∷ rest)) ≡ true = ground arith in rw two refl

controls_answer-append :
    (raw : Bytes) (o : Option ℕ) (b c s : Bytes)
    → controls_answer raw o ((b ++ c) ++ s) ≡ controls_answer raw o (b ++ (c ++ s))
controls_answer-append raw o b c s = ap (controls_answer raw o) (append_assoc b c s)

pub inside_at :
    (i : ℕ) (raw : Bytes) {c : ℕ} {rest : Bytes}
    → drop i raw ≡ c ∷ rest
    → not (ltb i (length raw)) ≡ false
inside_at i raw e = let (here, behind, inside) = drop-cons i raw e in ground (arith, inside)

-- The loop over several lines, where no byte is a backslash, is the search for a control character.
module _ (raw : Bytes) where
  abbrev lines_loop : ℕ → ℕ → Bytes → Result DecodeError (Option Bytes)
  lines_loop fuel i b =
      loop (body_turn (byte_piece raw true) (length raw)) (err no_fuel) fuel (i, some b)

  loop_on :
      (fuel i : ℕ) (b : Bytes) {j c : ℕ} {bs rest : Bytes}
      → drop i raw ≡ c ∷ rest
      → byte_piece raw true i ≡ ok (j, bs)
      → lines_loop (suc fuel) i b ≡ lines_loop fuel j (b ++ bs)
  loop_on fuel i b at piece =
      loop-suc-inr (body_turn (byte_piece raw true) (length raw)) (err no_fuel) fuel (i, some b)
        (goes_on (byte_piece raw true) (length raw) i (some b) (inside_at i raw at) piece)

  loop_stop :
      (fuel i : ℕ) (b : Bytes) {c : ℕ} {rest : Bytes} {e : DecodeError}
      → drop i raw ≡ c ∷ rest
      → byte_piece raw true i ≡ err e
      → lines_loop (suc fuel) i b ≡ err e
  loop_stop fuel i b at piece =
      loop-suc-inl (body_turn (byte_piece raw true) (length raw)) (err no_fuel) fuel (i, some b)
        (stops (byte_piece raw true) (length raw) i (some b) (inside_at i raw at) piece)

  controls_loop :
      (fuel i : ℕ) (rest b : Bytes)
      → drop i raw ≡ rest
      → no_backslash rest ≡ true
      → length rest < fuel
      → lines_loop fuel i b ≡ controls_answer raw (control_from true i rest) (b ++ rest)
  unfolding control_from
  controls_loop zero i rest b at plain h = absurd (omega arith)
  controls_loop (suc fuel) i [] b at plain h =
      loop-suc-inl (body_turn (byte_piece raw true) (length raw)) (err no_fuel) fuel (i, some b)
        (rw (drop-nil_over i raw at) refl)
      ∙ ap (λ s. ok (some s)) (sym (append-nil b))
  controls_loop (suc fuel) i (c ∷ []) b at plain h =
      let (no_escape, plain') = plain_head c [] plain in
      elim (Bool-cases (prohibited_string_control c true)) [
        | inl bad ↦
            rw (control_from, bad)
              (loop_stop fuel i b at (refuses_byte raw i c [] at no_escape refl bad))
        | inr fine ↦
            let (here, behind, inside) = drop-cons i raw at in
            rw (control_from, fine)
              (loop_on fuel i b at (takes_byte raw i c [] at no_escape refl fine)
                ∙ controls_loop fuel (i + 1) [] (b ++ c ∷ []) behind plain' (omega arith)
                ∙ controls_answer-append raw none b (c ∷ []) [])
      ]
  controls_loop (suc fuel) i (c ∷ d ∷ rest) b at plain h =
      let (no_escape, plain') = plain_head c (d ∷ rest) plain in
      let (no_escape', plain'') = plain_head d rest plain' in
      let same = crlf_at_two c d rest in
      elim (Bool-cases (c == b'\r' && d == b'\n')) [
        | inl newline ↦
            let crlf : (b'\r' ∷ b'\n' ∷ rest) ≡ c ∷ d ∷ rest = ground (arith, newline) in
            rw (control_from, newline)
              (loop_on fuel i b at (takes_crlf raw i c (d ∷ rest) at no_escape (same ∙ newline))
                ∙ controls_loop fuel (i + 2) rest (b ++ b'\r' ∷ b'\n' ∷ []) (drop_past_two i raw at)
                    plain'' (omega arith)
                ∙ controls_answer-append raw (control_from true (i + 2) rest) b (b'\r' ∷ b'\n' ∷ [])
                    rest
                ∙ ap (λ t. controls_answer raw (control_from true (i + 2) rest) (b ++ t)) crlf)
        | inr other ↦ elim (Bool-cases (prohibited_string_control c true)) [
          | inl bad ↦
              rw (control_from, other, bad)
                (loop_stop fuel i b at
                  (refuses_byte raw i c (d ∷ rest) at no_escape (same ∙ other) bad))
          | inr fine ↦
              let (here, behind, inside) = drop-cons i raw at in
              rw (control_from, other, fine)
                (loop_on fuel i b at
                    (takes_byte raw i c (d ∷ rest) at no_escape (same ∙ other) fine)
                  ∙ controls_loop fuel (i + 1) (d ∷ rest) (b ++ c ∷ []) behind plain' (omega arith)
                  ∙ controls_answer-append raw (control_from true (i + 1) (d ∷ rest)) b (c ∷ [])
                      (d ∷ rest))
        ]
      ]

no_backslash-first_stop :
    (raw : Bytes)
    → (first_stop (λ c. c == b'\\') raw == length raw) ≡ true
    → no_backslash raw ≡ true
unfolding first_stop
no_backslash-first_stop [] h = refl
no_backslash-first_stop (c ∷ raw) h = elim (Bool-cases (c == b'\\')) [
  | inl here ↦ absurd (ground (arith, h, here))
  | inr other ↦ rw other (no_backslash-first_stop raw (ground (arith, h, other)))
]

checked-controls :
    (raw : Bytes) (o : Option ℕ)
    → built (controls_answer raw o raw)
      ≡ checked (elim o [ some idx ↦ some (string_control_error raw idx) | none ↦ none ]) raw
checked-controls raw none = refl
checked-controls raw (some idx) = refl

-- The fast path of a string of several lines.
scan_basic_string_body_lines :
    (raw : Bytes)
    → no_backslash raw ≡ true
    → built (scan_basic_string_body raw true (some []))
      ≡ checked (validate_string_controls raw true) raw
unfolding scan_basic_string_body validate_string_controls prohibited_string_control_index
scan_basic_string_body_lines raw plain =
    ap built (controls_loop raw (suc (length raw)) 0 raw [] refl plain (omega arith))
    ∙ checked-controls raw (control_from true 0 raw)

-- `parseBasicStringBody` answers as `scanBasicStringBody` with a builder does, on its two fast paths as
-- on the other one.
pub parse_basic_string_body-scan_basic_string_body :
    (raw : Bytes) (multiline : Bool)
    → parse_basic_string_body raw multiline ≡ built (scan_basic_string_body raw multiline (some []))
unfolding parse_basic_string_body
parse_basic_string_body-scan_basic_string_body raw false =
    elim (Bool-cases (scan_basic_string_strict_swar raw == length raw)) [
      | inl whole ↦ rw whole (sym (scan_basic_string_body_run raw whole))
      | inr part ↦ rw part refl
    ]
parse_basic_string_body-scan_basic_string_body raw true =
    elim (Bool-cases (first_stop (λ c. c == b'\\') raw == length raw)) [
      | inl plain ↦
          rw plain (sym (scan_basic_string_body_lines raw (no_backslash-first_stop raw plain)))
      | inr escapes ↦ rw escapes refl
    ]
