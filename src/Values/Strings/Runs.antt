-- ===== src/Values/Strings/Runs.antt =====
-- value.go: about the run of plain bytes that a turn over a string of one line takes at once.
use go_toml.Prelude.{
  ℕ, zero, suc, ◌+◌, ◌-◌, ◌<◌, ◌≡◌, refl, sym, ap, ◌∙◌, arith, inl, inr, Result, ok, err, Option,
  none, some, true, false, not, [], ◌∷◌, ◌++◌, Bytes, length, take, drop, get_or, ltb, leb, ◌==◌,
  Bool-cases, Result-cases, append-nil, append_assoc, drop-All,
}
use go_toml.Prelude.Loop.{loop, loop_fuel, loop-suc-inl, loop-suc-inr}
use go_toml.Prelude.Ends.{drop-cons}
use go_toml.Scan.{first_stop, basic_string_strict_stop}
use go_toml.Scan.Word.Bytewise.{AreBytes, IsByte}
use go_toml.Scan.Kernels.{scan_basic_string_strict_swar}
use go_toml.Scan.Kernels.First.{scan_basic_string_strict_swar-first_stop}
use go_toml.Decoder.State.{DecodeError, no_fuel}
use go_toml.Values.Strings.Fast.{goes_on, stops, parse_basic_string_body-scan_basic_string_body}
use go_toml.Values.Strings.Ends.{body_turn-lt}
use go_toml.Values.Strings.Advances.{byte_piece-Advances}
use go_toml.Values.Strings.{
  Piece, write, body_turn, byte_piece, plain_piece, run_piece, prohibited_string_control,
  scan_basic_string_body, built, parse_basic_string_body,
}

-- A byte that does not stop a run is taken as it is.
plain_byte :
    (c : ℕ)
    → basic_string_strict_stop c ≡ false
    → ((c == b'\\') ≡ false) × (prohibited_string_control c false ≡ false)
unfolding basic_string_strict_stop prohibited_string_control
plain_byte c h = ground arith

pub write-nil : (b : Option Bytes) → write b [] ≡ b
write-nil none = refl
write-nil (some b) = ap some (append-nil b)

pub write-append : (b : Option Bytes) (xs ys : Bytes) → write (write b xs) ys ≡ write b (xs ++ ys)
write-append none xs ys = refl
write-append (some b) xs ys = ap some (append_assoc b xs ys)

module _ (raw : Bytes) where
  pub takes_plain :
      (i c : ℕ) {rest : Bytes}
      → drop i raw ≡ c ∷ rest
      → basic_string_strict_stop c ≡ false
      → byte_piece raw false i ≡ ok (i + 1, c ∷ [])
  unfolding byte_piece plain_piece
  takes_plain i c at plain =
      let (no_escape, allowed) = plain_byte c plain in
      let (here, behind, inside) = drop-cons i raw at in
      let no_escape' : not (get_or raw i 0 == b'\\') ≡ true = rw here (ap not no_escape) in
      rw (byte_piece, no_escape', plain_piece, here, allowed) refl

  abbrev pub byte_loop : ℕ → ℕ → Option Bytes → Result DecodeError (Option Bytes)
  byte_loop fuel i b =
      loop (body_turn (byte_piece raw false) (length raw)) (err no_fuel) fuel (i, b)

  abbrev run_loop : ℕ → ℕ → Option Bytes → Result DecodeError (Option Bytes)
  run_loop fuel i b = loop (body_turn (run_piece raw) (length raw)) (err no_fuel) fuel (i, b)

  -- Bytes are taken one by one up to the stop, and need as much fuel.
  byte_loop-first_stop :
      (rest : Bytes) (i fuel : ℕ) (b : Option Bytes)
      → drop i raw ≡ rest
      → let n = first_stop basic_string_strict_stop rest in
        byte_loop (n + fuel) i b ≡ byte_loop fuel (i + n) (write b (take n rest))
  unfolding first_stop
  byte_loop-first_stop [] i fuel b at =
      let e0 : 0 + fuel ≡ fuel = omega arith in
      let e1 : i + 0 ≡ i = omega arith in rw (e0, e1, write-nil b) refl
  byte_loop-first_stop (c ∷ rest) i fuel b at = elim (Bool-cases (basic_string_strict_stop c)) [
    | inl stop ↦
        let e0 : 0 + fuel ≡ fuel = omega arith in
        let e1 : i + 0 ≡ i = omega arith in rw (stop, e0, e1, write-nil b) refl
    | inr plain ↦
        let n : ℕ = first_stop basic_string_strict_stop rest in
        let (here, behind, inside) = drop-cons i raw at in
        let more : not (ltb i (length raw)) ≡ false = ground (arith, inside) in
        let e0 : suc n + fuel ≡ suc (n + fuel) = omega arith in
        let e1 : i + suc n ≡ i + 1 + n = omega arith in
        rw (plain, e0, e1)
          (loop-suc-inr (body_turn (byte_piece raw false) (length raw)) (err no_fuel) (n + fuel)
              (i, b)
              (goes_on (byte_piece raw false) (length raw) i b more (takes_plain i c at plain))
            ∙ byte_loop-first_stop rest (i + 1) fuel (write b (c ∷ [])) behind
            ∙ ap (λ (o : Option Bytes). byte_loop fuel (i + 1 + n) o)
                (write-append b (c ∷ []) (take n rest)))
  ]

  pub byte_loop_fuel :
      (fuel fuel' i : ℕ) (b : Option Bytes)
      → length raw - i < fuel
      → length raw - i < fuel'
      → byte_loop fuel i b ≡ byte_loop fuel' i b
  byte_loop_fuel fuel fuel' i b h h' =
      loop_fuel (body_turn (byte_piece raw false) (length raw)) (err no_fuel)
        (λ s. length raw - s.0) (λ s. Unit {0})
        (λ s s' inv e.
          body_turn-lt (byte_piece raw false) (length raw) (λ i h. byte_piece-Advances raw false i)
            s s' e)
        fuel fuel' (i, b) h h' tt

  -- The turn that takes a run at once answers, or goes on, as the turns for its bytes and the one behind
  -- them do.
  module _ (bytes : AreBytes raw) where
    byte_loop-run :
        (fuel i : ℕ) (b : Option Bytes)
        → length raw - i < fuel
        → let n = scan_basic_string_strict_swar (drop i raw) in
          byte_loop fuel i b
          ≡ byte_loop (suc (length raw - (i + n))) (i + n) (write b (take n (drop i raw)))
    byte_loop-run fuel i b h =
        let n : ℕ = scan_basic_string_strict_swar (drop i raw) in
        let exact : n ≡ first_stop basic_string_strict_stop (drop i raw) =
          scan_basic_string_strict_swar-first_stop (drop i raw) (drop-All IsByte i raw bytes) in
        rw exact (
          byte_loop_fuel fuel
            (first_stop basic_string_strict_stop (drop i raw)
              + suc (length raw - (i + first_stop basic_string_strict_stop (drop i raw))))
            i b h (omega arith)
          ∙ byte_loop-first_stop (drop i raw) i
              (suc (length raw - (i + first_stop basic_string_strict_stop (drop i raw)))) b refl)

    loop_over :
        (piece : ℕ → Piece) (fuel i : ℕ) (b : Option Bytes)
        → not (ltb i (length raw)) ≡ true
        → 0 < fuel
        → loop (body_turn piece (length raw)) (err no_fuel) fuel (i, b) ≡ ok b
    loop_over piece zero i b over h = absurd (omega arith)
    loop_over piece (suc fuel) i b over h =
        let t : body_turn piece (length raw) (i, b) ≡ inl (ok b) = rw over refl in
        loop-suc-inl (body_turn piece (length raw)) (err no_fuel) fuel (i, b) t

    run_step :
        (fuel i : ℕ) (b : Option Bytes)
        → length raw - i < suc fuel
        → not (ltb i (length raw)) ≡ false
        → ((fuel' i : ℕ) (b : Option Bytes)
            → length raw - i < fuel
            → length raw - i < fuel'
            → run_loop fuel i b ≡ byte_loop fuel' i b)
        → let n = scan_basic_string_strict_swar (drop i raw) in
          run_loop (suc fuel) i b
          ≡ byte_loop (suc (length raw - (i + n))) (i + n) (write b (take n (drop i raw)))
    unfolding run_piece
    run_step fuel i b h more ih =
        let n : ℕ = scan_basic_string_strict_swar (drop i raw) in
        let run : Bytes = take n (drop i raw) in
        let inside : i < length raw = ground (arith, more) in
        let run_turn = body_turn (run_piece raw) (length raw) in
        let byte_turn = body_turn (byte_piece raw false) (length raw) in
        let later = byte_piece-Advances raw false (i + n) in
        elim (Bool-cases (leb (length raw) (i + n))) [
          | inl over ↦
              let piece : run_piece raw i ≡ ok (i + n, run) = rw (run_piece, over) refl in
              let past : not (ltb (i + n) (length raw)) ≡ true = ground (arith, over) in
              loop-suc-inr run_turn (err no_fuel) fuel (i, b)
                (goes_on (run_piece raw) (length raw) i b more piece)
              ∙ loop_over (run_piece raw) fuel (i + n) (write b run) past (omega (arith, inside, h))
              ∙ sym (
                  loop_over (byte_piece raw false) (suc (length raw - (i + n))) (i + n)
                    (write b run) past (omega arith))
          | inr under ↦
              let before : i + n < length raw = ground (arith, under) in
              let more' : not (ltb (i + n) (length raw)) ≡ false = ground (arith, before) in
              elim (Result-cases (byte_piece raw false (i + n))) [
                | inr (bad, e) ↦
                    let piece : run_piece raw i ≡ err bad = rw (run_piece, under, e) refl in
                    loop-suc-inl run_turn (err no_fuel) fuel (i, b)
                      (stops (run_piece raw) (length raw) i b more piece)
                    ∙ sym (
                        loop-suc-inl byte_turn (err no_fuel) (length raw - (i + n))
                          (i + n, write b run)
                          (stops (byte_piece raw false) (length raw) (i + n) (write b run) more' e))
                | inl ((j, bs), e) ↦
                    let piece : run_piece raw i ≡ ok (j, run ++ bs) =
                      rw (run_piece, under, e) refl in
                    let lt : i + n < j = rw e at later in
                    loop-suc-inr run_turn (err no_fuel) fuel (i, b)
                      (goes_on (run_piece raw) (length raw) i b more piece)
                    ∙ ih (length raw - (i + n)) j (write b (run ++ bs))
                        (omega (arith, lt, h, before)) (omega (arith, lt, before))
                    ∙ ap (λ (o : Option Bytes). byte_loop (length raw - (i + n)) j o)
                        (sym (write-append b run bs))
                    ∙ sym (
                        loop-suc-inr byte_turn (err no_fuel) (length raw - (i + n))
                          (i + n, write b run)
                          (goes_on (byte_piece raw false) (length raw) (i + n) (write b run) more'
                            e))
              ]
        ]

    run_loop-byte_loop :
        (fuel fuel' i : ℕ) (b : Option Bytes)
        → length raw - i < fuel
        → length raw - i < fuel'
        → run_loop fuel i b ≡ byte_loop fuel' i b
    run_loop-byte_loop zero fuel' i b h h' = absurd (omega arith)
    run_loop-byte_loop (suc fuel) fuel' i b h h' = elim (Bool-cases (not (ltb i (length raw)))) [
      | inl over ↦
          loop_over (run_piece raw) (suc fuel) i b over (omega arith)
          ∙ sym (loop_over (byte_piece raw false) fuel' i b over (omega (arith, h')))
      | inr more ↦
          run_step fuel i b h more (run_loop-byte_loop fuel) ∙ sym (byte_loop-run fuel' i b h')
    ]

-- The loop that looks at every byte of a body of one line by itself.
unfoldable pub read_bytes : Bytes → Option Bytes → Result DecodeError (Option Bytes)
unfolding loop byte_piece
read_bytes raw b =
    loop (body_turn (byte_piece raw false) (length raw)) (err no_fuel) (suc (length raw)) (0, b)

-- On bytes, `scanBasicStringBody` of a string of one line, which takes runs of plain bytes at once, gives
-- the text or the error of a loop that looks at every byte by itself.
pub scan_basic_string_body-read_bytes :
    (raw : Bytes) (b : Option Bytes)
    → AreBytes raw
    → scan_basic_string_body raw false b ≡ read_bytes raw b
unfolding scan_basic_string_body read_bytes
scan_basic_string_body-read_bytes raw b bytes =
    run_loop-byte_loop raw bytes (suc (length raw)) (suc (length raw)) 0 b (omega arith)
      (omega arith)

-- On bytes, `parseBasicStringBody` of a string of one line, with its fast path and with the runs of plain
-- bytes that `scanBasicStringBody` takes at once, gives the text or the error of a loop that looks at
-- every byte by itself.
pub parse_basic_string_body-read_bytes :
    (raw : Bytes)
    → AreBytes raw
    → parse_basic_string_body raw false ≡ built (read_bytes raw (some []))
parse_basic_string_body-read_bytes raw bytes =
    parse_basic_string_body-scan_basic_string_body raw false
    ∙ ap built (scan_basic_string_body-read_bytes raw (some []) bytes)
