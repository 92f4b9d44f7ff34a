-- ===== src/Decoder/Steady.antt =====
-- decoder.go: the flags that `readToken` keeps in step, and the end of its loop.
use go_toml.Prelude.{
  ℕ, zero, suc, ◌+◌, ◌-◌, ◌<◌, ◌≡◌, ◌⊎◌, refl, sym, ap, ◌∙◌, arith, inl, inr, err, Option, none,
  some, Bool, true, false, not, ◌&&◌, ◌||◌, [], ◌∷◌, Bytes, length, drop, get_or, ltb, leb, ◌==◌,
  if◌then◌else◌, drop-add,
}
use go_toml.Prelude.Loop.{loop, loop_ends}
use go_toml.Decoder.State.{Decoder, DecodeError, no_fuel, byte_at, Readers, Outcome}
use go_toml.Decoder.Spaces.{skip_spaces, skip_spaces-Skipped, space_at, AtBoundary}
use go_toml.Decoder.Read.{
  read_turn, read_token, dispatch, behind_comma, read_behind_spaces, token_at, at_end,
  syntax_outcome, match_double_bracket,
}
use go_toml.Decoder.Keys.{scan_comment, scan_table_header, scan_array_table_header}

-- While the value behind an equals sign is awaited on its line, nothing else is.
pub record Steady (d : Decoder) : Type 0 where
  pub awaits :
      (not d.value_no_newline || (d.expecting_value && not d.need_line_end && not d.need_separator))
      ≡ true
  pub parted : (not d.need_separator || ltb 0 d.containers.container_depth) ≡ true

pub skip_spaces-Steady : (d : Decoder) → Steady d → Steady (skip_spaces d)
skip_spaces-Steady d h =
    let s = skip_spaces-Skipped d in
    record {
      awaits =
          ground (arith, h.awaits, s.same_newline, s.same_expecting, s.same_separator, s.line_end);
      parted = rw (s.same_separator, s.same_containers) h.parted;
    }

-- Tests that all leave the loop but for one way on.
module _ {R S : Type 0} where
  one_way :
      (b : Bool) (s : S) (r : R) {s' : S}
      → (if b then inr s else inl r) ≡ inr s'
      → (b ≡ true) × (s' ≡ s)
  one_way true s r h = (refl, ground (arith, h))
  one_way false s r h = absurd (ground (arith, h))

  goes_on :
      (b : Bool) (r : R) (t : R ⊎ S) {s' : S}
      → (if b then inl r else t) ≡ inr s'
      → (b ≡ false) × (t ≡ inr s')
  goes_on true r t h = absurd (ground (arith, h))
  goes_on false r t h = (refl, h)

  two_ways :
      (end bare line hash newline double header : Bool) (r1 r2 r3 r4 r5 r6 : R) (same : S)
      (rest : R ⊎ S) {s' : S}
      → (if end
          then inl r1
          else if bare
          then inl r2
          else if line
          then (if hash then inl r3 else if newline then inr same else inl r4)
          else if double
          then inl r5
          else if header
          then inl r6
          else rest)
        ≡ inr s'
      → (end ≡ false) × ((line ≡ true) × (newline ≡ true) ⊎ (rest ≡ inr s'))
  two_ways true bare line hash newline double header r1 r2 r3 r4 r5 r6 same rest h =
      absurd (ground (arith, h))
  two_ways false true line hash newline double header r1 r2 r3 r4 r5 r6 same rest h =
      absurd (ground (arith, h))
  two_ways false false true true newline double header r1 r2 r3 r4 r5 r6 same rest h =
      absurd (ground (arith, h))
  two_ways false false true false true double header r1 r2 r3 r4 r5 r6 same rest h =
      (refl, inl (refl, refl))
  two_ways false false true false false double header r1 r2 r3 r4 r5 r6 same rest h =
      absurd (ground (arith, h))
  two_ways false false false hash newline true header r1 r2 r3 r4 r5 r6 same rest h =
      absurd (ground (arith, h))
  two_ways false false false hash newline false true r1 r2 r3 r4 r5 r6 same rest h =
      absurd (ground (arith, h))
  two_ways false false false hash newline false false r1 r2 r3 r4 r5 r6 same rest h = (refl, inr h)

dispatch-behind_comma :
    (readers : Readers) (d d' : Decoder)
    → dispatch readers d ≡ inr d'
    → ((byte_at d d.off == b',' && d.need_separator) ≡ true) × (d' ≡ behind_comma d)
unfolding dispatch
dispatch-behind_comma readers d d' h =
    one_way (byte_at d d.off == b',' && d.need_separator) (behind_comma d) (token_at readers d) h

-- A turn goes on behind a comma, or at a newline that the blanks have not taken.
read_goes_on :
    (readers : Readers) (d d' : Decoder)
    → read_behind_spaces readers d ≡ inr d'
    → (leb (length d.buf) d.off ≡ false)
      × ((d.need_line_end ≡ true) × ((byte_at d d.off == b'\n') ≡ true)
          ⊎ (dispatch readers d ≡ inr d'))
unfolding read_behind_spaces
read_goes_on readers d d' h =
    let ch : ℕ = byte_at d d.off in
    two_ways (leb (length d.buf) d.off)
      (ch == b'\r' && (leb (length d.buf) (d.off + 1) || not (byte_at d (d.off + 1) == b'\n')))
      d.need_line_end (ch == b'#') (ch == b'\n')
      (d.at_line_start && not d.expecting_value && match_double_bracket d)
      (d.at_line_start && not d.expecting_value && ch == b'[') (at_end d)
      (syntax_outcome d "bare carriage return" d.off) (scan_comment d)
      (syntax_outcome d "expected newline" d.off) (scan_array_table_header readers d)
      (scan_table_header readers d) d (dispatch readers d) h

newline_boundary :
    (rest : Bytes) (no_newline : Bool)
    → AtBoundary rest no_newline
    → no_newline ≡ false
    → (get_or rest 0 0 == b'\n') ≡ true
    → ⊥
unfolding space_at
newline_boundary [] no_newline h off e = ground (arith, e)
newline_boundary (b ∷ []) no_newline h off e = ground (arith, h, off, e)
newline_boundary (b ∷ c ∷ rest) no_newline h off e = ground (arith, h, off, e)

get_or-drop : (k : ℕ) (xs : Bytes) → get_or xs k 0 ≡ get_or (drop k xs) 0 0
get_or-drop zero xs = refl
get_or-drop (suc k) [] = refl
get_or-drop (suc k) (x ∷ xs) = get_or-drop k xs

behind_comma-Steady : (d : Decoder) → Steady d → d.need_separator ≡ true → Steady (behind_comma d)
unfolding behind_comma
behind_comma-Steady d h sep = record { awaits = ground (arith, h.awaits); parted = refl }

-- A newline does not stay in front of a decoder that waits for the end of a line.
newline_taken :
    (d : Decoder)
    → Steady d
    → (skip_spaces d).need_line_end ≡ true
    → (byte_at (skip_spaces d) (skip_spaces d).off == b'\n') ≡ true
    → ⊥
newline_taken d h line newline =
    let s = skip_spaces-Skipped d in
    let steady = skip_spaces-Steady d h in
    let here : drop s.count (drop d.off d.buf) ≡ drop (skip_spaces d).off (skip_spaces d).buf =
      drop-add s.count d.off d.buf ∙ (λ j. drop (sym s.moved j) (sym s.same_buf j)) in
    let byte : get_or (drop s.count (drop d.off d.buf)) 0 0
        ≡ byte_at (skip_spaces d) (skip_spaces d).off =
      ap (λ t. get_or t 0 0) here ∙ sym (get_or-drop (skip_spaces d).off (skip_spaces d).buf) in
    newline_boundary (drop s.count (drop d.off d.buf)) d.value_no_newline s.stops
      (sym s.same_newline ∙ ground (arith, steady.awaits, line)) (rw byte newline)

-- The bytes that are left.
abbrev pub left : Decoder → ℕ
left d = length d.buf - d.off

leb-false : (a b : ℕ) → leb a b ≡ false → b < a
leb-false a b h = ground arith

comma_left : (d : Decoder) → d.off < length d.buf → left (behind_comma d) < left d
unfolding behind_comma
comma_left d h = omega arith

read_turn-Steady :
    (readers : Readers) (d d' : Decoder)
    → Steady d
    → read_turn readers d ≡ inr d'
    → (left d' < left d) × Steady d'
unfolding read_turn
read_turn-Steady readers d d' h e =
    let s = skip_spaces-Skipped d in
    let steady = skip_spaces-Steady d h in
    let (inside, turn) =
      goes_on (leb (length d.buf) d.off) (at_end d) (read_behind_spaces readers (skip_spaces d))
        e in
    let (here, ways) = read_goes_on readers (skip_spaces d) d' turn in
    elim ways [
      | inl (line, newline) ↦ absurd (newline_taken d h line newline)
      | inr comma ↦
          let (test, same) = dispatch-behind_comma readers (skip_spaces d) d' comma in
          rw same (
            omega (
              arith,
              comma_left (skip_spaces d)
                  (leb-false (length (skip_spaces d).buf) (skip_spaces d).off here),
              ap length s.same_buf,
              s.moved,
            ),
            behind_comma-Steady (skip_spaces d) steady (ground (arith, test)),
          )
    ]

fresh_read :
    (readers : Readers) (d : Decoder)
    → d.error ≡ none
    → read_token readers d ≡ loop (read_turn readers) (err no_fuel, d) (suc (length d.buf)) d
unfolding read_token
fresh_read readers d fresh =
    ap
      (λ (e : Option DecodeError). elim e [
        | some e' ↦ let o : Outcome = (err e', d) in o
        | none ↦ loop (read_turn readers) (err no_fuel, d) (suc (length d.buf)) d
      ])
      fresh

-- From a decoder whose flags are in step and that has not failed, `readToken` ends: some turn of its
-- loop leaves it, in a state whose flags are in step again, and what that turn hands out is the answer.
pub read_token-read_turn :
    (readers : Readers) (d : Decoder)
    → Steady d
    → d.error ≡ none
    → (last : Decoder) × (o : Outcome) × (read_turn readers last ≡ inl o)
      × (read_token readers d ≡ o)
      × Steady last
read_token-read_turn readers d h fresh =
    let (last, o, at, answer, steady) =
      loop_ends (read_turn readers) (err no_fuel, d) left Steady
        (λ s s' hs e. read_turn-Steady readers s s' hs e) (suc (length d.buf)) d (omega arith) h in
    (last, o, at, fresh_read readers d fresh ∙ answer, steady)
