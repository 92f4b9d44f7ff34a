-- ===== src/Decoder/StringEnds.antt =====
-- decoder.go: about the ends of the loops of `scanString`.
use go_toml.Prelude.{
  ℕ, suc, ◌+◌, ◌-◌, ◌<◌, ◌≡◌, ◌⊎◌, refl, sym, ap, ◌∙◌, arith, inl, inr, Result, ok, err, Bool, true,
  false, not, ◌||◌, [], ◌∷◌, Bytes, length, drop, get_or, ltb, leb, ◌==◌, min, if◌then◌else◌,
  length-drop, Bool-cases, drop-All,
}
use go_toml.Prelude.Loop.{loop, loop_ends}
use go_toml.Scan.Word.Bytewise.{AreBytes, IsByte}
use go_toml.Scan.Kernels.{
  scan_literal_string_swar, scan_basic_string_swar, scan_basic_string_strict_swar,
}
use go_toml.Scan.Kernels.First.{scan_literal_string_swar-first_stop}
use go_toml.Decoder.State.{Decoder, Failure, returned, no_fuel, byte_at, syntax_fail, Readers}
use go_toml.Decoder.Strings.{
  StringEnd, validated, count_byte_run, has_triple_prefix, string_control_error,
  multiline_basic_turn, multiline_literal_turn, basic_turn, scan_literal, scan_string,
}
use go_toml.Decoder.Ends.{first_stop_at, get_or-drop}

-- A run of quotes that begins with a quote is not empty.
count_byte_run-lt :
    (q : ℕ) (raw : Bytes)
    → leb (length raw) 0 ≡ false
    → (get_or raw 0 0 == q) ≡ true
    → 0 < count_byte_run raw q
unfolding count_byte_run
count_byte_run-lt q [] h e = absurd (ground (arith, h))
count_byte_run-lt q (c ∷ raw) h e = rw e (omega arith)

module _ {R S : Type 0} where
  multiline_ways :
      (outside past escape past' quote three : Bool) (u u' v w : R) (n1 n2 n3 : S) {s : S}
      → (if outside
          then inl u
          else if past
          then inl u
          else if escape
          then (if past' then inl u' else inr n1)
          else if quote
          then (if three then inl v else inr n2)
          else inr n3)
        ≡ inr s
      → (outside ≡ false) × (past ≡ false) × ((s ≡ n1) ⊎ ((quote ≡ true) × (s ≡ n2)) ⊎ (s ≡ n3))
  multiline_ways outside past escape past' quote three u u' v w n1 n2 n3 h = ground (arith, h)

  literal_ways :
      (outside past three : Bool) (u v : R) (n : S) {s : S}
      → (if outside then inl u else if past then inl u else if three then inl v else inr n) ≡ inr s
      → (outside ≡ false) × (past ≡ false) × (s ≡ n)
  literal_ways outside past three u v n h = ground (arith, h)

  basic_ways :
      (outside past newline escape past' quote closed : Bool) (u v w x : R) (n : S) {s : S}
      → (if outside
          then inl u
          else if past
          then inl u
          else if newline
          then inl u
          else if escape
          then (if past' then inl u else inr n)
          else if quote
          then (if closed then inl v else inl w)
          else inl x)
        ≡ inr s
      → (outside ≡ false) × (s ≡ n)
  basic_ways outside past newline escape past' quote closed u v w x n h = ground (arith, h)

onward :
    (start size next : ℕ)
    → not (ltb start size) ≡ false
    → start < next
    → (size - next < size - start) × (start < next)
onward start size next inside more =
    let under : start < size = ground (arith, inside) in (omega (arith, under, more), more)

-- The run of quotes at `at`, in front of the end of the text.
run_there :
    (d : Decoder) (q at : ℕ)
    → leb (length d.buf) at ≡ false
    → (byte_at d at == q) ≡ true
    → 0 < count_byte_run (drop at d.buf) q
run_there d q at inside hit =
    let same : get_or (drop at d.buf) 0 0 ≡ byte_at d at =
      sym (get_or-drop at 0 d.buf)
      ∙ ap (λ (j : ℕ). get_or d.buf j 0) (let e : at + 0 ≡ at = omega arith in e) in
    count_byte_run-lt q (drop at d.buf) (ground (arith, length-drop at d.buf, inside)) (rw same hit)

module _ (readers : Readers) (d : Decoder) (off : ℕ) where
  multiline_basic_turn-lt :
      (start start' : ℕ) (free free' : Bool)
      → multiline_basic_turn readers d off (start, free) ≡ inr (start', free')
      → (length d.buf - start' < length d.buf - start) × (start < start')
  unfolding multiline_basic_turn
  multiline_basic_turn-lt start start' free free' h =
      let end : ℕ = start + scan_basic_string_swar (drop start d.buf) in
      let run : ℕ = count_byte_run (drop end d.buf) b'"' in
      let (inside, over, ways) =
        multiline_ways (not (ltb start (length d.buf))) (leb (length d.buf) end)
          (byte_at d end == b'\\') (leb (length d.buf) (end + 1)) (byte_at d end == b'"')
          (leb 3 run) (syntax_fail d "unterminated multiline string" off)
          (syntax_fail d "unterminated string escape" end)
          (validated readers d off (end + min run 5) (end + min run 5, free))
          (validated readers d off (end + min run 5) (end + min run 5, free)) (end + 2, false)
          (end + run, free) (end + 1, free) h in
      onward start (length d.buf) start' inside (elim ways [
        | inl e ↦ let e' : start' ≡ end + 2 = ap (λ p. p.0) e in omega (arith, e')
        | inr (inl (quote, e)) ↦
            let e' : start' ≡ end + run = ap (λ p. p.0) e in
            omega (arith, e', run_there d b'"' end over quote)
        | inr (inr e) ↦ let e' : start' ≡ end + 1 = ap (λ p. p.0) e in omega (arith, e')
      ])

  basic_turn-lt :
      (start start' : ℕ) (free free' : Bool)
      → basic_turn readers d off (start, free) ≡ inr (start', free')
      → (length d.buf - start' < length d.buf - start) × (start < start')
  unfolding basic_turn
  basic_turn-lt start start' free free' h =
      let i : ℕ = start + scan_basic_string_strict_swar (drop start d.buf) in
      let (inside, e) =
        basic_ways (not (ltb start (length d.buf))) (leb (length d.buf) i)
          (byte_at d i == b'\n' || byte_at d i == b'\r') (byte_at d i == b'\\')
          (leb (length d.buf) (i + 1)) (byte_at d i == b'"') (not free)
          (syntax_fail d "unterminated string" off) (validated readers d off (i + 1) (i + 1, false))
          (ok (i + 1, true))
          (err (returned (string_control_error (drop (off + 1) d.buf) (i - off - 1))))
          (i + 2, false) h in
      let e' : start' ≡ i + 2 = ap (λ p. p.0) e in
      onward start (length d.buf) start' inside (omega (arith, e'))

  multiline_literal_turn-lt :
      AreBytes d.buf
      → (start start' : ℕ) → multiline_literal_turn readers d off start ≡ inr start'
      → (length d.buf - start' < length d.buf - start) × (start < start')
  unfolding multiline_literal_turn
  multiline_literal_turn-lt bytes start start' h =
      let rest : Bytes = drop start d.buf in
      let idx : ℕ = scan_literal_string_swar rest in
      let end : ℕ = start + idx in
      let run : ℕ = count_byte_run (drop end d.buf) b'\'' in
      let (inside, over, e) =
        literal_ways (not (ltb start (length d.buf))) (leb (length d.buf) end) (leb 3 run)
          (syntax_fail d "unterminated multiline string" off)
          (validated readers d off (end + min run 5) (end + min run 5, true)) (end + run) h in
      let exact = scan_literal_string_swar-first_stop rest (drop-All IsByte start d.buf bytes) in
      let less : leb (length rest) idx ≡ false = ground (arith, length-drop start d.buf, over) in
      let hit : (get_or rest idx 0 == b'\'') ≡ true =
        rw exact (first_stop_at (λ b. b == b'\'') rest (rw (← exact) less)) in
      let quote : (byte_at d end == b'\'') ≡ true = rw (get_or-drop start idx d.buf) hit in
      onward start (length d.buf) start' inside (omega (arith, e, run_there d b'\'' end over quote))

-- The answer `r` is that of the turn that leaves a loop, beyond `off`.
pub Leaves :
    {S : Type 0}
    → (S → Result Failure StringEnd ⊎ S)
    → (S → ℕ)
    → ℕ
    → Result Failure StringEnd
    → Type 0
Leaves {S} turn place off r = (last : S) × (turn last ≡ inl r) × (off < place last)

module _ (readers : Readers) (d : Decoder) (off : ℕ) (bytes : AreBytes d.buf) where
  leaves :
      {S : Type 0} (turn : S → Result Failure StringEnd ⊎ S) (place : S → ℕ) (start : S)
      → off < place start
      → ((s s' : S)
          → turn s ≡ inr s'
          → (length d.buf - place s' < length d.buf - place s) × (place s < place s'))
      → Leaves turn place off (loop turn (err (returned no_fuel)) (suc (length d.buf)) start)
  unfolding Leaves
  leaves {S} turn place start beyond step =
      let (last, r, at, answer, inv) =
        loop_ends turn (err (returned no_fuel)) (λ s. length d.buf - place s) (λ s. off < place s)
          (λ s s' inv e. let (less, more) = step s s' e in (less, omega (arith, inv, more)))
          (suc (length d.buf)) start (omega arith) beyond in
      (last, at ∙ ap inl (sym answer), inv)

-- `scanString`, over a text of bytes, comes to an end: a turn of one of its three loops leaves the loop,
-- behind the first quote, and is the answer, or the answer is that of the part that has no loop.
pub scan_string-Leaves :
    (readers : Readers) (d : Decoder) (off : ℕ)
    → AreBytes d.buf
    → let r = scan_string readers d off in
      Leaves (multiline_basic_turn readers d off) (λ s. s.0) off r
      ⊎ Leaves (multiline_literal_turn readers d off) (λ i. i) off r
      ⊎ Leaves (basic_turn readers d off) (λ s. s.0) off r
      ⊎ (r ≡ scan_literal readers d off)
unfolding scan_string
scan_string-Leaves readers d off bytes =
    elim (Bool-cases (has_triple_prefix (drop off d.buf) b'"')) [
      | inl basic ↦ inl (
          rw (scan_string, basic)
            (leaves readers d off bytes (multiline_basic_turn readers d off) (λ s. s.0)
              (off + 3, true) (omega arith)
              λ s s' e. multiline_basic_turn-lt readers d off (s.0) (s'.0) (s.1) (s'.1) e))
      | inr other ↦ elim (Bool-cases (has_triple_prefix (drop off d.buf) b'\'')) [
        | inl literal ↦ inr (
            inl (
              rw (scan_string, other, literal)
                (leaves readers d off bytes (multiline_literal_turn readers d off) (λ i. i)
                  (off + 3) (omega arith)
                  λ s s' e. multiline_literal_turn-lt readers d off bytes s s' e)))
        | inr single ↦ elim (Bool-cases (byte_at d off == b'"')) [
          | inl quoted ↦ inr (
              inr (
                inl (
                  rw (scan_string, other, single, quoted)
                    (leaves readers d off bytes (basic_turn readers d off) (λ s. s.0)
                      (off + 1, true) (omega arith)
                      λ s s' e. basic_turn-lt readers d off (s.0) (s'.0) (s.1) (s'.1) e))))
          | inr plain ↦ inr (inr (inr (rw (scan_string, other, single, plain) refl)))
        ]
      ]
    ]
