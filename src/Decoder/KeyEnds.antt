-- ===== src/Decoder/KeyEnds.antt =====
-- decoder.go: about the ends of the loops over keys and table headers.
use go_toml.Prelude.{
  ℕ, suc, ◌+◌, ◌-◌, ◌≤◌, ◌<◌, ◌≡◌, ◌⊎◌, sym, ap, ◌∙◌, arith, inl, inr, Result, ok, err, Option,
  none, some, Bool, true, false, not, ◌&&◌, ◌||◌, length, drop, slice, ltb, leb, ◌==◌,
  if◌then◌else◌, Bool-cases,
}
use go_toml.Prelude.Loop.{loop_ends}
use go_toml.Scan.{first_stop}
use go_toml.Scan.Word.Bytewise.{AreBytes}
use go_toml.Scan.Kernels.{scan_literal_string_swar, scan_basic_string_swar, scan_bare_key_swar}
use go_toml.Decoder.State.{Decoder, DecodeError, Failure, returned, no_fuel, byte_at, Readers}
use go_toml.Decoder.Strings.{scan_quoted, quoted_turn, has_newline_before, validated}
use go_toml.Decoder.Keys.{
  header_turn, scan_header_end, key_turn, key_end, header_key_turn, validate_header_key, not_blank,
}
use go_toml.Decoder.Ends.{is_quote, scan_quoted-quoted_turn}

-- A turn of `scanQuoted` that answers with a position has found the closing quote.
quoted_ok :
    (outside newline over escape past quote : Bool) (f : Failure) (v : Result Failure ℕ)
    (next same : ℕ) {j : ℕ}
    → (if outside
        then inl (err f)
        else if newline
        then inl (err f)
        else if over
        then inl (err f)
        else if escape
        then (if past then inl (err f) else inr next)
        else if quote
        then inl v
        else inr same)
      ≡ inl (ok j)
    → v ≡ ok j
quoted_ok outside newline over escape past quote f v next same h = ground (arith, h)

validated_ok :
    (o : Option DecodeError) (value : ℕ) {j : ℕ}
    → elim o [ some e ↦ err (returned e) | none ↦ ok value ] ≡ ok j
    → j ≡ value
validated_ok none value h = ground (arith, h)
validated_ok (some e) value h = absurd (ground (arith, h))

module _ (readers : Readers) (d : Decoder) (bytes : AreBytes d.buf) where
  scan_quoted-lt :
      (quote off j : ℕ) → is_quote quote ≡ true → scan_quoted readers d quote off ≡ ok j → off < j
  unfolding quoted_turn
  scan_quoted-lt quote off j known h =
      elim (scan_quoted-quoted_turn readers d quote off bytes known) [
        | inl tripled ↦ absurd (ground (arith, sym h ∙ tripled))
        | inr (last, r, at, answer, beyond) ↦
            let idx : ℕ =
              if quote == b'\''
              then scan_literal_string_swar (drop last d.buf)
              else scan_basic_string_swar (drop last d.buf) in
            let same : r ≡ ok j = sym answer ∙ h in
            let v =
              quoted_ok (not (ltb last (length d.buf))) (has_newline_before (drop last d.buf) idx)
                (leb (length (drop last d.buf)) idx)
                (quote == b'"' && byte_at d (last + idx) == b'\\')
                (leb (length d.buf) (last + idx + 1)) (byte_at d (last + idx) == quote) _
                (validated readers d off (last + idx + 1) (last + idx + 1)) (last + idx + 2) last
                (at ∙ ap inl same) in
            let e =
              validated_ok (readers.validate_string_value (slice d.buf off (last + idx + 1)))
                (last + idx + 1) v in
            omega (arith, e, beyond)
      ]

-- A turn that jumps over a quoted part goes on behind it.
quoted_step :
    (r : Result Failure ℕ) {s : ℕ}
    → elim r [ err f ↦ (let t : Result Failure ℕ ⊎ ℕ = inl (err f) in t) | ok j ↦ inr j ] ≡ inr s
    → r ≡ ok s
quoted_step (ok j) h = ground (arith, h)
quoted_step (err f) h = absurd (ground (arith, h))

header_ways :
    (outside newline quote close : Bool) (u v w : Result Failure ℕ) (e : Result Failure ℕ ⊎ ℕ)
    (next : ℕ) {s : ℕ}
    → (if outside
        then inl u
        else if newline
        then inl v
        else if quote
        then e
        else if close
        then inl w
        else inr next)
      ≡ inr s
    → (outside ≡ false) × ((quote ≡ true) × (e ≡ inr s) ⊎ (s ≡ next))
header_ways outside newline quote close u v w e next h = ground (arith, h)

key_ways :
    (outside equals stop quote : Bool) (u v w : Result Failure ℕ) (e : Result Failure ℕ ⊎ ℕ)
    (next : ℕ) {s : ℕ}
    → (if outside
        then inl u
        else if equals
        then inl v
        else if stop
        then inl w
        else if quote
        then e
        else inr next)
      ≡ inr s
    → (outside ≡ false) × ((quote ≡ true) × (e ≡ inr s) ⊎ (s ≡ next))
key_ways outside equals stop quote u v w e next h = ground (arith, h)

quote_is : (ch : ℕ) → (ch == b'"' || ch == b'\'') ≡ true → is_quote ch ≡ true
quote_is ch h = ground (arith, h)

onward : (i i' size : ℕ) → not (ltb i size) ≡ false → i < i' → size - i' < size - i
onward i i' size inside more =
    let under : i < size = ground (arith, inside) in omega (arith, under, more)

module _ (readers : Readers) (d : Decoder) (bytes : AreBytes d.buf) where
  header_turn-lt :
      (array : Bool) (i i' : ℕ)
      → header_turn readers d array i ≡ inr i'
      → length d.buf - i' < length d.buf - i
  unfolding header_turn
  header_turn-lt array i i' h =
      let ch : ℕ = byte_at d i in
      let (inside, ways) =
        header_ways (not (ltb i (length d.buf))) (ch == b'\n' || ch == b'\r')
          (ch == b'"' || ch == b'\'')
          (ch == b']' && (not array || (ltb (i + 1) (length d.buf) && byte_at d (i + 1) == b']'))) _
          _ (ok i) (elim (scan_quoted readers d ch i) [ err f ↦ inl (err f) | ok j ↦ inr j ])
          (i + 1) h in
      onward i i' (length d.buf) inside (elim ways [
        | inl (quote, e) ↦
            scan_quoted-lt readers d bytes ch i i' (quote_is ch quote)
              (quoted_step (scan_quoted readers d ch i) e)
        | inr e ↦ omega (arith, e)
      ])

  key_turn-lt : (i i' : ℕ) → key_turn readers d i ≡ inr i' → length d.buf - i' < length d.buf - i
  unfolding key_turn
  key_turn-lt i i' h =
      let ch : ℕ = byte_at d i in
      let (inside, ways) =
        key_ways (not (ltb i (length d.buf))) (ch == b'=')
          (ch == b'#' || ch == b'\n' || ch == b'\r') (ch == b'"' || ch == b'\'') (ok i) (ok i)
          (ok i) (elim (scan_quoted readers d ch i) [ err f ↦ inl (err f) | ok j ↦ inr j ]) (i + 1)
          h in
      onward i i' (length d.buf) inside (elim ways [
        | inl (quote, e) ↦
            scan_quoted-lt readers d bytes ch i i' (quote_is ch quote)
              (quoted_step (scan_quoted readers d ch i) e)
        | inr e ↦ omega (arith, e)
      ])

  -- The scans for the end of a header and of a key, over a text of bytes, come to an end: a turn of
  -- the loop leaves it and is the answer.
  pub scan_header_end-key_end :
      (start : ℕ) (array : Bool)
      → ((last : ℕ) × (header_turn readers d array last
            ≡ inl (scan_header_end readers d start array)))
        × ((last : ℕ) × (key_turn readers d last ≡ inl (key_end readers d)))
  unfolding scan_header_end key_end
  scan_header_end-key_end start array =
      let (last, r, at, answer, inv) =
        loop_ends (header_turn readers d array) (err (returned no_fuel)) (λ i. length d.buf - i)
          (λ i. Unit {0}) (λ i i' inv e. (header_turn-lt array i i' e, tt)) (suc (length d.buf))
          start (omega arith) tt in
      let (last', r', at', answer', inv') =
        loop_ends (key_turn readers d) (err (returned no_fuel)) (λ i. length d.buf - i)
          (λ i. Unit {0}) (λ i i' inv e. (key_turn-lt i i' e, tt)) (suc (length d.buf)) d.off
          (omega arith) tt in
      ((last, at ∙ ap inl (sym answer)), (last', at' ∙ ap inl (sym answer')))

-- `validateHeaderKey` goes on behind a dot, a quoted part or a bare part.
segment_ways :
    (over idle other quote nothing : Bool) (u v w : Result Failure ℕ)
    (e : Result Failure ℕ ⊎ (ℕ × Bool)) (n1 n2 : ℕ × Bool) {s : ℕ × Bool}
    → (if over
        then inl u
        else if idle
        then (if other then inl v else inr n1)
        else if quote
        then e
        else if nothing
        then inl w
        else inr n2)
      ≡ inr s
    → (over ≡ false) × ((s ≡ n1) ⊎ ((quote ≡ true) × (e ≡ inr s)) ⊎ ((nothing ≡ false) × (s ≡ n2)))
segment_ways over idle other quote nothing u v w e n1 n2 h = ground (arith, h)

segment_step :
    (r : Result Failure ℕ) (end : ℕ) (u : Result Failure ℕ) {s : ℕ × Bool}
    → elim r [
      | err f ↦ (let t : Result Failure ℕ ⊎ (ℕ × Bool) = inl (err f) in t)
      | ok j ↦ if ltb end j then inl u else inr (j, false)
    ]
      ≡ inr s
    → r ≡ ok (s.0)
segment_step (ok j) end u h = elim (Bool-cases (ltb end j)) [
  | inl past ↦ absurd (ground (arith, h, past))
  | inr within ↦ ground (arith, h, within)
]
segment_step (err f) end u h = absurd (ground (arith, h))

past_blanks :
    (start n i' end : ℕ) → leb end (start + n) ≡ false → start + n < i' → end - i' < end - start
past_blanks start n i' end inside more =
    let under : start + n < end = ground (arith, inside) in omega (arith, under, more)

module _ (readers : Readers) (d : Decoder) (bytes : AreBytes d.buf) where
  header_key_turn-lt :
      (end start i' : ℕ) (need need' : Bool)
      → header_key_turn readers d end (start, need) ≡ inr (i', need')
      → end - i' < end - start
  unfolding header_key_turn
  header_key_turn-lt end start i' need need' h =
      let n : ℕ = first_stop not_blank (slice d.buf start end) in
      let i : ℕ = start + n in
      let ch : ℕ = byte_at d i in
      let size : ℕ = scan_bare_key_swar (slice d.buf i end) in
      let (inside, ways) =
        segment_ways (leb end i) (not need) (not (ch == b'.')) (ch == b'"' || ch == b'\'')
          (size == 0) _ _ _ _ (i + 1, true) (i + size, false) h in
      past_blanks start n i' end inside (elim ways [
        | inl e ↦ let e' : i' ≡ i + 1 = ap (λ p. p.0) e in omega (arith, e')
        | inr (inl (quote, e)) ↦
            scan_quoted-lt readers d bytes ch i i' (quote_is ch quote)
              (segment_step (scan_quoted readers d ch i) end _ e)
        | inr (inr (some_read, e)) ↦
            let e' : i' ≡ i + size = ap (λ p. p.0) e in
            let positive : 0 < size = ground (arith, some_read) in omega (arith, e', positive)
      ])

  -- `validateHeaderKey`, over a text of bytes and for a header that ends inside it, comes to an end: a
  -- turn of its loop leaves it and is the answer.
  pub validate_header_key-header_key_turn :
      (start end : ℕ)
      → end ≤ length d.buf
      → (last : ℕ × Bool) × (header_key_turn readers d end last
          ≡ inl (validate_header_key readers d start end))
  unfolding validate_header_key
  validate_header_key-header_key_turn start end within =
      let (last, r, at, answer, inv) =
        loop_ends (header_key_turn readers d end) (err (returned no_fuel)) (λ s. end - s.0)
          (λ s. Unit {0}) (λ s s' inv e. (header_key_turn-lt end (s.0) (s'.0) (s.1) (s'.1) e, tt))
          (suc (length d.buf)) (start, true) (omega (arith, within)) tt in
      (last, at ∙ ap inl (sym answer))
