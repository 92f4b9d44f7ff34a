-- ===== src/Marshal/Quote/Reads.antt =====
-- marshal.go, value.go: about the text that `appendBasicString` writes, and the reading of it.
use go_toml.Prelude.{
  ℕ, zero, suc, ◌+◌, ◌-◌, ◌<◌, ◌≤◌, ◌≡◌, refl, sym, ap, subst, ◌∙◌, arith, ◌⊎◌, inl, inr, Result,
  ok, err, true, false, not, ◌&&◌, ◌||◌, [], ◌∷◌, ◌++◌, Bytes, length, take, drop, slice, get_or,
  ltb, leb, ◌==◌, Bool-cases, Result-cases, append-nil, append_assoc, >>=-eq-ok, ◌≢◌, take-All,
  drop-All, ==_iff,
}
use go_toml.Prelude.Loop.{loop, loop_ends, turn-cases, loop-suc-inl, loop-suc-inr}
use go_toml.Prelude.Slices.{
  slice-add, slice-append-drop, slice-nil, take-append-drop_at, drop-get_or, drop_over,
}
use go_toml.Prelude.Utf8.{decode_rune, rune_error}
use go_toml.Prelude.Utf8.Front.{Front, decode_rune-Front}
use go_toml.Scan.{basic_string_strict_stop}
use go_toml.Scan.Word.Bytewise.{AreBytes, IsByte}
use go_toml.Values.Strings.{named_escape}
use go_toml.Marshal.Quote.{
  MarshalError, invalid_utf8, stuck, Quoting, escape_there, keep_there, quote_turn, control_escape,
  unicode_escape, append_basic_string,
}
use go_toml.Marshal.Quote.Bodies.{
  Encodes, Encodes-nil, Encodes-append, Encodes-plain, Encodes-high, Encodes-named, Encodes-unicode,
  Encodes-control,
}

module _ (s : Bytes) where
  -- What is written from the state `q` to the last state `q'` stands for the text from `q.i` on.
  abbrev Written : Quoting → Quoting → Type 0
  Written q q' =
      (tail : Bytes) × (q'.b ++ drop q'.start s ≡ (q.b ++ slice s q.start q.i) ++ tail)
      × Encodes tail (drop q.i s)

  ended : (q : Quoting) → q.start ≤ q.i → drop q.i s ≡ [] → Written q q
  ended q h over = (
    [],
    ap (λ t. q.b ++ t) (slice-append-drop s q.start q.i h ∙ ap (λ t. slice s q.start q.i ++ t) over)
        ∙ sym (append_assoc q.b (slice s q.start q.i) []),
    subst (Encodes []) (sym over) Encodes-nil,
  )

  escaped :
      (q q' : Quoting) (esc t : Bytes) (n : ℕ)
      → drop q.i s ≡ t ++ drop (q.i + n) s
      → Encodes esc t
      → Written (escape_there s q esc n) q'
      → Written q q'
  escaped q q' esc t n cut x (tail, written, y) =
      let there : Bytes = q.b ++ slice s q.start q.i in
      (
        esc ++ tail,
        written
            ∙ ap (λ u. ((there ++ esc) ++ u) ++ tail) (slice-nil s (q.i + n))
            ∙ ap (λ u. u ++ tail) (append-nil (there ++ esc))
            ∙ append_assoc there esc tail,
        subst (Encodes (esc ++ tail)) (sym cut) (Encodes-append esc tail t (drop (q.i + n) s) x y),
      )

  kept :
      (q q' : Quoting) (n : ℕ)
      → q.start ≤ q.i
      → Encodes (take n (drop q.i s)) (take n (drop q.i s))
      → Written (keep_there q n) q'
      → Written q q'
  kept q q' n h x (tail, written, y) =
      let run : Bytes = take n (drop q.i s) in
      (
        run ++ tail,
        written
            ∙ ap (λ u. (q.b ++ u) ++ tail) (slice-add s q.start q.i n h)
            ∙ ap (λ u. u ++ tail) (sym (append_assoc q.b (slice s q.start q.i) run))
            ∙ append_assoc (q.b ++ slice s q.start q.i) run tail,
        subst (Encodes (run ++ tail)) (sym (take-append-drop_at s q.i n))
            (Encodes-append run tail run (drop (q.i + n) s) x y),
      )

  -- What a turn does.
  Goes : Quoting → Result MarshalError Quoting ⊎ Quoting → Type 0
  Goes q (inl (err e)) = e ≡ invalid_utf8
  Goes q (inl (ok q')) = Written q q'
  Goes q (inr q1) =
      (q1.start ≤ q1.i)
      × (length s - q1.i < length s - q.i)
      × ((q' : Quoting) → Written q1 q' → Written q q')

  module _ (bytes : AreBytes s) (q : Quoting) (ordered : q.start ≤ q.i)
      (inside : q.i < length s) where
    c : ℕ
    c = get_or s q.i 0

    head_byte : c < 256
    unfolding c
    head_byte =
        let front : AreBytes (c ∷ drop (q.i + 1) s) =
          subst AreBytes (drop-get_or s q.i inside) (drop-All IsByte q.i s bytes) in
        front.0

    -- An escape for one byte.
    Goes-escape : (esc : Bytes) → Encodes esc (c ∷ []) → Goes q (inr (escape_there s q esc 1))
    unfolding Goes c
    Goes-escape esc x = (
      omega arith,
      omega (arith, inside),
      λ q'. escaped q q' esc (c ∷ []) 1 (drop-get_or s q.i inside) x,
    )

    Goes-keep :
        (n : ℕ)
        → 1 ≤ n
        → Encodes (take n (drop q.i s)) (take n (drop q.i s))
        → Goes q (inr (keep_there q n))
    unfolding Goes
    Goes-keep n h x =
        (omega (arith, ordered), omega (arith, inside, h), λ q'. kept q q' n ordered x)

    -- A byte that is kept.
    Goes-plain : basic_string_strict_stop c ≡ false → Goes q (inr (keep_there q 1))
    unfolding c
    Goes-plain plain =
        let one : take 1 (drop q.i s) ≡ c ∷ [] = ap (take 1) (drop-get_or s q.i inside) in
        Goes-keep 1 (omega arith)
          (subst (λ (p : Bytes). Encodes p p) (sym one) (Encodes-plain c head_byte plain))

    -- A code point of several bytes.
    module _ (r size : ℕ) (high : ltb c 0x80 ≡ false) (rune : decode_rune (drop q.i s) ≡ (r, size))
        (valid : (r == rune_error && size == 1) ≡ false) where
      front : Front (drop q.i s) r size
      unfolding c
      front =
          let at = drop-get_or s q.i inside in
          subst (λ (t : Bytes). Front t r size) (sym at)
            (decode_rune-Front c (drop (q.i + 1) s) r size high (ap decode_rune (sym at) ∙ rune)
              valid)

      Goes-rune_kept : Goes q (inr (keep_there q size))
      Goes-rune_kept = Goes-keep size (front.0) (
          Encodes-high (take size (drop q.i s))
            (take-All IsByte size (drop q.i s) (drop-All IsByte q.i s bytes)) (front.2))

      Goes-rune_escaped :
          leb r 0x9F ≡ true → Goes q (inr (escape_there s q (unicode_escape r) size))
      unfolding Goes
      Goes-rune_escaped small =
          let low : r < 160 = ground (arith, small) in
          (
            omega arith,
            omega (arith, inside, front.0),
            λ q'.
                escaped q q' (unicode_escape r) (take size (drop q.i s)) size
                  (take-append-drop_at s q.i size)
                  (subst (Encodes (unicode_escape r)) (front.3 small) (Encodes-unicode r low)),
          )

    printable_ways :
        (c : ℕ)
        → (leb 0x20 c && ltb c 0x7F) ≡ true
        → (c == b'"' || c == b'\\') ≡ false
        → basic_string_strict_stop c ≡ false
    unfolding basic_string_strict_stop
    printable_ways c h other = ground arith

    Encodes-mark : (c == b'"' || c == b'\\') ≡ true → Encodes (b'\\' ∷ c ∷ []) (c ∷ [])
    Encodes-mark h = elim (Bool-cases (c == b'"')) [
      | inl quote ↦
          let e : b'"' ≡ c = sym ((==_iff c b'"').0 quote) in
          subst (λ (k : ℕ). Encodes (b'\\' ∷ k ∷ []) (k ∷ [])) e
            (Encodes-named b'"' b'"' (omega arith) (unfold named_escape in refl))
      | inr other ↦
          let back : (c == b'\\') ≡ true = ground (arith, h, other) in
          let e : b'\\' ≡ c = sym ((==_iff c b'\\').0 back) in
          subst (λ (k : ℕ). Encodes (b'\\' ∷ k ∷ []) (k ∷ [])) e
            (Encodes-named b'\\' b'\\' (omega arith) (unfold named_escape in refl))
    ]

    inside_turn : Goes q (quote_turn s q)
    unfolding quote_turn c
    inside_turn =
        let (r, size) = decode_rune (drop q.i s) in
        let more : not (ltb q.i (length s)) ≡ false = ground (arith, inside) in
        elim (Bool-cases (leb 0x20 c && ltb c 0x7F)) [
          | inl printable ↦ elim (Bool-cases (c == b'"' || c == b'\\')) [
            | inl mark ↦
                rw (quote_turn, more, printable, mark)
                  (Goes-escape (b'\\' ∷ c ∷ []) (Encodes-mark mark))
            | inr other ↦
                rw (quote_turn, more, printable, other)
                  (Goes-plain (printable_ways c printable other))
          ]
          | inr odd ↦ elim (Bool-cases (ltb c 0x80)) [
            | inl ascii ↦
                rw (quote_turn, more, odd, ascii)
                  (Goes-escape (control_escape c) (Encodes-control c (ground (arith, ascii)) odd))
            | inr high ↦ elim (Bool-cases (r == rune_error && size == 1)) [
              | inl invalid ↦ rw (quote_turn, more, odd, high, invalid) (unfold Goes in refl)
              | inr valid ↦ elim (Bool-cases (leb r 0x9F)) [
                | inl small ↦
                    rw (quote_turn, more, odd, high, valid, small)
                      (Goes-rune_escaped r size high refl valid small)
                | inr large ↦
                    rw (quote_turn, more, odd, high, valid, large)
                      (Goes-rune_kept r size high refl valid)
              ]
            ]
          ]
        ]

  quote_turn-Goes : AreBytes s → (q : Quoting) → q.start ≤ q.i → Goes q (quote_turn s q)
  unfolding quote_turn
  quote_turn-Goes bytes q ordered = elim (Bool-cases (ltb q.i (length s))) [
    | inl inside ↦ inside_turn bytes q ordered (ground (arith, inside))
    | inr over ↦
        let past : length s ≤ q.i = ground (arith, over) in
        let over' : not (ltb q.i (length s)) ≡ true = rw over refl in
        rw (quote_turn, over') (unfold Goes in ended q ordered (drop_over s q.i past))
  ]

  loop_Written :
      AreBytes s
      → (fuel : ℕ) (q q' : Quoting) → q.start ≤ q.i
      → loop (quote_turn s) (err stuck) fuel q ≡ ok q'
      → Written q q'
  unfolding loop Goes
  loop_Written bytes zero q q' ordered e = cc
  loop_Written bytes (suc fuel) q q' ordered e =
      let goes = quote_turn-Goes bytes q ordered in
      elim (turn-cases (quote_turn s q)) [
        | inl (err bad, t) ↦
            let out = sym (loop-suc-inl (quote_turn s) (err stuck) fuel q t) ∙ e in cc out
        | inl (ok last, t) ↦
            let same : last ≡ q' =
              cc (sym (loop-suc-inl (quote_turn s) (err stuck) fuel q t) ∙ e) in
            let there : Goes q (inl (ok last)) = subst (Goes q) t goes in
            subst (Written q) same there
        | inr (q1, t) ↦
            let there : Goes q (inr q1) = subst (Goes q) t goes in
            there.2 q' (
              loop_Written bytes fuel q1 q' (there.0)
                (sym (loop-suc-inr (quote_turn s) (err stuck) fuel q t) ∙ e))
      ]

-- What `appendBasicString` writes between the quotes stands for the string.
pub append_basic_string-Encodes :
    (b s out : Bytes)
    → AreBytes s
    → append_basic_string b s ≡ ok out
    → (tail : Bytes) × (out ≡ (b ++ b'"' ∷ []) ++ (tail ++ b'"' ∷ [])) × Encodes tail s
unfolding append_basic_string
append_basic_string-Encodes b s out bytes e =
    let q0 : Quoting = record { i = 0; start = 0; b = b ++ b'"' ∷ [] } in
    let (q', run, done) =
      >>=-eq-ok (loop (quote_turn s) (err stuck) (suc (length s)) q0)
        (λ q. ok ((q.b ++ drop q.start s) ++ b'"' ∷ [])) e in
    let (tail, written, x) = loop_Written s bytes (suc (length s)) q0 q' (omega arith) run in
    let text : q'.b ++ drop q'.start s ≡ (b ++ b'"' ∷ []) ++ tail =
      written ∙ ap (λ u. u ++ tail) (append-nil (b ++ b'"' ∷ [])) in
    let same : out ≡ (q'.b ++ drop q'.start s) ++ b'"' ∷ [] = cc done in
    (tail, same ∙ ap (λ u. u ++ b'"' ∷ []) text ∙ append_assoc (b ++ b'"' ∷ []) tail (b'"' ∷ []), x)

-- The loop has fuel enough: what makes it fail is the string.
quote-ends :
    (s : Bytes) (q : Quoting)
    → AreBytes s
    → q.start ≤ q.i
    → loop (quote_turn s) (err stuck) (suc (length s)) q ≢ err stuck
quote-ends s q bytes ordered e =
    let (last, r, at, answer, inv) =
      loop_ends (quote_turn s) (err stuck) (λ q. length s - q.i) (λ q. q.start ≤ q.i)
        (λ q q1 h t.
          let there : Goes s q (inr q1) = subst (Goes s q) t (quote_turn-Goes s bytes q h) in
          unfold Goes in (there.1, there.0))
        (suc (length s)) q (omega arith) ordered in
    let t : quote_turn s last ≡ inl (err stuck) = at ∙ ap inl (sym answer ∙ e) in
    let there : Goes s last (inl (err stuck)) =
      subst (Goes s last) t (quote_turn-Goes s bytes last inv) in
    let bad : stuck ≡ invalid_utf8 = unfold Goes in there in cc bad

-- `appendBasicString` comes to an end on every string of bytes: it writes a text, or answers that the
-- string is not valid UTF-8.
pub append_basic_string-has_fuel : (b s : Bytes) → AreBytes s → append_basic_string b s ≢ err stuck
unfolding append_basic_string
append_basic_string-has_fuel b s bytes e =
    let q0 : Quoting = record { i = 0; start = 0; b = b ++ b'"' ∷ [] } in
    elim (Result-cases (loop (quote_turn s) (err stuck) (suc (length s)) q0)) [
      | inl (q', run) ↦
          let out : append_basic_string b s ≡ ok ((q'.b ++ drop q'.start s) ++ b'"' ∷ []) =
            rw (append_basic_string, run) refl in
          cc (sym out ∙ e)
      | inr (bad, run) ↦
          let out : append_basic_string b s ≡ err bad = rw (append_basic_string, run) refl in
          let same : bad ≡ stuck = cc (sym out ∙ e) in
          quote-ends s q0 bytes (omega arith) (run ∙ ap err same)
    ]
