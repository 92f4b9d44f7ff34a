-- ===== src/Marshal/Quote/Printable.antt =====
-- marshal.go: about strings of printable ASCII, in which only quotes and backslashes are escaped.
use go_toml.Prelude.{
  ℕ, zero, suc, ◌+◌, ◌-◌, ◌<◌, ◌≤◌, ◌≡◌, refl, sym, ap, subst, ◌∙◌, arith, inl, inr, ok, err, Bool,
  true, false, not, ◌&&◌, ◌||◌, [], ◌∷◌, ◌++◌, Bytes, length, take, drop, slice, get_or, ltb, leb,
  ◌==◌, if◌then◌else◌, Bool-cases, append-nil, append_assoc, All, drop-All,
}
use go_toml.Prelude.Loop.{loop, loop-suc-inl, loop-suc-inr}
use go_toml.Prelude.Slices.{slice-add, slice-append-drop, slice-nil, drop-get_or, drop_over}
use go_toml.Marshal.Quote.{
  stuck, Quoting, escape_there, keep_there, quote_turn, append_basic_string, escape_from,
}

abbrev pub printable : ℕ → Bool
printable c = leb 0x20 c && ltb c 0x7F

abbrev pub IsPrintable : ℕ → Type 0
IsPrintable c = printable c ≡ true

abbrev pub is_mark : ℕ → Bool
is_mark c = c == b'"' || c == b'\\'

-- The string with its quotes and backslashes escaped.
unfoldable pub marked : Bytes → Bytes
marked [] = []
marked (c ∷ s) = let rest = marked s in if is_mark c then b'\\' ∷ c ∷ rest else c ∷ rest

-- The loop of `writeQuotedASCIIString` writes that.
pub escape_from-marked :
    (b run rest : Bytes) → escape_from b run rest ≡ ((b ++ run) ++ marked rest) ++ b'"' ∷ []
unfolding escape_from marked
escape_from-marked b run [] = ap (λ t. t ++ b'"' ∷ []) (sym (append-nil (b ++ run)))
escape_from-marked b run (c ∷ rest) = elim (Bool-cases (is_mark c)) [
  | inl mark ↦
      let there : Bytes = b ++ run in
      rw mark (
        escape_from-marked (there ++ b'\\' ∷ c ∷ []) [] rest
        ∙ ap (λ t. t ++ b'"' ∷ [])
            (ap (λ t. t ++ marked rest) (append-nil (there ++ b'\\' ∷ c ∷ []))
              ∙ append_assoc there (b'\\' ∷ c ∷ []) (marked rest)))
  | inr plain ↦ rw plain (
      escape_from-marked b (run ++ c ∷ []) rest
      ∙ ap (λ t. t ++ b'"' ∷ [])
          (ap (λ t. t ++ marked rest) (sym (append_assoc b run (c ∷ [])))
            ∙ append_assoc (b ++ run) (c ∷ []) (marked rest)))
]

module _ (s : Bytes) where
  -- What the loop of `appendBasicString` makes of the rest of a printable string.
  abbrev Marks : ℕ → Quoting → Type 0
  Marks fuel q =
      (q' : Quoting) × (loop (quote_turn s) (err stuck) fuel q ≡ ok q')
      × (q'.b ++ drop q'.start s ≡ (q.b ++ slice s q.start q.i) ++ marked (drop q.i s))

  module _ (q : Quoting) (ordered : q.start ≤ q.i) (inside : q.i < length s)
      (fine : IsPrintable (get_or s q.i 0)) where
    c : ℕ
    c = get_or s q.i 0

    more : not (ltb q.i (length s)) ≡ false
    more = ground (arith, inside)

    escape_step :
        (fuel : ℕ)
        → is_mark c ≡ true
        → Marks fuel (escape_there s q (b'\\' ∷ c ∷ []) 1)
        → Marks (suc fuel) q
    unfolding quote_turn c marked
    escape_step fuel mark (q', run, text) =
        let t : quote_turn s q ≡ inr (escape_there s q (b'\\' ∷ c ∷ []) 1) =
          rw (quote_turn, more, fine, mark) refl in
        let there : Bytes = q.b ++ slice s q.start q.i in
        let step : marked (drop q.i s) ≡ b'\\' ∷ c ∷ marked (drop (q.i + 1) s) =
          ap marked (drop-get_or s q.i inside) ∙ rw (marked, mark) refl in
        (
          q',
          loop-suc-inr (quote_turn s) (err stuck) fuel q t ∙ run,
          text
              ∙ ap (λ u. ((there ++ b'\\' ∷ c ∷ []) ++ u) ++ marked (drop (q.i + 1) s))
                  (slice-nil s (q.i + 1))
              ∙ ap (λ u. u ++ marked (drop (q.i + 1) s)) (append-nil (there ++ b'\\' ∷ c ∷ []))
              ∙ append_assoc there (b'\\' ∷ c ∷ []) (marked (drop (q.i + 1) s))
              ∙ ap (λ u. there ++ u) (sym step),
        )

    keep_step : (fuel : ℕ) → is_mark c ≡ false → Marks fuel (keep_there q 1) → Marks (suc fuel) q
    unfolding quote_turn c marked
    keep_step fuel plain (q', run, text) =
        let t : quote_turn s q ≡ inr (keep_there q 1) = rw (quote_turn, more, fine, plain) refl in
        let at = drop-get_or s q.i inside in
        let step : marked (drop q.i s) ≡ c ∷ marked (drop (q.i + 1) s) =
          ap marked at ∙ rw (marked, plain) refl in
        let one : take 1 (drop q.i s) ≡ c ∷ [] = ap (take 1) at in
        (
          q',
          loop-suc-inr (quote_turn s) (err stuck) fuel q t ∙ run,
          text
              ∙ ap (λ u. (q.b ++ u) ++ marked (drop (q.i + 1) s))
                  (slice-add s q.start q.i 1 ordered ∙ ap (λ u. slice s q.start q.i ++ u) one)
              ∙ ap (λ u. u ++ marked (drop (q.i + 1) s))
                  (sym (append_assoc q.b (slice s q.start q.i) (c ∷ [])))
              ∙ append_assoc (q.b ++ slice s q.start q.i) (c ∷ []) (marked (drop (q.i + 1) s))
              ∙ ap (λ u. (q.b ++ slice s q.start q.i) ++ u) (sym step),
        )

  end_step : (fuel : ℕ) (q : Quoting) → q.start ≤ q.i → length s ≤ q.i → Marks (suc fuel) q
  unfolding quote_turn marked
  end_step fuel q ordered over =
      let past : not (ltb q.i (length s)) ≡ true = ground (arith, over) in
      let t : quote_turn s q ≡ inl (ok q) = rw (quote_turn, past) refl in
      let none_left = drop_over s q.i over in
      (
        q,
        loop-suc-inl (quote_turn s) (err stuck) fuel q t,
        ap (λ u. q.b ++ u) (slice-append-drop s q.start q.i ordered)
            ∙ sym (append_assoc q.b (slice s q.start q.i) (drop q.i s))
            ∙ ap (λ u. (q.b ++ slice s q.start q.i) ++ u) (none_left ∙ sym (ap marked none_left)),
      )

  loop-Marks :
      All IsPrintable s
      → (fuel : ℕ) (q : Quoting) → q.start ≤ q.i
      → length s - q.i < fuel
      → Marks fuel q
  unfolding c
  loop-Marks fine zero q ordered h = absurd (omega (arith, h))
  loop-Marks fine (suc fuel) q ordered h = elim (Bool-cases (ltb q.i (length s))) [
    | inr over ↦ end_step fuel q ordered (ground (arith, over))
    | inl within ↦
        let inside : q.i < length s = ground (arith, within) in
        let head : All IsPrintable (get_or s q.i 0 ∷ drop (q.i + 1) s) =
          subst (All IsPrintable) (drop-get_or s q.i inside) (drop-All IsPrintable q.i s fine) in
        elim (Bool-cases (is_mark (get_or s q.i 0))) [
          | inl mark ↦ escape_step q ordered inside (head.0) fuel mark (
              loop-Marks fine fuel (escape_there s q (b'\\' ∷ get_or s q.i 0 ∷ []) 1) (omega arith)
                (omega (arith, inside, h)))
          | inr plain ↦ keep_step q ordered inside (head.0) fuel plain (
              loop-Marks fine fuel (keep_there q 1) (omega (arith, ordered))
                (omega (arith, inside, h)))
        ]
  ]

-- `appendBasicString` writes a printable string with its quotes and backslashes escaped.
pub append_basic_string-marked :
    (b s : Bytes)
    → All IsPrintable s
    → append_basic_string b s ≡ ok (((b ++ b'"' ∷ []) ++ marked s) ++ b'"' ∷ [])
unfolding append_basic_string
append_basic_string-marked b s fine =
    let q0 : Quoting = record { i = 0; start = 0; b = b ++ b'"' ∷ [] } in
    let (q', run, text) = loop-Marks s fine (suc (length s)) q0 (omega arith) (omega arith) in
    rw (append_basic_string, run)
      (ap (λ t. ok (t ++ b'"' ∷ [])) (text ∙ ap (λ u. u ++ marked s) (append-nil (b ++ b'"' ∷ []))))
