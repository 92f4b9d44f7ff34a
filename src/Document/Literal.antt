-- ===== src/Document/Literal.antt =====
-- document.go, value.go: about `parseStringValue` on what `formatStringLike` writes.
use go_toml.Prelude.{
  ℕ, zero, suc, ◌+◌, ◌-◌, ◌≤◌, ◌≡◌, refl, sym, ap, subst, ◌∙◌, arith, ok, none, Bool, true, false,
  not, ◌&&◌, ◌||◌, ◌⊎◌, inl, inr, [], ◌∷◌, ◌++◌, Bytes, length, take, drop, slice, get_or,
  get_or-append, ltb, leb, ◌==◌, All, length-append, Bool-cases,
}
use go_toml.Prelude.Loop.{loop, turn-cases, loop-suc-inl, loop-suc-inr}
use go_toml.Prelude.Slices.{drop-get_or, drop_over, take-append-drop_at}
use go_toml.Prelude.Utf8.{decode_rune, rune_error}
use go_toml.Prelude.Utf8.Front.{Front, IsHigh, decode_rune-Front}
use go_toml.Scan.Word.Bytewise.{AreBytes}
use go_toml.Values.Strings.{
  prohibited_string_control, control_from, prohibited_string_control_index,
  validate_string_controls, validate_literal_string_body, string_value_body, has_triple_delimiter,
  has_pair_delimiter, literal_string, checked, parse_string_value,
}
use go_toml.Prelude.Space.{trim_space}
use go_toml.Marshal.Quote.{append_basic_string}
use go_toml.Marshal.Quote.RoundTrip.{take-append, parse_string_value-append_basic_string}
use go_toml.Marshal.Quote.Fast.{All-append}
use go_toml.Document.Format.{safe_turn, literal_string_safe, format_string_like}

-- A byte that may stand in a literal string.
abbrev IsSafe : ℕ → Type 0
IsSafe c = ((c == b'\'') ≡ false) × (prohibited_string_control c false ≡ false)

IsHigh-IsSafe : (c : ℕ) → IsHigh c → IsSafe c
unfolding prohibited_string_control
IsHigh-IsSafe c h = (ground (arith, h), ground (arith, h))

All-IsHigh : (xs : Bytes) → All IsHigh xs → All IsSafe xs
All-IsHigh [] h = tt
All-IsHigh (c ∷ xs) (h, rest) = (IsHigh-IsSafe c h, All-IsHigh xs rest)

ascii_ways :
    (c : ℕ) → (c == b'\'' || c == 0x7f || (ltb c 0x20 && not (c == b'\t'))) ≡ false → IsSafe c
unfolding prohibited_string_control
ascii_ways c h = (ground (arith, h), ground (arith, h))

module _ (s : Bytes) where
  -- What a turn at `i` has to do with the text from `i` on.
  abbrev Steps : ℕ → Bool ⊎ ℕ → Type 0
  Steps i (inl true) = length s ≤ i
  Steps i (inl false) = Unit {0}
  Steps i (inr j) = (n : ℕ) × (j ≡ i + n) × All IsSafe (take n (drop i s))

  module _ (i : ℕ) (here : ltb i (length s) ≡ true) where
    one-IsSafe : IsSafe (get_or s i 0) → All IsSafe (take 1 (drop i s))
    one-IsSafe h =
        subst (λ t. All IsSafe (take 1 t)) (sym (drop-get_or s i (ground (arith, here)))) (h, tt)

    rune-IsSafe :
        (r size : ℕ)
        → ltb (get_or s i 0) 0x80 ≡ false
        → decode_rune (drop i s) ≡ (r, size)
        → (r == rune_error && size == 1) ≡ false
        → All IsSafe (take size (drop i s))
    rune-IsSafe r size high rune valid =
        let at = drop-get_or s i (ground (arith, here)) in
        let front : Front (drop i s) r size =
          subst (λ (t : Bytes). Front t r size) (sym at)
            (decode_rune-Front (get_or s i 0) (drop (i + 1) s) r size high
              (ap decode_rune (sym at) ∙ rune) valid) in
        All-IsHigh (take size (drop i s)) (front.2)

  either_false : (a b : Bool) → (a || b) ≡ false → a ≡ false
  either_false a b h = ground (arith, h)

  safe_turn-Steps : (i : ℕ) → Steps i (safe_turn s i)
  unfolding safe_turn
  safe_turn-Steps i =
      let c : ℕ = get_or s i 0 in
      let r : ℕ = (decode_rune (drop i s)).0 in
      let size : ℕ = (decode_rune (drop i s)).1 in
      elim (Bool-cases (ltb i (length s))) [
        | inr over ↦ rw (safe_turn, over) (ground (arith, over))
        | inl here ↦ elim (Bool-cases (ltb c 0x80)) [
          | inl low ↦
              elim (Bool-cases (c == b'\'' || c == 0x7f || (ltb c 0x20 && not (c == b'\t')))) [
                | inl bad ↦ rw (safe_turn, here, low, bad) tt
                | inr good ↦
                    rw (safe_turn, here, low, good) (1, refl, one-IsSafe i here (ascii_ways c good))
              ]
          | inr high ↦ elim (Bool-cases ((r == rune_error && size == 1) || leb r 0x9f)) [
            | inl bad ↦ rw (safe_turn, here, high, bad) tt
            | inr good ↦
                rw (safe_turn, here, high, good)
                  (
                    size,
                    refl,
                    rune-IsSafe i here r size high refl
                        (either_false (r == rune_error && size == 1) (leb r 0x9f) good),
                  )
          ]
        ]
      ]

  IsSafe-from : (fuel i : ℕ) → loop (safe_turn s) false fuel i ≡ true → All IsSafe (drop i s)
  unfolding loop
  IsSafe-from zero i h = absurd (cc h)
  IsSafe-from (suc fuel) i h = elim (turn-cases (safe_turn s i)) [
    | inl (true, e) ↦
        let over : length s ≤ i = subst (Steps i) e (safe_turn-Steps i) in
        subst (All IsSafe) (sym (drop_over s i over)) tt
    | inl (false, e) ↦
        let never : false ≡ true = sym (loop-suc-inl (safe_turn s) false fuel i e) ∙ h in
        absurd (cc never)
    | inr (j, e) ↦
        let (n, same, safe) : Steps i (inr j) = subst (Steps i) e (safe_turn-Steps i) in
        let later : loop (safe_turn s) false fuel j ≡ true =
          sym (loop-suc-inr (safe_turn s) false fuel i e) ∙ h in
        let rest : All IsSafe (drop (i + n) s) =
          subst (λ (k : ℕ). All IsSafe (drop k s)) same (IsSafe-from fuel j later) in
        subst (All IsSafe) (sym (take-append-drop_at s i n))
          (All-append IsSafe (take n (drop i s)) (drop (i + n) s) safe rest)
  ]

  literal_string_safe-IsSafe : literal_string_safe s ≡ true → All IsSafe s
  unfolding literal_string_safe
  literal_string_safe-IsSafe h = IsSafe-from (suc (length s)) 0 h

control_from-IsSafe : (i : ℕ) (s : Bytes) → All IsSafe s → control_from false i s ≡ none
unfolding control_from
control_from-IsSafe i [] h = refl
control_from-IsSafe i (c ∷ []) ((a, b), h) = rw b refl
control_from-IsSafe i (c ∷ d ∷ s) ((a, b), h) = rw b (control_from-IsSafe (i + 1) (d ∷ s) h)

-- A text between apostrophes.
abbrev apostrophed : Bytes → Bytes
apostrophed s = (b'\'' ∷ s) ++ b'\'' ∷ []

string_value_body-apostrophed :
    (s : Bytes) → All IsSafe s → string_value_body (apostrophed s) ≡ ok (s, literal_string)
unfolding string_value_body
string_value_body-apostrophed s safe =
    let raw : Bytes = apostrophed s in
    let size : length raw ≡ length s + 2 = omega (arith, length-append s (b'\'' ∷ [])) in
    let last : length raw - 1 ≡ length (b'\'' ∷ s) = omega (arith, size) in
    let closing : get_or raw (length raw - 1) 0 ≡ b'\'' =
      get_or-append (b'\'' ∷ s) b'\'' [] (length raw - 1) 0 (sym last) in
    let basic3 : has_triple_delimiter raw b'"' ≡ false =
      unfold has_triple_delimiter in first_false (leb 6 (length raw)) _ in
    let long : leb 2 (length raw) ≡ true = ground (arith, size) in
    let literal1 : has_pair_delimiter raw b'\'' ≡ true =
      unfold has_pair_delimiter in rw (closing, long) refl in
    let width : length raw - 1 - 1 ≡ length s = omega (arith, size) in
    let body : slice raw 1 (length raw - 1) ≡ s = rw width (take-append s (b'\'' ∷ [])) in
    rw (string_value_body, not_triple s safe, basic3, literal1, body) refl
  where
    first_false : (a b : Bool) → (a && false && b) ≡ false
    first_false a b = ground arith

    not_triple : (s : Bytes) → All IsSafe s → has_triple_delimiter (apostrophed s) b'\'' ≡ false
    not_triple [] h = unfold has_triple_delimiter in refl
    not_triple (c ∷ s) ((a, b), h) =
        unfold has_triple_delimiter in rw a (first_false (leb 6 (length (apostrophed (c ∷ s)))) _)

validate_literal_string_body-IsSafe :
    (s : Bytes) → All IsSafe s → validate_literal_string_body s false ≡ none
unfolding validate_literal_string_body validate_string_controls prohibited_string_control_index
validate_literal_string_body-IsSafe s safe =
    rw (validate_string_controls, control_from-IsSafe 0 s safe) refl

parse_string_value-apostrophed :
    (s : Bytes) → All IsSafe s → parse_string_value (apostrophed s) ≡ ok s
unfolding parse_string_value
parse_string_value-apostrophed s safe =
    rw (parse_string_value, string_value_body-apostrophed s safe)
      (ap (λ o. checked o s) (validate_literal_string_body-IsSafe s safe))

and_ways : (a b : Bool) → (a && b) ≡ true → (a ≡ true) × (b ≡ true)
and_ways a b h = (ground (arith, h), ground (arith, h))

-- What `formatStringLike` writes for a string of bytes, in single quotes or in double ones, is read
-- back by `parseStringValue` as that string.
pub parse_string_value-format_string_like :
    (existing value out : Bytes)
    → AreBytes value
    → format_string_like existing value ≡ ok out
    → parse_string_value out ≡ ok value
unfolding format_string_like
parse_string_value-format_string_like existing value out bytes e =
    let trimmed : Bytes = trim_space existing in
    let like : Bool =
      leb 2 (length trimmed)
      && (get_or trimmed 0 0 == b'\'' && get_or trimmed (length trimmed - 1) 0 == b'\'')
      && literal_string_safe value in
    elim (Bool-cases like) [
      | inl same_quotes ↦
          let written : format_string_like existing value ≡ ok (apostrophed value) =
            rw (format_string_like, same_quotes) refl in
          let same : apostrophed value ≡ out = cc (sym written ∙ e) in
          let (_, safe) = and_ways _ (literal_string_safe value) same_quotes in
          subst (λ (t : Bytes). parse_string_value t ≡ ok value) same
            (parse_string_value-apostrophed value (literal_string_safe-IsSafe value safe))
      | inr other ↦
          let written : format_string_like existing value ≡ append_basic_string [] value =
            rw (format_string_like, other) refl in
          parse_string_value-append_basic_string value out bytes (sym written ∙ e)
    ]
