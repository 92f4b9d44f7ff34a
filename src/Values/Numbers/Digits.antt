-- ===== src/Values/Numbers/Digits.antt =====
-- value.go: about the number that a row of digits stands for, and the test for overflow.
use native.Mathlib.Nat.{mod-lt, div-add-mod', mul-le-mul_right}
use go_toml.Prelude.{
  ℕ, suc, ◌+◌, ◌*◌, ◌/◌, ◌%◌, ◌<◌, ◌≤◌, ◌≡◌, ◌≢◌, refl, sym, ap, ◌∙◌, arith, inl, inr, Result, ok,
  err, Option, none, some, Bool, true, false, ◌&&◌, ◌||◌, List, [], ◌∷◌, Bytes, length, ltb, ◌==◌,
  if◌then◌else◌, Bool-cases, Option-cases, ==_iff,
}
use go_toml.Values.Numbers.{
  NumberError, err_syntax, err_range, numeric_digit_value, digit_below, digits_from,
  parse_uint_literal_digits,
}

abbrev pub digit_before : ℕ → Option (List ℕ) → Option (List ℕ)
digit_before d none = none
digit_before d (some ds) = some (d ∷ ds)

-- The digits of a text without its underscores, if they are all digits of the base.
unfoldable pub digits_of : ℕ → Bytes → Option (List ℕ)
unfolding numeric_digit_value
digits_of base [] = some []
digits_of base (c ∷ raw) =
    let rest = digits_of base raw in
    if c == b'_' then rest else elim (digit_below base (numeric_digit_value c)) [
      | none ↦ none
      | some d ↦ digit_before d rest
    ]

-- The number that the digits stand for behind those that made `u`.
unfoldable pub value_from : ℕ → ℕ → List ℕ → ℕ
value_from base u [] = u
value_from base u (d ∷ ds) = value_from base (u * base + d) ds

pub value_from-le : (base u : ℕ) (ds : List ℕ) → 0 < base → u ≤ value_from base u ds
unfolding value_from
value_from-le base u [] h = omega arith
value_from-le base u (d ∷ ds) h = omega (arith, value_from-le base (u * base + d) ds h, grows)
  where
    grows : u * 1 ≤ u * base
    grows = grind (arith, h)

-- The test that is made for each digit is one for overflow.
overflow :
    (base limit u d : ℕ)
    → 0 < base
    → d < base
    → (ltb (limit / base) u || (u == limit / base && ltb (limit % base) d))
      ≡ ltb limit (u * base + d)
overflow base limit u d pos below =
    let q : ℕ = limit / base in
    let r : ℕ = limit % base in
    let whole : q * base + r ≡ limit = div-add-mod' limit base in
    let small : r < base = mod-lt limit pos in
    elim (Bool-cases (ltb q u)) [
      | inl more ↦
          let above : suc q * base ≤ u * base =
            mul-le-mul_right base (let e : suc q ≤ u = ground (arith, more) in e) in
          let step : suc q * base ≡ q * base + base = grind arith in
          rw more (sym (truth limit (u * base + d) (omega (arith, whole, small, above, step))))
      | inr within ↦ elim (Bool-cases (u == q)) [
        | inl same ↦
            let e : u * base ≡ q * base = ap (λ (n : ℕ). n * base) ((==_iff u q).0 same) in
            rw (within, same) (tail q base r limit u d whole e)
        | inr other ↦
            let under : suc u ≤ q = ground (arith, within, other) in
            let below' : suc u * base ≤ q * base = mul-le-mul_right base under in
            let step : suc u * base ≡ u * base + base = grind arith in
            rw (within, other)
              (sym (untruth limit (u * base + d) (omega (arith, whole, below, below', step))))
      ]
    ]
  where
    truth : (n m : ℕ) → n < m → ltb n m ≡ true
    truth n m h = ground arith

    untruth : (n m : ℕ) → m ≤ n → ltb n m ≡ false
    untruth n m h = ground arith

    tail :
        (q base r limit u d : ℕ)
        → q * base + r ≡ limit
        → u * base ≡ q * base
        → ltb r d ≡ ltb limit (u * base + d)
    tail q base r limit u d whole e = elim (Bool-cases (ltb r d)) [
      | inl less ↦
          let lt : r < d = ground (arith, less) in
          rw less (sym (truth limit (u * base + d) (omega (arith, whole, e, lt))))
      | inr not_less ↦
          let le : d ≤ r = ground (arith, not_less) in
          rw not_less (sym (untruth limit (u * base + d) (omega (arith, whole, e, le))))
    ]

digit_below-lt : (base : ℕ) (o : Option ℕ) (d : ℕ) → digit_below base o ≡ some d → d < base
digit_below-lt base none d e = cc
digit_below-lt base (some k) d e = ground (arith, e)

-- What the loop gives for the digits behind those that made `u`.
abbrev in_limit : ℕ → ℕ → Result NumberError ℕ
in_limit limit v = if ltb limit v then err err_range else ok v

abbrev answer : ℕ → ℕ → ℕ → Bool → List ℕ → Result NumberError ℕ
answer base limit u saw [] = if saw then ok u else err err_syntax
answer base limit u saw (d ∷ ds) = in_limit limit (value_from base u (d ∷ ds))

module _ (base limit : ℕ) (pos : 0 < base) where
  abbrev run_digits : ℕ → Bool → Bytes → Result NumberError ℕ
  run_digits = digits_from base (limit / base) (limit % base)

  in_limit-small : (v : ℕ) → v ≤ limit → in_limit limit v ≡ ok v
  in_limit-small v h = let small : ltb limit v ≡ false = ground (arith, h) in rw small refl

  in_limit-big : (v : ℕ) → limit < v → in_limit limit v ≡ err err_range
  in_limit-big v h = let big : ltb limit v ≡ true = ground (arith, h) in rw big refl

  answer-seen :
      (u : ℕ) (ds : List ℕ)
      → u ≤ limit
      → answer base limit u true ds ≡ in_limit limit (value_from base u ds)
  unfolding value_from
  answer-seen u [] h = sym (in_limit-small u h)
  answer-seen u (d ∷ ds) h = refl

  digits_from-digits_of :
      (u : ℕ) (saw : Bool) (raw : Bytes) (ds : List ℕ)
      → u ≤ limit
      → digits_of base raw ≡ some ds
      → run_digits u saw raw ≡ answer base limit u saw ds
  unfolding digits_from digits_of value_from
  digits_from-digits_of u saw [] ds h e = let none_there : ds ≡ [] = cc e in rw none_there refl
  digits_from-digits_of u saw (c ∷ raw) ds h e = elim (Bool-cases (c == b'_')) [
    | inl skip ↦ rw skip (digits_from-digits_of u saw raw ds h (rw skip at e))
    | inr other ↦ elim (Option-cases (digit_below base (numeric_digit_value c))) [
      | inl bad ↦ absurd (let e' = rw (other, bad) at e in cc e')
      | inr (d, good) ↦ elim (Option-cases (digits_of base raw)) [
        | inl missing ↦ absurd (let e' = rw (other, good, missing) at e in cc e')
        | inr (ds', found) ↦
            let e' : some (d ∷ ds') ≡ some ds = rw (other, good, found) at e in
            let same : ds ≡ d ∷ ds' = cc e' in
            let test =
              overflow base limit u d pos (digit_below-lt base (numeric_digit_value c) d good) in
            elim (Bool-cases (ltb limit (u * base + d))) [
              | inl over ↦
                  let far : limit < u * base + d = ground (arith, over) in
                  rw (other, good, test, over, same)
                    (sym (
                      in_limit-big (value_from base (u * base + d) ds')
                        (omega (arith, far, value_from-le base (u * base + d) ds' pos))))
              | inr within ↦
                  let near : u * base + d ≤ limit = ground (arith, within) in
                  rw (other, good, test, within, same)
                    (digits_from-digits_of (u * base + d) true raw ds' near found
                      ∙ answer-seen (u * base + d) ds' near)
            ]
      ]
    ]
  ]

  digits_from-none :
      (u : ℕ) (saw : Bool) (raw : Bytes) (v : ℕ)
      → digits_of base raw ≡ none
      → run_digits u saw raw ≢ ok v
  unfolding digits_from digits_of
  digits_from-none u saw [] v e f = cc e
  digits_from-none u saw (c ∷ raw) v e f = elim (Bool-cases (c == b'_')) [
    | inl skip ↦ digits_from-none u saw raw v (rw skip at e) (rw skip at f)
    | inr other ↦ elim (Option-cases (digit_below base (numeric_digit_value c))) [
      | inl bad ↦ let f' = rw (other, bad) at f in cc f'
      | inr (d, good) ↦
          let over : Bool = ltb (limit / base) u || (u == limit / base && ltb (limit % base) d) in
          elim (Bool-cases over) [
            | inl far ↦ let f' = rw (other, good, far) at f in cc f'
            | inr near ↦
                digits_from-none (u * base + d) true raw v
                  (later (digits_of base raw) d (rw (other, good) at e))
                  (rw (other, good, near) at f)
          ]
    ]
  ]
    where
      later : (o : Option (List ℕ)) (d : ℕ) → digit_before d o ≡ none → o ≡ none
      later none d e = refl
      later (some ds) d e = cc

pub parse_uint_literal_digits-digits_of :
    (raw : Bytes) (base limit : ℕ)
    → 0 < base
    → ((d : ℕ) (ds : List ℕ)
        → digits_of base raw ≡ some (d ∷ ds)
        → (value_from base 0 (d ∷ ds) ≤ limit
            → parse_uint_literal_digits raw base limit ≡ ok (value_from base 0 (d ∷ ds)))
          × (limit < value_from base 0 (d ∷ ds)
              → parse_uint_literal_digits raw base limit ≡ err err_range))
      × (digits_of base raw ≡ some [] → parse_uint_literal_digits raw base limit ≡ err err_syntax)
      × (digits_of base raw ≡ none → (v : ℕ) → parse_uint_literal_digits raw base limit ≢ ok v)
unfolding parse_uint_literal_digits digits_of
parse_uint_literal_digits-digits_of [] base limit pos =
    (λ d ds e. absurd (cc e), λ e. refl, λ e. absurd (cc e))
parse_uint_literal_digits-digits_of (c ∷ raw) base limit pos =
    let nonempty : (length (c ∷ raw) == 0) ≡ false = suc_ne_zero (length raw) in
    let read = digits_from-digits_of base limit pos 0 false (c ∷ raw) in
    (
      λ d ds e. (
        λ small. rw nonempty (
            read (d ∷ ds) (omega arith) e
            ∙ in_limit-small base limit pos (value_from base 0 (d ∷ ds)) small),
        λ big. rw nonempty (
            read (d ∷ ds) (omega arith) e
            ∙ in_limit-big base limit pos (value_from base 0 (d ∷ ds)) big),
      ),
      λ e. rw nonempty (read [] (omega arith) e),
      λ e v f. digits_from-none base limit pos 0 false (c ∷ raw) v e (rw nonempty at f),
    )
  where
    suc_ne_zero : (n : ℕ) → (suc n == 0) ≡ false
    suc_ne_zero n = ground arith
