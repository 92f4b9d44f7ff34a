-- ===== src/Marshal/Quote/Bodies.antt =====
-- marshal.go: about the pieces that `appendBasicString` writes, and what each one reads as.
use go_toml.Prelude.{
  ℕ, suc, ◌+◌, ◌/◌, ◌%◌, ◌<◌, ◌≤◌, ◌≡◌, refl, sym, ap, ◌∙◌, arith, inl, inr, Option, none, some,
  Bool, true, false, not, ◌&&◌, [], ◌∷◌, ◌++◌, Bytes, length, get_or, ltb, leb, ◌==◌, Bool-cases,
  append_assoc, length-append, All, ==_iff, subst,
}
use go_toml.Prelude.Equal.{passes_below, passes_below-lt}
use go_toml.Prelude.Utf8.{encode_rune, valid_rune}
use go_toml.Prelude.Utf8.Front.{IsHigh}
use go_toml.Scan.{basic_string_strict_stop}
use go_toml.Scan.Word.Bytewise.{AreBytes}
use go_toml.Values.Strings.{hex_value_from, named_escape, max_parse_int32}
use go_toml.Values.Strings.Steps.{
  Decodes, Decodes-nil, Decodes-append, Decodes-plain, Decodes-named, Decodes-unicode,
}
use go_toml.Values.Keys.{quote_end}
use go_toml.Marshal.Quote.{hex_digits, unicode_escape, control_escape}

-- The search for the closing quote of a key passes a piece.
abbrev pub Passes : Bytes → Type 0
Passes p = (rest : Bytes) → quote_end b'"' (p ++ rest) ≡ length p + quote_end b'"' rest

-- A piece of a body that stands for the text, and does not begin with a quote.
pub record Encodes (p t : Bytes) : Type 0 where
  pub decodes : Decodes p t
  pub passes : Passes p
  pub bytes : AreBytes p
  pub no_quote : (get_or p 0 0 == b'"') ≡ false

pub append-AreBytes : (xs ys : Bytes) → AreBytes xs → AreBytes ys → AreBytes (xs ++ ys)
append-AreBytes [] ys hx hy = hy
append-AreBytes (x ∷ xs) ys (p, hx) hy = (p, append-AreBytes xs ys hx hy)

head-append :
    (p q : Bytes)
    → (get_or p 0 0 == b'"') ≡ false
    → (get_or q 0 0 == b'"') ≡ false
    → (get_or (p ++ q) 0 0 == b'"') ≡ false
head-append [] q hp hq = hq
head-append (c ∷ p) q hp hq = hp

pub Encodes-nil : Encodes [] []
Encodes-nil = record {
  decodes = Decodes-nil;
  passes = λ rest. (let e : quote_end b'"' rest ≡ 0 + quote_end b'"' rest = omega arith in e);
  bytes = tt;
  no_quote = refl;
}

pub Encodes-append : (p q t u : Bytes) → Encodes p t → Encodes q u → Encodes (p ++ q) (t ++ u)
Encodes-append p q t u x y = record {
  decodes = Decodes-append p q t u x.decodes y.decodes;
  passes = λ rest.
      ap (quote_end b'"') (append_assoc p q rest)
      ∙ x.passes (q ++ rest)
      ∙ (let e : length p + quote_end b'"' (q ++ rest) ≡ length (p ++ q) + quote_end b'"' rest =
            omega (arith, y.passes rest, length-append p q) in
          e);
  bytes = append-AreBytes p q x.bytes y.bytes;
  no_quote = head-append p q x.no_quote y.no_quote;
}

-- A byte that is neither a backslash nor a quote.
quote_end-cons :
    (c : ℕ) (rest : Bytes)
    → (c == b'\\') ≡ false
    → (c == b'"') ≡ false
    → quote_end b'"' (c ∷ rest) ≡ suc (quote_end b'"' rest)
unfolding quote_end
quote_end-cons c [] no_escape other = rw (no_escape, other) refl
quote_end-cons c (d ∷ rest) no_escape other = rw (quote_end, no_escape, other) refl

plain_marks :
    (c : ℕ) → basic_string_strict_stop c ≡ false → ((c == b'\\') ≡ false) × ((c == b'"') ≡ false)
unfolding basic_string_strict_stop
plain_marks c h = ground arith

pub Encodes-plain :
    (c : ℕ) → c < 256 → basic_string_strict_stop c ≡ false → Encodes (c ∷ []) (c ∷ [])
Encodes-plain c byte plain =
    let (no_escape, other) = plain_marks c plain in
    record {
      decodes = Decodes-plain c plain;
      passes = λ rest.
          quote_end-cons c rest no_escape other
          ∙ (let e : suc (quote_end b'"' rest) ≡ 1 + quote_end b'"' rest = omega arith in e);
      bytes = (byte, tt);
      no_quote = other;
    }

-- Bytes of a code point of several bytes stand for themselves.
pub Encodes-high : (s : Bytes) → AreBytes s → All IsHigh s → Encodes s s
Encodes-high [] bytes high = Encodes-nil
Encodes-high (c ∷ s) (byte, bytes) (h, high) =
    Encodes-append (c ∷ []) s (c ∷ []) s (Encodes-plain c byte (high_plain c h))
      (Encodes-high s bytes high)
  where
    high_plain : (c : ℕ) → 0x80 ≤ c → basic_string_strict_stop c ≡ false
    high_plain c h = unfold basic_string_strict_stop in ground arith

pub Encodes-named :
    (c e : ℕ) → c < 256 → named_escape c ≡ some e → Encodes (b'\\' ∷ c ∷ []) (e ∷ [])
unfolding quote_end
Encodes-named c e byte named = record {
  decodes = Decodes-named c e named;
  passes = λ rest.
      (let e : suc (suc (quote_end b'"' rest)) ≡ 2 + quote_end b'"' rest = omega arith in e);
  bytes = (omega arith, (byte, tt));
  no_quote = refl;
}

-- The digits of `\u00XX`, for every code point that is written so.
abbrev digits_of : ℕ → Bytes
digits_of v = b'0' ∷ b'0' ∷ get_or hex_digits (v / 16) 0 ∷ get_or hex_digits (v % 16) 0 ∷ []

abbrev hex_digit_there : ℕ → Bool
hex_digit_there c = ltb c 256 && (not (c == b'"') && not (c == b'\\'))

abbrev digits_read : ℕ → Bool
digits_read v =
    elim (hex_value_from 0 (digits_of v)) [ none ↦ false | some w ↦ w == v ]
    && (hex_digit_there (get_or hex_digits (v / 16) 0)
        && hex_digit_there (get_or hex_digits (v % 16) 0))

digits_table : passes_below digits_read 160 ≡ true
unfolding passes_below hex_value_from
digits_table = refl

digits_lem : (v : ℕ) → v < 160 → digits_read v ≡ true
digits_lem v h = passes_below-lt digits_read 160 digits_table v h

read_back :
    (o : Option ℕ) (more : Bool) (v : ℕ)
    → (elim o [ none ↦ false | some w ↦ w == v ] && more) ≡ true
    → (o ≡ some v) × (more ≡ true)
read_back none more v h = absurd (ground (arith, h))
read_back (some w) more v h = ground (arith, h)

digit_lem :
    (c : ℕ) → hex_digit_there c ≡ true → (c < 256) × ((c == b'"') ≡ false) × ((c == b'\\') ≡ false)
digit_lem c h = ground (arith, h)

both_digits : (a b : Bool) → (a && b) ≡ true → (a ≡ true) × (b ≡ true)
both_digits a b h = ground (arith, h)

pub Encodes-unicode : (v : ℕ) → v < 160 → Encodes (unicode_escape v) (encode_rune v)
unfolding unicode_escape quote_end
Encodes-unicode v h =
    let h1 : ℕ = get_or hex_digits (v / 16) 0 in
    let h2 : ℕ = get_or hex_digits (v % 16) 0 in
    let (hex, digits) =
      read_back (hex_value_from 0 (digits_of v)) (hex_digit_there h1 && hex_digit_there h2) v
        (digits_lem v h) in
    let (d1, d2) = both_digits (hex_digit_there h1) (hex_digit_there h2) digits in
    let (byte1, quote1, escape1) = digit_lem h1 d1 in
    let (byte2, quote2, escape2) = digit_lem h2 d2 in
    let small : ltb max_parse_int32 v ≡ false = ground (arith, h) in
    let valid : valid_rune v ≡ true = unfold valid_rune in ground (arith, h) in
    record {
      decodes = Decodes-unicode b'0' b'0' h1 h2 v hex small valid;
      passes = λ rest.
          ap (λ (n : ℕ). suc (suc (suc (suc n))))
            (quote_end-cons h1 (h2 ∷ rest) escape1 quote1
              ∙ ap suc (quote_end-cons h2 rest escape2 quote2))
          ∙ (let e : suc (suc (suc (suc (suc (suc (quote_end b'"' rest))))))
                  ≡ 6 + quote_end b'"' rest =
                omega arith in
              e);
      bytes = (omega arith, (omega arith, (omega arith, (omega arith, (byte1, (byte2, tt))))));
      no_quote = refl;
    }

-- A control character of ASCII.
pub Encodes-control :
    (c : ℕ) → c < 0x80 → (leb 0x20 c && ltb c 0x7F) ≡ false → Encodes (control_escape c) (c ∷ [])
unfolding control_escape
Encodes-control c ascii control = elim (Bool-cases (c == 0x08)) [
  | inl b ↦ rw b (subst_named (the c 0x08 b) (Encodes-named b'b' 0x08 (omega arith) letters.0))
  | inr nb ↦ elim (Bool-cases (c == b'\t')) [
    | inl t ↦
        rw (nb, t) (subst_named (the c b'\t' t) (Encodes-named b't' b'\t' (omega arith) letters.1))
    | inr nt ↦ elim (Bool-cases (c == b'\n')) [
      | inl n ↦
          rw (nb, nt, n)
            (subst_named (the c b'\n' n) (Encodes-named b'n' b'\n' (omega arith) letters.2))
      | inr nn ↦ elim (Bool-cases (c == 0x0C)) [
        | inl f ↦
            rw (nb, nt, nn, f)
              (subst_named (the c 0x0C f) (Encodes-named b'f' 0x0C (omega arith) letters.3))
        | inr nf ↦ elim (Bool-cases (c == b'\r')) [
          | inl r ↦
              rw (nb, nt, nn, nf, r)
                (subst_named (the c b'\r' r) (Encodes-named b'r' b'\r' (omega arith) letters.4))
          | inr nr ↦
              rw (nb, nt, nn, nf, nr)
                (rw (sym (encode_ascii c ascii)) (Encodes-unicode c (omega arith)))
        ]
      ]
    ]
  ]
]
  where
    the : (c k : ℕ) → (c == k) ≡ true → k ≡ c
    the c k h = sym ((==_iff c k).0 h)

    subst_named : {p : Bytes} {k c : ℕ} → k ≡ c → Encodes p (k ∷ []) → Encodes p (c ∷ [])
    subst_named {p} e x = subst (λ (n : ℕ). Encodes p (n ∷ [])) e x

    encode_ascii : (c : ℕ) → c < 0x80 → encode_rune c ≡ c ∷ []
    encode_ascii c h =
        unfold encode_rune in (let small : ltb c 0x80 ≡ true = ground (arith, h) in rw small refl)

    letters :
        (named_escape b'b' ≡ some 0x08)
        × (named_escape b't' ≡ some b'\t')
        × (named_escape b'n' ≡ some b'\n')
        × (named_escape b'f' ≡ some 0x0C)
        × (named_escape b'r' ≡ some b'\r')
    letters = unfold named_escape in (refl, refl, refl, refl, refl)
