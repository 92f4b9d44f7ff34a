-- ===== src/Values/Strings/Steps.antt =====
-- value.go: about pieces of the body of a basic string, and the text that each one stands for.
use go_toml.Prelude.{
  ℕ, suc, ◌+◌, ◌-◌, ◌<◌, ◌≤◌, ◌≡◌, refl, sym, ap, ◌∙◌, arith, inl, Result, ok, err, Option, some,
  true, false, not, [], ◌∷◌, ◌++◌, Bytes, length, drop, slice, get_or, ltb, leb, ◌==◌, append-nil,
  append_assoc, length-drop, length-append,
}
use go_toml.Prelude.Loop.{loop-suc-inl, loop-suc-inr}
use go_toml.Prelude.Ends.{drop-cons, drop_behind}
use go_toml.Prelude.Utf8.{encode_rune, valid_rune}
use go_toml.Scan.{basic_string_strict_stop}
use go_toml.Decoder.State.{DecodeError, no_fuel}
use go_toml.Values.Strings.Fast.{goes_on, inside_at, drop-nil_over, drop_past_two}
use go_toml.Values.Strings.Runs.{
  byte_loop, byte_loop_fuel, takes_plain, write-nil, write-append, read_bytes,
}
use go_toml.Values.Strings.{
  write, body_turn, byte_piece, escape_piece, letter_piece, named_escape, unicode_piece,
  parse_unicode_escape, hex_value_from, max_parse_int32,
}

-- The reading from `i` on.
abbrev pub from : Bytes → ℕ → Option Bytes → Result DecodeError (Option Bytes)
from raw i b = byte_loop raw (suc (length raw - i)) i b

from-piece :
    (raw : Bytes) (i : ℕ) (b : Option Bytes) {c j : ℕ} {rest bs : Bytes}
    → drop i raw ≡ c ∷ rest
    → byte_piece raw false i ≡ ok (j, bs)
    → i < j
    → from raw i b ≡ from raw j (write b bs)
from-piece raw i b {j = j} {bs = bs} at piece lt =
    let (here, behind, inside) = drop-cons i raw at in
    loop-suc-inr (body_turn (byte_piece raw false) (length raw)) (err no_fuel) (length raw - i)
      (i, b) (goes_on (byte_piece raw false) (length raw) i b (inside_at i raw at) piece)
    ∙ byte_loop_fuel raw (length raw - i) (suc (length raw - j)) j (write b bs)
        (omega (arith, lt, inside)) (omega arith)

-- The piece `p` of a body stands for the text `t`: a reading that comes to it goes on behind it, with
-- the text written.
abbrev pub Decodes : Bytes → Bytes → Type 0
Decodes p t =
    (raw : Bytes) (i : ℕ) (b : Option Bytes) (rest : Bytes)
    → drop i raw ≡ p ++ rest
    → from raw i b ≡ from raw (i + length p) (write b t)

pub Decodes-nil : Decodes [] []
Decodes-nil raw i b rest at = let e : i + 0 ≡ i = omega arith in rw (e, write-nil b) refl

pub Decodes-append : (p q t u : Bytes) → Decodes p t → Decodes q u → Decodes (p ++ q) (t ++ u)
Decodes-append p q t u first second raw i b rest at =
    let at' : drop i raw ≡ p ++ (q ++ rest) = at ∙ append_assoc p q rest in
    let e : i + length (p ++ q) ≡ i + length p + length q = omega (arith, length-append p q) in
    first raw i b (q ++ rest) at'
    ∙ second raw (i + length p) (write b t) rest (drop_behind i p raw (q ++ rest) at')
    ∙ (λ k. from raw (sym e k) (write-append b t u k))

-- A body that is one such piece.
pub read_bytes-Decodes : (p t : Bytes) → Decodes p t → read_bytes p (some []) ≡ ok (some t)
unfolding read_bytes
read_bytes-Decodes p t piece =
    let whole : drop (0 + length p) p ≡ [] = drop_behind 0 p p [] (sym (append-nil p)) in
    let done : body_turn (byte_piece p false) (length p) (0 + length p, some t)
        ≡ inl (ok (some t)) =
      rw (drop-nil_over (0 + length p) p whole) refl in
    byte_loop_fuel p (suc (length p)) (suc (length p - 0)) 0 (some []) (omega arith) (omega arith)
    ∙ piece p 0 (some []) [] (sym (append-nil p))
    ∙ loop-suc-inl (body_turn (byte_piece p false) (length p)) (err no_fuel)
        (length p - (0 + length p)) (0 + length p, some t) done

pub Decodes-plain : (c : ℕ) → basic_string_strict_stop c ≡ false → Decodes (c ∷ []) (c ∷ [])
Decodes-plain c plain raw i b rest at =
    from-piece raw i b at (takes_plain raw i c at plain) (omega arith)

escape_at :
    (raw : Bytes) (i : ℕ) {rest : Bytes}
    → drop i raw ≡ b'\\' ∷ rest
    → byte_piece raw false i ≡ escape_piece raw i
unfolding byte_piece
escape_at raw i at =
    let (here, behind, inside) = drop-cons i raw at in
    let escape : not (get_or raw i 0 == b'\\') ≡ false = rw here refl in
    rw (byte_piece, escape) refl

leb-false : (n m : ℕ) → m < n → leb n m ≡ false
leb-false n m h = ground arith

ltb-false : (n m : ℕ) → m ≤ n → ltb n m ≡ false
ltb-false n m h = ground arith

-- An escape of one letter.
pub Decodes-named : (c e : ℕ) → named_escape c ≡ some e → Decodes (b'\\' ∷ c ∷ []) (e ∷ [])
unfolding escape_piece letter_piece
Decodes-named c e named raw i b rest at =
    let (here, behind, inside) = drop-cons i raw at in
    let (here', behind', inside') = drop-cons (i + 1) raw behind in
    let more = leb-false (length raw) (i + 1) inside' in
    let letter : letter_piece raw i c ≡ ok (i + 2, e ∷ []) = rw (letter_piece, named) refl in
    let piece : escape_piece raw i ≡ ok (i + 2, e ∷ []) = rw (escape_piece, more, here') letter in
    from-piece raw i b at (escape_at raw i at ∙ piece) (omega arith)

-- An escape `\u` with four digits.
pub Decodes-unicode :
    (h1 h2 h3 h4 v : ℕ)
    → hex_value_from 0 (h1 ∷ h2 ∷ h3 ∷ h4 ∷ []) ≡ some v
    → ltb max_parse_int32 v ≡ false
    → valid_rune v ≡ true
    → Decodes (b'\\' ∷ b'u' ∷ h1 ∷ h2 ∷ h3 ∷ h4 ∷ []) (encode_rune v)
unfolding escape_piece letter_piece unicode_piece parse_unicode_escape named_escape
Decodes-unicode h1 h2 h3 h4 v hex small valid raw i b rest at =
    let (here, behind, inside) = drop-cons i raw at in
    let (here', behind', inside') = drop-cons (i + 1) raw behind in
    let more = leb-false (length raw) (i + 1) inside' in
    let digits : drop (i + 2) raw ≡ h1 ∷ h2 ∷ h3 ∷ h4 ∷ rest = drop_past_two i raw at in
    let six : drop (i + 6) raw ≡ rest =
      drop_behind i (b'\\' ∷ b'u' ∷ h1 ∷ h2 ∷ h3 ∷ h4 ∷ []) raw rest at in
    let enough =
      ltb-false (length raw) (i + 2 + 4) (omega (arith, ap length at, length-drop i raw)) in
    let width : i + 2 + 4 - (i + 2) ≡ 4 = omega arith in
    let chunk : slice raw (i + 2) (i + 2 + 4) ≡ h1 ∷ h2 ∷ h3 ∷ h4 ∷ [] = rw (width, digits) refl in
    let rune : parse_unicode_escape raw (i + 2) 4 ≡ ok v =
      rw (parse_unicode_escape, enough, chunk, hex, small, valid) refl in
    let sum : i + 2 + 4 ≡ i + 6 = omega arith in
    let unicode : unicode_piece raw i 4 ≡ ok (i + 6, encode_rune v) =
      rw (unicode_piece, rune, sum) refl in
    let letter : letter_piece raw i b'u' ≡ ok (i + 6, encode_rune v) = unicode in
    let piece : escape_piece raw i ≡ ok (i + 6, encode_rune v) =
      rw (escape_piece, more, here') letter in
    from-piece raw i b at (escape_at raw i at ∙ piece) (omega arith)
