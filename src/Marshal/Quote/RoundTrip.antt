-- ===== src/Marshal/Quote/RoundTrip.antt =====
-- marshal.go, value.go: about `parseStringValue` on what `appendBasicString` writes.
use go_toml.Prelude.{
  ◌+◌, ◌-◌, ◌≡◌, refl, sym, ap, ◌∙◌, arith, ok, some, Bool, true, false, ◌&&◌, [], ◌∷◌, ◌++◌, Bytes,
  length, take, slice, get_or, get_or-append, leb, ◌==◌, length-append,
}
use go_toml.Scan.Word.Bytewise.{AreBytes}
use go_toml.Values.Strings.{
  string_value_body, has_triple_delimiter, has_pair_delimiter, basic_string, built,
  parse_basic_string_body, parse_string_value,
}
use go_toml.Values.Strings.Fast.{parse_basic_string_body-scan_basic_string_body}
use go_toml.Values.Strings.Runs.{scan_basic_string_body-read_bytes}
use go_toml.Values.Strings.Steps.{read_bytes-Decodes}
use go_toml.Marshal.Quote.{append_basic_string}
use go_toml.Marshal.Quote.Bodies.{Encodes}
use go_toml.Marshal.Quote.Reads.{append_basic_string-Encodes}

pub take-append : (xs ys : Bytes) → take (length xs) (xs ++ ys) ≡ xs
take-append [] ys = refl
take-append (x ∷ xs) ys = ap (λ t. x ∷ t) (take-append xs ys)

-- A body between its quotes.
abbrev pub quoted : Bytes → Bytes
quoted tail = b'"' ∷ (tail ++ b'"' ∷ [])

first_false : (a b c : Bool) → b ≡ false → (a && b && c) ≡ false
first_false a b c h = ground (arith, h)

length-quoted : (tail : Bytes) → length (quoted tail) ≡ length tail + 2
length-quoted tail = omega (arith, length-append tail (b'"' ∷ []))

not_triple :
    (tail : Bytes)
    → (get_or tail 0 0 == b'"') ≡ false
    → has_triple_delimiter (quoted tail) b'"' ≡ false
unfolding has_triple_delimiter
not_triple [] h = refl
not_triple (c ∷ tail) h = rw h (any_false (leb 6 (length (quoted (c ∷ tail)))) _)
  where
    any_false : (a c : Bool) → (a && false && c) ≡ false
    any_false a c = ground arith

-- The parts of a string token whose body does not begin with a quote.
pub string_value_body-quoted :
    (tail : Bytes)
    → (get_or tail 0 0 == b'"') ≡ false
    → string_value_body (quoted tail) ≡ ok (tail, basic_string)
unfolding string_value_body
string_value_body-quoted tail h =
    let raw : Bytes = quoted tail in
    let last : length raw - 1 ≡ length (b'"' ∷ tail) = omega (arith, length-quoted tail) in
    let closing : get_or raw (length raw - 1) 0 ≡ b'"' =
      get_or-append (b'"' ∷ tail) b'"' [] (length raw - 1) 0 (sym last) in
    let literal3 : has_triple_delimiter raw b'\'' ≡ false =
      unfold has_triple_delimiter in first_false (leb 6 (length raw)) false _ refl in
    let literal1 : has_pair_delimiter raw b'\'' ≡ false =
      unfold has_pair_delimiter in neither (leb 2 (length raw)) in
    let long : leb 2 (length raw) ≡ true = ground (arith, length-quoted tail) in
    let basic1 : has_pair_delimiter raw b'"' ≡ true =
      unfold has_pair_delimiter in rw (closing, long) refl in
    let width : length raw - 1 - 1 ≡ length tail = omega (arith, length-quoted tail) in
    let body : slice raw 1 (length raw - 1) ≡ tail = rw width (take-append tail (b'"' ∷ [])) in
    rw (string_value_body, literal3, not_triple tail h, literal1, basic1, body) refl
  where
    neither : (a : Bool) → (a && false) ≡ false
    neither a = ground arith

-- `parseStringValue` reads a body between quotes as the text that the body stands for.
pub parse_string_value-Encodes :
    (tail s : Bytes) → Encodes tail s → parse_string_value (quoted tail) ≡ ok s
unfolding parse_string_value
parse_string_value-Encodes tail s x =
    let read : parse_basic_string_body tail false ≡ ok s =
      parse_basic_string_body-scan_basic_string_body tail false
      ∙ ap built (
          scan_basic_string_body-read_bytes tail (some []) x.bytes
          ∙ read_bytes-Decodes tail s x.decodes) in
    rw (parse_string_value, string_value_body-quoted tail x.no_quote) read

-- `parseStringValue` reads back every string that `appendBasicString` writes.
pub parse_string_value-append_basic_string :
    (s out : Bytes) → AreBytes s → append_basic_string [] s ≡ ok out → parse_string_value out ≡ ok s
parse_string_value-append_basic_string s out bytes e =
    let (tail, same, x) = append_basic_string-Encodes [] s out bytes e in
    rw same (parse_string_value-Encodes tail s x)
