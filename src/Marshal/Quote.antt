-- ===== src/Marshal/Quote.antt =====
-- marshal.go: strings between quotes, keys, and the headers of tables.
pub mod Reads
pub mod Fast
pub mod Printable
pub mod Bodies
pub mod RoundTrip
pub mod Paths
pub mod Headers
use go_toml.Prelude.{
  ℕ, zero, suc, ◌+◌, ◌-◌, ◌/◌, ◌%◌, ◌⊎◌, inl, inr, Result, ok, err, ◌>>=◌, Option, none, some, Bool,
  true, false, not, ◌&&◌, ◌||◌, List, [], ◌∷◌, ◌++◌, Bytes, length, drop, slice, get_or, ltb, leb,
  ◌==◌, if◌then◌else◌, codes,
}
use go_toml.Prelude.Loop.{loop}
use go_toml.Prelude.Utf8.{decode_rune, rune_error}
use go_toml.Scan.{first_stop}
use go_toml.Scan.Kernels.{scan_basic_string_escape_swar}
use go_toml.Decoder.Keys.{all_key_bytes}

pub data MarshalError : Type 0 where
  invalid_utf8 : MarshalError
  -- a loop of this model was given too little fuel
  stuck : MarshalError

abbrev pub hex_digits : Bytes
hex_digits = codes "0123456789ABCDEF"

-- `\u00XX`
unfoldable pub unicode_escape : ℕ → Bytes
unicode_escape c =
    b'\\' ∷ b'u' ∷ b'0' ∷ b'0' ∷ get_or hex_digits (c / 16) 0 ∷ get_or hex_digits (c % 16) 0 ∷ []

unfoldable pub control_escape : ℕ → Bytes
unfolding unicode_escape
control_escape c =
    if c == 0x08
    then b'\\' ∷ b'b' ∷ []
    else if c == b'\t'
    then b'\\' ∷ b't' ∷ []
    else if c == b'\n'
    then b'\\' ∷ b'n' ∷ []
    else if c == 0x0C
    then b'\\' ∷ b'f' ∷ []
    else if c == b'\r'
    then b'\\' ∷ b'r' ∷ []
    else unicode_escape c

-- `i`, `start` and `b` of `appendBasicString`.
pub record Quoting : Type 0 where
  pub i : ℕ
  pub start : ℕ
  pub b : Bytes

-- `b = append(b, s[start:i]...); b = append(b, escape...); i += size; start = i`
abbrev pub escape_there : Bytes → Quoting → Bytes → ℕ → Quoting
escape_there s q escape size = record {
  i = q.i + size;
  start = q.i + size;
  b = (q.b ++ slice s q.start q.i) ++ escape;
}

-- `i += size`
abbrev pub keep_there : Quoting → ℕ → Quoting
keep_there q size = record q { i = q.i + size }

unfoldable pub quote_turn : Bytes → Quoting → Result MarshalError Quoting ⊎ Quoting
unfolding control_escape decode_rune
quote_turn s q =
    let c : ℕ = get_or s q.i 0 in
    let (r, size) = decode_rune (drop q.i s) in
    if not (ltb q.i (length s))
    then inl (ok q)
    else if leb 0x20 c && ltb c 0x7F
    then (if c == b'"' || c == b'\\'
        then inr (escape_there s q (b'\\' ∷ c ∷ []) 1)
        else inr (keep_there q 1))
    else if ltb c 0x80
    then inr (escape_there s q (control_escape c) 1)
    else if r == rune_error && size == 1
    then inl (err invalid_utf8)
    else if leb r 0x9F
    then inr (escape_there s q (unicode_escape r) size)
    else inr (keep_there q size)

-- Every turn moves `i` on, so fuel for every byte is enough.
unfoldable pub append_basic_string : Bytes → Bytes → Result MarshalError Bytes
unfolding quote_turn loop
append_basic_string b s =
    loop (quote_turn s) (err stuck) (suc (length s))
      (record { i = 0; start = 0; b = b ++ b'"' ∷ [] })
    >>= λ q. ok ((q.b ++ drop q.start s) ++ b'"' ∷ [])

-- What `asciiQuoteEscapeIndex` answers: -1, `quoteFallback`, or the place of the first escape.
pub data QuoteIndex : Type 0 where
  no_escape quote_fallback : QuoteIndex
  first_escape : ℕ → QuoteIndex

-- The place of the first escape, where there was one.
abbrev pub or_first : Option ℕ → QuoteIndex
or_first none = no_escape
or_first (some first) = first_escape first

abbrev pub or_here : Option ℕ → ℕ → Option ℕ
or_here none idx = some idx
or_here (some first) idx = some first

-- The turn of `asciiQuoteEscapeIndex`; the state is `off` and `first`.
unfoldable pub ascii_turn : Bytes → ℕ × Option ℕ → QuoteIndex ⊎ (ℕ × Option ℕ)
unfolding scan_basic_string_escape_swar
ascii_turn s (off, first) =
    let n : ℕ = scan_basic_string_escape_swar (drop off s) in
    let idx : ℕ = off + n in
    let c : ℕ = get_or s idx 0 in
    if not (ltb off (length s))
    then inl (or_first first)
    else if n == length (drop off s)
    then inl (or_first first)
    else if ltb c 0x20 || leb 0x80 c
    then inl quote_fallback
    else inr (idx + 1, or_here first idx)

unfoldable pub ascii_quote_escape_index : Bytes → QuoteIndex
unfolding ascii_turn loop first_stop
ascii_quote_escape_index s =
    if length s == 0
    then no_escape
    else if ltb (first_stop (λ c. c == 0x7F) s) (length s)
    then quote_fallback
    else loop (ascii_turn s) quote_fallback (suc (length s)) (0, none)

-- The loop of `writeQuotedASCIIString` from `i`, where `rest` is `s[i:]` and `run` is `s[start:i]`.
unfoldable pub escape_from : Bytes → Bytes → Bytes → Bytes
escape_from b run [] = (b ++ run) ++ b'"' ∷ []
escape_from b run (c ∷ rest) =
    let escaped = escape_from ((b ++ run) ++ b'\\' ∷ c ∷ []) [] rest in
    let kept = escape_from b (run ++ c ∷ []) rest in
    if c == b'"' || c == b'\\' then escaped else kept

unfoldable pub write_quoted_ascii_string : Bytes → ℕ → Bytes
unfolding escape_from
write_quoted_ascii_string s first = escape_from (b'"' ∷ []) (slice s 0 first) (drop first s)

-- What `writeQuotedString` writes.
unfoldable pub write_quoted_string : Bytes → Result MarshalError Bytes
unfolding ascii_quote_escape_index write_quoted_ascii_string append_basic_string
write_quoted_string s = elim (ascii_quote_escape_index s) [
  | no_escape ↦ ok ((b'"' ∷ s) ++ b'"' ∷ [])
  | quote_fallback ↦ append_basic_string [] s
  | first_escape first ↦ ok (write_quoted_ascii_string s first)
]

-- The loop of `formatKey` goes by runes; one of several bytes is of no key, and so is each of its bytes.
unfoldable pub format_key : Bytes → Result MarshalError Bytes
unfolding append_basic_string all_key_bytes
format_key key =
    if length key == 0
    then ok (b'"' ∷ b'"' ∷ [])
    else if all_key_bytes key
    then ok key
    else append_basic_string [] key

-- `for i, p := range path { if i > 0 { '.' }; writeKey(buf, p) }`, behind the first key.
unfoldable pub write_keys_from : Bytes → List Bytes → Result MarshalError Bytes
unfolding format_key
write_keys_from b [] = ok b
write_keys_from b (p ∷ path) = format_key p >>= λ k. write_keys_from (b ++ b'.' ∷ k) path

unfoldable pub write_keys : Bytes → List Bytes → Result MarshalError Bytes
unfolding write_keys_from
write_keys b [] = ok b
write_keys b (p ∷ path) = format_key p >>= λ k. write_keys_from (b ++ k) path

-- What `writeHeader` writes.
unfoldable pub write_header : List Bytes → Bool → Result MarshalError Bytes
unfolding write_keys
write_header path array = write_keys (if array then b'[' ∷ b'[' ∷ [] else b'[' ∷ []) path >>= λ b.
    ok (b ++ (if array then b']' ∷ b']' ∷ b'\n' ∷ [] else b']' ∷ b'\n' ∷ []))
