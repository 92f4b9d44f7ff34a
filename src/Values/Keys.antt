-- ===== src/Values/Keys.antt =====
-- value.go: the path that a key or a header names.
pub mod Ends
use go_toml.Prelude.{
  ℕ, suc, ◌+◌, ◌-◌, ◌⊎◌, inl, inr, Result, ok, err, ◌>>=◌, Bool, true, false, not, ◌&&◌, ◌||◌, List,
  [], ◌∷◌, ◌++◌, Bytes, length, take, drop, slice, get_or, ltb, leb, ◌==◌, if◌then◌else◌,
}
use go_toml.Prelude.Loop.{loop}
use go_toml.Scan.{first_stop}
use go_toml.Decoder.State.{DecodeError, no_fuel}
use go_toml.Decoder.Keys.{is_simple_bare_key, not_blank}
use go_toml.Values.Strings.{value_error, parse_string_value}

abbrev pub is_space : ℕ → Bool
is_space c = c == b' ' || c == b'\t' || c == b'\n' || c == b'\r'

-- The length without the spaces at the end.
unfoldable pub spaceless_length : Bytes → ℕ
spaceless_length [] = 0
spaceless_length (c ∷ raw) =
    let n = spaceless_length raw in if n == 0 && is_space c then 0 else suc n

unfoldable pub bytes_trim_space : Bytes → Bytes
unfolding first_stop spaceless_length
bytes_trim_space raw =
    let front : Bytes = drop (first_stop (λ c. not (is_space c)) raw) raw in
    take (spaceless_length front) front

-- `bytes.TrimLeft(raw, " \t")`
unfoldable pub trim_left : Bytes → Bytes
unfolding first_stop
trim_left raw = drop (first_stop not_blank raw) raw

-- `for end < len(raw) { ... }` behind the opening quote `q`: the place of the closing quote, or one at or
-- beyond the end.
unfoldable pub quote_end : ℕ → Bytes → ℕ
quote_end q [] = 0
quote_end q (c ∷ []) = if c == b'\\' && q == b'"' then 2 else if c == q then 0 else 1
quote_end q (c ∷ d ∷ rest) =
    let behind = suc (suc (quote_end q rest)) in
    let next = suc (quote_end q (d ∷ rest)) in
    if c == b'\\' && q == b'"' then behind else if c == q then 0 else next

-- The segment at the front of `raw`, which is not empty, and what is behind it; `size` is `origLen`.
unfoldable pub quoted_segment : ℕ → Bytes → Result DecodeError (Bytes × Bytes)
unfolding quote_end parse_string_value
quoted_segment size raw =
    let q : ℕ = get_or raw 0 0 in
    let end : ℕ = 1 + quote_end q (drop 1 raw) in
    if leb (length raw) end
    then err (value_error "unterminated quoted key" 1 0 size)
    else parse_string_value (take (end + 1) raw) >>= λ v. ok (v, drop (end + 1) raw)

abbrev pub segment_end : ℕ → Bool
segment_end c = c == b'.' || c == b' ' || c == b'\t'

unfoldable pub bare_segment : ℕ → Bytes → Result DecodeError (Bytes × Bytes)
unfolding first_stop is_simple_bare_key
bare_segment size raw =
    let end : ℕ = first_stop segment_end raw in
    let part : Bytes = take end raw in
    if length part == 0
    then err (value_error "empty key segment" 1 0 size)
    else if not (is_simple_bare_key part)
    then err (value_error "unexpected token in dotted key" 1 0 size)
    else ok (part, drop end raw)

unfoldable pub segment : ℕ → Bytes → Result DecodeError (Bytes × Bytes)
unfolding quoted_segment bare_segment
segment size raw =
    if get_or raw 0 0 == b'\'' || get_or raw 0 0 == b'"'
    then quoted_segment size raw
    else bare_segment size raw

-- The state of the loop is `raw` and `parts`.
abbrev pub Parts : Type 0
Parts = Result DecodeError (List Bytes) ⊎ (Bytes × List Bytes)

-- Behind a segment.
unfoldable pub behind_segment : ℕ → Bytes → List Bytes → Parts
unfolding trim_left
behind_segment size raw parts =
    let rest : Bytes = trim_left raw in
    if length rest == 0
    then inl (ok parts)
    else if not (get_or rest 0 0 == b'.')
    then inl (err (value_error "unexpected token in dotted key" 1 0 size))
    else if length (trim_left (drop 1 rest)) == 0
    then inl (err (value_error "empty key segment" 1 0 size))
    else inr (drop 1 rest, parts)

unfoldable pub segment_turn : ℕ → Bytes × List Bytes → Parts
unfolding trim_left segment behind_segment
segment_turn size (raw, parts) =
    if length (trim_left raw) == 0 then inl (ok parts) else elim (segment size (trim_left raw)) [
      | err e ↦ inl (err e)
      | ok (part, rest) ↦ behind_segment size rest (parts ++ part ∷ [])
    ]

-- `if len(parts) == 0 { return nil, err }`
abbrev pub some_parts : ℕ → List Bytes → Result DecodeError (List Bytes)
some_parts size [] = err (value_error "empty key" 1 0 size)
some_parts size (part ∷ parts) = ok (part ∷ parts)

-- Every turn leaves less of `raw`, so fuel for every byte is enough.
unfoldable pub parse_dotted_key : Bytes → Result DecodeError (List Bytes)
unfolding bytes_trim_space segment_turn loop
parse_dotted_key raw =
    let size : ℕ = length raw in
    loop (segment_turn size) (err no_fuel) (suc size) (bytes_trim_space raw, []) >>= λ parts.
    some_parts size parts

unfoldable pub key_path : Bytes → Result DecodeError (List Bytes)
unfolding is_simple_bare_key parse_dotted_key
key_path raw = if is_simple_bare_key raw then ok (raw ∷ []) else parse_dotted_key raw

unfoldable pub trim_header_key : Bytes → Bool → Bytes
unfolding bytes_trim_space
trim_header_key text array =
    let raw : Bytes = bytes_trim_space text in
    if array
    then (if leb 4 (length raw) then bytes_trim_space (slice raw 2 (length raw - 2)) else [])
    else if leb 2 (length raw)
    then bytes_trim_space (slice raw 1 (length raw - 1))
    else []

unfoldable pub parse_header_key : Bytes → Bool → Result DecodeError (List Bytes)
unfolding trim_header_key parse_dotted_key
parse_header_key raw array = parse_dotted_key (trim_header_key raw array)

-- `strings.Join(path, "\x00")`, behind the first part.
unfoldable pub join_from : Bytes → List Bytes → Bytes
join_from b [] = b
join_from b (p ∷ path) = join_from (b ++ 0 ∷ p) path

unfoldable pub encoded_key_path : List Bytes → Bytes
unfolding join_from
encoded_key_path [] = []
encoded_key_path (p ∷ path) = join_from p path
