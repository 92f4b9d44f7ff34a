-- ===== src/Document/Format.antt =====
-- document.go: strings that keep the quotes of the one they replace.
use go_toml.Prelude.{
  ℕ, suc, ◌+◌, ◌-◌, ◌⊎◌, inl, inr, Result, ok, Bool, true, false, not, ◌&&◌, ◌||◌, [], ◌∷◌, ◌++◌,
  Bytes, length, drop, get_or, ltb, leb, ◌==◌, if◌then◌else◌,
}
use go_toml.Prelude.Loop.{loop}
use go_toml.Prelude.Utf8.{decode_rune, rune_error}
use go_toml.Prelude.Space.{trim_space}
use go_toml.Marshal.Quote.{MarshalError, append_basic_string}

-- The turn of `literalStringSafe` at `i`.
unfoldable pub safe_turn : Bytes → ℕ → Bool ⊎ ℕ
unfolding decode_rune
safe_turn s i =
    let c : ℕ = get_or s i 0 in
    let (r, size) = decode_rune (drop i s) in
    if not (ltb i (length s))
    then inl true
    else if ltb c 0x80
    then (if c == b'\'' || c == 0x7f || (ltb c 0x20 && not (c == b'\t'))
        then inl false
        else inr (i + 1))
    else if (r == rune_error && size == 1) || leb r 0x9f
    then inl false
    else inr (i + size)

-- Every turn moves `i` on, so fuel for every byte is enough.
unfoldable pub literal_string_safe : Bytes → Bool
unfolding safe_turn loop
literal_string_safe s = loop (safe_turn s) false (suc (length s)) 0

unfoldable pub format_string_like : Bytes → Bytes → Result MarshalError Bytes
unfolding trim_space literal_string_safe append_basic_string
format_string_like existing value =
    let trimmed : Bytes = trim_space existing in
    if leb 2 (length trimmed)
      && (get_or trimmed 0 0 == b'\'' && get_or trimmed (length trimmed - 1) 0 == b'\'')
      && literal_string_safe value
    then ok ((b'\'' ∷ value) ++ b'\'' ∷ [])
    else append_basic_string [] value
