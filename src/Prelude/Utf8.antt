-- ===== src/Prelude/Utf8.antt =====
-- `unicode/utf8`: code points as UTF-8.
pub mod Front
use Prim.Native.Nat.{ℕ, ◌+◌, ◌-◌, ◌*◌, ◌/◌, ◌%◌}
use mathlib.Core.Bool.{Bool, ◌&&◌, ◌||◌}
use mathlib.Core.List.{[], ◌∷◌}
use go_toml.Prelude.Tests.{ltb, leb, ◌==◌, if◌then◌else◌, Bytes}
use go_toml.Prelude.Lists.{get_or}

abbrev pub rune_error : ℕ
rune_error = 0xFFFD

-- `utf8.ValidRune`
unfoldable pub valid_rune : ℕ → Bool
valid_rune r = ltb r 0xD800 || (leb 0xE000 r && leb r 0x10FFFF)

-- A byte behind the first one, with six bits of the code point.
abbrev pub continuation : ℕ → ℕ
continuation bits = 0x80 + bits % 64

abbrev pub is_continuation : ℕ → Bool
is_continuation b = leb 0x80 b && leb b 0xBF

-- `utf8.AppendRune(nil, r)`
unfoldable pub encode_rune : ℕ → Bytes
unfolding valid_rune
encode_rune r =
    if ltb r 0x80
    then r ∷ []
    else if ltb r 0x800
    then (0xC0 + r / 64) ∷ continuation r ∷ []
    else if valid_rune r
    then (if ltb r 0x10000
        then (0xE0 + r / 4096) ∷ continuation (r / 64) ∷ continuation r ∷ []
        else (0xF0 + r / 262144)
          ∷ continuation (r / 4096)
          ∷ continuation (r / 64)
          ∷ continuation r
          ∷ [])
    else 0xEF ∷ 0xBF ∷ 0xBD ∷ []

-- The second byte of a sequence of three or four bytes is kept in a range by the first one: there is
-- no overlong form, no surrogate and nothing beyond the last plane.
abbrev pub low_second : ℕ → ℕ
low_second b = if b == 0xE0 then 0xA0 else if b == 0xF0 then 0x90 else 0x80

abbrev pub high_second : ℕ → ℕ
high_second b = if b == 0xED then 0x9F else if b == 0xF4 then 0x8F else 0xBF

abbrev pub second_in_range : ℕ → ℕ → Bool
second_in_range b c = leb (low_second b) c && leb c (high_second b)

-- The tests of a sequence of two, three and four bytes.
abbrev pub two_there : ℕ → ℕ → Bool
two_there b c = leb 0xC2 b && leb b 0xDF && is_continuation c

abbrev pub three_there : ℕ → ℕ → ℕ → Bool
three_there b c d = leb 0xE0 b && leb b 0xEF && (second_in_range b c && is_continuation d)

abbrev pub four_there : ℕ → ℕ → ℕ → ℕ → Bool
four_there b c d e =
    leb 0xF0 b && leb b 0xF4 && (second_in_range b c && (is_continuation d && is_continuation e))

-- The code point at the front and the number of its bytes; a position behind the end reads as zero,
-- which is no continuation.
unfoldable pub decode_rune : Bytes → ℕ × ℕ
decode_rune [] = (rune_error, 0)
decode_rune (b ∷ s) =
    let c : ℕ = get_or s 0 0 in
    let d : ℕ = get_or s 1 0 in
    let e : ℕ = get_or s 2 0 in
    if ltb b 0x80
    then (b, 1)
    else if two_there b c
    then ((b - 0xC0) * 64 + (c - 0x80), 2)
    else if three_there b c d
    then ((b - 0xE0) * 4096 + (c - 0x80) * 64 + (d - 0x80), 3)
    else if four_there b c d e
    then ((b - 0xF0) * 262144 + (c - 0x80) * 4096 + (d - 0x80) * 64 + (e - 0x80), 4)
    else (rune_error, 1)
