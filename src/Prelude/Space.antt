-- ===== src/Prelude/Space.antt =====
-- `unicode.IsSpace` and `bytes.TrimSpace`.
use Prim.Native.Nat.{ℕ, zero, suc, ◌-◌}
use mathlib.Core.Bool.{Bool, true, not, ◌&&◌, ◌||◌}
use mathlib.Core.List.{[], ◌∷◌}
use go_toml.Prelude.Tests.{leb, ◌==◌, if◌then◌else◌, Bytes}
use go_toml.Prelude.Utf8.{decode_rune}

-- The white space of Unicode.
unfoldable pub is_space_rune : ℕ → Bool
is_space_rune r =
    (leb b'\t' r && leb r b'\r')
    || r == b' '
    || r == 0x85
    || r == 0xA0
    || r == 0x1680
    || (leb 0x2000 r && leb r 0x200A)
    || r == 0x2028
    || r == 0x2029
    || r == 0x202F
    || r == 0x205F
    || r == 0x3000

-- The bytes of the space at the front, or zero if there is none.
abbrev pub space_width : Bytes → ℕ
space_width s = let (r, size) = decode_rune s in if is_space_rune r then size else 0

-- What is behind the spaces in front; `skip` more bytes belong to the last space.
unfoldable pub trim_front : ℕ → Bytes → Bytes
unfolding decode_rune is_space_rune
trim_front skip [] = []
trim_front (suc skip) (c ∷ s) = trim_front skip s
trim_front zero (c ∷ s) =
    let width : ℕ = space_width (c ∷ s) in
    let behind = trim_front (width - 1) s in if width == 0 then c ∷ s else behind

unfoldable pub only_spaces : ℕ → Bytes → Bool
unfolding decode_rune is_space_rune
only_spaces skip [] = true
only_spaces (suc skip) (c ∷ s) = only_spaces skip s
only_spaces zero (c ∷ s) =
    let width : ℕ = space_width (c ∷ s) in not (width == 0) && only_spaces (width - 1) s

-- The text without the longest end that is made of spaces. No encoding of a space is the end of
-- another one, so `utf8.DecodeLastRune` finds the same spaces from behind.
unfoldable pub trim_end : Bytes → Bytes
unfolding only_spaces
trim_end [] = []
trim_end (c ∷ s) = let rest = trim_end s in if only_spaces 0 (c ∷ s) then [] else c ∷ rest

unfoldable pub trim_space : Bytes → Bytes
unfolding trim_front trim_end
trim_space s = trim_end (trim_front 0 s)
