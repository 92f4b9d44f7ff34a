-- ===== src/Scan/Word.antt =====
-- internal/scan/scan_swar.go: tests on the eight bytes of a word at once. A word is a number below
-- 2 ^ 64, its lowest byte first.
pub mod Bytewise
pub mod Marks
pub mod Tests
pub mod First
use Prim.Native.Nat.{bit_and, bit_xor}
use go_toml.Prelude.{
  ℕ, zero, suc, ◌+◌, ◌-◌, ◌*◌, ◌/◌, ◌%◌, ◌^◌, Bool, true, false, [], ◌∷◌, Bytes, take, drop, ◌==◌,
}

abbrev pub modulus : ℕ
modulus = 2 ^ 64

abbrev pub swar_ones : ℕ
swar_ones = 0x0101010101010101

abbrev pub swar_highs : ℕ
swar_highs = 0x8080808080808080

-- `^w`
abbrev pub complement : ℕ → ℕ
complement w = modulus - 1 - w

unfoldable pub has_zero : ℕ → ℕ
has_zero w = bit_and (bit_and ((w + modulus - swar_ones) % modulus) (complement w)) swar_highs

unfoldable pub has_byte_eq : ℕ → ℕ → ℕ
has_byte_eq w c = has_zero (bit_xor w (c * swar_ones % modulus))

unfoldable pub has_byte_less_than : ℕ → ℕ → ℕ
has_byte_less_than w n =
    bit_and (bit_and ((w + modulus - n * swar_ones % modulus) % modulus) (complement w)) swar_highs

-- The number whose bytes are these, the lowest first.
unfoldable pub word_of : Bytes → ℕ
word_of [] = 0
word_of (b ∷ s) = b + 256 * word_of s

unfoldable pub load_u64 : Bytes → ℕ → ℕ
load_u64 b i = word_of (take 8 (drop i b))

-- `bits.TrailingZeros64`: the zeros below the lowest one, of the digits that are left.
unfoldable pub zeros_below : ℕ → ℕ → ℕ
zeros_below zero m = 0
zeros_below (suc digits) m = elim (m % 2 == 0) [
  | true ↦ suc (zeros_below digits (m / 2))
  | false ↦ 0
]

unfoldable pub trailing_zeros64 : ℕ → ℕ
trailing_zeros64 m = zeros_below 64 m
