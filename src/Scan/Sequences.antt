-- ===== src/Scan/Sequences.antt =====
-- internal/scan/scan_arm64.go: the check of UTF-8 by ranges of bytes, which scan_amd64.go has as well.
use go_toml.Prelude.{
  ℕ, suc, ◌+◌, ◌⊎◌, inl, inr, Bool, not, ◌&&◌, ◌||◌, Bytes, length, drop, get_or, ltb, leb, ◌==◌,
  if◌then◌else◌,
}
use go_toml.Prelude.Loop.{loop}

unfoldable pub utf8_continuation : ℕ → Bool
utf8_continuation b = leb 0x80 b && leb b 0xBF

-- The bytes of the sequence at `i`, or zero, where `rest` is `s[i:]`.
unfoldable pub validate_utf8_sequence_size : Bytes → ℕ
unfolding utf8_continuation
validate_utf8_sequence_size rest =
    let n : ℕ = length rest in
    let b0 : ℕ = get_or rest 0 0 in
    let b1 : ℕ = get_or rest 1 0 in
    let b2 : ℕ = get_or rest 2 0 in
    let b3 : ℕ = get_or rest 3 0 in
    if ltb b0 0x80
    then 1
    else if ltb b0 0xC2
    then 0
    else if ltb b0 0xE0
    then (if ltb 1 n && utf8_continuation b1 then 2 else 0)
    else if ltb b0 0xF0
    then (if leb n 2
        then 0
        else if not (utf8_continuation b1) || not (utf8_continuation b2)
        then 0
        else if b0 == 0xE0 && ltb b1 0xA0
        then 0
        else if b0 == 0xED && leb 0xA0 b1
        then 0
        else 3)
    else if ltb b0 0xF5
    then (if leb n 3
        then 0
        else if not (utf8_continuation b1)
            || not (utf8_continuation b2)
            || not (utf8_continuation b3)
        then 0
        else if b0 == 0xF0 && ltb b1 0x90
        then 0
        else if b0 == 0xF4 && leb 0x90 b1
        then 0
        else 4)
    else 0

-- The turn of `validateUTF8Scalar` at `i`.
unfoldable pub scalar_turn : Bytes → ℕ → ℕ ⊎ ℕ
unfolding validate_utf8_sequence_size
scalar_turn s i =
    let size : ℕ = validate_utf8_sequence_size (drop i s) in
    if not (ltb i (length s)) then inl (length s) else if size == 0 then inl i else inr (i + size)

-- Every turn moves `i` on, so fuel for every byte is enough.
unfoldable pub validate_utf8_scalar : Bytes → ℕ
unfolding scalar_turn loop
validate_utf8_scalar s = loop (scalar_turn s) (length s) (suc (length s)) 0
