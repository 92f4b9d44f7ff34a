-- ===== src/Document/LineSpan.antt =====
-- document.go: the span of the lines that an entry stands on.
use go_toml.Prelude.{
  ℕ, zero, suc, ◌+◌, ◌≤◌, arith, ◌||◌, [], ◌∷◌, Bytes, length, drop, get_or, length-drop, ◌==◌,
  if◌then◌else◌,
}

-- `for lineStart > 0 && data[lineStart-1] != '\n' && data[lineStart-1] != '\r' { lineStart-- }`
unfoldable pub line_start_before : Bytes → ℕ → ℕ
line_start_before raw zero = 0
line_start_before raw (suc n) =
    let before = line_start_before raw n in
    if get_or raw n 0 == b'\n' || get_or raw n 0 == b'\r' then suc n else before

-- The bytes up to the end of the line at the front of `rest`, its newline included.
unfoldable pub line_rest : Bytes → ℕ
line_rest [] = 0
line_rest (b ∷ []) = 1
line_rest (b ∷ c ∷ rest) =
    let later = line_rest (c ∷ rest) in
    if b == b'\n' then 1 else if b == b'\r' then (if c == b'\n' then 2 else 1) else suc later

-- `lineSpan`
unfoldable pub line_span : Bytes → ℕ → ℕ → ℕ × ℕ
unfolding line_start_before line_rest
line_span raw start end = (line_start_before raw start, end + line_rest (drop end raw))

line_start_before-le : (raw : Bytes) (n : ℕ) → line_start_before raw n ≤ n
unfolding line_start_before
line_start_before-le raw zero = omega arith
line_start_before-le raw (suc n) = ground (arith, line_start_before-le raw n)

line_rest-le : (rest : Bytes) → line_rest rest ≤ length rest
unfolding line_rest
line_rest-le [] = omega arith
line_rest-le (b ∷ []) = omega arith
line_rest-le (b ∷ c ∷ rest) = ground (arith, line_rest-le (c ∷ rest))

-- The span of the lines goes round what it was asked for, and stays within the text.
pub line_span-bounds :
    (raw : Bytes) (start end : ℕ)
    → end ≤ length raw
    → ((line_span raw start end).0 ≤ start)
      × (end ≤ (line_span raw start end).1)
      × ((line_span raw start end).1 ≤ length raw)
unfolding line_span
line_span-bounds raw start end h = (
  line_start_before-le raw start,
  omega arith,
  omega (arith, h, length-drop end raw, line_rest-le (drop end raw)),
)
