-- ===== src/Decoder/Position.antt =====
-- decoder.go: the line and the column of an error.
use go_toml.Prelude.{
  ℕ, suc, ◌+◌, ◌≤◌, ◌≡◌, refl, sym, ap, ◌∙◌, arith, Option, none, some, [], ◌∷◌, Bytes, length,
  take, drop, ltb, ◌==◌, if◌then◌else◌, Bool-cases, inl, inr, Option-cases,
}
use go_toml.Prelude.Ends.{take_all}
use go_toml.Scan.{count_lines_scalar}

-- `bytes.LastIndexByte`, with `none` for -1.
unfoldable pub last_index_byte : Bytes → ℕ → Option ℕ
last_index_byte [] c = none
last_index_byte (b ∷ s) c = elim (last_index_byte s c) [
  | some i ↦ some (suc i)
  | none ↦ if b == c then some 0 else none
]

-- `for _, b := range s { if b != '\r' { col++ } }`
unfoldable pub columns_in : Bytes → ℕ
columns_in [] = 0
columns_in (b ∷ s) = if b == b'\r' then columns_in s else suc (columns_in s)

abbrev pub line_start : Option ℕ → ℕ
line_start none = 0
line_start (some last) = suc last

-- No offset of the decoder is negative.
unfoldable pub line_col_for_offset : Bytes → ℕ → ℕ × ℕ
unfolding last_index_byte columns_in count_lines_scalar
line_col_for_offset buf off =
    let off' : ℕ = if ltb (length buf) off then length buf else off in
    let prefix : Bytes = take off' buf in
    (
      1 + count_lines_scalar prefix,
      1 + columns_in (drop (line_start (last_index_byte prefix b'\n')) prefix),
    )

-- The line and the column as one reads: a newline begins a line, a carriage return has no width.
abbrev pub read_on : ℕ × ℕ → ℕ → ℕ × ℕ
read_on (line, col) b =
    if b == b'\n' then (suc line, 1) else if b == b'\r' then (line, col) else (line, suc col)

unfoldable pub read_through : ℕ × ℕ → Bytes → ℕ × ℕ
read_through at [] = at
read_through at (b ∷ s) = read_through (read_on at b) s

-- The column behind `s` that was reached from `col`.
abbrev column_behind : ℕ → Bytes → Option ℕ → ℕ
column_behind col s none = col + columns_in s
column_behind col s (some last) = 1 + columns_in (drop (suc last) s)

read_through-columns :
    (s : Bytes) (line col : ℕ)
    → read_through (line, col) s
      ≡ (line + count_lines_scalar s, column_behind col s (last_index_byte s b'\n'))
unfolding read_through last_index_byte columns_in count_lines_scalar
read_through-columns [] line col = ground arith
read_through-columns (b ∷ s) line col = elim (Bool-cases (b == b'\n')) [
  | inl newline ↦
      let lines : suc line + count_lines_scalar s ≡ line + suc (count_lines_scalar s) =
        omega arith in
      elim (Option-cases (last_index_byte s b'\n')) [
        | inl e ↦
            rw (e, newline)
              (read_through-columns s (suc line) 1 ∙ rw e (ap (λ l. (l, 1 + columns_in s)) lines))
        | inr (last, e) ↦
            rw (e, newline)
              (read_through-columns s (suc line) 1
                ∙ rw e (ap (λ l. (l, 1 + columns_in (drop (suc last) s))) lines))
      ]
  | inr other ↦ elim (Option-cases (last_index_byte s b'\n')) [
    | inr (last, e) ↦ elim (Bool-cases (b == b'\r')) [
      | inl cr ↦ rw (e, other, cr) (read_through-columns s line col ∙ rw e refl)
      | inr wide ↦ rw (e, other, wide) (read_through-columns s line (suc col) ∙ rw e refl)
    ]
    | inl e ↦ elim (Bool-cases (b == b'\r')) [
      | inl cr ↦ rw (e, other, cr) (read_through-columns s line col ∙ rw e refl)
      | inr wide ↦
          let columns : suc col + columns_in s ≡ col + suc (columns_in s) = omega arith in
          rw (e, other, wide)
            (read_through-columns s line (suc col)
              ∙ rw e (ap (λ c. (line + count_lines_scalar s, c)) columns))
    ]
  ]
]

column_behind_start :
    (s : Bytes) (o : Option ℕ) → 1 + columns_in (drop (line_start o) s) ≡ column_behind 1 s o
column_behind_start s none = refl
column_behind_start s (some last) = refl

columns_lem :
    (s : Bytes)
    → (1 + count_lines_scalar s, 1 + columns_in (drop (line_start (last_index_byte s b'\n')) s))
      ≡ read_through (1, 1) s
columns_lem s =
    ap (λ c. (1 + count_lines_scalar s, c)) (column_behind_start s (last_index_byte s b'\n'))
    ∙ sym (read_through-columns s 1 1)

-- `lineColForOffset` answers with the line and the column that a reader reaches who goes through the
-- bytes in front of the offset one by one, from line 1 and column 1; behind the text, that is its end.
pub line_col_for_offset-read_through :
    (buf : Bytes) (off : ℕ) → line_col_for_offset buf off ≡ read_through (1, 1) (take off buf)
unfolding line_col_for_offset
line_col_for_offset-read_through buf off = elim (Bool-cases (ltb (length buf) off)) [
  | inl behind ↦
      let over : length buf ≤ off = ground arith in
      rw (behind, take_all off buf over, take_all (length buf) buf (omega arith)) (columns_lem buf)
  | inr inside ↦ rw inside (columns_lem (take off buf))
]
