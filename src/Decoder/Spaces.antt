-- ===== src/Decoder/Spaces.antt =====
-- decoder.go: `skipSpaces`. The code takes a run of blanks at once, which leaves the same state as one
-- blank at a time.
use go_toml.Prelude.{
  ℕ, ◌+◌, ◌≤◌, ◌≡◌, ◌⊎◌, refl, ◌∙◌, arith, Bool, true, false, ◌||◌, ◌&&◌, [], ◌∷◌, Bytes, length,
  ◌++◌, length-append, drop_past, drop, ◌==◌, if◌then◌else◌, inl, inr,
}
use go_toml.Decoder.State.{Decoder}

abbrev pub end_line : Decoder → ℕ → Decoder
end_line d n = record d { off = d.off + n; at_line_start = true; need_line_end = false }

-- What stands at the offset: a blank, the end of a line, or where the scan stops.
pub data Space : Type 0 where
  blank line_feed carriage_return_line_feed boundary : Space

-- `b` and the byte behind it; newlines are left to the caller after a key.
unfoldable pub space_at : ℕ → ℕ → Bool → Space
space_at b c no_newline =
    if b == b' ' || b == b'\t'
    then blank
    else if b == b'\n'
    then (if no_newline then boundary else line_feed)
    else if b == b'\r' && c == b'\n'
    then (if no_newline then boundary else carriage_return_line_feed)
    else boundary

-- `rest` is what stands at the offset.
unfoldable pub skip_from : Bytes → Decoder → Decoder
unfolding space_at
skip_from [] d = d
skip_from (b ∷ []) d = elim (space_at b 0 d.value_no_newline) [
  | blank ↦ record d { off = d.off + 1 }
  | line_feed ↦ end_line d 1
  | carriage_return_line_feed ↦ d
  | boundary ↦ d
]
skip_from (b ∷ c ∷ rest) d = elim (space_at b c d.value_no_newline) [
  | blank ↦ skip_from (c ∷ rest) (record d { off = d.off + 1 })
  | line_feed ↦ skip_from (c ∷ rest) (end_line d 1)
  | carriage_return_line_feed ↦ skip_from rest (end_line d 2)
  | boundary ↦ d
]

unfoldable pub skip_spaces : Decoder → Decoder
unfolding skip_from
skip_spaces d = skip_from (drop d.off d.buf) d

-- The scan stops in front of these bytes.
abbrev pub AtBoundary : Bytes → Bool → Type 0
AtBoundary [] no_newline = Unit
AtBoundary (b ∷ []) no_newline = space_at b 0 no_newline ≡ boundary
AtBoundary (b ∷ c ∷ rest) no_newline = space_at b c no_newline ≡ boundary

-- What a skip leaves as it was, and where it stops.
pub record Skipped (rest : Bytes) (d d' : Decoder) : Type 0 where
  pub count : ℕ
  pub moved : d'.off ≡ d.off + count
  pub inside : count ≤ length rest
  pub stops : AtBoundary (drop count rest) d.value_no_newline
  pub same_buf : d'.buf ≡ d.buf
  pub same_expecting : d'.expecting_value ≡ d.expecting_value
  pub same_newline : d'.value_no_newline ≡ d.value_no_newline
  pub same_separator : d'.need_separator ≡ d.need_separator
  pub same_containers : d'.containers ≡ d.containers
  pub line_end : d'.need_line_end ≡ true → d.need_line_end ≡ true

Space-cases :
    (s : Space) → (s ≡ blank) ⊎ (s ≡ line_feed) ⊎ (s ≡ carriage_return_line_feed) ⊎ (s ≡ boundary)
Space-cases blank = inl refl
Space-cases line_feed = inr (inl refl)
Space-cases carriage_return_line_feed = inr (inr (inl refl))
Space-cases boundary = inr (inr (inr refl))

lone_return : (b : ℕ) (no_newline : Bool) → space_at b 0 no_newline ≡ carriage_return_line_feed → ⊥
unfolding space_at
lone_return b no_newline h = ground arith

-- Nothing skipped.
still : (rest : Bytes) (d : Decoder) → AtBoundary rest d.value_no_newline → Skipped rest d d
still rest d h = record {
  count = 0;
  moved = omega arith;
  inside = omega arith;
  stops = h;
  same_buf = refl;
  same_expecting = refl;
  same_newline = refl;
  same_separator = refl;
  same_containers = refl;
  line_end = λ e. e;
}

-- A skip that begins `n` bytes further on, in a state that differs only in what a line's end changes.
further :
    (n : ℕ) (front rest : Bytes) (d d1 d' : Decoder)
    → length front ≡ n
    → d1.off ≡ d.off + n
    → d1.buf ≡ d.buf
    → d1.expecting_value ≡ d.expecting_value
    → d1.value_no_newline ≡ d.value_no_newline
    → d1.need_separator ≡ d.need_separator
    → d1.containers ≡ d.containers
    → (d1.need_line_end ≡ true → d.need_line_end ≡ true)
    → Skipped rest d1 d'
    → Skipped (front ++ rest) d d'
further n front rest d d1 d' size off buf expecting newline separator containers line s = record {
  count = n + s.count;
  moved = omega (arith, s.moved);
  inside = omega (arith, s.inside, length-append front rest);
  stops = rw (drop_past front rest n s.count size, ← newline) s.stops;
  same_buf = s.same_buf ∙ buf;
  same_expecting = s.same_expecting ∙ expecting;
  same_newline = s.same_newline ∙ newline;
  same_separator = s.same_separator ∙ separator;
  same_containers = s.same_containers ∙ containers;
  line_end = λ e. line (s.line_end e);
}

skip_from-Skipped : (rest : Bytes) (d : Decoder) → Skipped rest d (skip_from rest d)
unfolding skip_from
skip_from-Skipped [] d = still [] d tt
skip_from-Skipped (b ∷ []) d = elim (Space-cases (space_at b 0 d.value_no_newline)) [
  | inl e ↦
      rw (skip_from, e)
        (further 1 (b ∷ []) [] d (record d { off = d.off + 1 }) (record d { off = d.off + 1 }) refl
          refl refl refl refl refl refl (λ h. h) (still [] (record d { off = d.off + 1 }) tt))
  | inr (inl e) ↦
      rw (skip_from, e)
        (further 1 (b ∷ []) [] d (end_line d 1) (end_line d 1) refl refl refl refl refl refl refl
          (λ h. ground arith) (still [] (end_line d 1) tt))
  | inr (inr (inl e)) ↦ absurd (lone_return b d.value_no_newline e)
  | inr (inr (inr e)) ↦ rw (skip_from, e) (still (b ∷ []) d e)
]
skip_from-Skipped (b ∷ c ∷ rest) d = elim (Space-cases (space_at b c d.value_no_newline)) [
  | inl e ↦
      rw (skip_from, e)
        (further 1 (b ∷ []) (c ∷ rest) d (record d { off = d.off + 1 })
          (skip_from (c ∷ rest) (record d { off = d.off + 1 })) refl refl refl refl refl refl refl
          (λ h. h) (skip_from-Skipped (c ∷ rest) (record d { off = d.off + 1 })))
  | inr (inl e) ↦
      rw (skip_from, e)
        (further 1 (b ∷ []) (c ∷ rest) d (end_line d 1) (skip_from (c ∷ rest) (end_line d 1)) refl
          refl refl refl refl refl refl (λ h. ground arith)
          (skip_from-Skipped (c ∷ rest) (end_line d 1)))
  | inr (inr (inl e)) ↦
      rw (skip_from, e)
        (further 2 (b ∷ c ∷ []) rest d (end_line d 2) (skip_from rest (end_line d 2)) refl refl refl
          refl refl refl refl (λ h. ground arith) (skip_from-Skipped rest (end_line d 2)))
  | inr (inr (inr e)) ↦ rw (skip_from, e) (still (b ∷ c ∷ rest) d e)
]

pub skip_spaces-Skipped : (d : Decoder) → Skipped (drop d.off d.buf) d (skip_spaces d)
unfolding skip_spaces
skip_spaces-Skipped d = skip_from-Skipped (drop d.off d.buf) d
