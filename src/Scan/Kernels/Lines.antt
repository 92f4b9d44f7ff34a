-- ===== src/Scan/Kernels/Lines.antt =====
-- The kernels that look for the end of a bare value, of a line and of a bare key.
use go_toml.Prelude.{
  [], ◌∷◌, ℕ, ◌+◌, ◌≤◌, ◌<◌, ◌≡◌, ◌⊎◌, inl, inr, refl, ap, ◌∙◌, arith, ℤ, pos, negsuc, Bool, true,
  false, not, ◌&&◌, ◌||◌, none, some, Bytes, length, take, drop, get_or, ltb, leb, ◌==◌,
  if◌then◌else◌, length-drop,
}
use go_toml.Prelude.Equal.{passes_below, passes_below-lt}
use go_toml.Scan.{first_stop, bare_value_delimiter}
use go_toml.Scan.Word.{load_u64, has_byte_eq}
use go_toml.Scan.Word.Bytewise.{AreBytes}
use go_toml.Scan.Kernels.{
  for_bytes, marked_at, bare_value_marks, scan_bare_value_end_swar, locate_newline_swar, found_pos,
  bare_key_class, scan_bare_key_swar, fill_class, no_class,
}
use go_toml.Scan.Kernels.Exact.{
  stop_from, for_bytes-first_stop, for_words-first_stop, chunk-length, chunk-AreBytes,
  marked_at-first_stop,
}
use go_toml.Scan.Kernels.First.{
  Marks, Marks-ext, byte_eq-Marks, or_byte_eq-Marks, marked-first_stop,
}

abbrev delimiters : ℕ → Bool
delimiters b =
    (((((((b == b' ' || b == b'\t') || b == b'\r') || b == b'\n') || b == b',') || b == b']')
        || b == b'}')
      || b == b'#')
    || b == b'='

delimiters-Marks : Marks delimiters bare_value_marks
delimiters-Marks = or_byte_eq-Marks _ _ b'=' (omega arith) (
    or_byte_eq-Marks _ _ b'#' (omega arith) (
      or_byte_eq-Marks _ _ b'}' (omega arith) (
        or_byte_eq-Marks _ _ b']' (omega arith) (
          or_byte_eq-Marks _ _ b',' (omega arith) (
            or_byte_eq-Marks _ _ b'\n' (omega arith) (
              or_byte_eq-Marks _ _ b'\r' (omega arith)
                (or_byte_eq-Marks _ _ b'\t' (omega arith) (byte_eq-Marks b' ' (omega arith)))))))))

delimiters_same : (b : ℕ) → delimiters b ≡ bare_value_delimiter b
unfolding bare_value_delimiter
delimiters_same b = ground arith

-- On bytes, `scanBareValueEndSWAR` answers as `scanBareValueEndScalar` does.
pub scan_bare_value_end_swar-first_stop :
    (s : Bytes) → AreBytes s → scan_bare_value_end_swar s ≡ first_stop bare_value_delimiter s
unfolding scan_bare_value_end_swar
scan_bare_value_end_swar-first_stop s hs =
    marked-first_stop s hs bare_value_delimiter bare_value_marks (stop_from bare_value_delimiter s)
      (Marks-ext delimiters bare_value_delimiter bare_value_marks delimiters_same delimiters-Marks)
      (λ i h. refl)

abbrev newline : ℕ → Bool
newline b = b == b'\n'

abbrev newline_at : Bytes → ℕ → ℤ
newline_at s k = if ltb k (length s) then pos k else negsuc 0

module _ (s : Bytes) (hs : AreBytes s) where
  newline_turn :
      (i : ℕ)
      → i + 8 ≤ length s
      → let body = found_pos (marked_at i (has_byte_eq (load_u64 s i) b'\n')) in
        ((body ≡ none) × (stop_from newline s i ≡ stop_from newline s (i + 8)))
        ⊎ (body ≡ some (newline_at s (stop_from newline s i)))
  unfolding load_u64 Marks
  newline_turn i room =
      elim (marked_at-first_stop s hs i room newline (has_byte_eq (load_u64 s i) b'\n') (
        byte_eq-Marks b'\n' (omega arith) (take 8 (drop i s)) (chunk-AreBytes s hs i room)
          (chunk-length s hs i room))) [
            | inl (nothing, same) ↦ inl (ap found_pos nothing, same)
            | inr (answer, less) ↦
                let inside : ltb (stop_from newline s i) (length s) ≡ true = ground arith in
                inr (ap found_pos answer ∙ rw inside refl)
          ]

  newline_tail :
      (i : ℕ)
      → i ≤ length s
      → for_bytes newline pos (negsuc 0) i (drop i s) ≡ newline_at s (stop_from newline s i)
  newline_tail i h =
      let same : ltb (first_stop newline (drop i s)) (length (drop i s))
          ≡ ltb (stop_from newline s i) (length s) =
        ground (arith, length-drop i s) in
      for_bytes-first_stop newline pos (negsuc 0) i (drop i s) ∙ rw same refl

-- On bytes, `locateNewlineSWAR` answers with the position of the first newline, and with -1 exactly when there
-- is none.
pub locate_newline_swar-first_stop :
    (s : Bytes)
    → AreBytes s
    → locate_newline_swar s ≡ (
        if ltb (first_stop (λ b. b == b'\n') s) (length s)
        then pos (first_stop (λ b. b == b'\n') s)
        else negsuc 0)
unfolding locate_newline_swar load_u64
locate_newline_swar-first_stop s hs =
    for_words-first_stop newline s (newline_at s)
      (λ i. found_pos (marked_at i (has_byte_eq (load_u64 s i) b'\n')))
      (λ i. for_bytes newline pos (negsuc 0) i (drop i s)) (newline_turn s hs) (newline_tail s hs)
      (length s) 0 (omega arith)
    ∙ ap (newline_at s) (let e : 0 + first_stop newline s ≡ first_stop newline s = omega arith in e)

-- The bytes of a bare key.
abbrev pub is_bare_key : ℕ → Bool
is_bare_key b =
    (leb b'A' b && leb b b'Z')
    || (leb b'a' b && leb b b'z')
    || (leb b'0' b && leb b b'9')
    || b == b'_'
    || b == b'-'

class_table :
    passes_below
      (λ b.
        if is_bare_key b
        then get_or bare_key_class b false
        else not (get_or bare_key_class b false))
      256
    ≡ true
unfolding passes_below bare_key_class fill_class no_class
class_table = refl

class_entry : (b : ℕ) → b < 256 → get_or bare_key_class b false ≡ is_bare_key b
class_entry b hb = ground (
  arith,
  passes_below-lt
      (λ b.
        if is_bare_key b
        then get_or bare_key_class b false
        else not (get_or bare_key_class b false))
      256 class_table b hb,
)

-- On bytes, `scanBareKeySWAR` counts the letters, digits, underscores and dashes in front of a text: the table
-- that it reads was filled with these and with no other byte.
pub scan_bare_key_swar-first_stop :
    (s : Bytes) → AreBytes s → scan_bare_key_swar s ≡ first_stop (λ b. not (is_bare_key b)) s
unfolding scan_bare_key_swar first_stop
scan_bare_key_swar-first_stop [] hs = refl
scan_bare_key_swar-first_stop (b ∷ s) (hb, hs) =
    rw (class_entry b hb, scan_bare_key_swar-first_stop s hs) refl

-- On bytes, `scanBareValueEndSWAR` answers as `scanBareValueEndScalar` does, and `scanBareKeySWAR`
-- counts the letters, digits, underscores and dashes in front of a text: the table that it reads was
-- filled with these and with no other byte.
pub scan_bare_kernels-first_stop :
    (s : Bytes)
    → AreBytes s
    → (scan_bare_value_end_swar s ≡ first_stop bare_value_delimiter s)
      × (scan_bare_key_swar s ≡ first_stop (λ b. not (is_bare_key b)) s)
scan_bare_kernels-first_stop s hs =
    (scan_bare_value_end_swar-first_stop s hs, scan_bare_key_swar-first_stop s hs)
