-- ===== src/Scan/Kernels/First.antt =====
-- internal/scan/scan_swar.go: the kernels over words and the loops over single bytes.
use Prim.Native.Nat.{bit_and, bit_or}
use mathlib.Core.Path.{subst}
use go_toml.Prelude.{
  ℕ, ◌≤◌, ◌<◌, ◌≡◌, inl, inr, refl, ◌∙◌, arith, Bool, true, ◌||◌, Bytes, length, take, drop, ltb,
  leb, ◌==◌, length-drop, Bool-cases,
}
use go_toml.Scan.{first_stop, basic_string_escape_stop, basic_string_strict_stop, comment_body_stop}
use go_toml.Scan.Word.{word_of, load_u64, has_byte_eq, has_byte_less_than, swar_highs}
use go_toml.Scan.Word.Bytewise.{AreBytes}
use go_toml.Scan.Word.Tests.{WordFinds, byte_eq-Finds, less_than-Finds, highs-Finds, or-Finds}
use go_toml.Scan.Kernels.{
  for_words, for_bytes, marked_at, confirmed_at, basic_string_stop, basic_string_marks,
  basic_string_escape_marks, basic_string_strict_marks, comment_body_marks, scan_basic_string_swar,
  scan_basic_string_escape_swar, scan_basic_string_strict_swar, scan_comment_body_swar,
  scan_literal_string_swar,
}
use go_toml.Scan.Kernels.Exact.{
  stop_from, first_stop-le, for_bytes-first_stop, for_words-first_stop, chunk-length,
  chunk-AreBytes, marked_at-first_stop, confirmed_at-first_stop,
}

-- The marks of a word are those of a test.
unfoldable pub Marks : (ℕ → Bool) → (ℕ → ℕ) → Type 0
Marks stop marks = (t : Bytes) → AreBytes t → length t ≡ 8 → WordFinds stop t (marks (word_of t))

module _ (s : Bytes) (hs : AreBytes s) (stop : ℕ → Bool) where
  from_start : stop_from stop s 0 ≡ first_stop stop s
  from_start = omega arith

  -- The loop over the bytes that are left.
  tail-first_stop :
      (i : ℕ) → i ≤ length s → for_bytes stop (λ j. j) (length s) i (drop i s) ≡ stop_from stop s i
  tail-first_stop i h =
      for_bytes-first_stop stop (λ j. j) (length s) i (drop i s)
      ∙ elim (Bool-cases (ltb (first_stop stop (drop i s)) (length (drop i s)))) [
        | inl less ↦ rw less refl
        | inr all ↦ rw all (ground (arith, all, first_stop-le stop (drop i s), length-drop i s))
      ]

  -- The loop over words, of a kernel that goes by the lowest mark.
  pub marked-first_stop :
      (marks : ℕ → ℕ) (after : ℕ → ℕ)
      → Marks stop marks
      → ((i : ℕ) → i ≤ length s → after i ≡ stop_from stop s i)
      → for_words (λ i. marked_at i (marks (load_u64 s i))) after (length s) (length s) 0
        ≡ first_stop stop s
  unfolding load_u64 Marks
  marked-first_stop marks after finds tail =
      for_words-first_stop stop s (λ k. k) (λ i. marked_at i (marks (load_u64 s i))) after
        (λ i room.
          elim (marked_at-first_stop s hs i room stop (marks (load_u64 s i))
            (finds (take 8 (drop i s)) (chunk-AreBytes s hs i room) (chunk-length s hs i room))) [
              | inl nothing ↦ inl nothing
              | inr (answer, less) ↦ inr answer
            ])
        tail (length s) 0 (omega arith)
      ∙ from_start

  -- The same, of a kernel that looks again at the bytes of a word that is marked.
  confirmed-first_stop :
      (wider : ℕ → Bool) (marks : ℕ → ℕ)
      → ((b : ℕ) → stop b ≡ true → wider b ≡ true)
      → Marks wider marks
      → for_words
          (λ i. confirmed_at (first_stop stop) s i (marks (load_u64 s i)))
          (stop_from stop s)
          (length s)
          (length s)
          0
        ≡ first_stop stop s
  unfolding load_u64 Marks
  confirmed-first_stop wider marks implies finds =
      for_words-first_stop stop s (λ k. k)
        (λ i. confirmed_at (first_stop stop) s i (marks (load_u64 s i))) (stop_from stop s)
        (λ i room.
          confirmed_at-first_stop s hs i room stop wider (marks (load_u64 s i)) implies
            (finds (take 8 (drop i s)) (chunk-AreBytes s hs i room) (chunk-length s hs i room)))
        (λ i h. refl) (length s) 0 (omega arith)
      ∙ from_start

-- `m | hasByteEq(w, c)`
pub or_byte_eq-Marks :
    (p : ℕ → Bool) (marks : ℕ → ℕ) (c : ℕ)
    → c < 256
    → Marks p marks
    → Marks (λ b. p b || b == c) (λ w. bit_or (marks w) (has_byte_eq w c))
unfolding Marks
or_byte_eq-Marks p marks c hc finds t ht e =
    or-Finds t ht e p (λ b. b == c) (marks (word_of t)) (has_byte_eq (word_of t) c) (finds t ht e)
      (byte_eq-Finds t ht e c hc)

pub byte_eq-Marks : (c : ℕ) → c < 256 → Marks (λ b. b == c) (λ w. has_byte_eq w c)
unfolding Marks
byte_eq-Marks c hc t ht e = byte_eq-Finds t ht e c hc

quote-Marks : Marks (λ b. b == b'"' || b == b'\\') basic_string_marks
quote-Marks =
    or_byte_eq-Marks (λ b. b == b'"') (λ w. has_byte_eq w b'"') b'\\' (omega arith)
      (byte_eq-Marks b'"' (omega arith))

escape-Marks :
    Marks (λ b. ((b == b'"' || b == b'\\') || ltb b 0x20) || leb 128 b) basic_string_escape_marks
unfolding Marks
escape-Marks t ht e =
    let quotes = quote-Marks t ht e in
    let w : ℕ = word_of t in
    or-Finds t ht e (λ b. (b == b'"' || b == b'\\') || ltb b 0x20) (λ b. leb 128 b)
      (bit_or (basic_string_marks w) (has_byte_less_than w 0x20)) (bit_and w swar_highs)
      (or-Finds t ht e (λ b. b == b'"' || b == b'\\') (λ b. ltb b 0x20) (basic_string_marks w)
        (has_byte_less_than w 0x20) quotes (less_than-Finds t ht e 0x20 (omega arith)))
      (highs-Finds t ht e)

strict-Marks :
    Marks (λ b. ((b == b'"' || b == b'\\') || b == 0x7f) || ltb b 0x20) basic_string_strict_marks
unfolding Marks
strict-Marks t ht e =
    let w : ℕ = word_of t in
    or-Finds t ht e (λ b. (b == b'"' || b == b'\\') || b == 0x7f) (λ b. ltb b 0x20)
      (bit_or (basic_string_marks w) (has_byte_eq w 0x7f)) (has_byte_less_than w 0x20)
      (or_byte_eq-Marks (λ b. b == b'"' || b == b'\\') basic_string_marks 0x7f (omega arith)
        quote-Marks t ht e)
      (less_than-Finds t ht e 0x20 (omega arith))

comment-Marks : Marks (λ b. b == 0x7f || ltb b 0x20) comment_body_marks
unfolding Marks
comment-Marks t ht e =
    let w : ℕ = word_of t in
    or-Finds t ht e (λ b. b == 0x7f) (λ b. ltb b 0x20) (has_byte_eq w 0x7f)
      (has_byte_less_than w 0x20) (byte_eq-Finds t ht e 0x7f (omega arith))
      (less_than-Finds t ht e 0x20 (omega arith))

pub Marks-ext :
    (p q : ℕ → Bool) (marks : ℕ → ℕ) → ((b : ℕ) → p b ≡ q b) → Marks p marks → Marks q marks
Marks-ext p q marks same finds = subst (λ r. Marks r marks) (λ i b. same b i) finds

escape_same :
    (b : ℕ) → (((b == b'"' || b == b'\\') || ltb b 0x20) || leb 128 b) ≡ basic_string_escape_stop b
unfolding basic_string_escape_stop
escape_same b = ground arith

strict_implies :
    (b : ℕ)
    → basic_string_strict_stop b ≡ true
    → (((b == b'"' || b == b'\\') || b == 0x7f) || ltb b 0x20) ≡ true
unfolding basic_string_strict_stop
strict_implies b h = ground arith

comment_implies : (b : ℕ) → comment_body_stop b ≡ true → (b == 0x7f || ltb b 0x20) ≡ true
unfolding comment_body_stop
comment_implies b h = ground arith

-- On bytes, `scanBasicStringSWAR` finds the first quote or backslash, as a loop over single bytes does.
pub scan_basic_string_swar-first_stop :
    (s : Bytes) → AreBytes s → scan_basic_string_swar s ≡ first_stop basic_string_stop s
unfolding scan_basic_string_swar
scan_basic_string_swar-first_stop s hs =
    marked-first_stop s hs basic_string_stop basic_string_marks
      (λ i. for_bytes basic_string_stop (λ j. j) (length s) i (drop i s)) quote-Marks
      (tail-first_stop s hs basic_string_stop)

-- On bytes, `scanLiteralStringSWAR` finds the first single quote, as a loop over single bytes does.
pub scan_literal_string_swar-first_stop :
    (s : Bytes) → AreBytes s → scan_literal_string_swar s ≡ first_stop (λ b. b == b'\'') s
unfolding scan_literal_string_swar
scan_literal_string_swar-first_stop s hs =
    marked-first_stop s hs (λ b. b == b'\'') (λ w. has_byte_eq w b'\'')
      (λ i. for_bytes (λ b. b == b'\'') (λ j. j) (length s) i (drop i s))
      (byte_eq-Marks b'\'' (omega arith)) (tail-first_stop s hs (λ b. b == b'\''))

-- On bytes, `scanBasicStringEscapeSWAR` answers as `scanBasicStringEscapeScalar` does.
pub scan_basic_string_escape_swar-first_stop :
    (s : Bytes)
    → AreBytes s
    → scan_basic_string_escape_swar s ≡ first_stop basic_string_escape_stop s
unfolding scan_basic_string_escape_swar basic_string_escape_stop
scan_basic_string_escape_swar-first_stop s hs =
    marked-first_stop s hs basic_string_escape_stop basic_string_escape_marks
      (stop_from basic_string_escape_stop s)
      (Marks-ext (λ b. ((b == b'"' || b == b'\\') || ltb b 0x20) || leb 128 b)
        basic_string_escape_stop basic_string_escape_marks escape_same escape-Marks)
      (λ i h. refl)

-- On bytes, `scanBasicStringStrictSWAR` answers as `scanBasicStringStrictScalar` does: the tabs
-- that the test of a word marks, and the bytes that a borrow marks, do not stop it.
pub scan_basic_string_strict_swar-first_stop :
    (s : Bytes)
    → AreBytes s
    → scan_basic_string_strict_swar s ≡ first_stop basic_string_strict_stop s
unfolding scan_basic_string_strict_swar
scan_basic_string_strict_swar-first_stop s hs =
    confirmed-first_stop s hs basic_string_strict_stop
      (λ b. ((b == b'"' || b == b'\\') || b == 0x7f) || ltb b 0x20) basic_string_strict_marks
      strict_implies strict-Marks

-- On bytes, `scanCommentBodySWAR` answers as `scanCommentBodyScalar` does.
pub scan_comment_body_swar-first_stop :
    (s : Bytes) → AreBytes s → scan_comment_body_swar s ≡ first_stop comment_body_stop s
unfolding scan_comment_body_swar
scan_comment_body_swar-first_stop s hs =
    confirmed-first_stop s hs comment_body_stop (λ b. b == 0x7f || ltb b 0x20) comment_body_marks
      comment_implies comment-Marks

-- On bytes, the kernels over strings and comments find the byte that a loop over single bytes finds:
-- `scanBasicStringSWAR` the first quote or backslash, `scanLiteralStringSWAR` the first single quote,
-- and `scanBasicStringEscapeSWAR` and `scanCommentBodySWAR` what their scalar versions answer.
pub scan_kernels-first_stop :
    (s : Bytes)
    → AreBytes s
    → (scan_basic_string_swar s ≡ first_stop basic_string_stop s)
      × (scan_literal_string_swar s ≡ first_stop (λ b. b == b'\'') s)
      × (scan_basic_string_escape_swar s ≡ first_stop basic_string_escape_stop s)
      × (scan_comment_body_swar s ≡ first_stop comment_body_stop s)
scan_kernels-first_stop s hs = (
  scan_basic_string_swar-first_stop s hs,
  scan_literal_string_swar-first_stop s hs,
  scan_basic_string_escape_swar-first_stop s hs,
  scan_comment_body_swar-first_stop s hs,
)
