-- ===== src/Scan/Word/Tests.antt =====
-- The tests of a word that the code makes, each with the bytes that it is after.
use Prim.Native.Nat.{bit_and, bit_or, bit_xor}
use native.Mathlib.Nat.{pow-suc}
use go_toml.Prelude.{
  ℕ, suc, ◌+◌, ◌-◌, ◌*◌, ◌%◌, ◌^◌, ◌≤◌, ◌<◌, ◌≡◌, ◌⊎◌, inl, inr, refl, sym, ap, ◌∙◌, Bool, true,
  false, ◌||◌, [], ◌∷◌, arith, Bytes, length, ltb, leb, ◌==◌, Bool-cases, ltb→lt,
}
use go_toml.Scan.Word.{
  word_of, modulus, swar_ones, swar_highs, has_zero, has_byte_eq, has_byte_less_than,
}
use go_toml.Scan.Word.Bytewise.{
  AreBytes, pairwise, subtract, subtract-AreBytes, length-subtract, complements, broadcast,
  broadcast-AreBytes, borrow_of, word_of-subtract_word, word_of-complements_word, bit_and-word_of,
  bit_xor-word_of, bit_or-word_of,
}
use go_toml.Scan.Word.Marks.{
  Finds, Finds-or, Finds-pairwise, Finds-AreBytes, Finds-length, length-pairwise, length-broadcast,
}
use go_toml.Scan.Word.Marks.Tables.{
  mark, mark-eq, high_mark-eq, bit_xor-IsByte, bit_and-IsByte, xor_zero_iff,
}

-- The bytes of `(w - n * ones) & ^w & highs`.
abbrev less_marks : ℕ → ℕ → Bytes → Bytes
less_marks n borrow s =
    pairwise bit_and (pairwise bit_and (subtract n borrow s) (complements s)) (broadcast 128 s)

less_marks-AreBytes : (n borrow : ℕ) (s : Bytes) → AreBytes s → AreBytes (less_marks n borrow s)
less_marks-AreBytes n borrow [] hs = tt
less_marks-AreBytes n borrow (b ∷ s) (hb, hs) =
    let e = mark-eq ((b + 256 - (n + borrow)) % 256) b (omega arith) hb in
    (ground (arith, e), less_marks-AreBytes n (borrow_of n borrow b) s hs)

length-less_marks : (n borrow : ℕ) (s : Bytes) → length (less_marks n borrow s) ≡ length s
length-less_marks n borrow [] = refl
length-less_marks n borrow (b ∷ s) = ap suc (length-less_marks n (borrow_of n borrow b) s)

less_mark :
    (n b : ℕ)
    → n ≤ 128
    → b < 256
    → ((ltb b n ≡ true) × (mark ((b + 256 - (n + 0)) % 256) b ≡ 128))
      ⊎ ((ltb b n ≡ false) × (borrow_of n 0 b ≡ 0) × (mark ((b + 256 - (n + 0)) % 256) b ≡ 0))
less_mark n b hn hb =
    let e = mark-eq ((b + 256 - (n + 0)) % 256) b (omega arith) hb in
    elim (Bool-cases (ltb b n)) [
      | inl less ↦ let under : b < n = ltb→lt b n less in inl (less, e ∙ (ground arith))
      | inr more ↦ let over : n ≤ b = ground arith in inr (more, ground arith, e ∙ (ground arith))
    ]

less-Finds : (n : ℕ) (s : Bytes) → n ≤ 128 → AreBytes s → Finds (λ b. ltb b n) s (less_marks n 0 s)
less-Finds n [] hn hs = tt
less-Finds n (b ∷ s) hn (hb, hs) = elim (less_mark n b hn hb) [
  | inl (less, e) ↦ inl (
    less,
    e,
    less_marks-AreBytes n (borrow_of n 0 b) s hs,
    length-less_marks n (borrow_of n 0 b) s,
  )
  | inr (more, e0, e) ↦ inr (more, e, rw e0 (less-Finds n s hn hs))
]

length-complements : (s : Bytes) → length s ≡ length (complements s)
length-complements [] = refl
length-complements (b ∷ s) = ap suc (length-complements s)

complements-AreBytes : (s : Bytes) → AreBytes (complements s)
complements-AreBytes [] = tt
complements-AreBytes (b ∷ s) = (omega arith, complements-AreBytes s)

xor-AreBytes :
    (c : ℕ) (s : Bytes) → c < 256 → AreBytes s → AreBytes (pairwise bit_xor s (broadcast c s))
xor-AreBytes c [] hc hs = tt
xor-AreBytes c (b ∷ s) hc (hb, hs) = (bit_xor-IsByte b c hb hc, xor-AreBytes c s hc hs)

without-AreBytes :
    (n borrow : ℕ) (s : Bytes) → AreBytes (pairwise bit_and (subtract n borrow s) (complements s))
without-AreBytes n borrow [] = tt
without-AreBytes n borrow (b ∷ s) = (
  bit_and-IsByte ((b + 256 - (n + borrow)) % 256) (255 - b) (omega arith) (omega arith),
  without-AreBytes n (borrow_of n borrow b) s,
)

high-AreBytes : (s : Bytes) → AreBytes s → AreBytes (pairwise bit_and s (broadcast 128 s))
high-AreBytes [] hs = tt
high-AreBytes (b ∷ s) (hb, hs) = (ground (arith, high_mark-eq b hb), high-AreBytes s hs)

high-Finds :
    (s : Bytes) → AreBytes s → Finds (λ b. leb 128 b) s (pairwise bit_and s (broadcast 128 s))
high-Finds [] hs = tt
high-Finds (b ∷ s) (hb, hs) = elim (Bool-cases (leb 128 b)) [
  | inl high ↦ inl (
    high,
    ground (arith, high_mark-eq b hb),
    high-AreBytes s hs,
    length-pairwise bit_and s (broadcast 128 s) (length-broadcast 128 s),
  )
  | inr low ↦ inr (low, ground (arith, high_mark-eq b hb), high-Finds s hs)
]

word_of-broadcast : (c : ℕ) (s : Bytes) → word_of (broadcast c s) * 255 + c ≡ c * 256 ^ length s
unfolding word_of
word_of-broadcast c [] = omega arith
word_of-broadcast c (b ∷ s) =
    omega (arith, word_of-broadcast c s, ap (λ (t : ℕ). c * t) (pow-suc 256 (length s)))

module _ (s : Bytes) (eight : length s ≡ 8) where
  word_of-broadcast_word : (c : ℕ) → word_of (broadcast c s) ≡ c * swar_ones
  word_of-broadcast_word c = omega (arith, word_of-broadcast c s, ap (λ (k : ℕ). c * 256 ^ k) eight)

  ones_of : (c : ℕ) → c < 256 → c * swar_ones % modulus ≡ word_of (broadcast c s)
  ones_of c hc = omega (arith, word_of-broadcast_word c)

  highs_of : swar_highs ≡ word_of (broadcast 128 s)
  highs_of = omega (arith, word_of-broadcast_word 128)

module _ (n : ℕ) (s : Bytes) (hn : n ≤ 128) (hs : AreBytes s) (eight : length s ≡ 8) where
  has_byte_less_than-word_of : has_byte_less_than (word_of s) n ≡ word_of (less_marks n 0 s)
  unfolding has_byte_less_than
  has_byte_less_than-word_of =
      let left = word_of-subtract_word n s (omega arith) hs eight in
      let inner =
        bit_and-word_of (subtract n 0 s) (complements s)
          (length-subtract n 0 s ∙ length-complements s) (subtract-AreBytes n 0 s)
          (complements-AreBytes s) in
      let outer =
        bit_and-word_of (pairwise bit_and (subtract n 0 s) (complements s)) (broadcast 128 s)
          (length-pairwise bit_and (subtract n 0 s) (complements s)
              (length-subtract n 0 s ∙ length-complements s)
            ∙ length-subtract n 0 s
            ∙ length-broadcast 128 s)
          (without-AreBytes n 0 s) (broadcast-AreBytes 128 s (omega arith)) in
      rw
        (
          ones_of s eight n (omega arith),
          left,
          word_of-complements_word s hs eight,
          inner,
          highs_of s eight,
        )
        outer

-- The word `w` has the marks of a test on the bytes of `s`.
abbrev pub WordFinds : (ℕ → Bool) → Bytes → ℕ → Type 0
WordFinds p s w = (ms : Bytes) × (w ≡ word_of ms) × Finds p s ms

module _ (s : Bytes) (hs : AreBytes s) (eight : length s ≡ 8) where
  pub less_than-Finds :
      (n : ℕ) → n ≤ 128 → WordFinds (λ b. ltb b n) s (has_byte_less_than (word_of s) n)
  less_than-Finds n hn =
      (less_marks n 0 s, has_byte_less_than-word_of n s hn hs eight, less-Finds n s hn hs)

  pub byte_eq-Finds : (c : ℕ) → c < 256 → WordFinds (λ b. b == c) s (has_byte_eq (word_of s) c)
  unfolding has_byte_eq has_zero has_byte_less_than
  byte_eq-Finds c hc =
      let xs = pairwise bit_xor s (broadcast c s) in
      let e =
        bit_xor-word_of s (broadcast c s) (length-broadcast c s) hs (broadcast-AreBytes c s hc) in
      let bytes = xor-AreBytes c s hc hs in
      let same = length-pairwise bit_xor s (broadcast c s) (length-broadcast c s) ∙ eight in
      (
        less_marks 1 0 xs,
        rw (ones_of s eight c hc, e) (has_byte_less_than-word_of 1 xs (omega arith) bytes same),
        Finds-pairwise bit_xor c (λ b. ltb b 1) (λ b. b == c) (λ b hb. xor_zero_iff b c hb hc) s
            (less_marks 1 0 xs) hs (less-Finds 1 xs (omega arith) bytes),
      )

  pub highs-Finds : WordFinds (λ b. leb 128 b) s (bit_and (word_of s) swar_highs)
  highs-Finds = (
    pairwise bit_and s (broadcast 128 s),
    rw (highs_of s eight) (
        bit_and-word_of s (broadcast 128 s) (length-broadcast 128 s) hs
          (broadcast-AreBytes 128 s (omega arith))),
    high-Finds s hs,
  )

  pub or-Finds :
      (p q : ℕ → Bool) (v w : ℕ)
      → WordFinds p s v
      → WordFinds q s w
      → WordFinds (λ b. p b || q b) s (bit_or v w)
  or-Finds p q v w (ms, ev, fm) (ns, ew, fn) = (
    pairwise bit_or ms ns,
    rw (ev, ew)
        (bit_or-word_of ms ns (Finds-length p s ms fm ∙ sym (Finds-length q s ns fn))
          (Finds-AreBytes p s ms fm) (Finds-AreBytes q s ns fn)),
    Finds-or p q s ms ns fm fn,
  )
