-- ===== src/Scan/Word/Marks.antt =====
-- The marks that a test leaves in a word: the first byte marked is the first that the test is
-- after. What stands above it may be marked by a borrow.
pub mod Tables
use Prim.Native.Nat.{bit_and, bit_or, bit_xor}
use go_toml.Prelude.{
  ℕ, zero, suc, ◌+◌, ◌-◌, ◌*◌, ◌/◌, ◌%◌, ◌^◌, ◌≤◌, ◌<◌, ◌≡◌, ◌≢◌, ◌⊎◌, inl, inr, refl, sym, ap, ◌∙◌,
  Bool, true, false, ◌&&◌, ◌||◌, [], ◌∷◌, arith, Bytes, length, All, ltb, leb, ◌==◌, if◌then◌else◌,
  ==_iff, Bool-cases, lt→ltb,
}
use go_toml.Scan.{first_stop}
use go_toml.Scan.Word.{word_of, zeros_below}
use go_toml.Scan.Word.Bytewise.{
  AreBytes, pairwise, subtract, subtract-AreBytes, complements, broadcast, borrow_of,
}
use Tables.{mark, mark-eq, bit_or-IsByte, high_mark-eq, bit_xor-IsByte}

-- In `ms` nothing is marked below the first byte of `s` that passes the test, and that byte is.
abbrev pub Finds : (ℕ → Bool) → Bytes → Bytes → Type 0
Finds stop [] [] = Unit
Finds stop [] (m ∷ ms) = ⊥
Finds stop (b ∷ s) [] = ⊥
Finds stop (b ∷ s) (m ∷ ms) =
    (stop b ≡ true) × (m ≡ 128) × AreBytes ms × (length ms ≡ length s)
    ⊎ (stop b ≡ false) × (m ≡ 0) × Finds stop s ms

module _ (stop : ℕ → Bool) where
  pub Finds-AreBytes : (s ms : Bytes) → Finds stop s ms → AreBytes ms
  Finds-AreBytes [] [] h = tt
  Finds-AreBytes [] (m ∷ ms) h = elim h [ ]
  Finds-AreBytes (b ∷ s) [] h = elim h [ ]
  Finds-AreBytes (b ∷ s) (m ∷ ms) (inl (p, e, bytes, same)) = (omega arith, bytes)
  Finds-AreBytes (b ∷ s) (m ∷ ms) (inr (p, e, h)) = (omega arith, Finds-AreBytes s ms h)

  pub Finds-length : (s ms : Bytes) → Finds stop s ms → length ms ≡ length s
  Finds-length [] [] h = refl
  Finds-length [] (m ∷ ms) h = elim h [ ]
  Finds-length (b ∷ s) [] h = elim h [ ]
  Finds-length (b ∷ s) (m ∷ ms) (inl (p, e, bytes, same)) = ap suc same
  Finds-length (b ∷ s) (m ∷ ms) (inr (p, e, h)) = ap suc (Finds-length s ms h)

or-AreBytes : (ms ns : Bytes) → AreBytes ms → AreBytes ns → AreBytes (pairwise bit_or ms ns)
or-AreBytes [] ns hm hn = tt
or-AreBytes (m ∷ ms) [] hm hn = tt
or-AreBytes (m ∷ ms) (n ∷ ns) (p, hm) (q, hn) = (bit_or-IsByte m n p q, or-AreBytes ms ns hm hn)

pub length-pairwise :
    (op : ℕ → ℕ → ℕ) (ms ns : Bytes)
    → length ms ≡ length ns
    → length (pairwise op ms ns) ≡ length ms
length-pairwise op [] ns e = refl
length-pairwise op (m ∷ ms) [] e = absurd (omega arith)
length-pairwise op (m ∷ ms) (n ∷ ns) e = ap suc (length-pairwise op ms ns (omega arith))

-- Two tests at once.
pub Finds-or :
    (p q : ℕ → Bool) (s ms ns : Bytes)
    → Finds p s ms
    → Finds q s ns
    → Finds (λ b. p b || q b) s (pairwise bit_or ms ns)
Finds-or p q [] [] ns hm hn = tt
Finds-or p q [] (m ∷ ms) ns hm hn = elim hm [ ]
Finds-or p q (b ∷ s) [] ns hm hn = elim hm [ ]
Finds-or p q (b ∷ s) (m ∷ ms) [] hm hn = elim hn [ ]
Finds-or p q (b ∷ s) (m ∷ ms) (n ∷ ns) (inr (pb, em, hm)) (inr (qb, en, hn)) =
    rw (pb, qb, em, en) (inr (refl, refl, Finds-or p q s ms ns hm hn))
Finds-or p q (b ∷ s) (m ∷ ms) (n ∷ ns) (inl (pb, em, bm, lm)) (inl (qb, en, bn, ln)) =
    rw (pb, em, en)
      (inl (refl, refl, or-AreBytes ms ns bm bn, length-pairwise bit_or ms ns (lm ∙ sym ln) ∙ lm))
Finds-or p q (b ∷ s) (m ∷ ms) (n ∷ ns) (inl (pb, em, bm, lm)) (inr (qb, en, hn)) =
    let ln = Finds-length q s ns hn in
    rw (pb, em, en)
      (inl (
        refl,
        refl,
        or-AreBytes ms ns bm (Finds-AreBytes q s ns hn),
        length-pairwise bit_or ms ns (lm ∙ sym ln) ∙ lm,
      ))
Finds-or p q (b ∷ s) (m ∷ ms) (n ∷ ns) (inr (pb, em, hm)) (inl (qb, en, bn, ln)) =
    let lm = Finds-length p s ms hm in
    rw (pb, qb, em, en)
      (inl (
        refl,
        refl,
        or-AreBytes ms ns (Finds-AreBytes p s ms hm) bn,
        length-pairwise bit_or ms ns (lm ∙ sym ln) ∙ lm,
      ))

pub length-broadcast : (c : ℕ) (s : Bytes) → length s ≡ length (broadcast c s)
length-broadcast c [] = refl
length-broadcast c (b ∷ s) = ap suc (length-broadcast c s)

-- The same tests on other bytes.
pub Finds-pairwise :
    (op : ℕ → ℕ → ℕ) (c : ℕ) (p q : ℕ → Bool)
    → ((b : ℕ) → b < 256 → p (op b c) ≡ q b)
    → (s ms : Bytes) → AreBytes s
    → Finds p (pairwise op s (broadcast c s)) ms
    → Finds q s ms
Finds-pairwise op c p q same [] [] hs h = tt
Finds-pairwise op c p q same [] (m ∷ ms) hs h = elim h [ ]
Finds-pairwise op c p q same (b ∷ s) [] hs h = elim h [ ]
Finds-pairwise op c p q same (b ∷ s) (m ∷ ms) (hb, hs) (inl (pb, em, bm, lm)) =
    inl (
      sym (same b hb) ∙ pb,
      em,
      bm,
      lm ∙ length-pairwise op s (broadcast c s) (length-broadcast c s),
    )
Finds-pairwise op c p q same (b ∷ s) (m ∷ ms) (hb, hs) (inr (pb, em, h)) =
    inr (sym (same b hb) ∙ pb, em, Finds-pairwise op c p q same s ms hs h)
