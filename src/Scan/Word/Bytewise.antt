-- ===== src/Scan/Word/Bytewise.antt =====
-- Operations on words act on each byte apart; a subtraction borrows from the next byte.
use Prim.Native.Nat.{bit_and, bit_or, bit_xor}
use native.Mathlib.Nat.{pow-suc}
use go_toml.Prelude.{
  ◌&&◌, Bool, true, ℕ, suc, ◌+◌, ◌-◌, ◌*◌, ◌%◌, ◌^◌, ◌≤◌, ◌<◌, ◌≡◌, refl, ap, ◌∙◌, [], ◌∷◌, arith,
  Bytes, length, Bool-cases, inl, inr, ltb→lt, All, ltb, if◌then◌else◌,
}
use go_toml.Prelude.Bitwise.{bit_and-split, bit_or-split, bit_xor-split}
use go_toml.Scan.Word.{word_of, modulus, complement}

abbrev pub IsByte : ℕ → Type 0
IsByte b = b < 256

abbrev pub AreBytes : Bytes → Type 0
AreBytes = All IsByte

-- Bytes, by a test.
abbrev pub all_bytes : Bytes → Bool
all_bytes [] = true
all_bytes (b ∷ s) = ltb b 256 && all_bytes s

pub all_bytes-AreBytes : (s : Bytes) → all_bytes s ≡ true → AreBytes s
all_bytes-AreBytes [] h = tt
all_bytes-AreBytes (b ∷ s) h = (ground arith, all_bytes-AreBytes s (ground arith))

abbrev pub pairwise : (ℕ → ℕ → ℕ) → Bytes → Bytes → Bytes
pairwise op [] ys = []
pairwise op (x ∷ xs) [] = []
pairwise op (x ∷ xs) (y ∷ ys) = op x y ∷ pairwise op xs ys

module _ (op : ℕ → ℕ → ℕ) (op-zero : op 0 0 ≡ 0)
    (op-split : (a b x y : ℕ)
      → a < 256
      → b < 256
      → op (a + 256 * x) (b + 256 * y) ≡ op a b + 256 * op x y) where
  word_of-pairwise :
      (xs ys : Bytes)
      → length xs ≡ length ys
      → AreBytes xs
      → AreBytes ys
      → op (word_of xs) (word_of ys) ≡ word_of (pairwise op xs ys)
  unfolding word_of
  word_of-pairwise [] [] e hx hy = op-zero
  word_of-pairwise [] (y ∷ ys) e hx hy = absurd (omega arith)
  word_of-pairwise (x ∷ xs) [] e hx hy = absurd (omega arith)
  word_of-pairwise (x ∷ xs) (y ∷ ys) e (px, hx) (py, hy) =
      op-split x y (word_of xs) (word_of ys) px py
      ∙ ap (λ (t : ℕ). op x y + 256 * t) (word_of-pairwise xs ys (omega arith) hx hy)

module _ (xs ys : Bytes) (same : length xs ≡ length ys) (hx : AreBytes xs) (hy : AreBytes ys) where
  pub bit_and-word_of : bit_and (word_of xs) (word_of ys) ≡ word_of (pairwise bit_and xs ys)
  bit_and-word_of = word_of-pairwise bit_and refl (bit_and-split 8) xs ys same hx hy

  pub bit_or-word_of : bit_or (word_of xs) (word_of ys) ≡ word_of (pairwise bit_or xs ys)
  bit_or-word_of = word_of-pairwise bit_or refl (bit_or-split 8) xs ys same hx hy

  pub bit_xor-word_of : bit_xor (word_of xs) (word_of ys) ≡ word_of (pairwise bit_xor xs ys)
  bit_xor-word_of = word_of-pairwise bit_xor refl (bit_xor-split 8) xs ys same hx hy

-- `x - n - borrow` on bytes, with the borrow that goes on to the next byte.
abbrev pub borrow_of : ℕ → ℕ → ℕ → ℕ
borrow_of n borrow b = if ltb b (n + borrow) then 1 else 0

abbrev pub subtract : ℕ → ℕ → Bytes → Bytes
subtract n borrow [] = []
subtract n borrow (b ∷ s) = ((b + 256 - (n + borrow)) % 256) ∷ subtract n (borrow_of n borrow b) s

-- The borrow that leaves the last byte.
abbrev last_borrow : ℕ → ℕ → Bytes → ℕ
last_borrow n borrow [] = borrow
last_borrow n borrow (b ∷ s) = last_borrow n (borrow_of n borrow b) s

-- A word of the byte `c`.
abbrev pub broadcast : ℕ → Bytes → Bytes
broadcast c [] = []
broadcast c (b ∷ s) = c ∷ broadcast c s

subtract_byte :
    (n borrow b : ℕ)
    → n < 256
    → borrow ≤ 1
    → b < 256
    → ((b + 256 - (n + borrow)) % 256 + n + borrow ≡ b + 256 * borrow_of n borrow b)
      × (borrow_of n borrow b ≤ 1)
subtract_byte n borrow b hn hb h = elim (Bool-cases (ltb b (n + borrow))) [
  | inl less ↦
      let under : b < n + borrow = ltb→lt b (n + borrow) less in rw less (omega arith, omega arith)
  | inr enough ↦ let over : n + borrow ≤ b = ground arith in rw enough (omega arith, omega arith)
]

word_of-subtract :
    (n borrow : ℕ) (s : Bytes)
    → n < 256
    → borrow ≤ 1
    → AreBytes s
    → word_of (subtract n borrow s) + word_of (broadcast n s) + borrow
      ≡ word_of s + 256 ^ length s * last_borrow n borrow s
unfolding word_of
word_of-subtract n borrow [] hn hb h = omega arith
word_of-subtract n borrow (b ∷ s) hn hb (p, h) =
    let c : ℕ = borrow_of n borrow b in
    let (first, small) = subtract_byte n borrow b hn hb p in
    let rest = word_of-subtract n c s hn small h in
    omega (arith, first, rest, ap (λ (t : ℕ). t * last_borrow n c s) (pow-suc 256 (length s)))

pub subtract-AreBytes : (n borrow : ℕ) (s : Bytes) → AreBytes (subtract n borrow s)
subtract-AreBytes n borrow [] = tt
subtract-AreBytes n borrow (b ∷ s) = (omega arith, subtract-AreBytes n (borrow_of n borrow b) s)

pub length-subtract : (n borrow : ℕ) (s : Bytes) → length (subtract n borrow s) ≡ length s
length-subtract n borrow [] = refl
length-subtract n borrow (b ∷ s) = ap suc (length-subtract n (borrow_of n borrow b) s)

pub word_of-lt : (s : Bytes) → AreBytes s → word_of s < 256 ^ length s
unfolding word_of
word_of-lt [] h = omega arith
word_of-lt (b ∷ s) (p, h) = omega (arith, word_of-lt s h, pow-suc 256 (length s))

last_borrow-le : (n borrow : ℕ) (s : Bytes) → borrow ≤ 1 → last_borrow n borrow s ≤ 1
last_borrow-le n borrow [] h = h
last_borrow-le n borrow (b ∷ s) h = last_borrow-le n (borrow_of n borrow b) s (ground arith)

pub broadcast-AreBytes : (c : ℕ) (s : Bytes) → c < 256 → AreBytes (broadcast c s)
broadcast-AreBytes c [] h = tt
broadcast-AreBytes c (b ∷ s) h = (h, broadcast-AreBytes c s h)

-- The subtraction of a broadcast byte, in a word of eight bytes.
pub word_of-subtract_word :
    (n : ℕ) (s : Bytes)
    → n < 256
    → AreBytes s
    → length s ≡ 8
    → (word_of s + modulus - word_of (broadcast n s)) % modulus ≡ word_of (subtract n 0 s)
word_of-subtract_word n s hn h eight =
    let sizes : 256 ^ length s ≡ modulus = ap (λ (k : ℕ). 256 ^ k) eight in
    let lt = word_of-lt (subtract n 0 s) (subtract-AreBytes n 0 s) in
    let lt' : 256 ^ length (subtract n 0 s) ≡ modulus =
      ap (λ (k : ℕ). 256 ^ k) (length-subtract n 0 s ∙ eight) in
    omega (
      arith,
      sizes,
      lt,
      lt',
      word_of-lt s h,
      word_of-subtract n 0 s hn (omega arith) h,
      last_borrow-le n 0 s (omega arith),
      ap (λ (t : ℕ). t * last_borrow n 0 s) sizes,
    )

-- `^w` on bytes.
abbrev pub complements : Bytes → Bytes
complements [] = []
complements (b ∷ s) = (255 - b) ∷ complements s

word_of-complements :
    (s : Bytes) → AreBytes s → word_of (complements s) + word_of s + 1 ≡ 256 ^ length s
unfolding word_of
word_of-complements [] h = omega arith
word_of-complements (b ∷ s) (p, h) = omega (arith, word_of-complements s h, pow-suc 256 (length s))

pub word_of-complements_word :
    (s : Bytes) → AreBytes s → length s ≡ 8 → complement (word_of s) ≡ word_of (complements s)
word_of-complements_word s h eight =
    omega (arith, word_of-complements s h, ap (λ (k : ℕ). 256 ^ k) eight)
