-- ===== src/Scan/Word/Marks/Tables.antt =====
-- Operations on single bytes, each read off a table of all its values.
use Prim.Native.Nat.{bit_and, bit_or, bit_xor}
use go_toml.Prelude.{
  ℕ, ◌-◌, ◌<◌, ◌≡◌, refl, Bool, true, false, not, ◌&&◌, arith, ltb, leb, ◌==◌, if◌then◌else◌,
  ltb→lt, ==_iff,
}
use go_toml.Prelude.Equal.{passes_below, passes_below-lt}

-- The mark of one byte `b` of which `x` is left by the subtraction.
abbrev pub mark : ℕ → ℕ → ℕ
mark x b = bit_and (bit_and x (255 - b)) 128

same : Bool → Bool → Bool
same true b = b
same false b = not b

-- A test of two bytes that passes on all of them.
table :
    (test : ℕ → ℕ → Bool)
    → passes_below (λ a. passes_below (test a) 256) 256 ≡ true
    → (a b : ℕ) → a < 256
    → b < 256
    → test a b ≡ true
table test all a b ha hb =
    passes_below-lt (test a) 256 (passes_below-lt (λ a. passes_below (test a) 256) 256 all a ha) b
      hb

abbrev mark_value : ℕ → ℕ → ℕ
mark_value x b = if leb 128 x && ltb b 128 then 128 else 0

mark_table : passes_below (λ x. passes_below (λ b. mark x b == mark_value x b) 256) 256 ≡ true
unfolding passes_below
mark_table = refl

pub mark-eq : (x b : ℕ) → x < 256 → b < 256 → mark x b ≡ (if leb 128 x && ltb b 128 then 128 else 0)
mark-eq x b hx hb =
    (==_iff (mark x b) (mark_value x b)).0
      (table (λ x b. mark x b == mark_value x b) mark_table x b hx hb)

or_table : passes_below (λ a. passes_below (λ b. ltb (bit_or a b) 256) 256) 256 ≡ true
unfolding passes_below
or_table = refl

pub bit_or-IsByte : (a b : ℕ) → a < 256 → b < 256 → bit_or a b < 256
bit_or-IsByte a b ha hb =
    ltb→lt (bit_or a b) 256 (table (λ a b. ltb (bit_or a b) 256) or_table a b ha hb)

and_table : passes_below (λ a. passes_below (λ b. ltb (bit_and a b) 256) 256) 256 ≡ true
unfolding passes_below
and_table = refl

pub bit_and-IsByte : (a b : ℕ) → a < 256 → b < 256 → bit_and a b < 256
bit_and-IsByte a b ha hb =
    ltb→lt (bit_and a b) 256 (table (λ a b. ltb (bit_and a b) 256) and_table a b ha hb)

xor_table :
    passes_below
      (λ a.
        passes_below
          (λ b.
            ltb (bit_xor a b) 256 && (if a == b then ltb (bit_xor a b) 1 else leb 1 (bit_xor a b)))
          256)
      256
    ≡ true
unfolding passes_below
xor_table = refl

module _ (a b : ℕ) (ha : a < 256) (hb : b < 256) where
  xor_entry :
      (ltb (bit_xor a b) 256 && (if a == b then ltb (bit_xor a b) 1 else leb 1 (bit_xor a b)))
      ≡ true
  xor_entry =
      table
        (λ a b.
          ltb (bit_xor a b) 256 && (if a == b then ltb (bit_xor a b) 1 else leb 1 (bit_xor a b)))
        xor_table a b ha hb

  pub bit_xor-IsByte : bit_xor a b < 256
  bit_xor-IsByte = ground (arith, xor_entry)

  -- Bytes whose exclusive or is zero are equal.
  pub xor_zero_iff : ltb (bit_xor a b) 1 ≡ (a == b)
  xor_zero_iff = ground (arith, xor_entry)

high_table : passes_below (λ b. bit_and b 128 == (if leb 128 b then 128 else 0)) 256 ≡ true
unfolding passes_below
high_table = refl

pub high_mark-eq : (b : ℕ) → b < 256 → bit_and b 128 ≡ (if leb 128 b then 128 else 0)
high_mark-eq b hb =
    (==_iff (bit_and b 128) (if leb 128 b then 128 else 0)).0
      (passes_below-lt (λ b. bit_and b 128 == (if leb 128 b then 128 else 0)) 256 high_table b hb)
