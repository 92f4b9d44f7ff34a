-- ===== src/DateTime/Fields.antt =====
-- The fields of dates and times: decimal numbers of two and four digits, printed and read.
use go_toml.Prelude.{
  ℕ, ◌+◌, ◌*◌, ◌/◌, ◌%◌, ◌≤◌, ◌<◌, ◌≡◌, refl, pos, true, [], ◌∷◌, ◌++◌, append_assoc, some, arith,
  Bytes, slice,
}
use go_toml.Prelude.Equal.{bytes_equal, bytes_equal_iff, passes_below, passes_below-lt}
use go_toml.DateTime.Print.{two_digits, append_padded_int}
use go_toml.DateTime.Parse.{parse_fixed_digits}

abbrev pub pair : ℕ → Bytes
pair n = (b'0' + n / 10) ∷ (b'0' + n % 10) ∷ []

abbrev pub quad : ℕ → Bytes
quad n =
    (b'0' + n / 100 / 10)
    ∷ (b'0' + n / 100 % 10)
    ∷ (b'0' + n % 100 / 10)
    ∷ (b'0' + n % 100 % 10)
    ∷ []

two_digits_table :
    passes_below (λ n. bytes_equal (slice two_digits (2 * n) (2 * n + 2)) (pair n)) 100 ≡ true
unfolding passes_below bytes_equal
two_digits_table = refl

two_digits-pair : (n : ℕ) → n < 100 → slice two_digits (2 * n) (2 * n + 2) ≡ pair n
two_digits-pair n h = (bytes_equal_iff _ _).0 (passes_below-lt _ 100 two_digits_table n h)

pub append_padded_int-pair :
    (buf : Bytes) (n : ℕ) → n ≤ 99 → append_padded_int buf (pos n) 2 ≡ buf ++ pair n
unfolding append_padded_int
append_padded_int-pair buf n h = ground (arith, two_digits-pair n)

pub append_padded_int-quad :
    (buf : Bytes) (n : ℕ) → n ≤ 9999 → append_padded_int buf (pos n) 4 ≡ buf ++ quad n
unfolding append_padded_int
append_padded_int-quad buf n h = ground (
  arith,
  two_digits-pair (n / 100),
  two_digits-pair (n % 100),
  append_assoc buf (pair (n / 100)) (pair (n % 100)),
)

pub parse_fixed_digits-pair : (n : ℕ) → n ≤ 99 → parse_fixed_digits (pair n) ≡ some n
unfolding parse_fixed_digits
parse_fixed_digits-pair n h = ground arith

pub parse_fixed_digits-quad : (n : ℕ) → n ≤ 9999 → parse_fixed_digits (quad n) ≡ some n
unfolding parse_fixed_digits
parse_fixed_digits-quad n h = ground arith

pub pair-parse_fixed_digits :
    (a b v : ℕ) → parse_fixed_digits (a ∷ b ∷ []) ≡ some v → (v ≤ 99) × (a ∷ b ∷ [] ≡ pair v)
unfolding parse_fixed_digits
pair-parse_fixed_digits a b v h = ground arith

pub quad-parse_fixed_digits :
    (a b c d v : ℕ)
    → parse_fixed_digits (a ∷ b ∷ c ∷ d ∷ []) ≡ some v
    → (v ≤ 9999) × (a ∷ b ∷ c ∷ d ∷ [] ≡ quad v)
unfolding parse_fixed_digits
quad-parse_fixed_digits a b c d v h = ground arith
