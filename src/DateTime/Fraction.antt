-- ===== src/DateTime/Fraction.antt =====
-- The fraction of a second: its digits as printed and as read.
use native.Mathlib.Nat.{pow-suc, add-zero}
use go_toml.Prelude.{
  ℕ, zero, suc, ◌+◌, ◌-◌, ◌*◌, ◌/◌, ◌%◌, ◌^◌, ◌≤◌, ◌<◌, ◌≡◌, refl, sym, ap, ◌∙◌, true, [], ◌∷◌,
  ◌++◌, append_assoc, append-nil, arith, Bytes, ltb, length, All, if◌then◌else◌, take, drop, ok,
}
use go_toml.Prelude.Decimal.{padded}
use go_toml.Prelude.Decimal.Padded.{padded-suc, take-padded, take-length}
use go_toml.DateTime.Parse.{is_digit, digit_run, nanos_from, scale_nanos, parse_fraction}

abbrev pub AllDigits : Bytes → Type 0
AllDigits = All (λ b. is_digit b ≡ true)

AllDigits-append : (xs ys : Bytes) → AllDigits xs → AllDigits ys → AllDigits (xs ++ ys)
AllDigits-append [] ys hx hy = hy
AllDigits-append (x ∷ xs) ys (h, hx) hy = (h, AllDigits-append xs ys hx hy)

pub padded-AllDigits : (k n : ℕ) → AllDigits (padded k n)
padded-AllDigits zero n = unfold padded in tt
padded-AllDigits (suc k) n =
    rw (padded-suc k n)
      (AllDigits-append (padded k (n / 10)) _ (padded-AllDigits k (n / 10)) (ground arith, tt))

-- What follows the digits starts with none.
pub digit_run-append :
    (f rest : Bytes) → AllDigits f → digit_run rest ≡ 0 → digit_run (f ++ rest) ≡ length f
unfolding digit_run
digit_run-append [] rest h e = e
digit_run-append (b ∷ f) rest (h, hs) e = rw h (ap suc (digit_run-append f rest hs e))

pub digit_run-take : (xs : Bytes) → AllDigits (take (digit_run xs) xs)
unfolding digit_run
digit_run-take [] = tt
digit_run-take (b ∷ xs) = ground (arith, digit_run-take xs)

pub digit_run-le : (xs : Bytes) → digit_run xs ≤ length xs
unfolding digit_run
digit_run-le [] = omega arith
digit_run-le (b ∷ xs) = ground (arith, digit_run-le xs)

nanos_from-concat :
    (a b : ℕ) (f : Bytes) → nanos_from a (f ++ b ∷ []) ≡ nanos_from a f * 10 + (b - b'0')
unfolding nanos_from
nanos_from-concat a b [] = refl
nanos_from-concat a b (c ∷ f) = nanos_from-concat (a * 10 + (c - b'0')) b f

pub nanos_from-padded : (k n : ℕ) → n < 10 ^ k → nanos_from 0 (padded k n) ≡ n
nanos_from-padded zero n h = unfold padded nanos_from in omega arith
nanos_from-padded (suc k) n h =
    rw (padded-suc k n, nanos_from-concat 0 (b'0' + n % 10) (padded k (n / 10)))
      (omega (arith, nanos_from-padded k (n / 10) (omega (arith, pow-suc 10 k))))

padded-nanos_from_acc :
    (f : Bytes) (k a : ℕ) → AllDigits f → padded (k + length f) (nanos_from a f) ≡ padded k a ++ f
unfolding nanos_from
padded-nanos_from_acc [] k a h = rw (add-zero k) (sym (append-nil (padded k a)))
padded-nanos_from_acc (b ∷ f) k a (h, hs) =
    let next : ℕ = a * 10 + (b - b'0') in
    let parts : (next / 10 ≡ a) × (b'0' + next % 10 ≡ b) = ground arith in
    let shape : k + suc (length f) ≡ suc k + length f = omega arith in
    rw shape (
      padded-nanos_from_acc f (suc k) next hs
      ∙ rw (padded-suc k next, parts.0, parts.1) (append_assoc (padded k a) (b ∷ []) f))

-- The digits read, printed again.
pub padded-nanos_from : (f : Bytes) → AllDigits f → padded (length f) (nanos_from 0 f) ≡ f
unfolding padded
padded-nanos_from f h =
    let e : length f ≡ 0 + length f = omega arith in
    ap (λ (k : ℕ). padded k (nanos_from 0 f)) e ∙ padded-nanos_from_acc f 0 0 h

pub scale_nanos-pow : (q n : ℕ) → scale_nanos q n ≡ n * 10 ^ q
unfolding scale_nanos
scale_nanos-pow zero n = omega arith
scale_nanos-pow (suc q) n =
    omega (arith, scale_nanos-pow q (n * 10), ap (λ (t : ℕ). n * t) (pow-suc 10 q))

-- The text of a fraction of `p` digits.
abbrev pub fraction_text : ℕ → ℕ → Bytes
fraction_text n p = if ltb 0 p then b'.' ∷ take p (padded 9 n) else []

pub take-padded_nine : (p n : ℕ) → p ≤ 9 → take p (padded 9 n) ≡ padded p (n / 10 ^ (9 - p))
take-padded_nine p n h =
    let e : 9 ≡ p + (9 - p) = omega arith in
    ap (λ (k : ℕ). take p (padded k n)) e ∙ take-padded p (9 - p) n

-- `parseClockSubseconds` at a fraction: the digits `f`, in front of what is no digit.
pub parse_fraction-digits :
    (raw f rest : Bytes) (second k : ℕ)
    → drop k raw ≡ f ++ rest
    → AllDigits f
    → digit_run rest ≡ 0
    → 1 ≤ length f
    → length f ≤ 9
    → parse_fraction raw second k
      ≡ ok (record {
        second = second;
        nanos = scale_nanos (9 - length f) (nanos_from 0 f);
        nano_digits = length f;
        next = k + length f;
      })
unfolding parse_fraction
parse_fraction-digits raw f rest second k e digits ended lo hi =
    let width : k + length f - k ≡ length f = omega arith in
    rw (e, digit_run-append f rest digits ended, width, take-length f rest (length f) refl)
      (ground arith)
