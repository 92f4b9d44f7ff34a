-- ===== src/DateTime/Times.antt =====
-- `parseTimePrefix` reads what `appendTime` prints.
pub mod Sound
use native.Mathlib.Nat.{one-le-pow, div-add-mod', div-lt_iff_lt-mul, add-zero, add-suc, pow-suc}
use go_toml.Prelude.{
  ℕ, zero, suc, ◌+◌, ◌-◌, ◌*◌, ◌/◌, ◌%◌, ◌^◌, ◌≤◌, ◌<◌, ◌≡◌, ◌≢◌, refl, sym, ap, ◌∙◌, ℤ, pos,
  pos_part, Bool, true, false, not, ◌||◌, [], ◌∷◌, ◌++◌, append_assoc, append-nil, arith, Bytes,
  ltb, ◌==◌, length, if◌then◌else◌, length-append, take, drop, ok, slice, drop-append_suc,
  get_or-append, get_or, leb, ltb→lt, inl, inr, Bool-cases,
}
use go_toml.Prelude.Decimal.{itoa, padded}
use go_toml.Prelude.Decimal.Padded.{itoa-nanos, length-padded}
use go_toml.DateTime.{LocalTime}
use go_toml.DateTime.Calendar.Valid.{IsClock, IsClock-validate_local_clock}
use go_toml.DateTime.Fields.{pair, append_padded_int-pair, parse_fixed_digits-pair}
use go_toml.DateTime.Fraction.{
  fraction_text, take-padded_nine, parse_fraction-digits, padded-AllDigits, nanos_from-padded,
  scale_nanos-pow,
}
use go_toml.DateTime.Print.{append_time}
use go_toml.DateTime.Parse.{
  is_digit, digit_run, parse_fraction, parse_behind_seconds, parse_clock_subseconds,
  parse_time_prefix, scale_nanos, nanos_from, Subseconds,
}

abbrev pub seconds_text : Bool → ℕ → ℕ → ℕ → Bytes
seconds_text has_second s n p = if has_second then b':' ∷ (pair s ++ fraction_text n p) else []

-- HH:MM[:SS[.fraction]]
abbrev pub time_text : ℕ → ℕ → ℕ → ℕ → ℕ → Bool → Bytes
time_text h m s n p has_second = pair h ++ b':' ∷ (pair m ++ seconds_text has_second s n p)

abbrev pub time_of : ℕ → ℕ → ℕ → ℕ → ℕ → Bool → LocalTime
time_of h m s n p has_second = record {
  hour = pos h;
  minute = pos m;
  second = pos s;
  nanosecond = pos n;
  has_second = has_second;
  nano_digits = pos p;
}

abbrev pub parts_of : LocalTime → LocalTime
parts_of t =
    time_of (pos_part t.hour) (pos_part t.minute) (pos_part t.second) (pos_part t.nanosecond)
      (pos_part t.nano_digits) t.has_second

abbrev pub text_of : LocalTime → Bytes
text_of t =
    time_text (pos_part t.hour) (pos_part t.minute) (pos_part t.second) (pos_part t.nanosecond)
      (pos_part t.nano_digits) t.has_second

-- The precision holds the whole value: seconds only where they are printed, and no digit of the
-- nanoseconds behind those that are.
pub record IsExact (s n p : ℕ) (has_second : Bool) : Type 0 where
  pub shown : n % 10 ^ (9 - p) ≡ 0
  pub no_second : has_second ≡ false → (s ≡ 0) × (n ≡ 0) × (p ≡ 0)

slice-itoa_nanos :
    (n p : ℕ)
    → n < 1_000_000_000
    → slice (itoa (pos (n + 1_000_000_000))) 1 (1 + p) ≡ take p (padded 9 n)
slice-itoa_nanos n p h = let e : 1 + p - 1 ≡ p = omega arith in rw (itoa-nanos n h, e)

pub append_time-time_text :
    (buf : Bytes) (h m s n p : ℕ) (has_second : Bool)
    → IsClock h m s n p
    → append_time buf (pos h) (pos m) (pos s) (pos n) (pos p) has_second
      ≡ buf ++ time_text h m s n p has_second
unfolding append_time
append_time-time_text buf h m s n p false c =
    rw (append_padded_int-pair buf h (omega arith)) (
      rw (append_padded_int-pair ((buf ++ pair h) ++ b':' ∷ []) m (omega arith))
        (simp append_assoc))
append_time-time_text buf h m s n p true c =
    let front = (buf ++ pair h) ++ b':' ∷ [] in
    rw (append_padded_int-pair buf h (omega arith)) (
      rw (append_padded_int-pair front m (omega arith)) (
        rw (append_padded_int-pair ((front ++ pair m) ++ b':' ∷ []) s (omega arith)) (
          rw (slice-itoa_nanos n p c.nanos_lt) (elim (Bool-cases (ltb 0 p)) [
            | inl some_digits ↦ rw some_digits (simp append_assoc)
            | inr no_digits ↦ rw no_digits (simp append_assoc)
          ]))))

-- What follows a time does not go on with it.
abbrev pub ends : Bytes → Bool
ends [] = true
ends (c ∷ _) = not (c == b':' || c == b'.' || is_digit c)

ends-digit_run : (rest : Bytes) → ends rest ≡ true → digit_run rest ≡ 0
unfolding digit_run
ends-digit_run [] h = refl
ends-digit_run (c ∷ rest) h = ground arith

pow_split : (p q : ℕ) → 10 ^ (p + q) ≡ 10 ^ p * 10 ^ q
pow_split p zero = rw add-zero (omega arith)
pow_split p (suc q) = rw (add-suc p q) (
    omega (
      arith,
      pow-suc 10 (p + q),
      ap (λ (t : ℕ). 10 ^ p * t) (pow-suc 10 q),
      ap (λ (t : ℕ). t * 10) (pow_split p q),
    ))

-- The fraction that is printed gives back the nanoseconds.
nanos-fraction :
    (n p : ℕ)
    → p ≤ 9
    → n < 1_000_000_000
    → n % 10 ^ (9 - p) ≡ 0
    → scale_nanos (9 - p) (nanos_from 0 (padded p (n / 10 ^ (9 - p)))) ≡ n
nanos-fraction n p hp hn exact =
    let q : ℕ = 9 - p in
    let whole : p + q ≡ 9 = omega arith in
    let split : 10 ^ p * 10 ^ q ≡ 10 ^ 9 = sym (pow_split p q) ∙ ap (λ (k : ℕ). 10 ^ k) whole in
    let short : n / 10 ^ q < 10 ^ p =
      (div-lt_iff_lt-mul (one-le-pow q 10 (omega arith))).1 (omega (arith, split)) in
    rw (nanos_from-padded p (n / 10 ^ q) short, scale_nanos-pow q (n / 10 ^ q))
      (omega (arith, div-add-mod' n (10 ^ q)))

no_fraction :
    (front rest : Bytes)
    → length front ≡ 8
    → ends rest ≡ true
    → (leb (length (front ++ rest)) 8 || not (get_or (front ++ rest) 8 0 == b'.')) ≡ true
no_fraction front [] eight h = ground (arith, length-append front [])
no_fraction front (c ∷ rest) eight h = ground (arith, get_or-append front c rest 8 0 eight)

module _ (front : Bytes) (s n p : ℕ) (rest : Bytes) (eight : length front ≡ 8) where
  parse_fraction-padded :
      1 ≤ p
      → p ≤ 9
      → n < 1_000_000_000
      → n % 10 ^ (9 - p) ≡ 0
      → ends rest ≡ true
      → parse_fraction (front ++ b'.' ∷ (take p (padded 9 n) ++ rest)) s 9
        ≡ ok (record { second = s; nanos = n; nano_digits = p; next = 9 + p })
  parse_fraction-padded lo hi hn exact ended =
      let f = padded p (n / 10 ^ (9 - p)) in
      let long : length f ≡ p = length-padded p (n / 10 ^ (9 - p)) in
      let found : drop 9 (front ++ b'.' ∷ (f ++ rest)) ≡ f ++ rest =
        drop-append_suc front b'.' (f ++ rest) 8 eight in
      let read =
        parse_fraction-digits _ f rest s 9 found (padded-AllDigits p (n / 10 ^ (9 - p)))
          (ends-digit_run rest ended) (omega arith) (omega arith) in
      rw (take-padded_nine p n hi) (read ∙ rw (long, nanos-fraction n p hi hn exact))

  parse_behind_seconds-fraction_text :
      p ≤ 9
      → n < 1_000_000_000
      → (p ≡ 0 → n ≡ 0)
      → n % 10 ^ (9 - p) ≡ 0
      → ends rest ≡ true
      → parse_behind_seconds (front ++ (fraction_text n p ++ rest)) s 8
        ≡ ok (record {
          second = s;
          nanos = n;
          nano_digits = p;
          next = 8 + length (fraction_text n p);
        })
  unfolding parse_behind_seconds
  parse_behind_seconds-fraction_text hi hn whole exact ended = elim (Bool-cases (ltb 0 p)) [
    | inl some_digits ↦
        let f = take p (padded 9 n) in
        let longer : 8 < length (front ++ b'.' ∷ (f ++ rest)) =
          omega (arith, length-append front (b'.' ∷ (f ++ rest))) in
        let shown_length : length f ≡ p =
          rw (take-padded_nine p n hi, length-padded p (n / 10 ^ (9 - p))) in
        let digits =
          parse_fraction-padded (omega (arith, ltb→lt 0 p some_digits)) hi hn exact ended in
        rw some_digits
          (ground (arith, get_or-append front b'.' (f ++ rest) 8 0 eight, digits, shown_length))
    | inr no_digits ↦ rw (no_digits, no_fraction front rest eight ended) (ground arith)
  ]

-- `parseTimePrefix` reads the text of a time in front of anything that does not go on with it.
pub parse_time_prefix-time_text :
    (h m s n p : ℕ) (has_second : Bool) (rest : Bytes)
    → IsClock h m s n p
    → IsExact s n p has_second
    → ends rest ≡ true
    → parse_time_prefix (time_text h m s n p has_second ++ rest)
      ≡ ok (time_of h m s n p has_second, length (time_text h m s n p has_second))
unfolding parse_time_prefix parse_clock_subseconds parse_behind_seconds
parse_time_prefix-time_text h m s n p false rest c x e =
    let (s0, n0, p0) = x.no_second refl in
    ground (
      arith,
      parse_fixed_digits-pair h,
      parse_fixed_digits-pair m,
      IsClock-validate_local_clock h m s n p c,
    )
parse_time_prefix-time_text h m s n p true rest c x e = ground (
  arith,
  parse_fixed_digits-pair h,
  parse_fixed_digits-pair m,
  parse_fixed_digits-pair s,
  parse_behind_seconds-fraction_text (pair h ++ b':' ∷ (pair m ++ b':' ∷ pair s)) s n p rest refl
      c.digits_le c.nanos_lt c.whole x.shown e,
  IsClock-validate_local_clock h m s n p c,
)
