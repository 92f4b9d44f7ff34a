-- ===== src/DateTime/Calendar/Valid.antt =====
-- What the range checks of datetime_parse.go accept, in plain arithmetic.
use native.Mathlib.Decide.{dec_le}
use go_toml.Prelude.{
  ℕ, ◌%◌, ◌≤◌, ◌<◌, ◌≡◌, ◌≢◌, ◌⊎◌, inl, inr, refl, ℤ, pos, pos_part, true, arith, ok, Bool-cases,
}
use go_toml.DateTime.Calendar.{is_leap_year, days_in_month, validate_date, validate_local_clock}

-- The Gregorian rule.
pub record IsLeap (y : ℕ) : Type 0 where
  pub fourth : y % 4 ≡ 0
  pub century : (y % 100 ≢ 0) ⊎ (y % 400 ≡ 0)

pub is_leap_year-IsLeap : (y : ℕ) → is_leap_year (pos y) ≡ true → IsLeap y
unfolding is_leap_year
is_leap_year-IsLeap y h = ground arith

pub IsLeap-is_leap_year : (y : ℕ) → IsLeap y → is_leap_year (pos y) ≡ true
unfolding is_leap_year
IsLeap-is_leap_year y v = ground arith

-- A date of the Gregorian calendar, from the year 0 to 9999. A month has 31 days, or 30 if it is April,
-- June, September or November; February has 28, and in a leap year one more.
pub record IsDate (y m d : ℕ) : Type 0 where
  pub year_le : y ≤ 9999
  pub month_pos : 1 ≤ m
  pub month_le : m ≤ 12
  pub day_pos : 1 ≤ d
  pub day_le : d ≤ 31
  pub short_month : (m ≡ 4) ⊎ (m ≡ 6) ⊎ (m ≡ 9) ⊎ (m ≡ 11) → d ≤ 30
  pub february : m ≡ 2 → (d ≤ 28) ⊎ ((d ≡ 29) × IsLeap y)

days_in_month-le : (y m : ℤ) → days_in_month y m ≤ 31
unfolding days_in_month
days_in_month-le y m = ground arith

-- The days of a month, from both sides.
module _ (y m d : ℕ) where
  le-short_month :
      d ≤ days_in_month (pos y) (pos m) → (m ≡ 4) ⊎ (m ≡ 6) ⊎ (m ≡ 9) ⊎ (m ≡ 11) → d ≤ 30
  unfolding days_in_month
  le-short_month h s = ground arith

  le-february : d ≤ days_in_month (pos y) (pos m) → m ≡ 2 → (d ≤ 28) ⊎ ((d ≡ 29) × IsLeap y)
  unfolding days_in_month
  le-february h e = elim (Bool-cases (is_leap_year (pos y))) [
    | inr common ↦ inl (ground (arith, common))
    | inl leap ↦ elim (dec_le d 28) [
      | yes early ↦ inl early
      | no late ↦ inr (ground (arith, leap), is_leap_year-IsLeap y leap)
    ]
  ]

  IsDate-days_in_month : IsDate y m d → d ≤ days_in_month (pos y) (pos m)
  unfolding days_in_month
  IsDate-days_in_month v = elim (Bool-cases (is_leap_year (pos y))) [
    | inl leap ↦ ground (arith, v.short_month, v.february, leap)
    | inr common ↦ ground (arith, v.short_month, v.february, IsLeap-is_leap_year y, common)
  ]

pub validate_date-IsDate :
    (y m d : ℕ) → validate_date (pos y) (pos m) (pos d) ≡ ok tt → IsDate y m d
unfolding validate_date
validate_date-IsDate y m d h =
    let fits : d ≤ days_in_month (pos y) (pos m) = ground arith in
    record {
      year_le = ground arith;
      month_pos = ground arith;
      month_le = ground arith;
      day_pos = ground arith;
      day_le = omega (arith, fits, days_in_month-le (pos y) (pos m));
      short_month = le-short_month y m d fits;
      february = le-february y m d fits;
    }

pub IsDate-validate_date :
    (y m d : ℕ) → IsDate y m d → validate_date (pos y) (pos m) (pos d) ≡ ok tt
unfolding validate_date
IsDate-validate_date y m d v =
    let fits : d ≤ days_in_month (pos y) (pos m) = IsDate-days_in_month y m d v in ground arith

-- The checks refuse negative fields.
pub validate_date-pos :
    (y m d : ℤ)
    → validate_date y m d ≡ ok tt
    → (y ≡ pos (pos_part y)) × (m ≡ pos (pos_part m)) × (d ≡ pos (pos_part d))
unfolding validate_date
validate_date-pos (pos y) (pos m) (pos d) h = (refl, refl, refl)
validate_date-pos _ _ _ h = ground arith

-- A time of the day, with a fraction of `p` digits.
pub record IsClock (h m s n p : ℕ) : Type 0 where
  pub hour_le : h ≤ 23
  pub minute_le : m ≤ 59
  pub second_le : s ≤ 59
  pub nanos_lt : n < 1_000_000_000
  pub digits_le : p ≤ 9
  pub whole : p ≡ 0 → n ≡ 0

module _ (h m s n p : ℕ) where
  pub validate_local_clock-IsClock :
      validate_local_clock (pos h) (pos m) (pos s) (pos n) (pos p) ≡ ok tt → IsClock h m s n p
  unfolding validate_local_clock
  validate_local_clock-IsClock e = ground arith

  pub IsClock-validate_local_clock :
      IsClock h m s n p → validate_local_clock (pos h) (pos m) (pos s) (pos n) (pos p) ≡ ok tt
  unfolding validate_local_clock
  IsClock-validate_local_clock c = ground (arith, c.whole)

pub validate_local_clock-pos :
    (h m s n p : ℤ)
    → validate_local_clock h m s n p ≡ ok tt
    → (h ≡ pos (pos_part h))
      × (m ≡ pos (pos_part m))
      × (s ≡ pos (pos_part s))
      × (n ≡ pos (pos_part n))
      × (p ≡ pos (pos_part p))
unfolding validate_local_clock
validate_local_clock-pos h m s n p e = ground arith
