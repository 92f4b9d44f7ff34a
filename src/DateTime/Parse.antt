-- ===== src/DateTime/Parse.antt =====
-- datetime_parse.go: the readers of dates and times. An index is in range where it is read: the
-- lengths are tested first.
use go_toml.Prelude.{
  ℕ, zero, suc, ◌+◌, ◌-◌, ◌*◌, pos, Bool, not, ◌&&◌, ◌||◌, [], ◌∷◌, Option, none, some, Bytes,
  length, get_or, drop, slice, ltb, leb, ◌==◌, if◌then◌else◌, Result, ok, err, ◌>>=◌, ◌>>◌, fail_if,
}
use go_toml.DateTime.{
  LocalDate, LocalTime, LocalDateTime, DateTimeError, short_date, malformed_date_separators,
  malformed_year, malformed_month, malformed_day, short_time, malformed_time_separators,
  malformed_hour, malformed_minute, malformed_second, empty_fraction, fraction_too_long,
  missing_separator, trailing_date, trailing_time, trailing_datetime,
}
use go_toml.DateTime.Calendar.{validate_date, validate_local_clock}

-- decoder.go
abbrev pub is_digit : ℕ → Bool
is_digit b = leb b'0' b && leb b b'9'

-- `raw[i]`
abbrev pub at : Bytes → ℕ → ℕ
at raw i = get_or raw i 0

-- The loop of `parseFixedDigits`, from `v`.
unfoldable pub fixed_digits_from : ℕ → Bytes → Option ℕ
fixed_digits_from v [] = some v
fixed_digits_from v (ch ∷ rest) =
    if ltb ch b'0' || ltb b'9' ch then none else fixed_digits_from (v * 10 + (ch - b'0')) rest

unfoldable pub parse_fixed_digits : Bytes → Option ℕ
unfolding fixed_digits_from
parse_fixed_digits = fixed_digits_from 0

-- `v, ok := …; if !ok { return e }`
abbrev pub or_fail : Option ℕ → DateTimeError → Result DateTimeError ℕ
or_fail (some v) e = ok v
or_fail none e = err e

unfoldable pub is_date_time_separator : ℕ → Bool
is_date_time_separator ch = ch == b'T' || ch == b't' || ch == b' '

unfoldable pub parse_date_prefix : Bytes → Result DateTimeError (LocalDate × ℕ)
parse_date_prefix raw = do
  fail_if (ltb (length raw) 10) short_date
  fail_if (not (at raw 4 == b'-') || not (at raw 7 == b'-')) malformed_date_separators
  year ← or_fail (parse_fixed_digits (slice raw 0 4)) malformed_year
  month ← or_fail (parse_fixed_digits (slice raw 5 7)) malformed_month
  day ← or_fail (parse_fixed_digits (slice raw 8 10)) malformed_day
  validate_date (pos year) (pos month) (pos day)
  ok (record { year = pos year; month = pos month; day = pos day }, 10)

-- The number of digits at the front: the loop that goes on while the byte is one of `0` to `9`.
unfoldable pub digit_run : Bytes → ℕ
digit_run [] = 0
digit_run (b ∷ rest) = if is_digit b then suc (digit_run rest) else 0

-- `nanos = nanos*10 + int(raw[i]-'0')` over the digits of the fraction.
unfoldable pub nanos_from : ℕ → Bytes → ℕ
nanos_from nanos [] = nanos
nanos_from nanos (b ∷ rest) = nanos_from (nanos * 10 + (b - b'0')) rest

-- `for range n { nanos *= 10 }`
unfoldable pub scale_nanos : ℕ → ℕ → ℕ
scale_nanos zero nanos = nanos
scale_nanos (suc n) nanos = scale_nanos n (nanos * 10)

-- The named results of `parseClockSubseconds`.
pub record Subseconds : Type 0 where
  pub second : ℕ
  pub nanos : ℕ
  pub nano_digits : ℕ
  pub next : ℕ

-- The fraction, from `frac_start` on, behind the seconds `second`.
unfoldable pub parse_fraction : Bytes → ℕ → ℕ → Result DateTimeError Subseconds
parse_fraction raw second frac_start = do
  let next = frac_start + digit_run (drop frac_start raw)
  fail_if (next == frac_start) empty_fraction
  fail_if (ltb 9 (next - frac_start)) fraction_too_long
  let nano_digits = next - frac_start
  let nanos = scale_nanos (9 - nano_digits) (nanos_from 0 (slice raw frac_start next))
  ok (record { second = second; nanos = nanos; nano_digits = nano_digits; next = next })

-- What follows the seconds, from `next` on.
unfoldable pub parse_behind_seconds : Bytes → ℕ → ℕ → Result DateTimeError Subseconds
parse_behind_seconds raw second next =
    if leb (length raw) next || not (at raw next == b'.')
    then ok (record { second = second; nanos = 0; nano_digits = 0; next = next })
    else parse_fraction raw second (next + 1)

unfoldable pub parse_clock_subseconds : Bytes → ℕ → Result DateTimeError Subseconds
parse_clock_subseconds raw off =
    if leb (length raw) off || not (at raw off == b':')
    then ok (record { second = 0; nanos = 0; nano_digits = 0; next = off })
    else do
      fail_if (ltb (length raw - (off + 1)) 2) short_time
      sec ← or_fail (parse_fixed_digits (slice raw (off + 1) (off + 1 + 2))) malformed_second
      parse_behind_seconds raw sec (off + 1 + 2)

unfoldable pub parse_time_prefix : Bytes → Result DateTimeError (LocalTime × ℕ)
parse_time_prefix raw = do
  fail_if (ltb (length raw) 5) short_time
  fail_if (not (at raw 2 == b':')) malformed_time_separators
  hour ← or_fail (parse_fixed_digits (slice raw 0 2)) malformed_hour
  minute ← or_fail (parse_fixed_digits (slice raw 3 5)) malformed_minute
  s ← parse_clock_subseconds raw 5
  validate_local_clock (pos hour) (pos minute) (pos s.second) (pos s.nanos) (pos s.nano_digits)
  let clock : LocalTime = record {
    hour = pos hour;
    minute = pos minute;
    second = pos s.second;
    nanosecond = pos s.nanos;
    has_second = ltb 5 s.next;
    nano_digits = pos s.nano_digits;
  }
  ok (clock, s.next)

unfoldable pub parse_local_date : Bytes → Result DateTimeError LocalDate
parse_local_date raw = do
  (date, next) ← parse_date_prefix raw
  fail_if (not (next == length raw)) trailing_date
  ok date

unfoldable pub parse_local_time : Bytes → Result DateTimeError LocalTime
parse_local_time raw = do
  (clock, next) ← parse_time_prefix raw
  fail_if (not (next == length raw)) trailing_time
  ok clock

-- `LocalDateTime{Year: date.Year, …, nanoDigits: clock.nanoDigits}`
abbrev pub join : LocalDate → LocalTime → LocalDateTime
join date clock = record {
  year = date.year;
  month = date.month;
  day = date.day;
  hour = clock.hour;
  minute = clock.minute;
  second = clock.second;
  nanosecond = clock.nanosecond;
  has_second = clock.has_second;
  nano_digits = clock.nano_digits;
}

unfoldable pub parse_local_date_time : Bytes → Result DateTimeError LocalDateTime
parse_local_date_time raw = do
  (date, time_start) ← parse_date_prefix raw
  fail_if (leb (length raw) time_start || not (is_date_time_separator (at raw time_start)))
      missing_separator
  (clock, next) ← parse_time_prefix (drop (time_start + 1) raw)
  fail_if (not (time_start + 1 + next == length raw)) trailing_datetime
  ok (join date clock)
