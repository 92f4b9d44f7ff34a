-- ===== src/DateTime/Calendar.antt =====
-- datetime_parse.go: the calendar, and the range checks of dates and times.
pub mod Valid
use go_toml.Prelude.{
  ℕ, ℤ, Bool, not, ◌&&◌, ◌||◌, abs, above, below, divides, is_negative, ◌==◌, if◌then◌else◌, Result,
  ok, fail_if, ◌>>◌,
}
use go_toml.DateTime.{
  DateTimeError, year_out_of_range, month_out_of_range, day_out_of_range, hour_out_of_range,
  minute_out_of_range, second_out_of_range, nanosecond_out_of_range, precision_out_of_range,
  precision_missing,
}

unfoldable pub is_leap_year : ℤ → Bool
is_leap_year year = divides 4 year && (not (divides 100 year) || divides 400 year)

-- `z == k` for a constant `k` that is not negative.
abbrev pub is_int : ℕ → ℤ → Bool
is_int k z = not (is_negative z) && abs z == k

unfoldable pub days_in_month : ℤ → ℤ → ℕ
unfolding is_leap_year
days_in_month year month =
    if is_int 1 month
      || is_int 3 month
      || is_int 5 month
      || is_int 7 month
      || is_int 8 month
      || is_int 10 month
      || is_int 12 month
    then 31
    else if is_int 4 month || is_int 6 month || is_int 9 month || is_int 11 month
    then 30
    else if is_int 2 month
    then (if is_leap_year year then 29 else 28)
    else 0

unfoldable pub validate_date : ℤ → ℤ → ℤ → Result DateTimeError (Unit {0})
validate_date year month day = do
  fail_if (below year 0 || above year 9999) year_out_of_range
  fail_if (below month 1 || above month 12) month_out_of_range
  fail_if (below day 1 || above day (days_in_month year month)) day_out_of_range
  ok tt

unfoldable pub validate_local_clock : ℤ → ℤ → ℤ → ℤ → ℤ → Result DateTimeError (Unit {0})
validate_local_clock hour minute second nanos nano_digits = do
  fail_if (below hour 0 || above hour 23) hour_out_of_range
  fail_if (below minute 0 || above minute 59) minute_out_of_range
  fail_if (below second 0 || above second 59) second_out_of_range
  fail_if (below nanos 0 || not (below nanos 1_000_000_000)) nanosecond_out_of_range
  fail_if (below nano_digits 0 || above nano_digits 9) precision_out_of_range
  fail_if (is_int 0 nano_digits && not (is_int 0 nanos)) precision_missing
  ok tt
