-- ===== src/DateTime/Tests.antt =====
-- datetime.go, datetime_parse.go at concrete inputs.
use go_toml.Prelude.{pos, true, ◌≡◌, refl, codes, ok, err}
use go_toml.DateTime.{LocalDate, LocalTime, day_out_of_range, trailing_date, empty_fraction}
use go_toml.DateTime.Calendar.{days_in_month, validate_date, validate_local_clock}
use go_toml.DateTime.Print.{append_padded_int, append_date, append_time, marshal_date, marshal_time}
use go_toml.DateTime.Parse.{
  parse_fixed_digits, parse_date_prefix, parse_time_prefix, digit_run, nanos_from, scale_nanos,
  parse_fraction, parse_behind_seconds, parse_clock_subseconds, parse_local_date, parse_local_time,
}
use go_toml.Prelude.Decimal.{itoa}

abbrev leap_day : LocalDate
leap_day = record { year = pos 2024; month = pos 2; day = pos 29 }

abbrev half_past : LocalTime
half_past = record {
  hour = pos 7;
  minute = pos 32;
  second = pos 5;
  nanosecond = pos 250_000_000;
  has_second = true;
  nano_digits = pos 3;
}

marshal_leap_day : marshal_date leap_day ≡ ok (codes "2024-02-29")
unfolding marshal_date validate_date days_in_month append_date append_padded_int
marshal_leap_day = refl

parse_leap_day : parse_local_date (codes "2024-02-29") ≡ ok leap_day
unfolding parse_local_date parse_date_prefix parse_fixed_digits validate_date days_in_month
parse_leap_day = refl

parse_no_leap_day : parse_local_date (codes "2023-02-29") ≡ err day_out_of_range
unfolding parse_local_date parse_date_prefix parse_fixed_digits validate_date days_in_month
parse_no_leap_day = refl

parse_long_date : parse_local_date (codes "2024-02-29T") ≡ err trailing_date
unfolding parse_local_date parse_date_prefix parse_fixed_digits validate_date days_in_month
parse_long_date = refl

marshal_half_past : marshal_time half_past ≡ ok (codes "07:32:05.250")
unfolding marshal_time validate_local_clock append_time append_padded_int itoa
marshal_half_past = refl

parse_half_past : parse_local_time (codes "07:32:05.250") ≡ ok half_past
unfolding parse_local_time parse_time_prefix parse_fixed_digits parse_clock_subseconds
    parse_behind_seconds parse_fraction digit_run nanos_from scale_nanos validate_local_clock
parse_half_past = refl

parse_empty_fraction : parse_local_time (codes "07:32:05.") ≡ err empty_fraction
unfolding parse_local_time parse_time_prefix parse_fixed_digits parse_clock_subseconds
    parse_behind_seconds parse_fraction digit_run nanos_from scale_nanos validate_local_clock
parse_empty_fraction = refl
