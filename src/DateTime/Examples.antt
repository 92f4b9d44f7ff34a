-- ===== src/DateTime/Examples.antt =====
-- The theorems on dates and times at concrete inputs.
use go_toml.Prelude.{negsuc, ◌≡◌, refl, ◌↔◌, pos, true, false, none, some, arith, codes, set, ok}
use go_toml.DateTime.{LocalDate, LocalTime, LocalDateTime}
use go_toml.DateTime.Calendar.{days_in_month, validate_date, validate_local_clock}
use go_toml.DateTime.Calendar.Valid.{IsDate}
use go_toml.DateTime.Dates.{parse_local_date-marshal_date, marshal_date-parse_local_date}
use go_toml.DateTime.Times.{time_of}
use go_toml.DateTime.RoundTrip.{
  Exact, Valid, parse_local_time-marshal_time, marshal_time-parse_local_time,
  marshal_time-drops_seconds,
}
use go_toml.DateTime.Joined.{
  ValidDay, clock_part, parse_local_date_time-marshal_date_time,
  marshal_date_time-parse_local_date_time,
}
use go_toml.DateTime.Print.{
  append_padded_int, append_date, append_time, marshal_date, marshal_time, marshal_date_time,
}
use go_toml.DateTime.Parse.{
  at, is_date_time_separator, parse_fixed_digits, parse_date_prefix, parse_time_prefix, digit_run,
  nanos_from, scale_nanos, parse_fraction, parse_behind_seconds, parse_clock_subseconds,
  parse_local_date, parse_local_time, parse_local_date_time,
}
use go_toml.DateTime.Zone.{
  Location, ZoneCache, Others, store, fixed_zone, fixed_offset_zone, parse_zone,
}
use go_toml.DateTime.Zone.Shared.{IsGood, AreFair, Names, parse_zone-Names}
use go_toml.DateTime.Value.{parse_date_time_value, date_value, local_date}
use go_toml.DateTime.Value.Dispatch.{Read, ReadsAs, parse_date_time_value_iff}
use go_toml.Prelude.Decimal.{itoa}

abbrev leap_day : LocalDate
leap_day = record { year = pos 2024; month = pos 2; day = pos 29 }

abbrev half_past : LocalTime
half_past = record {
  hour = pos 7;
  minute = pos 32;
  second = pos 5;
  nanosecond = pos 250_000_000;
  has_second = true;
  nano_digits = pos 3;
}

abbrev moment : LocalDateTime
moment = record {
  year = pos 2024;
  month = pos 2;
  day = pos 29;
  hour = pos 7;
  minute = pos 32;
  second = pos 5;
  nanosecond = pos 250_000_000;
  has_second = true;
  nano_digits = pos 3;
}

marshal_leap_day : marshal_date leap_day ≡ ok (codes "2024-02-29")
unfolding marshal_date validate_date days_in_month append_date append_padded_int
marshal_leap_day = refl

parse_leap_day : parse_local_date (codes "2024-02-29") ≡ ok leap_day
unfolding parse_local_date parse_date_prefix parse_fixed_digits validate_date days_in_month
parse_leap_day = refl

marshal_half_past : marshal_time half_past ≡ ok (codes "07:32:05.250")
unfolding marshal_time validate_local_clock append_time append_padded_int itoa
marshal_half_past = refl

parse_half_past : parse_local_time (codes "07:32:05.250") ≡ ok half_past
unfolding parse_local_time parse_time_prefix parse_fixed_digits parse_clock_subseconds
    parse_behind_seconds parse_fraction digit_run nanos_from scale_nanos validate_local_clock
parse_half_past = refl

marshal_moment : marshal_date_time moment ≡ ok (codes "2024-02-29T07:32:05.250")
unfolding marshal_date_time validate_date days_in_month append_date append_padded_int
    validate_local_clock append_time itoa
marshal_moment = refl

parse_moment : parse_local_date_time (codes "2024-02-29 07:32:05.250") ≡ ok moment
unfolding parse_local_date_time is_date_time_separator parse_date_prefix validate_date days_in_month
    parse_time_prefix parse_fixed_digits parse_clock_subseconds parse_behind_seconds parse_fraction
    digit_run nanos_from scale_nanos validate_local_clock
parse_moment = refl

parse_local_date-marshal_date_example : parse_local_date (codes "2024-02-29") ≡ ok leap_day
parse_local_date-marshal_date_example =
    parse_local_date-marshal_date leap_day (codes "2024-02-29") marshal_leap_day

marshal_date-parse_local_date_example :
    (marshal_date leap_day ≡ ok (codes "2024-02-29")) × IsDate 2024 2 29
marshal_date-parse_local_date_example =
    marshal_date-parse_local_date (codes "2024-02-29") leap_day parse_leap_day

half_past-Exact : Exact half_past
half_past-Exact = record { shown = refl; no_second = λ e. cc }

parse_local_time-marshal_time_example : parse_local_time (codes "07:32:05.250") ≡ ok half_past
parse_local_time-marshal_time_example =
    parse_local_time-marshal_time half_past (codes "07:32:05.250") half_past-Exact marshal_half_past

marshal_time-parse_local_time_example :
    (marshal_time half_past ≡ ok (codes "07:32:05.250")) × Valid half_past × Exact half_past
marshal_time-parse_local_time_example =
    marshal_time-parse_local_time (codes "07:32:05.250") half_past parse_half_past

parse_local_date_time-marshal_date_time_example :
    parse_local_date_time (codes "2024-02-29T07:32:05.250") ≡ ok moment
parse_local_date_time-marshal_date_time_example =
    parse_local_date_time-marshal_date_time moment (codes "2024-02-29T07:32:05.250") half_past-Exact
      marshal_moment

marshal_date_time-parse_local_date_time_example :
    (marshal_date_time moment ≡ ok (set (codes "2024-02-29 07:32:05.250") 10 b'T'))
    × (is_date_time_separator (at (codes "2024-02-29 07:32:05.250") 10) ≡ true)
    × ValidDay moment
    × Valid (clock_part moment)
    × Exact (clock_part moment)
marshal_date_time-parse_local_date_time_example =
    marshal_date_time-parse_local_date_time (codes "2024-02-29 07:32:05.250") moment parse_moment

marshal_time-drops_seconds_example :
    (marshal_time (time_of 7 32 45 0 0 false) ≡ ok (codes "07:32"))
    × (parse_local_time (codes "07:32") ≡ ok (time_of 7 32 0 0 0 false))
marshal_time-drops_seconds_example = marshal_time-drops_seconds 7 32 45 0 0 (record {
  hour_le = omega arith;
  minute_le = omega arith;
  second_le = omega arith;
  nanos_lt = omega arith;
  digits_le = omega arith;
  whole = λ e. refl;
})

abbrev empty_cache : ZoneCache
empty_cache s h m = none

abbrev idle : Others
idle = record { before_swap = λ c. c; after_swap = λ c. c }

idle-AreFair : AreFair idle
idle-AreFair = record {
  before = λ c good. (good, λ s h m loc e. e);
  after = λ c good. (good, λ s h m loc e. e);
}

abbrev half_west : Location
half_west = fixed_zone (codes "-07:30") (negsuc 26_999)

parse_half_west :
    parse_zone idle empty_cache (codes "-07:30")
    ≡ ok (some half_west, store empty_cache 1 7 30 half_west)
unfolding parse_zone parse_fixed_digits fixed_offset_zone
parse_half_west = refl

parse_zone-Names_example :
    ((l : Location) × (some half_west ≡ some l) × Names (codes "-07:30") l)
    × IsGood (store empty_cache 1 7 30 half_west)
parse_zone-Names_example =
    parse_zone-Names idle empty_cache (store empty_cache 1 7 30 half_west) (codes "-07:30")
      (some half_west) idle-AreFair (λ s h m loc e. cc) parse_half_west

abbrev read_leap_day : Read
read_leap_day = (date_value leap_day, local_date, empty_cache)

parse_date_time_value_iff_example :
    (parse_date_time_value idle empty_cache (codes "2024-02-29") ≡ ok read_leap_day)
    ↔ ReadsAs idle empty_cache (codes "2024-02-29") read_leap_day
parse_date_time_value_iff_example =
    parse_date_time_value_iff idle empty_cache (codes "2024-02-29") read_leap_day
