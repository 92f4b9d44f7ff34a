-- ===== src/DateTime.antt =====
-- datetime.go, datetime_parse.go: the local date and time types, and the errors of their checks,
-- one for each message of the code.
pub mod Calendar
pub mod Print
pub mod Parse
pub mod Fields
pub mod Dates
pub mod Fraction
pub mod Times
pub mod RoundTrip
pub mod Joined
pub mod Zone
pub mod Value
mod Examples
mod Tests
use go_toml.Prelude.{ℤ, Bool}

pub record LocalDate : Type 0 where
  pub year : ℤ
  pub month : ℤ
  pub day : ℤ

pub record LocalTime : Type 0 where
  pub hour : ℤ
  pub minute : ℤ
  pub second : ℤ
  pub nanosecond : ℤ
  pub has_second : Bool
  pub nano_digits : ℤ

-- The fields of the code's struct are those of a date followed by those of a time.
pub record LocalDateTime : Type 0 where
  pub year : ℤ
  pub month : ℤ
  pub day : ℤ
  pub hour : ℤ
  pub minute : ℤ
  pub second : ℤ
  pub nanosecond : ℤ
  pub has_second : Bool
  pub nano_digits : ℤ

pub data DateTimeError : Type 0 where
  year_out_of_range month_out_of_range day_out_of_range : DateTimeError
  hour_out_of_range minute_out_of_range second_out_of_range : DateTimeError
  nanosecond_out_of_range precision_out_of_range precision_missing : DateTimeError
  short_date malformed_date_separators malformed_year malformed_month malformed_day : DateTimeError
  short_time malformed_time_separators malformed_hour malformed_minute : DateTimeError
  malformed_second empty_fraction fraction_too_long : DateTimeError
  missing_separator missing_offset malformed_offset : DateTimeError
  malformed_offset_hour malformed_offset_minute offset_out_of_range : DateTimeError
  trailing_date trailing_time trailing_datetime invalid_datetime : DateTimeError
  -- the panic of `time.Date` without a location
  nil_location : DateTimeError
