-- ===== src/DateTime/Value.antt =====
-- datetime_parse.go, decoder.go: the shapes of dates and times, and the reader that chooses by
-- them.
mod Shapes
pub mod Dispatch
use go_toml.Prelude.{
  ℕ, ◌+◌, ◌-◌, ℤ, pos, Bool, true, false, not, ◌&&◌, ◌||◌, [], ◌∷◌, Option, none, some, Bytes,
  length, drop, leb, ltb, ◌==◌, if◌then◌else◌, Result, ok, err, ◌>>=◌, ◌>>◌, fail_if,
}
use go_toml.DateTime.{
  LocalDate, LocalTime, LocalDateTime, DateTimeError, missing_separator, missing_offset,
  invalid_datetime, nil_location,
}
use go_toml.DateTime.Parse.{
  at, is_digit, is_date_time_separator, parse_date_prefix, parse_time_prefix, parse_local_date,
  parse_local_time, parse_local_date_time,
}
use go_toml.DateTime.Zone.{Location, utc, ZoneCache, Others, parse_zone}

-- The arguments of `time.Date`.
pub record Time : Type 0 where
  pub year : ℤ
  pub month : ℤ
  pub day : ℤ
  pub hour : ℤ
  pub minute : ℤ
  pub second : ℤ
  pub nanosecond : ℤ
  pub location : Location

-- `time.Date` panics on a null location.
abbrev pub located : Option Location → Result DateTimeError Location
located (some loc) = ok loc
located none = err nil_location

abbrev pub time_at : LocalDate → LocalTime → Location → Time
time_at date clock loc = record {
  year = date.year;
  month = date.month;
  day = date.day;
  hour = clock.hour;
  minute = clock.minute;
  second = clock.second;
  nanosecond = clock.nanosecond;
  location = loc;
}

unfoldable pub has_date_shape : Bytes → Bool
has_date_shape raw =
    if ltb (length raw) 10
    then false
    else is_digit (at raw 0)
      && is_digit (at raw 1)
      && is_digit (at raw 2)
      && is_digit (at raw 3)
      && at raw 4 == b'-'
      && is_digit (at raw 5)
      && is_digit (at raw 6)
      && at raw 7 == b'-'
      && is_digit (at raw 8)
      && is_digit (at raw 9)

unfoldable pub has_time_shape : Bytes → Bool
has_time_shape raw =
    if ltb (length raw) 5
    then false
    else is_digit (at raw 0)
      && is_digit (at raw 1)
      && at raw 2 == b':'
      && is_digit (at raw 3)
      && is_digit (at raw 4)

pub data DateTimeKind : Type 0 where
  invalid offset local_date_time local_date local_time : DateTimeKind

-- The loop of `hasDateTimeOffsetSuffix` over the bytes from index 5 on.
unfoldable pub has_offset_byte : Bytes → Bool
has_offset_byte [] = false
has_offset_byte (b ∷ rest) =
    if b == b'Z' || b == b'z' || b == b'+' || b == b'-' then true else has_offset_byte rest

unfoldable pub has_date_time_offset_suffix : Bytes → Bool
has_date_time_offset_suffix raw = has_offset_byte (drop 5 raw)

unfoldable pub date_shape : Bytes → DateTimeKind
date_shape raw =
    if length raw == 10
    then local_date
    else if ltb 10 (length raw) && is_date_time_separator (at raw 10)
    then (if has_date_time_offset_suffix (drop 11 raw) then offset else local_date_time)
    else invalid

unfoldable pub date_time_shape : Bytes → DateTimeKind
date_time_shape raw =
    if has_date_shape raw
    then date_shape raw
    else if has_time_shape raw
    then local_time
    else invalid

-- The value that `any` holds.
pub data DateTimeValue : Type 0 where
  offset_value : Time → DateTimeValue
  date_time_value : LocalDateTime → DateTimeValue
  date_value : LocalDate → DateTimeValue
  time_value : LocalTime → DateTimeValue

-- `return nil, dateTimeKindInvalid, invalidDateTimeError(raw)` for any error.
abbrev pub or_invalid {ℓ} : {A : Type ℓ} → Result DateTimeError A → Result DateTimeError A
or_invalid (ok a) = ok a
or_invalid (err e) = err invalid_datetime

module _ (others : Others) (cache : ZoneCache) where
  unfoldable pub parse_offset_date_time : Bytes → Result DateTimeError (Time × ZoneCache)
  parse_offset_date_time raw = do
    (date, time_start) ← parse_date_prefix raw
    fail_if (leb (length raw) time_start || not (is_date_time_separator (at raw time_start)))
        missing_separator
    (clock, next) ← parse_time_prefix (drop (time_start + 1) raw)
    let off = time_start + 1 + next
    fail_if (leb (length raw) off) missing_offset
    (loc, cache') ← parse_zone others cache (drop off raw)
    place ← located loc
    ok (time_at date clock place, cache')

  -- The reader of each shape.
  unfoldable pub parse_as :
      DateTimeKind → Bytes → Result DateTimeError (DateTimeValue × DateTimeKind × ZoneCache)
  parse_as offset raw = do
    (t, cache') ← or_invalid (parse_offset_date_time raw)
    ok (offset_value t, offset, cache')
  parse_as local_date_time raw = do
    dt ← or_invalid (parse_local_date_time raw)
    ok (date_time_value dt, local_date_time, cache)
  parse_as local_date raw = do
    d ← or_invalid (parse_local_date raw)
    ok (date_value d, local_date, cache)
  parse_as local_time raw = do
    t ← or_invalid (parse_local_time raw)
    ok (time_value t, local_time, cache)
  parse_as invalid raw = err invalid_datetime

  unfoldable pub parse_date_time_value :
      Bytes → Result DateTimeError (DateTimeValue × DateTimeKind × ZoneCache)
  parse_date_time_value raw = parse_as (date_time_shape raw) raw
