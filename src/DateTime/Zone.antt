-- ===== src/DateTime/Zone.antt =====
-- datetime_parse.go: the offset of a date-time, and the table of zones that all calls share.
-- `time.Location` and `time.Time` are the arguments that they are made from: those of `time.Date`
-- are in range wherever the code calls it, so it changes none of them.
pub mod Shared
use go_toml.Prelude.{
  ℕ, ◌+◌, ◌-◌, ◌*◌, ℤ, pos, negsuc, Bool, ◌&&◌, ◌||◌, not, Option, none, some, Bytes, length, slice,
  ltb, ◌==◌, if◌then◌else◌, Result, ok, err, ◌>>=◌, ◌>>◌, fail_if,
}
use go_toml.DateTime.{
  DateTimeError, malformed_offset, malformed_offset_hour, malformed_offset_minute,
  offset_out_of_range,
}
use go_toml.DateTime.Parse.{at, parse_fixed_digits, or_fail}

pub data Location : Type 0 where
  utc : Location
  fixed_zone : Bytes → ℤ → Location

-- `fixedOffsetZoneCache`: a slot for each sign, hour and minute. It is empty at first.
abbrev pub ZoneCache : Type 0
ZoneCache = ℕ → ℕ → ℕ → Option Location

unfoldable pub store : ZoneCache → ℕ → ℕ → ℕ → Location → ZoneCache
store cache sign hour minute loc s h m =
    if s == sign && (h == hour && m == minute) then some loc else cache s h m

-- What other goroutines do to the table between two atomic operations of one call.
pub record Others : Type 0 where
  pub before_swap : ZoneCache → ZoneCache
  pub after_swap : ZoneCache → ZoneCache

-- `-seconds`
abbrev pub negate : ℕ → ℤ
negate n = if n == 0 then pos 0 else negsuc (n - 1)

-- `slot.CompareAndSwap(nil, loc)`, and the last `slot.Load()` where it fails. A null pointer is
-- `none`.
unfoldable pub swap_zone : Others → ZoneCache → ℕ → ℕ → ℕ → Location → Option Location × ZoneCache
swap_zone others cache sign hour minute loc = elim (cache sign hour minute) [
  | none ↦ (some loc, store cache sign hour minute loc)
  | some taken ↦ let later = others.after_swap cache in (later sign hour minute, later)
]

-- The first index of the table.
abbrev pub zone_sign : Bytes → ℕ
zone_sign raw = if at raw 0 == b'-' then 1 else 0

unfoldable pub fixed_offset_zone :
    Others → ZoneCache → Bytes → ℤ → ℕ → ℕ → Option Location × ZoneCache
unfolding swap_zone
fixed_offset_zone others cache raw seconds hour minute =
    let sign = zone_sign raw in
    elim (cache sign hour minute) [
      | some loc ↦ (some loc, cache)
      | none ↦ swap_zone others (others.before_swap cache) sign hour minute (fixed_zone raw seconds)
    ]

-- An error comes before the table is read.
unfoldable pub parse_zone :
    Others → ZoneCache → Bytes → Result DateTimeError (Option Location × ZoneCache)
parse_zone others cache raw =
    if length raw == 1 && (at raw 0 == b'Z' || at raw 0 == b'z') then ok (some utc, cache) else do
      fail_if
          (not (length raw == 6)
            || (not (at raw 0 == b'+') && not (at raw 0 == b'-'))
            || not (at raw 3 == b':'))
          malformed_offset
      hour ← or_fail (parse_fixed_digits (slice raw 1 3)) malformed_offset_hour
      minute ← or_fail (parse_fixed_digits (slice raw 4 6)) malformed_offset_minute
      fail_if (ltb 23 hour || ltb 59 minute) offset_out_of_range
      let total = hour * 3600 + minute * 60
      let seconds = if at raw 0 == b'-' then negate total else pos total
      ok (fixed_offset_zone others cache raw seconds hour minute)
