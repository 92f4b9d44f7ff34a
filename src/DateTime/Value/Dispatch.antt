-- ===== src/DateTime/Value/Dispatch.antt =====
-- `parseDateTimeValue` against the readers that it chooses from.
use mathlib.Core.Path.{subst}
use go_toml.Prelude.{◌≡◌, arith, Bytes, inl, inr, Result-cases, ok, ◌↔◌}
use go_toml.DateTime.{LocalDate, LocalTime, LocalDateTime}
use go_toml.DateTime.Parse.{parse_local_date, parse_local_time, parse_local_date_time}
use go_toml.DateTime.Zone.{ZoneCache, Others}
use go_toml.DateTime.Value.Shapes.{shape_offset, shape_date_time, shape_date, shape_time}
use go_toml.DateTime.Value.{
  DateTimeKind, invalid, offset, local_date_time, local_date, local_time, DateTimeValue,
  offset_value, date_time_value, date_value, time_value, date_time_shape, Time,
  parse_offset_date_time, parse_as, parse_date_time_value,
}

abbrev pub Read : Type 0
Read = DateTimeValue × DateTimeKind × ZoneCache

-- One of the four readers takes the text, with this value.
pub data ReadsAs (others : Others) (cache : ZoneCache) (raw : Bytes) : Read → Type 0 where
  as_offset :
      {t : Time} {cache' : ZoneCache}
      → parse_offset_date_time others cache raw ≡ ok (t, cache')
      → ReadsAs others cache raw (offset_value t, offset, cache')
  as_date_time :
      {dt : LocalDateTime}
      → parse_local_date_time raw ≡ ok dt
      → ReadsAs others cache raw (date_time_value dt, local_date_time, cache)
  as_date :
      {d : LocalDate}
      → parse_local_date raw ≡ ok d
      → ReadsAs others cache raw (date_value d, local_date, cache)
  as_time :
      {t : LocalTime}
      → parse_local_time raw ≡ ok t
      → ReadsAs others cache raw (time_value t, local_time, cache)

module _ (others : Others) (cache : ZoneCache) (raw : Bytes) (r : Read) where
  parse_as-ReadsAs :
      (k : DateTimeKind) → parse_as others cache k raw ≡ ok r → ReadsAs others cache raw r
  unfolding parse_as
  parse_as-ReadsAs offset e = elim (Result-cases (parse_offset_date_time others cache raw)) [
    | inl ((t, cache'), q) ↦
        let same : (offset_value t, offset, cache') ≡ r = ground arith in
        subst (ReadsAs others cache raw) same (as_offset q)
    | inr (x, q) ↦ ground arith
  ]
  parse_as-ReadsAs local_date_time e = elim (Result-cases (parse_local_date_time raw)) [
    | inl (dt, q) ↦
        let same : (date_time_value dt, local_date_time, cache) ≡ r = ground arith in
        subst (ReadsAs others cache raw) same (as_date_time q)
    | inr (x, q) ↦ ground arith
  ]
  parse_as-ReadsAs local_date e = elim (Result-cases (parse_local_date raw)) [
    | inl (d, q) ↦
        let same : (date_value d, local_date, cache) ≡ r = ground arith in
        subst (ReadsAs others cache raw) same (as_date q)
    | inr (x, q) ↦ ground arith
  ]
  parse_as-ReadsAs local_time e = elim (Result-cases (parse_local_time raw)) [
    | inl (t, q) ↦
        let same : (time_value t, local_time, cache) ≡ r = ground arith in
        subst (ReadsAs others cache raw) same (as_time q)
    | inr (x, q) ↦ ground arith
  ]
  parse_as-ReadsAs invalid e = ground arith

  parse_date_time_value-ReadsAs :
      parse_date_time_value others cache raw ≡ ok r → ReadsAs others cache raw r
  unfolding parse_date_time_value
  parse_date_time_value-ReadsAs = parse_as-ReadsAs (date_time_shape raw)

module _ (others : Others) (cache : ZoneCache) (raw : Bytes) where
  ReadsAs-parse_date_time_value :
      {r : Read} → ReadsAs others cache raw r → parse_date_time_value others cache raw ≡ ok r
  unfolding parse_date_time_value parse_as
  ReadsAs-parse_date_time_value (as_offset {t} {cache'} e) =
      rw (shape_offset raw others cache cache' t e, parse_as, e)
  ReadsAs-parse_date_time_value (as_date_time {dt} e) = rw (shape_date_time raw dt e, parse_as, e)
  ReadsAs-parse_date_time_value (as_date {d} e) = rw (shape_date raw d e, parse_as, e)
  ReadsAs-parse_date_time_value (as_time {t} e) = rw (shape_time raw t e, parse_as, e)

-- `parseDateTimeValue` accepts a text exactly when one of the four readers does, with that
-- reader's value, kind and table of zones: the shape that it looks at first shuts out no text that
-- its reader takes.
pub parse_date_time_value_iff :
    (others : Others) (cache : ZoneCache) (raw : Bytes) (r : Read)
    → (parse_date_time_value others cache raw ≡ ok r) ↔ ReadsAs others cache raw r
parse_date_time_value_iff others cache raw r = (
  parse_date_time_value-ReadsAs others cache raw r,
  ReadsAs-parse_date_time_value others cache raw,
)
