-- ===== src/DateTime/Joined.antt =====
-- `LocalDateTime`: `MarshalText` and `ParseLocalDateTime` against one another.
use mathlib.Core.Path.{subst}
use go_toml.Prelude.{
  Result-cases, inl, inr, drop, ℕ, ◌≡◌, refl, sym, ap, ◌∙◌, pos_part, Bool, true, [], ◌∷◌, ◌++◌,
  append-nil, arith, Bytes, length, set, ok, >>=-eq-ok,
}
use go_toml.DateTime.{LocalDate, LocalTime, LocalDateTime}
use go_toml.DateTime.Calendar.{validate_date, validate_local_clock}
use go_toml.DateTime.Calendar.Valid.{
  IsDate, IsClock, IsDate-validate_date, IsClock-validate_local_clock, validate_local_clock-pos,
}
use go_toml.DateTime.Dates.{
  date_of, date_text, append_date-date_text, parse_date_prefix-date_text, validate_date-inv,
  parse_date_prefix-ReadsDate,
}
use go_toml.DateTime.Times.{
  IsExact, time_of, time_text, parts_of, text_of, append_time-time_text,
  parse_time_prefix-time_text,
}
use go_toml.DateTime.Times.Sound.{ReadsTime, parse_time_prefix-ReadsTime}
use go_toml.DateTime.RoundTrip.{whole_text, Exact, Valid, validate_local_clock-inv}
use go_toml.DateTime.Print.{marshal_date_time}
use go_toml.DateTime.Parse.{
  at, is_date_time_separator, parse_date_prefix, parse_time_prefix, join, parse_local_date_time,
}

-- The two halves of a date-time.
abbrev pub date_part : LocalDateTime → LocalDate
date_part dt = record { year = dt.year; month = dt.month; day = dt.day }

abbrev pub clock_part : LocalDateTime → LocalTime
clock_part dt = record {
  hour = dt.hour;
  minute = dt.minute;
  second = dt.second;
  nanosecond = dt.nanosecond;
  has_second = dt.has_second;
  nano_digits = dt.nano_digits;
}

module _ (y mo d h m s n p : ℕ) (has_second : Bool) (day : IsDate y mo d)
    (clock : IsClock h m s n p) where
  marshal_date_time-join :
      marshal_date_time (join (date_of y mo d) (time_of h m s n p has_second))
      ≡ ok (date_text y mo d ++ b'T' ∷ time_text h m s n p has_second)
  unfolding marshal_date_time
  marshal_date_time-join =
      rw (IsDate-validate_date y mo d day, IsClock-validate_local_clock h m s n p clock)
        (ap ok (
          rw (append_date-date_text [] y mo d day)
            (append_time-time_text (date_text y mo d ++ b'T' ∷ []) h m s n p has_second clock)))

  parse_local_date_time-join :
      (sep : ℕ)
      → is_date_time_separator sep ≡ true
      → IsExact s n p has_second
      → parse_local_date_time (date_text y mo d ++ sep ∷ time_text h m s n p has_second)
        ≡ ok (join (date_of y mo d) (time_of h m s n p has_second))
  unfolding parse_local_date_time
  parse_local_date_time-join sep good exact =
      let text = time_text h m s n p has_second in
      let back = append-nil text in
      let read = parse_time_prefix-time_text h m s n p has_second [] clock exact refl in
      rw (parse_date_prefix-date_text y mo d (sep ∷ text) day)
        (ground (arith, good, rw back at read))

-- The date-time with its fields read as numbers that are not negative.
abbrev pub canon : LocalDateTime → LocalDateTime
canon dt =
    join (date_of (pos_part dt.year) (pos_part dt.month) (pos_part dt.day))
      (parts_of (clock_part dt))

abbrev pub day_text : LocalDateTime → Bytes
day_text dt = date_text (pos_part dt.year) (pos_part dt.month) (pos_part dt.day)

abbrev pub ValidDay : LocalDateTime → Type 0
ValidDay dt = IsDate (pos_part dt.year) (pos_part dt.month) (pos_part dt.day)

-- All that the text of a date-time says of it; `sep` stands between its halves.
pub record IsText (dt : LocalDateTime) (sep : ℕ) (text : Bytes) : Type 0 where
  pub day : ValidDay dt
  pub clock : Valid (clock_part dt)
  pub is_canon : dt ≡ canon dt
  pub text_is : text ≡ day_text dt ++ sep ∷ text_of (clock_part dt)

marshaled_text :
    (dt : LocalDateTime) (text : Bytes)
    → ValidDay dt
    → Valid (clock_part dt)
    → dt ≡ canon dt
    → marshal_date_time dt ≡ ok text
    → text ≡ day_text dt ++ b'T' ∷ text_of (clock_part dt)
marshaled_text dt text day clock same e =
    cc (e, marshal_date_time-join _ _ _ _ _ _ _ _ dt.has_second day clock)

marshal_date_time-IsText :
    (dt : LocalDateTime) (text : Bytes) → marshal_date_time dt ≡ ok text → IsText dt b'T' text
unfolding marshal_date_time
marshal_date_time-IsText dt text e =
    let (u, dated, more) = >>=-eq-ok (validate_date dt.year dt.month dt.day) _ e in
    let (v, clocked, printed) =
      >>=-eq-ok (validate_local_clock dt.hour dt.minute dt.second dt.nanosecond dt.nano_digits) _
        more in
    let (ey, em, ed, day) = validate_date-inv _ _ _ dated in
    let (eh, emi, es, en, ep) = validate_local_clock-pos _ _ _ _ _ clocked in
    let clock =
      validate_local_clock-inv dt.hour dt.minute dt.second dt.nanosecond dt.nano_digits clocked in
    let same : dt ≡ canon dt = ground arith in
    record {
      day = day;
      clock = clock;
      is_canon = same;
      text_is = marshaled_text dt text day clock same e;
    }

abbrev pub Reads : LocalDateTime → Bytes → Type 0
Reads dt text =
    IsText dt (at text 10) text
    × (is_date_time_separator (at text 10) ≡ true)
    × Exact (clock_part dt)

join-IsText :
    (y mo d sep : ℕ) (clock : LocalTime) (n : ℕ) (rest : Bytes)
    → IsDate y mo d
    → ReadsTime rest clock n
    → n ≡ length rest
    → IsText (join (date_of y mo d) clock) sep (date_text y mo d ++ sep ∷ rest)
join-IsText y mo d sep clock n rest day r long = record {
  day = day;
  clock = r.valid;
  is_canon = ap (join (date_of y mo d)) r.time_is;
  text_is = ap (λ (t : Bytes). date_text y mo d ++ sep ∷ t) (whole_text rest clock n r long);
}

-- What the time was read from, and where it ended.
record ReadsHalves (y mo d sep : ℕ) (rest : Bytes) (clock : LocalTime) (n : ℕ) (dt : LocalDateTime)
    : Type 0 where
  good : is_date_time_separator sep ≡ true
  joined : join (date_of y mo d) clock ≡ dt
  long : n ≡ length rest

behind_date :
    (y mo d : ℕ) (tail : Bytes) (dt : LocalDateTime)
    → IsDate y mo d
    → parse_local_date_time (date_text y mo d ++ tail) ≡ ok dt
    → Reads dt (date_text y mo d ++ tail)
unfolding parse_local_date_time
behind_date y mo d [] dt day e = ground (arith, parse_date_prefix-date_text y mo d [] day)
behind_date y mo d (sep ∷ rest) dt day e = elim (Result-cases (parse_time_prefix rest)) [
  | inl ((clock, n), q) ↦
      let r = parse_time_prefix-ReadsTime rest clock n q in
      let halves : ReadsHalves y mo d sep rest clock n dt =
        ground (arith, parse_date_prefix-date_text y mo d (sep ∷ rest) day) in
      subst (λ u. Reads u (date_text y mo d ++ sep ∷ rest)) halves.joined
        (join-IsText y mo d sep clock n rest day r halves.long, halves.good, r.exact)
  | inr (x, q) ↦ ground (arith, parse_date_prefix-date_text y mo d (sep ∷ rest) day)
]

pub parse_local_date_time-Reads :
    (dt : LocalDateTime) (text : Bytes) → parse_local_date_time text ≡ ok dt → Reads dt text
unfolding parse_local_date_time
parse_local_date_time-Reads dt text e =
    let ((date, start), dated, more) = >>=-eq-ok (parse_date_prefix text) _ e in
    let day = parse_date_prefix-ReadsDate text date start dated in
    subst (Reads dt) (sym day.text_is) (
      behind_date _ _ _ (drop 10 text) dt day.valid
        (subst (λ u. parse_local_date_time u ≡ ok dt) day.text_is e))

-- `ParseLocalDateTime` reads back every date-time that `MarshalText` prints, if its time is exact.
pub parse_local_date_time-marshal_date_time :
    (dt : LocalDateTime) (text : Bytes)
    → Exact (clock_part dt)
    → marshal_date_time dt ≡ ok text
    → parse_local_date_time text ≡ ok dt
unfolding is_date_time_separator
parse_local_date_time-marshal_date_time dt text x e =
    let t = marshal_date_time-IsText dt text e in
    rw t.text_is (
      parse_local_date_time-join _ _ _ _ _ _ _ _ dt.has_second t.day t.clock b'T' refl x
      ∙ ap ok (sym t.is_canon))

-- `MarshalText` prints every date-time that `ParseLocalDateTime` reads as it was read, but for the
-- byte between the date and the time, which it writes as `T`; the date is one of the Gregorian
-- calendar, the time is one of a day, and it is exact.
pub marshal_date_time-parse_local_date_time :
    (text : Bytes) (dt : LocalDateTime)
    → parse_local_date_time text ≡ ok dt
    → (marshal_date_time dt ≡ ok (set text 10 b'T'))
      × (is_date_time_separator (at text 10) ≡ true)
      × ValidDay dt
      × Valid (clock_part dt)
      × Exact (clock_part dt)
marshal_date_time-parse_local_date_time text dt e =
    let (t, sep, exact) = parse_local_date_time-Reads dt text e in
    let printed : set text 10 b'T' ≡ day_text dt ++ b'T' ∷ text_of (clock_part dt) =
      ap (λ (u : Bytes). set u 10 b'T') t.text_is in
    (
      ap marshal_date_time t.is_canon
          ∙ marshal_date_time-join _ _ _ _ _ _ _ _ dt.has_second t.day t.clock
          ∙ ap ok (sym printed),
      sep,
      t.day,
      t.clock,
      exact,
    )
