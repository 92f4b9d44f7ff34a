-- ===== src/DateTime/Value/Shapes.antt =====
-- The shape of every text that a reader takes is that reader's.
use mathlib.Core.Path.{subst}
use go_toml.Prelude.{
  ℕ, suc, >>=-eq-ok, drop-append, drop_past, Option, if◌then◌else◌, ◌≤◌, zero, ◌+◌, ◌/◌, ◌%◌, ◌≡◌,
  refl, sym, ap, ◌∙◌, pos_part, Bool, true, false, ◌||◌, [], ◌∷◌, ◌++◌, arith, Bytes, drop, take,
  inl, inr, Bool-cases, ltb, Result-cases, ok, append-nil,
}
use go_toml.Prelude.Decimal.{padded}
use go_toml.DateTime.{LocalDate, LocalTime, LocalDateTime}
use go_toml.DateTime.Calendar.Valid.{IsDate, IsClock}
use go_toml.DateTime.Fields.{pair}
use go_toml.DateTime.Dates.{
  date_text, parse_date_prefix-date_text, parse_date_prefix-ReadsDate, parse_local_date-ReadsDate,
}
use go_toml.DateTime.Fraction.{AllDigits, fraction_text, padded-AllDigits}
use go_toml.DateTime.Times.Sound.{ReadsTime, parse_time_prefix-ReadsTime}
use go_toml.DateTime.Times.{text_of, time_text, seconds_text}
use go_toml.DateTime.RoundTrip.{Valid, marshal_time-parse_local_time, marshal_time-Prints}
use go_toml.DateTime.Joined.{clock_part, parse_local_date_time-Reads}
use go_toml.DateTime.Parse.{
  parse_date_prefix, parse_time_prefix, at, is_digit, is_date_time_separator, parse_local_date,
  parse_local_time, parse_local_date_time,
}
use go_toml.DateTime.Zone.{ZoneCache, Others, Location, parse_zone}
use go_toml.DateTime.Value.{
  offset, local_date_time, local_date, local_time, has_date_shape, has_time_shape, has_offset_byte,
  has_date_time_offset_suffix, date_shape, date_time_shape, Time, parse_offset_date_time,
}

is_digit-shift : (n : ℕ) → n ≤ 9 → is_digit (b'0' + n) ≡ true
is_digit-shift n h = ground arith

shape_of_digits :
    (a b c d e f g h : ℕ) (rest : Bytes)
    → is_digit a ≡ true
    → is_digit b ≡ true
    → is_digit c ≡ true
    → is_digit d ≡ true
    → is_digit e ≡ true
    → is_digit f ≡ true
    → is_digit g ≡ true
    → is_digit h ≡ true
    → has_date_shape (a ∷ b ∷ c ∷ d ∷ b'-' ∷ e ∷ f ∷ b'-' ∷ g ∷ h ∷ rest) ≡ true
unfolding has_date_shape
shape_of_digits a b c d e f g h rest ha hb hc hd he hf hg hh =
    rw (ha, hb, hc, hd, he, hf, hg, hh) (ground arith)

has_date_shape-date_text :
    (y m d : ℕ) (rest : Bytes) → IsDate y m d → has_date_shape (date_text y m d ++ rest) ≡ true
has_date_shape-date_text y m d rest v =
    shape_of_digits _ _ _ _ _ _ _ _ rest (is_digit-shift (y / 100 / 10) (omega arith))
      (is_digit-shift (y / 100 % 10) (omega arith)) (is_digit-shift (y % 100 / 10) (omega arith))
      (is_digit-shift (y % 100 % 10) (omega arith)) (is_digit-shift (m / 10) (omega arith))
      (is_digit-shift (m % 10) (omega arith)) (is_digit-shift (d / 10) (omega arith))
      (is_digit-shift (d % 10) (omega arith))

date_time_shape-date_text :
    (y m d : ℕ) → IsDate y m d → date_time_shape (date_text y m d) ≡ local_date
unfolding date_time_shape date_shape
date_time_shape-date_text y m d v = ground (arith, has_date_shape-date_text y m d [] v)

date_time_shape-joined :
    (y m d sep : ℕ) (tail : Bytes)
    → IsDate y m d
    → is_date_time_separator sep ≡ true
    → date_time_shape (date_text y m d ++ sep ∷ tail)
      ≡ (if has_date_time_offset_suffix tail then offset else local_date_time)
unfolding date_time_shape date_shape
date_time_shape-joined y m d sep tail v good =
    ground (arith, has_date_shape-date_text y m d (sep ∷ tail) v)

date_time_shape-time_text :
    (h m s n p : ℕ) (has_second : Bool) (rest : Bytes)
    → IsClock h m s n p
    → date_time_shape (time_text h m s n p has_second ++ rest) ≡ local_time
unfolding date_time_shape has_date_shape has_time_shape
date_time_shape-time_text h m s n p has_second rest c = ground arith

has_offset_byte-append :
    (xs ys : Bytes) → has_offset_byte (xs ++ ys) ≡ (has_offset_byte xs || has_offset_byte ys)
unfolding has_offset_byte
has_offset_byte-append [] ys = refl
has_offset_byte-append (x ∷ xs) ys = ground (arith, has_offset_byte-append xs ys)

has_offset_byte-take : (p : ℕ) (xs : Bytes) → AllDigits xs → has_offset_byte (take p xs) ≡ false
unfolding has_offset_byte
has_offset_byte-take zero xs h = refl
has_offset_byte-take (suc p) [] h = refl
has_offset_byte-take (suc p) (x ∷ xs) (d, h) = ground (arith, has_offset_byte-take p xs h)

has_offset_byte-fraction_text : (n p : ℕ) → has_offset_byte (fraction_text n p) ≡ false
unfolding has_offset_byte
has_offset_byte-fraction_text n p = elim (Bool-cases (ltb 0 p)) [
  | inl some_digits ↦ rw some_digits (has_offset_byte-take p (padded 9 n) (padded-AllDigits 9 n))
  | inr no_digits ↦ rw no_digits
]

has_offset_byte-pair : (s : ℕ) → s ≤ 59 → has_offset_byte (pair s) ≡ false
has_offset_byte-pair s h =
    has_offset_byte-take 2 (pair s)
      (is_digit-shift (s / 10) (omega arith), (is_digit-shift (s % 10) (omega arith), tt))

has_offset_byte-seconds_text :
    (has_second : Bool) (s n p : ℕ)
    → s ≤ 59
    → has_offset_byte (seconds_text has_second s n p) ≡ false
unfolding has_offset_byte
has_offset_byte-seconds_text false s n p h = refl
has_offset_byte-seconds_text true s n p h =
    has_offset_byte-append (pair s) (fraction_text n p)
    ∙ ap (λ b. b || has_offset_byte (fraction_text n p)) (has_offset_byte-pair s h)
    ∙ has_offset_byte-fraction_text n p

parse_zone-has_offset_byte :
    (others : Others) (cache : ZoneCache) (raw : Bytes) (r : Option Location × ZoneCache)
    → parse_zone others cache raw ≡ ok r
    → has_offset_byte raw ≡ true
unfolding parse_zone has_offset_byte
parse_zone-has_offset_byte others cache (a ∷ []) r e = ground arith
parse_zone-has_offset_byte others cache (a ∷ b ∷ c ∷ d ∷ f ∷ g ∷ []) r e = ground arith
parse_zone-has_offset_byte others cache _ r e = ground arith

-- The text that an offset date-time was read from.
record ReadsOffset (raw : Bytes) : Type 0 where
  y : ℕ
  m : ℕ
  d : ℕ
  sep : ℕ
  tail : Bytes
  day : IsDate y m d
  good : is_date_time_separator sep ≡ true
  text_is : raw ≡ date_text y m d ++ sep ∷ tail
  suffix : has_date_time_offset_suffix tail ≡ true

offset_suffix :
    (tail : Bytes) (clock : LocalTime) (n : ℕ)
    → ReadsTime tail clock n
    → has_offset_byte (drop n tail) ≡ true
    → has_date_time_offset_suffix tail ≡ true
unfolding has_date_time_offset_suffix
offset_suffix tail clock n r e =
    let front =
      seconds_text clock.has_second (pos_part clock.second) (pos_part clock.nanosecond)
        (pos_part clock.nano_digits) in
    let zone : has_offset_byte r.behind ≡ true =
      ap has_offset_byte
        (sym (drop-append (text_of clock) r.behind n (sym r.next_is)) ∙ ap (drop n) (sym r.text_is))
      ∙ e in
    ap (λ (t : Bytes). has_offset_byte (drop 5 t)) r.text_is
    ∙ has_offset_byte-append front r.behind
    ∙ ap (λ b. b || has_offset_byte r.behind)
        (has_offset_byte-seconds_text clock.has_second _ _ _ r.valid.second_le)
    ∙ zone

behind_date :
    (others : Others) (cache cache' : ZoneCache) (t : Time) (y m d : ℕ) (tail : Bytes)
    → IsDate y m d
    → parse_offset_date_time others cache (date_text y m d ++ tail) ≡ ok (t, cache')
    → ReadsOffset (date_text y m d ++ tail)
unfolding parse_offset_date_time
behind_date others cache cache' t y m d [] day e =
    ground (arith, parse_date_prefix-date_text y m d [] day)
behind_date others cache cache' t y m d (sep ∷ rest) day e =
    elim (Result-cases (parse_time_prefix rest)) [
      | inl ((clock, n), q) ↦
          let past : drop (11 + n) (date_text y m d ++ sep ∷ rest) ≡ drop n rest =
            drop_past (date_text y m d ++ sep ∷ []) rest 11 n refl in
          elim (Result-cases (parse_zone others cache (drop n rest))) [
            | inl ((loc, c), z) ↦ record {
              y = y;
              m = m;
              d = d;
              sep = sep;
              tail = rest;
              day = day;
              good = ground (arith, parse_date_prefix-date_text y m d (sep ∷ rest) day);
              text_is = refl;
              suffix =
                  offset_suffix rest clock n (parse_time_prefix-ReadsTime rest clock n q)
                    (parse_zone-has_offset_byte others cache (drop n rest) (loc, c) z);
            }
            | inr (x, z) ↦ ground (arith, past, parse_date_prefix-date_text y m d (sep ∷ rest) day)
          ]
      | inr (x, q) ↦ ground (arith, parse_date_prefix-date_text y m d (sep ∷ rest) day)
    ]

behind_any :
    (others : Others) (cache cache' : ZoneCache) (t : Time) (raw : Bytes)
    → parse_offset_date_time others cache raw ≡ ok (t, cache')
    → ReadsOffset raw
unfolding parse_offset_date_time
behind_any others cache cache' t raw e =
    let ((date, start), dated, more) = >>=-eq-ok (parse_date_prefix raw) _ e in
    let day = parse_date_prefix-ReadsDate raw date start dated in
    subst ReadsOffset (sym day.text_is) (
      behind_date others cache cache' t _ _ _ (drop 10 raw) day.valid
        (subst (λ u. parse_offset_date_time others cache u ≡ ok (t, cache')) day.text_is e))

no_suffix : (t : LocalTime) → Valid t → has_date_time_offset_suffix (text_of t) ≡ false
unfolding has_date_time_offset_suffix
no_suffix t v = has_offset_byte-seconds_text t.has_second _ _ _ v.second_le

module _ (raw : Bytes) where
  pub shape_offset :
      (others : Others) (cache cache' : ZoneCache) (t : Time)
      → parse_offset_date_time others cache raw ≡ ok (t, cache')
      → date_time_shape raw ≡ offset
  shape_offset others cache cache' t e =
      let r = behind_any others cache cache' t raw e in
      ap date_time_shape r.text_is
      ∙ date_time_shape-joined r.y r.m r.d r.sep r.tail r.day r.good
      ∙ rw r.suffix

  pub shape_date_time :
      (dt : LocalDateTime)
      → parse_local_date_time raw ≡ ok dt
      → date_time_shape raw ≡ local_date_time
  shape_date_time dt e =
      let (r, good, exact) = parse_local_date_time-Reads dt raw e in
      ap date_time_shape r.text_is
      ∙ date_time_shape-joined _ _ _ (at raw 10) (text_of (clock_part dt)) r.day good
      ∙ rw (no_suffix (clock_part dt) r.clock)

  pub shape_date : (d : LocalDate) → parse_local_date raw ≡ ok d → date_time_shape raw ≡ local_date
  shape_date d e =
      let (r, ended) = parse_local_date-ReadsDate raw d e in
      ap date_time_shape r.text_is ∙ rw ended (date_time_shape-date_text _ _ _ r.valid)

  pub shape_time : (t : LocalTime) → parse_local_time raw ≡ ok t → date_time_shape raw ≡ local_time
  shape_time t e =
      let (printed, valid, exact) = marshal_time-parse_local_time raw t e in
      let p = marshal_time-Prints t raw printed in
      let text : raw ≡ text_of t ++ [] = p.text_is ∙ sym (append-nil _) in
      ap date_time_shape text ∙ date_time_shape-time_text _ _ _ _ _ t.has_second [] valid
