-- ===== src/DateTime/Dates.antt =====
-- `parseDatePrefix`, `parseLocalDate` and `LocalDate.MarshalText` against one another.
use go_toml.Prelude.{
  ℕ, ℤ, drop_all, ◌≡◌, sym, ap, ◌∙◌, pos, pos_part, [], ◌∷◌, ◌++◌, append_assoc, arith, Bytes, ok,
  length, drop, >>=-eq-ok,
}
use go_toml.DateTime.{LocalDate}
use go_toml.DateTime.Calendar.{validate_date}
use go_toml.DateTime.Calendar.Valid.{
  IsDate, validate_date-IsDate, IsDate-validate_date, validate_date-pos,
}
use go_toml.DateTime.Fields.{
  pair, quad, append_padded_int-pair, append_padded_int-quad, parse_fixed_digits-pair,
  parse_fixed_digits-quad, pair-parse_fixed_digits, quad-parse_fixed_digits,
}
use go_toml.DateTime.Print.{append_date, marshal_date}
use go_toml.DateTime.Parse.{parse_date_prefix, parse_local_date}

-- YYYY-MM-DD
abbrev pub date_text : ℕ → ℕ → ℕ → Bytes
date_text y m d = quad y ++ b'-' ∷ (pair m ++ b'-' ∷ pair d)

abbrev pub date_of : ℕ → ℕ → ℕ → LocalDate
date_of y m d = record { year = pos y; month = pos m; day = pos d }

pub append_date-date_text :
    (buf : Bytes) (y m d : ℕ)
    → IsDate y m d
    → append_date buf (pos y) (pos m) (pos d) ≡ buf ++ date_text y m d
unfolding append_date
append_date-date_text buf y m d v = rw (append_padded_int-quad buf y v.year_le) (
    rw (append_padded_int-pair ((buf ++ quad y) ++ b'-' ∷ []) m (omega arith)) (
      rw
        (append_padded_int-pair ((((buf ++ quad y) ++ b'-' ∷ []) ++ pair m) ++ b'-' ∷ []) d
          (omega arith))
        (simp append_assoc)))

pub parse_date_prefix-date_text :
    (y m d : ℕ) (rest : Bytes)
    → IsDate y m d
    → parse_date_prefix (date_text y m d ++ rest) ≡ ok (date_of y m d, 10)
unfolding parse_date_prefix
parse_date_prefix-date_text y m d rest v = ground (
  arith,
  parse_fixed_digits-quad y,
  parse_fixed_digits-pair m,
  parse_fixed_digits-pair d,
  IsDate-validate_date y m d v,
)

-- What was read is the text of a date of the calendar, in front of what follows it.
pub record ReadsDate (raw : Bytes) (date : LocalDate) (n : ℕ) : Type 0 where
  pub valid : IsDate (pos_part date.year) (pos_part date.month) (pos_part date.day)
  pub date_is : date ≡ date_of (pos_part date.year) (pos_part date.month) (pos_part date.day)
  pub next_is : n ≡ 10
  pub text_is :
      raw ≡ date_text (pos_part date.year) (pos_part date.month) (pos_part date.day) ++ drop 10 raw

pub parse_date_prefix-ReadsDate :
    (raw : Bytes) (date : LocalDate) (n : ℕ)
    → parse_date_prefix raw ≡ ok (date, n)
    → ReadsDate raw date n
unfolding parse_date_prefix
parse_date_prefix-ReadsDate (a ∷ b ∷ c ∷ e ∷ f ∷ g ∷ h ∷ i ∷ j ∷ k ∷ rest) date n p =
    let y = pos_part date.year in
    let m = pos_part date.month in
    let d = pos_part date.day in
    ground (
      arith,
      quad-parse_fixed_digits a b c e y,
      pair-parse_fixed_digits g h m,
      pair-parse_fixed_digits j k d,
      validate_date-IsDate y m d,
    )
parse_date_prefix-ReadsDate _ date n p = ground arith

abbrev parts_of : LocalDate → LocalDate
parts_of d = date_of (pos_part d.year) (pos_part d.month) (pos_part d.day)

abbrev text_of : LocalDate → Bytes
text_of d = date_text (pos_part d.year) (pos_part d.month) (pos_part d.day)

-- The checks of `MarshalText` pass on the dates of the calendar alone.
pub validate_date-inv :
    (y m d : ℤ)
    → validate_date y m d ≡ ok tt
    → (y ≡ pos (pos_part y))
      × (m ≡ pos (pos_part m))
      × (d ≡ pos (pos_part d))
      × IsDate (pos_part y) (pos_part m) (pos_part d)
validate_date-inv y m d h =
    let (ey, em, ed) = validate_date-pos y m d h in
    (ey, em, ed, validate_date-IsDate _ _ _ (rw (← ey, ← em, ← ed) h))

marshal_date-date_of :
    (y m d : ℕ) → IsDate y m d → marshal_date (date_of y m d) ≡ ok (date_text y m d)
unfolding marshal_date
marshal_date-date_of y m d v =
    rw (IsDate-validate_date y m d v) (ap ok (append_date-date_text [] y m d v))

parse_local_date-date_text :
    (y m d : ℕ) → IsDate y m d → parse_local_date (date_text y m d) ≡ ok (date_of y m d)
unfolding parse_local_date
parse_local_date-date_text y m d v = rw (parse_date_prefix-date_text y m d [] v)

record Prints (d : LocalDate) (text : Bytes) : Type 0 where
  valid : IsDate (pos_part d.year) (pos_part d.month) (pos_part d.day)
  date_is : d ≡ parts_of d
  text_is : text ≡ text_of d

marshal_date-Prints : (d : LocalDate) (text : Bytes) → marshal_date d ≡ ok text → Prints d text
unfolding marshal_date
marshal_date-Prints d text h =
    let (u, checked, printed) = >>=-eq-ok (validate_date d.year d.month d.day) _ h in
    let (ey, em, ed, v) = validate_date-inv d.year d.month d.day checked in
    record {
      valid = v;
      date_is = ground arith;
      text_is = ground (arith, append_date-date_text [] _ _ _ v);
    }

-- `ParseLocalDate` reads back every date that `MarshalText` prints.
pub parse_local_date-marshal_date :
    (d : LocalDate) (text : Bytes) → marshal_date d ≡ ok text → parse_local_date text ≡ ok d
parse_local_date-marshal_date d text h =
    let p = marshal_date-Prints d text h in
    rw p.text_is (parse_local_date-date_text _ _ _ p.valid ∙ ap ok (sym p.date_is))

pub parse_local_date-ReadsDate :
    (text : Bytes) (d : LocalDate)
    → parse_local_date text ≡ ok d
    → ReadsDate text d 10 × (drop 10 text ≡ [])
unfolding parse_local_date
parse_local_date-ReadsDate text d h =
    let ((date, n), read, rest) = >>=-eq-ok (parse_date_prefix text) _ h in
    let r = parse_date_prefix-ReadsDate text date n read in
    let same : (date ≡ d) × (10 ≡ length text) = ground (arith, r.next_is) in
    (rw (← same.0, ← r.next_is) r, drop_all 10 text same.1)

-- `MarshalText` prints every date that `ParseLocalDate` reads, byte for byte as it was read, and
-- the date is one of the Gregorian calendar.
pub marshal_date-parse_local_date :
    (text : Bytes) (d : LocalDate)
    → parse_local_date text ≡ ok d
    → (marshal_date d ≡ ok text) × IsDate (pos_part d.year) (pos_part d.month) (pos_part d.day)
marshal_date-parse_local_date text d h =
    let (r, ended) = parse_local_date-ReadsDate text d h in
    let whole : text_of d ≡ text = sym (r.text_is ∙ rw ended) in
    (rw r.date_is (marshal_date-date_of _ _ _ r.valid) ∙ ap ok whole, r.valid)
