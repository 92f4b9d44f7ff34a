-- ===== src/DateTime/Print.antt =====
-- datetime.go: the text of dates and times.
use go_toml.Prelude.{
  ℕ, ◌+◌, ◌*◌, ◌/◌, ◌%◌, ℤ, Bool, ◌&&◌, ◌||◌, [], ◌∷◌, ◌++◌, Bytes, codes, above, add_pos,
  is_negative, pos_part, slice, ◌==◌, if◌then◌else◌, Result, ok, ◌>>◌,
}
use go_toml.Prelude.Decimal.{itoa}
use go_toml.DateTime.{LocalDate, LocalTime, LocalDateTime, DateTimeError}
use go_toml.DateTime.Calendar.{validate_date, validate_local_clock}

abbrev pub two_digits : Bytes
two_digits =
    codes "0001020304050607080910111213141516171819"
    ++ codes "2021222324252627282930313233343536373839"
    ++ codes "4041424344454647484950515253545556575859"
    ++ codes "6061626364656667686970717273747576777879"
    ++ codes "8081828384858687888990919293949596979899"

unfoldable pub append_padded_int : Bytes → ℤ → ℕ → Bytes
append_padded_int buf n width =
    if width == 4
    then (if is_negative n || above n 9999
        then buf ++ itoa n
        else let hi = pos_part n / 100 in
          let lo = pos_part n % 100 in
          (buf ++ slice two_digits (2 * hi) (2 * hi + 2)) ++ slice two_digits (2 * lo) (2 * lo + 2))
    else if is_negative n || above n 99
    then buf ++ itoa n
    else buf ++ slice two_digits (2 * pos_part n) (2 * pos_part n + 2)

unfoldable pub append_date : Bytes → ℤ → ℤ → ℤ → Bytes
append_date buf year month day =
    let buf1 = append_padded_int buf year 4 in
    let buf2 = append_padded_int (buf1 ++ b'-' ∷ []) month 2 in
    append_padded_int (buf2 ++ b'-' ∷ []) day 2

unfoldable pub append_time : Bytes → ℤ → ℤ → ℤ → ℤ → ℤ → Bool → Bytes
append_time buf hour minute second nanos nano_digits has_second =
    let buf1 = append_padded_int buf hour 2 in
    let buf2 = append_padded_int (buf1 ++ b':' ∷ []) minute 2 in
    let buf3 = if has_second then append_padded_int (buf2 ++ b':' ∷ []) second 2 else buf2 in
    if has_second && above nano_digits 0
    then (buf3 ++ b'.' ∷ [])
      ++ slice (itoa (add_pos nanos 1_000_000_000)) 1 (1 + pos_part nano_digits)
    else buf3

unfoldable pub marshal_date : LocalDate → Result DateTimeError Bytes
marshal_date d = do validate_date d.year d.month d.day; ok (append_date [] d.year d.month d.day)

unfoldable pub marshal_time : LocalTime → Result DateTimeError Bytes
marshal_time t = do
  validate_local_clock t.hour t.minute t.second t.nanosecond t.nano_digits
  ok (append_time [] t.hour t.minute t.second t.nanosecond t.nano_digits t.has_second)

unfoldable pub marshal_date_time : LocalDateTime → Result DateTimeError Bytes
marshal_date_time dt = do
  validate_date dt.year dt.month dt.day
  validate_local_clock dt.hour dt.minute dt.second dt.nanosecond dt.nano_digits
  let buf1 = append_date [] dt.year dt.month dt.day
  let buf2 = buf1 ++ b'T' ∷ []
  ok (append_time buf2 dt.hour dt.minute dt.second dt.nanosecond dt.nano_digits dt.has_second)
