-- ===== src/DateTime/RoundTrip.antt =====
-- `LocalTime` and `LocalDateTime`: `MarshalText` and the readers against one another.
use mathlib.Core.Path.{subst}
use go_toml.Prelude.{
  ℕ, false, ◌≡◌, refl, sym, ap, ◌∙◌, ℤ, pos_part, Bool, [], ◌∷◌, ◌++◌, append-nil, arith, Bytes,
  length, ok, >>=-eq-ok, length-append,
}
use go_toml.DateTime.{LocalTime}
use go_toml.DateTime.Calendar.{validate_local_clock}
use go_toml.DateTime.Calendar.Valid.{
  IsClock, IsClock-validate_local_clock, validate_local_clock-IsClock, validate_local_clock-pos,
}
use go_toml.DateTime.Fields.{pair}
use go_toml.DateTime.Times.{
  time_of, time_text, parts_of, text_of, IsExact, append_time-time_text,
  parse_time_prefix-time_text,
}
use go_toml.DateTime.Times.Sound.{ReadsTime, parse_time_prefix-ReadsTime}
use go_toml.DateTime.Print.{marshal_time}
use go_toml.DateTime.Parse.{parse_time_prefix, parse_local_time}

-- Nothing is lost where the time is printed at its precision: no seconds are set where none are
-- printed, and no nanoseconds lie behind the printed digits.
abbrev pub Exact : LocalTime → Type 0
Exact t = IsExact (pos_part t.second) (pos_part t.nanosecond) (pos_part t.nano_digits) t.has_second

abbrev pub Valid : LocalTime → Type 0
Valid t =
    IsClock (pos_part t.hour) (pos_part t.minute) (pos_part t.second) (pos_part t.nanosecond)
      (pos_part t.nano_digits)

pub validate_local_clock-inv :
    (h m s n p : ℤ)
    → validate_local_clock h m s n p ≡ ok tt
    → IsClock (pos_part h) (pos_part m) (pos_part s) (pos_part n) (pos_part p)
validate_local_clock-inv h m s n p e =
    let (eh, em, es, en, ep) = validate_local_clock-pos h m s n p e in
    validate_local_clock-IsClock _ _ _ _ _ (rw (← eh, ← em, ← es, ← en, ← ep) e)

pub record Prints (t : LocalTime) (text : Bytes) : Type 0 where
  pub valid : Valid t
  pub time_is : t ≡ parts_of t
  pub text_is : text ≡ text_of t

pub marshal_time-Prints : (t : LocalTime) (text : Bytes) → marshal_time t ≡ ok text → Prints t text
unfolding marshal_time
marshal_time-Prints t text e =
    let (u, checked, printed) =
      >>=-eq-ok (validate_local_clock t.hour t.minute t.second t.nanosecond t.nano_digits) _ e in
    let (eh, em, es, en, ep) = validate_local_clock-pos _ _ _ _ _ checked in
    let valid =
      validate_local_clock-inv t.hour t.minute t.second t.nanosecond t.nano_digits checked in
    record {
      valid = valid;
      time_is = ground arith;
      text_is = ground (arith, append_time-time_text [] _ _ _ _ _ t.has_second valid);
    }

marshal_time-time_of :
    (h m s n p : ℕ) (has_second : Bool)
    → IsClock h m s n p
    → marshal_time (time_of h m s n p has_second) ≡ ok (time_text h m s n p has_second)
unfolding marshal_time
marshal_time-time_of h m s n p has_second c =
    rw (IsClock-validate_local_clock h m s n p c)
      (ap ok (append_time-time_text [] h m s n p has_second c))

-- A list that adds nothing to the length is empty.
length-eq_zero : (xs : Bytes) → length xs ≡ 0 → xs ≡ []
length-eq_zero [] h = refl
length-eq_zero (x ∷ xs) h = absurd (omega arith)

-- A time that was read up to the end of the text.
pub whole_text :
    (text : Bytes) (t : LocalTime) (n : ℕ) → ReadsTime text t n → n ≡ length text → text ≡ text_of t
whole_text text t n r e =
    let long = ap length r.text_is ∙ length-append (text_of t) r.behind in
    let ended : r.behind ≡ [] = length-eq_zero r.behind (omega (arith, long, r.next_is)) in
    r.text_is ∙ rw ended (append-nil (text_of t))

whole :
    (text : Bytes) (t : LocalTime) (n : ℕ)
    → ReadsTime text t n
    → n ≡ length text
    → (marshal_time t ≡ ok text) × Valid t × Exact t
whole text t n r e =
    let shown = whole_text text t n r e in
    (
      rw shown (rw r.time_is (marshal_time-time_of _ _ _ _ _ t.has_second r.valid)),
      r.valid,
      r.exact,
    )

-- `ParseLocalTime` reads back every time that `MarshalText` prints, if the time is exact.
pub parse_local_time-marshal_time :
    (t : LocalTime) (text : Bytes)
    → Exact t
    → marshal_time t ≡ ok text
    → parse_local_time text ≡ ok t
unfolding parse_local_time
parse_local_time-marshal_time t text x e =
    let p = marshal_time-Prints t text e in
    let read = parse_time_prefix-time_text _ _ _ _ _ t.has_second [] p.valid x refl in
    rw (p.text_is ∙ sym (append-nil _), read, append-nil) (rw (← p.time_is) (ground arith))

-- `MarshalText` prints every time that `ParseLocalTime` reads, byte for byte as it was read; the
-- time is one of a day, and it is exact.
pub marshal_time-parse_local_time :
    (text : Bytes) (t : LocalTime)
    → parse_local_time text ≡ ok t
    → (marshal_time t ≡ ok text) × Valid t × Exact t
unfolding parse_local_time
marshal_time-parse_local_time text t e =
    let ((clock, n), read, rest) = >>=-eq-ok (parse_time_prefix text) _ e in
    let r = parse_time_prefix-ReadsTime text clock n read in
    let same : (clock ≡ t) × (n ≡ length text) = ground arith in
    whole text t n (subst (λ c. ReadsTime text c n) same.0 r) same.1

time_of-Exact : (h m : ℕ) → Exact (time_of h m 0 0 0 false)
time_of-Exact h m = record { shown = omega arith; no_second = λ plain. (refl, refl, refl) }

-- A valid time whose seconds were not read from a text, as one that a caller builds from the
-- exported fields, is printed without an error as its hour and its minute alone; that text is read
-- as the time at the start of the minute, whatever seconds and nanoseconds were set.
pub marshal_time-drops_seconds :
    (h m s n p : ℕ)
    → IsClock h m s n p
    → (marshal_time (time_of h m s n p false) ≡ ok (pair h ++ b':' ∷ pair m))
      × (parse_local_time (pair h ++ b':' ∷ pair m) ≡ ok (time_of h m 0 0 0 false))
marshal_time-drops_seconds h m s n p c =
    let start : IsClock h m 0 0 0 = record {
      hour_le = c.hour_le;
      minute_le = c.minute_le;
      second_le = omega arith;
      nanos_lt = omega arith;
      digits_le = omega arith;
      whole = λ none_printed. refl;
    } in
    (
      marshal_time-time_of h m s n p false c,
      parse_local_time-marshal_time (time_of h m 0 0 0 false) (pair h ++ b':' ∷ pair m)
          (time_of-Exact h m) (marshal_time-time_of h m 0 0 0 false start),
    )
