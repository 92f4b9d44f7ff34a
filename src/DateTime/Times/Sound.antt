-- ===== src/DateTime/Times/Sound.antt =====
-- What `parseTimePrefix` reads is the text that `appendTime` prints for it.
use native.Mathlib.Nat.{one-le-pow, mul-div_cancel, mul-mod_left}
use mathlib.Core.Path.{subst}
use go_toml.Prelude.{
  ℕ, ◌+◌, ◌-◌, ◌*◌, ◌/◌, ◌%◌, ◌^◌, ◌≤◌, ◌≡◌, refl, sym, ap, ◌∙◌, pos, pos_part, true, [], ◌∷◌, ◌++◌,
  arith, Bytes, ltb, ◌==◌, length, take, drop, ok, inl, inr, Bool-cases, ==_iff, Option, none, some,
  take-append-drop, >>=-eq-ok, Result-cases, length-take, fail_if, ◌>>=◌, ◌>>◌, lt→ltb,
}
use go_toml.Prelude.Decimal.{padded}
use go_toml.DateTime.{DateTimeError, malformed_second, LocalTime, empty_fraction, fraction_too_long}
use go_toml.DateTime.Calendar.{validate_local_clock}
use go_toml.DateTime.Calendar.Valid.{IsClock, validate_local_clock-IsClock}
use go_toml.DateTime.Fields.{pair, pair-parse_fixed_digits}
use go_toml.DateTime.Fraction.{
  fraction_text, take-padded_nine, digit_run-take, digit_run-le, padded-nanos_from, scale_nanos-pow,
}
use go_toml.DateTime.Parse.{
  digit_run, parse_fraction, parse_behind_seconds, parse_clock_subseconds, or_fail,
  parse_fixed_digits, parse_time_prefix, scale_nanos, nanos_from, Subseconds,
}
use go_toml.DateTime.Times.{seconds_text, time_of, IsExact, parts_of, text_of}

-- The fraction as it was read, in front of `behind`.
record ReadsFraction (rest : Bytes) (second : ℕ) (r : Subseconds) : Type 0 where
  second_is : r.second ≡ second
  shown : r.nanos % 10 ^ (9 - r.nano_digits) ≡ 0
  next_is : r.next ≡ 8 + length (fraction_text r.nanos r.nano_digits)
  behind : Bytes
  text_is : rest ≡ fraction_text r.nanos r.nano_digits ++ behind

-- The first `k` digits of `rest` are printed for the value that was read from them.
fraction_text-digits :
    (rest : Bytes) (k : ℕ)
    → digit_run rest ≡ k
    → 1 ≤ k
    → k ≤ 9
    → fraction_text (scale_nanos (9 - k) (nanos_from 0 (take k rest))) k ≡ b'.' ∷ take k rest
fraction_text-digits rest k e lo hi =
    let f = take k rest in
    let w : ℕ = nanos_from 0 f in
    let long : length f ≡ k = omega (arith, length-take k rest, digit_run-le rest) in
    let digits = rw e at (digit_run-take rest) in
    let back : w * 10 ^ (9 - k) / 10 ^ (9 - k) ≡ w =
      mul-div_cancel w (one-le-pow (9 - k) 10 (omega arith)) in
    let shown : take k (padded 9 (scale_nanos (9 - k) w)) ≡ f =
      rw (take-padded_nine k (scale_nanos (9 - k) w) hi, scale_nanos-pow (9 - k) w, back)
        (ap (λ (j : ℕ). padded j w) (sym long) ∙ padded-nanos_from f digits) in
    rw (shown, lt→ltb 0 k lo)

or_fail-some : (o : Option ℕ) (x : DateTimeError) (v : ℕ) → or_fail o x ≡ ok v → o ≡ some v
or_fail-some (some w) x v h = ground arith
or_fail-some none x v h = cc

-- A fraction of one to nine digits was read.
digits_read :
    (k v second : ℕ) (r : Subseconds)
    → (do
      fail_if (9 + k == 9) empty_fraction
      fail_if (ltb 9 k) fraction_too_long
      ok (record { second = second; nanos = v; nano_digits = k; next = 9 + k }))
      ≡ ok r
    → (1 ≤ k) × (k ≤ 9) × (record { second = second; nanos = v; nano_digits = k; next = 9 + k } ≡ r)
digits_read k v second r h = ground arith

parse_fraction-ReadsFraction :
    (raw rest : Bytes) (second : ℕ) (r : Subseconds)
    → drop 9 raw ≡ rest
    → parse_fraction raw second 9 ≡ ok r
    → ReadsFraction (b'.' ∷ rest) second r
unfolding parse_fraction
parse_fraction-ReadsFraction raw rest second r e h =
    let k = digit_run rest in
    let v : ℕ = scale_nanos (9 - k) (nanos_from 0 (take k rest)) in
    let width : 9 + k - 9 ≡ k = omega arith in
    let h' = rw (e, width) at h in
    let (lo, hi, same) = digits_read k v second r h' in
    let text = fraction_text-digits rest k refl lo hi in
    let long : length (take k rest) ≡ k = omega (arith, length-take k rest, digit_run-le rest) in
    let value = scale_nanos-pow (9 - k) (nanos_from 0 (take k rest)) in
    rw (← same) (record {
      second_is = refl;
      shown = rw (value, mul-mod_left);
      next_is = rw text (omega (arith, long));
      behind = drop k rest;
      text_is = rw text (ap (λ (t : Bytes). b'.' ∷ t) (sym (take-append-drop k rest)));
    })

no_fraction :
    (rest : Bytes) (second : ℕ) (r : Subseconds)
    → record { second = second; nanos = 0; nano_digits = 0; next = 8 } ≡ r
    → ReadsFraction rest second r
no_fraction rest second r same =
    rw (← same)
      (record { second_is = refl; shown = refl; next_is = refl; behind = rest; text_is = refl })

module _ (a b c d e f g h : ℕ) where
  parse_behind_seconds-ReadsFraction :
      (rest : Bytes) (second : ℕ) (r : Subseconds)
      → parse_behind_seconds (a ∷ b ∷ c ∷ d ∷ e ∷ f ∷ g ∷ h ∷ rest) second 8 ≡ ok r
      → ReadsFraction rest second r
  unfolding parse_behind_seconds
  parse_behind_seconds-ReadsFraction [] second r p = no_fraction [] second r (ground arith)
  parse_behind_seconds-ReadsFraction (i ∷ rest) second r p = elim (Bool-cases (i == b'.')) [
    | inl point ↦
        let read : parse_fraction (a ∷ b ∷ c ∷ d ∷ e ∷ f ∷ g ∷ h ∷ i ∷ rest) second 9 ≡ ok r =
          ground arith in
        rw ((==_iff i b'.').0 point) (parse_fraction-ReadsFraction _ rest second r refl read)
    | inr other ↦ no_fraction (i ∷ rest) second r (ground arith)
  ]

-- The seconds as they were read, in front of `behind`.
record ReadsSeconds (rest : Bytes) (r : Subseconds) : Type 0 where
  exact : IsExact r.second r.nanos r.nano_digits (ltb 5 r.next)
  next_is : r.next ≡ 5 + length (seconds_text (ltb 5 r.next) r.second r.nanos r.nano_digits)
  behind : Bytes
  text_is : rest ≡ seconds_text (ltb 5 r.next) r.second r.nanos r.nano_digits ++ behind

no_seconds :
    (rest : Bytes) (r : Subseconds)
    → record { second = 0; nanos = 0; nano_digits = 0; next = 5 } ≡ r
    → ReadsSeconds rest r
no_seconds rest r same = rw (← same) (record {
  exact = record { shown = refl; no_second = λ _. (refl, refl, refl) };
  next_is = refl;
  behind = rest;
  text_is = refl;
})

with_seconds :
    (g h : ℕ) (rest : Bytes) (r : Subseconds) (second : ℕ)
    → g ∷ h ∷ [] ≡ pair second
    → ReadsFraction rest second r
    → ReadsSeconds (b':' ∷ g ∷ h ∷ rest) r
with_seconds g h rest r second digits f =
    let later : ltb 5 r.next ≡ true = lt→ltb 5 r.next (omega (arith, f.next_is)) in
    record {
      exact = record { shown = f.shown; no_second = λ e. cc };
      next_is = rw later (omega (arith, f.next_is));
      behind = f.behind;
      text_is =
          rw (later, f.second_is)
            (ap (λ (t : Bytes). b':' ∷ (t ++ rest)) digits
              ∙ ap (λ (t : Bytes). b':' ∷ (pair second ++ t)) f.text_is);
    }

module _ (a b c d e : ℕ) where
  parse_clock_subseconds-ReadsSeconds :
      (rest : Bytes) (r : Subseconds)
      → parse_clock_subseconds (a ∷ b ∷ c ∷ d ∷ e ∷ rest) 5 ≡ ok r
      → ReadsSeconds rest r
  unfolding parse_clock_subseconds
  parse_clock_subseconds-ReadsSeconds [] r p = no_seconds [] r (ground arith)
  parse_clock_subseconds-ReadsSeconds (f ∷ []) r p = no_seconds (f ∷ []) r (ground arith)
  parse_clock_subseconds-ReadsSeconds (f ∷ g ∷ []) r p = no_seconds (f ∷ g ∷ []) r (ground arith)
  parse_clock_subseconds-ReadsSeconds (f ∷ g ∷ h ∷ rest) r p = elim (Bool-cases (f == b':')) [
    | inl colon ↦
        let all : Bytes = a ∷ b ∷ c ∷ d ∷ e ∷ f ∷ g ∷ h ∷ rest in
        let two = or_fail (parse_fixed_digits (g ∷ h ∷ [])) malformed_second in
        let read : (two >>= λ sec. parse_behind_seconds all sec 8) ≡ ok r = ground arith in
        let (second, found, later) = >>=-eq-ok two _ read in
        let digits = pair-parse_fixed_digits g h second (or_fail-some _ _ _ found) in
        rw ((==_iff f b':').0 colon) (
          with_seconds g h rest r second digits.1
            (parse_behind_seconds-ReadsFraction a b c d e f g h rest second r later))
    | inr other ↦ no_seconds (f ∷ g ∷ h ∷ rest) r (ground arith)
  ]

-- The time as it was read, in front of `behind`.
pub record ReadsTime (raw : Bytes) (t : LocalTime) (n : ℕ) : Type 0 where
  pub valid :
      IsClock
        (pos_part t.hour)
        (pos_part t.minute)
        (pos_part t.second)
        (pos_part t.nanosecond)
        (pos_part t.nano_digits)
  pub exact :
      IsExact (pos_part t.second) (pos_part t.nanosecond) (pos_part t.nano_digits) t.has_second
  pub time_is : t ≡ parts_of t
  pub next_is : n ≡ length (text_of t)
  pub behind : Bytes
  pub text_is : raw ≡ text_of t ++ behind

-- The parts of a time that was read, where its seconds were read as `r`.
record ReadsParts (a b c d e : ℕ) (r : Subseconds) (t : LocalTime) (n : ℕ) : Type 0 where
  hour : parse_fixed_digits (a ∷ b ∷ []) ≡ some (pos_part t.hour)
  colon : c ≡ b':'
  minute : parse_fixed_digits (d ∷ e ∷ []) ≡ some (pos_part t.minute)
  checked :
      validate_local_clock
        (pos (pos_part t.hour))
        (pos (pos_part t.minute))
        (pos r.second)
        (pos r.nanos)
        (pos r.nano_digits)
      ≡ ok tt
  time_is :
      t
      ≡ time_of (pos_part t.hour) (pos_part t.minute) r.second r.nanos r.nano_digits (ltb 5 r.next)
  next_is : n ≡ r.next

module _ (a b c d e h m : ℕ) (rest : Bytes) (r : Subseconds) where
  time_of-ReadsTime :
      a ∷ b ∷ [] ≡ pair h
      → c ≡ b':'
      → d ∷ e ∷ [] ≡ pair m
      → IsClock h m r.second r.nanos r.nano_digits
      → ReadsSeconds rest r
      → ReadsTime
          (a ∷ b ∷ c ∷ d ∷ e ∷ rest)
          (time_of h m r.second r.nanos r.nano_digits (ltb 5 r.next))
          r.next
  time_of-ReadsTime hours colon minutes valid s = record {
    valid = valid;
    exact = s.exact;
    time_is = refl;
    next_is = omega (arith, s.next_is);
    behind = s.behind;
    text_is =
        ap (λ (t : Bytes). t ++ c ∷ d ∷ e ∷ rest) hours
        ∙ ap (λ (x : ℕ). pair h ++ x ∷ d ∷ e ∷ rest) colon
        ∙ ap (λ (t : Bytes). pair h ++ b':' ∷ (t ++ rest)) minutes
        ∙ ap (λ (t : Bytes). pair h ++ b':' ∷ (pair m ++ t)) s.text_is;
  }

ReadsParts-ReadsTime :
    (a b c d e : ℕ) (rest : Bytes) (r : Subseconds) (t : LocalTime) (n : ℕ)
    → ReadsParts a b c d e r t n
    → ReadsSeconds rest r
    → ReadsTime (a ∷ b ∷ c ∷ d ∷ e ∷ rest) t n
ReadsParts-ReadsTime a b c d e rest r t n parts s =
    let hours = pair-parse_fixed_digits a b (pos_part t.hour) parts.hour in
    let minutes = pair-parse_fixed_digits d e (pos_part t.minute) parts.minute in
    let valid = validate_local_clock-IsClock _ _ _ _ _ parts.checked in
    let read =
      time_of-ReadsTime a b c d e (pos_part t.hour) (pos_part t.minute) rest r hours.1 parts.colon
        minutes.1 valid s in
    rw parts.next_is
      (subst (λ u. ReadsTime (a ∷ b ∷ c ∷ d ∷ e ∷ rest) u r.next) (sym parts.time_is) read)

pub parse_time_prefix-ReadsTime :
    (raw : Bytes) (t : LocalTime) (n : ℕ) → parse_time_prefix raw ≡ ok (t, n) → ReadsTime raw t n
unfolding parse_time_prefix
parse_time_prefix-ReadsTime (a ∷ b ∷ c ∷ d ∷ e ∷ rest) t n p =
    elim (Result-cases (parse_clock_subseconds (a ∷ b ∷ c ∷ d ∷ e ∷ rest) 5)) [
      | inl (r, q) ↦
          ReadsParts-ReadsTime a b c d e rest r t n (ground arith)
            (parse_clock_subseconds-ReadsSeconds a b c d e rest r q)
      | inr (x, q) ↦ ground arith
    ]
parse_time_prefix-ReadsTime _ t n p = ground arith
