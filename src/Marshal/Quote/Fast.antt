-- ===== src/Marshal/Quote/Fast.antt =====
-- marshal.go: about the paths of `writeQuotedString`.
use go_toml.Prelude.{
  ℕ, suc, ◌+◌, ◌-◌, ◌<◌, ◌≤◌, ◌≡◌, ◌⊎◌, refl, sym, ap, subst, ◌∙◌, arith, inl, inr, ok, Option,
  none, some, Bool, true, false, not, ◌||◌, [], ◌∷◌, ◌++◌, Bytes, length, take, drop, get_or, ltb,
  leb, ◌==◌, Bool-cases, All, drop-All, take-All, length-drop, take-append-drop, ==_iff,
}
use go_toml.Prelude.Loop.{loop, loop_ends}
use go_toml.Prelude.Slices.{drop-get_or, take-add}
use go_toml.Scan.{first_stop, basic_string_escape_stop}
use go_toml.Scan.Word.Bytewise.{AreBytes, IsByte}
use go_toml.Scan.Kernels.{scan_basic_string_escape_swar}
use go_toml.Scan.Kernels.First.{scan_basic_string_escape_swar-first_stop}
use go_toml.Scan.Kernels.Exact.{first_stop-le}
use go_toml.Decoder.Ends.{first_stop_at, get_or-drop}
use go_toml.Prelude.Ends.{take_all}
use go_toml.Marshal.Quote.{
  QuoteIndex, no_escape, quote_fallback, first_escape, or_first, or_here, ascii_turn,
  ascii_quote_escape_index, write_quoted_ascii_string, write_quoted_string, append_basic_string,
}
use go_toml.Marshal.Quote.Printable.{
  printable, IsPrintable, is_mark, marked, escape_from-marked, append_basic_string-marked,
}

-- A byte that the search for escapes passes, but for DEL.
abbrev IsQuiet : ℕ → Type 0
IsQuiet c = basic_string_escape_stop c ≡ false

quiet_ways :
    (c : ℕ)
    → basic_string_escape_stop c ≡ false
    → (c == 0x7F) ≡ false
    → (printable c ≡ true) × (is_mark c ≡ false)
unfolding basic_string_escape_stop
quiet_ways c h del = ground arith

mark_ways :
    (c : ℕ)
    → basic_string_escape_stop c ≡ true
    → (ltb c 0x20 || leb 0x80 c) ≡ false
    → (printable c ≡ true) × (is_mark c ≡ true)
unfolding basic_string_escape_stop
mark_ways c h low = ground arith

abbrev NotDel : ℕ → Type 0
NotDel c = (c == 0x7F) ≡ false

abbrev IsPlain : ℕ → Type 0
IsPlain c = (printable c ≡ true) × (is_mark c ≡ false)

-- What lies before a first stop is passed.
first_stop-take :
    (stop : ℕ → Bool) (s : Bytes) → All (λ c. stop c ≡ false) (take (first_stop stop s) s)
unfolding first_stop
first_stop-take stop [] = tt
first_stop-take stop (c ∷ s) = elim (Bool-cases (stop c)) [
  | inl here ↦ rw here tt
  | inr later ↦ rw later (later, first_stop-take stop s)
]

pub All-append {κ} : (P : ℕ → Type κ) (xs ys : Bytes) → All P xs → All P ys → All P (xs ++ ys)
All-append P [] ys hx hy = hy
All-append P (x ∷ xs) ys (p, hx) hy = (p, All-append P xs ys hx hy)

All-map {κ ι} :
    (P : ℕ → Type κ) (Q : ℕ → Type ι) (xs : Bytes) → ((c : ℕ) → P c → Q c) → All P xs → All Q xs
All-map P Q [] f h = tt
All-map P Q (x ∷ xs) f (p, h) = (f x p, All-map P Q xs f h)

-- The state of the search: what lies before `off` is printable, and has no mark before the first one.
Searched : Bytes → ℕ × Option ℕ → Type 0
Searched s (off, none) = All IsPlain (take off s)
Searched s (off, some first) =
    (first ≤ off) × All IsPlain (take first s) × All IsPrintable (take off s)

-- What an answer promises.
Promised : Bytes → QuoteIndex → Type 0
Promised s no_escape = All IsPlain s
Promised s quote_fallback = Unit {0}
Promised s (first_escape first) = All IsPlain (take first s) × All IsPrintable s

All-both {κ ι ν} :
    (P : ℕ → Type κ) (Q : ℕ → Type ι) (R : ℕ → Type ν) (xs : Bytes)
    → ((c : ℕ) → P c → Q c → R c)
    → All P xs
    → All Q xs
    → All R xs
All-both P Q R [] f hp hq = tt
All-both P Q R (x ∷ xs) f (p, hp) (q, hq) = (f x p q, All-both P Q R xs f hp hq)

printables : (xs : Bytes) → All IsPlain xs → All IsPrintable xs
printables xs h = All-map IsPlain IsPrintable xs (λ c p. p.0) h

module _ (s : Bytes) (bytes : AreBytes s) (no_del : All NotDel s) where
  Searched-over :
      (off : ℕ) (first : Option ℕ)
      → take off s ≡ s
      → Searched s (off, first)
      → Promised s (or_first first)
  unfolding Searched Promised
  Searched-over off none whole h = subst (All IsPlain) whole h
  Searched-over off (some first) whole (le, plain, fine) =
      (plain, subst (All IsPrintable) whole fine)

  IsPlain-run : (off n : ℕ) → All IsQuiet (take n (drop off s)) → All IsPlain (take n (drop off s))
  IsPlain-run off n quiet =
      All-both IsQuiet NotDel IsPlain (take n (drop off s)) quiet_ways quiet
        (take-All NotDel n (drop off s) (drop-All NotDel off s no_del))

  -- A run of quiet bytes.
  Searched-run :
      (off n : ℕ) (first : Option ℕ)
      → All IsQuiet (take n (drop off s))
      → Searched s (off, first)
      → Searched s (off + n, first)
  unfolding Searched
  Searched-run off n none quiet h =
      subst (All IsPlain) (sym (take-add off n s))
        (All-append IsPlain (take off s) (take n (drop off s)) h (IsPlain-run off n quiet))
  Searched-run off n (some first) quiet (le, plain, fine) = (
    omega (arith, le),
    plain,
    subst (All IsPrintable) (sym (take-add off n s)) (
        All-append IsPrintable (take off s) (take n (drop off s)) fine
          (printables (take n (drop off s)) (IsPlain-run off n quiet))),
  )

  one_more : (idx : ℕ) → idx < length s → take (idx + 1) s ≡ take idx s ++ get_or s idx 0 ∷ []
  one_more idx inside =
      take-add idx 1 s ∙ ap (λ t. take idx s ++ take 1 t) (drop-get_or s idx inside)

  -- A mark at `idx`.
  Searched-mark :
      (idx : ℕ) (first : Option ℕ)
      → idx < length s
      → IsPrintable (get_or s idx 0)
      → Searched s (idx, first)
      → Searched s (idx + 1, or_here first idx)
  unfolding Searched
  Searched-mark idx none inside fine h = (
    omega arith,
    h,
    subst (All IsPrintable) (sym (one_more idx inside)) (
        All-append IsPrintable (take idx s) (get_or s idx 0 ∷ []) (printables (take idx s) h)
          (fine, tt)),
  )
  Searched-mark idx (some first) inside fine (le, plain, all) = (
    omega (arith, le),
    plain,
    subst (All IsPrintable) (sym (one_more idx inside))
        (All-append IsPrintable (take idx s) (get_or s idx 0 ∷ []) all (fine, tt)),
  )

  -- A turn of the search.
  Steps : ℕ → QuoteIndex ⊎ (ℕ × Option ℕ) → Type 0
  Steps off (inl r) = Promised s r
  Steps off (inr (off', first')) = (length s - off' < length s - off) × Searched s (off', first')

  ascii_turn-Steps :
      (off : ℕ) (first : Option ℕ) → Searched s (off, first) → Steps off (ascii_turn s (off, first))
  unfolding ascii_turn Steps Promised
  ascii_turn-Steps off first h =
      let rest : Bytes = drop off s in
      let n : ℕ = scan_basic_string_escape_swar rest in
      let exact : n ≡ first_stop basic_string_escape_stop rest =
        scan_basic_string_escape_swar-first_stop rest (drop-All IsByte off s bytes) in
      let quiet : All IsQuiet (take n rest) =
        subst (λ (k : ℕ). All IsQuiet (take k rest)) (sym exact)
          (first_stop-take basic_string_escape_stop rest) in
      let run = Searched-run off n first quiet h in
      let bound : n ≤ length rest = rw exact (first_stop-le basic_string_escape_stop rest) in
      elim (Bool-cases (not (ltb off (length s)))) [
        | inl over ↦
            rw (ascii_turn, over)
              (Searched-over off first (take_all off s (past_end off (length s) over)) h)
        | inr inside ↦ elim (Bool-cases (n == length rest)) [
          | inl whole ↦
              let far : length s ≤ off + n =
                omega (arith, (==_iff n (length rest)).0 whole, length-drop off s) in
              rw (ascii_turn, inside, whole)
                (subst (λ r. Promised s r) refl
                  (Searched-over (off + n) first (take_all (off + n) s far) run))
          | inr part ↦
              let c : ℕ = get_or s (off + n) 0 in
              let under : n < length rest = strict n (length rest) bound part in
              let there : off + n < length s = omega (arith, under, length-drop off s) in
              let stop : basic_string_escape_stop c ≡ true =
                rw (get_or-drop off n s, exact)
                  (first_stop_at basic_string_escape_stop rest (
                    not_over (length rest) (first_stop basic_string_escape_stop rest)
                      (subst (λ (k : ℕ). k < length rest) exact under))) in
              elim (Bool-cases (ltb c 0x20 || leb 0x80 c)) [
                | inl low ↦ rw (ascii_turn, inside, part, low) tt
                | inr mid ↦
                    rw (ascii_turn, inside, part, mid)
                      (
                        omega (arith, there),
                        Searched-mark (off + n) first there (mark_ways c stop mid).0 run,
                      )
              ]
        ]
      ]
    where
      past_end : (off size : ℕ) → not (ltb off size) ≡ true → size ≤ off
      past_end off size h = ground (arith, h)

      strict : (n m : ℕ) → n ≤ m → (n == m) ≡ false → n < m
      strict n m h other = ground (arith, h, other)

      not_over : (m n : ℕ) → n < m → leb m n ≡ false
      not_over m n h = ground (arith, h)

  ascii_loop-Promised : Promised s (loop (ascii_turn s) quote_fallback (suc (length s)) (0, none))
  unfolding Steps
  ascii_loop-Promised =
      let (last, r, at, answer, inv) =
        loop_ends (ascii_turn s) quote_fallback (λ p. length s - p.0) (Searched s)
          (λ p p' h e. subst (Steps (p.0)) e (ascii_turn-Steps (p.0) (p.1) h)) (suc (length s))
          (0, none) (omega arith) (unfold Searched in tt) in
      rw answer (subst (Steps (last.0)) at (ascii_turn-Steps (last.0) (last.1) inv))

no_del-lem : (s : Bytes) → ltb (first_stop (λ c. c == 0x7F) s) (length s) ≡ false → All NotDel s
unfolding first_stop
no_del-lem [] h = tt
no_del-lem (c ∷ s) h = elim (Bool-cases (c == 0x7F)) [
  | inl del ↦ absurd (let bad : ltb 0 (suc (length s)) ≡ false = rw del at h in ground (arith, bad))
  | inr other ↦
      let more : ltb (suc (first_stop (λ c. c == 0x7F) s)) (suc (length s)) ≡ false =
        rw other at h in
      (other, no_del-lem s (ground (arith, more)))
]

ascii_quote_escape_index-Promised :
    (s : Bytes) → AreBytes s → Promised s (ascii_quote_escape_index s)
unfolding ascii_quote_escape_index Promised
ascii_quote_escape_index-Promised [] bytes = tt
ascii_quote_escape_index-Promised (c ∷ t) bytes =
    let s : Bytes = c ∷ t in
    let nonempty : (length s == 0) ≡ false = ground arith in
    elim (Bool-cases (ltb (first_stop (λ c. c == 0x7F) s) (length s))) [
      | inl del ↦ rw (ascii_quote_escape_index, nonempty, del) tt
      | inr quiet ↦
          rw (ascii_quote_escape_index, nonempty, quiet)
            (ascii_loop-Promised s bytes (no_del-lem s quiet))
    ]

marked-plain : (s : Bytes) → All IsPlain s → marked s ≡ s
unfolding marked
marked-plain [] h = refl
marked-plain (c ∷ s) (p, h) = rw (p.1) (ap (λ t. c ∷ t) (marked-plain s h))

marked-append : (xs ys : Bytes) → marked (xs ++ ys) ≡ marked xs ++ marked ys
unfolding marked
marked-append [] ys = refl
marked-append (c ∷ xs) ys = elim (Bool-cases (is_mark c)) [
  | inl mark ↦ rw mark (ap (λ t. b'\\' ∷ c ∷ t) (marked-append xs ys))
  | inr plain ↦ rw plain (ap (λ t. c ∷ t) (marked-append xs ys))
]

write_quoted_ascii_string-marked :
    (s : Bytes) (f : ℕ)
    → write_quoted_ascii_string s f ≡ (b'"' ∷ (take f s ++ marked (drop f s))) ++ b'"' ∷ []
unfolding write_quoted_ascii_string
write_quoted_ascii_string-marked s f =
    let e : f - 0 ≡ f = omega arith in rw e (escape_from-marked (b'"' ∷ []) (take f s) (drop f s))

index-cases :
    (r : QuoteIndex) → (r ≡ no_escape) ⊎ (r ≡ quote_fallback) ⊎ ((f : ℕ) × (r ≡ first_escape f))
index-cases no_escape = inl refl
index-cases quote_fallback = inr (inl refl)
index-cases (first_escape f) = inr (inr (f, refl))

-- On bytes, `writeQuotedString` writes on each of its three paths what `appendBasicString` does.
pub write_quoted_string-append_basic_string :
    (s : Bytes) → AreBytes s → write_quoted_string s ≡ append_basic_string [] s
unfolding write_quoted_string write_quoted_ascii_string
write_quoted_string-append_basic_string s bytes =
    let promise = ascii_quote_escape_index-Promised s bytes in
    elim (index-cases (ascii_quote_escape_index s)) [
      | inl e ↦
          let plain : All IsPlain s = unfold Promised in subst (Promised s) e promise in
          rw (write_quoted_string, e)
            (sym (
              append_basic_string-marked [] s (printables s plain)
              ∙ ap (λ t. ok ((b'"' ∷ t) ++ b'"' ∷ [])) (marked-plain s plain)))
      | inr (inl e) ↦ rw (write_quoted_string, e) refl
      | inr (inr (f, e)) ↦
          let (plain, fine) : All IsPlain (take f s) × All IsPrintable s =
            unfold Promised in subst (Promised s) e promise in
          let whole : marked s ≡ take f s ++ marked (drop f s) =
            ap marked (sym (take-append-drop f s))
            ∙ marked-append (take f s) (drop f s)
            ∙ ap (λ t. t ++ marked (drop f s)) (marked-plain (take f s) plain) in
          rw (write_quoted_string, e)
            (ap ok (write_quoted_ascii_string-marked s f)
              ∙ sym (
                  append_basic_string-marked [] s fine
                  ∙ ap (λ t. ok ((b'"' ∷ t) ++ b'"' ∷ [])) whole))
    ]
