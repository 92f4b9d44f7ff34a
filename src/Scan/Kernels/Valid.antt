-- ===== src/Scan/Kernels/Valid.antt =====
-- internal/scan/scan_swar.go, scan_arm64.go: about the checks of UTF-8.
use Prim.Native.Nat.{bit_and}
use go_toml.Prelude.{
  ℕ, zero, suc, ◌+◌, ◌-◌, ◌≤◌, ◌<◌, ◌≡◌, ◌⊎◌, inl, inr, refl, sym, ap, subst, ◌∙◌, arith, Bool,
  true, false, not, ◌&&◌, some, none, [], ◌∷◌, Bytes, length, take, drop, get_or, ltb, leb, ◌==◌,
  if◌then◌else◌, Bool-cases,
}
use go_toml.Prelude.Loop.{loop, loop_fuel, loop-suc-inr}
use go_toml.Prelude.Slices.{drop-get_or, drop_over}
use go_toml.Prelude.Utf8.{decode_rune, rune_error, two_there, three_there, four_there}
use go_toml.Scan.{first_stop}
use go_toml.Scan.Sequences.{
  utf8_continuation, validate_utf8_sequence_size, scalar_turn, validate_utf8_scalar,
}
use go_toml.Scan.Word.{load_u64, swar_highs}
use go_toml.Scan.Word.Bytewise.{AreBytes}
use go_toml.Scan.Word.Tests.{highs-Finds}
use go_toml.Scan.Kernels.{for_words, utf8_turn, validate_from, validate_utf8_swar}
use go_toml.Scan.Kernels.Exact.{chunk-length, chunk-AreBytes, marked_at-first_stop}

-- What the code makes of an answer of `utf8.DecodeRune`.
abbrev accepted : ℕ × ℕ → ℕ
accepted (r, size) = if r == rune_error && size == 1 then 0 else size

accepted_ways :
    (ascii two three four : Bool) (b x y z : ℕ)
    → (ascii ≡ true → b < 0x80)
    → accepted (
        if ascii
        then (b, 1)
        else if two
        then (x, 2)
        else if three
        then (y, 3)
        else if four
        then (z, 4)
        else (rune_error, 1))
      ≡ (if ascii then 1 else if two then 2 else if three then 3 else if four then 4 else 0)
accepted_ways true two three four b x y z low =
    let other : (b == rune_error) ≡ false = ground (arith, low refl) in rw other refl
accepted_ways false true three four b x y z low = ground arith
accepted_ways false false true four b x y z low = ground arith
accepted_ways false false false true b x y z low = ground arith
accepted_ways false false false false b x y z low = refl

-- The bytes that `utf8.DecodeRune` takes at the front, or zero.
abbrev size_of : ℕ → ℕ → ℕ → ℕ → ℕ
size_of b c d e =
    if ltb b 0x80
    then 1
    else if two_there b c
    then 2
    else if three_there b c d
    then 3
    else if four_there b c d e
    then 4
    else 0

accepted-decode_rune :
    (b : ℕ) (s : Bytes)
    → accepted (decode_rune (b ∷ s)) ≡ size_of b (get_or s 0 0) (get_or s 1 0) (get_or s 2 0)
unfolding decode_rune
accepted-decode_rune b s =
    accepted_ways (ltb b 0x80) (two_there b (get_or s 0 0)) _ _ b _ _ _ (λ h. ground (arith, h))

sequence_size-size_of :
    (b : ℕ) (s : Bytes)
    → validate_utf8_sequence_size (b ∷ s) ≡ size_of b (get_or s 0 0) (get_or s 1 0) (get_or s 2 0)
unfolding validate_utf8_sequence_size utf8_continuation
sequence_size-size_of b [] = ground arith
sequence_size-size_of b (c ∷ []) = ground arith
sequence_size-size_of b (c ∷ d ∷ []) = ground arith
sequence_size-size_of b (c ∷ d ∷ e ∷ s) = elim (Bool-cases (ltb b 0xE0)) [
  | inl low ↦ ground (arith, low)
  | inr high ↦ elim (Bool-cases (ltb b 0xF0)) [
    | inl three ↦ ground (arith, high, three)
    | inr four ↦ ground (arith, four)
  ]
]

sequence_size-decode_rune :
    (b : ℕ) (s : Bytes) → validate_utf8_sequence_size (b ∷ s) ≡ accepted (decode_rune (b ∷ s))
sequence_size-decode_rune b s = sequence_size-size_of b s ∙ sym (accepted-decode_rune b s)

-- A turn by the bytes that it takes.
abbrev step_by : Bytes → ℕ → ℕ → ℕ ⊎ ℕ
step_by s i size =
    if not (ltb i (length s)) then inl (length s) else if size == 0 then inl i else inr (i + size)

scalar_turn-step_by :
    (s : Bytes) (i : ℕ) → scalar_turn s i ≡ step_by s i (validate_utf8_sequence_size (drop i s))
unfolding scalar_turn
scalar_turn-step_by s i = refl

decode_rune-pos : (b : ℕ) (s : Bytes) → ((decode_rune (b ∷ s)).1 == 0) ≡ false
unfolding decode_rune
decode_rune-pos b s = ground arith

decode_rune-ascii : (b : ℕ) (s : Bytes) → ltb b 0x80 ≡ true → accepted (decode_rune (b ∷ s)) ≡ 1
decode_rune-ascii b s h = accepted-decode_rune b s ∙ rw h refl

step_by-accepted :
    (s : Bytes) (i : ℕ)
    → ltb i (length s) ≡ true
    → utf8_turn s i ≡ step_by s i (accepted (decode_rune (drop i s)))
unfolding utf8_turn
step_by-accepted s i here =
    let at : drop i s ≡ get_or s i 0 ∷ drop (i + 1) s = drop-get_or s i (ground (arith, here)) in
    let r : ℕ = (decode_rune (drop i s)).0 in
    let size : ℕ = (decode_rune (drop i s)).1 in
    let moves : (size == 0) ≡ false =
      subst (λ (t : Bytes). ((decode_rune t).1 == 0) ≡ false) (sym at)
        (decode_rune-pos (get_or s i 0) (drop (i + 1) s)) in
    elim (Bool-cases (ltb (get_or s i 0) 0x80)) [
      | inl ascii ↦
          let one : accepted (decode_rune (drop i s)) ≡ 1 =
            ap (λ (t : Bytes). accepted (decode_rune t)) at
            ∙ decode_rune-ascii (get_or s i 0) (drop (i + 1) s) ascii in
          rw (utf8_turn, one, here, ascii) refl
      | inr high ↦ elim (Bool-cases (r == rune_error && size == 1)) [
        | inl bad ↦ rw (utf8_turn, here, high, bad) refl
        | inr good ↦ rw (utf8_turn, here, high, good, moves) refl
      ]
    ]

step_by-over :
    (s : Bytes) (i size : ℕ) → ltb i (length s) ≡ false → step_by s i size ≡ inl (length s)
step_by-over s i size over = rw over refl

-- One code point, by both ways.
utf8_turn-scalar_turn : (s : Bytes) (i : ℕ) → utf8_turn s i ≡ scalar_turn s i
unfolding utf8_turn
utf8_turn-scalar_turn s i = elim (Bool-cases (ltb i (length s))) [
  | inr over ↦
      rw (utf8_turn, over)
        (sym (
          scalar_turn-step_by s i ∙ step_by-over s i (validate_utf8_sequence_size (drop i s)) over))
  | inl here ↦
      let at : drop i s ≡ get_or s i 0 ∷ drop (i + 1) s = drop-get_or s i (ground (arith, here)) in
      let same : accepted (decode_rune (drop i s)) ≡ validate_utf8_sequence_size (drop i s) =
        subst (λ (t : Bytes). accepted (decode_rune t) ≡ validate_utf8_sequence_size t) (sym at)
          (sym (sequence_size-decode_rune (get_or s i 0) (drop (i + 1) s))) in
      step_by-accepted s i here ∙ ap (step_by s i) same ∙ sym (scalar_turn-step_by s i)
]

abbrev high_byte : ℕ → Bool
high_byte b = leb 128 b

nothing_runs : (n : ℕ) → suc n ≤ first_stop high_byte [] → ⊥
unfolding first_stop
nothing_runs n h = omega (arith, h)

first_stop-uncons :
    (n c : ℕ) (t : Bytes)
    → suc n ≤ first_stop high_byte (c ∷ t)
    → (ltb c 0x80 ≡ true) × (n ≤ first_stop high_byte t)
unfolding first_stop
first_stop-uncons n c t h = (ground (arith, h), ground (arith, h))

module _ (s : Bytes) where
  -- The loop over code points from `i` on.
  scalar_from : ℕ → ℕ
  scalar_from i = loop (scalar_turn s) (length s) (suc (length s)) i

  validate_from-scalar_from : (i : ℕ) → validate_from s i ≡ scalar_from i
  unfolding scalar_from
  validate_from-scalar_from i =
      λ j. loop (λ (k : ℕ). utf8_turn-scalar_turn s k j) (length s) (suc (length s)) i

  scalar_turn-lt :
      (i i' : ℕ) → Unit {0} → scalar_turn s i ≡ inr i' → (length s - i' < length s - i) × Unit {0}
  scalar_turn-lt i i' inv e =
      let e' : step_by s i (validate_utf8_sequence_size (drop i s)) ≡ inr i' =
        sym (scalar_turn-step_by s i) ∙ e in
      (step_by-lt (validate_utf8_sequence_size (drop i s)) e', tt)
    where
      step_by-lt : (size : ℕ) → step_by s i size ≡ inr i' → length s - i' < length s - i
      step_by-lt size h = ground (arith, h)

  -- A byte of ASCII is passed.
  scalar_from-suc :
      (i : ℕ) → i < length s → ltb (get_or s i 0) 0x80 ≡ true → scalar_from i ≡ scalar_from (i + 1)
  unfolding scalar_from
  scalar_from-suc i h ascii =
      loop-suc-inr (scalar_turn s) (length s) (length s) i (passes i h ascii)
      ∙ loop_fuel (scalar_turn s) (length s) (λ k. length s - k) (λ k. Unit {0}) scalar_turn-lt
          (length s) (suc (length s)) (i + 1) (omega (arith, h)) (omega arith) tt
    where
      passes :
          (i : ℕ) → i < length s → ltb (get_or s i 0) 0x80 ≡ true → scalar_turn s i ≡ inr (i + 1)
      passes i h ascii =
          let here : ltb i (length s) ≡ true = ground (arith, h) in
          let at = drop-get_or s i h in
          let one : accepted (decode_rune (drop i s)) ≡ 1 =
            ap (λ (t : Bytes). accepted (decode_rune t)) at
            ∙ decode_rune-ascii (get_or s i 0) (drop (i + 1) s) ascii in
          sym (utf8_turn-scalar_turn s i) ∙ step_by-accepted s i here ∙ rw (one, here) refl

  -- A run of ASCII is passed.
  scalar_from-add :
      (n i : ℕ) → n ≤ first_stop high_byte (drop i s) → scalar_from i ≡ scalar_from (i + n)
  scalar_from-add zero i h = let same : i + 0 ≡ i = omega arith in rw same refl
  scalar_from-add (suc n) i h = elim (Bool-cases (ltb i (length s))) [
    | inr over ↦
        let none_left : drop i s ≡ [] = drop_over s i (ground (arith, over)) in
        absurd (nothing_runs n (subst (λ (t : Bytes). suc n ≤ first_stop high_byte t) none_left h))
    | inl here ↦
        let inside : i < length s = ground (arith, here) in
        let (ascii, rest) =
          first_stop-uncons n (get_or s i 0) (drop (i + 1) s)
            (subst (λ (t : Bytes). suc n ≤ first_stop high_byte t) (drop-get_or s i inside) h) in
        let next : i + suc n ≡ i + 1 + n = omega arith in
        rw next (scalar_from-suc i inside ascii ∙ scalar_from-add n (i + 1) rest)
  ]

module _ (s : Bytes) (hs : AreBytes s) where
  plain_word :
      (i : ℕ)
      → i + 8 ≤ length s
      → (bit_and (load_u64 s i) swar_highs == 0) ≡ true
      → 8 ≤ first_stop high_byte (drop i s)
  unfolding load_u64
  plain_word i room plain =
      let m : ℕ = bit_and (load_u64 s i) swar_highs in
      elim (marked_at-first_stop s hs i room high_byte m
        (highs-Finds (take 8 (drop i s)) (chunk-AreBytes s hs i room) (chunk-length s hs i room))) [
          | inl (nothing, same) ↦ omega (arith, same)
          | inr (answer, less) ↦ let never = rw plain at answer in absurd (cc never)
        ]

  -- A word without a high bit is passed, and the first other one sends the rest to the loop.
  words-scalar_from :
      (fuel i : ℕ)
      → i ≤ length s
      → for_words
          (λ k. if bit_and (load_u64 s k) swar_highs == 0 then none else some (validate_from s k))
          (validate_from s)
          (length s)
          fuel
          i
        ≡ scalar_from s i
  unfolding for_words load_u64
  words-scalar_from zero i h = validate_from-scalar_from s i
  words-scalar_from (suc fuel) i h = elim (Bool-cases (leb (i + 8) (length s))) [
    | inr last ↦ rw (for_words, last) (validate_from-scalar_from s i)
    | inl more ↦
        let room : i + 8 ≤ length s = ground (arith, more) in
        let m : ℕ = bit_and (load_u64 s i) swar_highs in
        elim (Bool-cases (m == 0)) [
          | inr marked ↦ rw (for_words, more, marked) (validate_from-scalar_from s i)
          | inl plain ↦
              rw (for_words, more, plain)
                (words-scalar_from fuel (i + 8) room
                  ∙ sym (scalar_from-add s 8 i (plain_word i room plain)))
        ]
  ]

-- On bytes, `validateUTF8SWAR`, which passes words of ASCII and asks `utf8.DecodeRune` about the
-- rest, answers as `validateUTF8Scalar` of the other backends does, which tests the ranges of the
-- bytes itself.
pub validate_utf8_swar-validate_utf8_scalar :
    (s : Bytes) → AreBytes s → validate_utf8_swar s ≡ validate_utf8_scalar s
unfolding validate_utf8_swar validate_utf8_scalar scalar_from
validate_utf8_swar-validate_utf8_scalar s hs = words-scalar_from s hs (length s) 0 (omega arith)
