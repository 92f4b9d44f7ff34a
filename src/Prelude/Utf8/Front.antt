-- ===== src/Prelude/Utf8/Front.antt =====
-- `unicode/utf8`: about the bytes of the code point at the front of a text.
use Prim.Native.Nat.{ℕ, zero, suc, ◌+◌, ◌-◌, ◌*◌, ◌/◌, ◌%◌, ◌≤◌, ◌<◌}
use mathlib.Core.Path.{◌≡◌, refl, sym, ap, subst, ◌∙◌}
use mathlib.Core.Logic.{inl, inr}
use mathlib.Core.Bool.{true, false, ◌&&◌}
use mathlib.Core.List.{[], ◌∷◌}
use native.Mathlib.Omega.{arith}
use go_toml.Prelude.Tests.{ltb, leb, ◌==◌, Bytes, Bool-cases}
use go_toml.Prelude.Lists.{length, get_or, take, All}
use go_toml.Prelude.Utf8.{rune_error, encode_rune, decode_rune, two_there, three_there, four_there}

abbrev pub IsHigh : ℕ → Type 0
IsHigh b = 0x80 ≤ b

-- Of a text that does not begin with an ASCII byte: the first `size` bytes are there and none of them is
-- ASCII, and if the code point is a control character they are its encoding.
abbrev pub Front : Bytes → ℕ → ℕ → Type 0
Front s r size =
    (1 ≤ size)
    × (size ≤ length s)
    × All IsHigh (take size s)
    × (leb r 0x9F ≡ true → (encode_rune r ≡ take size s))

-- A position that holds a continuation is there.
present : (s : Bytes) (i : ℕ) → 0x80 ≤ get_or s i 0 → i < length s
present [] i h = absurd (omega (arith, h))
present (b ∷ s) zero h = omega arith
present (b ∷ s) (suc i) h = omega (arith, present s i h)

two_bounds : (b c : ℕ) → two_there b c ≡ true → (0xC2 ≤ b) × (b ≤ 0xDF) × (0x80 ≤ c) × (c ≤ 0xBF)
two_bounds b c h = ground arith

three_bounds :
    (b c d : ℕ)
    → three_there b c d ≡ true
    → (0xE0 ≤ b)
      × (b ≤ 0xEF)
      × (0x80 ≤ c)
      × (0x80 ≤ d)
      × (0x800 ≤ (b - 0xE0) * 4096 + (c - 0x80) * 64)
three_bounds b c d h = elim (Bool-cases (b == 0xE0)) [
  | inl low ↦
      let second : 0xA0 ≤ c = ground (arith, h, low) in
      let (b1, b2, c1, d1) = three_simple b c d h in (b1, b2, c1, d1, omega (arith, second))
  | inr more ↦
      let (b1, b2, c1, d1) = three_simple b c d h in
      let next : 0xE1 ≤ b = ground (arith, more, b1) in (b1, b2, c1, d1, omega (arith, next))
]
  where
    three_simple :
        (b c d : ℕ) → three_there b c d ≡ true → (0xE0 ≤ b) × (b ≤ 0xEF) × (0x80 ≤ c) × (0x80 ≤ d)
    three_simple b c d h = ground arith

four_bounds :
    (b c d e : ℕ)
    → four_there b c d e ≡ true
    → (0xF0 ≤ b)
      × (0x80 ≤ c)
      × (0x80 ≤ d)
      × (0x80 ≤ e)
      × (0x800 ≤ (b - 0xF0) * 262144 + (c - 0x80) * 4096)
four_bounds b c d e h = elim (Bool-cases (b == 0xF0)) [
  | inl low ↦
      let second : 0x90 ≤ c = ground (arith, h, low) in
      let (b1, c1, d1, e1) = four_simple b c d e h in (b1, c1, d1, e1, omega (arith, second))
  | inr more ↦
      let (b1, c1, d1, e1) = four_simple b c d e h in
      let next : 0xF1 ≤ b = ground (arith, more, b1) in (b1, c1, d1, e1, omega (arith, next))
]
  where
    four_simple :
        (b c d e : ℕ)
        → four_there b c d e ≡ true
        → (0xF0 ≤ b) × (0x80 ≤ c) × (0x80 ≤ d) × (0x80 ≤ e)
    four_simple b c d e h = ground arith

encode_two : (c : ℕ) → 0x80 ≤ c → c ≤ 0xBF → encode_rune c ≡ 0xC2 ∷ c ∷ []
unfolding encode_rune
encode_two c lo hi =
    let not_ascii : ltb c 0x80 ≡ false = ground arith in
    let two : ltb c 0x800 ≡ true = ground arith in
    let first : 0xC0 + c / 64 ≡ 0xC2 = omega arith in
    let second : 0x80 + c % 64 ≡ c = omega arith in rw (not_ascii, two, first, second) refl

two_bytes :
    (b c : ℕ)
    → two_there b c ≡ true
    → leb ((b - 0xC0) * 64 + (c - 0x80)) 0x9F ≡ true
    → encode_rune ((b - 0xC0) * 64 + (c - 0x80)) ≡ b ∷ c ∷ []
two_bytes b c h small =
    let (b1, b2, c1, c2) = two_bounds b c h in
    let low : (b - 0xC0) * 64 + (c - 0x80) ≤ 0x9F = leb-le ((b - 0xC0) * 64 + (c - 0x80)) small in
    let lead : b ≡ 0xC2 = omega (arith, b1, c1, low) in
    let same : (b - 0xC0) * 64 + (c - 0x80) ≡ c = omega (arith, lead, c1) in
    ap encode_rune same ∙ encode_two c c1 c2 ∙ ap (λ (k : ℕ). k ∷ c ∷ []) (omega (arith, lead))
  where
    leb-le : (n : ℕ) → leb n 0x9F ≡ true → n ≤ 0x9F
    leb-le n h = ground arith

too_big : (n k : ℕ) → 0x800 ≤ n → leb (n + k) 0x9F ≡ true → 0x800 ≤ 0
too_big n k h small = ground (arith, h, small)

two_front :
    (b : ℕ) (s : Bytes)
    → two_there b (get_or s 0 0) ≡ true
    → Front (b ∷ s) ((b - 0xC0) * 64 + (get_or s 0 0 - 0x80)) 2
two_front b [] h = let (b1, b2, c1, c2) = two_bounds b 0 h in absurd (omega (arith, c1))
two_front b (c ∷ s) h =
    let (b1, b2, c1, c2) = two_bounds b c h in
    (omega arith, omega arith, (omega (arith, b1), (c1, tt)), λ small. two_bytes b c h small)

three_front :
    (b : ℕ) (s : Bytes)
    → three_there b (get_or s 0 0) (get_or s 1 0) ≡ true
    → Front (b ∷ s) ((b - 0xE0) * 4096 + (get_or s 0 0 - 0x80) * 64 + (get_or s 1 0 - 0x80)) 3
three_front b [] h = let (b1, b2, c1, d1, big) = three_bounds b 0 0 h in absurd (omega (arith, c1))
three_front b (c ∷ []) h =
    let (b1, b2, c1, d1, big) = three_bounds b c 0 h in absurd (omega (arith, d1))
three_front b (c ∷ d ∷ s) h =
    let (b1, b2, c1, d1, big) = three_bounds b c d h in
    (
      omega arith,
      omega arith,
      (omega (arith, b1), (c1, (d1, tt))),
      λ small.
          absurd
            (omega (arith, too_big ((b - 0xE0) * 4096 + (c - 0x80) * 64) (d - 0x80) big small)),
    )

four_front :
    (b : ℕ) (s : Bytes)
    → four_there b (get_or s 0 0) (get_or s 1 0) (get_or s 2 0) ≡ true
    → Front
        (b ∷ s)
        ((b - 0xF0) * 262144
          + (get_or s 0 0 - 0x80) * 4096
          + (get_or s 1 0 - 0x80) * 64
          + (get_or s 2 0 - 0x80))
        4
four_front b [] h = let (b1, c1, d1, e1, big) = four_bounds b 0 0 0 h in absurd (omega (arith, c1))
four_front b (c ∷ []) h =
    let (b1, c1, d1, e1, big) = four_bounds b c 0 0 h in absurd (omega (arith, d1))
four_front b (c ∷ d ∷ []) h =
    let (b1, c1, d1, e1, big) = four_bounds b c d 0 h in absurd (omega (arith, e1))
four_front b (c ∷ d ∷ e ∷ s) h =
    let (b1, c1, d1, e1, big) = four_bounds b c d e h in
    let big' : 0x800 ≤ (b - 0xF0) * 262144 + (c - 0x80) * 4096 + (d - 0x80) * 64 =
      omega (arith, big) in
    (
      omega arith,
      omega arith,
      (omega (arith, b1), (c1, (d1, (e1, tt)))),
      λ small. absurd (
          omega (
            arith,
            too_big ((b - 0xF0) * 262144 + (c - 0x80) * 4096 + (d - 0x80) * 64) (e - 0x80) big'
                small,
          )),
    )

-- The code point at the front of a text whose first byte is not ASCII, where the text is valid there.
pub decode_rune-Front :
    (b : ℕ) (s : Bytes) (r size : ℕ)
    → ltb b 0x80 ≡ false
    → decode_rune (b ∷ s) ≡ (r, size)
    → (r == rune_error && size == 1) ≡ false
    → Front (b ∷ s) r size
unfolding decode_rune
decode_rune-Front b s r size high e valid = elim (Bool-cases (two_there b (get_or s 0 0))) [
  | inl two ↦ moved (rw (decode_rune, high, two) refl) e (two_front b s two)
  | inr no_two ↦ elim (Bool-cases (three_there b (get_or s 0 0) (get_or s 1 0))) [
    | inl three ↦ moved (rw (decode_rune, high, no_two, three) refl) e (three_front b s three)
    | inr no_three ↦ elim (Bool-cases (four_there b (get_or s 0 0) (get_or s 1 0) (get_or s 2 0))) [
      | inl four ↦
          moved (rw (decode_rune, high, no_two, no_three, four) refl) e (four_front b s four)
      | inr no_four ↦
          let bad : decode_rune (b ∷ s) ≡ (rune_error, 1) =
            rw (decode_rune, high, no_two, no_three, no_four) refl in
          absurd (refused (sym bad ∙ e))
    ]
  ]
]
  where
    moved :
        {p q : ℕ × ℕ}
        → decode_rune (b ∷ s) ≡ p
        → decode_rune (b ∷ s) ≡ q
        → Front (b ∷ s) (p.0) (p.1)
        → Front (b ∷ s) (q.0) (q.1)
    moved here there f = subst (λ (t : ℕ × ℕ). Front (b ∷ s) (t.0) (t.1)) (sym here ∙ there) f

    refused : ◌≡◌ {A = ℕ × ℕ} (rune_error, 1) (r, size) → ⊥
    refused e =
        let v : (rune_error == rune_error && 1 == 1) ≡ false =
          subst (λ (t : ℕ × ℕ). (t.0 == rune_error && t.1 == 1) ≡ false) (sym e) valid in
        cc v
