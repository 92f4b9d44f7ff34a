-- ===== src/Values/Keys/Ends.antt =====
-- value.go: about the end of the loop of `parseDottedKey`.
use go_toml.Prelude.{
  ℕ, suc, ◌+◌, ◌<◌, ◌≤◌, ◌≡◌, ◌≢◌, refl, arith, inl, inr, Result, ok, err, ◌>>=◌, true, false, not,
  ◌||◌, List, [], ◌∷◌, ◌++◌, Bytes, length, take, drop, get_or, leb, ◌==◌, Bool-cases, Result-cases,
  length-drop, length-take,
}
use go_toml.Prelude.Loop.{loop, loop_ends}
use go_toml.Scan.{first_stop}
use go_toml.Decoder.State.{DecodeError, no_fuel}
use go_toml.Decoder.Keys.{is_simple_bare_key, not_blank}
use go_toml.Values.Strings.{parse_string_value}
use go_toml.Values.Strings.Ends.{HasFuel, parse_string_value-HasFuel}
use go_toml.Values.Strings.Advances.{is_no_fuel}
use go_toml.Values.Keys.{
  bytes_trim_space, trim_left, quote_end, quoted_segment, segment_end, bare_segment, segment, Parts,
  behind_segment, segment_turn, some_parts, parse_dotted_key, spaceless_length, is_space,
}

-- A segment leaves no more than it was given, or fails by an error of the code.
abbrev Leaves : Bytes → Result DecodeError (Bytes × Bytes) → Type 0
Leaves raw (err e) = is_no_fuel e ≡ false
Leaves raw (ok (part, rest)) = length rest ≤ length raw

quoted_segment-Leaves : (size : ℕ) (raw : Bytes) → Leaves raw (quoted_segment size raw)
unfolding quoted_segment
quoted_segment-Leaves size raw =
    let end : ℕ = 1 + quote_end (get_or raw 0 0) (drop 1 raw) in
    let text = parse_string_value-HasFuel (take (end + 1) raw) in
    elim (Bool-cases (leb (length raw) end)) [
      | inl over ↦ rw (quoted_segment, over) refl
      | inr inside ↦ elim (Result-cases (parse_string_value (take (end + 1) raw))) [
        | inl (v, e) ↦ rw (quoted_segment, inside, e) (omega (arith, length-drop (end + 1) raw))
        | inr (bad, e) ↦ rw (quoted_segment, inside, e) (rw e at text)
      ]
    ]

bare_segment-Leaves : (size : ℕ) (raw : Bytes) → Leaves raw (bare_segment size raw)
unfolding bare_segment
bare_segment-Leaves size raw =
    let part : Bytes = take (first_stop segment_end raw) raw in
    elim (Bool-cases (length part == 0)) [
      | inl empty ↦ rw empty refl
      | inr some_bytes ↦ elim (Bool-cases (not (is_simple_bare_key part))) [
        | inl bad ↦ rw (some_bytes, bad) refl
        | inr fine ↦
            rw (some_bytes, fine) (omega (arith, length-drop (first_stop segment_end raw) raw))
      ]
    ]

segment-Leaves : (size : ℕ) (raw : Bytes) → Leaves raw (segment size raw)
unfolding segment
segment-Leaves size raw = elim (Bool-cases (get_or raw 0 0 == b'\'' || get_or raw 0 0 == b'"')) [
  | inl quoted ↦ rw quoted (quoted_segment-Leaves size raw)
  | inr bare ↦ rw bare (bare_segment-Leaves size raw)
]

-- A turn that goes on has less than it was given; one that answers has an error of the code or a path.
abbrev Turns : Bytes → Parts → Type 0
Turns raw (inl r) = HasFuel r
Turns raw (inr (raw', parts)) = length raw' < length raw

behind_segment-Turns :
    (size : ℕ) (raw : Bytes) (parts : List Bytes) → Turns raw (behind_segment size raw parts)
unfolding behind_segment trim_left
behind_segment-Turns size raw parts =
    let rest : Bytes = trim_left raw in
    let shorter = length-drop (first_stop not_blank raw) raw in
    elim (Bool-cases (length rest == 0)) [
      | inl empty ↦ rw empty tt
      | inr more ↦ elim (Bool-cases (not (get_or rest 0 0 == b'.'))) [
        | inl bad ↦ rw (more, bad) refl
        | inr dot ↦ elim (Bool-cases (length (trim_left (drop 1 rest)) == 0)) [
          | inl nothing ↦ rw (more, dot, nothing) refl
          | inr fine ↦
              let some_bytes : 0 < length rest = ground (arith, more) in
              rw (more, dot, fine) (omega (arith, some_bytes, length-drop 1 rest, shorter))
        ]
      ]
    ]

Turns-le : (raw raw' : Bytes) (t : Parts) → length raw' ≤ length raw → Turns raw' t → Turns raw t
Turns-le raw raw' (inl r) h t = t
Turns-le raw raw' (inr (rest, parts)) h t = omega (arith, t)

segment_turn-Turns :
    (size : ℕ) (raw : Bytes) (parts : List Bytes) → Turns raw (segment_turn size (raw, parts))
unfolding segment_turn
segment_turn-Turns size raw parts =
    let front : Bytes = trim_left raw in
    let first = segment-Leaves size front in
    let shorter : length front ≤ length raw =
      unfold trim_left in omega (arith, length-drop (first_stop not_blank raw) raw) in
    elim (Bool-cases (length front == 0)) [
      | inl empty ↦ rw empty tt
      | inr more ↦ elim (Result-cases (segment size front)) [
        | inr (bad, e) ↦ rw (more, e) (rw e at first)
        | inl ((part, rest), e) ↦
            let le : length rest ≤ length front = rw e at first in
            rw (more, e)
              (Turns-le raw rest (behind_segment size rest (parts ++ part ∷ [])) (omega (arith, le))
                (behind_segment-Turns size rest (parts ++ part ∷ [])))
      ]
    ]

turn-Turns :
    (size : ℕ) (s : Bytes × List Bytes) {r : Result DecodeError (List Bytes)}
    → segment_turn size s ≡ inl r
    → HasFuel r
turn-Turns size (raw, parts) e = let t = segment_turn-Turns size raw parts in rw e at t

turn-lt :
    (size : ℕ) (s s' : Bytes × List Bytes)
    → segment_turn size s ≡ inr s'
    → (length (s'.0) < length (s.0)) × Unit {0}
turn-lt size (raw, parts) s' e =
    let t = segment_turn-Turns size raw parts in let lt = rw e at t in (lt, tt)

length-bytes_trim_space : (raw : Bytes) → length (bytes_trim_space raw) ≤ length raw
unfolding bytes_trim_space
length-bytes_trim_space raw =
    let front : Bytes = drop (first_stop (λ c. not (is_space c)) raw) raw in
    omega (
      arith,
      length-take (spaceless_length front) front,
      length-drop (first_stop (λ c. not (is_space c)) raw) raw,
    )

some_parts-HasFuel :
    (size : ℕ) (r : Result DecodeError (List Bytes))
    → HasFuel r
    → HasFuel (r >>= λ parts. some_parts size parts)
some_parts-HasFuel size (err e) h = h
some_parts-HasFuel size (ok []) h = refl
some_parts-HasFuel size (ok (part ∷ parts)) h = tt

pub parse_dotted_key-HasFuel : (raw : Bytes) → HasFuel (parse_dotted_key raw)
unfolding parse_dotted_key
parse_dotted_key-HasFuel raw =
    let (last, r, at, answer, inv) =
      loop_ends (segment_turn (length raw)) (err no_fuel) (λ s. length (s.0)) (λ s. Unit {0})
        (λ s s' inv e. turn-lt (length raw) s s' e) (suc (length raw)) (bytes_trim_space raw, [])
        (omega (arith, length-bytes_trim_space raw)) tt in
    rw answer (some_parts-HasFuel (length raw) r (turn-Turns (length raw) last at))

some_parts-ne :
    (size : ℕ) (r : Result DecodeError (List Bytes)) {parts : List Bytes}
    → (r >>= λ parts. some_parts size parts) ≡ ok parts
    → parts ≢ []
some_parts-ne size (err e) h empty = cc
some_parts-ne size (ok []) h empty = cc
some_parts-ne size (ok (p ∷ ps)) h empty = cc

-- `parseDottedKey` comes to an end on every input, within one turn for each byte and one more, and a path
-- that it answers with has a segment.
pub parse_dotted_key-ends :
    (raw : Bytes)
    → (parse_dotted_key raw ≢ err no_fuel)
      × ((parts : List Bytes) → parse_dotted_key raw ≡ ok parts → parts ≢ [])
unfolding parse_dotted_key
parse_dotted_key-ends raw = (
  λ e. let h = parse_dotted_key-HasFuel raw in let bad : true ≡ false = rw e at h in cc bad,
  λ parts e.
      some_parts-ne (length raw)
        (loop (segment_turn (length raw)) (err no_fuel) (suc (length raw))
          (bytes_trim_space raw, []))
        e,
)
