-- ===== src/Marshal/Quote/Paths.antt =====
-- marshal.go, value.go: about `parseDottedKey` and `parseHeaderKey` on the keys and headers that are
-- written.
use go_toml.Prelude.{
  ℕ, zero, suc, ◌+◌, ◌<◌, ◌≡◌, ◌⊎◌, refl, sym, ap, ◌∙◌, arith, inl, inr, ok, err, Bool, true, false,
  ◌&&◌, ◌||◌, List, [], ◌∷◌, ◌++◌, Bytes, length, take, drop, leb, ◌==◌, Bool-cases, append-nil,
  append_assoc, length-append, drop-append,
}
use go_toml.Prelude.Loop.{loop, loop-suc-inl, loop-suc-inr}
use go_toml.Scan.{first_stop}
use go_toml.Scan.Word.Bytewise.{AreBytes}
use go_toml.Decoder.State.{no_fuel}
use go_toml.Decoder.Keys.{key_byte, all_key_bytes, is_simple_bare_key, not_blank}
use go_toml.Values.Keys.{
  is_space, trim_left, quote_end, quoted_segment, segment_end, bare_segment, segment,
  behind_segment, segment_turn,
}
use go_toml.Marshal.Quote.{append_basic_string, format_key}
use go_toml.Marshal.Quote.Bodies.{Encodes, Encodes-nil}
use go_toml.Marshal.Quote.Reads.{append_basic_string-Encodes}
use go_toml.Marshal.Quote.RoundTrip.{quoted, parse_string_value-Encodes, take-append}

-- The text of a key: the key itself, or a body for it between quotes.
unfoldable pub KeyText : Bytes → Bytes → Type 0
KeyText t k =
    ((t ≡ k) × (is_simple_bare_key k ≡ true))
    ⊎ ((tail : Bytes) × (t ≡ quoted tail) × Encodes tail k)

pub suc_ne_zero : (n : ℕ) → (suc n == 0) ≡ false
suc_ne_zero n = ground arith

pub format_key-KeyText : (k t : Bytes) → AreBytes k → format_key k ≡ ok t → KeyText t k
unfolding format_key KeyText is_simple_bare_key
format_key-KeyText [] t bytes e = inr ([], cc e, Encodes-nil)
format_key-KeyText (c ∷ k) t bytes e =
    let nonempty : (length (c ∷ k) == 0) ≡ false = suc_ne_zero (length k) in
    elim (Bool-cases (all_key_bytes (c ∷ k))) [
      | inl bare ↦
          let out : format_key (c ∷ k) ≡ ok (c ∷ k) = rw (format_key, nonempty, bare) refl in
          inl (cc (sym out ∙ e), bare)
      | inr odd ↦
          let out : format_key (c ∷ k) ≡ append_basic_string [] (c ∷ k) =
            rw (format_key, nonempty, odd) refl in
          inr (append_basic_string-Encodes [] (c ∷ k) t bytes (sym out ∙ e))
    ]

-- What follows the text of a key in a path.
abbrev Behind : Bytes → Type 0
Behind rest = (rest ≡ []) ⊎ ((more : Bytes) × (rest ≡ b'.' ∷ more))

quote_end-quote : (rest : Bytes) → quote_end b'"' (b'"' ∷ rest) ≡ 0
unfolding quote_end
quote_end-quote [] = refl
quote_end-quote (c ∷ rest) = refl

quoted_segment-Encodes :
    (size : ℕ) (tail k rest : Bytes)
    → Encodes tail k
    → quoted_segment size (quoted tail ++ rest) ≡ ok (k, rest)
unfolding quoted_segment
quoted_segment-Encodes size tail k rest x =
    let raw : Bytes = quoted tail ++ rest in
    let body : drop 1 raw ≡ tail ++ b'"' ∷ rest = append_assoc tail (b'"' ∷ []) rest in
    let at : quote_end b'"' (drop 1 raw) ≡ length tail =
      ap (quote_end b'"') body
      ∙ x.passes (b'"' ∷ rest)
      ∙ (let e : length tail + quote_end b'"' (b'"' ∷ rest) ≡ length tail =
            omega (arith, quote_end-quote rest) in
          e) in
    let sizes : length (quoted tail) ≡ 1 + length tail + 1 =
      omega (arith, length-append tail (b'"' ∷ [])) in
    let inside : leb (length raw) (1 + length tail) ≡ false =
      longer (length raw) (1 + length tail)
        (omega (arith, sizes, length-append (quoted tail) rest)) in
    let front : take (1 + length tail + 1) raw ≡ quoted tail =
      ap (λ (n : ℕ). take n raw) (sym sizes) ∙ take-append (quoted tail) rest in
    let behind : drop (1 + length tail + 1) raw ≡ rest =
      drop-append (quoted tail) rest (1 + length tail + 1) sizes in
    rw (at, inside, front, behind, parse_string_value-Encodes tail k x) refl
  where
    longer : (n m : ℕ) → m < n → leb n m ≡ false
    longer n m h = ground arith

pub key_byte-marks :
    (c : ℕ)
    → key_byte c ≡ true
    → (segment_end c ≡ false)
      × (is_space c ≡ false)
      × (not_blank c ≡ true)
      × ((c == b'\'' || c == b'"') ≡ false)
key_byte-marks c h = ground arith

-- A run of key bytes is not interrupted.
first_stop-keys :
    (k rest : Bytes)
    → all_key_bytes k ≡ true
    → Behind rest
    → first_stop segment_end (k ++ rest) ≡ length k
unfolding first_stop all_key_bytes
first_stop-keys [] rest h (inl e) = rw e refl
first_stop-keys [] rest h (inr (more, e)) = rw e refl
first_stop-keys (c ∷ k) rest h behind =
    let (head, others) = both_true (key_byte c) (all_key_bytes k) h in
    let (other, _, _, _) = key_byte-marks c head in
    rw other (ap suc (first_stop-keys k rest others behind))
  where
    both_true : (a b : Bool) → (a && b) ≡ true → (a ≡ true) × (b ≡ true)
    both_true a b h = ground (arith, h)

pub bare_head : (c : ℕ) (k : Bytes) → is_simple_bare_key (c ∷ k) ≡ true → key_byte c ≡ true
unfolding is_simple_bare_key all_key_bytes
bare_head c k h = first_true (key_byte c) (all_key_bytes k) h
  where
    first_true : (a b : Bool) → (a && b) ≡ true → a ≡ true
    first_true a b h = ground (arith, h)

bare_segment-bare :
    (size c : ℕ) (k rest : Bytes)
    → is_simple_bare_key (c ∷ k) ≡ true
    → Behind rest
    → bare_segment size ((c ∷ k) ++ rest) ≡ ok (c ∷ k, rest)
unfolding bare_segment
bare_segment-bare size c k rest bare behind =
    let end : first_stop segment_end ((c ∷ k) ++ rest) ≡ suc (length k) =
      first_stop-keys (c ∷ k) rest (unfold is_simple_bare_key in bare) behind in
    let part : take (length k) (k ++ rest) ≡ k = take-append k rest in
    let after : drop (length k) (k ++ rest) ≡ rest = drop-append k rest (length k) refl in
    rw (end, part, after, suc_ne_zero (length k), bare) refl

-- The text of a key begins with a byte that is no space.
abbrev pub Starts : Bytes → Type 0
Starts t = (c : ℕ) × (t' : Bytes) × (t ≡ c ∷ t') × (is_space c ≡ false) × (not_blank c ≡ true)

KeyText-Starts : (t k : Bytes) → KeyText t k → Starts t
unfolding KeyText
KeyText-Starts t [] (inl (e, bare)) = absurd (unfold is_simple_bare_key in (cc bare))
KeyText-Starts t (c ∷ k) (inl (e, bare)) =
    let (other, space, blank, mark) = key_byte-marks c (bare_head c k bare) in
    (c, k, e, space, blank)
KeyText-Starts t k (inr (tail, e, x)) = (b'"', tail ++ b'"' ∷ [], e, refl, refl)

segment-KeyText :
    (size : ℕ) (t k rest : Bytes)
    → KeyText t k
    → Behind rest
    → segment size (t ++ rest) ≡ ok (k, rest)
unfolding KeyText segment
segment-KeyText size t [] rest (inl (e, bare)) behind =
    absurd (unfold is_simple_bare_key in (cc bare))
segment-KeyText size t (c ∷ k) rest (inl (e, bare)) behind =
    let (other, space, blank, mark) = key_byte-marks c (bare_head c k bare) in
    rw (e, mark) (bare_segment-bare size c k rest bare behind)
segment-KeyText size t k rest (inr (tail, e, x)) behind =
    rw e (quoted_segment-Encodes size tail k rest x)

trim_left-Starts : (t rest : Bytes) → Starts t → trim_left (t ++ rest) ≡ t ++ rest
unfolding trim_left first_stop
trim_left-Starts t rest (c, t', e, space, blank) = rw (e, blank) refl

-- The text of a path: the texts of its keys, with a dot between two.
unfoldable pub PathText : Bytes → List Bytes → Type 0
PathText t [] = ⊥
PathText t (k ∷ []) = KeyText t k
PathText t (k ∷ k' ∷ path) =
    (first : Bytes) × (others : Bytes) × (t ≡ first ++ b'.' ∷ others)
    × KeyText first k
    × PathText others (k' ∷ path)

pub PathText-Starts : (t : Bytes) (path : List Bytes) → PathText t path → Starts t
unfolding PathText
PathText-Starts t [] h = absurd h
PathText-Starts t (k ∷ []) h = KeyText-Starts t k h
PathText-Starts t (k ∷ k' ∷ path) (first, others, e, x, h) =
    let (c, t', same, space, blank) = KeyText-Starts first k x in
    (c, t' ++ b'.' ∷ others, e ∙ ap (λ u. u ++ b'.' ∷ others) same, space, blank)

Starts-length : (t : Bytes) → Starts t → (length t == 0) ≡ false
Starts-length t (c, t', e, space, blank) = rw e (suc_ne_zero (length t'))

module _ (size : ℕ) where
  segment-step :
      (t k rest : Bytes) (parts : List Bytes)
      → KeyText t k
      → Behind rest
      → segment_turn size (t ++ rest, parts) ≡ behind_segment size rest (parts ++ k ∷ [])
  unfolding segment_turn
  segment-step t k rest parts x behind =
      let starts = KeyText-Starts t k x in
      let front = trim_left-Starts t rest starts in
      let some_bytes : (length (t ++ rest) == 0) ≡ false =
        Starts-length (t ++ rest) (longer starts) in
      rw (front, some_bytes, segment-KeyText size t k rest x behind) refl
    where
      longer : Starts t → Starts (t ++ rest)
      longer (c, t', e, space, blank) = (c, t' ++ rest, ap (λ u. u ++ rest) e, space, blank)

  dot-step :
      (others : Bytes) (parts : List Bytes)
      → Starts others
      → behind_segment size (b'.' ∷ others) parts ≡ inr (others, parts)
  unfolding behind_segment trim_left first_stop
  dot-step others parts starts =
      let front : trim_left others ≡ others =
        ap trim_left (sym (append-nil others))
        ∙ trim_left-Starts others [] starts
        ∙ append-nil others in
      let some_bytes : (length (trim_left others) == 0) ≡ false =
        ap (λ u. length u == 0) front ∙ Starts-length others starts in
      rw (suc_ne_zero (length others), some_bytes) refl

  -- The loop reads the keys of a path.
  pub loop-PathText :
      (fuel : ℕ) (t : Bytes) (path parts : List Bytes)
      → PathText t path
      → length t < fuel
      → loop (segment_turn size) (err no_fuel) fuel (t, parts) ≡ ok (parts ++ path)
  unfolding PathText
  loop-PathText zero t path parts h lt = absurd (omega (arith, lt))
  loop-PathText (suc fuel) t [] parts h lt = absurd h
  loop-PathText (suc fuel) t (k ∷ []) parts h lt =
      let turn : segment_turn size (t, parts) ≡ inl (ok (parts ++ k ∷ [])) =
        ap (λ u. segment_turn size (u, parts)) (sym (append-nil t))
        ∙ segment-step t k [] parts h (inl refl)
        ∙ unfold behind_segment trim_left first_stop in refl in
      loop-suc-inl (segment_turn size) (err no_fuel) fuel (t, parts) turn
  loop-PathText (suc fuel) t (k ∷ k' ∷ path) parts (first, others, e, x, h) lt =
      let turn : segment_turn size (t, parts) ≡ inr (others, parts ++ k ∷ []) =
        ap (λ u. segment_turn size (u, parts)) e
        ∙ segment-step first k (b'.' ∷ others) parts x (inr (others, refl))
        ∙ dot-step others (parts ++ k ∷ []) (PathText-Starts others (k' ∷ path) h) in
      let sizes : length t ≡ length first + suc (length others) =
        ap length e ∙ length-append first (b'.' ∷ others) in
      loop-suc-inr (segment_turn size) (err no_fuel) fuel (t, parts) turn
      ∙ loop-PathText fuel others (k' ∷ path) (parts ++ k ∷ []) h (omega (arith, sizes, lt))
      ∙ ap ok (append_assoc parts (k ∷ []) (k' ∷ path))
