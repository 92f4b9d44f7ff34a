-- ===== src/Marshal/Quote/Headers.antt =====
-- marshal.go, value.go: about `parseDottedKey` and `parseHeaderKey` on the keys and headers that are
-- written.
use go_toml.Prelude.{
  ℕ, suc, ◌+◌, ◌-◌, ◌≤◌, ◌≡◌, ◌≢◌, refl, sym, ap, ◌∙◌, arith, inl, inr, ok, >>=-eq-ok, Bool, true,
  false, not, ◌&&◌, List, [], ◌∷◌, ◌++◌, Bytes, length, take, slice, leb, append_assoc, All,
  length-append,
}
use go_toml.Scan.{first_stop}
use go_toml.Scan.Word.Bytewise.{AreBytes}
use go_toml.Decoder.Keys.{key_byte, all_key_bytes, is_simple_bare_key}
use go_toml.Values.Keys.{
  is_space, spaceless_length, bytes_trim_space, parse_dotted_key, key_path, trim_header_key,
  parse_header_key, some_parts,
}
use go_toml.Marshal.Quote.{format_key, write_keys_from, write_keys, write_header}
use go_toml.Marshal.Quote.RoundTrip.{take-append}
use go_toml.Marshal.Quote.Paths.{
  KeyText, format_key-KeyText, PathText, PathText-Starts, Starts, loop-PathText, key_byte-marks,
  suc_ne_zero,
}

spaceless_length-append :
    (xs : Bytes) (d : ℕ) (ss : Bytes)
    → is_space d ≡ false
    → spaceless_length ss ≡ 0
    → spaceless_length (xs ++ d ∷ ss) ≡ suc (length xs)
unfolding spaceless_length
spaceless_length-append [] d ss solid spaces = rw (spaces, solid) refl
spaceless_length-append (x ∷ xs) d ss solid spaces =
    let rest = spaceless_length-append xs d ss solid spaces in
    rw (rest, suc_ne_zero (length xs)) refl

take-append_suc :
    (xs : Bytes) (d : ℕ) (ss : Bytes) → take (suc (length xs)) (xs ++ d ∷ ss) ≡ xs ++ d ∷ []
take-append_suc [] d ss = refl
take-append_suc (x ∷ xs) d ss = ap (λ t. x ∷ t) (take-append_suc xs d ss)

-- Spaces behind a text that neither begins nor ends with one are cut off.
bytes_trim_space-solid :
    (raw u : Bytes) (d : ℕ) (ss : Bytes)
    → Starts raw
    → raw ≡ u ++ d ∷ ss
    → is_space d ≡ false
    → spaceless_length ss ≡ 0
    → bytes_trim_space raw ≡ u ++ d ∷ []
unfolding bytes_trim_space first_stop
bytes_trim_space-solid raw u d ss (c, raw', e, space, blank) cut solid spaces =
    let front : first_stop (λ c. not (is_space c)) raw ≡ 0 = rw (e, space) refl in
    let size : spaceless_length raw ≡ suc (length u) =
      ap spaceless_length cut ∙ spaceless_length-append u d ss solid spaces in
    rw (front, size) (ap (take (suc (length u))) cut ∙ take-append_suc u d ss)

-- The text ends with a byte that is no space.
abbrev Stops : Bytes → Type 0
Stops t = (u : Bytes) × (d : ℕ) × (t ≡ u ++ d ∷ []) × (is_space d ≡ false)

bare-Stops : (c : ℕ) (k : Bytes) → all_key_bytes (c ∷ k) ≡ true → Stops (c ∷ k)
unfolding all_key_bytes
bare-Stops c [] h =
    let (other, space, blank, mark) = key_byte-marks c (ground (arith, h)) in ([], c, refl, space)
bare-Stops c (c' ∷ k) h =
    let (u, d, e, solid) = bare-Stops c' k (rest_true (key_byte c) (all_key_bytes (c' ∷ k)) h) in
    (c ∷ u, d, ap (λ t. c ∷ t) e, solid)
  where
    rest_true : (a b : Bool) → (a && b) ≡ true → b ≡ true
    rest_true a b h = ground (arith, h)

KeyText-Stops : (t k : Bytes) → KeyText t k → Stops t
unfolding KeyText is_simple_bare_key
KeyText-Stops t [] (inl (e, bare)) = absurd (cc bare)
KeyText-Stops t (c ∷ k) (inl (e, bare)) =
    let (u, d, same, solid) = bare-Stops c k bare in (u, d, e ∙ same, solid)
KeyText-Stops t k (inr (tail, e, x)) = (b'"' ∷ tail, b'"', e, refl)

PathText-Stops : (t : Bytes) (path : List Bytes) → PathText t path → Stops t
unfolding PathText
PathText-Stops t [] h = absurd h
PathText-Stops t (k ∷ []) h = KeyText-Stops t k h
PathText-Stops t (k ∷ k' ∷ path) (first, others, e, x, h) =
    let (u, d, same, solid) = PathText-Stops others (k' ∷ path) h in
    (
      first ++ b'.' ∷ u,
      d,
      e ∙ ap (λ v. first ++ b'.' ∷ v) same ∙ sym (append_assoc first (b'.' ∷ u) (d ∷ [])),
      solid,
    )

bytes_trim_space-PathText :
    (t : Bytes) (path : List Bytes) → PathText t path → bytes_trim_space t ≡ t
bytes_trim_space-PathText t path h =
    let (u, d, e, solid) = PathText-Stops t path h in
    bytes_trim_space-solid t u d [] (PathText-Starts t path h) e solid
      (unfold spaceless_length in refl)
    ∙ sym e

some_parts-PathText :
    (size : ℕ) (t : Bytes) (path : List Bytes) → PathText t path → some_parts size path ≡ ok path
unfolding PathText
some_parts-PathText size t [] h = absurd h
some_parts-PathText size t (k ∷ []) h = refl
some_parts-PathText size t (k ∷ k' ∷ path) h = refl

parse_dotted_key-PathText :
    (t : Bytes) (path : List Bytes) → PathText t path → parse_dotted_key t ≡ ok path
unfolding parse_dotted_key
parse_dotted_key-PathText t path h =
    let trimmed = bytes_trim_space-PathText t path h in
    let run = loop-PathText (length t) (suc (length t)) t path [] h (omega arith) in
    rw (trimmed, run) (some_parts-PathText (length t) t path h)

-- What is written for the keys behind the first one.
write_keys_from-PathText :
    (b : Bytes) (p : Bytes) (path : List Bytes) (out : Bytes)
    → All AreBytes (p ∷ path)
    → write_keys_from b (p ∷ path) ≡ ok out
    → (t : Bytes) × (out ≡ b ++ b'.' ∷ t) × PathText t (p ∷ path)
unfolding write_keys_from PathText
write_keys_from-PathText b p [] out (bytes, others) e =
    let (k, made, done) = >>=-eq-ok (format_key p) (λ k. write_keys_from (b ++ b'.' ∷ k) []) e in
    (k, cc done, format_key-KeyText p k bytes made)
write_keys_from-PathText b p (p' ∷ path) out (bytes, others) e =
    let (k, made, done) =
      >>=-eq-ok (format_key p) (λ k. write_keys_from (b ++ b'.' ∷ k) (p' ∷ path)) e in
    let (t, same, h) = write_keys_from-PathText (b ++ b'.' ∷ k) p' path out others done in
    (
      k ++ b'.' ∷ t,
      same ∙ append_assoc b (b'.' ∷ k) (b'.' ∷ t),
      (k, t, refl, format_key-KeyText p k bytes made, h),
    )

write_keys-PathText :
    (b : Bytes) (path : List Bytes) (out : Bytes)
    → path ≢ []
    → All AreBytes path
    → write_keys b path ≡ ok out
    → (t : Bytes) × (out ≡ b ++ t) × PathText t path
unfolding write_keys PathText write_keys_from
write_keys-PathText b [] out nonempty bytes e = absurd (nonempty refl)
write_keys-PathText b (p ∷ []) out nonempty (bytes, others) e =
    let (k, made, done) = >>=-eq-ok (format_key p) (λ k. write_keys_from (b ++ k) []) e in
    (k, cc done, format_key-KeyText p k bytes made)
write_keys-PathText b (p ∷ p' ∷ path) out nonempty (bytes, others) e =
    let (k, made, done) = >>=-eq-ok (format_key p) (λ k. write_keys_from (b ++ k) (p' ∷ path)) e in
    let (t, same, h) = write_keys_from-PathText (b ++ k) p' path out others done in
    (
      k ++ b'.' ∷ t,
      same ∙ append_assoc b k (b'.' ∷ t),
      (k, t, refl, format_key-KeyText p k bytes made, h),
    )

-- `parseDottedKey` reads back every path that is written as a dotted key.
pub parse_dotted_key-write_keys :
    (path : List Bytes) (out : Bytes)
    → path ≢ []
    → All AreBytes path
    → write_keys [] path ≡ ok out
    → parse_dotted_key out ≡ ok path
parse_dotted_key-write_keys path out nonempty bytes e =
    let (t, same, h) = write_keys-PathText [] path out nonempty bytes e in
    rw same (parse_dotted_key-PathText t path h)

-- `keyPath` reads back every key that `formatKey` writes, as a path of that key alone.
pub key_path-format_key :
    (k out : Bytes) → AreBytes k → format_key k ≡ ok out → key_path out ≡ ok (k ∷ [])
unfolding key_path PathText KeyText
key_path-format_key k out bytes e =
    let x = format_key-KeyText k out bytes e in
    let read : parse_dotted_key out ≡ ok (k ∷ []) = parse_dotted_key-PathText out (k ∷ []) x in
    elim x [
      | inl (same, bare) ↦
          let bare' : is_simple_bare_key out ≡ true = rw same bare in
          rw (key_path, bare') (ap (λ t. ok (t ∷ [])) same)
      | inr (tail, same, y) ↦
          let odd : is_simple_bare_key out ≡ false =
            ap is_simple_bare_key same ∙ unfold is_simple_bare_key in refl in
          rw (key_path, odd) read
    ]

newline_only : spaceless_length (b'\n' ∷ []) ≡ 0
unfolding spaceless_length
newline_only = refl

trim_header_key-table :
    (t : Bytes) (path : List Bytes)
    → PathText t path
    → trim_header_key (b'[' ∷ (t ++ b']' ∷ b'\n' ∷ [])) false ≡ t
unfolding trim_header_key
trim_header_key-table t path h =
    let raw : Bytes = b'[' ∷ (t ++ b']' ∷ b'\n' ∷ []) in
    let inner : Bytes = b'[' ∷ (t ++ b']' ∷ []) in
    let trimmed : bytes_trim_space raw ≡ inner =
      bytes_trim_space-solid raw (b'[' ∷ t) b']' (b'\n' ∷ [])
        (b'[', t ++ b']' ∷ b'\n' ∷ [], refl, refl, refl) refl refl newline_only in
    let sizes : length inner ≡ length t + 2 = omega (arith, length-append t (b']' ∷ [])) in
    let long : leb 2 (length inner) ≡ true = at_least 2 (length inner) (omega (arith, sizes)) in
    let width : length inner - 1 - 1 ≡ length t = omega (arith, sizes) in
    let key : slice inner 1 (length inner - 1) ≡ t = rw width (take-append t (b']' ∷ [])) in
    rw (trimmed, long, key) (bytes_trim_space-PathText t path h)
  where
    at_least : (n m : ℕ) → n ≤ m → leb n m ≡ true
    at_least n m h = ground arith

trim_header_key-array :
    (t : Bytes) (path : List Bytes)
    → PathText t path
    → trim_header_key (b'[' ∷ b'[' ∷ (t ++ b']' ∷ b']' ∷ b'\n' ∷ [])) true ≡ t
unfolding trim_header_key
trim_header_key-array t path h =
    let raw : Bytes = b'[' ∷ b'[' ∷ (t ++ b']' ∷ b']' ∷ b'\n' ∷ []) in
    let inner : Bytes = b'[' ∷ b'[' ∷ (t ++ b']' ∷ b']' ∷ []) in
    let u : Bytes = b'[' ∷ b'[' ∷ (t ++ b']' ∷ []) in
    let cut : raw ≡ u ++ b']' ∷ b'\n' ∷ [] =
      ap (λ v. b'[' ∷ b'[' ∷ v) (sym (append_assoc t (b']' ∷ []) (b']' ∷ b'\n' ∷ []))) in
    let joined : u ++ b']' ∷ [] ≡ inner =
      ap (λ v. b'[' ∷ b'[' ∷ v) (append_assoc t (b']' ∷ []) (b']' ∷ [])) in
    let trimmed : bytes_trim_space raw ≡ inner =
      bytes_trim_space-solid raw u b']' (b'\n' ∷ [])
        (b'[', b'[' ∷ (t ++ b']' ∷ b']' ∷ b'\n' ∷ []), refl, refl, refl) cut refl newline_only
      ∙ joined in
    let sizes : length inner ≡ length t + 4 = omega (arith, length-append t (b']' ∷ b']' ∷ [])) in
    let long : leb 4 (length inner) ≡ true = at_least 4 (length inner) (omega (arith, sizes)) in
    let width : length inner - 2 - 2 ≡ length t = omega (arith, sizes) in
    let key : slice inner 2 (length inner - 2) ≡ t = rw width (take-append t (b']' ∷ b']' ∷ [])) in
    rw (trimmed, long, key) (bytes_trim_space-PathText t path h)
  where
    at_least : (n m : ℕ) → n ≤ m → leb n m ≡ true
    at_least n m h = ground arith

-- `parseHeaderKey` reads back the path of every header that `writeHeader` writes, of a table and of an
-- array of tables.
pub parse_header_key-write_header :
    (path : List Bytes) (array : Bool) (out : Bytes)
    → path ≢ []
    → All AreBytes path
    → write_header path array ≡ ok out
    → parse_header_key out array ≡ ok path
unfolding parse_header_key write_header
parse_header_key-write_header path false out nonempty bytes e =
    let (b, made, done) =
      >>=-eq-ok (write_keys (b'[' ∷ []) path) (λ b. ok (b ++ b']' ∷ b'\n' ∷ [])) e in
    let (t, same, h) = write_keys-PathText (b'[' ∷ []) path b nonempty bytes made in
    let whole : out ≡ b'[' ∷ (t ++ b']' ∷ b'\n' ∷ []) =
      let out' : out ≡ b ++ b']' ∷ b'\n' ∷ [] = cc done in
      out' ∙ ap (λ v. v ++ b']' ∷ b'\n' ∷ []) same in
    ap (λ v. parse_dotted_key (trim_header_key v false)) whole
    ∙ ap parse_dotted_key (trim_header_key-table t path h)
    ∙ parse_dotted_key-PathText t path h
parse_header_key-write_header path true out nonempty bytes e =
    let (b, made, done) =
      >>=-eq-ok (write_keys (b'[' ∷ b'[' ∷ []) path) (λ b. ok (b ++ b']' ∷ b']' ∷ b'\n' ∷ [])) e in
    let (t, same, h) = write_keys-PathText (b'[' ∷ b'[' ∷ []) path b nonempty bytes made in
    let whole : out ≡ b'[' ∷ b'[' ∷ (t ++ b']' ∷ b']' ∷ b'\n' ∷ []) =
      let out' : out ≡ b ++ b']' ∷ b']' ∷ b'\n' ∷ [] = cc done in
      out' ∙ ap (λ v. v ++ b']' ∷ b']' ∷ b'\n' ∷ []) same in
    ap (λ v. parse_dotted_key (trim_header_key v true)) whole
    ∙ ap parse_dotted_key (trim_header_key-array t path h)
    ∙ parse_dotted_key-PathText t path h
