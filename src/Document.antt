-- ===== src/Document.antt =====
-- document.go: documents that are edited in place.
mod Format
pub mod Splice
pub mod LineSpan
pub mod Ordered
pub mod Edited
pub mod Lines
pub mod Whole
pub mod Paths
pub mod Literal
pub mod Reached
mod Examples
use go_toml.Prelude.{
  ℕ, zero, suc, ◌+◌, ◌-◌, ◌⊎◌, Result, ok, err, ◌>>=◌, Option, none, some, Bool, true, false, not,
  ◌&&◌, ◌||◌, List, [], ◌∷◌, ◌++◌, Bytes, length, drop, slice, get_or, ltb, ◌==◌, if◌then◌else◌,
}
use go_toml.Prelude.Maps.{Map, lookup, store, remove, has}
use go_toml.Decoder.State.{DecodeError}
use go_toml.Values.Keys.{parse_dotted_key}
use go_toml.Marshal.Quote.{MarshalError, write_keys}
unfoldable pub use Format.*

-- `documentValueKind`
pub data ValueKind : Type 0 where
  kind_invalid kind_string kind_integer kind_float kind_bool kind_datetime : ValueKind
  kind_array kind_inline_table : ValueKind

-- `value` is `none` while `valueSet` is false.
pub record Entry (V : Type 0) : Type 0 where
  pub path_key : Bytes
  pub value : Option V
  pub value_raw : Bytes
  pub value_start : ℕ
  pub value_end : ℕ
  pub line_start : ℕ
  pub line_end : ℕ
  pub kind : ValueKind

pub record Insertion : Type 0 where
  pub after_path : Bytes
  pub path_key : Bytes
  pub path : List Bytes

pub record Document (V : Type 0) : Type 0 where
  pub raw : Bytes
  pub entries : List (Entry V)
  pub by_path : Map ℕ
  pub replacements : Map Bytes
  pub deletions : Map (Unit {0})
  pub insertions : List Insertion
  pub pending : Map V

-- The Go values that a document is given, `any`: how one is printed (`writeValue`), its kind
-- (`documentKindForGoValue`), the string that it is, and the reading of one (`parseRawDocumentValue`).
pub record Host (V : Type 0) : Type 0 where
  pub write_value : V → Result MarshalError Bytes
  pub kind_for_go_value : V → ValueKind
  pub as_string : V → Option Bytes
  pub parse_raw : Bytes → Option V

pub data DocumentError : Type 0 where
  bad_path : DecodeError → DocumentError
  not_printed : MarshalError → DocumentError
  anchor_not_found anchor_deleted path_not_found : DocumentError

-- `strings.Join(parts, "\x00")`
unfoldable pub join_document_path : List Bytes → Bytes
join_document_path [] = []
join_document_path (p ∷ []) = p
join_document_path (p ∷ q ∷ parts) = p ++ 0 ∷ join_document_path (q ∷ parts)

abbrev pub parsed_path : Result DecodeError (List Bytes) → Result DocumentError (List Bytes)
parsed_path (ok parts) = ok parts
parsed_path (err e) = err (bad_path e)

unfoldable pub parse_document_path : Bytes → Result DocumentError (List Bytes)
unfolding parse_dotted_key
parse_document_path path = parsed_path (parse_dotted_key path)

abbrev pub printed : Result MarshalError Bytes → Result DocumentError Bytes
printed (ok text) = ok text
printed (err e) = err (not_printed e)

abbrev pub is_kind : ValueKind → ValueKind → Bool
is_kind kind_string kind_string = true
is_kind _ _ = false

module _ {V : Type 0} where
  unfoldable pub entry_at : List (Entry V) → ℕ → Option (Entry V)
  entry_at [] idx = none
  entry_at (e ∷ entries) zero = some e
  entry_at (e ∷ entries) (suc idx) = entry_at entries idx

  -- `entry.value = value; entry.valueSet = true`, through the pointer that `entryForPathKey` gives.
  unfoldable pub set_entry_value : List (Entry V) → ℕ → V → List (Entry V)
  set_entry_value [] idx v = []
  set_entry_value (e ∷ entries) zero v = record e { value = some v } ∷ entries
  set_entry_value (e ∷ entries) (suc idx) v = e ∷ set_entry_value entries idx v

  -- The entry and its index.
  abbrev pub entry_of : List (Entry V) → Option ℕ → Option (ℕ × Entry V)
  entry_of entries none = none
  entry_of entries (some idx) = elim (entry_at entries idx) [ none ↦ none | some e ↦ some (idx, e) ]

  unfoldable pub entry_for_path_key : Document V → Bytes → Option (ℕ × Entry V)
  unfolding entry_at lookup
  entry_for_path_key d path_key = entry_of d.entries (lookup d.by_path path_key)

  -- `Delete` where the path has an entry, or is pending.
  unfoldable pub delete_key : Document V → Bytes → Bool → Bool → Result DocumentError (Document V)
  unfolding remove
  delete_key d path_key true is_pending = ok (record d {
    deletions = store d.deletions path_key tt;
    replacements = remove d.replacements path_key;
  })
  delete_key d path_key false true = ok (record d { pending = remove d.pending path_key })
  delete_key d path_key false false = err path_not_found

  unfoldable pub delete_path : Document V → Bytes → Result DocumentError (Document V)
  unfolding parse_document_path join_document_path lookup delete_key
  delete_path d path = parse_document_path path >>= λ parts.
      let path_key : Bytes = join_document_path parts in
      delete_key d path_key (has (lookup d.by_path path_key)) (has (lookup d.pending path_key))

  unfoldable pub insert_after : Document V → Bytes → Bytes → V → Result DocumentError (Document V)
  unfolding parse_document_path join_document_path lookup
  insert_after d after_path path v = parse_document_path after_path >>= λ after_parts.
      let after_key : Bytes = join_document_path after_parts in
      if not (has (lookup d.by_path after_key))
      then err anchor_not_found
      else if has (lookup d.deletions after_key)
      then err anchor_deleted
      else parse_document_path path >>= λ parts.
          let path_key : Bytes = join_document_path parts in
          ok (record d {
            pending = store d.pending path_key v;
            insertions =
                d.insertions
                ++ record { after_path = after_key; path_key = path_key; path = parts } ∷ [];
          })

module _ {V : Type 0} (host : Host V) where
  -- What `formatDocumentValue` gives.
  abbrev pub format_document_value : V → Result MarshalError Bytes
  format_document_value v = host.write_value v

  abbrev pub like_entry : Entry V → V → Result MarshalError Bytes
  like_entry e v = elim (host.as_string v) [
    | none ↦ format_document_value v
    | some s ↦ format_string_like e.value_raw s
  ]

  unfoldable pub format_value_for_path : Document V → Bytes → V → Result MarshalError Bytes
  unfolding entry_for_path_key format_string_like
  format_value_for_path d path_key v = elim (entry_for_path_key d path_key) [
    | none ↦ format_document_value v
    | some (idx, e) ↦
        if is_kind e.kind kind_string && is_kind (host.kind_for_go_value v) kind_string
        then like_entry e v
        else format_document_value v
  ]

  unfoldable pub format_document_key_value : List Bytes → V → Result MarshalError Bytes
  unfolding write_keys
  format_document_key_value path v = format_document_value v >>= λ text.
      write_keys [] path >>= λ b. ok ((b ++ b' ' ∷ b'=' ∷ b' ' ∷ text) ++ b'\n' ∷ [])

  -- The document behind the value that was asked for, whose entry keeps what it has read.
  abbrev pub get_entry : Document V → ℕ → Entry V → Option V × Document V
  get_entry d idx e = if has (lookup d.deletions e.path_key) then (none, d) else elim e.value [
    | some v ↦ (some v, d)
    | none ↦ elim (host.parse_raw e.value_raw) [
      | none ↦ (none, d)
      | some v ↦ (some v, record d { entries = set_entry_value d.entries idx v })
    ]
  ]

  unfoldable pub get_path : Document V → Bytes → Option V × Document V
  unfolding parse_document_path join_document_path entry_for_path_key lookup set_entry_value
  get_path d path = elim (parse_document_path path) [
    | err e ↦ (none, d)
    | ok parts ↦ elim (entry_for_path_key d (join_document_path parts)) [
      | none ↦ (lookup d.pending (join_document_path parts), d)
      | some (idx, e) ↦ get_entry d idx e
    ]
  ]

  -- `Set` where `path_key` is the key of the entry, or of none.
  abbrev pub put : Document V → List Bytes → Bytes → Bytes → V → Option (ℕ × Entry V) → Document V
  put d parts path_key repl v (some (idx, e)) = record d {
    entries = set_entry_value d.entries idx v;
    replacements = store d.replacements path_key repl;
    deletions = remove d.deletions path_key;
    pending = remove d.pending path_key;
  }
  put d parts path_key repl v none = record d {
    pending = store d.pending path_key v;
    insertions = d.insertions ++ record { after_path = []; path_key = path_key; path = parts } ∷ [];
  }

  unfoldable pub set_path : Document V → Bytes → V → Result DocumentError (Document V)
  unfolding parse_document_path join_document_path format_value_for_path entry_for_path_key
      set_entry_value remove
  set_path d path v = parse_document_path path >>= λ parts.
      let path_key : Bytes = join_document_path parts in
      printed (format_value_for_path d path_key v) >>= λ repl.
      ok (put d parts path_key repl v (entry_for_path_key d path_key))
