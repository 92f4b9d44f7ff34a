-- ===== src/Document/Paths.antt =====
-- document.go: about what `Get` gives behind `Set` and `Delete`.
use go_toml.Prelude.{
  ℕ, zero, suc, ◌≡◌, refl, sym, ap, ◌∙◌, ok, Option, none, some, Bool, true, false, List, [], ◌∷◌,
  Bytes, >>=-eq-ok, Option-cases, inl, inr,
}
use go_toml.Prelude.Maps.{lookup, store, remove, has, lookup-store, lookup-remove}
use go_toml.Document.{
  Entry, Document, Host, parse_document_path, join_document_path, printed, entry_at,
  set_entry_value, entry_of, entry_for_path_key, format_value_for_path, get_entry, get_path, put,
  set_path, delete_key, delete_path,
}

module _ {V : Type 0} where
  entry_at-set_entry_value :
      (entries : List (Entry V)) (idx : ℕ) (v : V) (e : Entry V)
      → entry_at entries idx ≡ some e
      → entry_at (set_entry_value entries idx v) idx ≡ some (record e { value = some v })
  unfolding entry_at set_entry_value
  entry_at-set_entry_value [] idx v e h = absurd (cc h)
  entry_at-set_entry_value (f ∷ entries) zero v e h =
      let same : f ≡ e = cc h in ap (λ (g : Entry V). some (record g { value = some v })) same
  entry_at-set_entry_value (f ∷ entries) (suc idx) v e h =
      entry_at-set_entry_value entries idx v e h

  -- `byPath` leads each path that it has to the entry of that path.
  unfoldable pub Indexed : Document V → Type 0
  Indexed d =
      (key : Bytes) (idx : ℕ)
      → lookup d.by_path key ≡ some idx
      → (e : Entry V) × (entry_at d.entries idx ≡ some e) × (e.path_key ≡ key)

  entry_for_path_key-none :
      (d : Document V) (key : Bytes) → lookup d.by_path key ≡ none → entry_for_path_key d key ≡ none
  unfolding entry_for_path_key
  entry_for_path_key-none d key h = rw (entry_for_path_key, h) refl

  entry_for_path_key-some :
      (d : Document V) (key : Bytes) (idx : ℕ) (e : Entry V)
      → lookup d.by_path key ≡ some idx
      → entry_at d.entries idx ≡ some e
      → entry_for_path_key d key ≡ some (idx, e)
  unfolding entry_for_path_key
  entry_for_path_key-some d key idx e h at = rw (entry_for_path_key, h, entry_of, at) refl

module _ {V : Type 0} (host : Host V) (path : Bytes) (parts : List Bytes)
    (read : parse_document_path path ≡ ok parts) where
  key : Bytes
  key = join_document_path parts

  get_path-pending :
      (d : Document V)
      → entry_for_path_key d key ≡ none
      → (get_path host d path).0 ≡ lookup d.pending key
  unfolding get_path key
  get_path-pending d h = rw (get_path, read, h) refl

  get_path-entry :
      (d : Document V) (idx : ℕ) (e : Entry V)
      → entry_for_path_key d key ≡ some (idx, e)
      → get_path host d path ≡ get_entry host d idx e
  unfolding get_path key
  get_path-entry d idx e h = rw (get_path, read, h) refl

  -- Behind `Set`, whether the path is that of an entry or not.
  get_path-put :
      (d : Document V) (repl : Bytes) (v : V)
      → Indexed d
      → (get_path host (put host d parts key repl v (entry_for_path_key d key)) path).0 ≡ some v
  unfolding Indexed entry_for_path_key
  get_path-put d repl v indexed = elim (Option-cases (lookup d.by_path key)) [
    | inl free ↦
        let none_there : entry_for_path_key d key ≡ none = entry_for_path_key-none d key free in
        let d' : Document V = put host d parts key repl v none in
        rw none_there (get_path-pending d' none_there ∙ lookup-store d.pending key v)
    | inr (idx, taken) ↦
        let (e, at, same) = indexed key idx taken in
        let there : entry_for_path_key d key ≡ some (idx, e) =
          entry_for_path_key-some d key idx e taken at in
        let d' : Document V = put host d parts key repl v (some (idx, e)) in
        let found : entry_for_path_key d' key ≡ some (idx, record e { value = some v }) =
          entry_for_path_key-some d' key idx (record e { value = some v }) taken
            (entry_at-set_entry_value d.entries idx v e at) in
        rw there (
          ap (λ p. p.0) (get_path-entry d' idx (record e { value = some v }) found)
          ∙ kept d' idx e v same (lookup-remove d.deletions key))
  ]
    where
      kept :
          (d' : Document V) (idx : ℕ) (e : Entry V) (v : V)
          → e.path_key ≡ key
          → lookup d'.deletions key ≡ none
          → (get_entry host d' idx (record e { value = some v })).0 ≡ some v
      kept d' idx e v same gone = rw (same, gone) refl

  -- Behind `Delete`.
  get_path-deleted :
      (d : Document V)
      → Indexed d
      → (idx : ℕ) → lookup d.by_path key ≡ some idx
      → (d' : Document V) → d'.entries ≡ d.entries
      → d'.by_path ≡ d.by_path
      → lookup d'.deletions key ≡ some tt
      → (get_path host d' path).0 ≡ none
  unfolding Indexed
  get_path-deleted d indexed idx taken d' entries by_path gone =
      let (e, at, same) = indexed key idx taken in
      let found : entry_for_path_key d' key ≡ some (idx, e) =
        entry_for_path_key-some d' key idx e (rw by_path taken) (rw entries at) in
      ap (λ p. p.0) (get_path-entry d' idx e found) ∙ rw (same, gone) refl

  get_path-delete_key :
      (d d' : Document V)
      → Indexed d
      → (is_pending : Bool) (found : Option ℕ) → lookup d.by_path key ≡ found
      → delete_key d key (has found) is_pending ≡ ok d'
      → (get_path host d' path).0 ≡ none
  unfolding delete_key
  get_path-delete_key d d' indexed is_pending (some idx) h e =
      let same : record d {
        deletions = store d.deletions key tt;
        replacements = remove d.replacements key;
      }
          ≡ d' =
        cc e in
      rw (sym same) (
        get_path-deleted d indexed idx h
          (record d {
            deletions = store d.deletions key tt;
            replacements = remove d.replacements key;
          })
          refl refl (lookup-store d.deletions key tt))
  get_path-delete_key d d' indexed true none h e =
      let same : record d { pending = remove d.pending key } ≡ d' = cc e in
      rw (sym same) (
        get_path-pending (record d { pending = remove d.pending key })
          (entry_for_path_key-none (record d { pending = remove d.pending key }) key h)
        ∙ lookup-remove d.pending key)
  get_path-delete_key d d' indexed false none h e = absurd (cc e)

module _ {V : Type 0} (host : Host V) where
  -- Where `byPath` leads each path to the entry of that path, `Get` gives the value that a `Set` of
  -- the same path has put there, for a path that has an entry, also a deleted one, and for a new
  -- one.
  pub get_path-set_path :
      (d d' : Document V) (path : Bytes) (v : V)
      → Indexed d
      → set_path host d path v ≡ ok d'
      → (get_path host d' path).0 ≡ some v
  unfolding set_path key
  get_path-set_path d d' path v indexed e =
      let (parts, read, e1) = >>=-eq-ok (parse_document_path path) _ e in
      let (repl, text, e2) =
        >>=-eq-ok (printed (format_value_for_path host d (join_document_path parts) v)) _ e1 in
      let same : put host d parts (join_document_path parts) repl v
            (entry_for_path_key d (join_document_path parts))
          ≡ d' =
        cc e2 in
      rw (sym same) (get_path-put host path parts read d repl v indexed)

  -- Where `byPath` leads each path to the entry of that path, `Get` finds nothing at a path that
  -- `Delete` has taken without an error, be it that of an entry or a pending one.
  pub get_path-delete_path :
      (d d' : Document V) (path : Bytes)
      → Indexed d
      → delete_path d path ≡ ok d'
      → (get_path host d' path).0 ≡ none
  unfolding delete_path key
  get_path-delete_path d d' path indexed e =
      let (parts, read, e1) = >>=-eq-ok (parse_document_path path) _ e in
      get_path-delete_key host path parts read d d' indexed
        (has (lookup d.pending (join_document_path parts)))
        (lookup d.by_path (join_document_path parts)) refl e1
