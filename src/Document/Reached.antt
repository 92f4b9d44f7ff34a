-- ===== src/Document/Reached.antt =====
-- document.go: about the documents that a sequence of calls leads to.
use go_toml.Prelude.{
  ℕ, zero, suc, ◌≡◌, refl, sym, subst, Result, ok, Option, none, some, Bool, true, false, List, [],
  ◌∷◌, Bytes, length, >>=-eq-ok, Option-cases, Result-cases, Bool-cases, inl, inr,
}
use go_toml.Prelude.Maps.{lookup, store, remove, has}
use go_toml.Document.{
  Entry, Document, Host, parse_document_path, join_document_path, printed, entry_at,
  set_entry_value, entry_for_path_key, format_value_for_path, get_entry, get_path, put, set_path,
  delete_key, delete_path, insert_after,
}
use go_toml.Document.Edited.{Laid}
use go_toml.Document.Paths.{Indexed}

ok-inj {ℓ κ} : {E : Type ℓ} {A : Type κ} {a b : A} → ◌≡◌ {A = Result E A} (ok a) (ok b) → a ≡ b
ok-inj e = cc e

module _ {V : Type 0} where
  set_entry_value-Laid :
      (size pos : ℕ) (entries : List (Entry V)) (idx : ℕ) (v : V)
      → Laid size pos entries
      → Laid size pos (set_entry_value entries idx v)
  unfolding Laid set_entry_value
  set_entry_value-Laid size pos [] idx v h = h
  set_entry_value-Laid size pos (e ∷ entries) zero v h = h
  set_entry_value-Laid size pos (e ∷ entries) (suc idx) v (a, b, c, f, h) =
      (a, b, c, f, set_entry_value-Laid size e.line_end entries idx v h)

  -- An entry of that path.
  Named : List (Entry V) → ℕ → Bytes → Type 0
  Named entries idx key = (e : Entry V) × (entry_at entries idx ≡ some e) × (e.path_key ≡ key)

  set_entry_value-Named :
      (entries : List (Entry V)) (idx idx' : ℕ) (v : V) (key : Bytes)
      → Named entries idx key
      → Named (set_entry_value entries idx' v) idx key
  unfolding Named set_entry_value entry_at
  set_entry_value-Named [] idx idx' v key h = h
  set_entry_value-Named (f ∷ entries) zero zero v key (e, at, same) =
      let here : f ≡ e = cc at in
      (record f { value = some v }, refl, subst (λ (g : Entry V). g.path_key ≡ key) (sym here) same)
  set_entry_value-Named (f ∷ entries) zero (suc idx') v key h = h
  set_entry_value-Named (f ∷ entries) (suc idx) zero v key h = h
  set_entry_value-Named (f ∷ entries) (suc idx) (suc idx') v key h =
      set_entry_value-Named entries idx idx' v key h

  -- The lines of the entries lie one behind the other, and `byPath` leads to the entries.
  unfoldable pub IsWellFormed : Document V → Type 0
  IsWellFormed d = Laid (length d.raw) 0 d.entries × Indexed d

  valued :
      (d d' : Document V) (idx : ℕ) (v : V)
      → d'.raw ≡ d.raw
      → d'.by_path ≡ d.by_path
      → d'.entries ≡ set_entry_value d.entries idx v
      → IsWellFormed d
      → IsWellFormed d'
  unfolding IsWellFormed Indexed Named
  valued d d' idx v raw paths entries (laid, indexed) = (
    rw (raw, entries) (set_entry_value-Laid (length d.raw) 0 d.entries idx v laid),
    λ key j h.
        rw entries (set_entry_value-Named d.entries j idx v key (indexed key j (rw paths at h))),
  )

  delete_key-IsWellFormed :
      (d d' : Document V) (key : Bytes) (there is_pending : Bool)
      → delete_key d key there is_pending ≡ ok d'
      → IsWellFormed d
      → IsWellFormed d'
  unfolding delete_key IsWellFormed Indexed
  delete_key-IsWellFormed d d' key true is_pending e h =
      let same : record d {
        deletions = store d.deletions key tt;
        replacements = remove d.replacements key;
      }
          ≡ d' =
        cc e in
      subst IsWellFormed same h
  delete_key-IsWellFormed d d' key false true e h =
      let same : record d { pending = remove d.pending key } ≡ d' = cc e in
      subst IsWellFormed same h
  delete_key-IsWellFormed d d' key false false e h = absurd (cc e)

  insert_after-IsWellFormed :
      (d d' : Document V) (after_path path : Bytes) (v : V)
      → insert_after d after_path path v ≡ ok d'
      → IsWellFormed d
      → IsWellFormed d'
  unfolding insert_after IsWellFormed Indexed
  insert_after-IsWellFormed d d' after_path path v e h =
      let (after_parts, read, e1) = >>=-eq-ok (parse_document_path after_path) _ e in
      let after_key : Bytes = join_document_path after_parts in
      elim (Bool-cases (has (lookup d.by_path after_key))) [
        | inr missing ↦ let never = rw missing at e1 in absurd (cc never)
        | inl there ↦ elim (Bool-cases (has (lookup d.deletions after_key))) [
          | inl deleted ↦ let never = rw (there, deleted) at e1 in absurd (cc never)
          | inr kept ↦
              let (parts, read', e2) =
                >>=-eq-ok (parse_document_path path) _ (rw (there, kept) at e1) in
              subst IsWellFormed (ok-inj e2) h
        ]
      ]

module _ {V : Type 0} (host : Host V) where
  put-IsWellFormed :
      (d : Document V) (parts : List Bytes) (key repl : Bytes) (v : V)
      (found : Option (ℕ × Entry V))
      → IsWellFormed d
      → IsWellFormed (put host d parts key repl v found)
  unfolding IsWellFormed Indexed
  put-IsWellFormed d parts key repl v none h = h
  put-IsWellFormed d parts key repl v (some (idx, e)) h =
      valued d (put host d parts key repl v (some (idx, e))) idx v refl refl refl h

  set_path-IsWellFormed :
      (d d' : Document V) (path : Bytes) (v : V)
      → set_path host d path v ≡ ok d'
      → IsWellFormed d
      → IsWellFormed d'
  unfolding set_path
  set_path-IsWellFormed d d' path v e h =
      let (parts, read, e1) = >>=-eq-ok (parse_document_path path) _ e in
      let key : Bytes = join_document_path parts in
      let (repl, text, e2) = >>=-eq-ok (printed (format_value_for_path host d key v)) _ e1 in
      subst IsWellFormed (ok-inj e2)
        (put-IsWellFormed d parts key repl v (entry_for_path_key d key) h)

  delete_path-IsWellFormed :
      (d d' : Document V) (path : Bytes)
      → delete_path d path ≡ ok d'
      → IsWellFormed d
      → IsWellFormed d'
  unfolding delete_path
  delete_path-IsWellFormed d d' path e h =
      let (parts, read, e1) = >>=-eq-ok (parse_document_path path) _ e in
      let key : Bytes = join_document_path parts in
      delete_key-IsWellFormed d d' key (has (lookup d.by_path key)) (has (lookup d.pending key)) e1
        h

  get_entry-IsWellFormed :
      (d : Document V) (idx : ℕ) (e : Entry V)
      → IsWellFormed d
      → IsWellFormed ((get_entry host d idx e).1)
  get_entry-IsWellFormed d idx e h = elim (Bool-cases (has (lookup d.deletions e.path_key))) [
    | inl deleted ↦ rw deleted h
    | inr kept ↦ elim (Option-cases e.value) [
      | inr (v, known) ↦ rw (kept, known) h
      | inl unknown ↦ elim (Option-cases (host.parse_raw e.value_raw)) [
        | inl bad ↦ rw (kept, unknown, bad) h
        | inr (v, good) ↦
            rw (kept, unknown, good)
              (valued d (record d { entries = set_entry_value d.entries idx v }) idx v refl refl
                refl h)
      ]
    ]
  ]

  get_path-IsWellFormed :
      (d : Document V) (path : Bytes) → IsWellFormed d → IsWellFormed ((get_path host d path).1)
  unfolding get_path
  get_path-IsWellFormed d path h = elim (Result-cases (parse_document_path path)) [
    | inr (e, bad) ↦ rw (get_path, bad) h
    | inl (parts, read) ↦ elim (Option-cases (entry_for_path_key d (join_document_path parts))) [
      | inl free ↦ rw (get_path, read, free) h
      | inr ((idx, e), there) ↦ rw (get_path, read, there) (get_entry-IsWellFormed d idx e h)
    ]
  ]

-- The calls that change a document. `Get` keeps a value that it has read.
pub data Step {V : Type 0} (host : Host V) : Document V → Document V → Type 0 where
  by_set :
      {d d' : Document V} (path : Bytes) (v : V) → set_path host d path v ≡ ok d' → Step host d d'
  by_delete : {d d' : Document V} (path : Bytes) → delete_path d path ≡ ok d' → Step host d d'
  by_insert :
      {d d' : Document V} (after_path path : Bytes) (v : V)
      → insert_after d after_path path v ≡ ok d'
      → Step host d d'
  by_get : {d : Document V} (path : Bytes) → Step host d ((get_path host d path).1)

pub data Reached {V : Type 0} (host : Host V) : Document V → Document V → Type 0 where
  at_start : {d : Document V} → Reached host d d
  then_step : {d d' d'' : Document V} → Reached host d d' → Step host d' d'' → Reached host d d''

module _ {V : Type 0} (host : Host V) where
  Step-IsWellFormed : (d d' : Document V) → Step host d d' → IsWellFormed d → IsWellFormed d'
  Step-IsWellFormed d d' (by_set path v e) h = set_path-IsWellFormed host d d' path v e h
  Step-IsWellFormed d d' (by_delete path e) h = delete_path-IsWellFormed host d d' path e h
  Step-IsWellFormed d d' (by_insert after_path path v e) h =
      insert_after-IsWellFormed d d' after_path path v e h
  Step-IsWellFormed d d' (by_get path) h = get_path-IsWellFormed host d path h

  -- No sequence of calls of `Get`, `Set`, `InsertAfter` and `Delete` takes a document out of its form:
  -- the lines of its entries follow one another in the text, each with its value inside, and `byPath`
  -- leads each path that it has to the entry of that path.
  pub Reached-IsWellFormed :
      (d d' : Document V) → Reached host d d' → IsWellFormed d → IsWellFormed d'
  Reached-IsWellFormed d d' at_start h = h
  Reached-IsWellFormed d d'' (then_step {d'} before step) h =
      Step-IsWellFormed d' d'' step (Reached-IsWellFormed d d' before h)
