-- ===== src/Document/Splice.antt =====
-- document.go: the text of an edited document.
use go_toml.Prelude.{
  ℕ, suc, ◌+◌, ◌-◌, ok, err, Option, none, some, Bool, true, false, not, ◌&&◌, ◌||◌, List, [], ◌∷◌,
  ◌++◌, Bytes, length, drop, slice, get_or, ltb, ◌==◌, if◌then◌else◌,
}
use go_toml.Prelude.Maps.{lookup, has}
use go_toml.Document.{
  Entry, Insertion, Document, Host, entry_for_path_key, format_document_key_value,
}

-- `documentOp`. The spans that the code makes are never negative.
pub record Op : Type 0 where
  pub start : ℕ
  pub end : ℕ
  pub text : Bytes
  pub order : ℕ

abbrev pub list_length {ℓ} : {A : Type ℓ} → List A → ℕ
list_length [] = 0
list_length (x ∷ xs) = suc (list_length xs)

-- The order in which `Bytes` sorts.
unfoldable pub op_less : Op → Op → Bool
op_less x y =
    if x.start == y.start
    then (if x.end == y.end then ltb x.order y.order else ltb x.end y.end)
    else ltb x.start y.start

abbrev pub insert_op : Op → List Op → List Op
insert_op x [] = x ∷ []
insert_op x (y ∷ ops) =
    let behind = insert_op x ops in if op_less y x then y ∷ behind else x ∷ y ∷ ops

-- `sort.SliceStable(ops, ...)`
unfoldable pub sort_ops : List Op → List Op
unfolding op_less
sort_ops [] = []
sort_ops (x ∷ ops) = insert_op x (sort_ops ops)

-- The loop over the sorted edits, and the rest of the text behind them.
unfoldable pub splice : Bytes → ℕ → List Op → Bytes
splice raw cursor [] = drop cursor raw
splice raw cursor (op ∷ ops) =
    let skipped = splice raw cursor ops in
    let applied = splice raw op.end ops in
    if ltb op.start cursor || (ltb op.end op.start || ltb (length raw) op.end)
    then skipped
    else slice raw cursor op.start ++ op.text ++ applied

abbrev pub ends_with_newline : Bytes → Bool
ends_with_newline raw = get_or raw (length raw - 1) 0 == b'\n'

-- The newline that an insertion at the end needs before it.
abbrev pub newline_before : Bytes → Bytes
newline_before raw = if ltb 0 (length raw) && not (ends_with_newline raw) then b'\n' ∷ [] else []

abbrev pub is_nil {ℓ} : {A : Type ℓ} → List A → Bool
is_nil [] = true
is_nil (x ∷ xs) = false

module _ {V : Type 0} where
  -- The edit of an entry, where there is one; it has the number `order`.
  unfoldable pub entry_op : Document V → ℕ → Entry V → Option Op
  unfolding lookup
  entry_op d order e =
      if has (lookup d.deletions e.path_key)
      then some (record { start = e.line_start; end = e.line_end; text = []; order = order })
      else elim (lookup d.replacements e.path_key) [
        | none ↦ none
        | some repl ↦
            some (record { start = e.value_start; end = e.value_end; text = repl; order = order })
      ]

  -- The edits of the entries, of which the first has the number `order`.
  unfoldable pub entry_ops : Document V → ℕ → List (Entry V) → List Op
  unfolding entry_op
  entry_ops d order [] = []
  entry_ops d order (e ∷ entries) =
      let later = entry_ops d (order + 1) entries in
      let unchanged = entry_ops d order entries in
      elim (entry_op d order e) [ none ↦ unchanged | some op ↦ op ∷ later ]

module _ {V : Type 0} (host : Host V) (d : Document V) where
  -- The text of an insertion, where it is still pending and can be printed.
  unfoldable pub insertion_text : Insertion → Option Bytes
  unfolding lookup format_document_key_value
  insertion_text ins = elim (lookup d.pending ins.path_key) [
    | none ↦ none
    | some v ↦ elim (format_document_key_value host ins.path v) [
      | err e ↦ none
      | ok text ↦ some text
    ]
  ]

  -- The edit of an insertion with such a text.
  abbrev pub insertion_op : Insertion → ℕ → Bytes → Option Op
  insertion_op ins order text =
      if length ins.after_path == 0
      then some (record {
        start = length d.raw;
        end = length d.raw;
        text = newline_before d.raw ++ text;
        order = order;
      })
      else elim (entry_for_path_key d ins.after_path) [
        | none ↦ none
        | some (idx, e) ↦
            some (record { start = e.line_end; end = e.line_end; text = text; order = order })
      ]

  abbrev pub op_of : Insertion → ℕ → Option Bytes → Option Op
  op_of ins order none = none
  op_of ins order (some text) = insertion_op ins order text

  unfoldable pub insertion_ops : ℕ → List Insertion → List Op
  unfolding insertion_text entry_for_path_key
  insertion_ops order [] = []
  insertion_ops order (ins ∷ insertions) =
      let later = insertion_ops (order + 1) insertions in
      let unchanged = insertion_ops order insertions in
      elim (op_of ins order (insertion_text ins)) [ none ↦ unchanged | some op ↦ op ∷ later ]

  unfoldable pub document_ops : List Op
  unfolding entry_ops insertion_ops
  document_ops =
      let ops : List Op = entry_ops d 0 d.entries in
      ops ++ insertion_ops (list_length ops) d.insertions

  -- `Document.Bytes`
  unfoldable pub document_bytes : Bytes
  unfolding document_ops sort_ops splice
  document_bytes =
      if is_nil d.replacements && (is_nil d.deletions && is_nil d.insertions)
      then d.raw
      else splice d.raw 0 (sort_ops document_ops)
