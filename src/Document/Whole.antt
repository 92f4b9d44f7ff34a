-- ===== src/Document/Whole.antt =====
-- document.go: about the whole text that `Bytes` gives.
use go_toml.Prelude.{
  ℕ, suc, ◌+◌, ◌≤◌, ◌≡◌, refl, sym, ap, subst, ◌∙◌, arith, none, some, Bool, true, ◌&&◌, List, [],
  ◌∷◌, ◌++◌, Bytes, length, drop, slice, append-nil, append_assoc, All, inl, inr, Option-cases,
  Bool-cases,
}
use go_toml.Prelude.Slices.{slice-append-drop, drop_over}
use go_toml.Prelude.Maps.{lookup}
use go_toml.Document.{Entry, Insertion, Document, Host}
use go_toml.Document.Splice.{
  Op, list_length, sort_ops, splice, newline_before, is_nil, entry_op, entry_ops, insertion_text,
  insertion_ops, document_ops, document_bytes,
}
use go_toml.Document.Ordered.{Ordered, sort_ops-Ordered}
use go_toml.Document.Edited.{Laid, edited, entry_ops-none, splice-apply}
use go_toml.Document.Lines.{AtEnd, Writes, entry_ops-Writes}

nil_ways : {A : Type 0} (xs : List A) → is_nil xs ≡ true → xs ≡ []
nil_ways [] h = refl
nil_ways (x ∷ xs) h = absurd (cc h)

three_ways : (a b c : Bool) → (a && (b && c)) ≡ true → (a ≡ true) × (b ≡ true) × (c ≡ true)
three_ways a b c h = (ground (arith, h), ground (arith, h), ground (arith, h))

-- An insertion that was made by `Set`, not by `InsertAfter`.
abbrev pub IsAppended : Insertion → Type 0
IsAppended ins = ins.after_path ≡ []

module _ {V : Type 0} where
  entry_op-untouched :
      (d : Document V) (order : ℕ) (e : Entry V)
      → d.deletions ≡ []
      → d.replacements ≡ []
      → entry_op d order e ≡ none
  unfolding entry_op lookup
  entry_op-untouched d order e a b = rw (a, b) refl

  entry_ops-untouched :
      (d : Document V) (order : ℕ) (entries : List (Entry V))
      → d.deletions ≡ []
      → d.replacements ≡ []
      → entry_ops d order entries ≡ []
  unfolding entry_ops
  entry_ops-untouched d order [] a b = refl
  entry_ops-untouched d order (e ∷ entries) a b =
      entry_ops-none d order e entries (entry_op-untouched d order e a b)
      ∙ entry_ops-untouched d order entries a b

regroup_end : (a b c t : Bytes) → a ++ (b ++ c) ++ t ≡ a ++ (b ++ c ++ t)
regroup_end a b c t = simp append_assoc

module _ {V : Type 0} (host : Host V) (d : Document V) where
  -- What the insertions write at the end.
  unfoldable pub appended : List Insertion → Bytes
  unfolding insertion_text
  appended [] = []
  appended (ins ∷ insertions) =
      let rest = appended insertions in
      elim (insertion_text host d ins) [
        | none ↦ rest
        | some text ↦ newline_before d.raw ++ text ++ rest
      ]

  abbrev end_op : ℕ → Bytes → Op
  end_op order text = record {
    start = length d.raw;
    end = length d.raw;
    text = newline_before d.raw ++ text;
    order = order;
  }

  -- Where nothing was edited, the loop over no edits writes the text as it is.
  document_bytes-splice : document_bytes host d ≡ splice d.raw 0 (sort_ops (document_ops host d))
  unfolding document_bytes document_ops insertion_ops sort_ops splice
  document_bytes-splice = elim (Bool-cases untouched) [
    | inr h ↦ rw (document_bytes, h) refl
    | inl h ↦
        let (a, b, c) =
          three_ways (is_nil d.replacements) (is_nil d.deletions) (is_nil d.insertions) h in
        let ops : document_ops host d ≡ [] =
          rw
            (
              entry_ops-untouched d 0 d.entries (nil_ways d.deletions b)
                  (nil_ways d.replacements a),
              nil_ways d.insertions c,
            )
            refl in
        rw (document_bytes, h, ops) refl
  ]
    where
      untouched : Bool
      untouched = is_nil d.replacements && (is_nil d.deletions && is_nil d.insertions)

  -- The first insertion at the end, without a text and with one.
  module _ (ins : Insertion) (insertions : List Insertion) where
    appended-none :
        insertion_text host d ins ≡ none → appended (ins ∷ insertions) ≡ appended insertions
    unfolding appended
    appended-none h = rw (appended, h) refl

    appended-some :
        (text : Bytes)
        → insertion_text host d ins ≡ some text
        → appended (ins ∷ insertions) ≡ newline_before d.raw ++ text ++ appended insertions
    unfolding appended
    appended-some text h = rw (appended, h) refl

    insertion_ops-none :
        (order : ℕ)
        → insertion_text host d ins ≡ none
        → insertion_ops host d order (ins ∷ insertions) ≡ insertion_ops host d order insertions
    unfolding insertion_ops
    insertion_ops-none order h = rw (insertion_ops, h) refl

    insertion_ops-some :
        (order : ℕ) (text : Bytes)
        → IsAppended ins
        → insertion_text host d ins ≡ some text
        → insertion_ops host d order (ins ∷ insertions)
          ≡ end_op order text ∷ insertion_ops host d (order + 1) insertions
    unfolding insertion_ops
    insertion_ops-some order text here h = rw (insertion_ops, h, here) refl

  AtEnd-cons :
      (text tail : Bytes) (ops : List Op) (order : ℕ)
      → AtEnd d tail ops (order + 1)
      → AtEnd d (newline_before d.raw ++ text ++ tail) (end_op order text ∷ ops) order
  unfolding AtEnd Ordered
  AtEnd-cons text tail ops order (sorted, writes) = (
    λ p h. (h, omega arith, omega arith, sorted_end (length d.raw) (omega arith)),
    λ p h.
        splice-apply d.raw p (end_op order text) ops h (omega arith) (omega arith)
        ∙ ap (λ t. slice d.raw p (length d.raw) ++ (newline_before d.raw ++ text) ++ t)
            (writes (length d.raw) (omega arith)
              ∙ ap (λ t. t ++ tail) (drop_over d.raw (length d.raw) (omega arith)))
        ∙ ap (λ t. t ++ (newline_before d.raw ++ text) ++ tail) (sym (whole p h))
        ∙ regroup_end (drop p d.raw) (newline_before d.raw) text tail,
  )
    where
      number : order + 1 ≡ suc order
      number = omega arith

      sorted_end : (p : ℕ) → p ≤ length d.raw → Ordered p (suc order) ops
      sorted_end p h = subst (λ (o : ℕ). Ordered p o ops) number (sorted p h)

      whole : (p : ℕ) → p ≤ length d.raw → drop p d.raw ≡ slice d.raw p (length d.raw)
      whole p h =
          slice-append-drop d.raw p (length d.raw) h
          ∙ ap (λ t. slice d.raw p (length d.raw) ++ t)
              (drop_over d.raw (length d.raw) (omega arith))
          ∙ append-nil (slice d.raw p (length d.raw))

  insertion_ops-AtEnd :
      (insertions : List Insertion) (order : ℕ)
      → All IsAppended insertions
      → AtEnd d (appended insertions) (insertion_ops host d order insertions) order
  unfolding AtEnd appended insertion_ops Ordered splice
  insertion_ops-AtEnd [] order all = (λ p h. tt, λ p h. sym (append-nil (drop p d.raw)))
  insertion_ops-AtEnd (ins ∷ insertions) order (here, all) =
      elim (Option-cases (insertion_text host d ins)) [
        | inl h ↦
            rw (insertion_ops-none ins insertions order h, appended-none ins insertions h)
              (insertion_ops-AtEnd insertions order all)
        | inr (text, h) ↦
            rw
              (
                insertion_ops-some ins insertions order text here h,
                appended-some ins insertions text h,
              )
              (AtEnd-cons text (appended insertions) (insertion_ops host d (order + 1) insertions)
                order (insertion_ops-AtEnd insertions (order + 1) all))
      ]

  -- Where the lines of the entries follow one another in the text, each with its value inside, and
  -- every insertion was made by `Set`, `Bytes` gives the text with each line edited for itself: the
  -- line of a deleted entry is left out, in that of a replaced one the value alone is exchanged,
  -- every other byte is kept, and the pending insertions stand at the end.
  pub document_bytes-edited :
      Laid (length d.raw) 0 d.entries
      → All IsAppended d.insertions
      → document_bytes host d ≡ edited d (appended d.insertions) 0 d.entries
  unfolding Writes document_ops
  document_bytes-edited laid all =
      let ops : List Op = entry_ops d 0 d.entries in
      let ends : List Op = insertion_ops host d (list_length ops) d.insertions in
      let first : 0 + list_length ops ≡ list_length ops = omega arith in
      let (sorted, writes) : Writes d (appended d.insertions) ends 0 0 0 d.entries (ops ++ ends) =
        entry_ops-Writes d (appended d.insertions) ends d.entries 0 0 0 laid (
          subst (AtEnd d (appended d.insertions) ends) (sym first)
            (insertion_ops-AtEnd d.insertions (list_length ops) all)) in
      document_bytes-splice
      ∙ ap (splice d.raw 0) (sort_ops-Ordered (ops ++ ends) 0 0 sorted)
      ∙ writes (omega arith)
