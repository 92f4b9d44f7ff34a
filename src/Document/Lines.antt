-- ===== src/Document/Lines.antt =====
-- document.go: about the edits of the lines of a document, and the loop over them.
use go_toml.Prelude.{
  ℕ, suc, ◌+◌, ◌≤◌, ◌≡◌, sym, ap, subst, ◌∙◌, arith, none, some, List, [], ◌∷◌, ◌++◌, Bytes, length,
  drop, slice, append_assoc, inl, inr, Option-cases,
}
use go_toml.Prelude.Slices.{slice-append-drop}
use go_toml.Document.{Entry, Document}
use go_toml.Document.Splice.{Op, list_length, splice, entry_op, entry_ops}
use go_toml.Document.Ordered.{Ordered, Ordered-earlier}
use go_toml.Document.Edited.{
  slice-append_twice, regroup_line, regroup_edit, suc_inside, splice-apply, Laid, edited, Laid-end,
  EditOf, entry_op-EditOf, entry_ops-none, entry_ops-some,
}

module _ {V : Type 0} where
  module _ (d : Document V) (tail : Bytes) (ends : List Op) where
    -- The edits behind those of the entries stand at the end of the text, and write `tail`.
    unfoldable pub AtEnd : ℕ → Type 0
    AtEnd order =
        ((p : ℕ) → p ≤ length d.raw → Ordered p order ends)
        × ((p : ℕ) → p ≤ length d.raw → splice d.raw p ends ≡ drop p d.raw ++ tail)

    -- The edits from `pos` on are sorted, and a cursor before `pos` writes the edited text.
    unfoldable pub Writes : ℕ → ℕ → ℕ → List (Entry V) → List Op → Type 0
    Writes order pos cursor entries ops =
        Ordered pos order ops
        × (cursor ≤ pos
            → splice d.raw cursor ops ≡ slice d.raw cursor pos ++ edited d tail pos entries)

    -- A line that is kept, before edits that write the rest.
    module _ (e : Entry V) (entries : List (Entry V)) (pos cursor order : ℕ) (ops : List Op)
        (a : pos ≤ e.line_start) (inside : e.line_end ≤ length d.raw) where
      kept :
          e.line_start ≤ e.line_end
          → EditOf d order e none
          → Writes order e.line_end cursor entries ops
          → Writes order pos cursor (e ∷ entries) ops
      unfolding Writes EditOf edited
      kept b same (sorted, writes) = (
        Ordered-earlier ops e.line_end pos order order (omega (arith, a, b)) (omega arith) sorted,
        λ behind.
            writes (omega (arith, a, b, behind))
            ∙ ap (λ t. t ++ edited d tail e.line_end entries)
                (slice-append_twice d.raw cursor pos e.line_start e.line_end behind a b)
            ∙ regroup_line (slice d.raw cursor pos) (slice d.raw pos e.line_start)
                (slice d.raw e.line_start e.line_end) (edited d tail e.line_end entries)
            ∙ ap
                (λ t.
                  slice d.raw cursor pos
                  ++ (slice d.raw pos e.line_start ++ t ++ edited d tail e.line_end entries))
                (sym same),
      )

      -- A line with an edit.
      changed :
          (op : Op)
          → EditOf d order e (some op)
          → Writes (order + 1) e.line_end op.end entries ops
          → Writes order pos cursor (e ∷ entries) (op ∷ ops)
      unfolding Writes EditOf edited Ordered
      changed op (b, c, f, number, same) (sorted, writes) = (
        (
          omega (arith, a, b),
          c,
          omega (arith, number),
          Ordered-earlier ops e.line_end op.end (order + 1) (suc op.order) f (omega (arith, number))
              sorted,
        ),
        λ behind.
            splice-apply d.raw cursor op ops (omega (arith, behind, a, b)) c
              (omega (arith, f, inside))
            ∙ ap (λ t. slice d.raw cursor op.start ++ op.text ++ t) (writes f)
            ∙ ap
                (λ s.
                  s
                  ++ op.text
                  ++ (slice d.raw op.end e.line_end ++ edited d tail e.line_end entries))
                (slice-append_twice d.raw cursor pos e.line_start op.start behind a b)
            ∙ regroup_edit (slice d.raw cursor pos) (slice d.raw pos e.line_start)
                (slice d.raw e.line_start op.start) op.text (slice d.raw op.end e.line_end)
                (edited d tail e.line_end entries)
            ∙ ap
                (λ t.
                  slice d.raw cursor pos
                  ++ (slice d.raw pos e.line_start ++ t ++ edited d tail e.line_end entries))
                (sym same),
      )

    pub entry_ops-Writes :
        (entries : List (Entry V)) (order pos cursor : ℕ)
        → Laid (length d.raw) pos entries
        → AtEnd (order + list_length (entry_ops d order entries))
        → Writes order pos cursor entries (entry_ops d order entries ++ ends)
    unfolding Laid AtEnd Writes entry_ops edited
    entry_ops-Writes [] order pos cursor laid last =
        let e : order + 0 ≡ order = omega arith in
        (
          subst (λ (o : ℕ). Ordered pos o ends) e (last.0 pos laid),
          λ behind.
              last.1 cursor (omega (arith, laid, behind))
              ∙ ap (λ t. t ++ tail) (slice-append-drop d.raw cursor pos behind)
              ∙ append_assoc (slice d.raw cursor pos) (drop pos d.raw) tail,
        )
    entry_ops-Writes (e ∷ entries) order pos cursor (a, b, c, f, laid) last =
        let inside : e.line_end ≤ length d.raw = Laid-end (length d.raw) e.line_end entries laid in
        elim (Option-cases (entry_op d order e)) [
          | inl h ↦ rw (entry_ops-none d order e entries h) (
              kept e entries pos cursor order (entry_ops d order entries ++ ends) a inside
                (omega (arith, b, c, f))
                (subst (EditOf d order e) h (entry_op-EditOf d order e b c f))
                (entry_ops-Writes entries order e.line_end cursor laid (
                  subst (λ (ops : List Op). AtEnd (order + list_length ops))
                    (entry_ops-none d order e entries h) last)))
          | inr (op, h) ↦ rw (entry_ops-some d order e entries h) (
              changed e entries pos cursor order (entry_ops d (order + 1) entries ++ ends) a inside
                op (subst (EditOf d order e) h (entry_op-EditOf d order e b c f))
                (entry_ops-Writes entries (order + 1) e.line_end op.end laid (
                  subst AtEnd (suc_inside order (list_length (entry_ops d (order + 1) entries))) (
                    subst (λ (ops : List Op). AtEnd (order + list_length ops))
                      (entry_ops-some d order e entries h) last))))
        ]
