-- ===== src/Document/Edited.antt =====
-- document.go: about the text of a document whose values were replaced and whose lines were deleted.
use go_toml.Prelude.{
  ℕ, suc, ◌+◌, ◌-◌, ◌≤◌, ◌≡◌, refl, ap, ◌∙◌, arith, Option, none, some, Bool, true, false, ◌||◌,
  List, [], ◌∷◌, ◌++◌, Bytes, length, drop, slice, ltb, append_assoc, if◌then◌else◌,
}
use go_toml.Prelude.Slices.{slice-add, slice-nil}
use go_toml.Prelude.Maps.{lookup, has}
use go_toml.Document.{Entry, Document}
use go_toml.Document.Splice.{Op, splice, entry_op, entry_ops}

-- `xs[lo:hi]` cut at `i`.
slice-append :
    (xs : Bytes) (lo i hi : ℕ) → lo ≤ i → i ≤ hi → slice xs lo hi ≡ slice xs lo i ++ slice xs i hi
slice-append xs lo i hi h k =
    let e : hi ≡ i + (hi - i) = omega arith in ap (slice xs lo) e ∙ slice-add xs lo i (hi - i) h

pub slice-append_twice :
    (xs : Bytes) (lo i j hi : ℕ)
    → lo ≤ i
    → i ≤ j
    → j ≤ hi
    → slice xs lo hi ≡ slice xs lo i ++ slice xs i j ++ slice xs j hi
slice-append_twice xs lo i j hi a b c =
    slice-append xs lo j hi (omega (arith, a, b)) c
    ∙ ap (λ t. t ++ slice xs j hi) (slice-append xs lo i j a b)

pub regroup_line : (a b c e : Bytes) → (a ++ b ++ c) ++ e ≡ a ++ (b ++ c ++ e)
regroup_line a b c e = simp append_assoc

pub regroup_edit :
    (a b c t d e : Bytes) → (a ++ b ++ c) ++ t ++ (d ++ e) ≡ a ++ (b ++ (c ++ t ++ d) ++ e)
regroup_edit a b c t d e = simp append_assoc

pub suc_inside : (m n : ℕ) → m + suc n ≡ m + 1 + n
suc_inside m n = omega arith

-- The guards of the loop hold of an edit in range.
guards :
    (cursor start end size : ℕ)
    → cursor ≤ start
    → start ≤ end
    → end ≤ size
    → (ltb start cursor || (ltb end start || ltb size end)) ≡ false
guards cursor start end size a b c = ground arith

module _ (raw : Bytes) where
  pub splice-apply :
      (cursor : ℕ) (op : Op) (ops : List Op)
      → cursor ≤ op.start
      → op.start ≤ op.end
      → op.end ≤ length raw
      → splice raw cursor (op ∷ ops) ≡ slice raw cursor op.start ++ op.text ++ splice raw op.end ops
  unfolding splice
  splice-apply cursor op ops a b c =
      rw (splice, guards cursor op.start op.end (length raw) a b c) refl

module _ {V : Type 0} where
  -- The spans of the entries from `pos` on: each value within its line, and the lines one behind the
  -- other in a text of `size` bytes.
  unfoldable pub Laid : ℕ → ℕ → List (Entry V) → Type 0
  Laid size pos [] = pos ≤ size
  Laid size pos (e ∷ entries) =
      (pos ≤ e.line_start)
      × (e.line_start ≤ e.value_start)
      × (e.value_start ≤ e.value_end)
      × (e.value_end ≤ e.line_end)
      × Laid size e.line_end entries

  -- The line of an entry in the edited text.
  unfoldable pub edited_line : Document V → Entry V → Bytes
  unfolding lookup
  edited_line d e =
      if has (lookup d.deletions e.path_key) then [] else elim (lookup d.replacements e.path_key) [
        | none ↦ slice d.raw e.line_start e.line_end
        | some repl ↦
            slice d.raw e.line_start e.value_start ++ repl ++ slice d.raw e.value_end e.line_end
      ]

  -- The edited text from `pos` on, a line at a time, with `tail` behind it.
  unfoldable pub edited : Document V → Bytes → ℕ → List (Entry V) → Bytes
  unfolding edited_line
  edited d tail pos [] = drop pos d.raw ++ tail
  edited d tail pos (e ∷ entries) =
      slice d.raw pos e.line_start ++ edited_line d e ++ edited d tail e.line_end entries

  pub Laid-end : (size pos : ℕ) (entries : List (Entry V)) → Laid size pos entries → pos ≤ size
  unfolding Laid
  Laid-end size pos [] h = h
  Laid-end size pos (e ∷ entries) (a, b, c, f, h) =
      omega (arith, a, b, c, f, Laid-end size e.line_end entries h)

  -- What the edit of an entry has to do with the line of the entry.
  unfoldable pub EditOf : Document V → ℕ → Entry V → Option Op → Type 0
  EditOf d order e none = edited_line d e ≡ slice d.raw e.line_start e.line_end
  EditOf d order e (some op) =
      (e.line_start ≤ op.start)
      × (op.start ≤ op.end)
      × (op.end ≤ e.line_end)
      × (op.order ≡ order)
      × (edited_line d e
          ≡ slice d.raw e.line_start op.start ++ op.text ++ slice d.raw op.end e.line_end)

  pub entry_op-EditOf :
      (d : Document V) (order : ℕ) (e : Entry V)
      → e.line_start ≤ e.value_start
      → e.value_start ≤ e.value_end
      → e.value_end ≤ e.line_end
      → EditOf d order e (entry_op d order e)
  unfolding EditOf edited_line entry_op
  entry_op-EditOf d order e a b c = by_deletion (has (lookup d.deletions e.path_key)) refl
    where
      by_replacement :
          has (lookup d.deletions e.path_key) ≡ false
          → (found : Option Bytes) → lookup d.replacements e.path_key ≡ found
          → EditOf d order e (entry_op d order e)
      by_replacement kept none h = rw (entry_op, kept, h) (rw (edited_line, kept, h) refl)
      by_replacement kept (some repl) h =
          rw (entry_op, kept, h) (a, b, c, refl, rw (edited_line, kept, h) refl)

      by_deletion :
          (gone : Bool)
          → has (lookup d.deletions e.path_key) ≡ gone
          → EditOf d order e (entry_op d order e)
      by_deletion true h =
          rw (entry_op, h)
            (
              omega arith,
              omega (arith, a, b, c),
              omega arith,
              refl,
              rw (edited_line, h, slice-nil d.raw e.line_start, slice-nil d.raw e.line_end) refl,
            )
      by_deletion false h = by_replacement h (lookup d.replacements e.path_key) refl

  pub entry_ops-none :
      (d : Document V) (order : ℕ) (e : Entry V) (entries : List (Entry V))
      → entry_op d order e ≡ none
      → entry_ops d order (e ∷ entries) ≡ entry_ops d order entries
  unfolding entry_ops
  entry_ops-none d order e entries h = rw (entry_ops, h) refl

  pub entry_ops-some :
      (d : Document V) (order : ℕ) (e : Entry V) (entries : List (Entry V)) {op : Op}
      → entry_op d order e ≡ some op
      → entry_ops d order (e ∷ entries) ≡ op ∷ entry_ops d (order + 1) entries
  unfolding entry_ops
  entry_ops-some d order e entries h = rw (entry_ops, h) refl
