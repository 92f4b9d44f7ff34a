-- ===== src/Document/Examples.antt =====
-- Tests of Document, and the theorems about it at concrete inputs.
use go_toml.Prelude.{
  ℕ, ◌≡◌, refl, sym, subst, ◌∙◌, arith, inl, inr, Bool-cases, ℤ, pos, Result, ok, err, Option, none,
  some, [], ◌∷◌, ◌++◌, Bytes, codes, ◌>>=◌,
}
use go_toml.Prelude.Decimal.{itoa}
use go_toml.Prelude.Equal.{bytes_equal, bytes_equal_iff}
use go_toml.Prelude.Maps.{lookup}
use go_toml.Scan.Word.Bytewise.{all_bytes-AreBytes}
use go_toml.Values.Strings.{parse_string_value}
use go_toml.Values.Numbers.{parse_integer_literal}
use go_toml.Marshal.Quote.{MarshalError, write_quoted_string}
use go_toml.Document.{
  ValueKind, kind_string, kind_integer, Entry, Document, DocumentError, Host, get_path, set_path,
  delete_path, insert_after, format_string_like, entry_at,
}
use go_toml.Document.Splice.{document_bytes}
use go_toml.Document.Edited.{Laid, edited}
use go_toml.Document.Whole.{appended, document_bytes-edited}
use go_toml.Document.Paths.{Indexed, get_path-set_path, get_path-delete_path}
use go_toml.Document.Reached.{
  IsWellFormed, by_set, by_delete, Reached, at_start, then_step, Reached-IsWellFormed,
}
use go_toml.Document.Literal.{parse_string_value-format_string_like}

-- Strings and integers, the values of these tests.
data Simple : Type 0 where
  str : Bytes → Simple
  int : ℤ → Simple

abbrev write_simple : Simple → Result MarshalError Bytes
write_simple (str s) = write_quoted_string s
write_simple (int z) = ok (itoa z)

abbrev simple_kind : Simple → ValueKind
simple_kind (str s) = kind_string
simple_kind (int z) = kind_integer

abbrev simple_string : Simple → Option Bytes
simple_string (str s) = some s
simple_string (int z) = none

abbrev read_simple : Bytes → Option Simple
read_simple raw = elim (parse_string_value raw) [
  | ok s ↦ some (str s)
  | err e ↦ elim (parse_integer_literal raw) [ ok z ↦ some (int z) | err e' ↦ none ]
]

abbrev simple : Host Simple
simple = record {
  write_value = write_simple;
  kind_for_go_value = simple_kind;
  as_string = simple_string;
  parse_raw = read_simple;
}

abbrev first_entry : Entry Simple
first_entry = record {
  path_key = codes "a";
  value = none;
  value_raw = codes "1";
  value_start = 4;
  value_end = 5;
  line_start = 0;
  line_end = 6;
  kind = kind_integer;
}

abbrev second_entry : Entry Simple
second_entry = record {
  path_key = codes "b";
  value = none;
  value_raw = codes "'x'";
  value_start = 10;
  value_end = 13;
  line_start = 6;
  line_end = 14;
  kind = kind_string;
}

-- What `ParseDocument` makes of these two lines.
abbrev two_lines : Document Simple
two_lines = record {
  raw = codes "a = 1\nb = 'x'\n";
  entries = first_entry ∷ second_entry ∷ [];
  by_path = (codes "a", 0) ∷ (codes "b", 1) ∷ [];
  replacements = [];
  deletions = [];
  insertions = [];
  pending = [];
}

abbrev after_set : Result DocumentError (Document Simple)
after_set = set_path simple two_lines (codes "b") (str (codes "y\t")) >>= λ d.
    delete_path d (codes "a") >>= λ d'. set_path simple d' (codes "c") (int (pos 3))

abbrev document_of : Result DocumentError (Document Simple) → Document Simple
document_of (ok d) = d
document_of (err e) = two_lines

set_and_deleted : document_bytes simple (document_of after_set) ≡ codes "b = 'y\t'\nc = 3\n"
unfolding set_path delete_path document_bytes itoa
set_and_deleted = refl

-- A path that is new is printed once for every `Set`, each time with the last value.
set_twice :
    document_bytes simple (
      document_of (
        set_path simple two_lines (codes "c") (int (pos 3)) >>= λ d.
        set_path simple d (codes "c") (int (pos 4))))
    ≡ codes "a = 1\nb = 'x'\nc = 4\nc = 4\n"
unfolding set_path document_bytes itoa
set_twice = refl

inserted_after :
    document_bytes simple
      (document_of (insert_after two_lines (codes "a") (codes "c") (int (pos 3))))
    ≡ codes "a = 1\nc = 3\nb = 'x'\n"
unfolding insert_after document_bytes itoa
inserted_after = refl

abbrev edited_lines : Document Simple
edited_lines = record two_lines {
  replacements = (codes "b", codes "'y'") ∷ [];
  deletions = (codes "a", tt) ∷ [];
  insertions = record { after_path = []; path_key = codes "c"; path = codes "c" ∷ [] } ∷ [];
  pending = (codes "c", int (pos 3)) ∷ [];
}

edited_lines-Laid : Laid 14 0 edited_lines.entries
unfolding Laid
edited_lines-Laid = (
  omega arith,
  omega arith,
  omega arith,
  omega arith,
  (omega arith, omega arith, omega arith, omega arith, omega arith),
)

document_bytes-edited_example :
    document_bytes simple edited_lines
    ≡ edited edited_lines
        (appended simple edited_lines edited_lines.insertions)
        0
        edited_lines.entries
document_bytes-edited_example =
    document_bytes-edited simple edited_lines edited_lines-Laid (refl, tt)

two_lines-Indexed : Indexed two_lines
unfolding Indexed lookup entry_at
two_lines-Indexed key idx h = elim (Bool-cases (bytes_equal (codes "a") key)) [
  | inl same ↦
      let found : lookup two_lines.by_path key ≡ some 0 = rw (lookup, same) refl in
      let first : 0 ≡ idx = cc (sym found ∙ h) in
      subst (λ (i : ℕ). At key i) first
        (first_entry, refl, (bytes_equal_iff (codes "a") key).0 same)
  | inr other ↦ elim (Bool-cases (bytes_equal (codes "b") key)) [
    | inl same ↦
        let found : lookup two_lines.by_path key ≡ some 1 = rw (lookup, other, same) refl in
        let second : 1 ≡ idx = cc (sym found ∙ h) in
        subst (λ (i : ℕ). At key i) second
          (second_entry, refl, (bytes_equal_iff (codes "b") key).0 same)
    | inr none_of_them ↦
        let found : lookup two_lines.by_path key ≡ none = rw (lookup, other, none_of_them) refl in
        absurd (cc (sym found ∙ h))
  ]
]
  where
    At : Bytes → ℕ → Type 0
    At key i = (e : Entry Simple) × (entry_at two_lines.entries i ≡ some e) × (e.path_key ≡ key)

get_path-set_path_example :
    (get_path simple
      (document_of (set_path simple two_lines (codes "b") (str (codes "y"))))
      (codes "b")).0
    ≡ some (str (codes "y"))
unfolding set_path
get_path-set_path_example =
    get_path-set_path simple two_lines
      (document_of (set_path simple two_lines (codes "b") (str (codes "y")))) (codes "b")
      (str (codes "y")) two_lines-Indexed refl

get_path-delete_path_example :
    (get_path simple (document_of (delete_path two_lines (codes "b"))) (codes "b")).0 ≡ none
unfolding delete_path
get_path-delete_path_example =
    get_path-delete_path simple two_lines (document_of (delete_path two_lines (codes "b")))
      (codes "b") two_lines-Indexed refl

-- Every white space of Unicode is trimmed before the quotes are looked at.
like_spaced :
    format_string_like (0x0C ∷ (codes "'x'" ++ 0xE2 ∷ 0x80 ∷ 0xA8 ∷ [])) (codes "y")
    ≡ ok (codes "'y'")
unfolding format_string_like
like_spaced = refl

like_written : format_string_like (codes "'x'") (codes "y\t") ≡ ok (codes "'y\t'")
unfolding format_string_like
like_written = refl

parse_string_value-format_string_like_example :
    parse_string_value (codes "'y\t'") ≡ ok (codes "y\t")
parse_string_value-format_string_like_example =
    parse_string_value-format_string_like (codes "'x'") (codes "y\t") (codes "'y\t'")
      (all_bytes-AreBytes (codes "y\t") refl) like_written

two_lines-IsWellFormed : IsWellFormed two_lines
unfolding IsWellFormed Laid
two_lines-IsWellFormed = (
  (
    omega arith,
    omega arith,
    omega arith,
    omega arith,
    (omega arith, omega arith, omega arith, omega arith, omega arith),
  ),
  two_lines-Indexed,
)

abbrev one_deleted : Document Simple
one_deleted = document_of (delete_path two_lines (codes "a"))

one_deleted-Reached :
    Reached simple two_lines (document_of (set_path simple one_deleted (codes "b") (int (pos 3))))
unfolding set_path delete_path
one_deleted-Reached =
    then_step (then_step at_start (by_delete (codes "a") refl))
      (by_set (codes "b") (int (pos 3)) refl)

Reached-IsWellFormed_example :
    IsWellFormed (document_of (set_path simple one_deleted (codes "b") (int (pos 3))))
Reached-IsWellFormed_example =
    Reached-IsWellFormed simple two_lines
      (document_of (set_path simple one_deleted (codes "b") (int (pos 3)))) one_deleted-Reached
      two_lines-IsWellFormed
