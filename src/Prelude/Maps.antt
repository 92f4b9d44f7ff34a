-- ===== src/Prelude/Maps.antt =====
-- Maps from strings, as lists of their pairs in which the first of a key counts.
use mathlib.Core.Path.{◌≡◌, refl}
use mathlib.Core.Logic.{inl, inr}
use mathlib.Core.Bool.{Bool, true, false}
use mathlib.Core.Option.{Option, none, some}
use mathlib.Core.List.{List, [], ◌∷◌}
use go_toml.Prelude.Tests.{Bytes, if◌then◌else◌, Bool-cases}
use go_toml.Prelude.Equal.{bytes_equal, bytes_equal_iff}

abbrev pub Map {ℓ} : Type ℓ → Type ℓ
Map A = List (Bytes × A)

pub bytes_equal_refl : (s : Bytes) → bytes_equal s s ≡ true
bytes_equal_refl s = (bytes_equal_iff s s).1 refl

module _ {ℓ} {A : Type ℓ} where
  -- `v, ok := m[key]`
  unfoldable pub lookup : Map A → Bytes → Option A
  unfolding bytes_equal
  lookup [] key = none
  lookup ((k, v) ∷ m) key = let rest = lookup m key in if bytes_equal k key then some v else rest

  -- `m[key] = v`
  abbrev pub store : Map A → Bytes → A → Map A
  store m key v = (key, v) ∷ m

  -- `delete(m, key)`
  unfoldable pub remove : Map A → Bytes → Map A
  unfolding bytes_equal
  remove [] key = []
  remove ((k, v) ∷ m) key =
      let rest = remove m key in if bytes_equal k key then rest else (k, v) ∷ rest

  abbrev pub has : Option A → Bool
  has none = false
  has (some v) = true

  pub lookup-store : (m : Map A) (key : Bytes) (v : A) → lookup (store m key v) key ≡ some v
  unfolding lookup
  lookup-store m key v = rw (lookup, bytes_equal_refl key) refl

  pub lookup-remove : (m : Map A) (key : Bytes) → lookup (remove m key) key ≡ none
  unfolding lookup remove
  lookup-remove [] key = refl
  lookup-remove ((k, v) ∷ m) key = elim (Bool-cases (bytes_equal k key)) [
    | inl same ↦ rw same (lookup-remove m key)
    | inr other ↦ rw other (rw (lookup, other) (lookup-remove m key))
  ]
