-- ===== src/Prelude.antt =====
-- The names that the other modules share: those of the libraries, passed on, and the children's
-- tests, lists, integers and results. They stand for the language and its standard library.
pub mod Tests
mod Lists
mod Fallible
mod Int
pub mod Bitwise
pub mod Decimal
pub mod Equal
pub mod Ends
pub mod Slices
pub mod Loop
pub mod Maps
pub mod Utf8
pub mod Space
pub use Tests.*
pub use Lists.*
pub use Fallible.*
pub use Int.*
pub use Prim.Native.Nat.{ℕ, zero, suc, ◌+◌, ◌-◌, ◌*◌, ◌/◌, ◌%◌, ◌^◌, ◌≤◌, ◌<◌, min}
pub use mathlib.Core.Path.{◌≡◌, refl, sym, ap, subst, ◌∙◌}
pub use mathlib.Core.Logic.{◌≢◌, ◌↔◌, ◌⊎◌, inl, inr}
pub use mathlib.Core.Bool.{Bool, true, false, not, ◌&&◌, ◌||◌}
pub use mathlib.Core.Option.{Option, none, some}
pub use mathlib.Core.List.{List, [], ◌∷◌, ◌++◌, append-nil, append_assoc}
pub use native.Mathlib.Omega.{arith}
