-- ===== src/Base.antt =====
-- The names that all modules share: numbers, tests, lists, machine words, signed integers.
mod Tests
mod Lists
mod Word
mod Int
mod Store
mod Cells
pub use Tests.*
pub use Lists.*
pub use Word.*
pub use Int.*
pub use Cells.*
unfoldable pub use Store.{write_bytes}
pub use Store.{
  write_bytes-fits, write_bytes-overflows, write_bytes-splice, write_bytes-under, length-store16,
  length-store32,
}
pub use Prim.Native.Nat.{ℕ, zero, suc, ◌+◌, ◌-◌, ◌*◌, ◌/◌, ◌%◌, ◌^◌, ◌≤◌, ◌<◌, min}
pub use mathlib.Core.Path.{◌≡◌, refl, sym, ap, ◌∙◌, subst}
pub use mathlib.Core.Logic.{◌≢◌, ◌↔◌, ◌⊎◌, inl, inr}
pub use mathlib.Core.Bool.{Bool, true, false, ◌&&◌, ◌||◌, not}
pub use mathlib.Core.Option.{Option, none, some}
pub use mathlib.Core.List.{List, [], ◌∷◌, ◌++◌, map, append-nil, append_assoc}
pub use native.Mathlib.Omega.{arith}
