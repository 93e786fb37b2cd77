-- ===== src/Base.antt =====
-- The names that the other modules share: the libraries', passed on, and those of the children
-- (tests, texts as byte lists, the sort of the standard library).
mod Logic
pub mod Bytes
pub mod Sort
pub mod Order
pub mod PairMap
pub mod Search
pub mod Splits
pub use Logic.*
unfoldable pub use Bytes.{text_eq, text_lt, has_prefix, has_suffix, contains}
pub use Bytes.{Text, codes, text_eq_refl, text_eq_iff, is_empty}
pub use Prim.Native.Nat.{ℕ, zero, suc, ◌+◌, ◌-◌, ◌*◌, ◌^◌, ◌≤◌, ◌<◌}
pub use mathlib.Core.Path.{◌≡◌, refl, sym, ap, ◌∙◌}
pub use mathlib.Core.Logic.{◌≢◌, ◌↔◌, ◌⊎◌, inl, inr}
pub use mathlib.Core.Bool.{Bool, true, false, not, ◌&&◌, ◌||◌}
pub use mathlib.Core.Option.{Option, none, some}
pub use mathlib.Core.List.{List, [], ◌∷◌, ◌++◌, map}
pub use native.Mathlib.Omega.{arith}
