-- ===== src/Base.antt =====
-- The names that the modules of the development share: the libraries', passed on, and those of
-- the child modules (Boolean tests, lists over native numbers, bytes, text).
mod Tests
mod Lists
mod ByteStrings
mod Text
mod Pieces
pub mod Utf8
unfoldable pub use Utf8.{valid_utf8}
pub use Tests.*
pub use Lists.*
pub use ByteStrings.*
unfoldable pub use Text.*
unfoldable pub use Pieces.*
pub use Prim.Native.Nat.{ℕ, zero, suc, ◌+◌, ◌-◌, ◌*◌, ◌/◌, ◌%◌, ◌^◌, ◌≤◌, ◌<◌, bit_and, bit_or}
pub use mathlib.Core.Path.{◌≡◌, refl, sym, ap, ◌∙◌, subst}
pub use mathlib.Core.Logic.{◌≢◌, ◌↔◌, ◌⊎◌, inl, inr}
pub use mathlib.Core.Bool.{Bool, true, false, not, ◌&&◌, ◌||◌}
pub use mathlib.Core.Option.{Option, none, some}
unfoldable pub use mathlib.Core.Option.{map as option_map, bind as option_bind}
pub use mathlib.Core.List.{List, [], ◌∷◌, ◌++◌, map, map-append, append-nil, append_assoc}
pub use native.Mathlib.Omega.{arith}
