-- ===== src/Prelude.antt =====
-- Names that all modules share: the libraries', passed on, and those of the children (Boolean
-- tests, lists over the native numbers, machine words).
mod Tests
mod Lists
mod Words
mod Binary
pub mod OptionMonad
pub use Tests.*
pub use Binary.*
unfoldable pub use Binary.{bytes_equal}
pub use Lists.*
unfoldable pub use Words.{add64, sub64, slt}
pub use Words.{add64-eq, sub64-eq, slt-eq-ltb}
pub use Prim.Native.Nat.{ℕ, zero, suc, ◌+◌, ◌-◌, ◌*◌, ◌/◌, ◌%◌, ◌^◌, ◌≤◌, ◌<◌, min}
pub use mathlib.Core.Path.{◌≡◌, refl, sym, ap, ◌∙◌, subst}
pub use mathlib.Core.Logic.{◌≢◌, ◌↔◌, ◌⊎◌, inl, inr}
pub use mathlib.Core.Bool.{Bool, true, false, ◌&&◌, ◌||◌, not}
pub use mathlib.Core.Option.{Option, none, some}
pub use mathlib.Core.List.{List, [], ◌∷◌, ◌++◌, map, append_assoc, append-nil}
pub use native.Mathlib.Omega.{arith}
unfoldable pub use native.Mathlib.Decide.{dec_lt, ℕ_discrete}
