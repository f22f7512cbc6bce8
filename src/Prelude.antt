-- ===== src/Prelude.antt =====
-- Names that every module shares: the libraries' types and tactics, Boolean tests on the native
-- numbers, and lists that are measured and indexed by them.
mod Tests
mod Lists
mod Words
mod Assoc
mod Modular
pub mod Run
pub mod Paths
pub mod Text
pub use Tests.*
pub use Lists.*
pub use Modular.*
pub use Words.*
unfoldable pub use text.Mathlib.Text.{◌==◌ as str_eq}
unfoldable pub use Assoc.*
pub use Prim.Native.Nat.{ℕ, zero, suc, ◌+◌, ◌-◌, ◌*◌, ◌/◌, ◌%◌, ◌^◌, ◌≤◌, ◌<◌}
pub use Prim.Native.String.{String}
pub use mathlib.Core.Path.{◌≡◌, refl, sym, ap, ◌∙◌, subst}
pub use mathlib.Core.Logic.{◌≢◌, ◌↔◌, ◌⊎◌, inl, inr}
pub use mathlib.Core.Bool.{Bool, true, false, not, ◌&&◌, ◌||◌}
pub use mathlib.Core.Option.{Option, none, some}
pub use mathlib.Core.List.{List, [], ◌∷◌, ◌++◌, map}
pub use native.Mathlib.Omega.{arith}
