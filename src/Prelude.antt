-- ===== src/Prelude.antt =====
-- The names that the modules of the development share: those of the libraries, passed on, and
-- those of the children.
mod Tests
pub mod Int
mod Lists
mod Results
mod Strings
mod Trimming
pub mod Numeral
pub mod Plain
pub use Tests.*
unfoldable pub use Int.*
pub use Lists.*
pub use Results.*
pub use Trimming.*
unfoldable pub use Strings.*
pub use Prim.Native.Nat.{ℕ, zero, suc, ◌+◌, ◌-◌, ◌*◌, ◌/◌, ◌%◌, ◌^◌, ◌≤◌, ◌<◌}
pub use Prim.Native.String.{String}
pub use mathlib.Core.Path.{◌≡◌, refl, sym, ap, subst, ◌∙◌}
pub use mathlib.Core.Logic.{◌≢◌, ◌↔◌, ◌⊎◌, inl, inr}
pub use mathlib.Core.Bool.{Bool, true, false, not, ◌&&◌, ◌||◌}
pub use mathlib.Core.Option.{Option, none, some}
pub use mathlib.Core.List.{List, [], ◌∷◌, ◌++◌, map, append_assoc, append-nil}
pub use native.Mathlib.Omega.{arith}
