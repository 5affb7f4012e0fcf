-- ===== src/Base.antt =====
-- What every module shares: names of the libraries passed on, and the children below. The children
-- model the parts of Python that the programs use (texts, dicts, sets, JSON values, exceptions).
mod Branching
mod Equality
mod Exceptions
pub mod Texts
pub mod Integers
pub mod Lists
pub mod Dict
pub mod Value
pub mod Sort
pub mod Splitting
pub mod Loops
unfoldable pub use Branching.*
unfoldable pub use Equality.*
unfoldable pub use Exceptions.*
unfoldable pub use Integers.*
unfoldable pub use Texts.*
pub use Prim.Native.Nat.{ℕ, zero, suc, ◌+◌, ◌-◌, ◌*◌, ◌/◌, ◌%◌, ◌^◌, ◌≤◌, ◌<◌}
pub use Prim.Native.String.{String}
pub use mathlib.Core.Path.{◌≡◌, refl, sym, ap, ap₂, subst, ◌∙◌}
pub use mathlib.Core.Logic.{◌≢◌, ◌↔◌, ◌⊎◌, inl, inr, ite, if_pos, if_neg}
pub use mathlib.Core.Bool.{Bool, true, false, ◌&&◌, ◌||◌, not}
pub use mathlib.Core.Option.{Option, none, some, some-injective}
pub use mathlib.Core.List.{List, [], ◌∷◌, ◌++◌, map, append_assoc, append-nil}
pub use native.Mathlib.Omega.{arith}
