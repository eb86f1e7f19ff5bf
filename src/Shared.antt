-- ===== src/Shared.antt =====
-- The names that every module shares: the libraries', passed on, and those of the children below.
mod Tests
mod Equality
mod Lists
mod Search
mod Sort
mod Maps
mod Errors
mod Int
pub mod Bits
pub use Tests.*
pub use Equality.*
pub use Lists.*
pub use Search.*
pub use Sort.*
pub use Maps.*
pub use Errors.*
pub use Int.*
pub use Prim.Native.Nat.{ℕ, zero, suc, ◌+◌, ◌-◌, ◌*◌, ◌/◌, ◌%◌, ◌^◌, ◌≤◌, ◌<◌, min}
pub use Prim.Native.String.{String}
pub use mathlib.Core.Path.{◌≡◌, refl, sym, ap, subst, ◌∙◌}
pub use mathlib.Core.Logic.{◌≢◌, ◌↔◌, ◌⊎◌, inl, inr}
pub use mathlib.Core.Bool.{Bool, true, false, not, ◌&&◌, ◌||◌}
pub use mathlib.Core.Option.{Option, none, some}
pub use mathlib.Core.List.{List, [], ◌∷◌, ◌++◌, map, Memᴰ}
pub use native.Mathlib.Omega.{arith}
