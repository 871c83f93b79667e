-- ===== src/Common.antt =====
-- The names that the other modules share: the libraries', passed on, and those of the children.
-- The children model what the service uses of Python: exceptions, `dict`, `datetime` and `str`.
mod Tests
mod Equality
mod Strings
mod Times
mod Dicts
mod Sweep
mod Counts
mod Indexes
mod Lengths
mod Census
mod Integers
pub mod Outcome
pub mod Action
pub use Tests.*
unfoldable pub use Equality.*
pub use Strings.*
unfoldable pub use Times.*
unfoldable pub use Dicts.*
unfoldable pub use Sweep.*
pub use Counts.*
pub use Indexes.*
pub use Lengths.*
pub use Integers.{ℤ, pos, negsuc}
pub use Census.{HasCount, count_where-HasCount}
pub use Outcome.{Result, ok, err, or_raise, raise_if, Result-cases}
pub use Prim.Native.Nat.{ℕ, zero, suc, ◌+◌, ◌≤◌, ◌<◌}
pub use Prim.Native.String.{String}
pub use mathlib.Core.Path.{◌≡◌, refl, sym, ap, ◌∙◌}
pub use mathlib.Core.Logic.{◌≢◌, ◌↔◌, ◌⊎◌, inl, inr}
pub use mathlib.Core.Bool.{Bool, true, false, not, ◌&&◌, ◌||◌}
pub use mathlib.Core.Option.{Option, none, some}
pub use mathlib.Core.List.{List, [], ◌∷◌, ◌++◌}
pub use native.Mathlib.Omega.{arith}
