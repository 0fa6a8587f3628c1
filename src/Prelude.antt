-- ===== src/Prelude.antt =====
-- The names that the other modules share: the libraries', passed on, and those of the children.
mod Tests
mod Lists
mod Rows
mod Dicts
mod Outcomes
mod Pointwise
mod Numbers
mod Ints
pub mod Rings
pub use Tests.*
pub use Lists.*
unfoldable pub use Lists.{range_from, count}
unfoldable pub use Rows.{zip_with, replicate, concat}
pub use Rows.*
pub use Pointwise.*
unfoldable pub use Outcomes.{catch, for_each}
unfoldable pub use Dicts.{lookup, insert, remove, has}
pub use Dicts.*
pub use Outcomes.*
pub use Numbers.*
pub use Ints.*
pub use Prim.Native.Nat.{ℕ, zero, suc, ◌+◌, ◌-◌, ◌*◌, ◌/◌, ◌%◌, ◌^◌, ◌≤◌, ◌<◌, min, max}
pub use mathlib.Core.Path.{◌≡◌, refl, sym, ap, ◌∙◌, subst, fun_ext, ◌≡⟨◌⟩◌, ◌∎}
pub use mathlib.Core.Logic.{◌≢◌, ◌↔◌, ◌⊎◌, inl, inr}
pub use mathlib.Core.Bool.{Bool, true, false, ◌&&◌, ◌||◌, not}
pub use mathlib.Core.Option.{Option, none, some}
pub use mathlib.Core.List.{List, [], ◌∷◌, ◌++◌, map, append_assoc, append-nil}
pub use native.Mathlib.Omega.{arith}
