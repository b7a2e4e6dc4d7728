-- ===== src/Base.antt =====
-- Shared vocabulary: the library names that the other modules use, passed on, and those of the
-- children (Boolean tests, lists measured by native numbers, texts as byte lists).
mod Tests
mod Lists
mod Strings
mod Order
mod Sorted
mod Shuffled
mod Members
mod Split
mod Assoc
pub use Tests.*
unfoldable pub use Lists.{take, drop, filter, find, contains, replicate, insert_by, sort_by}
pub use Lists.*
unfoldable pub use Strings.{text_eq, text_lt, has_prefix, cut_prefix, split_on, join_with}
pub use Strings.*
pub use Order.*
pub use Sorted.*
pub use Shuffled.*
pub use Members.*
pub use Split.*
unfoldable pub use Assoc.{lookup_key, assign}
pub use Assoc.*
pub use Prim.Native.Nat.{ℕ, zero, suc, ◌+◌, ◌-◌, ◌*◌, ◌/◌, ◌%◌, ◌^◌, ◌≤◌, ◌<◌, min}
pub use Prim.Native.String.{String}
pub use mathlib.Core.Path.{◌≡◌, refl, sym, ap, ◌∙◌, subst}
pub use mathlib.Core.Logic.{◌≢◌, ◌↔◌, ◌⊎◌, inl, inr}
pub use mathlib.Core.Bool.{Bool, true, false, not, ◌&&◌, ◌||◌}
pub use mathlib.Core.Option.{Option, none, some}
pub use mathlib.Core.List.{List, [], ◌∷◌, ◌++◌, map}
pub use native.Mathlib.Omega.{arith}
