-- ===== src/Base.antt =====
-- The names that every module shares: the libraries', and those of the children.
pub mod Tests
pub mod Sets
pub mod Strings
pub mod Sort
pub mod Maps
pub mod Results
pub mod Int
pub use Tests.*
unfoldable pub use Sets.*
unfoldable pub use Strings.*
unfoldable pub use Maps.*
pub use Results.*
unfoldable pub use Sort.{sort, adjacent_duplicate, adjacent_duplicates}
pub use Int.{ℤ, pos, negsuc, int_eq}
pub use Prim.Native.Nat.{ℕ, zero, suc, ◌+◌, ◌-◌, ◌*◌, ◌≤◌, ◌<◌}
pub use Prim.Native.String.{String}
pub use mathlib.Core.Path.{◌≡◌, refl, sym, ap, ◌∙◌}
pub use mathlib.Core.Logic.{◌≢◌, ◌↔◌, ◌⊎◌, inl, inr}
pub use mathlib.Core.Bool.{Bool, true, false, ◌&&◌, ◌||◌, not}
pub use mathlib.Core.Option.{Option, none, some}
pub use mathlib.Core.List.{List, [], ◌∷◌, ◌++◌, map, append_assoc}
pub use native.Mathlib.Omega.{arith}
