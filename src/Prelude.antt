-- ===== src/Prelude.antt =====
-- Names that the other modules share: those of the libraries, passed on, and the helpers on tests,
-- lists and byte slices.
pub mod Tests
pub mod Lists
pub mod Slices
pub mod Bits
pub mod Int
pub mod Modulo
pub mod FdSets
pub use Int.{ℤ, pos, negsuc}
pub use Slices.{Bytes, slice}
unfoldable pub use Slices.{copy, copy_at}
pub use Tests.*
pub use Lists.*
pub use Prim.Native.Nat.{ℕ, zero, suc, ◌+◌, ◌-◌, ◌*◌, ◌/◌, ◌%◌, ◌^◌, ◌≤◌, ◌<◌, min}
pub use mathlib.Core.Path.{◌≡◌, refl, sym, ap, ap₂, subst, ◌∙◌}
pub use mathlib.Core.Logic.{◌≢◌, ◌↔◌, ◌⊎◌, inl, inr}
pub use mathlib.Core.Bool.{Bool, true, false, not, ◌&&◌, ◌||◌}
pub use mathlib.Core.Option.{Option, none, some}
pub use mathlib.Core.List.{List, [], ◌∷◌, ◌++◌, map, append-nil, append_assoc}
pub use native.Mathlib.Omega.{arith}
