-- ===== src/Prelude.antt =====
-- The names that the modules share: those of the libraries, passed on, and the helpers of the
-- children, which stand for what the Python of services/api/app uses of its own language.
pub mod Tests
pub mod Lists
pub mod Text
pub mod Dict
pub mod Codes
pub mod Sorting
pub mod Indexed
pub use Tests.*
pub use Lists.*
unfoldable pub use Text.*
pub use Prim.Native.Nat.{ℕ, zero, suc, ◌+◌, ◌-◌, ◌*◌, ◌/◌, ◌%◌, ◌^◌, ◌≤◌, ◌<◌}
pub use Prim.Native.String.{String, ◌++◌ as ◌<>◌}
pub use mathlib.Core.Path.{◌≡◌, refl, sym, ap, ap₂, ◌∙◌, subst}
pub use mathlib.Core.Logic.{◌≢◌, ◌↔◌, ◌⊎◌, inl, inr}
pub use mathlib.Core.Bool.{Bool, true, false, not, ◌&&◌, ◌||◌}
pub use mathlib.Core.Option.{Option, none, some}
pub use mathlib.Core.List.{List, [], ◌∷◌, ◌++◌, map, append-nil, append_assoc, map-append, Memᴰ}
pub use native.Mathlib.Omega.{arith}
