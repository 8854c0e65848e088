-- ===== src/Base.antt =====
-- Names that every module shares: numbers, lists, bytes, Boolean tests, outcomes of C code.
mod Tests
mod Lists
mod CString
mod Faults
mod Nul
mod Decimal
pub use Tests.*
pub use Lists.*
pub use Nul.*
unfoldable pub use CString.*
pub use Decimal.Reading.*
pub use Decimal.{Strtol, EndsNumber}
unfoldable pub use Decimal.{strtol, print_u}
pub use Faults.*
pub use Prim.Native.Nat.{ℕ, zero, suc, ◌+◌, ◌-◌, ◌*◌, ◌/◌, ◌%◌, ◌^◌, ◌≤◌, ◌<◌}
pub use mathlib.Core.Path.{◌≡◌, refl, sym, ap, ◌∙◌, subst}
pub use mathlib.Core.Logic.{◌≢◌, ◌↔◌, ◌⊎◌, inl, inr}
pub use mathlib.Core.Bool.{Bool, true, false, not, ◌&&◌, ◌||◌}
pub use mathlib.Core.Option.{Option, none, some}
pub use mathlib.Core.List.{List, [], ◌∷◌, ◌++◌, append-nil, append_assoc}
pub use native.Mathlib.Omega.{arith}
