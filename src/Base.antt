-- ===== src/Base.antt =====
-- The names that the other modules share: the libraries', passed on, and those of the children.
mod Tests
mod Lists
pub mod Int
pub mod Text
pub mod Dict
mod Outcome
pub use Outcome.{Error, Result, ok, err, ok-injective, ◌>>=◌}
pub use Outcome.{key_error, type_error, index_error, value_error, struct_error, unicode_error}
pub use Outcome.{no_available_vms, libvirt_error, attribute_error}
pub use Outcome.{already_cancelled, already_called, pool_not_ready}
pub use Outcome.{file_not_found, recursion_error, permission_denied, is_a_directory, os_error}
pub use Tests.*
pub use Lists.*
pub use Prim.Native.Nat.{ℕ, zero, suc, ◌+◌, ◌-◌, ◌*◌, ◌/◌, ◌%◌, ◌^◌, ◌≤◌, ◌<◌, max, min}
pub use mathlib.Core.Path.{◌≡◌, refl, sym, ap, ◌∙◌}
pub use mathlib.Core.Logic.{◌≢◌, ◌↔◌, ◌⊎◌, inl, inr}
pub use mathlib.Core.Bool.{Bool, true, false, ◌&&◌, ◌||◌, not}
pub use mathlib.Core.Option.{Option, none, some}
pub use mathlib.Core.List.{List, [], ◌∷◌, ◌++◌, map}
pub use native.Mathlib.Omega.{arith}
