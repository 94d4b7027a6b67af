-- ===== src/Prelude.antt =====
-- Shared by all modules: names of the libraries, Boolean tests, lists over the native numbers,
-- 64-bit words, the outcome of Go code that may panic, and maps with uint64 keys.
mod Tests
mod Lists
mod Words
mod Outcome
mod Assoc
mod Strings
pub use Tests.*
pub use Lists.*
unfoldable pub use Words.*
unfoldable pub use Outcome.*
unfoldable pub use Assoc.*
unfoldable pub use Strings.*
pub use Prim.Native.Nat.{ℕ, zero, suc, ◌+◌, ◌-◌, ◌*◌, ◌/◌, ◌%◌, ◌^◌, ◌≤◌, ◌<◌}
pub use mathlib.Core.Path.{◌≡◌, refl, sym, ap, ap₂, ◌∙◌, subst}
pub use mathlib.Core.Logic.{◌≢◌, ◌↔◌, ◌⊎◌, inl, inr}
pub use mathlib.Core.Bool.{Bool, true, false, not, ◌&&◌, ◌||◌}
pub use mathlib.Core.Option.{Option, none, some}
pub use mathlib.Core.List.{List, [], ◌∷◌, ◌++◌}
pub use native.Mathlib.Omega.{arith}
unfoldable pub use native.Mathlib.Decide.{dec_lt, dec_le, ℕ_discrete}
