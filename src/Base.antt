-- ===== src/Base.antt =====
-- What the modules share: the libraries' names passed on, Boolean tests, lists over native numbers
-- and C strings. A C string is the list of its bytes without the closing NUL; a pointer into it is
-- the suffix that it points at, and the byte under a pointer at the end is 0.
mod Tests
mod Lists
mod Places
mod CStrings
mod Int
pub use Tests.*
pub use Lists.*
pub use Places.*
unfoldable pub use CStrings.*
pub use Int.*
pub use Prim.Native.Nat.{ℕ, zero, suc, ◌+◌, ◌-◌, ◌*◌, ◌/◌, ◌%◌, ◌^◌, ◌≤◌, ◌<◌}
pub use mathlib.Core.Path.{◌≡◌, refl, sym, ap, ◌∙◌}
pub use mathlib.Core.Logic.{◌≢◌, ◌↔◌, ◌⊎◌, inl, inr}
pub use mathlib.Core.Bool.{Bool, true, false, not, ◌&&◌, ◌||◌}
pub use mathlib.Core.Option.{Option, none, some}
pub use mathlib.Core.List.{List, [], ◌∷◌, ◌++◌, map, append_assoc, append-nil}
pub use native.Mathlib.Omega.{arith}
