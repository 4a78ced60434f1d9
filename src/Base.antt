-- ===== src/Base.antt =====
-- Shared by every module: the libraries' names that the development uses, passed on, and the
-- children: Boolean tests (Tests), lists (Lists), Go's byte strings (Text, Strings), integers
-- (Numbers), paths (Paths), maps (Dict), Go's results and errors of error/error.go (Result), and
-- the file system that the Go code runs on (World).
mod Tests
mod Lists
pub mod Text
pub mod Strings
pub mod Numbers
pub mod Paths
pub mod Dict
pub mod Result
pub mod World
pub use Tests.*
pub use Lists.*
pub use Prim.Native.Nat.{ℕ, zero, suc, ◌+◌, ◌-◌, ◌*◌, ◌/◌, ◌%◌, ◌^◌, ◌≤◌, ◌<◌}
pub use mathlib.Core.Path.{◌≡◌, refl, sym, ap, ◌∙◌, fun_ext}
pub use mathlib.Core.Logic.{◌≢◌, ◌↔◌, ◌⊎◌, inl, inr}
pub use mathlib.Core.Bool.{Bool, true, false, not, ◌&&◌, ◌||◌}
pub use mathlib.Core.Option.{Option, none, some}
pub use mathlib.Core.List.{List, [], ◌∷◌, ◌++◌, map, append-nil, append_assoc}
pub use native.Mathlib.Omega.{arith}
