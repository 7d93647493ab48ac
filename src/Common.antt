-- ===== src/Common.antt =====
-- The names that every other module shares: the libraries' names passed on, Boolean tests on the
-- native numbers, lists, HTTP errors with the state-and-exception monad of the services, and the
-- interfaces of the third-party packages (the document store, the job queue, random numbers).
mod Tests
mod Lists
mod Errors
mod Ports
mod Documents
pub mod Async
pub mod Ensures
pub mod Memory
pub mod Keys
pub use Tests.*
pub use Lists.*
pub use Errors.*
pub use Ports.*
pub use Documents.*
pub use Prim.Native.Nat.{ℕ, zero, suc, ◌+◌, ◌-◌, ◌*◌, ◌/◌, ◌%◌, ◌≤◌, ◌<◌}
pub use mathlib.Core.Path.{◌≡◌, refl, sym, ap, subst, ◌∙◌}
pub use mathlib.Core.Logic.{◌≢◌, ◌↔◌, ◌⊎◌, inl, inr}
pub use mathlib.Core.Bool.{Bool, true, false, not, ◌&&◌, ◌||◌}
pub use mathlib.Core.Option.{Option, none, some}
pub use mathlib.Core.List.{List, [], ◌∷◌, ◌++◌, map}
pub use native.Mathlib.Omega.{arith}
