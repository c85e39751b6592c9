-- ===== src/Shared.antt =====
-- What the other modules share: the libraries' names, passed on, and those of the children.
mod Tests
mod Equality
mod Lists
mod Maps
mod Text
mod Results
mod Stores
unfoldable pub use Tests.*
unfoldable pub use Equality.*
unfoldable pub use Results.*
unfoldable pub use Lists.*
unfoldable pub use Maps.*
unfoldable pub use Stores.*
unfoldable pub use Text.*
pub use Prim.Native.Nat.{ℕ, zero, suc, ◌+◌, ◌-◌, ◌*◌, ◌≤◌, ◌<◌}
pub use mathlib.Core.Path.{◌≡◌, refl, sym, ap, ◌∙◌, subst}
pub use mathlib.Core.Logic.{◌≢◌, ◌↔◌, ◌⊎◌, inl, inr}
pub use mathlib.Core.Bool.{Bool, true, false, not, ◌&&◌, ◌||◌}
pub use mathlib.Core.Option.{Option, none, some}
pub use mathlib.Core.List.{append-nil, append_assoc, List, [], ◌∷◌, ◌++◌, map, Memᴰ}
pub use native.Mathlib.Omega.{arith}
