-- ===== src/Base.antt =====
-- Names, tests, lists, maps and results that every other module shares. No file of the repository
-- is modelled here: these are the operations of the standard library of Rust that it calls.
mod Tests
mod Lists
mod Maps
mod Results
mod Texts
pub mod State
pub use Tests.*
pub use Lists.*
unfoldable pub use Maps.{get, insert, remove}
pub use Maps.{HashMap, get-insert, get-remove}
pub use Results.*
unfoldable pub use Texts.{format}
pub use Prim.Native.Nat.{ℕ, zero, suc, ◌+◌, ◌-◌, ◌*◌, ◌/◌, ◌%◌, ◌^◌, ◌≤◌, ◌<◌}
pub use Prim.Native.String.{String}
pub use mathlib.Core.Path.{◌≡◌, refl, sym, ap, ◌∙◌, subst}
pub use mathlib.Core.Logic.{◌≢◌, ◌↔◌, ◌⊎◌, inl, inr}
pub use mathlib.Core.Bool.{Bool, true, false, not, ◌&&◌, ◌||◌}
pub use mathlib.Core.Option.{Option, none, some}
pub use mathlib.Core.List.{List, [], ◌∷◌, ◌++◌, map}
pub use native.Mathlib.Omega.{arith}
pub use text.Mathlib.Text.{◌==◌}
pub use text.Mathlib.TextEquality.{eq_iff}
pub use text.Mathlib.TextPositions.{eq_refl}
