-- ===== src/Prelude.antt =====
-- The names that the modules of this library share: the libraries', passed on, and the helpers
-- on tests, lists, texts and dictionaries of the child modules.
mod Tests
mod Lists
pub mod Text
pub mod Dict
pub mod Filter
pub mod Sort
pub use Tests.*
pub use Lists.*
pub use Text.{str_eq, str_append, eq_iff, is_empty, mem, remove_first, mem-append}
pub use Prim.Native.Nat.{ℕ, zero, suc, ◌+◌, ◌-◌, ◌*◌, ◌≤◌, ◌<◌}
pub use Prim.Native.String.{String}
pub use mathlib.Core.Path.{◌≡◌, refl, sym, ap, ◌∙◌, subst}
pub use mathlib.Core.Logic.{◌≢◌, ◌↔◌, ◌⊎◌, inl, inr}
pub use mathlib.Core.Bool.{Bool, true, false, not, ◌&&◌, ◌||◌}
pub use mathlib.Core.Option.{Option, none, some}
pub use mathlib.Core.List.{List, [], ◌∷◌, ◌++◌, map}
pub use native.Mathlib.Omega.{arith}
