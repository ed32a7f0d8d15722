-- ===== src/Prelude.antt =====
-- The names that the other modules share: the libraries' names passed on, the Boolean tests on
-- numbers, and the lemmas on lists, texts and dictionaries of the child modules.
mod Tests
mod Lists
mod Texts
mod Dicts
mod Slices
pub use Tests.*
unfoldable pub use Lists.*
unfoldable pub use Texts.*
pub use Texts.Words.*
pub use Texts.Within.*
unfoldable pub use Dicts.*
unfoldable pub use Slices.*
pub use Prim.Native.Nat.{ℕ, zero, suc, ◌+◌, ◌-◌, ◌*◌, ◌/◌, ◌%◌, ◌≤◌, ◌<◌, min, max}
pub use Prim.Native.String.{String}
pub use mathlib.Core.Path.{◌≡◌, refl, sym, ap, ◌∙◌}
pub use mathlib.Core.Logic.{◌≢◌, ◌⊎◌, inl, inr, ◌↔◌}
pub use mathlib.Core.Bool.{Bool, true, false, not, ◌&&◌, ◌||◌}
pub use mathlib.Core.Option.{Option, none, some}
pub use mathlib.Core.List.{List, [], ◌∷◌, ◌++◌, map, append-nil, append_assoc}
pub use native.Mathlib.Omega.{arith}
pub use text.Mathlib.Text.{◌==◌, starts_with}
pub use text.Mathlib.TextEquality.{eq_iff}
pub use text.Mathlib.TextPositions.{eq_refl}
